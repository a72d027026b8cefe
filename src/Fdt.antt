-- ===== src/Fdt.antt =====
-- kernel/fdt/fdt.c: the check of the device tree and the memory map that is read from it. libfdt is a
-- submodule; its calls are the fields of `LibFdt`, on the memory of the machine, with `int` results
-- as integers. Messages are left out.
pub mod Laws
pub mod Contents
pub mod Entries
pub mod Regions
pub mod Outcome
pub mod Examples
use Prim.Native.String.{String}
use kernalite.Base.{
  ℕ, zero, suc, ◌+◌, ◌*◌, ◌/◌, ◌%◌, ◌^◌, bit_or, Bool, true, false, not, ◌||◌, Option, none, some,
  ◌==◌, ltb, leb, if◌then◌else◌, u64,
}
use kernalite.Base.Int.{ℤ, pos, negsuc}
use kernalite.Memory.{Mem, load32}

-- The calls of libfdt and its error numbers. `fdt_getprop` returns the pointer and `*len`.
pub record LibFdt : Type 0 where
  pub fdt_err_badmagic : ℕ
  pub fdt_err_badversion : ℕ
  pub fdt_err_badstate : ℕ
  pub fdt_err_internal : ℕ
  pub fdt_check_header : Mem → ℕ → ℤ
  pub fdt_path_offset : Mem → ℕ → String → ℤ
  pub fdt_address_cells : Mem → ℕ → ℤ → ℤ
  pub fdt_size_cells : Mem → ℕ → ℤ → ℤ
  pub fdt_node_offset_by_prop_value : Mem → ℕ → ℤ → String → String → ℕ → ℤ
  pub fdt_getprop : Mem → ℕ → ℤ → String → ℕ × ℤ
  pub fdt32_to_cpu : ℕ → ℕ

abbrev pub max_mem_regions : ℕ
max_mem_regions = 16

pub record MemoryRegion : Type 0 where
  pub base : ℕ
  pub size : ℕ

pub record MemoryMap : Type 0 where
  pub regions : ℕ → MemoryRegion
  pub count : ℕ

-- `-x`, for an error number.
abbrev pub neg : ℕ → ℤ
neg zero = pos 0
neg (suc n) = negsuc n

-- `mmap->regions[mmap->count] = ...; mmap->count++;`
unfoldable pub add_region : ℕ → ℕ → MemoryMap → MemoryMap
add_region base size map = record {
  regions = λ i. if i == map.count then record { base = base; size = size } else map.regions i;
  count = map.count + 1;
}

-- `x < 1 || x > 2` on an `int`.
abbrev pub one_or_two : ℤ → Option ℕ
one_or_two (pos n) = if n == 1 || n == 2 then some n else none
one_or_two (negsuc n) = none

module _ (lib : LibFdt) where
  -- Only the code 0 is a valid tree; the other cases of the `switch` differ in their messages.
  unfoldable pub check_fdt : Mem → ℕ → Bool
  check_fdt m ptr =
      if ptr == 0
      then false
      else (elim (lib.fdt_check_header m ptr) [ pos err ↦ err == 0 | negsuc err ↦ false ])

  -- `for (j = 0; j < cells; j++) value = (value << 32) | fdt32_to_cpu(ptr[j]);`
  unfoldable pub cells_loop : ℕ → ℕ → ℕ → Mem → ℕ
  cells_loop zero ptr value m = value
  cells_loop (suc cells) ptr value m =
      cells_loop cells (ptr + 4) (bit_or (u64 (value * 2 ^ 32)) (lib.fdt32_to_cpu (load32 m ptr))) m

  -- The loop over the entries of a `reg` property at entry `i`, with `rounds` entries left.
  unfoldable pub entries_loop : ℕ → ℕ → ℕ → ℕ → ℕ → Mem → MemoryMap → MemoryMap
  entries_loop address_cell size_cell reg zero i m map = map
  entries_loop address_cell size_cell reg (suc rounds) i m map =
      let ptr = reg + i * (address_cell + size_cell) * 4 in
      let base = cells_loop address_cell ptr 0 m in
      let size = cells_loop size_cell (ptr + address_cell * 4) 0 m in
      let next =
        entries_loop address_cell size_cell reg rounds (i + 1) m
          (if ltb 0 size then add_region base size map else map) in
      if leb max_mem_regions map.count then map else next

  -- The body of the loop over the memory nodes, on the property `reg` and its length; `none` is the
  -- return of `-FDT_ERR_BADSTATE`.
  unfoldable pub read_reg : ℕ → ℕ → Mem → MemoryMap → ℕ × ℤ → Option MemoryMap
  read_reg address_cell size_cell m map (reg, negsuc n) = some map
  read_reg address_cell size_cell m map (reg, pos n) =
      let entry_size = (address_cell + size_cell) * 4 in
      if reg == 0 || n == 0
      then some map
      else if ltb n entry_size || not (n % entry_size == 0)
      then none
      else some (entries_loop address_cell size_cell reg (n / entry_size) 0 m map)

  -- The loop over the memory nodes behind `node`.
  unfoldable pub nodes_loop : ℕ → ℕ → ℕ → Mem → ℕ → ℤ → MemoryMap → Option (ℤ × MemoryMap)
  nodes_loop zero address_cell size_cell m fdt node map = none
  nodes_loop (suc fuel) address_cell size_cell m fdt node map =
      elim (lib.fdt_node_offset_by_prop_value m fdt node "device_type" "memory" 7) [
        | negsuc n ↦ some (pos 0, map)
        | pos n ↦
            elim (read_reg address_cell size_cell m map (lib.fdt_getprop m fdt (pos n) "reg")) [
              | none ↦ some (neg lib.fdt_err_badstate, map)
              | some map' ↦ nodes_loop fuel address_cell size_cell m fdt (pos n) map'
            ]
      ]

  -- `map` is the memory map at the address `mmap`.
  unfoldable pub get_mem : ℕ → Mem → ℕ → ℕ → MemoryMap → Option (ℤ × MemoryMap)
  get_mem fuel m fdt mmap map =
      if fdt == 0 || mmap == 0
      then some (neg lib.fdt_err_internal, map)
      else let map' : MemoryMap = record { regions = map.regions; count = 0 } in
        elim (lib.fdt_path_offset m fdt "/") [
          | negsuc n ↦ some (negsuc n, map')
          | pos root ↦ elim (one_or_two (lib.fdt_address_cells m fdt (pos root))) [
            | none ↦ some (neg lib.fdt_err_badstate, map')
            | some address_cell ↦ elim (one_or_two (lib.fdt_size_cells m fdt (pos root))) [
              | none ↦ some (neg lib.fdt_err_badstate, map')
              | some size_cell ↦ nodes_loop fuel address_cell size_cell m fdt (negsuc 0) map'
            ]
          ]
        ]
