-- ===== src/Boot.antt =====
-- kernel/main.c: the boot sequence, from the check of the device tree to the reserved pages of the
-- kernel's image. The serial port is set up in Console; the messages are left out.
pub mod Image
pub mod Main
pub mod Console
pub mod Regions
pub mod Examples
use kernalite.Base.{
  Option, none, some, ◌==◌, not, ℕ, ◌+◌, ◌-◌, ◌/◌, Bool, true, false, u64, sub64, if◌then◌else◌,
}
use kernalite.Base.Int.{ℤ, pos, negsuc}
use kernalite.Memory.{Mem, load64}
use kernalite.Fdt.{LibFdt, MemoryMap, check_fdt, get_mem}
use kernalite.Allocator.{Allocator, Symbols, page_size, page_init, reserve_page}

abbrev pub get_image_size : Symbols → ℕ
get_image_size sym = sub64 sym.image_end sym.image_start

unfoldable pub reserve_kerenel_img_pages : Symbols → Allocator → Mem → Bool × Mem
reserve_kerenel_img_pages sym a m =
    let img_size = get_image_size sym in
    let num_pages = u64 (img_size + page_size - 1) / page_size in
    reserve_page a sym.image_start num_pages m

-- `main` from the call of `page_init` on: the exit code, the allocator and the memory.
unfoldable pub start_allocator : Symbols → Allocator → ℕ → ℕ → Mem → ℕ × Allocator × Mem
start_allocator sym a base size m =
    let (page_init_result, a', m') = page_init sym a base size m in
    if page_init_result
    then (let (reserved, m'') = reserve_kerenel_img_pages sym a' m' in
        if reserved then (0, a', m'') else (1, a', m''))
    else (1, a', m')

-- The exit code, the allocator and the memory. The local variable `mmap` lies at the address `mmap`
-- and holds `map` at first; `fuel` bounds the search of the device tree.
unfoldable pub main :
    LibFdt → Symbols → ℕ → ℕ → MemoryMap → Allocator → ℕ → Mem → Option (ℕ × Allocator × Mem)
main lib sym fuel mmap map a boot_args_ptr m =
    let fdt_addr = load64 m boot_args_ptr in
    if not (check_fdt lib m fdt_addr)
    then some (1, a, m)
    else (elim (get_mem lib fuel m fdt_addr mmap map) [
      | none ↦ none
      | some (negsuc err, map') ↦ some (1, a, m)
      | some (pos err, map') ↦
          if not (map'.count == 1)
          then some (1, a, m)
          else some (start_allocator sym a (map'.regions 0).base (map'.regions 0).size m)
    ])
