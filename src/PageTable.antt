-- ===== src/PageTable.antt =====
-- kernel/page_table/page_table.c: page tables in memory and `map_page`, which allocates the tables
-- that it misses by `page_alloc`. A `page_table_entry_t *` is the address of the entry. Messages
-- are left out.
pub mod Descriptor
pub mod Lens
pub mod Layout
pub mod Shown
pub mod Leaf
pub mod Walk
pub mod Tree
pub mod Confine
pub mod Keep
pub mod Extend
pub mod Grow
pub mod Next
pub mod Place
pub mod Map
pub mod Root
pub mod Dump
pub mod Collect
pub mod Lookup
pub mod Listing
mod Examples
use kernalite.Base.{
  ℕ, zero, suc, ◌+◌, ◌-◌, ◌*◌, ◌/◌, ◌%◌, ◌^◌, bit_and, Bool, true, false, not, ◌||◌, ◌==◌, ltb, leb,
  if◌then◌else◌, u64, sub64, ◌<<<◌, ◌>>>◌,
}
use kernalite.Memory.{Mem, load64, store64}
use kernalite.Allocator.{Allocator, page_alloc}
use Descriptor.{
  Field, get, put, valid, table, nlta_47_12, pxn_table, xn_table, ap_table,
  el0_no_restriction_el1_no_restriction, el0_no_write_el1_no_write, el0_no_access_el1_no_write,
}

abbrev pub ptrs_per_table : ℕ
ptrs_per_table = 512

abbrev pub page_shift : ℕ
page_shift = 12

abbrev pub idx_mask : ℕ
idx_mask = 0x1ff

abbrev pub kernel_base_va : ℕ
kernel_base_va = 0x0

pub record PagePermissions : Type 0 where
  pub read : Bool
  pub write : Bool
  pub execute : Bool

-- `&table->entries[idx]`
abbrev pub entry_at : ℕ → ℕ → ℕ
entry_at base idx = base + idx * 8

-- `entry->f` and `entry->f = x`
unfoldable pub read_field : Field → ℕ → Mem → ℕ
read_field f entry m = get f (load64 m entry)

pub write_field : Field → ℕ → ℕ → Mem → Mem
write_field f x entry m = store64 m entry (put f x (load64 m entry))

pub set_page_table_entry_address : ℕ → ℕ → Mem → Mem
set_page_table_entry_address entry addr m =
    write_field nlta_47_12 (bit_and addr 0xffff_ffff_f000 >>> page_shift) entry m

unfoldable pub get_page_table_entry_address : ℕ → Mem → ℕ
get_page_table_entry_address entry m = u64 (read_field nlta_47_12 entry m <<< page_shift)

pub va_to_pa : ℕ → ℕ
va_to_pa v_addr = sub64 v_addr kernel_base_va

unfoldable pub pa_to_va : ℕ → ℕ
pa_to_va p_addr = u64 (kernel_base_va + p_addr)

pub set_next_level_table : ℕ → ℕ → Mem → Mem
set_next_level_table entry next_table_addr m =
    write_field table 1 entry
      (write_field valid 1 entry (set_page_table_entry_address entry next_table_addr m))

-- The loop of `page_table_init` at entry `i`, with `rounds` entries left.
unfoldable pub init_loop : ℕ → ℕ → ℕ → Mem → Mem
init_loop base zero i m = m
init_loop base (suc rounds) i m = init_loop base rounds (i + 1) (store64 m (entry_at base i) 0)

unfoldable pub page_table_init : ℕ → Mem → Mem
page_table_init base m = init_loop base ptrs_per_table 0 m

pub allocate_new_table : Allocator → ℕ → Mem → Bool × Mem
allocate_new_table a entry m =
    let (new_table, m') = page_alloc a 1 m in
    if new_table == 0
    then (false, m')
    else (true, set_next_level_table entry (va_to_pa new_table) (page_table_init new_table m'))

-- The second half of `get_next_level_table`, on an entry that is valid by now.
unfoldable pub follow : ℕ → Mem → ℕ
follow entry m = pa_to_va (get_page_table_entry_address entry m)

pub get_next_level_table : Allocator → ℕ → Mem → ℕ × Mem
get_next_level_table a entry m =
    if read_field valid entry m == 0
    then (let (done, m') = allocate_new_table a entry m in
        if done then (follow entry m', m') else (0, m'))
    else (follow entry m, m)

-- `(v_addr >> start_bit) & idx_mask`
abbrev pub index_of : ℕ → ℕ → ℕ
index_of v_addr start_bit = bit_and (v_addr >>> start_bit) idx_mask

-- What `map_page` writes to the entry at level 3.
pub write_leaf : ℕ → ℕ → PagePermissions → Mem → Mem
write_leaf entry phy_addr perms m =
    let m = store64 m entry 0 in
    let m = set_page_table_entry_address entry phy_addr m in
    let m = write_field valid 1 entry m in
    let m = write_field table 1 entry m in
    let m =
      if perms.execute
      then write_field pxn_table 0 entry (write_field xn_table 0 entry m)
      else write_field pxn_table 1 entry (write_field xn_table 1 entry m) in
    let m =
      if perms.write
      then write_field ap_table el0_no_restriction_el1_no_restriction entry m
      else write_field ap_table el0_no_write_el1_no_write entry m in
    if perms.read then m else write_field ap_table el0_no_access_el1_no_write entry m

pub map_page : Allocator → ℕ → ℕ → ℕ → PagePermissions → Mem → Bool × Mem
map_page a root v_addr phy_addr perms m =
    if not (bit_and phy_addr 0xfff == 0)
    then (false, m)
    else let l0_idx = index_of v_addr 39 in
      let l1_idx = index_of v_addr 30 in
      let l2_idx = index_of v_addr 21 in
      let l3_idx = index_of v_addr 12 in
      let (level1, m1) = get_next_level_table a (entry_at root l0_idx) m in
      if level1 == 0
      then (false, m1)
      else let (level2, m2) = get_next_level_table a (entry_at level1 l1_idx) m1 in
        if level2 == 0
        then (false, m2)
        else let (level3, m3) = get_next_level_table a (entry_at level2 l2_idx) m2 in
          if level3 == 0
          then (false, m3)
          else (true, write_leaf (entry_at level3 l3_idx) phy_addr perms m3)
