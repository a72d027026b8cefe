-- ===== src/PageTable/Examples.antt =====
-- Page tables in a region of ten pages that are all free: the theorems there.
use kernalite.Base.{
  ℕ, ◌+◌, ◌*◌, ◌^◌, ◌≡◌, refl, inr, true, false, none, arith, ◌==◌, All, if◌then◌else◌, [], ◌∷◌,
}
use kernalite.Memory.{Mem, load64, SameOutside}
use kernalite.Allocator.{Allocator, page_alloc, alloc_loop, read_bit, mark_loop}
use kernalite.PageTable.{
  read_field, write_field, follow, pa_to_va, PagePermissions, page_table_init, map_page, write_leaf,
  get_page_table_entry_address,
}
use kernalite.PageTable.Descriptor.{valid, table, nlta_47_12, pxn_table, xn_table, ap_table}
use mathlib.Core.List.Memᴰ.{head, tail}
use kernalite.PageTable.Layout.{described, bits, read_field-bits}
use kernalite.PageTable.Leaf.{unused_fields, write_leaf_lem}
use kernalite.PageTable.Walk.{translate}
use kernalite.PageTable.Dump.{dump_memory_map, dump_loop, ro_ro, partial_v_addr}
use kernalite.PageTable.Collect.{collect}
use kernalite.PageTable.Listing.{page_line, dump_memory_map-translate}
use kernalite.PageTable.Tree.{IsPool, IsTree}
use kernalite.PageTable.Root.{FreeApart, page_table_init-page_alloc}
use kernalite.PageTable.Map.{IsOutcome, map_page-IsOutcome}

abbrev small : Allocator
small = record { mem_base = 0x4000_0000; bitmap = 0x100; total_pages = 10 }

abbrev blank : Mem
blank _ = 0

small-IsPool : IsPool small
small-IsPool = record { ready = omega arith; low = omega arith }

blank-FreeApart : FreeApart small blank
blank-FreeApart = λ j l e. inr (omega arith)

root_allocated : (page_alloc small 1 blank).0 ≡ 0x4000_0000
unfolding page_alloc alloc_loop read_bit mark_loop
root_allocated = refl

abbrev with_root : Mem
with_root = page_table_init (page_alloc small 1 blank).0 (page_alloc small 1 blank).1

abbrev root : ℕ
root = (page_alloc small 1 blank).0

page_table_init-page_alloc_example :
    IsTree small with_root root × ((v : ℕ) → translate with_root root v ≡ none)
page_table_init-page_alloc_example =
    page_table_init-page_alloc small blank small-IsPool blank-FreeApart
      (omega (arith, root_allocated))

abbrev read_only : PagePermissions
read_only = record { read = true; write = false; execute = false }

map_page-IsOutcome_example :
    IsOutcome small with_root root 0xffff_f000_0000_1000 0x1000 read_only
      (map_page small root 0xffff_f000_0000_1000 0x1000 read_only with_root)
map_page-IsOutcome_example =
    map_page-IsOutcome root 0xffff_f000_0000_1000 0x1000 read_only small-IsPool with_root
      page_table_init-page_alloc_example.0 (omega arith)

write_leaf_lem_example :
    let m' = write_leaf 0x800 0x1000 read_only blank in
    (read_field valid 0x800 m' ≡ 1)
    × (read_field table 0x800 m' ≡ 1)
    × (get_page_table_entry_address 0x800 m' ≡ 0x1000)
    × (read_field pxn_table 0x800 m' ≡ 1)
    × (read_field xn_table 0x800 m' ≡ 1)
    × (read_field ap_table 0x800 m' ≡ 1)
    × All (λ f. read_field f 0x800 m' ≡ 0) unused_fields
    × SameOutside 0x800 (0x800 + 8) blank m'
write_leaf_lem_example = write_leaf_lem 0x800 0x1000 read_only blank (omega arith) (omega arith)

-- An assignment to the second member, and the seventh.
read_field-bits_example :
    let m' = write_field table 3 0x800 blank in
    (read_field nlta_47_12 0x800 blank ≡ bits 47 12 (load64 blank 0x800))
    × (bits 47 12 (load64 m' 0x800) ≡ bits 47 12 (load64 blank 0x800))
    × SameOutside 0x800 (0x800 + 8) blank m'
read_field-bits_example =
    read_field-bits (described 1 1 table) (described 47 12 nlta_47_12) 3 0x800 blank
      (tail (head refl)) (tail (tail (tail (tail (tail (tail (head refl)))))))

-- Three tables whose first entries lead to a page: the root at 0, the others behind it.
abbrev chain : Mem
chain a =
    if a == 0
    then 1
    else if a == 1
    then 0x10
    else if a == 0x1000
    then 1
    else if a == 0x1001
    then 0x20
    else if a == 0x2000
    then 1
    else if a == 0x2001
    then 0x30
    else if a == 0x3008
    then 0x61
    else if a == 0x3009
    then 0x50
    else if a == 0x300f
    then 0x30
    else 0

dump_loop-chain :
    dump_loop 3 1 0 0 0 chain
    ≡ record {
      v_addr = 0x1000;
      phys_addr = 0x5000;
      flags = 0x61;
      xn = true;
      pxn = false;
      rights = ro_ro;
    }
      ∷ []
unfolding dump_loop read_field partial_v_addr follow get_page_table_entry_address pa_to_va load64
dump_loop-chain = refl

dump_memory_map-translate_example :
    dump_memory_map 0 chain ≡ collect (λ n. page_line n (translate chain 0 (n * 2 ^ 12))) 0 (2 ^ 36)
dump_memory_map-translate_example = dump_memory_map-translate 0 chain
