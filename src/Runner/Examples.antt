-- ===== src/Runner/Examples.antt =====
-- The tests of the kernel on an allocator of ten free pages and memory full of zeros.
use kernalite.Base.{◌≡◌, ◌≢◌, ◌↔◌, ◌⊎◌, inr, true, All, arith}
use kernalite.Memory.{Mem, store}
use kernalite.Allocator.{Allocator, page_alloc, alloc_loop, read_bit, mark_loop, set_bit}
use kernalite.PageTable.Tree.{IsPool, IsTree}
use kernalite.PageTable.Next.{IsFull}
use kernalite.PageTable.Root.{FreeApart}
use kernalite.Runner.{mappings, verify_map, run_internal_tests}
use kernalite.Runner.Verify.{IsConfirmed}
use kernalite.Runner.Passes.{IsBlank, IsTranslated, run_internal_tests-outcome}

abbrev small : Allocator
small = record { mem_base = 0x4000_0000; bitmap = 0x100; total_pages = 10 }

abbrev blank : Mem
blank _ = 0

small-IsPool : IsPool small
small-IsPool = record { ready = omega arith; low = omega arith }

blank-FreeApart : FreeApart small blank
blank-FreeApart = λ j l e. inr (omega arith)

root_allocated : (page_alloc small 1 blank).0 ≢ 0
unfolding page_alloc alloc_loop read_bit mark_loop
root_allocated = ground arith

root_blank : IsBlank (page_alloc small 1 blank).1 (page_alloc small 1 blank).0
unfolding page_alloc alloc_loop read_bit mark_loop set_bit store
root_blank p low high = ground arith

run_internal_tests-outcome_example :
    let root = (page_alloc small 1 blank).0 in
    let (code, m') = run_internal_tests small blank in
    (((code ≡ 0) × All (IsTranslated m' root) mappings) ⊎ ((code ≡ 1) × IsFull small m'))
    × IsTree small m' root
    × ((verify_map root 0xffff_f000_0000_2000 0x2000 m' ≡ true)
        ↔ IsConfirmed m' root 0xffff_f000_0000_2000 0x2000)
run_internal_tests-outcome_example =
    run_internal_tests-outcome small blank 0xffff_f000_0000_2000 0x2000 small-IsPool blank-FreeApart
      root_allocated root_blank
