-- ===== src/Allocator/Examples.antt =====
-- The allocator over a region of ten pages whose page 1 is in use: runs, and the theorems there.
use kernalite.Base.{ℕ, ◌-◌, ◌^◌, ◌<◌, ◌≡◌, refl, ◌⊎◌, true, false, some, List, [], ◌∷◌, arith}
use kernalite.Memory.{Mem, store}
use kernalite.Allocator.{
  Allocator, Symbols, set_bit, read_bit, page_init, page_alloc, alloc_loop, mark_loop, page_free,
  reserve_page,
}
use kernalite.Allocator.Bitmap.{page_used, IsUpdate}
use kernalite.Allocator.Search.{IsReady, IsAllocated, IsRefused, page_alloc-first_fit}
use kernalite.Allocator.Free.{page_free-IsUpdate, page_free_wrapped, page_free-page_alloc}
use kernalite.Allocator.Reserve.{
  FitsRegion, LeavesRegion, reserve_page-outcome, reserve_page_unaligned, reserve_page_overflow,
}
use kernalite.Allocator.Init.{IsLinked, IsInitialised, IsUnusable, page_init-outcome}
use kernalite.Allocator.Abstract.{
  Call, alloc_call, free_call, reserve_call, perform_all, abstract_all,
}
use kernalite.Allocator.Abstract.Refine.{perform_all-abstract_all}
use kernalite.Allocator.Dump.{BlockLine, page_dump_status, Describes, page_dump_status-Describes}

abbrev small : Allocator
small = record { mem_base = 0x4000_0000; bitmap = 0x100; total_pages = 10 }

abbrev blank : Mem
blank _ = 0

one_used : Mem
unfolding set_bit store
one_used = set_bit 0x100 1 blank

small-IsReady : IsReady small
small-IsReady = omega arith

-- Page 0 is free but too short a run, so three pages start at page 2.
alloc_three : (page_alloc small 3 one_used).0 ≡ 0x4000_2000
unfolding page_alloc alloc_loop read_bit one_used mark_loop
alloc_three = refl

page_alloc-first_fit_example :
    ((s : ℕ) × IsAllocated small 3 one_used s (page_alloc small 3 one_used))
    ⊎ IsRefused small 3 one_used (page_alloc small 3 one_used)
page_alloc-first_fit_example = page_alloc-first_fit small 3 one_used small-IsReady (omega arith)

page_free-IsUpdate_example :
    IsUpdate 0x100 8 10 false one_used (page_free small 0x4000_8000 5 one_used)
page_free-IsUpdate_example =
    page_free-IsUpdate small 0x4000_8000 5 one_used small-IsReady (omega arith) (omega arith)

page_free_wrapped_example : page_free small 0x4000_1000 (2 ^ 64 - 1) one_used ≡ one_used
page_free_wrapped_example =
    page_free_wrapped small 0x4000_1000 (2 ^ 64 - 1) one_used small-IsReady (omega arith)
      (omega arith) (omega arith)

page_free-page_alloc_example :
    page_used 0x100
      (page_free small (page_alloc small 3 one_used).0 3 (page_alloc small 3 one_used).1)
      2
    ≡ page_used 0x100 one_used 2
page_free-page_alloc_example =
    page_free-page_alloc small 3 one_used small-IsReady (omega arith) (omega (arith, alloc_three)) 2

reserve_page-outcome_example :
    (FitsRegion small 0x4000_3000 2
      × ((reserve_page small 0x4000_3000 2 one_used).0 ≡ true)
      × IsUpdate 0x100 3 5 true one_used (reserve_page small 0x4000_3000 2 one_used).1)
    ⊎ (LeavesRegion small 0x4000_3000 2
        × (reserve_page small 0x4000_3000 2 one_used ≡ (false, one_used)))
reserve_page-outcome_example =
    reserve_page-outcome small 0x4000_3000 2 one_used small-IsReady (omega arith) (omega arith)

reserve_page_unaligned_example :
    ((reserve_page small 0x4000_3800 1 one_used).0 ≡ true)
    × (4 < 10)
    × (page_used 0x100 (reserve_page small 0x4000_3800 1 one_used).1 4 ≡ page_used 0x100 one_used 4)
reserve_page_unaligned_example =
    reserve_page_unaligned small 0x4000_3800 1 one_used small-IsReady (omega arith) (omega arith)
      (omega arith)

reserve_page_overflow_example :
    ((reserve_page small 0x4000_3000 (2 ^ 52) one_used).0 ≡ true)
    × (page_used 0x100 (reserve_page small 0x4000_3000 (2 ^ 52) one_used).1 10 ≡ true)
reserve_page_overflow_example =
    reserve_page_overflow small 0x4000_3000 (2 ^ 52) one_used small-IsReady 0 (omega arith)
      (omega arith) (omega arith) (omega arith)

abbrev symbols : Symbols
symbols = record {
  image_start = 0x4000_0000;
  image_end = 0x4002_0000;
  bit_map_start = 0x4000_8000;
  bit_map_end = 0x4001_8000;
}

abbrev unset : Allocator
unset = record { mem_base = 0; bitmap = 0; total_pages = 0 }

symbols-IsLinked : IsLinked symbols
symbols-IsLinked = omega arith

page_init-outcome_example :
    (((page_init symbols unset 0x4000_0000 0x80_0000 blank).0 ≡ true)
      × IsInitialised symbols 0x4000_0000 0x80_0000 blank
          (page_init symbols unset 0x4000_0000 0x80_0000 blank).1
          (page_init symbols unset 0x4000_0000 0x80_0000 blank).2)
    ⊎ (((page_init symbols unset 0x4000_0000 0x80_0000 blank).0 ≡ false)
        × ((page_init symbols unset 0x4000_0000 0x80_0000 blank).2 ≡ blank)
        × IsUnusable symbols 0x4000_0000 0x80_0000)
page_init-outcome_example =
    page_init-outcome symbols unset 0x4000_0000 0x80_0000 blank symbols-IsLinked (omega arith)

dump_lines :
    page_dump_status small one_used
    ≡ some (
        record { first_byte = 0x4000_0000; last_byte = 0x4000_0fff; is_used = false; pages = 1 }
        ∷ record { first_byte = 0x4000_1000; last_byte = 0x4000_1fff; is_used = true; pages = 1 }
        ∷ record { first_byte = 0x4000_2000; last_byte = 0x4000_9fff; is_used = false; pages = 8 }
        ∷ [])
unfolding page_dump_status one_used
dump_lines = refl

page_dump_status-Describes_example :
    (ls : List BlockLine) × (page_dump_status small one_used ≡ some ls)
    × Describes small one_used 0 ls
page_dump_status-Describes_example =
    page_dump_status-Describes small one_used small-IsReady (omega arith)

-- Two pages are reserved, three are allocated and freed; the last two requests are refused.
abbrev calls : List Call
calls =
    reserve_call 0x4000_5000 2
    ∷ alloc_call 3
    ∷ free_call 0x4000_2000 3
    ∷ alloc_call 0
    ∷ alloc_call 9
    ∷ []

perform_all-abstract_all_example :
    abstract_all small calls (page_used 0x100 one_used)
    ≡ ((perform_all small calls one_used).0, page_used 0x100 (perform_all small calls one_used).1)
perform_all-abstract_all_example =
    perform_all-abstract_all small calls one_used small-IsReady (omega arith)
