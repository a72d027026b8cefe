-- ===== src/System/Examples.antt =====
-- A client and a mapping at work in a region of ten pages that are all free.
use kernalite.Base.{◌↔◌, ℕ, ◌^◌, ◌≡◌, refl, inr, true, false, arith, [], ◌∷◌, ◌++◌}
use kernalite.Memory.{Mem, store, store64}
use kernalite.Allocator.{Allocator, page_alloc, alloc_loop, read_bit, mark_loop, set_bit}
use kernalite.Allocator.Owners.{Block}
use kernalite.PageTable.{PagePermissions, page_table_init, init_loop}
use kernalite.PageTable.Dump.{dump_memory_map}
use kernalite.PageTable.Collect.{collect}
use kernalite.System.Execution.{request_line}
use kernalite.PageTable.Tree.{IsPool}
use kernalite.PageTable.Root.{FreeApart}
use kernalite.System.{
  Machine, allocated, mapped, written, freed, alloc, map, write, free, Reach, here, next,
}
use kernalite.System.Sound.{IsSound}
use kernalite.System.Accounted.{HasUse}
use kernalite.System.Pages.{page_used-Reach}
use kernalite.Allocator.Bitmap.{page_used}
use kernalite.System.Execution.{started, started-IsSound, Reach-IsSound, dump_memory_map-Reach}

abbrev small : Allocator
small = record { mem_base = 0x4000_0000; bitmap = 0x100; total_pages = 10 }

abbrev blank : Mem
blank _ = 0

small-IsPool : IsPool small
small-IsPool = record { ready = omega arith; low = omega arith }

blank-FreeApart : FreeApart small blank
blank-FreeApart = λ j l e. inr (omega arith)

root_allocated : (page_alloc small 1 blank).0 ≡ 0x4000_0000
unfolding page_alloc alloc_loop read_bit mark_loop
root_allocated = refl

abbrev root : ℕ
root = (page_alloc small 1 blank).0

abbrev first : Machine
first = started small blank

abbrev second : Machine
second = allocated small 2 first

abbrev block : Block
block = record { ptr = 0x4000_1000; count = 2 }

second_live : second.live ≡ [] ++ (block ∷ [])
unfolding allocated started page_table_init init_loop page_alloc alloc_loop read_bit mark_loop
    set_bit store store64
second_live = refl

abbrev third : Machine
third = written 0x4000_1234 7 second

abbrev read_only : PagePermissions
read_only = record { read = true; write = false; execute = false }

abbrev fourth : Machine
fourth = mapped small root 0xffff_f000_0000_1000 0x4000_1000 read_only third

fourth_live : fourth.live ≡ [] ++ (block ∷ [])
unfolding mapped written
fourth_live = second_live

-- A block of two pages is allocated, a byte of it is written, and its first page is mapped.
run_to_fourth : Reach small root first fourth
run_to_fourth =
    next (next (next here (alloc first 2)) (write second [] block [] _ 7 second_live (omega arith)))
      (map third 0xffff_f000_0000_1000 0x4000_1000 read_only)

-- The block is freed.
run : Reach small root first (freed small block [] fourth)
run = next run_to_fourth (free fourth [] block [] fourth_live)

Reach-IsSound_example : IsSound small root (freed small block [] fourth)
Reach-IsSound_example =
    Reach-IsSound small-IsPool
      (started-IsSound small blank small-IsPool blank-FreeApart (omega (arith, root_allocated))) run

dump_memory_map-Reach_example :
    dump_memory_map root (freed small block [] fourth).mem
    ≡ collect (λ n. request_line n ((freed small block [] fourth).page_map n)) 0 (2 ^ 36)
dump_memory_map-Reach_example =
    dump_memory_map-Reach small blank (freed small block [] fourth) small-IsPool blank-FreeApart
      (omega (arith, root_allocated)) run

page_used-Reach_example :
    (page_used 0x100 fourth.mem 2 ≡ true) ↔ HasUse small root blank fourth.mem fourth.live 2
page_used-Reach_example =
    page_used-Reach small blank fourth small-IsPool blank-FreeApart (omega (arith, root_allocated))
      run_to_fourth 2 (omega arith)
