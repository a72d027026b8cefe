-- ===== src/System/Image/Examples.antt =====
-- The image of 64 pages through a boot on eight megabytes, an allocation, a write and a free.
use kernalite.Base.{
  ℕ, ◌+◌, ◌*◌, ◌≡◌, ◌^◌, ◌≤◌, true, false, refl, some, [], ◌∷◌, ◌++◌, arith, ◌∙◌, ap,
}
use kernalite.Memory.{Mem, store, store64, load64}
use kernalite.Allocator.{
  Allocator, page_size, page_alloc, alloc_loop, read_bit, mark_loop, set_bit, page_init, zero_loop,
  reserve_page, reserve_loop,
}
use kernalite.Allocator.Owners.{Block}
use kernalite.Boot.{main, start_allocator, reserve_kerenel_img_pages}
use kernalite.Boot.Examples.{symbols, unset, symbols-IsImage, eight_megabytes, fdt_at}
use kernalite.System.{Machine, allocated, written, mapped, Reach, here, next, alloc, write, map}
use kernalite.System.Execution.{started}
use kernalite.System.Image.{IsUndisturbed, main-IsUndisturbed}
use kernalite.PageTable.{page_table_init, init_loop}
use kernalite.PageTable.Confine.{IsOffBitmap}
use kernalite.Boot.Main.{main_described}
use kernalite.Base.Int.{pos}
use kernalite.Fdt.Examples.{one_node, blob, unset as unset_map, swap_lem, one_node-Searches}

abbrev booted : ℕ × Allocator × Mem
booted = start_allocator symbols unset 0x4000_0000 0x80_0000 blob

booted_done : booted ≡ (0, booted.1, booted.2)
unfolding start_allocator page_init zero_loop reserve_page reserve_loop reserve_kerenel_img_pages
    set_bit store
booted_done = refl

root_allocated : (page_alloc booted.1 1 booted.2).0 ≡ 0x4004_0000
unfolding page_alloc alloc_loop read_bit mark_loop start_allocator page_init zero_loop reserve_page
    reserve_loop reserve_kerenel_img_pages set_bit store
root_allocated = refl

abbrev allocator : Allocator
allocator = booted.1

abbrev first : Machine
first = started allocator booted.2

abbrev second : Machine
second = allocated allocator 2 first

abbrev block : Block
block = record { ptr = 0x4004_1000; count = 2 }

second_live : second.live ≡ [] ++ (block ∷ [])
unfolding allocated started page_table_init init_loop store64 page_alloc alloc_loop read_bit
    mark_loop start_allocator page_init zero_loop reserve_page reserve_loop
    reserve_kerenel_img_pages set_bit store
second_live = refl

abbrev third : Machine
third = written 0x4004_1234 7 second

abbrev fourth : Machine
fourth =
    mapped allocator (page_alloc allocator 1 booted.2).0 0x5000_0000 0x4004_1000
      (record { read = true; write = true; execute = false }) third

run : Reach allocator (page_alloc allocator 1 booted.2).0 first fourth
run =
    next (next (next here (alloc first 2)) (write second [] block [] _ 7 second_live (omega arith)))
      (map third 0x5000_0000 0x4004_1000 _)

main_returns :
    main (one_node 1 (pos 8)) symbols 10 0x7000 unset_map unset 0x6000 blob
    ≡ some (0, booted.1, booted.2)
main_returns =
    main_described (one_node 1 (pos 8)) symbols 10 0x7000 unset_map unset 0x6000 blob 9
      (swap_lem 1 (pos 8)) (one_node-Searches 1 (pos 8) blob (load64 blob 0x6000)) (omega arith)
      (omega arith) (omega arith) (record { base = 0x4000_0000; size = 0x80_0000 })
      (rw fdt_at eight_megabytes)
    ∙ ap some booted_done

region_low : allocator.mem_base + allocator.total_pages * page_size ≤ 2 ^ 48
unfolding start_allocator page_init reserve_kerenel_img_pages reserve_page
region_low = omega arith

outside_bitmap : IsOffBitmap allocator 0x4000_0123
unfolding start_allocator page_init reserve_kerenel_img_pages reserve_page
outside_bitmap = omega arith

main-IsUndisturbed_example :
    IsUndisturbed allocator (page_alloc allocator 1 booted.2).0 booted.2 fourth 0x4000_0123
main-IsUndisturbed_example =
    main-IsUndisturbed (one_node 1 (pos 8)) symbols 10 0x7000 unset_map unset 0x6000 blob 9
      (swap_lem 1 (pos 8)) (one_node-Searches 1 (pos 8) blob (load64 blob 0x6000)) (omega arith)
      (omega arith) (omega arith) (record { base = 0x4000_0000; size = 0x80_0000 }) booted.1
      booted.2 symbols-IsImage (rw fdt_at eight_megabytes) (omega arith) main_returns region_low
      (omega (arith, root_allocated)) fourth run 0x4000_0123 (omega arith) (omega arith)
      outside_bitmap
