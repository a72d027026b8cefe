-- ===== src/Boot/Examples.antt =====
-- The boot with an image of 64 pages at the start of eight megabytes of memory.
use kernalite.Base.{
  ℕ, ◌≤◌, ◌≡◌, refl, ◌⊎◌, inl, List, false, if◌then◌else◌, ◌==◌, [], ◌∷◌, some, arith,
}
use kernalite.Memory.{Mem, load64}
use kernalite.Allocator.{Allocator, Symbols}
use kernalite.Boot.{start_allocator, main}
use kernalite.Base.Int.{pos}
use kernalite.Fdt.Regions.{last, found}
use kernalite.Fdt.Examples.{
  one_node, blob, unset as unset_map, swap_lem, one_node-Searches, one_node-IsTree, read_region,
}
use kernalite.Uart.{UartDevice, unset as no_driver}
use kernalite.Print.{Serial, kprintf}
use kernalite.Print.Render.{Renders, plain, ended}
use kernalite.Boot.Console.{main_console, writes, kprintf-main_console}
use kernalite.Boot.Main.{Describes, IsRun, main-IsRun, main-outcome}
use kernalite.Boot.Image.{IsImage, IsStarted, IsStopped, start_allocator-outcome}

abbrev pub symbols : Symbols
symbols = record {
  image_start = 0x4000_0000;
  image_end = 0x4004_0000;
  bit_map_start = 0x4002_0000;
  bit_map_end = 0x4003_0000;
}

abbrev pub unset : Allocator
unset = record { mem_base = 0; bitmap = 0; total_pages = 0 }

abbrev blank : Mem
blank _ = 0

pub symbols-IsImage : IsImage symbols
symbols-IsImage = record {
  linked = omega arith;
  on_page = omega arith;
  around_start = omega arith;
  around_end = omega arith;
  not_empty = omega arith;
  no_wrap = omega arith;
}

abbrev booted : ℕ × Allocator × Mem
booted = start_allocator symbols unset 0x4000_0000 0x80_0000 blank

start_allocator-outcome_example :
    ((booted.0 ≡ 0) × IsStarted symbols booted.1 booted.2)
    ⊎ ((booted.0 ≡ 1) × IsStopped symbols 0x4000_0000 0x80_0000 booted.1)
start_allocator-outcome_example =
    start_allocator-outcome symbols unset 0x4000_0000 0x80_0000 blank symbols-IsImage (omega arith)
      (omega arith)

pub eight_megabytes :
    Describes (one_node 1 (pos 8)) blob 0x100 (record { base = 0x4000_0000; size = 0x80_0000 })
eight_megabytes = record {
  checked = (omega arith, refl);
  address_cell = 1;
  size_cell = 1;
  tree = one_node-IsTree;
  nodes = 8 ∷ [];
  nodes_found = found 8 refl (last 0 refl);
  regions = record { base = 0x4000_0000; size = 0x80_0000 } ∷ [];
  regions_found = read_region;
  single = refl;
}

pub fdt_at : load64 blob 0x6000 ≡ 0x100
unfolding load64
fdt_at = refl

main-IsRun_example : IsRun (one_node 1 (pos 8)) symbols 10 0x7000 unset_map unset 0x6000 blob
main-IsRun_example =
    main-IsRun (one_node 1 (pos 8)) symbols 10 0x7000 unset_map unset 0x6000 blob 9
      (swap_lem 1 (pos 8)) (one_node-Searches 1 (pos 8) blob (load64 blob 0x6000)) (omega arith)
      (omega arith) (omega arith)

main-outcome_example :
    (r : ℕ × Allocator × Mem) × (main
        (one_node 1 (pos 8))
        symbols
        10
        0x7000
        unset_map
        unset
        0x6000
        blob
      ≡ some r)
    × (((r.0 ≡ 0) × IsStarted symbols r.1 r.2)
        ⊎ ((r.0 ≡ 1) × IsStopped symbols 0x4000_0000 0x80_0000 r.1))
main-outcome_example =
    main-outcome (one_node 1 (pos 8)) symbols 10 0x7000 unset_map unset 0x6000 blob 9
      (swap_lem 1 (pos 8)) (one_node-Searches 1 (pos 8) blob (load64 blob 0x6000)) (omega arith)
      (omega arith) (omega arith) (record { base = 0x4000_0000; size = 0x80_0000 }) symbols-IsImage
      (rw fdt_at eight_megabytes) (omega arith)

-- The format "k" at 100.
abbrev one_letter : Mem
one_letter a = if a == 100 then b'k' else 0

one_letter-Renders : Renders one_letter 500 100 [] (b'k' ∷ [])
one_letter-Renders =
    plain (inl (omega arith)) (omega arith) (omega arith) (omega arith)
      (ended (inl (omega arith)) refl)

abbrev no_device : UartDevice
no_device = record { mmio_base = 0; putc = no_driver; getc = no_driver }

abbrev no_console : Serial
no_console = record { putc = false; getc = false }

kprintf-main_console_example :
    let (uart, console) = main_console no_device no_console in
    (enough : ℕ) × ((fuel : ℕ)
      → enough ≤ fuel
      → (sent : List ℕ) × (kprintf fuel console 500 100 [] one_letter ≡ some (1, sent))
        × (writes uart console sent ≡ some ((0x0900_0000, b'k') ∷ [])))
kprintf-main_console_example =
    kprintf-main_console no_device no_console one_letter 500 100 [] (b'k' ∷ []) one_letter-Renders
