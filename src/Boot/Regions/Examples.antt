-- ===== src/Boot/Regions/Examples.antt =====
-- A map of two regions, printed.
use kernalite.Base.{
  ℕ, ◌≤◌, ◌≡◌, refl, true, false, some, codes, reverse, arith, ◌==◌, if◌then◌else◌,
}
use kernalite.Memory.{Mem}
use kernalite.Memory.Holding.{holding}
use kernalite.Fdt.{MemoryMap}
use kernalite.Boot.Regions.{
  MapFormats, AreFormats, IsMap, memory_map_text, print_memory_map, print_memory_map_lem,
}

abbrev two_regions : MemoryMap
two_regions = record {
  regions = λ i.
      if i == 0
      then record { base = 0x4000_0000; size = 0x80_0000 }
      else record { base = 0x8000_0000; size = 0x1000 };
  count = 2;
}

abbrev map_literals : Mem
map_literals =
    holding 100 (codes "Memory Map (Total Regions: %d):\n")
      (holding 200 (codes "  Region %d: Base = 0x%lx, Size = 0x%lx bytes\n") (λ a. 0))

abbrev map_formats : MapFormats
map_formats = record { total = 100; region = 200 }

map_formats-AreFormats : AreFormats map_literals 500 map_formats
map_formats-AreFormats = record {
  total = omega arith;
  total_apart = omega arith;
  region = omega arith;
  region_apart = omega arith;
}

two_regions-IsMap : IsMap two_regions
two_regions-IsMap = record { count_lt = omega arith; words = λ i l. ground arith }

print_memory_map_lem_example :
    (enough : ℕ) × ((fuel : ℕ)
      → enough ≤ fuel
      → print_memory_map fuel
          (record { putc = true; getc = false })
          500
          map_formats
          two_regions
          map_literals
        ≡ some (reverse (memory_map_text two_regions)))
print_memory_map_lem_example =
    print_memory_map_lem map_literals 500 map_formats two_regions map_formats-AreFormats
      two_regions-IsMap (record { putc = true; getc = false }) refl
