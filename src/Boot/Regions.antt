-- ===== src/Boot/Regions.antt =====
-- `print_memory_map` of kernel/main.c: the message for the map, and one for each region.
mod Examples
use kernalite.Base.{
  ℕ, zero, suc, ◌+◌, ◌^◌, ◌<◌, ◌≤◌, ◌≡◌, refl, ◌∙◌, ap, ap₂, true, Option, some, List, [], ◌∷◌,
  ◌++◌, All, length, reverse, arith, codes, append-nil,
}
use kernalite.Memory.{Mem}
use kernalite.Fdt.{MemoryRegion, MemoryMap}
use kernalite.Print.{Serial}
use kernalite.Print.Text.{Spells}
use kernalite.Print.Render.{Apart}
use kernalite.Print.Numeral.{number_text}
use kernalite.Print.Pieces.{Piece, literal, long_hex, decimal, text_of}
use kernalite.Print.Messages.{KprintfCall, kprintf_all, texts_of, Says, AllSay, kprintf_all-AllSay}

-- Where the two formats lie.
pub record MapFormats : Type 0 where
  pub total : ℕ
  pub region : ℕ

-- The messages of the loop at region `i`, with `rounds` regions left.
pub region_messages : MapFormats → MemoryMap → ℕ → ℕ → List KprintfCall
region_messages formats mmap zero i = []
region_messages formats mmap (suc rounds) i =
    let r = mmap.regions i in
    record { format = formats.region; args = i ∷ r.base ∷ r.size ∷ [] }
    ∷ region_messages formats mmap rounds (i + 1)

-- What `print_memory_map` sends, the last character first.
unfoldable pub print_memory_map : ℕ → Serial → ℕ → MapFormats → MemoryMap → Mem → Option (List ℕ)
print_memory_map fuel serial_console buf formats mmap m =
    kprintf_all fuel serial_console buf
      (record { format = formats.total; args = mmap.count ∷ [] }
        ∷ region_messages formats mmap mmap.count 0)
      m []

-- The line for a region.
abbrev pub region_line : ℕ → MemoryRegion → List ℕ
region_line i r =
    codes "  Region "
    ++ (number_text 10 i
        ++ (codes ": Base = 0x"
            ++ (number_text 16 r.base
                ++ (codes ", Size = 0x" ++ (number_text 16 r.size ++ codes " bytes\r\n")))))

-- The lines for the regions from `i` on.
abbrev pub region_lines : MemoryMap → ℕ → ℕ → List ℕ
region_lines mmap zero i = []
region_lines mmap (suc rounds) i =
    region_line i (mmap.regions i) ++ region_lines mmap rounds (i + 1)

abbrev pub memory_map_text : MemoryMap → List ℕ
memory_map_text mmap =
    (codes "Memory Map (Total Regions: " ++ (number_text 10 mmap.count ++ codes "):\r\n"))
    ++ region_lines mmap mmap.count 0

-- The formats are in memory, outside of the buffer of `vprintf`.
pub record AreFormats (m : Mem) (buf : ℕ) (formats : MapFormats) : Type 0 where
  pub total : Spells m formats.total (codes "Memory Map (Total Regions: %d):\n")
  pub total_apart : Apart buf formats.total (formats.total + 32)
  pub region : Spells m formats.region (codes "  Region %d: Base = 0x%lx, Size = 0x%lx bytes\n")
  pub region_apart : Apart buf formats.region (formats.region + 46)

-- The bases and the sizes of the regions are words of 64 bits, and the count is an `int`.
pub record IsMap (mmap : MemoryMap) : Type 0 where
  pub count_lt : mmap.count < 2 ^ 31
  pub words :
      (i : ℕ) → i < mmap.count → ((mmap.regions i).base < 2 ^ 64) × ((mmap.regions i).size < 2 ^ 64)

module _ (m : Mem) (buf : ℕ) (formats : MapFormats) (mmap : MemoryMap)
    (placed : AreFormats m buf formats) (is_map : IsMap mmap) where
  abbrev total_pieces : List Piece
  total_pieces =
      literal (codes "Memory Map (Total Regions: ")
      ∷ decimal mmap.count
      ∷ literal (codes "):\n")
      ∷ []

  abbrev region_pieces : ℕ → List Piece
  region_pieces i =
      literal (codes "  Region ")
      ∷ decimal i
      ∷ literal (codes ": Base = 0x")
      ∷ long_hex (mmap.regions i).base
      ∷ literal (codes ", Size = 0x")
      ∷ long_hex (mmap.regions i).size
      ∷ literal (codes " bytes\n")
      ∷ []

  abbrev regions_pieces : ℕ → ℕ → List (List Piece)
  regions_pieces zero i = []
  regions_pieces (suc rounds) i = region_pieces i ∷ regions_pieces rounds (i + 1)

  regions_say :
      (rounds i : ℕ)
      → i + rounds ≤ mmap.count
      → AllSay m buf (region_messages formats mmap rounds i) (regions_pieces rounds i)
  unfolding region_messages
  regions_say zero i l = tt
  regions_say (suc rounds) i l = (
    record {
      spelled = placed.region;
      apart = placed.region_apart;
      same_args = refl;
      well_formed = omega (arith, is_map.words i (omega arith), is_map.count_lt);
    },
    regions_say rounds (i + 1) (omega arith),
  )

  regions_text : (rounds i : ℕ) → texts_of (regions_pieces rounds i) ≡ region_lines mmap rounds i
  regions_text zero i = refl
  regions_text (suc rounds) i =
      ap (λ (cs : List ℕ). region_line i (mmap.regions i) ++ cs) (regions_text rounds (i + 1))

  -- For a map of words with an `int` count, with the formats in memory and a console set, from some
  -- amount of fuel on, `print_memory_map` prints the count of the regions, and behind it
  -- one line for each region, in order, with its index in decimal and its base and size in
  -- hexadecimal.
  pub print_memory_map_lem :
      (serial_console : Serial)
      → serial_console.putc ≡ true
      → (enough : ℕ) × ((fuel : ℕ)
          → enough ≤ fuel
          → print_memory_map fuel serial_console buf formats mmap m
            ≡ some (reverse (memory_map_text mmap)))
  unfolding print_memory_map
  print_memory_map_lem con on =
      let total : KprintfCall = record { format = formats.total; args = mmap.count ∷ [] } in
      let says : Says m buf total total_pieces = record {
        spelled = placed.total;
        apart = placed.total_apart;
        same_args = refl;
        well_formed = omega (arith, is_map.count_lt);
      } in
      let (enough, printed) =
        kprintf_all-AllSay con buf m (total ∷ region_messages formats mmap mmap.count 0)
          (total_pieces ∷ regions_pieces mmap.count 0) on
          (says, regions_say mmap.count 0 (omega arith)) in
      (
        enough,
        λ fuel l.
            printed fuel [] l
            ∙ ap some (
                append-nil _
                ∙ ap (λ (cs : List ℕ). reverse (text_of total_pieces ++ cs))
                    (regions_text mmap.count 0)),
      )
