-- ===== src/Fdt/Entries.antt =====
-- One `reg` property: its entries as pairs of numbers in the byte order of the tree.
use kernalite.Base.{
  ℕ, zero, suc, ◌+◌, ◌*◌, ◌^◌, ◌≤◌, ◌<◌, ◌≡◌, refl, ◌∙◌, ◌⊎◌, inl, inr, bit_or, u64, u8, Bool-cases,
  List, [], ◌∷◌, ◌++◌, append-nil, append_assoc, if◌then◌else◌, ltb, dec_le, le→leb, lt→leb, arith,
}
use kernalite.Fields.{bit_or-joined}
use kernalite.Memory.{Mem, load8, load32}
use kernalite.Fdt.{
  LibFdt, MemoryRegion, MemoryMap, max_mem_regions, add_region, cells_loop, entries_loop,
}
use kernalite.Fdt.Laws.{SwapsBytes}
use kernalite.Fdt.Contents.{Holds, Holds-full, Holds-add_region}

-- The number of `n` bytes, the high byte first.
abbrev pub big_endian : Mem → ℕ → ℕ → ℕ
big_endian m p zero = 0
big_endian m p (suc n) = load8 m p * 256 ^ n + big_endian m (p + 1) n

-- The entries of a `reg` property: an address and a size each, of so many 32-bit cells.
abbrev pub entries : Mem → ℕ → ℕ → ℕ → ℕ → List MemoryRegion
entries m address_cell size_cell p zero = []
entries m address_cell size_cell p (suc n) =
    record {
      base = big_endian m p (4 * address_cell);
      size = big_endian m (p + 4 * address_cell) (4 * size_cell);
    }
    ∷ entries m address_cell size_cell (p + 4 * (address_cell + size_cell)) n

abbrev pub nonempty : List MemoryRegion → List MemoryRegion
nonempty [] = []
nonempty (r ∷ rs) = if ltb 0 r.size then r ∷ nonempty rs else nonempty rs

abbrev pub IsCells : ℕ → Type 0
IsCells n = (n ≡ 1) ⊎ (n ≡ 2)

-- The next cell below the ones before.
append_cell :
    (value cell : ℕ)
    → value < 2 ^ 32
    → cell < 2 ^ 32
    → bit_or (u64 (value * 2 ^ 32)) cell ≡ value * 2 ^ 32 + cell
append_cell value cell l k =
    let fits : u64 (value * 2 ^ 32) ≡ value * 2 ^ 32 = omega arith in
    rw fits (bit_or-joined 32 value cell k)

first_cell : (m : Mem) (p : ℕ) → bit_or (u64 (0 * 2 ^ 32)) (big_endian m p 4) ≡ big_endian m p 4
first_cell m p = append_cell 0 (big_endian m p 4) (omega arith) (omega arith) ∙ omega arith

-- One entry more, where there is room.
abbrev add_nonempty : ℕ → ℕ → MemoryMap → MemoryMap
add_nonempty base size map = if ltb 0 size then add_region base size map else map

add_nonempty-Holds :
    (base size : ℕ) (rs : List MemoryRegion) (map : MemoryMap) (found : List MemoryRegion)
    → map.count < max_mem_regions
    → Holds map found
    → (final : MemoryMap)
    → ((found' : List MemoryRegion)
        → Holds (add_nonempty base size map) found'
        → Holds final (found' ++ nonempty rs))
    → Holds final (found ++ nonempty (record { base = base; size = size } ∷ rs))
add_nonempty-Holds base size rs map found room h final rest = elim (Bool-cases (ltb 0 size)) [
  | inl some_bytes ↦
      let new : List MemoryRegion = record { base = base; size = size } ∷ [] in
      rw (some_bytes, ← append_assoc found new (nonempty rs))
        (rest (found ++ new) (rw some_bytes (Holds-add_region map found base size room h)))
  | inr no_byte ↦ rw no_byte (rest found (rw no_byte h))
]

module _ (lib : LibFdt) (swaps : SwapsBytes lib) where
  cell-big_endian : (m : Mem) (p : ℕ) → lib.fdt32_to_cpu (load32 m p) ≡ big_endian m p 4
  unfolding load32
  cell-big_endian m p =
      let two : p + 1 + 1 ≡ p + 2 = omega arith in
      let three : p + 2 + 1 ≡ p + 3 = omega arith in
      rw (two, three)
        (swaps (u8 (m p)) (u8 (m (p + 1))) (u8 (m (p + 2))) (u8 (m (p + 3))) (omega arith)
            (omega arith) (omega arith) (omega arith)
          ∙ omega arith)

  cells-big_endian :
      (cells : ℕ) (m : Mem) (p : ℕ)
      → IsCells cells
      → cells_loop lib cells p 0 m ≡ big_endian m p (4 * cells)
  unfolding cells_loop
  cells-big_endian cells m p (inl e) = rw (e, cell-big_endian m p) (first_cell m p)
  cells-big_endian cells m p (inr e) =
      let high : bit_or (u64 (0 * 2 ^ 32)) (big_endian m p 4) ≡ big_endian m p 4 = first_cell m p in
      let four : p + 1 + 1 + 1 + 1 ≡ p + 4 = omega arith in
      rw (e, cell-big_endian m p, cell-big_endian m (p + 4), high, four)
        (append_cell (big_endian m p 4) (big_endian m (p + 4) 4) (omega arith) (omega arith)
          ∙ omega arith)

  module _ (address_cell size_cell : ℕ) (address : IsCells address_cell)
      (size : IsCells size_cell) where
    abbrev place_of : ℕ → ℕ → ℕ
    place_of reg i = reg + 4 * (i * (address_cell + size_cell))

    next_entry :
        (reg i : ℕ) → place_of reg i + 4 * (address_cell + size_cell) ≡ place_of reg (i + 1)
    next_entry reg i = grind arith

    entries_loop_room :
        (rounds i reg : ℕ) (m : Mem) (map : MemoryMap)
        → map.count < max_mem_regions
        → entries_loop lib address_cell size_cell reg (suc rounds) i m map
          ≡ entries_loop lib address_cell size_cell reg rounds (i + 1) m (
              add_nonempty
                (big_endian m (place_of reg i) (4 * address_cell))
                (big_endian m (place_of reg i + 4 * address_cell) (4 * size_cell))
                map)
    unfolding entries_loop
    entries_loop_room rounds i reg m map room =
        let here : reg + i * (address_cell + size_cell) * 4 ≡ place_of reg i = grind arith in
        let behind : place_of reg i + address_cell * 4 ≡ place_of reg i + 4 * address_cell =
          omega arith in
        rw
          (
            here,
            behind,
            lt→leb max_mem_regions map.count room,
            cells-big_endian address_cell m (place_of reg i) address,
            cells-big_endian size_cell m (place_of reg i + 4 * address_cell) size,
          )
          refl

    entries_loop_full :
        (rounds i reg : ℕ) (m : Mem) (map : MemoryMap)
        → max_mem_regions ≤ map.count
        → entries_loop lib address_cell size_cell reg (suc rounds) i m map ≡ map
    unfolding entries_loop
    entries_loop_full rounds i reg m map full = rw (le→leb max_mem_regions map.count full) refl

    -- The loop adds the entries that are not empty, while there is room.
    pub entries_loop-Holds :
        (rounds i reg : ℕ) (m : Mem) (map : MemoryMap) (found : List MemoryRegion)
        → Holds map found
        → Holds
            (entries_loop lib address_cell size_cell reg rounds i m map)
            (found ++ nonempty (entries m address_cell size_cell (place_of reg i) rounds))
    entries_loop-Holds zero i reg m map found h = unfold entries_loop in rw append-nil h
    entries_loop-Holds (suc rounds) i reg m map found h = elim (dec_le max_mem_regions map.count) [
      | yes full ↦ rw (entries_loop_full rounds i reg m map full) (Holds-full map found _ full h)
      | no room ↦
          let base = big_endian m (place_of reg i) (4 * address_cell) in
          let size = big_endian m (place_of reg i + 4 * address_cell) (4 * size_cell) in
          let map' = add_nonempty base size map in
          rw (entries_loop_room rounds i reg m map (omega arith), next_entry reg i)
            (add_nonempty-Holds base size
              (entries m address_cell size_cell (place_of reg (i + 1)) rounds) map found
              (omega arith) h (entries_loop lib address_cell size_cell reg rounds (i + 1) m map')
              (entries_loop-Holds rounds (i + 1) reg m map'))
    ]
