-- ===== src/PageTable/Layout.antt =====
-- The members of `page_table_entry_t`, as a layout of the 64 bits of the word.
use kernalite.Base.{
  ℕ, ◌+◌, ◌%◌, ◌^◌, ◌≤◌, ◌<◌, ◌≡◌, refl, ◌⊎◌, inl, inr, sym, ap, ◌∙◌, arith, List, [], ◌∷◌, ◌==◌,
  ==_ne, if◌then◌else◌, ◌-◌, ◌/◌, map, All,
}
use mathlib.Core.List.{Memᴰ}
use mathlib.Core.List.Memᴰ.{head, tail}
use kernalite.Memory.{Mem, load64, SameOutside}
use kernalite.Memory.Words.{load64-lt}
use kernalite.PageTable.{read_field, write_field}
use kernalite.PageTable.Descriptor.{
  Field, get, put, entry_fields, valid, table, nlta_47_12, pxn_table, xn_table, ap_table,
  ignored_7_2, nlta_51_50, access_flag, ignored_11, nlta_49_48, res0_50, ignored_51, protected_attr,
  ignored_58_53, ns_table,
}
use kernalite.PageTable.Lens.{get-put, get-put_above, get-put_below, put_lt}
use kernalite.PageTable.Leaf.{Holds, write_field-Holds}

-- The fields lie one behind the other, without a gap, from bit `low` up to bit `high`.
abbrev IsLayout : ℕ → List Field → ℕ → Type 0
IsLayout low [] high = low ≡ high
IsLayout low (f ∷ fs) high = (f.offset ≡ low) × (0 < f.width) × IsLayout (low + f.width) fs high

entry_fields-IsLayout : IsLayout 0 entry_fields 64
entry_fields-IsLayout = omega arith

-- The bits of `f` are below those of `g`.
abbrev IsBefore : Field → Field → Type 0
IsBefore f g = f.offset + f.width ≤ g.offset

layout_end : (low : ℕ) (fs : List Field) (high : ℕ) → IsLayout low fs high → low ≤ high
layout_end low [] high h = omega (arith, h)
layout_end low (f ∷ fs) high (_, _, rest) = omega (arith, layout_end (low + f.width) fs high rest)

within_layout :
    (low : ℕ) (fs : List Field) (high : ℕ) (f : Field)
    → IsLayout low fs high
    → Memᴰ f fs
    → (low ≤ f.offset) × (f.offset + f.width ≤ high) × (0 < f.width)
within_layout low [] high f _ m = elim m [ ]
within_layout low (k ∷ fs) high f (at, pos, rest) (head e) =
    rw e (omega (arith, at), omega (arith, at, layout_end (low + k.width) fs high rest), pos)
within_layout low (k ∷ fs) high f (at, pos, rest) (tail m) =
    let (above, end, some_bits) = within_layout (low + k.width) fs high f rest m in
    (omega (arith, above), end, some_bits)

member_cases :
    (low : ℕ) (fs : List Field) (high : ℕ) (f g : Field)
    → IsLayout low fs high
    → Memᴰ f fs
    → Memᴰ g fs
    → (f ≡ g) ⊎ IsBefore f g ⊎ IsBefore g f
member_cases low [] high f g _ m _ = elim m [ ]
member_cases low (k ∷ fs) high f g (at, pos, rest) (head e) (head d) = inl (e ∙ sym d)
member_cases low (k ∷ fs) high f g (at, pos, rest) (head e) (tail n) =
    let after = within_layout (low + k.width) fs high g rest n in
    inr (inl (rw e (omega (arith, at, after))))
member_cases low (k ∷ fs) high f g (at, pos, rest) (tail m) (head d) =
    let after = within_layout (low + k.width) fs high f rest m in
    inr (inr (rw d (omega (arith, at, after))))
member_cases low (k ∷ fs) high f g (at, pos, rest) (tail m) (tail n) =
    member_cases (low + k.width) fs high f g rest m n

module _ (f g : Field) (x entry : ℕ) (m : Mem) (f_in : Memᴰ f entry_fields)
    (g_in : Memᴰ g entry_fields) where
  written : Holds entry m (put f x (load64 m entry)) (write_field f x entry m)
  written =
      let bounds = within_layout 0 entry_fields 64 f entry_fields-IsLayout f_in in
      let old : Holds entry m (load64 m entry) m = record { word = refl; frame = λ a h. refl } in
      write_field-Holds f x _ refl
        (put_lt f x (load64 m entry) (omega (arith, bounds)) (load64-lt m entry)) old

  -- The value of any member, from the word.
  read_put :
      get g (put f x (load64 m entry))
      ≡ (if g.offset == f.offset then x % 2 ^ f.width else get g (load64 m entry))
  read_put =
      let f_bounds = within_layout 0 entry_fields 64 f entry_fields-IsLayout f_in in
      let g_bounds = within_layout 0 entry_fields 64 g entry_fields-IsLayout g_in in
      elim (member_cases 0 entry_fields 64 f g entry_fields-IsLayout f_in g_in) [
        | inl e ↦ rw (← e) (get-put f x (load64 m entry) ∙ ground arith)
        | inr (inl h) ↦
            get-put_above f x (load64 m entry) g h
            ∙ rw (==_ne g.offset f.offset (omega (arith, h, f_bounds))) refl
        | inr (inr h) ↦
            get-put_below f x (load64 m entry) g h
            ∙ rw (==_ne g.offset f.offset (omega (arith, h, g_bounds))) refl
      ]

  -- An assignment to a member, as every member reads afterwards.
  read_field-write_field :
      (read_field g entry (write_field f x entry m)
        ≡ (if g.offset == f.offset then x % 2 ^ f.width else read_field g entry m))
      × SameOutside entry (entry + 8) m (write_field f x entry m)
  unfolding read_field
  read_field-write_field = (ap (get g) written.word ∙ read_put, written.frame)

-- Bits `[high:low]` of a word.
abbrev pub bits : ℕ → ℕ → ℕ → ℕ
bits high low v = v / 2 ^ low % 2 ^ (high + 1 - low)

-- A member, and the bits that its comment names.
pub record Described : Type 0 where
  pub high : ℕ
  pub low : ℕ
  pub bit_field : Field

abbrev pub described : ℕ → ℕ → Field → Described
described high low bit_field = record { high = high; low = low; bit_field = bit_field }

-- The comments of the struct, which are the table descriptor of the architecture.
abbrev pub documented : List Described
documented =
    described 0 0 valid
    ∷ described 1 1 table
    ∷ described 7 2 ignored_7_2
    ∷ described 9 8 nlta_51_50
    ∷ described 10 10 access_flag
    ∷ described 11 11 ignored_11
    ∷ described 47 12 nlta_47_12
    ∷ described 49 48 nlta_49_48
    ∷ described 50 50 res0_50
    ∷ described 51 51 ignored_51
    ∷ described 52 52 protected_attr
    ∷ described 58 53 ignored_58_53
    ∷ described 59 59 pxn_table
    ∷ described 60 60 xn_table
    ∷ described 62 61 ap_table
    ∷ described 63 63 ns_table
    ∷ []

-- The member lies at the bits of its comment.
abbrev IsPlaced : Described → Type 0
IsPlaced d = (d.bit_field.offset ≡ d.low) × (d.bit_field.width ≡ d.high + 1 - d.low)

documented-IsPlaced : All IsPlaced documented
documented-IsPlaced = ground arith

documented_members :
    (ds : List Described)
    → All IsPlaced ds
    → (d : Described) → Memᴰ d ds
    → IsPlaced d × Memᴰ d.bit_field (map (λ (c : Described). c.bit_field) ds)
documented_members [] h d m = elim m [ ]
documented_members (c ∷ ds) (placed, h) d (head e) =
    (rw e placed, head (ap (λ (c : Described). c.bit_field) e))
documented_members (c ∷ ds) (placed, h) d (tail m) =
    let (at, inside) = documented_members ds h d m in (at, tail inside)

-- A member of a page table entry is the bits that its comment names: it reads as those bits of the
-- word in memory. An assignment sets those bits to the value, cut to their number, leaves the bits of
-- every other member as they were, and changes no byte outside of the entry.
pub read_field-bits :
    (d e : Described) (x entry : ℕ) (m : Mem)
    → Memᴰ d documented
    → Memᴰ e documented
    → let m' = write_field d.bit_field x entry m in
      (read_field e.bit_field entry m ≡ bits e.high e.low (load64 m entry))
      × (bits e.high e.low (load64 m' entry) ≡ (
          if e.low == d.low
          then x % 2 ^ (d.high + 1 - d.low)
          else bits e.high e.low (load64 m entry)))
      × SameOutside entry (entry + 8) m m'
unfolding read_field
read_field-bits d e x entry m d_in e_in =
    let ((d_low, d_width), d_member) = documented_members documented documented-IsPlaced d d_in in
    let ((e_low, e_width), e_member) = documented_members documented documented-IsPlaced e e_in in
    let (value, frame) =
      read_field-write_field d.bit_field e.bit_field x entry m d_member e_member in
    (rw (e_low, e_width) refl, rw (← d_width, ← e_width, ← d_low, ← e_low) value, frame)
