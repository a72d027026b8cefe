-- ===== src/Decoder/Shown.antt =====
-- The lines that the decoders print: their values are the bits that the labels name.
use kernalite.Base.{
  ℕ, u32, Bool, true, false, ◌&&◌, List, [], ◌∷◌, ◌≡◌, refl, sym, ap, ◌+◌, ◌*◌, ◌-◌, ◌/◌, ◌%◌, ◌^◌,
  ◌≤◌, Option, none, some, ◌==◌, leb, All, arith,
}
use native.Mathlib.Nat.{div-add-mod', div-div-eq-div-mul}
use kernalite.Fields.{pow_add}
use kernalite.PageTable.Descriptor.{Field}
use kernalite.Decoder.{Line, Row, Member, place_from, read_at, decode}
use kernalite.Decoder.Sctlr32.{decode_sctlr_el1_32, sctlr_el1_32_rows, sctlr_el1_32_bits}
use kernalite.Decoder.Sctlr64.{decode_sctlr_el1_64, sctlr_el1_64_rows, sctlr_el1_64_bits}

-- The value of the line is bits `[low:high]` of the register.
abbrev pub IsShown : ℕ → Line → Type 0
IsShown raw l = l.value ≡ raw / 2 ^ l.low % 2 ^ (l.high + 1 - l.low)

-- The label of a row names the bits of its member.
abbrev labelled_at : Row → Option Field → Bool
labelled_at r none = false
labelled_at r (some f) = f.offset == r.low && f.width == r.high + 1 - r.low

abbrev labelled : List Member → List Row → Bool
labelled members [] = true
labelled members (r ∷ rows) = labelled_at r (place_from 0 r.name members) && labelled members rows

labelled_at-shown :
    (r : Row) (o : Option Field) (raw : ℕ)
    → labelled_at r o ≡ true
    → read_at o raw ≡ raw / 2 ^ r.low % 2 ^ (r.high + 1 - r.low)
labelled_at-shown r none raw h = cc
labelled_at-shown r (some f) raw h = let (offset, width) = both h in rw (offset, width) refl
  where
    both :
        (f.offset == r.low && f.width == r.high + 1 - r.low) ≡ true
        → (f.offset ≡ r.low) × (f.width ≡ r.high + 1 - r.low)
    both h = ground arith

labelled-IsShown :
    (members : List Member) (rows : List Row) (raw : ℕ)
    → labelled members rows ≡ true
    → All (IsShown raw) (decode members rows raw)
labelled-IsShown members [] raw h = tt
labelled-IsShown members (r ∷ rows) raw h =
    let (here, rest) =
      both (labelled_at r (place_from 0 r.name members)) (labelled members rows) h in
    (
      labelled_at-shown r (place_from 0 r.name members) raw here,
      labelled-IsShown members rows raw rest,
    )
  where
    both : (a b : Bool) → (a && b) ≡ true → (a ≡ true) × (b ≡ true)
    both a b h = ground arith

-- The values of lines, each at its place.
abbrev pub assemble : List Line → ℕ
assemble [] = 0
assemble (l ∷ ls) = l.value * 2 ^ l.low + assemble ls

-- The rows show consecutive bits, from `low` to `high`.
abbrev consecutive : ℕ → ℕ → List Row → Bool
consecutive low high [] = low == high
consecutive low high (r ∷ rows) =
    r.low == low && leb r.low r.high && consecutive (r.high + 1) high rows

split_bits :
    (x low w : ℕ)
    → x / 2 ^ low % 2 ^ w * 2 ^ low + x / 2 ^ (low + w) * 2 ^ (low + w) ≡ x / 2 ^ low * 2 ^ low
split_bits x low w =
    let sum : 2 ^ (low + w) ≡ 2 ^ low * 2 ^ w = pow_add 2 low w in
    let quotient : x / 2 ^ (low + w) ≡ x / 2 ^ low / 2 ^ w =
      rw sum (sym (div-div-eq-div-mul x (2 ^ low) (2 ^ w))) in
    let whole = div-add-mod' (x / 2 ^ low) (2 ^ w) in
    rw (quotient, sum) (omega (arith, ap (λ (t : ℕ). t * 2 ^ low) whole))

assemble-consecutive :
    (members : List Member) (rows : List Row) (raw low high : ℕ)
    → All (IsShown raw) (decode members rows raw)
    → consecutive low high rows ≡ true
    → assemble (decode members rows raw) + raw / 2 ^ high * 2 ^ high ≡ raw / 2 ^ low * 2 ^ low
assemble-consecutive members [] raw low high h k =
    let e : low ≡ high = ground arith in rw e (omega arith)
assemble-consecutive members (r ∷ rows) raw low high (here, h) k =
    let (start, ordered, others) = parts r.low r.high low (consecutive (r.high + 1) high rows) k in
    let rest = assemble-consecutive members rows raw (r.high + 1) high h others in
    let end : r.low + (r.high + 1 - r.low) ≡ r.high + 1 = omega arith in
    let split = split_bits raw r.low (r.high + 1 - r.low) in
    let split' = rw end at split in
    rw (← start) (omega (arith, rest, split', ap (λ (t : ℕ). t * 2 ^ r.low) here))
  where
    parts :
        (first last low : ℕ) (b : Bool)
        → (first == low && leb first last && b) ≡ true
        → (first ≡ low) × (first ≤ last) × (b ≡ true)
    parts first last low b h = ground arith

-- Every line that the two decoders print shows the bits of the register that its label names, in the
-- 32-bit form those of the low half, which can be read off its lines together.
pub decode-IsShown :
    (val : ℕ)
    → All (IsShown (u32 val)) (decode_sctlr_el1_32 val)
      × All (IsShown val) (decode_sctlr_el1_64 val)
      × (assemble (decode_sctlr_el1_32 val) ≡ u32 val)
decode-IsShown val =
    let lines = labelled-IsShown sctlr_el1_32_bits sctlr_el1_32_rows (u32 val) refl in
    let sum = assemble-consecutive sctlr_el1_32_bits sctlr_el1_32_rows (u32 val) 0 32 lines refl in
    (lines, labelled-IsShown sctlr_el1_64_bits sctlr_el1_64_rows val refl, omega (arith, sum))
