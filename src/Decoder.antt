-- ===== src/Decoder.antt =====
-- tools/register_decoder: the tables of bit fields, the lines printed of them, and the search for a
-- register by its name. A line is kept as its label, the bits that the label names, the value and the
-- text behind it.
pub mod Sctlr32
pub mod Sctlr64
pub mod Shown
pub mod Main
mod Examples
use Prim.Native.String.{String}
use text.Mathlib.Text.{◌==◌}
use kernalite.Base.{
  ℕ, zero, suc, ◌+◌, Bool, true, false, Option, none, some, List, [], ◌∷◌, if◌then◌else◌,
}
use kernalite.PageTable.Descriptor.{Field, get}

-- `uint32_t name : width` and `uint64_t name : width`
pub record Member : Type 0 where
  pub name : String
  pub width : ℕ

abbrev pub member : String → ℕ → Member
member name width = record { name = name; width = width }

-- A member's place, the members before it taking the lower bits.
abbrev pub place_from : ℕ → String → List Member → Option Field
place_from offset name [] = none
place_from offset name (m ∷ ms) =
    if m.name == name
    then some (record { offset = offset; width = m.width })
    else place_from (offset + m.width) name ms

abbrev pub read_at : Option Field → ℕ → ℕ
read_at none raw = 0
read_at (some f) raw = get f raw

-- `sctlr.bits.name`; a name that is no member does not compile.
abbrev pub read_member : List Member → String → ℕ → ℕ
read_member members name raw = read_at (place_from 0 name members) raw

-- A `printf` of a member: the label, the bits `[low:high]` that stand in it, and the two texts of
-- `(%s)`, if there are any.
pub record Row : Type 0 where
  pub label : String
  pub low : ℕ
  pub high : ℕ
  pub name : String
  pub notes : Option (String × String)

abbrev pub row : String → ℕ → String → Row
row label bit name = record { label = label; low = bit; high = bit; name = name; notes = none }

abbrev pub noted : String → ℕ → String → String → String → Row
noted label bit name set clear = record {
  label = label;
  low = bit;
  high = bit;
  name = name;
  notes = some (set, clear);
}

abbrev pub hex_row : String → ℕ → ℕ → String → Row
hex_row label low high name = record {
  label = label;
  low = low;
  high = high;
  name = name;
  notes = none;
}

pub record Line : Type 0 where
  pub label : String
  pub low : ℕ
  pub high : ℕ
  pub value : ℕ
  pub note : Option String

abbrev pub note_of : Option (String × String) → ℕ → Option String
note_of none value = none
note_of (some (set, clear)) zero = some clear
note_of (some (set, clear)) (suc value) = some set

abbrev pub line : List Member → ℕ → Row → Line
line members raw r =
    let value = read_member members r.name raw in
    record {
      label = r.label;
      low = r.low;
      high = r.high;
      value = value;
      note = note_of r.notes value;
    }

abbrev pub decode : List Member → List Row → ℕ → List Line
decode members [] raw = []
decode members (r ∷ rows) raw = line members raw r ∷ decode members rows raw
