-- ===== src/PageTable/Descriptor.antt =====
-- The bit fields of `page_table_entry_t` in include/page_table/page_table.h, over the raw value of
-- the union.
use kernalite.Base.{ℕ, ◌+◌, ◌*◌, ◌/◌, ◌%◌, ◌^◌, List, [], ◌∷◌}

-- `uint64_t name : width`, with its lowest bit at `offset`.
pub record Field : Type 0 where
  pub offset : ℕ
  pub width : ℕ

-- A read of a bit field.
abbrev pub get : Field → ℕ → ℕ
get f v = v / 2 ^ f.offset % 2 ^ f.width

-- An assignment to a bit field: the bits above and below stay, and the value is cut to the width.
abbrev pub put : Field → ℕ → ℕ → ℕ
put f x v =
    v / 2 ^ (f.offset + f.width) * 2 ^ (f.offset + f.width)
    + x % 2 ^ f.width * 2 ^ f.offset
    + v % 2 ^ f.offset

-- A member of this width behind another one: the members of the struct follow one another from the
-- lowest bit up.
abbrev pub following : Field → ℕ → Field
following f width = record { offset = f.offset + f.width; width = width }

abbrev pub valid : Field
valid = record { offset = 0; width = 1 }

abbrev pub table : Field
table = following valid 1

abbrev pub ignored_7_2 : Field
ignored_7_2 = following table 6

abbrev pub nlta_51_50 : Field
nlta_51_50 = following ignored_7_2 2

abbrev pub access_flag : Field
access_flag = following nlta_51_50 1

abbrev pub ignored_11 : Field
ignored_11 = following access_flag 1

abbrev pub nlta_47_12 : Field
nlta_47_12 = following ignored_11 36

abbrev pub nlta_49_48 : Field
nlta_49_48 = following nlta_47_12 2

abbrev pub res0_50 : Field
res0_50 = following nlta_49_48 1

abbrev pub ignored_51 : Field
ignored_51 = following res0_50 1

abbrev pub protected_attr : Field
protected_attr = following ignored_51 1

abbrev pub ignored_58_53 : Field
ignored_58_53 = following protected_attr 6

abbrev pub pxn_table : Field
pxn_table = following ignored_58_53 1

abbrev pub xn_table : Field
xn_table = following pxn_table 1

abbrev pub ap_table : Field
ap_table = following xn_table 2

abbrev pub ns_table : Field
ns_table = following ap_table 1

-- The struct's members, in order.
abbrev pub entry_fields : List Field
entry_fields =
    valid ∷ table ∷ ignored_7_2 ∷ nlta_51_50 ∷ access_flag ∷ ignored_11 ∷ nlta_47_12 ∷ nlta_49_48
    ∷ res0_50 ∷ ignored_51 ∷ protected_attr ∷ ignored_58_53 ∷ pxn_table ∷ xn_table ∷ ap_table
    ∷ ns_table ∷ []

-- `aptable_values`
abbrev pub el0_no_restriction_el1_no_restriction : ℕ
el0_no_restriction_el1_no_restriction = 0b00

abbrev pub el0_no_write_el1_no_write : ℕ
el0_no_write_el1_no_write = 0b01

abbrev pub el0_no_access_el1_no_restriction : ℕ
el0_no_access_el1_no_restriction = 0b10

abbrev pub el0_no_access_el1_no_write : ℕ
el0_no_access_el1_no_write = 0b11
