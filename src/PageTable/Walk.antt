-- ===== src/PageTable/Walk.antt =====
-- The translation that the tables stand for: the walk from the root by the indices of a virtual
-- address, as `verify_map` of tests/page_table_map_test.c makes it.
use kernalite.Base.{
  ℕ, ◌/◌, ◌%◌, ◌^◌, ◌≤◌, ◌<◌, ◌≡◌, ◌≢◌, refl, ap, ap₂, sym, ◌∙◌, Option, none, some, List, [], ◌∷◌,
  length, All, ◌==◌, if◌then◌else◌, arith,
}
use kernalite.Fields.{bit_and-mask}
use kernalite.Memory.{Mem, load64}
use kernalite.PageTable.{entry_at, read_field, follow, get_page_table_entry_address, index_of}
use kernalite.PageTable.Descriptor.{valid}

-- The table that a descriptor leads to, if it is valid.
unfoldable pub next_table : Mem → ℕ → Option ℕ
next_table m entry = if read_field valid entry m == 0 then none else some (follow entry m)

-- The table behind a path of indices, the last index first.
abbrev pub table_at : Mem → ℕ → List ℕ → Option ℕ
table_at m root [] = some root
table_at m root (i ∷ p) = elim (table_at m root p) [
  | none ↦ none
  | some t ↦ next_table m (entry_at t i)
]

-- At most three levels below the root, each index within a table.
abbrev pub IsPath : List ℕ → Type 0
IsPath p = All (λ i. i < 512) p × (length p ≤ 3)

abbrev pub path_of : ℕ → List ℕ
path_of v = index_of v 21 ∷ index_of v 30 ∷ index_of v 39 ∷ []

-- The descriptor in a table of level 3.
unfoldable pub leaf_at : Mem → ℕ → Option ℕ
leaf_at m entry = if read_field valid entry m == 0 then none else some (load64 m entry)

-- The descriptor that the walk reaches at level 3, if every entry on the way is valid.
unfoldable pub translate : Mem → ℕ → ℕ → Option ℕ
translate m root v = elim (table_at m root (path_of v)) [
  | none ↦ none
  | some t ↦ leaf_at m (entry_at t (index_of v 12))
]

pub index_of-mod : (v k : ℕ) → index_of v k ≡ v / 2 ^ k % 512
index_of-mod v k = bit_and-mask 9 (v / 2 ^ k)

pub index_of-lt : (v k : ℕ) → index_of v k < 512
index_of-lt v k = omega (arith, index_of-mod v k)

pub path_of-IsPath : (v : ℕ) → IsPath (path_of v)
path_of-IsPath v = ((index_of-lt v 21, (index_of-lt v 30, (index_of-lt v 39, tt))), omega arith)

-- The number of the page of an address, in the 48 bits that the tables translate.
abbrev pub page_number : ℕ → ℕ
page_number v = v / 2 ^ 12 % 2 ^ 36

-- Addresses with the same four indices lie on the same page.
pub page_number_of_indices :
    (v w : ℕ)
    → path_of v ≡ path_of w
    → index_of v 12 ≡ index_of w 12
    → page_number v ≡ page_number w
page_number_of_indices v w e f = ground (
  arith,
  index_of-mod v 12,
  index_of-mod v 21,
  index_of-mod v 30,
  index_of-mod v 39,
  index_of-mod w 12,
  index_of-mod w 21,
  index_of-mod w 30,
  index_of-mod w 39,
)

module _ (m : Mem) (root : ℕ) where
  pub table_at-cons :
      (i : ℕ) (p : List ℕ) (t : ℕ)
      → table_at m root p ≡ some t
      → table_at m root (i ∷ p) ≡ next_table m (entry_at t i)
  table_at-cons i p t e = rw (e, table_at)

  -- A table below another one hangs on a valid entry of it.
  pub table_at-parent :
      (i : ℕ) (p : List ℕ) (u : ℕ)
      → table_at m root (i ∷ p) ≡ some u
      → (t : ℕ) × (table_at m root p ≡ some t) × (next_table m (entry_at t i) ≡ some u)
  table_at-parent i p u e = go (table_at m root p) refl e
    where
      go :
          (o : Option ℕ)
          → table_at m root p ≡ o
          → (elim o [ none ↦ none | some t ↦ next_table m (entry_at t i) ]) ≡ some u
          → (t : ℕ) × (table_at m root p ≡ some t) × (next_table m (entry_at t i) ≡ some u)
      go none d f = cc
      go (some t) d f = (t, d, f)

pub next_table-eq_some :
    (m : Mem) (entry u : ℕ)
    → next_table m entry ≡ some u
    → (read_field valid entry m ≢ 0) × (follow entry m ≡ u)
unfolding next_table
next_table-eq_some m entry u h = ground arith

pub next_table-valid :
    (m : Mem) (entry : ℕ)
    → read_field valid entry m ≢ 0
    → next_table m entry ≡ some (follow entry m)
unfolding next_table
next_table-valid m entry h = ground arith

-- The walk reads an entry as a word.
pub next_table_same :
    (m m' : Mem) (entry : ℕ)
    → load64 m' entry ≡ load64 m entry
    → next_table m' entry ≡ next_table m entry
unfolding next_table read_field follow get_page_table_entry_address
next_table_same m m' entry e = rw e

pub IsPath-tail : (i : ℕ) (p : List ℕ) → IsPath (i ∷ p) → IsPath p
IsPath-tail i p h = (h.0.1, omega (arith, h.1))

pub leaf_at_same :
    (m m' : Mem) (entry : ℕ) → load64 m' entry ≡ load64 m entry → leaf_at m' entry ≡ leaf_at m entry
unfolding leaf_at read_field
leaf_at_same m m' entry e = rw e

pub translate-some :
    (m : Mem) (root v t : ℕ)
    → table_at m root (path_of v) ≡ some t
    → translate m root v ≡ leaf_at m (entry_at t (index_of v 12))
unfolding translate
translate-some m root v t e = rw (e, translate)

pub translate-none :
    (m : Mem) (root v : ℕ) → table_at m root (path_of v) ≡ none → translate m root v ≡ none
unfolding translate
translate-none m root v e = rw (e, translate)

-- The indices of an address, from the number of its page.
index_of-page_number :
    (v : ℕ)
    → (index_of v 12 ≡ page_number v % 512)
      × (index_of v 21 ≡ page_number v / 2 ^ 9 % 512)
      × (index_of v 30 ≡ page_number v / 2 ^ 18 % 512)
      × (index_of v 39 ≡ page_number v / 2 ^ 27 % 512)
index_of-page_number v =
    omega (arith, index_of-mod v 12, index_of-mod v 21, index_of-mod v 30, index_of-mod v 39)

pub indices_of_page_number :
    (v w : ℕ)
    → page_number v ≡ page_number w
    → (path_of v ≡ path_of w) × (index_of v 12 ≡ index_of w 12)
indices_of_page_number v w e =
    let (v12, v21, v30, v39) = index_of-page_number v in
    let (w12, w21, w30, w39) = index_of-page_number w in
    (
      ap₂ ◌∷◌ (v21 ∙ ap (λ (x : ℕ). x / 2 ^ 9 % 512) e ∙ sym w21) (
          ap₂ ◌∷◌ (v30 ∙ ap (λ (x : ℕ). x / 2 ^ 18 % 512) e ∙ sym w30)
            (ap₂ ◌∷◌ (v39 ∙ ap (λ (x : ℕ). x / 2 ^ 27 % 512) e ∙ sym w39) refl)),
      v12 ∙ ap (λ (x : ℕ). x % 512) e ∙ sym w12,
    )

-- The paths to the tables on the way to level 3.
pub outer-IsPath : (v : ℕ) → IsPath (index_of v 39 ∷ [])
outer-IsPath v = ((index_of-lt v 39, tt), omega arith)

pub middle-IsPath : (v : ℕ) → IsPath (index_of v 30 ∷ index_of v 39 ∷ [])
middle-IsPath v = ((index_of-lt v 30, (index_of-lt v 39, tt)), omega arith)
