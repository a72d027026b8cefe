-- ===== src/PageTable/Confine.antt =====
-- What the functions that extend or change the tables leave alone: pages that are in use, and every
-- byte that is neither the allocator's, nor on a free page, nor on a table.
use kernalite.Base.{
  ℕ, ◌+◌, ◌*◌, ◌/◌, ◌≤◌, ◌<◌, ◌≡◌, refl, ◌⊎◌, inl, inr, true, false, some, List, ◌∙◌, arith,
}
use kernalite.Memory.{Mem}
use kernalite.Allocator.{Allocator, page_size}
use kernalite.Allocator.Bitmap.{page_used}
use kernalite.PageTable.Walk.{table_at, IsPath}

-- The byte at `x` does not lie in the page at `t`.
abbrev pub IsOff : ℕ → ℕ → Type 0
IsOff t x = (x < t) ⊎ (t + page_size ≤ x)

abbrev pub IsOffBitmap : Allocator → ℕ → Type 0
IsOffBitmap a x = (x < a.bitmap) ⊎ (a.bitmap + (a.total_pages + 7) / 8 ≤ x)

-- `t` is a page of the region that is free.
abbrev pub IsFreePage : Allocator → Mem → ℕ → Type 0
IsFreePage a m t =
    (k : ℕ) × (k < a.total_pages)
    × (page_used a.bitmap m k ≡ false)
    × (t ≡ a.mem_base + k * page_size)

-- Page `k` is a table.
abbrev pub IsTableAt : Allocator → ℕ → Mem → ℕ → Type 0
IsTableAt a root m k =
    (q : List ℕ) × (t : ℕ) × IsPath q
    × (table_at m root q ≡ some t)
    × (t ≡ a.mem_base + k * page_size)

pub record IsConfined (a : Allocator) (m m' : Mem) (root : ℕ) : Type 0 where
  pub used :
      (k : ℕ) → k < a.total_pages → page_used a.bitmap m k ≡ true → page_used a.bitmap m' k ≡ true
  pub frame :
      (x : ℕ)
      → IsOffBitmap a x
      → ((t : ℕ) → IsFreePage a m t → IsOff t x)
      → ((q : List ℕ) (t : ℕ) → IsPath q → table_at m root q ≡ some t → IsOff t x)
      → m' x ≡ m x
  pub tables :
      (q : List ℕ) (t : ℕ)
      → IsPath q
      → table_at m' root q ≡ some t
      → (table_at m root q ≡ some t) ⊎ IsFreePage a m t
  pub kept :
      (q : List ℕ) (t : ℕ) → IsPath q → table_at m root q ≡ some t → table_at m' root q ≡ some t
  pub accounted :
      (k : ℕ)
      → k < a.total_pages
      → page_used a.bitmap m' k ≡ true
      → (page_used a.bitmap m k ≡ true) ⊎ IsTableAt a root m' k

pub IsConfined-refl : (a : Allocator) (m : Mem) (root : ℕ) → IsConfined a m m root
IsConfined-refl a m root = record {
  used = λ k l e. e;
  frame = λ x b f t. refl;
  tables = λ q t h e. inl e;
  kept = λ q t h e. e;
  accounted = λ k l e. inl e;
}

-- A page that is free later was free before.
IsFreePage-before :
    {a : Allocator} {m m' : Mem} {root : ℕ}
    → IsConfined a m m' root
    → (t : ℕ) → IsFreePage a m' t
    → IsFreePage a m t
IsFreePage-before c t (k, l, e, p) = (k, l, ground (arith, c.used k l, e), p)

module _ {a : Allocator} {m m' m'' : Mem} {root : ℕ} where
  pub IsConfined-trans : IsConfined a m m' root → IsConfined a m' m'' root → IsConfined a m m'' root
  IsConfined-trans c d = record {
    used = λ k l e. d.used k l (c.used k l e);
    frame = λ x b f t.
        d.frame x b (λ u h. f u (IsFreePage-before c u h))
          (λ q u h e. elim (c.tables q u h e) [ inl old ↦ t q u h old | inr free ↦ f u free ])
        ∙ c.frame x b f t;
    tables = λ q u h e. elim (d.tables q u h e) [
      | inl old ↦ c.tables q u h old
      | inr free ↦ inr (IsFreePage-before c u free)
    ];
    kept = λ q u h e. d.kept q u h (c.kept q u h e);
    accounted = λ k l e. elim (d.accounted k l e) [
      | inr table ↦ inr table
      | inl before ↦ elim (c.accounted k l before) [
        | inl old ↦ inl old
        | inr (q, u, h, at, here) ↦ inr (q, u, h, d.kept q u h at, here)
      ]
    ];
  }
