-- ===== src/Allocator/Abstract/Fit.antt =====
-- What the abstract search finds.
use kernalite.Base.{
  ℕ, zero, suc, ◌+◌, ◌≤◌, ◌<◌, ◌≡◌, refl, inl, inr, true, false, ltb, arith, none, some, Bool-cases,
}
use kernalite.Allocator.Search.{IsBlocked}
use kernalite.Allocator.Abstract.{Status, all_free, first_fit}

all_free-true :
    (used : Status) (n s : ℕ)
    → ((j : ℕ) → s ≤ j → j < s + n → used j ≡ false)
    → all_free used s n ≡ true
unfolding all_free
all_free-true used zero s h = refl
all_free-true used (suc n) s h =
    rw (h s (omega arith) (omega arith))
      (all_free-true used n (s + 1) (λ j p q. h j (omega arith) (omega arith)))

all_free-false : (used : Status) (n s : ℕ) → IsBlocked used n s → all_free used s n ≡ false
unfolding all_free
all_free-false used zero s (j, p, q, u) = absurd (omega arith)
all_free-false used (suc n) s (j, p, q, u) = elim (Bool-cases (used s)) [
  | inl e ↦ rw e refl
  | inr e ↦ rw e (all_free-false used n (s + 1) (j, ground (arith, e, u), omega arith, u))
]

module _ (used : Status) (n : ℕ) where
  pub first_fit-some :
      (rounds i s : ℕ)
      → i ≤ s
      → s < i + rounds
      → ((j : ℕ) → s ≤ j → j < s + n → used j ≡ false)
      → ((t : ℕ) → t < s → IsBlocked used n t)
      → first_fit used n rounds i ≡ some s
  unfolding first_fit
  first_fit-some zero i s h k free least = absurd (omega arith)
  first_fit-some (suc rounds) i s h k free least = elim (Bool-cases (ltb i s)) [
    | inl e ↦
        rw (all_free-false used n i (least i (ground arith)))
          (first_fit-some rounds (i + 1) s (ground arith) (omega arith) free least)
    | inr e ↦ let here : i ≡ s = ground arith in rw (here, all_free-true used n s free) refl
  ]

  pub first_fit-none :
      (rounds i : ℕ)
      → ((t : ℕ) → t < i + rounds → IsBlocked used n t)
      → first_fit used n rounds i ≡ none
  unfolding first_fit
  first_fit-none zero i h = refl
  first_fit-none (suc rounds) i h =
      rw (all_free-false used n i (h i (omega arith)))
        (first_fit-none rounds (i + 1) (λ t l. h t (omega arith)))
