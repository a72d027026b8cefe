-- ===== src/PageTable/Collect.antt =====
-- The results of a function on consecutive arguments, in order: the lines of the pages of a range.
use kernalite.Base.{
  ℕ, zero, suc, ◌+◌, ◌*◌, ◌<◌, ◌≤◌, ◌≡◌, sym, ap₂, refl, List, [], ◌++◌, append_assoc, arith,
}

-- The results of `f` from `a` on, for `count` arguments.
unfoldable pub collect {ℓ} : {A : Type ℓ} → (ℕ → List A) → ℕ → ℕ → List A
collect f a zero = []
collect f a (suc count) = f a ++ collect f (a + 1) count

module _ {ℓ} {A : Type ℓ} where
  pub collect-add :
      (f : ℕ → List A) (a n k : ℕ) → collect f a (n + k) ≡ collect f a n ++ collect f (a + n) k
  unfolding collect
  collect-add f a zero k = ap₂ (collect f) (omega arith) (omega arith)
  collect-add f a (suc n) k =
      let e : suc n + k ≡ suc (n + k) = omega arith in
      let here : a + suc n ≡ a + 1 + n = omega arith in
      rw (e, collect-add f (a + 1) n k, here) (sym (append_assoc (f a) _ _))

  pub collect-cong :
      (f g : ℕ → List A) (a n : ℕ)
      → ((i : ℕ) → a ≤ i → i < a + n → f i ≡ g i)
      → collect f a n ≡ collect g a n
  unfolding collect
  collect-cong f g a zero h = refl
  collect-cong f g a (suc n) h =
      ap₂ ◌++◌ (h a (omega arith) (omega arith))
        (collect-cong f g (a + 1) n (λ i l k. h i (omega arith) (omega arith)))

  pub collect-nil :
      (f : ℕ → List A) (a n : ℕ) → ((i : ℕ) → a ≤ i → i < a + n → f i ≡ []) → collect f a n ≡ []
  unfolding collect
  collect-nil f a zero h = refl
  collect-nil f a (suc n) h =
      rw (h a (omega arith) (omega arith))
        (collect-nil f (a + 1) n (λ i l k. h i (omega arith) (omega arith)))

pub collect-suc :
    {A : Type 0} (f : ℕ → List A) (a p r : ℕ)
    → collect f (a * p) (suc r * p) ≡ collect f (a * p) p ++ collect f ((a + 1) * p) (r * p)
collect-suc f a p r =
    let count : suc r * p ≡ p + r * p = omega arith in
    let next : (a + 1) * p ≡ a * p + p = omega arith in
    rw (count, next) (collect-add f (a * p) p (r * p))
