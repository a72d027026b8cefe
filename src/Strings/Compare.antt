-- ===== src/Strings/Compare.antt =====
-- `memcmp` and `memchr`: the first difference, and the first match.
use kernalite.Base.{
  ℕ, zero, suc, ◌+◌, ◌<◌, ◌≡◌, ◌≢◌, refl, ◌⊎◌, inl, inr, ==_ne, ==_of_eq, all_suc, add-suc, u8,
  arith, ℕ_discrete,
}
use native.Mathlib.Nat.{add-zero}
use kernalite.Base.Int.{pos, sub_ℕ}
use kernalite.Memory.{Mem, load8}
use kernalite.Strings.{memcmp, memchr}

-- The first `n` bytes of the two blocks agree.
abbrev pub Agree : Mem → ℕ → ℕ → ℕ → Type 0
Agree m p q n = (i : ℕ) → i < n → load8 m (p + i) ≡ load8 m (q + i)

Agree-suc :
    (m : Mem) (p q n : ℕ) → load8 m p ≡ load8 m q → Agree m (p + 1) (q + 1) n → Agree m p q (suc n)
Agree-suc m p q n e h =
    all_suc (λ i. load8 m (p + i) ≡ load8 m (q + i)) n (rw (add-zero, add-zero) e)
      λ i l. rw (add-suc p i, add-suc q i) (h i l)

memcmp_equal :
    (p q size : ℕ) (m : Mem)
    → load8 m p ≡ load8 m q
    → memcmp p q (suc size) m ≡ memcmp (p + 1) (q + 1) size m
unfolding memcmp
memcmp_equal p q size m e = rw (==_of_eq _ _ e)

memcmp_differ :
    (p q size : ℕ) (m : Mem)
    → load8 m p ≢ load8 m q
    → memcmp p q (suc size) m ≡ sub_ℕ (load8 m p) (load8 m q)
unfolding memcmp
memcmp_differ p q size m e = rw (==_ne _ _ e)

-- The result of `memcmp`: the difference of the first bytes that differ, or 0 if none do.
pub memcmp-outcome :
    (p q size : ℕ) (m : Mem)
    → ((i : ℕ) × (i < size)
        × Agree m p q i
        × (load8 m (p + i) ≢ load8 m (q + i))
        × (memcmp p q size m ≡ sub_ℕ (load8 m (p + i)) (load8 m (q + i))))
      ⊎ (Agree m p q size × (memcmp p q size m ≡ pos 0))
memcmp-outcome p q zero m = inr (λ i h. absurd (omega arith), unfold memcmp in refl)
memcmp-outcome p q (suc size) m = elim (ℕ_discrete (load8 m p) (load8 m q)) [
  | yes e ↦ rw (memcmp_equal p q size m e) (elim (memcmp-outcome (p + 1) (q + 1) size m) [
    | inl (i, l, agree, differ, result) ↦ inl (
      suc i,
      omega arith,
      Agree-suc m p q i e agree,
      rw (add-suc p i, add-suc q i) differ,
      rw (add-suc p i, add-suc q i) result,
    )
    | inr (agree, result) ↦ inr (Agree-suc m p q size e agree, result)
  ])
  | no e ↦ inl (
    0,
    omega arith,
    λ i h. absurd (omega arith),
    rw (add-zero, add-zero) e,
    rw (add-zero, add-zero) (memcmp_differ p q size m e),
  )
]

-- None of the first `n` bytes is `c`.
abbrev pub Lacks : Mem → ℕ → ℕ → ℕ → Type 0
Lacks m p c n = (i : ℕ) → i < n → load8 m (p + i) ≢ c

pub Lacks-suc : (m : Mem) (p c n : ℕ) → load8 m p ≢ c → Lacks m (p + 1) c n → Lacks m p c (suc n)
Lacks-suc m p c n e h =
    all_suc (λ i. load8 m (p + i) ≢ c) n (rw add-zero e) λ i l. rw (add-suc p i) (h i l)

-- The first match of `c` from `p` on is at index `i`.
pub record IsFirst (m : Mem) (p c i : ℕ) : Type 0 where
  pub matches : load8 m (p + i) ≡ c
  pub before : Lacks m p c i

pub IsFirst-suc :
    (m : Mem) (p c i : ℕ) → load8 m p ≢ c → IsFirst m (p + 1) c i → IsFirst m p c (suc i)
IsFirst-suc m p c i e f = record {
  matches = rw (add-suc p i) f.matches;
  before = Lacks-suc m p c i e f.before;
}

pub IsFirst-zero : (m : Mem) (p c : ℕ) → load8 m p ≡ c → IsFirst m p c 0
IsFirst-zero m p c e = record { matches = rw add-zero e; before = λ i h. absurd (omega arith) }

-- `memchr` returns the address of the first byte that matches the low byte of the character, or
-- `NULL` if none of the block does.
pub memchr-outcome :
    (ptr chr size : ℕ) (m : Mem)
    → ((i : ℕ) × (i < size) × IsFirst m ptr (u8 chr) i × (memchr ptr chr size m ≡ ptr + i))
      ⊎ (Lacks m ptr (u8 chr) size × (memchr ptr chr size m ≡ 0))
unfolding memchr
memchr-outcome ptr chr zero m = inr (λ i h. absurd (omega arith), refl)
memchr-outcome ptr chr (suc size) m = elim (ℕ_discrete (load8 m ptr) (u8 chr)) [
  | yes e ↦ inl (0, omega arith, IsFirst-zero m ptr (u8 chr) e, rw (==_of_eq _ _ e) (omega arith))
  | no e ↦ rw (==_ne _ _ e) (elim (memchr-outcome (ptr + 1) chr size m) [
    | inl (i, l, first, result) ↦
        inl (suc i, omega arith, IsFirst-suc m ptr (u8 chr) i e first, rw (add-suc ptr i) result)
    | inr (lacks, result) ↦ inr (Lacks-suc m ptr (u8 chr) size e lacks, result)
  ])
]
