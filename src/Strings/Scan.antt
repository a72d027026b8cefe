-- ===== src/Strings/Scan.antt =====
-- The functions on null-terminated strings: `strlen`, `strnlen`, `strchr` and `strrchr`.
use kernalite.Base.{
  ℕ, zero, suc, ◌+◌, ◌≤◌, ◌<◌, min, ◌≡◌, ◌≢◌, refl, ◌⊎◌, inl, inr, some, ==_ne, ==_of_eq, add-suc,
  u8, arith, ap, ◌∙◌, ℕ_discrete,
}
use native.Mathlib.Nat.{add-zero}
use kernalite.Memory.{Mem, load8}
use kernalite.Strings.{strlen_loop, strlen, strnlen_loop, strnlen, strchr, strrchr_loop, strrchr}
use kernalite.Strings.Compare.{Lacks, Lacks-suc, IsFirst, IsFirst-suc, IsFirst-zero}

-- A string of `n` characters starts at `p`: its first null byte is at index `n`.
abbrev pub IsString : Mem → ℕ → ℕ → Type 0
IsString m p n = IsFirst m p 0 n

pub IsString-tail :
    (m : Mem) (p n : ℕ) → IsString m p (suc n) → (load8 m p ≢ 0) × IsString m (p + 1) n
IsString-tail m p n s = (
  rw add-zero at (s.before 0 (omega arith)),
  record {
    matches = rw add-suc at s.matches;
    before = λ i l. rw (← add-suc p i) (s.before (suc i) (omega arith));
  },
)

strlen_loop_lem :
    (fuel p len n : ℕ) (m : Mem)
    → IsString m (p + len) n
    → n < fuel
    → strlen_loop fuel p len m ≡ some (len + n)
unfolding strlen_loop
strlen_loop_lem zero p len n m s l = absurd (omega arith)
strlen_loop_lem (suc fuel) p len zero m s l =
    let e : load8 m (p + len) ≡ 0 = rw add-zero at s.matches in
    rw (==_of_eq _ _ e) (ap some (omega arith))
strlen_loop_lem (suc fuel) p len (suc n) m s l =
    let (ne, tail) = IsString-tail m (p + len) n s in
    let shift : p + len + 1 ≡ p + (len + 1) = omega arith in
    rw (==_ne _ _ ne) (
      strlen_loop_lem fuel p (len + 1) n m (rw (← shift) tail) (omega arith)
      ∙ ap some (omega arith))

-- On a string of `n` characters `strlen` returns `n`, with fuel for `n + 1` bytes.
pub strlen_lem : (fuel p n : ℕ) (m : Mem) → IsString m p n → n < fuel → strlen fuel p m ≡ some n
unfolding strlen
strlen_lem fuel p n m s l = strlen_loop_lem fuel p 0 n m (rw add-zero s) l ∙ ap some (omega arith)

-- What the first `n` bytes say about the length when only `maxlen` bytes are read.
strnlen_loop_lem :
    (rounds p len n : ℕ) (m : Mem)
    → IsString m (p + len) n ⊎ (Lacks m (p + len) 0 rounds × (rounds ≤ n))
    → strnlen_loop rounds p len m ≡ len + min n rounds
unfolding strnlen_loop
strnlen_loop_lem zero p len n m s = omega arith
strnlen_loop_lem (suc rounds) p len zero m (inl s) =
    let e : load8 m (p + len) ≡ 0 = rw add-zero at s.matches in rw (==_of_eq _ _ e) (omega arith)
strnlen_loop_lem (suc rounds) p len zero m (inr (lacks, l)) = absurd (omega arith)
strnlen_loop_lem (suc rounds) p len (suc n) m (inl s) =
    let (ne, tail) = IsString-tail m (p + len) n s in
    let shift : p + len + 1 ≡ p + (len + 1) = omega arith in
    rw (==_ne _ _ ne)
      (strnlen_loop_lem rounds p (len + 1) n m (inl (rw (← shift) tail)) ∙ omega arith)
strnlen_loop_lem (suc rounds) p len (suc n) m (inr (lacks, l)) =
    let ne : load8 m (p + len) ≢ 0 = rw add-zero at (lacks 0 (omega arith)) in
    let shift : p + len + 1 ≡ p + (len + 1) = omega arith in
    rw (==_ne _ _ ne) (
      strnlen_loop_lem rounds p (len + 1) n m (
        inr
          ((λ i k. rw (← shift, ← add-suc (p + len) i) (lacks (suc i) (omega arith))), omega arith))
      ∙ omega arith)

-- `strnlen` is the length of the string, cut off at `maxlen`; where the first `maxlen` bytes hold no
-- null byte, it is `maxlen`, and no byte behind them matters.
pub strnlen_lem :
    (p maxlen n : ℕ) (m : Mem)
    → IsString m p n ⊎ (Lacks m p 0 maxlen × (maxlen ≤ n))
    → strnlen p maxlen m ≡ min n maxlen
unfolding strnlen
strnlen_lem p maxlen n m s = strnlen_loop_lem maxlen p 0 n m (rw add-zero s) ∙ omega arith

-- `strchr` finds the first character that matches, the terminating null byte included, or returns
-- `NULL`.
pub strchr-outcome :
    (fuel p chr n : ℕ) (m : Mem)
    → IsString m p n
    → n < fuel
    → ((i : ℕ) × (i ≤ n) × IsFirst m p (u8 chr) i × (strchr fuel p chr m ≡ some (p + i)))
      ⊎ (Lacks m p (u8 chr) (suc n) × (strchr fuel p chr m ≡ some 0))
unfolding strchr
strchr-outcome zero p chr n m s l = absurd (omega arith)
strchr-outcome (suc fuel) p chr zero m s l = elim (ℕ_discrete (load8 m p) (u8 chr)) [
  | yes e ↦
      inl (0, omega arith, IsFirst-zero m p (u8 chr) e, rw (==_of_eq _ _ e) (ap some (omega arith)))
  | no e ↦
      let ended : load8 m p ≡ 0 = rw add-zero at s.matches in
      rw (==_ne _ _ e, ==_of_eq _ _ ended)
        (inr (Lacks-suc m p (u8 chr) 0 e λ i k. absurd (omega arith), refl))
]
strchr-outcome (suc fuel) p chr (suc n) m s l = elim (ℕ_discrete (load8 m p) (u8 chr)) [
  | yes e ↦
      inl (0, omega arith, IsFirst-zero m p (u8 chr) e, rw (==_of_eq _ _ e) (ap some (omega arith)))
  | no e ↦
      let (ne, tail) = IsString-tail m p n s in
      rw (==_ne _ _ e, ==_ne _ _ ne)
        (elim (strchr-outcome fuel (p + 1) chr n m tail (omega arith)) [
          | inl (i, k, first, result) ↦
              inl (suc i, omega arith, IsFirst-suc m p (u8 chr) i e first, rw (add-suc p i) result)
          | inr (lacks, result) ↦ inr (Lacks-suc m p (u8 chr) (suc n) e lacks, result)
        ])
]

-- `i` is the last index up to `n` that matches `c`.
pub record IsLast (m : Mem) (p c n i : ℕ) : Type 0 where
  pub fits : i ≤ n
  pub matches : load8 m (p + i) ≡ c
  pub after : (j : ℕ) → i < j → j ≤ n → load8 m (p + j) ≢ c

IsLast-suc : (m : Mem) (p c n i : ℕ) → IsLast m (p + 1) c n i → IsLast m p c (suc n) (suc i)
IsLast-suc m p c n i f = record {
  fits = let k = f.fits in omega arith;
  matches = rw (add-suc p i) f.matches;
  after = λ j. after j;
}
  where
    after : (j : ℕ) → suc i < j → j ≤ suc n → load8 m (p + j) ≢ c
    after zero l k = absurd (omega arith)
    after (suc j) l k = rw (add-suc p j) (f.after j (omega arith) (omega arith))

IsLast-zero : (m : Mem) (p c n : ℕ) → load8 m p ≡ c → Lacks m (p + 1) c n → IsLast m p c n 0
IsLast-zero m p c n e lacks = record {
  fits = omega arith;
  matches = rw add-zero e;
  after = λ j. after j;
}
  where
    after : (j : ℕ) → 0 < j → j ≤ n → load8 m (p + j) ≢ c
    after zero l k = absurd (omega arith)
    after (suc j) l k = rw (add-suc p j) (lacks j (omega arith))

-- The loop of `strrchr` at `p`: the last match from there on, or `last` if there is none.
strrchr_loop-outcome :
    (fuel p chr last n : ℕ) (m : Mem)
    → IsString m p n
    → n < fuel
    → ((i : ℕ) × IsLast m p (u8 chr) n i × (strrchr_loop fuel p chr last m ≡ some (p + i)))
      ⊎ (Lacks m p (u8 chr) (suc n) × (strrchr_loop fuel p chr last m ≡ some last))
unfolding strrchr_loop
strrchr_loop-outcome zero p chr last n m s l = absurd (omega arith)
strrchr_loop-outcome (suc fuel) p chr last zero m s l =
    let ended : load8 m p ≡ 0 = rw add-zero at s.matches in
    elim (ℕ_discrete (load8 m p) (u8 chr)) [
      | yes e ↦
          rw (==_of_eq _ _ ended, ==_of_eq _ _ e)
            (inl (
              0,
              IsLast-zero m p (u8 chr) 0 e (λ i k. absurd (omega arith)),
              ap some (omega arith),
            ))
      | no e ↦
          rw (==_of_eq _ _ ended, ==_ne _ _ e)
            (inr (Lacks-suc m p (u8 chr) 0 e (λ i k. absurd (omega arith)), refl))
    ]
strrchr_loop-outcome (suc fuel) p chr last (suc n) m s l =
    let (ne, tail) = IsString-tail m p n s in
    elim (ℕ_discrete (load8 m p) (u8 chr)) [
      | yes e ↦
          rw (==_ne _ _ ne, ==_of_eq _ _ e)
            (elim (strrchr_loop-outcome fuel (p + 1) chr p n m tail (omega arith)) [
              | inl (i, last', result) ↦
                  inl (suc i, IsLast-suc m p (u8 chr) n i last', rw (add-suc p i) result)
              | inr (lacks, result) ↦
                  inl (0, IsLast-zero m p (u8 chr) (suc n) e lacks, result ∙ ap some (omega arith))
            ])
      | no e ↦
          rw (==_ne _ _ ne, ==_ne _ _ e)
            (elim (strrchr_loop-outcome fuel (p + 1) chr last n m tail (omega arith)) [
              | inl (i, last', result) ↦
                  inl (suc i, IsLast-suc m p (u8 chr) n i last', rw (add-suc p i) result)
              | inr (lacks, result) ↦ inr (Lacks-suc m p (u8 chr) (suc n) e lacks, result)
            ])
    ]

-- `strrchr` finds the last character of the string that matches, the terminating null byte included,
-- or returns `NULL`; with fuel for `n + 1` bytes.
pub strrchr-outcome :
    (fuel p chr n : ℕ) (m : Mem)
    → IsString m p n
    → n < fuel
    → ((i : ℕ) × IsLast m p (u8 chr) n i × (strrchr fuel p chr m ≡ some (p + i)))
      ⊎ (Lacks m p (u8 chr) (suc n) × (strrchr fuel p chr m ≡ some 0))
unfolding strrchr
strrchr-outcome fuel p chr n m s l = strrchr_loop-outcome fuel p chr 0 n m s l
