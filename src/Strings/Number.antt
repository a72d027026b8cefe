-- ===== src/Strings/Number.antt =====
-- `strtoul`: the number that a string of digits denotes, in the base that the prefix and the
-- argument select.
use kernalite.Base.{
  ℕ, zero, suc, ◌+◌, ◌*◌, ◌/◌, ◌%◌, ◌^◌, ◌≤◌, ◌<◌, ◌≡◌, ◌≢◌, refl, ◌⊎◌, inl, inr, Option, none,
  some, List, [], ◌∷◌, length, lt→leb, le→leb, ==_ne, dec_lt, u64, arith, ap, ap₂, sym, ◌∙◌,
}
use native.Mathlib.Nat.{add-mul-mod_self_right, div-add-mod'}
use kernalite.Memory.{Mem, load8}
use kernalite.Strings.{digit_value, strtoul_loop, strtoul}

-- The number that follows `acc` when the digits are appended to it.
abbrev pub number : ℕ → ℕ → List ℕ → ℕ
number base acc [] = acc
number base acc (d ∷ ds) = number base (acc * base + d) ds

-- `c` is the character of the digit `d`: one of the ten figures, or one of the first six letters in
-- either case.
pub data IsDigit (c d : ℕ) : Type 0 where
  figure : d < 10 → c ≡ b'0' + d → IsDigit c d
  lower : 10 ≤ d → d < 16 → c + 10 ≡ b'a' + d → IsDigit c d
  upper : 10 ≤ d → d < 16 → c + 10 ≡ b'A' + d → IsDigit c d

-- No digit of the base stands at `p`.
abbrev pub IsEnd : Mem → ℕ → ℕ → Type 0
IsEnd m base p = (d : ℕ) → d < base → ¬ IsDigit (load8 m p) d

-- The longest run of digits of the base from `p` on has the values `ds`.
pub data IsNumeral (m : Mem) (base : ℕ) : ℕ → List ℕ → Type 0 where
  ends : {p : ℕ} → IsEnd m base p → IsNumeral m base p []
  digit :
      {p : ℕ} {ds : List ℕ} (d : ℕ)
      → IsDigit (load8 m p) d
      → d < base
      → IsNumeral m base (p + 1) ds
      → IsNumeral m base p (d ∷ ds)

-- `digit_value` finds the value of each digit, and of nothing else.
pub digit_value-IsDigit : (c d : ℕ) → IsDigit c d → digit_value c ≡ some d
unfolding digit_value
digit_value-IsDigit c d (figure l e) = ground arith
digit_value-IsDigit c d (lower h l e) = ground arith
digit_value-IsDigit c d (upper h l e) = ground arith

digit_value_kinds :
    (c d : ℕ)
    → digit_value c ≡ some d
    → ((d < 10) × (c ≡ b'0' + d))
      ⊎ ((10 ≤ d) × (d < 16) × (c + 10 ≡ b'a' + d))
      ⊎ ((10 ≤ d) × (d < 16) × (c + 10 ≡ b'A' + d))
unfolding digit_value
digit_value_kinds c d h = ground arith

pub IsDigit-digit_value : (c d : ℕ) → digit_value c ≡ some d → IsDigit c d
IsDigit-digit_value c d h = elim (digit_value_kinds c d h) [
  | inl (l, e) ↦ figure l e
  | inr (inl (k, l, e)) ↦ lower k l e
  | inr (inr (k, l, e)) ↦ upper k l e
]

-- The end of the digits, as the loop sees it.
end_value :
    (m : Mem) (base p : ℕ)
    → IsEnd m base p
    → (digit_value (load8 m p) ≡ none)
      ⊎ ((value : ℕ) × (digit_value (load8 m p) ≡ some value) × (base ≤ value))
end_value m base p stop = go (digit_value (load8 m p)) refl
  where
    go :
        (o : Option ℕ)
        → digit_value (load8 m p) ≡ o
        → (digit_value (load8 m p) ≡ none)
          ⊎ ((value : ℕ) × (digit_value (load8 m p) ≡ some value) × (base ≤ value))
    go none e = inl e
    go (some d) e = inr (d, e, not_below d e)
      where
        not_below : (d : ℕ) → digit_value (load8 m p) ≡ some d → base ≤ d
        not_below d e = elim (dec_lt d base) [
          | yes l ↦ absurd (stop d l (IsDigit-digit_value (load8 m p) d e))
          | no l ↦ omega arith
        ]

-- A null byte is no digit.
pub null-IsEnd : (m : Mem) (base p : ℕ) → load8 m p ≡ 0 → IsEnd m base p
null-IsEnd m base p e d l (figure h c) = omega (arith, e, c)
null-IsEnd m base p e d l (lower h k c) = omega (arith, e, c, h)
null-IsEnd m base p e d l (upper h k c) = omega (arith, e, c, h)

-- The base and the start of the digits that `strtoul` reads for a base argument and a string.
pub data IsFormat (m : Mem) : ℕ → ℕ → ℕ → ℕ → Type 0 where
  prefixed :
      {base p : ℕ}
      → (base ≡ 0) ⊎ (base ≡ 16)
      → load8 m p ≡ b'0'
      → (load8 m (p + 1) ≡ b'x') ⊎ (load8 m (p + 1) ≡ b'X')
      → IsFormat m base p 16 (p + 2)
  decimal :
      {p : ℕ}
      → (load8 m p ≢ b'0') ⊎ ((load8 m (p + 1) ≢ b'x') × (load8 m (p + 1) ≢ b'X'))
      → IsFormat m 0 p 10 p
  plain :
      {base p : ℕ}
      → base ≢ 0
      → (base ≢ 16) ⊎ (load8 m p ≢ b'0') ⊎ ((load8 m (p + 1) ≢ b'x') × (load8 m (p + 1) ≢ b'X'))
      → IsFormat m base p base p

mul_mod : (a b n : ℕ) → a % n * b % n ≡ a * b % n
mul_mod a b n =
    sym (add-mul-mod_self_right (a % n * b) (a / n * b) n)
    ∙ ap (λ (x : ℕ). x % n) (omega (arith, ap (λ (x : ℕ). x * b) (div-add-mod' a n)))

step_same : (a c base d : ℕ) → u64 a ≡ u64 c → u64 (a * base + d) ≡ u64 (c * base + d)
step_same a c base d e =
    let left = mul_mod a base (2 ^ 64) in
    let right = mul_mod c base (2 ^ 64) in
    let same : u64 a * base ≡ u64 c * base = ap (λ (x : ℕ). x * base) e in
    omega (arith, ap (λ (x : ℕ). x % 2 ^ 64) same)

number_same :
    (base a c : ℕ) (ds : List ℕ) → u64 a ≡ u64 c → u64 (number base a ds) ≡ u64 (number base c ds)
number_same base a c [] e = e
number_same base a c (d ∷ ds) e =
    number_same base (a * base + d) (c * base + d) ds (step_same a c base d e)

digit_value_zero : digit_value 0 ≡ none
unfolding digit_value
digit_value_zero = refl

digit_not_null : (c d : ℕ) → digit_value c ≡ some d → c ≢ 0
digit_not_null c d h e = cc (ap digit_value e, digit_value_zero)

-- One round of the loop on a digit of the base.
strtoul_loop_digit :
    (fuel p base res d : ℕ) (m : Mem)
    → digit_value (load8 m p) ≡ some d
    → d < base
    → strtoul_loop (suc fuel) p base res m
      ≡ strtoul_loop fuel (p + 1) base (u64 (u64 (res * base) + d)) m
unfolding strtoul_loop
strtoul_loop_digit fuel p base res d m value small =
    rw (==_ne _ _ (digit_not_null (load8 m p) d value), value, lt→leb base d small) refl

-- The end of the loop at the first byte that is no digit of the base.
strtoul_loop_end :
    (fuel p base res : ℕ) (m : Mem)
    → IsEnd m base p
    → strtoul_loop (suc fuel) p base res m ≡ some (res, p)
unfolding strtoul_loop
strtoul_loop_end fuel p base res m stop = elim (end_value m base p stop) [
  | inl none_here ↦ rw none_here (ground arith)
  | inr (d, value, large) ↦
      rw (==_ne _ _ (digit_not_null (load8 m p) d value), value, le→leb base d large) refl
]

strtoul_loop_lem :
    (fuel p base res : ℕ) (ds : List ℕ) (m : Mem)
    → IsNumeral m base p ds
    → length ds < fuel
    → u64 res ≡ res
    → strtoul_loop fuel p base res m ≡ some (u64 (number base res ds), p + length ds)
strtoul_loop_lem zero p base res ds m n l e = absurd (omega arith)
strtoul_loop_lem (suc fuel) p base res [] m (ends stop) l e =
    strtoul_loop_end fuel p base res m stop
    ∙ ap some (ap₂ (λ (x y : ℕ). (x, y)) (sym e) (omega arith))
strtoul_loop_lem (suc fuel) p base res (d ∷ ds) m (digit d' value small n) l e =
    strtoul_loop_digit fuel p base res d m (digit_value-IsDigit _ d value) small
    ∙ strtoul_loop_lem fuel (p + 1) base (u64 (u64 (res * base) + d)) ds m n (omega arith)
        (omega arith)
    ∙ ap some (
        ap₂ (λ (x y : ℕ). (x, y))
          (number_same base (u64 (u64 (res * base) + d)) (res * base + d) ds (omega arith))
          (omega arith))

strtoul_start :
    (fuel p base base' start : ℕ) (m : Mem)
    → IsFormat m base p base' start
    → strtoul fuel p base m ≡ strtoul_loop fuel start base' 0 m
unfolding strtoul
strtoul_start fuel p base base' start m (prefixed b z x) = ground arith
strtoul_start fuel p base base' start m (decimal z) = ground arith
strtoul_start fuel p base base' start m (plain ne z) = ground arith

-- `strtoul` reads the longest run of digits of the base behind the prefix, if there is one, where the
-- digits are the ten figures and the letters a to f in either case: it
-- returns their number modulo `2 ^ 64` and the address behind them, with fuel for one byte more than
-- there are digits.
pub strtoul_lem :
    (fuel p base base' start : ℕ) (ds : List ℕ) (m : Mem)
    → IsFormat m base p base' start
    → IsNumeral m base' start ds
    → length ds < fuel
    → strtoul fuel p base m ≡ some (u64 (number base' 0 ds), start + length ds)
strtoul_lem fuel p base base' start ds m format numeral l =
    strtoul_start fuel p base base' start m format
    ∙ strtoul_loop_lem fuel start base' 0 ds m numeral l (omega arith)
