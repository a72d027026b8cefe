-- ===== src/Print/Number.antt =====
-- `itoa` and `strtoul`: the printed digits denote the number.
use kernalite.Base.{
  ℕ, zero, suc, ◌+◌, ◌-◌, ◌*◌, ◌/◌, ◌%◌, ◌^◌, ◌≤◌, ◌<◌, ◌≡◌, ◌≢◌, refl, ◌⊎◌, inl, inr, some, List,
  [], ◌∷◌, length, add-suc, u8, u64, arith, ap, ap₂, sym, ◌∙◌, ℕ_discrete,
}
use native.Mathlib.Nat.{div-add-mod', div-div-eq-div-mul, pow-suc, add-zero}
use mathlib.Core.Path.{subst}
use kernalite.Memory.{Mem, load8, SameOutside}
use kernalite.Print.{digit_char, itoa}
use kernalite.Print.Digits.{div-pow_zero, IsPrinted, itoa-IsPrinted}
use kernalite.Strings.{digit_value, strtoul}
use kernalite.Strings.Number.{
  number, IsNumeral, ends, digit, IsDigit, IsDigit-digit_value, null-IsEnd, IsFormat, plain,
  strtoul_lem,
}

digit_value-digit_char : (d : ℕ) → d < 16 → digit_value (u8 (digit_char d)) ≡ some d
unfolding digit_value
digit_value-digit_char d l = ground arith

IsDigit-digit_char : (d : ℕ) → d < 16 → IsDigit (u8 (digit_char d)) d
IsDigit-digit_char d l = IsDigit-digit_value (u8 (digit_char d)) d (digit_value-digit_char d l)

digit_char-ne : (d c : ℕ) → d < 16 → (b'x' ≡ c) ⊎ (b'X' ≡ c) → u8 (digit_char d) ≢ c
digit_char-ne d c l x = ground arith

horner_step : (num base j : ℕ) → num / base ^ suc j * base + num / base ^ j % base ≡ num / base ^ j
horner_step num base j =
    rw (pow-suc base j, ← div-div-eq-div-mul num (base ^ j) base)
      (div-add-mod' (num / base ^ j) base)

pub chars_tail :
    (m : Mem) (base num j p : ℕ)
    → ((i : ℕ) → i < suc j → m (p + i) ≡ digit_char (num / base ^ (suc j - 1 - i) % base))
    → (i : ℕ) → i < j
    → m (p + 1 + i) ≡ digit_char (num / base ^ (j - 1 - i) % base)
chars_tail m base num j p chars i l =
    let index : suc j - 1 - suc i ≡ j - 1 - i = omega arith in
    rw (← add-suc p i, ← index) (chars (suc i) (omega arith))

-- The last `j` digits of `num`, from `p` on, with the higher ones in the accumulator.
IsNumeral-from :
    (m : Mem) (base num j p : ℕ)
    → 2 ≤ base
    → base ≤ 16
    → ((i : ℕ) → i < j → m (p + i) ≡ digit_char (num / base ^ (j - 1 - i) % base))
    → m (p + j) ≡ 0
    → (ds : List ℕ) × IsNumeral m base p ds
      × (length ds ≡ j)
      × (number base (num / base ^ j) ds ≡ num / base ^ 0)
IsNumeral-from m base num zero p b h chars e =
    let ended : m p ≡ 0 = rw add-zero at e in
    ([], ends (null-IsEnd m base p (ap u8 ended)), refl, refl)
IsNumeral-from m base num (suc j) p b h chars e =
    let here : m p ≡ digit_char (num / base ^ j % base) =
      let index : suc j - 1 - 0 ≡ j = omega arith in
      let first = chars 0 (omega arith) in rw (add-zero, index) at first in
    let small : num / base ^ j % base < base = omega arith in
    let (ds, n, l, v) =
      IsNumeral-from m base num j (p + 1) b h (chars_tail m base num j p chars)
        (rw (add-suc p j) at e) in
    (
      (num / base ^ j % base) ∷ ds,
      digit (num / base ^ j % base)
          (subst (λ (c : ℕ). IsDigit (u8 c) (num / base ^ j % base)) (sym here)
            (IsDigit-digit_char _ (omega arith)))
          small n,
      omega (arith, l),
      ap (λ (x : ℕ). number base x ds) (horner_step num base j) ∙ v,
    )

-- The second character is no `x`.
no_prefix :
    (m : Mem) (base p num k : ℕ)
    → 2 ≤ base
    → base ≤ 16
    → IsPrinted m base p num k
    → (load8 m (p + 1) ≢ b'x') × (load8 m (p + 1) ≢ b'X')
no_prefix m base p num k b h s = elim (ℕ_discrete k 1) [
  | yes e ↦
      let ended : m (p + 1) ≡ 0 = rw e at s.ended in
      (λ x. absurd (omega (arith, ended, x)), λ x. absurd (omega (arith, ended, x)))
  | no e ↦
      let here = ap u8 (s.digits 1 (omega (arith, s.positive))) in
      let small : num / base ^ (k - 1 - 1) % base < 16 = omega arith in
      (
        λ x. digit_char-ne _ b'x' small (inl refl) (sym here ∙ x),
        λ x. digit_char-ne _ b'X' small (inr refl) (sym here ∙ x),
      )
]

-- What `itoa` prints of a 64-bit number in a base from 2 to 16, `strtoul` reads back in that base:
-- the same number, and the pointer to the null byte. The 64 rounds of `itoa` are enough, and at most
-- 65 bytes of the buffer are written.
pub strtoul-itoa :
    (num base buf : ℕ) (m : Mem)
    → num < 2 ^ 64
    → 2 ≤ base
    → base ≤ 16
    → (k : ℕ) × (m' : Mem) × (k ≤ 64)
      × (itoa 64 num base buf m ≡ some m')
      × (load8 m' (buf + k) ≡ 0)
      × (strtoul 65 buf base m' ≡ some (num, buf + k))
      × SameOutside buf (buf + k + 1) m m'
strtoul-itoa num base buf m l b h =
    let (k, m', small, result, s, same) = itoa-IsPrinted 64 num base buf m b l (omega arith) in
    let (ds, n, length_ds, v) = IsNumeral-from m' base num k buf b h s.digits s.ended in
    let format : IsFormat m' base buf base buf =
      plain (omega arith) (inr (inr (no_prefix m' base buf num k b h s))) in
    let exact : number base 0 ds ≡ num =
      sym (ap (λ (x : ℕ). number base x ds) s.fits) ∙ v ∙ div-pow_zero num base in
    let value : u64 (number base 0 ds) ≡ num = omega (arith, exact) in
    let end : buf + length ds ≡ buf + k = omega (arith, length_ds) in
    (
      k,
      m',
      small,
      result,
      ap u8 s.ended,
      strtoul_lem 65 buf base base buf ds m' format n (omega (arith, length_ds))
          ∙ ap some (ap₂ (λ (x y : ℕ). (x, y)) value end),
      same,
    )
