-- ===== src/Print/Digits.antt =====
-- `itoa`: the digits of a number, highest first, as a null-terminated string in the buffer.
use kernalite.Base.{
  ℕ, zero, suc, ◌+◌, ◌-◌, ◌*◌, ◌/◌, ◌%◌, ◌^◌, ◌≤◌, ◌<◌, ◌≡◌, ◌≢◌, refl, ◌⊎◌, inl, inr, some, ==_ne,
  ==_of_eq, add-suc, arith, ap, sym, ◌∙◌, ℕ_discrete,
}
use native.Mathlib.Nat.{
  div-div-eq-div-mul, div-lt_iff_lt-mul, pow-zero, pow-suc, pow-succ', add-zero, mul-le-mul_left,
}
use kernalite.Memory.{Mem, store, SameOutside}
use kernalite.Print.Reversal.{store_here, store-SameOutside, reverse_loop_lem}
use kernalite.Print.{digit_char, digits_loop, reverse_loop, itoa}

-- The `k` characters from `p` on are the digits of `num`, lowest first.
pub record IsReversed (m : Mem) (base p num k : ℕ) : Type 0 where
  pub positive : 0 < k
  pub fits : num / base ^ k ≡ 0
  pub minimal : (k ≡ 1) ⊎ (num / base ^ (k - 1) ≢ 0)
  pub digits : (i : ℕ) → i < k → m (p + i) ≡ digit_char (num / base ^ i % base)

div-pow : (num base k : ℕ) → num / base ^ suc k ≡ num / base / base ^ k
div-pow num base k = rw (pow-succ' base k) (sym (div-div-eq-div-mul num base (base ^ k)))

half-lt : (num base n : ℕ) → 2 ≤ base → num < 2 ^ suc n → num / base < 2 ^ n
half-lt num base n b l =
    let wide : 2 ^ n * 2 ≤ 2 ^ n * base = mul-le-mul_left (2 ^ n) b in
    (div-lt_iff_lt-mul (omega arith)).1 (omega (arith, wide, pow-suc 2 n))

not_zero-positive : (x fuel : ℕ) → x ≢ 0 → x < 2 ^ fuel → 0 < fuel
not_zero-positive x zero e l = absurd (omega arith)
not_zero-positive x (suc fuel) e l = omega arith

pub div-pow_zero : (num base : ℕ) → num / base ^ 0 ≡ num
div-pow_zero num base = rw pow-zero (omega arith)

digits_loop_last :
    (num base p : ℕ) (m : Mem)
    → num / base ≡ 0
    → IsReversed (store m p (digit_char (num % base))) base p num 1
digits_loop_last num base p m e = record {
  positive = omega arith;
  fits = rw (div-pow num base 0, e) (omega arith);
  minimal = inl refl;
  digits = digits;
}
  where
    digits :
        (i : ℕ)
        → i < 1
        → store m p (digit_char (num % base)) (p + i) ≡ digit_char (num / base ^ i % base)
    digits zero l = rw (add-zero, div-pow_zero) (store_here m p _)
    digits (suc i) l = absurd (omega arith)

minimal_next :
    (num base k : ℕ)
    → num / base ≢ 0
    → 0 < k
    → (k ≡ 1) ⊎ (num / base / base ^ (k - 1) ≢ 0)
    → num / base ^ (suc k - 1) ≢ 0
minimal_next num base zero ne l h = absurd (omega arith)
minimal_next num base (suc k) ne l h =
    let outer : suc (suc k) - 1 ≡ suc k = omega arith in
    let inner : suc k - 1 ≡ k = omega arith in
    rw (outer, div-pow num base k)
      (elim h [
        | inl e ↦ let none_left : k ≡ 0 = omega arith in rw (none_left, div-pow_zero) ne
        | inr f ↦ rw inner at f
      ])

digits_loop_next :
    (num base p k : ℕ) (m m' : Mem)
    → num / base ≢ 0
    → m' p ≡ digit_char (num % base)
    → IsReversed m' base (p + 1) (num / base) k
    → IsReversed m' base p num (suc k)
digits_loop_next num base p k m m' ne e rest = record {
  positive = omega arith;
  fits = rw (div-pow num base k) rest.fits;
  minimal = inr (minimal_next num base k ne rest.positive rest.minimal);
  digits = digits;
}
  where
    digits : (i : ℕ) → i < suc k → m' (p + i) ≡ digit_char (num / base ^ i % base)
    digits zero l = rw (add-zero, div-pow_zero) e
    digits (suc i) l = rw (add-suc p i, div-pow num base i) (rest.digits i (omega arith))

digits_loop_lem :
    (fuel num base p : ℕ) (m : Mem)
    → 2 ≤ base
    → num < 2 ^ fuel
    → 0 < fuel
    → (k : ℕ) × (m' : Mem) × (k ≤ fuel)
      × (digits_loop fuel num base p m ≡ some (p + k, m'))
      × IsReversed m' base p num k
      × SameOutside p (p + k) m m'
unfolding digits_loop
digits_loop_lem zero num base p m b l f = absurd (omega arith)
digits_loop_lem (suc fuel) num base p m b l f = elim (ℕ_discrete (num / base) 0) [
  | yes e ↦ (
    1,
    store m p (digit_char (num % base)),
    omega arith,
    rw (==_of_eq _ _ e) refl,
    digits_loop_last num base p m e,
    store-SameOutside m p _,
  )
  | no e ↦
      let (k, m', small, result, reversed, same) =
        digits_loop_lem fuel (num / base) base (p + 1) (store m p (digit_char (num % base))) b
          (half-lt num base fuel b l)
          (not_zero-positive (num / base) fuel e (half-lt num base fuel b l)) in
      (
        suc k,
        m',
        omega arith,
        rw (==_ne _ _ e, add-suc p k) result,
        digits_loop_next num base p k m m' e (same p (inl (omega arith)) ∙ store_here m p _)
            reversed,
        λ a o. same a (omega arith) ∙ store-SameOutside m p _ a (omega arith),
      )
]

-- The buffer holds the `k` digits of `num`, highest first and without leading zeros, and a null byte.
pub record IsPrinted (m : Mem) (base p num k : ℕ) : Type 0 where
  pub positive : 0 < k
  pub fits : num / base ^ k ≡ 0
  pub minimal : (k ≡ 1) ⊎ (num / base ^ (k - 1) ≢ 0)
  pub digits : (i : ℕ) → i < k → m (p + i) ≡ digit_char (num / base ^ (k - 1 - i) % base)
  pub ended : m (p + k) ≡ 0

printed :
    (m m' : Mem) (base p num k : ℕ)
    → IsReversed m base p num k
    → ((i : ℕ) → p ≤ i → i ≤ p + k - 1 → m' i ≡ store m (p + k) 0 (p + (p + k - 1) - i))
    → SameOutside p (p + k - 1 + 1) (store m (p + k) 0) m'
    → IsPrinted m' base p num k
printed m m' base p num k r mirrored same = record {
  positive = r.positive;
  fits = r.fits;
  minimal = r.minimal;
  digits = digits;
  ended = same (p + k) (inr (omega (arith, r.positive))) ∙ store_here m (p + k) 0;
}
  where
    digits : (i : ℕ) → i < k → m' (p + i) ≡ digit_char (num / base ^ (k - 1 - i) % base)
    digits i l =
        let there : p + (p + k - 1) - (p + i) ≡ p + (k - 1 - i) = omega arith in
        mirrored (p + i) (omega arith) (omega arith)
        ∙ ap (store m (p + k) 0) there
        ∙ store-SameOutside m (p + k) 0 (p + (k - 1 - i)) (inl (omega arith))
        ∙ r.digits (k - 1 - i) (omega arith)

itoa_of_loops :
    (fuel num base buf ptr : ℕ) (m low m' : Mem)
    → digits_loop fuel num base buf m ≡ some (ptr, low)
    → reverse_loop fuel buf (ptr - 1) (store low ptr 0) ≡ some m'
    → itoa fuel num base buf m ≡ some m'
unfolding itoa
itoa_of_loops fuel num base buf ptr m low m' e f = rw (e, itoa) f

-- With fuel for the digits, `itoa` leaves the digits of the number in the buffer, highest first,
-- without leading zeros and with a null byte behind them, and changes no other byte.
pub itoa-IsPrinted :
    (fuel num base buf : ℕ) (m : Mem)
    → 2 ≤ base
    → num < 2 ^ fuel
    → 0 < fuel
    → (k : ℕ) × (m' : Mem) × (k ≤ fuel)
      × (itoa fuel num base buf m ≡ some m')
      × IsPrinted m' base buf num k
      × SameOutside buf (buf + k + 1) m m'
itoa-IsPrinted fuel num base buf m b l f =
    let (k, low, small, result, reversed, same) = digits_loop_lem fuel num base buf m b l f in
    let pos = reversed.positive in
    let (m', result', mirrored, same') =
      reverse_loop_lem fuel buf (buf + k - 1) (store low (buf + k) 0) (omega arith) (omega arith) in
    (
      k,
      m',
      small,
      itoa_of_loops fuel num base buf (buf + k) m low m' result result',
      printed low m' base buf num k reversed mirrored same',
      λ a o.
          same' a (omega arith)
          ∙ store-SameOutside low (buf + k) 0 a (omega arith)
          ∙ same a (omega arith),
    )
