-- ===== src/Print/Numeral.antt =====
-- The text of a number as a function: its digits, the highest one first.
use kernalite.Base.{
  ℕ, zero, suc, ◌+◌, ◌-◌, ◌*◌, ◌/◌, ◌^◌, ◌<◌, ◌≤◌, ◌≡◌, ◌≢◌, refl, ◌⊎◌, inl, inr, sym, ap, ◌∙◌,
  List, ◌==◌, ==_ne, if◌then◌else◌, arith, ℕ_discrete,
}
use native.Mathlib.Nat.{
  pow-zero, pow-suc, pow-succ', div-one, div-eq_of_lt, div-div-eq-div-mul, div-lt_iff_lt-mul,
  mul-le-mul_left,
}
use kernalite.Print.Text.{digits_text, IsText}
use kernalite.Print.Figures.{length-digits_text}

-- How many digits a number of at most `fuel + 1` binary digits has.
digit_count : ℕ → ℕ → ℕ → ℕ
digit_count zero base num = 1
digit_count (suc fuel) base num =
    let rest = digit_count fuel base (num / base) in if num / base == 0 then 1 else rest + 1

pub number_text : ℕ → ℕ → List ℕ
number_text base num = digits_text base num (digit_count 63 base num)

div_pow-suc : (num base k : ℕ) → num / base ^ (k + 1) ≡ num / base / base ^ k
div_pow-suc num base k =
    let e : k + 1 ≡ suc k = omega arith in
    rw (e, pow-succ' base k) (sym (div-div-eq-div-mul num base (base ^ k)))

div_pow-one : (num base : ℕ) → num / base ^ 1 ≡ num / base
div_pow-one num base = div_pow-suc num base 0 ∙ rw pow-zero (div-one (num / base))

half_lt : (fuel base num : ℕ) → 2 ≤ base → num < 2 ^ suc (suc fuel) → num / base < 2 ^ suc fuel
half_lt fuel base num b h =
    let wide : 2 ^ suc fuel * 2 ≤ 2 ^ suc fuel * base = mul-le-mul_left (2 ^ suc fuel) b in
    (div-lt_iff_lt-mul (omega arith)).1 (omega (arith, wide, pow-suc 2 (suc fuel)))

-- The leading digit stays when a digit follows.
leading :
    (num base k : ℕ)
    → num / base ≢ 0
    → 0 < k
    → (k ≡ 1) ⊎ (num / base / base ^ (k - 1) ≢ 0)
    → num / base ^ (k + 1 - 1) ≢ 0
leading num base k ne pos least e =
    let same : k + 1 - 1 ≡ k - 1 + 1 = omega arith in
    let zero_rest : num / base / base ^ (k - 1) ≡ 0 =
      sym (div_pow-suc num base (k - 1)) ∙ ap (λ (t : ℕ). num / base ^ t) (sym same) ∙ e in
    elim least [
      | inl one ↦
          let gone : k - 1 ≡ 0 = omega arith in
          ne (
            sym (div-one (num / base))
            ∙ ap (λ (t : ℕ). num / base / t) (sym (pow-zero base))
            ∙ ap (λ (t : ℕ). num / base / base ^ t) (sym gone)
            ∙ zero_rest)
      | inr other ↦ other zero_rest
    ]

digit_count_lem :
    (fuel base num : ℕ)
    → 2 ≤ base
    → num < 2 ^ suc fuel
    → (0 < digit_count fuel base num)
      × (num / base ^ digit_count fuel base num ≡ 0)
      × ((digit_count fuel base num ≡ 1) ⊎ (num / base ^ (digit_count fuel base num - 1) ≢ 0))
unfolding digit_count
digit_count_lem zero base num b h =
    (omega arith, div_pow-one num base ∙ div-eq_of_lt (omega arith), inl refl)
digit_count_lem (suc fuel) base num b h = elim (ℕ_discrete (num / base) 0) [
  | yes e ↦ rw e (omega arith, div_pow-one num base ∙ e, inl refl)
  | no ne ↦
      let (pos, fits, least) =
        digit_count_lem fuel base (num / base) b (half_lt fuel base num b h) in
      rw (==_ne (num / base) 0 ne) (
        omega arith,
        div_pow-suc num base (digit_count fuel base (num / base)) ∙ fits,
        inr (leading num base (digit_count fuel base (num / base)) ne pos least),
      )
]

pub number_text-IsText :
    (base num : ℕ) → 2 ≤ base → num < 2 ^ 64 → IsText base num (number_text base num)
unfolding number_text
number_text-IsText base num b h =
    let (pos, fits, least) = digit_count_lem 63 base num b h in
    let same = length-digits_text base num (digit_count 63 base num) in
    record {
      positive = rw same pos;
      digits = rw same refl;
      fits = rw same fits;
      minimal = rw same least;
    }
