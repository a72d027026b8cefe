-- ===== src/Print/Figures.antt =====
-- `put_number`: a 64-bit number in base 10 to 16 is printed by its digits, and the 64 bytes of the
-- buffer are enough for them.
use kernalite.Base.{
  ℕ, zero, suc, ◌+◌, ◌-◌, ◌*◌, ◌/◌, ◌%◌, ◌^◌, ◌≤◌, ◌<◌, ◌≡◌, ◌≢◌, refl, sym, ap, ◌∙◌, ◌⊎◌, inl, inr,
  some, List, length, add-suc, u8, arith, dec_lt,
}
use mathlib.Core.Path.{subst}
use native.Mathlib.Nat.{
  add-zero, pow-zero, div-eq_of_lt, div-lt_iff_lt-mul, pow-le-pow_right, pow-le-pow_left,
}
use kernalite.Memory.{Mem, load8, SameOutside}
use kernalite.Print.{digit_char, itoa, Progress, put_number}
use kernalite.Print.Digits.{IsPrinted, itoa-IsPrinted}
use kernalite.Print.Number.{chars_tail}
use kernalite.Print.Text.{Spells, digits_text, IsText, Sent, puts-Sent}

digit_char_range :
    (d : ℕ) → d < 16 → (load8 (λ a. digit_char d) 0 ≡ digit_char d) × (digit_char d ≢ 0)
digit_char_range d l = ground arith

pub length-digits_text : (base num k : ℕ) → length (digits_text base num k) ≡ k
length-digits_text base num zero = refl
length-digits_text base num (suc k) = ap suc (length-digits_text base num k)

-- The digits in memory, read as a string.
Spells-digits_text :
    (m : Mem) (base num j p : ℕ)
    → 2 ≤ base
    → base ≤ 16
    → ((i : ℕ) → i < j → m (p + i) ≡ digit_char (num / base ^ (j - 1 - i) % base))
    → m (p + j) ≡ 0
    → Spells m p (digits_text base num j)
Spells-digits_text m base num zero p b h chars e = ap u8 (rw add-zero at e)
Spells-digits_text m base num (suc j) p b h chars e =
    let here : m p ≡ digit_char (num / base ^ j % base) =
      let index : suc j - 1 - 0 ≡ j = omega arith in
      let first = chars 0 (omega arith) in rw (add-zero, index) at first in
    let small : num / base ^ j % base < base = omega arith in
    let range = digit_char_range (num / base ^ j % base) (omega arith) in
    (
      ap u8 here ∙ range.0,
      range.1,
      Spells-digits_text m base num j (p + 1) b h (chars_tail m base num j p chars)
          (rw (add-suc p j) at e),
    )

quotient_zero : (num base i j : ℕ) → 0 < base → i ≤ j → num / base ^ i ≡ 0 → num / base ^ j ≡ 0
quotient_zero num base i j b l e =
    let pos : base ^ 0 ≤ base ^ i = pow-le-pow_right b (omega arith) in
    let below : num < 1 * base ^ i =
      (div-lt_iff_lt-mul {k = base ^ i} (omega (arith, pos, pow-zero base))).0 (omega arith) in
    div-eq_of_lt (omega (arith, below, pow-le-pow_right b l))

-- 20 digits in base 10 or more are enough for 64 bits.
short : (num base k : ℕ) → num < 2 ^ 64 → 10 ≤ base → (k ≡ 1) ⊎ (num / base ^ (k - 1) ≢ 0) → k ≤ 20
short num base k l b (inl e) = omega arith
short num base k l b (inr ne) = elim (dec_lt 20 k) [
  | no h ↦ omega arith
  | yes h ↦
      let wide : 10 ^ 20 ≤ base ^ 20 = pow-le-pow_left b 20 in
      let wider : base ^ 20 ≤ base ^ (k - 1) = pow-le-pow_right (omega arith) (omega arith) in
      absurd (ne (div-eq_of_lt (omega (arith, wide, wider))))
]

shorter :
    (num base j k : ℕ)
    → 0 < base
    → 0 < j
    → num / base ^ j ≡ 0
    → (k ≡ 1) ⊎ (num / base ^ (k - 1) ≢ 0)
    → k ≤ j
shorter num base j k b pos fits (inl e) = omega arith
shorter num base j k b pos fits (inr ne) = elim (dec_lt j k) [
  | no h ↦ omega arith
  | yes h ↦ absurd (ne (quotient_zero num base j (k - 1) b (omega arith) fits))
]

-- A number has one text.
IsText-unique :
    (base num : ℕ) (cs ds : List ℕ) → 0 < base → IsText base num cs → IsText base num ds → cs ≡ ds
IsText-unique base num cs ds b h k =
    let le = shorter num base (length ds) (length cs) b k.positive k.fits h.minimal in
    let ge = shorter num base (length cs) (length ds) b h.positive h.fits k.minimal in
    let same : length cs ≡ length ds = omega arith in
    h.digits ∙ ap (digits_text base num) same ∙ sym k.digits

printed-IsText :
    (m : Mem) (base p num k : ℕ)
    → IsPrinted m base p num k
    → IsText base num (digits_text base num k)
printed-IsText m base p num k h =
    let same = length-digits_text base num k in
    record {
      positive = rw same h.positive;
      digits = rw same refl;
      fits = rw same h.fits;
      minimal = rw same h.minimal;
    }

-- In base 10 to 16 a 64-bit number has at most 20 digits: with the null byte behind them they fit in
-- the buffer of 64 bytes, `itoa` changes no other byte, and the buffer spells the text of the number.
pub itoa_within_buffer :
    (num base buf : ℕ) (m : Mem) (cs : List ℕ)
    → num < 2 ^ 64
    → 10 ≤ base
    → base ≤ 16
    → IsText base num cs
    → (m' : Mem) × (itoa 64 num base buf m ≡ some m')
      × (length cs ≤ 20)
      × Spells m' buf cs
      × SameOutside buf (buf + 21) m m'
itoa_within_buffer num base buf m cs l b h text =
    let (k, m', small, result, s, same) =
      itoa-IsPrinted 64 num base buf m (omega arith) l (omega arith) in
    let k_short = short num base k l b s.minimal in
    let spelled = Spells-digits_text m' base num k buf (omega arith) h s.digits s.ended in
    let text' = printed-IsText m' base buf num k s in
    let e = IsText-unique base num _ cs (omega arith) text' text in
    (
      m',
      result,
      omega (arith, sym (ap length e) ∙ length-digits_text base num k, k_short),
      subst (Spells m' buf) e spelled,
      λ a o. same a (omega arith),
    )

pub put_number-Sent :
    (buf num base : ℕ) (cs : List ℕ) (s : Progress)
    → num < 2 ^ 64
    → 10 ≤ base
    → base ≤ 16
    → IsText base num cs
    → (s' : Progress) × (put_number buf num base s ≡ some s') × Sent buf cs s.args s s'
unfolding put_number
put_number-Sent buf num base cs s l b h text =
    let (m', r, few, spelled, same) = itoa_within_buffer num base buf s.mem cs l b h text in
    let (s', r', sent) =
      puts-Sent buf 65 buf cs
        (record { sent = s.sent; printed = s.printed; args = s.args; mem = m' }) spelled
        (omega arith) in
    (
      s',
      rw (put_number, r) r',
      record {
        sent = sent.sent;
        printed = sent.printed;
        args_left = sent.args_left;
        frame = λ a o. sent.frame a o ∙ same a (omega arith);
      },
    )
