-- ===== src/Panic/Hex.antt =====
-- `print_hex`: the digits denote the value.
use kernalite.Base.{
  ℕ, zero, suc, ◌+◌, ◌-◌, ◌*◌, ◌/◌, ◌%◌, ◌^◌, ◌<◌, ◌≡◌, ◌≢◌, inl, inr, refl, sym, ap, ap₂, ◌∙◌,
  some, bit_and, List, [], ◌∷◌, length, u8, ◌>>>◌, arith, ltb, if◌then◌else◌,
}
use native.Mathlib.Nat.{div-add-mod', div-div-eq-div-mul, pow-suc}
use mathlib.Core.Path.{subst}
use kernalite.Fields.{bit_and-mask}
use kernalite.Memory.{Mem}
use kernalite.Strings.{digit_value, strtoul}
use kernalite.Strings.Number.{
  number, IsNumeral, ends, digit, IsDigit, IsDigit-digit_value, null-IsEnd, IsFormat, prefixed,
  strtoul_lem,
}
use kernalite.Print.Text.{Spells}
use kernalite.Panic.{print_uart0, print_hex_digit, hex_loop, print_hex}

-- The character of a digit.
abbrev upper_digit : ℕ → ℕ
upper_digit d = if ltb d 10 then d + b'0' else d - 10 + b'A'

upper_digit-ne : (d : ℕ) → d < 16 → upper_digit d ≢ 0
upper_digit-ne d h = ground arith

digit_value-upper_digit : (d : ℕ) → d < 16 → digit_value (upper_digit d) ≡ some d
unfolding digit_value
digit_value-upper_digit d h = ground arith

IsDigit-upper_digit : (d : ℕ) → d < 16 → IsDigit (upper_digit d) d
IsDigit-upper_digit d h = IsDigit-digit_value (upper_digit d) d (digit_value-upper_digit d h)

print_hex_digit-char : (d : ℕ) → d < 16 → print_hex_digit d ≡ upper_digit d ∷ []
unfolding print_hex_digit print_uart0
print_hex_digit-char d h = ground arith

nibble : ℕ → ℕ → ℕ
nibble val j = val / 2 ^ (4 * j) % 16

hex_loop-digits : (j val : ℕ) → hex_loop (suc j) val ≡ upper_digit (nibble val j) ∷ hex_loop j val
unfolding hex_loop nibble
hex_loop-digits j val =
    let mask : u8 (bit_and (val >>> (4 * j)) 0xf) ≡ val / 2 ^ (4 * j) % 16 =
      omega (arith, bit_and-mask 4 (val / 2 ^ (4 * j))) in
    rw (mask, print_hex_digit-char (val / 2 ^ (4 * j) % 16) (omega arith)) refl

-- The digits that are left, below the ones that have been printed.
nibble-lt : (val j : ℕ) → nibble val j < 16
unfolding nibble
nibble-lt val j = omega arith

nibble_step : (val j : ℕ) → val / 2 ^ (4 * suc j) * 16 + nibble val j ≡ val / 2 ^ (4 * j)
unfolding nibble
nibble_step val j =
    let width : 4 * suc j ≡ suc (suc (suc (suc (4 * j)))) = omega arith in
    let sixteen : 2 ^ (4 * suc j) ≡ 2 ^ (4 * j) * 16 = rw width (
      omega (
        arith,
        pow-suc 2 (4 * j),
        pow-suc 2 (suc (4 * j)),
        pow-suc 2 (suc (suc (4 * j))),
        pow-suc 2 (suc (suc (suc (4 * j)))),
      )) in
    rw (sixteen, ← div-div-eq-div-mul val (2 ^ (4 * j)) 16) (div-add-mod' (val / 2 ^ (4 * j)) 16)

IsNumeral-hex_loop :
    (m : Mem) (val j p : ℕ)
    → Spells m p (hex_loop j val)
    → (ds : List ℕ) × IsNumeral m 16 p ds
      × (length ds ≡ j)
      × (number 16 (val / 2 ^ (4 * j)) ds ≡ val)
unfolding hex_loop
IsNumeral-hex_loop m val zero p h = ([], ends (null-IsEnd m 16 p h), refl, omega arith)
IsNumeral-hex_loop m val (suc j) p h =
    let (here, ne, rest) = subst (Spells m p) (hex_loop-digits j val) h in
    let (ds, n, l, v) = IsNumeral-hex_loop m val j (p + 1) rest in
    let d = nibble val j in
    (
      d ∷ ds,
      digit d (subst (λ (c : ℕ). IsDigit c d) (sym here) (IsDigit-upper_digit d (nibble-lt val j)))
          (nibble-lt val j) n,
      ap suc l,
      ap (λ (x : ℕ). number 16 x ds) (nibble_step val j) ∙ v,
    )

rest_at : (m : Mem) (p : ℕ) (cs : List ℕ) → Spells m (p + 1 + 1) cs → Spells m (p + 2) cs
rest_at m p cs h = subst (λ (x : ℕ). Spells m x cs) {x = p + 1 + 1} {y = p + 2} (omega arith) h

no_higher : (val : ℕ) → val < 2 ^ 64 → val / 2 ^ (4 * 16) ≡ 0
no_higher val h = omega arith

-- What `print_hex` prints of a 64-bit value, `strtoul` reads back in base 16: the same value, and the
-- address behind it.
pub strtoul-print_hex :
    (m : Mem) (p val : ℕ)
    → val < 2 ^ 64
    → Spells m p (print_hex val)
    → strtoul 17 p 16 m ≡ some (val, p + 18)
unfolding print_hex print_uart0
strtoul-print_hex m p val small (zero_char, ne, more) =
    let (x_char, ne', rest) = more in
    let (ds, n, l, v) = IsNumeral-hex_loop m val 16 (p + 2) (rest_at m p (hex_loop 16 val) rest) in
    let format : IsFormat m 16 p 16 (p + 2) = prefixed (inr refl) zero_char (inl x_char) in
    let exact : number 16 0 ds ≡ val =
      sym (ap (λ (x : ℕ). number 16 x ds) (no_higher val small)) ∙ v in
    strtoul_lem 17 p 16 16 (p + 2) ds m format n (omega (arith, l))
    ∙ ap some (ap₂ (λ (x y : ℕ). (x, y)) (omega (arith, exact)) (omega (arith, l)))
