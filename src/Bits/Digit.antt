-- ===== src/Bits/Digit.antt =====
-- One equation for the lowest binary digit of `bit_and` and `bit_or`. The native operations stand
-- for a recursion over digits with the left operand as fuel, which is dropped here.
use Prim.Native.Nat.{digits, bit_and-bitwise, bit_or-bitwise}
use kernalite.Base.{
  ℕ, zero, suc, ◌+◌, ◌*◌, ◌/◌, ◌%◌, ◌≤◌, min, max, bit_and, bit_or, ◌≡◌, refl, arith,
}

module _ (last : ℕ → ℕ) (op : ℕ → ℕ → ℕ) where
  -- Any two amounts of fuel that cover the left operand give one result.
  same_digits : (x y : ℕ) (f g : ℕ) → x ≤ f → x ≤ g → digits last op f x y ≡ digits last op g x y
  same_digits zero y zero zero p q = refl
  same_digits zero y zero (suc g) p q = refl
  same_digits zero y (suc f) zero p q = refl
  same_digits zero y (suc f) (suc g) p q = refl
  same_digits (suc x) y zero g p q = absurd (omega arith)
  same_digits (suc x) y (suc f) zero p q = absurd (omega arith)
  same_digits (suc x) y (suc f) (suc g) p q =
      omega (arith, same_digits (suc x / 2) (y / 2) f g (omega arith) (omega arith))

pub bit_or_digit : (x y : ℕ) → bit_or x y ≡ bit_or (x / 2) (y / 2) * 2 + max (x % 2) (y % 2)
bit_or_digit zero y = omega (arith, bit_or-bitwise 0 y, bit_or-bitwise 0 (y / 2))
bit_or_digit (suc x) y = omega (
  arith,
  bit_or-bitwise (suc x) y,
  bit_or-bitwise (suc x / 2) (y / 2),
  same_digits (λ b. b) max (suc x / 2) (y / 2) x (suc x / 2) (omega arith) (omega arith),
)

pub bit_and_digit : (x y : ℕ) → bit_and x y ≡ bit_and (x / 2) (y / 2) * 2 + min (x % 2) (y % 2)
bit_and_digit zero y = omega (arith, bit_and-bitwise 0 y, bit_and-bitwise 0 (y / 2))
bit_and_digit (suc x) y = omega (
  arith,
  bit_and-bitwise (suc x) y,
  bit_and-bitwise (suc x / 2) (y / 2),
  same_digits (λ b. 0) min (suc x / 2) (y / 2) x (suc x / 2) (omega arith) (omega arith),
)
