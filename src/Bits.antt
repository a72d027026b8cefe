-- ===== src/Bits.antt =====
-- Single bits of a number, and what `|`, `&`, `~` and a power of two do to them. The kernel sets,
-- clears and tests bits of the page bitmap and fields of a page table entry with these operations.
mod Digit
pub use Digit.{bit_or_digit, bit_and_digit}
use native.Mathlib.Nat.{pow-succ'}
use kernalite.Base.{
  ℕ, zero, suc, ◌+◌, ◌-◌, ◌*◌, ◌/◌, ◌%◌, ◌^◌, ◌≤◌, ◌<◌, min, max, bit_and, bit_or, ◌≡◌, refl, ap,
  arith, ◌==◌, if◌then◌else◌, u8, complement,
}

-- The digit of weight `2 ^ k`.
abbrev pub bit : ℕ → ℕ → ℕ
bit x zero = x % 2
bit x (suc k) = bit (x / 2) k

pub bit-le : (x k : ℕ) → bit x k ≤ 1
bit-le x zero = omega arith
bit-le x (suc k) = bit-le (x / 2) k

pub bit-zero : (k : ℕ) → bit 0 k ≡ 0
bit-zero zero = refl
bit-zero (suc k) = bit-zero k

pub bit-bit_or : (x y k : ℕ) → bit (bit_or x y) k ≡ max (bit x k) (bit y k)
bit-bit_or x y zero = omega (arith, bit_or_digit x y)
bit-bit_or x y (suc k) =
    let e : bit_or x y / 2 ≡ bit_or (x / 2) (y / 2) = omega (arith, bit_or_digit x y) in
    rw e (bit-bit_or (x / 2) (y / 2) k)

pub bit-bit_and : (x y k : ℕ) → bit (bit_and x y) k ≡ min (bit x k) (bit y k)
bit-bit_and x y zero = omega (arith, bit_and_digit x y)
bit-bit_and x y (suc k) =
    let e : bit_and x y / 2 ≡ bit_and (x / 2) (y / 2) = omega (arith, bit_and_digit x y) in
    rw e (bit-bit_and (x / 2) (y / 2) k)

pub bit-pow : (i k : ℕ) → bit (2 ^ i) k ≡ (if i == k then 1 else 0)
bit-pow zero zero = refl
bit-pow zero (suc k) = ground (arith, bit-zero k)
bit-pow (suc i) zero = ground (arith, pow-succ' 2 i)
bit-pow (suc i) (suc k) =
    let e : 2 ^ suc i / 2 ≡ 2 ^ i = omega (arith, pow-succ' 2 i) in
    rw e (ground (arith, bit-pow i k))

pub bit-complement : (w x k : ℕ) → x < 2 ^ w → k < w → bit (complement w x) k ≡ 1 - bit x k
bit-complement zero x k h l = absurd (omega arith)
bit-complement (suc w) x zero h l = omega (arith, pow-succ' 2 w)
bit-complement (suc w) x (suc k) h l =
    let e : complement (suc w) x / 2 ≡ complement w (x / 2) = omega (arith, pow-succ' 2 w) in
    rw e (bit-complement w (x / 2) k (omega (arith, pow-succ' 2 w)) (omega arith))

-- A cast to a byte keeps the low eight bits.
pub bit-u8 : (x k : ℕ) → k < 8 → bit (u8 x) k ≡ bit x k
bit-u8 x zero h = omega arith
bit-u8 x (suc zero) h = omega arith
bit-u8 x (suc (suc zero)) h = omega arith
bit-u8 x (suc (suc (suc zero))) h = omega arith
bit-u8 x (suc (suc (suc (suc zero)))) h = omega arith
bit-u8 x (suc (suc (suc (suc (suc zero))))) h = omega arith
bit-u8 x (suc (suc (suc (suc (suc (suc zero)))))) h = omega arith
bit-u8 x (suc (suc (suc (suc (suc (suc (suc zero))))))) h = omega arith
bit-u8 x (suc (suc (suc (suc (suc (suc (suc (suc k)))))))) h = absurd (omega arith)

bit_and-zero_below : (bound x : ℕ) → x ≤ bound → bit_and x 0 ≡ 0
bit_and-zero_below zero zero h = omega (arith, bit_and_digit 0 0)
bit_and-zero_below zero (suc x) h = absurd (omega arith)
bit_and-zero_below (suc bound) zero h = refl
bit_and-zero_below (suc bound) (suc x) h =
    omega (arith, bit_and_digit (suc x) 0, bit_and-zero_below bound (suc x / 2) (omega arith))

pub bit_and-zero : (x : ℕ) → bit_and x 0 ≡ 0
bit_and-zero x = bit_and-zero_below x x (omega arith)

bit_or-zero_below : (bound x : ℕ) → x ≤ bound → bit_or x 0 ≡ x
bit_or-zero_below zero zero h = refl
bit_or-zero_below zero (suc x) h = absurd (omega arith)
bit_or-zero_below (suc bound) zero h = refl
bit_or-zero_below (suc bound) (suc x) h =
    omega (arith, bit_or_digit (suc x) 0, bit_or-zero_below bound (suc x / 2) (omega arith))

pub bit_or-zero : (x : ℕ) → bit_or x 0 ≡ x
bit_or-zero x = bit_or-zero_below x x (omega arith)

pub bit_and-pow : (x k : ℕ) → bit_and x (2 ^ k) ≡ bit x k * 2 ^ k
bit_and-pow x zero = omega (arith, bit_and_digit x 1, bit_and-zero (x / 2))
bit_and-pow x (suc k) =
    let e : 2 ^ suc k / 2 ≡ 2 ^ k = omega (arith, pow-succ' 2 k) in
    let shifted : bit_and (x / 2) (2 ^ suc k / 2) ≡ bit (x / 2) k * 2 ^ k =
      rw e (bit_and-pow (x / 2) k) in
    let digit = bit_and_digit x (2 ^ suc k) in
    omega (arith, ap (λ (t : ℕ). bit (x / 2) k * t) (pow-succ' 2 k), pow-succ' 2 k)

pub bit_or-lt : (w x y : ℕ) → x < 2 ^ w → y < 2 ^ w → bit_or x y < 2 ^ w
bit_or-lt zero x y h k =
    let e : x ≡ 0 = omega arith in let f : y ≡ 0 = omega arith in rw (e, f) (omega arith)
bit_or-lt (suc w) x y h k = omega (
  arith,
  bit_or_digit x y,
  pow-succ' 2 w,
  bit_or-lt w (x / 2) (y / 2) (omega (arith, pow-succ' 2 w)) (omega (arith, pow-succ' 2 w)),
)
