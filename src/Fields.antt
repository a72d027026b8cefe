-- ===== src/Fields.antt =====
-- Masks, shifts and joined bit fields as arithmetic, at every width: `x & (2^k - 1)`,
-- `x & (m << k)` and `(hi << k) | lo`.
use native.Mathlib.Nat.{pow-zero, pow-suc, pow-succ', div-div-eq-div-mul, one-le-pow}
use kernalite.Base.{
  ℕ, zero, suc, ◌+◌, ◌-◌, ◌*◌, ◌/◌, ◌%◌, ◌^◌, ◌<◌, ◌≤◌, bit_and, bit_or, ◌≡◌, refl, ap, sym, arith,
  ◌<<<◌, ◌>>>◌,
}
use kernalite.Bits.{bit_and_digit, bit_or_digit, bit_and-zero, bit_or-zero}

-- A shift by one more is a shift of the half.
pub shift-half : (x k : ℕ) → x >>> suc k ≡ (x / 2) >>> k
shift-half x k = rw pow-succ' (sym (div-div-eq-div-mul x 2 (2 ^ k)))

pub pow_add : (b m n : ℕ) → b ^ (m + n) ≡ b ^ m * b ^ n
pow_add b m zero = let e : m + zero ≡ m = omega arith in rw (e, pow-zero) (omega arith)
pow_add b m (suc n) =
    let e : m + suc n ≡ suc (m + n) = omega arith in
    rw e (
      omega (
        arith,
        pow-suc b (m + n),
        ap (λ (t : ℕ). t * b) (pow_add b m n),
        ap (λ (t : ℕ). b ^ m * t) (pow-suc b n),
      ))

-- A remainder by an even modulus, from the halves.
mod-double : (p x : ℕ) → 0 < p → x % (2 * p) ≡ x / 2 % p * 2 + x % 2
mod-double p x h = grind arith

-- The mask of `k` low bits takes the remainder.
pub bit_and-mask : (k x : ℕ) → bit_and x (2 ^ k - 1) ≡ x % 2 ^ k
bit_and-mask zero x = omega (arith, bit_and-zero x)
bit_and-mask (suc k) x =
    let half : (2 ^ suc k - 1) / 2 ≡ 2 ^ k - 1 = omega (arith, pow-succ' 2 k, one-le-pow k 2) in
    let rest : bit_and (x / 2) ((2 ^ suc k - 1) / 2) ≡ x / 2 % 2 ^ k =
      rw half (bit_and-mask k (x / 2)) in
    let top : x % 2 ^ suc k ≡ x / 2 % 2 ^ k * 2 + x % 2 =
      rw pow-succ' (mod-double (2 ^ k) x (one-le-pow k 2 (omega arith))) in
    omega (arith, pow-succ' 2 k, one-le-pow k 2, bit_and_digit x (2 ^ suc k - 1))

-- A mask shifted up selects the same bits of the operand shifted down.
pub bit_and-shifted : (k x m : ℕ) → bit_and x (m <<< k) ≡ bit_and (x >>> k) m <<< k
bit_and-shifted zero x m = simp (native.Mathlib.Nat.mul-one, native.Mathlib.Nat.div-one)
bit_and-shifted (suc k) x m =
    let half : (m <<< suc k) / 2 ≡ m <<< k = omega (arith, ap (λ (t : ℕ). m * t) (pow-succ' 2 k)) in
    let rest : bit_and (x / 2) ((m <<< suc k) / 2) ≡ bit_and ((x / 2) >>> k) m <<< k =
      rw half (bit_and-shifted k (x / 2) m) in
    let y : ℕ = bit_and ((x / 2) >>> k) m in
    rw shift-half (
      omega (
        arith,
        bit_and_digit x (m <<< suc k),
        ap (λ (t : ℕ). m * t) (pow-succ' 2 k),
        ap (λ (t : ℕ). y * t) (pow-succ' 2 k),
      ))

-- `|` of a shifted field and one that fits below it is their sum.
pub bit_or-joined : (k hi lo : ℕ) → lo < 2 ^ k → bit_or (hi <<< k) lo ≡ (hi <<< k) + lo
bit_or-joined zero hi lo h = let e : lo ≡ 0 = omega arith in rw (e, bit_or-zero) (omega arith)
bit_or-joined (suc k) hi lo h = omega (
  arith,
  ap (λ (t : ℕ). hi * t) (pow-succ' 2 k),
  pow-succ' 2 k,
  bit_or_digit (hi <<< suc k) lo,
  ap (λ (t : ℕ). bit_or t (lo / 2)) {x = (hi <<< suc k) / 2} {y = hi <<< k}
      (omega (arith, ap (λ (t : ℕ). hi * t) (pow-succ' 2 k))),
  bit_or-joined k hi (lo / 2) (omega (arith, pow-succ' 2 k)),
)

bit_or-zero_left_below : (bound x : ℕ) → x ≤ bound → bit_or 0 x ≡ x
bit_or-zero_left_below zero x h = let e : x ≡ 0 = omega arith in rw e refl
bit_or-zero_left_below (suc bound) zero h = refl
bit_or-zero_left_below (suc bound) (suc x) h =
    omega (arith, bit_or_digit 0 (suc x), bit_or-zero_left_below bound (suc x / 2) (omega arith))

bit_or-zero_left : (x : ℕ) → bit_or 0 x ≡ x
bit_or-zero_left x = bit_or-zero_left_below x x (omega arith)

-- The same with the operands exchanged.
pub bit_or-below : (k lo hi : ℕ) → lo < 2 ^ k → bit_or lo (hi <<< k) ≡ (hi <<< k) + lo
bit_or-below zero lo hi h =
    let e : lo ≡ 0 = omega arith in
    let f : bit_or 0 (hi <<< 0) ≡ hi <<< 0 = bit_or-zero_left _ in rw (e, f) (omega arith)
bit_or-below (suc k) lo hi h = omega (
  arith,
  ap (λ (t : ℕ). hi * t) (pow-succ' 2 k),
  pow-succ' 2 k,
  bit_or_digit lo (hi <<< suc k),
  ap (λ (t : ℕ). bit_or (lo / 2) t) {x = (hi <<< suc k) / 2} {y = hi <<< k}
      (omega (arith, ap (λ (t : ℕ). hi * t) (pow-succ' 2 k))),
  bit_or-below k (lo / 2) hi (omega (arith, pow-succ' 2 k)),
)

-- `&` of a shifted field and a mask whose bits below the field do not matter.
pub bit_and-above :
    (k x m r : ℕ) → r < 2 ^ k → bit_and (x <<< k) ((m <<< k) + r) ≡ bit_and x m <<< k
bit_and-above zero x m r h =
    let e : r ≡ 0 = omega arith in simp (e, native.Mathlib.Nat.add-zero, native.Mathlib.Nat.mul-one)
bit_and-above (suc k) x m r h =
    let pow = pow-succ' 2 k in
    let left : (x <<< suc k) / 2 ≡ x <<< k = omega (arith, ap (λ (t : ℕ). x * t) pow) in
    let right : ((m <<< suc k) + r) / 2 ≡ (m <<< k) + r / 2 =
      omega (arith, ap (λ (t : ℕ). m * t) pow) in
    let rest : bit_and ((x <<< suc k) / 2) (((m <<< suc k) + r) / 2) ≡ bit_and x m <<< k =
      rw (left, right) (bit_and-above k x m (r / 2) (omega (arith, pow))) in
    let y : ℕ = bit_and x m in
    omega (
      arith,
      bit_and_digit (x <<< suc k) ((m <<< suc k) + r),
      ap (λ (t : ℕ). x * t) pow,
      ap (λ (t : ℕ). y * t) pow,
    )
