-- ===== src/Memory.antt =====
-- The memory of the machine: one byte at every address. The kernel runs with the MMU off, so a read
-- or a write of any address goes through. Pointers are addresses, and `NULL` is 0.
pub mod Words
pub mod Holding
use kernalite.Base.{
  ℕ, ◌+◌, ◌-◌, ◌*◌, ◌/◌, ◌^◌, ◌≤◌, ◌<◌, ◌≡◌, ◌⊎◌, arith, ◌==◌, if◌then◌else◌, within, u8,
}

abbrev pub Mem : Type 0
Mem = ℕ → ℕ

-- A write of one byte.
unfoldable pub store : Mem → ℕ → ℕ → Mem
store m p v q = if p == q then v else m q

-- A byte, as an `unsigned char`: a cell counts modulo 256.
abbrev pub load8 : Mem → ℕ → ℕ
load8 m p = u8 (m p)

-- A `uint32_t` in memory, the low byte first.
unfoldable pub load32 : Mem → ℕ → ℕ
load32 m p = u8 (m p) + u8 (m (p + 1)) * 2 ^ 8 + u8 (m (p + 2)) * 2 ^ 16 + u8 (m (p + 3)) * 2 ^ 24

-- A `uint64_t` in memory, the low byte first.
unfoldable pub load64 : Mem → ℕ → ℕ
load64 m p =
    u8 (m p)
    + u8 (m (p + 1)) * 2 ^ 8
    + u8 (m (p + 2)) * 2 ^ 16
    + u8 (m (p + 3)) * 2 ^ 24
    + u8 (m (p + 4)) * 2 ^ 32
    + u8 (m (p + 5)) * 2 ^ 40
    + u8 (m (p + 6)) * 2 ^ 48
    + u8 (m (p + 7)) * 2 ^ 56

unfoldable pub store64 : Mem → ℕ → ℕ → Mem
store64 m p v q = if within p (p + 8) q then u8 (v / 2 ^ (8 * (q - p))) else m q

-- `m'` differs from `m` at most at the addresses from `lo` up to `hi`.
abbrev pub SameOutside : ℕ → ℕ → Mem → Mem → Type 0
SameOutside lo hi m m' = (a : ℕ) → (a < lo) ⊎ (hi ≤ a) → m' a ≡ m a

pub store64-SameOutside : (m : Mem) (p v : ℕ) → SameOutside p (p + 8) m (store64 m p v)
unfolding store64
store64-SameOutside m p v a h = ground arith
