-- ===== src/Memory/Words.antt =====
-- Reads and writes of 64-bit words over byte memory.
use kernalite.Base.{ℕ, ◌+◌, ◌-◌, ◌*◌, ◌/◌, ◌^◌, ◌≤◌, ◌<◌, ◌≡◌, refl, ◌⊎◌, inl, inr, arith, u8}
use kernalite.Memory.{Mem, load64, store64, store64-SameOutside}

pub load64-lt : (m : Mem) (p : ℕ) → load64 m p < 2 ^ 64
unfolding load64
load64-lt m p = omega arith

-- Eight bytes make up the word that they were cut from.
bytes_join :
    (v : ℕ)
    → v < 2 ^ 64
    → u8 v
        + u8 (v / 2 ^ 8) * 2 ^ 8
        + u8 (v / 2 ^ 16) * 2 ^ 16
        + u8 (v / 2 ^ 24) * 2 ^ 24
        + u8 (v / 2 ^ 32) * 2 ^ 32
        + u8 (v / 2 ^ 40) * 2 ^ 40
        + u8 (v / 2 ^ 48) * 2 ^ 48
        + u8 (v / 2 ^ 56) * 2 ^ 56
      ≡ v
bytes_join v h = omega arith

module _ (m : Mem) (p v : ℕ) where
  store64_byte : (i q : ℕ) → i < 8 → q ≡ p + i → store64 m p v q ≡ u8 (v / 2 ^ (8 * i))
  unfolding store64
  store64_byte i q h e = let d : q - p ≡ i = omega arith in rw d (ground arith)

  pub load64-store64 : v < 2 ^ 64 → load64 (store64 m p v) p ≡ v
  unfolding load64
  load64-store64 h =
      rw
        (
          store64_byte 0 p (omega arith) (omega arith),
          store64_byte 1 (p + 1) (omega arith) refl,
          store64_byte 2 (p + 2) (omega arith) refl,
          store64_byte 3 (p + 3) (omega arith) refl,
          store64_byte 4 (p + 4) (omega arith) refl,
          store64_byte 5 (p + 5) (omega arith) refl,
          store64_byte 6 (p + 6) (omega arith) refl,
          store64_byte 7 (p + 7) (omega arith) refl,
        )
        (omega arith)

-- A word reads the same in two memories that agree on its bytes.
pub load64_same :
    (m m' : Mem) (p : ℕ) → ((a : ℕ) → p ≤ a → a < p + 8 → m' a ≡ m a) → load64 m' p ≡ load64 m p
unfolding load64
load64_same m m' p h = rw (
  h p (omega arith) (omega arith),
  h (p + 1) (omega arith) (omega arith),
  h (p + 2) (omega arith) (omega arith),
  h (p + 3) (omega arith) (omega arith),
  h (p + 4) (omega arith) (omega arith),
  h (p + 5) (omega arith) (omega arith),
  h (p + 6) (omega arith) (omega arith),
  h (p + 7) (omega arith) (omega arith),
)

pub load64-store64_apart :
    (m : Mem) (p v q : ℕ) → (p + 8 ≤ q) ⊎ (q + 8 ≤ p) → load64 (store64 m p v) q ≡ load64 m q
load64-store64_apart m p v q h = load64_same m (store64 m p v) q λ a l u.
    store64-SameOutside m p v a (elim h [ inl k ↦ inr (omega arith) | inr k ↦ inl (omega arith) ])
