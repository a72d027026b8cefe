-- ===== src/Allocator/Bitmap.antt =====
-- What setting, clearing and reading one bit of the bitmap mean for the pages, and the description
-- of a change to a range of pages that the loops share.
use kernalite.Base.{
  ℕ, zero, suc, ◌+◌, ◌*◌, ◌/◌, ◌%◌, ◌^◌, ◌≤◌, ◌<◌, bit_and, bit_or, ◌≡◌, ◌≢◌, refl, Bool, true,
  false, not, ◌==◌, within, if◌then◌else◌, arith, u64, ◌<<<◌, complement,
}
use native.Mathlib.Nat.{pow-le-pow_right, one-le-pow}
use kernalite.Bits.{
  bit, bit-le, bit-bit_or, bit-bit_and, bit-pow, bit-complement, bit-u8, bit_and-pow,
}
use kernalite.Memory.{Mem, store, SameOutside}
use kernalite.Allocator.{set_bit, clear_bit, read_bit, mark_loop, free_loop, reserve_loop}

-- Page `j` is in use.
unfoldable pub page_used : ℕ → Mem → ℕ → Bool
page_used bitmap m j = bit (m (bitmap + j / 8)) (j % 8) == 1

byte_bit_lt : (k : ℕ) → k < 8 → 2 ^ k < 2 ^ 8
byte_bit_lt k h =
    omega (arith, pow-le-pow_right {n = 2} (omega arith) {i = k} {j = 7} (omega arith))

pub page_used-set_bit :
    (bitmap i j : ℕ) (m : Mem)
    → page_used bitmap (set_bit bitmap i m) j ≡ (if i == j then true else page_used bitmap m j)
unfolding page_used set_bit store
page_used-set_bit bitmap i j m =
    let byte = m (bitmap + i / 8) in
    ground (
      arith,
      bit-u8 (bit_or byte (1 <<< (i % 8))) (j % 8),
      bit-bit_or byte (1 <<< (i % 8)) (j % 8),
      bit-pow (i % 8) (j % 8),
      bit-le byte (j % 8),
    )

pub page_used-clear_bit :
    (bitmap i j : ℕ) (m : Mem)
    → page_used bitmap (clear_bit bitmap i m) j ≡ (if i == j then false else page_used bitmap m j)
unfolding page_used clear_bit store
page_used-clear_bit bitmap i j m =
    let byte = m (bitmap + i / 8) in
    ground (
      arith,
      byte_bit_lt (i % 8),
      bit-u8 (bit_and byte (complement 32 (1 <<< (i % 8)))) (j % 8),
      bit-bit_and byte (complement 32 (1 <<< (i % 8))) (j % 8),
      bit-complement 32 (1 <<< (i % 8)) (j % 8),
      bit-pow (i % 8) (j % 8),
      bit-le byte (j % 8),
    )

masked_byte : (byte k : ℕ) → bit_and byte (1 <<< k) ≡ (if bit byte k == 1 then 2 ^ k else 0)
masked_byte byte k =
    let b = bit byte k in
    let e : 1 * 2 ^ k ≡ 2 ^ k = omega arith in
    rw (e, bit_and-pow) (ground (arith, bit-le byte k, scaled b (bit-le byte k)))
  where
    scaled : (c : ℕ) → c ≤ 1 → c * 2 ^ k ≡ (if c == 1 then 2 ^ k else 0)
    scaled zero h = omega arith
    scaled (suc zero) h = omega arith
    scaled (suc (suc c)) h = absurd (omega arith)

-- The test of the search: the masked byte is 0 exactly when the page is free.
pub read_bit-eq-zero :
    (bitmap i : ℕ) (m : Mem) → (read_bit bitmap i m == 0) ≡ not (page_used bitmap m i)
unfolding page_used read_bit
read_bit-eq-zero bitmap i m = ground (
  arith,
  masked_byte (m (bitmap + i / 8)) (i % 8),
  byte_bit_lt (i % 8),
  one-le-pow (i % 8) 2 (omega arith),
)

-- The same without the cast to a byte.
pub masked_bit-eq-zero :
    (bitmap i : ℕ) (m : Mem)
    → (bit_and (m (bitmap + i / 8)) (1 <<< (i % 8)) == 0) ≡ not (page_used bitmap m i)
unfolding page_used
masked_bit-eq-zero bitmap i m =
    ground (arith, masked_byte (m (bitmap + i / 8)) (i % 8), one-le-pow (i % 8) 2 (omega arith))

set_bit-SameOutside :
    (bitmap i : ℕ) (m : Mem) (a : ℕ) → a ≢ bitmap + i / 8 → set_bit bitmap i m a ≡ m a
unfolding set_bit store
set_bit-SameOutside bitmap i m a h = ground arith

clear_bit-SameOutside :
    (bitmap i : ℕ) (m : Mem) (a : ℕ) → a ≢ bitmap + i / 8 → clear_bit bitmap i m a ≡ m a
unfolding clear_bit store
clear_bit-SameOutside bitmap i m a h = ground arith

-- `m'` is `m` with the pages from `lo` up to `hi` given the status `v`: every other page keeps its
-- status, and no byte but those that hold the bits of the range changes.
pub record IsUpdate (bitmap lo hi : ℕ) (v : Bool) (m m' : Mem) : Type 0 where
  pub status :
      (j : ℕ) → page_used bitmap m' j ≡ (if within lo hi j then v else page_used bitmap m j)
  pub frame : SameOutside (bitmap + lo / 8) (bitmap + (hi + 7) / 8) m m'

pub mark_loop-IsUpdate :
    (bitmap rounds lo hi : ℕ) (m : Mem)
    → lo + rounds ≡ hi
    → IsUpdate bitmap lo hi true m (mark_loop bitmap rounds lo m)
unfolding mark_loop
mark_loop-IsUpdate bitmap zero lo hi m e = record {
  status = λ j. ground arith;
  frame = λ a h. refl;
}
mark_loop-IsUpdate bitmap (suc rounds) lo hi m e =
    let rest = mark_loop-IsUpdate bitmap rounds (lo + 1) hi (set_bit bitmap lo m) (omega arith) in
    record {
      status = λ j. ground (arith, rest.status j, page_used-set_bit bitmap lo j m);
      frame = λ a h. ground (arith, rest.frame a, set_bit-SameOutside bitmap lo m a);
    }

pub free_loop-IsUpdate :
    (bitmap rounds lo hi : ℕ) (m : Mem)
    → lo + rounds ≡ hi
    → IsUpdate bitmap lo hi false m (free_loop bitmap rounds lo m)
unfolding free_loop
free_loop-IsUpdate bitmap zero lo hi m e = record {
  status = λ j. ground arith;
  frame = λ a h. refl;
}
free_loop-IsUpdate bitmap (suc rounds) lo hi m e =
    let rest = free_loop-IsUpdate bitmap rounds (lo + 1) hi (clear_bit bitmap lo m) (omega arith) in
    record {
      status = λ j. ground (arith, rest.status j, page_used-clear_bit bitmap lo j m);
      frame = λ a h. ground (arith, rest.frame a, clear_bit-SameOutside bitmap lo m a);
    }

-- Without a wrap-around the loop of `reserve_page` marks as the others do.
pub reserve_loop-mark_loop :
    (bitmap start rounds i : ℕ) (m : Mem)
    → start + i + rounds < 2 ^ 64
    → reserve_loop bitmap start rounds i m ≡ mark_loop bitmap rounds (start + i) m
unfolding reserve_loop mark_loop
reserve_loop-mark_loop bitmap start zero i m h = refl
reserve_loop-mark_loop bitmap start (suc rounds) i m h =
    let e : u64 (start + i) ≡ start + i = omega arith in
    let f : start + i + 1 ≡ start + (i + 1) = omega arith in
    rw (e, f)
      (reserve_loop-mark_loop bitmap start rounds (i + 1) (set_bit bitmap (start + i) m)
        (omega arith))
