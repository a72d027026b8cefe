-- ===== src/Strings/Move.antt =====
-- `memcpy`, `memmove` and `memset`: the memory afterwards, byte for byte.
use kernalite.Base.{
  ℕ, zero, suc, ◌+◌, ◌-◌, ◌≤◌, ◌≡◌, refl, ◌⊎◌, inl, if◌then◌else◌, within, u8, arith, lt→ltb,
  ge→ltb, dec_lt, dec_le, ℕ_discrete,
}
use kernalite.Memory.{Mem, store}
use kernalite.Strings.{copy_forward, copy_backward, memcpy, memmove, set_loop, memset}

-- The memory after the `size` bytes from `src` on have been moved to `dest`, all at once.
abbrev pub moved : ℕ → ℕ → ℕ → Mem → Mem
moved dest src size m a = if within dest (dest + size) a then m (src + (a - dest)) else m a

copy_forward-moved :
    (dest src size : ℕ) (m : Mem)
    → (dest ≤ src) ⊎ (src + size ≤ dest)
    → (a : ℕ) → copy_forward dest src size m a ≡ moved dest src size m a
unfolding copy_forward store
copy_forward-moved dest src zero m h a = ground arith
copy_forward-moved dest src (suc size) m h a =
    let rest = copy_forward-moved (dest + 1) (src + 1) size (store m dest (m src)) in
    elim (ℕ_discrete a dest) [
      | yes e ↦
          let here : src + (a - dest) ≡ src = omega arith in ground (arith, rest (ground arith) a)
      | no e ↦ elim (dec_lt dest a) [
        | yes l ↦
            let there : src + 1 + (a - (dest + 1)) ≡ src + (a - dest) = omega arith in
            ground (arith, rest (ground arith) a)
        | no l ↦ ground (arith, rest (ground arith) a)
      ]
    ]

-- The pointers stand one past the blocks.
copy_backward-moved :
    (dest src size : ℕ) (m : Mem)
    → src ≤ dest
    → (a : ℕ) → copy_backward (dest + size) (src + size) size m a ≡ moved dest src size m a
unfolding copy_backward store
copy_backward-moved dest src zero m h a = ground arith
copy_backward-moved dest src (suc size) m h a =
    let d : dest + suc size - 1 ≡ dest + size = omega arith in
    let s : src + suc size - 1 ≡ src + size = omega arith in
    let rest = copy_backward-moved dest src size (store m (dest + size) (m (src + size))) h a in
    rw (d, s)
      (elim (ℕ_discrete a (dest + size)) [
        | yes e ↦ let here : src + (a - dest) ≡ src + size = omega arith in ground (arith, rest)
        | no e ↦ ground (arith, rest)
      ])

-- `memcpy` returns the destination and copies the block, if the destination does not lie inside the
-- source behind its start.
pub memcpy-moved :
    (dest src size : ℕ) (m : Mem)
    → (dest ≤ src) ⊎ (src + size ≤ dest)
    → ((memcpy dest src size m).0 ≡ dest)
      × ((a : ℕ) → (memcpy dest src size m).1 a ≡ moved dest src size m a)
unfolding memcpy
memcpy-moved dest src size m h = (refl, copy_forward-moved dest src size m h)

-- `memmove` returns the destination, and the block arrives as it was before the call, whether or not
-- the two blocks overlap; no other byte changes.
pub memmove-moved :
    (dest src size : ℕ) (m : Mem)
    → ((memmove dest src size m).0 ≡ dest)
      × ((a : ℕ) → (memmove dest src size m).1 a ≡ moved dest src size m a)
memmove-moved dest src size m = (unfold memmove in ground arith, bytes)
  where
    stays : (a : ℕ) → dest ≡ src → m a ≡ moved dest src size m a
    stays a e = elim (dec_le dest a) [
      | yes l ↦ let here : src + (a - dest) ≡ a = omega arith in ground arith
      | no l ↦ ground arith
    ]

    bytes : (a : ℕ) → (memmove dest src size m).1 a ≡ moved dest src size m a
    bytes a = elim (dec_lt dest src) [
      | yes l ↦
          unfold memmove in
          rw (lt→ltb dest src l) (copy_forward-moved dest src size m (inl (omega arith)) a)
      | no l ↦ elim (dec_lt src dest) [
        | yes k ↦
            unfold memmove in
            rw (ge→ltb dest src (omega arith), lt→ltb src dest k)
              (copy_backward-moved dest src size m (omega arith) a)
        | no k ↦
            unfold memmove in
            let same : dest ≡ src = omega arith in
            rw (ge→ltb dest src (omega arith), ge→ltb src dest (omega arith)) (stays a same)
      ]
    ]

set_loop_lem :
    (ptr val size : ℕ) (m : Mem) (a : ℕ)
    → set_loop ptr val size m a ≡ (if within ptr (ptr + size) a then u8 val else m a)
unfolding set_loop store
set_loop_lem ptr val zero m a = ground arith
set_loop_lem ptr val (suc size) m a =
    ground (arith, set_loop_lem (ptr + 1) val size (store m ptr (u8 val)) a)

-- `memset` returns its pointer, sets the bytes of the block to the low byte of the value, and
-- changes no other byte.
pub memset_lem :
    (ptr val size : ℕ) (m : Mem)
    → ((memset ptr val size m).0 ≡ ptr)
      × ((a : ℕ)
          → (memset ptr val size m).1 a ≡ (if within ptr (ptr + size) a then u8 val else m a))
unfolding memset
memset_lem ptr val size m = (refl, set_loop_lem ptr val size m)
