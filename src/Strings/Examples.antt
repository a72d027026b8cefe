-- ===== src/Strings/Examples.antt =====
-- The string functions on concrete memory: tests, and the theorems at concrete inputs.
use kernalite.Base.{
  ℕ, zero, suc, ◌+◌, ◌≤◌, ◌<◌, ◌≡◌, ◌≢◌, refl, ◌⊎◌, inl, ◌||◌, ◌==◌, if◌then◌else◌, [], ◌∷◌, some,
  arith,
}
use kernalite.Base.Int.{pos, sub_ℕ}
use kernalite.Memory.{Mem, load8}
use kernalite.Strings.{memmove, memcmp, memchr, strchr, strrchr, strlen, strtoul}
use kernalite.Strings.Move.{moved, memmove-moved}
use kernalite.Strings.Compare.{Agree, memcmp-outcome, Lacks, IsFirst, memchr-outcome}
use kernalite.Strings.Number.{
  IsNumeral, ends, digit, figure, lower, null-IsEnd, prefixed, strtoul_lem,
}
use kernalite.Strings.Scan.{IsString, IsLast, strchr-outcome, strrchr-outcome}

-- "noon" at 100, with null bytes elsewhere.
abbrev noon : Mem
noon a = if a == 100 || a == 103 then b'n' else if a == 101 || a == 102 then b'o' else 0

strlen-noon : strlen 5 100 noon ≡ some 4
unfolding strlen
strlen-noon = refl

strrchr-noon : strrchr 5 100 b'o' noon ≡ some 102
unfolding strrchr
strrchr-noon = refl

memcmp-noon : memcmp 100 102 2 noon ≡ sub_ℕ b'n' b'o'
unfolding memcmp
memcmp-noon = refl

noon-IsString : IsString noon 100 4
noon-IsString = record { matches = refl; before = before }
  where
    before : (i : ℕ) → i < 4 → load8 noon (100 + i) ≢ 0
    before zero l = λ e. absurd (omega (arith, e))
    before (suc zero) l = λ e. absurd (omega (arith, e))
    before (suc (suc zero)) l = λ e. absurd (omega (arith, e))
    before (suc (suc (suc zero))) l = λ e. absurd (omega (arith, e))
    before (suc (suc (suc (suc i)))) l = absurd (omega arith)

memmove-moved_example :
    ((memmove 102 100 4 noon).0 ≡ 102)
    × ((a : ℕ) → (memmove 102 100 4 noon).1 a ≡ moved 102 100 4 noon a)
memmove-moved_example = memmove-moved 102 100 4 noon

memcmp-outcome_example :
    ((i : ℕ) × (i < 2)
      × Agree noon 100 102 i
      × (load8 noon (100 + i) ≢ load8 noon (102 + i))
      × (memcmp 100 102 2 noon ≡ sub_ℕ (load8 noon (100 + i)) (load8 noon (102 + i))))
    ⊎ (Agree noon 100 102 2 × (memcmp 100 102 2 noon ≡ pos 0))
memcmp-outcome_example = memcmp-outcome 100 102 2 noon

memchr-outcome_example :
    ((i : ℕ) × (i < 4) × IsFirst noon 100 b'o' i × (memchr 100 b'o' 4 noon ≡ 100 + i))
    ⊎ (Lacks noon 100 b'o' 4 × (memchr 100 b'o' 4 noon ≡ 0))
memchr-outcome_example = memchr-outcome 100 b'o' 4 noon

strchr-outcome_example :
    ((i : ℕ) × (i ≤ 4) × IsFirst noon 100 b'o' i × (strchr 5 100 b'o' noon ≡ some (100 + i)))
    ⊎ (Lacks noon 100 b'o' 5 × (strchr 5 100 b'o' noon ≡ some 0))
strchr-outcome_example = strchr-outcome 5 100 b'o' 4 noon noon-IsString (omega arith)

strrchr-outcome_example :
    ((i : ℕ) × IsLast noon 100 b'o' 4 i × (strrchr 5 100 b'o' noon ≡ some (100 + i)))
    ⊎ (Lacks noon 100 b'o' 5 × (strrchr 5 100 b'o' noon ≡ some 0))
strrchr-outcome_example = strrchr-outcome 5 100 b'o' 4 noon noon-IsString (omega arith)

-- "0x1f" at 200, with null bytes elsewhere.
abbrev hex : Mem
hex a =
    if a == 200
    then b'0'
    else if a == 201
    then b'x'
    else if a == 202
    then b'1'
    else if a == 203
    then b'f'
    else 0

hex-IsNumeral : IsNumeral hex 16 202 (1 ∷ 15 ∷ [])
hex-IsNumeral = digit 1 (figure (omega arith) refl) (omega arith) (
    digit 15 (lower (omega arith) (omega arith) refl) (omega arith)
      (ends (null-IsEnd hex 16 204 refl)))

strtoul_lem_example : strtoul 3 200 0 hex ≡ some (31, 204)
strtoul_lem_example =
    strtoul_lem 3 200 0 16 202 (1 ∷ 15 ∷ []) hex (prefixed (inl refl) refl (inl refl)) hex-IsNumeral
      (omega arith)
