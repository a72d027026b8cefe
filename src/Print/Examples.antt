-- ===== src/Print/Examples.antt =====
-- Printing on concrete memory: tests, and the theorems at concrete inputs.
use kernalite.Base.{
  inl, inr, ℕ, ◌+◌, ◌≤◌, ◌≡◌, refl, true, some, [], ◌∷◌, arith, ◌==◌, if◌then◌else◌,
}
use kernalite.Memory.{Mem, load8, store, SameOutside}
use kernalite.Print.{
  itoa, vprintf, vprintf_loop, round, convert, put_hex, put_number, digits_loop, reverse_loop, puts,
}
use kernalite.Print.Text.{Spells, IsText}
use kernalite.Print.Figures.{itoa_within_buffer}
use kernalite.Print.Render.{Renders, ended, newline, directive, pointer}
use kernalite.Print.Loop.{vprintf-Renders}
use kernalite.Print.Number.{strtoul-itoa}
use kernalite.Strings.{strtoul}

-- The format "%p\n" at 100.
abbrev format : Mem
format a = if a == 100 then b'%' else if a == 101 then b'p' else if a == 102 then b'\n' else 0

vprintf-format :
    vprintf 9 true 500 100 (0x1f ∷ []) format
    ≡ some (6, b'\n' ∷ b'\r' ∷ b'f' ∷ b'1' ∷ b'x' ∷ b'0' ∷ [])
unfolding vprintf vprintf_loop round convert put_hex put_number itoa digits_loop reverse_loop puts
    store
vprintf-format = refl

strtoul-itoa_example :
    (k : ℕ) × (m' : Mem) × (k ≤ 64)
    × (itoa 64 255 16 500 format ≡ some m')
    × (load8 m' (500 + k) ≡ 0)
    × (strtoul 65 500 16 m' ≡ some (255, 500 + k))
    × SameOutside 500 (500 + k + 1) format m'
strtoul-itoa_example = strtoul-itoa 255 16 500 format (omega arith) (omega arith) (omega arith)

-- "1f" in base 16.
IsText-1f : IsText 16 0x1f (b'1' ∷ b'f' ∷ [])
IsText-1f = record {
  positive = omega arith;
  digits = refl;
  fits = refl;
  minimal = inr (omega arith);
}

itoa_within_buffer_example :
    (m' : Mem) × (itoa 64 0x1f 16 500 format ≡ some m')
    × (2 ≤ 20)
    × Spells m' 500 (b'1' ∷ b'f' ∷ [])
    × SameOutside 500 521 format m'
itoa_within_buffer_example =
    itoa_within_buffer 0x1f 16 500 format (b'1' ∷ b'f' ∷ []) (omega arith) (omega arith)
      (omega arith) IsText-1f

-- The format stands for "0x1f" and a new line.
format-Renders : Renders format 500 100 (0x1f ∷ []) (b'0' ∷ b'x' ∷ b'1' ∷ b'f' ∷ b'\r' ∷ b'\n' ∷ [])
format-Renders =
    directive {ds = b'0' ∷ b'x' ∷ b'1' ∷ b'f' ∷ []} (inl (omega arith)) refl
      (pointer (omega arith) IsText-1f)
      (newline (inl (omega arith)) refl (ended (inl (omega arith)) refl))

vprintf-Renders_example :
    (enough : ℕ) × ((fuel : ℕ)
      → enough ≤ fuel
      → vprintf fuel true 500 100 (0x1f ∷ []) format
        ≡ some (6, b'\n' ∷ b'\r' ∷ b'f' ∷ b'1' ∷ b'x' ∷ b'0' ∷ []))
vprintf-Renders_example =
    vprintf-Renders format 500 100 (0x1f ∷ []) (b'0' ∷ b'x' ∷ b'1' ∷ b'f' ∷ b'\r' ∷ b'\n' ∷ [])
      format-Renders
