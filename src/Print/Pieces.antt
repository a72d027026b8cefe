-- ===== src/Print/Pieces.antt =====
-- Formats piece by piece: literal text, and the conversions that the messages of the kernel use.
use kernalite.Base.{
  ℕ_discrete, ℕ, suc, ◌+◌, ◌^◌, ◌<◌, ◌≡◌, ◌≢◌, ◌∙◌, List, [], ◌∷◌, ◌++◌, length, length-append,
  ◌==◌, ==_ne, if◌then◌else◌, arith, All,
}
use mathlib.Core.Path.{subst}
use kernalite.Memory.{Mem, load8}
use kernalite.Print.Text.{Spells}
use kernalite.Print.Numeral.{number_text, number_text-IsText}
use kernalite.Print.Render.{
  Apart, Renders, ended, plain, newline, directive, long, hex, natural, unsigned,
}

pub data Piece : Type 0 where
  literal : List ℕ → Piece
  long_hex : ℕ → Piece
  decimal : ℕ → Piece
  natural_number : ℕ → Piece

-- The characters of the format.
abbrev pub piece_format : Piece → List ℕ
piece_format (literal cs) = cs
piece_format (long_hex num) = b'%' ∷ b'l' ∷ b'x' ∷ []
piece_format (decimal num) = b'%' ∷ b'd' ∷ []
piece_format (natural_number num) = b'%' ∷ b'u' ∷ []

abbrev pub format_of : List Piece → List ℕ
format_of [] = []
format_of (x ∷ xs) = piece_format x ++ format_of xs

abbrev pub piece_args : Piece → List ℕ
piece_args (literal cs) = []
piece_args (long_hex num) = num ∷ []
piece_args (decimal num) = num ∷ []
piece_args (natural_number num) = num ∷ []

abbrev pub args_of : List Piece → List ℕ
args_of [] = []
args_of (x ∷ xs) = piece_args x ++ args_of xs

-- Characters as they are sent: a line feed gets a carriage return.
abbrev pub sent_text : List ℕ → List ℕ
sent_text [] = []
sent_text (c ∷ cs) = if c == b'\n' then b'\r' ∷ b'\n' ∷ sent_text cs else c ∷ sent_text cs

abbrev pub piece_text : Piece → List ℕ
piece_text (literal cs) = sent_text cs
piece_text (long_hex num) = number_text 16 num
piece_text (decimal num) = number_text 10 num
piece_text (natural_number num) = number_text 10 num

abbrev pub text_of : List Piece → List ℕ
text_of [] = []
text_of (x ∷ xs) = piece_text x ++ text_of xs

-- No `%` in literal text, and numbers that fit the type of their conversion.
abbrev pub IsPiece : Piece → Type 0
IsPiece (literal cs) = All (λ c. c ≢ b'%') cs
IsPiece (long_hex num) = num < 2 ^ 64
IsPiece (decimal num) = num < 2 ^ 63
IsPiece (natural_number num) = num < 2 ^ 64

module _ (m : Mem) (buf : ℕ) where
  literal-Renders :
      (p : ℕ) (cs ds args text : List ℕ)
      → Spells m p (cs ++ ds)
      → All (λ c. c ≢ b'%') cs
      → Apart buf p (p + length (cs ++ ds))
      → (Spells m (p + length cs) ds → Renders m buf (p + length cs) args text)
      → Renders m buf p args (sent_text cs ++ text)
  literal-Renders p [] ds args text s h o rest =
      let e : p + 0 ≡ p = omega arith in rw e at (rest (rw e s))
  literal-Renders p (c ∷ cs) ds args text s h o rest =
      let next : p + 1 + length cs ≡ p + suc (length cs) = omega arith in
      let tail =
        literal-Renders (p + 1) cs ds args text s.2 h.1 (omega (arith, o))
          (λ k. rw next (rest (rw (← next) k))) in
      elim (ℕ_discrete c b'\n') [
        | yes e ↦ rw e (newline (omega (arith, o)) (s.0 ∙ e) tail)
        | no ne ↦ rw (==_ne c b'\n' ne) (
            subst (λ (x : ℕ). Renders m buf p args (x ∷ (sent_text cs ++ text))) s.0
              (plain (omega (arith, o)) (omega (arith, s.0, s.1)) (omega (arith, s.0, h.0))
                (omega (arith, s.0, ne)) tail))
      ]

  two :
      (p a b : ℕ) (cs : List ℕ)
      → Spells m p (a ∷ b ∷ cs)
      → (load8 m p ≡ a) × (load8 m (p + 1) ≡ b) × Spells m (p + 2) cs
  two p a b cs s =
      let e : p + 1 + 1 ≡ p + 2 = omega arith in (s.0, s.2.0, subst (λ q. Spells m q cs) e s.2.2)

  three :
      (p a b c : ℕ) (cs : List ℕ)
      → Spells m p (a ∷ b ∷ c ∷ cs)
      → (load8 m p ≡ a) × (load8 m (p + 1) ≡ b) × (load8 m (p + 2) ≡ c) × Spells m (p + 3) cs
  three p a b c cs s =
      let (first, second, rest) = two p a b (c ∷ cs) s in
      let e : p + 2 + 1 ≡ p + 3 = omega arith in
      (first, second, rest.0, subst (λ q. Spells m q cs) e rest.2)

  -- In memory, outside of the buffer, the format of the pieces stands for their text.
  pub text_of-Renders :
      (p : ℕ) (xs : List Piece)
      → Spells m p (format_of xs)
      → All IsPiece xs
      → Apart buf p (p + length (format_of xs))
      → Renders m buf p (args_of xs) (text_of xs)
  text_of-Renders p [] s h o = ended (omega (arith, o)) s
  text_of-Renders p (literal cs ∷ xs) s h o =
      literal-Renders p cs (format_of xs) (args_of xs) (text_of xs) s h.0 o λ k.
        text_of-Renders (p + length cs) xs k h.1 (omega (arith, o, length-append cs (format_of xs)))
  text_of-Renders p (long_hex num ∷ xs) s h o =
      let (percent, second, third, rest) = three p b'%' b'l' b'x' (format_of xs) s in
      long (omega (arith, o)) percent second third
        (hex h.0 (number_text-IsText 16 num (omega arith) h.0))
        (text_of-Renders (p + 3) xs rest h.1 (omega (arith, o)))
  text_of-Renders p (decimal num ∷ xs) s h o =
      let (percent, second, rest) = two p b'%' b'd' (format_of xs) s in
      directive (omega (arith, o)) percent
        (rw second (natural h.0 (number_text-IsText 10 num (omega arith) (omega (arith, h.0)))))
        (text_of-Renders (p + 2) xs rest h.1 (omega (arith, o)))
  text_of-Renders p (natural_number num ∷ xs) s h o =
      let (percent, second, rest) = two p b'%' b'u' (format_of xs) s in
      directive (omega (arith, o)) percent
        (rw second (unsigned h.0 (number_text-IsText 10 num (omega arith) h.0)))
        (text_of-Renders (p + 2) xs rest h.1 (omega (arith, o)))
