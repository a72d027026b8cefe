-- ===== src/Print/Render.antt =====
-- What a format stands for, with its arguments: the text that `vprintf` promises to print.
use kernalite.Base.{ℕ, ◌+◌, ◌-◌, ◌^◌, ◌≤◌, ◌<◌, ◌≡◌, ◌≢◌, ◌⊎◌, List, [], ◌∷◌, ◌++◌, length, u8}
use kernalite.Memory.{Mem, load8}
use kernalite.Print.Text.{Spells, IsText}

-- The bytes from `p` to `q` lie outside the buffer on the stack.
abbrev pub Apart : ℕ → ℕ → ℕ → Type 0
Apart buf p q = (q < buf) ⊎ (buf + 64 ≤ p)

abbrev pub null_text : List ℕ
null_text = b'(' ∷ b'n' ∷ b'u' ∷ b'l' ∷ b'l' ∷ b')' ∷ []

-- A conversion: its character, the arguments before it, its text, and the arguments behind it.
pub data Converts (m : Mem) (buf : ℕ) : ℕ → List ℕ → List ℕ → List ℕ → Type 0 where
  hex :
      {num : ℕ} {cs args : List ℕ}
      → num < 2 ^ 64
      → IsText 16 num cs
      → Converts m buf b'x' (num ∷ args) cs args
  pointer :
      {num : ℕ} {cs args : List ℕ}
      → num < 2 ^ 64
      → IsText 16 num cs
      → Converts m buf b'p' (num ∷ args) (b'0' ∷ b'x' ∷ cs) args
  character : {chr : ℕ} {args : List ℕ} → Converts m buf b'c' (chr ∷ args) (u8 chr ∷ []) args
  string :
      {str : ℕ} {cs args : List ℕ}
      → str ≢ 0
      → Spells m str cs
      → Apart buf str (str + length cs)
      → Converts m buf b's' (str ∷ args) cs args
  null_string : {args : List ℕ} → Converts m buf b's' (0 ∷ args) null_text args
  natural :
      {num : ℕ} {cs args : List ℕ}
      → num < 2 ^ 63
      → IsText 10 num cs
      → Converts m buf b'd' (num ∷ args) cs args
  negative :
      {num : ℕ} {cs args : List ℕ}
      → 2 ^ 63 ≤ num
      → num < 2 ^ 64
      → IsText 10 (2 ^ 64 - num) cs
      → Converts m buf b'd' (num ∷ args) (b'-' ∷ cs) args
  unsigned :
      {num : ℕ} {cs args : List ℕ}
      → num < 2 ^ 64
      → IsText 10 num cs
      → Converts m buf b'u' (num ∷ args) cs args
  percent : {args : List ℕ} → Converts m buf b'%' args (b'%' ∷ []) args

-- A character that is no conversion.
pub record IsUnknown (chr : ℕ) : Type 0 where
  pub not_null : chr ≢ 0
  pub not_hex : chr ≢ b'x'
  pub not_pointer : chr ≢ b'p'
  pub not_long : chr ≢ b'l'
  pub not_character : chr ≢ b'c'
  pub not_string : chr ≢ b's'
  pub not_signed : chr ≢ b'd'
  pub not_unsigned : chr ≢ b'u'
  pub not_percent : chr ≢ b'%'

-- The format at `p` with `args` stands for the text.
pub data Renders (m : Mem) (buf : ℕ) : ℕ → List ℕ → List ℕ → Type 0 where
  ended : {p : ℕ} {args : List ℕ} → Apart buf p p → load8 m p ≡ 0 → Renders m buf p args []
  plain :
      {p : ℕ} {args cs : List ℕ}
      → Apart buf p p
      → load8 m p ≢ 0
      → load8 m p ≢ b'%'
      → load8 m p ≢ b'\n'
      → Renders m buf (p + 1) args cs
      → Renders m buf p args (load8 m p ∷ cs)
  newline :
      {p : ℕ} {args cs : List ℕ}
      → Apart buf p p
      → load8 m p ≡ b'\n'
      → Renders m buf (p + 1) args cs
      → Renders m buf p args (b'\r' ∷ b'\n' ∷ cs)
  directive :
      {p : ℕ} {args args' ds cs : List ℕ}
      → Apart buf p (p + 1)
      → load8 m p ≡ b'%'
      → Converts m buf (load8 m (p + 1)) args ds args'
      → Renders m buf (p + 2) args' cs
      → Renders m buf p args (ds ++ cs)
  long :
      {p : ℕ} {args args' ds cs : List ℕ}
      → Apart buf p (p + 2)
      → load8 m p ≡ b'%'
      → load8 m (p + 1) ≡ b'l'
      → load8 m (p + 2) ≡ b'x'
      → Converts m buf b'x' args ds args'
      → Renders m buf (p + 3) args' cs
      → Renders m buf p args (ds ++ cs)
  unknown :
      {p : ℕ} {args cs : List ℕ}
      → Apart buf p (p + 1)
      → load8 m p ≡ b'%'
      → IsUnknown (load8 m (p + 1))
      → Renders m buf (p + 2) args cs
      → Renders m buf p args (b'%' ∷ load8 m (p + 1) ∷ cs)
