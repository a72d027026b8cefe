-- ===== src/Print/Convert.antt =====
-- `convert`: every conversion prints its text.
use kernalite.Base.{
  ℕ, suc, ◌+◌, ◌^◌, ◌≤◌, ◌≡◌, refl, ap, ◌∙◌, Option, some, List, [], ◌∷◌, ◌++◌, length, ==_ne,
  lt→leb, le→leb, u8, arith,
}
use kernalite.Memory.{Mem, load8, SameOutside}
use kernalite.Print.{
  Progress, putc, put_list, put_hex, put_char, put_string, put_signed, put_unsigned, convert,
}
use kernalite.Print.Text.{Spells, Sent, Sent-append, Sent-args, putc-Sent, put_list-Sent, puts-Sent}
use kernalite.Print.Figures.{put_number-Sent}
use kernalite.Print.Render.{
  Apart, null_text, Converts, hex, pointer, character, string, null_string, natural, negative,
  unsigned, percent, IsUnknown,
}

pub agree :
    (buf p q r : ℕ) (m m' : Mem)
    → Apart buf p q
    → p ≤ r
    → r ≤ q
    → SameOutside buf (buf + 64) m m'
    → load8 m' r ≡ load8 m r
agree buf p q r m m' o low high same = ap u8 (same r (omega arith))

Spells-agree :
    (buf p : ℕ) (cs : List ℕ) (m m' : Mem)
    → Apart buf p (p + length cs)
    → SameOutside buf (buf + 64) m m'
    → Spells m p cs
    → Spells m' p cs
Spells-agree buf p [] m m' o same h = agree buf p _ p m m' o (omega arith) (omega arith) same ∙ h
Spells-agree buf p (c ∷ cs) m m' o same (here, ne, h) = (
  agree buf p _ p m m' o (omega arith) (omega arith) same ∙ here,
  ne,
  Spells-agree buf (p + 1) cs m m' (omega arith) same h,
)

-- What a step that prints `cs` does, for a step that is computed from `s`.
abbrev pub IsSent : ℕ → List ℕ → List ℕ → Progress → Option Progress → Type 0
IsSent buf cs args s r = (s' : Progress) × (r ≡ some s') × Sent buf cs args s s'

rest_of : List ℕ → Progress → Progress
rest_of args s = record { sent = s.sent; printed = s.printed; args = args; mem = s.mem }

-- The arguments are not part of what has been printed.
Sent-rest :
    {buf : ℕ} {cs args : List ℕ} (s : Progress) {r : Option Progress}
    → IsSent buf cs args (rest_of args s) r
    → IsSent buf cs args s r
unfolding rest_of
Sent-rest s (s', r, h) =
    (s', r, record { sent = h.sent; printed = h.printed; args_left = h.args_left; frame = h.frame })

Sent-then :
    {buf : ℕ} {cs ds args args' : List ℕ} {s s' : Progress} {r : Option Progress}
    → Sent buf cs args s s'
    → IsSent buf ds args' s' r
    → IsSent buf (cs ++ ds) args' s r
Sent-then h (s'', r, k) = (s'', r, Sent-append h k)

putc-IsSent :
    {args : List ℕ} (buf c : ℕ) (s : Progress)
    → s.args ≡ args
    → IsSent buf (c ∷ []) args s (some (putc c s))
putc-IsSent buf c s e = (putc c s, refl, Sent-args e (putc-Sent buf c s))

pub convert-IsSent :
    (buf chr : ℕ) (args cs args' : List ℕ) (m : Mem)
    → Converts m buf chr args cs args'
    → (enough : ℕ) × ((fuel : ℕ) (s : Progress)
        → enough ≤ fuel
        → s.args ≡ args
        → SameOutside buf (buf + 64) m s.mem
        → IsSent buf cs args' s (convert fuel buf chr s))
unfolding convert put_hex put_char put_string put_signed put_unsigned rest_of
convert-IsSent buf _ _ cs args' m (hex l text) = (
  0,
  λ fuel s f e same.
      Sent-rest s
        (rw e (put_number-Sent buf _ 16 cs (rest_of args' s) l (omega arith) (omega arith) text)),
)
convert-IsSent buf _ _ _ args' m (pointer {cs} l text) = (
  0,
  λ fuel s f e same.
      let prefixed = putc b'x' (putc b'0' s) in
      Sent-then (Sent-append (putc-Sent buf b'0' s) (putc-Sent buf b'x' (putc b'0' s))) (
        Sent-rest prefixed (
          rw e (
            put_number-Sent buf _ 16 cs (rest_of args' prefixed) l (omega arith) (omega arith)
              text))),
)
convert-IsSent buf _ _ _ args' m (character {chr}) = (
  0,
  λ fuel s f e same.
      Sent-rest s
        (rw e (putc (u8 chr) (rest_of args' s), refl, putc-Sent buf (u8 chr) (rest_of args' s))),
)
convert-IsSent buf _ _ cs args' m (string {str} ne h o) = (
  suc (length cs),
  λ fuel s f e same. Sent-rest s (
      rw (e, ==_ne str 0 ne)
        (puts-Sent buf fuel str cs (rest_of args' s) (Spells-agree buf str cs m s.mem o same h) f)),
)
convert-IsSent buf _ _ _ args' m null_string = (
  0,
  λ fuel s f e same. Sent-rest s (
      rw e (
        put_list null_text (rest_of args' s),
        refl,
        put_list-Sent buf null_text (rest_of args' s),
      )),
)
convert-IsSent buf _ _ cs args' m (natural {num} l text) = (
  0,
  λ fuel s f e same. Sent-rest s (
      rw (e, lt→leb (2 ^ 63) num l)
        (put_number-Sent buf _ 10 cs (rest_of args' s) (omega arith) (omega arith) (omega arith)
          text)),
)
convert-IsSent buf _ _ _ args' m (negative {num} {cs} h l text) = (
  0,
  λ fuel s f e same. Sent-rest s (
      rw (e, le→leb (2 ^ 63) num h)
        (Sent-then (putc-Sent buf b'-' (rest_of args' s)) (
          put_number-Sent buf _ 10 cs (putc b'-' (rest_of args' s)) (omega arith) (omega arith)
            (omega arith) text))),
)
convert-IsSent buf _ _ cs args' m (unsigned l text) = (
  0,
  λ fuel s f e same.
      Sent-rest s
        (rw e (put_number-Sent buf _ 10 cs (rest_of args' s) l (omega arith) (omega arith) text)),
)
convert-IsSent buf _ _ _ args' m percent = (0, λ fuel s f e same. putc-IsSent buf b'%' s e)

pub convert_unknown :
    (fuel buf chr : ℕ) (s : Progress)
    → IsUnknown chr
    → convert fuel buf chr s ≡ some (putc chr (putc b'%' s))
unfolding convert
convert_unknown fuel buf chr s u =
    rw
      (
        ==_ne _ _ u.not_hex,
        ==_ne _ _ u.not_pointer,
        ==_ne _ _ u.not_character,
        ==_ne _ _ u.not_string,
        ==_ne _ _ u.not_signed,
        ==_ne _ _ u.not_unsigned,
        ==_ne _ _ u.not_percent,
      )
      refl
