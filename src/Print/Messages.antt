-- ===== src/Print/Messages.antt =====
-- Several messages in a row: what a function sends that calls `kprintf` for each of them.
use kernalite.Base.{
  ℕ, ◌+◌, ◌≤◌, ◌≡◌, refl, ◌∙◌, sym, ap, true, Option, none, some, List, [], ◌∷◌, ◌++◌, length, All,
  max, reverse, append_assoc, reverse-append, arith,
}
use kernalite.Memory.{Mem}
use kernalite.Print.{Serial, kprintf, vprintf}
use kernalite.Print.Text.{Spells}
use kernalite.Print.Render.{Apart}
use kernalite.Print.Loop.{vprintf-Renders}
use kernalite.Print.Pieces.{Piece, IsPiece, format_of, args_of, text_of, text_of-Renders}

-- A call of `kprintf`: the address of the format, and the arguments behind it.
pub record KprintfCall : Type 0 where
  pub format : ℕ
  pub args : List ℕ

-- Calls of `kprintf` one after the other, behind what was sent before, the last character first.
unfoldable pub kprintf_all : ℕ → Serial → ℕ → List KprintfCall → Mem → List ℕ → Option (List ℕ)
kprintf_all fuel serial_console buf [] m sent = some sent
kprintf_all fuel serial_console buf (x ∷ xs) m sent =
    elim (kprintf fuel serial_console buf x.format x.args m) [
      | none ↦ none
      | some (printed, cs) ↦ kprintf_all fuel serial_console buf xs m (cs ++ sent)
    ]

-- A message whose format is in memory, outside of the buffer, piece by piece.
pub record Says (m : Mem) (buf : ℕ) (x : KprintfCall) (pieces : List Piece) : Type 0 where
  pub spelled : Spells m x.format (format_of pieces)
  pub apart : Apart buf x.format (x.format + length (format_of pieces))
  pub same_args : x.args ≡ args_of pieces
  pub well_formed : All IsPiece pieces

abbrev pub AllSay : Mem → ℕ → List KprintfCall → List (List Piece) → Type 0
AllSay m buf [] [] = Unit
AllSay m buf (x ∷ xs) (ps ∷ pss) = Says m buf x ps × AllSay m buf xs pss
AllSay m buf [] (ps ∷ pss) = ⊥
AllSay m buf (x ∷ xs) [] = ⊥

abbrev pub texts_of : List (List Piece) → List ℕ
texts_of [] = []
texts_of (ps ∷ pss) = text_of ps ++ texts_of pss

kprintf_step :
    (fuel : ℕ) (con : Serial) (buf : ℕ) (m : Mem) (x : KprintfCall) (xs : List KprintfCall)
    (sent : List ℕ) (printed : ℕ) (cs : List ℕ)
    → kprintf fuel con buf x.format x.args m ≡ some (printed, cs)
    → kprintf_all fuel con buf (x ∷ xs) m sent ≡ kprintf_all fuel con buf xs m (cs ++ sent)
unfolding kprintf_all
kprintf_step fuel con buf m x xs sent printed cs e = rw (e, kprintf_all) refl

-- From some amount of fuel on, the calls send the texts of the messages, in order.
pub kprintf_all-AllSay :
    (serial_console : Serial) (buf : ℕ) (m : Mem) (xs : List KprintfCall) (pss : List (List Piece))
    → serial_console.putc ≡ true
    → AllSay m buf xs pss
    → (enough : ℕ) × ((fuel : ℕ) (sent : List ℕ)
        → enough ≤ fuel
        → kprintf_all fuel serial_console buf xs m sent ≡ some (reverse (texts_of pss) ++ sent))
unfolding kprintf_all
kprintf_all-AllSay con buf m [] [] on h = (0, λ fuel sent l. refl)
kprintf_all-AllSay con buf m [] (ps ∷ pss) on h = elim h [ ]
kprintf_all-AllSay con buf m (x ∷ xs) [] on h = elim h [ ]
kprintf_all-AllSay con buf m (x ∷ xs) (ps ∷ pss) on (says, h) =
    let (first, printed) = vprintf-Renders m buf x.format x.args (text_of ps) (
      rw says.same_args
        (text_of-Renders m buf x.format ps says.spelled says.well_formed says.apart)) in
    let (others, rest) = kprintf_all-AllSay con buf m xs pss on h in
    (
      max first others,
      λ fuel sent l.
          kprintf_step fuel con buf m x xs sent (length (text_of ps)) (reverse (text_of ps))
            (ap (λ b. vprintf fuel b buf x.format x.args m) on ∙ printed fuel (omega arith))
          ∙ rest fuel (reverse (text_of ps) ++ sent) (omega arith)
          ∙ ap some (
              sym (append_assoc (reverse (texts_of pss)) (reverse (text_of ps)) sent)
              ∙ ap (λ (cs : List ℕ). cs ++ sent)
                  (sym (reverse-append (text_of ps) (texts_of pss)))),
    )
