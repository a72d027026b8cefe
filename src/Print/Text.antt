-- ===== src/Print/Text.antt =====
-- Texts: the characters that a pointer into memory stands for, the digits of a number, and what it
-- means that a call has printed a text.
use kernalite.Base.{
  ℕ, zero, suc, ◌+◌, ◌-◌, ◌/◌, ◌%◌, ◌^◌, ◌<◌, ◌≡◌, ◌≢◌, refl, ◌∙◌, ◌⊎◌, some, List, [], ◌∷◌, ◌++◌,
  length, length-append, reverse_aux, reverse_aux-append, ==_ne, ==_of_eq, arith,
}
use mathlib.Core.Path.{subst}
use kernalite.Memory.{Mem, load8, SameOutside}
use kernalite.Print.{digit_char, Progress, putc, puts, put_list}

-- The null-terminated string at `p`.
abbrev pub Spells : Mem → ℕ → List ℕ → Type 0
Spells m p [] = load8 m p ≡ 0
Spells m p (c ∷ cs) = (load8 m p ≡ c) × (c ≢ 0) × Spells m (p + 1) cs

-- The last `j` digits of a number.
abbrev pub digits_text : ℕ → ℕ → ℕ → List ℕ
digits_text base num zero = []
digits_text base num (suc j) = digit_char (num / base ^ j % base) ∷ digits_text base num j

-- The text of a number: all its digits, with no leading zero.
pub record IsText (base num : ℕ) (cs : List ℕ) : Type 0 where
  pub positive : 0 < length cs
  pub digits : cs ≡ digits_text base num (length cs)
  pub fits : num / base ^ length cs ≡ 0
  pub minimal : (length cs ≡ 1) ⊎ (num / base ^ (length cs - 1) ≢ 0)

-- From `s` on, the characters `cs` have been printed, and `args` are the arguments left. Of the
-- memory only the buffer may have changed.
pub record Sent (buf : ℕ) (cs args : List ℕ) (s s' : Progress) : Type 0 where
  pub sent : s'.sent ≡ reverse_aux cs s.sent
  pub printed : s'.printed ≡ s.printed + length cs
  pub args_left : s'.args ≡ args
  pub frame : SameOutside buf (buf + 64) s.mem s'.mem

pub Sent-append :
    {buf : ℕ} {cs ds args args' : List ℕ} {s s' s'' : Progress}
    → Sent buf cs args s s'
    → Sent buf ds args' s' s''
    → Sent buf (cs ++ ds) args' s s''
Sent-append {cs} {ds} {s} h k = record {
  sent = rw (reverse_aux-append cs ds s.sent, ← h.sent) k.sent;
  printed = omega (arith, h.printed, k.printed, length-append cs ds);
  args_left = k.args_left;
  frame = λ a o. k.frame a o ∙ h.frame a o;
}

pub Sent-args :
    {buf : ℕ} {cs args args' : List ℕ} {s s' : Progress}
    → args ≡ args'
    → Sent buf cs args s s'
    → Sent buf cs args' s s'
Sent-args x h = record {
  sent = h.sent;
  printed = h.printed;
  args_left = h.args_left ∙ x;
  frame = h.frame;
}

pub putc-Sent : (buf c : ℕ) (s : Progress) → Sent buf (c ∷ []) s.args s (putc c s)
putc-Sent buf c s = record { sent = refl; printed = refl; args_left = refl; frame = λ a o. refl }

pub nothing-Sent : (buf : ℕ) (s : Progress) → Sent buf [] s.args s s
nothing-Sent buf s = record {
  sent = refl;
  printed = omega arith;
  args_left = refl;
  frame = λ a o. refl;
}

pub put_list-Sent : (buf : ℕ) (cs : List ℕ) (s : Progress) → Sent buf cs s.args s (put_list cs s)
unfolding put_list
put_list-Sent buf [] s = nothing-Sent buf s
put_list-Sent buf (c ∷ cs) s = Sent-append (putc-Sent buf c s) (put_list-Sent buf cs (putc c s))

Sent-from :
    (buf : ℕ) (cs : List ℕ) (s s' : Progress) (b c : ℕ)
    → b ≡ c
    → Sent buf cs s.args (putc b s) s'
    → Sent buf (c ∷ cs) s.args s s'
Sent-from buf cs s s' b c e h =
    subst (λ (x : ℕ). Sent buf (x ∷ cs) s.args s s') e (Sent-append (putc-Sent buf b s) h)

pub puts-Sent :
    (buf fuel str : ℕ) (cs : List ℕ) (s : Progress)
    → Spells s.mem str cs
    → length cs < fuel
    → (s' : Progress) × (puts fuel str s ≡ some s') × Sent buf cs s.args s s'
unfolding puts
puts-Sent buf zero str cs s h l = absurd (omega arith)
puts-Sent buf (suc fuel) str [] s h l = (s, rw (==_of_eq _ _ h) refl, nothing-Sent buf s)
puts-Sent buf (suc fuel) str (c ∷ cs) s (here, ne, h) l =
    let not_null : load8 s.mem str ≢ 0 = rw here ne in
    let (s', r, sent) =
      puts-Sent buf fuel (str + 1) cs (putc (load8 s.mem str) s) h (omega arith) in
    (s', rw (==_ne _ _ not_null) r, Sent-from buf cs s s' _ c here sent)
