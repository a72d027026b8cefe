-- ===== src/Print/Loop.antt =====
-- `vprintf`: the loop over the format prints the text that the format stands for.
use kernalite.Base.{
  ℕ, zero, suc, ◌+◌, ◌≤◌, ◌≡◌, ◌≢◌, refl, ap, ◌∙◌, true, Option, some, List, [], ◌∷◌, ◌++◌, length,
  reverse_aux, reverse, ==_ne, arith,
}
use kernalite.Memory.{Mem, load8, SameOutside}
use kernalite.Print.{Progress, putc, convert, reached, round, vprintf_loop, vprintf}
use kernalite.Print.Text.{Sent, Sent-append, Sent-args, nothing-Sent, putc-Sent}
use kernalite.Print.Render.{
  Apart, Converts, hex, pointer, character, string, null_string, natural, negative, unsigned,
  percent, IsUnknown, Renders, ended, plain, newline, directive, long, unknown,
}
use kernalite.Print.Convert.{agree, IsSent, convert-IsSent, convert_unknown}

-- From `enough` fuel on, the loop at `p` prints `cs`, in every state whose memory is `m` outside the
-- buffer.
abbrev Loops : Mem → ℕ → ℕ → ℕ → List ℕ → List ℕ → List ℕ → Type 0
Loops m buf p enough args cs rest =
    (fuel : ℕ) (s : Progress)
    → enough ≤ fuel
    → s.args ≡ args
    → SameOutside buf (buf + 64) m s.mem
    → IsSent buf cs rest s (vprintf_loop fuel buf p s)

-- One round prints `ds` and stops at `last`.
abbrev IsRound : Mem → ℕ → ℕ → ℕ → ℕ → List ℕ → List ℕ → List ℕ → Type 0
IsRound m buf p last enough args ds args' =
    (fuel : ℕ) (s : Progress)
    → enough ≤ fuel
    → s.args ≡ args
    → SameOutside buf (buf + 64) m s.mem
    → (s' : Progress) × (round fuel buf p s ≡ some (s', last)) × Sent buf ds args' s s'

Loops-step :
    {m : Mem} {buf p last next e k : ℕ} {args args' ds cs rest : List ℕ}
    → Apart buf p p
    → load8 m p ≢ 0
    → next ≡ last + 1
    → IsRound m buf p last e args ds args'
    → Loops m buf next k args' cs rest
    → Loops m buf p (suc (e + k)) args (ds ++ cs) rest
unfolding vprintf_loop
Loops-step o ne n first others zero s f x same = absurd (omega arith)
Loops-step {m} {buf} {p} {k} o ne n first others (suc fuel) s f x same =
    let (s', r, sent) = first fuel s (omega arith) x same in
    let more = others fuel s' (omega arith) sent.args_left (λ a b. sent.frame a b ∙ same a b) in
    let (s'', r', sent') = rw n at more in
    let here : load8 s.mem p ≢ 0 =
      rw (agree buf p p p m s.mem o (omega arith) (omega arith) same) ne in
    (s'', rw (==_ne _ _ here, r) r', Sent-append sent sent')

plain-IsRound :
    (m : Mem) (buf p : ℕ) (args : List ℕ)
    → Apart buf p p
    → load8 m p ≢ b'%'
    → load8 m p ≢ b'\n'
    → IsRound m buf p p 0 args (load8 m p ∷ []) args
unfolding round
plain-IsRound m buf p args o ne ne' fuel s f x same =
    let here = agree buf p p p m s.mem o (omega arith) (omega arith) same in
    (
      putc (load8 m p) s,
      rw (here, ==_ne _ _ ne, ==_ne _ _ ne') refl,
      Sent-args x (putc-Sent buf (load8 m p) s),
    )

newline-IsRound :
    (m : Mem) (buf p : ℕ) (args : List ℕ)
    → Apart buf p p
    → load8 m p ≡ b'\n'
    → IsRound m buf p p 0 args (b'\r' ∷ b'\n' ∷ []) args
unfolding round
newline-IsRound m buf p args o e fuel s f x same =
    let here : load8 s.mem p ≡ b'\n' =
      agree buf p p p m s.mem o (omega arith) (omega arith) same ∙ e in
    let h = Sent-append (putc-Sent buf b'\r' s) (putc-Sent buf b'\n' (putc b'\r' s)) in
    (putc b'\n' (putc b'\r' s), rw here refl, Sent-args x h)

reached-IsRound :
    {buf : ℕ} {ds args : List ℕ} {s : Progress} {r : Option Progress} (last : ℕ)
    → IsSent buf ds args s r
    → (s' : Progress) × (reached last r ≡ some (s', last)) × Sent buf ds args s s'
reached-IsRound last (s', e, h) = (s', rw e refl, h)

Converts-not_long :
    {m : Mem} {buf chr : ℕ} {args ds args' : List ℕ}
    → Converts m buf chr args ds args'
    → (chr ≢ b'l') × (chr ≢ 0)
Converts-not_long (hex l t) = ground arith
Converts-not_long (pointer l t) = ground arith
Converts-not_long character = ground arith
Converts-not_long (string a b c) = ground arith
Converts-not_long null_string = ground arith
Converts-not_long (natural l t) = ground arith
Converts-not_long (negative h l t) = ground arith
Converts-not_long (unsigned l t) = ground arith
Converts-not_long percent = ground arith

directive-IsRound :
    (m : Mem) (buf p : ℕ) (args ds args' : List ℕ)
    → Apart buf p (p + 1)
    → load8 m p ≡ b'%'
    → Converts m buf (load8 m (p + 1)) args ds args'
    → (e : ℕ) × IsRound m buf p (p + 1) e args ds args'
unfolding round
directive-IsRound m buf p args ds args' o pc c =
    let (e, converted) = convert-IsSent buf _ args ds args' m c in
    (
      e,
      λ fuel s f x same.
          let here : load8 s.mem p ≡ b'%' =
            agree buf p (p + 1) p m s.mem o (omega arith) (omega arith) same ∙ pc in
          let next = agree buf p (p + 1) (p + 1) m s.mem o (omega arith) (omega arith) same in
          rw (here, next, ==_ne _ _ (Converts-not_long c).0)
            (reached-IsRound (p + 1) (converted fuel s f x same)),
    )

long-IsRound :
    (m : Mem) (buf p : ℕ) (args ds args' : List ℕ)
    → Apart buf p (p + 2)
    → load8 m p ≡ b'%'
    → load8 m (p + 1) ≡ b'l'
    → load8 m (p + 2) ≡ b'x'
    → Converts m buf b'x' args ds args'
    → (e : ℕ) × IsRound m buf p (p + 2) e args ds args'
unfolding round convert
long-IsRound m buf p args ds args' o pc lc xc c =
    let (e, converted) = convert-IsSent buf _ args ds args' m c in
    (
      e,
      λ fuel s f x same.
          let here : load8 s.mem p ≡ b'%' =
            agree buf p (p + 2) p m s.mem o (omega arith) (omega arith) same ∙ pc in
          let next : load8 s.mem (p + 1) ≡ b'l' =
            agree buf p (p + 2) (p + 1) m s.mem o (omega arith) (omega arith) same ∙ lc in
          let third : load8 s.mem (p + 2) ≡ b'x' =
            agree buf p (p + 2) (p + 2) m s.mem o (omega arith) (omega arith) same ∙ xc in
          rw (here, next, third) (reached-IsRound (p + 2) (converted fuel s f x same)),
    )

unknown-IsRound :
    (m : Mem) (buf p : ℕ) (args : List ℕ)
    → Apart buf p (p + 1)
    → load8 m p ≡ b'%'
    → IsUnknown (load8 m (p + 1))
    → IsRound m buf p (p + 1) 0 args (b'%' ∷ load8 m (p + 1) ∷ []) args
unfolding round
unknown-IsRound m buf p args o pc u fuel s f x same =
    let here : load8 s.mem p ≡ b'%' =
      agree buf p (p + 1) p m s.mem o (omega arith) (omega arith) same ∙ pc in
    let next = agree buf p (p + 1) (p + 1) m s.mem o (omega arith) (omega arith) same in
    let chr = load8 m (p + 1) in
    let h = Sent-append (putc-Sent buf b'%' s) (putc-Sent buf chr (putc b'%' s)) in
    (
      putc chr (putc b'%' s),
      rw (here, next, ==_ne _ _ u.not_long, convert_unknown fuel buf chr s u) refl,
      Sent-args x h,
    )

Loops-ended :
    {m : Mem} {buf p : ℕ} {args : List ℕ}
    → Apart buf p p
    → load8 m p ≡ 0
    → Loops m buf p 1 args [] args
unfolding vprintf_loop
Loops-ended o e zero s f x same = absurd (omega arith)
Loops-ended {m} {buf} {p} o e (suc fuel) s f x same =
    let here : load8 s.mem p ≡ 0 = agree buf p p p m s.mem o (omega arith) (omega arith) same ∙ e in
    (s, rw here refl, Sent-args x (nothing-Sent buf s))

Renders-Loops :
    (m : Mem) (buf p : ℕ) (args cs : List ℕ)
    → Renders m buf p args cs
    → (rest : List ℕ) × (enough : ℕ) × Loops m buf p enough args cs rest
unfolding vprintf_loop
Renders-Loops m buf p args _ (ended o e) = (args, 1, Loops-ended o e)
Renders-Loops m buf p args _ (plain o nz np nn r) =
    let (rest, k, others) = Renders-Loops m buf (p + 1) args _ r in
    (rest, suc (0 + k), Loops-step o nz refl (plain-IsRound m buf p args o np nn) others)
Renders-Loops m buf p args _ (newline o e r) =
    let (rest, k, others) = Renders-Loops m buf (p + 1) args _ r in
    (
      rest,
      suc (0 + k),
      Loops-step o (rw e (omega arith)) refl (newline-IsRound m buf p args o e) others,
    )
Renders-Loops m buf p args _ (directive {args'} {ds} {cs} o pc c r) =
    let (rest, k, others) = Renders-Loops m buf (p + 2) args' cs r in
    let (e, first) = directive-IsRound m buf p args ds args' o pc c in
    (rest, suc (e + k), Loops-step (omega arith) (rw pc (omega arith)) (omega arith) first others)
Renders-Loops m buf p args _ (long {args'} {ds} {cs} o pc lc xc c r) =
    let (rest, k, others) = Renders-Loops m buf (p + 3) args' cs r in
    let (e, first) = long-IsRound m buf p args ds args' o pc lc xc c in
    (rest, suc (e + k), Loops-step (omega arith) (rw pc (omega arith)) (omega arith) first others)
Renders-Loops m buf p args _ (unknown o pc u r) =
    let (rest, k, others) = Renders-Loops m buf (p + 2) args _ r in
    (
      rest,
      suc (0 + k),
      Loops-step (omega arith) (rw pc (omega arith)) (omega arith)
          (unknown-IsRound m buf p args o pc u) others,
    )

-- From some amount of fuel on, `vprintf` prints the text that the format and its arguments stand
-- for, character by character, and returns the number of characters.
pub vprintf-Renders :
    (m : Mem) (buf format : ℕ) (args cs : List ℕ)
    → Renders m buf format args cs
    → (enough : ℕ) × ((fuel : ℕ)
        → enough ≤ fuel
        → vprintf fuel true buf format args m ≡ some (length cs, reverse cs))
unfolding vprintf
vprintf-Renders m buf format args cs r =
    let (rest, enough, loops) = Renders-Loops m buf format args cs r in
    (
      enough,
      λ fuel f.
          let (s', e, h) =
            loops fuel (record { sent = []; printed = 0; args = args; mem = m }) f refl
              (λ a o. refl) in
          rw (e, h.sent, h.printed)
            (ap some (ap (λ (n : ℕ). (n, reverse_aux cs [])) (omega arith))),
    )
