-- ===== src/PageTable/Lens.antt =====
-- Reads and assignments of bit fields of any offset and width.
use native.Mathlib.Nat.{
  mul-add-div_right, div-add-mod', div-lt_iff_lt-mul, one-le-pow, div-eq_of_lt-le,
  mul-add-mod_self_right, mod-lt, mod-eq_of_lt, div-div-eq-div-mul, mul-le-mul_left,
}
use kernalite.Base.{ℕ, ◌+◌, ◌-◌, ◌*◌, ◌/◌, ◌%◌, ◌^◌, ◌≤◌, ◌<◌, ◌≡◌, sym, ap, ◌∙◌, arith}
use mathlib.Core.Path.{subst}
use kernalite.Fields.{pow_add}
use kernalite.PageTable.Descriptor.{Field, get, put}

-- A word of three parts: `l` below `p`, then `x` below `q`, then `h`.
module _ (p q h x l : ℕ) (small : x < q) (below : l < p) where
  abbrev word : ℕ
  word = h * (p * q) + x * p + l

  regrouped : word ≡ (h * q + x) * p + l
  regrouped = grind arith

  under : x * p + l < p * q
  under = let fits : p * (x + 1) ≤ p * q = mul-le-mul_left p (omega arith) in grind (arith, fits)

  high_part : word / (p * q) ≡ h
  high_part = div-eq_of_lt-le (p * q) (omega arith) (omega (arith, under))

  low_part : word % p ≡ l
  low_part =
      ap (λ (t : ℕ). t % p) regrouped ∙ mul-add-mod_self_right (h * q + x) p l ∙ mod-eq_of_lt below

  middle_part : word / p % q ≡ x
  middle_part =
      let quotient : word / p ≡ h * q + x =
        ap (λ (t : ℕ). t / p) regrouped ∙ div-eq_of_lt-le p (omega arith) (omega (arith, below)) in
      ap (λ (t : ℕ). t % q) quotient ∙ mul-add-mod_self_right h q x ∙ mod-eq_of_lt small

-- A field depends only on the bits from its lowest one on, and on those below its end.
get-above :
    (g : Field) (o v : ℕ) → o ≤ g.offset → get g v ≡ v / 2 ^ o / 2 ^ (g.offset - o) % 2 ^ g.width
get-above g o v h =
    let sum : 2 ^ g.offset ≡ 2 ^ o * 2 ^ (g.offset - o) =
      ap (λ (t : ℕ). 2 ^ t) {x = g.offset} {y = o + (g.offset - o)} (omega arith)
      ∙ pow_add 2 o (g.offset - o) in
    ap (λ (t : ℕ). v / t % 2 ^ g.width) sum
    ∙ ap (λ (t : ℕ). t % 2 ^ g.width) (sym (div-div-eq-div-mul v (2 ^ o) (2 ^ (g.offset - o))))

-- The bits from `2 ^ (low + w + r)` on do not matter to the `w` bits from `low` on.
bits_below : (low w r k s : ℕ) → (k * 2 ^ (low + w + r) + s) / 2 ^ low % 2 ^ w ≡ s / 2 ^ low % 2 ^ w
bits_below low w r k s =
    let p : ℕ = 2 ^ low in
    let q : ℕ = 2 ^ w in
    let split : k * 2 ^ (low + w + r) ≡ k * 2 ^ r * q * p =
      ap (λ (t : ℕ). k * t) (pow_add 2 (low + w) r ∙ ap (λ (t : ℕ). t * 2 ^ r) (pow_add 2 low w))
      ∙ regroup k p q (2 ^ r) in
    ap (λ (t : ℕ). (t + s) / p % q) split
    ∙ ap (λ (t : ℕ). t % q) (mul-add-div_right (one-le-pow low 2 (omega arith)) (k * 2 ^ r * q) s)
    ∙ mul-add-mod_self_right (k * 2 ^ r) q (s / p)
  where
    regroup : (k p q r : ℕ) → k * (p * q * r) ≡ k * r * q * p
    regroup k p q r = grind arith

get-below : (g : Field) (o v : ℕ) → g.offset + g.width ≤ o → get g v ≡ get g (v % 2 ^ o)
get-below g o v h =
    let rest : ℕ = o - (g.offset + g.width) in
    let top : o ≡ g.offset + g.width + rest = omega arith in
    let parts : v ≡ v / 2 ^ o * 2 ^ (g.offset + g.width + rest) + v % 2 ^ o =
      sym (div-add-mod' v (2 ^ o)) ∙ ap (λ (t : ℕ). v / 2 ^ o * 2 ^ t + v % 2 ^ o) top in
    ap (get g) parts ∙ bits_below g.offset g.width rest (v / 2 ^ o) (v % 2 ^ o)

module _ (f : Field) (x v : ℕ) where
  abbrev p : ℕ
  p = 2 ^ f.offset

  abbrev q : ℕ
  q = 2 ^ f.width

  abbrev end : ℕ
  end = f.offset + f.width

  cut : x % q < q
  cut = mod-lt x (one-le-pow f.width 2 (omega arith))

  rest_lt : v % p < p
  rest_lt = mod-lt v (one-le-pow f.offset 2 (omega arith))

  put_parts : put f x v ≡ v / 2 ^ end * (p * q) + x % q * p + v % p
  put_parts = ap (λ (t : ℕ). v / 2 ^ end * t + x % q * p + v % p) (pow_add 2 f.offset f.width)

  -- The field has the value, cut to its width.
  pub get-put : get f (put f x v) ≡ x % q
  get-put =
      ap (λ (t : ℕ). t / p % q) put_parts
      ∙ middle_part p q (v / 2 ^ end) (x % q) (v % p) cut rest_lt

  put_high : put f x v / 2 ^ end ≡ v / 2 ^ end
  put_high =
      ap (λ (t : ℕ). put f x v / t) (pow_add 2 f.offset f.width)
      ∙ ap (λ (t : ℕ). t / (p * q)) put_parts
      ∙ high_part p q (v / 2 ^ end) (x % q) (v % p) cut rest_lt

  put_low : put f x v % p ≡ v % p
  put_low = ap (λ (t : ℕ). t % p) put_parts ∙ low_part p q (v / 2 ^ end) (x % q) (v % p) cut rest_lt

  -- A field on either side of it keeps its value.
  pub get-put_above : (g : Field) → end ≤ g.offset → get g (put f x v) ≡ get g v
  get-put_above g h =
      get-above g end (put f x v) h
      ∙ ap (λ (t : ℕ). t / 2 ^ (g.offset - end) % 2 ^ g.width) put_high
      ∙ sym (get-above g end v h)

  pub get-put_below : (g : Field) → g.offset + g.width ≤ f.offset → get g (put f x v) ≡ get g v
  get-put_below g h =
      get-below g f.offset (put f x v) h ∙ ap (get g) put_low ∙ sym (get-below g f.offset v h)

  -- The result is a word of 64 bits if the field lies in it.
  pub put_lt : end ≤ 64 → v < 2 ^ 64 → put f x v < 2 ^ 64
  put_lt h l =
      let sum : 2 ^ 64 ≡ 2 ^ end * 2 ^ (64 - end) =
        ap (λ (t : ℕ). 2 ^ t) {x = 64} {y = end + (64 - end)} (omega arith)
        ∙ pow_add 2 end (64 - end) in
      let pos = one-le-pow end 2 (omega arith) in
      let room : v < 2 ^ (64 - end) * 2 ^ end = omega (arith, sum) in
      let high : v / 2 ^ end < 2 ^ (64 - end) = (div-lt_iff_lt-mul pos).1 room in
      let bound = (div-lt_iff_lt-mul pos).0 (subst (λ t. t < 2 ^ (64 - end)) (sym put_high) high) in
      omega (arith, sum, bound)
