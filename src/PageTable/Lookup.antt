-- ===== src/PageTable/Lookup.antt =====
-- The walk of the tables by the number of a page, level by level from the root down.
use kernalite.Base.{
  ℕ, zero, suc, ◌*◌, ◌/◌, ◌%◌, ◌^◌, ◌<◌, ◌≡◌, ◌∙◌, refl, Option, none, some, arith,
}
use kernalite.Memory.{Mem}
use kernalite.PageTable.{entry_at, index_of}
use kernalite.PageTable.Walk.{next_table, leaf_at, translate, index_of-mod}

abbrev pub and_then : Option ℕ → (ℕ → Option ℕ) → Option ℕ
and_then o f = elim o [ none ↦ none | some x ↦ f x ]

and_then_assoc :
    (o : Option ℕ) (f g : ℕ → Option ℕ)
    → and_then (and_then o f) g ≡ and_then o (λ x. and_then (f x) g)
and_then_assoc none f g = refl
and_then_assoc (some x) f g = refl

-- The descriptor of page `n`, from a table with `below` levels below it.
unfoldable pub lookup : ℕ → Mem → ℕ → ℕ → Option ℕ
lookup zero m t n = leaf_at m (entry_at t (n % 512))
lookup (suc below) m t n =
    and_then (next_table m (entry_at t (n / 512 ^ suc below % 512))) (λ u. lookup below m u n)

walk : Mem → ℕ → ℕ → ℕ → ℕ → ℕ → Option ℕ
walk m root a b c d =
    and_then
      (and_then (and_then (next_table m (entry_at root a)) (λ t. next_table m (entry_at t b)))
        (λ t. next_table m (entry_at t c)))
      (λ t. leaf_at m (entry_at t d))

walk-lookup :
    (m : Mem) (root n : ℕ)
    → walk m root (n / 512 ^ 3 % 512) (n / 512 ^ 2 % 512) (n / 512 ^ 1 % 512) (n % 512)
      ≡ lookup 3 m root n
unfolding walk lookup
walk-lookup m root n =
    let second = λ (t : ℕ). next_table m (entry_at t (n / 512 ^ 2 % 512)) in
    let third = λ (t : ℕ). next_table m (entry_at t (n / 512 ^ 1 % 512)) in
    let last = λ (t : ℕ). leaf_at m (entry_at t (n % 512)) in
    let first = next_table m (entry_at root (n / 512 ^ 3 % 512)) in
    and_then_assoc (and_then first second) third last
    ∙ and_then_assoc first second (λ t. and_then (third t) last)

at_indices :
    (m : Mem) (root v n : ℕ)
    → index_of v 39 ≡ n / 512 ^ 3 % 512
    → index_of v 30 ≡ n / 512 ^ 2 % 512
    → index_of v 21 ≡ n / 512 ^ 1 % 512
    → index_of v 12 ≡ n % 512
    → walk m root (index_of v 39) (index_of v 30) (index_of v 21) (index_of v 12)
      ≡ walk m root (n / 512 ^ 3 % 512) (n / 512 ^ 2 % 512) (n / 512 ^ 1 % 512) (n % 512)
at_indices m root v n e39 e30 e21 e12 = cc

pub translate-lookup :
    (m : Mem) (root n : ℕ) → n < 2 ^ 36 → translate m root (n * 2 ^ 12) ≡ lookup 3 m root n
unfolding translate walk
translate-lookup m root n h =
    let v = n * 2 ^ 12 in
    let e12 : index_of v 12 ≡ n % 512 = omega (arith, index_of-mod v 12) in
    let e21 : index_of v 21 ≡ n / 512 ^ 1 % 512 = omega (arith, index_of-mod v 21) in
    let e30 : index_of v 30 ≡ n / 512 ^ 2 % 512 = omega (arith, index_of-mod v 30) in
    let e39 : index_of v 39 ≡ n / 512 ^ 3 % 512 = omega (arith, index_of-mod v 39) in
    let same : translate m root v
        ≡ walk m root (index_of v 39) (index_of v 30) (index_of v 21) (index_of v 12) =
      refl in
    same ∙ at_indices m root v n e39 e30 e21 e12 ∙ walk-lookup m root n
