-- ===== src/Print/Reversal.antt =====
-- The second loop of `itoa`: exchanging the ends reverses the characters between two pointers.
use kernalite.Base.{
  ℕ, zero, suc, ◌+◌, ◌-◌, ◌≤◌, ◌<◌, ◌≡◌, refl, ◌⊎◌, some, arith, ap, ◌∙◌, ℕ_discrete, dec_lt,
  lt→ltb, ge→ltb,
}
use kernalite.Memory.{Mem, store, SameOutside}
use kernalite.Print.{reverse_loop}

pub store_here : (m : Mem) (p v : ℕ) → store m p v p ≡ v
unfolding store
store_here m p v = ground arith

pub store-SameOutside : (m : Mem) (p v : ℕ) → SameOutside p (p + 1) m (store m p v)
unfolding store
store-SameOutside m p v a o = ground arith

abbrev exchange : Mem → ℕ → ℕ → Mem
exchange m p q = store (store m p (m q)) q (m p)

exchange-SameOutside :
    (m : Mem) (p q : ℕ) → p < q → (a : ℕ) → (a < p) ⊎ (q + 1 ≤ a) → exchange m p q a ≡ m a
unfolding store
exchange-SameOutside m p q h a o = ground arith

-- The ends exchanged around a middle that is reversed.
swapped :
    (m m' : Mem) (p q : ℕ)
    → p < q
    → ((i : ℕ) → p + 1 ≤ i → i ≤ q - 1 → m' i ≡ exchange m p q (p + 1 + (q - 1) - i))
    → SameOutside (p + 1) (q - 1 + 1) (exchange m p q) m'
    → (i : ℕ) → p ≤ i
    → i ≤ q
    → m' i ≡ m (p + q - i)
unfolding store
swapped m m' p q h reversed same i low high = elim (ℕ_discrete i p) [
  | yes e ↦ let there : p + q - i ≡ q = omega arith in ground (arith, same i (omega arith))
  | no e ↦ elim (ℕ_discrete i q) [
    | yes f ↦ let there : p + q - i ≡ p = omega arith in ground (arith, same i (omega arith))
    | no f ↦
        let there : p + 1 + (q - 1) - i ≡ p + q - i = omega arith in
        ground (arith, reversed i (omega arith) (omega arith))
  ]
]

-- Swapping from both ends reverses the characters from `p` to `q`.
pub reverse_loop_lem :
    (fuel p q : ℕ) (m : Mem)
    → q + 2 ≤ p + fuel + fuel
    → p ≤ q + 1
    → (m' : Mem) × (reverse_loop fuel p q m ≡ some m')
      × ((i : ℕ) → p ≤ i → i ≤ q → m' i ≡ m (p + q - i))
      × SameOutside p (q + 1) m m'
unfolding reverse_loop store
reverse_loop_lem zero p q m l k = absurd (omega arith)
reverse_loop_lem (suc fuel) p q m l k = elim (dec_lt p q) [
  | yes h ↦
      let (m', result, reversed, same) =
        reverse_loop_lem fuel (p + 1) (q - 1) (exchange m p q) (omega arith) (omega arith) in
      (
        m',
        rw (lt→ltb p q h) result,
        swapped m m' p q h reversed same,
        λ a o. same a (omega arith) ∙ exchange-SameOutside m p q h a o,
      )
  | no h ↦ (m, rw (ge→ltb p q (omega arith)) refl, λ i low high. ap m (omega arith), λ a o. refl)
]
