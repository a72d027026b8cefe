-- ===== src/PageTable/Listing.antt =====
-- `dump_memory_map` against the translation: the lines are those of the mapped pages, in the order
-- of their addresses.
use kernalite.Base.{
  ℕ, zero, suc, ◌+◌, ◌-◌, ◌*◌, ◌/◌, ◌%◌, ◌^◌, ◌<◌, ◌≤◌, ◌≡◌, ◌∙◌, sym, ap, ap₂, fun_ext, refl,
  Option, none, some, List, [], ◌∷◌, ◌++◌, append-nil, arith,
}
use native.Mathlib.Nat.{div-eq_of_lt-le, pow-suc}
use kernalite.Memory.{Mem}
use kernalite.PageTable.{entry_at}
use kernalite.PageTable.Walk.{next_table, leaf_at, translate}
use kernalite.PageTable.Dump.{
  Line, line, level_shift, partial_v_addr_lem, dump_loop, dump_memory_map, dump_loop-end,
  dump_loop-leaf, dump_loop-node,
}
use kernalite.PageTable.Collect.{collect, collect-cong, collect-nil, collect-suc}
use kernalite.PageTable.Lookup.{and_then, lookup, translate-lookup}

-- The line of page `n`, where its descriptor is `d`.
abbrev pub page_line : ℕ → Option ℕ → List Line
page_line n none = []
page_line n (some d) = line (n * 2 ^ 12) d ∷ []

page_lines : ℕ → Mem → ℕ → ℕ → List Line
page_lines below m t n = page_line n (lookup below m t n)

-- The pages below one entry.
block :
    (below i a : ℕ)
    → a % 512 ≡ i
    → (n : ℕ) → a * 512 ^ below ≤ n
    → n < a * 512 ^ below + 512 ^ below
    → n / 512 ^ below % 512 ≡ i
block below i a e n low high =
    let here : n / 512 ^ below ≡ a = div-eq_of_lt-le (512 ^ below) low (omega arith) in rw here e

wide :
    (below i q : ℕ)
    → below < 3
    → i < 512
    → q < 2 ^ (9 * (3 - suc below))
    → q * 512 + i < 2 ^ (9 * (3 - below))
wide zero i q l h k = omega arith
wide (suc zero) i q l h k = omega arith
wide (suc (suc zero)) i q l h k = omega arith
wide (suc (suc (suc below))) i q l h k = absurd (omega arith)

-- The pages below an entry of level 3, and of a level above it.
leaf_block :
    (m : Mem) (t i a : ℕ)
    → a % 512 ≡ i
    → collect (page_lines zero m t) (a * 512 ^ 0) (512 ^ 0) ≡ page_line a (leaf_at m (entry_at t i))
unfolding collect page_lines lookup
leaf_block m t i a e = let same : a * 1 ≡ a = omega arith in rw (same, e, append-nil) refl

node_block :
    (m : Mem) (below t i a : ℕ)
    → a % 512 ≡ i
    → collect (page_lines (suc below) m t) (a * 512 ^ suc below) (512 ^ suc below)
      ≡ elim (next_table m (entry_at t i)) as (λ o. List Line) [
        | none ↦ []
        | some u ↦ collect (page_lines below m u) (a * 512 ^ suc below) (512 ^ suc below)
      ]
unfolding page_lines lookup
node_block m below t i a e = go (next_table m (entry_at t i)) refl
  where
    same :
        (n : ℕ)
        → a * 512 ^ suc below ≤ n
        → n < a * 512 ^ suc below + 512 ^ suc below
        → lookup (suc below) m t n
          ≡ and_then (next_table m (entry_at t i)) (λ u. lookup below m u n)
    same n low high = rw (block (suc below) i a e n low high) refl

    go :
        (o : Option ℕ)
        → next_table m (entry_at t i) ≡ o
        → collect (page_lines (suc below) m t) (a * 512 ^ suc below) (512 ^ suc below)
          ≡ elim o as (λ o. List Line) [
            | none ↦ []
            | some u ↦ collect (page_lines below m u) (a * 512 ^ suc below) (512 ^ suc below)
          ]
    go none d = collect-nil _ _ _ (λ n low high. rw (same n low high, d) refl)
    go (some u) d = collect-cong _ _ _ _ (λ n low high. rw (same n low high, d) refl)

abbrev at_leaf : Option ℕ → ℕ → List Line
at_leaf o v_addr = elim o [ none ↦ [] | some d ↦ line v_addr d ∷ [] ]

abbrev at_node : Option ℕ → (ℕ → List Line) → List Line
at_node o f = elim o [ none ↦ [] | some u ↦ f u ]

-- The lines of the table below an entry, by the numbers of their pages.
inner_pages :
    (below a u v_addr_prefix : ℕ) (m : Mem)
    → v_addr_prefix ≡ a * 2 ^ level_shift (suc below)
    → dump_loop below 512 u 0 (a * 2 ^ level_shift (suc below)) m
      ≡ collect (page_lines below m u) ((a * 512 + 0) * 512 ^ below) (512 * 512 ^ below)
    → dump_loop below 512 u 0 v_addr_prefix m
      ≡ collect (page_lines below m u) (a * 512 ^ suc below) (512 ^ suc below)
inner_pages below a u v_addr_prefix m e h =
    let start : (a * 512 + 0) * 512 ^ below ≡ a * 512 ^ suc below =
      omega (arith, ap (λ (x : ℕ). a * x) (pow-suc 512 below)) in
    let count : 512 * 512 ^ below ≡ 512 ^ suc below = omega (arith, pow-suc 512 below) in
    ap (λ (x : ℕ). dump_loop below 512 u 0 x m) e
    ∙ h
    ∙ ap₂ (collect (page_lines below m u)) start count

dump_loop-collect :
    (below rounds t i q : ℕ) (m : Mem)
    → below < 4
    → i + rounds ≤ 512
    → q < 2 ^ (9 * (3 - below))
    → dump_loop below rounds t i (q * 2 ^ level_shift (suc below)) m
      ≡ collect (page_lines below m t) ((q * 512 + i) * 512 ^ below) (rounds * 512 ^ below)
unfolding collect
dump_loop-collect below zero t i q m b l h =
    let none_left : 0 * 512 ^ below ≡ 0 = omega arith in rw (none_left, dump_loop-end) refl
dump_loop-collect zero (suc rounds) t i q m b l h =
    let a = q * 512 + i in
    let next : q * 512 + (i + 1) ≡ a + 1 = omega arith in
    let rest = dump_loop-collect zero rounds t (i + 1) q m b (omega arith) h in
    let here = partial_v_addr_lem 0 i q b (omega arith) h in
    let first =
      ap (λ (x : ℕ). at_leaf (leaf_at m (entry_at t i)) x) here
      ∙ sym (leaf_block m t i a (omega arith)) in
    dump_loop-leaf rounds t i _ m
    ∙ ap₂ ◌++◌ first
        (rest ∙ ap (λ (x : ℕ). collect (page_lines zero m t) (x * 512 ^ 0) (rounds * 512 ^ 0)) next)
    ∙ sym (collect-suc (page_lines zero m t) a (512 ^ 0) rounds)
dump_loop-collect (suc below) (suc rounds) t i q m b l h =
    let a = q * 512 + i in
    let next : q * 512 + (i + 1) ≡ a + 1 = omega arith in
    let rest = dump_loop-collect (suc below) rounds t (i + 1) q m b (omega arith) h in
    let here = partial_v_addr_lem (suc below) i q b (omega arith) h in
    let inner = λ (u : ℕ). inner_pages below a u _ m here (
      dump_loop-collect below 512 u 0 a m (omega arith) (omega arith)
        (wide below i q (omega arith) (omega arith) h)) in
    let first =
      ap (λ (f : ℕ → List Line). at_node (next_table m (entry_at t i)) f) (fun_ext inner)
      ∙ sym (node_block m below t i a (omega arith)) in
    dump_loop-node below rounds t i _ m
    ∙ ap₂ ◌++◌ first (
        rest
        ∙ ap
            (λ (x : ℕ).
              collect (page_lines (suc below) m t) (x * 512 ^ suc below) (rounds * 512 ^ suc below))
            next)
    ∙ sym (collect-suc (page_lines (suc below) m t) a (512 ^ suc below) rounds)

-- The lines that `dump_memory_map` prints are those of the mapped pages, in the order of their
-- numbers: for every page below `2 ^ 36`, the line of the descriptor that the walk of the tables
-- finds for its address, and none where the page is not mapped.
pub dump_memory_map-translate :
    (root : ℕ) (m : Mem)
    → dump_memory_map root m ≡ collect (λ n. page_line n (translate m root (n * 2 ^ 12))) 0 (2 ^ 36)
unfolding dump_memory_map page_lines
dump_memory_map-translate root m =
    dump_loop-collect 3 512 root 0 0 m (omega arith) (omega arith) (omega arith)
    ∙ collect-cong _ _ 0 (2 ^ 36)
        (λ n low high. ap (page_line n) (sym (translate-lookup m root n high)))
