-- ===== src/Runner/Passes.antt =====
-- The mapping test on page tables: it passes as long as there is memory, and then everything is mapped.
use kernalite.Base.{
  ℕ, zero, suc, fun_ext, ◌+◌, ◌%◌, ◌^◌, ◌<◌, ◌≤◌, ◌≡◌, ◌≢◌, ◌↔◌, refl, ◌∙◌, ◌⊎◌, inl, inr, some,
  List, [], ◌∷◌, All, Bool, true, false, ==_ne, arith,
}
use kernalite.Memory.{Mem, store64}
use kernalite.Allocator.{Allocator, page_size, page_alloc}
use kernalite.PageTable.{init_loop, page_table_init, entry_at}
use kernalite.PageTable.Leaf.{descriptor, descriptor_fields}
use kernalite.PageTable.Walk.{page_number, translate}
use kernalite.PageTable.Tree.{IsPool, IsTree}
use kernalite.PageTable.Next.{IsFull}
use kernalite.PageTable.Root.{FreeApart, page_table_init-page_alloc}
use mathlib.Core.Path.{subst}
use kernalite.PageTable.Map.{map_page-IsOutcome}
use kernalite.Runner.Verify.{IsConfirmed, not_null, verify_map-translate, verify_map-IsConfirmed}
use kernalite.Runner.{
  verify_map, test_page_table_mapping, Mapping, expect_all, page_table_map, mappings,
  run_internal_tests, run_suites, suites_loop, tests_loop,
}

-- A request that `map_page` does not refuse, for an address of 48 bits.
abbrev pub IsRequest : Mapping → Type 0
IsRequest t = (t.phy_addr % page_size ≡ 0) × (t.phy_addr < 2 ^ 48)

-- The page of the request is translated by the descriptor for the page of memory and the permissions.
abbrev pub IsTranslated : Mem → ℕ → Mapping → Type 0
IsTranslated m root t = translate m root t.v_addr ≡ some (descriptor t.phy_addr t.perms)

-- The requests are for different pages.
abbrev IsSpread : List Mapping → Type 0
IsSpread [] = Unit {0}
IsSpread (t ∷ ts) = All (λ u. page_number t.v_addr ≢ page_number u.v_addr) ts × IsSpread ts

-- All requests are mapped, and no other page is translated in another way than before.
record IsPassed (a : Allocator) (root : ℕ) (ts : List Mapping) (m m' : Mem) : Type 0 where
  pub tree : IsTree a m' root
  pub mapped : All (IsTranslated m' root) ts
  pub others :
      (v : ℕ)
      → All (λ t. page_number v ≢ page_number t.v_addr) ts
      → translate m' root v ≡ translate m root v

-- The requests passed, or one failed and no page of the region is left.
abbrev IsVerdict : Allocator → ℕ → List Mapping → Mem → Bool × Mem → Type 0
IsVerdict a root ts m r =
    ((r.0 ≡ true) × IsPassed a root ts m r.1) ⊎ ((r.0 ≡ false) × IsTree a r.1 root × IsFull a r.1)

test_page_table_mapping-IsVerdict :
    (a : Allocator) (m : Mem) (root : ℕ) (t : Mapping)
    → IsPool a
    → IsTree a m root
    → IsRequest t
    → IsVerdict a root (t ∷ []) m (test_page_table_mapping a root t.v_addr t.phy_addr t.perms m)
unfolding test_page_table_mapping
test_page_table_mapping-IsVerdict a m root t pool tree (aligned, small) =
    let ready = not_null [] pool tree (tt, omega arith) refl in
    rw (==_ne _ _ ready)
      (elim (map_page-IsOutcome root t.v_addr t.phy_addr t.perms pool m tree aligned) [
        | inl (e, h) ↦
            let address = (descriptor_fields t.phy_addr t.perms small aligned).2 in
            let verified =
              verify_map-translate a _ root t.v_addr _ pool h.tree (h.mapped t.v_addr refl) in
            let confirmed = rw address at verified in
            rw e (
              inl (
                confirmed,
                record {
                  tree = h.tree;
                  mapped = (h.mapped t.v_addr refl, tt);
                  others = λ v ne. h.others v ne.0;
                },
              ))
        | inr (e, h) ↦ rw e (inr (refl, h.tree, h.full))
      ])

-- A mapping and the ones behind it.
IsPassed-both :
    (a : Allocator) (root : ℕ) (t : Mapping) (ts : List Mapping) (m m' m'' : Mem)
    → All (λ u. page_number t.v_addr ≢ page_number u.v_addr) ts
    → IsPassed a root (t ∷ []) m m'
    → IsPassed a root ts m' m''
    → IsPassed a root (t ∷ ts) m m''
IsPassed-both a root t ts m m' m'' apart first rest = record {
  tree = rest.tree;
  mapped = (rest.others t.v_addr apart ∙ first.mapped.0, rest.mapped);
  others = λ v ne. rest.others v ne.1 ∙ first.others v (ne.0, tt);
}

expect_all-IsVerdict :
    (a : Allocator) (root : ℕ) (ts : List Mapping) (m : Mem)
    → IsPool a
    → IsTree a m root
    → All IsRequest ts
    → IsSpread ts
    → IsVerdict a root ts m (expect_all a root ts m)
unfolding expect_all
expect_all-IsVerdict a root [] m pool tree h s =
    inl (refl, record { tree = tree; mapped = tt; others = λ v ne. refl })
expect_all-IsVerdict a root (t ∷ ts) m pool tree (here, h) (apart, s) =
    elim (test_page_table_mapping-IsVerdict a m root t pool tree here) [
      | inl (e, first) ↦ rw e (elim (expect_all-IsVerdict a root ts _ pool first.tree h s) [
        | inl (d, rest) ↦ inl (d, IsPassed-both a root t ts m _ _ apart first rest)
        | inr failed ↦ inr failed
      ])
      | inr (e, tree', full) ↦ rw e (inr (refl, tree', full))
    ]

mappings-IsRequest : All IsRequest mappings
mappings-IsRequest = ground arith

mappings-IsSpread : IsSpread mappings
mappings-IsSpread = ground arith

-- The bytes of the page at `t` are 0.
abbrev pub IsBlank : Mem → ℕ → Type 0
IsBlank m t = (p : ℕ) → t ≤ p → p < t + page_size → m p ≡ 0

store64_blank : (m : Mem) (p : ℕ) → ((q : ℕ) → p ≤ q → q < p + 8 → m q ≡ 0) → store64 m p 0 ≡ m
unfolding store64
store64_blank m p h = fun_ext (λ q. ground (arith, h q))

init_loop_blank :
    (t rounds i : ℕ) (m : Mem) → i + rounds ≤ 512 → IsBlank m t → init_loop t rounds i m ≡ m
unfolding init_loop
init_loop_blank t zero i m l h = refl
init_loop_blank t (suc rounds) i m l h =
    rw (store64_blank m (entry_at t i) (λ q low high. h q (omega arith) (omega arith)))
      (init_loop_blank t rounds (i + 1) m (omega arith) h)

-- A page of zeros from the allocator is an empty root table.
blank-IsTree :
    (a : Allocator) (m : Mem)
    → IsPool a
    → FreeApart a m
    → (page_alloc a 1 m).0 ≢ 0
    → IsBlank (page_alloc a 1 m).1 (page_alloc a 1 m).0
    → IsTree a (page_alloc a 1 m).1 (page_alloc a 1 m).0
blank-IsTree a m pool apart ok blank =
    let (root, m') = page_alloc a 1 m in
    let same : page_table_init root m' ≡ m' =
      unfold page_table_init in init_loop_blank root 512 0 m' (omega arith) blank in
    subst (λ x. IsTree a x root) same (page_table_init-page_alloc a m pool apart ok).0

-- On an initialised allocator with addresses below `2 ^ 48` and no byte of the bitmap in a free page,
-- if there is a page for the root, and that page is full of zeros, as the test does not clear it: the kernel's tests exit with code 0, and then each of the twelve pages is translated by
-- the descriptor for the page of memory and the permissions that it was mapped with, or they exit with
-- code 1, and then no page of the region is left. The tables that result are a tree, on which
-- `verify_map` confirms an address exactly if it stands in the entry at level 3.
pub run_internal_tests-outcome :
    (a : Allocator) (m : Mem) (v pa : ℕ)
    → IsPool a
    → FreeApart a m
    → (page_alloc a 1 m).0 ≢ 0
    → IsBlank (page_alloc a 1 m).1 (page_alloc a 1 m).0
    → let root = (page_alloc a 1 m).0 in
      let (code, m') = run_internal_tests a m in
      (((code ≡ 0) × All (IsTranslated m' root) mappings) ⊎ ((code ≡ 1) × IsFull a m'))
      × IsTree a m' root
      × ((verify_map root v pa m' ≡ true) ↔ IsConfirmed m' root v pa)
unfolding run_internal_tests run_suites suites_loop tests_loop page_table_map
run_internal_tests-outcome a m v pa pool apart ok blank =
    let root = (page_alloc a 1 m).0 in
    let tree = blank-IsTree a m pool apart ok blank in
    elim (expect_all-IsVerdict a root mappings (page_alloc a 1 m).1 pool tree mappings-IsRequest
      mappings-IsSpread) [
        | inl (e, passed) ↦ (
          inl (rw e refl, passed.mapped),
          passed.tree,
          verify_map-IsConfirmed a _ root v pa pool passed.tree,
        )
        | inr (e, tree', full) ↦
            (inr (rw e refl, full), tree', verify_map-IsConfirmed a _ root v pa pool tree')
      ]
