-- ===== src/Runner/Verify.antt =====
-- `verify_map` of the mapping test: it confirms the address that stands in the entry at level 3, and
-- no other. It does not look at the valid bit of that entry.
use kernalite.Base.{
  ℕ, ◌*◌, ◌^◌, ◌≡◌, ◌≢◌, ◌↔◌, refl, sym, ◌∙◌, Option, none, some, List, [], ◌∷◌, true, ==_ne,
  ==_of_eq, ℕ_discrete, arith,
}
use kernalite.Memory.{Mem, load64}
use kernalite.Allocator.{Allocator}
use kernalite.PageTable.{
  entry_at, index_of, read_field, follow, pa_to_va, get_page_table_entry_address,
}
use kernalite.PageTable.Descriptor.{get, valid, nlta_47_12}
use kernalite.PageTable.Walk.{
  next_table, leaf_at, table_at, path_of, translate, IsPath, path_of-IsPath, outer-IsPath,
  middle-IsPath, next_table-eq_some, translate-some, translate-none, table_at-parent, table_at-cons,
}
use kernalite.PageTable.Tree.{IsPool, IsTree}
use kernalite.Runner.{next_level_table, verify_map}

-- The table of level 3 for `v` exists, and its entry for `v` holds the address `pa`.
abbrev pub IsConfirmed : Mem → ℕ → ℕ → ℕ → Type 0
IsConfirmed m root v pa =
    (t : ℕ) × (table_at m root (path_of v) ≡ some t)
    × (get_page_table_entry_address (entry_at t (index_of v 12)) m ≡ pa)

-- An entry that leads to a table: its word is not 0, and the pointer is the table's.
entry_found :
    (m : Mem) (entry u : ℕ)
    → next_table m entry ≡ some u
    → (load64 m entry ≢ 0) × (next_level_table entry m ≡ u)
unfolding next_level_table read_field follow pa_to_va get_page_table_entry_address
entry_found m entry u h =
    let (v, e) = next_table-eq_some m entry u h in
    (λ z. v (rw z refl), rw (==_ne _ _ v) (omega (arith, e)))

-- The address in a descriptor.
leaf_found :
    (m : Mem) (entry d : ℕ)
    → leaf_at m entry ≡ some d
    → get_page_table_entry_address entry m ≡ get nlta_47_12 d * 2 ^ 12
unfolding leaf_at read_field get_page_table_entry_address
leaf_found m entry d h = let e : load64 m entry ≡ d = ground arith in rw e (omega arith)

pub not_null :
    {a : Allocator} {m : Mem} {root t : ℕ} (p : List ℕ)
    → IsPool a
    → IsTree a m root
    → IsPath p
    → table_at m root p ≡ some t
    → t ≢ 0
not_null {a} p pool tree path e =
    let page = tree.owned p _ path e in omega (arith, page.on_page, pool.ready.base_pos)

-- Every table that is confirmed is one that the tree has.
confirmed :
    (a : Allocator) (m : Mem) (root v pa : ℕ)
    → IsPool a
    → IsTree a m root
    → IsConfirmed m root v pa
    → verify_map root v pa m ≡ true
unfolding verify_map
confirmed a m root v pa pool tree (t3, at3, address) =
    let (t2, at2, next3) =
      table_at-parent m root (index_of v 21) (index_of v 30 ∷ index_of v 39 ∷ []) t3 at3 in
    let (t1, at1, next2) = table_at-parent m root (index_of v 30) (index_of v 39 ∷ []) t2 at2 in
    let (word1, step1) = entry_found m (entry_at root (index_of v 39)) t1 at1 in
    let (word2, step2) = entry_found m (entry_at t1 (index_of v 30)) t2 next2 in
    let (word3, step3) = entry_found m (entry_at t2 (index_of v 21)) t3 next3 in
    let some1 = not_null (index_of v 39 ∷ []) pool tree (outer-IsPath v) at1 in
    let some2 = not_null (index_of v 30 ∷ index_of v 39 ∷ []) pool tree (middle-IsPath v) at2 in
    let some3 = not_null (path_of v) pool tree (path_of-IsPath v) at3 in
    rw
      (
        step1,
        step2,
        step3,
        ==_ne _ _ word1,
        ==_ne _ _ word2,
        ==_ne _ _ word3,
        ==_ne _ _ some1,
        ==_ne _ _ some2,
        ==_ne _ _ some3,
        address,
      )
      (==_of_eq _ _ refl)

-- What `verify_map` has found when it is true: no level is missing.
levels :
    (m : Mem) (root v pa : ℕ)
    → verify_map root v pa m ≡ true
    → let level1 = next_level_table (entry_at root (index_of v 39)) m in
      let level2 = next_level_table (entry_at level1 (index_of v 30)) m in
      let level3 = next_level_table (entry_at level2 (index_of v 21)) m in
      (level1 ≢ 0)
      × (level2 ≢ 0)
      × (level3 ≢ 0)
      × (get_page_table_entry_address (entry_at level3 (index_of v 12)) m ≡ pa)
unfolding verify_map
levels m root v pa h = ground arith

level_found :
    (m : Mem) (entry : ℕ)
    → next_level_table entry m ≢ 0
    → next_table m entry ≡ some (next_level_table entry m)
unfolding next_level_table next_table follow pa_to_va get_page_table_entry_address
level_found m entry h = elim (ℕ_discrete (read_field valid entry m) 0) [
  | yes e ↦ absurd (h (rw (==_of_eq _ _ e) refl))
  | no e ↦
      let same : pa_to_va (get_page_table_entry_address entry m)
          ≡ get_page_table_entry_address entry m =
        omega arith in
      rw (==_ne _ _ e, same) refl
]

found-IsConfirmed :
    (m : Mem) (root v pa : ℕ) → verify_map root v pa m ≡ true → IsConfirmed m root v pa
found-IsConfirmed m root v pa h =
    let (some1, some2, some3, address) = levels m root v pa h in
    let at1 = level_found m _ some1 in
    let at2 =
      table_at-cons m root (index_of v 30) (index_of v 39 ∷ []) _ at1 ∙ level_found m _ some2 in
    let at3 =
      table_at-cons m root (index_of v 21) (index_of v 30 ∷ index_of v 39 ∷ []) _ at2
      ∙ level_found m _ some3 in
    (_, at3, address)

-- On a tree of tables.
pub verify_map-IsConfirmed :
    (a : Allocator) (m : Mem) (root v pa : ℕ)
    → IsPool a
    → IsTree a m root
    → (verify_map root v pa m ≡ true) ↔ IsConfirmed m root v pa
verify_map-IsConfirmed a m root v pa pool tree =
    (found-IsConfirmed m root v pa, confirmed a m root v pa pool tree)

-- The tables on the way to an address that is translated.
tables :
    (m : Mem) (root v d : ℕ)
    → translate m root v ≡ some d
    → (t : ℕ) × (table_at m root (path_of v) ≡ some t)
      × (leaf_at m (entry_at t (index_of v 12)) ≡ some d)
tables m root v d h = go (table_at m root (path_of v)) refl
  where
    go :
        (o : Option ℕ)
        → table_at m root (path_of v) ≡ o
        → (t : ℕ) × (table_at m root (path_of v) ≡ some t)
          × (leaf_at m (entry_at t (index_of v 12)) ≡ some d)
    go none e = cc (h, translate-none m root v e)
    go (some t) e = (t, e, sym (translate-some m root v t e) ∙ h)

-- An address that is translated is confirmed.
pub verify_map-translate :
    (a : Allocator) (m : Mem) (root v d : ℕ)
    → IsPool a
    → IsTree a m root
    → translate m root v ≡ some d
    → verify_map root v (get nlta_47_12 d * 2 ^ 12) m ≡ true
verify_map-translate a m root v d pool tree h =
    let (t, at, leaf) = tables m root v d h in
    confirmed a m root v (get nlta_47_12 d * 2 ^ 12) pool tree (t, at, leaf_found m _ d leaf)
