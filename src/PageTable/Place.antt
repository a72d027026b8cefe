-- ===== src/PageTable/Place.antt =====
-- The write of a descriptor into a table of level 3 of the tree.
use kernalite.Base.{
  ℕ, ◌+◌, ◌/◌, ◌<◌, ◌≡◌, ◌≢◌, refl, inl, inr, ap, ◌∙◌, sym, arith, some, List, [], ◌∷◌, length,
}
use kernalite.Memory.{Mem, load64}
use kernalite.Memory.Words.{load64_same}
use kernalite.Allocator.{Allocator}
use kernalite.Allocator.Bitmap.{page_used}
use kernalite.Allocator.Free.{page_index}
use kernalite.PageTable.{entry_at, read_field, index_of}
use kernalite.PageTable.Descriptor.{get, valid}
use kernalite.PageTable.Leaf.{Holds}
use kernalite.PageTable.Walk.{
  table_at, IsPath, path_of, translate, leaf_at, page_number, table_at-cons, next_table_same,
  IsPath-tail, leaf_at_same, translate-some, translate-none, index_of-lt, path_of-IsPath,
  page_number_of_indices, indices_of_page_number,
}
use kernalite.PageTable.Tree.{IsPool, IsTablePage, IsTree, entries_apart}
use kernalite.PageTable.Extend.{page_used_same}
use kernalite.PageTable.Confine.{IsConfined}
use kernalite.PageTable.Grow.{Option-cases}

module _ {a : Allocator} {m m' : Mem} {root t word : ℕ} (v : ℕ) (pool : IsPool a)
    (tree : IsTree a m root) (at : table_at m root (path_of v) ≡ some t)
    (holds : Holds (entry_at t (index_of v 12)) m word m') where
  abbrev entry : ℕ
  entry = entry_at t (index_of v 12)

  page : IsTablePage a m t
  page = tree.owned (path_of v) t (path_of-IsPath v) at

  -- Any other entry of a table keeps its word.
  same_word :
      (u k : ℕ)
      → IsTablePage a m u
      → k < 512
      → (t ≡ u → index_of v 12 ≡ k → ⊥)
      → load64 m' (entry_at u k) ≡ load64 m (entry_at u k)
  same_word u k h l other = load64_same m m' (entry_at u k) λ x from to.
      holds.frame x
        (ground (arith, entries_apart (index_of v 12) k pool page h (index_of-lt v 12) l))

  -- No table moves: a table with tables below it is not of level 3.
  same_table : (q : List ℕ) → IsPath q → table_at m' root q ≡ table_at m root q
  same_table [] h = refl
  same_table (k ∷ q) h =
      let below = same_table q (IsPath-tail k q h) in
      elim (Option-cases (table_at m root q)) [
        | inl gone ↦ rw (below, gone, table_at)
        | inr (u, found) ↦
            table_at-cons m' root k q u (below ∙ found)
            ∙ next_table_same m m' (entry_at u k) (
                same_word u k (tree.owned q u (IsPath-tail k q h) found) h.0.0
                  (λ e _. higher u found e))
            ∙ sym (table_at-cons m root k q u found)
      ]
    where
      higher : (u : ℕ) → table_at m root q ≡ some u → t ≡ u → ⊥
      higher u found e =
          let same_path : path_of v ≡ q =
            tree.distinct (path_of v) q u (path_of-IsPath v) (IsPath-tail k q h) (at ∙ ap some e)
              found in
          absurd (omega (arith, ap length same_path, h.1))

  same_status : (k : ℕ) → k < a.total_pages → page_used a.bitmap m' k ≡ page_used a.bitmap m k
  same_status k l =
      page_used_same a.bitmap k m m' (
        holds.frame (a.bitmap + k / 8) (ground (arith, page.apart, page.on_page, index_of-lt v 12)))

  pub placed-IsTree : IsTree a m' root
  placed-IsTree = record {
    distinct = λ p q u hp hq ep eq.
        tree.distinct p q u hp hq (sym (same_table p hp) ∙ ep) (sym (same_table q hq) ∙ eq);
    owned = λ p u hp ep.
        let h = tree.owned p u hp (sym (same_table p hp) ∙ ep) in
        record {
          on_page = h.on_page;
          in_range = h.in_range;
          marked = same_status (page_index a u) h.in_range ∙ h.marked;
          apart = h.apart;
        };
    free_apart = λ k l e. tree.free_apart k l (sym (same_status k l) ∙ e);
  }

  pub placed-IsConfined : IsConfined a m m' root
  placed-IsConfined = record {
    used = λ k l e. same_status k l ∙ e;
    frame = λ x b free tables.
        holds.frame x
          (ground (arith, tables (path_of v) t (path_of-IsPath v) at, index_of-lt v 12));
    tables = λ q u h e. inl (sym (same_table q h) ∙ e);
    kept = λ q u h e. same_table q h ∙ e;
    accounted = λ k l e. inl (sym (same_status k l) ∙ e);
  }

  -- The page of the address is translated by the descriptor.
  pub placed_here :
      get valid word ≡ 1 → (w : ℕ) → page_number w ≡ page_number v → translate m' root w ≡ some word
  placed_here is_valid w e =
      let (same_path, same_index) = indices_of_page_number w v e in
      translate-some m' root w t
        (ap (table_at m' root) same_path ∙ same_table (path_of v) (path_of-IsPath v) ∙ at)
      ∙ ap (λ (k : ℕ). leaf_at m' (entry_at t k)) same_index
      ∙ (unfold leaf_at read_field in rw (holds.word, is_valid))

  -- Every other page is translated as before.
  pub placed_elsewhere :
      (w : ℕ) → page_number w ≢ page_number v → translate m' root w ≡ translate m root w
  placed_elsewhere w ne = elim (Option-cases (table_at m root (path_of w))) [
    | inl gone ↦
        translate-none m' root w (same_table (path_of w) (path_of-IsPath w) ∙ gone)
        ∙ sym (translate-none m root w gone)
    | inr (u, found) ↦
        translate-some m' root w u (same_table (path_of w) (path_of-IsPath w) ∙ found)
        ∙ leaf_at_same m m' (entry_at u (index_of w 12)) (
            same_word u (index_of w 12) (tree.owned (path_of w) u (path_of-IsPath w) found)
              (index_of-lt w 12)
              λ e f. ne (
                page_number_of_indices w v
                  (tree.distinct (path_of w) (path_of v) u (path_of-IsPath w) (path_of-IsPath v)
                    found (at ∙ ap some e))
                  (sym f)))
        ∙ sym (translate-some m root w u found)
  ]
