-- ===== src/PageTable/Keep.antt =====
-- Changes of the memory that touch no table.
use kernalite.Base.{
  ℕ, ◌+◌, ◌*◌, ◌≤◌, ◌<◌, ◌≡◌, refl, inl, inr, true, false, ◌∙◌, sym, arith, some, List, [], ◌∷◌,
}
use kernalite.Memory.{Mem, load64}
use kernalite.Memory.Words.{load64_same}
use kernalite.Allocator.{Allocator, page_size}
use kernalite.Allocator.Bitmap.{page_used}
use kernalite.Allocator.Free.{page_index}
use kernalite.PageTable.{entry_at, index_of}
use kernalite.PageTable.Walk.{
  table_at, IsPath, path_of, path_of-IsPath, translate, table_at-cons, next_table_same, IsPath-tail,
  leaf_at_same, translate-some, translate-none, index_of-lt,
}
use kernalite.PageTable.Tree.{BitmapApart, IsTree}
use kernalite.PageTable.Grow.{Option-cases}

module _ {a : Allocator} {m m' : Mem} {root : ℕ} (tree : IsTree a m root)
    (untouched : (q : List ℕ) (t : ℕ)
      → IsPath q
      → table_at m root q ≡ some t
      → (x : ℕ) → t ≤ x
      → x < t + page_size
      → m' x ≡ m x) where
  same_entry :
      (q : List ℕ) (t k : ℕ)
      → IsPath q
      → table_at m root q ≡ some t
      → k < 512
      → load64 m' (entry_at t k) ≡ load64 m (entry_at t k)
  same_entry q t k h e l =
      load64_same m m' (entry_at t k) λ x from to. untouched q t h e x (omega arith) (omega arith)

  pub kept_table_at : (q : List ℕ) → IsPath q → table_at m' root q ≡ table_at m root q
  kept_table_at [] h = refl
  kept_table_at (k ∷ q) h =
      let tail = IsPath-tail k q h in
      let below = kept_table_at q tail in
      elim (Option-cases (table_at m root q)) [
        | inl gone ↦ rw (below, gone, table_at)
        | inr (u, found) ↦
            table_at-cons m' root k q u (below ∙ found)
            ∙ next_table_same m m' (entry_at u k) (same_entry q u k tail found h.0.0)
            ∙ sym (table_at-cons m root k q u found)
      ]

  pub kept_translate : (v : ℕ) → translate m' root v ≡ translate m root v
  kept_translate v =
      let path = path_of-IsPath v in
      let same = kept_table_at (path_of v) path in
      elim (Option-cases (table_at m root (path_of v))) [
        | inl gone ↦ translate-none m' root v (same ∙ gone) ∙ sym (translate-none m root v gone)
        | inr (u, found) ↦
            translate-some m' root v u (same ∙ found)
            ∙ leaf_at_same m m' (entry_at u (index_of v 12))
                (same_entry (path_of v) u (index_of v 12) path found (index_of-lt v 12))
            ∙ sym (translate-some m root v u found)
      ]

  pub kept-IsTree :
      ((q : List ℕ) (t : ℕ)
        → IsPath q
        → table_at m root q ≡ some t
        → page_used a.bitmap m' (page_index a t) ≡ true)
      → ((j : ℕ)
          → j < a.total_pages
          → page_used a.bitmap m' j ≡ false
          → BitmapApart a (a.mem_base + j * page_size))
      → IsTree a m' root
  kept-IsTree marked free_apart = record {
    distinct = λ p q u hp hq ep eq.
        tree.distinct p q u hp hq (sym (kept_table_at p hp) ∙ ep) (sym (kept_table_at q hq) ∙ eq);
    owned = λ p u hp ep.
        let before = sym (kept_table_at p hp) ∙ ep in
        let h = tree.owned p u hp before in
        record {
          on_page = h.on_page;
          in_range = h.in_range;
          marked = marked p u hp before;
          apart = h.apart;
        };
    free_apart = free_apart;
  }
