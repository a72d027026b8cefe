-- ===== src/PageTable/Root.antt =====
-- A new root table: `page_table_init` on a page from the allocator.
use kernalite.Base.{
  ℕ, ◌+◌, ◌*◌, ◌/◌, ◌<◌, ◌≡◌, ◌≢◌, refl, inl, inr, false, ap, ◌∙◌, sym, arith, none, some, List, [],
  ◌∷◌,
}
use kernalite.Memory.{Mem}
use kernalite.Allocator.{Allocator, page_size, page_alloc}
use kernalite.Allocator.Bitmap.{page_used}
use kernalite.Allocator.Free.{page_index}
use kernalite.Allocator.Search.{IsAllocated, page_alloc-first_fit}
use kernalite.PageTable.{entry_at, index_of, page_table_init}
use kernalite.PageTable.Walk.{
  next_table, table_at, IsPath, path_of-IsPath, IsPath-tail, translate, translate-none,
}
use kernalite.PageTable.Tree.{IsPool, BitmapApart, IsTablePage, IsTree}
use kernalite.PageTable.Extend.{init_loop-SameOutside, init_loop_zero, page_used_same}
use kernalite.PageTable.Grow.{zero_invalid}

-- No byte of the bitmap lies in a free page.
abbrev pub FreeApart : Allocator → Mem → Type 0
FreeApart a m =
    (j : ℕ)
    → j < a.total_pages
    → page_used a.bitmap m j ≡ false
    → BitmapApart a (a.mem_base + j * page_size)

module _ {a : Allocator} {m : Mem} (s : ℕ) (r : ℕ × Mem) (pool : IsPool a)
    (free_apart : FreeApart a m) (done : IsAllocated a 1 m s r) where
  abbrev cleared : Mem
  cleared = page_table_init r.0 r.1

  empty_root : (k : ℕ) → k < 512 → next_table cleared (entry_at r.0 k) ≡ none
  unfolding page_table_init next_table
  empty_root k l = rw (
      zero_invalid cleared (entry_at r.0 k)
        (init_loop_zero r.0 512 0 k r.1 (omega arith) (omega arith)))

  empty_below : (k : ℕ) (q : List ℕ) → IsPath (k ∷ q) → table_at cleared r.0 (k ∷ q) ≡ none
  empty_below k [] h = empty_root k h.0.0
  empty_below k (l ∷ q) h = rw (empty_below l q (IsPath-tail k (l ∷ q) h), table_at)

  pub only_root :
      (q : List ℕ) (u : ℕ) → IsPath q → table_at cleared r.0 q ≡ some u → (q ≡ []) × (u ≡ r.0)
  only_root [] u h e = (refl, cc)
  only_root (k ∷ q) u h e = cc (sym (empty_below k q h) ∙ e)

  pub same_status :
      (k : ℕ) → k < a.total_pages → page_used a.bitmap cleared k ≡ page_used a.bitmap r.1 k
  same_status k l = page_used_same a.bitmap k r.1 cleared (
      unfold page_table_init in
      init_loop-SameOutside r.0 512 0 r.1 (a.bitmap + k / 8)
        (ground (arith, done.pointer, free_apart s, done.first.free s, done.first.in_range)))

  root_page : IsTablePage a cleared r.0
  root_page =
      let index : page_index a r.0 ≡ s = omega (arith, done.pointer) in
      let in_range : s < a.total_pages = omega (arith, done.first.in_range) in
      record {
        on_page = omega (arith, done.pointer);
        in_range = rw index in_range;
        marked = rw index (same_status s in_range ∙ ground (arith, done.update.status s));
        apart =
            rw done.pointer (free_apart s in_range (done.first.free s (omega arith) (omega arith)));
      }

  page_table_init-IsTree : IsTree a cleared r.0 × ((v : ℕ) → translate cleared r.0 v ≡ none)
  page_table_init-IsTree = (
    record {
      distinct = λ p q u hp hq ep eq. (only_root p u hp ep).0 ∙ sym (only_root q u hq eq).0;
      owned = λ p u hp ep. rw ((only_root p u hp ep).1) root_page;
      free_apart = λ k l e. free_apart k l (ground (arith, same_status k l, done.update.status k));
    },
    λ v.
        translate-none cleared r.0 v
          (empty_below (index_of v 21) (index_of v 30 ∷ index_of v 39 ∷ []) (path_of-IsPath v)),
  )

-- On a page that was just allocated, away from the bitmap, `page_table_init` makes a tree of page
-- tables by which no address is translated.
pub page_table_init-page_alloc :
    (a : Allocator) (m : Mem)
    → IsPool a
    → FreeApart a m
    → (page_alloc a 1 m).0 ≢ 0
    → IsTree a (page_table_init (page_alloc a 1 m).0 (page_alloc a 1 m).1) (page_alloc a 1 m).0
      × ((v : ℕ)
          → translate
              (page_table_init (page_alloc a 1 m).0 (page_alloc a 1 m).1)
              (page_alloc a 1 m).0
              v
            ≡ none)
page_table_init-page_alloc a m pool free_apart ok =
    elim (page_alloc-first_fit a 1 m pool.ready (omega arith)) [
      | inl (s, done) ↦ page_table_init-IsTree s (page_alloc a 1 m) pool free_apart done
      | inr refused ↦ absurd (ok (ap (λ (r : ℕ × Mem). r.0) refused.unchanged))
    ]
