-- ===== src/System/Calls.antt =====
-- `page_alloc` and `page_free` on a sound machine.
use kernalite.Base.{
  ℕ, zero, suc, min, ◌+◌, ◌*◌, ◌≤◌, ◌<◌, ◌≡◌, refl, inl, inr, true, false, ◌∙◌, sym, arith, some,
  List, ◌∷◌, ◌++◌, All, All-mono, ==_ne, within, if◌then◌else◌, Bool-cases, All-remove, All-zip,
}
use mathlib.Core.Path.{subst}
use kernalite.Memory.{Mem}
use kernalite.Allocator.{Allocator, page_size, page_alloc, page_free}
use kernalite.Allocator.Bitmap.{page_used, IsUpdate}
use kernalite.Allocator.Free.{page_index, page_free-IsUpdate}
use kernalite.Allocator.Search.{IsAllocated, page_alloc-first_fit}
use kernalite.Allocator.Owners.{Block, IsHeld, alloc-IsOwned, free-IsOwned}
use kernalite.PageTable.Walk.{table_at, IsPath}
use kernalite.PageTable.Tree.{IsPool, BitmapApart, IsTree}
use kernalite.PageTable.Confine.{IsOffBitmap}
use kernalite.PageTable.Keep.{kept_table_at, kept_translate, kept-IsTree}
use kernalite.System.{Machine, allocated, freed}
use kernalite.System.Sound.{IsIntact, IsSound, byte-IsOffBitmap}

-- A change of the bitmap alone.
module _ {a : Allocator} {root : ℕ} {m m' : Mem} (tree : IsTree a m root)
    (frame : (x : ℕ) → IsOffBitmap a x → m' x ≡ m x) where
  -- No table has changed.
  pub tables_untouched :
      (q : List ℕ) (t : ℕ)
      → IsPath q
      → table_at m root q ≡ some t
      → (x : ℕ) → t ≤ x
      → x < t + page_size
      → m' x ≡ m x
  tables_untouched q t h e x low high =
      let page = tree.owned q t h e in frame x (ground (arith, page.apart))

  -- A held block stays as it was.
  still-IsIntact :
      (heap : ℕ → ℕ) (b : Block)
      → IsHeld a m b
      → IsIntact a root m heap b
      → IsIntact a root m' heap b
  still-IsIntact heap b held h = record {
    apart = h.apart;
    off_tables = λ q t path at.
        h.off_tables q t path (sym (kept_table_at tree tables_untouched q path) ∙ at);
    bytes = λ x inside. frame x (byte-IsOffBitmap held h x inside) ∙ h.bytes x inside;
  }

module _ {a : Allocator} {root : ℕ} (pool : IsPool a) (w : Machine) (sound : IsSound a root w) where
  module _ (n s : ℕ) (pos : 0 < n) (done : IsAllocated a n w.mem s (page_alloc a n w.mem)) where
    abbrev ptr : ℕ
    ptr = (page_alloc a n w.mem).0

    abbrev mem' : Mem
    mem' = (page_alloc a n w.mem).1

    abbrev block : Block
    block = record { ptr = ptr; count = n }

    abbrev heap' : ℕ → ℕ
    heap' x = if within ptr (ptr + n * page_size) x then mem' x else w.heap x

    alloc_frame : (x : ℕ) → IsOffBitmap a x → mem' x ≡ w.mem x
    alloc_frame x h = done.update.frame x (ground (arith, done.first.in_range))

    index : page_index a ptr ≡ s
    index = omega (arith, done.pointer)

    new-IsIntact : IsIntact a root mem' heap' block
    new-IsIntact = record {
      apart = λ j from to.
          sound.tree.free_apart j (omega (arith, index, done.first.in_range))
            (done.first.free j (omega (arith, index)) (omega (arith, index)));
      off_tables = λ q t path at.
          let page = sound.tree.owned q t path (
            sym (kept_table_at sound.tree (tables_untouched sound.tree alloc_frame) q path) ∙ at) in
          ground (arith, index, page.marked, done.first.free (page_index a t));
      bytes = λ x inside. ground arith;
    }

    old-IsIntact : (b : Block) → IsIntact a root mem' w.heap b → IsIntact a root mem' heap' b
    old-IsIntact b h = record {
      apart = h.apart;
      off_tables = h.off_tables;
      bytes = λ x inside. ground (arith, h.bytes x inside);
    }

    alloc-IsSound : IsSound a root (record w { mem = mem'; live = block ∷ w.live; heap = heap' })
    alloc-IsSound =
        let untouched = tables_untouched sound.tree alloc_frame in
        record {
          tree =
              kept-IsTree sound.tree untouched
                (λ q t h e.
                  let page = sound.tree.owned q t h e in
                  ground (arith, done.update.status (page_index a t), page.marked))
                (λ j l e. sound.tree.free_apart j l (ground (arith, done.update.status j, e)));
          owned = alloc-IsOwned a pool.ready _ n (page_alloc a n w.mem) pos (s, done) sound.owned;
          intact = (
            new-IsIntact,
            All-mono _ _ w.live old-IsIntact (
                All-zip _ _ _ w.live (still-IsIntact sound.tree alloc_frame w.heap) sound.owned.held
                  sound.intact),
          );
          maps = λ v. kept_translate sound.tree untouched v ∙ sound.maps v;
        }

  pub page_alloc_zero : page_alloc a 0 w.mem ≡ (0, w.mem)
  unfolding page_alloc
  page_alloc_zero = refl

  refused-IsSound : (n : ℕ) → page_alloc a n w.mem ≡ (0, w.mem) → IsSound a root (allocated a n w)
  unfolding allocated
  refused-IsSound n e = rw e sound

  given-IsSound :
      (n s : ℕ)
      → 0 < n
      → IsAllocated a n w.mem s (page_alloc a n w.mem)
      → IsSound a root (allocated a n w)
  unfolding allocated
  given-IsSound n s pos done =
      rw (==_ne (ptr n s pos done) 0 (omega (arith, done.pointer, pool.ready.base_pos)))
        (alloc-IsSound n s pos done)

  pub allocated-IsSound : (n : ℕ) → IsSound a root (allocated a n w)
  allocated-IsSound zero = refused-IsSound 0 page_alloc_zero
  allocated-IsSound (suc n) = elim (page_alloc-first_fit a (suc n) w.mem pool.ready (omega arith)) [
    | inl (s, done) ↦ given-IsSound (suc n) s (omega arith) done
    | inr refused ↦ refused-IsSound (suc n) refused.unchanged
  ]

  module _ (xs : List Block) (b : Block) (ys : List Block) (at : w.live ≡ xs ++ (b ∷ ys)) where
    abbrev after : Mem
    after = page_free a b.ptr b.count w.mem

    parts : IsHeld a w.mem b × All (IsHeld a w.mem) (xs ++ ys)
    parts = All-remove (IsHeld a w.mem) xs b ys (subst (All (IsHeld a w.mem)) at sound.owned.held)

    IsIntact-parts : IsIntact a root w.mem w.heap b × All (IsIntact a root w.mem w.heap) (xs ++ ys)
    IsIntact-parts =
        All-remove (IsIntact a root w.mem w.heap) xs b ys
          (subst (All (IsIntact a root w.mem w.heap)) at sound.intact)

    pub freed_pages :
        IsUpdate a.bitmap
          (page_index a b.ptr)
          (min (page_index a b.ptr + b.count) a.total_pages)
          false
          w.mem
          after
    freed_pages =
        let held = parts.0 in
        page_free-IsUpdate a b.ptr b.count w.mem pool.ready
          (omega (arith, held.on_page, held.in_range, held.some_pages))
          (omega (arith, held.in_range, pool.ready.no_wrap))

    pub free_frame : (x : ℕ) → IsOffBitmap a x → after x ≡ w.mem x
    free_frame x h = freed_pages.frame x (ground (arith, parts.0.in_range))

    free_tables :
        (q : List ℕ) (t : ℕ)
        → IsPath q
        → table_at w.mem root q ≡ some t
        → page_used a.bitmap after (page_index a t) ≡ true
    free_tables q t h e =
        let page = sound.tree.owned q t h e in
        ground (
          arith,
          freed_pages.status (page_index a t),
          page.marked,
          IsIntact-parts.0.off_tables q t h e,
        )

    free_FreeApart :
        (j : ℕ)
        → j < a.total_pages
        → page_used a.bitmap after j ≡ false
        → BitmapApart a (a.mem_base + j * page_size)
    free_FreeApart j l e =
        elim (Bool-cases (within (page_index a b.ptr) (page_index a b.ptr + b.count) j)) [
          | inl p ↦ IsIntact-parts.0.apart j (ground arith) (ground arith)
          | inr p ↦ sound.tree.free_apart j l (ground (arith, freed_pages.status j, e))
        ]

    pub freed-IsSound : IsSound a root (freed a b (xs ++ ys) w)
    unfolding freed
    freed-IsSound =
        let untouched = tables_untouched sound.tree free_frame in
        record {
          tree = kept-IsTree sound.tree untouched free_tables free_FreeApart;
          owned = free-IsOwned a pool.ready _ xs b ys at sound.owned;
          intact =
              All-zip _ _ _ (xs ++ ys) (still-IsIntact sound.tree free_frame w.heap) parts.1
                IsIntact-parts.1;
          maps = λ v. kept_translate sound.tree untouched v ∙ sound.maps v;
        }
