-- ===== src/Allocator/Owners.antt =====
-- Clients of the allocator: any sequence of allocations and of frees of blocks that are held.
use kernalite.Base.{
  ℕ, ◌+◌, ◌*◌, ◌≤◌, ◌<◌, ◌≡◌, ◌≢◌, ◌⊎◌, inl, inr, true, ap, arith, List, [], ◌∷◌, ◌++◌, All,
  All-mono, All-remove, All-zip,
}
use mathlib.Core.Path.{subst}
use kernalite.Memory.{Mem}
use kernalite.Allocator.{Allocator, page_size, page_alloc, page_free}
use kernalite.Allocator.Bitmap.{page_used}
use kernalite.Allocator.Search.{IsReady, IsAllocated, page_alloc-first_fit}
use kernalite.Allocator.Free.{page_index, page_free-IsUpdate}

-- A block that a client holds: the pointer that it was given and the number of pages.
pub record Block : Type 0 where
  pub ptr : ℕ
  pub count : ℕ

-- The memory, and the blocks that are held.
pub record World : Type 0 where
  pub mem : Mem
  pub live : List Block

module _ (a : Allocator) where
  -- One call of a client: an allocation that succeeds, one that fails, or a free of a held block.
  pub data Step : World → World → Type 0 where
    alloc :
        (w : World) (n : ℕ)
        → 0 < n
        → (page_alloc a n w.mem).0 ≢ 0
        → Step w (record {
          mem = (page_alloc a n w.mem).1;
          live = record { ptr = (page_alloc a n w.mem).0; count = n } ∷ w.live;
        })
    fail :
        (w : World) (n : ℕ)
        → 0 < n
        → (page_alloc a n w.mem).0 ≡ 0
        → Step w (record w { mem = (page_alloc a n w.mem).1 })
    free :
        (w : World) (xs : List Block) (b : Block) (ys : List Block)
        → w.live ≡ xs ++ (b ∷ ys)
        → Step w (record { mem = page_free a b.ptr b.count w.mem; live = xs ++ ys })

  pub data Reach (w : World) : World → Type 0 where
    here : Reach w w
    next : {u v : World} → Reach w u → Step u v → Reach w v

  -- A block lies on whole pages of the region, and each of its pages is marked used.
  pub record IsHeld (m : Mem) (b : Block) : Type 0 where
    pub on_page : b.ptr ≡ a.mem_base + page_index a b.ptr * page_size
    pub some_pages : 0 < b.count
    pub in_range : page_index a b.ptr + b.count ≤ a.total_pages
    pub marked :
        (j : ℕ)
        → page_index a b.ptr ≤ j
        → j < page_index a b.ptr + b.count
        → page_used a.bitmap m j ≡ true

  -- No page belongs to both blocks.
  abbrev pub AreApart : Block → Block → Type 0
  AreApart b c =
      (page_index a b.ptr + b.count ≤ page_index a c.ptr)
      ⊎ (page_index a c.ptr + c.count ≤ page_index a b.ptr)

  abbrev pub ArePairwiseApart : List Block → Type 0
  ArePairwiseApart [] = Unit
  ArePairwiseApart (b ∷ bs) = All (AreApart b) bs × ArePairwiseApart bs

  pub record IsOwned (w : World) : Type 0 where
    pub held : All (IsHeld w.mem) w.live
    pub apart : ArePairwiseApart w.live

module _ (a : Allocator) (ready : IsReady a) where
  allocated-IsHeld :
      (n : ℕ) (m : Mem) (s : ℕ) (r : ℕ × Mem)
      → 0 < n
      → IsAllocated a n m s r
      → IsHeld a r.1 (record { ptr = r.0; count = n })
  allocated-IsHeld n m s r pos done = record {
    on_page = rw index done.pointer;
    some_pages = pos;
    in_range = rw index done.first.in_range;
    marked = rw index (λ j p q. ground (arith, done.update.status j));
  }
    where
      index : page_index a r.0 ≡ s
      index = omega (arith, done.pointer)

  still-IsHeld :
      (n : ℕ) (m : Mem) (s : ℕ) (r : ℕ × Mem)
      → IsAllocated a n m s r
      → (b : Block) → IsHeld a m b
      → IsHeld a r.1 b
  still-IsHeld n m s r done b h = record {
    on_page = h.on_page;
    some_pages = h.some_pages;
    in_range = h.in_range;
    marked = λ j p q. ground (arith, done.update.status j, h.marked j);
  }

  -- A new block shares no page with a held one: its pages were free.
  new-AreApart :
      (n : ℕ) (m : Mem) (s : ℕ) (r : ℕ × Mem)
      → 0 < n
      → IsAllocated a n m s r
      → (b : Block) → IsHeld a m b
      → AreApart a (record { ptr = r.0; count = n }) b
  new-AreApart n m s r pos done b h =
      let index : page_index a r.0 ≡ s = omega (arith, done.pointer) in
      rw index (
        ground (
          arith,
          done.first.free s,
          done.first.free (page_index a b.ptr),
          h.marked s,
          h.marked (page_index a b.ptr),
          h.some_pages,
        ))

  pub alloc-IsOwned :
      (w : World) (n : ℕ) (r : ℕ × Mem)
      → 0 < n
      → ((s : ℕ) × IsAllocated a n w.mem s r)
      → IsOwned a w
      → IsOwned a (record { mem = r.1; live = record { ptr = r.0; count = n } ∷ w.live })
  alloc-IsOwned w n r pos (s, done) o = record {
    held = (
      allocated-IsHeld n w.mem s r pos done,
      All-mono _ _ w.live (still-IsHeld n w.mem s r done) o.held,
    );
    apart = (All-mono _ _ w.live (new-AreApart n w.mem s r pos done) o.held, o.apart);
  }

  -- A block apart from the freed one keeps its pages.
  free-IsHeld :
      (m : Mem) (b c : Block)
      → IsHeld a m b
      → AreApart a b c
      → IsHeld a m c
      → IsHeld a (page_free a b.ptr b.count m) c
  free-IsHeld m b c h d k =
      let freed =
        page_free-IsUpdate a b.ptr b.count m ready
          (omega (arith, h.on_page, h.in_range, h.some_pages))
          (omega (arith, h.in_range, ready.no_wrap)) in
      record {
        on_page = k.on_page;
        some_pages = k.some_pages;
        in_range = k.in_range;
        marked = λ j p q. ground (arith, freed.status j, k.marked j, h.in_range);
      }

  -- Removing a block from the middle leaves a list that is apart, and apart from the block.
  apart_middle :
      (xs : List Block) (b : Block) (ys : List Block)
      → ArePairwiseApart a (xs ++ (b ∷ ys))
      → ArePairwiseApart a (xs ++ ys) × All (AreApart a b) (xs ++ ys)
  apart_middle [] b ys h = (h.1, h.0)
  apart_middle (x ∷ xs) b ys h =
      let (rest, from_b) = apart_middle xs b ys h.1 in
      let (x_b, x_rest) = All-remove (AreApart a x) xs b ys h.0 in
      ((x_rest, rest), (elim x_b [ inl p ↦ inr p | inr p ↦ inl p ], from_b))

  pub free-IsOwned :
      (w : World) (xs : List Block) (b : Block) (ys : List Block)
      → w.live ≡ xs ++ (b ∷ ys)
      → IsOwned a w
      → IsOwned a (record { mem = page_free a b.ptr b.count w.mem; live = xs ++ ys })
  free-IsOwned w xs b ys e o =
      let held : All (IsHeld a w.mem) (xs ++ (b ∷ ys)) = subst (All (IsHeld a w.mem)) e o.held in
      let apart = apart_middle xs b ys (subst (ArePairwiseApart a) e o.apart) in
      let parts = All-remove (IsHeld a w.mem) xs b ys held in
      record {
        held =
            All-zip _ _ _ (xs ++ ys) (λ c d k. free-IsHeld w.mem b c parts.0 d k) apart.1 parts.1;
        apart = apart.0;
      }

  Step-IsOwned : {w u : World} → Step a w u → IsOwned a w → IsOwned a u
  Step-IsOwned (alloc w n pos ok) o = elim (page_alloc-first_fit a n w.mem ready pos) [
    | inl done ↦ alloc-IsOwned w n (page_alloc a n w.mem) pos done o
    | inr refused ↦ absurd (ok (ap (λ (r : ℕ × Mem). r.0) refused.unchanged))
  ]
  Step-IsOwned (fail w n pos null) o = elim (page_alloc-first_fit a n w.mem ready pos) [
    | inl (s, done) ↦ absurd (omega (arith, done.pointer, ready.base_pos))
    | inr refused ↦
        let same : (page_alloc a n w.mem).1 ≡ w.mem = ap (λ (r : ℕ × Mem). r.1) refused.unchanged in
        record { held = rw same o.held; apart = o.apart }
  ]
  Step-IsOwned (free w xs b ys e) o = free-IsOwned w xs b ys e o

  -- Whatever sequence of calls the clients make, as long as each frees only blocks that it holds:
  -- every held block stays on pages of the region that are marked used, and no page ever belongs to
  -- two held blocks.
  pub Reach-IsOwned : {w u : World} → IsOwned a w → Reach a w u → IsOwned a u
  Reach-IsOwned o here = o
  Reach-IsOwned o (next r s) = Step-IsOwned s (Reach-IsOwned o r)
