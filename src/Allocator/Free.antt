-- ===== src/Allocator/Free.antt =====
-- `page_free`: which pages a call gives back, on every branch.
use kernalite.Base.{
  ℕ, ◌+◌, ◌-◌, ◌*◌, ◌/◌, ◌^◌, ◌≤◌, ◌<◌, min, ◌≡◌, ◌≢◌, ◌⊎◌, inl, inr, false, ap, arith, u64,
}
use kernalite.Memory.{Mem}
use kernalite.Allocator.{Allocator, page_size, page_alloc, page_free, free_loop}
use kernalite.Allocator.Bitmap.{page_used, IsUpdate, free_loop-IsUpdate}
use kernalite.Allocator.Search.{IsReady, IsAllocated, page_alloc-first_fit}

-- The index of the page that holds an address of the region.
abbrev pub page_index : Allocator → ℕ → ℕ
page_index a ptr = (ptr - a.mem_base) / page_size

-- `ptr` points into the managed region.
abbrev pub InRegion : Allocator → ℕ → Type 0
InRegion a ptr = (a.mem_base ≤ ptr) × (ptr < a.mem_base + a.total_pages * page_size)

free_loop_none : (bitmap rounds i : ℕ) (m : Mem) → rounds ≡ 0 → free_loop bitmap rounds i m ≡ m
unfolding free_loop
free_loop_none bitmap rounds i m e = rw e

module _ (a : Allocator) (ptr n : ℕ) (m : Mem) (ready : IsReady a) where
  page_free-loop :
      InRegion a ptr
      → page_index a ptr + n < 2 ^ 64
      → page_free a ptr n m
        ≡ free_loop a.bitmap
            (min (page_index a ptr + n) a.total_pages - page_index a ptr)
            (page_index a ptr)
            m
  unfolding page_free
  page_free-loop h w = ground (arith, ready.base_pos, ready.no_wrap)

  -- A call with a pointer into the region, whose range does not wrap round, frees the pages from
  -- that of the pointer on, up to the last page of the region at most, and no others.
  pub page_free-IsUpdate :
      InRegion a ptr
      → page_index a ptr + n < 2 ^ 64
      → IsUpdate a.bitmap
          (page_index a ptr)
          (min (page_index a ptr + n) a.total_pages)
          false
          m
          (page_free a ptr n m)
  page_free-IsUpdate h w =
      rw (page_free-loop h w)
        (free_loop-IsUpdate a.bitmap _ (page_index a ptr) _ m (omega (arith, ready.no_wrap)))

  -- A null pointer, or one outside of the region, is ignored.
  pub page_free-ignored :
      (ptr ≡ 0) ⊎ (ptr < a.mem_base) ⊎ (a.mem_base + a.total_pages * page_size ≤ ptr)
      → page_free a ptr n m ≡ m
  unfolding page_free
  page_free-ignored h = ground (arith, ready.base_pos, ready.no_wrap)

  -- When the index of the first page and the count add up past `SIZE_MAX`, no page is freed.
  pub page_free_wrapped :
      InRegion a ptr → n < 2 ^ 64 → 2 ^ 64 ≤ page_index a ptr + n → page_free a ptr n m ≡ m
  unfolding page_free
  page_free_wrapped h l w = ground (
    arith,
    ready.base_pos,
    ready.no_wrap,
    free_loop_none a.bitmap (u64 (page_index a ptr + n) - page_index a ptr) (page_index a ptr) m,
  )

restores :
    (a : Allocator) (n : ℕ) (m : Mem) (r : ℕ × Mem) (s : ℕ)
    → IsReady a
    → 0 < n
    → IsAllocated a n m s r
    → (j : ℕ) → page_used a.bitmap (page_free a r.0 n r.1) j ≡ page_used a.bitmap m j
restores a n m r s ready pos done j =
    let index : page_index a r.0 ≡ s = omega (arith, done.pointer) in
    let freed =
      page_free-IsUpdate a r.0 n r.1 ready (omega (arith, done.pointer, done.first.in_range))
        (omega (arith, done.first.in_range, ready.no_wrap)) in
    ground (arith, freed.status j, done.update.status j, done.first.free j, done.first.in_range)

-- Freeing the block that a successful allocation returned gives every page the status that it had
-- before the allocation.
pub page_free-page_alloc :
    (a : Allocator) (n : ℕ) (m : Mem)
    → IsReady a
    → 0 < n
    → (page_alloc a n m).0 ≢ 0
    → (j : ℕ)
    → page_used a.bitmap (page_free a (page_alloc a n m).0 n (page_alloc a n m).1) j
      ≡ page_used a.bitmap m j
page_free-page_alloc a n m ready pos ok j = elim (page_alloc-first_fit a n m ready pos) [
  | inl (s, done) ↦ restores a n m (page_alloc a n m) s ready pos done j
  | inr refused ↦ absurd (ok (ap (λ (r : ℕ × Mem). r.0) refused.unchanged))
]
