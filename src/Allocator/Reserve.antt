-- ===== src/Allocator/Reserve.antt =====
-- `reserve_page`: the ranges that it accepts, the pages that it marks, and two kinds of argument
-- for which it accepts a range that it does not mark as asked.
use kernalite.Base.{
  ℕ, ◌+◌, ◌-◌, ◌*◌, ◌%◌, ◌^◌, ◌≤◌, ◌<◌, ◌≡◌, ◌≢◌, ◌⊎◌, inl, inr, Bool, true, false, ap, arith,
}
use kernalite.Memory.{Mem}
use kernalite.Allocator.{Allocator, page_size, reserve_page, reserve_loop}
use kernalite.Allocator.Bitmap.{page_used, IsUpdate, mark_loop-IsUpdate, reserve_loop-mark_loop}
use kernalite.Allocator.Search.{IsReady}
use kernalite.Allocator.Free.{page_index}

-- The bytes from `ptr` on that `n` pages take lie in the managed region.
abbrev pub FitsRegion : Allocator → ℕ → ℕ → Type 0
FitsRegion a ptr n =
    (a.mem_base ≤ ptr) × (ptr + n * page_size ≤ a.mem_base + a.total_pages * page_size)

-- The range begins below the region or ends above it.
abbrev pub LeavesRegion : Allocator → ℕ → ℕ → Type 0
LeavesRegion a ptr n =
    (ptr < a.mem_base) ⊎ (a.mem_base + a.total_pages * page_size < ptr + n * page_size)

fits_or_leaves : (a : Allocator) (ptr n : ℕ) → FitsRegion a ptr n ⊎ LeavesRegion a ptr n
fits_or_leaves a ptr n = ground arith

module _ (a : Allocator) (ptr n : ℕ) (m : Mem) (ready : IsReady a) where
  reserve_page_fits :
      0 < n
      → FitsRegion a ptr n
      → reserve_page a ptr n m ≡ (true, reserve_loop a.bitmap (page_index a ptr) n 0 m)
  unfolding reserve_page
  reserve_page_fits pos h = ground (arith, ready.base_pos, ready.no_wrap, ready.bitmap_pos)

  reserve_page_leaves :
      ptr + n * page_size < 2 ^ 64 → LeavesRegion a ptr n → reserve_page a ptr n m ≡ (false, m)
  unfolding reserve_page
  reserve_page_leaves w h = ground (arith, ready.no_wrap)

  reserve_loop-IsUpdate :
      page_index a ptr + n < 2 ^ 64
      → IsUpdate a.bitmap
          (page_index a ptr)
          (page_index a ptr + n)
          true
          m
          (reserve_loop a.bitmap (page_index a ptr) n 0 m)
  reserve_loop-IsUpdate w =
      let e : page_index a ptr + 0 ≡ page_index a ptr = omega arith in
      rw (reserve_loop-mark_loop a.bitmap (page_index a ptr) n 0 m (omega arith), e)
        (mark_loop-IsUpdate a.bitmap n (page_index a ptr) _ m (omega arith))

  -- A range of at least one page that lies in the region is accepted, and the `n` pages from that
  -- of the pointer on are marked, no others. A range that reaches out of the region, without
  -- wrapping round the address space, is refused and nothing changes.
  pub reserve_page-outcome :
      0 < n
      → ptr + n * page_size < 2 ^ 64
      → (FitsRegion a ptr n
          × ((reserve_page a ptr n m).0 ≡ true)
          × IsUpdate a.bitmap
              (page_index a ptr)
              (page_index a ptr + n)
              true
              m
              (reserve_page a ptr n m).1)
        ⊎ (LeavesRegion a ptr n × (reserve_page a ptr n m ≡ (false, m)))
  reserve_page-outcome pos w = elim (fits_or_leaves a ptr n) [
    | inl h ↦ inl (
      h,
      ap (λ (r : Bool × Mem). r.0) (reserve_page_fits pos h),
      rw (reserve_page_fits pos h) (reserve_loop-IsUpdate (omega (arith, ready.no_wrap))),
    )
    | inr h ↦ inr (h, reserve_page_leaves w h)
  ]

  -- A pointer into the middle of a page is accepted, though the page that holds the last byte of
  -- its range keeps its status.
  pub reserve_page_unaligned :
      0 < n
      → FitsRegion a ptr n
      → (ptr - a.mem_base) % page_size ≢ 0
      → let last = page_index a (ptr + n * page_size - 1) in
        ((reserve_page a ptr n m).0 ≡ true)
        × (last < a.total_pages)
        × (page_used a.bitmap (reserve_page a ptr n m).1 last ≡ page_used a.bitmap m last)
  reserve_page_unaligned pos h o =
      let update = reserve_loop-IsUpdate (omega (arith, ready.no_wrap)) in
      (
        ap (λ (r : Bool × Mem). r.0) (reserve_page_fits pos h),
        omega arith,
        rw (reserve_page_fits pos h)
            (ground (arith, update.status (page_index a (ptr + n * page_size - 1)))),
      )

  reserve_page_passes :
      (k : ℕ)
      → n ≡ (k + 1) * 2 ^ 52
      → 0 < a.total_pages
      → FitsRegion a ptr 0
      → reserve_page a ptr n m ≡ (true, reserve_loop a.bitmap (page_index a ptr) n 0 m)
  unfolding reserve_page
  reserve_page_passes k e pos h =
      ground (arith, ready.base_pos, ready.no_wrap, ready.bitmap_pos, ready.aligned)

  -- A page count whose size in bytes is a multiple of `2 ^ 64` passes the bounds check at any
  -- address of the region, and the loop then sets the bit of a page that the region does not have.
  pub reserve_page_overflow :
      (k : ℕ)
      → n ≡ (k + 1) * 2 ^ 52
      → page_index a ptr + n < 2 ^ 64
      → 0 < a.total_pages
      → FitsRegion a ptr 0
      → ((reserve_page a ptr n m).0 ≡ true)
        × (page_used a.bitmap (reserve_page a ptr n m).1 a.total_pages ≡ true)
  reserve_page_overflow k e w pos h =
      let update = reserve_loop-IsUpdate w in
      (
        ap (λ (r : Bool × Mem). r.0) (reserve_page_passes k e pos h),
        rw (reserve_page_passes k e pos h)
            (ground (arith, update.status a.total_pages, ready.no_wrap)),
      )
