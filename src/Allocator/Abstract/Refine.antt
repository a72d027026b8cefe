-- ===== src/Allocator/Abstract/Refine.antt =====
-- The allocator of the code against the abstract one, call by call and for any sequence of calls.
use kernalite.Base.{
  ℕ, zero, suc, ◌+◌, ◌-◌, ◌*◌, ◌^◌, ◌≤◌, ◌<◌, ◌≡◌, refl, ◌⊎◌, inl, inr, Bool, true, false, ◌||◌,
  ltb, leb, arith, List, [], ◌∷◌, All, ap, ap₂, ◌∙◌, sym, fun_ext,
}
use kernalite.Memory.{Mem}
use kernalite.Allocator.{Allocator, page_size, page_alloc}
use kernalite.Allocator.Bitmap.{page_used, IsUpdate}
use kernalite.Allocator.Search.{IsReady, IsAllocated, IsRefused, page_alloc-first_fit}
use kernalite.Allocator.Free.{page_index, InRegion, page_free-IsUpdate, page_free-ignored}
use kernalite.Allocator.Reserve.{reserve_page-outcome}
use kernalite.Allocator.Abstract.{
  Status, with_status, Call, alloc_call, free_call, reserve_call, pointer, nothing, accepted,
  perform, take, abstract, perform_all, abstract_all, IsPlain,
}
use kernalite.Allocator.Abstract.Fit.{first_fit-some, first_fit-none}

module _ (a : Allocator) (ready : IsReady a) (m : Mem) where
  -- The bitmap as a status per page.
  abbrev status : Mem → Status
  status = page_used a.bitmap

  updated :
      {lo hi : ℕ} {v : Bool} {m' : Mem}
      → IsUpdate a.bitmap lo hi v m m'
      → with_status lo hi v (status m) ≡ status m'
  updated u = fun_ext (λ j. sym (u.status j))

  -- The code takes the step of the abstract allocator.
  abbrev IsMatched : Call → Type 0
  IsMatched c = abstract a c (status m) ≡ ((perform a c m).0, status (perform a c m).1)

  found-IsMatched :
      (n s : ℕ)
      → IsAllocated a (suc n) m s (page_alloc a (suc n) m)
      → IsMatched (alloc_call (suc n))
  unfolding abstract perform
  found-IsMatched n s done =
      ap (take a (suc n) (status m)) (
        first_fit-some (status m) (suc n) (a.total_pages - n) 0 s (omega arith)
          (omega (arith, done.first.in_range)) done.first.free done.first.least)
      ∙ ap₂ (λ (x : ℕ) (u : Status). (pointer x, u)) (sym done.pointer) (updated done.update)

  refused-IsMatched :
      (n : ℕ) → IsRefused a (suc n) m (page_alloc a (suc n) m) → IsMatched (alloc_call (suc n))
  unfolding abstract perform
  refused-IsMatched n refused =
      ap (take a (suc n) (status m)) (
        first_fit-none (status m) (suc n) (a.total_pages - n) 0
          (λ t l. refused.none_free t (omega arith)))
      ∙ ap (λ (r : ℕ × Mem). (pointer r.0, status r.1)) (sym refused.unchanged)

  page_alloc_zero : page_alloc a 0 m ≡ (0, m)
  unfolding page_alloc
  page_alloc_zero = refl

  alloc-IsMatched : (n : ℕ) → IsMatched (alloc_call n)
  unfolding abstract perform
  alloc-IsMatched zero = rw page_alloc_zero refl
  alloc-IsMatched (suc n) = elim (page_alloc-first_fit a (suc n) m ready (omega arith)) [
    | inl (s, done) ↦ found-IsMatched n s done
    | inr refused ↦ refused-IsMatched n refused
  ]

  in_or_out :
      (ptr : ℕ)
      → InRegion a ptr ⊎ ((ptr < a.mem_base) ⊎ (a.mem_base + a.total_pages * page_size ≤ ptr))
  in_or_out ptr = ground arith

  free-IsMatched : (ptr n : ℕ) → page_index a ptr + n < 2 ^ 64 → IsMatched (free_call ptr n)
  unfolding abstract perform
  free-IsMatched ptr n w = elim (in_or_out ptr) [
    | inl h ↦
        let inside : (ltb ptr a.mem_base || leb (a.mem_base + a.total_pages * page_size) ptr)
            ≡ false =
          ground arith in
        rw inside
          (ap (λ (u : Status). (nothing, u)) (updated (page_free-IsUpdate a ptr n m ready h w)))
    | inr h ↦
        let outside : (ltb ptr a.mem_base || leb (a.mem_base + a.total_pages * page_size) ptr)
            ≡ true =
          ground arith in
        rw (outside, page_free-ignored a ptr n m ready (inr h)) refl
  ]

  reserve-IsMatched :
      (ptr n : ℕ) → 0 < n → ptr + n * page_size < 2 ^ 64 → IsMatched (reserve_call ptr n)
  unfolding abstract perform
  reserve-IsMatched ptr n pos w = elim (reserve_page-outcome a ptr n m ready pos w) [
    | inl (h, done, update) ↦
        let inside : (ltb ptr a.mem_base
              || ltb (a.mem_base + a.total_pages * page_size) (ptr + n * page_size))
            ≡ false =
          ground arith in
        rw (inside, done) (ap (λ (u : Status). (accepted true, u)) (updated update))
    | inr (h, e) ↦
        let outside : (ltb ptr a.mem_base
              || ltb (a.mem_base + a.total_pages * page_size) (ptr + n * page_size))
            ≡ true =
          ground arith in
        rw (outside, e) refl
  ]

  call-IsMatched : (c : Call) → IsPlain a c → IsMatched c
  call-IsMatched (alloc_call n) h = alloc-IsMatched n
  call-IsMatched (free_call ptr n) h = free-IsMatched ptr n h
  call-IsMatched (reserve_call ptr n) h = reserve-IsMatched ptr n h.0 h.1

-- On an initialised allocator, any sequence of calls of `page_alloc`, `page_free` and `reserve_page`, with counts that do not run
-- past the address space and no empty reservation, gives the results of the allocator without a
-- bitmap that hands out the lowest block of free pages, and leaves the same status of each page.
pub perform_all-abstract_all :
    (a : Allocator) (cs : List Call) (m : Mem)
    → IsReady a
    → All (IsPlain a) cs
    → abstract_all a cs (page_used a.bitmap m)
      ≡ ((perform_all a cs m).0, page_used a.bitmap (perform_all a cs m).1)
unfolding abstract_all perform_all
perform_all-abstract_all a [] m ready h = refl
perform_all-abstract_all a (c ∷ cs) m ready h =
    rw (call-IsMatched a ready m c h.0, perform_all-abstract_all a cs (perform a c m).1 ready h.1)
      refl
