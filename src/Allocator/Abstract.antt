-- ===== src/Allocator/Abstract.antt =====
-- The allocator without its bitmap: a status for each page, and the lowest block of free pages by
-- trying every start in turn: what page_alloc, page_free and reserve_page of
-- kernel/allocator/page_allocator.c are compared with.
pub mod Fit
pub mod Refine
use kernalite.Base.{
  ℕ, zero, suc, min, ◌+◌, ◌-◌, ◌*◌, ◌^◌, ◌≤◌, ◌<◌, ◌≡◌, ◌≢◌, refl, ◌⊎◌, inl, inr, Bool, true, false,
  ◌||◌, ltb, leb, within, if◌then◌else◌, arith, Option, none, some, List, [], ◌∷◌, All, ap, ◌∙◌,
  sym, fun_ext, Bool-cases,
}
use kernalite.Memory.{Mem}
use kernalite.Allocator.{Allocator, page_size, page_alloc, page_free, reserve_page}
use kernalite.Allocator.Bitmap.{page_used, IsUpdate}
use kernalite.Allocator.Search.{IsReady, IsBlocked, IsFirstFit, IsAllocated, page_alloc-first_fit}
use kernalite.Allocator.Free.{page_index, InRegion, page_free-IsUpdate, page_free-ignored}
use kernalite.Allocator.Reserve.{reserve_page-outcome}

-- Whether each page is in use.
abbrev pub Status : Type 0
Status = ℕ → Bool

-- The `n` pages from `s` on are free.
pub all_free : Status → ℕ → ℕ → Bool
all_free used s zero = true
all_free used s (suc n) = if used s then false else all_free used (s + 1) n

-- The first start from `s` on, of `rounds` of them, of a block of `n` free pages.
pub first_fit : Status → ℕ → ℕ → ℕ → Option ℕ
first_fit used n zero s = none
first_fit used n (suc rounds) s =
    let rest = first_fit used n rounds (s + 1) in if all_free used s n then some s else rest

-- The pages from `lo` up to `hi` get the status `v`.
abbrev pub with_status : ℕ → ℕ → Bool → Status → Status
with_status lo hi v used j = if within lo hi j then v else used j

pub data Call : Type 0 where
  alloc_call : ℕ → Call
  free_call : ℕ → ℕ → Call
  reserve_call : ℕ → ℕ → Call

pub data Result : Type 0 where
  pointer : ℕ → Result
  nothing : Result
  accepted : Bool → Result

module _ (a : Allocator) where
  -- The calls of the code.
  pub perform : Call → Mem → Result × Mem
  perform (alloc_call n) m = let (ptr, m') = page_alloc a n m in (pointer ptr, m')
  perform (free_call ptr n) m = (nothing, page_free a ptr n m)
  perform (reserve_call ptr n) m = let (done, m') = reserve_page a ptr n m in (accepted done, m')

  -- The result for a block that was found, if one was.
  abbrev pub take : ℕ → Status → Option ℕ → Result × Status
  take n used none = (pointer 0, used)
  take n used (some s) = (pointer (a.mem_base + s * page_size), with_status s (s + n) true used)

  -- The same on the status of the pages alone.
  pub abstract : Call → Status → Result × Status
  abstract (alloc_call zero) used = (pointer 0, used)
  abstract (alloc_call (suc n)) used =
      take (suc n) used (first_fit used (suc n) (a.total_pages - n) 0)
  abstract (free_call ptr n) used =
      if ltb ptr a.mem_base || leb (a.mem_base + a.total_pages * page_size) ptr
      then (nothing, used)
      else (
        nothing,
        with_status (page_index a ptr) (min (page_index a ptr + n) a.total_pages) false used,
      )
  abstract (reserve_call ptr n) used =
      if ltb ptr a.mem_base || ltb (a.mem_base + a.total_pages * page_size) (ptr + n * page_size)
      then (accepted false, used)
      else (accepted true, with_status (page_index a ptr) (page_index a ptr + n) true used)

  pub perform_all : List Call → Mem → List Result × Mem
  perform_all [] m = ([], m)
  perform_all (c ∷ cs) m =
      let (r, m') = perform c m in let (rs, m'') = perform_all cs m' in (r ∷ rs, m'')

  pub abstract_all : List Call → Status → List Result × Status
  abstract_all [] used = ([], used)
  abstract_all (c ∷ cs) used =
      let (r, used') = abstract c used in
      let (rs, used'') = abstract_all cs used' in (r ∷ rs, used'')

  -- The counts of the call do not run past the address space, and at least one page is reserved.
  abbrev pub IsPlain : Call → Type 0
  IsPlain (alloc_call n) = Unit
  IsPlain (free_call ptr n) = page_index a ptr + n < 2 ^ 64
  IsPlain (reserve_call ptr n) = (0 < n) × (ptr + n * page_size < 2 ^ 64)
