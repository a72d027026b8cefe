-- ===== src/System/Pages.antt =====
-- What each page is used for, after any sequence of calls and writes.
use kernalite.Base.{
  ℕ, ◌<◌, ◌≡◌, ◌≢◌, refl, inl, inr, ◌↔◌, true, ◌∙◌, sym, ap, arith, List, [], ◌∷◌, All, ℕ_discrete,
}
use mathlib.Core.List.{Memᴰ}
use mathlib.Core.Path.{subst}
use kernalite.Memory.{Mem}
use kernalite.Allocator.{Allocator, page_alloc}
use kernalite.Allocator.Bitmap.{page_used}
use kernalite.Allocator.Free.{page_index}
use kernalite.Allocator.Search.{IsAllocated, page_alloc-first_fit}
use kernalite.Allocator.Owners.{Block, IsHeld}
use kernalite.PageTable.Tree.{IsPool}
use kernalite.System.{Machine, Reach, here, next}
use kernalite.System.Sound.{IsSound}
use kernalite.PageTable.Root.{FreeApart}
use kernalite.PageTable.Root
use kernalite.System.Accounted.{IsHeldPage, HasUse, IsAccounted, Step-IsAccounted}
use kernalite.System.Execution.{Reach-IsSound, started, started-IsSound}
use kernalite.System.Image.{Reach-IsPreserved, started-IsReserved}

Reach-IsAccounted :
    {a : Allocator} {root : ℕ} {w u : Machine} (old : Mem) (pool : IsPool a)
    → IsSound a root w
    → IsAccounted a root old w.mem w.live
    → Reach a root w u
    → IsAccounted a root old u.mem u.live
Reach-IsAccounted old pool sound h here = h
Reach-IsAccounted old pool sound h (next {u} r step) =
    Step-IsAccounted old pool u (Reach-IsSound pool sound r) (Reach-IsAccounted old pool sound h r)
      step

-- A page that a block has is in use.
held-used :
    (a : Allocator) (m : Mem) (live : List Block) (j : ℕ)
    → All (IsHeld a m) live
    → IsHeldPage a live j
    → page_used a.bitmap m j ≡ true
held-used a m (c ∷ cs) j held (b, Memᴰ.head e, from, to) =
    let block : IsHeld a m b = subst (IsHeld a m) (sym e) held.0 in block.marked j from to
held-used a m (c ∷ cs) j held (b, Memᴰ.tail h, from, to) =
    held-used a m cs j held.1 (b, h, from, to)
held-used a m [] j held (b, h, from, to) = elim h [ ]

module _ {a : Allocator} {m : Mem} (pool : IsPool a) (free_apart : FreeApart a m) (s : ℕ)
    (done : IsAllocated a 1 m s (page_alloc a 1 m)) where
  -- At first, all that is new is the root table.
  started-IsAccounted : IsAccounted a (page_alloc a 1 m).0 m (started a m).mem (started a m).live
  unfolding started
  started-IsAccounted j l used = elim (ℕ_discrete j s) [
    | yes e ↦
        inr (inr ([], (page_alloc a 1 m).0, (tt, omega arith), refl, omega (arith, done.pointer)))
    | no ne ↦ inl (
        let before = sym (Root.same_status s (page_alloc a 1 m) pool free_apart done j l) ∙ used in
        ground (arith, done.update.status j, before))
  ]

-- On an initialised allocator with addresses below `2 ^ 48` and no byte of the bitmap in a free page,
-- after any sequence of allocations, frees, mappings and writes on the machine with a new root
-- table, whose allocation succeeded: a page is in use exactly if it was in use before the root was
-- allocated, belongs to a block that is held, or is a table of the tree. No page is lost, also by
-- a mapping that failed.
pub page_used-Reach :
    (a : Allocator) (m : Mem) (w : Machine)
    → IsPool a
    → FreeApart a m
    → (page_alloc a 1 m).0 ≢ 0
    → Reach a (page_alloc a 1 m).0 (started a m) w
    → (j : ℕ) → j < a.total_pages
    → (page_used a.bitmap w.mem j ≡ true) ↔ HasUse a (page_alloc a 1 m).0 m w.mem w.live j
page_used-Reach a m w pool free_apart ok reach j l =
    elim (page_alloc-first_fit a 1 m pool.ready (omega arith)) [
      | inr refused ↦ absurd (ok (ap (λ (r : ℕ × Mem). r.0) refused.unchanged))
      | inl (s, done) ↦
          let first = started-IsSound a m pool free_apart ok in
          let sound = Reach-IsSound pool first reach in
          (
            Reach-IsAccounted m pool first (started-IsAccounted pool free_apart s done) reach j l,
            λ reason. elim reason [
              | inl before ↦
                  (Reach-IsPreserved pool first (started-IsReserved pool free_apart l before s done)
                    reach).0.used
              | inr (inl held) ↦ held-used a w.mem w.live j sound.owned.held held
              | inr (inr (q, t, path, at, place)) ↦
                  let page = sound.tree.owned q t path at in
                  let index : page_index a t ≡ j = omega arith in rw index at page.marked
            ],
          )
    ]
