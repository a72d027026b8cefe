-- ===== src/System/Accounted.antt =====
-- What each page is in use for, step by step: for a client, for a table, or since before the root was
-- allocated.
use kernalite.Base.{
  ℕ, zero, suc, ◌+◌, ◌≤◌, ◌<◌, ◌≡◌, refl, ◌⊎◌, inl, inr, true, ◌∙◌, sym, arith, List, ◌∷◌, ◌++◌,
  ==_ne, Bool-cases, within,
}
use mathlib.Core.List.{Memᴰ}
use mathlib.Core.List.Memᴰ
use mathlib.Core.Path.{subst}
use kernalite.Memory.{Mem, store}
use kernalite.Allocator.{Allocator, page_alloc}
use kernalite.Allocator.Bitmap.{page_used}
use kernalite.Allocator.Free.{page_index}
use kernalite.Allocator.Search.{IsAllocated, page_alloc-first_fit}
use kernalite.Allocator.Owners.{Block}
use kernalite.PageTable.{PagePermissions}
use kernalite.PageTable.Walk.{table_at, IsPath}
use kernalite.PageTable.Tree.{IsPool}
use kernalite.PageTable.Confine.{IsTableAt}
use kernalite.PageTable.Keep.{kept_table_at}
use kernalite.System.{
  Machine, InBlock, Step, alloc, free, map, write, allocated, freed, mapped, written,
}
use kernalite.System.Sound.{IsSound}
use kernalite.System.Calls.{tables_untouched, page_alloc_zero, freed_pages, free_frame}
use kernalite.System.Writing.{untouched, same_status}
use kernalite.System.Reserved.{map_page-IsConfined}

-- A block of the list has page `j`.
abbrev pub IsHeldPage : Allocator → List Block → ℕ → Type 0
IsHeldPage a live j =
    (b : Block) × Memᴰ b live × (page_index a b.ptr ≤ j) × (j < page_index a b.ptr + b.count)

-- What page `j` is used for, in the memory `m`: `old` are the pages that were in use at first.
abbrev pub HasUse : Allocator → ℕ → Mem → Mem → List Block → ℕ → Type 0
HasUse a root old m live j =
    (page_used a.bitmap old j ≡ true) ⊎ IsHeldPage a live j ⊎ IsTableAt a root m j

abbrev pub IsAccounted : Allocator → ℕ → Mem → Mem → List Block → Type 0
IsAccounted a root old m live =
    (j : ℕ) → j < a.total_pages → page_used a.bitmap m j ≡ true → HasUse a root old m live j

module _ {a : Allocator} {root : ℕ} (old : Mem) (pool : IsPool a) (w : Machine)
    (sound : IsSound a root w) (accounted : IsAccounted a root old w.mem w.live) where
  table_kept :
      (m' : Mem) (j : ℕ)
      → ((q : List ℕ) → IsPath q → table_at m' root q ≡ table_at w.mem root q)
      → IsTableAt a root w.mem j
      → IsTableAt a root m' j
  table_kept m' j same (q, t, path, at, place) = (q, t, path, same q path ∙ at, place)

  mapped-IsAccounted :
      (v phy_addr : ℕ) (perms : PagePermissions)
      → IsAccounted a root old (mapped a root v phy_addr perms w).mem w.live
  unfolding mapped
  mapped-IsAccounted v phy_addr perms j l used =
      let confined = map_page-IsConfined pool w.mem sound.tree v phy_addr perms in
      elim (confined.accounted j l used) [
        | inr table ↦ inr (inr table)
        | inl before ↦ elim (accounted j l before) [
          | inl first ↦ inl first
          | inr (inl held) ↦ inr (inl held)
          | inr (inr (q, t, path, at, place)) ↦
              inr (inr (q, t, path, confined.kept q t path at, place))
        ]
      ]

  -- A change that moves no table, and after which only blocks have more pages.
  kept-IsAccounted :
      (m' : Mem) (live : List Block)
      → ((q : List ℕ) → IsPath q → table_at m' root q ≡ table_at w.mem root q)
      → ((j : ℕ)
          → j < a.total_pages
          → page_used a.bitmap m' j ≡ true
          → IsHeldPage a live j
            ⊎ ((page_used a.bitmap w.mem j ≡ true) × (IsHeldPage a w.live j → IsHeldPage a live j)))
      → IsAccounted a root old m' live
  kept-IsAccounted m' live same pages j l used = elim (pages j l used) [
    | inl held ↦ inr (inl held)
    | inr (before, held) ↦ elim (accounted j l before) [
      | inl first ↦ inl first
      | inr (inl h) ↦ inr (inl (held h))
      | inr (inr table) ↦ inr (inr (table_kept m' j same table))
    ]
  ]

  given-IsAccounted :
      (n s : ℕ)
      → 0 < n
      → IsAllocated a n w.mem s (page_alloc a n w.mem)
      → IsAccounted a root old (allocated a n w).mem (allocated a n w).live
  unfolding allocated
  given-IsAccounted n s pos done =
      rw (==_ne (page_alloc a n w.mem).0 0 (omega (arith, done.pointer, pool.ready.base_pos))) (
        kept-IsAccounted _ _
          (kept_table_at sound.tree (
            tables_untouched sound.tree
              λ x h. done.update.frame x (ground (arith, done.first.in_range))))
          λ j l used. elim (Bool-cases (within s (s + n) j)) [
            | inl new ↦
                inl (_, Memᴰ.head refl, ground (arith, done.pointer), ground (arith, done.pointer))
            | inr older ↦ inr (
              ground (arith, done.update.status j, used),
              λ (b, m, from, to). (b, Memᴰ.tail m, from, to),
            )
          ])

  refused-IsAccounted :
      (n : ℕ)
      → page_alloc a n w.mem ≡ (0, w.mem)
      → IsAccounted a root old (allocated a n w).mem (allocated a n w).live
  unfolding allocated
  refused-IsAccounted n e = rw e accounted

  allocated-IsAccounted :
      (n : ℕ) → IsAccounted a root old (allocated a n w).mem (allocated a n w).live
  allocated-IsAccounted zero = refused-IsAccounted 0 (page_alloc_zero pool w sound)
  allocated-IsAccounted (suc n) =
      elim (page_alloc-first_fit a (suc n) w.mem pool.ready (omega arith)) [
        | inl (s, done) ↦ given-IsAccounted (suc n) s (omega arith) done
        | inr refused ↦ refused-IsAccounted (suc n) refused.unchanged
      ]

  module _ (xs : List Block) (b : Block) (ys : List Block) (at : w.live ≡ xs ++ (b ∷ ys)) where
    -- A page that the freed block does not have is still held by the others.
    others_hold :
        (j : ℕ)
        → ¬ ((page_index a b.ptr ≤ j) × (j < page_index a b.ptr + b.count))
        → IsHeldPage a w.live j
        → IsHeldPage a (xs ++ ys) j
    others_hold j not_freed (c, m, from, to) = elim (Memᴰ.append_cases xs (subst (Memᴰ c) at m)) [
      | inl left ↦ (c, Memᴰ.append_left ys left, from, to)
      | inr right ↦ elim (Memᴰ.cases_cons right) [
        | inl e ↦ absurd (
            not_freed (
              subst (λ d. (page_index a d.ptr ≤ j) × (j < page_index a d.ptr + d.count)) e
                (from, to)))
        | inr rest ↦ (c, Memᴰ.append_right xs rest, from, to)
      ]
    ]

    freed-IsAccounted : IsAccounted a root old (freed a b (xs ++ ys) w).mem (xs ++ ys)
    unfolding freed
    freed-IsAccounted =
        let update = freed_pages pool w sound xs b ys at in
        kept-IsAccounted _ _
          (kept_table_at sound.tree
            (tables_untouched sound.tree (free_frame pool w sound xs b ys at)))
          λ j l used. inr (
            ground (arith, update.status j, used),
            others_hold j (λ h. ground (arith, update.status j, used, h, l)),
          )

    written-IsAccounted :
        (p byte : ℕ) → InBlock b p → IsAccounted a root old (written p byte w).mem w.live
    unfolding written
    written-IsAccounted p byte inside =
        kept-IsAccounted (store w.mem p byte) w.live
          (kept_table_at sound.tree (untouched w sound xs b ys p byte at inside))
          λ j l used. inr (sym (same_status w sound xs b ys p byte at inside j l) ∙ used, λ h. h)

  pub Step-IsAccounted : {u : Machine} → Step a root w u → IsAccounted a root old u.mem u.live
  unfolding mapped written freed
  Step-IsAccounted (alloc _ n) = allocated-IsAccounted n
  Step-IsAccounted (free _ xs b ys e) = freed-IsAccounted xs b ys e
  Step-IsAccounted (map _ v phy_addr perms) = mapped-IsAccounted v phy_addr perms
  Step-IsAccounted (write _ xs b ys p byte e h) = written-IsAccounted xs b ys e p byte h
