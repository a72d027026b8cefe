-- ===== src/System/Reserved.antt =====
-- Pages that are in use though no client holds them and no table lies there, as those of the kernel's
-- image, step by step.
use kernalite.Base.{
  ℕ, zero, suc, ◌+◌, ◌*◌, ◌%◌, ◌≤◌, ◌<◌, ◌≡◌, ◌≢◌, refl, ◌⊎◌, inl, inr, true, false, ◌∙◌, sym, ap,
  arith, some, List, ◌∷◌, ◌++◌, All, All-remove, ==_ne, ℕ_discrete,
}
use mathlib.Core.Path.{subst}
use kernalite.Memory.{Mem, store}
use kernalite.Allocator.{Allocator, page_size, page_alloc}
use kernalite.Allocator.Bitmap.{page_used}
use kernalite.Allocator.Free.{page_index}
use kernalite.Allocator.Search.{IsAllocated, page_alloc-first_fit}
use kernalite.Allocator.Owners.{Block}
use kernalite.PageTable.{PagePermissions, map_page}
use kernalite.PageTable.Walk.{table_at, IsPath}
use kernalite.PageTable.Tree.{IsPool, IsTree}
use kernalite.PageTable.Confine.{IsOffBitmap, IsConfined, IsConfined-refl}
use kernalite.PageTable.Map.{map_page-IsOutcome, map_page_unaligned}
use kernalite.PageTable.Keep.{kept_table_at}
use kernalite.System.{
  Machine, InBlock, Step, alloc, free, map, write, allocated, freed, mapped, written,
}
use kernalite.System.Sound.{IsSound}
use kernalite.System.Calls.{tables_untouched, page_alloc_zero, freed_pages, free_frame}
use kernalite.System.Writing.{store_elsewhere, block-IsHeld, untouched, same_status}

-- `x` is a byte of page `j`.
abbrev pub InPage : Allocator → ℕ → ℕ → Type 0
InPage a j x = (a.mem_base + j * page_size ≤ x) × (x < a.mem_base + j * page_size + page_size)

-- Page `j` is none of the block's.
abbrev pub IsOutside : Allocator → ℕ → Block → Type 0
IsOutside a j b = (j < page_index a b.ptr) ⊎ (page_index a b.ptr + b.count ≤ j)

pub record IsReserved (a : Allocator) (root : ℕ) (m : Mem) (live : List Block) (j : ℕ)
    : Type 0 where
  pub in_range : j < a.total_pages
  pub used : page_used a.bitmap m j ≡ true
  pub off_blocks : All (IsOutside a j) live
  pub off_tables : (q : List ℕ) (t : ℕ) → IsPath q → table_at m root q ≡ some t → page_index a t ≢ j

-- The page is still reserved, and its bytes off the bitmap are the same.
abbrev IsPreservedIn : Allocator → ℕ → ℕ → Mem → Mem → List Block → Type 0
IsPreservedIn a root j m m' live =
    IsReserved a root m' live j × ((x : ℕ) → InPage a j x → IsOffBitmap a x → m' x ≡ m x)

abbrev pub IsPreserved : Allocator → ℕ → ℕ → Machine → Machine → Type 0
IsPreserved a root j w u = IsPreservedIn a root j w.mem u.mem u.live

pub map_page-IsConfined :
    {a : Allocator} {root : ℕ} (pool : IsPool a) (m : Mem) (tree : IsTree a m root) (v phy_addr : ℕ)
    (perms : PagePermissions)
    → IsConfined a m (map_page a root v phy_addr perms m).1 root
map_page-IsConfined {a} {root} pool m tree v phy_addr perms =
    elim (ℕ_discrete (phy_addr % page_size) 0) [
      | no odd ↦ rw (map_page_unaligned a root v phy_addr perms m odd) (IsConfined-refl a m root)
      | yes even ↦ elim (map_page-IsOutcome root v phy_addr perms pool m tree even) [
        | inl (e, h) ↦ h.confined
        | inr (e, h) ↦ h.confined
      ]
    ]

module _ {a : Allocator} {root : ℕ} {j : ℕ} (pool : IsPool a) (w : Machine)
    (sound : IsSound a root w) (reserved : IsReserved a root w.mem w.live j) where
  -- After a change that moves no table.
  kept-IsReserved :
      (m' : Mem) (live : List Block)
      → ((q : List ℕ) → IsPath q → table_at m' root q ≡ table_at w.mem root q)
      → page_used a.bitmap m' j ≡ true
      → All (IsOutside a j) live
      → IsReserved a root m' live j
  kept-IsReserved m' live same used outside = record {
    in_range = reserved.in_range;
    used = used;
    off_blocks = outside;
    off_tables = λ q t path at. reserved.off_tables q t path (sym (same q path) ∙ at);
  }

  free_other : (k : ℕ) → page_used a.bitmap w.mem k ≡ false → k ≢ j
  free_other k is_free e = cc (sym reserved.used ∙ ap (page_used a.bitmap w.mem) (sym e) ∙ is_free)

  mapped-IsPreserved :
      (v phy_addr : ℕ) (perms : PagePermissions)
      → IsPreserved a root j w (mapped a root v phy_addr perms w)
  unfolding mapped
  mapped-IsPreserved v phy_addr perms =
      let confined = map_page-IsConfined pool w.mem sound.tree v phy_addr perms in
      (
        record {
          in_range = reserved.in_range;
          used = confined.used j reserved.in_range reserved.used;
          off_blocks = reserved.off_blocks;
          off_tables = λ q t path at. elim (confined.tables q t path at) [
            | inl old ↦ reserved.off_tables q t path old
            | inr (k, l, is_free, here) ↦ λ e. free_other k is_free (omega arith)
          ];
        },
        λ x inside off.
            confined.frame x off
              (λ t free.
                let other = free_other free.0 free.2 in omega (arith, free.3, other, inside))
              (λ q t path at.
                let page = sound.tree.owned q t path at in
                omega (arith, page.on_page, reserved.off_tables q t path at, inside)),
      )

  -- A change of the bitmap that keeps the page in use.
  bitmap-IsPreservedIn :
      (m' : Mem) (live : List Block)
      → ((x : ℕ) → IsOffBitmap a x → m' x ≡ w.mem x)
      → page_used a.bitmap m' j ≡ true
      → All (IsOutside a j) live
      → IsPreservedIn a root j w.mem m' live
  bitmap-IsPreservedIn m' live frame used outside = (
    kept-IsReserved m' live (kept_table_at sound.tree (tables_untouched sound.tree frame)) used
        outside,
    λ x inside off. frame x off,
  )

  given-IsPreserved :
      (n s : ℕ)
      → 0 < n
      → IsAllocated a n w.mem s (page_alloc a n w.mem)
      → IsPreserved a root j w (allocated a n w)
  unfolding allocated
  given-IsPreserved n s pos done =
      rw (==_ne (page_alloc a n w.mem).0 0 (omega (arith, done.pointer, pool.ready.base_pos))) (
        bitmap-IsPreservedIn _ _ (λ x h. done.update.frame x (ground (arith, done.first.in_range)))
          (ground (arith, done.update.status j, reserved.used))
          (block_outside, reserved.off_blocks))
    where
      block_outside : IsOutside a j (record { ptr = (page_alloc a n w.mem).0; count = n })
      block_outside =
          let index : page_index a (page_alloc a n w.mem).0 ≡ s = omega (arith, done.pointer) in
          rw index (ground (arith, done.first.free j, reserved.used))

  refused-IsPreserved :
      (n : ℕ) → page_alloc a n w.mem ≡ (0, w.mem) → IsPreserved a root j w (allocated a n w)
  unfolding allocated
  refused-IsPreserved n e = rw e (reserved, λ x inside off. refl)

  allocated-IsPreserved : (n : ℕ) → IsPreserved a root j w (allocated a n w)
  allocated-IsPreserved zero = refused-IsPreserved 0 (page_alloc_zero pool w sound)
  allocated-IsPreserved (suc n) =
      elim (page_alloc-first_fit a (suc n) w.mem pool.ready (omega arith)) [
        | inl (s, done) ↦ given-IsPreserved (suc n) s (omega arith) done
        | inr refused ↦ refused-IsPreserved (suc n) refused.unchanged
      ]

  module _ (xs : List Block) (b : Block) (ys : List Block) (at : w.live ≡ xs ++ (b ∷ ys)) where
    parts_apart : IsOutside a j b × All (IsOutside a j) (xs ++ ys)
    parts_apart =
        All-remove (IsOutside a j) xs b ys (subst (All (IsOutside a j)) at reserved.off_blocks)

    freed-IsPreserved : IsPreserved a root j w (freed a b (xs ++ ys) w)
    unfolding freed
    freed-IsPreserved =
        let update = freed_pages pool w sound xs b ys at in
        bitmap-IsPreservedIn _ _ (free_frame pool w sound xs b ys at)
          (ground (arith, update.status j, reserved.used, parts_apart.0)) parts_apart.1

    written-IsPreserved : (p byte : ℕ) → InBlock b p → IsPreserved a root j w (written p byte w)
    unfolding written
    written-IsPreserved p byte inside =
        let held = block-IsHeld w sound xs b ys p byte at inside in
        (
          kept-IsReserved (store w.mem p byte) w.live
              (kept_table_at sound.tree (untouched w sound xs b ys p byte at inside))
              (same_status w sound xs b ys p byte at inside j reserved.in_range ∙ reserved.used)
              reserved.off_blocks,
          λ x here off.
              store_elsewhere w.mem p byte x
                (omega (arith, held.on_page, parts_apart.0, inside, here)),
        )

  pub Step-IsPreserved : {u : Machine} → Step a root w u → IsPreserved a root j w u
  Step-IsPreserved (alloc _ n) = allocated-IsPreserved n
  Step-IsPreserved (free _ xs b ys e) = freed-IsPreserved xs b ys e
  Step-IsPreserved (map _ v phy_addr perms) = mapped-IsPreserved v phy_addr perms
  Step-IsPreserved (write _ xs b ys p byte e h) = written-IsPreserved xs b ys e p byte h
