-- ===== src/PageTable/Map.antt =====
-- `map_page`: one page is mapped, every other translation stays, and the tree stays a tree.
use kernalite.Base.{
  ℕ, ◌%◌, ◌≡◌, ◌≢◌, refl, ◌⊎◌, inl, inr, Bool, true, false, ◌∙◌, arith, ◌==◌, ==_ne, if◌then◌else◌,
  some, List, [], ◌∷◌,
}
use kernalite.Fields.{bit_and-mask}
use kernalite.Memory.{Mem}
use kernalite.Allocator.{Allocator, page_size}
use kernalite.PageTable.{
  entry_at, get_next_level_table, index_of, map_page, PagePermissions, write_leaf,
}
use kernalite.PageTable.Descriptor.{get, valid}
use kernalite.PageTable.Leaf.{descriptor, write_leaf-Holds}
use kernalite.PageTable.Walk.{
  path_of, path_of-IsPath, outer-IsPath, middle-IsPath, translate, page_number,
}
use kernalite.PageTable.Tree.{IsPool, IsTree}
use kernalite.PageTable.Confine.{IsConfined, IsConfined-refl, IsConfined-trans}
use kernalite.PageTable.Grow.{IsGrown}
use kernalite.PageTable.Next.{IsFull, IsStep, get_next_level_table-outcome}
use kernalite.PageTable.Place.{placed-IsTree, placed-IsConfined, placed_here, placed_elsewhere}

-- The addresses of the page of `v` are translated by a descriptor of `phy_addr` and the permissions,
-- and all others as before.
pub record IsMapped (a : Allocator) (m m' : Mem) (root v phy_addr : ℕ) (perms : PagePermissions)
    : Type 0 where
  pub tree : IsTree a m' root
  pub mapped :
      (w : ℕ)
      → page_number w ≡ page_number v
      → translate m' root w ≡ some (descriptor phy_addr perms)
  pub others : (w : ℕ) → page_number w ≢ page_number v → translate m' root w ≡ translate m root w
  pub confined : IsConfined a m m' root

-- No translation has changed, and no page is left in the region.
pub record IsKept (a : Allocator) (m m' : Mem) (root : ℕ) : Type 0 where
  pub tree : IsTree a m' root
  pub same : (w : ℕ) → translate m' root w ≡ translate m root w
  pub full : IsFull a m'
  pub confined : IsConfined a m m' root

descriptor-valid :
    (phy_addr : ℕ) (perms : PagePermissions) → get valid (descriptor phy_addr perms) ≡ 1
unfolding descriptor
descriptor-valid phy_addr perms = ground arith

-- A mapping that succeeded, or one that failed and changed no translation.
abbrev pub IsOutcome : Allocator → Mem → ℕ → ℕ → ℕ → PagePermissions → Bool × Mem → Type 0
IsOutcome a m root v phy_addr perms r =
    ((r.0 ≡ true) × IsMapped a m r.1 root v phy_addr perms) ⊎ ((r.0 ≡ false) × IsKept a m r.1 root)

module _ {a : Allocator} {m m' : Mem} {root v phy_addr u : ℕ} {perms : PagePermissions}
    {path : List ℕ} (r : Bool × Mem) (grows : IsGrown a m m' root path u) where
  -- An outcome for the grown tree is one for the tree before.
  IsOutcome-before : IsOutcome a m' root v phy_addr perms r → IsOutcome a m root v phy_addr perms r
  IsOutcome-before = elim [
    | inl (e, h) ↦ inl (
      e,
      record {
        tree = h.tree;
        mapped = h.mapped;
        others = λ w ne. h.others w ne ∙ grows.same w;
        confined = IsConfined-trans grows.confined h.confined;
      },
    )
    | inr (e, h) ↦ inr (
      e,
      record {
        tree = h.tree;
        same = λ w. h.same w ∙ grows.same w;
        full = h.full;
        confined = IsConfined-trans grows.confined h.confined;
      },
    )
  ]

module _ {a : Allocator} (root v phy_addr : ℕ) (perms : PagePermissions) (pool : IsPool a) where
  -- The end of `map_page` from each level on: a null pointer ends it.
  abbrev at_level3 : ℕ × Mem → Bool × Mem
  at_level3 (level3, m) =
      if level3 == 0
      then (false, m)
      else (true, write_leaf (entry_at level3 (index_of v 12)) phy_addr perms m)

  abbrev at_level2 : ℕ × Mem → Bool × Mem
  at_level2 (level2, m) =
      if level2 == 0
      then (false, m)
      else at_level3 (get_next_level_table a (entry_at level2 (index_of v 21)) m)

  abbrev at_level1 : ℕ × Mem → Bool × Mem
  at_level1 (level1, m) =
      if level1 == 0
      then (false, m)
      else at_level2 (get_next_level_table a (entry_at level1 (index_of v 30)) m)

  at_level3-IsOutcome :
      (m : Mem) (r : ℕ × Mem)
      → IsTree a m root
      → IsStep a m root (path_of v) r ⊎ ((r ≡ (0, m)) × IsFull a m)
      → IsOutcome a m root v phy_addr perms (at_level3 r)
  at_level3-IsOutcome m r tree (inl step) =
      let holds = write_leaf-Holds (entry_at r.0 (index_of v 12)) phy_addr perms r.1 in
      let grows = step.grows in
      rw (==_ne r.0 0 step.not_null) (
        IsOutcome-before _ grows (
          inl (
            refl,
            record {
              tree = placed-IsTree v pool grows.tree grows.reaches holds;
              mapped =
                  placed_here v pool grows.tree grows.reaches holds
                    (descriptor-valid phy_addr perms);
              others = placed_elsewhere v pool grows.tree grows.reaches holds;
              confined = placed-IsConfined v pool grows.tree grows.reaches holds;
            },
          )))
  at_level3-IsOutcome m r tree (inr (e, full)) = rw e (
      inr (
        refl,
        record { tree = tree; same = λ w. refl; full = full; confined = IsConfined-refl a m root },
      ))

  at_level2-IsOutcome :
      (m : Mem) (r : ℕ × Mem)
      → IsTree a m root
      → IsStep a m root (index_of v 30 ∷ index_of v 39 ∷ []) r ⊎ ((r ≡ (0, m)) × IsFull a m)
      → IsOutcome a m root v phy_addr perms (at_level2 r)
  at_level2-IsOutcome m r tree (inl step) = rw (==_ne r.0 0 step.not_null) (
      IsOutcome-before _ step.grows (
        at_level3-IsOutcome r.1 _ step.grows.tree (
          get_next_level_table-outcome _ pool step.grows.tree (path_of-IsPath v)
            step.grows.reaches)))
  at_level2-IsOutcome m r tree (inr (e, full)) = rw e (
      inr (
        refl,
        record { tree = tree; same = λ w. refl; full = full; confined = IsConfined-refl a m root },
      ))

  at_level1-IsOutcome :
      (m : Mem) (r : ℕ × Mem)
      → IsTree a m root
      → IsStep a m root (index_of v 39 ∷ []) r ⊎ ((r ≡ (0, m)) × IsFull a m)
      → IsOutcome a m root v phy_addr perms (at_level1 r)
  at_level1-IsOutcome m r tree (inl step) = rw (==_ne r.0 0 step.not_null) (
      IsOutcome-before _ step.grows (
        at_level2-IsOutcome r.1 _ step.grows.tree (
          get_next_level_table-outcome _ pool step.grows.tree (middle-IsPath v)
            step.grows.reaches)))
  at_level1-IsOutcome m r tree (inr (e, full)) = rw e (
      inr (
        refl,
        record { tree = tree; same = λ w. refl; full = full; confined = IsConfined-refl a m root },
      ))

  map_page_aligned :
      (m : Mem)
      → phy_addr % page_size ≡ 0
      → map_page a root v phy_addr perms m
        ≡ at_level1 (get_next_level_table a (entry_at root (index_of v 39)) m)
  unfolding map_page
  map_page_aligned m h = rw (bit_and-mask 12 phy_addr, h)

  -- On a tree of page tables, `map_page` of an address on a page boundary either succeeds: the page
  -- of the virtual address is translated by the descriptor for the address and the permissions, and
  -- every other page as before; or it reports failure, every page is translated as before, and
  -- every page of the region is in use. In both cases the tables are a tree of distinct used pages
  -- again that has the tables from before, no used page becomes free, each page that becomes used
  -- is a table, each new table is a page that was free, and no byte changes outside of the bitmap,
  -- the pages that were free and the tables.
  pub map_page-IsOutcome :
      (m : Mem)
      → IsTree a m root
      → phy_addr % page_size ≡ 0
      → IsOutcome a m root v phy_addr perms (map_page a root v phy_addr perms m)
  map_page-IsOutcome m tree h = rw (map_page_aligned m h) (
      at_level1-IsOutcome m _ tree
        (get_next_level_table-outcome [] pool tree (outer-IsPath v) refl))

-- An address that is not on a page boundary is refused, and nothing changes.
pub map_page_unaligned :
    (a : Allocator) (root v phy_addr : ℕ) (perms : PagePermissions) (m : Mem)
    → phy_addr % page_size ≢ 0
    → map_page a root v phy_addr perms m ≡ (false, m)
unfolding map_page
map_page_unaligned a root v phy_addr perms m h =
    rw (bit_and-mask 12 phy_addr, ==_ne (phy_addr % page_size) 0 h)
