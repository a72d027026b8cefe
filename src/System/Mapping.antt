-- ===== src/System/Mapping.antt =====
-- `map_page` on a sound machine.
use kernalite.Base.{
  ℕ, ◌+◌, ◌%◌, ◌≤◌, ◌<◌, ◌≡◌, ◌⊎◌, inl, inr, Bool, true, false, ◌∙◌, arith, ==_ne, Option, All-mono,
  ℕ_discrete, All-zip,
}
use kernalite.Memory.{Mem}
use kernalite.Allocator.{Allocator, page_size}
use kernalite.Allocator.Free.{page_index}
use kernalite.Allocator.Owners.{Block, IsHeld}
use kernalite.PageTable.{map_page, PagePermissions}
use kernalite.PageTable.Walk.{translate, page_number}
use kernalite.PageTable.Tree.{IsPool, IsTree}
use kernalite.PageTable.Confine.{IsConfined, IsFreePage, IsOff}
use kernalite.PageTable.Map.{IsMapped, IsKept, map_page-IsOutcome, map_page_unaligned}
use kernalite.System.{Machine, Request, wanted, InBlock, mapped}
use kernalite.System.Sound.{IsIntact, IsSound, byte-IsOffBitmap, byte-IsOff}

module _ {a : Allocator} {root : ℕ} {w : Machine} {m' : Mem} (sound : IsSound a root w)
    (confined : IsConfined a w.mem m' root) where
  still-IsHeld : (b : Block) → IsHeld a w.mem b → IsHeld a m' b
  still-IsHeld b h = record {
    on_page = h.on_page;
    some_pages = h.some_pages;
    in_range = h.in_range;
    marked = λ j from to. confined.used j (omega (arith, h.in_range)) (h.marked j from to);
  }

  -- A free page is none of a held block.
  free_page-apart :
      (b : Block)
      → IsHeld a w.mem b
      → (t : ℕ) → IsFreePage a w.mem t
      → (page_index a t < page_index a b.ptr) ⊎ (page_index a b.ptr + b.count ≤ page_index a t)
  free_page-apart b held t (k, l, free, at) =
      let index : page_index a t ≡ k = omega arith in rw index (ground (arith, held.marked k, free))

  free_page-IsOff :
      (b : Block)
      → IsHeld a w.mem b
      → (x : ℕ) → InBlock b x
      → (t : ℕ) → IsFreePage a w.mem t
      → IsOff t x
  free_page-IsOff b held x inside t free =
      let (k, l, _, at) = free in
      ground (arith, free_page-apart b held t free, at, held.on_page, inside)

  still-IsIntact :
      (b : Block) → IsHeld a w.mem b → IsIntact a root w.mem w.heap b → IsIntact a root m' w.heap b
  still-IsIntact b held h = record {
    apart = h.apart;
    off_tables = λ q t path at. elim (confined.tables q t path at) [
      | inl old ↦ h.off_tables q t path old
      | inr free ↦ free_page-apart b held t free
    ];
    bytes = λ x inside.
        confined.frame x (byte-IsOffBitmap held h x inside) (free_page-IsOff b held x inside)
          (λ q t path at. byte-IsOff held h sound.tree q t path at x inside)
        ∙ h.bytes x inside;
  }

  -- The machine after a change within these bounds is sound, with the mapping that it then has.
  confined-IsSound :
      (page_map : ℕ → Option Request)
      → IsTree a m' root
      → ((v : ℕ) → translate m' root v ≡ wanted (page_map (page_number v)))
      → IsSound a root (record w { mem = m'; page_map = page_map })
  confined-IsSound page_map tree maps = record {
    tree = tree;
    owned = record {
      held = All-mono _ _ w.live still-IsHeld sound.owned.held;
      apart = sound.owned.apart;
    };
    intact = All-zip _ _ _ w.live still-IsIntact sound.owned.held sound.intact;
    maps = maps;
  }

module _ {a : Allocator} {root : ℕ} (pool : IsPool a) (w : Machine) (sound : IsSound a root w)
    (v phy_addr : ℕ) (perms : PagePermissions) where
  abbrev result : Bool × Mem
  result = map_page a root v phy_addr perms w.mem

  done-IsSound :
      result.0 ≡ true
      → IsMapped a w.mem result.1 root v phy_addr perms
      → IsSound a root (mapped a root v phy_addr perms w)
  unfolding mapped
  done-IsSound e h = rw e (
      confined-IsSound sound h.confined _ h.tree λ x.
        elim (ℕ_discrete (page_number x) (page_number v)) [
          | yes same ↦ h.mapped x same ∙ ground arith
          | no other ↦
              h.others x other ∙ sound.maps x ∙ rw (==_ne (page_number x) (page_number v) other)
        ])

  failed-IsSound :
      result.0 ≡ false
      → IsKept a w.mem result.1 root
      → IsSound a root (mapped a root v phy_addr perms w)
  unfolding mapped
  failed-IsSound e h =
      rw e (confined-IsSound sound h.confined w.page_map h.tree (λ x. h.same x ∙ sound.maps x))

  refused-IsSound : result ≡ (false, w.mem) → IsSound a root (mapped a root v phy_addr perms w)
  unfolding mapped
  refused-IsSound e = rw e sound

  pub mapped-IsSound : IsSound a root (mapped a root v phy_addr perms w)
  mapped-IsSound = elim (ℕ_discrete (phy_addr % page_size) 0) [
    | no odd ↦ refused-IsSound (map_page_unaligned a root v phy_addr perms w.mem odd)
    | yes even ↦ elim (map_page-IsOutcome root v phy_addr perms pool w.mem sound.tree even) [
      | inl (e, h) ↦ done-IsSound e h
      | inr (e, h) ↦ failed-IsSound e h
    ]
  ]
