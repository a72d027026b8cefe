-- ===== src/System/Sound.antt =====
-- What holds of the machine at every time.
use kernalite.Base.{ℕ, ◌+◌, ◌-◌, ◌*◌, ◌/◌, ◌≤◌, ◌<◌, ◌≡◌, ◌⊎◌, some, List, All, arith}
use kernalite.Memory.{Mem}
use kernalite.Allocator.{Allocator, page_size}
use kernalite.Allocator.Free.{page_index}
use kernalite.Allocator.Owners.{Block, IsHeld, IsOwned}
use kernalite.PageTable.Walk.{table_at, IsPath, translate, page_number}
use kernalite.PageTable.Tree.{BitmapApart, IsTree}
use kernalite.PageTable.Confine.{IsOff, IsOffBitmap}
use kernalite.System.{Machine, wanted, InBlock}

-- A block that is held: the bitmap and the tables are elsewhere, and it holds what the client left.
pub record IsIntact (a : Allocator) (root : ℕ) (m : Mem) (heap : ℕ → ℕ) (b : Block) : Type 0 where
  pub apart :
      (j : ℕ)
      → page_index a b.ptr ≤ j
      → j < page_index a b.ptr + b.count
      → BitmapApart a (a.mem_base + j * page_size)
  pub off_tables :
      (q : List ℕ) (t : ℕ)
      → IsPath q
      → table_at m root q ≡ some t
      → (page_index a t < page_index a b.ptr) ⊎ (page_index a b.ptr + b.count ≤ page_index a t)
  pub bytes : (x : ℕ) → InBlock b x → m x ≡ heap x

pub record IsSound (a : Allocator) (root : ℕ) (w : Machine) : Type 0 where
  pub tree : IsTree a w.mem root
  pub owned : IsOwned a (record { mem = w.mem; live = w.live })
  pub intact : All (IsIntact a root w.mem w.heap) w.live
  pub maps : (v : ℕ) → translate w.mem root v ≡ wanted (w.page_map (page_number v))

module _ {a : Allocator} {root : ℕ} {m : Mem} {heap : ℕ → ℕ} {b : Block} (held : IsHeld a m b)
    (intact : IsIntact a root m heap b) where
  -- The page of a byte of the block is one of its pages.
  byte_page :
      (x : ℕ)
      → InBlock b x
      → (j : ℕ) × (page_index a b.ptr ≤ j)
        × (j < page_index a b.ptr + b.count)
        × (a.mem_base + j * page_size ≤ x)
        × (x < a.mem_base + j * page_size + page_size)
  byte_page x h = (
    (x - a.mem_base) / page_size,
    omega (arith, held.on_page, h),
    omega (arith, held.on_page, h),
    omega (arith, held.on_page, h),
    omega (arith, held.on_page, h),
  )

  pub byte-IsOffBitmap : (x : ℕ) → InBlock b x → IsOffBitmap a x
  byte-IsOffBitmap x h =
      let (j, from, to, low, high) = byte_page x h in ground (arith, intact.apart j from to)

  pub byte-IsOff :
      (tree : IsTree a m root) (q : List ℕ) (t : ℕ)
      → IsPath q
      → table_at m root q ≡ some t
      → (x : ℕ) → InBlock b x
      → IsOff t x
  byte-IsOff tree q t path at x h =
      let page = tree.owned q t path at in
      ground (arith, intact.off_tables q t path at, page.on_page, held.on_page, h)
