-- ===== src/PageTable/Tree.antt =====
-- The invariant of the tables that hang below a root: a tree of distinct pages of the allocator's
-- region, all of them marked used, away from the bitmap.
use kernalite.Base.{ℕ, ◌+◌, ◌*◌, ◌/◌, ◌^◌, ◌≤◌, ◌<◌, ◌≡◌, ◌⊎◌, true, false, some, List, arith}
use kernalite.Memory.{Mem}
use kernalite.Allocator.{Allocator, page_size}
use kernalite.Allocator.Bitmap.{page_used}
use kernalite.Allocator.Search.{IsReady}
use kernalite.Allocator.Free.{page_index}
use kernalite.PageTable.{entry_at}
use kernalite.PageTable.Walk.{table_at, IsPath}

-- The addresses of the region fit the 48 bits of a descriptor.
pub record IsPool (a : Allocator) : Type 0 where
  pub ready : IsReady a
  pub low : a.mem_base + a.total_pages * page_size ≤ 2 ^ 48

-- No byte of the bitmap lies in the page at `t`.
abbrev pub BitmapApart : Allocator → ℕ → Type 0
BitmapApart a t = (t + page_size ≤ a.bitmap) ⊎ (a.bitmap + (a.total_pages + 7) / 8 ≤ t)

-- `t` is a page of the region that is marked used.
pub record IsTablePage (a : Allocator) (m : Mem) (t : ℕ) : Type 0 where
  pub on_page : t ≡ a.mem_base + page_index a t * page_size
  pub in_range : page_index a t < a.total_pages
  pub marked : page_used a.bitmap m (page_index a t) ≡ true
  pub apart : BitmapApart a t

pub record IsTree (a : Allocator) (m : Mem) (root : ℕ) : Type 0 where
  pub distinct :
      (p q : List ℕ) (t : ℕ)
      → IsPath p
      → IsPath q
      → table_at m root p ≡ some t
      → table_at m root q ≡ some t
      → p ≡ q
  pub owned : (p : List ℕ) (t : ℕ) → IsPath p → table_at m root p ≡ some t → IsTablePage a m t
  pub free_apart :
      (j : ℕ)
      → j < a.total_pages
      → page_used a.bitmap m j ≡ false
      → BitmapApart a (a.mem_base + j * page_size)

-- Entries of table pages are the same, or their words do not overlap.
pub entries_apart :
    {a : Allocator} {m m' : Mem} {t u : ℕ} (i j : ℕ)
    → IsPool a
    → IsTablePage a m t
    → IsTablePage a m' u
    → i < 512
    → j < 512
    → ((t ≡ u) × (i ≡ j)) ⊎ (entry_at t i + 8 ≤ entry_at u j) ⊎ (entry_at u j + 8 ≤ entry_at t i)
entries_apart {a} i j pool h k l n = ground (arith, h.on_page, k.on_page, pool.ready.aligned)
