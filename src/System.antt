-- ===== src/System.antt =====
-- The parts at work together: clients that allocate, free and write pages, and mappings that are
-- made in one tree of page tables, all over one memory and one bitmap. Besides the memory the
-- state holds what the clients believe: the blocks that they hold, the bytes that they left there,
-- and what each page was last mapped to.
pub mod Sound
pub mod Calls
pub mod Mapping
pub mod Writing
pub mod Reserved
pub mod Execution
pub mod Image
pub mod Accounted
pub mod Pages
mod Examples
use kernalite.Base.{
  ℕ, ◌+◌, ◌*◌, ◌≤◌, ◌<◌, ◌≡◌, ◌==◌, within, if◌then◌else◌, Option, none, some, List, ◌∷◌, ◌++◌,
}
use kernalite.Memory.{Mem, store}
use kernalite.Allocator.{Allocator, page_size, page_alloc, page_free}
use kernalite.Allocator.Owners.{Block}
use kernalite.PageTable.{map_page, PagePermissions}
use kernalite.PageTable.Leaf.{descriptor}
use kernalite.PageTable.Walk.{page_number}

-- What a page is mapped to, and with which permissions.
pub record Request : Type 0 where
  pub phy_addr : ℕ
  pub perms : PagePermissions

pub record Machine : Type 0 where
  pub mem : Mem
  pub live : List Block
  pub heap : ℕ → ℕ
  pub page_map : ℕ → Option Request

-- The descriptor by which a page is translated.
abbrev pub wanted : Option Request → Option ℕ
wanted none = none
wanted (some r) = some (descriptor r.phy_addr r.perms)

-- `p` is the address of a byte of the block.
abbrev pub InBlock : Block → ℕ → Type 0
InBlock b p = (b.ptr ≤ p) × (p < b.ptr + b.count * page_size)

-- `page_alloc(n)`: unless it returns `NULL` the client holds the block, with the bytes found in it.
unfoldable pub allocated : Allocator → ℕ → Machine → Machine
allocated a n w =
    let (ptr, mem') = page_alloc a n w.mem in
    if ptr == 0 then record w { mem = mem' } else record w {
      mem = mem';
      live = record { ptr = ptr; count = n } ∷ w.live;
      heap = λ x. if within ptr (ptr + n * page_size) x then mem' x else w.heap x;
    }

-- `page_free(b.ptr, b.count)`: `rest` are the blocks that are held afterwards.
unfoldable pub freed : Allocator → Block → List Block → Machine → Machine
freed a b rest w = record w { mem = page_free a b.ptr b.count w.mem; live = rest }

-- `map_page(root, v, phy_addr, perms)`
unfoldable pub mapped : Allocator → ℕ → ℕ → ℕ → PagePermissions → Machine → Machine
mapped a root v phy_addr perms w =
    let (done, mem') = map_page a root v phy_addr perms w.mem in
    record w {
      mem = mem';
      page_map =
          if done
          then (λ n.
              if n == page_number v
              then some (record { phy_addr = phy_addr; perms = perms })
              else w.page_map n)
          else w.page_map;
    }

-- A client writes one byte.
unfoldable pub written : ℕ → ℕ → Machine → Machine
written p byte w = record w { mem = store w.mem p byte; heap = store w.heap p byte }

module _ (a : Allocator) (root : ℕ) where
  -- One call or one write. A client frees and writes only blocks that it holds.
  pub data Step : Machine → Machine → Type 0 where
    alloc : (w : Machine) (n : ℕ) → Step w (allocated a n w)
    free :
        (w : Machine) (xs : List Block) (b : Block) (ys : List Block)
        → w.live ≡ xs ++ (b ∷ ys)
        → Step w (freed a b (xs ++ ys) w)
    map :
        (w : Machine) (v phy_addr : ℕ) (perms : PagePermissions)
        → Step w (mapped a root v phy_addr perms w)
    write :
        (w : Machine) (xs : List Block) (b : Block) (ys : List Block) (p byte : ℕ)
        → w.live ≡ xs ++ (b ∷ ys)
        → InBlock b p
        → Step w (written p byte w)

  pub data Reach (w : Machine) : Machine → Type 0 where
    here : Reach w w
    next : {u v : Machine} → Reach w u → Step u v → Reach w v
