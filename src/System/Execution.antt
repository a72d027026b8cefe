-- ===== src/System/Execution.antt =====
-- Any sequence of calls and writes on one machine.
use kernalite.Base.{
  ℕ, ◌*◌, ◌^◌, ◌<◌, ◌≡◌, ◌≢◌, refl, Option, none, some, List, [], ◌∷◌, ◌∙◌, ap, arith,
}
use kernalite.Memory.{Mem}
use kernalite.Allocator.{Allocator, page_alloc}
use kernalite.PageTable.{page_table_init}
use kernalite.PageTable.Walk.{page_number}
use kernalite.PageTable.Tree.{IsPool}
use kernalite.PageTable.Root.{FreeApart, page_table_init-page_alloc}
use kernalite.PageTable.Dump.{Line, dump_memory_map}
use kernalite.PageTable.Shown.{shown_line, line-shown}
use kernalite.PageTable.Collect.{collect, collect-cong}
use kernalite.PageTable.Listing.{page_line, dump_memory_map-translate}
use kernalite.System.{Machine, Request, wanted, Step, alloc, free, map, write, Reach, here, next}
use kernalite.System.Sound.{IsSound}
use kernalite.System.Calls.{allocated-IsSound, freed-IsSound}
use kernalite.System.Mapping.{mapped-IsSound}
use kernalite.System.Writing.{written-IsSound}

module _ {a : Allocator} {root : ℕ} (pool : IsPool a) where
  Step-IsSound : {w u : Machine} → Step a root w u → IsSound a root w → IsSound a root u
  Step-IsSound (alloc w n) s = allocated-IsSound pool w s n
  Step-IsSound (free w xs b ys e) s = freed-IsSound pool w s xs b ys e
  Step-IsSound (map w v phy_addr perms) s = mapped-IsSound pool w s v phy_addr perms
  Step-IsSound (write w xs b ys p byte e h) s = written-IsSound w s xs b ys p byte e h

  -- On an initialised allocator with addresses below `2 ^ 48`, and from a sound machine on: whatever
  -- sequence of allocations, frees, mappings and writes follows, as long as a client frees
  -- only blocks that it holds and writes only bytes of them, the machine stays sound: the tables
  -- are a tree of distinct used pages, the held blocks lie on used pages that they share neither
  -- with each other nor with a table nor with the bitmap, each of their bytes is the one that the
  -- client left there, and each page is translated by the descriptor of the last mapping of it that
  -- succeeded.
  pub Reach-IsSound : {w u : Machine} → IsSound a root w → Reach a root w u → IsSound a root u
  Reach-IsSound s here = s
  Reach-IsSound s (next r step) = Step-IsSound step (Reach-IsSound s r)

-- The machine on which a root table was just allocated and cleared.
unfoldable pub started : Allocator → Mem → Machine
started a m = record {
  mem = page_table_init (page_alloc a 1 m).0 (page_alloc a 1 m).1;
  live = [];
  heap = λ x. 0;
  page_map = λ n. none;
}

pub started-IsSound :
    (a : Allocator) (m : Mem)
    → IsPool a
    → FreeApart a m
    → (page_alloc a 1 m).0 ≢ 0
    → IsSound a (page_alloc a 1 m).0 (started a m)
unfolding started
started-IsSound a m pool free_apart ok =
    let (tree, empty) = page_table_init-page_alloc a m pool free_apart ok in
    record { tree = tree; owned = record { held = tt; apart = tt }; intact = tt; maps = empty }

-- The line of page `n`, where it is mapped.
abbrev pub request_line : ℕ → Option Request → List Line
request_line n none = []
request_line n (some r) = shown_line n r.phy_addr r.perms ∷ []

page_line-request : (n : ℕ) (o : Option Request) → page_line n (wanted o) ≡ request_line n o
page_line-request n none = refl
page_line-request n (some r) = rw (line-shown r.phy_addr r.perms n) refl

-- On an initialised allocator with addresses below `2 ^ 48` and no byte of the bitmap in a free page,
-- after any sequence of allocations, frees, mappings and writes on the machine with a new root
-- table, whose allocation succeeded, `dump_memory_map` prints one line for each page that was mapped, in the order of the
-- addresses, with the address of the page and, of its last mapping that succeeded, the page of
-- memory and the permissions: denied execution at both levels unless execution is permitted, and
-- the access that the permissions to read and write give.
pub dump_memory_map-Reach :
    (a : Allocator) (m : Mem) (w : Machine)
    → IsPool a
    → FreeApart a m
    → (page_alloc a 1 m).0 ≢ 0
    → Reach a (page_alloc a 1 m).0 (started a m) w
    → dump_memory_map (page_alloc a 1 m).0 w.mem
      ≡ collect (λ n. request_line n (w.page_map n)) 0 (2 ^ 36)
dump_memory_map-Reach a m w pool free_apart ok reach =
    let root = (page_alloc a 1 m).0 in
    let sound = Reach-IsSound pool (started-IsSound a m pool free_apart ok) reach in
    let number =
      λ (n : ℕ) (h : n < 2 ^ 36). let e : page_number (n * 2 ^ 12) ≡ n = omega (arith, h) in e in
    dump_memory_map-translate root w.mem
    ∙ collect-cong _ _ 0 (2 ^ 36) (λ n low high.
      ap (page_line n)
        (sound.maps (n * 2 ^ 12) ∙ ap (λ (i : ℕ). wanted (w.page_map i)) (number n high))
      ∙ page_line-request n (w.page_map n))
