-- ===== src/System/Image.antt =====
-- The kernel's image from the boot on: the pages that `main` reserved for it.
mod Examples
use kernalite.Base.{
  ℕ, ◌+◌, ◌-◌, ◌*◌, ◌/◌, ◌^◌, ◌≤◌, ◌<◌, ◌≡◌, ◌≢◌, refl, ◌⊎◌, inl, inr, true, ◌∙◌, sym, ap, arith,
  Option, none, some, List, [], All, All-mono, All-zip,
}
use mathlib.Core.Path.{subst}
use mathlib.Core.Option.{some_inj}
use kernalite.Memory.{Mem, load64}
use kernalite.Allocator.{Allocator, Symbols, page_size, page_alloc}
use kernalite.Allocator.Bitmap.{page_used}
use kernalite.Allocator.Free.{page_index}
use kernalite.Allocator.Search.{IsAllocated, page_alloc-first_fit}
use kernalite.Allocator.Owners.{Block, IsHeld}
use kernalite.PageTable.{page_table_init}
use kernalite.PageTable.Extend.{init_loop-SameOutside}
use kernalite.PageTable.Walk.{table_at, IsPath}
use kernalite.PageTable.Tree.{IsPool}
use kernalite.PageTable.Root.{FreeApart, only_root, same_status}
use kernalite.PageTable.Confine.{IsOff, IsOffBitmap}
use kernalite.Fdt.{LibFdt, MemoryRegion, MemoryMap}
use kernalite.Fdt.Laws.{SwapsBytes, Searches}
use kernalite.Boot.{main}
use kernalite.Boot.Image.{IsImage, IsStarted}
use kernalite.Boot.Main.{Describes, IsSane, main-outcome}
use kernalite.System.{Machine, InBlock, Reach, here, next}
use kernalite.System.Sound.{IsSound}
use kernalite.System.Reserved.{InPage, IsReserved, IsPreserved, Step-IsPreserved}
use kernalite.System.Execution.{Reach-IsSound, started, started-IsSound}

module _ {a : Allocator} {root j : ℕ} (pool : IsPool a) where
  pub Reach-IsPreserved :
      {w u : Machine}
      → IsSound a root w
      → IsReserved a root w.mem w.live j
      → Reach a root w u
      → IsPreserved a root j w u
  Reach-IsPreserved sound reserved here = (reserved, λ x inside off. refl)
  Reach-IsPreserved sound reserved (next {u} r step) =
      let (before, same) = Reach-IsPreserved sound reserved r in
      let (after, same') = Step-IsPreserved pool u (Reach-IsSound pool sound r) before step in
      (after, λ x inside off. same' x inside off ∙ same x inside off)

-- A page that was in use before the root table was allocated.
module _ {a : Allocator} {m : Mem} {j : ℕ} (pool : IsPool a) (free_apart : FreeApart a m)
    (in_range : j < a.total_pages) (used : page_used a.bitmap m j ≡ true) (s : ℕ)
    (done : IsAllocated a 1 m s (page_alloc a 1 m)) where
  abbrev root : ℕ
  root = (page_alloc a 1 m).0

  other : j ≢ s
  other e = ground (arith, done.first.free s, used, e)

  pub started-IsReserved : IsReserved a root (started a m).mem (started a m).live j
  unfolding started
  started-IsReserved = record {
    in_range = in_range;
    used =
        same_status s (page_alloc a 1 m) pool free_apart done j in_range
        ∙ ground (arith, done.update.status j, used);
    off_blocks = tt;
    off_tables = λ q t path at e.
        let (_, is_root) = only_root s (page_alloc a 1 m) pool free_apart done q t path at in
        other (omega (arith, is_root, done.pointer, e));
  }

  started_bytes : (x : ℕ) → InPage a j x → IsOffBitmap a x → (started a m).mem x ≡ m x
  unfolding started page_table_init
  started_bytes x inside off =
      init_loop-SameOutside root 512 0 (page_alloc a 1 m).1 x
        (omega (arith, done.pointer, other, inside))
      ∙ done.update.frame x (ground (arith, done.first.in_range))

-- The byte at `x` is as it was in `m`, and it lies in no held block and on no table.
pub record IsUndisturbed (a : Allocator) (root : ℕ) (m : Mem) (w : Machine) (x : ℕ) : Type 0 where
  pub same : w.mem x ≡ m x
  pub off_blocks : All (λ b. ¬ InBlock b x) w.live
  pub off_tables : (q : List ℕ) (t : ℕ) → IsPath q → table_at w.mem root q ≡ some t → IsOff t x

module _ {sym : Symbols} {a : Allocator} {m : Mem} (boot : IsStarted sym a m)
    (low : a.mem_base + a.total_pages * page_size ≤ 2 ^ 48) (ok : (page_alloc a 1 m).0 ≢ 0) where
  pool : IsPool a
  pool = record { ready = boot.ready; low = low }

  page_kept :
      (j : ℕ)
      → j < a.total_pages
      → page_used a.bitmap m j ≡ true
      → (w : Machine) → Reach a (page_alloc a 1 m).0 (started a m) w
      → (x : ℕ) → InPage a j x
      → IsOffBitmap a x
      → IsUndisturbed a (page_alloc a 1 m).0 m w x
  page_kept j l used w reach x inside off =
      elim (page_alloc-first_fit a 1 m boot.ready (omega arith)) [
        | inr refused ↦ absurd (ok (ap (λ (r : ℕ × Mem). r.0) refused.unchanged))
        | inl (s, done) ↦
            let first = started-IsSound a m pool boot.free_apart ok in
            let sound = Reach-IsSound pool first reach in
            let (kept, same) =
              Reach-IsPreserved pool first (started-IsReserved pool boot.free_apart l used s done)
                reach in
            record {
              same =
                  same x inside off ∙ started_bytes pool boot.free_apart l used s done x inside off;
              off_blocks =
                  All-zip _ _ _ w.live
                    (λ b held outside h. absurd (omega (arith, held.on_page, outside, h, inside)))
                    sound.owned.held kept.off_blocks;
              off_tables = λ q t path at.
                  let page = sound.tree.owned q t path at in
                  omega (arith, page.on_page, kept.off_tables q t path at, inside);
            }
      ]

  image_kept :
      (w : Machine)
      → Reach a (page_alloc a 1 m).0 (started a m) w
      → (x : ℕ) → sym.image_start ≤ x
      → x < sym.image_end
      → IsOffBitmap a x
      → IsUndisturbed a (page_alloc a 1 m).0 m w x
  image_kept w reach x from to off =
      let j : ℕ = (x - a.mem_base) / page_size in
      let l : j < a.total_pages = omega (arith, boot.inside) in
      page_kept j l (boot.used j l (omega (arith, boot.inside))) w reach x
        (omega (arith, boot.inside)) off

module _ (lib : LibFdt) (symbols : Symbols) (fuel mmap : ℕ) (map : MemoryMap) (unset : Allocator)
    (boot_args_ptr : ℕ) (m : Mem) (limit : ℕ) (swaps : SwapsBytes lib)
    (searches : Searches lib m (load64 m boot_args_ptr) limit) (enough : limit < fuel)
    (mmap_ne : mmap ≢ 0) (badstate : 0 < lib.fdt_err_badstate) where
  -- Where `main` returns 0 its state is that of a successful boot.
  main-IsStarted :
      (region : MemoryRegion) (a : Allocator) (m' : Mem)
      → IsImage symbols
      → Describes lib m (load64 m boot_args_ptr) region
      → IsSane region
      → main lib symbols fuel mmap map unset boot_args_ptr m ≡ some (0, a, m')
      → IsStarted symbols a m'
  main-IsStarted region a m' image described sane e =
      let (r, run, cases) =
        main-outcome lib symbols fuel mmap map unset boot_args_ptr m limit swaps searches enough
          mmap_ne badstate region image described sane in
      let same : r ≡ (0, a, m') = some_inj.0 (sym run ∙ e) in
      elim cases [
        | inl (_, ready) ↦ subst (λ (x : ℕ × Allocator × Mem). IsStarted symbols x.1 x.2) same ready
        | inr (one, _) ↦ absurd (omega (arith, one, ap (λ (x : ℕ × Allocator × Mem). x.0) same))
      ]

  -- With a libfdt whose search goes forward through the tree and which swaps bytes, with fuel for the
  -- size of the tree, with an image on a page boundary that holds the bitmap, and with a valid tree
  -- that describes a single region, above address 0 and not wrapping round the address space: after
  -- `main` has returned 0 for a region below `2 ^ 48`, and a root table was allocated and cleared,
  -- no sequence of allocations, frees, mappings and writes by clients that keep to their blocks
  -- changes a byte of the image outside of the bitmap, and no such byte comes to lie in a held block
  -- or on a table.
  pub main-IsUndisturbed :
      (region : MemoryRegion) (a : Allocator) (m' : Mem)
      → IsImage symbols
      → Describes lib m (load64 m boot_args_ptr) region
      → IsSane region
      → main lib symbols fuel mmap map unset boot_args_ptr m ≡ some (0, a, m')
      → a.mem_base + a.total_pages * page_size ≤ 2 ^ 48
      → (page_alloc a 1 m').0 ≢ 0
      → (w : Machine) → Reach a (page_alloc a 1 m').0 (started a m') w
      → (x : ℕ) → symbols.image_start ≤ x
      → x < symbols.image_end
      → IsOffBitmap a x
      → IsUndisturbed a (page_alloc a 1 m').0 m' w x
  main-IsUndisturbed region a m' image described sane e low ok w reach x from to off =
      image_kept (main-IsStarted region a m' image described sane e) low ok w reach x from to off
