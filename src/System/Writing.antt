-- ===== src/System/Writing.antt =====
-- The write of a byte of a held block, on a sound machine.
use kernalite.Base.{
  ℕ, ◌+◌, ◌/◌, ◌≤◌, ◌<◌, ◌≡◌, ◌≢◌, ◌∙◌, sym, arith, some, List, ◌∷◌, ◌++◌, All, All-mono,
  All-remove,
}
use mathlib.Core.Path.{subst}
use kernalite.Memory.{Mem, store}
use kernalite.Allocator.{Allocator, page_size}
use kernalite.Allocator.Bitmap.{page_used}
use kernalite.Allocator.Free.{page_index}
use kernalite.Allocator.Owners.{Block, IsHeld}
use kernalite.PageTable.Extend.{page_used_same}
use kernalite.PageTable.Walk.{table_at, IsPath}
use kernalite.PageTable.Keep.{kept_table_at, kept_translate, kept-IsTree}
use kernalite.System.{Machine, InBlock, written}
use kernalite.System.Sound.{IsIntact, IsSound, byte-IsOffBitmap, byte-IsOff}

pub store_elsewhere : (m : Mem) (p byte x : ℕ) → x ≢ p → store m p byte x ≡ m x
unfolding store
store_elsewhere m p byte x h = ground arith

store_both : (m heap : ℕ → ℕ) (p byte x : ℕ) → m x ≡ heap x → store m p byte x ≡ store heap p byte x
unfolding store
store_both m heap p byte x e = rw e

module _ {a : Allocator} {root : ℕ} (w : Machine) (sound : IsSound a root w) (xs : List Block)
    (b : Block) (ys : List Block) (p byte : ℕ) (at : w.live ≡ xs ++ (b ∷ ys))
    (inside : InBlock b p) where
  pub block-IsHeld : IsHeld a w.mem b
  block-IsHeld =
      (All-remove (IsHeld a w.mem) xs b ys (subst (All (IsHeld a w.mem)) at sound.owned.held)).0

  intact : IsIntact a root w.mem w.heap b
  intact =
      (All-remove (IsIntact a root w.mem w.heap) xs b ys
        (subst (All (IsIntact a root w.mem w.heap)) at sound.intact)).0

  abbrev after : Mem
  after = store w.mem p byte

  pub untouched :
      (q : List ℕ) (t : ℕ)
      → IsPath q
      → table_at w.mem root q ≡ some t
      → (x : ℕ) → t ≤ x
      → x < t + page_size
      → after x ≡ w.mem x
  untouched q t h e x low high =
      store_elsewhere w.mem p byte x
        (ground (arith, byte-IsOff block-IsHeld intact sound.tree q t h e p inside))

  pub same_status :
      (k : ℕ) → k < a.total_pages → page_used a.bitmap after k ≡ page_used a.bitmap w.mem k
  same_status k l = page_used_same a.bitmap k w.mem after (
      store_elsewhere w.mem p byte (a.bitmap + k / 8)
        (ground (arith, byte-IsOffBitmap block-IsHeld intact p inside)))

  still-IsHeld : (c : Block) → IsHeld a w.mem c → IsHeld a after c
  still-IsHeld c h = record {
    on_page = h.on_page;
    some_pages = h.some_pages;
    in_range = h.in_range;
    marked = λ j from to. same_status j (omega (arith, h.in_range)) ∙ h.marked j from to;
  }

  still-IsIntact :
      (c : Block) → IsIntact a root w.mem w.heap c → IsIntact a root after (store w.heap p byte) c
  still-IsIntact c h = record {
    apart = h.apart;
    off_tables =
        λ q t path e. h.off_tables q t path (sym (kept_table_at sound.tree untouched q path) ∙ e);
    bytes = λ x here. store_both w.mem w.heap p byte x (h.bytes x here);
  }

  pub written-IsSound : IsSound a root (written p byte w)
  unfolding written
  written-IsSound = record {
    tree =
        kept-IsTree sound.tree untouched
          (λ q t h e.
            let page = sound.tree.owned q t h e in
            same_status (page_index a t) page.in_range ∙ page.marked)
          (λ j l e. sound.tree.free_apart j l (sym (same_status j l) ∙ e));
    owned = record {
      held = All-mono _ _ w.live still-IsHeld sound.owned.held;
      apart = sound.owned.apart;
    };
    intact = All-mono _ _ w.live still-IsIntact sound.intact;
    maps = λ v. kept_translate sound.tree untouched v ∙ sound.maps v;
  }
