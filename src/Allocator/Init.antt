-- ===== src/Allocator/Init.antt =====
-- `page_init`: the region that it manages, and the state in which it leaves the bitmap.
use kernalite.Base.{
  ℕ, zero, suc, ◌+◌, ◌-◌, ◌*◌, ◌/◌, ◌%◌, ◌^◌, ◌≤◌, ◌<◌, ◌≡◌, refl, ap, ◌∙◌, ◌⊎◌, inl, inr, true,
  false, bit_and, dec_le, dec_lt, arith, u64, complement, if◌then◌else◌, within, ◌>>>◌, ◌<<<◌,
}
use kernalite.Bits.{bit-zero}
use kernalite.Fields.{bit_and-shifted, bit_and-mask}
use kernalite.Memory.{Mem, store, SameOutside}
use kernalite.Allocator.{Allocator, Symbols, page_size, page_init, zero_loop}
use kernalite.Allocator.Bitmap.{page_used}
use kernalite.Allocator.Search.{IsReady}

-- `& ~(PAGE_SIZE - 1)` rounds down to a page boundary.
round_down :
    (x : ℕ) → x < 2 ^ 64 → bit_and x (complement 64 (page_size - 1)) ≡ x / page_size * page_size
round_down x h =
    bit_and-shifted 12 x (2 ^ 52 - 1)
    ∙ ap (λ (t : ℕ). t <<< 12) (bit_and-mask 52 (x >>> 12))
    ∙ omega arith

zero_loop_lem :
    (bitmap rounds i : ℕ) (m : Mem) (p : ℕ)
    → zero_loop bitmap rounds i m p
      ≡ (if within (bitmap + i) (bitmap + i + rounds) p then 0 else m p)
unfolding zero_loop store
zero_loop_lem bitmap zero i m p = ground arith
zero_loop_lem bitmap (suc rounds) i m p =
    ground (arith, zero_loop_lem bitmap rounds (i + 1) (store m (bitmap + i) 0) p)

-- The outcome of a successful call: the first page boundary at or above `mem_start`, all the whole
-- pages between it and the end of the region, every one of them free, and a bitmap that lies within
-- the linker's reservation; no byte outside of the bitmap changes.
pub record IsInitialised (sym : Symbols) (mem_start mem_size : ℕ) (m : Mem) (a : Allocator)
    (m' : Mem) : Type 0 where
  pub base_aligned : a.mem_base % page_size ≡ 0
  pub base_from : mem_start ≤ a.mem_base
  pub base_below : a.mem_base < mem_start + page_size
  pub pages_fit : a.mem_base + a.total_pages * page_size ≤ mem_start + mem_size
  pub pages_fill : mem_start + mem_size < a.mem_base + (a.total_pages + 1) * page_size
  pub bitmap_at : a.bitmap ≡ sym.bit_map_start
  pub bitmap_fits : a.bitmap + (a.total_pages + 7) / 8 ≤ sym.bit_map_end
  pub free : (j : ℕ) → j < a.total_pages → page_used a.bitmap m' j ≡ false
  pub frame : SameOutside a.bitmap (a.bitmap + (a.total_pages + 7) / 8) m m'

-- The symbols of the linker script: the bitmap is a region above address 0.
pub record IsLinked (sym : Symbols) : Type 0 where
  pub bitmap_pos : 0 < sym.bit_map_start
  pub bitmap_order : sym.bit_map_start ≤ sym.bit_map_end
  pub bitmap_end : sym.bit_map_end < 2 ^ 64

pub IsInitialised-IsReady :
    {sym : Symbols} {mem_start mem_size : ℕ} {m : Mem} {a : Allocator} {m' : Mem}
    → IsLinked sym
    → 0 < mem_start
    → mem_start + mem_size < 2 ^ 64
    → IsInitialised sym mem_start mem_size m a m'
    → IsReady a
IsInitialised-IsReady l pos w i = record {
  base_pos = omega (arith, i.base_from);
  aligned = i.base_aligned;
  no_wrap = omega (arith, i.pages_fit);
  bitmap_pos = omega (arith, i.bitmap_at, l.bitmap_pos);
}

-- The start of the first whole page at or above an address.
abbrev pub round_up : ℕ → ℕ
round_up x = (x + (page_size - 1)) / page_size * page_size

-- The whole pages of the region.
abbrev pub whole_pages : ℕ → ℕ → ℕ
whole_pages mem_start mem_size = (mem_start + mem_size - round_up mem_start) / page_size

-- The call is refused when no byte is left behind the first page boundary, or when the pages need
-- more bits than the reserved bitmap has.
abbrev pub IsUnusable : Symbols → ℕ → ℕ → Type 0
IsUnusable sym mem_start mem_size =
    (mem_start + mem_size ≤ round_up mem_start)
    ⊎ ((sym.bit_map_end - sym.bit_map_start) * 8 < whole_pages mem_start mem_size)

module _ (sym : Symbols) (a : Allocator) (mem_start mem_size : ℕ) (m : Mem) (linked : IsLinked sym)
    (w : mem_start + mem_size + page_size < 2 ^ 64) where
  aligned_start_lem :
      bit_and (u64 (mem_start + (page_size - 1))) (complement 64 (page_size - 1))
      ≡ round_up mem_start
  aligned_start_lem =
      let e : u64 (mem_start + (page_size - 1)) ≡ mem_start + (page_size - 1) = omega arith in
      rw e (round_down (mem_start + (page_size - 1)) (omega arith))

  started : Allocator
  started = record {
    mem_base = round_up mem_start;
    bitmap = sym.bit_map_start;
    total_pages = whole_pages mem_start mem_size;
  }

  page_init_usable :
      ¬ IsUnusable sym mem_start mem_size
      → page_init sym a mem_start mem_size m ≡ (
        true,
        started,
        zero_loop sym.bit_map_start ((whole_pages mem_start mem_size + 7) / 8) 0 m,
      )
  unfolding page_init started
  page_init_usable u = rw aligned_start_lem (ground (arith, linked.bitmap_order, linked.bitmap_end))

  page_init_unusable :
      IsUnusable sym mem_start mem_size
      → ((page_init sym a mem_start mem_size m).0 ≡ false)
        × ((page_init sym a mem_start mem_size m).2 ≡ m)
  unfolding page_init
  page_init_unusable u =
      rw aligned_start_lem (ground (arith, linked.bitmap_order, linked.bitmap_end))

  started-IsInitialised :
      ¬ IsUnusable sym mem_start mem_size
      → IsInitialised sym mem_start mem_size m started
          (zero_loop sym.bit_map_start ((whole_pages mem_start mem_size + 7) / 8) 0 m)
  unfolding started
  started-IsInitialised u = record {
    base_aligned = omega arith;
    base_from = omega arith;
    base_below = omega arith;
    pages_fit = ground (arith, u);
    pages_fill = ground (arith, u);
    bitmap_at = refl;
    bitmap_fits = ground (arith, u, linked.bitmap_order);
    free = λ j h. zeroed_free j h;
    frame = λ p h. ground (arith, zero_loop_lem sym.bit_map_start pages 0 m p);
  }
    where
      pages : ℕ
      pages = (whole_pages mem_start mem_size + 7) / 8

      zeroed_free :
          (j : ℕ)
          → j < whole_pages mem_start mem_size
          → page_used sym.bit_map_start (zero_loop sym.bit_map_start pages 0 m) j ≡ false
      zeroed_free j h =
          unfold page_used in
          let e : zero_loop sym.bit_map_start pages 0 m (sym.bit_map_start + j / 8) ≡ 0 =
            ground (arith, zero_loop_lem sym.bit_map_start pages 0 m (sym.bit_map_start + j / 8)) in
          rw (e, bit-zero)

  -- With a linked bitmap, and a region that does not wrap round the address space, `page_init`
  -- either succeeds with the region and the bitmap initialised, or it reports failure, leaves the
  -- memory alone, and then the region is too small or too large.
  pub page_init-outcome :
      (((page_init sym a mem_start mem_size m).0 ≡ true)
        × IsInitialised sym mem_start mem_size m
            (page_init sym a mem_start mem_size m).1
            (page_init sym a mem_start mem_size m).2)
      ⊎ (((page_init sym a mem_start mem_size m).0 ≡ false)
          × ((page_init sym a mem_start mem_size m).2 ≡ m)
          × IsUnusable sym mem_start mem_size)
  page_init-outcome = elim unusable_or_not [
    | inl u ↦ inr ((page_init_unusable u).0, (page_init_unusable u).1, u)
    | inr u ↦ rw (page_init_usable u) (inl (refl, started-IsInitialised u))
  ]
    where
      unusable_or_not : IsUnusable sym mem_start mem_size ⊎ (¬ IsUnusable sym mem_start mem_size)
      unusable_or_not = elim (dec_le (mem_start + mem_size) (round_up mem_start)) [
        | yes p ↦ inl (inl p)
        | no p ↦
            elim (dec_lt ((sym.bit_map_end - sym.bit_map_start) * 8)
              (whole_pages mem_start mem_size)) [
                | yes q ↦ inl (inr q)
                | no q ↦ inr (elim [ inl r ↦ p r | inr r ↦ q r ])
              ]
      ]
