-- ===== src/Boot/Image.antt =====
-- The pages of the kernel's image after the boot.
use kernalite.Base.{
  ℕ, ◌+◌, ◌-◌, ◌*◌, ◌/◌, ◌%◌, ◌^◌, ◌≤◌, ◌<◌, ◌≡◌, ◌≢◌, refl, ◌⊎◌, inl, inr, Bool, true, false, ap,
  Bool-cases, arith, if◌then◌else◌, dec_lt,
}
use kernalite.Memory.{Mem}
use kernalite.Allocator.{Allocator, Symbols, page_size, page_init, page_alloc, reserve_page}
use kernalite.Allocator.Bitmap.{page_used, IsUpdate}
use kernalite.Allocator.Search.{IsReady, page_alloc-first_fit}
use kernalite.Allocator.Free.{page_index}
use kernalite.Allocator.Reserve.{FitsRegion, reserve_page-outcome}
use kernalite.Allocator.Init.{
  IsLinked, IsInitialised, IsInitialised-IsReady, IsUnusable, page_init-outcome,
}
use kernalite.PageTable.Root.{FreeApart}
use kernalite.Boot.{reserve_kerenel_img_pages, start_allocator}

-- The linker script puts the image on a page boundary, the bitmap inside of it.
pub record IsImage (sym : Symbols) : Type 0 where
  pub linked : IsLinked sym
  pub on_page : sym.image_start % page_size ≡ 0
  pub around_start : sym.image_start ≤ sym.bit_map_start
  pub around_end : sym.bit_map_end ≤ sym.image_end
  pub not_empty : sym.image_start < sym.image_end
  pub no_wrap : sym.image_end + page_size < 2 ^ 64

-- Page `j` of the region holds a byte of the image.
abbrev pub HoldsImage : Symbols → Allocator → ℕ → Type 0
HoldsImage sym a j =
    (a.mem_base + j * page_size < sym.image_end)
    × (sym.image_start < a.mem_base + (j + 1) * page_size)

abbrev image_pages : Symbols → ℕ
image_pages sym = (sym.image_end - sym.image_start + (page_size - 1)) / page_size

-- Exactly the pages of the image are in use.
pub record IsStarted (sym : Symbols) (a : Allocator) (m : Mem) : Type 0 where
  pub ready : IsReady a
  pub inside :
      (a.mem_base ≤ sym.image_start) × (sym.image_end ≤ a.mem_base + a.total_pages * page_size)
  pub used : (j : ℕ) → j < a.total_pages → HoldsImage sym a j → page_used a.bitmap m j ≡ true
  pub free : (j : ℕ) → j < a.total_pages → ¬ HoldsImage sym a j → page_used a.bitmap m j ≡ false
  pub free_apart : FreeApart a m

reserve_image_call :
    (sym : Symbols) (a : Allocator) (m : Mem)
    → IsImage sym
    → reserve_kerenel_img_pages sym a m ≡ reserve_page a sym.image_start (image_pages sym) m
unfolding reserve_kerenel_img_pages
reserve_image_call sym a m image =
    ap (λ (n : ℕ). reserve_page a sym.image_start n m)
      (omega (arith, image.not_empty, image.no_wrap))

module _ (sym : Symbols) (base size : ℕ) (m : Mem) (a : Allocator) (m' m'' : Mem)
    (image : IsImage sym) (init : IsInitialised sym base size m a m') (ready : IsReady a)
    (fits : FitsRegion a sym.image_start (image_pages sym))
    (update : IsUpdate a.bitmap
      (page_index a sym.image_start)
      (page_index a sym.image_start + image_pages sym)
      true
      m'
      m'') where
  started_used : (j : ℕ) → j < a.total_pages → HoldsImage sym a j → page_used a.bitmap m'' j ≡ true
  started_used j l h =
      ground (arith, update.status j, ready.aligned, image.on_page, image.not_empty, fits)

  started_free :
      (j : ℕ) → j < a.total_pages → ¬ HoldsImage sym a j → page_used a.bitmap m'' j ≡ false
  started_free j l h =
      ground
        (arith, update.status j, init.free j l, ready.aligned, image.on_page, image.not_empty, fits)

  IsStarted-reserved : IsStarted sym a m''
  IsStarted-reserved = record {
    ready = ready;
    inside = omega (arith, fits, image.not_empty);
    used = started_used;
    free = started_free;
    free_apart = λ j l e. ground (
      arith,
      started_used j l,
      init.bitmap_at,
      init.bitmap_fits,
      image.around_start,
      image.around_end,
    );
  }

-- Why the boot stops: the region is unusable, or the image does not lie in its pages.
abbrev pub IsStopped : Symbols → ℕ → ℕ → Allocator → Type 0
IsStopped sym base size a =
    IsUnusable sym base size
    ⊎ (sym.image_start < a.mem_base)
    ⊎ (a.mem_base + a.total_pages * page_size < sym.image_end)

module _ (sym : Symbols) (a : Allocator) (base size : ℕ) (m : Mem) where
  abbrev started : ℕ × Allocator × Mem
  started = start_allocator sym a base size m

  start_allocator_failed :
      (page_init sym a base size m).0 ≡ false
      → started ≡ (1, (page_init sym a base size m).1, (page_init sym a base size m).2)
  unfolding start_allocator
  start_allocator_failed e = rw e refl

  start_allocator_reserved :
      (page_init sym a base size m).0 ≡ true
      → (r : Bool × Mem)
      → reserve_kerenel_img_pages sym
          (page_init sym a base size m).1
          (page_init sym a base size m).2
        ≡ r
      → started ≡ (if r.0 then 0 else 1, (page_init sym a base size m).1, r.1)
  unfolding start_allocator
  start_allocator_reserved e r f = elim (Bool-cases r.0) [
    | inl h ↦ rw (e, f, h) refl
    | inr h ↦ rw (e, f, h) refl
  ]

  -- For an image on a page boundary that holds the bitmap, and a region above address 0 that does
  -- not wrap round the address space, the boot either goes on: the image lies in the region, and of
  -- its pages exactly those of the image are in use; or it stops with exit code 1, and then the
  -- region is unusable or the image does not lie in its pages.
  pub start_allocator-outcome :
      IsImage sym
      → 0 < base
      → base + size + page_size < 2 ^ 64
      → ((started.0 ≡ 0) × IsStarted sym started.1 started.2)
        ⊎ ((started.0 ≡ 1) × IsStopped sym base size started.1)
  start_allocator-outcome image pos w = elim (page_init-outcome sym a base size m image.linked w) [
    | inl (e, init) ↦ reserved e init (IsInitialised-IsReady image.linked pos (omega arith) init)
    | inr (e, same, unusable) ↦ rw (start_allocator_failed e) (inr (refl, inl unusable))
  ]
    where
      reserved :
          (page_init sym a base size m).0 ≡ true
          → IsInitialised sym base size m
              (page_init sym a base size m).1
              (page_init sym a base size m).2
          → IsReady (page_init sym a base size m).1
          → ((started.0 ≡ 0) × IsStarted sym started.1 started.2)
            ⊎ ((started.0 ≡ 1) × IsStopped sym base size started.1)
      reserved e init ready =
          let a' = (page_init sym a base size m).1 in
          let m' = (page_init sym a base size m).2 in
          let n = image_pages sym in
          let r = reserve_page a' sym.image_start n m' in
          rw (start_allocator_reserved e r (reserve_image_call sym a' m' image))
            (elim (reserve_page-outcome a' sym.image_start n m' ready
              (omega (arith, image.not_empty)) (omega (arith, image.no_wrap, image.not_empty))) [
                | inl (fits, ok, update) ↦ rw ok (
                    inl (
                      refl,
                      IsStarted-reserved sym base size m a' m' r.1 image init ready fits update,
                    ))
                | inr (leaves, refused) ↦ rw refused (
                    inr (
                      refl,
                      inr (omega (arith, leaves, ready.aligned, image.on_page, image.not_empty)),
                    ))
              ])

-- In the state that a successful boot leaves, a block of at least one page that `page_alloc` returns
-- holds no byte of the image.
page_alloc-outside_image :
    (sym : Symbols) (a : Allocator) (m : Mem) (n : ℕ)
    → IsStarted sym a m
    → sym.image_start < sym.image_end
    → 0 < n
    → (page_alloc a n m).0 ≢ 0
    → ((page_alloc a n m).0 + n * page_size ≤ sym.image_start)
      ⊎ (sym.image_end ≤ (page_alloc a n m).0)
page_alloc-outside_image sym a m n s image pos ok = elim (page_alloc-first_fit a n m s.ready pos) [
  | inl (start, done) ↦ elim (dec_lt sym.image_start (a.mem_base + (start + 1) * page_size)) [
    | yes h ↦ ground (
      arith,
      s.used start (omega (arith, done.first.in_range)),
      done.first.free start (omega arith) (omega arith),
      done.pointer,
    )
    | no h ↦ ground (
      arith,
      s.used (page_index a sym.image_start),
      done.first.free (page_index a sym.image_start),
      done.pointer,
      done.first.in_range,
      s.inside,
    )
  ]
  | inr refused ↦ absurd (ok (ap (λ (r : ℕ × Mem). r.0) refused.unchanged))
]
