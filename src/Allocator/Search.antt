-- ===== src/Allocator/Search.antt =====
-- The search of `page_alloc` for the first run of free pages.
use kernalite.Base.{
  ℕ, zero, suc, ◌+◌, ◌-◌, ◌*◌, ◌%◌, ◌≤◌, ◌<◌, ◌^◌, ◌≡◌, ◌≢◌, refl, ◌⊎◌, inl, inr, Bool, true, false,
  ◌==◌, if◌then◌else◌, arith, u64, ltb, ==_ne, Bool-cases,
}
use kernalite.Memory.{Mem}
use kernalite.Allocator.{Allocator, page_size, alloc_loop, page_alloc, mark_loop}
use kernalite.Allocator.Bitmap.{page_used, read_bit-eq-zero, IsUpdate, mark_loop-IsUpdate}

-- What `page_init` leaves behind: a region that starts above 0 on a page boundary and does not wrap
-- round the address space, and a bitmap.
pub record IsReady (a : Allocator) : Type 0 where
  pub base_pos : 0 < a.mem_base
  pub aligned : a.mem_base % page_size ≡ 0
  pub no_wrap : a.mem_base + a.total_pages * page_size < 2 ^ 64
  pub bitmap_pos : 0 < a.bitmap

module _ (used : ℕ → Bool) (n : ℕ) where
  -- Some page of the block of `n` pages from `s` on is in use.
  abbrev pub IsBlocked : ℕ → Type 0
  IsBlocked s = (j : ℕ) × (s ≤ j) × (j < s + n) × (used j ≡ true)

  -- The first block of `n` free pages among `total` starts at `start`.
  pub record IsFirstFit (total start : ℕ) : Type 0 where
    pub in_range : start + n ≤ total
    pub free : (j : ℕ) → start ≤ j → j < start + n → used j ≡ false
    pub least : (s : ℕ) → s < start → IsBlocked s

  -- The search has passed the pages below `i`; the last `found` of them are free.
  pub record IsScan (i found start : ℕ) : Type 0 where
    pub found_lt : found < n
    pub found_le : found ≤ i
    pub run : (j : ℕ) → i ≤ j + found → j < i → used j ≡ false
    pub anchor : found ≢ 0 → start + found ≡ i
    pub edge : (i ≡ found) ⊎ (used (i - found - 1) ≡ true)
    pub blocked : (s : ℕ) → s + n ≤ i → IsBlocked s

  IsScan-start : 0 < n → IsScan 0 0 0
  IsScan-start pos = record {
    found_lt = pos;
    found_le = omega arith;
    run = λ j p q. absurd (omega arith);
    anchor = λ e. refl;
    edge = inl refl;
    blocked = λ s p. absurd (omega arith);
  }

  abbrev next_start : ℕ → ℕ → ℕ → ℕ
  next_start i found start = if found == 0 then i else start

  next_start_lem : {i found start : ℕ} → IsScan i found start → next_start i found start + found ≡ i
  next_start_lem s = ground (arith, s.anchor)

  IsScan-used : {i found start : ℕ} → IsScan i found start → used i ≡ true → IsScan (i + 1) 0 start
  IsScan-used {i} {found} s h = record {
    found_lt = omega (arith, s.found_lt);
    found_le = omega arith;
    run = λ j p q. absurd (omega arith);
    anchor = λ e. absurd (e refl);
    edge = inr (rw (i_plus_one i) h);
    blocked = λ t p. elim (Bool-cases (t + n == i + 1)) [
      | inl e ↦ (i, ground arith, ground arith, h)
      | inr e ↦ s.blocked t (ground arith)
    ];
  }
    where
      i_plus_one : (k : ℕ) → k + 1 - 0 - 1 ≡ k
      i_plus_one k = omega arith

  IsScan-free :
      {i found start : ℕ}
      → IsScan i found start
      → used i ≡ false
      → found + 1 ≢ n
      → IsScan (i + 1) (found + 1) (next_start i found start)
  IsScan-free {i} {found} {start} s h ne = record {
    found_lt = omega (arith, s.found_lt);
    found_le = omega (arith, s.found_le);
    run = λ j p q. elim (Bool-cases (j == i)) [
      | inl e ↦ let same : j ≡ i = ground arith in rw same h
      | inr e ↦ s.run j (omega arith) (ground arith)
    ];
    anchor = λ e. omega (arith, next_start_lem s);
    edge = elim s.edge [ inl e ↦ inl (omega arith) | inr u ↦ inr (rw same_edge u) ];
    blocked = λ t p. elim (Bool-cases (t + n == i + 1)) [
      | inl e ↦ last t (ground arith)
      | inr e ↦ s.blocked t (ground arith)
    ];
  }
    where
      same_edge : i + 1 - (found + 1) - 1 ≡ i - found - 1
      same_edge = omega arith

      -- A block that ends at page `i` reaches below the run, to a page in use.
      last : (t : ℕ) → t + n ≡ i + 1 → IsBlocked t
      last t e = elim s.edge [
        | inl f ↦ absurd (omega (arith, s.found_lt))
        | inr u ↦ (i - found - 1, omega (arith, s.found_lt), omega arith, u)
      ]

  -- A run that has reached the requested length is the first fit.
  IsScan-IsFirstFit :
      {i found start total : ℕ}
      → IsScan i found start
      → used i ≡ false
      → found + 1 ≡ n
      → i < total
      → IsFirstFit total (next_start i found start)
  IsScan-IsFirstFit {i} {found} {start} s h e l = record {
    in_range = omega (arith, next_start_lem s);
    free = λ j p q. elim (Bool-cases (j == i)) [
      | inl d ↦ let same : j ≡ i = ground arith in rw same h
      | inr d ↦ s.run j (omega (arith, next_start_lem s)) (ground (arith, next_start_lem s))
    ];
    least = λ t p. s.blocked t (omega (arith, next_start_lem s));
  }

-- A successful call: the pointer is the first fit's address, and its pages alone are marked.
pub record IsAllocated (a : Allocator) (n : ℕ) (m : Mem) (start : ℕ) (result : ℕ × Mem)
    : Type 0 where
  pub pointer : result.0 ≡ a.mem_base + start * page_size
  pub first : IsFirstFit (page_used a.bitmap m) n a.total_pages start
  pub update : IsUpdate a.bitmap start (start + n) true m result.1

-- A refused call: every block in range has a page in use, and nothing changes.
pub record IsRefused (a : Allocator) (n : ℕ) (m : Mem) (result : ℕ × Mem) : Type 0 where
  pub none_free : (s : ℕ) → s + n ≤ a.total_pages → IsBlocked (page_used a.bitmap m) n s
  pub unchanged : result ≡ (0, m)

module _ (a : Allocator) (n : ℕ) (m : Mem) (ready : IsReady a) where
  found-IsAllocated :
      (start : ℕ)
      → IsFirstFit (page_used a.bitmap m) n a.total_pages start
      → IsAllocated a n m start (
        u64 (a.mem_base + u64 (start * page_size)),
        mark_loop a.bitmap (u64 (start + n) - start) start m,
      )
  found-IsAllocated start f = record {
    pointer = omega (arith, ready.no_wrap, f.in_range);
    first = f;
    update =
        mark_loop-IsUpdate a.bitmap (u64 (start + n) - start) start (start + n) m
          (omega (arith, ready.no_wrap, f.in_range));
  }

  pub alloc_loop-outcome :
      (rounds i found start : ℕ)
      → i + rounds ≡ a.total_pages
      → IsScan (page_used a.bitmap m) n i found start
      → ((s : ℕ) × IsAllocated a n m s (alloc_loop a n rounds i found start m))
        ⊎ IsRefused a n m (alloc_loop a n rounds i found start m)
  unfolding alloc_loop
  alloc_loop-outcome zero i found start e s =
      inr (record { none_free = λ t p. s.blocked t (omega arith); unchanged = refl })
  alloc_loop-outcome (suc rounds) i found start e s = elim (Bool-cases (page_used a.bitmap m i)) [
    | inl u ↦
        rw (read_bit-eq-zero, u)
          (alloc_loop-outcome rounds (i + 1) 0 start (omega arith) (IsScan-used _ n s u))
    | inr u ↦ elim (Bool-cases (found + 1 == n)) [
      | inl d ↦
          rw (read_bit-eq-zero, u, d)
            (inl (
              next_start (page_used a.bitmap m) n i found start,
              found-IsAllocated _ (IsScan-IsFirstFit _ n s u (ground arith) (omega arith)),
            ))
      | inr d ↦
          rw (read_bit-eq-zero, u, d)
            (alloc_loop-outcome rounds (i + 1) (found + 1) _ (omega arith)
              (IsScan-free _ n s u (ground arith)))
    ]
  ]

  -- The allocator hands out the first run of `n` free pages and marks these pages and no others, or
  -- it returns `NULL` and changes nothing, and then every block of `n` pages has one in use.
  pub page_alloc-first_fit :
      0 < n
      → ((s : ℕ) × IsAllocated a n m s (page_alloc a n m)) ⊎ IsRefused a n m (page_alloc a n m)
  unfolding page_alloc
  page_alloc-first_fit pos = elim (Bool-cases (ltb a.total_pages n)) [
    | inl big ↦
        rw (==_ne n 0 (omega arith), big)
          (inr (record { none_free = λ s p. absurd (ground arith); unchanged = refl }))
    | inr fits ↦
        rw (==_ne n 0 (omega arith), fits)
          (alloc_loop-outcome a.total_pages 0 0 0 (omega arith) (IsScan-start _ n pos))
  ]
