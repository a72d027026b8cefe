-- ===== src/Allocator/Dump.antt =====
-- `page_dump_status`: the blocks that it prints, one line each.
use kernalite.Base.{
  ℕ, zero, suc, ◌+◌, ◌-◌, ◌*◌, ◌/◌, ◌%◌, ◌≤◌, ◌<◌, ◌≡◌, ◌⊎◌, inl, inr, Bool, false, not, ◌||◌,
  bit_and, Option, none, some, List, [], ◌∷◌, ◌==◌, ltb, if◌then◌else◌, u64, sub64, ◌<<<◌, arith,
  Bool-cases, dec_lt, ==_ne,
}
use kernalite.Memory.{Mem}
use kernalite.Allocator.{Allocator, page_size}
use kernalite.Allocator.Bitmap.{page_used, masked_bit-eq-zero}
use kernalite.Allocator.Search.{IsReady}

-- `  [0x%lx - 0x%lx] %s (%u pages)`: the addresses of the first and the last byte, whether the
-- word is USED, and the number of pages.
pub record BlockLine : Type 0 where
  pub first_byte : ℕ
  pub last_byte : ℕ
  pub is_used : Bool
  pub pages : ℕ

-- `(bitmap[i / 8] & (1 << (i % 8))) ? 1 : 0`
status_of : ℕ → ℕ → Mem → ℕ
status_of bitmap i m = if bit_and (m (bitmap + i / 8)) (1 <<< (i % 8)) == 0 then 0 else 1

-- The loop at page `i`, with `rounds` iterations left.
dump_loop : Allocator → ℕ → ℕ → ℕ → ℕ → Mem → List BlockLine
dump_loop a zero i start_idx current_status m = []
dump_loop a (suc rounds) i start_idx current_status m =
    let status = if ltb i a.total_pages then status_of a.bitmap i m else 0 in
    let ends = not (status == current_status) || i == a.total_pages in
    let block_start = u64 (a.mem_base + u64 (start_idx * page_size)) in
    let block_end = u64 (a.mem_base + u64 (i * page_size)) in
    let line : BlockLine = record {
      first_byte = block_start;
      last_byte = sub64 block_end 1;
      is_used = not (current_status == 0);
      pages = i - start_idx;
    } in
    let rest =
      dump_loop a rounds (i + 1) (if ends then i else start_idx)
        (if ends then status else current_status) m in
    if ends then line ∷ rest else rest

-- `none` is the line "Page Allocator: Not initialized".
unfoldable pub page_dump_status : Allocator → Mem → Option (List BlockLine)
unfolding status_of dump_loop
page_dump_status a m =
    if a.total_pages == 0
    then none
    else some (dump_loop a a.total_pages 1 0 (status_of a.bitmap 0 m) m)

module _ (a : Allocator) (m : Mem) where
  -- The lines describe the pages from `i` to the end of the region: block after block with no gap,
  -- each of pages that all have the printed status, and as long as possible.
  abbrev pub Describes : ℕ → List BlockLine → Type 0
  Describes i [] = i ≡ a.total_pages
  Describes i (l ∷ ls) =
      (l.first_byte ≡ a.mem_base + i * page_size)
      × (l.last_byte + 1 ≡ a.mem_base + (i + l.pages) * page_size)
      × (0 < l.pages)
      × ((j : ℕ) → i ≤ j → j < i + l.pages → page_used a.bitmap m j ≡ l.is_used)
      × ((i + l.pages ≡ a.total_pages) ⊎ (page_used a.bitmap m (i + l.pages) ≡ not l.is_used))
      × Describes (i + l.pages) ls

  status_of-page_used : (i : ℕ) → status_of a.bitmap i m ≡ (if page_used a.bitmap m i then 1 else 0)
  unfolding status_of
  status_of-page_used i = ground (arith, masked_bit-eq-zero a.bitmap i m)

  -- A status as the code keeps it.
  abbrev encoded : Bool → ℕ
  encoded b = if b then 1 else 0

  abbrev line : ℕ → ℕ → Bool → BlockLine
  line start i current = record {
    first_byte = u64 (a.mem_base + u64 (start * page_size));
    last_byte = sub64 (u64 (a.mem_base + u64 (i * page_size))) 1;
    is_used = current;
    pages = i - start;
  }

  dump_loop_same :
      (rounds i start : ℕ) (current : Bool)
      → i < a.total_pages
      → page_used a.bitmap m i ≡ current
      → dump_loop a (suc rounds) i start (encoded current) m
        ≡ dump_loop a rounds (i + 1) start (encoded current) m
  unfolding dump_loop
  dump_loop_same rounds i start current l e = ground (arith, status_of-page_used i)

  dump_loop_change :
      (rounds i start : ℕ) (current : Bool)
      → i < a.total_pages
      → page_used a.bitmap m i ≡ not current
      → dump_loop a (suc rounds) i start (encoded current) m
        ≡ line start i current ∷ dump_loop a rounds (i + 1) i (encoded (not current)) m
  unfolding dump_loop
  dump_loop_change rounds i start current l e = ground (arith, status_of-page_used i)

  dump_loop_end :
      (rounds i start : ℕ) (current : Bool)
      → i ≡ a.total_pages
      → dump_loop a (suc rounds) i start (encoded current) m
        ≡ line start i current ∷ dump_loop a rounds (i + 1) i (encoded false) m
  unfolding dump_loop
  dump_loop_end rounds i start current e = ground arith

  same_or_change :
      (i : ℕ) (b : Bool) → (page_used a.bitmap m i ≡ b) ⊎ (page_used a.bitmap m i ≡ not b)
  same_or_change i b = ground arith

  module _ (ready : IsReady a) where
    -- A line over a run of pages with one status describes it.
    line-Describes :
        (start i : ℕ) (current : Bool) (ls : List BlockLine)
        → start < i
        → i ≤ a.total_pages
        → ((j : ℕ) → start ≤ j → j < i → page_used a.bitmap m j ≡ current)
        → (i ≡ a.total_pages) ⊎ (page_used a.bitmap m i ≡ not current)
        → Describes i ls
        → Describes start (line start i current ∷ ls)
    line-Describes start i current ls l in_range run ends rest =
        let e : start + (i - start) ≡ i = omega arith in
        (
          omega (arith, ready.no_wrap),
          rw e (omega (arith, ready.no_wrap)),
          omega arith,
          rw e run,
          rw e ends,
          rw e rest,
        )

    dump_loop-Describes :
        (rounds i start : ℕ) (current : Bool)
        → i + rounds ≡ a.total_pages + 1
        → (i ≤ a.total_pages → start < i)
        → (i ≡ a.total_pages + 1 → start ≡ a.total_pages)
        → ((j : ℕ) → start ≤ j → j < i → j < a.total_pages → page_used a.bitmap m j ≡ current)
        → Describes start (dump_loop a rounds i start (encoded current) m)
    dump_loop-Describes zero i start current e below last run =
        unfold dump_loop in last (omega arith)
    dump_loop-Describes (suc rounds) i start current e below last run =
        elim (dec_lt i a.total_pages) [
          | yes l ↦ elim (same_or_change i current) [
            | inl u ↦ rw (dump_loop_same rounds i start current l u) (
                dump_loop-Describes rounds (i + 1) start current (omega arith)
                  (λ h. omega (arith, below (omega arith))) (λ h. absurd (omega arith))
                  (λ j p q r. elim (Bool-cases (j == i)) [
                    | inl d ↦ let same : j ≡ i = ground arith in rw same u
                    | inr d ↦ run j p (ground arith) r
                  ]))
            | inr u ↦ rw (dump_loop_change rounds i start current l u) (
                line-Describes start i current _ (below (omega arith)) (omega arith)
                  (λ j p q. run j p q (omega arith)) (inr u)
                  (dump_loop-Describes rounds (i + 1) i (not current) (omega arith)
                    (λ h. omega arith) (λ h. absurd (omega arith))
                    (λ j p q r. let same : j ≡ i = omega arith in rw same u)))
          ]
          | no l ↦ rw (dump_loop_end rounds i start current (omega arith)) (
              line-Describes start i current _ (below (omega arith)) (omega arith)
                (λ j p q. run j p q (omega arith)) (inl (omega arith))
                (dump_loop-Describes rounds (i + 1) i false (omega arith) (λ h. omega arith)
                  (λ h. omega arith) (λ j p q r. absurd (omega arith))))
        ]

    -- Of an initialised allocator with at least one page, `page_dump_status` prints the maximal
    -- blocks of equal status, from the first page to the last.
    pub page_dump_status-Describes :
        0 < a.total_pages
        → (ls : List BlockLine) × (page_dump_status a m ≡ some ls) × Describes 0 ls
    page_dump_status-Describes pos = (
      dump_loop a a.total_pages 1 0 (encoded (page_used a.bitmap m 0)) m,
      unfold page_dump_status in rw (==_ne a.total_pages 0 (omega arith), status_of-page_used 0),
      dump_loop-Describes a.total_pages 1 0 (page_used a.bitmap m 0) (omega arith)
          (λ h. omega arith) (λ h. absurd (omega arith))
          (λ j p q r. let same : j ≡ 0 = omega arith in rw same),
    )
