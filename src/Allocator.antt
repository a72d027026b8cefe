-- ===== src/Allocator.antt =====
-- kernel/allocator/page_allocator.c: the page allocator over its bitmap. The two file-scope
-- pointers and the page count are the record `Allocator`, which `page_init` alone changes; the
-- bitmap lives in memory, bit `i % 8` of byte `i / 8` for page `i`. What is printed is left out,
-- but for the blocks that `page_dump_status` prints (`Allocator/Dump`).
pub mod Bitmap
pub mod Search
pub mod Free
pub mod Reserve
pub mod Init
pub mod Owners
pub mod Abstract
pub mod Dump
mod Examples
use kernalite.Base.{
  ℕ, zero, suc, ◌+◌, ◌-◌, ◌*◌, ◌/◌, ◌%◌, bit_and, bit_or, Bool, true, false, ◌||◌, ◌==◌, ltb, leb,
  if◌then◌else◌, u8, u64, sub64, ◌<<<◌, complement,
}
use kernalite.Memory.{Mem, store}

abbrev pub page_size : ℕ
page_size = 4096

pub record Allocator : Type 0 where
  pub mem_base : ℕ
  pub bitmap : ℕ
  pub total_pages : ℕ

-- The symbols of scripts/linker.ld, declared in linker/symblos.h.
pub record Symbols : Type 0 where
  pub image_start : ℕ
  pub image_end : ℕ
  pub bit_map_start : ℕ
  pub bit_map_end : ℕ

-- `bitmap[i / 8] |= (1 << (i % 8))`
unfoldable pub set_bit : ℕ → ℕ → Mem → Mem
set_bit bitmap i m = let p = bitmap + i / 8 in store m p (u8 (bit_or (m p) (1 <<< (i % 8))))

-- `bitmap[i / 8] &= ~(1 << (i % 8))`; the complement is taken on an `int`.
unfoldable pub clear_bit : ℕ → ℕ → Mem → Mem
clear_bit bitmap i m =
    let p = bitmap + i / 8 in store m p (u8 (bit_and (m p) (complement 32 (1 <<< (i % 8)))))

-- `bitmap[i / 8] & (1 << (i % 8))`, in a `uint8_t`
unfoldable pub read_bit : ℕ → ℕ → Mem → ℕ
read_bit bitmap i m = u8 (bit_and (m (bitmap + i / 8)) (1 <<< (i % 8)))

-- The loop of `page_init` that zeroes the bitmap, at index `i` with `rounds` bytes left.
unfoldable pub zero_loop : ℕ → ℕ → ℕ → Mem → Mem
zero_loop bitmap zero i m = m
zero_loop bitmap (suc rounds) i m = zero_loop bitmap rounds (i + 1) (store m (bitmap + i) 0)

unfoldable pub page_init : Symbols → Allocator → ℕ → ℕ → Mem → Bool × Allocator × Mem
page_init sym a mem_start mem_size m =
    let start_addr = mem_start in
    let aligned_start =
      bit_and (u64 (start_addr + (page_size - 1))) (complement 64 (page_size - 1)) in
    let alignment_shift = sub64 aligned_start start_addr in
    if leb mem_size alignment_shift
    then (false, a, m)
    else let total = (mem_size - alignment_shift) / page_size in
      let started = record a { mem_base = aligned_start; total_pages = total } in
      let bitmap_size_bytes = u64 (total + 7) / 8 in
      let bitmap_size = sub64 sym.bit_map_end sym.bit_map_start in
      if ltb bitmap_size bitmap_size_bytes then (false, started, m) else (
        true,
        record started { bitmap = sym.bit_map_start },
        zero_loop sym.bit_map_start bitmap_size_bytes 0 m,
      )

-- The loop of `reserve_page` at `i`, with `rounds` pages left.
unfoldable pub reserve_loop : ℕ → ℕ → ℕ → ℕ → Mem → Mem
reserve_loop bitmap start_index zero i m = m
reserve_loop bitmap start_index (suc rounds) i m =
    reserve_loop bitmap start_index rounds (i + 1) (set_bit bitmap (u64 (start_index + i)) m)

unfoldable pub reserve_page : Allocator → ℕ → ℕ → Mem → Bool × Mem
reserve_page a ptr num_pages m =
    if ptr == 0 || a.mem_base == 0 || a.total_pages == 0 || a.bitmap == 0
    then (false, m)
    else let start_addr = ptr in
      let end_addr = u64 (start_addr + u64 (num_pages * page_size)) in
      let mem_start = a.mem_base in
      let mem_end = u64 (mem_start + u64 (a.total_pages * page_size)) in
      if ltb start_addr mem_start || ltb mem_end end_addr
      then (false, m)
      else let start_index = (ptr - a.mem_base) / page_size in
        (true, reserve_loop a.bitmap start_index num_pages 0 m)

-- `for (j = lo; j < hi; j++)` over pages to be marked used: `rounds` is what is left of `hi - lo`.
unfoldable pub mark_loop : ℕ → ℕ → ℕ → Mem → Mem
mark_loop bitmap zero j m = m
mark_loop bitmap (suc rounds) j m = mark_loop bitmap rounds (j + 1) (set_bit bitmap j m)

-- The search of `page_alloc` at page `i`, with `rounds` pages left. It marks the block that it
-- finds and returns its address.
unfoldable pub alloc_loop : Allocator → ℕ → ℕ → ℕ → ℕ → ℕ → Mem → ℕ × Mem
alloc_loop a num_pages zero i continuous_found start_index m = (0, m)
alloc_loop a num_pages (suc rounds) i continuous_found start_index m =
    let start_index' = if continuous_found == 0 then i else start_index in
    let found' = continuous_found + 1 in
    let marked =
      mark_loop a.bitmap (u64 (start_index' + num_pages) - start_index') start_index' m in
    let ptr = u64 (a.mem_base + u64 (start_index' * page_size)) in
    let go_on = alloc_loop a num_pages rounds (i + 1) found' start_index' m in
    let skip = alloc_loop a num_pages rounds (i + 1) 0 start_index m in
    if read_bit a.bitmap i m == 0
    then (if found' == num_pages then (ptr, marked) else go_on)
    else skip

unfoldable pub page_alloc : Allocator → ℕ → Mem → ℕ × Mem
page_alloc a num_pages m =
    if num_pages == 0
    then (0, m)
    else if ltb a.total_pages num_pages
    then (0, m)
    else alloc_loop a num_pages a.total_pages 0 0 0 m

-- The loop of `page_free` from page `i`, with `rounds` pages left.
pub free_loop : ℕ → ℕ → ℕ → Mem → Mem
free_loop bitmap zero i m = m
free_loop bitmap (suc rounds) i m = free_loop bitmap rounds (i + 1) (clear_bit bitmap i m)

pub page_free : Allocator → ℕ → ℕ → Mem → Mem
page_free a ptr num_pages m =
    if ptr == 0
    then m
    else if ltb ptr a.mem_base || leb (u64 (a.mem_base + u64 (a.total_pages * page_size))) ptr
    then m
    else let start_index = (ptr - a.mem_base) / page_size in
      let num =
        if ltb a.total_pages (u64 (start_index + num_pages))
        then a.total_pages - start_index
        else num_pages in
      free_loop a.bitmap (u64 (start_index + num) - start_index) start_index m
