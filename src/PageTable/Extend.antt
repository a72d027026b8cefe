-- ===== src/PageTable/Extend.antt =====
-- `allocate_new_table`: what it adds to the memory when the allocation succeeds.
use kernalite.Base.{
  ℕ, zero, suc, ◌+◌, ◌*◌, ◌/◌, ◌%◌, ◌^◌, ◌≤◌, ◌<◌, ◌≡◌, ◌≢◌, refl, ◌⊎◌, inl, true, false, ap, ◌∙◌,
  sym, arith, ◌==◌, if◌then◌else◌, sub64, dec_lt,
}
use kernalite.Memory.{Mem, load64, store64, SameOutside, store64-SameOutside}
use kernalite.Memory.Words.{load64-lt, load64-store64, load64_same}
use kernalite.Allocator.{Allocator, page_size}
use kernalite.Allocator.Bitmap.{page_used}
use kernalite.Allocator.Search.{IsAllocated}
use kernalite.Allocator.Free.{page_index}
use kernalite.PageTable.{
  entry_at, read_field, set_page_table_entry_address, get_page_table_entry_address,
  set_next_level_table, page_table_init, init_loop, follow, pa_to_va, va_to_pa,
}
use kernalite.PageTable.Descriptor.{get, put, valid, table, nlta_47_12}
use kernalite.PageTable.Leaf.{Holds, write_field-Holds, address_field, put_nlta_lt}
use kernalite.PageTable.Tree.{IsPool, IsTablePage, IsTree}

-- `page_table_init` zeroes the 512 entries of the page, and writes nowhere else.
pub init_loop-SameOutside :
    (t rounds i : ℕ) (m : Mem)
    → SameOutside (entry_at t i) (entry_at t (i + rounds)) m (init_loop t rounds i m)
unfolding init_loop
init_loop-SameOutside t zero i m a h = refl
init_loop-SameOutside t (suc rounds) i m a h =
    init_loop-SameOutside t rounds (i + 1) (store64 m (entry_at t i) 0) a (ground arith)
    ∙ store64-SameOutside m (entry_at t i) 0 a (ground arith)

pub init_loop_zero :
    (t rounds i k : ℕ) (m : Mem)
    → i ≤ k
    → k < i + rounds
    → load64 (init_loop t rounds i m) (entry_at t k) ≡ 0
unfolding init_loop
init_loop_zero t zero i k m h l = absurd (omega arith)
init_loop_zero t (suc rounds) i k m h l = elim (dec_lt i k) [
  | yes p ↦
      init_loop_zero t rounds (i + 1) k (store64 m (entry_at t i) 0) (omega arith) (omega arith)
  | no p ↦
      let same : k ≡ i = omega arith in
      rw same (
        load64_same (store64 m (entry_at t i) 0) _ (entry_at t i) (λ a u v.
          init_loop-SameOutside t rounds (i + 1) (store64 m (entry_at t i) 0) a (inl (omega arith)))
        ∙ load64-store64 m (entry_at t i) 0 (omega arith))
]

-- The word that links a table below an entry whose old word is `w`.
abbrev link_word : ℕ → ℕ → ℕ
link_word w t = put table 1 (put valid 1 (put nlta_47_12 (t / 2 ^ 12 % 2 ^ 36) w))

put-valid_lt : (x v : ℕ) → v < 2 ^ 64 → put valid x v < 2 ^ 64
put-valid_lt x v h = omega arith

put-table_lt : (x v : ℕ) → v < 2 ^ 64 → put table x v < 2 ^ 64
put-table_lt x v h = omega arith

get-valid-put-valid : (v : ℕ) → get valid (put table 1 (put valid 1 v)) ≡ 1
get-valid-put-valid v = omega arith

get_nlta-put-valid : (v : ℕ) → get nlta_47_12 (put table 1 (put valid 1 v)) ≡ get nlta_47_12 v
get_nlta-put-valid v = omega arith

get_nlta-put_nlta : (x v : ℕ) → x < 2 ^ 36 → get nlta_47_12 (put nlta_47_12 x v) ≡ x
get_nlta-put_nlta x v h = omega arith

set_next_level_table-Holds :
    (entry t : ℕ) (m : Mem)
    → t < 2 ^ 48
    → Holds entry m (link_word (load64 m entry) t) (set_next_level_table entry (va_to_pa t) m)
unfolding set_next_level_table set_page_table_entry_address va_to_pa
set_next_level_table-Holds entry t m l =
    let same : sub64 t 0 ≡ t = omega arith in
    let old : Holds entry m (load64 m entry) m = record { word = refl; frame = λ a h. refl } in
    let w = load64-lt m entry in
    rw (same, address_field)
      (write_field-Holds table 1 _ refl (put-table_lt 1 _ (put-valid_lt 1 _ (put_nlta_lt _ _ w))) (
        write_field-Holds valid 1 _ refl (put-valid_lt 1 _ (put_nlta_lt _ _ w))
          (write_field-Holds nlta_47_12 _ _ refl (put_nlta_lt _ _ w) old)))

-- The entry is valid afterwards, and leads to the table.
pub linked_entry :
    (entry t : ℕ) (m m' : Mem)
    → t < 2 ^ 48
    → t % page_size ≡ 0
    → Holds entry m (link_word (load64 m entry) t) m'
    → (read_field valid entry m' ≡ 1) × (follow entry m' ≡ t)
unfolding read_field follow get_page_table_entry_address pa_to_va
linked_entry entry t m m' l aligned h = rw h.word (
  get-valid-put-valid _,
  rw (get_nlta-put-valid, get_nlta-put_nlta (t / 2 ^ 12 % 2 ^ 36) (load64 m entry) (omega arith))
      (omega arith),
)

-- What a successful `allocate_new_table` does for the entry at `entry`: page `j`, which was free, is
-- used now; it is an empty table; the entry leads to it; and no byte changes but those of the bitmap,
-- of the new page and of the entry.
pub record IsExtended (a : Allocator) (m m' : Mem) (entry j : ℕ) : Type 0 where
  pub in_range : j < a.total_pages
  pub was_free : page_used a.bitmap m j ≡ false
  pub status :
      (k : ℕ)
      → k < a.total_pages
      → page_used a.bitmap m' k ≡ (if k == j then true else page_used a.bitmap m k)
  pub empty : (k : ℕ) → k < 512 → load64 m' (entry_at (a.mem_base + j * page_size) k) ≡ 0
  pub is_valid : read_field valid entry m' ≡ 1
  pub leads : follow entry m' ≡ a.mem_base + j * page_size
  pub frame :
      (x : ℕ)
      → (x < a.bitmap) ⊎ (a.bitmap + (a.total_pages + 7) / 8 ≤ x)
      → (x < a.mem_base + j * page_size) ⊎ (a.mem_base + j * page_size + page_size ≤ x)
      → (x < entry) ⊎ (entry + 8 ≤ x)
      → m' x ≡ m x

pub page_used_same :
    (bitmap k : ℕ) (m m' : Mem)
    → m' (bitmap + k / 8) ≡ m (bitmap + k / 8)
    → page_used bitmap m' k ≡ page_used bitmap m k
unfolding page_used
page_used_same bitmap k m m' e = rw e

module _ {a : Allocator} {m : Mem} {root t : ℕ} (i : ℕ) (pool : IsPool a) (tree : IsTree a m root)
    (page : IsTablePage a m t) (small : i < 512) where
  pub linked_IsExtended :
      (s : ℕ) (r : ℕ × Mem)
      → IsAllocated a 1 m s r
      → IsExtended a m
          (set_next_level_table (entry_at t i) (va_to_pa r.0) (page_table_init r.0 r.1))
          (entry_at t i)
          s
  linked_IsExtended s r done = record {
    in_range = omega (arith, done.first.in_range);
    was_free = done.first.free s (omega arith) (omega arith);
    status = λ k l.
        page_used_same a.bitmap k r.1 linked (
          holds.frame (a.bitmap + k / 8) (ground (arith, page.apart, page.on_page))
          ∙ zeroed_frame (a.bitmap + k / 8)
              (ground (arith, tree.free_apart s, done.pointer, done.first.free s, in_region)))
        ∙ ground (arith, done.update.status k);
    empty = λ k l.
        load64_same zeroed linked (entry_at (a.mem_base + s * page_size) k)
          (λ x u v. holds.frame x (ground (arith, page.on_page, other_page)))
        ∙ rw (← done.pointer) (zeroed_empty k l);
    is_valid = valid_and_leads.0;
    leads = valid_and_leads.1 ∙ done.pointer;
    frame = λ x b n e.
        holds.frame x e
        ∙ zeroed_frame x (rw done.pointer n)
        ∙ done.update.frame x (ground (arith, in_region));
  }
    where
      entry : ℕ
      entry = entry_at t i

      zeroed : Mem
      zeroed = page_table_init r.0 r.1

      linked : Mem
      linked = set_next_level_table entry (va_to_pa r.0) zeroed

      in_region : s < a.total_pages
      in_region = omega (arith, done.first.in_range)

      other_page : page_index a t ≢ s
      other_page e = cc (
          sym page.marked
          ∙ ap (page_used a.bitmap m) e
          ∙ done.first.free s (omega arith) (omega arith))

      zeroed_frame : SameOutside r.0 (r.0 + page_size) r.1 zeroed
      zeroed_frame x h =
          unfold page_table_init in init_loop-SameOutside r.0 512 0 r.1 x (ground arith)

      zeroed_empty : (k : ℕ) → k < 512 → load64 zeroed (entry_at r.0 k) ≡ 0
      zeroed_empty k l =
          unfold page_table_init in init_loop_zero r.0 512 0 k r.1 (omega arith) (omega arith)

      holds : Holds entry zeroed (link_word (load64 zeroed entry) r.0) linked
      holds =
          set_next_level_table-Holds entry r.0 zeroed
            (omega (arith, done.pointer, done.first.in_range, pool.low))

      valid_and_leads : (read_field valid entry linked ≡ 1) × (follow entry linked ≡ r.0)
      valid_and_leads =
          linked_entry entry r.0 zeroed _
            (omega (arith, done.pointer, done.first.in_range, pool.low))
            (omega (arith, done.pointer, pool.ready.aligned)) holds
