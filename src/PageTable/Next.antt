-- ===== src/PageTable/Next.antt =====
-- `get_next_level_table` on an entry of the tree: both of its branches, and a failed allocation.
use kernalite.Base.{
  ℕ, ◌+◌, ◌*◌, ◌<◌, ◌≡◌, ◌≢◌, refl, ◌⊎◌, inl, inr, true, false, ap, ◌∙◌, arith, ==_ne, some, List,
  ◌∷◌, ℕ_discrete,
}
use kernalite.Memory.{Mem}
use kernalite.Allocator.{Allocator, page_size, page_alloc}
use kernalite.Allocator.Bitmap.{page_used}
use kernalite.Allocator.Search.{IsAllocated, IsRefused, page_alloc-first_fit}
use kernalite.PageTable.{
  entry_at, read_field, follow, allocate_new_table, get_next_level_table, set_next_level_table,
  page_table_init, va_to_pa,
}
use kernalite.PageTable.Descriptor.{valid}
use kernalite.PageTable.Walk.{table_at, IsPath, table_at-cons, next_table-valid, IsPath-tail}
use kernalite.PageTable.Tree.{IsPool, IsTablePage, IsTree}
use kernalite.PageTable.Extend.{linked_IsExtended}
use kernalite.PageTable.Confine.{IsConfined-refl}
use kernalite.PageTable.Grow.{IsGrown, grown}

-- Every page of the region is in use.
abbrev pub IsFull : Allocator → Mem → Type 0
IsFull a m = (j : ℕ) → j < a.total_pages → page_used a.bitmap m j ≡ true

refused-IsFull : (a : Allocator) (m : Mem) (r : ℕ × Mem) → IsRefused a 1 m r → IsFull a m
refused-IsFull a m r refused j l =
    let (k, low, high, used) = refused.none_free j (omega arith) in
    let here : k ≡ j = omega arith in rw (← here) used

-- A successful step: a pointer that is not null, and the tree grown to have it behind `path`.
pub record IsStep (a : Allocator) (m : Mem) (root : ℕ) (path : List ℕ) (r : ℕ × Mem) : Type 0 where
  pub not_null : r.0 ≢ 0
  pub grows : IsGrown a m r.1 root path r.0

module _ (a : Allocator) (entry : ℕ) (m : Mem) where
  allocate_new_table_done :
      (page_alloc a 1 m).0 ≢ 0
      → allocate_new_table a entry m ≡ (
        true,
        set_next_level_table entry
            (va_to_pa (page_alloc a 1 m).0)
            (page_table_init (page_alloc a 1 m).0 (page_alloc a 1 m).1),
      )
  unfolding allocate_new_table
  allocate_new_table_done h = rw (==_ne (page_alloc a 1 m).0 0 h)

  allocate_new_table_failed : page_alloc a 1 m ≡ (0, m) → allocate_new_table a entry m ≡ (false, m)
  unfolding allocate_new_table
  allocate_new_table_failed e = rw e

  get_next_level_table_new :
      (m' : Mem)
      → read_field valid entry m ≡ 0
      → allocate_new_table a entry m ≡ (true, m')
      → get_next_level_table a entry m ≡ (follow entry m', m')
  unfolding get_next_level_table
  get_next_level_table_new m' h e = rw (h, e)

  get_next_level_table_failed :
      read_field valid entry m ≡ 0
      → allocate_new_table a entry m ≡ (false, m)
      → get_next_level_table a entry m ≡ (0, m)
  unfolding get_next_level_table
  get_next_level_table_failed h e = rw (h, e)

  get_next_level_table-valid :
      read_field valid entry m ≢ 0 → get_next_level_table a entry m ≡ (follow entry m, m)
  unfolding get_next_level_table
  get_next_level_table-valid h = rw (==_ne (read_field valid entry m) 0 h)

module _ {a : Allocator} {m : Mem} {root t i : ℕ} (p : List ℕ) (pool : IsPool a)
    (tree : IsTree a m root) (path : IsPath (i ∷ p)) (at : table_at m root p ≡ some t) where
  abbrev result : ℕ × Mem
  result = get_next_level_table a (entry_at t i) m

  table_not_null : (m' : Mem) (u : ℕ) → IsTablePage a m' u → u ≢ 0
  table_not_null m' u h = omega (arith, h.on_page, pool.ready.base_pos)

  valid-IsStep :
      read_field valid (entry_at t i) m ≢ 0 → IsStep a m root (i ∷ p) (follow (entry_at t i) m, m)
  valid-IsStep h =
      let found : table_at m root (i ∷ p) ≡ some (follow (entry_at t i) m) =
        table_at-cons m root i p t at ∙ next_table-valid m (entry_at t i) h in
      record {
        not_null = table_not_null m _ (tree.owned (i ∷ p) _ path found);
        grows = record {
          tree = tree;
          reaches = found;
          keeps = λ q u h e. e;
          same = λ v. refl;
          confined = IsConfined-refl a m root;
        };
      }

  allocated-IsStep :
      read_field valid (entry_at t i) m ≡ 0
      → (s : ℕ) → IsAllocated a 1 m s (page_alloc a 1 m)
      → IsStep a m root (i ∷ p) result
  allocated-IsStep h s done =
      let r = page_alloc a 1 m in
      let page = tree.owned p t (IsPath-tail i p path) at in
      let m' = set_next_level_table (entry_at t i) (va_to_pa r.0) (page_table_init r.0 r.1) in
      let ext = linked_IsExtended i pool tree page path.0.0 s r done in
      let grows = grown p pool tree path at h ext in
      let done_table =
        allocate_new_table_done a (entry_at t i) m
          (omega (arith, done.pointer, pool.ready.base_pos)) in
      let equal : result ≡ (a.mem_base + s * page_size, m') =
        get_next_level_table_new a (entry_at t i) m m' h done_table
        ∙ ap (λ (x : ℕ). (x, m')) ext.leads in
      rw equal (record { not_null = omega (arith, pool.ready.base_pos); grows = grows })

  -- On an entry of a table of the tree, `get_next_level_table` returns the table behind it, which is
  -- added if the entry was not valid; or it returns `NULL` and changes nothing, and every page of the region is in use.
  pub get_next_level_table-outcome :
      IsStep a m root (i ∷ p) result ⊎ ((result ≡ (0, m)) × IsFull a m)
  get_next_level_table-outcome = elim (ℕ_discrete (read_field valid (entry_at t i) m) 0) [
    | yes h ↦ elim (page_alloc-first_fit a 1 m pool.ready (omega arith)) [
      | inl (s, done) ↦ inl (allocated-IsStep h s done)
      | inr refused ↦ inr (
        get_next_level_table_failed a (entry_at t i) m h
            (allocate_new_table_failed a (entry_at t i) m refused.unchanged),
        refused-IsFull a m _ refused,
      )
    ]
    | no h ↦ inl (rw (get_next_level_table-valid a (entry_at t i) m h) (valid-IsStep h))
  ]
