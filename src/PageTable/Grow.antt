-- ===== src/PageTable/Grow.antt =====
-- `get_next_level_table`: a table that is found or added keeps the tree, every table of it, and
-- every translation.
use kernalite.Base.{
  ℕ, ◌+◌, ◌*◌, ◌<◌, ◌≡◌, ◌≢◌, refl, ◌⊎◌, inl, inr, ap, ap₂, ◌∙◌, sym, arith, Option, none, some,
  List, [], ◌∷◌, length, ℕ_discrete,
}
use mathlib.Core.Path.{subst}
use kernalite.Memory.{Mem, load64}
use kernalite.Memory.Words.{load64_same}
use kernalite.Allocator.{Allocator, page_size}
use kernalite.Allocator.Bitmap.{page_used}
use kernalite.Allocator.Free.{page_index}
use kernalite.PageTable.{entry_at, read_field, follow, index_of}
use kernalite.PageTable.Descriptor.{valid}
use kernalite.PageTable.Walk.{
  next_table, table_at, IsPath, path_of, translate, leaf_at, table_at-cons, table_at-parent,
  next_table-eq_some, next_table-valid, next_table_same, IsPath-tail, leaf_at_same, translate-some,
  translate-none, index_of-lt, path_of-IsPath,
}
use kernalite.PageTable.Tree.{IsPool, IsTablePage, IsTree, entries_apart}
use kernalite.PageTable.Extend.{IsExtended}
use kernalite.PageTable.Confine.{IsConfined}

-- What a step of `map_page` leaves for the next: the tree with the table `u` behind `path`, every
-- table that was there, every translation as it was, and nothing changed out of bounds.
pub record IsGrown (a : Allocator) (m m' : Mem) (root : ℕ) (path : List ℕ) (u : ℕ) : Type 0 where
  pub tree : IsTree a m' root
  pub reaches : table_at m' root path ≡ some u
  pub keeps :
      (q : List ℕ) (t : ℕ) → IsPath q → table_at m root q ≡ some t → table_at m' root q ≡ some t
  pub same : (v : ℕ) → translate m' root v ≡ translate m root v
  pub confined : IsConfined a m m' root

pub Option-cases : (o : Option ℕ) → (o ≡ none) ⊎ ((x : ℕ) × (o ≡ some x))
Option-cases none = inl refl
Option-cases (some x) = inr (x, refl)

-- An empty entry is not valid.
pub zero_invalid : (m : Mem) (entry : ℕ) → load64 m entry ≡ 0 → read_field valid entry m ≡ 0
unfolding read_field
zero_invalid m entry e = rw e

pub leaf_at_invalid : (m : Mem) (entry : ℕ) → read_field valid entry m ≡ 0 → leaf_at m entry ≡ none
unfolding leaf_at
leaf_at_invalid m entry e = rw e

module _ {a : Allocator} {m m' : Mem} {root t i j : ℕ} (p : List ℕ) (pool : IsPool a)
    (tree : IsTree a m root) (path : IsPath (i ∷ p)) (at : table_at m root p ≡ some t)
    (invalid : read_field valid (entry_at t i) m ≡ 0)
    (ext : IsExtended a m m' (entry_at t i) j) where
  abbrev pub new : ℕ
  new = a.mem_base + j * page_size

  page : IsTablePage a m t
  page = tree.owned p t (IsPath-tail i p path) at

  -- Any other entry of a table that was there keeps its word.
  same_word :
      (u k : ℕ)
      → IsTablePage a m u
      → k < 512
      → ((t ≡ u) → (i ≡ k) → ⊥)
      → load64 m' (entry_at u k) ≡ load64 m (entry_at u k)
  same_word u k h l other = load64_same m m' (entry_at u k) λ x from to.
      ext.frame x (ground (arith, h.apart, h.on_page))
        (ground (arith, h.on_page, h.marked, ext.was_free))
        (ground (arith, entries_apart i k pool page h path.0.0 l))

  keeps : (q : List ℕ) (u : ℕ) → IsPath q → table_at m root q ≡ some u → table_at m' root q ≡ some u
  keeps [] u h e = e
  keeps (k ∷ q) u h e =
      let (parent, below, link) = table_at-parent m root k q u e in
      let owner = tree.owned q parent (IsPath-tail k q h) below in
      table_at-cons m' root k q parent (keeps q parent (IsPath-tail k q h) below)
      ∙ next_table_same m m' (entry_at parent k) (
          same_word parent k owner h.0.0 λ x y.
            let here : entry_at t i ≡ entry_at parent k = omega arith in
            (next_table-eq_some m (entry_at parent k) u link).0
              (subst (λ z. read_field valid z m ≡ 0) here invalid))
      ∙ link

  -- An entry of a table that was there leads where it did, unless it is the one that was linked.
  below_old :
      (k : ℕ) (q : List ℕ) (u parent : ℕ)
      → IsPath (k ∷ q)
      → table_at m root q ≡ some parent
      → next_table m' (entry_at parent k) ≡ some u
      → (table_at m root (k ∷ q) ≡ some u) ⊎ ((k ∷ q ≡ i ∷ p) × (u ≡ new))
  below_old k q u parent h old link = elim (ℕ_discrete (entry_at t i) (entry_at parent k)) [
    | yes e ↦
        let same_table : t ≡ parent =
          ground (arith, entries_apart i k pool page owner path.0.0 h.0.0) in
        let same_index : i ≡ k = ground (arith, entries_apart i k pool page owner path.0.0 h.0.0) in
        let same_path : p ≡ q =
          tree.distinct p q parent (IsPath-tail i p path) (IsPath-tail k q h)
            (at ∙ ap some same_table) old in
        inr (
          ap₂ ◌∷◌ (sym same_index) (sym same_path),
          sym (next_table-eq_some m' (entry_at parent k) u link).1
              ∙ ap (λ z. follow z m') (sym e)
              ∙ ext.leads,
        )
    | no e ↦ inl (
        table_at-cons m root k q parent old
        ∙ sym (
            next_table_same m m' (entry_at parent k)
              (same_word parent k owner h.0.0 λ x y. e (omega arith)))
        ∙ link)
  ]
    where
      owner : IsTablePage a m parent
      owner = tree.owned q parent (IsPath-tail k q h) old

  -- A table at level 3 is not the table that was extended.
  deeper : (v u : ℕ) → table_at m root (path_of v) ≡ some u → t ≡ u → ⊥
  deeper v u found e =
      let same_path : p ≡ path_of v =
        tree.distinct p (path_of v) u (IsPath-tail i p path) (path_of-IsPath v) (at ∙ ap some e)
          found in
      absurd (omega (arith, ap length same_path, path.1))

  linked_at : table_at m' root (i ∷ p) ≡ some new
  linked_at =
      table_at-cons m' root i p t (keeps p t (IsPath-tail i p path) at)
      ∙ next_table-valid m' (entry_at t i) (omega (arith, ext.is_valid))
      ∙ ap some ext.leads

  IsTablePage-new : IsTablePage a m' new
  IsTablePage-new =
      let index : page_index a new ≡ j = omega arith in
      record {
        on_page = omega arith;
        in_range = rw index ext.in_range;
        marked = rw index (ground (arith, ext.status j ext.in_range));
        apart = tree.free_apart j ext.in_range ext.was_free;
      }

  -- A table of the new memory was there, or is the one that was added.
  old_or_new :
      (q : List ℕ) (u : ℕ)
      → IsPath q
      → table_at m' root q ≡ some u
      → (table_at m root q ≡ some u) ⊎ ((q ≡ i ∷ p) × (u ≡ new))
  old_or_new [] u h e = inl e
  old_or_new (k ∷ q) u h e =
      let (parent, below, link) = table_at-parent m' root k q u e in
      elim (old_or_new q parent (IsPath-tail k q h) below) [
        | inl old ↦ below_old k q u parent h old link
        | inr (_, is_new) ↦ absurd (
            (next_table-eq_some m' (entry_at parent k) u link).0
              (zero_invalid m' (entry_at parent k) (rw is_new (ext.empty k h.0.0))))
      ]

  old_page : (u : ℕ) → IsTablePage a m u → IsTablePage a m' u
  old_page u h = record {
    on_page = h.on_page;
    in_range = h.in_range;
    marked = ground (arith, ext.status (page_index a u) h.in_range, h.marked);
    apart = h.apart;
  }

  not_new : (u : ℕ) → IsTablePage a m u → u ≢ new
  not_new u h e =
      let index : page_index a u ≡ j = omega arith in
      cc (sym h.marked ∙ ap (page_used a.bitmap m) index ∙ ext.was_free)

  grown-IsTree : IsTree a m' root
  grown-IsTree = record {
    distinct = λ q r u hq hr eq er. elim (old_or_new q u hq eq) [
      | inl old ↦ elim (old_or_new r u hr er) [
        | inl old' ↦ tree.distinct q r u hq hr old old'
        | inr (_, is_new) ↦ absurd (not_new u (tree.owned q u hq old) is_new)
      ]
      | inr (there, is_new) ↦ elim (old_or_new r u hr er) [
        | inl old' ↦ absurd (not_new u (tree.owned r u hr old') is_new)
        | inr (there', _) ↦ there ∙ sym there'
      ]
    ];
    owned = λ q u hq eq. elim (old_or_new q u hq eq) [
      | inl old ↦ old_page u (tree.owned q u hq old)
      | inr (_, is_new) ↦ rw is_new IsTablePage-new
    ];
    free_apart = λ k l e. tree.free_apart k l (ground (arith, ext.status k l));
  }

  grown_same : (v : ℕ) → translate m' root v ≡ translate m root v
  grown_same v = elim (Option-cases (table_at m root (path_of v))) [
    | inl gone ↦ elim (Option-cases (table_at m' root (path_of v))) [
      | inl gone' ↦ translate-none m' root v gone' ∙ sym (translate-none m root v gone)
      | inr (u, found) ↦ elim (old_or_new (path_of v) u (path_of-IsPath v) found) [
        | inl old ↦ cc (sym gone ∙ old)
        | inr (_, is_new) ↦
            translate-some m' root v u found
            ∙ leaf_at_invalid m' (entry_at u (index_of v 12))
                (zero_invalid m' _ (rw is_new (ext.empty (index_of v 12) (index_of-lt v 12))))
            ∙ sym (translate-none m root v gone)
      ]
    ]
    | inr (u, found) ↦
        translate-some m' root v u (keeps (path_of v) u (path_of-IsPath v) found)
        ∙ leaf_at_same m m' (entry_at u (index_of v 12)) (
            same_word u (index_of v 12) (tree.owned (path_of v) u (path_of-IsPath v) found)
              (index_of-lt v 12) (λ e _. deeper v u found e))
        ∙ sym (translate-some m root v u found)
  ]

  grown-IsConfined : IsConfined a m m' root
  grown-IsConfined = record {
    used = λ k l e. ground (arith, ext.status k l, e);
    frame = λ x b free tables.
        ext.frame x b (free new (j, ext.in_range, ext.was_free, refl))
          (ground (arith, tables p t (IsPath-tail i p path) at, path.0.0));
    tables = λ q u h e. elim (old_or_new q u h e) [
      | inl old ↦ inl old
      | inr (_, is_new) ↦ inr (j, ext.in_range, ext.was_free, is_new)
    ];
    kept = keeps;
    accounted = λ k l e. elim (ℕ_discrete k j) [
      | yes same ↦ inr (i ∷ p, new, path, linked_at, omega arith)
      | no other ↦ inl (ground (arith, ext.status k l, e))
    ];
  }

  pub grown : IsGrown a m m' root (i ∷ p) new
  grown = record {
    tree = grown-IsTree;
    reaches = linked_at;
    keeps = keeps;
    same = grown_same;
    confined = grown-IsConfined;
  }
