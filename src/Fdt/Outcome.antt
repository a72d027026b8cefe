-- ===== src/Fdt/Outcome.antt =====
-- `get_mem`: which trees it accepts, and the memory map that it leaves.
use kernalite.Base.{
  ℕ, zero, suc, ◌<◌, ◌≡◌, ◌≢◌, refl, sym, ap, ◌∙◌, ◌⊎◌, inl, inr, none, some, List, [], length,
  ==_ne, ℕ_discrete, arith,
}
use kernalite.Base.Int.{ℤ, pos, negsuc}
use kernalite.Memory.{Mem}
use kernalite.Fdt.{LibFdt, MemoryMap, nodes_loop, get_mem, neg, one_or_two}
use kernalite.Fdt.Laws.{SwapsBytes, Searches}
use kernalite.Fdt.Entries.{IsCells}
use kernalite.Fdt.Regions.{Nodes, Nodes-total, tree_entries, Ends, nodes_loop-Ends, int-cases}

-- A tree whose header `get_mem` accepts: it has a root, with one or two cells for each number.
pub record IsTree (lib : LibFdt) (m : Mem) (fdt address_cell size_cell : ℕ) : Type 0 where
  pub root : ℕ
  pub root_at : lib.fdt_path_offset m fdt "/" ≡ pos root
  pub address_cells : lib.fdt_address_cells m fdt (pos root) ≡ pos address_cell
  pub size_cells : lib.fdt_size_cells m fdt (pos root) ≡ pos size_cell
  pub address : IsCells address_cell
  pub size : IsCells size_cell

abbrev pub emptied : MemoryMap → MemoryMap
emptied map = record { regions = map.regions; count = 0 }

one_or_two-IsCells : (n : ℕ) → IsCells n → one_or_two (pos n) ≡ some n
one_or_two-IsCells n h = ground arith

IsCells-cases : (x : ℤ) → ((n : ℕ) × (x ≡ pos n) × IsCells n) ⊎ (one_or_two x ≡ none)
IsCells-cases (negsuc n) = inr refl
IsCells-cases (pos n) = elim (ℕ_discrete n 1) [
  | yes e ↦ inl (n, refl, inl e)
  | no e ↦ elim (ℕ_discrete n 2) [
    | yes f ↦ inl (n, refl, inr f)
    | no f ↦ inr (rw (==_ne n 1 e, ==_ne n 2 f) refl)
  ]
]

pub negative : (n : ℕ) → 0 < n → (err : ℕ) × (neg n ≡ negsuc err)
negative zero l = absurd (omega arith)
negative (suc n) l = (n, refl)

not_cells : (x : ℤ) (n : ℕ) → one_or_two x ≡ none → x ≡ pos n → IsCells n → ⊥
not_cells x n e f h = cc (ap one_or_two f, e, one_or_two-IsCells n h)

module _ (lib : LibFdt) (m : Mem) (fdt : ℕ) where
  -- The header is accepted, or there is no reading of it that would be.
  pub IsTree-cases :
      ((address_cell : ℕ) × (size_cell : ℕ) × IsTree lib m fdt address_cell size_cell)
      ⊎ ((address_cell size_cell : ℕ) → ¬ IsTree lib m fdt address_cell size_cell)
  IsTree-cases = elim (int-cases (lib.fdt_path_offset m fdt "/")) [
    | inr (k, e) ↦ inr (λ a s tree. cc (e, tree.root_at))
    | inl (root, e) ↦ elim (IsCells-cases (lib.fdt_address_cells m fdt (pos root))) [
      | inr none_a ↦ inr (λ a s tree.
          not_cells _ a none_a
            (ap (lib.fdt_address_cells m fdt) (sym e ∙ tree.root_at) ∙ tree.address_cells)
            tree.address)
      | inl (address_cell, a, address) ↦
          elim (IsCells-cases (lib.fdt_size_cells m fdt (pos root))) [
            | inr none_s ↦ inr (λ a s tree.
                not_cells _ s none_s
                  (ap (lib.fdt_size_cells m fdt) (sym e ∙ tree.root_at) ∙ tree.size_cells)
                  tree.size)
            | inl (size_cell, s, size) ↦ inl (
              address_cell,
              size_cell,
              record {
                root = root;
                root_at = e;
                address_cells = a;
                size_cells = s;
                address = address;
                size = size;
              },
            )
          ]
    ]
  ]

module _ (lib : LibFdt) (m : Mem) (fuel fdt mmap : ℕ) (map : MemoryMap) (fdt_ne : fdt ≢ 0)
    (mmap_ne : mmap ≢ 0) where
  module _ (address_cell size_cell : ℕ) (tree : IsTree lib m fdt address_cell size_cell) where
    get_mem_tree :
        get_mem lib fuel m fdt mmap map
        ≡ nodes_loop lib fuel address_cell size_cell m fdt (negsuc 0) (emptied map)
    unfolding get_mem
    get_mem_tree =
        let address : one_or_two (lib.fdt_address_cells m fdt (pos tree.root)) ≡ some address_cell =
          ap one_or_two tree.address_cells ∙ one_or_two-IsCells address_cell tree.address in
        let size : one_or_two (lib.fdt_size_cells m fdt (pos tree.root)) ≡ some size_cell =
          ap one_or_two tree.size_cells ∙ one_or_two-IsCells size_cell tree.size in
        rw (==_ne fdt 0 fdt_ne, ==_ne mmap 0 mmap_ne, tree.root_at, address, size) refl

    pub get_mem-Nodes-Ends :
        {ns : List ℕ}
        → SwapsBytes lib
        → Nodes lib m fdt (negsuc 0) ns
        → length ns < fuel
        → Ends lib m fdt address_cell size_cell []
            (tree_entries lib m fdt address_cell size_cell ns)
            (get_mem lib fuel m fdt mmap map)
    get_mem-Nodes-Ends swaps nodes enough = rw get_mem_tree (
        nodes_loop-Ends lib m fdt address_cell size_cell swaps tree.address tree.size fuel
          (emptied map) [] nodes enough refl)

    -- With a tree whose header is accepted, and fuel for its size, `get_mem` returns: it goes through
    -- the memory nodes in order, and either fails with `-FDT_ERR_BADSTATE`, if some `reg` property is
    -- not a whole number of entries, or returns 0 with the first 16 of all the entries that are not
    -- empty.
    pub get_mem-Ends :
        (limit : ℕ)
        → SwapsBytes lib
        → Searches lib m fdt limit
        → limit < fuel
        → (ns : List ℕ) × Nodes lib m fdt (negsuc 0) ns
          × Ends lib m fdt address_cell size_cell []
              (tree_entries lib m fdt address_cell size_cell ns)
              (get_mem lib fuel m fdt mmap map)
    get_mem-Ends limit swaps searches enough =
        let (ns, nodes, l) = Nodes-total lib m fdt limit limit (negsuc 0) searches (omega arith) in
        (ns, nodes, get_mem-Nodes-Ends swaps nodes (omega arith))

  -- A tree whose header is not accepted is refused with a negative error number, and leaves the map
  -- empty.
  pub get_mem_refused :
      0 < lib.fdt_err_badstate
      → ((address_cell size_cell : ℕ) → ¬ IsTree lib m fdt address_cell size_cell)
      → (err : ℕ) × (get_mem lib fuel m fdt mmap map ≡ some (negsuc err, emptied map))
  unfolding get_mem
  get_mem_refused badstate h =
      let (err, bad) = negative lib.fdt_err_badstate badstate in
      elim (int-cases (lib.fdt_path_offset m fdt "/")) [
        | inr (k, e) ↦ (k, rw (==_ne fdt 0 fdt_ne, ==_ne mmap 0 mmap_ne, e) refl)
        | inl (root, e) ↦ elim (IsCells-cases (lib.fdt_address_cells m fdt (pos root))) [
          | inr none_a ↦ (err, rw (==_ne fdt 0 fdt_ne, ==_ne mmap 0 mmap_ne, e, none_a, bad) refl)
          | inl (address_cell, a, address) ↦
              let one : one_or_two (lib.fdt_address_cells m fdt (pos root)) ≡ some address_cell =
                ap one_or_two a ∙ one_or_two-IsCells address_cell address in
              elim (IsCells-cases (lib.fdt_size_cells m fdt (pos root))) [
                | inr none_s ↦
                    (err, rw (==_ne fdt 0 fdt_ne, ==_ne mmap 0 mmap_ne, e, one, none_s, bad) refl)
                | inl (size_cell, s, size) ↦ absurd (
                    h address_cell size_cell (record {
                      root = root;
                      root_at = e;
                      address_cells = a;
                      size_cells = s;
                      address = address;
                      size = size;
                    }))
              ]
        ]
      ]
