-- ===== src/Fdt/Regions.antt =====
-- `get_mem`: the regions of all memory nodes, in the order of the tree.
use kernalite.Base.{
  ℕ, zero, suc, ◌+◌, ◌-◌, ◌*◌, ◌/◌, ◌%◌, ◌≤◌, ◌<◌, ◌≡◌, ◌≢◌, refl, ◌⊎◌, inl, inr, Option, none,
  some, List, [], ◌∷◌, ◌++◌, append-nil, append_assoc, length, if◌then◌else◌, ◌==◌, ℕ_discrete,
  ==_of_eq, ==_ne, ge→ltb, dec_le, arith,
}
use native.Mathlib.Nat.{add-zero, zero-mul, mul-zero, zero-mod, zero-div, mod-eq_of_lt}
use kernalite.Base.Int.{ℤ, pos, negsuc}
use kernalite.Memory.{Mem}
use kernalite.Fdt.{LibFdt, MemoryRegion, MemoryMap, read_reg, nodes_loop, entries_loop, neg}
use kernalite.Fdt.Laws.{SwapsBytes, place, Searches}
use kernalite.Fdt.Contents.{Holds}
use kernalite.Fdt.Entries.{entries, nonempty, IsCells, entries_loop-Holds}

nonempty-append : (xs ys : List MemoryRegion) → nonempty (xs ++ ys) ≡ nonempty xs ++ nonempty ys
nonempty-append [] ys = refl
nonempty-append (x ∷ xs) ys = ground (arith, nonempty-append xs ys)

not_whole : (n d : ℕ) → n ≢ 0 → n < d → n % d ≢ 0
not_whole n d ne l = rw (mod-eq_of_lt l) ne

pub int-cases : (x : ℤ) → ((n : ℕ) × (x ≡ pos n)) ⊎ ((k : ℕ) × (x ≡ negsuc k))
int-cases (pos n) = inl (n, refl)
int-cases (negsuc k) = inr (k, refl)

module _ (lib : LibFdt) (m : Mem) (fdt : ℕ) where
  -- The nodes that the search finds behind `node`.
  pub data Nodes : ℤ → List ℕ → Type 0 where
    last :
        {node : ℤ} (k : ℕ)
        → lib.fdt_node_offset_by_prop_value m fdt node "device_type" "memory" 7 ≡ negsuc k
        → Nodes node []
    found :
        {node : ℤ} {ns : List ℕ} (n : ℕ)
        → lib.fdt_node_offset_by_prop_value m fdt node "device_type" "memory" 7 ≡ pos n
        → Nodes (pos n) ns
        → Nodes node (n ∷ ns)

  module _ (address_cell size_cell : ℕ) where
    -- The entries of the property of a node; `none` if it is not a whole number of entries. A node
    -- without a property, or with an empty one, has no entries.
    abbrev reg_entries : ℕ × ℤ → Option (List MemoryRegion)
    reg_entries (reg, negsuc n) = some []
    reg_entries (reg, pos n) =
        if reg == 0
        then some []
        else if n % (4 * (address_cell + size_cell)) == 0
        then some (entries m address_cell size_cell reg (n / (4 * (address_cell + size_cell))))
        else none

    abbrev pub tree_entries : List ℕ → Option (List MemoryRegion)
    tree_entries [] = some []
    tree_entries (n ∷ ns) = elim (reg_entries (lib.fdt_getprop m fdt (pos n) "reg")) [
      | none ↦ none
      | some rs ↦ elim (tree_entries ns) [ none ↦ none | some rest ↦ some (rs ++ rest) ]
    ]

    -- What reading does to a map that holds `before`: it fails, or adds the entries.
    abbrev Reads : List MemoryRegion → Option (List MemoryRegion) → Option MemoryMap → Type 0
    Reads before none r = r ≡ none
    Reads before (some rs) r =
        (map : MemoryMap) × (r ≡ some map) × Holds map (before ++ nonempty rs)

    -- The loop over the nodes: it ends with the error of the first property that is no whole number
    -- of entries, or it adds the entries of all nodes.
    abbrev pub Ends :
        List MemoryRegion → Option (List MemoryRegion) → Option (ℤ × MemoryMap) → Type 0
    Ends before none r = (map : MemoryMap) × (r ≡ some (neg lib.fdt_err_badstate, map))
    Ends before (some rs) r =
        (map : MemoryMap) × (r ≡ some (pos 0, map)) × Holds map (before ++ nonempty rs)

    module _ (swaps : SwapsBytes lib) (address : IsCells address_cell)
        (size : IsCells size_cell) where
      read_reg-Reads :
          (prop : ℕ × ℤ) (map : MemoryMap) (before : List MemoryRegion)
          → Holds map before
          → Reads before (reg_entries prop) (read_reg lib address_cell size_cell m map prop)
      unfolding read_reg
      read_reg-Reads (reg, negsuc n) map before h = (map, refl, rw append-nil h)
      read_reg-Reads (reg, pos n) map before h =
          let entry_size : ℕ = 4 * (address_cell + size_cell) in
          let commuted : (address_cell + size_cell) * 4 ≡ entry_size = omega arith in
          elim (ℕ_discrete reg 0) [
            | yes null ↦ rw (==_of_eq reg 0 null) (map, refl, rw append-nil h)
            | no reg_ne ↦ rw (==_ne reg 0 reg_ne) (elim (ℕ_discrete n 0) [
              | yes empty ↦ rw (empty, zero-mod, zero-div) (map, refl, rw append-nil h)
              | no n_ne ↦
                  rw (==_ne n 0 n_ne, commuted)
                    (elim (ℕ_discrete (n % entry_size) 0) [
                      | yes whole ↦
                          let enough : entry_size ≤ n = elim (dec_le entry_size n) [
                            | yes l ↦ l
                            | no l ↦ absurd (not_whole n entry_size n_ne (omega arith) whole)
                          ] in
                          let start : reg + 4 * (0 * (address_cell + size_cell)) ≡ reg =
                            rw (zero-mul, mul-zero) (add-zero reg) in
                          rw (ge→ltb n entry_size enough, ==_of_eq _ _ whole)
                            (
                              entries_loop lib address_cell size_cell reg (n / entry_size) 0 m map,
                              refl,
                              rw start at (
                                  entries_loop-Holds lib swaps address_cell size_cell address size
                                    (n / entry_size) 0 reg m map before h),
                            )
                      | no part ↦ rw (==_ne _ _ part) (ground arith)
                    ])
            ])
          ]

      module _ (fuel : ℕ) (node : ℤ) (map : MemoryMap) where
        abbrev loop : Option (ℤ × MemoryMap)
        loop = nodes_loop lib (suc fuel) address_cell size_cell m fdt node map

        nodes_loop_last :
            (k : ℕ)
            → lib.fdt_node_offset_by_prop_value m fdt node "device_type" "memory" 7 ≡ negsuc k
            → loop ≡ some (pos 0, map)
        unfolding nodes_loop
        nodes_loop_last k e = rw (e, nodes_loop) refl

        module _ (n : ℕ)
            (e : lib.fdt_node_offset_by_prop_value m fdt node "device_type" "memory" 7
              ≡ pos n) where
          nodes_loop_error :
              read_reg lib address_cell size_cell m map (lib.fdt_getprop m fdt (pos n) "reg") ≡ none
              → loop ≡ some (neg lib.fdt_err_badstate, map)
          unfolding nodes_loop
          nodes_loop_error r = rw (e, nodes_loop, r) refl

          nodes_loop_next :
              (map' : MemoryMap)
              → read_reg lib address_cell size_cell m map (lib.fdt_getprop m fdt (pos n) "reg")
                ≡ some map'
              → loop ≡ nodes_loop lib fuel address_cell size_cell m fdt (pos n) map'
          unfolding nodes_loop
          nodes_loop_next map' r = rw (e, nodes_loop, r) refl

          -- One node, and the loop behind it.
          node-Ends :
              (o rest : Option (List MemoryRegion)) (before : List MemoryRegion)
              → Reads before o
                  (read_reg lib address_cell size_cell m map (lib.fdt_getprop m fdt (pos n) "reg"))
              → ((map' : MemoryMap) (before' : List MemoryRegion)
                  → Holds map' before'
                  → Ends before' rest
                      (nodes_loop lib fuel address_cell size_cell m fdt (pos n) map'))
              → Ends before
                  (elim o [
                    | none ↦ none
                    | some rs ↦ elim rest [ none ↦ none | some more ↦ some (rs ++ more) ]
                  ])
                  loop
          node-Ends none rest before r k = (map, nodes_loop_error r)
          node-Ends (some rs) none before (map', r, h) k =
              rw (nodes_loop_next map' r) (k map' (before ++ nonempty rs) h)
          node-Ends (some rs) (some more) before (map', r, h) k =
              rw
                (
                  nodes_loop_next map' r,
                  nonempty-append rs more,
                  ← append_assoc before (nonempty rs) (nonempty more),
                )
                (k map' (before ++ nonempty rs) h)

      pub nodes_loop-Ends :
          {node : ℤ} {ns : List ℕ} (fuel : ℕ) (map : MemoryMap) (before : List MemoryRegion)
          → Nodes node ns
          → length ns < fuel
          → Holds map before
          → Ends before
              (tree_entries ns)
              (nodes_loop lib fuel address_cell size_cell m fdt node map)
      nodes_loop-Ends zero map before ns l h = absurd (omega arith)
      nodes_loop-Ends {node} (suc fuel) map before (last k e) l h =
          (map, nodes_loop_last fuel node map k e, rw append-nil h)
      nodes_loop-Ends {node} (suc fuel) map before (found {ns} n e rest) l h =
          node-Ends fuel node map n e (reg_entries (lib.fdt_getprop m fdt (pos n) "reg"))
            (tree_entries ns) before
            (read_reg-Reads (lib.fdt_getprop m fdt (pos n) "reg") map before h)
            (λ map' before' h'. nodes_loop-Ends fuel map' before' rest (omega arith) h')

  -- A search that goes forward through a bounded tree ends.
  pub Nodes-total :
      (limit gap : ℕ) (node : ℤ)
      → Searches lib m fdt limit
      → limit ≤ place node + gap
      → (ns : List ℕ) × Nodes node ns × (length ns ≤ gap)
  Nodes-total limit zero node searches room =
      elim (int-cases (lib.fdt_node_offset_by_prop_value m fdt node "device_type" "memory" 7)) [
        | inl (n, e) ↦ absurd (omega (arith, searches node n e))
        | inr (k, e) ↦ ([], last k e, omega arith)
      ]
  Nodes-total limit (suc gap) node searches room =
      elim (int-cases (lib.fdt_node_offset_by_prop_value m fdt node "device_type" "memory" 7)) [
        | inl (n, e) ↦
            let (ns, nodes, l) =
              Nodes-total limit gap (pos n) searches (omega (arith, searches node n e)) in
            (n ∷ ns, found n e nodes, omega (arith, l))
        | inr (k, e) ↦ ([], last k e, omega arith)
      ]

  pub length-Nodes :
      {node : ℤ} {ns : List ℕ} (limit : ℕ)
      → Searches lib m fdt limit
      → Nodes node ns
      → length ns ≤ limit - place node
  length-Nodes limit searches (last k e) = omega arith
  length-Nodes {node} limit searches (found n e rest) =
      omega (arith, searches node n e, length-Nodes limit searches rest)
