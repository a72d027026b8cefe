-- ===== src/Boot/Main.antt =====
-- The whole boot, over a libfdt that keeps to its documentation.
use kernalite.Base.{
  ℕ, ◌+◌, ◌^◌, ◌<◌, ◌≡◌, ◌≢◌, refl, ap, ◌∙◌, ◌⊎◌, inl, inr, true, false, not, Option, none, some,
  List, [], ◌∷◌, length, take, Bool-cases, ◌==◌, ==_ne, if◌then◌else◌, arith,
}
use kernalite.Base.Int.{ℤ, pos, negsuc}
use kernalite.Memory.{Mem, load64}
use kernalite.Allocator.{Allocator, Symbols, page_size}
use kernalite.Fdt.{LibFdt, MemoryRegion, MemoryMap, max_mem_regions, check_fdt, get_mem}
use kernalite.Fdt.Laws.{SwapsBytes, Searches}
use kernalite.Fdt.Contents.{contents, contents-single, Holds-count}
use kernalite.Fdt.Entries.{nonempty}
use kernalite.Fdt.Regions.{Nodes, tree_entries, Ends, length-Nodes}
use kernalite.Fdt.Outcome.{
  IsTree, IsTree-cases, get_mem-Nodes-Ends, get_mem-Ends, get_mem_refused, emptied, negative,
}
use kernalite.Boot.{start_allocator, main}
use kernalite.Boot.Image.{IsImage, IsStarted, IsStopped, start_allocator-outcome}

-- There is a tree, and libfdt accepts its header.
abbrev pub IsAccepted : LibFdt → Mem → ℕ → Type 0
IsAccepted lib m fdt = (fdt ≢ 0) × (lib.fdt_check_header m fdt ≡ pos 0)

module _ (lib : LibFdt) (m : Mem) (fdt : ℕ) where
  -- The tree describes a single region of memory.
  pub record Describes (region : MemoryRegion) : Type 0 where
    pub checked : IsAccepted lib m fdt
    pub address_cell : ℕ
    pub size_cell : ℕ
    pub tree : IsTree lib m fdt address_cell size_cell
    pub nodes : List ℕ
    pub nodes_found : Nodes lib m fdt (negsuc 0) nodes
    pub regions : List MemoryRegion
    pub regions_found : tree_entries lib m fdt address_cell size_cell nodes ≡ some regions
    pub single : nonempty regions ≡ region ∷ []

  -- Why the tree is refused: there is none or libfdt does not accept its header, the cells of its root
  -- or one of its properties are not accepted, or it has no region or more than one.
  pub data IsRefused : Type 0 where
    invalid : ¬ IsAccepted lib m fdt → IsRefused
    header : ((address_cell size_cell : ℕ) → ¬ IsTree lib m fdt address_cell size_cell) → IsRefused
    property :
        (address_cell size_cell : ℕ) (nodes : List ℕ)
        → IsTree lib m fdt address_cell size_cell
        → Nodes lib m fdt (negsuc 0) nodes
        → tree_entries lib m fdt address_cell size_cell nodes ≡ none
        → IsRefused
    regions :
        (address_cell size_cell : ℕ) (nodes : List ℕ) (rs : List MemoryRegion)
        → IsTree lib m fdt address_cell size_cell
        → Nodes lib m fdt (negsuc 0) nodes
        → tree_entries lib m fdt address_cell size_cell nodes ≡ some rs
        → length (nonempty rs) ≢ 1
        → IsRefused

-- A region above address 0 that does not wrap round the address space.
abbrev pub IsSane : MemoryRegion → Type 0
IsSane region = (0 < region.base) × (region.base + region.size + page_size < 2 ^ 64)

-- `check_fdt` is true of an accepted tree, and of no other.
check_fdt-accepted :
    (lib : LibFdt) (m : Mem) (fdt : ℕ) → IsAccepted lib m fdt → check_fdt lib m fdt ≡ true
unfolding check_fdt
check_fdt-accepted lib m fdt (ne, e) = rw (==_ne _ _ ne, e) refl

check_fdt-IsAccepted :
    (lib : LibFdt) (m : Mem) (fdt : ℕ) → check_fdt lib m fdt ≡ true → IsAccepted lib m fdt
unfolding check_fdt
check_fdt-IsAccepted lib m fdt h = (λ e. cc (rw e at h), go (lib.fdt_check_header m fdt) refl)
  where
    go : (z : ℤ) → lib.fdt_check_header m fdt ≡ z → lib.fdt_check_header m fdt ≡ pos 0
    go (pos err) e = ground arith
    go (negsuc err) e = ground arith

module _ (lib : LibFdt) (symbols : Symbols) (fuel mmap : ℕ) (map : MemoryMap) (a : Allocator)
    (boot_args_ptr : ℕ) (m : Mem) where
  abbrev fdt : ℕ
  fdt = load64 m boot_args_ptr

  abbrev run : Option (ℕ × Allocator × Mem)
  run = main lib symbols fuel mmap map a boot_args_ptr m

  main_invalid : check_fdt lib m fdt ≡ false → run ≡ some (1, a, m)
  unfolding main
  main_invalid e = rw e refl

  module _ (checked : check_fdt lib m fdt ≡ true) where
    main_error :
        (err : ℕ) (map' : MemoryMap)
        → get_mem lib fuel m fdt mmap map ≡ some (negsuc err, map')
        → run ≡ some (1, a, m)
    unfolding main
    main_error err map' e = rw (checked, e) refl

    main_read :
        (map' : MemoryMap)
        → get_mem lib fuel m fdt mmap map ≡ some (pos 0, map')
        → run ≡ (
            if not (map'.count == 1)
            then some (1, a, m)
            else some (start_allocator symbols a (map'.regions 0).base (map'.regions 0).size m))
    unfolding main
    main_read map' e = rw (checked, e) refl

    -- What `main` does with the memory map.
    main_single :
        (map' : MemoryMap) (region : MemoryRegion)
        → get_mem lib fuel m fdt mmap map ≡ some (pos 0, map')
        → contents map' ≡ region ∷ []
        → run ≡ some (start_allocator symbols a region.base region.size m)
    main_single map' region e c =
        let (one, first) = contents-single map' region c in main_read map' e ∙ rw (one, first) refl

    main_not_single :
        (map' : MemoryMap)
        → get_mem lib fuel m fdt mmap map ≡ some (pos 0, map')
        → map'.count ≢ 1
        → run ≡ some (1, a, m)
    main_not_single map' e ne = main_read map' e ∙ rw (==_ne map'.count 1 ne) refl

  -- Either the tree describes a single region, and the boot goes on with it, or it is refused, and
  -- `main` returns 1 with the allocator and the memory as they were.
  abbrev pub IsRun : Type 0
  IsRun =
      ((region : MemoryRegion) × Describes lib m fdt region
        × (run ≡ some (start_allocator symbols a region.base region.size m)))
      ⊎ (IsRefused lib m fdt × (run ≡ some (1, a, m)))

  module _ (limit : ℕ) (swaps : SwapsBytes lib) (searches : Searches lib m fdt limit)
      (enough : limit < fuel) (mmap_ne : mmap ≢ 0) (badstate : 0 < lib.fdt_err_badstate) where
    run_of_map :
        (checked : check_fdt lib m fdt ≡ true) (address_cell size_cell : ℕ)
        (tree : IsTree lib m fdt address_cell size_cell) (nodes : List ℕ)
        (nodes_found : Nodes lib m fdt (negsuc 0) nodes) (o : Option (List MemoryRegion))
        → tree_entries lib m fdt address_cell size_cell nodes ≡ o
        → Ends lib m fdt address_cell size_cell [] o (get_mem lib fuel m fdt mmap map)
        → IsRun
    run_of_map checked address_cell size_cell tree nodes nodes_found none e (map', r) =
        let (err, bad) = negative lib.fdt_err_badstate badstate in
        inr (
          property address_cell size_cell nodes tree nodes_found e,
          main_error checked err map' (r ∙ rw bad refl),
        )
    run_of_map checked address_cell size_cell tree nodes nodes_found (some rs) e (map', r, h) =
        single_or_not (nonempty rs) refl
      where
        other : length (nonempty rs) ≢ 1 → IsRun
        other ne = inr (
          regions address_cell size_cell nodes rs tree nodes_found e ne,
          main_not_single checked map' r (omega (arith, Holds-count map' (nonempty rs) h)),
        )

        single_or_not : (found : List MemoryRegion) → nonempty rs ≡ found → IsRun
        single_or_not (region ∷ []) s = inl (
          region,
          record {
            checked = check_fdt-IsAccepted lib m fdt checked;
            address_cell = address_cell;
            size_cell = size_cell;
            tree = tree;
            nodes = nodes;
            nodes_found = nodes_found;
            regions = rs;
            regions_found = e;
            single = s;
          },
          main_single checked map' region r (h ∙ ap (take max_mem_regions) s),
        )
        single_or_not [] s = other (omega (arith, ap length s))
        single_or_not (x ∷ y ∷ more) s = other (omega (arith, ap length s))

    -- With a libfdt whose search goes forward through the tree and which swaps bytes, and with fuel for
    -- the size of the tree, `main` returns. If there is a tree whose header libfdt accepts and which
    -- describes a single region of memory, it sets up the allocator on that region; otherwise it
    -- returns 1 and changes nothing.
    pub main-IsRun : IsRun
    main-IsRun = elim (Bool-cases (check_fdt lib m fdt)) [
      | inr e ↦ inr (invalid (λ h. cc (check_fdt-accepted lib m fdt h, e)), main_invalid e)
      | inl checked ↦
          let (fdt_ne, _) = check_fdt-IsAccepted lib m fdt checked in
          elim (IsTree-cases lib m fdt) [
            | inr none_fits ↦
                let (err, r) =
                  get_mem_refused lib m fuel fdt mmap map fdt_ne mmap_ne badstate none_fits in
                inr (header none_fits, main_error checked err (emptied map) r)
            | inl (address_cell, size_cell, tree) ↦
                let (nodes, chain, r) =
                  get_mem-Ends lib m fuel fdt mmap map fdt_ne mmap_ne address_cell size_cell tree
                    limit swaps searches enough in
                run_of_map checked address_cell size_cell tree nodes chain
                  (tree_entries lib m fdt address_cell size_cell nodes) refl r
          ]
    ]

    -- A tree that describes a single region is not refused.
    pub main_described :
        (region : MemoryRegion)
        → Describes lib m fdt region
        → run ≡ some (start_allocator symbols a region.base region.size m)
    main_described region d =
        let room = length-Nodes lib m fdt limit searches d.nodes_found in
        let (map', r, h) = rw d.regions_found at (
          get_mem-Nodes-Ends lib m fuel fdt mmap map d.checked.0 mmap_ne d.address_cell d.size_cell
            d.tree swaps d.nodes_found (omega (arith, room))) in
        main_single (check_fdt-accepted lib m fdt d.checked) map' region r
          (h ∙ ap (take max_mem_regions) d.single)

    -- With a libfdt whose search goes forward through the tree and which swaps bytes, with fuel for the
    -- size of the tree, with an image on a page boundary that holds the bitmap, and with a valid tree
    -- that describes a single region, above address 0 and not wrapping round the address space,
    -- `main` returns. Either it returns 0: the image lies in the managed region, and of its pages
    -- exactly those of the image are in use; or it returns 1, and then the region is unusable or the
    -- image does not lie in its pages.
    pub main-outcome :
        (region : MemoryRegion)
        → IsImage symbols
        → Describes lib m fdt region
        → IsSane region
        → (r : ℕ × Allocator × Mem) × (run ≡ some r)
          × (((r.0 ≡ 0) × IsStarted symbols r.1 r.2)
              ⊎ ((r.0 ≡ 1) × IsStopped symbols region.base region.size r.1))
    main-outcome region image described sane = (
      start_allocator symbols a region.base region.size m,
      main_described region described,
      start_allocator-outcome symbols a region.base region.size m image sane.0 sane.1,
    )
