-- ===== src/Fdt/Contents.antt =====
-- The list of regions that a memory map holds, and what a new region does to it.
use kernalite.Base.{
  ℕ, zero, suc, ◌+◌, ◌≤◌, ◌<◌, ◌≡◌, refl, sym, ap, ap₂, ◌∙◌, List, [], ◌∷◌, ◌++◌, length,
  length-append, take, take_all, length-take, take-append_long, min, ==_refl, ==_ne, arith,
}
use kernalite.Fdt.{MemoryRegion, MemoryMap, max_mem_regions, add_region}

abbrev first : ℕ → (ℕ → MemoryRegion) → List MemoryRegion
first zero f = []
first (suc n) f = first n f ++ (f n ∷ [])

-- The regions below `count`, in order.
abbrev pub contents : MemoryMap → List MemoryRegion
contents map = first map.count map.regions

length-first : (n : ℕ) (f : ℕ → MemoryRegion) → length (first n f) ≡ n
length-first zero f = refl
length-first (suc n) f = omega (arith, length-append (first n f) (f n ∷ []), length-first n f)

pub length-contents : (map : MemoryMap) → length (contents map) ≡ map.count
length-contents map = length-first map.count map.regions

first_same :
    (n : ℕ) (f g : ℕ → MemoryRegion) → ((i : ℕ) → i < n → f i ≡ g i) → first n f ≡ first n g
first_same zero f g h = refl
first_same (suc n) f g h = rw (first_same n f g (λ i l. h i (omega arith)), h n (omega arith)) refl

pub contents-add_region :
    (base size : ℕ) (map : MemoryMap)
    → contents (add_region base size map)
      ≡ contents map ++ (record { base = base; size = size } ∷ [])
unfolding add_region
contents-add_region base size map =
    let regions : ℕ → MemoryRegion = (add_region base size map).regions in
    let new : MemoryRegion = record { base = base; size = size } in
    let before : first map.count regions ≡ first map.count map.regions =
      first_same map.count regions map.regions λ i l. rw (==_ne i map.count (omega arith)) refl in
    let last : regions map.count ≡ new = rw (==_refl map.count) refl in
    let one_more : map.count + 1 ≡ suc map.count = omega arith in
    ap (λ (n : ℕ). first n regions) one_more
    ∙ ap₂ (λ (rs : List MemoryRegion) (r : MemoryRegion). rs ++ (r ∷ [])) before last

-- The map holds the regions that were found, as far as there is room.
abbrev pub Holds : MemoryMap → List MemoryRegion → Type 0
Holds map found = contents map ≡ take max_mem_regions found

pub Holds-full :
    (map : MemoryMap) (found more : List MemoryRegion)
    → max_mem_regions ≤ map.count
    → Holds map found
    → Holds map (found ++ more)
Holds-full map found more full h =
    let enough : max_mem_regions ≤ length found =
      omega (arith, ap length h, length-contents map, length-take max_mem_regions found) in
    h ∙ sym (take-append_long max_mem_regions found more enough)

pub Holds-add_region :
    (map : MemoryMap) (found : List MemoryRegion) (base size : ℕ)
    → map.count < max_mem_regions
    → Holds map found
    → Holds (add_region base size map) (found ++ (record { base = base; size = size } ∷ []))
Holds-add_region map found base size room h =
    let new : MemoryRegion = record { base = base; size = size } in
    let short : length found < max_mem_regions =
      omega (arith, ap length h, length-contents map, length-take max_mem_regions found) in
    contents-add_region base size map
    ∙ ap (λ (t : List MemoryRegion). t ++ (new ∷ []))
        (h ∙ take_all max_mem_regions found (omega arith))
    ∙ sym (
        take_all max_mem_regions (found ++ (new ∷ []))
          (omega (arith, length-append found (new ∷ []))))

-- A map with a single region has it at index 0.
pub contents-single :
    (map : MemoryMap) (r : MemoryRegion)
    → contents map ≡ r ∷ []
    → (map.count ≡ 1) × (map.regions 0 ≡ r)
contents-single map r e =
    let one : map.count ≡ 1 = sym (length-contents map) ∙ ap length e in
    let alone : map.regions 0 ∷ [] ≡ r ∷ [] = ap (λ (n : ℕ). first n map.regions) (sym one) ∙ e in
    (one, cc alone)

pub Holds-count :
    (map : MemoryMap) (found : List MemoryRegion)
    → Holds map found
    → map.count ≡ min max_mem_regions (length found)
Holds-count map found h =
    omega (arith, length-contents map, ap length h, length-take max_mem_regions found)
