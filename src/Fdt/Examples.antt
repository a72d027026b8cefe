-- ===== src/Fdt/Examples.antt =====
-- A device tree with one memory node of eight megabytes, and a tree with a property that is cut off.
use kernalite.Base.{
  ℕ, ◌+◌, ◌*◌, ◌/◌, ◌%◌, ◌^◌, ◌≡◌, refl, inl, List, [], ◌∷◌, some, if◌then◌else◌, ◌==◌, ltb, arith,
}
use kernalite.Base.Int.{ℤ, pos, negsuc}
use kernalite.Memory.{Mem}
use kernalite.Fdt.{LibFdt, MemoryMap, get_mem}
use kernalite.Fdt.Laws.{SwapsBytes, Searches}
use kernalite.Fdt.Regions.{Nodes, tree_entries, Ends}
use kernalite.Fdt.Outcome.{IsTree, get_mem-Ends}

abbrev swap : ℕ → ℕ
swap x = x % 256 * 2 ^ 24 + x / 2 ^ 8 % 256 * 2 ^ 16 + x / 2 ^ 16 % 256 * 2 ^ 8 + x / 2 ^ 24 % 256

abbrev behind : ℤ → ℤ
behind (pos n) = if ltb n 8 then pos 8 else negsuc 0
behind (negsuc n) = pos 8

-- One memory node at offset 8, whose property `reg` lies at 0x5000 and has `len` bytes.
abbrev pub one_node : ℕ → ℤ → LibFdt
one_node cells len = record {
  fdt_err_badmagic = 9;
  fdt_err_badversion = 10;
  fdt_err_badstate = 12;
  fdt_err_internal = 13;
  fdt_check_header = λ m fdt. pos 0;
  fdt_path_offset = λ m fdt path. pos 0;
  fdt_address_cells = λ m fdt node. pos cells;
  fdt_size_cells = λ m fdt node. pos 1;
  fdt_node_offset_by_prop_value = λ m fdt node name val len. behind node;
  fdt_getprop = λ m fdt node name. (0x5000, len);
  fdt32_to_cpu = swap;
}

pub swap_lem : (cells : ℕ) (len : ℤ) → SwapsBytes (one_node cells len)
swap_lem cells len a b c d ha hb hc hd = omega arith

pub one_node-Searches :
    (cells : ℕ) (len : ℤ) (m : Mem) (fdt : ℕ) → Searches (one_node cells len) m fdt 9
one_node-Searches cells len m fdt (pos k) n e = ground arith
one_node-Searches cells len m fdt (negsuc k) n e = ground arith

abbrev pub blob : Mem
blob a = if a == 0x5000 then 0x40 else if a == 0x5005 then 0x80 else if a == 0x6001 then 1 else 0

abbrev pub unset : MemoryMap
unset = record { regions = λ i. record { base = 0; size = 0 }; count = 7 }

pub one_node-IsTree : IsTree (one_node 1 (pos 8)) blob 0x100 1 1
one_node-IsTree = record {
  root = 0;
  root_at = refl;
  address_cells = refl;
  size_cells = refl;
  address = inl refl;
  size = inl refl;
}

get_mem-Ends_example :
    (ns : List ℕ) × Nodes (one_node 1 (pos 8)) blob 0x100 (negsuc 0) ns
    × Ends
        (one_node 1 (pos 8))
        blob
        0x100
        1
        1
        []
        (tree_entries (one_node 1 (pos 8)) blob 0x100 1 1 ns)
        (get_mem (one_node 1 (pos 8)) 10 blob 0x100 0x7000 unset)
get_mem-Ends_example =
    get_mem-Ends (one_node 1 (pos 8)) blob 10 0x100 0x7000 unset (omega arith) (omega arith) 1 1
      one_node-IsTree 9 (swap_lem 1 (pos 8)) (one_node-Searches 1 (pos 8) blob 0x100) (omega arith)

pub read_region :
    tree_entries (one_node 1 (pos 8)) blob 0x100 1 1 (8 ∷ [])
    ≡ some (record { base = 0x4000_0000; size = 0x80_0000 } ∷ [])
read_region = refl
