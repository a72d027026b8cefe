-- ===== src/Fdt/Laws.antt =====
-- What the kernel relies on of libfdt, for the device tree at an address.
use kernalite.Base.{ℕ, ◌+◌, ◌*◌, ◌^◌, ◌≤◌, ◌<◌, ◌≡◌}
use kernalite.Base.Int.{ℤ, pos, negsuc}
use kernalite.Memory.{Mem}
use kernalite.Fdt.{LibFdt}

-- `fdt32_to_cpu` turns a word in the byte order of the tree, the high byte first, into the number.
abbrev pub SwapsBytes : LibFdt → Type 0
SwapsBytes lib =
    (a b c d : ℕ)
    → a < 2 ^ 8
    → b < 2 ^ 8
    → c < 2 ^ 8
    → d < 2 ^ 8
    → lib.fdt32_to_cpu (a + b * 2 ^ 8 + c * 2 ^ 16 + d * 2 ^ 24)
      ≡ a * 2 ^ 24 + b * 2 ^ 16 + c * 2 ^ 8 + d

-- The offset from which the search for nodes goes on: behind the node, or from the start of the tree.
abbrev pub place : ℤ → ℕ
place (pos n) = n + 1
place (negsuc n) = 0

-- The search for nodes goes forward through a tree of at most `limit` bytes.
abbrev pub Searches : LibFdt → Mem → ℕ → ℕ → Type 0
Searches lib m fdt limit =
    (node : ℤ) (n : ℕ)
    → lib.fdt_node_offset_by_prop_value m fdt node "device_type" "memory" 7 ≡ pos n
    → (place node ≤ n) × (n < limit)
