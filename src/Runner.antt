-- ===== src/Runner.antt =====
-- tests/test_runner.c and tests/page_table_map_test.c: the tests that run in the kernel. A test is a
-- function of the state that it runs on; the messages are left out.
pub mod Verify
pub mod Passes
mod Examples
use Prim.Native.String.{String}
use kernalite.Base.{ℕ, ◌*◌, Bool, true, false, not, List, [], ◌∷◌, ◌==◌, if◌then◌else◌}
use kernalite.Memory.{Mem, load64}
use kernalite.Allocator.{Allocator, page_alloc}
use kernalite.PageTable.{
  PagePermissions, entry_at, index_of, read_field, get_page_table_entry_address, map_page,
}
use kernalite.PageTable.Descriptor.{valid}

-- `get_next_level_table` of the test: the null pointer for an entry that is not valid.
pub next_level_table : ℕ → Mem → ℕ
next_level_table entry m =
    if read_field valid entry m == 0 then 0 else get_page_table_entry_address entry m

-- The permissions are not looked at.
pub verify_map : ℕ → ℕ → ℕ → Mem → Bool
verify_map root v_addr expected_pa m =
    let entry0 = entry_at root (index_of v_addr 39) in
    let level1 = next_level_table entry0 m in
    let entry1 = entry_at level1 (index_of v_addr 30) in
    let level2 = next_level_table entry1 m in
    let entry2 = entry_at level2 (index_of v_addr 21) in
    let level3 = next_level_table entry2 m in
    let actual_pa = get_page_table_entry_address (entry_at level3 (index_of v_addr 12)) m in
    if load64 m entry0 == 0
    then false
    else if level1 == 0
    then false
    else if load64 m entry1 == 0
    then false
    else if level2 == 0
    then false
    else if load64 m entry2 == 0
    then false
    else if level3 == 0
    then false
    else actual_pa == expected_pa

pub test_page_table_mapping : Allocator → ℕ → ℕ → ℕ → PagePermissions → Mem → Bool × Mem
test_page_table_mapping a root v_addr phy_addr test_perms m =
    if root == 0
    then (false, m)
    else (let (mapped, m') = map_page a root v_addr phy_addr test_perms m in
        if mapped then (verify_map root v_addr phy_addr m', m') else (false, m'))

-- The arguments of one `EXPECT(test_page_table_mapping(root, ...))`.
pub record Mapping : Type 0 where
  pub v_addr : ℕ
  pub phy_addr : ℕ
  pub perms : PagePermissions

abbrev pub mapping : ℕ → ℕ → Bool → Bool → Bool → Mapping
mapping v_addr phy_addr read write execute = record {
  v_addr = v_addr;
  phy_addr = phy_addr;
  perms = record { read = read; write = write; execute = execute };
}

-- The three groups of `page_table_map`.
abbrev pub mappings : List Mapping
mappings =
    mapping 0xffff_f000_0000_1000 0x1000 true false false
    ∷ mapping 0xffff_f000_0000_2000 0x2000 true true false
    ∷ mapping 0xffff_f000_0000_3000 0x3000 true false true
    ∷ mapping 0xffff_f000_0000_4000 0x4000 true true true
    ∷ mapping 0xffff_f000_4000_0000 0x5000 false false true
    ∷ mapping 0xffff_f000_8000_0000 0x6000 true false false
    ∷ mapping 0xffff_f000_c000_0000 0x7000 false true false
    ∷ mapping 0xffff_f001_0000_0000 0x8000 true true false
    ∷ mapping 0xffff_f080_0000_0000 0x9000 false false true
    ∷ mapping 0xffff_f100_0000_0000 0xa000 true false true
    ∷ mapping 0xffff_f180_0000_0000 0xb000 false true true
    ∷ mapping 0xffff_f200_0000_0000 0xc000 true true true
    ∷ []

-- Each `EXPECT` returns if its condition fails.
pub expect_all : Allocator → ℕ → List Mapping → Mem → Bool × Mem
expect_all a root [] m = (true, m)
expect_all a root (t ∷ ts) m =
    let (passed, m') = test_page_table_mapping a root t.v_addr t.phy_addr t.perms m in
    let rest = expect_all a root ts m' in if passed then rest else (false, m')

pub page_table_map : Allocator → Mem → Bool × Mem
page_table_map a m = let (root, m') = page_alloc a 1 m in expect_all a root mappings m'

module _ {ℓ} (W : Type ℓ) where
  -- `test_t`, on a state `W`.
  pub record Test : Type ℓ where
    pub test_name : String
    pub test_fn : W → Bool × W

  -- The loop over the tests of a suite: the flag `failed`, and the state.
  pub tests_loop : List Test → Bool → W → Bool × W
  tests_loop [] failed w = (failed, w)
  tests_loop (t ∷ ts) failed w =
      let (passed, w') = t.test_fn w in tests_loop ts (if passed then failed else true) w'

  pub suites_loop : List (List Test) → Bool → W → Bool × W
  suites_loop [] failed w = (failed, w)
  suites_loop (s ∷ ss) failed w =
      let (failed', w') = tests_loop s failed w in suites_loop ss failed' w'

  -- The exit code, and the state.
  pub run_suites : List (List Test) → W → ℕ × W
  run_suites suites w =
      let (failed, w') = suites_loop suites false w in (if failed then 1 else 0, w')

-- The suite of the page tables is the only one.
pub run_internal_tests : Allocator → Mem → ℕ × Mem
run_internal_tests a m =
    run_suites Mem ((record { test_name = "page_table_map"; test_fn = page_table_map a } ∷ []) ∷ [])
      m
