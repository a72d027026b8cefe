-- ===== src/PageTable/Dump.antt =====
-- `dump_memory_map` of kernel/page_table/page_table.c: the lines that it prints.
use kernalite.Base.{
  ℕ, zero, suc, ◌+◌, ◌-◌, ◌*◌, ◌^◌, ◌<◌, bit_and, bit_or, ◌≡◌, ◌∙◌, refl, Bool, true, false, not,
  List, [], ◌∷◌, ◌++◌, ◌==◌, if◌then◌else◌, none, some, ℕ_discrete, ==_ne, ==_of_eq, u64,
  complement, ◌<<<◌, arith,
}
use native.Mathlib.Nat.{mod-eq_of_lt}
use kernalite.Fields.{bit_and-mask, bit_and-above, bit_or-below}
use kernalite.Memory.{Mem, load64}
use kernalite.PageTable.{ptrs_per_table, page_shift, idx_mask, entry_at, read_field, follow}
use kernalite.PageTable.Walk.{leaf_at, next_table}
use kernalite.PageTable.Descriptor.{
  get, valid, nlta_47_12, pxn_table, xn_table, ap_table, el0_no_restriction_el1_no_restriction,
  el0_no_write_el1_no_write, el0_no_access_el1_no_restriction,
}

-- The texts " RW(EL0) RW(EL1)", " RO(EL0) RO(EL1)", " NO-ACCESS(EL0) RW(EL1)" and
-- " NO-ACCESS(EL0) RO(EL1)".
pub data Access : Type 0 where
  rw_rw : Access
  ro_ro : Access
  none_rw : Access
  none_ro : Access

abbrev pub access : ℕ → Access
access ap =
    if ap == el0_no_restriction_el1_no_restriction
    then rw_rw
    else if ap == el0_no_write_el1_no_write
    then ro_ro
    else if ap == el0_no_access_el1_no_restriction
    then none_rw
    else none_ro

-- A line "VA 0x%lx -> PA 0x%lx [Flags: 0x%lx]", with " XN" and " PXN" where they are printed.
pub record Line : Type 0 where
  pub v_addr : ℕ
  pub phys_addr : ℕ
  pub flags : ℕ
  pub xn : Bool
  pub pxn : Bool
  pub rights : Access

-- The line of an entry at level 3, which is a copy of the word in the table.
abbrev pub line : ℕ → ℕ → Line
line partial_v_addr entry = record {
  v_addr = partial_v_addr;
  phys_addr = u64 (get nlta_47_12 entry <<< page_shift);
  flags = bit_and entry 0xfff;
  xn = not (get xn_table entry == 0);
  pxn = not (get pxn_table entry == 0);
  rights = access (get ap_table entry);
}

-- `below` is `3 - level`.
abbrev pub level_shift : ℕ → ℕ
level_shift below = 9 * below + 12

unfoldable pub partial_v_addr : ℕ → ℕ → ℕ → ℕ
partial_v_addr below i v_addr_prefix =
    bit_or (i <<< level_shift below)
      (bit_and v_addr_prefix (complement 64 (idx_mask <<< level_shift below)))

-- The loop of `dump_memory_map_recursive` at entry `i`, with `rounds` entries left. A valid entry's
-- copy leads to the table that the entry leads to.
unfoldable pub dump_loop : ℕ → ℕ → ℕ → ℕ → ℕ → Mem → List Line
dump_loop below zero root i v_addr_prefix m = []
dump_loop zero (suc rounds) root i v_addr_prefix m =
    let rest = dump_loop zero rounds root (i + 1) v_addr_prefix m in
    if read_field valid (entry_at root i) m == 0
    then rest
    else line (partial_v_addr zero i v_addr_prefix) (load64 m (entry_at root i)) ∷ rest
dump_loop (suc below) (suc rounds) root i v_addr_prefix m =
    let rest = dump_loop (suc below) rounds root (i + 1) v_addr_prefix m in
    elim (read_field valid (entry_at root i) m == 0) [
      | true ↦ rest
      | false ↦
          dump_loop below ptrs_per_table (follow (entry_at root i) m) 0
            (partial_v_addr (suc below) i v_addr_prefix) m
          ++ rest
    ]

-- The lines between the two that mark the start and the end.
unfoldable pub dump_memory_map : ℕ → Mem → List Line
dump_memory_map root m = dump_loop 3 ptrs_per_table root 0 0 m

-- One round of the loop, by the entry that it reads.
pub dump_loop-leaf :
    (rounds root i v_addr_prefix : ℕ) (m : Mem)
    → dump_loop zero (suc rounds) root i v_addr_prefix m
      ≡ (elim (leaf_at m (entry_at root i)) as (λ o. List Line) [
        | none ↦ []
        | some d ↦ line (partial_v_addr zero i v_addr_prefix) d ∷ []
      ])
        ++ dump_loop zero rounds root (i + 1) v_addr_prefix m
unfolding dump_loop leaf_at
dump_loop-leaf rounds root i v_addr_prefix m =
    elim (ℕ_discrete (read_field valid (entry_at root i) m) 0) [
      | yes e ↦ rw (==_of_eq _ _ e) refl
      | no e ↦ rw (==_ne _ _ e) refl
    ]

pub dump_loop-node :
    (below rounds root i v_addr_prefix : ℕ) (m : Mem)
    → dump_loop (suc below) (suc rounds) root i v_addr_prefix m
      ≡ (elim (next_table m (entry_at root i)) as (λ o. List Line) [
        | none ↦ []
        | some u ↦ dump_loop below 512 u 0 (partial_v_addr (suc below) i v_addr_prefix) m
      ])
        ++ dump_loop (suc below) rounds root (i + 1) v_addr_prefix m
unfolding dump_loop next_table
dump_loop-node below rounds root i v_addr_prefix m =
    elim (ℕ_discrete (read_field valid (entry_at root i) m) 0) [
      | yes e ↦ rw (dump_loop, ==_of_eq _ _ e) refl
      | no e ↦ rw (dump_loop, ==_ne _ _ e) refl
    ]

pub dump_loop-end :
    (below root i v_addr_prefix : ℕ) (m : Mem) → dump_loop below zero root i v_addr_prefix m ≡ []
unfolding dump_loop
dump_loop-end below root i v_addr_prefix m = refl

-- `&` with the mask keeps the prefix, and `|` joins the index to it, for a table `w` bits of whose
-- addresses are above the index.
join :
    (k w i q : ℕ)
    → i * 2 ^ k < 2 ^ (k + 9)
    → q < 2 ^ w
    → complement 64 (idx_mask <<< k) ≡ ((2 ^ w - 1) <<< (k + 9)) + (2 ^ k - 1)
    → 2 ^ k - 1 < 2 ^ (k + 9)
    → bit_or (i <<< k) (bit_and (q <<< (k + 9)) (complement 64 (idx_mask <<< k)))
      ≡ (q <<< (k + 9)) + i * 2 ^ k
join k w i q l l' mask low =
    let kept : bit_and q (2 ^ w - 1) ≡ q = bit_and-mask w q ∙ mod-eq_of_lt l' in
    rw (mask, bit_and-above (k + 9) q (2 ^ w - 1) (2 ^ k - 1) low, kept)
      (bit_or-below (k + 9) (i * 2 ^ k) q l)

-- An index joined to the prefix of the table: the number of the entry among all of its level.
pub partial_v_addr_lem :
    (below i q : ℕ)
    → below < 4
    → i < 512
    → q < 2 ^ (9 * (3 - below))
    → partial_v_addr below i (q * 2 ^ level_shift (suc below))
      ≡ (q * 512 + i) * 2 ^ level_shift below
unfolding partial_v_addr
partial_v_addr_lem zero i q b l h =
    omega (arith, join 12 43 i q (omega arith) (omega arith) refl (omega arith))
partial_v_addr_lem (suc zero) i q b l h =
    omega (arith, join 21 34 i q (omega arith) (omega arith) refl (omega arith))
partial_v_addr_lem (suc (suc zero)) i q b l h =
    omega (arith, join 30 25 i q (omega arith) (omega arith) refl (omega arith))
partial_v_addr_lem (suc (suc (suc zero))) i q b l h =
    omega (arith, join 39 16 i q (omega arith) (omega arith) refl (omega arith))
partial_v_addr_lem (suc (suc (suc (suc below)))) i q b l h = absurd (omega arith)
