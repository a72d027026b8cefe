-- ===== src/PageTable/Shown.antt =====
-- The line that stands for a page, by the page and the permissions, and not by a descriptor.
use kernalite.Base.{
  ℕ, ◌*◌, ◌/◌, ◌%◌, ◌^◌, ◌≡◌, refl, ◌∙◌, Bool, true, false, not, bit_and, ◌==◌, u64, if◌then◌else◌,
  ◌<<<◌, arith,
}
use kernalite.Fields.{bit_and-mask}
use kernalite.PageTable.{PagePermissions}
use kernalite.PageTable.Descriptor.{get, nlta_47_12, pxn_table, xn_table, ap_table}
use kernalite.PageTable.Leaf.{descriptor}
use kernalite.PageTable.Dump.{Access, rw_rw, ro_ro, none_ro, access, Line, line}

-- Every level may write a page that is read and written, none a page that is only read, and EL0 has
-- no access to a page that is not read.
abbrev pub rights_of : Bool → Bool → Access
rights_of true true = rw_rw
rights_of true false = ro_ro
rights_of false write = none_ro

-- Page `n` of the virtual addresses, on the page of memory of `phy_addr`. The flags are those of a
-- valid page, and nobody executes a page without that permission.
abbrev pub shown_line : ℕ → ℕ → PagePermissions → Line
shown_line n phy_addr perms = record {
  v_addr = n * 2 ^ 12;
  phys_addr = phy_addr / 2 ^ 12 % 2 ^ 36 * 2 ^ 12;
  flags = 3;
  xn = not perms.execute;
  pxn = not perms.execute;
  rights = rights_of perms.read perms.write;
}

module _ (phy_addr : ℕ) (perms : PagePermissions) where
  address_shown :
      u64 (get nlta_47_12 (descriptor phy_addr perms) <<< 12) ≡ phy_addr / 2 ^ 12 % 2 ^ 36 * 2 ^ 12
  unfolding descriptor
  address_shown = ground arith

  flags_shown : bit_and (descriptor phy_addr perms) 0xfff ≡ 3
  unfolding descriptor
  flags_shown = bit_and-mask 12 (descriptor phy_addr perms) ∙ ground arith

  never_shown :
      (not (get xn_table (descriptor phy_addr perms) == 0) ≡ not perms.execute)
      × (not (get pxn_table (descriptor phy_addr perms) == 0) ≡ not perms.execute)
  unfolding descriptor
  never_shown = ground arith

  rights_value :
      get ap_table (descriptor phy_addr perms)
      ≡ (if perms.read then (if perms.write then 0 else 1) else 3)
  unfolding descriptor
  rights_value = ground arith

  rights_shown :
      access (get ap_table (descriptor phy_addr perms)) ≡ rights_of perms.read perms.write
  rights_shown = rw rights_value (by_permission perms.read perms.write)
    where
      by_permission :
          (read write : Bool)
          → access (if read then (if write then 0 else 1) else 3) ≡ rights_of read write
      by_permission true true = refl
      by_permission true false = refl
      by_permission false write = refl

  -- The code's line of a descriptor that `map_page` makes.
  pub line-shown :
      (n : ℕ) → line (n * 2 ^ 12) (descriptor phy_addr perms) ≡ shown_line n phy_addr perms
  line-shown n = rw (address_shown, flags_shown, never_shown.0, never_shown.1, rights_shown) refl
