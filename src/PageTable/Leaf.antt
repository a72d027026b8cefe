-- ===== src/PageTable/Leaf.antt =====
-- The descriptor that `map_page` writes at level 3, and what is left alone around it.
use kernalite.Base.{
  ℕ, ◌+◌, ◌-◌, ◌*◌, ◌/◌, ◌%◌, ◌^◌, ◌<◌, ◌≡◌, refl, Bool, true, false, bit_and, arith, if◌then◌else◌,
  ◌<<<◌, ◌>>>◌, ap, ◌∙◌, List, [], ◌∷◌, All,
}
use kernalite.Fields.{bit_and-shifted, bit_and-mask}
use kernalite.Memory.{Mem, load64, store64, SameOutside, store64-SameOutside}
use kernalite.Memory.Words.{load64-lt, load64-store64}
use kernalite.PageTable.{
  PagePermissions, write_field, read_field, set_page_table_entry_address,
  get_page_table_entry_address, write_leaf,
}
use kernalite.PageTable.Descriptor.{
  Field, get, put, valid, table, nlta_47_12, pxn_table, xn_table, ap_table, ignored_7_2, nlta_51_50,
  access_flag, ignored_11, nlta_49_48, res0_50, ignored_51, protected_attr, ignored_58_53, ns_table,
}

-- `(addr & addr_mask) >> PAGE_SHIFT` is the page number of the address, modulo `2 ^ 36`.
pub address_field : (addr : ℕ) → bit_and addr 0xffff_ffff_f000 >>> 12 ≡ addr / 2 ^ 12 % 2 ^ 36
address_field addr =
    ap (λ (t : ℕ). t >>> 12) (bit_and-shifted 12 addr (2 ^ 36 - 1))
    ∙ ap (λ (t : ℕ). (t <<< 12) >>> 12) (bit_and-mask 36 (addr / 2 ^ 12))
    ∙ omega arith

-- The bits of the level 3 descriptor for a page of memory and its permissions.
unfoldable pub descriptor : ℕ → PagePermissions → ℕ
descriptor phy_addr perms =
    3
    + phy_addr / 2 ^ 12 % 2 ^ 36 * 2 ^ 12
    + (if perms.execute then 0 else 2 ^ 59 + 2 ^ 60)
    + (if perms.read then (if perms.write then 0 else 1) else 3) * 2 ^ 61

-- `m'` holds the word `v` at `entry`, and is `m` elsewhere.
pub record Holds (entry : ℕ) (m : Mem) (v : ℕ) (m' : Mem) : Type 0 where
  pub word : load64 m' entry ≡ v
  pub frame : SameOutside entry (entry + 8) m m'

module _ {entry : ℕ} {m : Mem} where
  pub store64-Holds : (v : ℕ) → v < 2 ^ 64 → Holds entry m v (store64 m entry v)
  store64-Holds v h = record {
    word = load64-store64 m entry v h;
    frame = store64-SameOutside m entry v;
  }

  pub write_field-Holds :
      {v : ℕ} {m' : Mem} (f : Field) (x v' : ℕ)
      → put f x v ≡ v'
      → v' < 2 ^ 64
      → Holds entry m v m'
      → Holds entry m v' (write_field f x entry m')
  unfolding write_field
  write_field-Holds {v} {m'} f x v' e l h =
      rw (h.word, e)
        (record {
          word = load64-store64 m' entry v' l;
          frame = λ a o. store64-SameOutside m' entry v' a o ∙ h.frame a o;
        })

-- The three choices by permission, each on a descriptor whose upper fields are still to be set.
module _ {entry : ℕ} {m : Mem} where
  execute-Holds :
      {w : ℕ} {m' : Mem} (b : Bool)
      → w < 2 ^ 59
      → Holds entry m w m'
      → Holds entry m (w + (if b then 0 else 2 ^ 59 + 2 ^ 60)) (
          if b
          then write_field pxn_table 0 entry (write_field xn_table 0 entry m')
          else write_field pxn_table 1 entry (write_field xn_table 1 entry m'))
  execute-Holds {w} true l h =
      write_field-Holds pxn_table 0 _ (omega arith) (omega arith)
        (write_field-Holds xn_table 0 w (omega arith) (omega arith) h)
  execute-Holds {w} false l h =
      write_field-Holds pxn_table 1 _ (omega arith) (omega arith)
        (write_field-Holds xn_table 1 (w + 2 ^ 60) (omega arith) (omega arith) h)

  write-Holds :
      {w : ℕ} {m' : Mem} (b : Bool)
      → w < 2 ^ 61
      → Holds entry m w m'
      → Holds entry m
          (w + (if b then 0 else 1) * 2 ^ 61)
          (if b then write_field ap_table 0 entry m' else write_field ap_table 1 entry m')
  write-Holds true l h = write_field-Holds ap_table 0 _ (omega arith) (omega arith) h
  write-Holds false l h = write_field-Holds ap_table 1 _ (omega arith) (omega arith) h

  read-Holds :
      {w : ℕ} {m' : Mem} (b : Bool) (x : ℕ)
      → w < 2 ^ 61
      → x < 2
      → Holds entry m (w + x * 2 ^ 61) m'
      → Holds entry m
          (w + (if b then x else 3) * 2 ^ 61)
          (if b then m' else write_field ap_table 3 entry m')
  read-Holds true x l k h = h
  read-Holds false x l k h = write_field-Holds ap_table 3 _ (omega arith) (omega arith) h

-- The entry at level 3 after a mapping: valid, the page bit set, the address of the page, execution
-- denied unless allowed, and the access bits for the permissions. No other byte changes.
pub write_leaf-Holds :
    (entry phy_addr : ℕ) (perms : PagePermissions) (m : Mem)
    → Holds entry m (descriptor phy_addr perms) (write_leaf entry phy_addr perms m)
unfolding write_leaf set_page_table_entry_address descriptor
write_leaf-Holds entry phy_addr perms m =
    let a : ℕ = phy_addr / 2 ^ 12 % 2 ^ 36 in
    let zeroed = store64-Holds {entry = entry} {m = m} 0 (omega arith) in
    let addressed =
      write_field-Holds nlta_47_12 a (a * 2 ^ 12) (omega arith) (omega arith) zeroed in
    let validated =
      write_field-Holds valid 1 (a * 2 ^ 12 + 1) (omega arith) (omega arith) addressed in
    let paged = write_field-Holds table 1 (3 + a * 2 ^ 12) (omega arith) (omega arith) validated in
    let bounded : 3 + a * 2 ^ 12 + (if perms.execute then 0 else 2 ^ 59 + 2 ^ 60) < 2 ^ 61 =
      ground arith in
    rw address_field (
      read-Holds perms.read (if perms.write then 0 else 1) bounded (ground arith)
        (write-Holds perms.write bounded (execute-Holds perms.execute (omega arith) paged)))

pub put_nlta_lt : (x v : ℕ) → v < 2 ^ 64 → put nlta_47_12 x v < 2 ^ 64
put_nlta_lt x v h = omega arith

-- After `set_page_table_entry_address`, `get_page_table_entry_address` returns the address without
-- its page offset and without the bits from 48 up, and the other bits of the entry are as before.
pub get_page_table_entry_address-set :
    (entry addr : ℕ) (m : Mem)
    → let m' = set_page_table_entry_address entry addr m in
      (get_page_table_entry_address entry m' ≡ addr / 2 ^ 12 % 2 ^ 36 * 2 ^ 12)
      × (load64 m' entry % 2 ^ 12 ≡ load64 m entry % 2 ^ 12)
      × (load64 m' entry / 2 ^ 48 ≡ load64 m entry / 2 ^ 48)
unfolding set_page_table_entry_address get_page_table_entry_address read_field
get_page_table_entry_address-set entry addr m =
    let old : Holds entry m (load64 m entry) m = record { word = refl; frame = λ a h. refl } in
    let fits = load64-lt m entry in
    let new =
      write_field-Holds nlta_47_12 (addr / 2 ^ 12 % 2 ^ 36) _ refl (put_nlta_lt _ _ fits) old in
    rw (address_field, new.word) (omega (arith, fits))

-- The members that the mapping sets, for an address on a page boundary below `2 ^ 48`.
pub descriptor_fields :
    (phy_addr : ℕ) (perms : PagePermissions)
    → phy_addr < 2 ^ 48
    → phy_addr % 2 ^ 12 ≡ 0
    → let d = descriptor phy_addr perms in
      (get valid d ≡ 1)
      × (get table d ≡ 1)
      × (get nlta_47_12 d * 2 ^ 12 ≡ phy_addr)
      × (get pxn_table d ≡ (if perms.execute then 0 else 1))
      × (get xn_table d ≡ (if perms.execute then 0 else 1))
      × (get ap_table d ≡ (if perms.read then (if perms.write then 0 else 1) else 3))
unfolding descriptor
descriptor_fields phy_addr perms l aligned = ground arith

-- The other members of the entry.
abbrev pub unused_fields : List Field
unused_fields =
    ignored_7_2 ∷ nlta_51_50 ∷ access_flag ∷ ignored_11 ∷ nlta_49_48 ∷ res0_50 ∷ ignored_51
    ∷ protected_attr ∷ ignored_58_53 ∷ ns_table ∷ []

descriptor-unused :
    (phy_addr : ℕ) (perms : PagePermissions)
    → All (λ f. get f (descriptor phy_addr perms) ≡ 0) unused_fields
unfolding descriptor
descriptor-unused phy_addr perms = ground arith

-- The entry that `map_page` writes at level 3, for an address on a page boundary below `2 ^ 48`: it
-- is valid and describes a page, it has the address, both execute-never bits are set exactly when
-- execution is not permitted, the access bits are 0 for read and write, 1 for read only and 3
-- without read, and every other member is 0, whatever the entry held before. No byte outside of the
-- entry changes.
pub write_leaf_lem :
    (entry phy_addr : ℕ) (perms : PagePermissions) (m : Mem)
    → phy_addr < 2 ^ 48
    → phy_addr % 2 ^ 12 ≡ 0
    → let m' = write_leaf entry phy_addr perms m in
      (read_field valid entry m' ≡ 1)
      × (read_field table entry m' ≡ 1)
      × (get_page_table_entry_address entry m' ≡ phy_addr)
      × (read_field pxn_table entry m' ≡ (if perms.execute then 0 else 1))
      × (read_field xn_table entry m' ≡ (if perms.execute then 0 else 1))
      × (read_field ap_table entry m' ≡ (if perms.read then (if perms.write then 0 else 1) else 3))
      × All (λ f. read_field f entry m' ≡ 0) unused_fields
      × SameOutside entry (entry + 8) m m'
unfolding read_field get_page_table_entry_address
write_leaf_lem entry phy_addr perms m l aligned =
    let written = write_leaf-Holds entry phy_addr perms m in
    let (v, t, address, pxn, xn, rights) = descriptor_fields phy_addr perms l aligned in
    rw written.word (
      v,
      t,
      omega (arith, address),
      pxn,
      xn,
      rights,
      descriptor-unused phy_addr perms,
      written.frame,
    )
