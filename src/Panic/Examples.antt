-- ===== src/Panic/Examples.antt =====
-- Panics on concrete codes and values.
use kernalite.Base.{
  codes, ℕ, ◌+◌, ◌-◌, ◌≢◌, ◌≡◌, refl, Bool, true, not, ◌&&◌, some, none, List, [], ◌∷◌, get_elem?,
  ◌==◌, leb, if◌then◌else◌, arith,
}
use kernalite.Memory.{Mem, load8}
use kernalite.Strings.{strtoul}
use kernalite.Print.Text.{Spells}
use kernalite.Panic.{print_uart0, print_hex_digit, hex_loop, print_hex}
use kernalite.Panic.Hex.{strtoul-print_hex}

print_hex_value : print_hex 0x4000_0abc ≡ codes "0x0000000040000ABC"
unfolding print_hex hex_loop print_hex_digit print_uart0
print_hex_value = refl

-- The printed characters, placed at 100.
abbrev printed : Mem
printed p =
    if leb 100 p
    then (elim (get_elem? (codes "0x0000000040000ABC") (p - 100)) [ none ↦ 0 | some c ↦ c ])
    else 0

abbrev spells : Mem → ℕ → List ℕ → Bool
spells m p [] = load8 m p == 0
spells m p (c ∷ cs) = load8 m p == c && not (c == 0) && spells m (p + 1) cs

spells-Spells : (m : Mem) (p : ℕ) (cs : List ℕ) → spells m p cs ≡ true → Spells m p cs
spells-Spells m p [] h = ground arith
spells-Spells m p (c ∷ cs) h =
    let (here, ne, rest) = parts (load8 m p) c (spells m (p + 1) cs) h in
    (here, ne, spells-Spells m (p + 1) cs rest)
  where
    parts :
        (x c : ℕ) (b : Bool) → (x == c && not (c == 0) && b) ≡ true → (x ≡ c) × (c ≢ 0) × (b ≡ true)
    parts x c b h = ground arith

printed-Spells : Spells printed 100 (print_hex 0x4000_0abc)
unfolding print_hex hex_loop print_hex_digit print_uart0
printed-Spells = spells-Spells printed 100 (print_hex 0x4000_0abc) refl

strtoul-print_hex_example : strtoul 17 100 16 printed ≡ some (0x4000_0abc, 118)
strtoul-print_hex_example = strtoul-print_hex printed 100 0x4000_0abc (omega arith) printed-Spells
