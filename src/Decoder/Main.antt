-- ===== src/Decoder/Main.antt =====
-- tools/register_decoder/main.c: the register table, the search by name, and `main`. What is printed
-- is a list of messages. `strcasecmp`, `strncpy`, `strtoull` and `scanf` are parameters: the first
-- three as functions, the last as what it reads.
use Prim.Native.String.{String}
use kernalite.Base.{
  ℕ, zero, suc, ◌≡◌, refl, ◌≢◌, ◌⊎◌, inl, inr, Bool, true, false, Bool-cases, Option, none, some,
  List, [], ◌∷◌, ◌++◌, map, All, if◌then◌else◌,
}
use kernalite.Base.Int.{ℤ, pos, negsuc}
use kernalite.Decoder.{Line}
use kernalite.Decoder.Sctlr32.{decode_sctlr_el1_32}
use kernalite.Decoder.Sctlr64.{decode_sctlr_el1_64}

-- `strcasecmp` with its result as an integer; `strncpy` as the name that the buffer of 64 bytes holds
-- afterwards; `strtoull` in base 16.
pub record LibC : Type 0 where
  pub strcasecmp : String → String → ℤ
  pub strncpy : String → String
  pub strtoull : String → ℕ

pub record RegEntry : Type 0 where
  pub name : String
  pub decode : ℕ → List Line

abbrev pub register_table : List RegEntry
register_table =
    record { name = "SCTLR_EL1_32"; decode = decode_sctlr_el1_32 }
    ∷ record { name = "SCTLR_EL1_64"; decode = decode_sctlr_el1_64 }
    ∷ []

pub data Message : Type 0 where
  decoding : String → List Line → Message
  not_supported : String → Message
  supported_registers : List String → Message
  usage : String → Message
  enter_name : Message
  enter_value : Message
  invalid_name : Message

abbrev pub list_registers : Message
list_registers = supported_registers (map (λ (r : RegEntry). r.name) register_table)

abbrev pub is_zero : ℤ → Bool
is_zero (pos zero) = true
is_zero _ = false

-- The loop of `decode_by_name` over the rest of the table.
pub search_loop : LibC → String → ℕ → List RegEntry → ℤ × List Message
search_loop lib name val [] = (negsuc 0, [])
search_loop lib name val (r ∷ rs) =
    if is_zero (lib.strcasecmp name r.name)
    then (pos 0, decoding r.name (r.decode val) ∷ [])
    else search_loop lib name val rs

pub decode_by_name : LibC → String → ℕ → ℤ × List Message
decode_by_name lib name val = search_loop lib name val register_table

-- With two arguments: the exit code and what is printed.
pub main_arguments : LibC → String → String → ℕ × List Message
main_arguments lib argument value =
    let reg_name = lib.strncpy argument in
    let (result, printed) = decode_by_name lib reg_name (lib.strtoull value) in
    if is_zero result then (0, printed) else (1, not_supported reg_name ∷ list_registers ∷ [])

-- Without them: what `scanf` reads of the name and of the value, if it reads any.
pub main_interactive : LibC → String → Option String → Option ℕ → ℕ × List Message
main_interactive lib program none value = (1, usage program ∷ list_registers ∷ enter_name ∷ [])
main_interactive lib program (some name) none =
    (1, usage program ∷ list_registers ∷ enter_name ∷ enter_value ∷ [])
main_interactive lib program (some name) (some val) =
    let asked = usage program ∷ list_registers ∷ enter_name ∷ enter_value ∷ [] in
    let (result, printed) = decode_by_name lib name val in
    if is_zero result then (0, asked ++ printed) else (1, asked ++ (invalid_name ∷ []))

-- The arguments are `argv`, `program` the first of them.
pub main : LibC → String → List String → Option String → Option ℕ → ℕ × List Message
main lib program (argument ∷ value ∷ rest) name val = main_arguments lib argument value
main lib program _ name val = main_interactive lib program name val

-- The first entry of the table whose name `strcasecmp` finds equal.
pub data IsFirst (lib : LibC) (name : String) (r : RegEntry) : List RegEntry → Type 0 where
  found : {rs : List RegEntry} → lib.strcasecmp name r.name ≡ pos 0 → IsFirst lib name r (r ∷ rs)
  passed :
      {q : RegEntry} {rs : List RegEntry}
      → lib.strcasecmp name q.name ≢ pos 0
      → IsFirst lib name r rs
      → IsFirst lib name r (q ∷ rs)

is_zero-pos : (z : ℤ) → is_zero z ≡ true → z ≡ pos 0
is_zero-pos (pos zero) h = refl
is_zero-pos (pos (suc n)) h = cc
is_zero-pos (negsuc n) h = cc

is_zero-other : (z : ℤ) → is_zero z ≡ false → z ≢ pos 0
is_zero-other z h e = let zero_here : is_zero z ≡ true = rw e refl in cc (h, zero_here)

-- The register that was found, with its lines, or none of the table.
abbrev pub IsSearched : LibC → String → ℕ → List RegEntry → ℤ × List Message → Type 0
IsSearched lib name val rs result =
    ((r : RegEntry) × IsFirst lib name r rs
      × (result ≡ (pos 0, decoding r.name (r.decode val) ∷ [])))
    ⊎ (All (λ r. lib.strcasecmp name r.name ≢ pos 0) rs × (result ≡ (negsuc 0, [])))

search_loop-IsSearched :
    (lib : LibC) (name : String) (val : ℕ) (rs : List RegEntry)
    → IsSearched lib name val rs (search_loop lib name val rs)
unfolding search_loop
search_loop-IsSearched lib name val [] = inr (tt, refl)
search_loop-IsSearched lib name val (r ∷ rs) =
    elim (Bool-cases (is_zero (lib.strcasecmp name r.name))) [
      | inl e ↦ inl (r, found (is_zero-pos _ e), rw e refl)
      | inr e ↦ elim (search_loop-IsSearched lib name val rs) [
        | inl (q, first, result) ↦ inl (q, passed (is_zero-other _ e) first, rw e result)
        | inr (others, result) ↦ inr ((is_zero-other _ e, others), rw e result)
      ]
    ]

-- With two arguments, the decoder prints the lines of the first register of the table whose name
-- equals the argument's, for the value that `strtoull` reads, and exits with 0; if no name is equal,
-- it names the argument and the registers of the table, and exits with 1.
pub main_arguments-outcome :
    (lib : LibC) (program argument value : String) (rest : List String) (name : Option String)
    (val : Option ℕ)
    → ((r : RegEntry) × IsFirst lib (lib.strncpy argument) r register_table
        × (main lib program (argument ∷ value ∷ rest) name val
            ≡ (0, decoding r.name (r.decode (lib.strtoull value)) ∷ [])))
      ⊎ (All (λ r. lib.strcasecmp (lib.strncpy argument) r.name ≢ pos 0) register_table
          × (main lib program (argument ∷ value ∷ rest) name val
              ≡ (1, not_supported (lib.strncpy argument) ∷ list_registers ∷ [])))
unfolding main main_arguments decode_by_name
main_arguments-outcome lib program argument value rest name val =
    elim (search_loop-IsSearched lib (lib.strncpy argument) (lib.strtoull value) register_table) [
      | inl (r, first, e) ↦ inl (r, first, rw e refl)
      | inr (others, e) ↦ inr (others, rw e refl)
    ]
