-- ===== src/Panic.antt =====
-- kernel/error/panic.c and kernel/error/error_strings.c: what a panic writes to the data register of
-- the serial port, word by word. Strings are lists of characters, as far as their null byte, and `X`
-- of the table in include/error/error_strings.h is a clause.
pub mod Hex
mod Examples
use kernalite.Base.{
  codes, ℕ, zero, suc, ◌+◌, ◌-◌, ◌*◌, ◌^◌, bit_and, List, [], ◌∷◌, ◌++◌, ◌==◌, ltb, if◌then◌else◌,
  u8, ◌>>>◌,
}

pub print_uart0 : List ℕ → List ℕ
print_uart0 [] = []
print_uart0 (c ∷ str) = if c == 0 then [] else c ∷ print_uart0 str

pub print_hex_digit : ℕ → List ℕ
unfolding print_uart0
print_hex_digit digit =
    if ltb digit 10
    then print_uart0 (u8 (digit + b'0') ∷ 0 ∷ [])
    else print_uart0 (u8 (digit - 10 + b'A') ∷ 0 ∷ [])

-- The loop from `i = 4 * (rounds - 1)` down to 0.
pub hex_loop : ℕ → ℕ → List ℕ
hex_loop zero val = []
hex_loop (suc rounds) val =
    print_hex_digit (u8 (bit_and (val >>> (4 * rounds)) 0xf)) ++ hex_loop rounds val

pub print_hex : ℕ → List ℕ
print_hex val = print_uart0 (codes "0x") ++ hex_loop 16 val

abbrev pub error_code_success : ℕ
error_code_success = 0x0

abbrev pub error_code_not_el1 : ℕ
error_code_not_el1 = 0x1

-- The code as a word of 64 bits.
pub error_to_string : ℕ → List ℕ
error_to_string code =
    if code == error_code_success
    then codes "SUCCESS"
    else if code == error_code_not_el1
    then codes "CPU not in EL1"
    else codes "UNKNOWN"

pub panic_print_c : ℕ → List ℕ
panic_print_c code =
    print_uart0 (b'\r' ∷ b'\n' ∷ codes "!!! KERNEL PANIC !!!" ++ (b'\r' ∷ b'\n' ∷ []))
    ++ print_uart0 (codes "Error Code:    ")
    ++ print_hex code
    ++ print_uart0 (b'\r' ∷ b'\n' ∷ codes "Error Message: ")
    ++ print_uart0 (error_to_string code)
    ++ print_uart0 (b'\r' ∷ b'\n' ∷ codes "Halting system." ++ (b'\r' ∷ b'\n' ∷ []))
