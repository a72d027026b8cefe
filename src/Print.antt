-- ===== src/Print.antt =====
-- kernel/utils/kprintf.c: formatted printing. The characters that `putc` gets are a list, the last
-- one first; `buf` is the address of the buffer on the stack, and the arguments are 64-bit words,
-- each read as the conversion asks. `none` says that fuel or arguments ran out.
pub mod Reversal
pub mod Digits
pub mod Number
pub mod Text
pub mod Figures
pub mod Numeral
pub mod Pieces
pub mod Messages
pub mod Render
pub mod Convert
pub mod Loop
mod Examples
use kernalite.Base.{
  ℕ, zero, suc, ◌+◌, ◌-◌, ◌/◌, ◌%◌, ◌^◌, Bool, true, false, ◌||◌, Option, none, some, List, [], ◌∷◌,
  ◌==◌, ltb, leb, if◌then◌else◌, u8,
}
use kernalite.Memory.{Mem, store, load8}

-- `(digit < 10) ? (digit + '0') : (digit - 10 + 'a')`
abbrev pub digit_char : ℕ → ℕ
digit_char digit = if ltb digit 10 then digit + b'0' else digit - 10 + b'a'

-- The digits, the lowest one first, and the pointer behind them.
pub digits_loop : ℕ → ℕ → ℕ → ℕ → Mem → Option (ℕ × Mem)
digits_loop zero num base ptr m = none
digits_loop (suc fuel) num base ptr m =
    let m' = store m ptr (digit_char (num % base)) in
    let rest = digits_loop fuel (num / base) base (ptr + 1) m' in
    if num / base == 0 then some (ptr + 1, m') else rest

pub reverse_loop : ℕ → ℕ → ℕ → Mem → Option Mem
reverse_loop zero ptr1 ptr2 m = none
reverse_loop (suc fuel) ptr1 ptr2 m =
    let rest =
      reverse_loop fuel (ptr1 + 1) (ptr2 - 1) (store (store m ptr1 (m ptr2)) ptr2 (m ptr1)) in
    if ltb ptr1 ptr2 then rest else some m

pub itoa : ℕ → ℕ → ℕ → ℕ → Mem → Option Mem
itoa fuel num base buf m = elim (digits_loop fuel num base buf m) [
  | none ↦ none
  | some (ptr, m') ↦ reverse_loop fuel buf (ptr - 1) (store m' ptr 0)
]

-- The state of `vprintf`.
pub record Progress : Type 0 where
  pub sent : List ℕ
  pub printed : ℕ
  pub args : List ℕ
  pub mem : Mem

abbrev pub putc : ℕ → Progress → Progress
putc chr s = record { sent = chr ∷ s.sent; printed = s.printed + 1; args = s.args; mem = s.mem }

-- `va_arg`, with the argument as a word of 64 bits: an `int` that is read as a `long` stands in the
-- list as its caller extended it.
abbrev pub va_arg : Progress → Option (ℕ × Progress)
va_arg s = elim s.args [
  | [] ↦ none
  | num ∷ rest ↦ some (num, record { sent = s.sent; printed = s.printed; args = rest; mem = s.mem })
]

-- `for (; *str; str++)`
pub puts : ℕ → ℕ → Progress → Option Progress
puts zero str s = none
puts (suc fuel) str s =
    let rest = puts fuel (str + 1) (putc (load8 s.mem str) s) in
    if load8 s.mem str == 0 then some s else rest

-- The digits of a number go through `buf`; 64 rounds are enough for 64 bits.
pub put_number : ℕ → ℕ → ℕ → Progress → Option Progress
put_number buf num base s = elim (itoa 64 num base buf s.mem) [
  | none ↦ none
  | some m ↦ puts 65 buf (record { sent = s.sent; printed = s.printed; args = s.args; mem = m })
]

pub put_list : List ℕ → Progress → Progress
put_list [] s = s
put_list (c ∷ cs) s = put_list cs (putc c s)

-- The conversions `x`, `p` and `l`, whose last character is `chr`.
pub put_hex : ℕ → ℕ → Progress → Option Progress
put_hex buf chr s = elim (va_arg (if chr == b'p' then putc b'x' (putc b'0' s) else s)) [
  | none ↦ none
  | some (num, s') ↦ put_number buf num 16 s'
]

pub put_char : Progress → Option Progress
put_char s = elim (va_arg s) [ none ↦ none | some (chr, s') ↦ some (putc (u8 chr) s') ]

pub put_string : ℕ → Progress → Option Progress
unfolding puts
put_string fuel s = elim (va_arg s) [
  | none ↦ none
  | some (str, s') ↦
      if str == 0
      then some (put_list (b'(' ∷ b'n' ∷ b'u' ∷ b'l' ∷ b'l' ∷ b')' ∷ []) s')
      else puts fuel str s'
]

pub put_signed : ℕ → Progress → Option Progress
put_signed buf s = elim (va_arg s) [
  | none ↦ none
  | some (num, s') ↦
      if leb (2 ^ 63) num
      then put_number buf (2 ^ 64 - num) 10 (putc b'-' s')
      else put_number buf num 10 s'
]

pub put_unsigned : ℕ → Progress → Option Progress
put_unsigned buf s = elim (va_arg s) [ none ↦ none | some (num, s') ↦ put_number buf num 10 s' ]

-- The `switch` on the character behind `%`.
pub convert : ℕ → ℕ → ℕ → Progress → Option Progress
convert fuel buf chr s =
    if chr == b'x' || chr == b'p'
    then put_hex buf chr s
    else if chr == b'c'
    then put_char s
    else if chr == b's'
    then put_string fuel s
    else if chr == b'd'
    then put_signed buf s
    else if chr == b'u'
    then put_unsigned buf s
    else if chr == b'%'
    then some (putc b'%' s)
    else some (putc chr (putc b'%' s))

abbrev pub reached : ℕ → Option Progress → Option (Progress × ℕ)
reached last none = none
reached last (some s) = some (s, last)

-- One round of the loop at `ptr`: the state afterwards, and the last character that was read.
pub round : ℕ → ℕ → ℕ → Progress → Option (Progress × ℕ)
round fuel buf ptr s =
    let chr = load8 s.mem ptr in
    if chr == b'%'
    then if load8 s.mem (ptr + 1) == b'l'
      then reached (ptr + 2) (put_hex buf (load8 s.mem (ptr + 2)) s)
      else reached (ptr + 1) (convert fuel buf (load8 s.mem (ptr + 1)) s)
    else some (putc chr (if chr == b'\n' then putc b'\r' s else s), ptr)

pub vprintf_loop : ℕ → ℕ → ℕ → Progress → Option Progress
vprintf_loop zero buf ptr s = none
vprintf_loop (suc fuel) buf ptr s =
    if load8 s.mem ptr == 0 then some s else (elim (round fuel buf ptr s) [
      | none ↦ none
      | some (s', last) ↦ vprintf_loop fuel buf (last + 1) s'
    ])

-- Without a console nothing is printed.
unfoldable pub vprintf : ℕ → Bool → ℕ → ℕ → List ℕ → Mem → Option (ℕ × List ℕ)
vprintf fuel console buf format args m =
    if console
    then (elim (vprintf_loop fuel buf format
        (record { sent = []; printed = 0; args = args; mem = m })) [
          | none ↦ none
          | some s ↦ some (s.printed, s.sent)
        ])
    else some (0, [])

-- `serial_t`: whether the two function pointers are set.
pub record Serial : Type 0 where
  pub putc : Bool
  pub getc : Bool

-- The new `serial_console`.
abbrev pub set_kprintf_console : Serial → Serial → Serial
set_kprintf_console con serial_console = record { putc = con.putc; getc = con.getc }

abbrev pub kprintf : ℕ → Serial → ℕ → ℕ → List ℕ → Mem → Option (ℕ × List ℕ)
kprintf fuel serial_console buf format args m = vprintf fuel serial_console.putc buf format args m
