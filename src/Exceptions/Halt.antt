-- ===== src/Exceptions/Halt.antt =====
-- What is printed when the kernel stops, and what QEMU is told.
use kernalite.Base.{
  ℕ, ◌+◌, ◌/◌, ◌%◌, ◌^◌, ◌≤◌, ◌≡◌, refl, ◌∙◌, ap, true, bit_and, some, List, [], ◌∷◌, ◌++◌, reverse,
  ◌==◌, if◌then◌else◌, u32, ◌>>>◌, arith, codes, append-nil, append_assoc, inr, length,
}
use kernalite.Fields.{bit_and-mask}
use kernalite.Memory.{Mem, load64, store64}
use kernalite.Memory.Words.{load64-store64, load64-store64_apart}
use kernalite.Print.{Serial}
use kernalite.Print.Text.{Spells}
use kernalite.Print.Render.{Apart}
use kernalite.Print.Numeral.{number_text}
use kernalite.Print.Pieces.{Piece, literal, long_hex, natural_number}
use kernalite.Print.Messages.{texts_of, Says, AllSay, kprintf_all-AllSay}
use kernalite.Exceptions.{HandlerFormats, handler_messages, generic_handler, HostCall, exit}

-- A format string lies in memory, outside of the buffer of `vprintf`.
abbrev pub IsPlaced : Mem → ℕ → ℕ → List ℕ → Type 0
IsPlaced m buf p cs = Spells m p cs × Apart buf p (p + length cs)

-- The three formats of the handler.
pub record ArePlaced (m : Mem) (buf : ℕ) (formats : HandlerFormats) : Type 0 where
  pub invoked : IsPlaced m buf formats.invoked (codes "Generic Handler invoked\n")
  pub current_level : IsPlaced m buf formats.current_level (codes "Current EL = %lx\n")
  pub used_stack : IsPlaced m buf formats.used_stack (codes "Used stack is = EL%lx\n")

-- The exception level in bits 2 and 3 of CurrentEL.
abbrev pub level : ℕ → ℕ
level current_el = current_el / 2 ^ 2 % 4

-- The text that the handler prints.
abbrev pub handler_text : ℕ → ℕ → List ℕ
handler_text el stack =
    codes "Generic Handler invoked\r\nCurrent EL = "
    ++ (number_text 16 el
        ++ (codes "\r\nUsed stack is = EL" ++ (number_text 16 stack ++ codes "\r\n")))

module _ (m : Mem) (buf : ℕ) (formats : HandlerFormats) (current_el sp_sel : ℕ)
    (placed : ArePlaced m buf formats) where
  abbrev stack : ℕ
  stack = if sp_sel == 0 then 0 else level current_el

  el_num : bit_and (current_el >>> 2) 0x3 ≡ level current_el
  el_num = bit_and-mask 2 (current_el / 2 ^ 2)

  abbrev pieces : List (List Piece)
  pieces =
      (literal (codes "Generic Handler invoked\n") ∷ [])
      ∷ (literal (codes "Current EL = ") ∷ long_hex (level current_el) ∷ literal (b'\n' ∷ []) ∷ [])
      ∷ (literal (codes "Used stack is = EL") ∷ long_hex stack ∷ literal (b'\n' ∷ []) ∷ [])
      ∷ []

  messages_say : AllSay m buf (handler_messages formats current_el sp_sel) pieces
  messages_say = (
    record {
      spelled = placed.invoked.0;
      apart = placed.invoked.1;
      same_args = refl;
      well_formed = omega arith;
    },
    (
      record {
        spelled = placed.current_level.0;
        apart = placed.current_level.1;
        same_args = ap (λ (x : ℕ). x ∷ []) el_num;
        well_formed = omega arith;
      },
      (
        record {
          spelled = placed.used_stack.0;
          apart = placed.used_stack.1;
          same_args = ap (λ (x : ℕ). (if sp_sel == 0 then 0 else x) ∷ []) el_num;
          well_formed = ground arith;
        },
        tt,
      ),
    ),
  )

  text : texts_of pieces ≡ handler_text (level current_el) stack
  text =
      let el = number_text 16 (level current_el) in
      let used = number_text 16 stack in
      ap (λ (cs : List ℕ). codes "Generic Handler invoked\r\nCurrent EL = " ++ cs)
        (append_assoc el (codes "\r\n") _
          ∙ ap (λ (cs : List ℕ). el ++ (codes "\r\nUsed stack is = EL" ++ cs))
              (append-nil (used ++ codes "\r\n")))

  -- With the formats in memory and a console set, from some amount of fuel on, `generic_handler` prints that it was invoked, the exception level of
  -- bits 2 and 3 of CurrentEL, and the level of the stack in use: 0 where SPSel is 0, and the
  -- current one otherwise.
  pub generic_handler_lem :
      (serial_console : Serial)
      → serial_console.putc ≡ true
      → (enough : ℕ) × ((fuel : ℕ)
          → enough ≤ fuel
          → generic_handler fuel serial_console buf formats current_el sp_sel m
            ≡ some (reverse (handler_text (level current_el) stack)))
  unfolding generic_handler
  generic_handler_lem con on =
      let (enough, printed) =
        kprintf_all-AllSay con buf m (handler_messages formats current_el sp_sel) pieces on
          messages_say in
      (enough, λ fuel l. printed fuel [] l ∙ ap some (append-nil _ ∙ ap reverse text))

-- QEMU finds the request to stop the application, and the exit code behind it, and the code was
-- printed as an unsigned number.
abbrev pub IsExit : ℕ → HostCall → Type 0
IsExit code r =
    (r.x0 ≡ 0x18)
    × (load64 r.mem r.x1 ≡ 0x20026)
    × (load64 r.mem (r.x1 + 8) ≡ u32 code)
    × (r.sent
        ≡ reverse (codes "Exiting QEMU with code: " ++ (number_text 10 (u32 code) ++ codes "\r\n")))

module _ (m : Mem) (buf format block code : ℕ) (serial_console : Serial)
    (on : serial_console.putc ≡ true)
    (placed : IsPlaced m buf format (codes "Exiting QEMU with code: %u\n")) where
  exit_pieces : List Piece
  exit_pieces =
      literal (codes "Exiting QEMU with code: ")
      ∷ natural_number (u32 code)
      ∷ literal (b'\n' ∷ [])
      ∷ []

  exit-Says : Says m buf (record { format = format; args = u32 code ∷ [] }) exit_pieces
  unfolding exit_pieces
  exit-Says = record {
    spelled = placed.0;
    apart = placed.1;
    same_args = refl;
    well_formed = omega arith;
  }

  exit_text :
      texts_of (exit_pieces ∷ [])
      ≡ codes "Exiting QEMU with code: " ++ (number_text 10 (u32 code) ++ codes "\r\n")
  unfolding exit_pieces
  exit_text = append-nil _

  -- With the format in memory and a console set, from some amount of fuel on, `exit` prints the code as an unsigned number and ends in the host
  -- call with operation 0x18, whose two words hold 0x20026 and the code.
  pub exit-IsExit :
      (enough : ℕ) × ((fuel : ℕ)
        → enough ≤ fuel
        → (r : HostCall) × (exit fuel serial_console buf format block code m ≡ some r)
          × IsExit code r)
  unfolding exit
  exit-IsExit =
      let (enough, printed) =
        kprintf_all-AllSay serial_console buf m
          (record { format = format; args = u32 code ∷ [] } ∷ []) (exit_pieces ∷ []) on
          (exit-Says, tt) in
      let first = store64 m block 0x20026 in
      (
        enough,
        λ fuel l. (
          _,
          rw (exit, printed fuel [] l) refl,
          (
            refl,
            load64-store64_apart first (block + 8) (u32 code) block (inr (omega arith))
                ∙ load64-store64 m block 0x20026 (omega arith),
            load64-store64 first (block + 8) (u32 code) (omega arith),
            append-nil _ ∙ ap reverse exit_text,
          ),
        ),
      )
