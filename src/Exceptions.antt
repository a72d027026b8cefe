-- ===== src/Exceptions.antt =====
-- kernel/exception_handling/handler.c and kernel/exit/exit.c: how the kernel stops, at an exception
-- and on purpose. The system registers that the handler reads are arguments, and so are the
-- addresses of the format strings; the loop in which the handler ends does nothing.
pub mod Halt
mod Examples
use kernalite.Base.{
  ℕ, ◌+◌, ◌/◌, ◌^◌, bit_and, Option, none, some, List, [], ◌∷◌, ◌==◌, if◌then◌else◌, u32, ◌>>>◌,
}
use kernalite.Memory.{Mem, store64}
use kernalite.Print.{Serial}
use kernalite.Print.Messages.{KprintfCall, kprintf_all}

-- Where the three formats of `generic_handler` lie.
pub record HandlerFormats : Type 0 where
  pub invoked : ℕ
  pub current_level : ℕ
  pub used_stack : ℕ

-- The arguments of the messages, from the registers CurrentEL and SPSel.
abbrev pub handler_messages : HandlerFormats → ℕ → ℕ → List KprintfCall
handler_messages formats current_el sp_sel =
    let el_num = bit_and (current_el >>> 2) 0x3 in
    record { format = formats.invoked; args = [] }
    ∷ record { format = formats.current_level; args = el_num ∷ [] }
    ∷ record { format = formats.used_stack; args = (if sp_sel == 0 then 0 else el_num) ∷ [] }
    ∷ []

-- What `generic_handler` sends before it loops for ever, the last character first.
unfoldable pub generic_handler : ℕ → Serial → ℕ → HandlerFormats → ℕ → ℕ → Mem → Option (List ℕ)
generic_handler fuel serial_console buf formats current_el sp_sel m =
    kprintf_all fuel serial_console buf (handler_messages formats current_el sp_sel) m []

-- The registers and the memory at the `hlt` that leaves for QEMU, and what was sent before.
pub record HostCall : Type 0 where
  pub x0 : ℕ
  pub x1 : ℕ
  pub mem : Mem
  pub sent : List ℕ

-- `exit(code)`, with the array `block` of two words at the address `block`.
unfoldable pub exit : ℕ → Serial → ℕ → ℕ → ℕ → ℕ → Mem → Option HostCall
exit fuel serial_console buf format block code m =
    let message : KprintfCall = record { format = format; args = u32 code ∷ [] } in
    elim (kprintf_all fuel serial_console buf (message ∷ []) m []) [
      | none ↦ none
      | some sent ↦ some (record {
        x0 = 0x18;
        x1 = block;
        mem = store64 (store64 m block 0x20026) (block + 8) (u32 code);
        sent = sent;
      })
    ]
