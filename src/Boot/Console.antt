-- ===== src/Boot/Console.antt =====
-- The console that `main` sets up: `kprintf` over `uart0_putchar` and the driver of the serial port.
use kernalite.Base.{
  ℕ, ◌≤◌, ◌≡◌, ap, ◌∙◌, refl, true, false, Option, none, some, List, [], ◌∷◌, map, reverse, length,
  u32, if◌then◌else◌,
}
use mathlib.Core.List.{reverse-reverse}
use kernalite.Memory.{Mem}
use kernalite.Uart.{UartDevice, unset, pl011, pl011_init, pl011_putc}
use kernalite.Print.{Serial, set_kprintf_console, kprintf}
use kernalite.Print.Render.{Renders}
use kernalite.Print.Loop.{vprintf-Renders}

-- The first two calls of `main`: the device and the console afterwards.
pub main_console : UartDevice → Serial → UartDevice × Serial
main_console uart0 serial_console = (
  pl011_init uart0 0x0900_0000,
  set_kprintf_console (record { putc = true; getc = false }) serial_console,
)

-- The call through `uart0.putc` and the write that it makes; `none` is a call through an unset
-- pointer.
pub uart0_putchar : UartDevice → ℕ → Option (ℕ × ℕ)
uart0_putchar uart0 chr = elim uart0.putc [ unset ↦ none | pl011 ↦ some (pl011_putc uart0 chr) ]

-- The writes of a text, one call of `uart0_putchar` for each character.
abbrev pub write_text : UartDevice → List ℕ → Option (List (ℕ × ℕ))
write_text uart0 [] = some []
write_text uart0 (c ∷ cs) =
    let rest = write_text uart0 cs in
    elim (uart0_putchar uart0 c) [
      | none ↦ none
      | some w ↦ elim rest [ none ↦ none | some ws ↦ some (w ∷ ws) ]
    ]

-- The writes that a call of `kprintf` makes, in order: the characters are given the last one first.
-- `uart0_putchar` is the only function that is ever set in a console.
abbrev pub writes : UartDevice → Serial → List ℕ → Option (List (ℕ × ℕ))
writes uart0 console sent = if console.putc then write_text uart0 (reverse sent) else none

write_text-main :
    (uart0 : UartDevice) (cs : List ℕ)
    → write_text (pl011_init uart0 0x0900_0000) cs ≡ some (map (λ (c : ℕ). (0x0900_0000, u32 c)) cs)
unfolding uart0_putchar
write_text-main uart0 [] = refl
write_text-main uart0 (c ∷ cs) = rw (write_text-main uart0 cs) refl

-- Behind the first two calls of `main`, with enough fuel, `kprintf` calls the function that the
-- device has set for each character, and so writes the text that the format and its arguments stand
-- for to the data register at 0x09000000, one character after the other, and returns their number.
pub kprintf-main_console :
    (uart0 : UartDevice) (serial_console : Serial) (m : Mem) (buf format : ℕ) (args cs : List ℕ)
    → Renders m buf format args cs
    → let (uart, console) = main_console uart0 serial_console in
      (enough : ℕ) × ((fuel : ℕ)
        → enough ≤ fuel
        → (sent : List ℕ) × (kprintf fuel console buf format args m ≡ some (length cs, sent))
          × (writes uart console sent ≡ some (map (λ (c : ℕ). (0x0900_0000, u32 c)) cs)))
unfolding main_console
kprintf-main_console uart0 serial_console m buf format args cs r =
    let (enough, printed) = vprintf-Renders m buf format args cs r in
    (
      enough,
      λ fuel f. (
        reverse cs,
        printed fuel f,
        ap (write_text (pl011_init uart0 0x0900_0000)) (reverse-reverse cs)
            ∙ write_text-main uart0 cs,
      ),
    )
