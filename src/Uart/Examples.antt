-- ===== src/Uart/Examples.antt =====
-- The driver on a device whose receive FIFO is empty three times.
use kernalite.Base.{ℕ, ◌+◌, ◌≤◌, ◌≡◌, refl, some, arith, ◌==◌, ltb, if◌then◌else◌}
use kernalite.Uart.{UartDevice, unset, Device, pl011_init, pl011_putc, pl011_getc}
use kernalite.Uart.Wait.{Waited, pl011_getc-Waited}

abbrev uart0 : UartDevice
uart0 = pl011_init (record { mmio_base = 0; putc = unset; getc = unset }) 0x0900_0000

abbrev typed : Device
typed address t = if address == 0x0900_0018 then (if ltb t 3 then 0x90 else 0x80) else 0x100 + b'k'

pl011_getc-typed : pl011_getc 9 uart0 typed 0 ≡ some (b'k', 5)
unfolding pl011_getc
pl011_getc-typed = refl

pl011_putc_k : pl011_putc uart0 b'k' ≡ (0x0900_0000, b'k')
pl011_putc_k = refl

pl011_getc-Waited_example : (j : ℕ) × (j ≤ 5) × Waited uart0 typed 0 (pl011_getc 9 uart0 typed 0) j
pl011_getc-Waited_example = pl011_getc-Waited 9 uart0 typed 0 5 refl (omega arith)
