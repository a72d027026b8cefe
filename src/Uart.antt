-- ===== src/Uart.antt =====
-- kernel/drivers/uart.c: the PL011. The device answers the `t`-th access to its registers by
-- `reads t`, which depends on the register; accesses are counted.
pub mod Wait
mod Examples
use kernalite.Base.{
  ℕ, zero, suc, ◌+◌, ◌^◌, bit_and, Option, none, some, List, [], ◌∷◌, ◌==◌, if◌then◌else◌, u8, u32,
  ◌<<<◌,
}

abbrev pub uart_dr : ℕ
uart_dr = 0x00

abbrev pub uart_fr : ℕ
uart_fr = 0x18

abbrev pub uart_fr_rxfe : ℕ
uart_fr_rxfe = 1 <<< 4

-- The function pointers of a `uart_device_t`: none, or those of this driver.
pub data Routine : Type 0 where
  unset : Routine
  pl011 : Routine

pub record UartDevice : Type 0 where
  pub mmio_base : ℕ
  pub putc : Routine
  pub getc : Routine

abbrev pub pl011_init : UartDevice → ℕ → UartDevice
pl011_init dev base = record { mmio_base = base; putc = pl011; getc = pl011 }

-- What the registers read as: at an address, at the time of the access.
abbrev pub Device : Type 0
Device = ℕ → ℕ → ℕ

-- The address and the word of the write.
abbrev pub pl011_putc : UartDevice → ℕ → ℕ × ℕ
pl011_putc dev chr = (dev.mmio_base + uart_dr, u32 chr)

-- The loop on the flag register, and the read of the data behind it: the character, and the time
-- afterwards. `none` says that the fuel ran out in the loop.
unfoldable pub pl011_getc : ℕ → UartDevice → Device → ℕ → Option (ℕ × ℕ)
pl011_getc zero dev reads t = none
pl011_getc (suc fuel) dev reads t =
    let rest = pl011_getc fuel dev reads (t + 1) in
    if bit_and (reads (dev.mmio_base + uart_fr) t) uart_fr_rxfe == 0
    then some (u8 (bit_and (reads (dev.mmio_base + uart_dr) (t + 1)) 0xff), t + 2)
    else rest
