-- ===== src/Uart/Wait.antt =====
-- `pl011_getc` waits for the first time at which the flag register shows data.
use kernalite.Base.{
  ℕ, zero, suc, ◌+◌, ◌%◌, ◌^◌, ◌<◌, ◌≤◌, ◌≡◌, ◌≢◌, ap, Option, some, bit_and, ==_ne, ==_of_eq,
  ℕ_discrete, arith, all_suc, add-suc,
}
use kernalite.Bits.{bit, bit_and-pow}
use kernalite.Fields.{bit_and-mask}
use kernalite.Uart.{UartDevice, Device, uart_dr, uart_fr, uart_fr_rxfe, pl011_getc}

-- Bit 4 of the flag register is set: the receive FIFO is empty.
abbrev pub IsEmptyAt : UartDevice → Device → ℕ → Type 0
IsEmptyAt dev reads t = bit (reads (dev.mmio_base + uart_fr) t) 4 ≢ 0

-- The call returns after `j` waits: the FIFO has been empty for so long, and no longer.
pub record Waited (dev : UartDevice) (reads : Device) (t : ℕ) (r : Option (ℕ × ℕ)) (j : ℕ)
    : Type 0 where
  pub waited : (i : ℕ) → i < j → IsEmptyAt dev reads (t + i)
  pub filled : bit (reads (dev.mmio_base + uart_fr) (t + j)) 4 ≡ 0
  pub returned : r ≡ some (reads (dev.mmio_base + uart_dr) (t + j + 1) % 2 ^ 8, t + j + 2)

at_zero : (t : ℕ) → t + 0 ≡ t
at_zero t = omega arith

module _ (fuel : ℕ) (dev : UartDevice) (reads : Device) (t : ℕ) where
  getc_now :
      bit (reads (dev.mmio_base + uart_fr) t) 4 ≡ 0
      → Waited dev reads t (pl011_getc (suc fuel) dev reads t) 0
  unfolding pl011_getc
  getc_now e =
      let clear : bit_and (reads (dev.mmio_base + uart_fr) t) uart_fr_rxfe ≡ 0 =
        omega (arith, bit_and-pow (reads (dev.mmio_base + uart_fr) t) 4) in
      let start = at_zero t in
      let byte = bit_and-mask 8 (reads (dev.mmio_base + uart_dr) (t + 1)) in
      record {
        waited = λ i l. absurd (omega arith);
        filled = rw start e;
        returned =
            rw (==_of_eq _ _ clear, start)
              (ap some (ap (λ (c : ℕ). (c, t + 2)) (omega (arith, byte))));
      }

  getc_later :
      (j : ℕ)
      → bit (reads (dev.mmio_base + uart_fr) t) 4 ≢ 0
      → Waited dev reads (t + 1) (pl011_getc fuel dev reads (t + 1)) j
      → Waited dev reads t (pl011_getc (suc fuel) dev reads t) (suc j)
  unfolding pl011_getc
  getc_later j ne w =
      let start = at_zero t in
      let set : bit_and (reads (dev.mmio_base + uart_fr) t) uart_fr_rxfe ≢ 0 =
        omega (arith, bit_and-pow (reads (dev.mmio_base + uart_fr) t) 4) in
      record {
        waited =
            all_suc (λ i. IsEmptyAt dev reads (t + i)) j (rw start ne)
              (λ i l. rw (add-suc t i) (w.waited i l));
        filled = rw (add-suc t j) w.filled;
        returned = rw (==_ne _ _ set, add-suc t j) w.returned;
      }

-- If the FIFO is not empty at some time from the call on, the call returns: it reads the data register
-- right after the first such time, and not before. Fuel for the waits until then is enough.
pub pl011_getc-Waited :
    (fuel : ℕ) (dev : UartDevice) (reads : Device) (t k : ℕ)
    → bit (reads (dev.mmio_base + uart_fr) (t + k)) 4 ≡ 0
    → k < fuel
    → (j : ℕ) × (j ≤ k) × Waited dev reads t (pl011_getc fuel dev reads t) j
pl011_getc-Waited zero dev reads t k h l = absurd (omega arith)
pl011_getc-Waited (suc fuel) dev reads t zero h l =
    (0, omega arith, getc_now fuel dev reads t (rw (at_zero t) at h))
pl011_getc-Waited (suc fuel) dev reads t (suc k) h l =
    elim (ℕ_discrete (bit (reads (dev.mmio_base + uart_fr) t) 4) 0) [
      | yes e ↦ (0, omega arith, getc_now fuel dev reads t e)
      | no e ↦
          let (j, small, w) =
            pl011_getc-Waited fuel dev reads (t + 1) k (rw (add-suc t k) at h) (omega arith) in
          (suc j, omega arith, getc_later fuel dev reads t j e w)
    ]
