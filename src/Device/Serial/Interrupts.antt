-- ===== src/Device/Serial/Interrupts.antt =====
-- The transmit interrupt of src/devices/serial.rs: one for each acknowledgement, and none lost.
use tinyvmm.Prelude.{
  ℕ, ◌+◌, ◌%◌, ◌≡◌, ◌≤◌, ◌<◌, ◌⊎◌, length, Bool, true, false, not, ◌&&◌, List, [], ◌∷◌, ◌==◌,
  if◌then◌else◌, arith, sub16,
}
use tinyvmm.Device.IoBus.{IoAccess}
use tinyvmm.Device.Serial.{
  Uart, lcr_dlab, ier_etbei, has, maybe_raise_tx_irq, transmit, write_ier, write_reg, read_reg,
  handle,
}

abbrev pub count : Bool → ℕ
count b = if b then 1 else 0

-- The driver takes notice of the interrupt: it reads register 2, or disables the interrupt.
abbrev pub acknowledges : ℕ → Uart → IoAccess → Bool
acknowledges base u acc =
    if acc.is_write
    then sub16 acc.port base == 1
      && not (has u.lcr lcr_dlab)
      && not (has (acc.value % 256) ier_etbei)
    else sub16 acc.port base == 2

-- How often a sequence of accesses raises the line, and how often it acknowledges.
abbrev pub raises : Bool → ℕ → Uart → List IoAccess → ℕ
raises wired base u [] = 0
raises wired base u (a ∷ accs) =
    count (handle wired base u a).irq + raises wired base (handle wired base u a).uart accs

abbrev pub acknowledgements : Bool → ℕ → Uart → List IoAccess → ℕ
acknowledgements wired base u [] = 0
acknowledgements wired base u (a ∷ accs) =
    count (acknowledges base u a) + acknowledgements wired base (handle wired base u a).uart accs

one_round :
    (wired : Bool) (base : ℕ) (u : Uart) (a : IoAccess)
    → count (handle wired base u a).irq + count u.tx_irq_pending
      ≤ count (acknowledges base u a) + count (handle wired base u a).uart.tx_irq_pending
unfolding handle write_reg read_reg transmit write_ier maybe_raise_tx_irq
one_round wired base u a = ground arith

-- Along any sequence of accesses the line is raised at most once more often than the driver
-- acknowledges, and not more often if an interrupt was pending already.
pub raises_le :
    (wired : Bool) (base : ℕ) (u : Uart) (accs : List IoAccess)
    → raises wired base u accs + count u.tx_irq_pending ≤ acknowledgements wired base u accs + 1
raises_le wired base u [] = ground arith
raises_le wired base u (a ∷ accs) =
    omega (arith, one_round wired base u a, raises_le wired base (handle wired base u a).uart accs)

-- With the callback set, an access that sends a byte or turns the interrupt on leaves an interrupt
-- pending, if the interrupt is on afterwards.
pub handle_pending :
    (base : ℕ) (u : Uart) (a : IoAccess)
    → (0 < length (handle true base u a).sent) ⊎ (has u.ier ier_etbei ≡ false)
    → has (handle true base u a).uart.ier ier_etbei ≡ true
    → (handle true base u a).uart.tx_irq_pending ≡ true
unfolding handle write_reg read_reg transmit write_ier maybe_raise_tx_irq
handle_pending base u a s e = ground arith
