-- ===== src/Device/Serial.antt =====
-- The UART of src/devices/serial.rs. An access gives the registers, the answer, the bytes sent to the
-- console and whether `irq` is called; `wired` says whether the callback is set.
pub mod Interrupts
pub mod Console
pub mod Snapshot
mod Tests
use tinyvmm.Prelude.{
  ℕ, ◌+◌, ◌%◌, Bool, true, false, not, ◌&&◌, ◌||◌, List, [], ◌∷◌, ◌==◌, if◌then◌else◌, bit_and,
  sub16, u64,
}
use tinyvmm.Device.IoBus.{IoAccess}

abbrev pub lcr_dlab : ℕ
lcr_dlab = 0x80

abbrev pub ier_etbei : ℕ
ier_etbei = 0x02

-- THRE and TEMT
abbrev pub lsr_always_ready : ℕ
lsr_always_ready = 0x60

abbrev pub iir_no_intr : ℕ
iir_no_intr = 0x01

abbrev pub iir_thre_intr : ℕ
iir_thre_intr = 0x02

abbrev pub msr_default : ℕ
msr_default = 0xb0

-- `struct Inner`
pub record Uart : Type 0 where
  pub ier : ℕ
  pub lcr : ℕ
  pub mcr : ℕ
  pub scr : ℕ
  pub fcr : ℕ
  pub dll : ℕ
  pub dlm : ℕ
  pub tx_irq_pending : Bool
  pub tx_bytes : ℕ  -- u64

-- `new` leaves every register 0.
unfoldable pub new : Uart
new = record {
  ier = 0;
  lcr = 0;
  mcr = 0;
  scr = 0;
  fcr = 0;
  dll = 0;
  dlm = 0;
  tx_irq_pending = false;
  tx_bytes = 0;
}

-- `x & flag != 0`
abbrev pub has : ℕ → ℕ → Bool
has x flag = not (bit_and x flag == 0)

unfoldable pub maybe_raise_tx_irq : Bool → Uart → Uart × Bool
maybe_raise_tx_irq wired u =
    if not wired
    then (u, false)
    else if not (has u.ier ier_etbei) || u.tx_irq_pending
    then (u, false)
    else (record u { tx_irq_pending = true }, true)

-- Register 0 with DLAB clear.
unfoldable pub transmit : Bool → Uart → ℕ → Uart × List ℕ × Bool
unfolding maybe_raise_tx_irq
transmit wired u v =
    let (u', irq) = maybe_raise_tx_irq wired (record u { tx_bytes = u64 (u.tx_bytes + 1) }) in
    (u', v ∷ [], irq)

-- Register 1 with DLAB clear.
unfoldable pub write_ier : Bool → Uart → ℕ → Uart × List ℕ × Bool
unfolding maybe_raise_tx_irq
write_ier wired u v =
    let set = record u { ier = v } in
    let (u', irq) =
      if not (has u.ier ier_etbei) && has v ier_etbei
      then maybe_raise_tx_irq wired set
      else (set, false) in
    ((if has v ier_etbei then u' else record u' { tx_irq_pending = false }), [], irq)

unfoldable pub write_reg : Bool → ℕ → Uart → IoAccess → Uart × List ℕ × Bool
unfolding transmit write_ier
write_reg wired base u acc =
    let off = sub16 acc.port base in
    let v = acc.value % 256 in
    if off == 0
    then (if has u.lcr lcr_dlab then (record u { dll = v }, [], false) else transmit wired u v)
    else if off == 1
    then (if has u.lcr lcr_dlab then (record u { dlm = v }, [], false) else write_ier wired u v)
    else if off == 2
    then (record u { fcr = v }, [], false)
    else if off == 3
    then (record u { lcr = v }, [], false)
    else if off == 4
    then (record u { mcr = v }, [], false)
    else if off == 7
    then (record u { scr = v }, [], false)
    else (u, [], false)

-- The registers afterwards and the byte read; only register 2 has an effect.
unfoldable pub read_reg : ℕ → Uart → IoAccess → Uart × ℕ
read_reg base u acc =
    let off = sub16 acc.port base in
    if off == 0 && has u.lcr lcr_dlab
    then (u, u.dll)
    else if off == 1
    then (u, if has u.lcr lcr_dlab then u.dlm else u.ier)
    else if off == 2
    then (if u.tx_irq_pending
        then (record u { tx_irq_pending = false }, iir_thre_intr)
        else (u, iir_no_intr))
    else if off == 3
    then (u, u.lcr)
    else if off == 4
    then (u, u.mcr)
    else if off == 5
    then (u, lsr_always_ready)
    else if off == 6
    then (u, msr_default)
    else if off == 7
    then (u, u.scr)
    else (u, 0)

pub record Outcome : Type 0 where
  pub uart : Uart
  pub answer : IoAccess
  pub sent : List ℕ
  pub irq : Bool

unfoldable pub handle : Bool → ℕ → Uart → IoAccess → Outcome
unfolding write_reg read_reg
handle wired base u acc =
    if acc.is_write
    then (let (u', sent, irq) = write_reg wired base u acc in
        record { uart = u'; answer = acc; sent = sent; irq = irq })
    else (let (u', v) = read_reg base u acc in
        record { uart = u'; answer = record acc { value = v }; sent = []; irq = false })
