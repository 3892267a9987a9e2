-- ===== src/Device/Serial/Console.antt =====
-- What src/devices/serial.rs sends to the console.
use tinyvmm.Prelude.{
  ℕ, ◌+◌, ◌%◌, ◌≡◌, Bool, not, ◌&&◌, List, [], ◌∷◌, ◌++◌, length, length-append, ◌==◌,
  if◌then◌else◌, arith, refl, ◌∙◌, sub16, u64,
}
use tinyvmm.Device.IoBus.{IoAccess}
use tinyvmm.Device.Serial.{
  Uart, lcr_dlab, has, maybe_raise_tx_irq, transmit, write_ier, write_reg, read_reg, handle,
}

-- The registers after a sequence of accesses, and all that it sent.
abbrev pub run : Bool → ℕ → Uart → List IoAccess → Uart × List ℕ
run wired base u [] = (u, [])
run wired base u (a ∷ accs) =
    let r = handle wired base u a in
    let (u', sent) = run wired base r.uart accs in (u', r.sent ++ sent)

-- The divisor latch is open after the access.
abbrev pub latch_after : ℕ → Bool → IoAccess → Bool
latch_after base dlab a =
    if a.is_write && sub16 a.port base == 3 then has (a.value % 256) lcr_dlab else dlab

-- The console as the driver means it: the bytes written to register 0 while the latch is closed.
abbrev pub console : ℕ → Bool → List IoAccess → List ℕ
console base dlab [] = []
console base dlab (a ∷ accs) =
    let rest = console base (latch_after base dlab a) accs in
    if a.is_write && sub16 a.port base == 0 && not dlab then a.value % 256 ∷ rest else rest

one_access :
    (wired : Bool) (base : ℕ) (u : Uart) (a : IoAccess) (rest : List ℕ)
    → let r = handle wired base u a in
      (r.sent ++ rest ≡ (
        if a.is_write && sub16 a.port base == 0 && not (has u.lcr lcr_dlab)
        then a.value % 256 ∷ rest
        else rest))
      × (has r.uart.lcr lcr_dlab ≡ latch_after base (has u.lcr lcr_dlab) a)
      × (u64 (u.tx_bytes + length r.sent) ≡ u64 r.uart.tx_bytes)
unfolding handle write_reg read_reg transmit write_ier maybe_raise_tx_irq
one_access wired base u a rest = ground arith

-- The console shows exactly the bytes that the driver wrote to register 0 while the divisor latch was
-- closed, in their order, and `tx_bytes` counts them, modulo 2^64; interrupts make no difference.
pub run-console :
    (wired : Bool) (base : ℕ) (u : Uart) (accs : List IoAccess)
    → ((run wired base u accs).1 ≡ console base (has u.lcr lcr_dlab) accs)
      × (u64 (u.tx_bytes + length (run wired base u accs).1)
          ≡ u64 (run wired base u accs).0.tx_bytes)
run-console wired base u [] = ground arith
run-console wired base u (a ∷ accs) =
    let r = handle wired base u a in
    let ih = run-console wired base r.uart accs in
    let one = one_access wired base u a (run wired base r.uart accs).1 in
    (
      one.0 ∙ rw (ih.0, one.1) refl,
      omega (arith, length-append r.sent (run wired base r.uart accs).1, one.2, ih.1),
    )
