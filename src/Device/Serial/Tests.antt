-- ===== src/Device/Serial/Tests.antt =====
-- A driver that sets the divisor, enables the transmit interrupt and sends.
use tinyvmm.Prelude.{ℕ, ◌+◌, ◌≤◌, ◌≡◌, true, false, List, [], ◌∷◌, refl, u64, length}
use tinyvmm.Device.IoBus.{IoAccess}
use tinyvmm.Device.Serial.{
  Uart, new, lcr_dlab, has, maybe_raise_tx_irq, transmit, write_ier, write_reg, read_reg, handle,
}
use tinyvmm.Device.Serial.Interrupts.{count, raises, acknowledgements, raises_le}
use tinyvmm.Device.Serial.Console.{run, console, run-console}

abbrev com1 : ℕ
com1 = 0x3f8

abbrev write : ℕ → ℕ → IoAccess
write off v = record { port = 0x3f8 + off; access_size = 1; is_write = true; value = v }

abbrev read : ℕ → IoAccess
read off = record { port = 0x3f8 + off; access_size = 1; is_write = false; value = 0 }

abbrev session : List IoAccess
session =
    write 3 0x80
    ∷ write 0 1
    ∷ write 3 3
    ∷ write 1 2
    ∷ write 0 72
    ∷ read 2
    ∷ write 0 105
    ∷ write 0 33
    ∷ []

shows : (run true com1 new session).1 ≡ 72 ∷ 105 ∷ 33 ∷ []
unfolding new handle write_reg read_reg transmit write_ier maybe_raise_tx_irq
shows = refl

raised_twice : (raises true com1 new session ≡ 2) × (acknowledgements true com1 new session ≡ 1)
unfolding new handle write_reg read_reg transmit write_ier maybe_raise_tx_irq
raised_twice = (refl, refl)

raises_le_example :
    raises true com1 new session + count new.tx_irq_pending
    ≤ acknowledgements true com1 new session + 1
raises_le_example = raises_le true com1 new session

abbrev enabled : Uart
unfolding new
enabled = record new { ier = 2 }

run-console_example :
    ((run true com1 new session).1 ≡ console com1 (has new.lcr lcr_dlab) session)
    × (u64 (new.tx_bytes + length (run true com1 new session).1)
        ≡ u64 (run true com1 new session).0.tx_bytes)
run-console_example = run-console true com1 new session
