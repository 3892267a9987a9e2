-- ===== src/Device/Serial/Snapshot.antt =====
-- The 16 bytes in which src/devices/serial.rs saves the UART.
use tinyvmm.Prelude.{
  ℕ, ◌^◌, ◌<◌, ◌≡◌, not, List, ◌∷◌, ◌++◌, length, get_or, take, drop, ltb, ◌==◌, if◌then◌else◌,
  arith, to_le_bytes, from_le_bytes, from_le_bytes-to_le_bytes,
}
use tinyvmm.Device.Serial.{Uart}

unfoldable pub snapshot_capture : Uart → List ℕ
snapshot_capture u =
    u.ier
    ∷ u.lcr
    ∷ u.mcr
    ∷ u.scr
    ∷ u.fcr
    ∷ u.dll
    ∷ u.dlm
    ∷ (if u.tx_irq_pending then 1 else 0)
    ∷ to_le_bytes 8 u.tx_bytes

-- Fewer than 16 bytes change nothing.
unfoldable pub snapshot_apply : Uart → List ℕ → Uart
snapshot_apply u b = if ltb (length b) 16 then u else record {
  ier = get_or b 0 0;
  lcr = get_or b 1 0;
  mcr = get_or b 2 0;
  scr = get_or b 3 0;
  fcr = get_or b 4 0;
  dll = get_or b 5 0;
  dlm = get_or b 6 0;
  tx_irq_pending = not (get_or b 7 0 == 0);
  tx_bytes = from_le_bytes (take 8 (drop 8 b));
}

-- Applying a captured UART, with anything behind it, to any other gives it back, a pending interrupt
-- included, if its counter fits 64 bits. A shorter snapshot is ignored.
pub snapshot_apply-snapshot_capture :
    (u v : Uart) (rest short : List ℕ)
    → u.tx_bytes < 2 ^ 64
    → length short < 16
    → (snapshot_apply v (snapshot_capture u ++ rest) ≡ u) × (snapshot_apply v short ≡ v)
unfolding snapshot_apply snapshot_capture
snapshot_apply-snapshot_capture u v rest short f h =
    (ground (arith, from_le_bytes-to_le_bytes 8 u.tx_bytes f), ground arith)
