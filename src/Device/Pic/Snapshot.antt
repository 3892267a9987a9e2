-- ===== src/Device/Pic/Snapshot.antt =====
-- The 10 bytes in which src/devices/pic.rs saves the pair, 5 for each chip.
use tinyvmm.Prelude.{
  ℕ, ◌≡◌, ◌<◌, not, List, [], ◌∷◌, ◌++◌, ◌+◌, length, get_or, ltb, ◌==◌, if◌then◌else◌, arith,
}
use tinyvmm.Device.Pic.{IcwStep, Chip, Pair}

abbrev pub step_byte : IcwStep → ℕ
step_byte IcwStep.idle = 0
step_byte IcwStep.icw2 = 1
step_byte IcwStep.icw3 = 2
step_byte IcwStep.icw4 = 3

abbrev pub byte_step : ℕ → IcwStep
byte_step n =
    if n == 1
    then IcwStep.icw2
    else if n == 2
    then IcwStep.icw3
    else if n == 3
    then IcwStep.icw4
    else IcwStep.idle

abbrev pub chip_bytes : Chip → List ℕ → List ℕ
chip_bytes c rest =
    c.vector_base ∷ c.mask ∷ c.irr ∷ (if c.expect_icw4 then 1 else 0) ∷ step_byte c.step ∷ rest

unfoldable pub snapshot_capture : Pair → List ℕ
snapshot_capture p = chip_bytes p.master (chip_bytes p.slave [])

abbrev pub chip_at : List ℕ → ℕ → Chip
chip_at bytes o = record {
  vector_base = get_or bytes o 0;
  mask = get_or bytes (o + 1) 0;
  irr = get_or bytes (o + 2) 0;
  expect_icw4 = not (get_or bytes (o + 3) 0 == 0);
  step = byte_step (get_or bytes (o + 4) 0);
}

-- Fewer than 10 bytes change nothing.
unfoldable pub snapshot_apply : Pair → List ℕ → Pair
snapshot_apply p bytes =
    if ltb (length bytes) 10
    then p
    else record { master = chip_at bytes 0; slave = chip_at bytes 5 }

-- Applying a capture, with anything behind it, to any pair gives the captured pair: masks, latched
-- requests and a half-done initialisation included. A shorter snapshot is ignored.
pub snapshot_apply-capture :
    (p q : Pair) (rest short : List ℕ)
    → length short < 10
    → (snapshot_apply q (snapshot_capture p ++ rest) ≡ p) × (snapshot_apply q short ≡ q)
unfolding snapshot_apply snapshot_capture
snapshot_apply-capture p q rest short h = (ground arith, ground arith)
