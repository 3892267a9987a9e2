-- ===== src/Virtio/Transport/Features.antt =====
-- The negotiation of features by src/virtio/transport.rs: the driver sets FEATURES_OK and the device
-- accepts or refuses.
use tinyvmm.Prelude.{
  ℕ, ◌-◌, ◌<◌, ◌≡◌, ◌≢◌, Bool, true, false, List, inl, inr, ◌==◌, if◌then◌else◌, bit, bit_and,
  bit_or, min, max, arith, refl, ap, ◌∙◌, Bool-cases, bit-lt, bit-bit_and, bit-bit_or,
  bit-complement, bit-pow_ne, bit_and-pow_eq_zero,
}
use tinyvmm.Virtio.Transport.{VirtioDevice, Transport, status_features_ok, status_needs_reset}
use tinyvmm.Virtio.Transport.CommonCfg.{accept_features, apply_status_write}
use tinyvmm.Virtio.Transport.Status.{Words, write_status_byte, changed, write_status_byte-changed}
use native.Mathlib.Decide.{ℕ_discrete}

-- Bit `k` of the status after FEATURES_OK was written.
abbrev pub answered : Bool → ℕ → ℕ → ℕ
answered ok s k = if ok then bit k s else if k == 3 then 0 else if k == 6 then 1 else bit k s

module _ {ℓ} {D : Type ℓ} (device : VirtioDevice D) where
  abbrev pub answer : Transport D → D × Bool
  answer t = device.set_driver_features t.common.driver_features t.dev

  adding_lem :
      (s old : ℕ)
      → old < 256
      → bit 3 s ≡ 1
      → bit 3 old ≡ 0
      → (bit_and (bit_and s (255 - old)) status_features_ok == 0) ≡ false
  adding_lem s old w on off = bit_and-pow_eq_zero 3 (bit_and s (255 - old)) ∙ ap (λ b. b == 0) step
    where
      step : bit 3 (bit_and s (255 - old)) ≡ 1
      step = omega (arith, bit-bit_and 3 s (255 - old), bit-complement 8 3 old w (omega arith))

  refused_bit :
      (s k : ℕ)
      → k < 8
      → bit k (bit_or (bit_and s (255 - status_features_ok)) status_needs_reset)
        ≡ answered false s k
  refused_bit s k h = elim (ℕ_discrete k 3) [
    | yes e ↦ rw e (omega (arith, bits 3, bit-complement 8 3 8 (omega arith) (omega arith)))
    | no a ↦ elim (ℕ_discrete k 6) [
      | yes e ↦ rw e (omega (arith, bits 6, bit-lt 6 (bit_and s 247)))
      | no b ↦ ground (
        arith,
        bits k,
        bit-complement 8 k 8 (omega arith) h,
        bit-pow_ne k 3 a,
        bit-pow_ne k 6 b,
        bit-lt k s,
      )
    ]
  ]
    where
      bits :
          (k : ℕ) → bit k (bit_or (bit_and s 247) 64) ≡ max (min (bit k s) (bit k 247)) (bit k 64)
      bits k = omega (arith, bit-bit_or k (bit_and s 247) 64, bit-bit_and k s 247)

  abbrev accepted_status : Bool → ℕ → ℕ
  accepted_status ok s =
      if ok then s else bit_or (bit_and s (255 - status_features_ok)) status_needs_reset

  status-apply :
      (t : Transport D) (s : ℕ)
      → s ≢ 0
      → (apply_status_write device t s).common.status ≡ (accept_features device t s).1
  unfolding apply_status_write
  status-apply t s h = ground (arith, h)

  accepted :
      (t : Transport D) (s : ℕ)
      → Words t.common
      → bit 3 s ≡ 1
      → bit 3 t.common.status ≡ 0
      → (accept_features device t s).1 ≡ accepted_status (answer t).1 s
  unfolding accept_features
  accepted t s w on off = elim (Bool-cases (answer t).1) [
    | inl ok ↦ simp (adding_lem s t.common.status w.0 on off, ok) refl
    | inr ok ↦ simp (adding_lem s t.common.status w.0 on off, ok) refl
  ]

  -- The driver sets FEATURES_OK, which was clear, in a status byte that is not 0. If the device accepts
  -- the features that it was given, the status is the one written. If it refuses, FEATURES_OK is clear in it,
  -- NEEDS_RESET is set, and the other bits are as written.
  pub features_lem :
      (t : Transport D) (s : ℕ) (rest : List ℕ) (k : ℕ)
      → Words t.common
      → s < 256
      → bit 3 s ≡ 1
      → bit 3 t.common.status ≡ 0
      → k < 8
      → bit k (write_status_byte device t s rest).common.status ≡ answered (answer t).1 s k
  unfolding changed
  features_lem t s rest k w h on off l =
      ap (λ (u : Transport D). bit k u.common.status)
        (write_status_byte-changed device t s rest w h (λ e. ground (arith, on, off)))
      ∙ ap (bit k) (status-apply t s (λ e. ground (arith, on)) ∙ accepted t s w on off)
      ∙ answered_lem (answer t).1
    where
      answered_lem : (ok : Bool) → bit k (accepted_status ok s) ≡ answered ok s k
      answered_lem true = refl
      answered_lem false = refused_bit s k l
