-- ===== src/Virtio/Transport/Status.antt =====
-- The device status register of src/virtio/transport.rs: resets and the negotiation of features, as the
-- driver sees them.
use tinyvmm.Prelude.{
  ℕ, zero, suc, ◌+◌, ◌*◌, ◌/◌, ◌^◌, ◌<◌, ◌≡◌, ◌≢◌, true, false, List, [], ◌∷◌, ◌++◌, map, take,
  replicate, from_le_bytes, ◌&&◌, not, inl, inr, ◌==◌, if◌then◌else◌, u8, u16, arith, refl, ap, ap₂,
  sym, ◌∙◌, Bool-cases,
}
use tinyvmm.Virtio.Transport.{VirtioDevice, Common, Transport, default_queue}
use tinyvmm.Virtio.Transport.CommonCfg.{
  status_dword, read_cc32, guest_read_cc32, reset_common, apply_status_write, write_status,
  write_cc32,
}
use tinyvmm.Virtio.Transport.Handlers.{merge_dword, write_common_cfg, read_common_cfg}
use tinyvmm.Virtio.Transport.Dwords.{status_dword_lem, merge_dword-low_byte, hidden-status}

-- The fields are words of their widths.
abbrev pub Words : Common → Type 0
Words c =
    (c.status < 256)
    × (c.reset_from < 256)
    × (c.config_generation < 256)
    × (c.queue_select < 2 ^ 16)

module _ {ℓ} {D : Type ℓ} (device : VirtioDevice D) where
  -- The driver's write of the status byte and its read of it.
  abbrev pub write_status_byte : Transport D → ℕ → List ℕ → Transport D
  write_status_byte t s rest = write_common_cfg device t 0x14 1 (s ∷ rest)

  abbrev pub status_byte : Transport D → ℕ
  status_byte t = from_le_bytes (take 1 (read_common_cfg device t 0x14 1))

  abbrev merged : Common → ℕ → ℕ
  merged c s = s + c.config_generation * 256 + c.queue_select * 2 ^ 16

  status_dword-lt : (c : Common) → Words c → status_dword c < 2 ^ 32
  status_dword-lt c w = omega (arith, status_dword_lem c w.0 w.2, w)

  write_status_byte_lem :
      (t : Transport D) (s : ℕ) (rest : List ℕ)
      → Words t.common
      → s < 256
      → write_status_byte t s rest ≡ write_status device t (merged t.common s)
  unfolding write_common_cfg write_cc32 read_cc32
  write_status_byte_lem t s rest w h = ap (write_status device t) step
    where
      step : merge_dword (status_dword t.common) 1 0 (s + 256 * 0) ≡ merged t.common s
      step =
          ap (merge_dword (status_dword t.common) 1 0) (omega arith)
          ∙ merge_dword-low_byte (status_dword t.common) s (status_dword-lt t.common w) h
          ∙ omega (arith, status_dword_lem t.common w.0 w.2)

  status_byte_lem :
      (t : Transport D)
      → Words t.common
      → status_byte t ≡ (
          if t.common.status == 0 && device.reset_pending t.dev
          then t.common.reset_from
          else t.common.status)
  unfolding read_common_cfg guest_read_cc32 read_cc32
  status_byte_lem t w = elim (Bool-cases (t.common.status == 0 && device.reset_pending t.dev)) [
    | inl e ↦ rw e (
        omega (
          arith,
          hidden-status (status_dword t.common) t.common.reset_from (status_dword-lt t.common w)
              w.1,
          w,
        ))
    | inr e ↦ rw e (omega (arith, status_dword_lem t.common w.0 w.2, w))
  ]

  -- The device's own steps between two reads of the driver that polls the status.
  abbrev pub reads : (D → D) → ℕ → Transport D → List ℕ
  reads settle zero t = []
  reads settle (suc n) t = status_byte t ∷ reads settle n (record t { dev = settle t.dev })

  -- The device's reset is pending for `n` of its steps, and not after them.
  abbrev pub SettlesAfter : (D → D) → ℕ → D → Type 0
  SettlesAfter settle zero d = device.reset_pending d ≡ false
  SettlesAfter settle (suc n) d = (device.reset_pending d ≡ true) × SettlesAfter settle n (settle d)

  -- What a reset leaves of the state: the selected queue stays selected.
  abbrev after_reset : Transport D → Transport D
  after_reset t = record t {
    common = record (reset_common t.common) { queue_select = t.common.queue_select };
    isr_status = 0;
    dev = device.reset t.dev;
  }

  -- The write of a status byte that differs from the status.
  unfoldable pub changed : Transport D → ℕ → Transport D
  changed t s =
      let t' = apply_status_write device t s in
      record t' { common = record t'.common { queue_select = t.common.queue_select } }

  write_status-merged :
      (t : Transport D) (s : ℕ)
      → Words t.common
      → s < 256
      → s ≢ t.common.status
      → write_status device t (merged t.common s) ≡ changed t s
  unfolding write_status changed
  write_status-merged t s w h ne =
      ap₂ select byte half
      ∙ ap (λ b. go (if not b then apply_status_write device t s else t) t.common.queue_select)
          differs
    where
      go : Transport D → ℕ → Transport D
      go t' q = record t' { common = record t'.common { queue_select = q } }

      select : ℕ → ℕ → Transport D
      select a q = go (if not (a == t.common.status) then apply_status_write device t a else t) q

      byte : u8 (merged t.common s) ≡ s
      byte = omega arith

      half : u16 (merged t.common s / 2 ^ 16) ≡ t.common.queue_select
      half = omega (arith, w)

      differs : (s == t.common.status) ≡ false
      differs = ground arith

  -- What the driver's write of a changed status byte does.
  pub write_status_byte-changed :
      (t : Transport D) (s : ℕ) (rest : List ℕ)
      → Words t.common
      → s < 256
      → s ≢ t.common.status
      → write_status_byte t s rest ≡ changed t s
  write_status_byte-changed t s rest w h ne =
      write_status_byte_lem t s rest w h ∙ write_status-merged t s w h ne

  write_status_byte-zero :
      (t : Transport D) (rest : List ℕ)
      → Words t.common
      → t.common.status ≢ 0
      → write_status_byte t 0 rest ≡ after_reset t
  unfolding changed apply_status_write
  write_status_byte-zero t rest w h =
      write_status_byte-changed t 0 rest w (omega arith) (λ e. h (sym e))

  after_reset-Words : (t : Transport D) → Words t.common → Words (after_reset t).common
  unfolding reset_common
  after_reset-Words t w = (omega arith, w.0, w.2, w.3)

  reads-after_reset :
      (settle : D → D) (n : ℕ) (t : Transport D)
      → Words t.common
      → t.common.status ≡ 0
      → SettlesAfter settle n t.dev
      → reads settle (suc n) t ≡ replicate n t.common.reset_from ++ (0 ∷ [])
  reads-after_reset settle zero t w z h = ap (λ b. b ∷ []) (status_byte_lem t w ∙ ground arith)
  reads-after_reset settle (suc n) t w z h =
      ap₂ (λ b bs. b ∷ bs) (status_byte_lem t w ∙ ground arith)
        (reads-after_reset settle n (record t { dev = settle t.dev }) w z h.1)

  -- A driver resets the device by writing 0 to a status that is not 0, and polls it. The device finishes
  -- the reset after `n` steps of its own: then the driver reads 0 at its poll `n + 1`, and at every poll
  -- before that the status that it had set.
  pub reads-reset :
      (settle : D → D) (n : ℕ) (t : Transport D) (rest : List ℕ)
      → Words t.common
      → t.common.status ≢ 0
      → SettlesAfter settle n (device.reset t.dev)
      → reads settle (suc n) (write_status_byte t 0 rest) ≡ replicate n t.common.status ++ (0 ∷ [])
  unfolding reset_common
  reads-reset settle n t rest w h settles =
      ap (reads settle (suc n)) (write_status_byte-zero t rest w h)
      ∙ reads-after_reset settle n (after_reset t) (after_reset-Words t w) refl settles

  -- A reset returns every register that the driver programmed to its default, the queues included, and
  -- clears the ISR status, but for the queue select: it keeps the value that it had.
  pub reset_lem :
      (t : Transport D) (rest : List ℕ)
      → Words t.common
      → t.common.status ≢ 0
      → let t' = write_status_byte t 0 rest in
        (t'.common.queues ≡ map (λ q. default_queue) t.common.queues)
        × (t'.common.driver_features ≡ 0)
        × (t'.common.device_feature_select ≡ 0)
        × (t'.common.driver_feature_select ≡ 0)
        × (t'.common.msix_config ≡ 0xffff)
        × (t'.common.status ≡ 0)
        × (t'.isr_status ≡ 0)
        × (t'.dev ≡ device.reset t.dev)
        × (t'.common.queue_select ≡ t.common.queue_select)
  unfolding reset_common
  reset_lem t rest w h =
      rw (write_status_byte-zero t rest w h) (refl, refl, refl, refl, refl, refl, refl, refl, refl)
