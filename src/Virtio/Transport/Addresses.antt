-- ===== src/Virtio/Transport/Addresses.antt =====
-- The ring addresses of a queue in the common configuration of src/virtio/transport.rs: 64-bit registers
-- that the driver programs by one access of 8 bytes, served as two dwords.
use tinyvmm.Prelude.{
  ℕ, zero, suc, ◌+◌, ◌*◌, ◌^◌, ◌<◌, ◌≡◌, ◌≢◌, some, List, [], ◌∷◌, set, get_elem?-set_self, bit_or,
  to_le_bytes, from_le_bytes, from_le_bytes-to_le_bytes, arith, refl, ap, ap₂, ◌∙◌, bit_or-disjoint,
}
use tinyvmm.Virtio.Transport.{
  VirtioDevice, QueueState, Common, Transport, selected, with_queue, queue_dword, set_queue_dword,
  low, high, cc_queue_desc, cc_queue_driver, cc_queue_device,
}
use tinyvmm.Virtio.Transport.CommonCfg.{
  read_cc32, guest_read_cc32, read_queue_size, read_queue_enable, read_queue_dword,
  write_queue_dword, write_cc32, with_common,
}
use tinyvmm.Virtio.Transport.Handlers.{write_common_cfg, read_common_cfg}
use tinyvmm.Virtio.Transport.Dwords.{with_high-with_low}
use tinyvmm.Virtio.Transport.Sizes.{get_elem?-lt}

-- The three addresses of a queue.
pub data Ring : Type 0 where
  descriptors : Ring
  available : Ring
  used : Ring

abbrev pub register_of : Ring → ℕ
register_of Ring.descriptors = cc_queue_desc
register_of Ring.available = cc_queue_driver
register_of Ring.used = cc_queue_device

abbrev pub address : Ring → QueueState → ℕ
address Ring.descriptors q = q.desc
address Ring.available q = q.driver
address Ring.used q = q.device

abbrev pub programmed : Ring → QueueState → ℕ → QueueState
programmed Ring.descriptors q v = record q { desc = v }
programmed Ring.available q v = record q { driver = v }
programmed Ring.used q v = record q { device = v }

programmed-fields :
    (r : Ring) (q : QueueState) (v : ℕ)
    → let p = programmed r q v in
      (p.size ≡ q.size) × (p.msix_vector ≡ q.msix_vector) × (p.enable ≡ q.enable)
programmed-fields Ring.descriptors q v = (refl, refl, refl)
programmed-fields Ring.available q v = (refl, refl, refl)
programmed-fields Ring.used q v = (refl, refl, refl)

set-set : (qs : List QueueState) (i : ℕ) (a b : QueueState) → set (set qs i a) i b ≡ set qs i b
set-set [] i a b = refl
set-set (q ∷ qs) zero a b = refl
set-set (q ∷ qs) (suc i) a b = ap (λ r. q ∷ r) (set-set qs i a b)

set_queue_dword-both :
    (r : Ring) (q : QueueState) (v : ℕ)
    → v < 2 ^ 64
    → set_queue_dword (set_queue_dword q (register_of r) (low v)) (register_of r + 4) (high v)
      ≡ programmed r q v
unfolding set_queue_dword
set_queue_dword-both Ring.descriptors q v h =
    ap (λ x. record q { desc = x }) (with_high-with_low q.desc v h)
set_queue_dword-both Ring.available q v h =
    ap (λ x. record q { driver = x }) (with_high-with_low q.driver v h)
set_queue_dword-both Ring.used q v h =
    ap (λ x. record q { device = x }) (with_high-with_low q.device v h)

-- Reading the two dwords back, and every other.
queue_dword-programmed :
    (r : Ring) (q : QueueState) (v : ℕ)
    → (queue_dword (programmed r q v) (register_of r) ≡ some (low v))
      × (queue_dword (programmed r q v) (register_of r + 4) ≡ some (high v))
unfolding queue_dword
queue_dword-programmed Ring.descriptors q v = (refl, refl)
queue_dword-programmed Ring.available q v = (refl, refl)
queue_dword-programmed Ring.used q v = (refl, refl)

queue_dword-other :
    (r : Ring) (q : QueueState) (v off : ℕ)
    → off ≢ register_of r
    → off ≢ register_of r + 4
    → queue_dword (programmed r q v) off ≡ queue_dword q off
unfolding queue_dword
queue_dword-other Ring.descriptors q v off h l = ground arith
queue_dword-other Ring.available q v off h l = ground arith
queue_dword-other Ring.used q v off h l = ground arith

selected-with_queue :
    (c : Common) {q : QueueState} (p : QueueState)
    → selected c ≡ some q
    → selected (with_queue c p) ≡ some p
selected-with_queue c p e =
    get_elem?-set_self c.queues c.queue_select p (get_elem?-lt c.queues c.queue_select e)

write_queue_dword-selected :
    (c : Common) {q : QueueState} (off v : ℕ)
    → selected c ≡ some q
    → write_queue_dword c off v ≡ with_queue c (set_queue_dword q off v)
unfolding write_queue_dword
write_queue_dword-selected c off v e = rw (e, write_queue_dword) refl

write_queue_dword-both :
    (r : Ring) (c : Common) {q : QueueState} (v : ℕ)
    → selected c ≡ some q
    → v < 2 ^ 64
    → write_queue_dword (write_queue_dword c (register_of r) (low v)) (register_of r + 4) (high v)
      ≡ with_queue c (programmed r q v)
write_queue_dword-both r c {q} v e h =
    ap (λ d. write_queue_dword d (register_of r + 4) (high v))
      (write_queue_dword-selected c (register_of r) (low v) e)
    ∙ write_queue_dword-selected (with_queue c once) (register_of r + 4) (high v)
        (selected-with_queue c once e)
    ∙ ap (λ qs. record c { queues = qs }) (set-set c.queues c.queue_select once _)
    ∙ ap (with_queue c) (set_queue_dword-both r q v h)
  where
    once : QueueState
    once = set_queue_dword q (register_of r) (low v)

module _ {ℓ} {D : Type ℓ} (device : VirtioDevice D) where
  write_cc32-address :
      (r : Ring) (t : Transport D) (v : ℕ)
      → (write_cc32 device t (register_of r) v
          ≡ with_common t (write_queue_dword t.common (register_of r) v))
        × (write_cc32 device t (register_of r + 4) v
            ≡ with_common t (write_queue_dword t.common (register_of r + 4) v))
  unfolding write_cc32
  write_cc32-address Ring.descriptors t v = (refl, refl)
  write_cc32-address Ring.available t v = (refl, refl)
  write_cc32-address Ring.used t v = (refl, refl)

  read_cc32-address :
      (r : Ring) (t : Transport D)
      → (guest_read_cc32 device t (register_of r) ≡ read_queue_dword t.common (register_of r))
        × (guest_read_cc32 device t (register_of r + 4)
            ≡ read_queue_dword t.common (register_of r + 4))
  unfolding guest_read_cc32 read_cc32
  read_cc32-address Ring.descriptors t = (refl, refl)
  read_cc32-address Ring.available t = (refl, refl)
  read_cc32-address Ring.used t = (refl, refl)

  -- An access of 8 bytes at the register.
  write_common_cfg-wide :
      (r : Ring) (t : Transport D) (bytes : List ℕ)
      → write_common_cfg device t (register_of r) 8 bytes
        ≡ write_cc32 device
            (write_cc32 device t (register_of r) (low (from_le_bytes bytes)))
            (register_of r + 4)
            (high (from_le_bytes bytes))
  unfolding write_common_cfg
  write_common_cfg-wide Ring.descriptors t bytes = refl
  write_common_cfg-wide Ring.available t bytes = refl
  write_common_cfg-wide Ring.used t bytes = refl

  read_common_cfg-wide :
      (r : Ring) (t : Transport D)
      → read_common_cfg device t (register_of r) 8
        ≡ to_le_bytes 8 (
            bit_or
              (guest_read_cc32 device t (register_of r))
              (guest_read_cc32 device t (register_of r + 4) * 2 ^ 32))
  unfolding read_common_cfg
  read_common_cfg-wide Ring.descriptors t = refl
  read_common_cfg-wide Ring.available t = refl
  read_common_cfg-wide Ring.used t = refl

  module _ (r : Ring) (t : Transport D) {q : QueueState} (e : selected t.common ≡ some q) (v : ℕ)
      (h : v < 2 ^ 64) where
    abbrev after : Transport D
    after = with_common t (with_queue t.common (programmed r q v))

    wide :
        write_cc32 device (write_cc32 device t (register_of r) (low v)) (register_of r + 4) (high v)
        ≡ after
    wide =
        ap (λ u. write_cc32 device u (register_of r + 4) (high v))
          (write_cc32-address r t (low v)).0
        ∙ (write_cc32-address r (with_common t (write_queue_dword t.common (register_of r) (low v)))
            (high v)).1
        ∙ ap (with_common t) (write_queue_dword-both r t.common v e h)

    read_back :
        (off d : ℕ)
        → queue_dword (programmed r q v) off ≡ some d
        → read_queue_dword after.common off ≡ d
    unfolding read_queue_dword
    read_back off d f =
        rw (selected-with_queue t.common (programmed r q v) e, f, read_queue_dword) refl

    same_size :
        (p : QueueState)
        → p.size ≡ q.size
        → p.msix_vector ≡ q.msix_vector
        → read_queue_size device (with_queue t.common p) ≡ read_queue_size device t.common
    unfolding read_queue_size
    same_size p f g = rw (selected-with_queue t.common p e, e, f, g, read_queue_size) refl

    same_enable :
        (p : QueueState)
        → p.enable ≡ q.enable
        → read_queue_enable (with_queue t.common p) ≡ read_queue_enable t.common
    unfolding read_queue_enable
    same_enable p f = rw (selected-with_queue t.common p e, e, f) refl

    same_dword :
        (off : ℕ)
        → off ≢ register_of r
        → off ≢ register_of r + 4
        → read_queue_dword after.common off ≡ read_queue_dword t.common off
    unfolding read_queue_dword
    same_dword off n m =
        rw
          (
            selected-with_queue t.common (programmed r q v) e,
            e,
            queue_dword-other r q v off n m,
            read_queue_dword,
          )
          refl

    -- Every other dword that the driver can read is unchanged.
    frame :
        (off : ℕ)
        → off ≢ register_of r
        → off ≢ register_of r + 4
        → guest_read_cc32 device after off ≡ guest_read_cc32 device t off
    unfolding guest_read_cc32 read_cc32
    frame off n m =
        let (size, vector, enable) = programmed-fields r q v in
        rw
          (
            same_size (programmed r q v) size vector,
            same_enable (programmed r q v) enable,
            same_dword off n m,
          )
          refl

    written : write_common_cfg device t (register_of r) 8 (to_le_bytes 8 v) ≡ after
    written =
        write_common_cfg-wide r t (to_le_bytes 8 v)
        ∙ ap
            (λ w.
              write_cc32 device (write_cc32 device t (register_of r) (low w)) (register_of r + 4)
                (high w))
            (from_le_bytes-to_le_bytes 8 v h)
        ∙ wide

    halves : bit_or (low v) (high v * 2 ^ 32) ≡ v
    halves = bit_or-disjoint 32 (low v) (high v) (omega arith) ∙ omega arith

    shown_back : read_common_cfg device after (register_of r) 8 ≡ to_le_bytes 8 v
    shown_back =
        let dwords = queue_dword-programmed r q v in
        let at = read_cc32-address r after in
        read_common_cfg-wide r after
        ∙ ap (to_le_bytes 8) (
            ap₂ (λ lo hi. bit_or lo (hi * 2 ^ 32))
              (at.0 ∙ read_back (register_of r) (low v) dwords.0)
              (at.1 ∙ read_back (register_of r + 4) (high v) dwords.1)
            ∙ halves)

    -- The driver programs an address of the selected queue, which exists, by one write of 8 bytes. Its
    -- read of 8 bytes then gives the bytes that it wrote, and every other dword of the common
    -- configuration reads as before.
    pub queue_address-roundtrip :
        (off : ℕ)
        → off ≢ register_of r
        → off ≢ register_of r + 4
        → let t' = write_common_cfg device t (register_of r) 8 (to_le_bytes 8 v) in
          (read_common_cfg device t' (register_of r) 8 ≡ to_le_bytes 8 v)
          × (guest_read_cc32 device t' off ≡ guest_read_cc32 device t off)
    queue_address-roundtrip off n m = (
      ap (λ u. read_common_cfg device u (register_of r) 8) written ∙ shown_back,
      ap (λ u. guest_read_cc32 device u off) written ∙ frame off n m,
    )
