-- ===== src/Virtio/Transport/Contract.antt =====
-- What src/virtio/transport.rs promises the device of every call: an invariant of the device that the
-- calls with sound arguments keep is kept by every access of the guest.
use tinyvmm.Prelude.{
  ℕ, ◌+◌, ◌*◌, ◌/◌, ◌%◌, ◌<◌, inl, inr, Bool, not, ◌&&◌, List, length-map, ltb, ◌==◌, bit_and, u32,
  sub64, u8, u16, arith, Bool-cases, Option-cases, min, take, from_le_bytes,
}
use tinyvmm.Device.MmioBus.{MmioAccess}
use tinyvmm.Virtio.Transport.{
  VirtioDevice, Common, Transport, default_queue, selected, aligned, low, high, off_common,
}
use tinyvmm.Virtio.Transport.CommonCfg.{
  reset_common, accept_features, apply_status_write, write_status, write_queue_enable, read_cc32,
  write_cc32, with_common,
}
use tinyvmm.Virtio.Transport.Handlers.{merge_dword, write_common_cfg, handle_common_cfg}
use tinyvmm.Virtio.Transport.Sizes.{
  get_elem?-lt, SizesOk-reset, Enabling, Sized, with_queue-Sized, selected-SizeOk,
  write_queue_size-Sized, write_queue_dword-Sized, write_driver_feature-Sized, enabling,
}

module _ {ℓ} {D : Type ℓ} (device : VirtioDevice D) where
  -- A predicate on device states that every call keeps, `enable_queue` with arguments as above.
  pub record IsKept {κ} (n : ℕ) (P : D → Type κ) : Type (ℓ ⊔ κ) where
    pub features_kept : (acked : ℕ) (d : D) → P d → P (device.set_driver_features acked d).0
    pub enable_kept :
        (i desc driver used size : ℕ) (event_idx : Bool) (d : D)
        → Enabling device n i desc driver used size
        → P d
        → P (device.enable_queue i desc driver used size event_idx d)
    pub disable_kept : (i : ℕ) (d : D) → i < n → P d → P (device.disable_queue i d)
    pub driver_ok_kept : (d : D) → P d → P (device.driver_ok d)
    pub reset_kept : (d : D) → P d → P (device.reset d)

  module _ {κ} {P : D → Type κ} {n : ℕ} (kept : IsKept n P) where
    -- The device's predicate, the number of queues and their sizes.
    pub record Good (t : Transport D) : Type κ where
      pub safe : P t.dev
      pub sized : Sized device n t.common

    accept_features-kept : (t : Transport D) (s : ℕ) → P t.dev → P (accept_features device t s).0
    unfolding accept_features
    accept_features-kept t s p = ground (arith, kept.features_kept t.common.driver_features t.dev p)

    apply_status_write-Good :
        (t : Transport D) (s : ℕ) → Good t → Good (apply_status_write device t s)
    unfolding apply_status_write reset_common
    apply_status_write-Good t s g = elim (Bool-cases (s == 0)) [
      | inl e ↦ rw e record {
        safe = kept.reset_kept t.dev g.safe;
        sized = (
          ground (arith, g.sized, length-map t.common.queues (λ q. default_queue)),
          SizesOk-reset device 0 t.common.queues,
        );
      }
      | inr e ↦
          let p = accept_features-kept t s g.safe in
          rw e record {
            safe = ground (arith, kept.driver_ok_kept (accept_features device t s).0 p);
            sized = (ground (arith, g.sized), ground (arith, g.sized));
          }
    ]

    write_queue_enable-Good :
        (t : Transport D) (v : ℕ) → Good t → Good (write_queue_enable device t v)
    unfolding write_queue_enable
    write_queue_enable-Good t v g = elim (Option-cases (selected t.common)) [
      | inl e ↦ rw (e, write_queue_enable) g
      | inr (q, e) ↦
          let ok =
            with_queue-Sized device n t.common (record q { enable = u16 v }) g.sized
              (selected-SizeOk device n t.common g.sized e) in
          let known : t.common.queue_select < n =
            ground (arith, g.sized, get_elem?-lt t.common.queues t.common.queue_select e) in
          elim (Bool-cases (not (u16 v == 0) && not (q.size == 0) && aligned q)) [
            | inl c ↦
                let legal = enabling device n t.common g.sized e (ground arith) (ground arith) in
                rw (e, write_queue_enable, c)
                  record { safe = kept.enable_kept _ _ _ _ _ _ t.dev legal g.safe; sized = ok }
            | inr c ↦ elim (Bool-cases (u16 v == 0)) [
              | inl z ↦
                  rw (e, write_queue_enable, c, z)
                    record { safe = kept.disable_kept _ t.dev known g.safe; sized = ok }
              | inr z ↦ rw (e, write_queue_enable, c, z) record { safe = g.safe; sized = ok }
            ]
          ]
    ]

    common-Good :
        (t : Transport D) {c : Common} → Good t → Sized device n c → Good (with_common t c)
    common-Good t g ok = record { safe = g.safe; sized = ok }

    write_status-Good : (t : Transport D) (v : ℕ) → Good t → Good (write_status device t v)
    unfolding write_status
    write_status-Good t v g = elim (Bool-cases (u8 v == t.common.status)) [
      | inl e ↦ rw (e, write_status) (common-Good t g g.sized)
      | inr e ↦
          let g' = apply_status_write-Good t (u8 v) g in
          rw (e, write_status) (common-Good (apply_status_write device t (u8 v)) g' g'.sized)
    ]

    write_cc32-Good : (t : Transport D) (off v : ℕ) → Good t → Good (write_cc32 device t off v)
    unfolding write_cc32
    write_cc32-Good t off v g =
        let status = write_status-Good t v g in
        let enable = write_queue_enable-Good t v g in
        let feature = write_driver_feature-Sized device n t.common v g.sized in
        let size = write_queue_size-Sized device n t.common v g.sized in
        let dword = write_queue_dword-Sized device n t.common off v g.sized in
        record {
          safe = ground (arith, g.safe, status.safe, enable.safe);
          sized = (
            ground (arith, g.sized.0, status.sized.0, enable.sized.0, feature.0, size.0, dword.0),
            ground (arith, g.sized.1, status.sized.1, enable.sized.1, feature.1, size.1, dword.1),
          );
        }

    write_common_cfg-Good :
        (t : Transport D) (off sz : ℕ) (bytes : List ℕ)
        → Good t
        → Good (write_common_cfg device t off sz bytes)
    unfolding write_common_cfg
    write_common_cfg-Good t off sz bytes g =
        let wide = from_le_bytes bytes in
        let at = off / 4 * 4 in
        let v = from_le_bytes (take (min sz 4) bytes) in
        let merged = merge_dword (read_cc32 device t at) sz (off % 4 * 8) v in
        elim (Bool-cases (sz == 8 && bit_and off 7 == 0)) [
          | inl e ↦
              let first = write_cc32-Good t off (low wide) g in
              rw (e, write_common_cfg)
                (write_cc32-Good (write_cc32 device t off (low wide)) (off + 4) (high wide) first)
          | inr e ↦ elim (Bool-cases (ltb sz 4)) [
            | inl l ↦ rw (e, l, write_common_cfg) (write_cc32-Good t at merged g)
            | inr l ↦ rw (e, l, write_common_cfg) (write_cc32-Good t at v g)
          ]
        ]

    -- Whatever the driver writes to or reads from the common configuration, any predicate on the
    -- device's states that its calls keep, `enable_queue` being called only for a queue that exists,
    -- with a size that is a power of two within the queue's maximum and with aligned rings, still
    -- holds, if it held before; and so do the bounds on the sizes that the transport keeps.
    pub handle_common_cfg-Good :
        (acc : MmioAccess) (t : Transport D) → Good t → Good (handle_common_cfg device acc t).1
    unfolding handle_common_cfg
    handle_common_cfg-Good acc t g = elim (Bool-cases acc.is_write) [
      | inl e ↦
          simp (e, handle_common_cfg)
            (write_common_cfg-Good t (u32 (sub64 acc.gpa (t.bar_gpa + off_common))) acc.access_size
              acc.bytes g)
      | inr e ↦ simp (e, handle_common_cfg) g
    ]
