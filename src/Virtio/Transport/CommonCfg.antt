-- ===== src/Virtio/Transport/CommonCfg.antt =====
-- The dword registers of the common configuration of src/virtio/transport.rs: `read_cc32`, what the
-- driver reads while a reset settles, and `write_cc32`.
use tinyvmm.Prelude.{
  ℕ, ◌-◌, ◌*◌, ◌/◌, ◌^◌, not, ◌&&◌, none, some, map, ltb, leb, ◌==◌, if◌then◌else◌, bit_and, bit_or,
  u8, u16, u32,
}
use tinyvmm.Virtio.Transport.{
  VirtioDevice, Common, Transport, default_queue, cc_device_feature_select, cc_device_feature,
  cc_driver_feature_select, cc_driver_feature, cc_msix_config, cc_device_status, cc_queue_size,
  cc_queue_enable, feature_ring_event_idx, status_driver_ok, status_features_ok, status_needs_reset,
  is_power_of_two, with_low, with_high, feature_dword, selected, with_queue, queue_dword,
  set_queue_dword, aligned, enable_of,
}

unfoldable pub read_queue_enable : Common → ℕ
read_queue_enable c = bit_or (enable_of (selected c)) (c.queue_select * 2 ^ 16)

unfoldable pub read_queue_dword : Common → ℕ → ℕ
unfolding queue_dword
read_queue_dword c off = elim (selected c) [
  | none ↦ 0
  | some q ↦ elim (queue_dword q off) [ none ↦ 0 | some v ↦ v ]
]

abbrev pub status_dword : Common → ℕ
status_dword c = bit_or (bit_or c.status (c.config_generation * 2 ^ 8)) (c.queue_select * 2 ^ 16)

unfoldable pub reset_common : Common → Common
reset_common c = record c {
  reset_from = c.status;
  status = 0;
  device_feature_select = 0;
  driver_feature_select = 0;
  driver_features = 0;
  msix_config = 0xffff;
  queue_select = 0;
  queues = map (λ q. default_queue) c.queues;
}

unfoldable pub write_driver_feature : Common → ℕ → Common
unfolding with_low with_high
write_driver_feature c value =
    if ltb 1 c.driver_feature_select
    then c
    else if c.driver_feature_select == 0
    then record c { driver_features = with_low c.driver_features value }
    else record c { driver_features = with_high c.driver_features value }

unfoldable pub write_queue_dword : Common → ℕ → ℕ → Common
unfolding set_queue_dword
write_queue_dword c off value = elim (selected c) [
  | none ↦ c
  | some q ↦ with_queue c (set_queue_dword q off value)
]

module _ {ℓ} {D : Type ℓ} where
  abbrev pub with_common : Transport D → Common → Transport D
  with_common t c = record t { common = c }

module _ {ℓ} {D : Type ℓ} (device : VirtioDevice D) where
  unfoldable pub read_queue_size : Common → ℕ
  read_queue_size c = elim (selected c) [
    | none ↦ bit_or 0 (0xffff * 2 ^ 16)
    | some q ↦
        let sz = if not (q.size == 0) then q.size else u16 (device.queue_max c.queue_select) in
        bit_or sz (q.msix_vector * 2 ^ 16)
  ]

  unfoldable pub read_cc32 : Transport D → ℕ → ℕ
  unfolding read_queue_size read_queue_enable read_queue_dword
  read_cc32 t off =
      let c = t.common in
      if off == cc_device_feature_select
      then c.device_feature_select
      else if off == cc_device_feature
      then feature_dword c.device_feature_select (device.device_features t.dev)
      else if off == cc_driver_feature_select
      then c.driver_feature_select
      else if off == cc_driver_feature
      then feature_dword c.driver_feature_select c.driver_features
      else if off == cc_msix_config
      then bit_or c.msix_config (u32 (device.queue_count * 2 ^ 16))
      else if off == cc_device_status
      then status_dword c
      else if off == cc_queue_size
      then read_queue_size c
      else if off == cc_queue_enable
      then read_queue_enable c
      else read_queue_dword c off

  unfoldable pub guest_read_cc32 : Transport D → ℕ → ℕ
  unfolding read_cc32
  guest_read_cc32 t off =
      let v = read_cc32 t off in
      if off == cc_device_status && t.common.status == 0 && device.reset_pending t.dev
      then bit_or (bit_and v 0xffff_ff00) t.common.reset_from
      else v

  -- The status that a write of `new_status` leads to, with the device's answer to the features.
  unfoldable pub accept_features : Transport D → ℕ → D × ℕ
  accept_features t new_status =
      let adding = bit_and new_status (255 - t.common.status) in
      let answer = device.set_driver_features t.common.driver_features t.dev in
      if not (bit_and adding status_features_ok == 0)
      then (if answer.1 then (answer.0, new_status) else (
        answer.0,
        bit_or (bit_and new_status (255 - status_features_ok)) status_needs_reset,
      ))
      else (t.dev, new_status)

  unfoldable pub apply_status_write : Transport D → ℕ → Transport D
  unfolding reset_common accept_features
  apply_status_write t new_status =
      if new_status == 0
      then record t { common = reset_common t.common; isr_status = 0; dev = device.reset t.dev }
      else (let adding = bit_and new_status (255 - t.common.status) in
          let (d, effective) = accept_features t new_status in
          let t' = record t { common = record t.common { status = effective }; dev = d } in
          if not (bit_and adding status_driver_ok == 0)
          then record t' { dev = device.driver_ok d }
          else t')

  unfoldable pub write_status : Transport D → ℕ → Transport D
  unfolding apply_status_write
  write_status t value =
      let new_status = u8 value in
      let t' = if not (new_status == t.common.status) then apply_status_write t new_status else t in
      record t' { common = record t'.common { queue_select = u16 (value / 2 ^ 16) } }

  unfoldable pub write_queue_size : Common → ℕ → Common
  unfolding is_power_of_two
  write_queue_size c value = elim (selected c) [
    | none ↦ c
    | some q ↦
        let qs = u16 value in
        let max = u16 (device.queue_max c.queue_select) in
        let q' = if leb qs max && is_power_of_two qs then record q { size = qs } else q in
        with_queue c (record q' { msix_vector = u16 (value / 2 ^ 16) })
  ]

  unfoldable pub write_queue_enable : Transport D → ℕ → Transport D
  write_queue_enable t value =
      let c = t.common in
      elim (selected c) [
        | none ↦ t
        | some q ↦
            let en = u16 value in
            let t' = record t { common = with_queue c (record q { enable = en }) } in
            let event_idx = not (bit_and c.driver_features feature_ring_event_idx == 0) in
            if not (en == 0) && not (q.size == 0) && aligned q
            then record t' {
              dev =
                  device.enable_queue c.queue_select q.desc q.driver q.device q.size event_idx
                    t.dev;
            }
            else if en == 0
            then record t' { dev = device.disable_queue c.queue_select t.dev }
            else t'
      ]

  unfoldable pub write_cc32 : Transport D → ℕ → ℕ → Transport D
  unfolding write_driver_feature write_status write_queue_size write_queue_enable write_queue_dword
  write_cc32 t off value =
      let c = t.common in
      if off == cc_device_feature_select
      then with_common t (record c { device_feature_select = value })
      else if off == cc_device_feature
      then t
      else if off == cc_driver_feature_select
      then with_common t (record c { driver_feature_select = value })
      else if off == cc_driver_feature
      then with_common t (write_driver_feature c value)
      else if off == cc_msix_config
      then with_common t (record c { msix_config = u16 value })
      else if off == cc_device_status
      then write_status t value
      else if off == cc_queue_size
      then with_common t (write_queue_size c value)
      else if off == cc_queue_enable
      then write_queue_enable t value
      else with_common t (write_queue_dword c off value)
