-- ===== src/Virtio/Transport/Handlers.antt =====
-- The accesses to the windows of the BAR of src/virtio/transport.rs, and the interrupts that the device
-- raises.
use tinyvmm.Prelude.{
  ℕ, ◌+◌, ◌-◌, ◌*◌, ◌/◌, ◌%◌, ◌^◌, not, ◌&&◌, List, [], ◌∷◌, get_elem?, take, drop, ltb, ◌==◌,
  if◌then◌else◌, bit_and, bit_or, min, u8, u32, u64, to_le_bytes, from_le_bytes, sub64,
}
use tinyvmm.Device.MmioBus.{MmioAccess, zeros}
use tinyvmm.Virtio.Transport.{
  VirtioDevice, Transport, off_common, off_notify, notify_mult, off_device, isr_queue_bit,
  isr_config_bit, low, high, first_bytes, vector_of,
}
use tinyvmm.Virtio.Transport.CommonCfg.{guest_read_cc32, read_cc32, write_cc32}

-- The mask of the bytes that an access of less than 4 bytes has.
abbrev pub size_mask : ℕ → ℕ
size_mask sz = if sz == 1 then 0xff else if sz == 2 then 0xffff else 0xffff_ffff

-- `(cur & !(mask << shift)) | ((v & mask) << shift)`, in u32.
unfoldable pub merge_dword : ℕ → ℕ → ℕ → ℕ → ℕ
merge_dword cur sz shift v =
    let mask = size_mask sz in
    bit_or (bit_and cur (2 ^ 32 - 1 - u32 (mask * 2 ^ shift))) (u32 (bit_and v mask * 2 ^ shift))

-- The queue that a write to the notify window names.
unfoldable pub notified : MmioAccess → ℕ → ℕ
notified acc off =
    if acc.access_size == 2
    then from_le_bytes (take 2 acc.bytes)
    else if acc.access_size == 4
    then from_le_bytes (take 4 acc.bytes)
    else off / notify_mult

-- The vectors that an interrupt triggers.
abbrev pub vectors : ℕ → List ℕ
vectors v = if v == 0xffff then [] else v ∷ []

module _ {ℓ} {D : Type ℓ} where
  unfoldable pub handle_isr : MmioAccess → Transport D → MmioAccess × Transport D
  handle_isr acc t = if acc.is_write then (acc, t) else (
    record acc { bytes = first_bytes (min acc.access_size 4) t.isr_status },
    record t { isr_status = 0 },
  )

  unfoldable pub raise_queue_interrupt : Transport D → ℕ → Transport D × List ℕ
  raise_queue_interrupt t qidx = (
    record t { isr_status = bit_or t.isr_status isr_queue_bit },
    vectors (vector_of (get_elem? t.common.queues qidx)),
  )

  unfoldable pub raise_config_change_interrupt : Transport D → Transport D × List ℕ
  raise_config_change_interrupt t = (
    record t {
      isr_status = bit_or t.isr_status isr_config_bit;
      common = record t.common { config_generation = u8 (t.common.config_generation + 1) };
    },
    vectors t.common.msix_config,
  )

module _ {ℓ} {D : Type ℓ} (device : VirtioDevice D) where
  unfoldable pub write_common_cfg : Transport D → ℕ → ℕ → List ℕ → Transport D
  unfolding write_cc32 read_cc32 merge_dword
  write_common_cfg t off sz bytes =
      let v = from_le_bytes (take (min sz 4) bytes) in
      let at = off / 4 * 4 in
      let wide = from_le_bytes bytes in
      if sz == 8 && bit_and off 7 == 0
      then write_cc32 device (write_cc32 device t off (low wide)) (off + 4) (high wide)
      else if ltb sz 4
      then write_cc32 device t at (merge_dword (read_cc32 device t at) sz (off % 4 * 8) v)
      else write_cc32 device t at v

  unfoldable pub read_common_cfg : Transport D → ℕ → ℕ → List ℕ
  unfolding guest_read_cc32
  read_common_cfg t off sz =
      if sz == 8 && bit_and off 7 == 0
      then to_le_bytes 8
          (bit_or (guest_read_cc32 device t off) (guest_read_cc32 device t (off + 4) * 2 ^ 32))
      else first_bytes (min sz 4) (guest_read_cc32 device t (off / 4 * 4) / 2 ^ (off % 4 * 8))

  -- The access is at an address of the window, so that the difference of the addresses is its offset.
  unfoldable pub handle_common_cfg : MmioAccess → Transport D → MmioAccess × Transport D
  unfolding write_common_cfg read_common_cfg
  handle_common_cfg acc t =
      let off = u32 (sub64 acc.gpa (t.bar_gpa + off_common)) in
      if acc.is_write
      then (acc, write_common_cfg t off acc.access_size acc.bytes)
      else (record acc { bytes = read_common_cfg t off acc.access_size }, t)

  unfoldable pub handle_notify : MmioAccess → Transport D → MmioAccess × Transport D
  unfolding notified
  handle_notify acc t =
      if not acc.is_write
      then (record acc { bytes = zeros }, t)
      else (let off = u32 (sub64 acc.gpa (t.bar_gpa + off_notify)) in
          (
            acc,
            record t {
              notify_count = u64 (t.notify_count + 1);
              dev = device.notify_queue (notified acc off) t.dev;
            },
          ))

  unfoldable pub handle_device_cfg : MmioAccess → Transport D → MmioAccess × Transport D
  handle_device_cfg acc t =
      let off = u32 (sub64 acc.gpa (t.bar_gpa + off_device)) in
      let n = min acc.access_size 4 in
      let lo = from_le_bytes (take 4 acc.bytes) in
      let hi = from_le_bytes (take 4 (drop 4 acc.bytes)) in
      if acc.is_write
      then (if acc.access_size == 8
          then (
            acc,
            record t {
              dev = device.write_config (u32 (off + 4)) 4 hi (device.write_config off 4 lo t.dev);
            },
          )
          else (
            acc,
            record t { dev = device.write_config off n (from_le_bytes (take n acc.bytes)) t.dev },
          ))
      else if acc.access_size == 8
      then (
        record acc {
          bytes = to_le_bytes 8 (
              bit_or (device.read_config off 4 t.dev)
                (device.read_config (u32 (off + 4)) 4 t.dev * 2 ^ 32));
        },
        t,
      )
      else (record acc { bytes = first_bytes n (device.read_config off n t.dev) }, t)
