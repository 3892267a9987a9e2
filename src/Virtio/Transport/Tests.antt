-- ===== src/Virtio/Transport/Tests.antt =====
-- Runs of the transport of src/virtio/transport.rs with a device of one queue.
use tinyvmm.Prelude.{
  ℕ, ◌+◌, ◌-◌, ◌^◌, ◌≤◌, ◌≡◌, true, false, not, some, List, [], ◌∷◌, inr, ◌==◌, if◌then◌else◌, bit,
  to_le_bytes, arith, refl,
}
use tinyvmm.Device.MmioBus.{MmioAccess, Handler, Entry, zeros}
use tinyvmm.Device.MmioBus.Ranges.{IsValid}
use tinyvmm.Pci.MsiX.{MsiX, blank_entry}
use tinyvmm.Virtio.Transport.{
  VirtioDevice, QueueState, Common, Transport, default_queue, is_power_of_two,
}
use tinyvmm.Virtio.Transport.CommonCfg.{guest_read_cc32}
use tinyvmm.Virtio.Transport.Handlers.{handle_common_cfg, write_common_cfg, read_common_cfg}
use tinyvmm.Virtio.Transport.Sizes.{Sized}
use tinyvmm.Virtio.Transport.Contract.{IsKept, Good, handle_common_cfg-Good}
use tinyvmm.Virtio.Transport.Status.{Words, write_status_byte, reads, reads-reset, reset_lem}
use tinyvmm.Virtio.Transport.Features.{features_lem}
use tinyvmm.Virtio.Transport.Addresses.{Ring, queue_address-roundtrip}
use tinyvmm.Virtio.Transport.Bar.{BarState, Windows, placement_ok, on_bar_mapped, on_bar_unmapped}
use tinyvmm.Virtio.Transport.Mapping.{on_bar_mapped_lem}

-- A device whose state is the size of its queue, and after a reset the requests still in flight.
abbrev disk : VirtioDevice ℕ
disk = record {
  device_features = λ d. 2 ^ 32 + 2 ^ 29;
  set_driver_features = λ acked d. (d, not (acked == 0));
  queue_count = 1;
  queue_max = λ i. if i == 0 then 128 else 0;
  enable_queue = λ i desc driver used size event_idx d. size;
  disable_queue = λ i d. 0;
  notify_queue = λ i d. d;
  driver_ok = λ d. d;
  reset = λ d. d;
  reset_pending = λ d. not (d == 0);
  read_config = λ off size d. 0;
  write_config = λ off size v d. d;
}

abbrev Fits : ℕ → Type 0
Fits d = d ≤ 128

disk-IsKept : IsKept disk 1 Fits
disk-IsKept = record {
  features_kept = λ acked d h. h;
  enable_kept = λ i desc driver used size event_idx d ok h. ground (arith, ok.known, ok.within);
  disable_kept = λ i d l h. omega arith;
  driver_ok_kept = λ d h. h;
  reset_kept = λ d h. h;
}

abbrev request_queue : QueueState
request_queue = record default_queue { desc = 0x1000; driver = 0x2000; device = 0x3000; size = 128 }

abbrev negotiated : Common
negotiated = record {
  device_feature_select = 0;
  driver_feature_select = 0;
  driver_features = 2 ^ 29;
  msix_config = 0;
  status = 3;
  reset_from = 0;
  config_generation = 1;
  queue_select = 0;
  queues = request_queue ∷ [];
}

abbrev idle : Transport ℕ
idle = record {
  common = negotiated;
  isr_status = 1;
  bar_gpa = 0xe000_0000;
  notify_count = 0;
  dev = 2;
}

abbrev enable : MmioAccess
enable = record {
  gpa = 0xe000_001c;
  access_size = 2;
  is_write = true;
  bytes = 1 ∷ 0 ∷ 0 ∷ 0 ∷ 0 ∷ 0 ∷ 0 ∷ 0 ∷ [];
}

enabled_size : (handle_common_cfg disk enable idle).1.dev ≡ 128
unfolding handle_common_cfg
enabled_size = refl

power : is_power_of_two 128 ≡ true
unfolding is_power_of_two
power = refl

idle-Sized : Sized disk 1 negotiated
idle-Sized = (refl, (inr (power, omega arith), tt))

handle_common_cfg-Good_example : Good disk disk-IsKept (handle_common_cfg disk enable idle).1
handle_common_cfg-Good_example =
    handle_common_cfg-Good disk disk-IsKept enable idle
      (record { safe = omega arith; sized = idle-Sized })

idle-Words : Words negotiated
idle-Words = omega arith

reads-reset_example :
    reads disk (λ d. d - 1) 3 (write_status_byte disk idle 0 zeros) ≡ 3 ∷ 3 ∷ 0 ∷ []
reads-reset_example =
    reads-reset disk (λ d. d - 1) 2 idle zeros idle-Words (λ e. absurd (omega arith))
      (refl, (refl, refl))

reset_lem_example :
    let t' = write_status_byte disk idle 0 zeros in
    (t'.common.queues ≡ default_queue ∷ [])
    × (t'.common.driver_features ≡ 0)
    × (t'.common.device_feature_select ≡ 0)
    × (t'.common.driver_feature_select ≡ 0)
    × (t'.common.msix_config ≡ 0xffff)
    × (t'.common.status ≡ 0)
    × (t'.isr_status ≡ 0)
    × (t'.dev ≡ 2)
    × (t'.common.queue_select ≡ 0)
reset_lem_example = reset_lem disk idle zeros idle-Words (λ e. absurd (omega arith))

-- The same driver with no features, which the device refuses.
abbrev bare : Transport ℕ
bare = record idle { common = record negotiated { driver_features = 0 } }

features_lem_example : bit 6 (write_status_byte disk bare 11 zeros).common.status ≡ 1
features_lem_example =
    features_lem disk bare 11 zeros 6 (omega arith) (omega arith) refl refl (omega arith)

queue_address-roundtrip_example :
    let t' = write_common_cfg disk idle 0x28 8 (to_le_bytes 8 0x1_0000_2000) in
    (read_common_cfg disk t' 0x28 8 ≡ to_le_bytes 8 0x1_0000_2000)
    × (guest_read_cc32 disk t' 0x20 ≡ guest_read_cc32 disk idle 0x20)
queue_address-roundtrip_example =
    queue_address-roundtrip disk Ring.available idle refl 0x1_0000_2000 (omega arith) 0x20
      (λ e. absurd (omega arith)) (λ e. absurd (omega arith))

abbrev quiet : Handler ℕ
quiet acc s = (acc, s)

abbrev windows : Windows ℕ
windows = record {
  on_common = quiet;
  on_isr = quiet;
  on_notify = quiet;
  on_device = quiet;
  on_table = quiet;
  on_pba = quiet;
}

abbrev two_vectors : MsiX
two_vectors = record {
  num_vectors = 2;
  control = 0;
  table = blank_entry ∷ blank_entry ∷ [];
  pba = 0 ∷ [];
  table_offset = 0x3000;
  pba_offset = 0x3800;
  bar_base_gpa = 0;
  injected_count = 0;
}

abbrev unmapped : BarState
unmapped = record { bar_gpa = 0; bar_mapped = false; msix = two_vectors }

abbrev neighbour : List (Entry ℕ)
neighbour = record { base = 0xe000_0000; size = 0x1000; handler = quiet } ∷ []

on_bar_mapped_lem_example :
    (r : List (Entry ℕ) × BarState) × (on_bar_mapped windows neighbour unmapped 0xe000_4000
      ≡ some r)
    × (r.1.bar_mapped ≡ placement_ok neighbour 0xe000_4000)
    × IsValid r.0
    × ((on_bar_unmapped r.0 r.1).0 ≡ neighbour)
on_bar_mapped_lem_example =
    on_bar_mapped_lem windows neighbour unmapped 0xe000_4000 (omega arith, tt, tt)
      (omega arith, omega arith, refl, refl) refl
