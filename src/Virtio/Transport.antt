-- ===== src/Virtio/Transport.antt =====
-- The common configuration of a virtio-pci device, src/virtio/transport.rs: the registers by which the
-- driver negotiates features, programs the queues and resets the device. A device is a
-- `VirtioDevice` over its own state. The locks make an access a step.
pub mod CommonCfg
pub mod Handlers
pub mod Dwords
pub mod Status
pub mod Features
pub mod Addresses
pub mod Bar
pub mod Mapping
pub mod Sizes
mod Tests
pub mod Contract
use tinyvmm.Prelude.{
  ℕ, ◌+◌, ◌-◌, ◌*◌, ◌/◌, ◌%◌, ◌^◌, Bool, true, false, not, ◌&&◌, ◌||◌, Option, none, some, List, [],
  ◌∷◌, length, get_elem?, set, map, take, drop, replicate, ltb, leb, ◌==◌, if◌then◌else◌, bit_and,
  bit_or, min, u8, u16, u32, u64, to_le_bytes, from_le_bytes, sub64, ◌++◌,
}
use tinyvmm.Device.MmioBus.{MmioAccess, zeros}

-- What the transport calls of the trait of src/virtio/device.rs, on a device's state.
pub record VirtioDevice {ℓ} (D : Type ℓ) : Type ℓ where
  pub device_features : D → ℕ
  pub set_driver_features : ℕ → D → D × Bool
  pub queue_count : ℕ
  pub queue_max : ℕ → ℕ
  pub enable_queue : ℕ → ℕ → ℕ → ℕ → ℕ → Bool → D → D
  pub disable_queue : ℕ → D → D
  pub notify_queue : ℕ → D → D
  pub driver_ok : D → D
  pub reset : D → D
  pub reset_pending : D → Bool
  pub read_config : ℕ → ℕ → D → ℕ
  pub write_config : ℕ → ℕ → ℕ → D → D

pub record QueueState : Type 0 where
  pub msix_vector : ℕ  -- u16
  pub enable : ℕ  -- u16
  pub desc : ℕ  -- u64
  pub driver : ℕ  -- u64
  pub device : ℕ  -- u64
  pub size : ℕ  -- u16

pub record Common : Type 0 where
  pub device_feature_select : ℕ  -- u32
  pub driver_feature_select : ℕ  -- u32
  pub driver_features : ℕ  -- u64
  pub msix_config : ℕ  -- u16
  pub status : ℕ  -- u8
  pub reset_from : ℕ  -- u8
  pub config_generation : ℕ  -- u8
  pub queue_select : ℕ  -- u16
  pub queues : List QueueState

-- The part of `PciTransport` that the registers reach: common configuration, ISR status, device.
pub record Transport {ℓ} (D : Type ℓ) : Type ℓ where
  pub common : Common
  pub isr_status : ℕ  -- u32
  pub bar_gpa : ℕ  -- u64
  pub notify_count : ℕ  -- u64
  pub dev : D

abbrev pub default_queue : QueueState
default_queue = record {
  msix_vector = 0xffff;
  enable = 0;
  desc = 0;
  driver = 0;
  device = 0;
  size = 0;
}

abbrev pub off_common : ℕ
off_common = 0

abbrev pub off_notify : ℕ
off_notify = 0x1000

abbrev pub notify_mult : ℕ
notify_mult = 4

abbrev pub off_device : ℕ
off_device = 0x2000

abbrev pub isr_queue_bit : ℕ
isr_queue_bit = 1

abbrev pub isr_config_bit : ℕ
isr_config_bit = 2

abbrev pub cc_device_feature_select : ℕ
cc_device_feature_select = 0x00

abbrev pub cc_device_feature : ℕ
cc_device_feature = 0x04

abbrev pub cc_driver_feature_select : ℕ
cc_driver_feature_select = 0x08

abbrev pub cc_driver_feature : ℕ
cc_driver_feature = 0x0c

abbrev pub cc_msix_config : ℕ
cc_msix_config = 0x10

abbrev pub cc_device_status : ℕ
cc_device_status = 0x14

abbrev pub cc_queue_size : ℕ
cc_queue_size = 0x18

abbrev pub cc_queue_enable : ℕ
cc_queue_enable = 0x1c

abbrev pub cc_queue_desc : ℕ
cc_queue_desc = 0x20

abbrev pub cc_queue_driver : ℕ
cc_queue_driver = 0x28

abbrev pub cc_queue_device : ℕ
cc_queue_device = 0x30

abbrev pub feature_ring_event_idx : ℕ
feature_ring_event_idx = 2 ^ 29

abbrev pub status_driver_ok : ℕ
status_driver_ok = 4

abbrev pub status_features_ok : ℕ
status_features_ok = 8

abbrev pub status_needs_reset : ℕ
status_needs_reset = 0x40

-- `u16::is_power_of_two`.
unfoldable pub is_power_of_two : ℕ → Bool
is_power_of_two n = not (n == 0) && bit_and n (n - 1) == 0

-- `(x & 0xFFFF_FFFF_0000_0000) | value` and `(x & 0xFFFF_FFFF) | (value << 32)`.
unfoldable pub with_low : ℕ → ℕ → ℕ
with_low x value = bit_or (bit_and x 0xffff_ffff_0000_0000) value

unfoldable pub with_high : ℕ → ℕ → ℕ
with_high x value = bit_or (bit_and x 0xffff_ffff) (value * 2 ^ 32)

abbrev pub low : ℕ → ℕ
low x = u32 x

abbrev pub high : ℕ → ℕ
high x = u32 (x / 2 ^ 32)

-- Dword `select` of a feature word.
abbrev pub feature_dword : ℕ → ℕ → ℕ
feature_dword select f = if select == 0 then low f else if select == 1 then high f else 0

-- `v.to_le_bytes()[..n]` at the start of 8 zero bytes.
abbrev pub first_bytes : ℕ → ℕ → List ℕ
first_bytes n v = take n (to_le_bytes 4 v) ++ replicate (8 - n) 0

-- The queue that is selected, and its update.
abbrev pub selected : Common → Option QueueState
selected c = get_elem? c.queues c.queue_select

abbrev pub with_queue : Common → QueueState → Common
with_queue c q = record c { queues = set c.queues c.queue_select q }

-- The address dword of a queue at `off`; none at another offset.
unfoldable pub queue_dword : QueueState → ℕ → Option ℕ
queue_dword q off =
    if off == cc_queue_desc
    then some (low q.desc)
    else if off == cc_queue_desc + 4
    then some (high q.desc)
    else if off == cc_queue_driver
    then some (low q.driver)
    else if off == cc_queue_driver + 4
    then some (high q.driver)
    else if off == cc_queue_device
    then some (low q.device)
    else if off == cc_queue_device + 4
    then some (high q.device)
    else none

unfoldable pub set_queue_dword : QueueState → ℕ → ℕ → QueueState
set_queue_dword q off value =
    if off == cc_queue_desc
    then record q { desc = with_low q.desc value }
    else if off == cc_queue_desc + 4
    then record q { desc = with_high q.desc value }
    else if off == cc_queue_driver
    then record q { driver = with_low q.driver value }
    else if off == cc_queue_driver + 4
    then record q { driver = with_high q.driver value }
    else if off == cc_queue_device
    then record q { device = with_low q.device value }
    else if off == cc_queue_device + 4
    then record q { device = with_high q.device value }
    else q

abbrev pub aligned : QueueState → Bool
aligned q = bit_and q.desc 0xf == 0 && bit_and q.driver 1 == 0 && bit_and q.device 3 == 0

abbrev pub enable_of : Option QueueState → ℕ
enable_of none = 0
enable_of (some q) = q.enable

abbrev pub vector_of : Option QueueState → ℕ
vector_of none = 0xffff
vector_of (some q) = q.msix_vector
