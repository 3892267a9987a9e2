-- ===== src/Virtio/Queue.antt =====
-- The split virtqueue of src/virtio/queue.rs: its state, and the accessors of the two rings. Guest
-- RAM is shared with the guest, so it is passed beside the state. Addresses are u64 and wrap, as the
-- release profile compiles them.
pub mod Snapshot
pub mod Buffers
pub mod Chain
pub mod Pop
pub mod ChainBounds
pub mod ChainOrder
pub mod PopLaws
pub mod UsedRing
pub mod NeedEvent
pub mod Race
pub mod Notify
mod Tests
use mathlib.Core.Option
use tinyvmm.Prelude.{
  ℕ, ◌+◌, ◌*◌, ◌%◌, ◌^◌, Bool, true, false, Option, none, some, List, ◌++◌, u64, to_le_bytes,
}
use tinyvmm.Memory.{GuestMemory, read_u16, store_u16, write_bytes}

-- `struct Virtqueue`, less the memory.
pub record Virtqueue : Type 0 where
  pub max_size : ℕ  -- u32
  pub size : ℕ  -- u32
  pub ready : Bool
  pub event_idx : Bool
  pub desc_gpa : ℕ  -- u64
  pub avail_gpa : ℕ  -- u64
  pub used_gpa : ℕ  -- u64
  pub last_avail : ℕ  -- u16
  pub last_used_idx : ℕ  -- u16
  pub last_used_signaled : ℕ  -- u16

unfoldable pub new : ℕ → Virtqueue
new max_size = record {
  max_size = max_size;
  size = 0;
  ready = false;
  event_idx = false;
  desc_gpa = 0;
  avail_gpa = 0;
  used_gpa = 0;
  last_avail = 0;
  last_used_idx = 0;
  last_used_signaled = 0;
}

-- `reset` leaves `max_size` and `event_idx`.
unfoldable pub reset : Virtqueue → Virtqueue
reset q = record q {
  size = 0;
  ready = false;
  desc_gpa = 0;
  avail_gpa = 0;
  used_gpa = 0;
  last_avail = 0;
  last_used_idx = 0;
  last_used_signaled = 0;
}

-- The fields that the driver writes. An index that cannot be read counts as no news.
unfoldable pub avail_idx : GuestMemory → Virtqueue → ℕ
avail_idx m q = Option.get_or (read_u16 m (u64 (q.avail_gpa + 2))) q.last_avail

unfoldable pub avail_flags : GuestMemory → Virtqueue → ℕ
avail_flags m q = Option.get_or (read_u16 m q.avail_gpa) 0

unfoldable pub avail_ring : GuestMemory → Virtqueue → ℕ → ℕ
avail_ring m q slot = Option.get_or (read_u16 m (u64 (q.avail_gpa + 4 + 2 * slot))) 0

unfoldable pub used_event : GuestMemory → Virtqueue → ℕ
used_event m q = Option.get_or (read_u16 m (u64 (q.avail_gpa + 4 + 2 * q.size))) 0

-- The fields that the device writes; a store out of range is dropped.
unfoldable pub store_used_idx : GuestMemory → Virtqueue → ℕ → GuestMemory
store_used_idx m q idx = (store_u16 m (u64 (q.used_gpa + 2)) idx).0

unfoldable pub store_used_ring : GuestMemory → Virtqueue → ℕ → ℕ → ℕ → GuestMemory
store_used_ring m q slot id len =
    (write_bytes m (u64 (q.used_gpa + 4 + 8 * slot)) (to_le_bytes 4 id ++ to_le_bytes 4 len)).0

unfoldable pub store_avail_event : GuestMemory → Virtqueue → ℕ → GuestMemory
store_avail_event m q event = (store_u16 m (u64 (q.used_gpa + 4 + 8 * q.size)) event).0
