-- ===== src/Virtio/Queue/NeedEvent.antt =====
-- The interrupt decision of src/virtio/queue.rs with EVENT_IDX, `vring_need_event`.
use tinyvmm.Prelude.{ℕ, ◌^◌, ◌<◌, ◌≡◌, ◌↔◌, true, sub16, arith}
use tinyvmm.Virtio.Queue.Pop.{vring_need_event}

-- The device interrupts exactly when the driver's event index is among the entries published since
-- the last interrupt: its distance from the old index is below the new index's, modulo 2^16.
pub vring_need_event_iff :
    (event new old : ℕ)
    → event < 2 ^ 16
    → new < 2 ^ 16
    → old < 2 ^ 16
    → (vring_need_event event new old ≡ true) ↔ (sub16 event old < sub16 new old)
unfolding vring_need_event
vring_need_event_iff event new old a b c = ground arith
