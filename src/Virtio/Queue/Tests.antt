-- ===== src/Virtio/Queue/Tests.antt =====
-- A queue of 4 entries in 4 KiB of RAM, with one chain of two buffers published.
use tinyvmm.Prelude.{
  ℕ, ◌<◌, ◌≡◌, ◌≢◌, ◌⊎◌, ◌↔◌, Bool, true, false, none, some, List, [], ◌∷◌, ◌++◌, arith, refl,
  sub16, to_le_bytes,
}
use tinyvmm.Memory.{
  Guest, GuestMemory, write_host, region_off, read_array, read_u16, store_u16, write_bytes,
}
use tinyvmm.Virtio.Queue.{
  Virtqueue, avail_idx, avail_ring, used_event, store_used_idx, store_used_ring, store_avail_event,
}
use tinyvmm.Virtio.Queue.Snapshot.{QueueState, capture}
use tinyvmm.Virtio.Queue.Chain.{ChainBuf, PoppedChain, read_desc, push_buf, descriptor, walk}
use tinyvmm.Virtio.Queue.ChainOrder.{Chain}
use tinyvmm.Virtio.Queue.Pop.{
  ring_is_empty, advance_avail, take_next, pop_into, push, vring_need_event,
  should_interrupt_driver,
}
use tinyvmm.Virtio.Queue.PopLaws.{IsPopped, pop_into_hostile, rearm, pop_into_chain}
use tinyvmm.Virtio.Queue.UsedRing.{HasUsedRing}
use tinyvmm.Virtio.Queue.NeedEvent.{vring_need_event_iff}
use tinyvmm.Virtio.Queue.Race.{Device, Driver, Race, Step, Reach}
use tinyvmm.Virtio.Queue.Notify.{Starts, interrupt_never_lost}

abbrev table : List ℕ
table =
    to_le_bytes 8 0x800
    ++ (to_le_bytes 4 16
        ++ (1 ∷ 0 ∷ 2 ∷ 0 ∷ (to_le_bytes 8 0x900 ++ (to_le_bytes 4 32 ++ (2 ∷ 0 ∷ 0 ∷ 0 ∷ [])))))

abbrev ram : GuestMemory
ram = record {
  base =
      write_host (write_host (write_host (λ i. 0) 0x110 table) 0x202 (1 ∷ 0 ∷ 1 ∷ 0 ∷ [])) 0x302
        (7 ∷ 0 ∷ []);
  gpa = 0;
  size = 0x1000;
  split = none;
}

abbrev queue : Virtqueue
queue = record {
  max_size = 256;
  size = 4;
  ready = true;
  event_idx = true;
  desc_gpa = 0x100;
  avail_gpa = 0x200;
  used_gpa = 0x300;
  last_avail = 0;
  last_used_idx = 7;
  last_used_signaled = 7;
}

abbrev blank : PoppedChain
blank = record { head_index = 0; bufs = [] }

abbrev bufs : List ChainBuf
bufs =
    record { ptr = 0x800; len = 16; write = false }
    ∷ record { ptr = 0x900; len = 32; write = true }
    ∷ []

-- The guest does nothing meanwhile.
abbrev idle : Guest
idle b = b

pops_both :
    (r : GuestMemory × Virtqueue × PoppedChain × Bool) × (pop_into idle ram queue blank ≡ some r)
    × (r.1 ≡ advance_avail queue)
    × (r.2 ≡ record { head_index = 1; bufs = bufs })
unfolding pop_into ring_is_empty take_next walk descriptor push_buf read_desc read_array region_off
    avail_idx avail_ring read_u16
pops_both = (
  (
    store_avail_event ram (advance_avail queue) 1,
    advance_avail queue,
    record { head_index = 1; bufs = bufs },
    true,
  ),
  refl,
  refl,
  refl,
)

published_chain : Chain ram 0x100 4 1 bufs
unfolding read_array region_off read_desc
published_chain =
    Chain.link (record { addr = 0x800; len = 16; flags = 1; next = 2 }) 0x800 refl refl refl refl
      (omega arith)
      (Chain.stop (record { addr = 0x900; len = 32; flags = 2; next = 0 }) 0x900 refl refl refl
        refl)

pop_into_hostile_example :
    (r : GuestMemory × Virtqueue × PoppedChain × Bool) × (pop_into idle ram queue blank ≡ some r)
    × IsPopped ram queue r
pop_into_hostile_example = pop_into_hostile idle ram queue blank tt (omega arith)

published : avail_idx ram queue ≢ 0
unfolding avail_idx read_u16 read_array region_off
published = omega arith

abbrev huge : Virtqueue
huge = record queue { size = 65536 }

pop_into_chain_example :
    pop_into idle ram queue blank
    ≡ some (
      rearm ram (advance_avail queue),
      advance_avail queue,
      record { head_index = 1; bufs = bufs },
      true,
    )
unfolding avail_ring read_u16 read_array region_off
pop_into_chain_example =
    pop_into_chain idle ram queue blank {table = 0x100} refl (omega arith) published refl
      (omega arith, published_chain) (omega arith)

used_ring : HasUsedRing ram queue
unfolding region_off
used_ring = record {
  valid = tt;
  ready = refl;
  nonempty = omega arith;
  small = omega arith;
  index = omega arith;
  no_wrap = omega arith;
  host = 0x300;
  mapped = refl;
}

vring_need_event_iff_example :
    (vring_need_event 65535 1 65534 ≡ true) ↔ (sub16 65535 65534 < sub16 1 65534)
vring_need_event_iff_example =
    vring_need_event_iff 65535 1 65534 (omega arith) (omega arith) (omega arith)

-- The driver re-enables after the device published, and before it decides.
abbrev quiet : Race
quiet = record { mem = ram; queue = queue; device = Device.ready; driver = Driver.working }

quiet-Starts : Starts 1 48 7 quiet
unfolding region_off
quiet-Starts = record {
  ring = used_ring;
  event_on = refl;
  event_host = 0x20c;
  event_mapped = refl;
  event_no_wrap = omega arith;
  event_apart = omega arith;
  small = omega arith;
  index = refl;
  signaled = refl;
  device = refl;
  driver = refl;
}

-- The driver re-enables and looks before the device publishes; the device then interrupts.
abbrev enabled_ram : GuestMemory
enabled_ram = (store_u16 ram 0x20c 7).0

abbrev pushed : Virtqueue
pushed = record queue { last_used_idx = 8 }

abbrev pushed_ram : GuestMemory
pushed_ram = store_used_idx (store_used_ring enabled_ram queue 3 1 48) pushed 8

abbrev finished : Race
finished = record {
  mem = pushed_ram;
  queue = record pushed { last_used_signaled = 8 };
  device = Device.decided true;
  driver = Driver.rechecked false;
}

early_look : Reach 1 48 7 quiet finished
unfolding push should_interrupt_driver used_event store_used_idx store_used_ring store_u16 read_u16
    read_array write_bytes region_off
early_look =
    Reach.next
      (Reach.next (Reach.next (Reach.next Reach.here (Step.enable refl)) (Step.recheck refl))
        (Step.publish pushed_ram pushed refl refl))
      (Step.decide pushed_ram (record pushed { last_used_signaled = 8 }) true refl refl)

interrupt_never_lost_example : (◌≡◌ {A = Bool} true true) ⊎ (◌≡◌ {A = Bool} false true)
interrupt_never_lost_example =
    interrupt_never_lost 1 48 7 true false quiet-Starts early_look refl refl

-- A size that no driver could have programmed.
abbrev oversized : QueueState
unfolding capture
oversized = record (capture queue) { size = 0x1_0000 }
