-- ===== src/Virtio/Queue/Notify.antt =====
-- Why a used-buffer interrupt of src/virtio/queue.rs is never lost.
use tinyvmm.Prelude.{
  ℕ, ◌+◌, ◌*◌, ◌^◌, ◌≤◌, ◌<◌, ◌≡◌, ◌≢◌, ◌⊎◌, ◌∙◌, Bool, true, some, add16, arith, refl, List,
  to_le_bytes,
}
use tinyvmm.Memory.{GuestMemory, region_off, read_u16, store_u16}
use tinyvmm.Memory.Access.{
  SameLayout, SameLayout-IsValid, region_off-SameLayout, write_bytes-SameLayout,
  read_u16-write_bytes_other, read_u16-store_u16, write_bytes_ok,
}
use tinyvmm.Virtio.Queue.{Virtqueue, used_event}
use tinyvmm.Virtio.Queue.Pop.{vring_need_event, push, should_interrupt_driver}
use tinyvmm.Virtio.Queue.UsedRing.{HasUsedRing, push-outside}
use tinyvmm.Virtio.Queue.NeedEvent.{vring_need_event_iff}
use tinyvmm.Virtio.Queue.Race.{Device, Driver, Race, event_gpa, finds_more, Step, Reach}

module _ (id len seen : ℕ) where
  -- Before the race: the driver has consumed all that was published and signaled.
  pub record Starts (s : Race) : Type 0 where
    pub ring : HasUsedRing s.mem s.queue
    pub event_on : s.queue.event_idx ≡ true
    pub event_host : ℕ
    pub event_mapped : region_off s.mem (event_gpa s.queue) 2 ≡ some event_host
    pub event_no_wrap : event_gpa s.queue + 2 < 2 ^ 64
    pub event_apart :
        (event_gpa s.queue + 2 ≤ s.queue.used_gpa)
        ⊎ (s.queue.used_gpa + (6 + 8 * s.queue.size) ≤ event_gpa s.queue)
    pub small : seen < 2 ^ 16
    pub index : s.queue.last_used_idx ≡ seen
    pub signaled : s.queue.last_used_signaled ≡ seen
    pub device : s.device ≡ Device.ready
    pub driver : s.driver ≡ Driver.working

  -- What holds along every interleaving.
  record Inv (s : Race) : Type 0 where
    ring : HasUsedRing s.mem s.queue
    event_on : s.queue.event_idx ≡ true
    event_host : ℕ
    event_mapped : region_off s.mem (event_gpa s.queue) 2 ≡ some event_host
    event_no_wrap : event_gpa s.queue + 2 < 2 ^ 64
    event_apart :
        (event_gpa s.queue + 2 ≤ s.queue.used_gpa)
        ⊎ (s.queue.used_gpa + (6 + 8 * s.queue.size) ≤ event_gpa s.queue)
    small : seen < 2 ^ 16
    index_before : s.device ≡ Device.ready → s.queue.last_used_idx ≡ seen
    index_after :
        s.device ≢ Device.ready
        → (s.queue.last_used_idx ≡ add16 seen 1)
          × (read_u16 s.mem (s.queue.used_gpa + 2) ≡ some (add16 seen 1))
    signaled :
        (s.device ≡ Device.ready) ⊎ (s.device ≡ Device.published)
        → s.queue.last_used_signaled ≡ seen
    event : s.driver ≢ Driver.working → read_u16 s.mem (event_gpa s.queue) ≡ some seen
    race :
        (irq more : Bool)
        → s.device ≡ Device.decided irq
        → s.driver ≡ Driver.rechecked more
        → (irq ≡ true) ⊎ (more ≡ true)

  HasUsedRing-move :
      {m m' : GuestMemory} {q q' : Virtqueue}
      → SameLayout m m'
      → q'.ready ≡ q.ready
      → q'.size ≡ q.size
      → q'.used_gpa ≡ q.used_gpa
      → q'.last_used_idx < 2 ^ 16
      → HasUsedRing m q
      → HasUsedRing m' q'
  HasUsedRing-move l a b c d u = record {
    valid = SameLayout-IsValid l u.valid;
    ready = a ∙ u.ready;
    nonempty = rw b u.nonempty;
    small = rw b u.small;
    index = d;
    no_wrap = rw (b, c) u.no_wrap;
    host = u.host;
    mapped = rw (b, c) (region_off-SameLayout _ _ l ∙ u.mapped);
  }

  publish-Inv :
      {s : Race} (m' : GuestMemory) (q' : Virtqueue)
      → s.device ≡ Device.ready
      → push s.mem s.queue id len ≡ some (m', q')
      → Inv s
      → Inv (record s { mem = m'; queue = q'; device = Device.published })
  publish-Inv {s} m' q' d e i =
      let (l, same, idx, qe) =
        push-outside s.mem s.queue id len i.ring m' q' (event_gpa s.queue) e i.event_apart in
      record {
        ring =
            HasUsedRing-move l (ground arith) (ground arith) (ground arith) (ground arith) i.ring;
        event_on = ground arith;
        event_host = i.event_host;
        event_mapped = ground (arith, region_off-SameLayout (event_gpa s.queue) 2 l);
        event_no_wrap = ground arith;
        event_apart = ground arith;
        small = i.small;
        index_before = ground arith;
        index_after = ground arith;
        signaled = ground arith;
        event = ground arith;
        race = ground arith;
      }

  decide_eq :
      (m : GuestMemory) (q : Virtqueue) (m' : GuestMemory) (q' : Virtqueue) (irq : Bool)
      → HasUsedRing m q
      → should_interrupt_driver (λ b. b) m q ≡ (m', q', irq)
      → (m' ≡ m)
        × (q' ≡ record q { last_used_signaled = q.last_used_idx })
        × (q.event_idx ≡ true
            → irq ≡ vring_need_event (used_event m q) q.last_used_idx q.last_used_signaled)
  unfolding should_interrupt_driver used_event
  decide_eq m q m' q' irq u e = ground (arith, u.ready)

  used_event_lem :
      (m : GuestMemory) (q : Virtqueue)
      → event_gpa q + 2 < 2 ^ 64
      → read_u16 m (event_gpa q) ≡ some seen
      → used_event m q ≡ seen
  unfolding used_event
  used_event_lem m q h e = ground arith

  decide-Inv :
      {s : Race} (m' : GuestMemory) (q' : Virtqueue) (irq : Bool)
      → s.device ≡ Device.published
      → should_interrupt_driver (λ b. b) s.mem s.queue ≡ (m', q', irq)
      → Inv s
      → Inv (record s { mem = m'; queue = q'; device = Device.decided irq })
  decide-Inv {s} m' q' irq d e i =
      let (me, qe, irq_eq) = decide_eq s.mem s.queue m' q' irq i.ring e in
      let l : SameLayout s.mem m' = rw me (record { gpa = refl; size = refl; split = refl }) in
      record {
        ring =
            HasUsedRing-move l (ground arith) (ground arith) (ground arith) (ground arith) i.ring;
        event_on = ground arith;
        event_host = i.event_host;
        event_mapped = ground (arith, region_off-SameLayout (event_gpa s.queue) 2 l);
        event_no_wrap = ground arith;
        event_apart = ground arith;
        small = i.small;
        index_before = ground arith;
        index_after = ground arith;
        signaled = ground arith;
        event = ground arith;
        race = λ b c p r. ground (
          arith,
          used_event_lem s.mem s.queue i.event_no_wrap,
          vring_need_event_iff seen (add16 seen 1) seen i.small (omega arith) i.small,
        );
      }

  enable-Inv :
      {s : Race}
      → s.driver ≡ Driver.working
      → Inv s
      → Inv
          (record s { mem = (store_u16 s.mem (event_gpa s.queue) seen).0; driver = Driver.enabled })
  unfolding store_u16
  enable-Inv {s} d i =
      let bytes : List ℕ = to_le_bytes 2 seen in
      let l = write_bytes-SameLayout s.mem (event_gpa s.queue) bytes in
      record {
        ring = HasUsedRing-move l refl refl refl i.ring.index i.ring;
        event_on = i.event_on;
        event_host = i.event_host;
        event_mapped = region_off-SameLayout (event_gpa s.queue) 2 l ∙ i.event_mapped;
        event_no_wrap = i.event_no_wrap;
        event_apart = i.event_apart;
        small = i.small;
        index_before = i.index_before;
        index_after = λ h. ground (
          arith,
          i.index_after h,
          read_u16-write_bytes_other s.mem (event_gpa s.queue) bytes (s.queue.used_gpa + 2)
              i.ring.valid (omega arith),
        );
        signaled = i.signaled;
        event = λ h.
            read_u16-store_u16 s.mem (event_gpa s.queue) seen i.small
              (write_bytes_ok s.mem (event_gpa s.queue) bytes i.event_mapped);
        race = ground arith;
      }

  recheck-Inv :
      {s : Race}
      → s.driver ≡ Driver.enabled
      → Inv s
      → Inv (record s {
        driver = Driver.rechecked (finds_more (read_u16 s.mem (s.queue.used_gpa + 2)) seen);
      })
  recheck-Inv {s} d i = record {
    ring = i.ring;
    event_on = i.event_on;
    event_host = i.event_host;
    event_mapped = i.event_mapped;
    event_no_wrap = i.event_no_wrap;
    event_apart = i.event_apart;
    small = i.small;
    index_before = i.index_before;
    index_after = i.index_after;
    signaled = i.signaled;
    event = λ h. i.event (ground arith);
    race = ground arith;
  }

  Step-Inv : {s t : Race} → Step id len seen s t → Inv s → Inv t
  Step-Inv (Step.publish m' q' d e) i = publish-Inv m' q' d e i
  Step-Inv (Step.decide m' q' irq d e) i = decide-Inv m' q' irq d e i
  Step-Inv (Step.enable d) i = enable-Inv d i
  Step-Inv (Step.recheck d) i = recheck-Inv d i

  Reach-Inv : {s t : Race} → Reach id len seen s t → Inv s → Inv t
  Reach-Inv Reach.here i = i
  Reach-Inv (Reach.next r st) i = Step-Inv st (Reach-Inv r i)

  Starts-Inv : {s : Race} → Starts s → Inv s
  Starts-Inv {s} h = record {
    ring = h.ring;
    event_on = h.event_on;
    event_host = h.event_host;
    event_mapped = h.event_mapped;
    event_no_wrap = h.event_no_wrap;
    event_apart = h.event_apart;
    small = h.small;
    index_before = λ d. h.index;
    index_after = λ d. absurd (d h.device);
    signaled = λ d. h.signaled;
    event = λ d. absurd (d h.driver);
    race = ground (arith, h.device);
  }

  -- However the device's push and decision and the driver's re-enabling and second look interleave,
  -- at the end the device has interrupted or the driver has seen the new entry.
  pub interrupt_never_lost :
      {s t : Race} (irq more : Bool)
      → Starts s
      → Reach id len seen s t
      → t.device ≡ Device.decided irq
      → t.driver ≡ Driver.rechecked more
      → (irq ≡ true) ⊎ (more ≡ true)
  interrupt_never_lost irq more h r d e = (Reach-Inv r (Starts-Inv h)).race irq more d e
