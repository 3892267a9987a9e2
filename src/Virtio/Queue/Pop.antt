-- ===== src/Virtio/Queue/Pop.antt =====
-- `pop_into`, `rewind_avail`, the used ring and the interrupt decision of src/virtio/queue.rs. The
-- guest runs while the device does; it is heard at the fences that matter, as a function that changes
-- the bytes of RAM.
use tinyvmm.Prelude.{
  ℕ, ◌*◌, ◌%◌, Bool, true, false, not, ◌||◌, Option, none, some, [], min, ltb, leb, ◌==◌,
  if◌then◌else◌, u16, add16, sub16, bit_and,
}
use tinyvmm.Memory.{GuestMemory, Guest, run_guest, host_range}
use tinyvmm.Virtio.Queue.{
  Virtqueue, avail_idx, avail_flags, avail_ring, used_event, store_used_idx, store_used_ring,
  store_avail_event,
}
use tinyvmm.Virtio.Queue.Chain.{PoppedChain, walk}

unfoldable pub arm_kick_and_recheck : Guest → GuestMemory → Virtqueue → GuestMemory × ℕ
arm_kick_and_recheck guest m q =
    let m' = run_guest guest (store_avail_event m q q.last_avail) in (m', avail_idx m' q)

-- The test for an empty ring, which arms a kick when EVENT_IDX is on.
unfoldable pub ring_is_empty : Guest → GuestMemory → Virtqueue → GuestMemory × Bool
unfolding arm_kick_and_recheck
ring_is_empty guest m q =
    if avail_idx m q == q.last_avail
    then (if q.event_idx
        then (let (m', idx) = arm_kick_and_recheck guest m q in (m', idx == q.last_avail))
        else (m, true))
    else (m, false)

abbrev pub advance_avail : Virtqueue → Virtqueue
advance_avail q = record q { last_avail = add16 q.last_avail 1 }

-- `pop_into` once the ring is known not to be empty. None is the panic of `% 0`.
unfoldable pub take_next :
    GuestMemory → Virtqueue → PoppedChain → Option (GuestMemory × Virtqueue × PoppedChain × Bool)
take_next m q out =
    if u16 q.size == 0
    then none
    else (let head = avail_ring m q (q.last_avail % u16 q.size) in
        let q' = advance_avail q in
        if leb (u16 q.size) head
        then some (m, q', out, false)
        else elim (host_range m q.desc_gpa (16 * q.size)) [
          | none ↦ some (m, q', out, false)
          | some _ ↦
              let bufs = walk m q.size q.desc_gpa q.size head [] in
              let m' = if q.event_idx then store_avail_event m q' q'.last_avail else m in
              some (m', q', record { head_index = head; bufs = bufs }, true)
        ])

unfoldable pub pop_into :
    Guest
    → GuestMemory
    → Virtqueue
    → PoppedChain
    → Option (GuestMemory × Virtqueue × PoppedChain × Bool)
pop_into guest m q out =
    let cleared = record out { bufs = [] } in
    if not q.ready || q.size == 0
    then some (m, q, cleared, false)
    else (let (m', empty) = ring_is_empty guest m q in
        if empty then some (m', q, cleared, false) else take_next m' q cleared)

unfoldable pub pop :
    Guest → GuestMemory → Virtqueue → Option (GuestMemory × Virtqueue × Option PoppedChain)
unfolding pop_into
pop guest m q = elim (pop_into guest m q (record { head_index = 0; bufs = [] })) [
  | none ↦ none
  | some (m', q', c, popped) ↦ some (m', q', if popped then some c else none)
]

-- `avail_cursor`
abbrev pub avail_cursor : Virtqueue → ℕ
avail_cursor q = q.last_avail

unfoldable pub avail_pending : GuestMemory → Virtqueue → ℕ
avail_pending m q =
    if not q.ready || q.size == 0 then 0 else min (sub16 (avail_idx m q) q.last_avail) (u16 q.size)

unfoldable pub has_avail : GuestMemory → Virtqueue → Bool
unfolding avail_pending
has_avail m q = not (avail_pending m q == 0)

-- `rewind_avail`: the guest runs at its fence; the result says to retry.
unfoldable pub rewind_avail : Guest → GuestMemory → Virtqueue → ℕ → GuestMemory × Virtqueue × Bool
rewind_avail guest m q cursor =
    let q' = record q { last_avail = cursor } in
    let m' = run_guest guest m in (m', q', not (avail_idx m' q' == q.last_avail))

-- `add_used`; none is the panic of `% 0`.
unfoldable pub add_used : GuestMemory → Virtqueue → ℕ → ℕ → Option (GuestMemory × Virtqueue)
add_used m q head_index used_len =
    if not q.ready || q.size == 0
    then some (m, q)
    else if u16 q.size == 0
    then none
    else some (
      store_used_ring m q (q.last_used_idx % u16 q.size) head_index used_len,
      record q { last_used_idx = add16 q.last_used_idx 1 },
    )

unfoldable pub publish_used : GuestMemory → Virtqueue → GuestMemory
publish_used m q = if not q.ready || q.size == 0 then m else store_used_idx m q q.last_used_idx

unfoldable pub push : GuestMemory → Virtqueue → ℕ → ℕ → Option (GuestMemory × Virtqueue)
unfolding add_used publish_used
push m q head_index used_len = elim (add_used m q head_index used_len) [
  | none ↦ none
  | some (m', q') ↦ some (publish_used m' q', q')
]

unfoldable pub vring_need_event : ℕ → ℕ → ℕ → Bool
vring_need_event event new old = ltb (sub16 (sub16 new event) 1) (sub16 new old)

unfoldable pub should_interrupt_driver :
    Guest → GuestMemory → Virtqueue → GuestMemory × Virtqueue × Bool
unfolding vring_need_event
should_interrupt_driver guest m q =
    if not q.ready
    then (m, q, false)
    else (let m' = run_guest guest m in
        let q' = record q { last_used_signaled = q.last_used_idx } in
        let answer =
          if q.event_idx
          then vring_need_event (used_event m' q') q.last_used_idx q.last_used_signaled
          else bit_and (avail_flags m' q') 1 == 0 in
        (m', q', answer))
