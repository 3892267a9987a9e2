-- ===== src/Virtio/Queue/PopLaws.antt =====
-- `pop_into` and `rewind_avail` of src/virtio/queue.rs: safety against any guest, totality, what a
-- well-formed ring gives, and giving chains back.
use tinyvmm.Prelude.{
  ℕ, ◌+◌, ◌*◌, ◌%◌, ◌^◌, ◌≤◌, ◌<◌, ◌≡◌, ◌≢◌, ◌⊎◌, ◌∙◌, Bool, true, none, some, List, [], length,
  u16, u64, to_le_bytes, arith, inl, inr, Bool-cases, Option-cases, if◌then◌else◌,
}
use tinyvmm.Memory.{Guest, GuestMemory, region_off, store_u16}
use tinyvmm.Memory.Region.{IsValid}
use tinyvmm.Memory.Access.{SameLayout, SameLayout-IsValid, write_bytes-SameLayout}
use tinyvmm.Virtio.Queue.{Virtqueue, avail_idx, avail_ring, store_avail_event}
use tinyvmm.Virtio.Queue.Chain.{ChainBuf, PoppedChain}
use tinyvmm.Virtio.Queue.ChainBounds.{IsSafe, walk-IsSafe}
use tinyvmm.Virtio.Queue.ChainOrder.{Chain, walk_gathers}
use tinyvmm.Virtio.Queue.Pop.{ring_is_empty, advance_avail, take_next, pop_into, rewind_avail}

store_avail_event-SameLayout :
    (m : GuestMemory) (q : Virtqueue) (e : ℕ) → SameLayout m (store_avail_event m q e)
unfolding store_avail_event store_u16
store_avail_event-SameLayout m q e =
    write_bytes-SameLayout m (u64 (q.used_gpa + 4 + 8 * q.size)) (to_le_bytes 2 e)

ring_is_empty-SameLayout :
    (guest : Guest) (m : GuestMemory) (q : Virtqueue) → SameLayout m (ring_is_empty guest m q).0
unfolding ring_is_empty
ring_is_empty-SameLayout guest m q = ground (arith, store_avail_event-SameLayout m q q.last_avail)

-- What `pop_into` may leave behind: buffers in RAM, and a queue that moved on by one entry at most,
-- and by one whenever it returns a chain.
pub record IsPopped (m : GuestMemory) (q : Virtqueue)
    (r : GuestMemory × Virtqueue × PoppedChain × Bool) : Type 0 where
  pub safe : IsSafe m q.size r.2.bufs
  pub cursor : (r.1 ≡ q) ⊎ (r.1 ≡ advance_avail q)
  pub taken : r.3 ≡ true → r.1 ≡ advance_avail q
  pub layout : SameLayout m r.0

take_next-IsPopped :
    (m : GuestMemory) (q : Virtqueue) (out : PoppedChain)
    (r : GuestMemory × Virtqueue × PoppedChain × Bool)
    → IsValid m
    → out.bufs ≡ []
    → take_next m q out ≡ some r
    → IsPopped m q r
unfolding take_next
take_next-IsPopped m q out r v e h = ground (
  arith,
  walk-IsSafe m v q.size q.desc_gpa q.size (avail_ring m q (q.last_avail % u16 q.size)) [],
  store_avail_event-SameLayout m (advance_avail q) (advance_avail q).last_avail,
)

take_next-ne-none :
    (m : GuestMemory) (q : Virtqueue) (out : PoppedChain)
    → u16 q.size ≢ 0
    → take_next m q out ≢ none
unfolding take_next
take_next-ne-none m q out h = ground arith

Popped-trans :
    {m n : GuestMemory} {q : Virtqueue} {r : GuestMemory × Virtqueue × PoppedChain × Bool}
    → SameLayout m n
    → IsPopped n q r
    → IsPopped m q r
Popped-trans l p = record {
  safe = rw (← l.size) p.safe;
  cursor = p.cursor;
  taken = p.taken;
  layout = record {
    gpa = p.layout.gpa ∙ l.gpa;
    size = p.layout.size ∙ l.size;
    split = p.layout.split ∙ l.split;
  };
}

module _ (guest : Guest) (m : GuestMemory) (q : Virtqueue) (out : PoppedChain) where
  pop_into-IsPopped :
      (r : GuestMemory × Virtqueue × PoppedChain × Bool)
      → IsValid m
      → pop_into guest m q out ≡ some r
      → IsPopped m q r
  unfolding pop_into
  pop_into-IsPopped r v h = elim (Bool-cases (ring_is_empty guest m q).1) [
    | inl e ↦ ground (arith, ring_is_empty-SameLayout guest m q)
    | inr e ↦
        let l = ring_is_empty-SameLayout guest m q in
        ground (
          arith,
          Popped-trans {q = q} {r = r} l,
          take_next-IsPopped (ring_is_empty guest m q).0 q (record out { bufs = [] }) r
              (SameLayout-IsValid l v),
        )
  ]

  pop_into-ne-none : q.size < 2 ^ 16 → pop_into guest m q out ≢ none
  unfolding pop_into
  pop_into-ne-none h =
      ground (arith, take_next-ne-none (ring_is_empty guest m q).0 q (record out { bufs = [] }))

  -- Whatever the guest writes into the rings and tables, and whatever it does at the fence, a queue
  -- of less than 2^16 entries pops without a panic: every buffer returned lies in guest RAM, there
  -- are at most `size` of them, and the queue moves on by at most one entry, by one if it returns a
  -- chain.
  pub pop_into_hostile :
      IsValid m
      → q.size < 2 ^ 16
      → (r : GuestMemory × Virtqueue × PoppedChain × Bool) × (pop_into guest m q out ≡ some r)
        × IsPopped m q r
  pop_into_hostile v h = elim (Option-cases (pop_into guest m q out)) [
    | inl e ↦ absurd (pop_into-ne-none h e)
    | inr (r, e) ↦ (r, e, pop_into-IsPopped r v e)
  ]

-- A queue whose size is a positive multiple of 2^16 panics on the first entry published: its size
-- as a u16 is 0, by which the cursor is divided.
pub pop_into_panics :
    (guest : Guest) (m : GuestMemory) (q : Virtqueue) (out : PoppedChain)
    → q.ready ≡ true
    → q.size ≢ 0
    → u16 q.size ≡ 0
    → avail_idx m q ≢ q.last_avail
    → pop_into guest m q out ≡ none
unfolding pop_into ring_is_empty take_next
pop_into_panics guest m q out r n z a = ground arith

-- With EVENT_IDX the device asks to be kicked at the entry after the one it took.
abbrev pub rearm : GuestMemory → Virtqueue → GuestMemory
rearm m q = if q.event_idx then store_avail_event m q q.last_avail else m

-- A published well-formed chain of at most `size` buffers is popped whole and in order, under its
-- head, and the cursor moves on by one.
pub pop_into_chain :
    (guest : Guest) (m : GuestMemory) (q : Virtqueue) (out : PoppedChain) {bufs : List ChainBuf}
    {table : ℕ}
    → q.ready ≡ true
    → q.size < 2 ^ 16
    → avail_idx m q ≢ q.last_avail
    → region_off m q.desc_gpa (16 * q.size) ≡ some table
    → (let head = avail_ring m q (q.last_avail % u16 q.size) in
        (head < q.size) × Chain m q.desc_gpa q.size head bufs)
    → length bufs ≤ q.size
    → pop_into guest m q out
      ≡ some (
        rearm m (advance_avail q),
        advance_avail q,
        record { head_index = avail_ring m q (q.last_avail % u16 q.size); bufs = bufs },
        true,
      )
unfolding pop_into ring_is_empty take_next
pop_into_chain guest m q out {bufs} r s a t c l =
    ground (arith, walk_gathers m q.size c.1 q.size [] l (omega arith))

-- Rewinding to the cursor before a pop gives the queue back as it was, whatever the guest did.
pub rewind_avail-pop_into :
    (guest guest' : Guest) (m : GuestMemory) (q : Virtqueue) (out : PoppedChain)
    (r : GuestMemory × Virtqueue × PoppedChain × Bool)
    → IsValid m
    → pop_into guest m q out ≡ some r
    → (rewind_avail guest' r.0 r.1 q.last_avail).1 ≡ q
unfolding rewind_avail
rewind_avail-pop_into guest guest' m q out r v h =
    ground (arith, pop_into-IsPopped guest m q out r v h)
