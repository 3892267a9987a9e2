-- ===== src/Virtio/Queue/Snapshot.antt =====
-- The durable queue state of src/virtio/queue.rs: `QueueState`, its 40-byte form, `capture` and
-- `apply`.
use tinyvmm.Prelude.{
  ℕ, ◌^◌, ◌<◌, ◌≤◌, ◌≡◌, Bool, not, Option, none, some, List, [], ◌∷◌, ◌++◌, min, length, get_or,
  take, drop, ltb, ◌==◌, if◌then◌else◌, to_le_bytes, from_le_bytes, from_le_bytes-to_le_bytes,
  arith,
}
use tinyvmm.Virtio.Queue.{Virtqueue}

pub record QueueState : Type 0 where
  pub size : ℕ
  pub ready : Bool
  pub event_idx : Bool
  pub desc_gpa : ℕ
  pub avail_gpa : ℕ
  pub used_gpa : ℕ
  pub last_avail : ℕ
  pub last_used_idx : ℕ
  pub last_used_signaled : ℕ

abbrev pub queue_state_encoded : ℕ
queue_state_encoded = 40

-- `b as u8`, and `byte != 0`
abbrev bool_byte : Bool → ℕ
bool_byte b = if b then 1 else 0

abbrev byte_bool : ℕ → Bool
byte_bool n = not (n == 0)

-- `b[from..from + n]`
abbrev slice : List ℕ → ℕ → ℕ → List ℕ
slice b from n = take n (drop from b)

unfoldable pub encode : QueueState → List ℕ
encode s =
    to_le_bytes 4 s.size
    ++ (bool_byte s.ready
        ∷ bool_byte s.event_idx
        ∷ 0
        ∷ 0
        ∷ (to_le_bytes 8 s.desc_gpa
            ++ (to_le_bytes 8 s.avail_gpa
                ++ (to_le_bytes 8 s.used_gpa
                    ++ (to_le_bytes 2 s.last_avail
                        ++ (to_le_bytes 2 s.last_used_idx
                            ++ (to_le_bytes 2 s.last_used_signaled ++ (0 ∷ 0 ∷ []))))))))

unfoldable pub decode : List ℕ → Option QueueState
decode b =
    if ltb (length b) queue_state_encoded
    then none
    else some (record {
      size = from_le_bytes (slice b 0 4);
      ready = byte_bool (get_or b 4 0);
      event_idx = byte_bool (get_or b 5 0);
      desc_gpa = from_le_bytes (slice b 8 8);
      avail_gpa = from_le_bytes (slice b 16 8);
      used_gpa = from_le_bytes (slice b 24 8);
      last_avail = from_le_bytes (slice b 32 2);
      last_used_idx = from_le_bytes (slice b 34 2);
      last_used_signaled = from_le_bytes (slice b 36 2);
    })

unfoldable pub capture : Virtqueue → QueueState
capture q = record {
  size = q.size;
  ready = q.ready;
  event_idx = q.event_idx;
  desc_gpa = q.desc_gpa;
  avail_gpa = q.avail_gpa;
  used_gpa = q.used_gpa;
  last_avail = q.last_avail;
  last_used_idx = q.last_used_idx;
  last_used_signaled = q.last_used_signaled;
}

unfoldable pub apply : Virtqueue → QueueState → Virtqueue
apply q s = record {
  max_size = q.max_size;
  size = min s.size q.max_size;
  ready = s.ready;
  event_idx = s.event_idx;
  desc_gpa = s.desc_gpa;
  avail_gpa = s.avail_gpa;
  used_gpa = s.used_gpa;
  last_avail = s.last_avail;
  last_used_idx = s.last_used_idx;
  last_used_signaled = s.last_used_signaled;
}

-- The fields fit their machine words.
pub record Fits (s : QueueState) : Type 0 where
  pub size : s.size < 2 ^ 32
  pub desc_gpa : s.desc_gpa < 2 ^ 64
  pub avail_gpa : s.avail_gpa < 2 ^ 64
  pub used_gpa : s.used_gpa < 2 ^ 64
  pub last_avail : s.last_avail < 2 ^ 16
  pub last_used_idx : s.last_used_idx < 2 ^ 16
  pub last_used_signaled : s.last_used_signaled < 2 ^ 16

-- Decoding what was encoded, with anything behind it, gives the state back.
pub decode-encode : (s : QueueState) (rest : List ℕ) → Fits s → decode (encode s ++ rest) ≡ some s
unfolding encode decode
decode-encode s rest f = ground (
  arith,
  from_le_bytes-to_le_bytes 4 s.size f.size,
  from_le_bytes-to_le_bytes 8 s.desc_gpa f.desc_gpa,
  from_le_bytes-to_le_bytes 8 s.avail_gpa f.avail_gpa,
  from_le_bytes-to_le_bytes 8 s.used_gpa f.used_gpa,
  from_le_bytes-to_le_bytes 2 s.last_avail f.last_avail,
  from_le_bytes-to_le_bytes 2 s.last_used_idx f.last_used_idx,
  from_le_bytes-to_le_bytes 2 s.last_used_signaled f.last_used_signaled,
)

-- Applying a captured state to any queue of the same limit restores the queue, and no state, captured
-- or not, sets a size beyond the limit.
pub apply-capture :
    (q r : Virtqueue) (s : QueueState)
    → r.max_size ≡ q.max_size
    → q.size ≤ q.max_size
    → (apply r (capture q) ≡ q) × ((apply r s).size ≤ r.max_size)
unfolding apply capture
apply-capture q r s e h = (ground arith, omega arith)
