-- ===== src/Vmbus/Host/Hypercalls.antt =====
-- The hypercalls of src/vmbus/mod.rs that reach the bus, and the delivery of its messages. The
-- hypervisor's answer to a post is an argument: how many posts the guest's slot takes before one fails.
use tinyvmm.Prelude.{
  ℕ, zero, suc, ◌+◌, ◌-◌, ◌/◌, ◌%◌, ◌^◌, Bool, true, false, not, ◌&&◌, ◌||◌, Option, none, some,
  List, [], ◌∷◌, length, take, drop, leb, ltb, ◌==◌, if◌then◌else◌, bit_and, from_le_bytes, u32,
}
use tinyvmm.Memory.{GuestMemory, read_array}
use tinyvmm.Vmbus.Protocol.{message_connection_id, message_connection_id_4, max_payload, sint}
use tinyvmm.Vmbus.Host.{
  hvcall_post_message, hvcall_signal_event, hypercall_fast, hv_status_success,
  hv_status_invalid_hypercall_code, hv_status_invalid_hypercall_input, hv_status_invalid_alignment,
  hv_status_invalid_parameter, hv_status_invalid_connection_id, hv_status_insufficient_buffers,
  max_outbox, channel_connection_base, State, Host, Event, channel_index, open_at,
}
use tinyvmm.Vmbus.Host.Messages.{handle}

-- The status for RAX, the state, what the devices are told, and the vCPU that is kicked.
pub record Served : Type 0 where
  pub status : ℕ
  pub state : State
  pub events : List Event
  pub kick : Option ℕ

abbrev pub failing : State → ℕ → Served
failing st status = record { status = status; state = st; events = []; kick = none }

-- The number of a word of the input that was read.
abbrev pub word_at : List ℕ → ℕ → ℕ
word_at head off = from_le_bytes (take 4 (drop off head))

-- A payload that was read.
unfoldable pub deliver : Host → State → ℕ → List ℕ → Served
unfolding handle
deliver host st vp payload =
    let (st', events) = handle host st payload in
    if leb max_outbox (length st.outbox)
    then failing st hv_status_insufficient_buffers
    else record {
      status = hv_status_success;
      state = st';
      events = events;
      kick = if not (st'.target_vp == vp) && st'.outbox_ready then some st'.target_vp else none;
    }

unfoldable pub post_message : Host → GuestMemory → State → ℕ → ℕ → Served
unfolding deliver
post_message host mem st vp gpa =
    if not (gpa % 8 == 0)
    then failing st hv_status_invalid_alignment
    else elim (read_array mem gpa 16) [
      | none ↦ failing st hv_status_invalid_parameter
      | some head ↦
          let connection = bit_and (word_at head 0) 0xff_ffff in
          let kind = word_at head 8 in
          let size = word_at head 12 in
          if kind == 0 || not (bit_and kind 0x8000_0000 == 0) || ltb max_payload size
          then failing st hv_status_invalid_parameter
          else if ltb 4096 (gpa % 4096 + 16 + size)
          then failing st hv_status_invalid_alignment
          else if not (connection == message_connection_id)
              && not (connection == message_connection_id_4)
          then failing st hv_status_invalid_connection_id
          else elim (read_array mem (gpa + 16) size) [
            | none ↦ failing st hv_status_invalid_parameter
            | some payload ↦ deliver host st vp payload
          ]
    ]

unfoldable pub signal_event : Host → State → ℕ → Served
unfolding channel_index
signal_event host st connection =
    if ltb connection channel_connection_base
    then failing st hv_status_invalid_connection_id
    else elim (channel_index host (connection - channel_connection_base)) [
      | none ↦ failing st hv_status_invalid_connection_id
      | some i ↦ elim (open_at st i) [
        | none ↦ failing st hv_status_invalid_connection_id
        | some o ↦ record {
          status = hv_status_success;
          state = st;
          events = Event.signaled i ∷ [];
          kick = none;
        }
      ]
    ]

unfoldable pub hypercall : Host → GuestMemory → State → ℕ → ℕ → ℕ → Served
unfolding post_message signal_event
hypercall host mem st vp control input =
    let code = bit_and control 0xffff in
    let fast = not (bit_and control hypercall_fast == 0) in
    let signal : ℕ → Served = λ arg. signal_event host st (bit_and (u32 arg) 0xff_ffff) in
    if not (code == hvcall_post_message) && not (code == hvcall_signal_event)
    then failing st hv_status_invalid_hypercall_code
    else if not (control / 2 ^ 17 == 0)
    then failing st hv_status_invalid_hypercall_input
    else if code == hvcall_post_message
    then (if fast
        then failing st hv_status_invalid_hypercall_input
        else post_message host mem st vp input)
    else if fast
    then signal input
    else if not (input % 8 == 0)
    then failing st hv_status_invalid_alignment
    else elim (read_array mem input 8) [
      | none ↦ failing st hv_status_invalid_parameter
      | some bytes ↦ signal (from_le_bytes bytes)
    ]

-- The loop of `flush`: the messages that are posted, those that stay, and whether a post failed.
unfoldable pub post_all : ℕ → List (List ℕ) → List (List ℕ) × List (List ℕ) × Bool
post_all slots [] = ([], [], false)
post_all zero (m ∷ outbox) = ([], m ∷ outbox, true)
post_all (suc slots) (m ∷ outbox) =
    let (posted, left, busy) = post_all slots outbox in (m ∷ posted, left, busy)

-- What the vCPU `vp` posts before it enters the guest.
unfoldable pub flush : ℕ → ℕ → State → List (List ℕ) × State
unfolding post_all
flush vp slots st =
    let (posted, left, busy) = post_all slots st.outbox in
    if not st.outbox_ready
    then ([], st)
    else if not (vp == st.target_vp) || st.slot_busy
    then ([], st)
    else (posted, record st { outbox = left; slot_busy = busy; outbox_ready = false })

abbrev pub is_nil : List (List ℕ) → Bool
is_nil [] = true
is_nil (m ∷ outbox) = false

unfoldable pub sints_deliverable : ℕ → ℕ → State → State
sints_deliverable vp sints st =
    if bit_and sints (2 ^ sint) == 0
    then st
    else if vp == st.target_vp && st.slot_busy
    then record st { slot_busy = false; outbox_ready = not (is_nil st.outbox) }
    else st
