-- ===== src/Vmbus/Host/Answers.antt =====
-- The hypercalls of src/vmbus/mod.rs, accepted and refused: all leave a valid bus.
use tinyvmm.Prelude.{
  ℕ, ◌+◌, ◌-◌, ◌/◌, ◌%◌, ◌^◌, ◌≡◌, Bool, true, false, not, ◌&&◌, ◌||◌, Option, none, some, List, [],
  ◌∷◌, length, get_elem?, ltb, leb, ◌==◌, if◌then◌else◌, bit_and, u32, from_le_bytes, refl, ap, sym,
  ◌∙◌,
}
use tinyvmm.Memory.{GuestMemory, read_array}
use tinyvmm.Vmbus.Protocol.{message_connection_id, message_connection_id_4, max_payload}
use tinyvmm.Vmbus.Host.{
  hvcall_post_message, hvcall_signal_event, hypercall_fast, hv_status_success,
  hv_status_invalid_hypercall_code, hv_status_invalid_hypercall_input, hv_status_invalid_alignment,
  hv_status_invalid_parameter, hv_status_invalid_connection_id, hv_status_insufficient_buffers,
  max_outbox, channel_connection_base, Open, State, Host, Event, channel_index, open_at,
}
use tinyvmm.Vmbus.Host.Hypercalls.{
  Served, failing, word_at, deliver, post_message, signal_event, hypercall,
}
use tinyvmm.Vmbus.Host.Devices.{tell, live-at, replay-one}
use tinyvmm.Vmbus.Host.Valid.{IsValid, Keeps, quiet}
use tinyvmm.Vmbus.Host.Invariant.{handle-Keeps}

module _ (host : Host) (ds : List Bool) where
  pub record Serves (r : Served) : Type 0 where
    pub keeps : Keeps host ds (r.state, r.events)

  or-Serves : (b : Bool) (x y : Served) → Serves x → Serves y → Serves (if b then x else y)
  or-Serves true x y hx hy = hx
  or-Serves false x y hx hy = hy

  module _ (st : State) (v : IsValid host ds st) where
    refused : (status : ℕ) → Serves (failing st status)
    refused status = record { keeps = quiet host ds st v }

    deliver-Serves : (vp : ℕ) (payload : List ℕ) → Serves (deliver host st vp payload)
    unfolding deliver
    deliver-Serves vp payload =
        or-Serves (leb max_outbox (length st.outbox)) _ _ (refused hv_status_insufficient_buffers)
          record { keeps = handle-Keeps host ds st payload v }

    post_message-Serves :
        (mem : GuestMemory) (vp gpa : ℕ) → Serves (post_message host mem st vp gpa)
    unfolding post_message
    post_message-Serves mem vp gpa =
        or-Serves (not (gpa % 8 == 0)) _ _ (refused hv_status_invalid_alignment)
          (read (read_array mem gpa 16))
      where
        given :
            (payload : Option (List ℕ))
            → Serves (elim payload [
              | none ↦ failing st hv_status_invalid_parameter
              | some payload ↦ deliver host st vp payload
            ])
        given none = refused hv_status_invalid_parameter
        given (some payload) = deliver-Serves vp payload

        read :
            (head : Option (List ℕ))
            → Serves (elim head [
              | none ↦ failing st hv_status_invalid_parameter
              | some head ↦
                  let connection = bit_and (word_at head 0) 0xff_ffff in
                  let kind = word_at head 8 in
                  let size = word_at head 12 in
                  if kind == 0 || not (bit_and kind 0x8000_0000 == 0) || ltb max_payload size
                  then failing st hv_status_invalid_parameter
                  else if ltb 4096 (gpa % 4096 + 16 + size)
                  then failing st hv_status_invalid_alignment
                  else if not (connection == message_connection_id)
                      && not (connection == message_connection_id_4)
                  then failing st hv_status_invalid_connection_id
                  else elim (read_array mem (gpa + 16) size) [
                    | none ↦ failing st hv_status_invalid_parameter
                    | some payload ↦ deliver host st vp payload
                  ]
            ])
        read none = refused hv_status_invalid_parameter
        read (some head) =
            let connection = bit_and (word_at head 0) 0xff_ffff in
            let kind = word_at head 8 in
            let size = word_at head 12 in
            or-Serves (kind == 0 || not (bit_and kind 0x8000_0000 == 0) || ltb max_payload size) _ _
              (refused hv_status_invalid_parameter)
              (or-Serves (ltb 4096 (gpa % 4096 + 16 + size)) _ _
                (refused hv_status_invalid_alignment)
                (or-Serves
                  (not (connection == message_connection_id)
                    && not (connection == message_connection_id_4))
                  _ _ (refused hv_status_invalid_connection_id)
                  (given (read_array mem (gpa + 16) size))))

    signal_event-Serves : (connection : ℕ) → Serves (signal_event host st connection)
    unfolding signal_event
    signal_event-Serves connection =
        or-Serves (ltb connection channel_connection_base) _ _
          (refused hv_status_invalid_connection_id)
          (channel (channel_index host (connection - channel_connection_base)))
      where
        told : (i : ℕ) (o : Open) → open_at st i ≡ some o → tell (Event.signaled i) ds ≡ some ds
        told i o e =
            ap (λ x. elim x [ none ↦ none | some b ↦ if b then some ds else none ])
              (ap (λ xs. get_elem? xs i) (sym v.shown) ∙ live-at st.channels i o e)

        opened :
            (i : ℕ) (o : Option Open)
            → open_at st i ≡ o
            → Serves (elim o [
              | none ↦ failing st hv_status_invalid_connection_id
              | some o ↦ record {
                status = hv_status_success;
                state = st;
                events = Event.signaled i ∷ [];
                kick = none;
              }
            ])
        opened i none e = refused hv_status_invalid_connection_id
        opened i (some o) e = record {
          keeps = record {
            now = ds;
            told = replay-one (Event.signaled i) ds ds (told i o e);
            valid = v;
          };
        }

        channel :
            (i : Option ℕ)
            → Serves (elim i [
              | none ↦ failing st hv_status_invalid_connection_id
              | some i ↦ elim (open_at st i) [
                | none ↦ failing st hv_status_invalid_connection_id
                | some o ↦ record {
                  status = hv_status_success;
                  state = st;
                  events = Event.signaled i ∷ [];
                  kick = none;
                }
              ]
            ])
        channel none = refused hv_status_invalid_connection_id
        channel (some i) = opened i (open_at st i) refl

    pub hypercall-Serves :
        (mem : GuestMemory) (vp control input : ℕ) → Serves (hypercall host mem st vp control input)
    unfolding hypercall
    hypercall-Serves mem vp control input =
        let code = bit_and control 0xffff in
        let fast = not (bit_and control hypercall_fast == 0) in
        or-Serves (not (code == hvcall_post_message) && not (code == hvcall_signal_event)) _ _
          (refused hv_status_invalid_hypercall_code)
          (or-Serves (not (control / 2 ^ 17 == 0)) _ _ (refused hv_status_invalid_hypercall_input) (
            or-Serves (code == hvcall_post_message) _ _
              (or-Serves fast _ _ (refused hv_status_invalid_hypercall_input)
                (post_message-Serves mem vp input))
              (or-Serves fast _ _ (signal_event-Serves (bit_and (u32 input) 0xff_ffff)) (
                or-Serves (not (input % 8 == 0)) _ _ (refused hv_status_invalid_alignment)
                  (given (read_array mem input 8))))))
      where
        given :
            (bytes : Option (List ℕ))
            → Serves (elim bytes [
              | none ↦ failing st hv_status_invalid_parameter
              | some bytes ↦ signal_event host st (bit_and (u32 (from_le_bytes bytes)) 0xff_ffff)
            ])
        given none = refused hv_status_invalid_parameter
        given (some bytes) = signal_event-Serves (bit_and (u32 (from_le_bytes bytes)) 0xff_ffff)
