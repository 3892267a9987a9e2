-- ===== src/Vmbus/Host/Contact.antt =====
-- How a guest meets the bus of src/vmbus/mod.rs: the offers and the first contact.
use tinyvmm.Prelude.{
  ℕ, ◌+◌, Bool, false, ◌&&◌, none, some, List, [], ◌∷◌, get_elem?, leb, ltb, ◌==◌, if◌then◌else◌,
}
use tinyvmm.Vmbus.Protocol.{sint, version_5_0, version_5_3, u32_at, version_response, offer}
use tinyvmm.Vmbus.Host.{channel_connection_base, State, Host, Event, queue, reset}

abbrev pub queue_offers : Host → State → ℕ → List (List ℕ × List ℕ) → State
queue_offers host st i [] = st
queue_offers host st i ((interface, instance_id) ∷ devices) =
    queue_offers host
      (queue st (
        offer record {
          interface = interface;
          instance_id = instance_id;
          relid = i + 1;
          connection_id = channel_connection_base + (i + 1);
        }))
      (i + 1) devices

abbrev pub is_sint : List ℕ → Bool
is_sint m = elim (get_elem? m 16) [ none ↦ false | some b ↦ b == sint ]

unfoldable pub initiate_contact : Host → State → List ℕ → State × List Event
unfolding queue reset version_response
initiate_contact host st m = elim (u32_at m 8) [
  | none ↦ (st, [])
  | some version ↦ elim (u32_at m 12) [
    | none ↦ (st, [])
    | some target ↦
        let (fresh, events) = if st.version == 0 then (st, []) else reset st in
        let aimed =
          if ltb target host.vcpu_count then record fresh { target_vp = target } else fresh in
        let ok =
          leb version_5_0 version
          && leb version version_5_3
          && ltb target host.vcpu_count
          && is_sint m in
        let met = if ok then record aimed { version = version } else aimed in
        (queue met (version_response ok), events)
  ]
]
