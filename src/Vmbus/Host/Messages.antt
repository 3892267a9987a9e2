-- ===== src/Vmbus/Host/Messages.antt =====
-- `handle` of src/vmbus/mod.rs: every message that a guest posts.
use tinyvmm.Prelude.{ℕ, not, ◌&&◌, none, some, List, [], ◌==◌, if◌then◌else◌}
use tinyvmm.Vmbus.Protocol.{
  requestoffers, openchannel, closechannel, gpadl_header_type, gpadl_body_type, gpadl_teardown,
  initiate_contact_type, unload, modifychannel, u32_at, offer, all_offers_delivered,
  unload_response,
}
use tinyvmm.Vmbus.Host.{State, Host, Event, queue, reset}
use tinyvmm.Vmbus.Host.Contact.{queue_offers, initiate_contact}
use tinyvmm.Vmbus.Host.PageLists.{gpadl_header, gpadl_body}
use tinyvmm.Vmbus.Host.Requests.{open_channel, modify_channel, close_channel, tear_down}

-- The match on the kind of a message.
unfoldable pub handle_kind : Host → State → List ℕ → ℕ → State × List Event
unfolding initiate_contact gpadl_header gpadl_body open_channel close_channel tear_down
    modify_channel reset queue all_offers_delivered offer unload_response
handle_kind host st m kind =
    let connected = not (st.version == 0) in
    if kind == initiate_contact_type
    then initiate_contact host st m
    else if kind == requestoffers && connected
    then (queue (queue_offers host st 0 host.devices) all_offers_delivered, [])
    else if kind == gpadl_header_type && connected
    then (gpadl_header st m, [])
    else if kind == gpadl_body_type && connected
    then (gpadl_body st m, [])
    else if kind == openchannel && connected
    then open_channel host st m
    else if kind == closechannel
    then close_channel host st m
    else if kind == gpadl_teardown
    then tear_down st m
    else if kind == modifychannel
    then (modify_channel host st m, [])
    else if kind == unload
    then (let (st', events) = reset st in (queue st' unload_response, events))
    else (st, [])

unfoldable pub handle : Host → State → List ℕ → State × List Event
unfolding handle_kind
handle host st m = elim (u32_at m 0) [ none ↦ (st, []) | some kind ↦ handle_kind host st m kind ]
