-- ===== src/Vmbus/Host.antt =====
-- The host's side of the bus, src/vmbus/mod.rs: the connection, the page lists (GPADLs) that the guest
-- hands over, and the channels on them. The devices' `open`, `close` and `signal` are events beside the
-- state; the console is left out, and the flag that is read outside the lock is a field of the state.
pub mod Contact
pub mod PageLists
pub mod Requests
pub mod Messages
pub mod Hypercalls
pub mod Lists
pub mod Devices
pub mod Valid
pub mod Gpadls
pub mod Grants
pub mod Channels
pub mod Closing
pub mod Invariant
pub mod Answers
pub mod Steps
pub mod Snapshot
pub mod Readers
pub mod Restore
pub mod RoundTrip
mod Tests
use tinyvmm.Prelude.{
  ℕ, zero, suc, ◌+◌, ◌-◌, ◌*◌, ◌/◌, ◌%◌, ◌^◌, min, Bool, true, false, not, ◌&&◌, ◌||◌, Option, none,
  some, List, [], ◌∷◌, ◌++◌, length, take, drop, get_elem?, set, leb, ltb, ◌==◌, ◌>>=◌,
  if◌then◌else◌, bit_and, u32, from_le_bytes,
}
use tinyvmm.Memory.{GuestMemory, read_array}
use tinyvmm.Vmbus.Ring
use tinyvmm.Vmbus.Ring.{Ring}
use tinyvmm.Vmbus.Protocol.{
  sint, message_connection_id, message_connection_id_4, max_payload, version_5_0, version_5_3,
  requestoffers, openchannel, closechannel, gpadl_header_type, gpadl_body_type, gpadl_teardown,
  initiate_contact_type, unload, modifychannel, gpadl_header_pfns, gpadl_body_pfns, u16_at, u32_at,
  version_response, Offer, offer, all_offers_delivered, gpadl_created, gpadl_torndown, open_result,
  modify_channel_response, unload_response, pfns,
}

abbrev pub hvcall_post_message : ℕ
hvcall_post_message = 0x005c

abbrev pub hvcall_signal_event : ℕ
hvcall_signal_event = 0x005d

abbrev pub hypercall_fast : ℕ
hypercall_fast = 2 ^ 16

abbrev pub hv_status_success : ℕ
hv_status_success = 0

abbrev pub hv_status_invalid_hypercall_code : ℕ
hv_status_invalid_hypercall_code = 2

abbrev pub hv_status_invalid_hypercall_input : ℕ
hv_status_invalid_hypercall_input = 3

abbrev pub hv_status_invalid_alignment : ℕ
hv_status_invalid_alignment = 4

abbrev pub hv_status_invalid_parameter : ℕ
hv_status_invalid_parameter = 5

abbrev pub hv_status_invalid_connection_id : ℕ
hv_status_invalid_connection_id = 0x12

abbrev pub hv_status_insufficient_buffers : ℕ
hv_status_insufficient_buffers = 0x13

abbrev pub max_outbox : ℕ
max_outbox = 64

abbrev pub max_gpadls : ℕ
max_gpadls = 64

abbrev pub max_gpadl_pages : ℕ
max_gpadl_pages = 8192

abbrev pub channel_connection_base : ℕ
channel_connection_base = 0x2000

pub record Gpadl : Type 0 where
  pub relid : ℕ
  pub pages : ℕ
  pub pfns : List ℕ

pub record Open : Type 0 where
  pub gpadl : ℕ
  pub target_vp : ℕ
  pub downstream : ℕ

pub record State : Type 0 where
  pub version : ℕ
  pub target_vp : ℕ
  pub outbox : List (List ℕ)
  pub slot_busy : Bool
  pub outbox_ready : Bool
  pub gpadls : List (ℕ × Gpadl)
  pub channels : List (Option Open)

-- The parts of `Host` that stay: the devices' ids, and the number of vCPUs.
pub record Host : Type 0 where
  pub devices : List (List ℕ × List ℕ)
  pub vcpu_count : ℕ

pub record Channel : Type 0 where
  pub relid : ℕ
  pub target_vp : ℕ
  pub incoming : Ring
  pub outgoing : Ring

pub data Event : Type 0 where
  opened : ℕ → Channel → Event
  closed : ℕ → Event
  signaled : ℕ → Event

-- The `BTreeMap` of GPADLs, in ascending order of its keys: `get`, `contains_key`, `insert` and `remove`.
abbrev pub get : List (ℕ × Gpadl) → ℕ → Option Gpadl
get [] id = none
get ((k, g) ∷ gs) id = let rest = get gs id in if k == id then some g else rest

abbrev pub contains_key : List (ℕ × Gpadl) → ℕ → Bool
contains_key [] id = false
contains_key ((k, g) ∷ gs) id = k == id || contains_key gs id

abbrev pub insert : List (ℕ × Gpadl) → ℕ → Gpadl → List (ℕ × Gpadl)
insert [] id g = (id, g) ∷ []
insert ((k, h) ∷ gs) id g =
    let rest = insert gs id g in
    if k == id then (id, g) ∷ gs else if ltb id k then (id, g) ∷ (k, h) ∷ gs else (k, h) ∷ rest

abbrev pub remove : List (ℕ × Gpadl) → ℕ → List (ℕ × Gpadl)
remove [] id = []
remove ((k, g) ∷ gs) id = let rest = remove gs id in if k == id then gs else (k, g) ∷ rest

unfoldable pub queue : State → List ℕ → State
queue st m = record st {
  outbox = st.outbox ++ (m ∷ []);
  outbox_ready = if st.slot_busy then st.outbox_ready else true;
}

unfoldable pub channel_index : Host → ℕ → Option ℕ
channel_index host relid =
    if relid == 0
    then none
    else if ltb (relid - 1) (length host.devices)
    then some (relid - 1)
    else none

abbrev pub closed_channels : List (List ℕ × List ℕ) → List (Option Open)
closed_channels [] = []
closed_channels (d ∷ devices) = none ∷ closed_channels devices

-- The bus that `build` makes.
abbrev pub initial : Host → State
initial host = record {
  version = 0;
  target_vp = 0;
  outbox = [];
  slot_busy = false;
  outbox_ready = false;
  gpadls = [];
  channels = closed_channels host.devices;
}

-- `st.open[i]`, which is as long as the devices.
abbrev pub open_at : State → ℕ → Option Open
open_at st i = elim (get_elem? st.channels i) [ none ↦ none | some o ↦ o ]

-- Closing those of the channels from `i` on that `which` says.
abbrev pub close_where : (Open → Bool) → ℕ → List (Option Open) → List (Option Open) × List Event
close_where which i [] = ([], [])
close_where which i (none ∷ os) =
    let (os', events) = close_where which (i + 1) os in (none ∷ os', events)
close_where which i (some o ∷ os) =
    let (os', events) = close_where which (i + 1) os in
    if which o then (none ∷ os', Event.closed i ∷ events) else (some o ∷ os', events)

unfoldable pub reset : State → State × List Event
reset st =
    let (channels, events) = close_where (λ o. true) 0 st.channels in
    (record st { channels = channels; gpadls = []; version = 0; outbox = [] }, events)
