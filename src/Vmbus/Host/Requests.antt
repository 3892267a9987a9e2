-- ===== src/Vmbus/Host/Requests.antt =====
-- The messages of src/vmbus/mod.rs that open, retarget and close channels, and take page lists back.
use tinyvmm.Prelude.{
  ℕ, Bool, true, false, Option, none, some, List, [], ◌∷◌, set, leb, ltb, ◌==◌, ◌>>=◌,
  if◌then◌else◌,
}
use tinyvmm.Vmbus.Ring.{Ring}
use tinyvmm.Vmbus.Protocol.{
  version_5_3, u32_at, gpadl_torndown, open_result, modify_channel_response,
}
use tinyvmm.Vmbus.Host.{State, Host, Event, get, remove, queue, channel_index, open_at, close_where}
use tinyvmm.Vmbus.Host.PageLists.{rings}

-- The device and the rings that a request to open a channel finds.
unfoldable pub openable : Host → State → ℕ → ℕ → ℕ → ℕ → Option (ℕ × Ring × Ring)
unfolding channel_index rings
openable host st relid gpadl target downstream = channel_index host relid >>= λ i.
    elim (open_at st i) [
      | some o ↦ none
      | none ↦
          if ltb target host.vcpu_count
          then (get st.gpadls gpadl >>= λ g. rings g downstream >>= λ r. some (i, r.0, r.1))
          else none
    ]

abbrev pub is_some {ℓ} : {A : Type ℓ} → Option A → Bool
is_some none = false
is_some (some a) = true

unfoldable pub try_open : Host → State → ℕ → ℕ → ℕ → ℕ → ℕ → State × List Event
unfolding openable queue open_result
try_open host st relid openid gpadl target downstream =
    let found = openable host st relid gpadl target downstream in
    let answered = queue st (open_result relid openid (is_some found)) in
    elim found [
      | none ↦ (answered, [])
      | some r ↦ (
        record answered {
          channels =
              set answered.channels r.0
                (some (record { gpadl = gpadl; target_vp = target; downstream = downstream }));
        },
        Event.opened r.0
              (record { relid = relid; target_vp = target; incoming = r.1; outgoing = r.2 })
            ∷ [],
      )
    ]

unfoldable pub open_channel : Host → State → List ℕ → State × List Event
unfolding try_open
open_channel host st m = elim (u32_at m 8) [
  | none ↦ (st, [])
  | some relid ↦ elim (u32_at m 12) [
    | none ↦ (st, [])
    | some openid ↦ elim (u32_at m 16) [
      | none ↦ (st, [])
      | some gpadl ↦ elim (u32_at m 20) [
        | none ↦ (st, [])
        | some target ↦ elim (u32_at m 24) [
          | none ↦ (st, [])
          | some downstream ↦ try_open host st relid openid gpadl target downstream
        ]
      ]
    ]
  ]
]

-- `store` of the target of an open channel.
unfoldable pub retarget : Host → State → ℕ → ℕ → State × Bool
unfolding channel_index
retarget host st relid target = elim (channel_index host relid) [
  | none ↦ (st, false)
  | some i ↦ elim (open_at st i) [
    | none ↦ (st, false)
    | some o ↦
        if ltb target host.vcpu_count
        then (
          record st { channels = set st.channels i (some (record o { target_vp = target })) },
          true,
        )
        else (st, false)
  ]
]

unfoldable pub modify_channel : Host → State → List ℕ → State
unfolding retarget queue modify_channel_response
modify_channel host st m = elim (u32_at m 8) [
  | none ↦ st
  | some relid ↦ elim (u32_at m 12) [
    | none ↦ st
    | some target ↦
        let (st', ok) = retarget host st relid target in
        if leb version_5_3 st'.version then queue st' (modify_channel_response relid ok) else st'
  ]
]

unfoldable pub close_channel : Host → State → List ℕ → State × List Event
unfolding channel_index
close_channel host st m = elim (u32_at m 8 >>= channel_index host) [
  | none ↦ (st, [])
  | some i ↦ elim (open_at st i) [
    | none ↦ (st, [])
    | some o ↦ (record st { channels = set st.channels i none }, Event.closed i ∷ [])
  ]
]

unfoldable pub tear_down : State → List ℕ → State × List Event
unfolding queue gpadl_torndown
tear_down st m = elim (u32_at m 12) [
  | none ↦ (st, [])
  | some gpadl ↦
      let (channels, events) = close_where (λ o. o.gpadl == gpadl) 0 st.channels in
      (
        queue (record st { channels = channels; gpadls = remove st.gpadls gpadl })
            (gpadl_torndown gpadl),
        events,
      )
]
