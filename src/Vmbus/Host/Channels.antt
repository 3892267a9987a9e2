-- ===== src/Vmbus/Host/Channels.antt =====
-- The channels of src/vmbus/mod.rs that are opened.
use tinyvmm.Prelude.{
  ℕ, ◌≡◌, Bool, true, false, Option, none, some, List, [], ◌∷◌, length, length-set, get_elem?, set,
  ltb, refl, ap, sym, ◌∙◌,
}
use tinyvmm.Vmbus.Ring.{Ring}
use tinyvmm.Vmbus.Protocol.{u32_at, open_result}
use tinyvmm.Vmbus.Host.{Open, State, Host, Channel, Event, queue, open_at}
use tinyvmm.Vmbus.Host.Requests.{openable, is_some, try_open, open_channel}
use tinyvmm.Vmbus.Host.Grants.{openable_lem}
use tinyvmm.Vmbus.Host.Devices.{replay, live-set, live-at, live-closed, tell-opened, replay-one}
use tinyvmm.Vmbus.Host.Valid.{Backed, IsValid, All-set, Keeps, quiet, queue-IsValid}

module _ (host : Host) (ds : List Bool) where
  -- Another state of a channel.
  pub set-IsValid :
      (st : State) (i : ℕ) (o : Option Open)
      → IsValid host ds st
      → Backed st.gpadls host.vcpu_count o
      → IsValid host (set ds i (is_some o)) (record st { channels = set st.channels i o })
  set-IsValid st i o v p = record {
    shown = live-set st.channels i o ∙ ap (λ xs. set xs i (is_some o)) v.shown;
    each = length-set st.channels i o ∙ v.each;
    few = v.few;
    lists = v.lists;
    sorted = v.sorted;
    backed = All-set (Backed st.gpadls host.vcpu_count) st.channels i o v.backed p;
    idle = v.idle;
  }

  -- A channel that is open, or closed, to the devices.
  pub is_open-ds :
      (st : State) (i : ℕ) (o : Open)
      → IsValid host ds st
      → open_at st i ≡ some o
      → get_elem? ds i ≡ some true
  is_open-ds st i o v e = ap (λ xs. get_elem? xs i) (sym v.shown) ∙ live-at st.channels i o e

  is_closed-ds :
      (st : State) (i : ℕ)
      → IsValid host ds st
      → ltb i (length host.devices) ≡ true
      → open_at st i ≡ none
      → get_elem? ds i ≡ some false
  is_closed-ds st i v lt e =
      ap (λ xs. get_elem? xs i) (sym v.shown) ∙ live-closed st.channels i (ap (ltb i) v.each ∙ lt) e

  try_open-Keeps :
      (st : State) (relid openid gpadl target downstream : ℕ)
      → IsValid host ds st
      → Keeps host ds (try_open host st relid openid gpadl target downstream)
  unfolding try_open queue
  try_open-Keeps st relid openid gpadl target downstream v =
      go (openable host st relid gpadl target downstream) refl
    where
      new : Open
      new = record { gpadl = gpadl; target_vp = target; downstream = downstream }

      told :
          (r : ℕ × Ring × Ring)
          → get_elem? ds r.0 ≡ some false
          → replay
              (Event.opened r.0
                  (record { relid = relid; target_vp = target; incoming = r.1; outgoing = r.2 })
                ∷ [])
              ds
            ≡ some (set ds r.0 true)
      told r e =
          let channel : Channel = record {
            relid = relid;
            target_vp = target;
            incoming = r.1;
            outgoing = r.2;
          } in
          replay-one (Event.opened r.0 channel) ds (set ds r.0 true) (tell-opened ds r.0 channel e)

      go :
          (found : Option (ℕ × Ring × Ring))
          → openable host st relid gpadl target downstream ≡ found
          → Keeps host ds (
              let answered = queue st (open_result relid openid (is_some found)) in
              elim found [
                | none ↦ (answered, [])
                | some r ↦ (
                  record answered { channels = set answered.channels r.0 (some new) },
                  Event.opened r.0 (record {
                    relid = relid;
                    target_vp = target;
                    incoming = r.1;
                    outgoing = r.2;
                  })
                      ∷ [],
                )
              ])
      go none e =
          quiet host ds (queue st (open_result relid openid false))
            (queue-IsValid host ds st (open_result relid openid false) v)
      go (some r) e =
          let grant = openable_lem host st relid gpadl target downstream r e in
          record {
            now = set ds r.0 true;
            told = told r (is_closed-ds st r.0 v grant.in_range grant.was_closed);
            valid =
                set-IsValid (queue st (open_result relid openid true)) r.0 (some new)
                  (queue-IsValid host ds st (open_result relid openid true) v) grant.stands;
          }

  pub open_channel-Keeps :
      (st : State) (m : List ℕ) → IsValid host ds st → Keeps host ds (open_channel host st m)
  unfolding open_channel
  open_channel-Keeps st m v =
      go (u32_at m 8) (u32_at m 12) (u32_at m 16) (u32_at m 20) (u32_at m 24)
    where
      go :
          (relid openid gpadl target downstream : Option ℕ)
          → Keeps host ds (elim relid [
            | none ↦ (st, [])
            | some relid ↦ elim openid [
              | none ↦ (st, [])
              | some openid ↦ elim gpadl [
                | none ↦ (st, [])
                | some gpadl ↦ elim target [
                  | none ↦ (st, [])
                  | some target ↦ elim downstream [
                    | none ↦ (st, [])
                    | some downstream ↦ try_open host st relid openid gpadl target downstream
                  ]
                ]
              ]
            ]
          ])
      go none _ _ _ _ = quiet host ds st v
      go (some _) none _ _ _ = quiet host ds st v
      go (some _) (some _) none _ _ = quiet host ds st v
      go (some _) (some _) (some _) none _ = quiet host ds st v
      go (some _) (some _) (some _) (some _) none = quiet host ds st v
      go (some relid) (some openid) (some gpadl) (some target) (some downstream) =
          try_open-Keeps st relid openid gpadl target downstream v
