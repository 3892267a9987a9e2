-- ===== src/Vmbus/Host/Invariant.antt =====
-- What every message of the guest keeps of the bus in src/vmbus/mod.rs.
use tinyvmm.Prelude.{
  ℕ, ◌+◌, ◌≡◌, Bool, true, false, not, ◌&&◌, Option, none, some, List, [], ◌∷◌, leb, ltb, ◌==◌,
  ==_iff, if◌then◌else◌, arith, refl,
}
use tinyvmm.Vmbus.Protocol.{
  version_5_0, version_5_3, requestoffers, openchannel, closechannel, gpadl_header_type,
  gpadl_body_type, gpadl_teardown, initiate_contact_type, unload, modifychannel, u32_at,
  version_response, offer, all_offers_delivered, unload_response,
}
use tinyvmm.Vmbus.Host.{channel_connection_base, State, Host, Event, queue, reset}
use tinyvmm.Vmbus.Host.Contact.{queue_offers, is_sint, initiate_contact}
use tinyvmm.Vmbus.Host.Messages.{handle_kind, handle}
use tinyvmm.Vmbus.Host.Valid.{IsValid, Keeps, quiet, queue-IsValid, reset-Keeps}
use tinyvmm.Vmbus.Host.Gpadls.{gpadl_header-IsValid, gpadl_body-IsValid}
use tinyvmm.Vmbus.Host.Channels.{open_channel-Keeps}
use tinyvmm.Vmbus.Host.Closing.{modify_channel-IsValid, close_channel-Keeps, tear_down-Keeps}

module _ (host : Host) (ds : List Bool) where
  queue_offers-IsValid :
      (devices : List (List ℕ × List ℕ)) (st : State) (i : ℕ)
      → IsValid host ds st
      → IsValid host ds (queue_offers host st i devices)
  queue_offers-IsValid [] st i v = v
  queue_offers-IsValid ((interface, instance_id) ∷ devices) st i v =
      let message = offer record {
        interface = interface;
        instance_id = instance_id;
        relid = i + 1;
        connection_id = channel_connection_base + (i + 1);
      } in
      queue_offers-IsValid devices (queue st message) (i + 1) (queue-IsValid host ds st message v)

  reset-gpadls : (st : State) → (reset st).0.gpadls ≡ []
  unfolding reset
  reset-gpadls st = refl

  -- A connection that is met for the first time has no page lists, as has one that starts again.
  initiate_contact-Keeps :
      (st : State) (m : List ℕ) → IsValid host ds st → Keeps host ds (initiate_contact host st m)
  unfolding initiate_contact
  initiate_contact-Keeps st m v = go (u32_at m 8) (u32_at m 12)
    where
      target_at : State → ℕ → State
      target_at st target =
          if ltb target host.vcpu_count then record st { target_vp = target } else st

      version_at : State → ℕ → Bool → State
      version_at st version ok = if ok then record st { version = version } else st

      aimed :
          (xs : List Bool) (st : State) (target : ℕ) (b : Bool)
          → IsValid host xs st
          → IsValid host xs (if b then record st { target_vp = target } else st)
      aimed xs st target true v = record {
        shown = v.shown;
        each = v.each;
        few = v.few;
        lists = v.lists;
        sorted = v.sorted;
        backed = v.backed;
        idle = v.idle;
      }
      aimed xs st target false v = v

      met :
          (xs : List Bool) (st : State) (version : ℕ) (b : Bool)
          → IsValid host xs st
          → (b ≡ true → st.gpadls ≡ [])
          → IsValid host xs (if b then record st { version = version } else st)
      met xs st version true v empty = record {
        shown = v.shown;
        each = v.each;
        few = v.few;
        lists = v.lists;
        sorted = v.sorted;
        backed = v.backed;
        idle = λ e. empty refl;
      }
      met xs st version false v empty = v

      fresh : (b : Bool) → (st.version == 0) ≡ b → Keeps host ds (if b then (st, []) else reset st)
      fresh true e = quiet host ds st v
      fresh false e = reset-Keeps host ds st v

      aimed-gpadls :
          (st : State) (target : ℕ) (b : Bool)
          → st.gpadls ≡ []
          → (if b then record st { target_vp = target } else st).gpadls ≡ []
      aimed-gpadls st target true e = e
      aimed-gpadls st target false e = e

      fresh-gpadls :
          (b : Bool)
          → (st.version == 0) ≡ b
          → (if◌then◌else◌ {A = State × List Event} b (st, []) (reset st)).0.gpadls ≡ []
      fresh-gpadls true e = v.idle ((==_iff st.version 0).0 e)
      fresh-gpadls false e = reset-gpadls st

      answered :
          (version target : ℕ) (r : State × List Event)
          → Keeps host ds r
          → r.0.gpadls ≡ []
          → Keeps host ds (
              let aimed =
                if ltb target host.vcpu_count then record r.0 { target_vp = target } else r.0 in
              let ok =
                leb version_5_0 version
                && leb version version_5_3
                && ltb target host.vcpu_count
                && is_sint m in
              let met = if ok then record aimed { version = version } else aimed in
              (queue met (version_response ok), r.1))
      answered version target r w empty = record {
        now = w.now;
        told = w.told;
        valid = queue-IsValid host w.now _ _ (
            met w.now _ version _ (aimed w.now r.0 target (ltb target host.vcpu_count) w.valid)
              (λ e. aimed-gpadls r.0 target (ltb target host.vcpu_count) empty));
      }

      go :
          (version target : Option ℕ)
          → Keeps host ds (elim version [
            | none ↦ (st, [])
            | some version ↦ elim target [
              | none ↦ (st, [])
              | some target ↦
                  let (fresh, events) = if st.version == 0 then (st, []) else reset st in
                  let aimed =
                    if ltb target host.vcpu_count
                    then record fresh { target_vp = target }
                    else fresh in
                  let ok =
                    leb version_5_0 version
                    && leb version version_5_3
                    && ltb target host.vcpu_count
                    && is_sint m in
                  let met = if ok then record aimed { version = version } else aimed in
                  (queue met (version_response ok), events)
            ]
          ])
      go none _ = quiet host ds st v
      go (some _) none = quiet host ds st v
      go (some version) (some target) =
          answered version target (if st.version == 0 then (st, []) else reset st)
            (fresh (st.version == 0) refl) (fresh-gpadls (st.version == 0) refl)

  or-Keeps :
      (b : Bool) (x y : State × List Event)
      → (b ≡ true → Keeps host ds x)
      → Keeps host ds y
      → Keeps host ds (if b then x else y)
  or-Keeps true x y hx hy = hx refl
  or-Keeps false x y hx hy = hy

  -- The messages that no device hears of.
  silent :
      (b : Bool) (st : State) (y : State × List Event)
      → (b ≡ true → IsValid host ds st)
      → Keeps host ds y
      → Keeps host ds (if b then (st, []) else y)
  silent true st y hx hy = quiet host ds st (hx refl)
  silent false st y hx hy = hy

  handle_kind-Keeps :
      (st : State) (m : List ℕ) (kind : ℕ)
      → IsValid host ds st
      → Keeps host ds (handle_kind host st m kind)
  unfolding handle_kind
  handle_kind-Keeps st m kind v =
      or-Keeps (kind == initiate_contact_type) _ _ (λ e. initiate_contact-Keeps st m v)
        (silent (kind == requestoffers && on) _ _ (λ e. offered)
          (silent (kind == gpadl_header_type && on) _ _
            (λ e. gpadl_header-IsValid host ds st m v (connected kind gpadl_header_type e))
            (silent (kind == gpadl_body_type && on) _ _
              (λ e. gpadl_body-IsValid host ds st m v (connected kind gpadl_body_type e))
              (or-Keeps (kind == openchannel && on) _ _ (λ e. open_channel-Keeps host ds st m v)
                (or-Keeps (kind == closechannel) _ _ (λ e. close_channel-Keeps host ds st m v)
                  (or-Keeps (kind == gpadl_teardown) _ _ (λ e. tear_down-Keeps host ds st m v)
                    (silent (kind == modifychannel) _ _ (λ e. modify_channel-IsValid host ds st m v)
                      (or-Keeps (kind == unload) _ _
                        (λ e. unloaded (reset st) (reset-Keeps host ds st v))
                        (quiet host ds st v)))))))))
    where
      on : Bool
      on = not (st.version == 0)

      connected : (k t : ℕ) → (k == t && not (st.version == 0)) ≡ true → st.version ≡ 0 → ⊥
      connected k t e f = ground (arith, e, f)

      offered : IsValid host ds (queue (queue_offers host st 0 host.devices) all_offers_delivered)
      offered =
          queue-IsValid host ds (queue_offers host st 0 host.devices) all_offers_delivered
            (queue_offers-IsValid host.devices st 0 v)

      unloaded :
          (r : State × List Event)
          → Keeps host ds r
          → Keeps host ds (queue r.0 unload_response, r.1)
      unloaded r w = record {
        now = w.now;
        told = w.told;
        valid = queue-IsValid host w.now r.0 unload_response w.valid;
      }

  -- A message of any bytes.
  pub handle-Keeps :
      (st : State) (m : List ℕ) → IsValid host ds st → Keeps host ds (handle host st m)
  unfolding handle
  handle-Keeps st m v = go (u32_at m 0)
    where
      go :
          (kind : Option ℕ)
          → Keeps host ds (elim kind [ none ↦ (st, []) | some kind ↦ handle_kind host st m kind ])
      go none = quiet host ds st v
      go (some kind) = handle_kind-Keeps st m kind v
