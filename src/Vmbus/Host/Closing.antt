-- ===== src/Vmbus/Host/Closing.antt =====
-- The channels of src/vmbus/mod.rs that are retargeted and closed, and the memory below them taken back.
use tinyvmm.Prelude.{
  ℕ, zero, suc, ◌≡◌, Bool, true, false, Option, none, some, List, [], ◌∷◌, All, get_elem?, set, leb,
  ltb, ltb→lt, ◌==◌, ◌>>=◌, if◌then◌else◌, arith, refl, ap, sym, ◌∙◌,
}
use mathlib.Core.Path.{subst}
use tinyvmm.Vmbus.Protocol.{version_5_3, u32_at, gpadl_torndown, modify_channel_response}
use tinyvmm.Vmbus.Host.{
  Gpadl, Open, State, Host, Event, remove, queue, channel_index, open_at, close_where,
}
use tinyvmm.Vmbus.Host.Requests.{retarget, modify_channel, close_channel, tear_down}
use tinyvmm.Vmbus.Host.Devices.{live, replay, set-same, tell-closed, replay-one, replay-close_where}
use tinyvmm.Vmbus.Host.Lists.{Ascending-remove, get-remove, All-remove, length-remove}
use tinyvmm.Vmbus.Host.Valid.{
  GpadlFits, BackedBy, Backed, IsValid, length-close_where, close_where-Backed, Keeps, quiet,
  queue-IsValid,
}
use tinyvmm.Vmbus.Host.Channels.{set-IsValid, is_open-ds}

-- What an open channel stands on.
BackedBy-at :
    (gs : List (ℕ × Gpadl)) (vcpus : ℕ) (os : List (Option Open)) (i : ℕ) (o : Open)
    → All (Backed gs vcpus) os
    → (elim (get_elem? os i) [ none ↦ none | some x ↦ x ]) ≡ some o
    → BackedBy gs vcpus o
BackedBy-at gs vcpus [] i o a e = absurd (cc e)
BackedBy-at gs vcpus (none ∷ os) zero o a e = absurd (cc e)
BackedBy-at gs vcpus (some x ∷ os) zero o (p, a) e =
    let same : x ≡ o = ap (λ y. elim y [ none ↦ x | some z ↦ z ]) e in
    subst (BackedBy gs vcpus) same p
BackedBy-at gs vcpus (x ∷ os) (suc i) o (p, a) e = BackedBy-at gs vcpus os i o a e

module _ (host : Host) (ds : List Bool) where
  retarget-IsValid :
      (st : State) (relid target : ℕ)
      → IsValid host ds st
      → IsValid host ds (retarget host st relid target).0
  unfolding retarget
  retarget-IsValid st relid target v = channel (channel_index host relid)
    where
      First : State × Bool → Type 0
      First r = IsValid host ds r.0

      aimed :
          (i : ℕ) (o : Open) (b : Bool)
          → open_at st i ≡ some o
          → ltb target host.vcpu_count ≡ b
          → IsValid host ds
              (if◌then◌else◌ {A = State × Bool} b
                (
                  record st {
                    channels = set st.channels i (some (record o { target_vp = target }));
                  },
                  true,
                )
                (st, false)).0
      aimed i o false e f = v
      aimed i o true e f =
          let p = BackedBy-at st.gpadls host.vcpu_count st.channels i o v.backed e in
          subst
            (λ xs.
              IsValid host xs (record st {
                channels = set st.channels i (some (record o { target_vp = target }));
              }))
            (set-same ds i true (is_open-ds host ds st i o v e))
            (set-IsValid host ds st i (some (record o { target_vp = target })) v record {
              list = p.list;
              held = p.held;
              both = p.both;
              laid_out = p.laid_out;
              target_in = ltb→lt target host.vcpu_count f;
            })

      opened :
          (i : ℕ) (o : Option Open)
          → open_at st i ≡ o
          → First (elim o [
            | none ↦ (st, false)
            | some o ↦
                if ltb target host.vcpu_count
                then (
                  record st {
                    channels = set st.channels i (some (record o { target_vp = target }));
                  },
                  true,
                )
                else (st, false)
          ])
      opened i none e = v
      opened i (some o) e = aimed i o (ltb target host.vcpu_count) e refl

      channel :
          (i : Option ℕ)
          → First (elim i [
            | none ↦ (st, false)
            | some i ↦ elim (open_at st i) [
              | none ↦ (st, false)
              | some o ↦
                  if ltb target host.vcpu_count
                  then (
                    record st {
                      channels = set st.channels i (some (record o { target_vp = target }));
                    },
                    true,
                  )
                  else (st, false)
            ]
          ])
      channel none = v
      channel (some i) = opened i (open_at st i) refl

  if-IsValid :
      (b : Bool) (x y : State)
      → IsValid host ds x
      → IsValid host ds y
      → IsValid host ds (if b then x else y)
  if-IsValid true x y u w = u
  if-IsValid false x y u w = w

  pub modify_channel-IsValid :
      (st : State) (m : List ℕ) → IsValid host ds st → IsValid host ds (modify_channel host st m)
  unfolding modify_channel
  modify_channel-IsValid st m v = go (u32_at m 8) (u32_at m 12)
    where
      answer : ℕ → State × Bool → State
      answer relid (st', ok) =
          if leb version_5_3 st'.version then queue st' (modify_channel_response relid ok) else st'

      go :
          (relid target : Option ℕ)
          → IsValid host ds (elim relid [
            | none ↦ st
            | some relid ↦ elim target [
              | none ↦ st
              | some target ↦ answer relid (retarget host st relid target)
            ]
          ])
      go none _ = v
      go (some _) none = v
      go (some relid) (some target) =
          let st' = (retarget host st relid target).0 in
          let ok = (retarget host st relid target).1 in
          let kept : IsValid host ds st' = retarget-IsValid st relid target v in
          if-IsValid (leb version_5_3 st'.version) (queue st' (modify_channel_response relid ok))
            st' (queue-IsValid host ds st' (modify_channel_response relid ok) kept) kept

  pub close_channel-Keeps :
      (st : State) (m : List ℕ) → IsValid host ds st → Keeps host ds (close_channel host st m)
  unfolding close_channel
  close_channel-Keeps st m v = channel (u32_at m 8 >>= channel_index host)
    where
      opened :
          (i : ℕ) (o : Option Open)
          → open_at st i ≡ o
          → Keeps host ds (elim o [
            | none ↦ (st, [])
            | some o ↦ (record st { channels = set st.channels i none }, Event.closed i ∷ [])
          ])
      opened i none e = quiet host ds st v
      opened i (some o) e = record {
        now = set ds i false;
        told =
            replay-one (Event.closed i) ds (set ds i false)
              (tell-closed ds i (is_open-ds host ds st i o v e));
        valid = set-IsValid host ds st i none v tt;
      }

      channel :
          (i : Option ℕ)
          → Keeps host ds (elim i [
            | none ↦ (st, [])
            | some i ↦ elim (open_at st i) [
              | none ↦ (st, [])
              | some o ↦ (record st { channels = set st.channels i none }, Event.closed i ∷ [])
            ]
          ])
      channel none = quiet host ds st v
      channel (some i) = opened i (open_at st i) refl

  pub tear_down-Keeps :
      (st : State) (m : List ℕ) → IsValid host ds st → Keeps host ds (tear_down st m)
  unfolding tear_down
  tear_down-Keeps st m v = go (u32_at m 12)
    where
      apart : (i j : ℕ) → (i == j) ≡ false → (j == i) ≡ false
      apart i j e = ground (arith, e)

      without : ℕ → State
      without gpadl = record st {
        channels = (close_where (λ o. o.gpadl == gpadl) 0 st.channels).0;
        gpadls = remove st.gpadls gpadl;
      }

      left : ℕ → List Bool
      left gpadl = live (close_where (λ o. o.gpadl == gpadl) 0 st.channels).0

      kept : (gpadl : ℕ) → IsValid host (left gpadl) (without gpadl)
      kept gpadl = record {
        shown = refl;
        each = length-close_where (λ o. o.gpadl == gpadl) 0 st.channels ∙ v.each;
        few = omega (arith, v.few, length-remove st.gpadls gpadl);
        lists = All-remove GpadlFits st.gpadls gpadl v.lists;
        sorted = Ascending-remove st.gpadls gpadl v.sorted;
        backed =
            close_where-Backed st.gpadls (remove st.gpadls gpadl) host.vcpu_count
              (λ o. o.gpadl == gpadl) 0 st.channels
              (λ o e. get-remove st.gpadls gpadl o.gpadl (apart o.gpadl gpadl e)) v.backed;
        idle = λ e. ap (λ gs. remove gs gpadl) (v.idle e);
      }

      go :
          (gpadl : Option ℕ)
          → Keeps host ds (elim gpadl [
            | none ↦ (st, [])
            | some gpadl ↦ (
              queue (without gpadl) (gpadl_torndown gpadl),
              (close_where (λ o. o.gpadl == gpadl) 0 st.channels).1,
            )
          ])
      go none = quiet host ds st v
      go (some gpadl) = record {
        now = left gpadl;
        told =
            ap (replay (close_where (λ o. o.gpadl == gpadl) 0 st.channels).1) (sym v.shown)
            ∙ replay-close_where (λ o. o.gpadl == gpadl) st.channels;
        valid = queue-IsValid host (left gpadl) (without gpadl) (gpadl_torndown gpadl) (kept gpadl);
      }
