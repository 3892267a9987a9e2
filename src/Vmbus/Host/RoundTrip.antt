-- ===== src/Vmbus/Host/RoundTrip.antt =====
-- `restore` of src/vmbus/mod.rs after `save`.
use tinyvmm.Prelude.{
  ℕ, ◌+◌, ◌-◌, ◌^◌, ◌≤◌, ◌<◌, ◌≡◌, Bool, true, false, not, Option, none, some, List, [], ◌∷◌, ◌++◌,
  All, length, get_elem?, set, leb, ltb, ◌==◌, ◌>>=◌, replicate, to_le_bytes, arith, refl, ap, ap₂,
  sym, ◌∙◌,
}
use mathlib.Core.List.{append-nil}
use tinyvmm.Vmbus.Ring.{Ring}
use tinyvmm.Vmbus.Host.{max_outbox, max_gpadls, Gpadl, Open, State, Host, Channel, Event}
use tinyvmm.Vmbus.Host.PageLists.{rings}
use tinyvmm.Vmbus.Host.Hypercalls.{is_nil}
use tinyvmm.Vmbus.Host.Devices.{
  live, replay, tell-opened, get_elem?-append, set-append, snoc-append, length-snoc,
}
use tinyvmm.Vmbus.Host.Valid.{Backed, IsValid}
use tinyvmm.Vmbus.Host.Snapshot.{
  save_format, message_size, save_messages, save_gpadls, save_channels, save, Reader, done, before,
  passing, bytes, read_u32, count, collect, restore_gpadls, restore_channels, restore_rest,
  restore_state, restore,
}
use tinyvmm.Vmbus.Host.Readers.{
  Reads, Reads-before, Reads-end, Reads-passing, u32-Reads, count-Reads, messages-Reads, leb-true,
  ltb-true,
}
use tinyvmm.Vmbus.Host.Restore.{Words, Under-nil, reopened, OpenFits, gpadls-Reads, channels-Reads}

-- What the types of the source bound, and the number of messages that `restore` takes.
pub record Saves (host : Host) (st : State) : Type 0 where
  pub valid : IsValid host (live st.channels) st
  pub vcpus : host.vcpu_count ≤ 2 ^ 32
  pub devices : length host.devices < 2 ^ 32
  pub version : st.version < 2 ^ 32
  pub target : st.target_vp < host.vcpu_count
  pub short : length st.outbox ≤ max_outbox
  pub messages : All (λ m. length m ≡ message_size) st.outbox
  pub words : All Words st.gpadls
  pub opens : All OpenFits st.channels

-- The state that a restored bus has.
abbrev pub resumed : State → State
resumed st = record st { slot_busy = false; outbox_ready = not (is_nil st.outbox) }

-- All channels closed.
abbrev pub shut : List (Option Open) → List Bool
shut [] = []
shut (o ∷ os) = false ∷ shut os

module _ (host : Host) (st : State) (h : Saves host st) where
  devices-fit : length st.channels < 2 ^ 32
  devices-fit = omega (arith, h.devices, h.valid.each)

  no_more : replicate {A = Option Open} (length host.devices - length st.channels) none ≡ []
  no_more =
      let zero_left : length host.devices - length st.channels ≡ 0 = omega (arith, h.valid.each) in
      ap (λ n. replicate {A = Option Open} n none) zero_left

  all_channels :
      st.channels ++ replicate (length host.devices - length st.channels) none ≡ st.channels
  all_channels = ap (st.channels ++◌) no_more ∙ append-nil st.channels

  rest-Reads :
      Reads
        (restore_rest host st.version st.target_vp
          (length st.outbox)
          (length st.gpadls)
          (length st.channels))
        (save_messages st.outbox ++ (save_gpadls st.gpadls ++ save_channels st.channels))
        (resumed st, reopened st.gpadls 0 st.channels)
  unfolding restore_rest
  rest-Reads =
      Reads-passing (leb (length st.channels) (length host.devices)) _ _ _
        (leb-true (length st.channels) (length host.devices) (omega (arith, h.valid.each)))
        (Reads-passing (ltb st.target_vp host.vcpu_count) _ _ _
          (ltb-true st.target_vp host.vcpu_count h.target)
          (Reads-before (collect (length st.outbox) (bytes message_size)) _
            (save_messages st.outbox) _ st.outbox _ (messages-Reads st.outbox h.messages)
            (Reads-before (restore_gpadls (length st.gpadls) []) _ (save_gpadls st.gpadls) _
              st.gpadls _
              (gpadls-Reads st.gpadls [] (Under-nil st.gpadls) h.valid.sorted h.words h.valid.lists)
              (Reads-end (restore_channels host st.gpadls 0 (length st.channels)) _
                (save_channels st.channels) (st.channels, reopened st.gpadls 0 st.channels) _
                (channels-Reads host st.gpadls h.vcpus st.channels 0 h.valid.backed h.opens)
                (record {
                  gives = λ rest.
                      ap
                        (λ os. some (
                          (record (resumed st) { channels = os }, reopened st.gpadls 0 st.channels),
                          rest,
                        ))
                        all_channels;
                })))))

  state-Reads : Reads (restore_state host) (save st) (resumed st, reopened st.gpadls 0 st.channels)
  unfolding save
  state-Reads = Reads-before read_u32 _ _ _ save_format _ (u32-Reads save_format (omega arith)) (
      Reads-passing (save_format == save_format) _ _ _ refl (
        Reads-before read_u32 _ _ _ st.version _ (u32-Reads st.version h.version) (
          Reads-before read_u32 _ _ _ st.target_vp _
            (u32-Reads st.target_vp (omega (arith, h.target, h.vcpus)))
            (Reads-before (count max_outbox) _ _ _ (length st.outbox) _
              (count-Reads max_outbox (length st.outbox) h.short (omega (arith, h.short)))
              (Reads-before (count max_gpadls) _ _ _ (length st.gpadls) _
                (count-Reads max_gpadls (length st.gpadls) h.valid.few (omega (arith, h.valid.few)))
                (Reads-before read_u32 _ _ _ (length st.channels) _
                  (u32-Reads (length st.channels) devices-fit) rest-Reads))))))

  restore-save : restore host (save st) ≡ some (resumed st, reopened st.gpadls 0 st.channels)
  unfolding restore
  restore-save =
      ap (λ xs. restore_state host xs >>= λ r. some r.0) (sym (append-nil (save st)))
      ∙ ap (λ o. o >>= λ r. some r.0) (Reads.gives state-Reads [])

-- The calls open exactly the channels that were open.
replay-reopened :
    (gs : List (ℕ × Gpadl)) (vcpus : ℕ) (os : List (Option Open)) (i : ℕ) (pre ds : List Bool)
    → All (Backed gs vcpus) os
    → i ≡ length pre
    → ds ≡ pre ++ shut os
    → replay (reopened gs i os) ds ≡ some (pre ++ live os)
replay-reopened gs vcpus [] i pre ds a e f = ap some f
replay-reopened gs vcpus (none ∷ os) i pre ds (p, a) e f =
    replay-reopened gs vcpus os (i + 1) (pre ++ (false ∷ [])) ds a (length-snoc pre false i e)
      (f ∙ sym (snoc-append pre false (shut os)))
    ∙ ap some (snoc-append pre false (live os))
replay-reopened gs vcpus (some o ∷ os) i pre ds (p, a) e f =
    ap (λ found. replay (call found ++ reopened gs (i + 1) os) ds)
      (ap (λ x. x >>= λ g. rings g o.downstream) p.held ∙ p.laid_out)
    ∙ ap (λ x. x >>= replay (reopened gs (i + 1) os))
        (tell-opened ds i (channel p.both)
          (ap₂ get_elem? f e ∙ get_elem?-append pre false (shut os)))
    ∙ replay-reopened gs vcpus os (i + 1) (pre ++ (true ∷ [])) (set ds i true) a
        (length-snoc pre true i e)
        (ap₂ (λ xs j. set xs j true) f e
          ∙ set-append pre false true (shut os)
          ∙ sym (snoc-append pre true (shut os)))
    ∙ ap some (snoc-append pre true (live os))
  where
    channel : Ring × Ring → Channel
    channel r = record { relid = i + 1; target_vp = o.target_vp; incoming = r.0; outgoing = r.1 }

    call : Option (Ring × Ring) → List Event
    call found = elim found [ none ↦ [] | some r ↦ Event.opened i (channel r) ∷ [] ]

-- Saving a bus and restoring it on a host with the same devices and vCPUs, all of whose channels are closed,
-- gives back its connection, messages, page lists and channels, and opens exactly the channels that were
-- open; the slot is taken to be free, and a message that waits is to be flushed. The bus is valid, it holds
-- no more messages than `restore` takes, each of a message's size, and its numbers fit their types.
pub restore_lem :
    (host : Host) (st : State)
    → Saves host st
    → (events : List Event) × (restore host (save st) ≡ some (resumed st, events))
      × (replay events (shut st.channels) ≡ some (live st.channels))
restore_lem host st h = (
  reopened st.gpadls 0 st.channels,
  restore-save host st h,
  replay-reopened st.gpadls host.vcpu_count st.channels 0 [] (shut st.channels) h.valid.backed refl
      refl,
)

record Fails {A : Type 0} (r : Reader A) (input : List ℕ) : Type 0 where
  refused : r input ≡ none

module _ {A B : Type 0} (r : Reader A) (k : A → Reader B) where
  Fails-after :
      (e rest : List ℕ) (a : A) → Reads r e a → Fails (k a) rest → Fails (before r k) (e ++ rest)
  Fails-after e rest a h f = record {
    refused = ap (λ o. o >>= λ p. k p.0 p.1) (h.gives rest) ∙ f.refused;
  }

  Fails-now : (input : List ℕ) → Fails r input → Fails (before r k) input
  Fails-now input f = record { refused = ap (λ o. o >>= λ p. k p.0 p.1) f.refused }

Fails-count :
    (max n : ℕ) (rest : List ℕ) → max < n → n < 2 ^ 32 → Fails (count max) (to_le_bytes 4 n ++ rest)
unfolding count
Fails-count max n rest more fits = record {
  refused =
      ap (λ o. o >>= λ p. passing (leb p.0 max) (done p.0) p.1)
        (Reads.gives (u32-Reads n fits) rest)
      ∙ ap (λ b. passing b (done n) rest) above;
}
  where
    above : leb n max ≡ false
    above = ground (arith, more)

Fails-passing :
    {A : Type 0} → (r : Reader A) (input : List ℕ) → Fails r input → Fails (passing true r) input
Fails-passing r input f = record { refused = f.refused }

state-Fails :
    (host : Host) (st : State)
    → st.version < 2 ^ 32
    → st.target_vp < 2 ^ 32
    → max_outbox < length st.outbox
    → length st.outbox < 2 ^ 32
    → Fails (restore_state host) (save st)
unfolding save
state-Fails host st version target many fits =
    Fails-after read_u32 _ _ _ save_format (u32-Reads save_format (omega arith)) (
      Fails-passing _ _ (
        Fails-after read_u32 _ _ _ st.version (u32-Reads st.version version) (
          Fails-after read_u32 _ _ _ st.target_vp (u32-Reads st.target_vp target) (
            Fails-now (count max_outbox) _ _
              (Fails-count max_outbox (length st.outbox) _ many fits)))))

-- A bus that holds more messages than `max_outbox` is saved, but a host refuses to restore what was saved,
-- whatever its devices and vCPUs. The numbers fit their types.
pub restore_refuses :
    (host : Host) (st : State)
    → st.version < 2 ^ 32
    → st.target_vp < 2 ^ 32
    → max_outbox < length st.outbox
    → length st.outbox < 2 ^ 32
    → restore host (save st) ≡ none
unfolding restore
restore_refuses host st version target many fits =
    ap (λ o. o >>= λ r. some r.0) (Fails.refused (state-Fails host st version target many fits))
