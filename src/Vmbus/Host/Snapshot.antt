-- ===== src/Vmbus/Host/Snapshot.antt =====
-- `save` and `restore` of src/vmbus/mod.rs. A reader consumes the bytes that it is given, as `Reader` does; the errors, which differ only
-- in their text, are none.
use tinyvmm.Prelude.{
  ℕ, zero, suc, ◌+◌, ◌-◌, Bool, false, not, Option, none, some, List, [], ◌∷◌, ◌++◌, length, take,
  drop, leb, ltb, ◌==◌, ◌>>=◌, if◌then◌else◌, replicate, from_le_bytes, to_le_bytes,
}
use tinyvmm.Vmbus.Host.{
  max_outbox, max_gpadls, max_gpadl_pages, Gpadl, Open, State, Host, Event, get, insert,
}
use tinyvmm.Vmbus.Host.PageLists.{rings}
use tinyvmm.Vmbus.Host.Hypercalls.{is_nil}

abbrev pub save_format : ℕ
save_format = 1

-- `MESSAGE_SIZE`
abbrev pub message_size : ℕ
message_size = 256

abbrev pub save_messages : List (List ℕ) → List ℕ
save_messages [] = []
save_messages (m ∷ ms) = m ++ save_messages ms

abbrev pub save_pfns : List ℕ → List ℕ
save_pfns [] = []
save_pfns (pfn ∷ pfns) = to_le_bytes 8 pfn ++ save_pfns pfns

abbrev pub save_gpadl : ℕ → Gpadl → List ℕ
save_gpadl id g =
    to_le_bytes 4 id
    ++ (to_le_bytes 4 g.relid
        ++ (to_le_bytes 4 g.pages ++ (to_le_bytes 4 (length g.pfns) ++ save_pfns g.pfns)))

abbrev pub save_gpadls : List (ℕ × Gpadl) → List ℕ
save_gpadls [] = []
save_gpadls ((id, g) ∷ gs) = save_gpadl id g ++ save_gpadls gs

abbrev pub save_open : ℕ → ℕ → ℕ → ℕ → List ℕ
save_open flag gpadl target downstream =
    to_le_bytes 4 flag
    ++ (to_le_bytes 4 gpadl ++ (to_le_bytes 4 target ++ to_le_bytes 4 downstream))

abbrev pub save_channel : Option Open → List ℕ
save_channel none = save_open 0 0 0 0
save_channel (some o) = save_open 1 o.gpadl o.target_vp o.downstream

abbrev pub save_channels : List (Option Open) → List ℕ
save_channels [] = []
save_channels (o ∷ os) = save_channel o ++ save_channels os

unfoldable pub save : State → List ℕ
save st =
    to_le_bytes 4 save_format
    ++ (to_le_bytes 4 st.version
        ++ (to_le_bytes 4 st.target_vp
            ++ (to_le_bytes 4 (length st.outbox)
                ++ (to_le_bytes 4 (length st.gpadls)
                    ++ (to_le_bytes 4 (length st.channels)
                        ++ (save_messages st.outbox
                            ++ (save_gpadls st.gpadls ++ save_channels st.channels)))))))

abbrev pub Reader : Type 0 → Type 0
Reader A = List ℕ → Option (A × List ℕ)

-- A value that is there, a value that is not, and one reading after another.
abbrev pub done : {A : Type 0} → A → Reader A
done a bytes = some (a, bytes)

abbrev pub bad : {A : Type 0} → Reader A
bad bytes = none

abbrev pub before : {A B : Type 0} → Reader A → (A → Reader B) → Reader B
before r k bytes = r bytes >>= λ p. k p.0 p.1

-- `ok_or_else` where the value must pass a test.
abbrev pub passing : {A : Type 0} → Bool → Reader A → Reader A
passing b r bytes = if b then r bytes else none

-- `Reader::bytes`, `u32`, `u64` and `count`.
unfoldable pub bytes : ℕ → Reader (List ℕ)
bytes n input = if ltb (length input) n then none else some (take n input, drop n input)

unfoldable pub read_u32 : Reader ℕ
unfolding bytes
read_u32 = before (bytes 4) λ b. done (from_le_bytes b)

unfoldable pub read_u64 : Reader ℕ
unfolding bytes
read_u64 = before (bytes 8) λ b. done (from_le_bytes b)

unfoldable pub count : ℕ → Reader ℕ
unfolding read_u32
count max = before read_u32 λ n. passing (leb n max) (done n)

-- `n` readings, collected.
abbrev pub collect : {A : Type 0} → ℕ → Reader A → Reader (List A)
collect zero r = done []
collect (suc n) r = before r λ a. before (collect n r) λ rest. done (a ∷ rest)

abbrev pub restore_gpadl : Reader (ℕ × Gpadl)
restore_gpadl = before read_u32 λ id. before read_u32 λ relid.
    before (count max_gpadl_pages) λ pages. before (count pages) λ n.
      before (collect n read_u64)
        λ pfns. done (id, record { relid = relid; pages = pages; pfns = pfns })

abbrev pub restore_gpadls : ℕ → List (ℕ × Gpadl) → Reader (List (ℕ × Gpadl))
restore_gpadls zero gs = done gs
restore_gpadls (suc n) gs = before restore_gpadl λ p. restore_gpadls n (insert gs p.0 p.1)

-- One channel, with the call of its device that is left for the end.
abbrev pub restore_open :
    Host → List (ℕ × Gpadl) → ℕ → ℕ → ℕ → ℕ → ℕ → Reader (Option Open × List Event)
restore_open host gs i flag gpadl target downstream =
    let found = get gs gpadl >>= λ g. rings g downstream in
    if flag == 0 then done (none, []) else elim found [
      | none ↦ bad
      | some r ↦ passing (ltb target host.vcpu_count) (
          done (
            some record { gpadl = gpadl; target_vp = target; downstream = downstream },
            Event.opened i
                  record { relid = i + 1; target_vp = target; incoming = r.0; outgoing = r.1 }
                ∷ [],
          ))
    ]

abbrev pub restore_channel : Host → List (ℕ × Gpadl) → ℕ → Reader (Option Open × List Event)
restore_channel host gs i = before read_u32 λ flag. before read_u32 λ gpadl.
    before read_u32
      λ target. before read_u32 λ downstream. restore_open host gs i flag gpadl target downstream

abbrev pub restore_channels :
    Host → List (ℕ × Gpadl) → ℕ → ℕ → Reader (List (Option Open) × List Event)
restore_channels host gs i zero = done ([], [])
restore_channels host gs i (suc n) =
    before (restore_channel host gs i)
      λ c. before (restore_channels host gs (i + 1) n) λ cs. done (c.0 ∷ cs.0, c.1 ++ cs.1)

-- What follows the counts.
unfoldable pub restore_rest : Host → ℕ → ℕ → ℕ → ℕ → ℕ → Reader (State × List Event)
unfolding bytes read_u32 read_u64 count rings
restore_rest host version target outbox gpadls devices =
    passing (leb devices (length host.devices)) (
      passing (ltb target host.vcpu_count) (
        before (collect outbox (bytes message_size)) λ messages.
          before (restore_gpadls gpadls []) λ gs. before (restore_channels host gs 0 devices) λ cs.
            done (
              record {
                version = version;
                target_vp = target;
                outbox = messages;
                slot_busy = false;
                outbox_ready = not (is_nil messages);
                gpadls = gs;
                channels = cs.0 ++ replicate (length host.devices - devices) none;
              },
              cs.1,
            )))

abbrev pub restore_state : Host → Reader (State × List Event)
restore_state host = before read_u32 λ format. passing (format == save_format) (
    before read_u32 λ version. before read_u32 λ target. before (count max_outbox) λ outbox.
      before (count max_gpadls)
        λ gpadls. before read_u32 λ devices. restore_rest host version target outbox gpadls devices)

-- The state, and the channels that are opened again.
unfoldable pub restore : Host → List ℕ → Option (State × List Event)
unfolding restore_rest read_u32 count bytes
restore host input = restore_state host input >>= λ r. some r.0
