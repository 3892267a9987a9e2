-- ===== src/Vmbus/Host/Grants.antt =====
-- What a request to open a channel of src/vmbus/mod.rs must find.
use tinyvmm.Prelude.{
  ℕ, ◌-◌, ◌<◌, ◌≡◌, Bool, true, false, Option, none, some, length, ltb, ltb→lt, ◌==◌, ◌>>=◌,
  if◌then◌else◌, refl, ap, sym, ◌∙◌,
}
use mathlib.Core.Path.{subst}
use tinyvmm.Vmbus.Ring.{Ring}
use tinyvmm.Vmbus.Host.{Gpadl, Open, State, Host, get, channel_index, open_at}
use tinyvmm.Vmbus.Host.PageLists.{rings}
use tinyvmm.Vmbus.Host.Requests.{openable}
use tinyvmm.Vmbus.Host.Valid.{BackedBy}

-- A channel's number is that of a device.
channel_index_lem :
    (host : Host) (relid i : ℕ)
    → channel_index host relid ≡ some i
    → ltb i (length host.devices) ≡ true
unfolding channel_index
channel_index_lem host relid i = go (relid == 0) (ltb (relid - 1) (length host.devices)) refl
  where
    go :
        (a b : Bool)
        → ltb (relid - 1) (length host.devices) ≡ b
        → (if a then none else if b then some (relid - 1) else none) ≡ some i
        → ltb i (length host.devices) ≡ true
    go true b e f = absurd (cc f)
    go false false e f = absurd (cc f)
    go false true e f =
        let same : relid - 1 ≡ i = ap (λ o. elim o [ none ↦ i | some j ↦ j ]) f in
        ap (λ j. ltb j (length host.devices)) (sym same) ∙ e

-- What a request that is granted found: a device whose channel is closed, and what the channel stands on.
pub record Grant (host : Host) (st : State) (o : Open) (i : ℕ) : Type 0 where
  pub in_range : ltb i (length host.devices) ≡ true
  pub was_closed : open_at st i ≡ none
  pub stands : BackedBy st.gpadls host.vcpu_count o

pub openable_lem :
    (host : Host) (st : State) (relid gpadl target downstream : ℕ) (r : ℕ × Ring × Ring)
    → openable host st relid gpadl target downstream ≡ some r
    → Grant host st (record { gpadl = gpadl; target_vp = target; downstream = downstream }) r.0
unfolding openable
openable_lem host st relid gpadl target downstream r = channel (channel_index host relid) refl
  where
    GrantAt : ℕ → Type 0
    GrantAt = Grant host st (record { gpadl = gpadl; target_vp = target; downstream = downstream })

    Index : ℕ → Type 0
    Index i = (ltb i (length host.devices) ≡ true) × (open_at st i ≡ none)

    ringed :
        (i : ℕ) (g : Gpadl) (both : Option (Ring × Ring))
        → Index i
        → get st.gpadls gpadl ≡ some g
        → rings g downstream ≡ both
        → target < host.vcpu_count
        → (both >>= λ r. some (i, r.0, r.1)) ≡ some r
        → GrantAt r.0
    ringed i g none x held e t f = absurd (cc f)
    ringed i g (some both) x held e t f =
        let same : i ≡ r.0 = ap (λ o. elim o [ none ↦ i | some j ↦ j.0 ]) f in
        subst GrantAt same record {
          in_range = x.0;
          was_closed = x.1;
          stands = record { list = g; held = held; both = both; laid_out = e; target_in = t };
        }

    listed :
        (i : ℕ) (g : Option Gpadl)
        → Index i
        → get st.gpadls gpadl ≡ g
        → target < host.vcpu_count
        → (g >>= λ g. rings g downstream >>= λ r. some (i, r.0, r.1)) ≡ some r
        → GrantAt r.0
    listed i none x held t f = absurd (cc f)
    listed i (some g) x held t f = ringed i g (rings g downstream) x held refl t f

    found : ℕ → Option (ℕ × Ring × Ring)
    found i = get st.gpadls gpadl >>= λ g. rings g downstream >>= λ r. some (i, r.0, r.1)

    aimed :
        (i : ℕ) (b : Bool)
        → Index i
        → ltb target host.vcpu_count ≡ b
        → (if b then found i else none) ≡ some r
        → GrantAt r.0
    aimed i false x e f = absurd (cc f)
    aimed i true x e f = listed i (get st.gpadls gpadl) x refl (ltb→lt target host.vcpu_count e) f

    closed :
        (i : ℕ) (o : Option Open)
        → ltb i (length host.devices) ≡ true
        → open_at st i ≡ o
        → (elim o [ some o ↦ none | none ↦ if ltb target host.vcpu_count then found i else none ])
          ≡ some r
        → GrantAt r.0
    closed i (some o) lt e f = absurd (cc f)
    closed i none lt e f = aimed i (ltb target host.vcpu_count) (lt, e) refl f

    channel :
        (i : Option ℕ)
        → channel_index host relid ≡ i
        → (i >>= λ i. elim (open_at st i) [
          | some o ↦ none
          | none ↦ if ltb target host.vcpu_count then found i else none
        ])
          ≡ some r
        → GrantAt r.0
    channel none e f = absurd (cc f)
    channel (some i) e f = closed i (open_at st i) (channel_index_lem host relid i e) refl f
