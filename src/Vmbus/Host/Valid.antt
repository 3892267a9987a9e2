-- ===== src/Vmbus/Host/Valid.antt =====
-- What src/vmbus/mod.rs keeps true of the bus, whatever the guest posts.
use tinyvmm.Prelude.{
  ℕ, zero, suc, ◌+◌, ◌≤◌, ◌<◌, ◌≡◌, inl, inr, Bool, true, false, Option, none, some, List, [], ◌∷◌,
  All, length, set, Bool-cases, arith, refl, ap, sym, ◌∙◌,
}
use tinyvmm.Vmbus.Ring.{Ring}
use tinyvmm.Vmbus.Host.{
  max_gpadls, max_gpadl_pages, Gpadl, Open, State, Host, Event, get, queue, close_where, reset,
}
use tinyvmm.Vmbus.Host.PageLists.{rings}
use tinyvmm.Vmbus.Host.Devices.{live, replay, replay-close_where}
use tinyvmm.Vmbus.Host.Lists.{Ascending, Entry}

-- A page list is of a size that the host accepts, with no more pages than it is to have.
pub record GpadlFits (g : Gpadl) : Type 0 where
  pub some_pages : 1 ≤ g.pages
  pub few_pages : g.pages ≤ max_gpadl_pages
  pub pfns_fit : length g.pfns ≤ g.pages

-- An open channel stands on a complete page list that the guest has not taken back, and interrupts a vCPU
-- that there is.
pub record BackedBy (gs : List (ℕ × Gpadl)) (vcpus : ℕ) (o : Open) : Type 0 where
  pub list : Gpadl
  pub held : get gs o.gpadl ≡ some list
  pub both : Ring × Ring
  pub laid_out : rings list o.downstream ≡ some both
  pub target_in : o.target_vp < vcpus

abbrev pub Backed : List (ℕ × Gpadl) → ℕ → Option Open → Type 0
Backed gs vcpus none = Unit
Backed gs vcpus (some o) = BackedBy gs vcpus o

pub record IsValid (host : Host) (ds : List Bool) (st : State) : Type 0 where
  pub shown : live st.channels ≡ ds
  pub each : length st.channels ≡ length host.devices
  pub few : length st.gpadls ≤ max_gpadls
  pub lists : All (Entry GpadlFits) st.gpadls
  pub sorted : Ascending st.gpadls
  pub backed : All (Backed st.gpadls host.vcpu_count) st.channels
  pub idle : st.version ≡ 0 → st.gpadls ≡ []

-- A list of page lists in the place of another, where the channels find the same.
pub Backed-same :
    (gs gs' : List (ℕ × Gpadl)) (vcpus : ℕ) (os : List (Option Open))
    → ((o : Open) → BackedBy gs vcpus o → get gs' o.gpadl ≡ get gs o.gpadl)
    → All (Backed gs vcpus) os
    → All (Backed gs' vcpus) os
Backed-same gs gs' vcpus [] same a = tt
Backed-same gs gs' vcpus (none ∷ os) same (p, a) = (tt, Backed-same gs gs' vcpus os same a)
Backed-same gs gs' vcpus (some o ∷ os) same (p, a) = (
  record {
    list = p.list;
    held = same o p ∙ p.held;
    both = p.both;
    laid_out = p.laid_out;
    target_in = p.target_in;
  },
  Backed-same gs gs' vcpus os same a,
)

module _ (P : Option Open → Type 0) where
  pub All-set :
      (os : List (Option Open)) (i : ℕ) (o : Option Open) → All P os → P o → All P (set os i o)
  All-set [] i o a p = tt
  All-set (x ∷ os) zero o (q, a) p = (p, a)
  All-set (x ∷ os) (suc i) o (q, a) p = (q, All-set os i o a p)

-- Closing channels keeps their number, and what holds of the others.
pub length-close_where :
    (which : Open → Bool) (i : ℕ) (os : List (Option Open))
    → length (close_where which i os).0 ≡ length os
length-close_where which i [] = refl
length-close_where which i (none ∷ os) = ap suc (length-close_where which (i + 1) os)
length-close_where which i (some o ∷ os) =
    let rest : length (close_where which (i + 1) os).0 ≡ length os =
      length-close_where which (i + 1) os in
    elim (Bool-cases (which o)) [ inl e ↦ rw e (ap suc rest) | inr e ↦ rw e (ap suc rest) ]

pub close_where-Backed :
    (gs gs' : List (ℕ × Gpadl)) (vcpus : ℕ) (which : Open → Bool) (i : ℕ) (os : List (Option Open))
    → ((o : Open) → which o ≡ false → get gs' o.gpadl ≡ get gs o.gpadl)
    → All (Backed gs vcpus) os
    → All (Backed gs' vcpus) (close_where which i os).0
close_where-Backed gs gs' vcpus which i [] same a = tt
close_where-Backed gs gs' vcpus which i (none ∷ os) same (p, a) =
    (tt, close_where-Backed gs gs' vcpus which (i + 1) os same a)
close_where-Backed gs gs' vcpus which i (some o ∷ os) same (p, a) =
    let rest : All (Backed gs' vcpus) (close_where which (i + 1) os).0 =
      close_where-Backed gs gs' vcpus which (i + 1) os same a in
    elim (Bool-cases (which o)) [
      | inl e ↦ rw e (tt, rest)
      | inr e ↦ rw e (
        record {
          list = p.list;
          held = same o e ∙ p.held;
          both = p.both;
          laid_out = p.laid_out;
          target_in = p.target_in;
        },
        rest,
      )
    ]

module _ (host : Host) (ds : List Bool) where
  -- What a message does to the bus, and that the devices may get the calls.
  pub record Keeps (r : State × List Event) : Type 0 where
    pub now : List Bool
    pub told : replay r.1 ds ≡ some now
    pub valid : IsValid host now r.0

  -- No device is called.
  pub quiet : (st : State) → IsValid host ds st → Keeps (st, [])
  quiet st v = record { now = ds; told = refl; valid = v }

  pub queue-IsValid : (st : State) (m : List ℕ) → IsValid host ds st → IsValid host ds (queue st m)
  unfolding queue
  queue-IsValid st m v = record {
    shown = v.shown;
    each = v.each;
    few = v.few;
    lists = v.lists;
    sorted = v.sorted;
    backed = v.backed;
    idle = v.idle;
  }

  pub reset-Keeps : (st : State) → IsValid host ds st → Keeps (reset st)
  unfolding reset
  reset-Keeps st v = record {
    now = live (close_where (λ o. true) 0 st.channels).0;
    told =
        ap (replay (close_where (λ o. true) 0 st.channels).1) (sym v.shown)
        ∙ replay-close_where (λ o. true) st.channels;
    valid = record {
      shown = refl;
      each = length-close_where (λ o. true) 0 st.channels ∙ v.each;
      few = omega arith;
      lists = tt;
      sorted = tt;
      backed =
          close_where-Backed st.gpadls [] host.vcpu_count (λ o. true) 0 st.channels
            (λ o e. absurd (cc e)) v.backed;
      idle = λ e. refl;
    };
  }
