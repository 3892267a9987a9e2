-- ===== src/Vmbus/Host/Steps.antt =====
-- The bus of src/vmbus/mod.rs under whatever its vCPUs do, in any order: hypercalls over any memory, the flush
-- before a vCPU enters the guest, and the notice that a slot is free.
use tinyvmm.Prelude.{
  ℕ, suc, ◌^◌, ◌≡◌, Bool, true, false, not, ◌&&◌, ◌||◌, List, [], ◌∷◌, ◌++◌, All, length, ◌==◌,
  if◌then◌else◌, bit_and, arith, refl, ap, ◌∙◌,
}
use tinyvmm.Memory.{GuestMemory}
use tinyvmm.Vmbus.Protocol.{sint}
use tinyvmm.Vmbus.Host.{Gpadl, State, Host, Event, closed_channels, initial}
use tinyvmm.Vmbus.Host.Hypercalls.{hypercall, flush, sints_deliverable}
use tinyvmm.Vmbus.Host.Devices.{live, replay-append}
use tinyvmm.Vmbus.Host.Valid.{Backed, IsValid, Keeps, quiet}
use tinyvmm.Vmbus.Host.Answers.{Serves, hypercall-Serves}

-- What a vCPU does to the bus, with the calls of the devices that it makes.
pub data Step (host : Host) : State → List Event → State → Type 0 where
  calls :
      {st : State}
      → (mem : GuestMemory) (vp control input : ℕ)
      → Step host st
          (hypercall host mem st vp control input).events
          (hypercall host mem st vp control input).state
  flushes : {st : State} → (vp slots : ℕ) → Step host st [] (flush vp slots st).1
  frees : {st : State} → (vp sints : ℕ) → Step host st [] (sints_deliverable vp sints st)

-- The states that a run of the bus comes to, with all the calls of the devices so far.
pub data Reaches (host : Host) : List Event → State → Type 0 where
  start : Reaches host [] (initial host)
  next :
      {es es' : List Event}
      → {st st' : State} → Reaches host es st
      → Step host st es' st'
      → Reaches host (es ++ es') st'

module _ (host : Host) where
  All-closed :
      (gs : List (ℕ × Gpadl)) (vcpus : ℕ) (devices : List (List ℕ × List ℕ))
      → All (Backed gs vcpus) (closed_channels devices)
  All-closed gs vcpus [] = tt
  All-closed gs vcpus (d ∷ devices) = (tt, All-closed gs vcpus devices)

  length-closed :
      (devices : List (List ℕ × List ℕ)) → length (closed_channels devices) ≡ length devices
  length-closed [] = refl
  length-closed (d ∷ devices) = ap suc (length-closed devices)

  initial-IsValid : IsValid host (live (closed_channels host.devices)) (initial host)
  initial-IsValid = record {
    shown = refl;
    each = length-closed host.devices;
    few = omega arith;
    lists = tt;
    sorted = tt;
    backed = All-closed [] host.vcpu_count host.devices;
    idle = λ e. refl;
  }

  flush-IsValid :
      (ds : List Bool) (st : State) (vp slots : ℕ)
      → IsValid host ds st
      → IsValid host ds (flush vp slots st).1
  unfolding flush
  flush-IsValid ds st vp slots v = second (not st.outbox_ready) _ _ v (
      second (not (vp == st.target_vp) || st.slot_busy) _ _ v record {
        shown = v.shown;
        each = v.each;
        few = v.few;
        lists = v.lists;
        sorted = v.sorted;
        backed = v.backed;
        idle = v.idle;
      })
    where
      second :
          (b : Bool) (x y : List (List ℕ) × State)
          → IsValid host ds x.1
          → IsValid host ds y.1
          → IsValid host ds (if b then x else y).1
      second true x y hx hy = hx
      second false x y hx hy = hy

  frees-IsValid :
      (ds : List Bool) (st : State) (vp sints : ℕ)
      → IsValid host ds st
      → IsValid host ds (sints_deliverable vp sints st)
  unfolding sints_deliverable
  frees-IsValid ds st vp sints v = either (bit_and sints (2 ^ sint) == 0) st _ v (
      either (vp == st.target_vp && st.slot_busy) _ st
        (record {
          shown = v.shown;
          each = v.each;
          few = v.few;
          lists = v.lists;
          sorted = v.sorted;
          backed = v.backed;
          idle = v.idle;
        })
        v)
    where
      either :
          (b : Bool) (x y : State)
          → IsValid host ds x
          → IsValid host ds y
          → IsValid host ds (if b then x else y)
      either true x y hx hy = hx
      either false x y hx hy = hy

  step-Keeps :
      (ds : List Bool) (st : State) (es : List Event) (st' : State)
      → IsValid host ds st
      → Step host st es st'
      → Keeps host ds (st', es)
  step-Keeps ds st es st' v (calls mem vp control input) =
      Serves.keeps (hypercall-Serves host ds st v mem vp control input)
  step-Keeps ds st es st' v (flushes vp slots) =
      quiet host ds (flush vp slots st).1 (flush-IsValid ds st vp slots v)
  step-Keeps ds st es st' v (frees vp sints) =
      quiet host ds (sints_deliverable vp sints st) (frees-IsValid ds st vp sints v)

  -- However the vCPUs' hypercalls, over any memory, the flushes and the free slots follow each other: no device
  -- is opened twice, nor closed or signaled while it is closed; the channels that are open are those that the
  -- devices think open, and each stands on a page list that is complete, that the guest has not taken back,
  -- and whose two parts are laid out as rings; there are at most `max_gpadls` page lists, each of at most
  -- `max_gpadl_pages` pages, and none before the guest has connected.
  pub reaches_lem :
      (es : List Event) (st : State)
      → Reaches host es st
      → Keeps host (live (closed_channels host.devices)) (st, es)
  reaches_lem es st start =
      quiet host (live (closed_channels host.devices)) (initial host) initial-IsValid
  reaches_lem es st (next {es = before} {es' = after} r s) =
      let w = reaches_lem before _ r in
      let w' = step-Keeps w.now _ after st w.valid s in
      record {
        now = w'.now;
        told = replay-append before after _ w.now w.told ∙ w'.told;
        valid = w'.valid;
      }
