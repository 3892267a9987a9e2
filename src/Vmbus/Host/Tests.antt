-- ===== src/Vmbus/Host/Tests.antt =====
-- A guest that connects to the bus of src/vmbus/mod.rs, hands over four pages and opens its first channel.
use tinyvmm.Prelude.{
  ℕ, ◌≡◌, true, false, none, some, List, [], ◌∷◌, ◌++◌, length, get_or, replicate, arith, refl,
}
use tinyvmm.Memory.{GuestMemory, read_array, region_off}
use tinyvmm.Vmbus.Protocol.{words, version_5_0}
use tinyvmm.Vmbus.Host.{Gpadl, Open, State, Host, Event, initial}
use tinyvmm.Vmbus.Host.PageLists.{rings}
use tinyvmm.Vmbus.Host.Hypercalls.{Served, hypercall}
use tinyvmm.Vmbus.Host.Devices.{live, replay}
use tinyvmm.Vmbus.Host.Valid.{IsValid, Keeps}
use tinyvmm.Vmbus.Host.Steps.{calls, start, next, reaches_lem}
use tinyvmm.Vmbus.Host.Snapshot.{save, restore}
use tinyvmm.Vmbus.Host.RoundTrip.{Saves, resumed, restore_lem, restore_refuses}

abbrev host : Host
host = record {
  devices = (replicate 16 1, replicate 16 2) ∷ (replicate 16 3, replicate 16 4) ∷ [];
  vcpu_count = 2;
}

-- A page of RAM with a message to post in it.
abbrev posting : List ℕ → GuestMemory
posting payload = record {
  base = λ i. get_or (words (1 ∷ 0 ∷ 1 ∷ length payload ∷ []) ++ payload) i 0;
  gpa = 0;
  size = 4096;
  split = none;
}

abbrev contact : List ℕ
contact = words (14 ∷ 0 ∷ version_5_0 ∷ 1 ∷ 2 ∷ 0 ∷ [])

abbrev pages : List ℕ
pages = words (8 ∷ 0 ∷ 1 ∷ 7 ∷ 65_536 ∷ 16_384 ∷ 0 ∷ 1 ∷ 0 ∷ 2 ∷ 0 ∷ 3 ∷ 0 ∷ 4 ∷ 0 ∷ [])

abbrev opening : List ℕ
opening = words (5 ∷ 0 ∷ 1 ∷ 9 ∷ 7 ∷ 1 ∷ 2 ∷ [])

abbrev post : State → List ℕ → Served
post st payload = hypercall host (posting payload) st 0 0x5c 0

abbrev connected : State
connected = (post (initial host) contact).state

abbrev shared : State
shared = (post connected pages).state

open_live : live (post shared opening).state.channels ≡ true ∷ false ∷ []
unfolding hypercall read_array region_off
open_live = refl

reaches_lem_example : Keeps host (false ∷ false ∷ []) (
  (post shared opening).state,
  (([] ++ (post (initial host) contact).events) ++ (post connected pages).events)
      ++ (post shared opening).events,
)
reaches_lem_example =
    reaches_lem host
      ((([] ++ (post (initial host) contact).events) ++ (post connected pages).events)
        ++ (post shared opening).events)
      (post shared opening).state
      (next (next (next start (calls (posting contact) 0 0x5c 0)) (calls (posting pages) 0 0x5c 0))
        (calls (posting opening) 0 0x5c 0))

abbrev list : Gpadl
list = record { relid = 1; pages = 4; pfns = 1 ∷ 2 ∷ 3 ∷ 4 ∷ [] }

abbrev opened : Open
opened = record { gpadl = 7; target_vp = 1; downstream = 2 }

abbrev waiting : List ℕ
waiting = replicate 256 0

-- One open channel, and a message that the guest has not taken.
abbrev paused : State
paused = record {
  version = version_5_0;
  target_vp = 1;
  outbox = waiting ∷ [];
  slot_busy = true;
  outbox_ready = false;
  gpadls = (7, list) ∷ [];
  channels = some opened ∷ none ∷ [];
}

paused_rings :
    rings list 2
    ≡ some (record { pages = 4096 ∷ 8192 ∷ [] }, record { pages = 12_288 ∷ 16_384 ∷ [] })
unfolding rings
paused_rings = refl

paused-IsValid : IsValid host (true ∷ false ∷ []) paused
paused-IsValid = record {
  shown = refl;
  each = refl;
  few = omega arith;
  lists =
      (record { some_pages = omega arith; few_pages = omega arith; pfns_fit = omega arith }, tt);
  sorted = (tt, tt);
  backed = (
    record {
      list = list;
      held = refl;
      both = (record { pages = 4096 ∷ 8192 ∷ [] }, record { pages = 12_288 ∷ 16_384 ∷ [] });
      laid_out = paused_rings;
      target_in = omega arith;
    },
    (tt, tt),
  );
  idle = λ e. absurd (omega (arith, e));
}

paused-Saves : Saves host paused
paused-Saves = record {
  valid = paused-IsValid;
  vcpus = omega arith;
  devices = omega arith;
  version = omega arith;
  target = omega arith;
  short = omega arith;
  messages = (refl, tt);
  words = (
    record {
      id_fits = omega arith;
      relid_fits = omega arith;
      pfns_fit = (omega arith, (omega arith, (omega arith, (omega arith, tt))));
    },
    tt,
  );
  opens = ((omega arith, omega arith), (tt, tt));
}

restore_lem_example :
    (events : List Event) × (restore host (save paused) ≡ some (resumed paused, events))
    × (replay events (false ∷ false ∷ []) ≡ some (true ∷ false ∷ []))
restore_lem_example = restore_lem host paused paused-Saves

abbrev crowded : State
crowded = record (initial host) {
  version = version_5_0;
  outbox = replicate 63 waiting;
  slot_busy = true;
}

-- A guest that asks for the offers while 63 messages wait fills the outbox beyond what is restored.
crowded_offers : length (post crowded (words (3 ∷ 0 ∷ []))).state.outbox ≡ 66
unfolding hypercall read_array region_off
crowded_offers = refl

abbrev overfull : State
overfull = record crowded { outbox = replicate 66 waiting }

restore_refuses_example : restore host (save overfull) ≡ none
restore_refuses_example =
    restore_refuses host overfull (omega arith) (omega arith) (omega arith) (omega arith)
