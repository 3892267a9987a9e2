-- ===== src/Vmbus/Ring/Traffic.antt =====
-- Any traffic over a ring of src/vmbus/ring.rs, beside a bounded queue.
use tinyvmm.Prelude.{
  ℕ, ◌+◌, ◌/◌, ◌^◌, ◌<◌, ◌≤◌, ◌≡◌, inl, inr, Bool, Option, none, some, List, [], ◌∷◌, ◌++◌, length,
  ltb, ◌>>=◌, if◌then◌else◌, Bool-cases, All, All-append, ltb→lt, arith, refl, ap, sym, ◌∙◌,
}
use tinyvmm.Memory.{GuestMemory, Guest}
use tinyvmm.Vmbus.Ring.{Ring, size, Error, Result, ok, err, read, write}
use tinyvmm.Vmbus.Ring.Places.{Laid, Laid-base}
use tinyvmm.Vmbus.Ring.Packets.{len_of, total, padded, used}
use tinyvmm.Vmbus.Ring.Fifo.{Contents}
use tinyvmm.Vmbus.Ring.Writing.{write_lem, write_full_lem}
use tinyvmm.Vmbus.Ring.Reading.{read_lem, read_empty, after_read}

-- A call at one end of the ring or the other.
pub data Call : Type 0 where
  send : List ℕ → Call
  receive : Call

-- What a call gives: a refusal, an accepted packet, a packet's payload, or nothing.
pub data Reply : Type 0 where
  accepted : Reply
  refused : Reply
  received : List ℕ → Reply
  nothing : Reply
  failed : Reply

-- The calls on the ring in memory, one after another; the guest does nothing of its own at the fence.
abbrev idle : Guest
idle b = b

abbrev pub sent : Result Bool → Reply
sent (ok b) = accepted
sent (err Error.full) = refused
sent (err Error.corrupt) = failed

abbrev pub got : List ℕ → Result (Option ℕ) → Reply
got buf (ok none) = nothing
got buf (ok (some kind)) = received buf
got buf (err e) = failed

unfoldable pub run : Ring → ℕ → GuestMemory → List Call → Option (List Reply)
run ring max m [] = some []
run ring max m (send p ∷ calls) =
    write idle m ring p >>= λ r. run ring max r.1 calls >>= λ rest. some (sent r.0 ∷ rest)
run ring max m (receive ∷ calls) =
    read m ring [] max >>= λ r. run ring max r.2 calls >>= λ rest. some (got r.1 r.0 ∷ rest)

-- The same on a list of packets, with room for fewer than `n` bytes.
abbrev accepts : ℕ → List (List ℕ) → List ℕ → Bool
accepts n ps p = ltb (used ps + total p) n

unfoldable pub queue : ℕ → List (List ℕ) → List Call → List Reply
queue n ps [] = []
queue n ps (send p ∷ calls) =
    let grown = queue n (ps ++ (p ∷ [])) calls in
    let same = queue n ps calls in if accepts n ps p then accepted ∷ grown else refused ∷ same
queue n [] (receive ∷ calls) = nothing ∷ queue n [] calls
queue n (p ∷ ps) (receive ∷ calls) = received (padded p) ∷ queue n ps calls

-- A packet that the length field can count, and that the reader takes.
abbrev pub Fits : ℕ → List ℕ → Type 0
Fits max p = (len_of p / 8 < 2 ^ 16) × (length (padded p) ≤ max)

abbrev pub CallFits : ℕ → Call → Type 0
CallFits max (send p) = Fits max p
CallFits max receive = Unit

-- The calls on a ring in RAM, of two to 65536 different pages, from a ring that holds `ps`, give what they
-- give on the list `ps`: a queue that refuses a packet exactly when its bytes would leave no room. No call panics or fails. Every packet
-- that the ring holds or that is sent has a length that the descriptor's field can count, and, padded, is no
-- longer than what the reader takes.
pub run_refines :
    {ring : Ring} {host : ℕ → ℕ} (max : ℕ) (m : GuestMemory) (ps : List (List ℕ))
    (calls : List Call) {w r : ℕ}
    → Laid m ring host
    → Contents m.base ring host w r ps
    → All (Fits max) ps
    → All (CallFits max) calls
    → run ring max m calls ≡ some (queue (size ring) ps calls)
unfolding run queue
run_refines max m ps [] l c f g = refl
run_refines {ring} {host} max m ps (send p ∷ calls) {w} {r} l c f (g, gs) =
    let after : Option (Result Bool × GuestMemory) → Option (List Reply) =
      λ o. o >>= λ d. run ring max d.1 calls >>= λ rest. some (sent d.0 ∷ rest) in
    let grown = queue (size ring) (ps ++ (p ∷ [])) calls in
    let same = queue (size ring) ps calls in
    let answer : Bool → List Reply = λ t. if t then accepted ∷ grown else refused ∷ same in
    elim (Bool-cases (accepts (size ring) ps p)) [
      | inl e ↦
          let (b', eq, c') = write_lem l idle p c (ltb→lt _ _ e) g.0 in
          ap after eq
          ∙ ap (λ o. o >>= λ rest. some (accepted ∷ rest))
              (run_refines max (record m { base = b' }) (ps ++ (p ∷ [])) calls (Laid-base b' l) c'
                (All-append (Fits max) ps (p ∷ []) f (g, tt)) gs)
          ∙ ap (λ t. some (answer t)) (sym e)
      | inr e ↦
          let big : size ring ≤ used ps + total p = ground arith in
          ap after (write_full_lem l idle p c (inl big))
          ∙ ap (λ o. o >>= λ rest. some (refused ∷ rest)) (run_refines max m ps calls l c f gs)
          ∙ ap (λ t. some (answer t)) (sym e)
    ]
run_refines {ring} max m [] (receive ∷ calls) l c f (g, gs) =
    ap (λ o. o >>= λ d. run ring max d.2 calls >>= λ rest. some (got d.1 d.0 ∷ rest))
      (read_empty l [] max c)
    ∙ ap (λ o. o >>= λ rest. some (nothing ∷ rest)) (run_refines max m [] calls l c f gs)
run_refines {ring} {host} max m (p ∷ ps) (receive ∷ calls) {w} {r} l c (f, fs) (g, gs) =
    let (eq, c') = read_lem l p [] max ps c f.1 in
    ap (λ o. o >>= λ d. run ring max d.2 calls >>= λ rest. some (got d.1 d.0 ∷ rest)) eq
    ∙ ap (λ o. o >>= λ rest. some (received (padded p) ∷ rest))
        (run_refines max (record m { base = after_read l r p }) ps calls
          (Laid-base (after_read l r p) l) c' fs gs)
