-- ===== src/Vmbus/Ring/Tests.antt =====
-- The ring of the tests of src/vmbus/ring.rs: data pages that are neither adjacent nor in order.
use tinyvmm.Prelude.{
  ℕ, zero, suc, sym, ap, ◌∙◌, ◌+◌, ◌%◌, ◌≡◌, ◌<◌, ◌==◌, ◌&&◌, none, some, List, [], ◌∷◌, ◌++◌,
  get_or, replicate, refl, arith, if◌then◌else◌,
}
use tinyvmm.Memory.{GuestMemory, run_guest, region_off}
use tinyvmm.Vmbus.Ring.{
  page, Ring, new, read, write, ok, Reading, Writing, read_index, interrupt_mask,
}
use tinyvmm.Vmbus.Ring.Places.{Laid}
use tinyvmm.Vmbus.Ring.Control.{word, stored}
use tinyvmm.Vmbus.Ring.Fifo.{Contents}
use tinyvmm.Vmbus.Ring.Writing.{write_lem}
use tinyvmm.Vmbus.Ring.Traffic.{
  Call, send, receive, accepted, received, nothing, run, queue, run_refines,
}
use tinyvmm.Vmbus.Ring.Hostile.{Bounded, hostile_lem}

-- Eight pages of RAM; both indices stand 24 bytes before the end of the data.
abbrev start : ℕ → ℕ
start = stored (stored (λ i. 0) 4096 8168) 4100 8168

abbrev ram : GuestMemory
ram = record { base = start; gpa = 0; size = 32_768; split = none }

abbrev ring : Ring
ring = record { pages = 4096 ∷ 16_384 ∷ 8192 ∷ [] }

abbrev host : ℕ → ℕ
host j = get_or ring.pages j 0

new-three : new (1 ∷ 4 ∷ 2 ∷ []) ≡ some ring
unfolding new
new-three = refl

mapped : (j : ℕ) → j < 3 → region_off ram (host j) page ≡ some (host j)
unfolding region_off
mapped zero h = refl
mapped (suc zero) h = refl
mapped (suc (suc zero)) h = refl
mapped (suc (suc (suc j))) h = absurd (omega arith)

aligned : (j : ℕ) → j < 3 → host j % page ≡ 0
aligned zero h = refl
aligned (suc zero) h = refl
aligned (suc (suc zero)) h = refl
aligned (suc (suc (suc j))) h = absurd (omega arith)

-- No two pages are the same, since each one's address tells its place.
place : ℕ → ℕ
place a = if a == 4096 then 0 else if a == 16_384 then 1 else 2

place-host : (j : ℕ) → j < 3 → place (host j) ≡ j
unfolding place
place-host zero h = refl
place-host (suc zero) h = refl
place-host (suc (suc zero)) h = refl
place-host (suc (suc (suc j))) h = absurd (omega arith)

ram-Laid : Laid ram ring host
ram-Laid = record {
  valid = tt;
  enough = omega arith;
  bounded = omega arith;
  aligned = aligned;
  mapped = mapped;
  distinct = λ i j h k n e. n (sym (place-host i h) ∙ ap place e ∙ place-host j k);
}

empty-Contents : Contents ram.base ring host 8168 8168 []
empty-Contents = record {
  write_word = refl;
  read_word = refl;
  write_in = omega arith;
  read_in = omega arith;
  write_aligned = refl;
  read_aligned = refl;
  held = refl;
  room = omega arith;
}

abbrev text : List ℕ
text = 7 ∷ 8 ∷ 9 ∷ []

abbrev calls : List Call
calls = receive ∷ send text ∷ send [] ∷ receive ∷ receive ∷ []

run_refines_example :
    run ring 64 ram calls
    ≡ some (nothing ∷ accepted ∷ accepted ∷ received (text ++ replicate 5 0) ∷ received [] ∷ [])
unfolding queue
run_refines_example =
    run_refines 64 ram [] calls ram-Laid empty-Contents tt
      (tt, ((omega arith, omega arith), ((omega arith, omega arith), (tt, (tt, tt)))))

hostile_lem_example :
    ((a : Reading) × (read ram ring [] 64 ≡ some a) × Bounded 64 a)
    × ((x : Writing) × (write (λ b. b) ram ring text ≡ some x))
hostile_lem_example = hostile_lem (1 ∷ 4 ∷ 2 ∷ []) ring ram (λ b. b) [] text 64 new-three

-- The reader was caught up and has no mask: it wants a signal.
write_lem_example :
    (b' : ℕ → ℕ) × (write (λ b. b) ram ring text
      ≡ some (
        ok (word b' (host 0 + interrupt_mask) == 0 && word b' (host 0 + read_index) == 8168),
        run_guest (λ b. b) (record ram { base = b' }),
      ))
    × Contents b' ring host 8 8168 (text ∷ [])
write_lem_example = write_lem ram-Laid (λ b. b) text empty-Contents (omega arith) (omega arith)
