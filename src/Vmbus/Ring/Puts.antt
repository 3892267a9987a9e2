-- ===== src/Vmbus/Ring/Puts.antt =====
-- The walk of src/vmbus/ring.rs that copies a packet into the data.
use tinyvmm.Prelude.{
  ℕ, zero, suc, ◌+◌, ◌-◌, ◌%◌, ◌≤◌, ◌<◌, ◌≡◌, ◌≢◌, ◌⊎◌, inl, inr, true, some, List, length, take,
  drop, get_or, length-take, length-drop, ltb, Bool-cases, arith, refl, ap, sym, ◌∙◌,
}
use tinyvmm.Memory.{GuestMemory, region_off, write_host}
use tinyvmm.Memory.Access.{write_bytes-some}
use tinyvmm.Vmbus.Ring.{page, Ring, size, walk_from, copy_out}
use tinyvmm.Vmbus.Ring.Places.{Laid, Laid-base, loc, loc_apart, round-lt, round-round, round_apart}
use tinyvmm.Vmbus.Ring.Walks.{
  get_or-take, get_or-drop, write_host-in, write_host-out, address, chunk, loc_side, chunk_round,
  chunk_mapped, walk_from-step, walk_from-end,
}

-- What the packet's bytes from `done` on make of the data from `off` on; all other bytes stay.
pub record Put (b b' : ℕ → ℕ) (ring : Ring) (host : ℕ → ℕ) (off done : ℕ) (packet : List ℕ)
    : Type 0 where
  pub there :
      (k : ℕ)
      → done + k < length packet
      → b' (loc host ((off + k) % size ring)) ≡ get_or packet (done + k) 0
  pub kept :
      (i : ℕ)
      → ((k : ℕ) → done + k < length packet → i ≢ loc host ((off + k) % size ring))
      → b' i ≡ b i

-- A round, then the rest: the packet is no longer than the data, so that it does not meet itself.
Put-step :
    {m : GuestMemory} {b b' : ℕ → ℕ} {ring : Ring} {host : ℕ → ℕ} {off done n : ℕ} {packet : List ℕ}
    (bytes : List ℕ)
    → Laid m ring host
    → off < size ring
    → length packet ≤ done + size ring
    → n ≤ length packet - done
    → off % page + n ≤ page
    → length bytes ≡ n
    → ((k : ℕ) → k < n → get_or bytes k 0 ≡ get_or packet (done + k) 0)
    → Put (write_host b (loc host off) bytes) b' ring host ((off + n) % size ring) (done + n) packet
    → Put b b' ring host off done packet
Put-step {m} {b} {b'} {ring} {host} {off} {done} {n} {packet} bytes l h fits part small len same p =
    record {
      there = λ k lt. elim (Bool-cases (ltb k n)) [
        | inl e ↦
            let near : k < n = ground arith in
            let place : loc host ((off + k) % size ring) ≡ loc host off + k =
              ap (loc host) (chunk_round l off k h (omega arith))
              ∙ loc_side l off k (omega arith) in
            p.kept (loc host ((off + k) % size ring)) (λ j lt'. λ clash.
              loc_apart l ((off + k) % size ring) ((off + (n + j)) % size ring)
                (round-lt (size ring) off k h (omega arith))
                (round-lt (size ring) off (n + j) h (omega arith))
                (round_apart (size ring) off k (n + j) h (omega arith) (omega arith)
                  (λ eq. absurd (omega arith)))
                (clash ∙ ap (loc host) (round-round (size ring) off n j)))
            ∙ write_host-in b (loc host off) bytes (loc host ((off + k) % size ring)) k place
                (omega arith)
            ∙ same k near
        | inr e ↦
            let far : n ≤ k = ground arith in
            let index : off + (n + (k - n)) ≡ off + k = omega arith in
            let rest : done + n + (k - n) ≡ done + k = omega arith in
            ap b' (
              ap (loc host)
                (sym (round-round (size ring) off n (k - n) ∙ ap (λ t. t % size ring) index)))
            ∙ p.there (k - n) (omega arith)
            ∙ ap (λ i. get_or packet i 0) rest
      ];
      kept = λ i apart.
          p.kept i (λ j lt eq.
            apart (n + j) (omega arith) (eq ∙ ap (loc host) (round-round (size ring) off n j)))
          ∙ write_host-out b (loc host off) bytes i (outside i apart);
    }
  where
    outside :
        (i : ℕ)
        → ((k : ℕ) → done + k < length packet → i ≢ loc host ((off + k) % size ring))
        → (i < loc host off) ⊎ (loc host off + length bytes ≤ i)
    outside i apart = elim (Bool-cases (ltb i (loc host off))) [
      | inl e ↦ inl (ground arith)
      | inr e ↦ elim (Bool-cases (ltb (i - loc host off) n)) [
        | inr e' ↦ inr (ground arith)
        | inl e' ↦
            let k = i - loc host off in
            let near : k < n = ground arith in
            let place : loc host ((off + k) % size ring) ≡ loc host off + k =
              ap (loc host) (chunk_round l off k h (omega arith))
              ∙ loc_side l off k (omega arith) in
            absurd (apart k (omega arith) (ground (arith, place)))
      ]
    ]

copy_out-some :
    (m : GuestMemory) (packet : List ℕ) (gpa at n : ℕ) {p : ℕ}
    → at + n ≤ length packet
    → region_off m gpa n ≡ some p
    → copy_out packet gpa at n m
      ≡ (record m { base = write_host m.base p (take n (drop at packet)) }, true)
unfolding copy_out
copy_out-some m packet gpa at n h e =
    let len : length (take n (drop at packet)) ≡ n =
      omega (arith, length-take n (drop at packet), length-drop at packet) in
    write_bytes-some m gpa (take n (drop at packet)) (ap (region_off m gpa) len ∙ e)

pub walk_out_lem :
    {ring : Ring} {host : ℕ → ℕ} (m : GuestMemory) (packet : List ℕ) (fuel off done : ℕ)
    → Laid m ring host
    → off < size ring
    → length packet ≤ done + fuel
    → length packet ≤ done + size ring
    → (b' : ℕ → ℕ) × (walk_from ring (length packet) (copy_out packet) fuel off done m
        ≡ some (record m { base = b' }, true))
      × Put m.base b' ring host off done packet
walk_out_lem {ring} m packet zero off done l h k fits = (
  m.base,
  walk_from-end ring (length packet) (copy_out packet) zero off done m (omega arith),
  record { there = λ i lt. absurd (omega arith); kept = λ i apart. refl },
)
walk_out_lem {ring} {host} m packet (suc fuel) off done l h k fits =
    elim (Bool-cases (ltb done (length packet))) [
      | inr e ↦
          let over : length packet ≤ done = ground arith in
          (
            m.base,
            walk_from-end ring (length packet) (copy_out packet) (suc fuel) off done m over,
            record { there = λ i lt. absurd (omega arith); kept = λ i apart. refl },
          )
      | inl e ↦
          let more : done < length packet = ground arith in
          let n = chunk l off (length packet - done) in
          let bytes = take n (drop done packet) in
          let small : off % page + n ≤ page = omega arith in
          let b = write_host m.base (loc host off) bytes in
          let (b', eq, p) =
            walk_out_lem (record m { base = b }) packet fuel ((off + n) % size ring) (done + n)
              (Laid-base b l) (round-lt (size ring) off n h (omega (arith, l.enough))) (omega arith)
              (omega arith) in
          (
            b',
            walk_from-step l (length packet) (copy_out packet) fuel off done m
                  (record m { base = b }) h more
                  (copy_out-some m packet (address l off) done n (omega arith)
                    (chunk_mapped l off n h small))
                ∙ eq,
            Put-step bytes l h fits (omega arith) small
                (omega (arith, length-take n (drop done packet), length-drop done packet))
                (λ i lt. get_or-take n (drop done packet) i lt ∙ get_or-drop done packet i) p,
          )
    ]
