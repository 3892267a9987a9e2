-- ===== src/Vmbus/Ring/Fills.antt =====
-- The walk of src/vmbus/ring.rs that copies from the data into a buffer.
use tinyvmm.Prelude.{
  ℕ, zero, suc, ◌+◌, ◌-◌, ◌%◌, ◌≤◌, ◌<◌, ◌≡◌, inl, inr, true, some, List, ◌++◌, length, take, drop,
  get_or, length-append, length-take, length-drop, ltb, Bool-cases, arith, refl, ap, sym, ◌∙◌,
}
use tinyvmm.Memory.{GuestMemory, region_off, read_host}
use tinyvmm.Memory.Access.{read_array-some}
use tinyvmm.Vmbus.Ring.{page, Ring, size, walk_from, copy_in}
use tinyvmm.Vmbus.Ring.Places.{Laid, loc, round-lt, round-round}
use tinyvmm.Vmbus.Ring.Walks.{
  get_or-append_left, get_or-append_right, get_or-take, length-read_host, get_or-read_host, address,
  chunk, loc_side, chunk_round, chunk_mapped, walk_from-step, walk_from-end,
}

-- A slice of the buffer replaced.
abbrev splice : List ℕ → ℕ → ℕ → List ℕ → List ℕ
splice buf at n bytes = take at buf ++ (bytes ++ drop (at + n) buf)

record Spliced (buf : List ℕ) (at n : ℕ) (bytes out : List ℕ) : Type 0 where
  pub len : length out ≡ length buf
  pub before : (k : ℕ) → k < at → get_or out k 0 ≡ get_or buf k 0
  pub within : (k : ℕ) → k < n → get_or out (at + k) 0 ≡ get_or bytes k 0

splice-Spliced :
    (buf : List ℕ) (at n : ℕ) (bytes : List ℕ)
    → length bytes ≡ n
    → at + n ≤ length buf
    → Spliced buf at n bytes (splice buf at n bytes)
splice-Spliced buf at n bytes h k =
    let front : length (take at buf) ≡ at = omega (arith, length-take at buf) in
    record {
      len = omega (
        arith,
        length-append (take at buf) (bytes ++ drop (at + n) buf),
        length-append bytes (drop (at + n) buf),
        length-drop (at + n) buf,
        front,
      );
      before = λ i lt.
          get_or-append_left (take at buf) (bytes ++ drop (at + n) buf) i (omega arith)
          ∙ get_or-take at buf i lt;
      within = λ i lt.
          get_or-append_right (take at buf) (bytes ++ drop (at + n) buf) (at + i) i (omega arith)
          ∙ get_or-append_left bytes (drop (at + n) buf) i (omega arith);
    }

-- The walk into a buffer ends; it fills the buffer from `done` on with the bytes of the data from `off`
-- on, going round.
pub record Filled (b : ℕ → ℕ) (ring : Ring) (host : ℕ → ℕ) (off done : ℕ) (buf out : List ℕ)
    : Type 0 where
  pub len : length out ≡ length buf
  pub before : (k : ℕ) → k < done → get_or out k 0 ≡ get_or buf k 0
  pub filled :
      (k : ℕ)
      → done + k < length buf
      → get_or out (done + k) 0 ≡ b (loc host ((off + k) % size ring))

-- A round, then the rest.
Filled-step :
    {b : ℕ → ℕ} {ring : Ring} {host : ℕ → ℕ} {off done n : ℕ} {buf mid out bytes : List ℕ}
    → Spliced buf done n bytes mid
    → ((k : ℕ) → k < n → get_or bytes k 0 ≡ b (loc host ((off + k) % size ring)))
    → Filled b ring host ((off + n) % size ring) (done + n) mid out
    → Filled b ring host off done buf out
Filled-step {b} {ring} {host} {off} {done} {n} {buf} {mid} {out} {bytes} s side f = record {
  len = f.len ∙ s.len;
  before = λ k lt. f.before k (omega arith) ∙ s.before k lt;
  filled = λ k lt. elim (Bool-cases (ltb k n)) [
    | inl e ↦
        let near : k < n = ground arith in
        f.before (done + k) (omega arith) ∙ s.within k near ∙ side k near
    | inr e ↦
        let far : n ≤ k = ground arith in
        let rest : done + k ≡ done + n + (k - n) = omega arith in
        let index : off + (n + (k - n)) ≡ off + k = omega arith in
        ap (λ i. get_or out i 0) rest
        ∙ f.filled (k - n) (omega (arith, s.len))
        ∙ ap (λ i. b (loc host i))
            (round-round (size ring) off n (k - n) ∙ ap (λ t. t % size ring) index)
  ];
}

copy_in-some :
    (m : GuestMemory) (gpa at n : ℕ) (buf : List ℕ) {p : ℕ}
    → region_off m gpa n ≡ some p
    → copy_in m gpa at n buf ≡ (splice buf at n (read_host m.base p n), true)
unfolding copy_in
copy_in-some m gpa at n buf e = rw (read_array-some m gpa n e, copy_in) refl

pub walk_in_lem :
    {m : GuestMemory} {ring : Ring} {host : ℕ → ℕ} (len fuel off done : ℕ) (buf : List ℕ)
    → Laid m ring host
    → off < size ring
    → length buf ≡ len
    → len ≤ done + fuel
    → (out : List ℕ) × (walk_from ring len (copy_in m) fuel off done buf ≡ some (out, true))
      × Filled m.base ring host off done buf out
walk_in_lem {m} {ring} len zero off done buf l h e k = (
  buf,
  walk_from-end ring len (copy_in m) zero off done buf (omega arith),
  record { len = refl; before = λ i lt. refl; filled = λ i lt. absurd (omega arith) },
)
walk_in_lem {m} {ring} {host} len (suc fuel) off done buf l h e k =
    elim (Bool-cases (ltb done len)) [
      | inr e' ↦
          let over : len ≤ done = ground arith in
          (
            buf,
            walk_from-end ring len (copy_in m) (suc fuel) off done buf over,
            record { len = refl; before = λ i lt. refl; filled = λ i lt. absurd (omega arith) },
          )
      | inl e' ↦
          let more : done < len = ground arith in
          let n = chunk l off (len - done) in
          let bytes = read_host m.base (loc host off) n in
          let mid = splice buf done n bytes in
          let small : off % page + n ≤ page = omega arith in
          let s : Spliced buf done n bytes mid =
            splice-Spliced buf done n bytes (length-read_host m.base (loc host off) n)
              (omega arith) in
          let off' = (off + n) % size ring in
          let (out, eq, f) =
            walk_in_lem len fuel off' (done + n) mid l
              (round-lt (size ring) off n h (omega (arith, l.enough))) (s.len ∙ e) (omega arith) in
          (
            out,
            walk_from-step l len (copy_in m) fuel off done buf mid h more
                  (copy_in-some m (address l off) done n buf (chunk_mapped l off n h small))
                ∙ eq,
            Filled-step s
                (λ i lt.
                  get_or-read_host m.base (loc host off) n i lt
                  ∙ ap m.base (
                      sym (
                        ap (loc host) (chunk_round l off i h (omega arith))
                        ∙ loc_side l off i (omega arith))))
                f,
          )
    ]
