-- ===== src/Vmbus/Ring/Writing.antt =====
-- What `write` of src/vmbus/ring.rs does to a ring that is laid out in RAM.
use tinyvmm.Prelude.{
  ℕ, ◌+◌, ◌-◌, ◌/◌, ◌%◌, ◌^◌, ◌≤◌, ◌<◌, ◌≡◌, ◌⊎◌, inl, Bool, true, false, Option, some, List, [],
  ◌∷◌, ◌++◌, length, get_or, ltb, leb, ◌==◌, ◌>>=◌, ◌||◌, ◌&&◌, if◌then◌else◌, arith, refl, ap, ap₂,
  ◌∙◌, u32,
}
use native.Mathlib.Nat.{mod-eq_of_lt}
use tinyvmm.Memory.{GuestMemory, Guest, run_guest, load_acquire_u32, store_release_u32}
use tinyvmm.Vmbus.Ring.{
  write_index, read_index, interrupt_mask, Error, Result, ok, err, Ring, size, control, walk,
  copy_out, packet_of, Writing, signal, publish, write_at, write,
}
use tinyvmm.Vmbus.Ring.Places.{
  Laid, Laid-base, loc, round-lt, round-round, round-aligned, round_apart, loc_apart,
}
use tinyvmm.Vmbus.Ring.Puts.{Put, walk_out_lem}
use tinyvmm.Vmbus.Ring.Control.{
  word, stored, word-stored_self, word-stored_other, control_lem, load_lem, store_lem, loc-stored,
  word-Put,
}
use tinyvmm.Vmbus.Ring.Packets.{
  len_of, total, length-packet_of, used, Stored, Held, Held-end, Held-frame, Held-append,
  used-append, used_lem,
}
use tinyvmm.Vmbus.Ring.Fifo.{Contents, size_bounded, size_aligned, indices_lem, lt→leb}

lt→ltb_false : (a b : ℕ) → a ≤ b → ltb b a ≡ false
lt→ltb_false a b h = ground arith

zero-add : (k : ℕ) → 0 + k ≡ k
zero-add k = omega arith

-- What the writer reports from the memory that it sees after the fence.
abbrev pub reported : (ℕ → ℕ) → (ℕ → ℕ) → ℕ → Result Bool
reported b host w = ok (word b (host 0 + interrupt_mask) == 0 && word b (host 0 + read_index) == w)

leb_sub : (n u t : ℕ) → u < n → leb (n - u) t ≡ leb n (u + t)
leb_sub n u t h = ground arith

module _ {m : GuestMemory} {ring : Ring} {host : ℕ → ℕ} (l : Laid m ring host) (guest : Guest) where
  publish_lem :
      (w next : ℕ)
      → let b = stored m.base (host 0 + write_index) (u32 next) in
        publish guest m ring w next ≡ some (reported (guest b) host w, record m { base = guest b })
  unfolding publish
  publish_lem w next =
      let b = stored m.base (host 0 + write_index) (u32 next) in
      let page0 = get_or ring.pages 0 0 in
      let after : GuestMemory × Bool → Option Writing = λ c.
        let seen = run_guest guest c.0 in
        if c.1
        then some (
          signal w (load_acquire_u32 seen (page0 + interrupt_mask))
              (load_acquire_u32 seen (page0 + read_index)),
          seen,
        )
        else some (err Error.corrupt, c.0) in
      ap
        (λ o. o >>= λ at. control ring interrupt_mask >>= λ mask. control ring read_index >>= λ r.
          let c = store_release_u32 m at (u32 next) in
          let seen = run_guest guest c.0 in
          if c.1
          then some (signal w (load_acquire_u32 seen mask) (load_acquire_u32 seen r), seen)
          else some (err Error.corrupt, c.0))
        (control_lem l write_index)
      ∙ ap
          (λ o. o >>= λ mask. control ring read_index >>= λ r.
            let c = store_release_u32 m (page0 + write_index) (u32 next) in
            let seen = run_guest guest c.0 in
            if c.1
            then some (signal w (load_acquire_u32 seen mask) (load_acquire_u32 seen r), seen)
            else some (err Error.corrupt, c.0))
          (control_lem l interrupt_mask)
      ∙ ap
          (λ o. o >>= λ r.
            let c = store_release_u32 m (page0 + write_index) (u32 next) in
            let seen = run_guest guest c.0 in
            if c.1
            then some (
              signal w (load_acquire_u32 seen (page0 + interrupt_mask)) (load_acquire_u32 seen r),
              seen,
            )
            else some (err Error.corrupt, c.0))
          (control_lem l read_index)
      ∙ ap after (store_lem l write_index (u32 next) (omega arith) refl)
      ∙ ap₂ (λ a a'. some (signal w a a', record m { base = guest b }))
          (load_lem (Laid-base (guest b) l) interrupt_mask (omega arith) refl)
          (load_lem (Laid-base (guest b) l) read_index (omega arith) refl)

module _ {m : GuestMemory} {ring : Ring} {host : ℕ → ℕ} (l : Laid m ring host) where
  -- The packets before it are where they were.
  earlier_kept :
      {w r : ℕ} {ps : List (List ℕ)} {b' : ℕ → ℕ} (p : List ℕ)
      → Contents m.base ring host w r ps
      → used ps + total p < size ring
      → Put m.base b' ring host w 0 (packet_of w p)
      → Held ring host (stored b' (host 0 + write_index) ((w + total p) % size ring)) w r ps
  earlier_kept {w} {r} {ps} {b'} p c fits put =
      let next = (w + total p) % size ring in
      let b = stored b' (host 0 + write_index) next in
      let len = length-packet_of w p in
      let end : w ≡ (r + used ps) % size ring =
        Held-end ring host m.base w r ps c.read_in c.room c.held in
      Held-frame ring host m.base b w r ps c.read_in c.room
        (λ k lt.
          loc-stored l b' write_index next ((r + k) % size ring) (omega arith)
            (round-lt (size ring) r k c.read_in (omega arith))
          ∙ put.kept (loc host ((r + k) % size ring)) (λ j lt' clash.
            let place : (w + j) % size ring ≡ (r + (used ps + j)) % size ring =
              ap (λ t. (t + j) % size ring) end ∙ round-round (size ring) r (used ps) j in
            loc_apart l ((r + k) % size ring) ((w + j) % size ring)
              (round-lt (size ring) r k c.read_in (omega arith))
              (round-lt (size ring) w j c.write_in (omega (arith, len)))
              (λ eq.
                round_apart (size ring) r k (used ps + j) c.read_in (omega arith)
                  (omega (arith, len)) (λ same. absurd (omega arith)) (eq ∙ place))
              clash))
        c.held

  -- The packet in the data, before the index is published, and after.
  written-Contents :
      {w r : ℕ} {ps : List (List ℕ)} {b' : ℕ → ℕ} (p : List ℕ)
      → Contents m.base ring host w r ps
      → used ps + total p < size ring
      → len_of p / 8 < 2 ^ 16
      → Put m.base b' ring host w 0 (packet_of w p)
      → Contents
          (stored b' (host 0 + write_index) ((w + total p) % size ring))
          ring
          host
          ((w + total p) % size ring)
          r
          (ps ++ (p ∷ []))
  written-Contents {w} {r} {ps} {b'} p c fits short put =
      let next = (w + total p) % size ring in
      let b = stored b' (host 0 + write_index) next in
      let len = length-packet_of w p in
      let next_in : next < size ring = round-lt (size ring) w (total p) c.write_in (omega arith) in
      let data_kept : (i : ℕ) → i < size ring → b (loc host i) ≡ b' (loc host i) =
        λ i lt. loc-stored l b' write_index next i (omega arith) lt in
      let own : Stored ring host b w p = record {
        short = short;
        bytes = λ k lt.
            data_kept ((w + k) % size ring) (round-lt (size ring) w k c.write_in (omega arith))
            ∙ put.there k (omega (arith, len))
            ∙ ap (λ i. get_or (packet_of w p) i 0) (zero-add k);
      } in
      let earlier = earlier_kept p c fits put in
      record {
        write_word =
            word-stored_self b' (host 0 + write_index) next (omega (arith, size_bounded l));
        read_word =
            word-stored_other b' (host 0 + write_index) next (host 0 + read_index)
              (inl (omega arith))
            ∙ word-Put l read_index put c.write_in (omega (arith, len)) (omega arith)
            ∙ c.read_word;
        write_in = next_in;
        read_in = c.read_in;
        write_aligned =
            round-aligned (size ring) w (total p) c.write_in (omega arith) (size_aligned l)
              c.write_aligned (omega arith);
        read_aligned = c.read_aligned;
        held = Held-append ring host b w r ps p earlier own;
        room = omega (arith, used-append ps p);
      }

  -- The two tests of `write`.
  fits_test :
      {w r : ℕ} {ps : List (List ℕ)} (p : List ℕ)
      → Contents m.base ring host w r ps
      → (ltb (2 ^ 16 - 1) (len_of p / 8)
          || leb (size ring - (w + size ring - r) % size ring) (total p))
        ≡ (ltb (2 ^ 16 - 1) (len_of p / 8) || leb (size ring) (used ps + total p))
  fits_test {w} {r} {ps} p c =
      let between : (w + size ring - r) % size ring ≡ used ps =
        used_lem (size ring) w r (used ps) c.read_in c.room
          (Held-end ring host m.base w r ps c.read_in c.room c.held) in
      ap (λ t. ltb (2 ^ 16 - 1) (len_of p / 8) || t)
        (ap (λ u. leb (size ring - u) (total p)) between
          ∙ leb_sub (size ring) (used ps) (total p) c.room)

module _ {m : GuestMemory} {ring : Ring} {host : ℕ → ℕ} (l : Laid m ring host) (guest : Guest) where
  write_at_lem :
      {w r : ℕ} {ps : List (List ℕ)} (p : List ℕ)
      → Contents m.base ring host w r ps
      → used ps + total p < size ring
      → len_of p / 8 < 2 ^ 16
      → (b' : ℕ → ℕ) × (write_at guest m ring p (w, r)
          ≡ some (reported (guest b') host w, record m { base = guest b' }))
        × Contents b' ring host ((w + total p) % size ring) r (ps ++ (p ∷ []))
  unfolding write_at
  write_at_lem {w} {r} {ps} p c fits short =
      let packet = packet_of w p in
      let next = (w + total p) % size ring in
      let len = length-packet_of w p in
      let passes : (ltb (2 ^ 16 - 1) (len_of p / 8) || leb (size ring) (used ps + total p))
          ≡ false =
        ap₂ (λ x y. x || y) (lt→ltb_false (len_of p / 8) (2 ^ 16 - 1) (omega arith))
          (lt→leb (used ps + total p) (size ring) fits) in
      let (b', walked, put) =
        walk_out_lem m packet (length packet) w 0 l c.write_in (omega arith) (omega (arith, len)) in
      let after : Option (GuestMemory × Bool) → Option Writing = λ o.
        o >>= λ d. if d.1 then publish guest d.0 ring w next else some (err Error.corrupt, d.0) in
      let next_in : next < size ring = round-lt (size ring) w (total p) c.write_in (omega arith) in
      let word32 : u32 next ≡ next = mod-eq_of_lt (omega (arith, size_bounded l)) in
      let b = stored b' (host 0 + write_index) next in
      (
        b,
        ap
              (λ t.
                if t
                then some (err Error.full, m)
                else after (walk ring w (length packet) (copy_out packet) m))
              (fits_test l p c ∙ passes)
            ∙ ap after walked
            ∙ publish_lem (Laid-base b' l) guest w next
            ∙ ap
                (λ n.
                  let g = guest (stored b' (host 0 + write_index) n) in
                  some (reported g host w, record m { base = g }))
                word32,
        written-Contents l p c fits short put,
      )

  -- On a ring in RAM, of two to 65536 different pages: a packet that it has room for, of a length that the
  -- descriptor's field can count, is appended to those that it holds, whatever the guest does at the fence;
  -- the writer asks for a signal exactly when it then finds no mask and the reader where the packet starts.
  -- It does not panic.
  pub write_lem :
      {w r : ℕ} {ps : List (List ℕ)} (p : List ℕ)
      → Contents m.base ring host w r ps
      → used ps + total p < size ring
      → len_of p / 8 < 2 ^ 16
      → (b' : ℕ → ℕ) × (write guest m ring p
          ≡ some (
            ok (
                word (guest b') (host 0 + interrupt_mask) == 0
                && word (guest b') (host 0 + read_index) == w),
            run_guest guest (record m { base = b' }),
          ))
        × Contents b' ring host ((w + total p) % size ring) r (ps ++ (p ∷ []))
  unfolding write
  write_lem {w} {r} {ps} p c fits short =
      let (b', eq, c') = write_at_lem p c fits short in
      (b', ap (continue p) (indices_lem l c) ∙ eq, c')
    where
      continue : List ℕ → Option (Result (ℕ × ℕ)) → Option Writing
      continue p o =
          o >>= λ i. elim i [ err e ↦ some (err e, m) | ok wr ↦ write_at guest m ring p wr ]

  -- A packet that would fill the ring, or that its length field cannot count, is refused, and nothing
  -- is written.
  pub write_full_lem :
      {w r : ℕ} {ps : List (List ℕ)} (p : List ℕ)
      → Contents m.base ring host w r ps
      → (size ring ≤ used ps + total p) ⊎ (2 ^ 16 ≤ len_of p / 8)
      → write guest m ring p ≡ some (err Error.full, m)
  unfolding write write_at
  write_full_lem {w} {r} {ps} p c big =
      let packet = packet_of w p in
      let refused : (ltb (2 ^ 16 - 1) (len_of p / 8) || leb (size ring) (used ps + total p))
          ≡ true =
        too_big (len_of p / 8) (size ring) (used ps + total p) big in
      ap (λ o. o >>= λ i. elim i [ err e ↦ some (err e, m) | ok wr ↦ write_at guest m ring p wr ])
        (indices_lem l c)
      ∙ ap
          (λ t.
            if t
            then some (err Error.full, m)
            else (walk ring w (length packet) (copy_out packet) m >>= λ d.
                if d.1
                then publish guest d.0 ring w ((w + total p) % size ring)
                else some (err Error.corrupt, d.0)))
          (fits_test l p c ∙ refused)
    where
      too_big : (n s u : ℕ) → (s ≤ u) ⊎ (2 ^ 16 ≤ n) → (ltb (2 ^ 16 - 1) n || leb s u) ≡ true
      too_big n s u h = ground arith
