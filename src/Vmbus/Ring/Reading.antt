-- ===== src/Vmbus/Ring/Reading.antt =====
-- What `read` of src/vmbus/ring.rs takes from a ring that is laid out in RAM.
use tinyvmm.Prelude.{
  ℕ, ◌+◌, ◌-◌, ◌*◌, ◌/◌, ◌%◌, ◌^◌, ◌≤◌, ◌<◌, ◌≡◌, ◌≢◌, inr, Bool, true, false, Option, some, none,
  List, [], ◌∷◌, ◌++◌, length, take, replicate, get_or, length-take, length-replicate, ltb, ◌==◌,
  ==_iff, ◌>>=◌, ◌||◌, if◌then◌else◌, arith, refl, ap, ap₂, sym, ◌∙◌, u32, length-append,
}
use native.Mathlib.Nat.{mod_self, mod-eq_of_lt}
use tinyvmm.Memory.{GuestMemory, store_release_u32}
use tinyvmm.Vmbus.Ring.{
  write_index, read_index, descriptor_len, trailer_len, packet_inband, ok, err, Ring, size, walk,
  copy_in, resize, Reading, corrupted, le16, finish, read_payload, read_at, read, packet_of,
}
use tinyvmm.Vmbus.Ring.Places.{Laid, loc, round-lt, round-round, round-aligned}
use tinyvmm.Vmbus.Ring.Walks.{get_or-take}
use tinyvmm.Vmbus.Ring.Fills.{walk_in_lem}
use tinyvmm.Vmbus.Ring.Control.{
  stored, word-stored_self, word-stored_other, control_lem, store_lem, loc-stored,
}
use tinyvmm.Vmbus.Ring.Packets.{
  len_of, total, padded, length-padded, length-packet_of, get_or-packet_of, descriptor_kind,
  descriptor_offset, descriptor_length, lists_equal, used, Stored, Held-end, Held-frame, used_lem,
}
use tinyvmm.Vmbus.Ring.Fifo.{Contents, size_bounded, size_aligned, indices_lem}

le→ltb_false : (a b : ℕ) → a ≤ b → ltb b a ≡ false
le→ltb_false a b h = ground arith

ne→==_false : (a b : ℕ) → a ≢ b → (a == b) ≡ false
ne→==_false a b h = ground arith

zero-add : (k : ℕ) → 0 + k ≡ k
zero-add k = omega arith

length-resize : (buf : List ℕ) (n : ℕ) → length (resize buf n) ≡ n
length-resize buf n = omega (
  arith,
  length-take n (buf ++ replicate n 0),
  length-append buf (replicate n 0),
  length-replicate {A = ℕ} n 0,
)

module _ {m : GuestMemory} {ring : Ring} {host : ℕ → ℕ} (l : Laid m ring host) where
  -- A walk into a buffer of `n` bytes reads the bytes that are stored there.
  read_walk :
      (at n : ℕ) (buf expected : List ℕ)
      → at < size ring
      → length buf ≡ n
      → length expected ≡ n
      → ((k : ℕ) → k < n → m.base (loc host ((at + k) % size ring)) ≡ get_or expected k 0)
      → walk ring at n (copy_in m) buf ≡ some (expected, true)
  read_walk at n buf expected h len len' same =
      let (out, eq, f) = walk_in_lem n n at 0 buf l h len (omega arith) in
      eq
      ∙ ap (λ o. some (o, true))
          (lists_equal out expected (f.len ∙ len ∙ sym len') (λ k lt.
            ap (λ i. get_or out i 0) (sym (zero-add k))
            ∙ f.filled k (omega (arith, f.len))
            ∙ same k (omega (arith, f.len))))

  finish_lem :
      (next kind : ℕ) (buf : List ℕ)
      → finish m ring next kind buf
        ≡ some (
          ok (some kind),
          buf,
          record m { base = stored m.base (host 0 + read_index) (u32 next) },
        )
  unfolding finish
  finish_lem next kind buf =
      ap
        (λ o. o >>= λ at.
          let c = store_release_u32 m at (u32 next) in
          if c.1 then some (ok (some kind), buf, c.0) else corrupted buf c.0)
        (control_lem l read_index)
      ∙ ap (λ c. if c.1 then some (ok (some kind), buf, c.0) else corrupted buf c.0)
          (store_lem l read_index (u32 next) (omega arith) refl)

  -- The memory after a packet at `r` is read.
  abbrev pub after_read : ℕ → List ℕ → ℕ → ℕ
  after_read r p = stored m.base (host 0 + read_index) ((r + total p) % size ring)

  payload_walk :
      {r : ℕ} (p buf : List ℕ)
      → r < size ring
      → total p ≤ size ring
      → Stored ring host m.base r p
      → walk ring ((r + 16) % size ring) (len_of p - 16) (copy_in m) (resize buf (len_of p - 16))
        ≡ some (padded p, true)
  payload_walk {r} p buf h fits s =
      let len = length-padded p in
      read_walk ((r + 16) % size ring) (len_of p - 16) (resize buf (len_of p - 16)) (padded p)
        (round-lt (size ring) r 16 h (omega arith)) (length-resize buf (len_of p - 16))
        (omega (arith, len))
        (λ k lt.
          ap (λ i. m.base (loc host i)) (round-round (size ring) r 16 k)
          ∙ s.bytes (16 + k) (omega arith)
          ∙ get_or-packet_of r p k (omega (arith, len)))

  -- The rest of `read` once the fields of the descriptor are known.
  abbrev body : List ℕ → ℕ → ℕ → ℕ → ℕ → ℕ → ℕ → Option Reading
  body buf max available r kind offset len =
      let next = (r + len + trailer_len) % size ring in
      if ltb offset descriptor_len || ltb len offset || ltb available (len + trailer_len)
      then corrupted buf m
      else if ltb max (len - offset)
      then corrupted buf m
      else (walk ring ((r + offset) % size ring) (len - offset) (copy_in m)
            (resize buf (len - offset))
          >>= λ c. if c.1 then finish m ring next kind c.0 else corrupted c.0 m)

  fields :
      (buf : List ℕ) (max available r : ℕ) (p : List ℕ)
      → len_of p / 8 < 2 ^ 16
      → read_payload m ring buf max available r (take 16 (packet_of r p))
        ≡ body buf max available r packet_inband 16 (len_of p)
  unfolding read_payload
  fields buf max available r p short =
      let whole : le16 4 (take 16 (packet_of r p)) * 8 ≡ len_of p =
        ap (λ n. n * 8) (descriptor_length r p short) ∙ omega arith in
      ap₂ (λ k o. body buf max available r k (o * 8) (le16 4 (take 16 (packet_of r p)) * 8))
        (descriptor_kind r p) (descriptor_offset r p)
      ∙ ap (body buf max available r packet_inband 16) whole

  read_payload_lem :
      {r : ℕ} (p buf : List ℕ) (max available : ℕ)
      → r < size ring
      → total p ≤ size ring
      → total p ≤ available
      → length (padded p) ≤ max
      → Stored ring host m.base r p
      → read_payload m ring buf max available r (take 16 (packet_of r p))
        ≡ some (ok (some packet_inband), padded p, record m { base = after_read r p })
  read_payload_lem {r} p buf max available h fits enough le s =
      let n = len_of p - 16 in
      let done : Option (List ℕ × Bool) → Option Reading = λ o. o >>= λ c.
      if c.1
      then finish m ring ((r + len_of p + trailer_len) % size ring) packet_inband c.0
      else corrupted c.0 m in
      let rest = done (walk ring ((r + 16) % size ring) n (copy_in m) (resize buf n)) in
      let sound : (ltb 16 descriptor_len || ltb (len_of p) 16 || ltb available (total p)) ≡ false =
        ap₂ (λ x y. x || y) (le→ltb_false 16 (len_of p) (omega arith))
          (le→ltb_false (total p) available enough) in
      let next : (r + len_of p + trailer_len) % size ring ≡ (r + total p) % size ring =
        ap (λ t. t % size ring) (omega arith) in
      let word32 : u32 ((r + total p) % size ring) ≡ (r + total p) % size ring =
        mod-eq_of_lt (omega (arith, size_bounded l, round-lt (size ring) r (total p) h fits)) in
      fields buf max available r p s.short
      ∙ ap₂ (λ x y. if x then corrupted buf m else if y then corrupted buf m else rest) sound
          (le→ltb_false n max (omega (arith, length-padded p)))
      ∙ ap done (payload_walk p buf h fits s)
      ∙ finish_lem ((r + len_of p + trailer_len) % size ring) packet_inband (padded p)
      ∙ ap
          (λ t. some (
            ok (some packet_inband),
            padded p,
            record m { base = stored m.base (host 0 + read_index) t },
          ))
          (ap u32 next ∙ word32)

  descriptor_walk :
      {r : ℕ} (p : List ℕ)
      → r < size ring
      → Stored ring host m.base r p
      → walk ring r descriptor_len (copy_in m) (replicate descriptor_len 0)
        ≡ some (take 16 (packet_of r p), true)
  descriptor_walk {r} p h s =
      let len = length-packet_of r p in
      read_walk r 16 (replicate 16 0) (take 16 (packet_of r p)) h refl
        (omega (arith, length-take 16 (packet_of r p), len))
        (λ k lt. s.bytes k (omega arith) ∙ sym (get_or-take 16 (packet_of r p) k lt))

  -- The indices differ where the ring holds a packet.
  nonempty :
      {w r : ℕ} (p : List ℕ) (ps : List (List ℕ))
      → Contents m.base ring host w r (p ∷ ps)
      → ((w + size ring - r) % size ring ≡ used (p ∷ ps)) × (w ≢ r)
  nonempty {w} {r} p ps c =
      let between : (w + size ring - r) % size ring ≡ used (p ∷ ps) =
        used_lem (size ring) w r (used (p ∷ ps)) c.read_in c.room
          (Held-end ring host m.base w r (p ∷ ps) c.read_in c.room c.held) in
      (
        between,
        λ e.
            let whole : w + size ring - r ≡ size ring = omega arith in
            absurd (omega (arith, between, ap (λ t. t % size ring) whole ∙ mod_self (size ring))),
      )

  read_at_lem :
      {w r : ℕ} (p buf : List ℕ) (max : ℕ) (ps : List (List ℕ))
      → Contents m.base ring host w r (p ∷ ps)
      → length (padded p) ≤ max
      → read_at m ring buf max (w, r)
        ≡ some (ok (some packet_inband), padded p, record m { base = after_read r p })
  unfolding read_at
  read_at_lem {w} {r} p buf max ps c le =
      let available = (w + size ring - r) % size ring in
      let (between, ne) = nonempty p ps c in
      let next : Option (List ℕ × Bool) → Option Reading = λ o.
        o >>= λ d. if d.1 then read_payload m ring buf max available r d.0 else corrupted buf m in
      ap
        (λ t.
          if t
          then some (ok none, buf, m)
          else next (walk ring r descriptor_len (copy_in m) (replicate descriptor_len 0)))
        (ne→==_false w r ne)
      ∙ ap next (descriptor_walk p c.read_in (c.held).0)
      ∙ read_payload_lem p buf max available c.read_in (omega (arith, c.room))
          (omega (arith, between)) le (c.held).0

  after_read-Contents :
      {w r : ℕ} (p : List ℕ) (ps : List (List ℕ))
      → Contents m.base ring host w r (p ∷ ps)
      → Contents (after_read r p) ring host w ((r + total p) % size ring) ps
  after_read-Contents {w} {r} p ps c =
      let next = (r + total p) % size ring in
      let fits : total p ≤ size ring = omega (arith, c.room) in
      let next_in : next < size ring = round-lt (size ring) r (total p) c.read_in fits in
      record {
        write_word =
            word-stored_other m.base (host 0 + read_index) next (host 0 + write_index)
              (inr (omega arith))
            ∙ c.write_word;
        read_word =
            word-stored_self m.base (host 0 + read_index) next (omega (arith, size_bounded l));
        write_in = c.write_in;
        read_in = next_in;
        write_aligned = c.write_aligned;
        read_aligned =
            round-aligned (size ring) r (total p) c.read_in fits (size_aligned l) c.read_aligned
              (omega arith);
        held =
            Held-frame ring host m.base (after_read r p) w next ps next_in (omega (arith, c.room))
              (λ k lt.
                loc-stored l m.base read_index next ((next + k) % size ring) (omega arith)
                  (round-lt (size ring) next k next_in (omega (arith, c.room))))
              (c.held).1;
        room = omega (arith, c.room);
      }

  -- The first packet of a ring that holds any is taken whole, padded to 8 bytes, if the caller takes that
  -- many bytes; the ring then holds the rest. Nothing else of RAM changes but the read index.
  pub read_lem :
      {w r : ℕ} (p buf : List ℕ) (max : ℕ) (ps : List (List ℕ))
      → Contents m.base ring host w r (p ∷ ps)
      → length (padded p) ≤ max
      → (read m ring buf max
          ≡ some (ok (some packet_inband), padded p, record m { base = after_read r p }))
        × Contents (after_read r p) ring host w ((r + total p) % size ring) ps
  unfolding read
  read_lem p buf max ps c le = (
    ap (λ o. o >>= λ i. elim i [ err e ↦ some (err e, buf, m) | ok wr ↦ read_at m ring buf max wr ])
          (indices_lem l c)
        ∙ read_at_lem p buf max ps c le,
    after_read-Contents p ps c,
  )

  -- An empty ring gives nothing, and nothing changes.
  pub read_empty :
      {w r : ℕ} (buf : List ℕ) (max : ℕ)
      → Contents m.base ring host w r []
      → read m ring buf max ≡ some (ok none, buf, m)
  unfolding read read_at
  read_empty {w} {r} buf max c =
      let available = (w + size ring - r) % size ring in
      ap
        (λ o.
          o >>= λ i. elim i [ err e ↦ some (err e, buf, m) | ok wr ↦ read_at m ring buf max wr ])
        (indices_lem l c)
      ∙ ap
          (λ t.
            if t
            then some (ok none, buf, m)
            else (walk ring r descriptor_len (copy_in m) (replicate descriptor_len 0) >>= λ d.
                if d.1 then read_payload m ring buf max available r d.0 else corrupted buf m))
          ((==_iff w r).1 (sym c.held))
