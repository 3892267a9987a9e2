-- ===== src/Vmbus/Ring/Packets.antt =====
-- What a ring of src/vmbus/ring.rs holds: the packets between its indices, in order.
use tinyvmm.Prelude.{
  ℕ, suc, ◌+◌, ◌-◌, ◌*◌, ◌/◌, ◌%◌, ◌^◌, ◌<◌, ◌≡◌, inl, inr, List, [], ◌∷◌, ◌++◌, length, take, drop,
  replicate, get_or, length-append, length-replicate, arith, refl, ap, ap₂, sym, ◌∙◌, u16, u64,
  to_le_bytes, from_le_bytes-to_le_bytes,
}
use mathlib.Core.Path.{subst}
use mathlib.Core.List.{append_assoc}
use native.Mathlib.Nat.{mod-eq_of_lt, mod-eq-sub-mod}
use tinyvmm.Vmbus.Ring.{
  Ring, size, descriptor_len, trailer_len, packet_inband, next_multiple_of_8, packet_of, le16,
}
use tinyvmm.Vmbus.Ring.Places.{loc, round_cases, round-round, round-lt}
use tinyvmm.Vmbus.Ring.Walks.{get_or-append_left, get_or-drop}

-- A packet's length up to its trailer, and with it.
abbrev pub len_of : List ℕ → ℕ
len_of payload = descriptor_len + next_multiple_of_8 (length payload)

abbrev pub total : List ℕ → ℕ
total payload = len_of payload + trailer_len

-- The payload as its reader gets it.
abbrev pub padded : List ℕ → List ℕ
padded payload = payload ++ replicate (next_multiple_of_8 (length payload) - length payload) 0

pub length-padded : (p : List ℕ) → length (padded p) ≡ next_multiple_of_8 (length p)
length-padded p = omega (
  arith,
  length-append p (replicate (next_multiple_of_8 (length p) - length p) 0),
  length-replicate {A = ℕ} (next_multiple_of_8 (length p) - length p) 0,
)

abbrev trailer : ℕ → List ℕ
trailer at = to_le_bytes 8 (u64 (at * 2 ^ 32))

drop-packet_of : (at : ℕ) (p : List ℕ) → drop 16 (packet_of at p) ≡ padded p ++ trailer at
unfolding packet_of
drop-packet_of at p =
    let pad : len_of p - (descriptor_len + length p) ≡ next_multiple_of_8 (length p) - length p =
      omega arith in
    ap (λ n. p ++ (replicate n 0 ++ trailer at)) pad
    ∙ sym (append_assoc p (replicate (next_multiple_of_8 (length p) - length p) 0) (trailer at))

length-drop_16 :
    (at : ℕ) (p : List ℕ) → length (packet_of at p) ≡ 16 + length (drop 16 (packet_of at p))
unfolding packet_of
length-drop_16 at p = omega arith

pub length-packet_of : (at : ℕ) (p : List ℕ) → length (packet_of at p) ≡ total p
length-packet_of at p = omega (
  arith,
  length-drop_16 at p,
  ap length (drop-packet_of at p),
  length-append (padded p) (trailer at),
  length-padded p,
)

-- The payload stands behind the descriptor.
pub get_or-packet_of :
    (at : ℕ) (p : List ℕ) (k : ℕ)
    → k < length (padded p)
    → get_or (packet_of at p) (16 + k) 0 ≡ get_or (padded p) k 0
get_or-packet_of at p k h =
    sym (get_or-drop 16 (packet_of at p) k)
    ∙ ap (λ l. get_or l k 0) (drop-packet_of at p)
    ∙ get_or-append_left (padded p) (trailer at) k h

-- The fields of the descriptor.
pub descriptor_kind : (at : ℕ) (p : List ℕ) → le16 0 (take 16 (packet_of at p)) ≡ packet_inband
unfolding packet_of
descriptor_kind at p = refl

pub descriptor_offset : (at : ℕ) (p : List ℕ) → le16 2 (take 16 (packet_of at p)) ≡ 2
unfolding packet_of
descriptor_offset at p = refl

pub descriptor_length :
    (at : ℕ) (p : List ℕ) → len_of p / 8 < 2 ^ 16 → le16 4 (take 16 (packet_of at p)) ≡ len_of p / 8
unfolding packet_of
descriptor_length at p h =
    from_le_bytes-to_le_bytes 2 (u16 (len_of p / 8)) (omega arith) ∙ mod-eq_of_lt h

pub lists_equal :
    (xs ys : List ℕ)
    → length xs ≡ length ys
    → ((k : ℕ) → k < length xs → get_or xs k 0 ≡ get_or ys k 0)
    → xs ≡ ys
lists_equal [] [] e h = refl
lists_equal [] (y ∷ ys) e h = absurd (omega arith)
lists_equal (x ∷ xs) [] e h = absurd (omega arith)
lists_equal (x ∷ xs) (y ∷ ys) e h =
    ap₂ ◌∷◌ (h 0 (omega arith)) (lists_equal xs ys (omega arith) (λ k lt. h (suc k) (omega arith)))

abbrev pub used : List (List ℕ) → ℕ
used [] = 0
used (p ∷ ps) = total p + used ps

module _ (ring : Ring) (host : ℕ → ℕ) where
  -- The bytes of the data from `at` on are a packet's.
  pub record Stored (b : ℕ → ℕ) (at : ℕ) (p : List ℕ) : Type 0 where
    pub short : len_of p / 8 < 2 ^ 16
    pub bytes :
        (k : ℕ) → k < total p → b (loc host ((at + k) % size ring)) ≡ get_or (packet_of at p) k 0

  -- The packets from `r` to `w`.
  abbrev pub Held : (ℕ → ℕ) → ℕ → ℕ → List (List ℕ) → Type 0
  Held b w r [] = r ≡ w
  Held b w r (p ∷ ps) = Stored b r p × Held b w ((r + total p) % size ring) ps

  pub Held-end :
      (b : ℕ → ℕ) (w r : ℕ) (ps : List (List ℕ))
      → r < size ring
      → used ps < size ring
      → Held b w r ps
      → w ≡ (r + used ps) % size ring
  Held-end b w r [] h k e = sym e ∙ sym (ap (λ t. t % size ring) (omega arith) ∙ mod-eq_of_lt h)
  Held-end b w r (p ∷ ps) h k (s, rest) =
      Held-end b w ((r + total p) % size ring) ps (round-lt (size ring) r (total p) h (omega arith))
        (omega arith) rest
      ∙ round-round (size ring) r (total p) (used ps)

  -- What the packets are depends on their bytes only.
  pub Held-frame :
      (b b' : ℕ → ℕ) (w r : ℕ) (ps : List (List ℕ))
      → r < size ring
      → used ps < size ring
      → ((k : ℕ)
          → k < used ps
          → b' (loc host ((r + k) % size ring)) ≡ b (loc host ((r + k) % size ring)))
      → Held b w r ps
      → Held b' w r ps
  Held-frame b b' w r [] h l same e = e
  Held-frame b b' w r (p ∷ ps) h l same (s, rest) = (
    record { short = s.short; bytes = λ k lt. same k (omega arith) ∙ s.bytes k lt },
    Held-frame b b' w ((r + total p) % size ring) ps
        (round-lt (size ring) r (total p) h (omega arith)) (omega arith)
        (λ k lt.
          ap (λ i. b' (loc host i)) (round-round (size ring) r (total p) k)
          ∙ same (total p + k) (omega arith)
          ∙ sym (ap (λ i. b (loc host i)) (round-round (size ring) r (total p) k)))
        rest,
  )

  pub Held-append :
      (b : ℕ → ℕ) (w r : ℕ) (ps : List (List ℕ)) (p : List ℕ)
      → Held b w r ps
      → Stored b w p
      → Held b ((w + total p) % size ring) r (ps ++ (p ∷ []))
  Held-append b w r [] p e s =
      (subst (λ t. Stored b t p) (sym e) s, ap (λ t. (t + total p) % size ring) e)
  Held-append b w r (q ∷ ps) p (s', rest) s =
      (s', Held-append b w ((r + total q) % size ring) ps p rest s)

pub used-append : (ps : List (List ℕ)) (p : List ℕ) → used (ps ++ (p ∷ [])) ≡ used ps + total p
used-append [] p = omega arith
used-append (q ∷ ps) p = omega (arith, used-append ps p)

-- The number of bytes between the indices.
pub used_lem : (n w r u : ℕ) → r < n → u < n → w ≡ (r + u) % n → (w + n - r) % n ≡ u
used_lem n w r u h k e = elim (round_cases n r u h (omega arith)) [
  | inl (lt, eq) ↦
      let sum : w + n - r ≡ u + n = omega arith in
      let sub : (u + n) % n ≡ (u + n - n) % n = mod-eq-sub-mod {n = u + n} {m = n} (omega arith) in
      let back : u + n - n ≡ u = omega arith in
      ap (λ t. t % n) sum ∙ sub ∙ ap (λ t. t % n) back ∙ mod-eq_of_lt k
  | inr (ge, eq) ↦ let sum : w + n - r ≡ u = omega arith in ap (λ t. t % n) sum ∙ mod-eq_of_lt k
]
