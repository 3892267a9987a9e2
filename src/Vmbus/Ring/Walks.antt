-- ===== src/Vmbus/Ring/Walks.antt =====
-- A round of `walk` in src/vmbus/ring.rs: the bytes that fit in the page at hand.
use tinyvmm.Prelude.{
  ℕ, zero, suc, ◌+◌, ◌-◌, ◌/◌, ◌%◌, ◌≤◌, ◌<◌, ◌≡◌, ◌⊎◌, min, Bool, true, false, not, Option, some,
  List, [], ◌∷◌, ◌++◌, length, take, drop, get_or, get_elem?, ltb, lt→ltb, ◌>>=◌, if◌then◌else◌,
  arith, refl, ap, ap₂, sym, ◌∙◌,
}
use native.Mathlib.Nat.{mod-eq_of_lt}
use tinyvmm.Memory.{GuestMemory, region_off, read_host, write_host}
use tinyvmm.Memory.Region.{region_off_sub}
use tinyvmm.Vmbus.Ring.{page, Ring, size, Copy, walk_from}
use tinyvmm.Vmbus.Ring.Places.{Laid, loc, page_in_range, get_elem?-get_or}

pub get_or-append_left :
    (xs ys : List ℕ) (i : ℕ) → i < length xs → get_or (xs ++ ys) i 0 ≡ get_or xs i 0
get_or-append_left [] ys i h = absurd (omega arith)
get_or-append_left (x ∷ xs) ys zero h = refl
get_or-append_left (x ∷ xs) ys (suc i) h = get_or-append_left xs ys i (omega arith)

pub get_or-append_right :
    (xs ys : List ℕ) (i k : ℕ) → i ≡ length xs + k → get_or (xs ++ ys) i 0 ≡ get_or ys k 0
get_or-append_right [] ys i k h = ap (λ t. get_or ys t 0) (omega arith)
get_or-append_right (x ∷ xs) ys zero k h = absurd (omega arith)
get_or-append_right (x ∷ xs) ys (suc i) k h = get_or-append_right xs ys i k (omega arith)

pub get_or-take : (n : ℕ) (xs : List ℕ) (i : ℕ) → i < n → get_or (take n xs) i 0 ≡ get_or xs i 0
get_or-take zero xs i h = absurd (omega arith)
get_or-take (suc n) [] i h = refl
get_or-take (suc n) (x ∷ xs) zero h = refl
get_or-take (suc n) (x ∷ xs) (suc i) h = get_or-take n xs i (omega arith)

pub get_or-drop : (n : ℕ) (xs : List ℕ) (i : ℕ) → get_or (drop n xs) i 0 ≡ get_or xs (n + i) 0
get_or-drop zero xs i = ap (λ t. get_or xs t 0) (omega arith)
get_or-drop (suc n) [] i = refl
get_or-drop (suc n) (x ∷ xs) i =
    get_or-drop n xs i ∙ sym (ap (λ t. get_or (x ∷ xs) t 0) (add_suc n i))
  where
    add_suc : (n i : ℕ) → suc n + i ≡ suc (n + i)
    add_suc n i = omega arith

pub length-read_host : (b : ℕ → ℕ) (p n : ℕ) → length (read_host b p n) ≡ n
length-read_host b p zero = refl
length-read_host b p (suc n) = ap suc (length-read_host b (p + 1) n)

pub get_or-read_host : (b : ℕ → ℕ) (p n i : ℕ) → i < n → get_or (read_host b p n) i 0 ≡ b (p + i)
get_or-read_host b p zero i h = absurd (omega arith)
get_or-read_host b p (suc n) zero h = ap b (omega arith)
get_or-read_host b p (suc n) (suc i) h =
    get_or-read_host b (p + 1) n i (omega arith) ∙ ap b (omega arith)

pub write_host-in :
    (b : ℕ → ℕ) (p : ℕ) (xs : List ℕ) (i k : ℕ)
    → i ≡ p + k
    → k < length xs
    → write_host b p xs i ≡ get_or xs k 0
write_host-in b p xs i k e h = let index : i - p ≡ k = omega arith in ground (arith, index)

pub write_host-out :
    (b : ℕ → ℕ) (p : ℕ) (xs : List ℕ) (i : ℕ)
    → (i < p) ⊎ (p + length xs ≤ i)
    → write_host b p xs i ≡ b i
write_host-out b p xs i h = ground arith

-- The bytes that fit in the page at hand: they lie side by side, in the data, and in the page's RAM.
module _ {m : GuestMemory} {ring : Ring} {host : ℕ → ℕ} (l : Laid m ring host) where
  abbrev pub address : ℕ → ℕ
  address off = get_or ring.pages (1 + off / page) 0 + off % page

  pub loc_side : (off i : ℕ) → off % page + i < page → loc host (off + i) ≡ loc host off + i
  loc_side off i h =
      let quotient : (off + i) / page ≡ off / page = omega arith in
      let rest : (off + i) % page ≡ off % page + i = omega arith in
      ap₂ (λ q r. host (1 + q) + r) quotient rest ∙ omega arith

  pub chunk_round :
      (off i : ℕ) → off < size ring → off % page + i < page → (off + i) % size ring ≡ off + i
  chunk_round off i h k = mod-eq_of_lt (omega (arith, l.enough))

  pub chunk_mapped :
      (off n : ℕ)
      → off < size ring
      → off % page + n ≤ page
      → region_off m (address off) n ≡ some (loc host off)
  chunk_mapped off n h k =
      region_off_sub m (get_or ring.pages (1 + off / page) 0) page (off % page) n l.valid
        (l.mapped (1 + off / page) (page_in_range l off h)) (omega arith) k

  abbrev pub chunk : ℕ → ℕ → ℕ
  chunk off left = min (page - off % page) left

  -- A round whose copy succeeds, and the end.
  pub walk_from-step :
      {S : Type 0} (len : ℕ) (copy : Copy S) (fuel off done : ℕ) (s s' : S)
      → off < size ring
      → done < len
      → copy (address off) done (chunk off (len - done)) s ≡ (s', true)
      → walk_from ring len copy (suc fuel) off done s
        ≡ walk_from ring len copy fuel
            ((off + chunk off (len - done)) % size ring)
            (done + chunk off (len - done))
            s'
  unfolding walk_from
  walk_from-step {S} len copy fuel off done s s' h k copied =
      let n = chunk off (len - done) in
      let test : ltb done len ≡ true = lt→ltb done len k in
      let found : get_elem? ring.pages (1 + off / page)
          ≡ some (get_or ring.pages (1 + off / page) 0) =
        get_elem?-get_or ring.pages (1 + off / page) (page_in_range l off h) in
      let go : S × Bool → Option (S × Bool) = λ c. elim c.1 [
        | false ↦ some (c.0, false)
        | true ↦ walk_from ring len copy fuel ((off + n) % size ring) (done + n) c.0
      ] in
      ap
        (λ b.
          if not b
          then some (s, true)
          else (get_elem? ring.pages (1 + off / page) >>= λ p. go (copy (p + off % page) done n s)))
        test
      ∙ ap (λ o. o >>= λ p. go (copy (p + off % page) done n s)) found
      ∙ ap go copied

pub walk_from-end :
    {S : Type 0} (ring : Ring) (len : ℕ) (copy : Copy S) (fuel off done : ℕ) (s : S)
    → len ≤ done
    → walk_from ring len copy fuel off done s ≡ some (s, true)
unfolding walk_from
walk_from-end ring len copy zero off done s h = refl
walk_from-end {S} ring len copy (suc fuel) off done s h =
    let test : ltb done len ≡ false = ground arith in
    ap
      (λ b.
        if not b
        then some (s, true)
        else (get_elem? ring.pages (1 + off / page) >>= λ p.
            let c = copy (p + off % page) done (min (page - off % page) (len - done)) s in
            elim c.1 [
              | false ↦ some (c.0, false)
              | true ↦
                  walk_from ring len copy fuel
                    ((off + min (page - off % page) (len - done)) % size ring)
                    (done + min (page - off % page) (len - done)) c.0
            ]))
      test
