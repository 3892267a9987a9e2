-- ===== src/Net/Wire/Reassembly.antt =====
-- What `ipv4_fragments` of src/net/wire.rs emits, as its receiver puts it together again.
use tinyvmm.Prelude.{
  ℕ, zero, suc, ◌+◌, ◌-◌, ◌*◌, ◌/◌, ◌%◌, ◌^◌, ◌≤◌, ◌<◌, ◌≡◌, Bool, true, false, inl, inr, ◌⊎◌, List,
  [], ◌∷◌, ◌++◌, All, length, take, drop, map, length-take, length-drop, min, max, bit_or, u16,
  bit_or-shifted, arith, refl, ap, ap₂, sym, ◌∙◌, ltb, if◌then◌else◌, Bool-cases,
}
use tinyvmm.Net.Csum.Reference.{concat}
use tinyvmm.Net.Wire.{Ip, be16, ipv4_header}
use tinyvmm.Net.Wire.Headers.{put_be16_lem}
use tinyvmm.Net.Wire.Fragments.{step_of, more_flag, fragments_from, ipv4_fragments}

drop-nil : (n : ℕ) → drop {A = ℕ} n [] ≡ []
drop-nil zero = refl
drop-nil (suc n) = refl

drop-all : (n : ℕ) (xs : List ℕ) → length xs ≤ n → drop n xs ≡ []
drop-all n [] h = drop-nil n
drop-all zero (x ∷ xs) h = absurd (omega arith)
drop-all (suc n) (x ∷ xs) h = drop-all n xs (omega arith)

drop-drop : (n k : ℕ) (xs : List ℕ) → drop (n + k) xs ≡ drop k (drop n xs)
drop-drop n k [] = drop-nil (n + k) ∙ sym (ap (drop k) (drop-nil n) ∙ drop-nil k)
drop-drop zero k (x ∷ xs) = let same : 0 + k ≡ k = omega arith in ap (λ j. drop j (x ∷ xs)) same
drop-drop (suc n) k (x ∷ xs) =
    let same : suc n + k ≡ suc (n + k) = omega arith in
    ap (λ j. drop j (x ∷ xs)) same ∙ drop-drop n k xs

lt-cases : (a b : ℕ) → (a < b) ⊎ (b ≤ a)
lt-cases a b = elim (Bool-cases (ltb a b)) [
  | inl e ↦ inl (ground arith)
  | inr e ↦ inr (ground arith)
]

rejoin : (k : ℕ) (xs : List ℕ) → take k xs ++ drop (length (take k xs)) xs ≡ xs
rejoin zero xs = refl
rejoin (suc k) [] = refl
rejoin (suc k) (x ∷ xs) = ap (λ r. x ∷ r) (rejoin k xs)

-- More fragments follow.
abbrev follows : List (List ℕ) → ℕ
follows [] = 0
follows (f ∷ fs) = 1

-- The offset and the flag in each header, from offset `off` on: RFC 791's, in units of 8 bytes.
abbrev pub Placed : ℕ → List (List ℕ) → Type 0
Placed off [] = Unit
Placed off (f ∷ fs) =
    (be16 f 6 % 2 ^ 13 * 8 ≡ off)
    × (be16 f 6 / 2 ^ 13 ≡ follows fs)
    × Placed (off + (length f - 20)) fs

module _ (src dst : Ip) (proto id : ℕ) (payload : List ℕ) (step : ℕ) (positive : 8 ≤ step)
    (units : step % 8 ≡ 0) (short : length payload < 2 ^ 16) where
  abbrev from : ℕ → ℕ → List (List ℕ)
  from fuel off = fragments_from fuel src dst proto id payload step off

  abbrev chunk : ℕ → List ℕ
  chunk off = take (min (off + step) (length payload) - off) (drop off payload)

  abbrev more : ℕ → Bool
  more off = ltb (off + length (chunk off)) (length payload)

  abbrev header : ℕ → List ℕ
  header off =
      ipv4_header (20 + length (chunk off)) id (bit_or (more_flag (more off)) (u16 (off / 8))) proto
        src dst

  from-some :
      (fuel off : ℕ)
      → off < length payload
      → from (suc fuel) off ≡ (header off ++ chunk off) ∷ from fuel (off + length (chunk off))
  unfolding fragments_from
  from-some fuel off h =
      ap (λ b. if b then (header off ++ chunk off) ∷ from fuel (off + length (chunk off)) else [])
        enough
    where
      enough : ltb off (length payload) ≡ true
      enough = ground (arith, h)

  from-zero : (off : ℕ) → from zero off ≡ []
  unfolding fragments_from
  from-zero off = refl

  from-none : (fuel off : ℕ) → length payload ≤ off → from fuel off ≡ []
  unfolding fragments_from
  from-none zero off h = refl
  from-none (suc fuel) off h =
      ap (λ b. if b then (header off ++ chunk off) ∷ from fuel (off + length (chunk off)) else [])
        past
    where
      past : ltb off (length payload) ≡ false
      past = ground (arith, h)

  length-chunk :
      (off : ℕ) → off < length payload → length (chunk off) ≡ min step (length payload - off)
  length-chunk off h = omega (
    arith,
    length-take (min (off + step) (length payload) - off) (drop off payload),
    length-drop off payload,
  )

  drop-header : (off : ℕ) → drop 20 (header off ++ chunk off) ≡ chunk off
  unfolding ipv4_header
  drop-header off = refl

  length-fragment : (off : ℕ) → length (header off ++ chunk off) ≡ 20 + length (chunk off)
  unfolding ipv4_header
  length-fragment off = ground arith

  be16-fragment :
      (off : ℕ)
      → off < length payload
      → be16 (header off ++ chunk off) 6 ≡ off / 8 + (if more off then 1 else 0) * 2 ^ 13
  unfolding ipv4_header be16
  be16-fragment off h = put_be16_lem field (omega (arith, split, one)) ∙ split
    where
      flag : ℕ
      flag = if more off then 1 else 0

      one : flag ≤ 1
      one = ground arith

      field : ℕ
      field = bit_or (more_flag (more off)) (u16 (off / 8))

      split : field ≡ off / 8 + flag * 2 ^ 13
      split = bit_or-shifted 13 (u16 (off / 8)) flag (omega arith) ∙ omega arith

  -- The pieces, put together.
  from-whole :
      (fuel off : ℕ)
      → length payload - off ≤ fuel
      → concat (map (drop 20) (from fuel off)) ≡ drop off payload
  from-whole zero off h =
      ap (λ fs. concat (map (drop 20) fs)) (from-none zero off (omega arith))
      ∙ sym (drop-all off payload (omega arith))
  from-whole (suc fuel) off h = elim (lt-cases off (length payload)) [
    | inl l ↦
        ap (λ fs. concat (map (drop 20) fs)) (from-some fuel off l)
        ∙ ap₂ (λ a b. a ++ b) (drop-header off)
            (from-whole fuel (off + length (chunk off))
                (omega (arith, length-chunk off l, positive))
              ∙ drop-drop off (length (chunk off)) payload)
        ∙ rejoin (min (off + step) (length payload) - off) (drop off payload)
    | inr g ↦
        ap (λ fs. concat (map (drop 20) fs)) (from-none (suc fuel) off g)
        ∙ sym (drop-all off payload g)
  ]

  -- No fragment is longer than the header and a step.
  from-bounded : (fuel off : ℕ) → All (λ f. length f ≤ 20 + step) (from fuel off)
  from-bounded zero off = rw (from-zero off) tt
  from-bounded (suc fuel) off = elim (lt-cases off (length payload)) [
    | inl l ↦ rw (from-some fuel off l) (
      omega (arith, length-fragment off, length-chunk off l),
      from-bounded fuel (off + length (chunk off)),
    )
    | inr g ↦ rw (from-none (suc fuel) off g) tt
  ]

  follows-from :
      (fuel off : ℕ)
      → length payload - off ≤ fuel
      → follows (from fuel off) ≡ (if ltb off (length payload) then 1 else 0)
  follows-from zero off h = ap follows (from-none zero off (omega arith)) ∙ ground arith
  follows-from (suc fuel) off h = elim (lt-cases off (length payload)) [
    | inl l ↦ ap follows (from-some fuel off l) ∙ ground arith
    | inr g ↦ ap follows (from-none (suc fuel) off g) ∙ ground arith
  ]

  from-Placed :
      (fuel off : ℕ)
      → length payload - off ≤ fuel
      → (off < length payload → off % 8 ≡ 0)
      → Placed off (from fuel off)
  from-Placed zero off h m = rw (from-none zero off (omega arith)) tt
  from-Placed (suc fuel) off h m = elim (lt-cases off (length payload)) [
    | inl l ↦
        let field = be16-fragment off l in
        let aligned = m l in
        let next : ℕ = off + length (chunk off) in
        let fewer : length payload - next ≤ fuel = omega (arith, length-chunk off l, positive) in
        let back : 20 + length (chunk off) - 20 ≡ length (chunk off) = omega arith in
        let rest =
          from-Placed fuel (off + length (chunk off)) fewer
            (λ n. omega (arith, length-chunk off l, units, aligned)) in
        rw (from-some fuel off l) (
          ground (arith, field, aligned),
          ground (arith, field, follows-from fuel next fewer),
          rw (length-fragment off, back) rest,
        )
    | inr g ↦ rw (from-none (suc fuel) off g) tt
  ]

step_of-units :
    (mtu : ℕ) → (8 ≤ step_of mtu) × (step_of mtu % 8 ≡ 0) × (step_of mtu + 20 ≤ max mtu 28)
step_of-units mtu = ground arith

-- The fragments of a payload that IPv4 can number. Their data, in order, is the payload; no fragment is
-- longer than the MTU (or than 28 bytes, the least that carries data); each header has the offset of its data, in
-- units of 8 bytes, and the flag of more fragments exactly on all but the last.
pub ipv4_fragments_lem :
    (src dst : Ip) (proto id : ℕ) (payload : List ℕ) (mtu : ℕ)
    → length payload < 2 ^ 16
    → let fragments = ipv4_fragments src dst proto id payload mtu in
      (concat (map (drop 20) fragments) ≡ payload)
      × All (λ f. length f ≤ max mtu 28) fragments
      × Placed 0 fragments
unfolding ipv4_fragments
ipv4_fragments_lem src dst proto id payload mtu short =
    let (positive, units, bound) = step_of-units mtu in
    let n : ℕ = length payload in
    (
      from-whole src dst proto id payload (step_of mtu) positive units short n 0 (omega arith),
      All-weaken (fragments_from n src dst proto id payload (step_of mtu) 0) (step_of mtu)
          (max mtu 28) bound
          (from-bounded src dst proto id payload (step_of mtu) positive units short n 0),
      from-Placed src dst proto id payload (step_of mtu) positive units short n 0 (omega arith)
          (λ l. refl),
    )
  where
    All-weaken :
        (fs : List (List ℕ)) (a b : ℕ)
        → a + 20 ≤ b
        → All (λ f. length f ≤ 20 + a) fs
        → All (λ f. length f ≤ b) fs
    All-weaken [] a b h v = tt
    All-weaken (f ∷ fs) a b h v = (omega arith, All-weaken fs a b h v.1)
