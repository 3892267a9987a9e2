-- ===== src/Vmbus/Ring/Places.antt =====
-- Where the bytes of a ring of src/vmbus/ring.rs lie in the host's allocation.
use tinyvmm.Prelude.{
  ℕ, zero, suc, ◌+◌, ◌-◌, ◌/◌, ◌%◌, ◌^◌, ◌≤◌, ◌<◌, ◌≡◌, ◌≢◌, ◌⊎◌, inl, inr, some, ltb, Bool-cases,
  ◌==◌, ==_iff, length, get_or, get_elem?, List, [], ◌∷◌, arith, refl, ap, ◌∙◌,
}
use native.Mathlib.Nat.{mod-add-mod, mod-eq_of_lt, mod-eq-sub-mod}
use tinyvmm.Memory.{GuestMemory, region_off}
use tinyvmm.Memory.Region.{IsValid, region_off_disjoint}
use tinyvmm.Vmbus.Ring.{page, Ring, size}

-- The pages are as many as `new` accepts, aligned, in RAM, page `j` at offset `host j` of the
-- allocation, and no page is there twice.
pub record Laid (m : GuestMemory) (ring : Ring) (host : ℕ → ℕ) : Type 0 where
  pub valid : IsValid m
  pub enough : 2 ≤ length ring.pages
  pub bounded : length ring.pages ≤ 2 ^ 16
  pub aligned : (j : ℕ) → j < length ring.pages → get_or ring.pages j 0 % page ≡ 0
  pub mapped :
      (j : ℕ) → j < length ring.pages → region_off m (get_or ring.pages j 0) page ≡ some (host j)
  pub distinct :
      (i j : ℕ)
      → i < length ring.pages
      → j < length ring.pages
      → i ≢ j
      → get_or ring.pages i 0 ≢ get_or ring.pages j 0

pub Laid-base :
    {m : GuestMemory} {ring : Ring} {host : ℕ → ℕ} (b : ℕ → ℕ)
    → Laid m ring host
    → Laid (record m { base = b }) ring host
unfolding region_off
Laid-base b l = record {
  valid = l.valid;
  enough = l.enough;
  bounded = l.bounded;
  aligned = l.aligned;
  mapped = l.mapped;
  distinct = l.distinct;
}

-- The host offset of byte `i` of the data.
abbrev pub loc : (ℕ → ℕ) → ℕ → ℕ
loc host i = host (1 + i / page) + i % page

pages_apart : (a b : ℕ) → a % page ≡ 0 → b % page ≡ 0 → a ≢ b → (a + page ≤ b) ⊎ (b + page ≤ a)
pages_apart a b h k n = elim (Bool-cases (ltb a b)) [
  | inl e ↦ inl (ground arith)
  | inr e ↦ let other : b < a = ground (arith, n, e) in inr (omega arith)
]

pub get_elem?-get_or : (xs : List ℕ) (i : ℕ) → i < length xs → get_elem? xs i ≡ some (get_or xs i 0)
get_elem?-get_or [] i h = absurd (omega arith)
get_elem?-get_or (x ∷ xs) zero h = refl
get_elem?-get_or (x ∷ xs) (suc i) h = get_elem?-get_or xs i (omega arith)

module _ {m : GuestMemory} {ring : Ring} {host : ℕ → ℕ} (l : Laid m ring host) where
  pub hosts_apart :
      (i j : ℕ)
      → i < length ring.pages
      → j < length ring.pages
      → i ≢ j
      → (host i + page ≤ host j) ⊎ (host j + page ≤ host i)
  hosts_apart i j h k n =
      region_off_disjoint m (get_or ring.pages i 0) page (get_or ring.pages j 0) page l.valid
        (l.mapped i h) (l.mapped j k)
        (pages_apart (get_or ring.pages i 0) (get_or ring.pages j 0) (l.aligned i h) (l.aligned j k)
          (l.distinct i j h k n))

  pub page_in_range : (i : ℕ) → i < size ring → 1 + i / page < length ring.pages
  page_in_range i h = omega (arith, l.enough)

  -- Two bytes of the data lie apart, and apart from the control page.
  pub loc_apart : (i j : ℕ) → i < size ring → j < size ring → i ≢ j → loc host i ≢ loc host j
  loc_apart i j h k n e = elim (Bool-cases (i / page == j / page)) [
    | inl same ↦
        let quotients : i / page ≡ j / page = (==_iff (i / page) (j / page)).0 same in
        let hosts : host (1 + i / page) ≡ host (1 + j / page) = ap (λ q. host (1 + q)) quotients in
        n (omega arith)
    | inr other ↦
        let quotients : 1 + i / page ≢ 1 + j / page = λ q. absurd (ground arith) in
        let apart =
          hosts_apart (1 + i / page) (1 + j / page) (page_in_range i h) (page_in_range j k)
            quotients in
        omega (arith, apart)
  ]

  pub loc_outside_control :
      (i : ℕ) → i < size ring → (host 0 + page ≤ loc host i) ⊎ (loc host i < host 0)
  loc_outside_control i h =
      let apart =
        hosts_apart 0 (1 + i / page) (omega (arith, l.enough)) (page_in_range i h)
          (λ e. absurd (omega arith)) in
      ground (arith, apart)

-- Going round a ring of `n` bytes.
module _ (n : ℕ) where
  pub round_cases :
      (off k : ℕ)
      → off < n
      → k ≤ n
      → ((off + k < n) × ((off + k) % n ≡ off + k))
        ⊎ ((n ≤ off + k) × ((off + k) % n + n ≡ off + k))
  round_cases off k h l = elim (Bool-cases (ltb (off + k) n)) [
    | inl e ↦ let small : off + k < n = ground arith in inl (small, mod-eq_of_lt small)
    | inr e ↦
        let large : n ≤ off + k = ground arith in
        let sub : (off + k) % n ≡ (off + k - n) % n = mod-eq-sub-mod {n = off + k} {m = n} large in
        elim (Bool-cases (ltb (off + k - n) n)) [
          | inl e' ↦
              let small : off + k - n < n = ground arith in
              inr (large, omega (arith, sub, mod-eq_of_lt {n = off + k - n} {m = n} small))
          | inr e' ↦ absurd (ground arith)
        ]
  ]

  pub round-lt : (off k : ℕ) → off < n → k ≤ n → (off + k) % n < n
  round-lt off k h l = ground (arith, round_cases off k h l)

  pub round_apart : (off j k : ℕ) → off < n → j < n → k < n → j ≢ k → (off + j) % n ≢ (off + k) % n
  round_apart off j k h l l' ne e =
      ne (ground (arith, round_cases off j h (omega arith), round_cases off k h (omega arith), e))

  pub round-round : (off j k : ℕ) → ((off + j) % n + k) % n ≡ (off + (j + k)) % n
  round-round off j k = mod-add-mod (off + j) n k ∙ ap (λ t. t % n) (omega arith)

  -- Aligned to 8 stays aligned.
  pub round-aligned :
      (off k : ℕ) → off < n → k ≤ n → n % 8 ≡ 0 → off % 8 ≡ 0 → k % 8 ≡ 0 → (off + k) % n % 8 ≡ 0
  round-aligned off k h l a b c = ground (arith, round_cases off k h l)
