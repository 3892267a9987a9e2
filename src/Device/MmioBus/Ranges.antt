-- ===== src/Device/MmioBus/Ranges.antt =====
-- The ranges of src/devices/mmio_bus.rs stay apart while BARs move, and taking a device's range away
-- undoes adding it.
use tinyvmm.Prelude.{
  ℕ, ◌+◌, ◌^◌, ◌≤◌, ◌<◌, ◌≡◌, ◌⊎◌, ◌↔◌, Bool, true, false, some, List, [], ◌∷◌, ◌++◌, All,
  All-append, ◌==◌, arith, refl, inl, inr, Bool-cases,
}
use tinyvmm.Device.MmioBus.{Handler, Entry, overlaps_any, register, is_range_free, unregister}

module _ {ℓ} {S : Type ℓ} where
  abbrev pub Apart : Entry S → Entry S → Type 0
  Apart d e = (d.base + d.size ≤ e.base) ⊎ (e.base + e.size ≤ d.base)

  -- A range that is not empty and ends below 2^64.
  abbrev pub InSpace : Entry S → Type 0
  InSpace e = (0 < e.size) × (e.base + e.size < 2 ^ 64)

  abbrev pub IsValid : List (Entry S) → Type ℓ
  IsValid [] = Unit
  IsValid (e ∷ es) = InSpace e × All (Apart e) es × IsValid es

  pub overlaps_any_iff :
      (es : List (Entry S)) (new : Entry S)
      → IsValid es
      → InSpace new
      → (overlaps_any new.base new.size es ≡ false) ↔ All (λ d. Apart d new) es
  unfolding overlaps_any
  overlaps_any_iff [] new v i = (λ h. tt, λ h. refl)
  overlaps_any_iff (e ∷ es) new v i =
      let ih = overlaps_any_iff es new v.2 i in
      (λ h. (ground arith, ih.0 (ground arith)), λ h. ground (arith, ih.1 h.1))

  IsValid-snoc :
      (es : List (Entry S)) (new : Entry S)
      → IsValid es
      → InSpace new
      → All (λ d. Apart d new) es
      → IsValid (es ++ (new ∷ []))
  IsValid-snoc [] new v i a = (i, tt, tt)
  IsValid-snoc (e ∷ es) new v i a =
      (v.0, All-append (Apart e) es (new ∷ []) v.1 (a.0, tt), IsValid-snoc es new v.2 i a.1)

  All-unregister :
      (P : Entry S → Type 0) (es : List (Entry S)) (base : ℕ)
      → All P es
      → All P (unregister es base).0
  unfolding unregister
  All-unregister P [] base a = a
  All-unregister P (e ∷ es) base a = elim (Bool-cases (e.base == base)) [
    | inl h ↦ rw h a.1
    | inr h ↦ rw h (a.0, All-unregister P es base a.1)
  ]

  -- Unregistering keeps the ranges apart.
  pub unregister-IsValid :
      (es : List (Entry S)) (base : ℕ) → IsValid es → IsValid (unregister es base).0
  unfolding unregister
  unregister-IsValid [] base v = tt
  unregister-IsValid (e ∷ es) base v = elim (Bool-cases (e.base == base)) [
    | inl h ↦ rw h v.2
    | inr h ↦ rw h (v.0, All-unregister (Apart e) es base v.1, unregister-IsValid es base v.2)
  ]

  unregister-snoc :
      (es : List (Entry S)) (new : Entry S)
      → IsValid es
      → InSpace new
      → All (λ d. Apart d new) es
      → unregister (es ++ (new ∷ [])) new.base ≡ (es, true)
  unfolding unregister
  unregister-snoc [] new v i a = ground arith
  unregister-snoc (e ∷ es) new v i a = ground (arith, unregister-snoc es new v.2 i a.1)

  module _ (es : List (Entry S)) (base size : ℕ) (h : Handler S) {r : List (Entry S) × Bool}
      (ok : register es base size h ≡ some r) where
    abbrev added : Entry S
    added = record { base = base; size = size; handler = h }

    refused : overlaps_any base size es ≡ true → r ≡ (es, false)
    unfolding register
    refused o = ground arith

    accepted : overlaps_any base size es ≡ false → (r ≡ (es ++ (added ∷ []), true)) × (0 < size)
    unfolding register
    accepted o = ground arith

    -- A registration over valid entries is accepted exactly when the range is free. Accepted, it
    -- keeps the ranges apart, and unregistering its base restores the entries; refused, it changes
    -- nothing.
    pub register_lem :
        IsValid es
        → base + size < 2 ^ 64
        → ((r.1 ≡ true) ↔ (is_range_free es base size ≡ true))
          × IsValid r.0
          × (r.1 ≡ false → r.0 ≡ es)
          × (r.1 ≡ true → unregister r.0 base ≡ (es, true))
    unfolding is_range_free
    register_lem v w = elim (Bool-cases (overlaps_any base size es)) [
      | inl o ↦
          rw (refused o, o)
            (
              (λ e. absurd (ground arith), λ e. absurd (ground arith)),
              v,
              λ e. refl,
              λ e. absurd (ground arith),
            )
      | inr o ↦
          let (e, p) = accepted o in
          let a = (overlaps_any_iff es added v (p, w)).0 o in
          rw (e, o)
            (
              (λ t. refl, λ t. refl),
              IsValid-snoc es added v (p, w) a,
              λ t. absurd (ground arith),
              λ t. unregister-snoc es added v (p, w) a,
            )
    ]
