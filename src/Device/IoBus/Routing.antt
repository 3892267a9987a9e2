-- ===== src/Device/IoBus/Routing.antt =====
-- Which handler the bus of src/devices/io_bus.rs calls: ranges never overlap, so a port has one.
use tinyvmm.Prelude.{
  ℕ, ◌+◌, ◌≤◌, ◌<◌, ◌≡◌, ◌⊎◌, true, false, some, List, [], ◌∷◌, ◌++◌, All, All-append,
  if◌then◌else◌, arith, refl,
}
use tinyvmm.Device.IoBus.{IoAccess, Handler, Entry, overlaps_any, register, claims, dispatch}

module _ {ℓ} {S : Type ℓ} where
  abbrev pub Apart : Entry S → Entry S → Type 0
  Apart d e = (d.base + d.size ≤ e.base) ⊎ (e.base + e.size ≤ d.base)

  abbrev pub InSpace : Entry S → Type 0
  InSpace e = (0 < e.size) × (e.base + e.size ≤ 0x10000)

  -- Each range lies in the I/O space, and none meets a later one.
  abbrev pub IsValid : List (Entry S) → Type ℓ
  IsValid [] = Unit
  IsValid (e ∷ es) = InSpace e × All (Apart e) es × IsValid es

  overlaps_any-Apart :
      (es : List (Entry S)) (new : Entry S)
      → IsValid es
      → 0 < new.size
      → overlaps_any new.base new.size es ≡ false
      → All (λ d. Apart d new) es
  unfolding overlaps_any
  overlaps_any-Apart [] new v p h = tt
  overlaps_any-Apart (e ∷ es) new v p h =
      (ground arith, overlaps_any-Apart es new v.2 p (ground arith))

  IsValid-snoc :
      (es : List (Entry S)) (new : Entry S)
      → IsValid es
      → InSpace new
      → All (λ d. Apart d new) es
      → IsValid (es ++ (new ∷ []))
  IsValid-snoc [] new v i a = (i, tt, tt)
  IsValid-snoc (e ∷ es) new v i a =
      (v.0, All-append (Apart e) es (new ∷ []) v.1 (a.0, tt), IsValid-snoc es new v.2 i a.1)

  dispatch-snoc :
      (es : List (Entry S)) (new : Entry S) (acc : IoAccess) (s : S)
      → All (λ d. Apart d new) es
      → dispatch (es ++ (new ∷ [])) acc s ≡ (
          if claims new acc.port
          then (let (acc', s') = new.handler acc s in (acc', s', true))
          else dispatch es acc s)
  unfolding dispatch
  dispatch-snoc [] new acc s a = refl
  dispatch-snoc (e ∷ es) new acc s a = ground (arith, dispatch-snoc es new acc s a.1)

  module _ (es : List (Entry S)) (base size : ℕ) (h : Handler S) {es' : List (Entry S)}
      (v : IsValid es) (ok : register es base size h ≡ some es') where
    abbrev added : Entry S
    added = record { base = base; size = size; handler = h }

    registered : (es' ≡ es ++ (added ∷ [])) × InSpace added × (overlaps_any base size es ≡ false)
    unfolding register
    registered = ground (arith, ok)

    -- What a registration accepts keeps the ranges in the I/O space and apart from one another.
    pub register-IsValid : IsValid es'
    register-IsValid =
        let (e, i, o) = registered in
        rw e (IsValid-snoc es added v i (overlaps_any-Apart es added v i.0 o))

    -- After a registration its own ports reach the new handler, and every other access is served
    -- exactly as before.
    pub dispatch-register :
        (acc : IoAccess) (s : S)
        → dispatch es' acc s ≡ (
            if claims added acc.port
            then (let (acc', s') = h acc s in (acc', s', true))
            else dispatch es acc s)
    dispatch-register acc s =
        let (e, i, o) = registered in
        rw e (dispatch-snoc es added acc s (overlaps_any-Apart es added v i.0 o))
