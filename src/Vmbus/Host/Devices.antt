-- ===== src/Vmbus/Host/Devices.antt =====
-- What the devices below src/vmbus/mod.rs may rely on: the calls of `open`, `close` and `signal` that a device
-- may get, by whether its channel is open.
use tinyvmm.Prelude.{
  ℕ, zero, suc, ◌+◌, ◌≡◌, Bool, true, false, Option, none, some, List, [], ◌∷◌, ◌++◌, length,
  length-append, get_elem?, set, ◌>>=◌, if◌then◌else◌, ltb, arith, refl, ap, ap₂, sym, ◌∙◌,
}
use tinyvmm.Vmbus.Host.{Open, Channel, Event, close_where}
use tinyvmm.Vmbus.Host.Requests.{is_some}

-- The channels that are open, by the devices' numbers.
abbrev pub live : List (Option Open) → List Bool
live [] = []
live (o ∷ os) = is_some o ∷ live os

-- A call: `open` of a channel that is closed, `close` and `signal` of one that is open.
abbrev pub tell : Event → List Bool → Option (List Bool)
tell (Event.opened i channel) ds = elim (get_elem? ds i) [
  | none ↦ none
  | some b ↦ if b then none else some (set ds i true)
]
tell (Event.closed i) ds = elim (get_elem? ds i) [
  | none ↦ none
  | some b ↦ if b then some (set ds i false) else none
]
tell (Event.signaled i) ds = elim (get_elem? ds i) [
  | none ↦ none
  | some b ↦ if b then some ds else none
]

abbrev pub replay : List Event → List Bool → Option (List Bool)
replay [] ds = some ds
replay (e ∷ es) ds = tell e ds >>= replay es

pub replay-append :
    (es es' : List Event) (ds ds' : List Bool)
    → replay es ds ≡ some ds'
    → replay (es ++ es') ds ≡ replay es' ds'
replay-append [] es' ds ds' e = ap (λ o. elim o [ none ↦ replay es' ds | some x ↦ replay es' x ]) e
replay-append (x ∷ es) es' ds ds' e = go (tell x ds) (λ ds₁ f. replay-append es es' ds₁ ds' f) e
  where
    go :
        (o : Option (List Bool))
        → ((ds₁ : List Bool) → replay es ds₁ ≡ some ds' → replay (es ++ es') ds₁ ≡ replay es' ds')
        → (o >>= replay es) ≡ some ds'
        → (o >>= replay (es ++ es')) ≡ replay es' ds'
    go none rest f = absurd (cc f)
    go (some ds₁) rest f = rest ds₁ f

pub live-set :
    (os : List (Option Open)) (i : ℕ) (o : Option Open)
    → live (set os i o) ≡ set (live os) i (is_some o)
live-set [] i o = refl
live-set (x ∷ os) zero o = refl
live-set (x ∷ os) (suc i) o = ap (is_some x ∷◌) (live-set os i o)

-- A channel by its number, and what the devices know of it.
pub live-at :
    (os : List (Option Open)) (i : ℕ) (o : Open)
    → (elim (get_elem? os i) [ none ↦ none | some x ↦ x ]) ≡ some o
    → get_elem? (live os) i ≡ some true
live-at [] i o e = absurd (cc e)
live-at (none ∷ os) zero o e = absurd (cc e)
live-at (some x ∷ os) zero o e = refl
live-at (x ∷ os) (suc i) o e = live-at os i o e

-- Setting a channel to what it is changes nothing.
pub set-same : (ds : List Bool) (i : ℕ) (b : Bool) → get_elem? ds i ≡ some b → set ds i b ≡ ds
set-same [] i b e = refl
set-same (d ∷ ds) zero b e = ap (λ o. elim o [ none ↦ b ∷ ds | some x ↦ x ∷ ds ]) (sym e)
set-same (d ∷ ds) (suc i) b e = ap (d ∷◌) (set-same ds i b e)

pub live-closed :
    (os : List (Option Open)) (i : ℕ)
    → ltb i (length os) ≡ true
    → (elim (get_elem? os i) [ none ↦ none | some x ↦ x ]) ≡ none
    → get_elem? (live os) i ≡ some false
live-closed [] i lt e = absurd (ground (arith, lt))
live-closed (none ∷ os) zero lt e = refl
live-closed (some x ∷ os) zero lt e = absurd (cc e)
live-closed (x ∷ os) (suc i) lt e = live-closed os i (ground (arith, lt)) e

-- The two calls that change a channel.
pub tell-opened :
    (ds : List Bool) (i : ℕ) (c : Channel)
    → get_elem? ds i ≡ some false
    → tell (Event.opened i c) ds ≡ some (set ds i true)
tell-opened ds i c e =
    ap (λ o. elim o [ none ↦ none | some b ↦ if b then none else some (set ds i true) ]) e

pub tell-closed :
    (ds : List Bool) (i : ℕ)
    → get_elem? ds i ≡ some true
    → tell (Event.closed i) ds ≡ some (set ds i false)
tell-closed ds i e =
    ap (λ o. elim o [ none ↦ none | some b ↦ if b then some (set ds i false) else none ]) e

-- A single call.
pub replay-one :
    (x : Event) (ds ds' : List Bool) → tell x ds ≡ some ds' → replay (x ∷ []) ds ≡ some ds'
replay-one x ds ds' e = ap (λ o. o >>= replay []) e

pub get_elem?-append :
    (pre : List Bool) (b : Bool) (ds : List Bool)
    → get_elem? (pre ++ (b ∷ ds)) (length pre) ≡ some b
get_elem?-append [] b ds = refl
get_elem?-append (p ∷ pre) b ds = get_elem?-append pre b ds

pub set-append :
    (pre : List Bool) (b c : Bool) (ds : List Bool)
    → set (pre ++ (b ∷ ds)) (length pre) c ≡ pre ++ (c ∷ ds)
set-append [] b c ds = refl
set-append (p ∷ pre) b c ds = ap (p ∷◌) (set-append pre b c ds)

pub snoc-append :
    (pre : List Bool) (b : Bool) (ds : List Bool) → (pre ++ (b ∷ [])) ++ ds ≡ pre ++ (b ∷ ds)
snoc-append [] b ds = refl
snoc-append (p ∷ pre) b ds = ap (p ∷◌) (snoc-append pre b ds)

pub length-snoc :
    (pre : List Bool) (b : Bool) (i : ℕ) → i ≡ length pre → i + 1 ≡ length (pre ++ (b ∷ []))
length-snoc pre b i e = omega (arith, e, length-append pre (b ∷ []))

-- Closing some of the channels from the one after `pre` on.
replay-close_from :
    (which : Open → Bool) (os : List (Option Open)) (i : ℕ) (pre ds : List Bool)
    → i ≡ length pre
    → ds ≡ pre ++ live os
    → replay (close_where which i os).1 ds ≡ some (pre ++ live (close_where which i os).0)
replay-close_from which [] i pre ds e f = ap some f
replay-close_from which (none ∷ os) i pre ds e f =
    replay-close_from which os (i + 1) (pre ++ (false ∷ [])) ds (length-snoc pre false i e)
      (f ∙ sym (snoc-append pre false (live os)))
    ∙ ap some (snoc-append pre false (live (close_where which (i + 1) os).0))
replay-close_from which (some o ∷ os) i pre ds e f =
    go (which o)
      (replay-close_from which os (i + 1) (pre ++ (true ∷ [])) ds (length-snoc pre true i e)
          (f ∙ sym (snoc-append pre true (live os)))
        ∙ ap some (snoc-append pre true (live (close_where which (i + 1) os).0)))
      (ap (λ x. x >>= replay (close_where which (i + 1) os).1)
          (tell-closed ds i (ap₂ get_elem? f e ∙ get_elem?-append pre true (live os)))
        ∙ replay-close_from which os (i + 1) (pre ++ (false ∷ [])) (set ds i false)
            (length-snoc pre false i e)
            (ap₂ (λ xs j. set xs j false) f e
              ∙ set-append pre true false (live os)
              ∙ sym (snoc-append pre false (live os)))
        ∙ ap some (snoc-append pre false (live (close_where which (i + 1) os).0)))
  where
    go :
        (b : Bool)
        → replay (close_where which (i + 1) os).1 ds
          ≡ some (pre ++ (true ∷ live (close_where which (i + 1) os).0))
        → replay (Event.closed i ∷ (close_where which (i + 1) os).1) ds
          ≡ some (pre ++ (false ∷ live (close_where which (i + 1) os).0))
        → replay
            (if◌then◌else◌ {A = List (Option Open) × List Event} b
              (
                none ∷ (close_where which (i + 1) os).0,
                Event.closed i ∷ (close_where which (i + 1) os).1,
              )
              (some o ∷ (close_where which (i + 1) os).0, (close_where which (i + 1) os).1)).1
            ds
          ≡ some (
              pre
              ++ live
                  (if◌then◌else◌ {A = List (Option Open) × List Event} b
                    (
                      none ∷ (close_where which (i + 1) os).0,
                      Event.closed i ∷ (close_where which (i + 1) os).1,
                    )
                    (
                      some o ∷ (close_where which (i + 1) os).0,
                      (close_where which (i + 1) os).1,
                    )).0)
    go true stay shut = shut
    go false stay shut = stay

pub replay-close_where :
    (which : Open → Bool) (os : List (Option Open))
    → replay (close_where which 0 os).1 (live os) ≡ some (live (close_where which 0 os).0)
replay-close_where which os = replay-close_from which os 0 [] (live os) refl refl
