-- ===== src/Device/MmioBus/Windows.antt =====
-- Several ranges of one device on the bus of src/devices/mmio_bus.rs, registered in order and taken away.
use tinyvmm.Prelude.{
  ℕ, ◌≡◌, ◌>>=◌, true, false, Option, some, List, [], ◌∷◌, ◌++◌, All, All-append, ◌==◌, arith, refl,
  ap, sym, ◌∙◌,
}
use tinyvmm.Device.MmioBus.{Handler, Entry, register, unregister}
use tinyvmm.Device.MmioBus.Ranges.{Apart, InSpace, IsValid, overlaps_any_iff, unregister-IsValid}

module _ {ℓ} {S : Type ℓ} where
  -- A registration whose result the caller drops, as `install` does.
  abbrev pub add : List (Entry S) → ℕ → ℕ → Handler S → Option (List (Entry S))
  add es base size h = register es base size h >>= λ r. some r.0

  -- Registrations in order, and what follows them.
  abbrev pub add_then {κ} :
      {B : Type κ} → List (Entry S) → List (Entry S) → (List (Entry S) → Option B) → Option B
  add_then es [] k = k es
  add_then es (w ∷ ws) k = add es w.base w.size w.handler >>= λ es'. add_then es' ws k

  abbrev pub take_all : List (Entry S) → List (Entry S) → List (Entry S)
  take_all es [] = es
  take_all es (w ∷ ws) = take_all (unregister es w.base).0 ws

  append_assoc :
      (xs : List (Entry S)) (y : Entry S) (zs : List (Entry S))
      → (xs ++ (y ∷ [])) ++ zs ≡ xs ++ (y ∷ zs)
  append_assoc [] y zs = refl
  append_assoc (x ∷ xs) y zs = ap (λ r. x ∷ r) (append_assoc xs y zs)

  append-nil : (xs : List (Entry S)) → xs ++ [] ≡ xs
  append-nil [] = refl
  append-nil (x ∷ xs) = ap (λ r. x ∷ r) (append-nil xs)

  -- What a valid list with `w` in it says of the part before `w`.
  IsValid-before :
      (es : List (Entry S)) (w : Entry S) (ws : List (Entry S))
      → IsValid (es ++ (w ∷ ws))
      → IsValid es × InSpace w × All (λ d. Apart d w) es
  IsValid-before [] w ws v = (tt, v.0, tt)
  IsValid-before (e ∷ es) w ws v =
      let ih = IsValid-before es w ws v.2 in
      (
        (v.0, All-front (Apart e) es (w ∷ ws) v.1, ih.0),
        ih.1,
        (All-middle (Apart e) es w ws v.1, ih.2),
      )
    where
      All-front : (P : Entry S → Type 0) (xs ys : List (Entry S)) → All P (xs ++ ys) → All P xs
      All-front P [] ys a = tt
      All-front P (x ∷ xs) ys a = (a.0, All-front P xs ys a.1)

      All-middle :
          (P : Entry S → Type 0) (xs : List (Entry S)) (y : Entry S) (ys : List (Entry S))
          → All P (xs ++ (y ∷ ys))
          → P y
      All-middle P [] y ys a = a.0
      All-middle P (x ∷ xs) y ys a = All-middle P xs y ys a.1

  register-free :
      (es : List (Entry S)) (w : Entry S)
      → IsValid es
      → InSpace w
      → All (λ d. Apart d w) es
      → register es w.base w.size w.handler ≡ some (es ++ (w ∷ []), true)
  unfolding register
  register-free es w v i a =
      let free = (overlaps_any_iff es w v i).1 a in
      let some_size : (w.size == 0) ≡ false = ground (arith, i) in simp (free, some_size) refl

  -- Ranges that lie apart are all registered, after those that were there.
  pub add_then_lem {κ} :
      {B : Type κ} (es ws : List (Entry S)) (k : List (Entry S) → Option B)
      → IsValid (es ++ ws)
      → add_then es ws k ≡ k (es ++ ws)
  add_then_lem es [] k v = ap k (sym (append-nil es))
  add_then_lem es (w ∷ ws) k v =
      let (before, inside, apart) = IsValid-before es w ws v in
      ap (λ r. (r >>= λ q. some q.0) >>= λ es'. add_then es' ws k)
        (register-free es w before inside apart)
      ∙ add_then_lem (es ++ (w ∷ [])) ws k (rw (append_assoc es w ws) v)
      ∙ ap k (append_assoc es w ws)

  unregister-middle :
      (es : List (Entry S)) (w : Entry S) (ws : List (Entry S))
      → InSpace w
      → IsValid es
      → All (λ d. Apart d w) es
      → (unregister (es ++ (w ∷ ws)) w.base).0 ≡ es ++ ws
  unfolding unregister
  unregister-middle [] w ws i j a = ground arith
  unregister-middle (e ∷ es) w ws i j a =
      ground (arith, j.0, a.0, i, unregister-middle es w ws i j.2 a.1)

  -- Taking them away in order restores the list.
  pub take_all_lem : (es ws : List (Entry S)) → IsValid (es ++ ws) → take_all (es ++ ws) ws ≡ es
  take_all_lem es [] v = append-nil es
  take_all_lem es (w ∷ ws) v =
      let (before, inside, apart) = IsValid-before es w ws v in
      let gone = unregister-middle es w ws inside before apart in
      ap (λ r. take_all r ws) gone
      ∙ take_all_lem es ws (rw (← gone) (unregister-IsValid (es ++ (w ∷ ws)) w.base v))

  -- Valid ranges beside valid ranges that lie apart from them.
  pub IsValid-append :
      (es ws : List (Entry S))
      → IsValid es
      → IsValid ws
      → All (λ e. All (Apart e) ws) es
      → IsValid (es ++ ws)
  IsValid-append [] ws v u a = u
  IsValid-append (e ∷ es) ws v u a =
      (v.0, All-append (Apart e) es ws v.1 a.0, IsValid-append es ws v.2 u a.1)
