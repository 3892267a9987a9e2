-- ===== src/Vmbus/Host/Lists.antt =====
-- The map of GPADLs and the list of channels of src/vmbus/mod.rs.
use tinyvmm.Prelude.{
  ◌<◌, ltb, ℕ, suc, ◌≤◌, ◌≡◌, inl, inr, Bool, true, false, none, some, List, [], ◌∷◌, All, length,
  ◌==◌, if◌then◌else◌, Bool-cases, arith, refl, ap, sym, ◌∙◌,
}
use mathlib.Core.Path.{subst}
use tinyvmm.Vmbus.Host.{Gpadl, get, contains_key, insert, remove}

-- A lookup after an insertion.
pub get-insert :
    (gs : List (ℕ × Gpadl)) (id : ℕ) (g : Gpadl) (j : ℕ)
    → get (insert gs id g) j ≡ (if id == j then some g else get gs j)
get-insert [] id g j = refl
get-insert ((k, h) ∷ gs) id g j =
    let rest : get (insert gs id g) j ≡ (if id == j then some g else get gs j) =
      get-insert gs id g j in
    elim (Bool-cases (k == id)) [ inl e ↦ ground (arith, rest) | inr e ↦ ground (arith, rest) ]

pub get-remove :
    (gs : List (ℕ × Gpadl)) (id j : ℕ) → (id == j) ≡ false → get (remove gs id) j ≡ get gs j
get-remove [] id j e = refl
get-remove ((k, g) ∷ gs) id j e =
    let rest : get (remove gs id) j ≡ get gs j = get-remove gs id j e in ground (arith, rest)

-- What holds of every GPADL stays so.
module _ (P : Gpadl → Type 0) where
  abbrev pub Entry : ℕ × Gpadl → Type 0
  Entry (id, g) = P g

  choose :
      (b : Bool) (x y : List (ℕ × Gpadl))
      → All Entry x
      → All Entry y
      → All Entry (if b then x else y)
  choose true x y u v = u
  choose false x y u v = v

  pub All-insert :
      (gs : List (ℕ × Gpadl)) (id : ℕ) (g : Gpadl) → All Entry gs → P g → All Entry (insert gs id g)
  All-insert [] id g a p = (p, tt)
  All-insert ((k, h) ∷ gs) id g (q, a) p =
      choose (k == id) ((id, g) ∷ gs)
        (if ltb id k then (id, g) ∷ (k, h) ∷ gs else (k, h) ∷ insert gs id g) (p, a)
        (choose (ltb id k) ((id, g) ∷ (k, h) ∷ gs) ((k, h) ∷ insert gs id g) (p, (q, a))
          (q, All-insert gs id g a p))

  pub All-remove : (gs : List (ℕ × Gpadl)) (id : ℕ) → All Entry gs → All Entry (remove gs id)
  All-remove [] id a = tt
  All-remove ((k, g) ∷ gs) id (p, a) =
      choose (k == id) gs ((k, g) ∷ remove gs id) a (p, All-remove gs id a)

  pub All-get :
      (gs : List (ℕ × Gpadl)) (id : ℕ) (g : Gpadl) → All Entry gs → get gs id ≡ some g → P g
  All-get [] id g a e = absurd (cc e)
  All-get ((k, h) ∷ gs) id g (p, a) e = elim (Bool-cases (k == id)) [
    | inl f ↦
        let here : some h ≡ some g = sym (ap (λ b. if b then some h else get gs id) f) ∙ e in
        subst P (ap (λ o. elim o [ none ↦ h | some x ↦ x ]) here) p
    | inr f ↦ All-get gs id g a (ground (arith, e, f))
  ]

pub length-insert :
    (gs : List (ℕ × Gpadl)) (id : ℕ) (g : Gpadl) → length (insert gs id g) ≤ suc (length gs)
length-insert [] id g = omega arith
length-insert ((k, h) ∷ gs) id g =
    let rest : length (insert gs id g) ≤ suc (length gs) = length-insert gs id g in
    ground (arith, rest)

pub length-remove : (gs : List (ℕ × Gpadl)) (id : ℕ) → length (remove gs id) ≤ length gs
length-remove [] id = omega arith
length-remove ((k, g) ∷ gs) id =
    let rest : length (remove gs id) ≤ length gs = length-remove gs id in ground (arith, rest)

pub get-absent : (gs : List (ℕ × Gpadl)) (id : ℕ) → contains_key gs id ≡ false → get gs id ≡ none
get-absent [] id e = refl
get-absent ((k, g) ∷ gs) id e =
    let rest : contains_key gs id ≡ false → get gs id ≡ none = get-absent gs id in
    ground (arith, e, rest)

-- The keys ascend.
abbrev pub Above : ℕ → List (ℕ × Gpadl) → Type 0
Above n [] = Unit
Above n ((k, g) ∷ gs) = (n < k) × Above n gs

abbrev pub Ascending : List (ℕ × Gpadl) → Type 0
Ascending [] = Unit
Ascending ((k, g) ∷ gs) = Above k gs × Ascending gs

Above-lower : (n k : ℕ) (gs : List (ℕ × Gpadl)) → n ≤ k → Above k gs → Above n gs
Above-lower n k [] h a = tt
Above-lower n k ((j, g) ∷ gs) h (l, a) = (omega (arith, h, l), Above-lower n k gs h a)

module _ (P : List (ℕ × Gpadl) → Type 0) where
  -- A branch that is taken.
  branch :
      (b : Bool) (x y : List (ℕ × Gpadl))
      → (b ≡ true → P x)
      → (b ≡ false → P y)
      → P (if b then x else y)
  branch true x y u v = u refl
  branch false x y u v = v refl

Above-insert :
    (n : ℕ) (gs : List (ℕ × Gpadl)) (id : ℕ) (g : Gpadl)
    → n < id
    → Above n gs
    → Above n (insert gs id g)
Above-insert n [] id g l a = (l, tt)
Above-insert n ((k, h) ∷ gs) id g l (l', a) =
    branch (Above n) (k == id) ((id, g) ∷ gs)
      (if ltb id k then (id, g) ∷ (k, h) ∷ gs else (k, h) ∷ insert gs id g) (λ e. (l, a))
      (λ e.
        branch (Above n) (ltb id k) ((id, g) ∷ (k, h) ∷ gs) ((k, h) ∷ insert gs id g)
          (λ f. (l, (l', a))) (λ f. (l', Above-insert n gs id g l a)))

pub Ascending-insert :
    (gs : List (ℕ × Gpadl)) (id : ℕ) (g : Gpadl) → Ascending gs → Ascending (insert gs id g)
Ascending-insert [] id g a = (tt, tt)
Ascending-insert ((k, h) ∷ gs) id g (l, a) =
    branch Ascending (k == id) ((id, g) ∷ gs)
      (if ltb id k then (id, g) ∷ (k, h) ∷ gs else (k, h) ∷ insert gs id g)
      (λ e. let same : id ≤ k = ground (arith, e) in (Above-lower id k gs same l, a))
      (λ e.
        branch Ascending (ltb id k) ((id, g) ∷ (k, h) ∷ gs) ((k, h) ∷ insert gs id g)
          (λ f.
            let below : id < k = ground (arith, f) in
            let lower : id ≤ k = omega (arith, below) in
            ((below, Above-lower id k gs lower l), (l, a)))
          (λ f.
            let over : k < id = ground (arith, e, f) in
            (Above-insert k gs id g over l, Ascending-insert gs id g a)))

Above-remove : (n : ℕ) (gs : List (ℕ × Gpadl)) (id : ℕ) → Above n gs → Above n (remove gs id)
Above-remove n [] id a = tt
Above-remove n ((k, g) ∷ gs) id (l, a) =
    branch (Above n) (k == id) gs ((k, g) ∷ remove gs id) (λ e. a)
      (λ e. (l, Above-remove n gs id a))

pub Ascending-remove : (gs : List (ℕ × Gpadl)) (id : ℕ) → Ascending gs → Ascending (remove gs id)
Ascending-remove [] id a = tt
Ascending-remove ((k, g) ∷ gs) id (l, a) =
    branch Ascending (k == id) gs ((k, g) ∷ remove gs id) (λ e. a)
      (λ e. (Above-remove k gs id l, Ascending-remove gs id a))

Above-get :
    (n : ℕ) (gs : List (ℕ × Gpadl)) (id : ℕ) (g : Gpadl) → Above n gs → get gs id ≡ some g → n < id
Above-get n [] id g a e = absurd (cc e)
Above-get n ((k, h) ∷ gs) id g (l, a) e = elim (Bool-cases (k == id)) [
  | inl f ↦ ground (arith, l, f)
  | inr f ↦ Above-get n gs id g a (ground (arith, e, f))
]

-- A GPADL that is there is replaced.
pub length-insert-get :
    (gs : List (ℕ × Gpadl)) (id : ℕ) (g h : Gpadl)
    → Ascending gs
    → get gs id ≡ some h
    → length (insert gs id g) ≤ length gs
length-insert-get [] id g h a e = absurd (cc e)
length-insert-get ((k, x) ∷ gs) id g h (l, a) e = elim (Bool-cases (k == id)) [
  | inl f ↦ ground (arith, f)
  | inr f ↦
      let found : get gs id ≡ some h = ground (arith, e, f) in
      let below : k < id = Above-get k gs id h l found in
      let rest : length (insert gs id g) ≤ length gs = length-insert-get gs id g h a found in
      ground (arith, f, rest, below)
]
