-- ===== src/Vmbus/Ring/Guards.antt =====
-- Nothing in the loops of src/vmbus/ring.rs panics: what an operation gives, and what holds of it.
use tinyvmm.Prelude.{
  ℕ, zero, suc, ◌+◌, ◌-◌, ◌/◌, ◌%◌, ◌≤◌, ◌<◌, ◌≡◌, inl, inr, min, Bool, true, false, not, Option,
  some, none, List, ◌++◌, length, take, drop, get_or, get_elem?, length-take, length-append,
  length-drop, ltb, ◌>>=◌, if◌then◌else◌, Option-cases, arith, refl, ap, ◌∙◌,
}
use native.Mathlib.Nat.{mod-lt}
use tinyvmm.Memory.{GuestMemory, host_range, read_host}
use tinyvmm.Memory.Access.{read_array-some, read_array-none}
use tinyvmm.Vmbus.Ring.{page, Ring, size, Copy, walk_from, copy_in}
use tinyvmm.Vmbus.Ring.Places.{get_elem?-get_or}
use tinyvmm.Vmbus.Ring.Walks.{length-read_host}

-- The call does not panic, and what it gives satisfies `P`.
abbrev pub Returns : {A : Type 0} → (A → Type 0) → Option A → Type 0
Returns {A} P o = (a : A) × (o ≡ some a) × P a

pub Returns-bind :
    {A B : Type 0} (P : A → Type 0) (Q : B → Type 0) (o : Option A) (f : A → Option B)
    → Returns P o
    → ((a : A) → P a → Returns Q (f a))
    → Returns Q (o >>= f)
Returns-bind P Q o f (a, e, p) h = let (b, e', q) = h a p in (b, ap (λ t. t >>= f) e ∙ e', q)

pub Returns-if :
    {A : Type 0} (P : A → Type 0) (b : Bool) (x y : Option A)
    → (b ≡ true → Returns P x)
    → (b ≡ false → Returns P y)
    → Returns P (if b then x else y)
Returns-if P true x y hx hy = hx refl
Returns-if P false x y hx hy = hy refl

module _ (ring : Ring) (enough : 2 ≤ length ring.pages) where
  -- A walk stays inside the pages, and keeps what every copy of a part of the buffer keeps.
  pub walk-Returns :
      {S : Type 0} (P : S → Type 0) (len : ℕ) (copy : Copy S)
      → ((gpa at n : ℕ) (s : S) → at + n ≤ len → P s → P (copy gpa at n s).0)
      → (fuel off done : ℕ) (s : S) → off < size ring
      → P s
      → Returns (λ (c : S × Bool). P c.0) (walk_from ring len copy fuel off done s)
  unfolding walk_from
  walk-Returns P len copy keeps zero off done s h p = ((s, true), refl, p)
  walk-Returns {S} P len copy keeps (suc fuel) off done s h p =
      let n = min (page - off % page) (len - done) in
      let inside : 1 + off / page < length ring.pages = omega (arith, enough) in
      let next : (off + n) % size ring < size ring = mod-lt (off + n) (omega (arith, enough)) in
      let go : S × Bool → Option (S × Bool) = λ c. elim c.1 [
        | false ↦ some (c.0, false)
        | true ↦ walk_from ring len copy fuel ((off + n) % size ring) (done + n) c.0
      ] in
      Returns-if (λ (c : S × Bool). P c.0) (not (ltb done len)) (some (s, true))
        (get_elem? ring.pages (1 + off / page) >>= λ q. go (copy (q + off % page) done n s))
        (λ e. ((s, true), refl, p))
        (λ e.
          let a = get_or ring.pages (1 + off / page) 0 in
          let more : done < len = ground arith in
          let kept : P (copy (a + off % page) done n s).0 =
            keeps (a + off % page) done n s (omega arith) p in
          let (c, eq, q) = after (copy (a + off % page) done n s) kept (λ s' p'.
            walk-Returns P len copy keeps fuel ((off + n) % size ring) (done + n) s' next p') in
          (
            c,
            ap (λ o. o >>= λ q. go (copy (q + off % page) done n s))
                  (get_elem?-get_or ring.pages (1 + off / page) inside)
                ∙ eq,
            q,
          ))
    where
      after :
          {go : S → Option (S × Bool)} (c : S × Bool)
          → P c.0
          → ((s : S) → P s → Returns (λ (c : S × Bool). P c.0) (go s))
          → Returns
              (λ (c : S × Bool). P c.0)
              (elim c.1 [ false ↦ some (c.0, false) | true ↦ go c.0 ])
      after (s, false) p h = ((s, false), refl, p)
      after (s, true) p h = h s p

pub copy_in-length :
    (m : GuestMemory) (len gpa at n : ℕ) (buf : List ℕ)
    → at + n ≤ len
    → length buf ≡ len
    → length (copy_in m gpa at n buf).0 ≡ len
unfolding copy_in
copy_in-length m len gpa at n buf h e =
    let result : Option (List ℕ) → List ℕ × Bool = λ o. elim o [
      | none ↦ (buf, false)
      | some bytes ↦ (take at buf ++ (bytes ++ drop (at + n) buf), true)
    ] in
    elim (Option-cases (host_range m gpa n)) [
      | inl f ↦ ap (λ o. length (result o).0) (read_array-none m gpa n f) ∙ e
      | inr (p, f) ↦
          let bytes = read_host m.base p n in
          ap (λ o. length (result o).0) (read_array-some m gpa n f)
          ∙ omega (
            arith,
            length-append (take at buf) (bytes ++ drop (at + n) buf),
            length-append bytes (drop (at + n) buf),
            length-take at buf,
            length-drop (at + n) buf,
            length-read_host m.base p n,
          )
    ]
