-- ===== src/Vmbus/Host/Gpadls.antt =====
-- The page lists of src/vmbus/mod.rs, and the connection.
use tinyvmm.Prelude.{
  ℕ, zero, suc, ◌+◌, ◌-◌, ◌/◌, ◌≤◌, ◌<◌, ◌≡◌, inl, inr, Bool, true, false, not, ◌&&◌, Option, none,
  some, List, ◌∷◌, ◌++◌, length, length-append, leb, ltb, ◌==◌, ==_iff, if◌then◌else◌, Bool-cases,
  arith, refl, ap, sym, ◌∙◌, min,
}
use tinyvmm.Vmbus.Ring.{Ring}
use tinyvmm.Vmbus.Protocol.{
  gpadl_header_pfns, gpadl_body_pfns, pfns, pfns_from, u64_at, u32_at, u16_at, gpadl_created,
}
use tinyvmm.Vmbus.Host.{
  max_gpadls, max_gpadl_pages, Gpadl, Open, State, Host, get, contains_key, insert, queue,
}
use tinyvmm.Vmbus.Host.PageLists.{
  div_ceil_4096, add_gpadl, gpadl_header, extend_gpadl, gpadl_body, rings,
}
use tinyvmm.Vmbus.Host.Lists.{
  Ascending-insert, get-insert, get-absent, All-insert, All-get, length-insert, length-insert-get,
}
use tinyvmm.Vmbus.Host.Valid.{GpadlFits, BackedBy, IsValid, Backed-same, queue-IsValid}

length-pfns_from : (n : ℕ) (m : List ℕ) (at : ℕ) → length (pfns_from n m at) ≤ n
length-pfns_from zero m at = omega arith
length-pfns_from (suc n) m at = go (u64_at m at) (length-pfns_from n m (at + 8))
  where
    go :
        (o : Option ℕ)
        → length (pfns_from n m (at + 8)) ≤ n
        → length (elim o [ none ↦ pfns_from n m (at + 8) | some v ↦ v ∷ pfns_from n m (at + 8) ])
          ≤ suc n
    go none h = omega (arith, h)
    go (some v) h = omega (arith, h)

length-pfns : (m : List ℕ) (at max : ℕ) → length (pfns m at max) ≤ max
unfolding pfns
length-pfns m at max = omega (arith, length-pfns_from (min ((length m - at) / 8) max) m at)

-- A page list that is not complete has no rings.
rings_complete :
    (g : Gpadl) (d : ℕ) (r : Ring × Ring) → rings g d ≡ some r → length g.pfns ≡ g.pages
unfolding rings
rings_complete g d r e = elim (Bool-cases (length g.pfns == g.pages)) [
  | inl f ↦ (==_iff (length g.pfns) g.pages).0 f
  | inr f ↦ absurd (ground (arith, e, f))
]

module _ (host : Host) (ds : List Bool) where
  -- A list in the table, where the channels do not stand on the one that it replaces.
  insert-IsValid :
      (st : State) (id : ℕ) (g : Gpadl)
      → IsValid host ds st
      → (st.version ≡ 0 → ⊥)
      → GpadlFits g
      → length (insert st.gpadls id g) ≤ max_gpadls
      → ((o : Open) → BackedBy st.gpadls host.vcpu_count o → (id == o.gpadl) ≡ false)
      → IsValid host ds (record st { gpadls = insert st.gpadls id g })
  insert-IsValid st id g v connected fits few free = record {
    shown = v.shown;
    each = v.each;
    few = few;
    lists = All-insert GpadlFits st.gpadls id g v.lists fits;
    sorted = Ascending-insert st.gpadls id g v.sorted;
    backed =
        Backed-same st.gpadls (insert st.gpadls id g) host.vcpu_count st.channels
          (λ o p.
            get-insert st.gpadls id g o.gpadl
            ∙ ap (λ b. if b then some g else get st.gpadls o.gpadl) (free o p))
          v.backed;
    idle = λ e. absurd (connected e);
  }

  if-IsValid :
      (b : Bool) (x y : State)
      → (b ≡ true → IsValid host ds x)
      → (b ≡ false → IsValid host ds y)
      → IsValid host ds (if b then x else y)
  if-IsValid true x y hx hy = hx refl
  if-IsValid false x y hx hy = hy refl

  add_gpadl-IsValid :
      (st : State) (m : List ℕ) (relid id ranges pages : ℕ)
      → IsValid host ds st
      → (st.version ≡ 0 → ⊥)
      → IsValid host ds (add_gpadl st m relid id ranges pages)
  unfolding add_gpadl
  add_gpadl-IsValid st m relid id ranges pages v connected =
      let list = pfns m gpadl_header_pfns pages in
      let g : Gpadl = record { relid = relid; pages = pages; pfns = list } in
      let kept : State = record st { gpadls = insert st.gpadls id g } in
      let valid : not (
              ranges == 1
              && (leb 1 pages && leb pages max_gpadl_pages)
              && ltb (length st.gpadls) max_gpadls
              && not (contains_key st.gpadls id))
            ≡ false
          → IsValid host ds kept =
        λ e.
          let passed = accepted ranges pages (length st.gpadls) (contains_key st.gpadls id) e in
          insert-IsValid st id g v connected
            record {
              some_pages = passed.0;
              few_pages = passed.1;
              pfns_fit = length-pfns m gpadl_header_pfns pages;
            }
            (omega (arith, passed.2, length-insert st.gpadls id g))
            (λ o p. fresh st.gpadls id o.gpadl p.list (get-absent st.gpadls id passed.3) p.held) in
      if-IsValid _ _ _ (λ e. queue-IsValid host ds st _ v)
        λ e.
          if-IsValid (length list == pages) (queue kept (gpadl_created relid id true)) kept
            (λ e'. queue-IsValid host ds kept (gpadl_created relid id true) (valid e))
            (λ e'. valid e)
    where
      accepted :
          (ranges pages n : ℕ) (c : Bool)
          → not (
              ranges == 1
              && (leb 1 pages && leb pages max_gpadl_pages)
              && ltb n max_gpadls
              && not c)
            ≡ false
          → (1 ≤ pages) × (pages ≤ max_gpadl_pages) × (n < max_gpadls) × (c ≡ false)
      accepted ranges pages n c e =
          (ground (arith, e), ground (arith, e), ground (arith, e), ground (arith, e))

      fresh :
          (gs : List (ℕ × Gpadl)) (id j : ℕ) (g : Gpadl)
          → get gs id ≡ none
          → get gs j ≡ some g
          → (id == j) ≡ false
      fresh gs id j g e f = elim (Bool-cases (id == j)) [
        | inr h ↦ h
        | inl h ↦
            let same : id ≡ j = (==_iff id j).0 h in
            let clash : get gs id ≡ some g = ap (get gs) same ∙ f in absurd (cc (e, clash))
      ]

  extend_gpadl-IsValid :
      (st : State) (m : List ℕ) (id : ℕ) (g : Gpadl)
      → IsValid host ds st
      → (st.version ≡ 0 → ⊥)
      → get st.gpadls id ≡ some g
      → IsValid host ds (extend_gpadl st m id g)
  unfolding extend_gpadl
  extend_gpadl-IsValid st m id g v connected found =
      let missing = g.pages - length g.pfns in
      let list = g.pfns ++ pfns m gpadl_body_pfns missing in
      let longer : Gpadl = record g { pfns = list } in
      let kept : State = record st { gpadls = insert st.gpadls id longer } in
      let fits : GpadlFits g = All-get GpadlFits st.gpadls id g v.lists found in
      let valid : (missing == 0) ≡ false → IsValid host ds kept = λ e.
        insert-IsValid st id longer v connected
          record {
            some_pages = fits.some_pages;
            few_pages = fits.few_pages;
            pfns_fit =
                fill g.pfns (pfns m gpadl_body_pfns missing) g.pages fits.pfns_fit
                  (length-pfns m gpadl_body_pfns missing);
          }
          (omega (arith, v.few, length-insert-get st.gpadls id longer g v.sorted found))
          (λ o p. partial o p e) in
      if-IsValid _ _ _ (λ e. v)
        λ e.
          if-IsValid (length list == g.pages) (queue kept (gpadl_created g.relid id true)) kept
            (λ e'. queue-IsValid host ds kept (gpadl_created g.relid id true) (valid e))
            (λ e'. valid e)
    where
      fill :
          (xs ys : List ℕ) (n : ℕ)
          → length xs ≤ n
          → length ys ≤ n - length xs
          → length (xs ++ ys) ≤ n
      fill xs ys n e f = omega (arith, length-append xs ys, e, f)

      partial :
          (o : Open)
          → BackedBy st.gpadls host.vcpu_count o
          → (g.pages - length g.pfns == 0) ≡ false
          → (id == o.gpadl) ≡ false
      partial o p e = elim (Bool-cases (id == o.gpadl)) [
        | inr h ↦ h
        | inl h ↦
            let same : id ≡ o.gpadl = (==_iff id o.gpadl).0 h in
            let one : some g ≡ some p.list = sym found ∙ ap (get st.gpadls) same ∙ p.held in
            let these : g ≡ p.list = ap (λ x. elim x [ none ↦ g | some y ↦ y ]) one in
            let full : length g.pfns ≡ g.pages =
              rw these (rings_complete p.list o.downstream p.both p.laid_out) in
            absurd (ground (arith, e, full))
      ]

  pub gpadl_header-IsValid :
      (st : State) (m : List ℕ)
      → IsValid host ds st
      → (st.version ≡ 0 → ⊥)
      → IsValid host ds (gpadl_header st m)
  unfolding gpadl_header
  gpadl_header-IsValid st m v connected =
      go (u32_at m 8) (u32_at m 12) (u16_at m 18) (u32_at m 20) (u32_at m 24)
    where
      go :
          (relid id ranges bytes offset : Option ℕ)
          → IsValid host ds (elim relid [
            | none ↦ st
            | some relid ↦ elim id [
              | none ↦ st
              | some id ↦ elim ranges [
                | none ↦ st
                | some ranges ↦ elim bytes [
                  | none ↦ st
                  | some bytes ↦ elim offset [
                    | none ↦ st
                    | some offset ↦ add_gpadl st m relid id ranges (div_ceil_4096 (offset + bytes))
                  ]
                ]
              ]
            ]
          ])
      go none _ _ _ _ = v
      go (some _) none _ _ _ = v
      go (some _) (some _) none _ _ = v
      go (some _) (some _) (some _) none _ = v
      go (some _) (some _) (some _) (some _) none = v
      go (some relid) (some id) (some ranges) (some bytes) (some offset) =
          add_gpadl-IsValid st m relid id ranges (div_ceil_4096 (offset + bytes)) v connected

  pub gpadl_body-IsValid :
      (st : State) (m : List ℕ)
      → IsValid host ds st
      → (st.version ≡ 0 → ⊥)
      → IsValid host ds (gpadl_body st m)
  unfolding gpadl_body
  gpadl_body-IsValid st m v connected = go (u32_at m 12)
    where
      found :
          (id : ℕ) (o : Option Gpadl)
          → get st.gpadls id ≡ o
          → IsValid host ds (elim o [ none ↦ st | some g ↦ extend_gpadl st m id g ])
      found id none e = v
      found id (some g) e = extend_gpadl-IsValid st m id g v connected e

      go :
          (id : Option ℕ)
          → IsValid host ds (elim id [
            | none ↦ st
            | some id ↦ elim (get st.gpadls id) [ none ↦ st | some g ↦ extend_gpadl st m id g ]
          ])
      go none = v
      go (some id) = found id (get st.gpadls id) refl
