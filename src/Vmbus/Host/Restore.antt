-- ===== src/Vmbus/Host/Restore.antt =====
-- A bus of src/vmbus/mod.rs that is saved and restored.
use tinyvmm.Prelude.{
  ℕ, ◌+◌, ◌^◌, ◌≤◌, ◌<◌, ◌≡◌, Option, none, some, List, [], ◌∷◌, ◌++◌, All, length, ltb, ◌>>=◌,
  arith, refl, ap, sym, ◌∙◌,
}
use mathlib.Core.List.{append_assoc, append-nil}
use tinyvmm.Vmbus.Ring.{Ring}
use tinyvmm.Vmbus.Host.{max_gpadl_pages, Gpadl, Open, Host, Event, get, insert}
use tinyvmm.Vmbus.Host.PageLists.{rings}
use tinyvmm.Vmbus.Host.Lists.{Above, Ascending, Entry}
use tinyvmm.Vmbus.Host.Valid.{GpadlFits, Backed}
use tinyvmm.Vmbus.Host.Snapshot.{
  save_pfns, save_gpadl, save_gpadls, save_open, save_channel, save_channels, Reader, done, bad,
  before, passing, read_u32, read_u64, count, collect, restore_gpadl, restore_gpadls, restore_open,
  restore_channel, restore_channels,
}
use tinyvmm.Vmbus.Host.Readers.{
  Reads, Reads-done, Reads-before, Reads-end, Reads-passing, u32-Reads, count-Reads, pfns-Reads,
  ltb-true,
}

-- What the types of the source bound.
pub record Words (p : ℕ × Gpadl) : Type 0 where
  pub id_fits : p.0 < 2 ^ 32
  pub relid_fits : p.1.relid < 2 ^ 32
  pub pfns_fit : All (λ pfn. pfn < 2 ^ 64) p.1.pfns

gpadl-Reads :
    (id : ℕ) (g : Gpadl)
    → Words (id, g)
    → GpadlFits g
    → Reads restore_gpadl (save_gpadl id g) (id, g)
gpadl-Reads id g w f =
    Reads-before read_u32 _ _ _ id (id, g) (u32-Reads id w.id_fits)
      (Reads-before read_u32 _ _ _ g.relid (id, g) (u32-Reads g.relid w.relid_fits)
        (Reads-before (count max_gpadl_pages) _ _ _ g.pages (id, g)
          (count-Reads max_gpadl_pages g.pages f.few_pages (omega (arith, f.few_pages)))
          (Reads-before (count g.pages) _ _ _ (length g.pfns) (id, g)
            (count-Reads g.pages (length g.pfns) f.pfns_fit
              (omega (arith, f.pfns_fit, f.few_pages)))
            (Reads-end (collect (length g.pfns) read_u64)
              (λ pfns. done (id, record { relid = g.relid; pages = g.pages; pfns = pfns }))
              (save_pfns g.pfns) g.pfns (id, g) (pfns-Reads g.pfns w.pfns_fit)
              (Reads-done (id, g))))))

-- Every key stands below `n`.
abbrev Below : ℕ → List (ℕ × Gpadl) → Type 0
Below n [] = Unit
Below n ((k, g) ∷ gs) = (k < n) × Below n gs

insert-last :
    (gs : List (ℕ × Gpadl)) (id : ℕ) (g : Gpadl)
    → Below id gs
    → insert gs id g ≡ gs ++ ((id, g) ∷ [])
insert-last [] id g b = refl
insert-last ((k, h) ∷ gs) id g (l, b) =
    let rest : insert gs id g ≡ gs ++ ((id, g) ∷ []) = insert-last gs id g b in
    ground (arith, l, rest)

-- The keys of `gs` stand below those of `more`.
abbrev pub Under : List (ℕ × Gpadl) → List (ℕ × Gpadl) → Type 0
Under gs [] = Unit
Under gs ((id, g) ∷ more) = Below id gs × Under gs more

Below-snoc :
    (n : ℕ) (gs : List (ℕ × Gpadl)) (id : ℕ) (g : Gpadl)
    → Below n gs
    → id < n
    → Below n (gs ++ ((id, g) ∷ []))
Below-snoc n [] id g b l = (l, tt)
Below-snoc n ((k, h) ∷ gs) id g (l', b) l = (l', Below-snoc n gs id g b l)

Under-snoc :
    (gs : List (ℕ × Gpadl)) (id : ℕ) (g : Gpadl) (more : List (ℕ × Gpadl))
    → Under gs more
    → Above id more
    → Under (gs ++ ((id, g) ∷ [])) more
Under-snoc gs id g [] u a = tt
Under-snoc gs id g ((k, h) ∷ more) (b, u) (l, a) =
    (Below-snoc k gs id g b l, Under-snoc gs id g more u a)

pub Under-nil : (more : List (ℕ × Gpadl)) → Under [] more
Under-nil [] = tt
Under-nil ((k, g) ∷ more) = (tt, Under-nil more)

pub gpadls-Reads :
    (more gs : List (ℕ × Gpadl))
    → Under gs more
    → Ascending more
    → All Words more
    → All (Entry GpadlFits) more
    → Reads (restore_gpadls (length more) gs) (save_gpadls more) (gs ++ more)
gpadls-Reads [] gs u s a b = record {
  gives = λ rest. ap (λ x. some (x, rest)) (sym (append-nil gs));
}
gpadls-Reads ((id, g) ∷ more) gs (e, u) (l, s) (w, a) (f, b) =
    Reads-before restore_gpadl (λ p. restore_gpadls (length more) (insert gs p.0 p.1))
      (save_gpadl id g) (save_gpadls more) (id, g) (gs ++ ((id, g) ∷ more)) (gpadl-Reads id g w f)
      (record {
        gives = λ rest.
            ap (λ x. restore_gpadls (length more) x (save_gpadls more ++ rest))
              (insert-last gs id g e)
            ∙ Reads.gives
                (gpadls-Reads more (gs ++ ((id, g) ∷ [])) (Under-snoc gs id g more u l) s a b) rest
            ∙ ap (λ x. some (x, rest)) (append_assoc gs ((id, g) ∷ []) more);
      })

-- The calls that open the channels again.
abbrev pub reopen : List (ℕ × Gpadl) → ℕ → Option Open → List Event
reopen gs i none = []
reopen gs i (some o) = elim (get gs o.gpadl >>= λ g. rings g o.downstream) [
  | none ↦ []
  | some r ↦
      Event.opened i
        record { relid = i + 1; target_vp = o.target_vp; incoming = r.0; outgoing = r.1 }
      ∷ []
]

abbrev pub reopened : List (ℕ × Gpadl) → ℕ → List (Option Open) → List Event
reopened gs i [] = []
reopened gs i (o ∷ os) = reopen gs i o ++ reopened gs (i + 1) os

abbrev pub OpenFits : Option Open → Type 0
OpenFits none = Unit
OpenFits (some o) = (o.gpadl < 2 ^ 32) × (o.downstream < 2 ^ 32)

module _ (host : Host) (gs : List (ℕ × Gpadl)) (few : host.vcpu_count ≤ 2 ^ 32) where
  quad-Reads :
      {A : Type 0}
      → (k : ℕ → ℕ → ℕ → ℕ → Reader A) (a b c d : ℕ) (v : A) → a < 2 ^ 32
      → b < 2 ^ 32
      → c < 2 ^ 32
      → d < 2 ^ 32
      → Reads (k a b c d) [] v
      → Reads
          (before read_u32
            λ a. before read_u32 λ b. before read_u32 λ c. before read_u32 λ d. k a b c d)
          (save_open a b c d)
          v
  quad-Reads k a b c d v ha hb hc hd h = Reads-before read_u32 _ _ _ a v (u32-Reads a ha) (
      Reads-before read_u32 _ _ _ b v (u32-Reads b hb) (
        Reads-before read_u32 _ _ _ c v (u32-Reads c hc)
          (Reads-end read_u32 (k a b c) _ d v (u32-Reads d hd) h)))

  channel-Reads :
      (i : ℕ) (o : Option Open)
      → Backed gs host.vcpu_count o
      → OpenFits o
      → Reads (restore_channel host gs i) (save_channel o) (o, reopen gs i o)
  channel-Reads i none p f =
      quad-Reads (restore_open host gs i) 0 0 0 0 (none, []) (omega arith) (omega arith)
        (omega arith) (omega arith) (Reads-done (none, []))
  channel-Reads i (some o) p f =
      quad-Reads (restore_open host gs i) 1 o.gpadl o.target_vp o.downstream
        (some o, reopen gs i (some o)) (omega arith) f.0 (omega (arith, p.target_in, few)) f.1
        (go (get gs o.gpadl >>= λ g. rings g o.downstream) laid)
    where
      laid : (get gs o.gpadl >>= λ g. rings g o.downstream) ≡ some p.both
      laid = ap (λ x. x >>= λ g. rings g o.downstream) p.held ∙ p.laid_out

      go :
          (found : Option (Ring × Ring))
          → found ≡ some p.both
          → Reads {A = Option Open × List Event}
              (elim found [
                | none ↦ bad
                | some r ↦ passing (ltb o.target_vp host.vcpu_count) (
                    done (
                      some record {
                        gpadl = o.gpadl;
                        target_vp = o.target_vp;
                        downstream = o.downstream;
                      },
                      Event.opened i record {
                        relid = i + 1;
                        target_vp = o.target_vp;
                        incoming = r.0;
                        outgoing = r.1;
                      }
                          ∷ [],
                    ))
              ])
              []
              (
                some o,
                elim found [
                  | none ↦ []
                  | some r ↦
                      Event.opened i record {
                        relid = i + 1;
                        target_vp = o.target_vp;
                        incoming = r.0;
                        outgoing = r.1;
                      }
                      ∷ []
                ],
              )
      go none e = absurd (cc e)
      go (some r) e =
          Reads-passing (ltb o.target_vp host.vcpu_count) (done _) [] _
            (ltb-true o.target_vp host.vcpu_count p.target_in) (Reads-done _)

  pub channels-Reads :
      (os : List (Option Open)) (i : ℕ)
      → All (Backed gs host.vcpu_count) os
      → All OpenFits os
      → Reads (restore_channels host gs i (length os)) (save_channels os) (os, reopened gs i os)
  channels-Reads [] i a b = Reads-done ([], [])
  channels-Reads (o ∷ os) i (p, a) (f, b) =
      Reads-before (restore_channel host gs i)
        (λ c.
          before (restore_channels host gs (i + 1) (length os))
            λ cs. done (c.0 ∷ cs.0, c.1 ++ cs.1))
        (save_channel o) (save_channels os) (o, reopen gs i o)
        (o ∷ os, reopen gs i o ++ reopened gs (i + 1) os) (channel-Reads i o p f)
        (Reads-end (restore_channels host gs (i + 1) (length os))
          (λ cs. done (o ∷ cs.0, reopen gs i o ++ cs.1)) (save_channels os)
          (os, reopened gs (i + 1) os) (o ∷ os, reopen gs i o ++ reopened gs (i + 1) os)
          (channels-Reads os (i + 1) a b)
          (Reads-done (o ∷ os, reopen gs i o ++ reopened gs (i + 1) os)))
