-- ===== src/Device/Pic/Kick.antt =====
-- Port accesses of src/devices/pic.rs: the output is never asserted without a call of `notify`.
use tinyvmm.Prelude.{
  ℕ, ◌%◌, ◌<◌, ◌≡◌, ap, ◌∙◌, Bool, true, false, none, List, [], ◌∷◌, bit, bit-lt, bit-zero,
  bit-bit_and, bit-complement, bit_and, bit_and-le, arith, refl, inl, inr, Bool-cases, All,
}
use tinyvmm.Device.IoBus.{IoAccess}
use tinyvmm.Device.Pic.{Pair, not8, is_some, output_pending, handle}
use tinyvmm.Device.Pic.Priority.{IsPair, Line, is_requested, priority, first, highest-first}
use tinyvmm.Device.Pic.Cycle.{quiet_line}

-- Every access keeps the registers bytes.
pub handle-IsPair : (p : Pair) (s : Bool) (acc : IoAccess) → IsPair p → IsPair (handle p s acc).0
unfolding handle
handle-IsPair p s acc v = ground (arith, bit_and-le (acc.value % 256) (acc.value % 256) 0xf8)

first_nothing :
    (test : Line → Bool) (ls : List Line)
    → All (λ l. l.1 < 8) ls
    → ((t : Bool) (i : ℕ) → i < 8 → test (t, i) ≡ false)
    → first test ls ≡ none
first_nothing test [] a h = refl
first_nothing test ((t, i) ∷ ls) a h = rw (h t i a.0) (first_nothing test ls a.1 h)

not_pending :
    (p : Pair)
    → IsPair p
    → ((t : Bool) (i : ℕ) → i < 8 → is_requested p (t, i) ≡ false)
    → output_pending p ≡ false
unfolding output_pending
not_pending p v h =
    ap is_some (highest-first p v ∙ first_nothing (is_requested p) priority (omega arith) h)

-- A mask write that unmasks nothing.
unmasks_nothing :
    (mask v i : ℕ) → v < 256 → i < 8 → bit_and mask (not8 v) ≡ 0 → bit i v ≡ 0 → bit i mask ≡ 0
unmasks_nothing mask v i h l z e = ground (
  arith,
  bit-bit_and i mask (not8 v),
  bit-complement 8 i v h l,
  bit-zero i,
  bit-lt i mask,
  ap (bit i) z,
)

module _ (p : Pair) (acc : IoAccess) (v : IsPair p) (q : output_pending p ≡ false) where
  stays_quiet :
      (s t : Bool) (i : ℕ)
      → i < 8
      → ((handle p s acc).2 ≡ false)
      → output_pending (handle p s acc).0 ≡ true
      → is_requested (handle p s acc).0 (t, i) ≡ false
  unfolding handle output_pending
  stays_quiet true true i l n o = ground (
    arith,
    quiet_line p true i v q l,
    unmasks_nothing p.slave.mask (acc.value % 256) i,
    bit-zero i,
    bit-lt i p.slave.mask,
  )
  stays_quiet true false i l n o = ground (arith, quiet_line p false i v q l)
  stays_quiet false true i l n o =
      ground (arith, quiet_line p true i v q l, unmasks_nothing p.master.mask (acc.value % 256) 2)
  stays_quiet false false i l n o = ground (
    arith,
    quiet_line p false i v q l,
    unmasks_nothing p.master.mask (acc.value % 256) i,
    bit-zero i,
    bit-lt i p.master.mask,
  )

  -- A port access that makes the output go from idle to asserted calls `notify`.
  pub handle_notifies :
      (s : Bool) → output_pending (handle p s acc).0 ≡ true → (handle p s acc).2 ≡ true
  handle_notifies s o = elim (Bool-cases (handle p s acc).2) [
    | inl e ↦ e
    | inr e ↦
        let quiet =
          not_pending (handle p s acc).0 (handle-IsPair p s acc v)
            (λ t i l. stays_quiet s t i l e o) in
        absurd (ground arith)
  ]
