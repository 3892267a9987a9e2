-- ===== src/Device/Pic/Cycle.antt =====
-- A whole interrupt through src/devices/pic.rs: raised, acknowledged, and gone.
use tinyvmm.Prelude.{
  ℕ, zero, suc, ◌+◌, ◌%◌, ◌^◌, ◌≤◌, ◌<◌, ◌≡◌, ap, ◌∙◌, sym, Bool, true, false, ◌&&◌, Option, some,
  List, [], ◌∷◌, ◌==◌, leb, bit, bit-lt, eq-of-bits, bit_or, bit_and, bit_or-lt, bit_and-le, arith,
  refl, All, u8,
}
use tinyvmm.Device.Pic.{Pair, chip, not8, is_some, highest, output_pending, raise, acknowledge}
use tinyvmm.Device.Pic.Priority.{IsPair, Line, is_requested, priority, first, highest-first}
use tinyvmm.Device.Pic.Lines.{
  line_of, same_line, first_none, raise_lem, cleared, acknowledge-some, low_three, bit-set_bit,
  bit-clear_bit, pow-lt,
}

raise-IsPair : (p : Pair) (irq : ℕ) → IsPair p → IsPair (raise p irq).0
unfolding raise
raise-IsPair p irq v = ground (
  arith,
  low_three irq,
  pow-lt (irq % 8),
  bit_or-lt 8 p.master.irr (2 ^ (irq % 8)),
  bit_or-lt 8 p.slave.irr (2 ^ (irq % 8)),
)

first_ext :
    (test test' : Line → Bool) (ls : List Line)
    → All (λ l. l.1 < 8) ls
    → ((t : Bool) (i : ℕ) → i < 8 → test (t, i) ≡ test' (t, i))
    → first test ls ≡ first test' ls
first_ext test test' [] a e = refl
first_ext test test' ((t, i) ∷ ls) a e = ground (arith, e t i a.0, first_ext test test' ls a.1 e)

-- A single line that asks is the one found.
first_same : (s : Bool) (k : ℕ) → k < 8 → first (λ l. same_line l (s, k)) priority ≡ some (s, k)
first_same true k h = ground arith
first_same false k h = ground arith

-- The line is unmasked, the slave's through the cascade input.
abbrev pub is_open : Pair → Line → Bool
is_open p (false, i) = bit i p.master.mask == 0
is_open p (true, i) = bit i p.slave.mask == 0 && bit 2 p.master.mask == 0

-- The order of priority names every line.
pub priority_all : (P : Line → Type 0) → All P priority → (t : Bool) (i : ℕ) → i < 8 → P (t, i)
priority_all P a true zero h = a.1.1.0
priority_all P a true (suc zero) h = a.1.1.1.0
priority_all P a true (suc (suc zero)) h = a.1.1.1.1.0
priority_all P a true (suc (suc (suc zero))) h = a.1.1.1.1.1.0
priority_all P a true (suc (suc (suc (suc zero)))) h = a.1.1.1.1.1.1.0
priority_all P a true (suc (suc (suc (suc (suc zero))))) h = a.1.1.1.1.1.1.1.0
priority_all P a true (suc (suc (suc (suc (suc (suc zero)))))) h = a.1.1.1.1.1.1.1.1.0
priority_all P a true (suc (suc (suc (suc (suc (suc (suc zero))))))) h = a.1.1.1.1.1.1.1.1.1.0
priority_all P a true (suc (suc (suc (suc (suc (suc (suc (suc k)))))))) h = absurd (omega arith)
priority_all P a false zero h = a.0
priority_all P a false (suc zero) h = a.1.0
priority_all P a false (suc (suc zero)) h = a.1.1.1.1.1.1.1.1.1.1.0
priority_all P a false (suc (suc (suc zero))) h = a.1.1.1.1.1.1.1.1.1.1.1.0
priority_all P a false (suc (suc (suc (suc zero)))) h = a.1.1.1.1.1.1.1.1.1.1.1.1.0
priority_all P a false (suc (suc (suc (suc (suc zero))))) h = a.1.1.1.1.1.1.1.1.1.1.1.1.1.0
priority_all P a false (suc (suc (suc (suc (suc (suc zero)))))) h = a.1.1.1.1.1.1.1.1.1.1.1.1.1.1.0
priority_all P a false (suc (suc (suc (suc (suc (suc (suc zero))))))) h =
    a.1.1.1.1.1.1.1.1.1.1.1.1.1.1.1.0
priority_all P a false (suc (suc (suc (suc (suc (suc (suc (suc k)))))))) h = absurd (omega arith)

pub quiet_line :
    (p : Pair) (t : Bool) (i : ℕ)
    → IsPair p
    → output_pending p ≡ false
    → i < 8
    → is_requested p (t, i) ≡ false
unfolding output_pending
quiet_line p t i v q h =
    priority_all (λ l. is_requested p l ≡ false)
      (first_none (is_requested p) priority (ap is_some (sym (highest-first p v)) ∙ q)) t i h

set_clear :
    (x k : ℕ) → x < 256 → k < 8 → bit k x ≡ 0 → bit_and (bit_or x (2 ^ k)) (not8 (2 ^ k)) ≡ x
set_clear x k h l z =
    eq-of-bits 8 (bit_and (bit_or x (2 ^ k)) (not8 (2 ^ k))) x
      (omega (
        arith,
        bit_and-le (bit_or x (2 ^ k)) (bit_or x (2 ^ k)) (not8 (2 ^ k)),
        bit_or-lt 8 x (2 ^ k) h (pow-lt k l),
      ))
      h
      (λ i b. ground (
        arith,
        bit-clear_bit i k (bit_or x (2 ^ k)) b (pow-lt k l),
        bit-set_bit i k x b,
        ap (λ (t : ℕ). bit t x) {x = i} {y = k},
      ))

module _ (p : Pair) (irq : ℕ) (v : IsPair p) (q : output_pending p ≡ false) (h : irq ≤ 15)
    (o : is_open p (line_of irq) ≡ true) where
  raised_highest : highest (raise p irq).0 ≡ some (line_of irq)
  raised_highest =
      highest-first (raise p irq).0 (raise-IsPair p irq v)
      ∙ first_ext (is_requested (raise p irq).0) (λ l. same_line l (line_of irq)) priority
          (omega arith) only
      ∙ first_same (leb 8 irq) (irq % 8) (omega arith)
    where
      only :
          (t : Bool) (i : ℕ)
          → i < 8
          → is_requested (raise p irq).0 (t, i) ≡ same_line (t, i) (line_of irq)
      only true i l =
          ground (arith, raise_lem p irq, (raise_lem p irq h).0 true i l, quiet_line p true i v q l)
      only false i l =
          ground
            (arith, raise_lem p irq, (raise_lem p irq h).0 false i l, quiet_line p false i v q l)

  restored :
      ◌≡◌ {A = Pair × Option ℕ}
        (
          cleared (raise p irq).0 (line_of irq),
          some (u8 ((chip (raise p irq).0 (leb 8 irq)).vector_base + irq % 8)),
        )
        (p, some (u8 ((chip p (leb 8 irq)).vector_base + irq % 8)))
  unfolding raise
  restored = ground (
    arith,
    low_three irq,
    quiet_line p (leb 8 irq) (irq % 8) v q,
    bit-lt (irq % 8) p.master.irr,
    bit-lt (irq % 8) p.slave.irr,
    set_clear p.master.irr (irq % 8),
    set_clear p.slave.irr (irq % 8),
  )

  -- An open line raised while nothing is pending is delivered once: the INTA cycle returns the vector
  -- base of its chip plus its number, and leaves the pair exactly as it was before the interrupt.
  pub acknowledge-raise :
      acknowledge (raise p irq).0 ≡ (p, some (u8 ((chip p (leb 8 irq)).vector_base + irq % 8)))
  acknowledge-raise = acknowledge-some (raise p irq).0 raised_highest ∙ restored
