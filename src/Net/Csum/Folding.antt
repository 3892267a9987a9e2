-- ===== src/Net/Csum/Folding.antt =====
-- One's-complement sums: folding a number to 16 bits, src/net/csum.rs.
use tinyvmm.Prelude.{
  ℕ, zero, suc, ◌+◌, ◌-◌, ◌*◌, ◌/◌, ◌%◌, ◌≤◌, ◌<◌, ◌≡◌, ◌==◌, ltb, none, some, if◌then◌else◌, arith,
  inl, inr, Bool-cases, ap, sym, ◌∙◌,
}
use tinyvmm.Net.Csum.{fold_loop, ended, fold16, swap_bytes}

-- The 16-bit number that stands for `s` modulo 0xffff: 0 for 0 alone, 0xffff for its other multiples.
abbrev pub residue : ℕ → ℕ
residue s = if s == 0 then 0 else (s - 1) % 0xffff + 1

residue-step : (s : ℕ) → residue (s % 0x1_0000 + s / 0x1_0000) ≡ residue s
residue-step s = ground arith

residue-small : (s : ℕ) → s ≤ 0xffff → residue s ≡ s
residue-small s h = ground arith

fold_loop_lem : (fuel s : ℕ) → s ≤ fuel → fold_loop fuel s ≡ some (residue s)
unfolding fold_loop
fold_loop_lem zero s h =
    let none_left : s ≡ 0 = omega arith in
    ap (λ n. if ltb 0xffff n then none else some n) none_left
    ∙ ap (λ n. some (residue n)) (sym none_left)
fold_loop_lem (suc fuel) s h = elim (Bool-cases (ltb 0xffff s)) [
  | inl e ↦
      let smaller : s % 0x1_0000 + s / 0x1_0000 ≤ fuel = ground (arith, e) in
      ap (λ b. if b then fold_loop fuel (s % 0x1_0000 + s / 0x1_0000) else some s) e
      ∙ fold_loop_lem fuel (s % 0x1_0000 + s / 0x1_0000) smaller
      ∙ ap some (residue-step s)
  | inr e ↦
      let small : s ≤ 0xffff = ground (arith, e) in
      ap (λ b. if b then fold_loop fuel (s % 0x1_0000 + s / 0x1_0000) else some s) e
      ∙ ap some (sym (residue-small s small))
]

-- Folding ends, with the residue.
pub fold16_lem : (s : ℕ) → fold16 s ≡ residue s
unfolding fold16
fold16_lem s = ap ended (fold_loop_lem s s (omega arith))

pub residue-lt : (s : ℕ) → residue s < 0x1_0000
residue-lt s = ground arith

pub residue-add : (a b c : ℕ) → residue (a + residue b + c) ≡ residue (a + b + c)
residue-add a b c = ground arith

pub residue-swap : (s : ℕ) → swap_bytes (residue s) ≡ residue (256 * s)
residue-swap s = ground arith

pub residue-complement : (s : ℕ) → residue (s + (0xffff - residue s)) ≡ 0xffff
residue-complement s = ground arith

-- The same, with 0xffff in place of 0.
pub residue-complement_ones :
    (s : ℕ) → let c = 0xffff - residue s in residue (s + (if c == 0 then 0xffff else c)) ≡ 0xffff
residue-complement_ones s = ground arith

-- The loop of `fold16` ends within as many rounds as its sum, whatever the sum, and further rounds change
-- nothing: it ends with what `fold16` returns, a number of 16 bits that stands for the sum modulo 0xffff.
pub fold16-ends :
    (fuel s : ℕ)
    → s ≤ fuel
    → (fold_loop fuel s ≡ some (fold16 s)) × (fold16 s < 0x1_0000) × (fold16 s ≡ residue s)
fold16-ends fuel s h = (
  fold_loop_lem fuel s h ∙ ap some (sym (fold16_lem s)),
  omega (arith, fold16_lem s, residue-lt s),
  fold16_lem s,
)
