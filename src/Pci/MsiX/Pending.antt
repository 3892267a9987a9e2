-- ===== src/Pci/MsiX/Pending.antt =====
-- The pending bits of src/pci/msix.rs: what latching and clearing one does to all.
use tinyvmm.Prelude.{
  ℕ, suc, ◌-◌, ◌/◌, ◌%◌, ◌^◌, ◌<◌, ◌≡◌, true, false, List, length, get_or, set, get_or-set_self,
  get_or-set_ne, ◌==◌, if◌then◌else◌, bit, bit_and, bit_or, bit-bit_and, bit-bit_or, bit-pow_self,
  bit-pow_ne, bit-lt, bit-complement, arith, ap, sym,
}
use native.Mathlib.Nat.{pow-suc, pow-le-pow_right, one-le-pow}
use native.Mathlib.Decide.{ℕ_discrete}
use tinyvmm.Pci.MsiX.{MsiX, pba_word, pending, latch, clear, div_ceil}

-- One table entry and one pending bit for each vector.
pub record IsValid (m : MsiX) : Type 0 where
  pub table : length m.table ≡ m.num_vectors
  pub pba : length m.pba ≡ div_ceil m.num_vectors 64

-- A vector's digit after `|= 1 << (vec % 64)` and after `&= !(1 << (vec % 64))`.
digit-latch : (w i k : ℕ) → bit i (bit_or w (2 ^ k)) ≡ (if i == k then 1 else bit i w)
digit-latch w i k = elim (ℕ_discrete i k) [
  | yes e ↦
      ground
        (arith, bit-bit_or i w (2 ^ k), bit-pow_self i, bit-lt i w, ap (λ (t : ℕ). bit i (2 ^ t)) e)
  | no n ↦ ground (arith, bit-bit_or i w (2 ^ k), bit-pow_ne i k n)
]

pow-lt_word : (k : ℕ) → k < 64 → 2 ^ k < 2 ^ 64
pow-lt_word k h = omega (
  arith,
  pow-le-pow_right {n = 2} (omega arith) {i = suc k} {j = 64} (omega arith),
  pow-suc 2 k,
  one-le-pow k 2 (omega arith),
)

digit-clear :
    (w i k : ℕ)
    → i < 64
    → k < 64
    → bit i (bit_and w (2 ^ 64 - 1 - 2 ^ k)) ≡ (if i == k then 0 else bit i w)
digit-clear w i k h l = elim (ℕ_discrete i k) [
  | yes e ↦ ground (
    arith,
    bit-bit_and i w (2 ^ 64 - 1 - 2 ^ k),
    bit-complement 64 i (2 ^ k) (pow-lt_word k l) h,
    bit-pow_self i,
    ap (λ (t : ℕ). bit i (2 ^ t)) e,
  )
  | no n ↦ ground (
    arith,
    bit-bit_and i w (2 ^ 64 - 1 - 2 ^ k),
    bit-complement 64 i (2 ^ k) (pow-lt_word k l) h,
    bit-pow_ne i k n,
    bit-lt i w,
  )
]

-- The word that holds digit `j` after a write of the word that holds digit `v`.
word-set :
    (pba : List ℕ) (v j w : ℕ)
    → v / 64 < length pba
    → get_or (set pba (v / 64) w) (j / 64) 0
      ≡ (if j / 64 == v / 64 then w else get_or pba (j / 64) 0)
word-set pba v j w h = elim (ℕ_discrete (j / 64) (v / 64)) [
  | yes e ↦ rw e (ground (arith, get_or-set_self pba (v / 64) w 0 h))
  | no n ↦ ground (arith, get_or-set_ne pba w 0 (λ e. n (sym e)))
]

-- A pending bit after digit `v % 64` of word `v / 64` became `x` and no other changed.
pending-set :
    (m : MsiX) (v j w x : ℕ)
    → v / 64 < length m.pba
    → x < 2
    → ((i : ℕ) → i < 64 → bit i w ≡ (if i == v % 64 then x else bit i (pba_word m v)))
    → pending (record m { pba = set m.pba (v / 64) w }) j ≡ (if j == v then x == 1 else pending m j)
pending-set m v j w x h l digit = elim (ℕ_discrete (j / 64) (v / 64)) [
  | yes e ↦
      let same : bit (j % 64) (get_or m.pba (j / 64) 0) ≡ bit (j % 64) (get_or m.pba (v / 64) 0) =
        ap (λ k. bit (j % 64) (get_or m.pba k 0)) e in
      let now : bit (j % 64) (get_or (set m.pba (v / 64) w) (j / 64) 0) ≡ bit (j % 64) w =
        ap (bit (j % 64)) (ground (arith, word-set m.pba v j w h)) in
      ground (arith, same, now, digit (j % 64) (omega arith))
  | no n ↦
      let now : bit (j % 64) (get_or (set m.pba (v / 64) w) (j / 64) 0)
          ≡ bit (j % 64) (get_or m.pba (j / 64) 0) =
        ap (bit (j % 64)) (get_or-set_ne m.pba w 0 (λ e. n (sym e))) in
      ground (arith, now)
]

-- Latching a vector sets its own pending bit and no other.
pub pending-latch :
    (m : MsiX) (v j : ℕ)
    → IsValid m
    → v < m.num_vectors
    → pending (latch m v) j ≡ (if j == v then true else pending m j)
unfolding latch
pending-latch m v j valid h =
    pending-set m v j (bit_or (pba_word m v) (2 ^ (v % 64))) 1 (omega (arith, valid.pba))
      (omega arith) (λ i l. digit-latch (pba_word m v) i (v % 64))

-- Clearing a vector resets its own pending bit and no other.
pub pending-clear :
    (m : MsiX) (v j : ℕ)
    → IsValid m
    → v < m.num_vectors
    → pending (clear m v) j ≡ (if j == v then false else pending m j)
unfolding clear
pending-clear m v j valid h =
    pending-set m v j (bit_and (pba_word m v) (2 ^ 64 - 1 - 2 ^ (v % 64))) 0
      (omega (arith, valid.pba)) (omega arith)
      (λ i l. digit-clear (pba_word m v) i (v % 64) l (omega arith))
