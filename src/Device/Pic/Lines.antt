-- ===== src/Device/Pic/Lines.antt =====
-- What `raise` and `acknowledge` of src/devices/pic.rs do to the sixteen lines.
use tinyvmm.Prelude.{
  ℕ, zero, suc, ◌+◌, ◌/◌, ◌%◌, ◌^◌, ◌≤◌, ◌<◌, ◌≡◌, ap, ◌∙◌, sym, Bool, true, false, not, ◌&&◌, some,
  List, [], ◌∷◌, ◌==◌, leb, if◌then◌else◌, bit_and, bit_or, bit, bit-lt, bit-bit_and, bit-bit_or,
  bit-complement, bit-pow_self, bit-pow_ne, bit_and_digit, bit_and-zero, arith, refl, inl, inr,
  Bool-cases, All, u8,
}
use native.Mathlib.Decide.{ℕ_discrete}
use tinyvmm.Device.Pic.{
  Chip, Pair, chip, set_chip, not8, is_some, highest, output_pending, raise, acknowledge,
}
use tinyvmm.Device.Pic.Priority.{IsPair, Line, is_requested, priority, first, highest-first}

-- The line of an ISA interrupt.
abbrev pub line_of : ℕ → Line
line_of irq = (leb 8 irq, irq % 8)

-- Digit `i` of `x` after `x | 1 << k` and after `x & !(1 << k)`.
pub bit-set_bit : (i k x : ℕ) → i < 8 → bit i (bit_or x (2 ^ k)) ≡ (if i == k then 1 else bit i x)
bit-set_bit i k x h = elim (ℕ_discrete i k) [
  | yes e ↦
      ground
        (arith, bit-bit_or i x (2 ^ k), bit-pow_self i, bit-lt i x, ap (λ (t : ℕ). bit i (2 ^ t)) e)
  | no n ↦ ground (arith, bit-bit_or i x (2 ^ k), bit-pow_ne i k n)
]

pub bit-clear_bit :
    (i k x : ℕ)
    → i < 8
    → 2 ^ k < 256
    → bit i (bit_and x (not8 (2 ^ k))) ≡ (if i == k then 0 else bit i x)
bit-clear_bit i k x h l = elim (ℕ_discrete i k) [
  | yes e ↦ ground (
    arith,
    bit-bit_and i x (not8 (2 ^ k)),
    bit-complement 8 i (2 ^ k) l h,
    bit-pow_self i,
    ap (λ (t : ℕ). bit i (2 ^ t)) e,
  )
  | no n ↦ ground (
    arith,
    bit-bit_and i x (not8 (2 ^ k)),
    bit-complement 8 i (2 ^ k) l h,
    bit-pow_ne i k n,
    bit-lt i x,
  )
]

pub pow-lt : (k : ℕ) → k < 8 → 2 ^ k < 256
pow-lt zero h = omega arith
pow-lt (suc zero) h = omega arith
pow-lt (suc (suc zero)) h = omega arith
pow-lt (suc (suc (suc zero))) h = omega arith
pow-lt (suc (suc (suc (suc zero)))) h = omega arith
pow-lt (suc (suc (suc (suc (suc zero))))) h = omega arith
pow-lt (suc (suc (suc (suc (suc (suc zero)))))) h = omega arith
pow-lt (suc (suc (suc (suc (suc (suc (suc zero))))))) h = omega arith
pow-lt (suc (suc (suc (suc (suc (suc (suc (suc k)))))))) h = absurd (omega arith)

pub low_three : (x : ℕ) → bit_and x 7 ≡ x % 8
low_three x = omega (
  arith,
  bit_and_digit x 7,
  bit_and_digit (x / 2) 3,
  bit_and_digit (x / 2 / 2) 1,
  bit_and-zero (x / 2 / 2 / 2) (x / 2 / 2 / 2) (omega arith),
)

-- Whether a line is latched.
abbrev pub latched : Pair → Line → ℕ
latched p (s, i) = bit i (chip p s).irr

abbrev pub same_line : Line → Line → Bool
same_line (false, i) (false, j) = i == j
same_line (true, i) (true, j) = i == j
same_line _ _ = false

latched-raise :
    (p : Pair) (irq : ℕ) (s : Bool) (i : ℕ)
    → irq ≤ 15
    → i < 8
    → latched (raise p irq).0 (s, i)
      ≡ (if same_line (s, i) (line_of irq) then 1 else latched p (s, i))
unfolding raise
latched-raise p irq true i h l =
    ground (arith, low_three irq, bit-set_bit i (bit_and irq 7) p.slave.irr l)
latched-raise p irq false i h l =
    ground (arith, low_three irq, bit-set_bit i (bit_and irq 7) p.master.irr l)

-- `raise` of 0 to 15 latches exactly its own line, touches no mask, and notifies exactly if the output
-- is asserted afterwards.
pub raise_lem :
    (p : Pair) (irq : ℕ)
    → irq ≤ 15
    → let (p', notified) = raise p irq in
      ((s : Bool) (i : ℕ)
        → i < 8
        → latched p' (s, i) ≡ (if same_line (s, i) (line_of irq) then 1 else latched p (s, i)))
      × (p'.master.mask ≡ p.master.mask)
      × (p'.slave.mask ≡ p.slave.mask)
      × (notified ≡ output_pending p')
unfolding raise output_pending
raise_lem p irq h = (λ s i l. latched-raise p irq s i h l, ground arith, ground arith, ground arith)

-- What `first` finds passes the test, and what passes none is not found.
first_sound :
    (test : Line → Bool) (ls : List Line) (l : Line)
    → All (λ k. k.1 < 8) ls
    → first test ls ≡ some l
    → (test l ≡ true) × (l.1 < 8)
first_sound test [] l a h = absurd (ground arith)
first_sound test (k ∷ ls) l a h = elim (Bool-cases (test k)) [
  | inl e ↦ let same : k ≡ l = ground arith in rw (← same) (e, a.0)
  | inr e ↦ first_sound test ls l a.1 (ground arith)
]

pub first_none :
    (test : Line → Bool) (ls : List Line)
    → is_some (first test ls) ≡ false
    → All (λ l. test l ≡ false) ls
first_none test [] h = tt
first_none test (k ∷ ls) h = (ground arith, first_none test ls (ground arith))

pub highest_requested :
    (p : Pair) (l : Line) → IsPair p → highest p ≡ some l → (is_requested p l ≡ true) × (l.1 < 8)
highest_requested p l v h =
    first_sound (is_requested p) priority l (omega arith) (sym (highest-first p v) ∙ h)

abbrev pub cleared : Pair → Line → Pair
cleared p (s, i) =
    let c = chip p s in set_chip p s (record c { irr = bit_and c.irr (not8 (2 ^ i)) })

pub acknowledge-some :
    (p : Pair) {s : Bool} {i : ℕ}
    → highest p ≡ some (s, i)
    → acknowledge p ≡ (cleared p (s, i), some (u8 ((chip p s).vector_base + i)))
unfolding acknowledge
acknowledge-some p h = rw (h, acknowledge)

is_requested-cleared :
    (p : Pair) (s : Bool) (i : ℕ) (t : Bool) (j : ℕ)
    → i < 8
    → j < 8
    → is_requested (cleared p (s, i)) (t, j)
      ≡ (is_requested p (t, j) && not (same_line (t, j) (s, i)))
is_requested-cleared p true i true j h l =
    ground (arith, bit-clear_bit j i p.slave.irr l (pow-lt i h))
is_requested-cleared p true i false j h l = ground arith
is_requested-cleared p false i true j h l = ground arith
is_requested-cleared p false i false j h l =
    ground (arith, bit-clear_bit j i p.master.irr l (pow-lt i h))

latched-cleared :
    (p : Pair) (s : Bool) (i : ℕ) (t : Bool) (j : ℕ)
    → i < 8
    → j < 8
    → latched (cleared p (s, i)) (t, j) ≡ (if same_line (t, j) (s, i) then 0 else latched p (t, j))
latched-cleared p true i true j h l = ground (arith, bit-clear_bit j i p.slave.irr l (pow-lt i h))
latched-cleared p true i false j h l = ground arith
latched-cleared p false i true j h l = ground arith
latched-cleared p false i false j h l =
    ground (arith, bit-clear_bit j i p.master.irr l (pow-lt i h))

-- All of a chip but its latched lines.
abbrev pub unlatched : Chip → Chip
unlatched c = record c { irr = 0 }

unlatched-cleared :
    (p : Pair) (s : Bool) (i : ℕ) (t : Bool)
    → unlatched (chip (cleared p (s, i)) t) ≡ unlatched (chip p t)
unlatched-cleared p true i true = refl
unlatched-cleared p true i false = refl
unlatched-cleared p false i true = refl
unlatched-cleared p false i false = refl

-- When the output is asserted, an INTA cycle returns the vector of a requested line, of the highest
-- priority, and clears that line's latch. Every other line, masked or not, stays latched or not as it was,
-- and both chips keep their masks, vectors and steps.
pub acknowledge_lem :
    (p : Pair) (s : Bool) (i : ℕ)
    → IsPair p
    → highest p ≡ some (s, i)
    → let (p', vector) = acknowledge p in
      (vector ≡ some (u8 ((chip p s).vector_base + i)))
      × (is_requested p (s, i) ≡ true)
      × ((t : Bool) (j : ℕ)
          → j < 8
          → is_requested p' (t, j) ≡ (is_requested p (t, j) && not (same_line (t, j) (s, i))))
      × ((t : Bool) (j : ℕ)
          → j < 8
          → latched p' (t, j) ≡ (if same_line (t, j) (s, i) then 0 else latched p (t, j)))
      × ((t : Bool) → unlatched (chip p' t) ≡ unlatched (chip p t))
acknowledge_lem p s i v h =
    let (asked, bound) = highest_requested p (s, i) v h in
    (
      ap (λ r. r.1) (acknowledge-some p h),
      asked,
      λ t j l.
          ap (λ r. is_requested r.0 (t, j)) (acknowledge-some p h)
          ∙ is_requested-cleared p s i t j bound l,
      λ t j l.
          ap (λ r. latched r.0 (t, j)) (acknowledge-some p h) ∙ latched-cleared p s i t j bound l,
      λ t. ap (λ r. unlatched (chip r.0 t)) (acknowledge-some p h) ∙ unlatched-cleared p s i t,
    )
