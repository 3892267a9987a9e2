-- ===== src/Device/Pic/Priority.antt =====
-- `highest` of src/devices/pic.rs against its specification: the first requested line in a fixed
-- order of priority, the slave's lines at the place of the cascade input.
use native.Mathlib.Nat.{pow-suc}
use tinyvmm.Prelude.{
  ℕ, zero, suc, ◌+◌, ◌-◌, ◌/◌, ◌%◌, ◌^◌, ◌<◌, ◌≡◌, ap, ◌∙◌, Bool, true, false, not, ◌&&◌, Option,
  none, some, List, [], ◌∷◌, ◌==◌, if◌then◌else◌, bit_and, bit, bit-lt, bit-bit_and, bit-complement,
  bit_and-pow_eq_zero, bit_and-le, sym, min, arith, refl, inl, inr, Bool-cases,
}
use tinyvmm.Device.Pic.{Chip, Pair, not8, requests, trailing_zeros, highest}

-- The registers are bytes.
abbrev pub IsChip : Chip → Type 0
IsChip c = (c.vector_base < 256) × (c.mask < 256) × (c.irr < 256)

abbrev pub IsPair : Pair → Type 0
IsPair p = IsChip p.master × IsChip p.slave

-- An input of the master (false) or the slave (true).
abbrev pub Line : Type 0
Line = Bool × ℕ

abbrev pub asks : Chip → ℕ → Bool
asks c i = bit i c.irr == 1 && bit i c.mask == 0

-- A latched, unmasked line; one of the slave also needs the cascade input unmasked.
abbrev pub is_requested : Pair → Line → Bool
is_requested p (false, i) = asks p.master i
is_requested p (true, i) = asks p.slave i && bit 2 p.master.mask == 0

abbrev pub priority : List Line
priority =
    (false, 0)
    ∷ (false, 1)
    ∷ (true, 0)
    ∷ (true, 1)
    ∷ (true, 2)
    ∷ (true, 3)
    ∷ (true, 4)
    ∷ (true, 5)
    ∷ (true, 6)
    ∷ (true, 7)
    ∷ (false, 2)
    ∷ (false, 3)
    ∷ (false, 4)
    ∷ (false, 5)
    ∷ (false, 6)
    ∷ (false, 7)
    ∷ []

abbrev pub first : (Line → Bool) → List Line → Option Line
first test [] = none
first test (l ∷ ls) = let rest = first test ls in if test l then some l else rest

-- The bit tests of the code.
pub bit-requests :
    (c : Chip) (i : ℕ)
    → IsChip c
    → i < 8
    → bit i (requests c) ≡ min (bit i c.irr) (1 - bit i c.mask)
bit-requests c i v h =
    bit-bit_and i c.irr (not8 c.mask) ∙ ap (min (bit i c.irr)) (bit-complement 8 i c.mask v.1 h)

pub asks_lem :
    (c : Chip) (i : ℕ) → IsChip c → i < 8 → not (bit_and (requests c) (2 ^ i) == 0) ≡ asks c i
asks_lem c i v h = ground (
  arith,
  bit_and-pow_eq_zero i (requests c),
  bit-requests c i v h,
  bit-lt i c.irr,
  bit-lt i c.mask,
)

-- The slave's part: `trailing_zeros` finds the lowest digit set.
abbrev first_digit : ℕ → ℕ → ℕ → Option Line → Option Line
first_digit zero i x rest = rest
first_digit (suc w) i x rest =
    let later = first_digit w (i + 1) (x / 2) rest in if x % 2 == 1 then some (true, i) else later

first_digit_lem :
    (w i x : ℕ) (rest : Option Line)
    → x < 2 ^ w
    → first_digit w i x rest ≡ (if x == 0 then rest else some (true, i + trailing_zeros w x))
first_digit_lem zero i x rest h = ground arith
first_digit_lem (suc w) i x rest h =
    ground (arith, pow-suc 2 w, first_digit_lem w (i + 1) (x / 2) rest)

-- The first of the slave's lines that `a` accepts, from line `i`, with `w` lines left.
abbrev first_slave : (ℕ → Bool) → ℕ → ℕ → Option Line → Option Line
first_slave a zero i rest = rest
first_slave a (suc w) i rest =
    let later = first_slave a w (i + 1) rest in if a i then some (true, i) else later

first_slave_digits :
    (a : ℕ → Bool) (w i x : ℕ) (rest : Option Line)
    → ((k : ℕ) → k < w → (bit k x == 1) ≡ a (i + k))
    → first_digit w i x rest ≡ first_slave a w i rest
first_slave_digits a zero i x rest h = refl
first_slave_digits a (suc w) i x rest h =
    ground
      (arith, h 0, first_slave_digits a w (i + 1) (x / 2) rest (λ k l. ground (arith, h (suc k))))

first_slave_none :
    (a : ℕ → Bool) (w i : ℕ) (rest : Option Line)
    → ((k : ℕ) → a k ≡ false)
    → first_slave a w i rest ≡ rest
first_slave_none a zero i rest h = refl
first_slave_none a (suc w) i rest h = rw (h i) (first_slave_none a w (i + 1) rest h)

asks_digit : (c : Chip) (i : ℕ) → IsChip c → i < 8 → (bit i (requests c) == 1) ≡ asks c i
asks_digit c i v h = ground (arith, bit-requests c i v h, bit-lt i c.irr, bit-lt i c.mask)

requests-lt : (c : Chip) → IsChip c → requests c < 256
requests-lt c v = omega (arith, bit_and-le c.irr c.irr (not8 c.mask))

open_part :
    (cascade : Bool) (x : ℕ) (rest : Option Line)
    → x < 256
    → cascade ≡ true
    → (if cascade && not (x == 0) then some (true, trailing_zeros 8 x) else rest)
      ≡ first_digit 8 0 x rest
open_part cascade x rest h e = ground (arith, first_digit_lem 8 0 x rest)

closed_part :
    (cascade : Bool) (x : ℕ) (rest : Option Line)
    → cascade ≡ false
    → (if cascade && not (x == 0) then some (true, trailing_zeros 8 x) else rest) ≡ rest
closed_part cascade x rest e = rw e refl

slave_part :
    (p : Pair) (rest : Option Line)
    → IsPair p
    → (if bit_and p.master.mask 4 == 0 && not (requests p.slave == 0)
        then some (true, trailing_zeros 8 (requests p.slave))
        else rest)
      ≡ first_slave (λ i. is_requested p (true, i)) 8 0 rest
slave_part p rest v = elim (Bool-cases (bit 2 p.master.mask == 0)) [
  | inl e ↦
      open_part (bit_and p.master.mask 4 == 0) (requests p.slave) rest (requests-lt p.slave v.1)
        (bit_and-pow_eq_zero 2 p.master.mask ∙ e)
      ∙ first_slave_digits (λ i. is_requested p (true, i)) 8 0 (requests p.slave) rest
          (λ k l. ground (arith, asks_digit p.slave k v.1 l))
  | inr e ↦
      closed_part (bit_and p.master.mask 4 == 0) (requests p.slave) rest
        (bit_and-pow_eq_zero 2 p.master.mask ∙ e)
      ∙ sym (first_slave_none (λ i. is_requested p (true, i)) 8 0 rest (λ k. ground (arith, e)))
]

-- `highest` is the first requested line in the order of priority: the master's 0 and 1, the slave's 0
-- to 7 while the cascade input is unmasked, the master's 2 to 7; none if no line is requested.
pub highest-first : (p : Pair) → IsPair p → highest p ≡ first (is_requested p) priority
unfolding highest
highest-first p v =
    rw
      (
        asks_lem p.master 0 v.0 (omega arith),
        asks_lem p.master 1 v.0 (omega arith),
        asks_lem p.master 2 v.0 (omega arith),
        asks_lem p.master 3 v.0 (omega arith),
        asks_lem p.master 4 v.0 (omega arith),
        asks_lem p.master 5 v.0 (omega arith),
        asks_lem p.master 6 v.0 (omega arith),
        asks_lem p.master 7 v.0 (omega arith),
        slave_part p
            (first (is_requested p)
              ((false, 2) ∷ (false, 3) ∷ (false, 4) ∷ (false, 5) ∷ (false, 6) ∷ (false, 7) ∷ []))
            v,
      )
      refl
