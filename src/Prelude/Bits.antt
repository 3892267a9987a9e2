-- ===== src/Prelude/Bits.antt =====
-- The binary digits of a number, and what `&`, `|`, `^` and the masks of one bit do to them.
use Prim.Native.Nat.{
  ℕ, zero, suc, ◌+◌, ◌*◌, ◌-◌, ◌/◌, ◌%◌, ◌^◌, ◌≤◌, ◌<◌, min, max, digits, bitwise, bit_and, bit_or,
  bit_and-bitwise, bit_or-bitwise,
}
use mathlib.Core.Path.{◌≡◌, refl, sym, ap, ◌∙◌}
use mathlib.Core.Logic.{◌≢◌}
use native.Mathlib.Nat.{le_refl, mul_assoc, pow-suc, one-le-pow, div-add-mod, div-div-eq-div-mul}
use native.Mathlib.Omega.{arith}
use native.Mathlib.Decide.{ℕ_discrete}
use tinyvmm.Prelude.Tests.{◌==◌}

-- Digit `k` of `x`, 0 or 1.
abbrev pub bit : ℕ → ℕ → ℕ
bit zero x = x % 2
bit (suc k) x = bit k (x / 2)

pub bit-lt : (k x : ℕ) → bit k x < 2
bit-lt zero x = omega arith
bit-lt (suc k) x = bit-lt k (x / 2)

-- The native operations stand for a recursion on digits with fuel; here the fuel is dropped.
module _ (z : ℕ → ℕ) (f : ℕ → ℕ → ℕ) where
  digits_enough : (n m a b : ℕ) → a ≤ n → a ≤ m → digits z f n a b ≡ digits z f m a b
  digits_enough zero zero a b p q = refl
  digits_enough zero (suc m) zero b p q = refl
  digits_enough zero (suc m) (suc a) b p q = absurd (omega arith)
  digits_enough (suc n) zero zero b p q = refl
  digits_enough (suc n) zero (suc a) b p q = absurd (omega arith)
  digits_enough (suc n) (suc m) zero b p q = refl
  digits_enough (suc n) (suc m) (suc a) b p q =
      rw (digits_enough n m (suc a / 2) (b / 2) (omega arith) (omega arith))

  bitwise_digit :
      (a b : ℕ)
      → bitwise z f (suc a) b ≡ bitwise z f (suc a / 2) (b / 2) * 2 + f (suc a % 2) (b % 2)
  bitwise_digit a b =
      omega (arith, digits_enough a (suc a / 2) (suc a / 2) (b / 2) (omega arith) (le_refl _))

pub bit_or_digit : (a b : ℕ) → bit_or a b ≡ bit_or (a / 2) (b / 2) * 2 + max (a % 2) (b % 2)
bit_or_digit zero b = simp bit_or-bitwise (omega arith)
bit_or_digit (suc a) b = simp bit_or-bitwise (bitwise_digit (λ y. y) max a b)

pub bit_and_digit : (a b : ℕ) → bit_and a b ≡ bit_and (a / 2) (b / 2) * 2 + min (a % 2) (b % 2)
bit_and_digit zero b = simp bit_and-bitwise (omega arith)
bit_and_digit (suc a) b = simp bit_and-bitwise (bitwise_digit (λ y. 0) min a b)

-- The digits of `&` and `|`.
pub bit-bit_and : (k a b : ℕ) → bit k (bit_and a b) ≡ min (bit k a) (bit k b)
bit-bit_and zero a b = omega (arith, bit_and_digit a b)
bit-bit_and (suc k) a b = ground (arith, bit_and_half a b, bit-bit_and k (a / 2) (b / 2))
  where
    bit_and_half : (a b : ℕ) → bit_and a b / 2 ≡ bit_and (a / 2) (b / 2)
    bit_and_half a b = omega (arith, bit_and_digit a b)

pub bit-bit_or : (k a b : ℕ) → bit k (bit_or a b) ≡ max (bit k a) (bit k b)
bit-bit_or zero a b = omega (arith, bit_or_digit a b)
bit-bit_or (suc k) a b = ground (arith, bit_or_half a b, bit-bit_or k (a / 2) (b / 2))
  where
    bit_or_half : (a b : ℕ) → bit_or a b / 2 ≡ bit_or (a / 2) (b / 2)
    bit_or_half a b = omega (arith, bit_or_digit a b)

-- `&` with 0, from either side.
pub bit_and-zero : (n a : ℕ) → a ≤ n → (bit_and a 0 ≡ 0) × (bit_and 0 a ≡ 0)
bit_and-zero n zero h = (refl, refl)
bit_and-zero zero (suc a) h = absurd (omega arith)
bit_and-zero (suc n) (suc a) h = omega (
  arith,
  bit_and_digit (suc a) 0,
  bit_and_digit 0 (suc a),
  bit_and-zero n (suc a / 2) (omega arith),
)

-- A mask of one bit tests that bit.
pub bit_and-pow : (k x : ℕ) → bit_and x (2 ^ k) ≡ bit k x * 2 ^ k
bit_and-pow zero x =
    omega (arith, bit_and_digit x 1, bit_and-zero (x / 2) (x / 2) (le_refl (x / 2)))
bit_and-pow (suc k) x = ground (
  arith,
  bit_and_digit x (2 ^ suc k),
  pow-suc 2 k,
  bit_and-pow k (x / 2),
  mul-double (bit k (x / 2)) k,
)
  where
    mul-double : (b k : ℕ) → b * 2 ^ suc k ≡ 2 * (b * 2 ^ k)
    mul-double b k = omega (arith, ap (λ (t : ℕ). b * t) (pow-suc 2 k))

-- The digits of a power of two, and of a complement.
pub bit-pow_self : (k : ℕ) → bit k (2 ^ k) ≡ 1
bit-pow_self zero = refl
bit-pow_self (suc k) = ap (bit k) half ∙ bit-pow_self k
  where
    half : 2 ^ suc k / 2 ≡ 2 ^ k
    half = omega (arith, pow-suc 2 k)

pub bit-zero : (k : ℕ) → bit k 0 ≡ 0
bit-zero zero = refl
bit-zero (suc k) = bit-zero k

pub bit-pow_ne : (j k : ℕ) → j ≢ k → bit j (2 ^ k) ≡ 0
bit-pow_ne zero zero h = absurd (h refl)
bit-pow_ne zero (suc k) h = omega (arith, pow-suc 2 k)
bit-pow_ne (suc j) zero h = bit-zero j
bit-pow_ne (suc j) (suc k) h = ap (bit j) half ∙ bit-pow_ne j k (λ e. h (ap suc e))
  where
    half : 2 ^ suc k / 2 ≡ 2 ^ k
    half = omega (arith, pow-suc 2 k)

pub bit-complement : (w k m : ℕ) → m < 2 ^ w → k < w → bit k (2 ^ w - 1 - m) ≡ 1 - bit k m
bit-complement zero k m h l = absurd (omega arith)
bit-complement (suc w) zero m h l = omega (arith, pow-suc 2 w)
bit-complement (suc w) (suc k) m h l =
    ap (bit k) half ∙ bit-complement w k (m / 2) (omega (arith, pow-suc 2 w)) (omega arith)
  where
    half : (2 ^ suc w - 1 - m) / 2 ≡ 2 ^ w - 1 - m / 2
    half = omega (arith, pow-suc 2 w)

-- A number below 2 ^ w with no digit set is 0; two with the same digits are equal.
pub eq-of-bits : (w a b : ℕ) → a < 2 ^ w → b < 2 ^ w → ((k : ℕ) → k < w → bit k a ≡ bit k b) → a ≡ b
eq-of-bits zero a b h l e = omega arith
eq-of-bits (suc w) a b h l e = omega (
  arith,
  e 0 (omega arith),
  eq-of-bits w (a / 2) (b / 2) (omega (arith, pow-suc 2 w)) (omega (arith, pow-suc 2 w))
      (λ k p. e (suc k) (omega arith)),
)

-- `&` and `|` stay within the width.
pub bit_and-le : (n a b : ℕ) → a ≤ n → bit_and a b ≤ a
bit_and-le n zero b h = omega (arith, bit_and-zero b b (le_refl b))
bit_and-le zero (suc a) b h = absurd (omega arith)
bit_and-le (suc n) (suc a) b h =
    omega (arith, bit_and_digit (suc a) b, bit_and-le n (suc a / 2) (b / 2) (omega arith))

pub bit_or-lt : (w a b : ℕ) → a < 2 ^ w → b < 2 ^ w → bit_or a b < 2 ^ w
bit_or-lt zero a b h l = ground (arith, bit_or_digit a b)
bit_or-lt (suc w) a b h l = omega (
  arith,
  pow-suc 2 w,
  bit_or_digit a b,
  bit_or-lt w (a / 2) (b / 2) (omega (arith, pow-suc 2 w)) (omega (arith, pow-suc 2 w)),
)

-- `x & (1 << k) == 0` tests the digit.
pub bit_and-pow_eq_zero : (k x : ℕ) → (bit_and x (2 ^ k) == 0) ≡ (bit k x == 0)
bit_and-pow_eq_zero k x =
    rw bit_and-pow (test (bit k x) (2 ^ k) (bit-lt k x) (one-le-pow k 2 (omega arith)))
  where
    test : (b t : ℕ) → b < 2 → 1 ≤ t → (b * t == 0) ≡ (b == 0)
    test zero t h l = ground arith
    test (suc zero) t h l = ground arith
    test (suc (suc b)) t h l = absurd (omega arith)

bit_or-zero : (n b : ℕ) → b ≤ n → bit_or 0 b ≡ b
bit_or-zero n zero h = refl
bit_or-zero zero (suc b) h = absurd (omega arith)
bit_or-zero (suc n) (suc b) h =
    omega (arith, bit_or_digit 0 (suc b), bit_or-zero n (suc b / 2) (omega arith))

-- `|` of numbers with no digit in common, the one below a power of 2 and the other a multiple of it.
pub bit_or-disjoint : (k lo hi : ℕ) → lo < 2 ^ k → bit_or lo (hi * 2 ^ k) ≡ lo + hi * 2 ^ k
bit_or-disjoint zero lo hi h = ground (arith, bit_or-zero hi hi (le_refl hi))
bit_or-disjoint (suc k) lo hi h = ground (
  arith,
  bit_or_digit lo (hi * 2 ^ suc k),
  pow-suc 2 k,
  mul_assoc hi (2 ^ k) 2,
  bit_or-disjoint k (lo / 2) hi (omega (arith, pow-suc 2 k)),
)

pub bit_or_comm : (n a b : ℕ) → a ≤ n → b ≤ n → bit_or a b ≡ bit_or b a
bit_or_comm zero a b h l = ground arith
bit_or_comm (suc n) a b h l = omega (
  arith,
  bit_or_digit a b,
  bit_or_digit b a,
  bit_or_comm n (a / 2) (b / 2) (omega arith) (omega arith),
)

div-double : (k x : ℕ) → x / 2 ^ suc k ≡ x / 2 / 2 ^ k
div-double k x =
    ap (λ (t : ℕ). x / t) (omega (arith, pow-suc 2 k)) ∙ sym (div-div-eq-div-mul x 2 (2 ^ k))

-- A mask of the low digits is a remainder, a mask of high digits shifts.
pub bit_and-ones : (w x : ℕ) → bit_and x (2 ^ w - 1) ≡ x % 2 ^ w
bit_and-ones zero x = omega (arith, bit_and-zero x x (le_refl x))
bit_and-ones (suc w) x = omega (
  arith,
  bit_and_digit x (2 ^ suc w - 1),
  pow-suc 2 w,
  one-le-pow w 2 (omega arith),
  half,
  bit_and-ones w (x / 2),
  mod-double w x,
)
  where
    half : bit_and (x / 2) ((2 ^ suc w - 1) / 2) ≡ bit_and (x / 2) (2 ^ w - 1)
    half = ap (bit_and (x / 2)) (omega (arith, pow-suc 2 w, one-le-pow w 2 (omega arith)))

    mod-double : (w x : ℕ) → x % 2 ^ suc w ≡ (x / 2) % 2 ^ w * 2 + x % 2
    mod-double w x = omega (
      arith,
      pow-suc 2 w,
      ap (λ (t : ℕ). t * (x / 2 / 2 ^ w)) (pow-suc 2 w),
      div-add-mod x (2 ^ suc w),
      div-add-mod (x / 2) (2 ^ w),
      ap (λ (t : ℕ). 2 ^ suc w * t) (div-double w x),
      mul_assoc 2 (2 ^ w) (x / 2 / 2 ^ w),
    )

pub bit_and-shifted : (k x m : ℕ) → bit_and x (m * 2 ^ k) ≡ bit_and (x / 2 ^ k) m * 2 ^ k
bit_and-shifted zero x m = ground arith
bit_and-shifted (suc k) x m = ground (
  arith,
  bit_and_digit x (m * 2 ^ suc k),
  pow-suc 2 k,
  mul_assoc m (2 ^ k) 2,
  div-double k x,
  mul_assoc (bit_and (x / 2 / 2 ^ k) m) (2 ^ k) 2,
  bit_and-shifted k (x / 2) m,
)

bit_and_self : (n a : ℕ) → a ≤ n → bit_and a a ≡ a
bit_and_self zero a h = ground (arith, bit_and-zero a a (le_refl a))
bit_and_self (suc n) zero h = refl
bit_and_self (suc n) (suc a) h =
    omega (arith, bit_and_digit (suc a) (suc a), bit_and_self n (suc a / 2) (omega arith))

-- `x & (x - 1)` is 0 only for 0 and the powers of 2.
pub pow-of-bit_and : (n x : ℕ) → x ≤ n → 0 < x → bit_and x (x - 1) ≡ 0 → (k : ℕ) × (x ≡ 2 ^ k)
pow-of-bit_and zero x h l e = absurd (omega arith)
pow-of-bit_and (suc n) x h l e = elim (ℕ_discrete (x % 2) 0) [
  | yes even ↦
      let half : bit_and (x / 2) ((x - 1) / 2) ≡ bit_and (x / 2) (x / 2 - 1) =
        ap (bit_and (x / 2)) (omega arith) in
      let (k, f) =
        pow-of-bit_and n (x / 2) (omega arith) (omega arith)
          (omega (arith, bit_and_digit x (x - 1))) in
      (suc k, omega (arith, pow-suc 2 k))
  | no odd ↦
      let half : bit_and (x / 2) ((x - 1) / 2) ≡ bit_and (x / 2) (x / 2) =
        ap (bit_and (x / 2)) (omega arith) in
      (0, omega (arith, bit_and_digit x (x - 1), bit_and_self (x / 2) (x / 2) (le_refl _)))
]

-- `|` of a multiple of a power of 2 and a number below it, the multiple first.
pub bit_or-shifted : (k lo hi : ℕ) → lo < 2 ^ k → bit_or (hi * 2 ^ k) lo ≡ lo + hi * 2 ^ k
bit_or-shifted k lo hi h =
    bit_or_comm (hi * 2 ^ k + lo) (hi * 2 ^ k) lo (omega arith) (omega arith)
    ∙ bit_or-disjoint k lo hi h
