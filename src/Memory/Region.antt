-- ===== src/Memory/Region.antt =====
-- `region_off` of crates/whpsys/src/memory.rs: bounds, the hole, sub-ranges, injectivity.
use tinyvmm.Prelude.{ℕ, ◌+◌, ◌≤◌, ◌<◌, ◌≡◌, ◌⊎◌, ◌↔◌, Option, none, some, arith, refl}
use tinyvmm.Memory.{Split, GuestMemory, low_size_of, region_off}

-- What `new` and `new_split` set up: the low region ends at or below the high one, inside the
-- allocation.
abbrev pub SplitFits : ℕ → ℕ → Option Split → Type 0
SplitFits gpa size none = Unit {0}
SplitFits gpa size (some s) = (s.low_size ≤ size) × (gpa + s.low_size ≤ s.high_gpa)

abbrev pub IsValid : GuestMemory → Type 0
IsValid m = SplitFits m.gpa m.size m.split

-- `[addr, addr + len)` lies in low RAM, or in high RAM, `off` bytes into the allocation.
abbrev pub InLow : GuestMemory → ℕ → ℕ → ℕ → Type 0
InLow m addr len off =
    (addr ≡ m.gpa + off)
    × (off < low_size_of m.size m.split)
    × (off + len ≤ low_size_of m.size m.split)

abbrev pub InHigh : ℕ → Option Split → ℕ → ℕ → ℕ → Type 0
InHigh size none addr len off = ⊥
InHigh size (some s) addr len off =
    (addr + s.low_size ≡ s.high_gpa + off) × (s.low_size ≤ off) × (off < size) × (off + len ≤ size)

abbrev pub Maps : GuestMemory → ℕ → ℕ → ℕ → Type 0
Maps m addr len off = InLow m addr len off ⊎ InHigh m.size m.split addr len off

-- `region_off` finds the offset exactly when the whole range lies in one of the two regions.
pub region_off_iff :
    (m : GuestMemory) (addr len off : ℕ)
    → IsValid m
    → (region_off m addr len ≡ some off) ↔ Maps m addr len off
unfolding region_off
region_off_iff m addr len off v = ground arith

-- A range that `region_off` accepts lies inside the host allocation.
pub region_off_bounds :
    (m : GuestMemory) {off : ℕ} (addr len : ℕ)
    → IsValid m
    → region_off m addr len ≡ some off
    → (off < m.size) × (off + len ≤ m.size)
region_off_bounds m {off} addr len v h = ground (arith, region_off_iff m addr len off)

-- Every part of an accepted range is accepted, at the corresponding offset.
pub region_off_sub :
    (m : GuestMemory) {off : ℕ} (addr len i n : ℕ)
    → IsValid m
    → region_off m addr len ≡ some off
    → i < len
    → i + n ≤ len
    → region_off m (addr + i) n ≡ some (off + i)
region_off_sub m {off} addr len i n v h p q =
    (region_off_iff m (addr + i) n (off + i) v).1
      (ground (arith, (region_off_iff m addr len off v).0 h))

-- Disjoint guest ranges have disjoint host ranges: no two guest addresses share a byte of RAM.
pub region_off_disjoint :
    (m : GuestMemory) {off off' : ℕ} (a n b k : ℕ)
    → IsValid m
    → region_off m a n ≡ some off
    → region_off m b k ≡ some off'
    → (a + n ≤ b) ⊎ (b + k ≤ a)
    → (off + n ≤ off') ⊎ (off' + k ≤ off)
region_off_disjoint m {off} {off'} a n b k v h h' d =
    ground (arith, (region_off_iff m a n off v).0 h, (region_off_iff m b k off' v).0 h')

-- What is mapped does not depend on the bytes.
pub region_off-base :
    (m : GuestMemory) (f : ℕ → ℕ) (addr len : ℕ)
    → region_off (record m { base = f }) addr len ≡ region_off m addr len
unfolding region_off
region_off-base m f addr len = refl
