-- ===== src/Memory.antt =====
-- Guest RAM (crates/whpsys/src/memory.rs): the one translation from guest-physical addresses to
-- offsets of the host allocation, which knows about the hole between low and high RAM, and the
-- typed accessors over it. A host pointer is its offset from the allocation's base.
pub mod Region
pub mod Access
mod Tests
use tinyvmm.Prelude.{
  ℕ, zero, suc, ◌+◌, ◌-◌, ◌%◌, Bool, true, false, ◌&&◌, Option, none, some, List, [], ◌∷◌, length,
  get_or, ltb, leb, ◌==◌, if◌then◌else◌, from_le_bytes, to_le_bytes,
}

-- `struct Split`: the first `low_size` bytes map at the base GPA, the rest at `high_gpa`.
pub record Split : Type 0 where
  pub low_size : ℕ
  pub high_gpa : ℕ

-- `struct GuestMemory`: the allocation's bytes by offset, and how GPAs map to them. The partition
-- handle, page size and teardown flags do not bear on the accessors.
pub record GuestMemory : Type 0 where
  pub base : ℕ → ℕ
  pub gpa : ℕ
  pub size : ℕ
  pub split : Option Split

-- The match on `split` that opens `region_off`.
abbrev pub low_size_of : ℕ → Option Split → ℕ
low_size_of size none = size
low_size_of size (some s) = s.low_size

-- The high region, present when RAM is split.
abbrev pub high_off : ℕ → Option Split → ℕ → ℕ → Option ℕ
high_off size none addr len = none
high_off size (some s) addr len =
    if leb s.high_gpa addr
    then (if ltb (addr - s.high_gpa) (size - s.low_size)
          && leb len (size - s.low_size - (addr - s.high_gpa))
        then some (s.low_size + (addr - s.high_gpa))
        else none)
    else none

unfoldable pub region_off : GuestMemory → ℕ → ℕ → Option ℕ
region_off m addr len =
    let low_size = low_size_of m.size m.split in
    if leb m.gpa addr && ltb (addr - m.gpa) low_size
    then (if leb len (low_size - (addr - m.gpa)) then some (addr - m.gpa) else none)
    else high_off m.size m.split addr len

-- `host_range`: a pointer is its offset.
abbrev pub host_range : GuestMemory → ℕ → ℕ → Option ℕ
host_range m addr len = region_off m addr len

-- `copy_nonoverlapping` out of the allocation, and into it.
abbrev pub read_host : (ℕ → ℕ) → ℕ → ℕ → List ℕ
read_host b off zero = []
read_host b off (suc n) = b off ∷ read_host b (off + 1) n

abbrev pub write_host : (ℕ → ℕ) → ℕ → List ℕ → ℕ → ℕ
write_host b off src i =
    if leb off i && ltb i (off + length src) then get_or src (i - off) 0 else b i

-- `read_into` and `read_array`: the `n` bytes at `addr`, or none where it returns false.
unfoldable pub read_array : GuestMemory → ℕ → ℕ → Option (List ℕ)
read_array m addr n = elim (host_range m addr n) [
  | none ↦ none
  | some p ↦ some (read_host m.base p n)
]

-- `write_bytes`: the memory afterwards, and whether the range was in bounds.
unfoldable pub write_bytes : GuestMemory → ℕ → List ℕ → GuestMemory × Bool
write_bytes m addr src = elim (host_range m addr (length src)) [
  | none ↦ (m, false)
  | some p ↦ (record m { base = write_host m.base p src }, true)
]

-- `read_u16`, and `load_acquire_u16` (ordering aside).
unfoldable pub read_u16 : GuestMemory → ℕ → Option ℕ
unfolding read_array
read_u16 m addr = elim (read_array m addr 2) [ none ↦ none | some b ↦ some (from_le_bytes b) ]

-- `store_release_u16`, `write_u16`
unfoldable pub store_u16 : GuestMemory → ℕ → ℕ → GuestMemory × Bool
unfolding write_bytes
store_u16 m addr v = write_bytes m addr (to_le_bytes 2 v)

-- `load_acquire_u32`: none also where the address is not a multiple of 4.
unfoldable pub load_acquire_u32 : GuestMemory → ℕ → Option ℕ
load_acquire_u32 m addr =
    if addr % 4 == 0
    then elim (host_range m addr 4) [
      | none ↦ none
      | some p ↦ some (from_le_bytes (read_host m.base p 4))
    ]
    else none

unfoldable pub store_release_u32 : GuestMemory → ℕ → ℕ → GuestMemory × Bool
store_release_u32 m addr v =
    if addr % 4 == 0
    then elim (host_range m addr 4) [
      | none ↦ (m, false)
      | some p ↦ (record m { base = write_host m.base p (to_le_bytes 4 v) }, true)
    ]
    else (m, false)

-- What the guest does to the bytes of RAM while the program waits at a fence.
abbrev pub Guest : Type 0
Guest = (ℕ → ℕ) → ℕ → ℕ

abbrev pub run_guest : Guest → GuestMemory → GuestMemory
run_guest guest m = record m { base = guest m.base }
