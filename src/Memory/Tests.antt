-- ===== src/Memory/Tests.antt =====
-- RAM of 64 KiB in two halves around a hole, as crates/whpsys/src/memory.rs lays it out.
use tinyvmm.Prelude.{◌≡◌, ◌↔◌, none, some, [], ◌∷◌, arith, refl, inr}
use tinyvmm.Memory.{GuestMemory, region_off, read_array, write_bytes}
use tinyvmm.Memory.Region.{Maps, region_off_iff}
use tinyvmm.Memory.Access.{read_array-write_bytes_other}

abbrev halves : GuestMemory
halves = record {
  base = λ i. i;
  gpa = 0;
  size = 0x10000;
  split = some (record { low_size = 0x8000; high_gpa = 0x10_0000 });
}

-- The hole, and a range that runs into it, map to nothing.
hole : (region_off halves 0x8000 1 ≡ none) × (region_off halves 0x7fff 2 ≡ none)
unfolding region_off
hole = (refl, refl)

region_off_iff_example :
    (region_off halves 0x10_0010 16 ≡ some 0x8010) ↔ Maps halves 0x10_0010 16 0x8010
region_off_iff_example = region_off_iff halves 0x10_0010 16 0x8010 (omega arith)

read_array-write_bytes_other_example :
    read_array (write_bytes halves 0x10_0000 (7 ∷ 8 ∷ [])).0 0x7ffe 2 ≡ read_array halves 0x7ffe 2
read_array-write_bytes_other_example =
    read_array-write_bytes_other halves 0x10_0000 (7 ∷ 8 ∷ []) 0x7ffe 2 (omega arith)
      (inr (omega arith))
