-- ===== src/Convenience/Partition/Tests.antt =====
-- Images with the tables of src/convenience/partition.rs, as its tests lay them out, and runs on them.
use tinyvmm.Prelude.{
  ℕ, ◌+◌, ◌-◌, ◌*◌, ◌≡◌, ◌^◌, ◌==◌, if◌then◌else◌, some, List, [], ◌∷◌, ◌++◌, replicate, refl,
  arith, to_le_bytes,
}
use tinyvmm.Convenience.Partition.{
  ReadAt, Partition, ok, sector, mbr_signature, gpt_signature, max_gpt_entries, gpt, partitions,
  push_entry,
}
use tinyvmm.Convenience.Partition.Inside.{Within}
use tinyvmm.Convenience.Partition.Limits.{partitions-Within}
use tinyvmm.Convenience.Partition.EntryBytes.{Guids, Named, Entry, used, unused, array, bytes_of}
use tinyvmm.Convenience.Partition.Entries.{gpt_lem}

abbrev zeros : ℕ → List ℕ
zeros n = replicate n 0

-- A slot of the first sector, or of a record of the chain.
abbrev mbr_slot : ℕ → ℕ → ℕ → List ℕ
mbr_slot kind start sectors =
    (0 ∷ 0 ∷ 0 ∷ 0 ∷ kind ∷ 0 ∷ 0 ∷ 0 ∷ []) ++ (to_le_bytes 4 start ++ to_le_bytes 4 sectors)

abbrev mbr_sector : List ℕ → List ℕ → List ℕ
mbr_sector slot0 slot1 = zeros 446 ++ (slot0 ++ (slot1 ++ (zeros 32 ++ mbr_signature)))

abbrev disk_size : ℕ
disk_size = 1_048_576

-- A type with a byte of 0, as the EFI system partition's has, and a GUID.
abbrev partition : ℕ → Guids
partition first = record {
  type_guid = first ∷ 0x73 ∷ 0x2a ∷ zeros 13;
  unique_guid = replicate 16 7;
}

partition-Named : (first : ℕ) → Named (partition (first + 1))
partition-Named first = record {
  type_length = refl;
  unique_length = refl;
  nonzero = λ e. absurd (cc e);
}

abbrev entries : List Entry
entries =
    used (partition 0x28) 34 40 (zeros 80)
    ∷ unused (zeros 112)
    ∷ used (partition 0xaf) 64 2047 (zeros 80)
    ∷ []

abbrev header : List ℕ
header =
    gpt_signature
    ++ (zeros 64 ++ (to_le_bytes 8 2 ++ (to_le_bytes 4 3 ++ (to_le_bytes 4 128 ++ zeros 424))))

abbrev gpt_disk : ReadAt
gpt_disk = record {
  read_exact_at = λ at n.
      if at == 0
      then some (mbr_sector (mbr_slot 0xee 1 0xffff_ffff) (zeros 16))
      else if at == 512
      then some header
      else if at == 1024
      then some (array entries ++ zeros 128)
      else some (zeros n);
}

-- Two extended partitions, with a logical partition each.
abbrev two_extended : ReadAt
two_extended = record {
  read_exact_at = λ at n.
      if at == 0
      then some (mbr_sector (mbr_slot 0x05 8 8) (mbr_slot 0x0f 16 8))
      else some (mbr_sector (mbr_slot 0x83 1 4) (zeros 16));
}

abbrev part : ℕ → ℕ → ℕ → Partition
part number first sectors = record {
  number = number;
  start = first * sector;
  len = sectors * sector;
}

gpt_lem_example : gpt gpt_disk disk_size ≡ ok (part 1 34 7 ∷ part 3 64 1984 ∷ [])
gpt_lem_example =
    gpt_lem gpt_disk disk_size 2 128 header (zeros 128) entries (omega arith) refl
      record { signature = refl; table_at = refl; count_at = refl; size_at = refl }
      record {
        few = omega arith;
        wide = omega arith;
        narrow = omega arith;
        even = refl;
        on_disk = omega arith;
      }
      refl
      (
        (omega arith, omega arith, refl, partition-Named 0x27),
        (refl, ((omega arith, omega arith, refl, partition-Named 0xae), tt)),
      )

partitions-Within_example : Within disk_size max_gpt_entries (partitions gpt_disk disk_size)
partitions-Within_example = partitions-Within gpt_disk disk_size

partitions-gpt_disk : partitions gpt_disk disk_size ≡ ok (part 1 34 7 ∷ part 3 64 1984 ∷ [])
unfolding partitions
partitions-gpt_disk = refl

-- The logical partitions of both are numbered from 5.
partitions-two_extended : partitions two_extended disk_size ≡ ok (part 5 9 4 ∷ part 5 17 4 ∷ [])
unfolding partitions
partitions-two_extended = refl

-- The number of sectors from 0 to the last that an entry can name wraps around to 0.
push_entry-whole_range :
    push_entry [] disk_size 1 (bytes_of (used (partition 7) 0 (2 ^ 64 - 1) (zeros 80)))
    ≡ part 1 0 0 ∷ []
unfolding push_entry
push_entry-whole_range = refl
