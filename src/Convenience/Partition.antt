-- ===== src/Convenience/Partition.antt =====
-- The partition tables of src/convenience/partition.rs, read from an image through `ReadAt` of
-- src/convenience/mod.rs. `last - first + 1` and `first + next.start` wrap around, as they do in a release
-- build; a failure is one of the file's four messages.
pub mod Inside
pub mod Limits
pub mod EntryBytes
pub mod Entries
mod Tests
use tinyvmm.Prelude.{
  ℕ, zero, suc, ◌+◌, ◌-◌, ◌*◌, ◌/◌, ◌%◌, ◌^◌, min, Bool, true, false, not, ◌&&◌, ◌||◌, Option, none,
  some, List, [], ◌∷◌, ◌++◌, length, take, drop, leb, ltb, ◌==◌, if◌then◌else◌, u64, from_le_bytes,
}

abbrev pub sector : ℕ
sector = 512

abbrev pub mbr_table : ℕ
mbr_table = 446

abbrev pub mbr_signature : List ℕ
mbr_signature = 0x55 ∷ 0xaa ∷ []

abbrev pub gpt_protective : ℕ
gpt_protective = 0xee

-- `MBR_EXTENDED.contains`.
abbrev pub mbr_extended : ℕ → Bool
mbr_extended kind = kind == 0x05 || kind == 0x0f || kind == 0x85

-- `EFI PART`.
abbrev pub gpt_signature : List ℕ
gpt_signature = 0x45 ∷ 0x46 ∷ 0x49 ∷ 0x20 ∷ 0x50 ∷ 0x41 ∷ 0x52 ∷ 0x54 ∷ []

abbrev pub first_logical : ℕ
first_logical = 5

abbrev pub max_gpt_entries : ℕ
max_gpt_entries = 4096

abbrev pub max_gpt_entry_size : ℕ
max_gpt_entry_size = 4096

abbrev pub max_logical : ℕ
max_logical = 128

-- An offset and a number of bytes to what lies there, or a failure.
pub record ReadAt : Type 0 where
  pub read_exact_at : ℕ → ℕ → Option (List ℕ)

pub record Partition : Type 0 where
  pub number : ℕ  -- u32
  pub start : ℕ  -- u64
  pub len : ℕ  -- u64

pub record MbrEntry : Type 0 where
  pub kind : ℕ  -- u8
  pub start : ℕ  -- u64
  pub sectors : ℕ  -- u64

pub data Error : Type 0 where
  read_at : ℕ → Error
  no_header : Error
  bad_entry_array : Error
  entries_past_end : Error

pub data Result : Type 0 where
  ok : List Partition → Result
  err : Error → Result

abbrev pub same : List ℕ → List ℕ → Bool
same [] [] = true
same [] (y ∷ ys) = false
same (x ∷ xs) [] = false
same (x ∷ xs) (y ∷ ys) = x == y && same xs ys

-- The little-endian number in `n` bytes from `at` on.
abbrev pub le_at : ℕ → ℕ → List ℕ → ℕ
le_at n at bytes = from_le_bytes (take n (drop at bytes))

abbrev pub all_zero : List ℕ → Bool
all_zero [] = true
all_zero (x ∷ xs) = x == 0 && all_zero xs

unfoldable pub mbr_entry : List ℕ → ℕ → MbrEntry
mbr_entry bytes index =
    let e = take 16 (drop (mbr_table + 16 * index) bytes) in
    record { kind = le_at 1 4 e; start = le_at 4 8 e; sectors = le_at 4 12 e }

unfoldable pub push : List Partition → ℕ → ℕ → ℕ → ℕ → List Partition
push parts disk_size number first sectors =
    let start = first * sector in
    let len = min (min (sectors * sector) (2 ^ 64 - 1)) (disk_size - start) in
    if leb (2 ^ 64) start || leb disk_size start
    then parts
    else parts ++ (record { number = number; start = start; len = len } ∷ [])

-- A read into a buffer of `n` bytes, and what follows it.
abbrev pub read : ReadAt → ℕ → ℕ → (List ℕ → Result) → Result
read disk at n next = elim (disk.read_exact_at at n) [
  | none ↦ err (Error.read_at at)
  | some bytes ↦ next bytes
]

-- The partition that a record of the chain describes.
unfoldable pub push_logical : List Partition → ℕ → ℕ → ℕ → MbrEntry → List Partition
unfolding push
push_logical parts disk_size number ebr part =
    if not (part.kind == 0) && not (part.sectors == 0)
    then push parts disk_size number (u64 (ebr + part.start)) part.sectors
    else parts

-- The records from `ebr` on, `left` of them at most.
unfoldable pub logical_from : ReadAt → ℕ → ℕ → ℕ → ℕ → ℕ → List Partition → Result
unfolding mbr_entry push_logical
logical_from disk disk_size first zero number ebr parts = ok parts
logical_from disk disk_size first (suc left) number ebr parts =
    if leb (2 ^ 64) (ebr * sector) || leb disk_size (ebr * sector)
    then ok parts
    else read disk (ebr * sector) sector λ bytes.
      if not (same (drop 510 bytes) mbr_signature)
      then ok parts
      else (let parts' = push_logical parts disk_size number ebr (mbr_entry bytes 0) in
          let next = mbr_entry bytes 1 in
          let rest =
            logical_from disk disk_size first left (number + 1) (u64 (first + next.start)) parts' in
          if next.kind == 0 || next.start == 0 then ok parts' else rest)

unfoldable pub logical : ReadAt → ℕ → ℕ → List Partition → Result
unfolding logical_from
logical disk disk_size first parts =
    logical_from disk disk_size first max_logical first_logical first parts

-- One entry of the array.
unfoldable pub push_entry : List Partition → ℕ → ℕ → List ℕ → List Partition
unfolding push
push_entry parts disk_size number e =
    let first = le_at 8 32 e in
    let last = le_at 8 40 e in
    if all_zero (take 16 e)
    then parts
    else if leb first last
    then push parts disk_size number first (u64 (last - first + 1))
    else parts

-- The whole entries of `size` bytes in the array, `left` of them at most.
unfoldable pub gpt_entries : ℕ → ℕ → ℕ → ℕ → List ℕ → List Partition → List Partition
unfolding push_entry
gpt_entries disk_size size zero number bytes parts = parts
gpt_entries disk_size size (suc left) number bytes parts =
    let parts' = push_entry parts disk_size number (take size bytes) in
    let rest = gpt_entries disk_size size left (number + 1) (drop size bytes) parts' in
    if ltb (length bytes) size then parts else rest

-- `next_multiple_of(SECTOR)`.
abbrev pub whole_sectors : ℕ → ℕ
whole_sectors n = (n + (sector - 1)) / sector * sector

-- The array at sector `table`, of `count` entries of `size` bytes.
unfoldable pub gpt_array : ReadAt → ℕ → ℕ → ℕ → ℕ → Result
unfolding gpt_entries
gpt_array disk disk_size table count size =
    let len = whole_sectors (count * size) in
    let at = table * sector in
    if ltb max_gpt_entries count
      || not (leb 128 size && leb size max_gpt_entry_size)
      || not (size % 8 == 0)
    then err Error.bad_entry_array
    else if leb (2 ^ 64) at || leb (2 ^ 64) (at + len) || ltb disk_size (at + len)
    then err Error.entries_past_end
    else read disk at len λ entries. ok (gpt_entries disk_size size count 1 entries [])

unfoldable pub gpt : ReadAt → ℕ → Result
unfolding gpt_array
gpt disk disk_size = read disk sector sector λ header.
    if not (same (take 8 header) gpt_signature)
    then err Error.no_header
    else gpt_array disk disk_size (le_at 8 72 header) (le_at 4 80 header) (le_at 4 84 header)

-- The slots of the table in the first sector, from `slot` on.
unfoldable pub mbr_slots : ReadAt → ℕ → ℕ → List MbrEntry → List Partition → Result
unfolding push logical
mbr_slots disk disk_size slot [] parts = ok parts
mbr_slots disk disk_size slot (e ∷ entries) parts =
    let skipped = mbr_slots disk disk_size (slot + 1) entries parts in
    let pushed =
      mbr_slots disk disk_size (slot + 1) entries (push parts disk_size slot e.start e.sectors) in
    if e.kind == 0 || e.sectors == 0
    then skipped
    else if mbr_extended e.kind
    then (elim (logical disk disk_size e.start parts) [
      | err x ↦ err x
      | ok parts' ↦ mbr_slots disk disk_size (slot + 1) entries parts'
    ])
    else pushed

abbrev pub any_protective : List MbrEntry → Bool
any_protective [] = false
any_protective (e ∷ entries) = e.kind == gpt_protective || any_protective entries

-- The whole disk, where there is no partition.
abbrev pub or_whole : ℕ → List Partition → List Partition
or_whole disk_size [] = record { number = 0; start = 0; len = disk_size } ∷ []
or_whole disk_size (p ∷ parts) = p ∷ parts

unfoldable pub partitions : ReadAt → ℕ → Result
unfolding mbr_entry gpt mbr_slots
partitions disk disk_size = read disk 0 sector λ mbr.
    let entries = mbr_entry mbr 0 ∷ mbr_entry mbr 1 ∷ mbr_entry mbr 2 ∷ mbr_entry mbr 3 ∷ [] in
    if not (same (drop 510 mbr) mbr_signature)
    then ok (or_whole disk_size [])
    else if any_protective entries
    then gpt disk disk_size
    else (elim (mbr_slots disk disk_size 1 entries []) [
      | err x ↦ err x
      | ok parts ↦ ok (or_whole disk_size parts)
    ])
