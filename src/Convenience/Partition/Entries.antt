-- ===== src/Convenience/Partition/Entries.antt =====
-- The entry array of a GPT, as its writer lays it out, read back by src/convenience/partition.rs.
use tinyvmm.Prelude.{
  ℕ, ◌+◌, ◌*◌, ◌%◌, ◌^◌, ◌≤◌, ◌<◌, ◌≡◌, ◌||◌, ◌&&◌, not, true, false, Bool, Option, none, some,
  List, [], ◌∷◌, ◌++◌, All, length, length-append, leb, ltb, ◌==◌, if◌then◌else◌, take, drop, arith,
  ap, ap₂, sym, ◌∙◌, ==_iff,
}
use mathlib.Core.List.{append-nil, append_assoc}
use tinyvmm.Convenience.Partition.{
  Partition, sector, push_entry, gpt_entries, le_at, ReadAt, Result, ok, err, Error, gpt, gpt_array,
  gpt_signature, same, max_gpt_entries, max_gpt_entry_size, whole_sectors,
}
use tinyvmm.Convenience.Partition.EntryBytes.{
  Entry, used, unused, bytes_of, array, Fits, listed, take-append, drop-append, length-bytes_of,
  push_entry_lem,
}

-- An entry's own partitions, then those of the entries after it.
listed-cons :
    (parts : List Partition) (number : ℕ) (e : Entry) (entries : List Entry)
    → (parts ++ listed number (e ∷ [])) ++ listed (number + 1) entries
      ≡ parts ++ listed number (e ∷ entries)
listed-cons parts number (unused tail) entries =
    ap (λ l. l ++ listed (number + 1) entries) (append-nil parts)
listed-cons parts number (used guids first last tail) entries =
    append_assoc parts (listed number (used guids first last tail ∷ []))
      (listed (number + 1) entries)

gpt_entries_lem :
    (disk_size size number : ℕ) (entries : List Entry) (pad : List ℕ) (parts : List Partition)
    → disk_size < 2 ^ 64
    → All (Fits disk_size size) entries
    → gpt_entries disk_size size (length entries) number (array entries ++ pad) parts
      ≡ parts ++ listed number entries
unfolding gpt_entries
gpt_entries_lem disk_size size number [] pad parts h f = sym (append-nil parts)
gpt_entries_lem disk_size size number (e ∷ entries) pad parts h f =
    let others = array entries ++ pad in
    let whole : (bytes_of e ++ array entries) ++ pad ≡ bytes_of e ++ others =
      append_assoc (bytes_of e) (array entries) pad in
    let sized = length-bytes_of disk_size size e f.0 in
    let mine : take size (bytes_of e ++ others) ≡ bytes_of e =
      ap (λ n. take n (bytes_of e ++ others)) (sym sized) ∙ take-append (bytes_of e) others in
    let after : drop size (bytes_of e ++ others) ≡ others =
      ap (λ n. drop n (bytes_of e ++ others)) (sym sized) ∙ drop-append (bytes_of e) others in
    let enough : ltb (length (bytes_of e ++ others)) size ≡ false =
      ground (arith, length-append (bytes_of e) others, sized) in
    let step : (bytes : List ℕ) → List Partition = λ bytes.
      if ltb (length bytes) size
      then parts
      else gpt_entries disk_size size (length entries) (number + 1) (drop size bytes)
          (push_entry parts disk_size number (take size bytes)) in
    ap step whole
    ∙ ap
        (λ b.
          if b
          then parts
          else gpt_entries disk_size size (length entries) (number + 1)
              (drop size (bytes_of e ++ others))
              (push_entry parts disk_size number (take size (bytes_of e ++ others))))
        enough
    ∙ ap₂
        (λ rest one.
          gpt_entries disk_size size (length entries) (number + 1) rest
            (push_entry parts disk_size number one))
        after mine
    ∙ ap (gpt_entries disk_size size (length entries) (number + 1) others)
        (push_entry_lem parts disk_size size number e h f.0)
    ∙ gpt_entries_lem disk_size size (number + 1) entries pad (parts ++ listed number (e ∷ [])) h
        f.1
    ∙ listed-cons parts number e entries

le→ltb : (a b : ℕ) → a ≤ b → ltb b a ≡ false
le→ltb a b h = ground arith

le→leb : (a b : ℕ) → a ≤ b → leb a b ≡ true
le→leb a b h = ground arith

lt→leb : (a b : ℕ) → a < b → leb b a ≡ false
lt→leb a b h = ground arith

below :
    (at len disk_size : ℕ)
    → disk_size < 2 ^ 64
    → at + len ≤ disk_size
    → (leb (2 ^ 64) at || leb (2 ^ 64) (at + len) || ltb disk_size (at + len)) ≡ false
below at len disk_size h l =
    let small : at < 2 ^ 64 = omega arith in
    let ends : at + len < 2 ^ 64 = omega arith in
    ap₂ (λ a b. a || b) (ap₂ (λ a b. a || b) (lt→leb _ _ small) (lt→leb _ _ ends)) (le→ltb _ _ l)

-- The header in the second sector, for an array of `count` entries of `size` bytes at sector `table`.
pub record Header (header : List ℕ) (table count size : ℕ) : Type 0 where
  pub signature : same (take 8 header) gpt_signature ≡ true
  pub table_at : le_at 8 72 header ≡ table
  pub count_at : le_at 4 80 header ≡ count
  pub size_at : le_at 4 84 header ≡ size

-- A table of at most 4096 entries of a size that the format allows, which lies on the disk.
pub record Table (disk_size table count size : ℕ) : Type 0 where
  pub few : count ≤ max_gpt_entries
  pub wide : 128 ≤ size
  pub narrow : size ≤ max_gpt_entry_size
  pub even : size % 8 ≡ 0
  pub on_disk : table * sector + whole_sectors (count * size) ≤ disk_size

gpt_array_lem :
    (disk : ReadAt) (disk_size table size : ℕ) (pad : List ℕ) (entries : List Entry)
    → disk_size < 2 ^ 64
    → Table disk_size table (length entries) size
    → disk.read_exact_at (table * sector) (whole_sectors (length entries * size))
      ≡ some (array entries ++ pad)
    → All (Fits disk_size size) entries
    → gpt_array disk disk_size table (length entries) size ≡ ok (listed 1 entries)
unfolding gpt_array
gpt_array_lem disk disk_size table size pad entries h t array_read fits =
    let count = length entries in
    let at = table * sector in
    let len = whole_sectors (count * size) in
    let allowed : (ltb max_gpt_entries count
          || not (leb 128 size && leb size max_gpt_entry_size)
          || not (size % 8 == 0))
        ≡ false =
      ap₂ (λ a b. a || b)
        (ap₂ (λ a b. a || not b) (le→ltb _ _ t.few)
          (ap₂ (λ a b. a && b) (le→leb _ _ t.wide) (le→leb _ _ t.narrow)))
        (ap not ((==_iff (size % 8) 0).1 t.even)) in
    let found : Option (List ℕ) → Result = λ o. elim o [
      | none ↦ err (Error.read_at at)
      | some bytes ↦ ok (gpt_entries disk_size size count 1 bytes [])
    ] in
    ap₂
      (λ a b.
        if a
        then err Error.bad_entry_array
        else if b
        then err Error.entries_past_end
        else found (disk.read_exact_at at len))
      allowed (below at len disk_size h t.on_disk)
    ∙ ap found array_read
    ∙ ap ok (gpt_entries_lem disk_size size 1 entries pad [] h fits)

-- A GPT on a disk of less than 2^64 bytes: a header, and an array that lies on the disk, of at most 4096
-- entries of 128 to 4096 bytes, a multiple of 8, whose sectors the disk has. An entry is used by any type and GUID but a type of all zeros, which an
-- unused one has. What is listed is each used
-- entry, in order, numbered from 1 by its place among all entries, with the bytes of its sectors.
pub gpt_lem :
    (disk : ReadAt) (disk_size table size : ℕ) (header pad : List ℕ) (entries : List Entry)
    → disk_size < 2 ^ 64
    → disk.read_exact_at sector sector ≡ some header
    → Header header table (length entries) size
    → Table disk_size table (length entries) size
    → disk.read_exact_at (table * sector) (whole_sectors (length entries * size))
      ≡ some (array entries ++ pad)
    → All (Fits disk_size size) entries
    → gpt disk disk_size ≡ ok (listed 1 entries)
unfolding gpt
gpt_lem disk disk_size table size header pad entries h first head t array_read fits =
    let checked : Bool → ℕ → ℕ → ℕ → Result = λ b table count size.
      if not b then err Error.no_header else gpt_array disk disk_size table count size in
    let read_header : Option (List ℕ) → Result = λ o. elim o [
      | none ↦ err (Error.read_at sector)
      | some bytes ↦
          checked (same (take 8 bytes) gpt_signature) (le_at 8 72 bytes) (le_at 4 80 bytes)
            (le_at 4 84 bytes)
    ] in
    ap read_header first
    ∙ ap₂ (λ b n. checked b n (le_at 4 80 header) (le_at 4 84 header)) head.signature head.table_at
    ∙ ap₂ (checked true table) head.count_at head.size_at
    ∙ gpt_array_lem disk disk_size table size pad entries h t array_read fits
