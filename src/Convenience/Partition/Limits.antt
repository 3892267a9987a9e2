-- ===== src/Convenience/Partition/Limits.antt =====
-- Where the partitions of src/convenience/partition.rs lie, and how many there are, whatever the image holds.
use tinyvmm.Prelude.{
  ℕ, zero, suc, Bool, ◌+◌, ◌-◌, ◌*◌, ◌%◌, ◌^◌, ◌≤◌, ◌≡◌, ◌||◌, ◌&&◌, not, false, List, [], ◌∷◌,
  length, leb, ltb, ◌==◌, if◌then◌else◌, u64, take, drop, arith, refl,
}
use native.Mathlib.Nat.{le_refl}
use tinyvmm.Convenience.Partition.{
  ReadAt, Partition, MbrEntry, Result, ok, err, Error, sector, mbr_entry, push, push_logical, read,
  all_zero, le_at, max_gpt_entries, max_gpt_entry_size, whole_sectors, max_logical, first_logical,
  logical_from, logical, push_entry, gpt_entries, gpt, gpt_array, mbr_slots, or_whole, partitions,
}
use tinyvmm.Convenience.Partition.Inside.{
  Limited, Within, listed, failed, Limited-more, Within-more, push-Limited, read-Within, if-Within,
  guard-Within, if-Limited,
}

push_logical-Limited :
    (disk_size n : ℕ) (parts : List Partition) (number ebr : ℕ) (part : MbrEntry)
    → Limited disk_size n parts
    → Limited disk_size (suc n) (push_logical parts disk_size number ebr part)
unfolding push_logical
push_logical-Limited disk_size n parts number ebr part l =
    if-Limited disk_size (suc n) _ _ _
      (push-Limited disk_size n parts number (u64 (ebr + part.start)) part.sectors l)
      (Limited-more disk_size n (suc n) parts (omega arith) l)

logical_from-Within :
    (disk : ReadAt) (disk_size first left number ebr n : ℕ) (parts : List Partition)
    → Limited disk_size n parts
    → Within disk_size (n + left) (logical_from disk disk_size first left number ebr parts)
unfolding logical_from
logical_from-Within disk disk_size first zero number ebr n parts l =
    listed (Limited-more disk_size n (n + 0) parts (omega arith) l)
logical_from-Within disk disk_size first (suc left) number ebr n parts l =
    let stay = listed (Limited-more disk_size n (n + suc left) parts (omega arith) l) in
    if-Within disk_size (n + suc left) _ _ _ stay (
      read-Within disk disk_size (n + suc left) (ebr * sector) sector _ λ bytes.
        let parts' = push_logical parts disk_size number ebr (mbr_entry bytes 0) in
        let more = push_logical-Limited disk_size n parts number ebr (mbr_entry bytes 0) l in
        let stop =
          listed (Limited-more disk_size (suc n) (n + suc left) parts' (omega arith) more) in
        let rest =
          logical_from-Within disk disk_size first left (number + 1)
            (u64 (first + (mbr_entry bytes 1).start)) (suc n) parts' more in
        if-Within disk_size (n + suc left) _ _ _ stay (
          if-Within disk_size (n + suc left) _ _ _ stop
            (Within-more disk_size (suc n + left) (n + suc left) _ (omega arith) rest)))

push_entry-Limited :
    (disk_size n : ℕ) (parts : List Partition) (number : ℕ) (e : List ℕ)
    → Limited disk_size n parts
    → Limited disk_size (suc n) (push_entry parts disk_size number e)
unfolding push_entry
push_entry-Limited disk_size n parts number e l =
    let first = le_at 8 32 e in
    let sectors = u64 (le_at 8 40 e - first + 1) in
    let stay = Limited-more disk_size n (suc n) parts (omega arith) l in
    let more = push-Limited disk_size n parts number first sectors l in
    if-Limited disk_size (suc n) (all_zero (take 16 e)) parts
      (if leb first (le_at 8 40 e) then push parts disk_size number first sectors else parts) stay
      (if-Limited disk_size (suc n) (leb first (le_at 8 40 e)) _ _ more stay)

gpt_entries-Limited :
    (disk_size size left number n : ℕ) (bytes : List ℕ) (parts : List Partition)
    → Limited disk_size n parts
    → Limited disk_size (n + left) (gpt_entries disk_size size left number bytes parts)
unfolding gpt_entries
gpt_entries-Limited disk_size size zero number n bytes parts l =
    Limited-more disk_size n (n + 0) parts (omega arith) l
gpt_entries-Limited disk_size size (suc left) number n bytes parts l =
    let more = push_entry-Limited disk_size n parts number (take size bytes) l in
    let rest =
      gpt_entries-Limited disk_size size left (number + 1) (suc n) (drop size bytes)
        (push_entry parts disk_size number (take size bytes)) more in
    if-Limited disk_size (n + suc left) (ltb (length bytes) size) parts
      (gpt_entries disk_size size left (number + 1) (drop size bytes)
        (push_entry parts disk_size number (take size bytes)))
      (Limited-more disk_size n (n + suc left) parts (omega arith) l)
      (Limited-more disk_size (suc n + left) (n + suc left) _ (omega arith) rest)

nothing-Limited : (disk_size : ℕ) → Limited disk_size 0 []
nothing-Limited disk_size = record { inside = tt; few = omega arith }

few_entries :
    (count : ℕ) (b c : Bool)
    → (ltb max_gpt_entries count || b || c) ≡ false
    → 0 + count ≤ max_gpt_entries
few_entries count b c h = ground (arith, h)

gpt_array-Within :
    (disk : ReadAt) (disk_size table count size : ℕ)
    → Within disk_size max_gpt_entries (gpt_array disk disk_size table count size)
unfolding gpt_array
gpt_array-Within disk disk_size table count size =
    let len = whole_sectors (count * size) in
    let at = table * sector in
    let bad =
      ltb max_gpt_entries count
      || not (leb 128 size && leb size max_gpt_entry_size)
      || not (size % 8 == 0) in
    let listing = read disk at len λ entries. ok (gpt_entries disk_size size count 1 entries []) in
    let past = leb (2 ^ 64) at || leb (2 ^ 64) (at + len) || ltb disk_size (at + len) in
    guard-Within disk_size max_gpt_entries bad Error.bad_entry_array
      (if past then err Error.entries_past_end else listing)
      λ small.
        if-Within disk_size max_gpt_entries past (err Error.entries_past_end) listing failed (
          read-Within disk disk_size max_gpt_entries at len _ λ entries. listed (
            Limited-more disk_size (0 + count) max_gpt_entries
              (gpt_entries disk_size size count 1 entries []) (few_entries count _ _ small)
              (gpt_entries-Limited disk_size size count 1 0 entries []
                (nothing-Limited disk_size))))

gpt-Within : (disk : ReadAt) (disk_size : ℕ) → Within disk_size max_gpt_entries (gpt disk disk_size)
unfolding gpt
gpt-Within disk disk_size = read-Within disk disk_size max_gpt_entries sector sector _ λ header.
    if-Within disk_size max_gpt_entries _ _ _ failed
      (gpt_array-Within disk disk_size (le_at 8 72 header) (le_at 4 80 header) (le_at 4 84 header))

-- A slot of the first sector adds at most a chain.
mbr_slots-Within :
    (disk : ReadAt) (disk_size slot n : ℕ) (entries : List MbrEntry) (parts : List Partition)
    → Limited disk_size n parts
    → Within disk_size
        (n + max_logical * length entries)
        (mbr_slots disk disk_size slot entries parts)
unfolding mbr_slots logical
mbr_slots-Within disk disk_size slot n [] parts l =
    listed (Limited-more disk_size n (n + max_logical * 0) parts (omega arith) l)
mbr_slots-Within disk disk_size slot n (e ∷ entries) parts l =
    let most = n + max_logical * suc (length entries) in
    let next : (m : ℕ) (parts' : List Partition)
        → m ≤ n + max_logical
        → Limited disk_size m parts'
        → Within disk_size most (mbr_slots disk disk_size (slot + 1) entries parts') =
      λ m parts' h l'.
        Within-more disk_size (m + max_logical * length entries) most _ (omega arith)
          (mbr_slots-Within disk disk_size (slot + 1) m entries parts' l') in
    let chain : (r : Result)
        → Within disk_size (n + max_logical) r
        → Within disk_size most (elim r [
          | err x ↦ err x
          | ok parts' ↦ mbr_slots disk disk_size (slot + 1) entries parts'
        ]) =
      λ r w. after next r w in
    if-Within disk_size most _ _ _ (next n parts (omega arith) l) (
      if-Within disk_size most _ _ _
        (chain (logical disk disk_size e.start parts)
          (logical_from-Within disk disk_size e.start max_logical first_logical e.start n parts l))
        (next (suc n) (push parts disk_size slot e.start e.sectors) (omega arith)
          (push-Limited disk_size n parts slot e.start e.sectors l)))
  where
    after :
        {most : ℕ}
        → ((m : ℕ) (parts' : List Partition)
            → m ≤ n + max_logical
            → Limited disk_size m parts'
            → Within disk_size most (mbr_slots disk disk_size (slot + 1) entries parts'))
        → (r : Result) → Within disk_size (n + max_logical) r
        → Within disk_size most (elim r [
          | err x ↦ err x
          | ok parts' ↦ mbr_slots disk disk_size (slot + 1) entries parts'
        ])
    after next (ok parts') (listed l') = next (n + max_logical) parts' (le_refl _) l'
    after next (err x) failed = failed

or_whole-Limited :
    (disk_size n : ℕ) (parts : List Partition)
    → 1 ≤ n
    → Limited disk_size n parts
    → Limited disk_size n (or_whole disk_size parts)
or_whole-Limited disk_size n [] h l = record {
  inside = (record { within = omega arith; aligned = refl }, tt);
  few = omega (arith, h);
}
or_whole-Limited disk_size n (p ∷ parts) h l = l

or_whole-Within :
    (disk_size n : ℕ) (r : Result)
    → 1 ≤ n
    → Within disk_size n r
    → Within disk_size n (elim r [ err x ↦ err x | ok parts ↦ ok (or_whole disk_size parts) ])
or_whole-Within disk_size n (ok parts) h (listed l) =
    listed (or_whole-Limited disk_size n parts h l)
or_whole-Within disk_size n (err x) h failed = failed

-- Whatever the image holds, and whichever reads fail, the partitions that are listed lie within the disk
-- and start at a sector, and there are at most 4096 of them.
pub partitions-Within :
    (disk : ReadAt) (disk_size : ℕ) → Within disk_size max_gpt_entries (partitions disk disk_size)
unfolding partitions
partitions-Within disk disk_size = read-Within disk disk_size max_gpt_entries 0 sector _ λ mbr.
    let entries = mbr_entry mbr 0 ∷ mbr_entry mbr 1 ∷ mbr_entry mbr 2 ∷ mbr_entry mbr 3 ∷ [] in
    let none_yet = nothing-Limited disk_size in
    if-Within disk_size max_gpt_entries _ _ _
      (listed (
        or_whole-Limited disk_size max_gpt_entries [] (omega arith)
          (Limited-more disk_size 0 max_gpt_entries [] (omega arith) none_yet)))
      (if-Within disk_size max_gpt_entries _ _ _ (gpt-Within disk disk_size) (
        or_whole-Within disk_size max_gpt_entries (mbr_slots disk disk_size 1 entries [])
          (omega arith)
          (Within-more disk_size (0 + max_logical * 4) max_gpt_entries _ (omega arith)
            (mbr_slots-Within disk disk_size 1 0 entries [] none_yet))))
