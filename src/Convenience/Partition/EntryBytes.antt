-- ===== src/Convenience/Partition/EntryBytes.antt =====
-- One entry of a GPT, as its writer lays it out, read back by src/convenience/partition.rs.
use tinyvmm.Prelude.{
  ℕ, suc, ◌+◌, ◌-◌, ◌*◌, ◌^◌, ◌≤◌, ◌<◌, min, ◌≡◌, ◌||◌, true, false, List, [], ◌∷◌, ◌++◌, length,
  length-append, leb, if◌then◌else◌, u64, take, drop, replicate, arith, refl, ap, ap₂, sym, ◌∙◌,
  to_le_bytes, from_le_bytes, from_le_bytes-to_le_bytes, ◌≢◌, inl, inr, Bool-cases,
}
use mathlib.Core.List.{append-nil}
use tinyvmm.Convenience.Partition.{Partition, all_zero, sector, push, push_entry, le_at}

-- The type and the GUID of a partition.
pub record Guids : Type 0 where
  pub type_guid : List ℕ
  pub unique_guid : List ℕ

-- An entry: its GUIDs, its first and last sector, and the bytes after them (the attributes and the name).
pub data Entry : Type 0 where
  unused : List ℕ → Entry
  used : Guids → ℕ → ℕ → List ℕ → Entry

abbrev pub bytes_of : Entry → List ℕ
bytes_of (unused tail) = replicate 16 0 ++ tail
bytes_of (used guids first last tail) =
    guids.type_guid ++ (guids.unique_guid ++ (to_le_bytes 8 first ++ (to_le_bytes 8 last ++ tail)))

abbrev pub array : List Entry → List ℕ
array [] = []
array (e ∷ entries) = bytes_of e ++ array entries

-- Two GUIDs, of which the type is not all zeros.
pub record Named (guids : Guids) : Type 0 where
  pub type_length : length guids.type_guid ≡ 16
  pub unique_length : length guids.unique_guid ≡ 16
  pub nonzero : guids.type_guid ≢ replicate 16 0

-- An entry of `size` bytes, whose sectors the disk has.
abbrev pub Fits : ℕ → ℕ → Entry → Type 0
Fits disk_size size (unused tail) = 16 + length tail ≡ size
Fits disk_size size (used guids first last tail) =
    (first ≤ last) × ((last + 1) * sector ≤ disk_size) × (48 + length tail ≡ size) × Named guids

-- The partitions that the array stands for, numbered by their places.
abbrev pub listed : ℕ → List Entry → List Partition
listed number [] = []
listed number (unused tail ∷ entries) = listed (number + 1) entries
listed number (used guids first last tail ∷ entries) =
    record { number = number; start = first * sector; len = (last - first + 1) * sector }
    ∷ listed (number + 1) entries

pub take-append : (xs ys : List ℕ) → take (length xs) (xs ++ ys) ≡ xs
take-append [] ys = refl
take-append (x ∷ xs) ys = ap (λ r. x ∷ r) (take-append xs ys)

pub drop-append : (xs ys : List ℕ) → drop (length xs) (xs ++ ys) ≡ ys
drop-append [] ys = refl
drop-append (x ∷ xs) ys = drop-append xs ys

pub length-bytes_of :
    (disk_size size : ℕ) (e : Entry) → Fits disk_size size e → length (bytes_of e) ≡ size
length-bytes_of disk_size size (unused tail) f = omega (arith, f)
length-bytes_of disk_size size (used guids first last tail) (le, fits, sized, named) =
    let after : List ℕ = to_le_bytes 8 first ++ (to_le_bytes 8 last ++ tail) in
    omega (
      arith,
      sized,
      named.type_length,
      named.unique_length,
      length-append guids.type_guid (guids.unique_guid ++ after),
      length-append guids.unique_guid after,
    )

drop-past : (xs ys : List ℕ) (n k : ℕ) → n ≡ length xs + k → drop n (xs ++ ys) ≡ drop k ys
drop-past [] ys n k e = let same : n ≡ k = omega (arith, e) in ap (λ i. drop i ys) same
drop-past (x ∷ xs) ys n k e =
    let more : n ≡ suc (length xs + k) = omega (arith, e) in
    ap (λ i. drop i (x ∷ (xs ++ ys))) more ∙ drop-past xs ys (length xs + k) k refl

-- Where the GUIDs end.
drop-guids :
    (guids : Guids) (after : List ℕ) (k : ℕ)
    → Named guids
    → drop (32 + k) (guids.type_guid ++ (guids.unique_guid ++ after)) ≡ drop k after
drop-guids guids after k n =
    drop-past guids.type_guid (guids.unique_guid ++ after) (32 + k) (16 + k)
      (omega (arith, n.type_length))
    ∙ drop-past guids.unique_guid after (16 + k) k (omega (arith, n.unique_length))

all_zero_lem : (xs : List ℕ) → all_zero xs ≡ true → xs ≡ replicate (length xs) 0
all_zero_lem [] e = refl
all_zero_lem (x ∷ xs) e =
    let first : x ≡ 0 = ground (arith, e) in
    let others : all_zero xs ≡ true = ground (arith, e) in
    ap₂ (λ a l. a ∷ l) first (all_zero_lem xs others)

all_zero-Named : (guids : Guids) → Named guids → all_zero guids.type_guid ≡ false
all_zero-Named guids n = elim (Bool-cases (all_zero guids.type_guid)) [
  | inr e ↦ e
  | inl e ↦
      absurd (n.nonzero (all_zero_lem guids.type_guid e ∙ ap (λ k. replicate k 0) n.type_length))
]

push_lem :
    (parts : List Partition) (disk_size number first last : ℕ)
    → disk_size < 2 ^ 64
    → first ≤ last
    → (last + 1) * sector ≤ disk_size
    → push parts disk_size number first (last - first + 1)
      ≡ parts
        ++ (record { number = number; start = first * sector; len = (last - first + 1) * sector }
            ∷ [])
unfolding push
push_lem parts disk_size number first last h l m =
    let inside : (leb (2 ^ 64) (first * sector) || leb disk_size (first * sector)) ≡ false =
      ground arith in
    let len : min (min ((last - first + 1) * sector) (2 ^ 64 - 1)) (disk_size - first * sector)
        ≡ (last - first + 1) * sector =
      omega arith in
    simp (inside, len) refl

pub push_entry_lem :
    (parts : List Partition) (disk_size size number : ℕ) (e : Entry)
    → disk_size < 2 ^ 64
    → Fits disk_size size e
    → push_entry parts disk_size number (bytes_of e) ≡ parts ++ listed number (e ∷ [])
unfolding push_entry
push_entry_lem parts disk_size size number (unused tail) h f = sym (append-nil parts)
push_entry_lem parts disk_size size number (used guids first last tail) h (le, fits, sized, named) =
    let after : List ℕ = to_le_bytes 8 first ++ (to_le_bytes 8 last ++ tail) in
    let e : List ℕ = guids.type_guid ++ (guids.unique_guid ++ after) in
    let type_bytes : take 16 e ≡ guids.type_guid =
      ap (λ n. take n e) (sym named.type_length)
      ∙ take-append guids.type_guid (guids.unique_guid ++ after) in
    let in_use : all_zero (take 16 e) ≡ false =
      ap all_zero type_bytes ∙ all_zero-Named guids named in
    let from_first : drop 32 e ≡ after = drop-guids guids after 0 named in
    let from_last : drop 40 e ≡ drop 8 after = drop-guids guids after 8 named in
    let small : first < 256 ^ 8 = omega arith in
    let small' : last < 256 ^ 8 = omega arith in
    let ordered : leb first last ≡ true = ground arith in
    let word : u64 (last - first + 1) ≡ last - first + 1 = omega arith in
    let entered : ℕ → ℕ → List Partition =
      λ a b. if leb a b then push parts disk_size number a (u64 (b - a + 1)) else parts in
    ap (λ z. if z then parts else entered (le_at 8 32 e) (le_at 8 40 e)) in_use
    ∙ ap₂ (λ a b. entered (from_le_bytes (take 8 a)) (from_le_bytes (take 8 b))) from_first
        from_last
    ∙ ap₂ entered (from_le_bytes-to_le_bytes 8 first small)
        (from_le_bytes-to_le_bytes 8 last small')
    ∙ simp (ordered, word) (push_lem parts disk_size number first last h le fits)
