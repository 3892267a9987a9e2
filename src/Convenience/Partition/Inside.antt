-- ===== src/Convenience/Partition/Inside.antt =====
-- A list of partitions that keeps within the disk and a count, and how the steps of
-- src/convenience/partition.rs keep it so.
use tinyvmm.Prelude.{
  ℕ, suc, Bool, ◌+◌, ◌-◌, ◌*◌, ◌%◌, ◌^◌, ◌≤◌, min, ◌≡◌, ◌||◌, true, false, Option, none, some, List,
  [], ◌∷◌, All, All-append, length, length-append, leb, if◌then◌else◌, arith, refl, inl, inr,
  Bool-cases,
}
use native.Mathlib.Nat.{mul-mod_left}
use tinyvmm.Convenience.Partition.{ReadAt, Partition, Result, ok, err, Error, sector, push, read}

-- The partition lies within the disk and starts at a sector.
pub record Inside (disk_size : ℕ) (p : Partition) : Type 0 where
  pub within : p.start + p.len ≤ disk_size
  pub aligned : p.start % sector ≡ 0

-- At most `n` partitions, each of them inside.
pub record Limited (disk_size n : ℕ) (parts : List Partition) : Type 0 where
  pub inside : All (Inside disk_size) parts
  pub few : length parts ≤ n

-- What a result that is no failure promises.
pub data Within (disk_size n : ℕ) : Result → Type 0 where
  listed : {parts : List Partition} → Limited disk_size n parts → Within disk_size n (ok parts)
  failed : {e : Error} → Within disk_size n (err e)

pub Limited-more :
    (disk_size n m : ℕ) (parts : List Partition)
    → n ≤ m
    → Limited disk_size n parts
    → Limited disk_size m parts
Limited-more disk_size n m parts h l = record { inside = l.inside; few = omega (arith, l.few) }

pub Within-more :
    (disk_size n m : ℕ) (r : Result) → n ≤ m → Within disk_size n r → Within disk_size m r
Within-more disk_size n m (ok parts) h (listed l) = listed (Limited-more disk_size n m parts h l)
Within-more disk_size n m (err e) h failed = failed

-- What `push` adds, where it adds anything.
abbrev pub pushed : ℕ → ℕ → ℕ → ℕ → Partition
pushed disk_size number first sectors = record {
  number = number;
  start = first * sector;
  len = min (min (sectors * sector) (2 ^ 64 - 1)) (disk_size - first * sector);
}

pub push-Limited :
    (disk_size n : ℕ) (parts : List Partition) (number first sectors : ℕ)
    → Limited disk_size n parts
    → Limited disk_size (suc n) (push parts disk_size number first sectors)
unfolding push
push-Limited disk_size n parts number first sectors l =
    let added = pushed disk_size number first sectors ∷ [] in
    elim (Bool-cases (leb (2 ^ 64) (first * sector) || leb disk_size (first * sector))) [
      | inl e ↦ rw e (Limited-more disk_size n (suc n) parts (omega arith) l)
      | inr e ↦ rw e record {
        inside =
            All-append (Inside disk_size) parts added l.inside
              (record { within = ground (arith, e); aligned = mul-mod_left first sector }, tt);
        few = omega (arith, l.few, length-append parts added);
      }
    ]

-- The three ways in which the code goes on.
pub read-Within :
    (disk : ReadAt) (disk_size n at len : ℕ) (next : List ℕ → Result)
    → ((bytes : List ℕ) → Within disk_size n (next bytes))
    → Within disk_size n (read disk at len next)
read-Within disk disk_size n at len next h = after (disk.read_exact_at at len)
  where
    after :
        (o : Option (List ℕ))
        → Within disk_size n (elim o [ none ↦ err (Error.read_at at) | some bytes ↦ next bytes ])
    after none = failed
    after (some bytes) = h bytes

pub if-Within :
    (disk_size n : ℕ) (b : Bool) (x y : Result)
    → Within disk_size n x
    → Within disk_size n y
    → Within disk_size n (if b then x else y)
if-Within disk_size n true x y hx hy = hx
if-Within disk_size n false x y hx hy = hy

pub guard-Within :
    (disk_size n : ℕ) (b : Bool) (e : Error) (y : Result)
    → (b ≡ false → Within disk_size n y)
    → Within disk_size n (if b then err e else y)
guard-Within disk_size n true e y h = failed
guard-Within disk_size n false e y h = h refl

pub if-Limited :
    (disk_size n : ℕ) (b : Bool) (x y : List Partition)
    → Limited disk_size n x
    → Limited disk_size n y
    → Limited disk_size n (if b then x else y)
if-Limited disk_size n true x y hx hy = hx
if-Limited disk_size n false x y hx hy = hy
