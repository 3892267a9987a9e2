-- ===== src/Memory/Access.antt =====
-- The accessors of crates/whpsys/src/memory.rs over one another: what a write leaves to be read.
use tinyvmm.Prelude.{
  ℕ, zero, suc, ◌+◌, ◌^◌, ◌≤◌, ◌<◌, ◌≡◌, ◌⊎◌, inl, inr, none, some, true, false, List, [], ◌∷◌,
  arith, refl, ap, ap₂, sym, ◌∙◌, length, get_or, Option-cases, to_le_bytes,
  from_le_bytes-to_le_bytes,
}
use tinyvmm.Memory.{
  GuestMemory, region_off, read_host, write_host, read_array, write_bytes, read_u16, store_u16,
}
use tinyvmm.Memory.Region.{IsValid, region_off-base, region_off_disjoint}

pub read_host_ext :
    (f g : ℕ → ℕ) (p n : ℕ)
    → ((i : ℕ) → p ≤ i → i < p + n → f i ≡ g i)
    → read_host f p n ≡ read_host g p n
read_host_ext f g p zero h = refl
read_host_ext f g p (suc n) h =
    ap₂ ◌∷◌ (h p (omega arith) (omega arith))
      (read_host_ext f g (p + 1) n (λ i a b. h i (omega arith) (omega arith)))

read_host_of :
    (f : ℕ → ℕ) (p : ℕ) (xs : List ℕ)
    → ((i : ℕ) → i < length xs → f (p + i) ≡ get_or xs i 0)
    → read_host f p (length xs) ≡ xs
read_host_of f p [] h = refl
read_host_of f p (x ∷ xs) h =
    ap₂ ◌∷◌ (ground (arith, h 0)) (read_host_of f (p + 1) xs (λ i a. ground (arith, h (suc i))))

pub read_host-write_host_self :
    (b : ℕ → ℕ) (p : ℕ) (xs : List ℕ) → read_host (write_host b p xs) p (length xs) ≡ xs
read_host-write_host_self b p xs = read_host_of (write_host b p xs) p xs (λ i h. ground arith)

pub read_host-write_host_other :
    (b : ℕ → ℕ) (p : ℕ) (xs : List ℕ) (q n : ℕ)
    → (p + length xs ≤ q) ⊎ (q + n ≤ p)
    → read_host (write_host b p xs) q n ≡ read_host b q n
read_host-write_host_other b p xs q n d =
    read_host_ext (write_host b p xs) b q n (λ i h k. ground arith)

-- The accessors once the range is known to be mapped, or not.
pub write_bytes-some :
    (m : GuestMemory) (a : ℕ) (xs : List ℕ) {p : ℕ}
    → region_off m a (length xs) ≡ some p
    → write_bytes m a xs ≡ (record m { base = write_host m.base p xs }, true)
unfolding write_bytes
write_bytes-some m a xs e = rw (e, write_bytes)

write_bytes-none :
    (m : GuestMemory) (a : ℕ) (xs : List ℕ)
    → region_off m a (length xs) ≡ none
    → write_bytes m a xs ≡ (m, false)
unfolding write_bytes
write_bytes-none m a xs e = rw (e, write_bytes)

pub read_array-some :
    (m : GuestMemory) (a n : ℕ) {p : ℕ}
    → region_off m a n ≡ some p
    → read_array m a n ≡ some (read_host m.base p n)
unfolding read_array
read_array-some m a n e = rw (e, read_array)

pub read_array-none :
    (m : GuestMemory) (a n : ℕ) → region_off m a n ≡ none → read_array m a n ≡ none
unfolding read_array
read_array-none m a n e = rw (e, read_array)

-- A write changes no mapping.
pub region_off-write_bytes :
    (m : GuestMemory) (a : ℕ) (xs : List ℕ) (b n : ℕ)
    → region_off (write_bytes m a xs).0 b n ≡ region_off m b n
region_off-write_bytes m a xs b n = elim (Option-cases (region_off m a (length xs))) [
  | inl e ↦ rw (write_bytes-none m a xs e) refl
  | inr (p, e) ↦ rw (write_bytes-some m a xs e) (region_off-base m (write_host m.base p xs) b n)
]

pub write_bytes-IsValid :
    (m : GuestMemory) (a : ℕ) (xs : List ℕ) → IsValid m → IsValid (write_bytes m a xs).0
write_bytes-IsValid m a xs v = elim (Option-cases (region_off m a (length xs))) [
  | inl e ↦ rw (write_bytes-none m a xs e) v
  | inr (p, e) ↦ rw (write_bytes-some m a xs e) v
]

-- A write that succeeds is what a read of the same range returns.
pub read_array-write_bytes_self :
    (m : GuestMemory) (a : ℕ) (xs : List ℕ)
    → (write_bytes m a xs).1 ≡ true
    → read_array (write_bytes m a xs).0 a (length xs) ≡ some xs
read_array-write_bytes_self m a xs h = elim (Option-cases (region_off m a (length xs))) [
  | inl e ↦ cc (h, write_bytes-none m a xs e)
  | inr (p, e) ↦
      let b : ℕ → ℕ = write_host m.base p xs in
      rw (write_bytes-some m a xs e) (
        read_array-some (record m { base = b }) a (length xs)
          (region_off-base m b a (length xs) ∙ e)
        ∙ ap some (read_host-write_host_self m.base p xs))
]

-- A write leaves every disjoint range of guest RAM as it was.
pub read_array-write_bytes_other :
    (m : GuestMemory) (a : ℕ) (xs : List ℕ) (b n : ℕ)
    → IsValid m
    → (a + length xs ≤ b) ⊎ (b + n ≤ a)
    → read_array (write_bytes m a xs).0 b n ≡ read_array m b n
read_array-write_bytes_other m a xs b n v d = elim (Option-cases (region_off m a (length xs))) [
  | inl e ↦ rw (write_bytes-none m a xs e) refl
  | inr (p, e) ↦ rw (write_bytes-some m a xs e) (read_after p e)
]
  where
    read_after :
        (p : ℕ)
        → region_off m a (length xs) ≡ some p
        → read_array (record m { base = write_host m.base p xs }) b n ≡ read_array m b n
    read_after p e =
        let f : ℕ → ℕ = write_host m.base p xs in
        elim (Option-cases (region_off m b n)) [
          | inl e' ↦
              read_array-none (record m { base = f }) b n (region_off-base m f b n ∙ e')
              ∙ sym (read_array-none m b n e')
          | inr (q, e') ↦
              read_array-some (record m { base = f }) b n (region_off-base m f b n ∙ e')
              ∙ ap some (
                  read_host-write_host_other m.base p xs q n
                    (region_off_disjoint m a (length xs) b n v e e' d))
              ∙ sym (read_array-some m b n e')
        ]

-- A word stored is the word loaded.
pub read_u16-store_u16 :
    (m : GuestMemory) (a v : ℕ)
    → v < 2 ^ 16
    → (store_u16 m a v).1 ≡ true
    → read_u16 (store_u16 m a v).0 a ≡ some v
unfolding read_u16 store_u16
read_u16-store_u16 m a v h w =
    rw (read_array-write_bytes_self m a (to_le_bytes 2 v) w, read_u16)
      (ap some (from_le_bytes-to_le_bytes 2 v h))

-- A write changes bytes only: the layout of RAM stays.
pub record SameLayout (m n : GuestMemory) : Type 0 where
  pub gpa : n.gpa ≡ m.gpa
  pub size : n.size ≡ m.size
  pub split : n.split ≡ m.split

pub write_bytes-SameLayout :
    (m : GuestMemory) (a : ℕ) (xs : List ℕ) → SameLayout m (write_bytes m a xs).0
write_bytes-SameLayout m a xs = elim (Option-cases (region_off m a (length xs))) [
  | inl e ↦ rw (write_bytes-none m a xs e) (record { gpa = refl; size = refl; split = refl })
  | inr (p, e) ↦ rw (write_bytes-some m a xs e) (record { gpa = refl; size = refl; split = refl })
]

pub SameLayout-IsValid : {m n : GuestMemory} → SameLayout m n → IsValid m → IsValid n
SameLayout-IsValid l v = rw (l.gpa, l.size, l.split) v

pub write_bytes_ok :
    (m : GuestMemory) (a : ℕ) (xs : List ℕ) {p : ℕ}
    → region_off m a (length xs) ≡ some p
    → (write_bytes m a xs).1 ≡ true
write_bytes_ok m a xs e = rw (write_bytes-some m a xs e) refl

-- A word outside the range of a write keeps its value.
pub read_u16-write_bytes_other :
    (m : GuestMemory) (a : ℕ) (xs : List ℕ) (b : ℕ)
    → IsValid m
    → (a + length xs ≤ b) ⊎ (b + 2 ≤ a)
    → read_u16 (write_bytes m a xs).0 b ≡ read_u16 m b
unfolding read_u16
read_u16-write_bytes_other m a xs b v d = rw (read_array-write_bytes_other m a xs b 2 v d, read_u16)

pub region_off-SameLayout :
    {m n : GuestMemory} (a len : ℕ) → SameLayout m n → region_off n a len ≡ region_off m a len
unfolding region_off
region_off-SameLayout a len l = rw (l.gpa, l.size, l.split) refl

pub SameLayout-trans : {m n o : GuestMemory} → SameLayout m n → SameLayout n o → SameLayout m o
SameLayout-trans k l = record {
  gpa = l.gpa ∙ k.gpa;
  size = l.size ∙ k.size;
  split = l.split ∙ k.split;
}
