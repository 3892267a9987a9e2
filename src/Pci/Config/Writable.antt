-- ===== src/Pci/Config/Writable.antt =====
-- What the guest cannot change in the configuration space of src/pci/config.rs.
use tinyvmm.Prelude.{
  ℕ, zero, suc, ◌+◌, ◌-◌, ◌/◌, ◌%◌, ◌<◌, ◌≡◌, ◌⊎◌, inl, inr, List, [], ◌∷◌, get_or, set, arith,
  refl, ap, sym, ◌∙◌, bit, bit_and, bit_or, bit-bit_and, bit-bit_or, bit-lt, bit-complement,
}
use tinyvmm.Pci.Config.{ConfigSpace, write_byte, write_each, write}

-- An element after a write anywhere in the list.
get_or-set_cases :
    (xs : List ℕ) (k v o : ℕ)
    → (get_or (set xs k v) o 0 ≡ get_or xs o 0) ⊎ ((o ≡ k) × (get_or (set xs k v) o 0 ≡ v))
get_or-set_cases [] k v o = inl refl
get_or-set_cases (x ∷ xs) zero v zero = inr (refl, refl)
get_or-set_cases (x ∷ xs) zero v (suc o) = inl refl
get_or-set_cases (x ∷ xs) (suc k) v zero = inl refl
get_or-set_cases (x ∷ xs) (suc k) v (suc o) = elim (get_or-set_cases xs k v o) [
  | inl e ↦ inl e
  | inr (e, e') ↦ inr (ap suc e, e')
]

kept_bit :
    (old mask value i : ℕ)
    → mask < 256
    → i < 8
    → bit i mask ≡ 0
    → bit i (bit_or (bit_and old (255 - mask)) (bit_and value mask)) ≡ bit i old
kept_bit old mask value i m h z = ground (
  arith,
  bit-bit_or i (bit_and old (255 - mask)) (bit_and value mask),
  bit-bit_and i old (255 - mask),
  bit-bit_and i value mask,
  bit-complement 8 i mask m h,
  bit-lt i old,
)

module _ (o i : ℕ) (h : i < 8) where
  kept-write_byte :
      (c : ConfigSpace) (offset value : ℕ)
      → get_or c.writable_mask o 0 < 256
      → bit i (get_or c.writable_mask o 0) ≡ 0
      → bit i (get_or (write_byte c offset value).cfg o 0) ≡ bit i (get_or c.cfg o 0)
  unfolding write_byte
  kept-write_byte c offset value m z =
      let mask = get_or c.writable_mask offset 0 in
      let new_byte = bit_or (bit_and (get_or c.cfg offset 0) (255 - mask)) (bit_and value mask) in
      elim (get_or-set_cases c.cfg offset new_byte o) [
        | inl e ↦ ap (bit i) e
        | inr (e, e') ↦
            ap (bit i) e'
            ∙ kept_bit (get_or c.cfg offset 0) mask value i (rw (← e) m) h (rw (← e) z)
            ∙ ap (λ k. bit i (get_or c.cfg k 0)) (sym e)
      ]

  kept-write_each :
      (c : ConfigSpace) (offset size value : ℕ)
      → get_or c.writable_mask o 0 < 256
      → bit i (get_or c.writable_mask o 0) ≡ 0
      → bit i (get_or (write_each c offset size value).cfg o 0) ≡ bit i (get_or c.cfg o 0)
  unfolding write_each
  kept-write_each c offset zero value m z = refl
  kept-write_each c offset (suc size) value m z =
      kept-write_each (write_byte c offset (value % 256)) (offset + 1) size (value / 256)
        (unfold write_byte in m) (unfold write_byte in z)
      ∙ kept-write_byte c offset (value % 256) m z

  -- No write of the guest, wherever it starts, whatever its size and value, changes a bit that the
  -- device did not declare writable.
  pub bit-write :
      (c : ConfigSpace) (offset size value : ℕ)
      → get_or c.writable_mask o 0 < 256
      → bit i (get_or c.writable_mask o 0) ≡ 0
      → bit i (get_or (write c offset size value).0.cfg o 0) ≡ bit i (get_or c.cfg o 0)
  unfolding write
  bit-write c offset size value m z = ground (arith, kept-write_each c offset size value m z)
