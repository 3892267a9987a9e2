-- ===== src/Virtio/Queue/UsedRing.antt =====
-- The used ring of src/virtio/queue.rs: what `add_used`, `publish_used` and `push` leave for the
-- driver to read.
use tinyvmm.Prelude.{
  ℕ, ◌+◌, ◌*◌, ◌%◌, ◌^◌, ◌≤◌, ◌<◌, ◌≡◌, ◌≢◌, ◌⊎◌, ◌∙◌, true, some, List, ◌++◌, u16, add16, arith,
  inl, inr, ap, to_le_bytes,
}
use tinyvmm.Memory.{GuestMemory, region_off, read_array, read_u16, store_u16, write_bytes}
use tinyvmm.Memory.Region.{IsValid, region_off_sub}
use tinyvmm.Memory.Access.{
  SameLayout, SameLayout-trans, write_bytes-SameLayout, region_off-write_bytes, write_bytes-IsValid,
  write_bytes_ok, read_array-write_bytes_self, read_array-write_bytes_other,
  read_u16-write_bytes_other, read_u16-store_u16,
}
use tinyvmm.Virtio.Queue.{Virtqueue, store_used_idx, store_used_ring}
use tinyvmm.Virtio.Queue.Pop.{add_used, push}

-- The element of the used ring for a chain: its head and the bytes written, 4 bytes each.
abbrev pub element : ℕ → ℕ → List ℕ
element id len = to_le_bytes 4 id ++ to_le_bytes 4 len

-- A live queue whose used ring (flags, index, `size` elements, `avail_event`) is mapped RAM.
pub record HasUsedRing (m : GuestMemory) (q : Virtqueue) : Type 0 where
  pub valid : IsValid m
  pub ready : q.ready ≡ true
  pub nonempty : q.size ≢ 0
  pub small : q.size < 2 ^ 16
  pub index : q.last_used_idx < 2 ^ 16
  pub no_wrap : q.used_gpa + (6 + 8 * q.size) < 2 ^ 64
  pub host : ℕ
  pub mapped : region_off m q.used_gpa (6 + 8 * q.size) ≡ some host

abbrev pub used_slot : Virtqueue → ℕ
used_slot q = q.last_used_idx % u16 q.size

abbrev pub element_gpa : Virtqueue → ℕ → ℕ
element_gpa q slot = q.used_gpa + 4 + 8 * slot

module _ (m : GuestMemory) (q : Virtqueue) (id len : ℕ) (u : HasUsedRing m q) where
  abbrev after_add : GuestMemory
  after_add = (write_bytes m (element_gpa q (used_slot q)) (element id len)).0

  add_used_lem :
      add_used m q id len ≡ some (after_add, record q { last_used_idx = add16 q.last_used_idx 1 })
  unfolding add_used store_used_ring
  add_used_lem = ground arith

  element_mapped :
      (slot : ℕ)
      → slot < q.size
      → region_off m (element_gpa q slot) 8 ≡ some (u.host + (4 + 8 * slot))
  element_mapped slot h =
      ap (λ a. region_off m a 8) (omega arith)
      ∙ region_off_sub m q.used_gpa (6 + 8 * q.size) (4 + 8 * slot) 8 u.valid u.mapped (omega arith)
          (omega arith)

  after_add-element : read_array after_add (element_gpa q (used_slot q)) 8 ≡ some (element id len)
  after_add-element = read_array-write_bytes_self m (element_gpa q (used_slot q)) (element id len) (
      write_bytes_ok m (element_gpa q (used_slot q)) (element id len)
        (element_mapped (used_slot q) (ground (arith, u.small, u.nonempty))))

  after_add-index : read_u16 after_add (q.used_gpa + 2) ≡ read_u16 m (q.used_gpa + 2)
  after_add-index =
      read_u16-write_bytes_other m (element_gpa q (used_slot q)) (element id len) (q.used_gpa + 2)
        u.valid (inr (omega arith))

  after_add-other :
      (slot : ℕ)
      → slot ≢ used_slot q
      → read_array after_add (element_gpa q slot) 8 ≡ read_array m (element_gpa q slot) 8
  after_add-other slot h =
      read_array-write_bytes_other m (element_gpa q (used_slot q)) (element id len)
        (element_gpa q slot) 8 u.valid (omega arith)

  index_mapped : region_off after_add (q.used_gpa + 2) 2 ≡ some (u.host + 2)
  index_mapped =
      region_off-write_bytes m (element_gpa q (used_slot q)) (element id len) (q.used_gpa + 2) 2
      ∙ region_off_sub m q.used_gpa (6 + 8 * q.size) 2 2 u.valid u.mapped (omega arith)
          (omega arith)

  abbrev after_push : GuestMemory
  after_push = (store_u16 after_add (q.used_gpa + 2) (add16 q.last_used_idx 1)).0

  after_push-element :
      (slot : ℕ)
      → read_array after_push (element_gpa q slot) 8 ≡ read_array after_add (element_gpa q slot) 8
  unfolding store_u16
  after_push-element slot =
      read_array-write_bytes_other after_add (q.used_gpa + 2)
        (to_le_bytes 2 (add16 q.last_used_idx 1)) (element_gpa q slot) 8
        (write_bytes-IsValid m (element_gpa q (used_slot q)) (element id len) u.valid)
        (inl (omega arith))

  after_push-index : read_u16 after_push (q.used_gpa + 2) ≡ some (add16 q.last_used_idx 1)
  after_push-index =
      read_u16-store_u16 after_add (q.used_gpa + 2) (add16 q.last_used_idx 1) (omega arith) (
        unfold store_u16 in
        write_bytes_ok after_add (q.used_gpa + 2) (to_le_bytes 2 (add16 q.last_used_idx 1))
          index_mapped)

  push_eq :
      push m q id len ≡ some (after_push, record q { last_used_idx = add16 q.last_used_idx 1 })
  unfolding push store_used_idx
  push_eq = rw (add_used_lem, push) (ground arith)

  -- `add_used` writes the element into the slot of the private index, which it moves on, and leaves
  -- the other slots and the index that the driver reads as they were.
  pub add_used_hidden :
      (m' : GuestMemory) × (add_used m q id len
        ≡ some (m', record q { last_used_idx = add16 q.last_used_idx 1 }))
      × (read_array m' (element_gpa q (used_slot q)) 8 ≡ some (element id len))
      × (read_u16 m' (q.used_gpa + 2) ≡ read_u16 m (q.used_gpa + 2))
      × ((slot : ℕ)
          → slot ≢ used_slot q
          → read_array m' (element_gpa q slot) 8 ≡ read_array m (element_gpa q slot) 8)
  add_used_hidden = (after_add, add_used_lem, after_add-element, after_add-index, after_add-other)

  -- `push` writes the same element and publishes it: the driver reads the new index, the element in
  -- its slot, and every other element unchanged.
  pub push_published :
      (m' : GuestMemory) × (push m q id len
        ≡ some (m', record q { last_used_idx = add16 q.last_used_idx 1 }))
      × (read_u16 m' (q.used_gpa + 2) ≡ some (add16 q.last_used_idx 1))
      × (read_array m' (element_gpa q (used_slot q)) 8 ≡ some (element id len))
      × ((slot : ℕ)
          → slot ≢ used_slot q
          → read_array m' (element_gpa q slot) 8 ≡ read_array m (element_gpa q slot) 8)
  push_published = (
    after_push,
    push_eq,
    after_push-index,
    after_push-element (used_slot q) ∙ after_add-element,
    λ slot h. after_push-element slot ∙ after_add-other slot h,
  )

  after_push-SameLayout : SameLayout m after_push
  unfolding store_u16
  after_push-SameLayout =
      SameLayout-trans (write_bytes-SameLayout m (element_gpa q (used_slot q)) (element id len)) (
        write_bytes-SameLayout after_add (q.used_gpa + 2) (to_le_bytes 2 (add16 q.last_used_idx 1)))

  after_push-outside :
      (a : ℕ)
      → (a + 2 ≤ q.used_gpa) ⊎ (q.used_gpa + (6 + 8 * q.size) ≤ a)
      → read_u16 after_push a ≡ read_u16 m a
  unfolding store_u16
  after_push-outside a d =
      read_u16-write_bytes_other after_add (q.used_gpa + 2)
        (to_le_bytes 2 (add16 q.last_used_idx 1)) a
        (write_bytes-IsValid m (element_gpa q (used_slot q)) (element id len) u.valid) (omega arith)
      ∙ read_u16-write_bytes_other m (element_gpa q (used_slot q)) (element id len) a u.valid
          (ground (arith, u.small, u.nonempty))

  -- `push` leaves the layout of RAM, a queue that can push again, and every word outside the used
  -- ring.
  pub push-outside :
      (m' : GuestMemory) (q' : Virtqueue) (a : ℕ)
      → push m q id len ≡ some (m', q')
      → (a + 2 ≤ q.used_gpa) ⊎ (q.used_gpa + (6 + 8 * q.size) ≤ a)
      → SameLayout m m'
        × (read_u16 m' a ≡ read_u16 m a)
        × (read_u16 m' (q.used_gpa + 2) ≡ some (add16 q.last_used_idx 1))
        × (q' ≡ record q { last_used_idx = add16 q.last_used_idx 1 })
  push-outside m' q' a e d =
      ground (arith, push_eq, after_push-SameLayout, after_push-outside a d, after_push-index)
