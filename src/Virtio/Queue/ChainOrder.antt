-- ===== src/Virtio/Queue/ChainOrder.antt =====
-- What the chain loops of src/virtio/queue.rs gather from a well-formed chain: its buffers, in order.
use mathlib.Core.List.{append_assoc}
use tinyvmm.Prelude.{
  ℕ, zero, suc, ◌+◌, ◌*◌, ◌/◌, ◌≤◌, ◌<◌, ◌≡◌, ◌∙◌, refl, true, false, ◌&&◌, Option, none, some,
  List, [], ◌∷◌, ◌++◌, length, length-append, ltb, lt→ltb, u16, u64, arith,
}
use tinyvmm.Memory.{GuestMemory, region_off, read_array}
use tinyvmm.Virtio.Queue.Chain.{
  ChainBuf, Desc, read_desc, has_flag, buf_of, push_buf, indirect, descriptor, walk,
  vring_desc_f_next, vring_desc_f_indirect,
}

-- Entry `i` of the descriptor table at `base`.
abbrev pub fetch : GuestMemory → ℕ → ℕ → Option Desc
fetch m base i = elim (read_array m (u64 (base + i * 16)) 16) [
  | none ↦ none
  | some b ↦ some (read_desc b)
]

-- Buffers linked from entry `i` of an indirect table of `count` entries; the last has no NEXT.
pub data Table (m : GuestMemory) (base count : ℕ) : ℕ → List ChainBuf → Type 0 where
  stop :
      {i : ℕ} (d : Desc) (p : ℕ)
      → fetch m base i ≡ some d
      → region_off m d.addr d.len ≡ some p
      → has_flag d vring_desc_f_next ≡ false
      → Table m base count i (buf_of d p ∷ [])
  link :
      {i : ℕ} {bufs : List ChainBuf} (d : Desc) (p : ℕ)
      → fetch m base i ≡ some d
      → region_off m d.addr d.len ≡ some p
      → has_flag d vring_desc_f_next ≡ true
      → d.next < u16 count
      → Table m base count d.next bufs
      → Table m base count i (buf_of d p ∷ bufs)

-- A chain of the main table, from descriptor `i`: direct buffers, or a table at its end.
pub data Chain (m : GuestMemory) (base size : ℕ) : ℕ → List ChainBuf → Type 0 where
  stop :
      {i : ℕ} (d : Desc) (p : ℕ)
      → fetch m base i ≡ some d
      → has_flag d vring_desc_f_indirect ≡ false
      → region_off m d.addr d.len ≡ some p
      → has_flag d vring_desc_f_next ≡ false
      → Chain m base size i (buf_of d p ∷ [])
  link :
      {i : ℕ} {bufs : List ChainBuf} (d : Desc) (p : ℕ)
      → fetch m base i ≡ some d
      → has_flag d vring_desc_f_indirect ≡ false
      → region_off m d.addr d.len ≡ some p
      → has_flag d vring_desc_f_next ≡ true
      → d.next < u16 size
      → Chain m base size d.next bufs
      → Chain m base size i (buf_of d p ∷ bufs)
  table :
      {i : ℕ} {bufs : List ChainBuf} (d : Desc) (p : ℕ)
      → fetch m base i ≡ some d
      → has_flag d vring_desc_f_indirect ≡ true
      → region_off m d.addr d.len ≡ some p
      → has_flag d vring_desc_f_next ≡ false
      → length bufs ≤ d.len / 16
      → Table m d.addr (d.len / 16) 0 bufs
      → Chain m base size i bufs

module _ (m : GuestMemory) (size : ℕ) where
  push_buf-some :
      (d : Desc) (p : ℕ) (bufs : List ChainBuf)
      → region_off m d.addr d.len ≡ some p
      → push_buf m d bufs ≡ bufs ++ (buf_of d p ∷ [])
  unfolding push_buf
  push_buf-some d p bufs e = rw (e, push_buf)

  -- One round of the inner loop, and of the outer one, at a buffer.
  indirect_round :
      (addr count fuel step i : ℕ) (d : Desc) (p : ℕ) (bufs : List ChainBuf)
      → fetch m addr i ≡ some d
      → region_off m d.addr d.len ≡ some p
      → step < count
      → step < size
      → length bufs < size
      → indirect m size addr count (suc fuel) step i bufs
        ≡ elim (has_flag d vring_desc_f_next && ltb d.next (u16 count)) [
          | false ↦ bufs ++ (buf_of d p ∷ [])
          | true ↦ indirect m size addr count fuel (step + 1) d.next (bufs ++ (buf_of d p ∷ []))
        ]
  unfolding indirect
  indirect_round addr count fuel step i d p bufs f e h k l =
      ground (arith, push_buf-some d p bufs e)

  walk_round :
      (base rounds i : ℕ) (d : Desc) (p : ℕ) (bufs : List ChainBuf)
      → fetch m base i ≡ some d
      → has_flag d vring_desc_f_indirect ≡ false
      → region_off m d.addr d.len ≡ some p
      → length bufs < size
      → walk m size base (suc rounds) i bufs
        ≡ elim (has_flag d vring_desc_f_next && ltb d.next (u16 size)) [
          | false ↦ bufs ++ (buf_of d p ∷ [])
          | true ↦ walk m size base rounds d.next (bufs ++ (buf_of d p ∷ []))
        ]
  unfolding walk descriptor
  walk_round base rounds i d p bufs f n e l = ground (arith, push_buf-some d p bufs e)

  walk_table :
      (base rounds i : ℕ) (d : Desc) (p : ℕ) (bufs : List ChainBuf)
      → fetch m base i ≡ some d
      → has_flag d vring_desc_f_indirect ≡ true
      → region_off m d.addr d.len ≡ some p
      → has_flag d vring_desc_f_next ≡ false
      → length bufs < size
      → walk m size base (suc rounds) i bufs ≡ indirect m size d.addr (d.len / 16) size 0 0 bufs
  unfolding walk descriptor
  walk_table base rounds i d p bufs f n e k l = ground arith

  Table-length_pos :
      {base count i : ℕ} {bufs : List ChainBuf} → Table m base count i bufs → 0 < length bufs
  Table-length_pos (Table.stop d p f e n) = omega arith
  Table-length_pos (Table.link d p f e n h t) = omega arith

  indirect_gathers :
      {addr count i : ℕ} {bufs : List ChainBuf} (t : Table m addr count i bufs) (fuel step : ℕ)
      (acc : List ChainBuf)
      → length bufs ≤ fuel
      → step + length bufs ≤ count
      → step + length bufs ≤ size
      → length acc + length bufs ≤ size
      → indirect m size addr count fuel step i acc ≡ acc ++ bufs
  indirect_gathers {addr} {count} {i} (Table.stop d p f e n) zero step acc a b c k =
      absurd (omega arith)
  indirect_gathers {addr} {count} {i} (Table.stop d p f e n) (suc fuel) step acc a b c k =
      indirect_round addr count fuel step i d p acc f e (omega arith) (omega arith) (omega arith)
      ∙ rw n refl
  indirect_gathers {addr} {count} {i} (Table.link d p f e n h t) zero step acc a b c k =
      absurd (omega arith)
  indirect_gathers {addr} {count} {i} (Table.link {bufs = bufs} d p f e n h t) (suc fuel) step acc a
        b c k =
      let pos = Table-length_pos t in
      indirect_round addr count fuel step i d p acc f e (omega arith) (omega arith) (omega arith)
      ∙ rw (n, lt→ltb _ _ h)
          (indirect_gathers t fuel (step + 1) (acc ++ (buf_of d p ∷ [])) (omega arith) (omega arith)
            (omega arith) (omega (arith, length-append acc (buf_of d p ∷ []))))
      ∙ append_assoc acc (buf_of d p ∷ []) bufs

  -- A well-formed chain that fits the queue is gathered whole and in the driver's order, behind
  -- what was gathered before, in as many rounds as it has buffers.
  pub walk_gathers :
      {base i : ℕ} {bufs : List ChainBuf} (t : Chain m base size i bufs) (rounds : ℕ)
      (acc : List ChainBuf)
      → length bufs ≤ rounds
      → length acc + length bufs ≤ size
      → walk m size base rounds i acc ≡ acc ++ bufs
  walk_gathers (Chain.stop d p f n e k) zero acc a b = absurd (omega arith)
  walk_gathers {base} {i} (Chain.stop d p f n e k) (suc rounds) acc a b =
      walk_round base rounds i d p acc f n e (omega arith) ∙ rw k refl
  walk_gathers (Chain.link d p f n e k h t) zero acc a b = absurd (omega arith)
  walk_gathers {base} {i} (Chain.link {bufs = bufs} d p f n e k h t) (suc rounds) acc a b =
      walk_round base rounds i d p acc f n e (omega arith)
      ∙ rw (k, lt→ltb _ _ h)
          (walk_gathers t rounds (acc ++ (buf_of d p ∷ [])) (omega arith)
            (omega (arith, length-append acc (buf_of d p ∷ []))))
      ∙ append_assoc acc (buf_of d p ∷ []) bufs
  walk_gathers (Chain.table d p f n e k c t) zero acc a b =
      absurd (omega (arith, Table-length_pos t))
  walk_gathers {base} {i} (Chain.table d p f n e k c t) (suc rounds) acc a b =
      let pos = Table-length_pos t in
      walk_table base rounds i d p acc f n e k (omega arith)
      ∙ indirect_gathers t size 0 acc (omega arith) (omega arith) (omega arith) b
