-- ===== src/Virtio/Queue/ChainBounds.antt =====
-- What a hostile guest cannot make the chain loops of src/virtio/queue.rs do: leave guest RAM, or
-- gather more buffers than the queue has entries.
use tinyvmm.Prelude.{
  ℕ, zero, suc, ◌+◌, ◌*◌, ◌/◌, ◌≤◌, ◌<◌, ◌≡◌, ◌&&◌, some, List, [], ◌∷◌, length, length-append, All,
  All-append, ltb, leb, u16, u64, arith, inl, inr, Option-cases, Bool-cases,
}
use tinyvmm.Memory.{GuestMemory, region_off, read_array}
use tinyvmm.Memory.Region.{IsValid, region_off_bounds}
use tinyvmm.Virtio.Queue.Chain.{
  ChainBuf, Desc, read_desc, has_flag, buf_of, push_buf, indirect, descriptor, walk,
  vring_desc_f_next,
}

abbrev pub InRam : GuestMemory → ChainBuf → Type 0
InRam m b = b.ptr + b.len ≤ m.size

-- The buffers gathered so far lie in guest RAM, and are at most `n`.
abbrev pub IsSafe : GuestMemory → ℕ → List ChainBuf → Type 0
IsSafe m n bufs = All (InRam m) bufs × (length bufs ≤ n)

module _ (m : GuestMemory) (v : IsValid m) where
  push_buf-IsSafe :
      (n : ℕ) (d : Desc) (bufs : List ChainBuf)
      → IsSafe m n bufs
      → length bufs < n
      → IsSafe m n (push_buf m d bufs)
  unfolding push_buf
  push_buf-IsSafe n d bufs s h = elim (Option-cases (region_off m d.addr d.len)) [
    | inl e ↦ rw (e, push_buf) s
    | inr (p, e) ↦
        rw (e, push_buf)
          (
            All-append (InRam m) bufs (buf_of d p ∷ []) s.0
                ((region_off_bounds m d.addr d.len v e).1, tt),
            omega (arith, length-append bufs (buf_of d p ∷ [])),
          )
  ]

  indirect-IsSafe :
      (size addr count fuel step i : ℕ) (bufs : List ChainBuf)
      → IsSafe m size bufs
      → IsSafe m size (indirect m size addr count fuel step i bufs)
  unfolding indirect
  indirect-IsSafe size addr count zero step i bufs s = s
  indirect-IsSafe size addr count (suc fuel) step i bufs s =
      elim (Bool-cases (ltb step count && ltb step size && ltb (length bufs) size)) [
        | inr e ↦ rw (e, indirect) s
        | inl e ↦ elim (Option-cases (read_array m (u64 (addr + i * 16)) 16)) [
          | inl r ↦ rw (e, r, indirect) s
          | inr (b, r) ↦
              let id = read_desc b in
              let pushed = push_buf-IsSafe size id bufs s (ground arith) in
              elim (Bool-cases (has_flag id vring_desc_f_next && ltb id.next (u16 count))) [
                | inr k ↦ rw (e, r, k, indirect) pushed
                | inl k ↦
                    rw (e, r, k, indirect)
                      (indirect-IsSafe size addr count fuel (step + 1) id.next (push_buf m id bufs)
                        pushed)
              ]
        ]
      ]

  descriptor-IsSafe :
      (size : ℕ) (d : Desc) (bufs : List ChainBuf) {out : List ChainBuf}
      → IsSafe m size bufs
      → length bufs < size
      → descriptor m size d bufs ≡ some out
      → IsSafe m size out
  unfolding descriptor
  descriptor-IsSafe size d bufs s h e = ground (
    arith,
    push_buf-IsSafe size d bufs s h,
    indirect-IsSafe size d.addr (d.len / 16) size 0 0 bufs s,
  )

  -- However the guest fills the descriptor tables, the main loop gathers at most `size` buffers, each
  -- inside guest RAM.
  pub walk-IsSafe :
      (size base rounds cur : ℕ) (bufs : List ChainBuf)
      → IsSafe m size bufs
      → IsSafe m size (walk m size base rounds cur bufs)
  unfolding walk
  walk-IsSafe size base zero cur bufs s = s
  walk-IsSafe size base (suc rounds) cur bufs s = elim (Bool-cases (leb size (length bufs))) [
    | inl e ↦ rw (e, walk) s
    | inr e ↦ elim (Option-cases (read_array m (u64 (base + cur * 16)) 16)) [
      | inl r ↦ rw (e, r, walk) s
      | inr (b, r) ↦
          let d = read_desc b in
          elim (Option-cases (descriptor m size d bufs)) [
            | inl g ↦ rw (e, r, g, walk) s
            | inr (out, g) ↦
                let done = descriptor-IsSafe size d bufs s (ground arith) g in
                elim (Bool-cases (has_flag d vring_desc_f_next && ltb d.next (u16 size))) [
                  | inr k ↦ rw (e, r, g, k, walk) done
                  | inl k ↦ rw (e, r, g, k, walk) (walk-IsSafe size base rounds d.next out done)
                ]
          ]
    ]
  ]
