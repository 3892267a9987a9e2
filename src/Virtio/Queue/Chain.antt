-- ===== src/Virtio/Queue/Chain.antt =====
-- Descriptors and chains of src/virtio/queue.rs: `read_desc`, and the two loops of `pop_into` that
-- gather the buffers of a chain. A host pointer is an offset into guest RAM.
use tinyvmm.Prelude.{
  ℕ, zero, suc, ◌+◌, ◌*◌, ◌/◌, Bool, true, false, not, ◌&&◌, Option, none, some, List, [], ◌∷◌,
  ◌++◌, length, take, drop, ltb, leb, ◌==◌, if◌then◌else◌, u16, u64, bit_and, from_le_bytes,
}
use tinyvmm.Memory.{GuestMemory, host_range, read_array}

abbrev pub vring_desc_f_next : ℕ
vring_desc_f_next = 1

abbrev pub vring_desc_f_write : ℕ
vring_desc_f_write = 2

abbrev pub vring_desc_f_indirect : ℕ
vring_desc_f_indirect = 4

pub record ChainBuf : Type 0 where
  pub ptr : ℕ
  pub len : ℕ
  pub write : Bool

pub record PoppedChain : Type 0 where
  pub head_index : ℕ
  pub bufs : List ChainBuf

pub record Desc : Type 0 where
  pub addr : ℕ
  pub len : ℕ
  pub flags : ℕ
  pub next : ℕ

unfoldable pub read_desc : List ℕ → Desc
read_desc b = record {
  addr = from_le_bytes (take 8 b);
  len = from_le_bytes (take 4 (drop 8 b));
  flags = from_le_bytes (take 2 (drop 12 b));
  next = from_le_bytes (take 2 (drop 14 b));
}

-- `d.flags & flag != 0`
abbrev pub has_flag : Desc → ℕ → Bool
has_flag d flag = not (bit_and d.flags flag == 0)

abbrev pub buf_of : Desc → ℕ → ChainBuf
buf_of d host = record { ptr = host; len = d.len; write = has_flag d vring_desc_f_write }

-- `if let Some(host) = self.host(..) { out.bufs.push(..) }`
unfoldable pub push_buf : GuestMemory → Desc → List ChainBuf → List ChainBuf
push_buf m d bufs = elim (host_range m d.addr d.len) [
  | none ↦ bufs
  | some host ↦ bufs ++ (buf_of d host ∷ [])
]

-- The `while` over an indirect table at `addr` with `count` entries; `size` is the queue's, also
-- the cap on the buffers. The fuel bounds the rounds.
unfoldable pub indirect : GuestMemory → ℕ → ℕ → ℕ → ℕ → ℕ → ℕ → List ChainBuf → List ChainBuf
indirect m size addr count zero step i bufs = bufs
indirect m size addr count (suc fuel) step i bufs =
    elim (ltb step count && ltb step size && ltb (length bufs) size) [
      | false ↦ bufs
      | true ↦ elim (read_array m (u64 (addr + i * 16)) 16) [
        | none ↦ bufs
        | some b ↦
            let id = read_desc b in
            let bufs' = push_buf m id bufs in
            elim (has_flag id vring_desc_f_next && ltb id.next (u16 count)) [
              | false ↦ bufs'
              | true ↦ indirect m size addr count fuel (step + 1) id.next bufs'
            ]
      ]
    ]

-- What one descriptor of the main table adds to the buffers; none where the loop breaks on an
-- indirect table that is not mapped.
unfoldable pub descriptor : GuestMemory → ℕ → Desc → List ChainBuf → Option (List ChainBuf)
descriptor m size d bufs =
    if has_flag d vring_desc_f_indirect
    then elim (host_range m d.addr d.len) [
      | none ↦ none
      | some _ ↦ some (indirect m size d.addr (d.len / 16) size 0 0 bufs)
    ]
    else some (push_buf m d bufs)

-- `for _ in 0..self.size` from the descriptor `cur`, with the rounds left.
unfoldable pub walk : GuestMemory → ℕ → ℕ → ℕ → ℕ → List ChainBuf → List ChainBuf
walk m size desc_base zero cur bufs = bufs
walk m size desc_base (suc rounds) cur bufs = elim (leb size (length bufs)) [
  | true ↦ bufs
  | false ↦ elim (read_array m (u64 (desc_base + cur * 16)) 16) [
    | none ↦ bufs
    | some b ↦
        let d = read_desc b in
        elim (descriptor m size d bufs) [
          | none ↦ bufs
          | some bufs' ↦ elim (has_flag d vring_desc_f_next && ltb d.next (u16 size)) [
            | false ↦ bufs'
            | true ↦ walk m size desc_base rounds d.next bufs'
          ]
        ]
  ]
]
