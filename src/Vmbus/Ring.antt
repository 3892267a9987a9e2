-- ===== src/Vmbus/Ring.antt =====
-- The ring buffers of src/vmbus/ring.rs, in guest memory that the guest changes as it likes. An
-- operation that would panic, on an index past a list, is `none`; a failure is a `Result` beside the
-- buffer and the memory as they were left. `walk` takes its closure as a function on a state.
pub mod Places
pub mod Walks
pub mod Fills
pub mod Puts
pub mod Control
pub mod Packets
pub mod Fifo
pub mod Writing
pub mod Reading
pub mod Traffic
pub mod Guards
pub mod Hostile
mod Tests
use tinyvmm.Prelude.{
  ℕ, zero, suc, ◌+◌, ◌-◌, ◌*◌, ◌/◌, ◌%◌, ◌^◌, min, Bool, true, false, not, ◌&&◌, ◌||◌, Option, none,
  some, List, [], ◌∷◌, ◌++◌, length, take, drop, replicate, get_elem?, leb, ltb, ◌==◌, ◌>>=◌,
  if◌then◌else◌, u16, u32, u64, from_le_bytes, to_le_bytes,
}
use tinyvmm.Memory.{
  GuestMemory, Guest, run_guest, read_array, write_bytes, load_acquire_u32, store_release_u32,
}

abbrev pub page : ℕ
page = 4096

abbrev pub write_index : ℕ
write_index = 0

abbrev pub read_index : ℕ
read_index = 4

abbrev pub interrupt_mask : ℕ
interrupt_mask = 8

abbrev pub descriptor_len : ℕ
descriptor_len = 16

abbrev pub trailer_len : ℕ
trailer_len = 8

abbrev pub packet_inband : ℕ
packet_inband = 6

pub data Error : Type 0 where
  corrupt : Error
  full : Error

pub data Result {ℓ} (A : Type ℓ) : Type ℓ where
  ok : A → Result A
  err : Error → Result A

pub record Ring : Type 0 where
  pub pages : List ℕ  -- u64

-- `checked_mul` for each.
abbrev pub page_addresses : List ℕ → Option (List ℕ)
page_addresses [] = some []
page_addresses (pfn ∷ pfns) =
    if ltb (pfn * page) (2 ^ 64) then (page_addresses pfns >>= λ l. some (pfn * page ∷ l)) else none

unfoldable pub new : List ℕ → Option Ring
new pfns =
    if ltb (length pfns) 2 || ltb (2 ^ 16) (length pfns)
    then none
    else (page_addresses pfns >>= λ l. some (record { pages = l }))

abbrev pub size : Ring → ℕ
size ring = (length ring.pages - 1) * page

-- `control`: the field's address, where there is a control page.
abbrev pub control : Ring → ℕ → Option ℕ
control ring field = get_elem? ring.pages 0 >>= λ p. some (p + field)

-- The two indices, or the failure.
abbrev pub checked : ℕ → Option ℕ → Option ℕ → Result (ℕ × ℕ)
checked n none r = err Error.corrupt
checked n (some w) none = err Error.corrupt
checked n (some w) (some r) =
    if leb n w || leb n r || not (w % 8 == 0) || not (r % 8 == 0)
    then err Error.corrupt
    else ok (w, r)

unfoldable pub indices : GuestMemory → Ring → Option (Result (ℕ × ℕ))
indices mem ring = control ring write_index >>= λ w. control ring read_index >>= λ r.
    some (checked (size ring) (load_acquire_u32 mem w) (load_acquire_u32 mem r))

-- The closure of a walk: `copy gpa at n`, on a state.
abbrev pub Copy : Type 0 → Type 0
Copy S = ℕ → ℕ → ℕ → S → S × Bool

module _ {S : Type 0} (ring : Ring) (len : ℕ) (copy : Copy S) where
  -- From `done` on; a round copies a byte at least, so that `len` rounds are enough.
  unfoldable pub walk_from : ℕ → ℕ → ℕ → S → Option (S × Bool)
  walk_from zero off done s = some (s, true)
  walk_from (suc fuel) off done s =
      let in_page = off % page in
      let n = min (page - in_page) (len - done) in
      if not (ltb done len)
      then some (s, true)
      else (get_elem? ring.pages (1 + off / page) >>= λ p.
          let c = copy (p + in_page) done n s in
          elim c.1 [
            | false ↦ some (c.0, false)
            | true ↦ walk_from fuel ((off + n) % size ring) (done + n) c.0
          ])

abbrev pub walk : {S : Type 0} → Ring → ℕ → ℕ → Copy S → S → Option (S × Bool)
walk ring off len copy s = walk_from ring len copy len off 0 s

-- `mem.read_into(gpa, &mut buf[at..at + n])`
unfoldable pub copy_in : GuestMemory → Copy (List ℕ)
copy_in mem gpa at n buf = elim (read_array mem gpa n) [
  | none ↦ (buf, false)
  | some bytes ↦ (take at buf ++ (bytes ++ drop (at + n) buf), true)
]

-- `mem.write_bytes(gpa, &packet[at..at + n])`
unfoldable pub copy_out : List ℕ → Copy GuestMemory
copy_out packet gpa at n mem = write_bytes mem gpa (take n (drop at packet))

abbrev pub resize : List ℕ → ℕ → List ℕ
resize buf n = take n (buf ++ replicate n 0)

-- What `read` returns and leaves: the packet's type, the buffer, and the memory.
abbrev pub Reading : Type 0
Reading = Result (Option ℕ) × List ℕ × GuestMemory

abbrev pub corrupted : List ℕ → GuestMemory → Option Reading
corrupted buf mem = some (err Error.corrupt, buf, mem)

-- `get` of the little-endian u16 at byte `at` of the descriptor.
abbrev pub le16 : ℕ → List ℕ → ℕ
le16 at d = from_le_bytes (take 2 (drop at d))

-- After the payload is copied.
unfoldable pub finish : GuestMemory → Ring → ℕ → ℕ → List ℕ → Option Reading
finish mem ring next kind buf = control ring read_index >>= λ at.
    let c = store_release_u32 mem at (u32 next) in
    if c.1 then some (ok (some kind), buf, c.0) else corrupted buf c.0

-- After the descriptor is copied.
unfoldable pub read_payload : GuestMemory → Ring → List ℕ → ℕ → ℕ → ℕ → List ℕ → Option Reading
unfolding walk_from copy_in finish
read_payload mem ring buf max available r d =
    let kind = le16 0 d in
    let offset = le16 2 d * 8 in
    let len = le16 4 d * 8 in
    let payload = len - offset in
    let next = (r + len + trailer_len) % size ring in
    if ltb offset descriptor_len || ltb len offset || ltb available (len + trailer_len)
    then corrupted buf mem
    else if ltb max payload
    then corrupted buf mem
    else (walk ring ((r + offset) % size ring) payload (copy_in mem) (resize buf payload) >>= λ c.
        if c.1 then finish mem ring next kind c.0 else corrupted c.0 mem)

unfoldable pub read_at : GuestMemory → Ring → List ℕ → ℕ → ℕ × ℕ → Option Reading
unfolding walk_from copy_in read_payload
read_at mem ring buf max (w, r) =
    let available = (w + size ring - r) % size ring in
    if w == r
    then some (ok none, buf, mem)
    else (walk ring r descriptor_len (copy_in mem) (replicate descriptor_len 0) >>= λ c.
        if c.1 then read_payload mem ring buf max available r c.0 else corrupted buf mem)

unfoldable pub read : GuestMemory → Ring → List ℕ → ℕ → Option Reading
unfolding indices read_at
read mem ring buf max = indices mem ring >>= λ i. elim i [
  | err e ↦ some (err e, buf, mem)
  | ok wr ↦ read_at mem ring buf max wr
]

abbrev pub next_multiple_of_8 : ℕ → ℕ
next_multiple_of_8 n = (n + 7) / 8 * 8

-- The packet's bytes, of a payload that is written at `w`.
unfoldable pub packet_of : ℕ → List ℕ → List ℕ
packet_of w payload =
    let len = descriptor_len + next_multiple_of_8 (length payload) in
    to_le_bytes 2 packet_inband
    ++ (to_le_bytes 2 (u16 (descriptor_len / 8))
        ++ (to_le_bytes 2 (u16 (len / 8))
            ++ (replicate 10 0
                ++ (payload
                    ++ (replicate (len - (descriptor_len + length payload)) 0
                        ++ to_le_bytes 8 (u64 (w * 2 ^ 32)))))))

-- What `write` returns and leaves: whether to signal, and the memory.
abbrev pub Writing : Type 0
Writing = Result Bool × GuestMemory

abbrev pub signal : ℕ → Option ℕ → Option ℕ → Result Bool
signal w none r = err Error.corrupt
signal w (some mask) none = err Error.corrupt
signal w (some mask) (some r) = ok (mask == 0 && r == w)

-- After the packet is copied; the guest runs at the fence.
unfoldable pub publish : Guest → GuestMemory → Ring → ℕ → ℕ → Option Writing
publish guest mem ring w next = control ring write_index >>= λ at.
    control ring interrupt_mask >>= λ mask. control ring read_index >>= λ r.
    let c = store_release_u32 mem at (u32 next) in
    let seen = run_guest guest c.0 in
    if c.1
    then some (signal w (load_acquire_u32 seen mask) (load_acquire_u32 seen r), seen)
    else some (err Error.corrupt, c.0)

unfoldable pub write_at : Guest → GuestMemory → Ring → List ℕ → ℕ × ℕ → Option Writing
unfolding walk_from copy_out packet_of publish
write_at guest mem ring payload (w, r) =
    let len = descriptor_len + next_multiple_of_8 (length payload) in
    let total = len + trailer_len in
    let free = size ring - (w + size ring - r) % size ring in
    let packet = packet_of w payload in
    if ltb (2 ^ 16 - 1) (len / 8) || leb free total
    then some (err Error.full, mem)
    else (walk ring w (length packet) (copy_out packet) mem >>= λ c.
        if c.1
        then publish guest c.0 ring w ((w + total) % size ring)
        else some (err Error.corrupt, c.0))

unfoldable pub write : Guest → GuestMemory → Ring → List ℕ → Option Writing
unfolding indices write_at
write guest mem ring payload = indices mem ring >>= λ i. elim i [
  | err e ↦ some (err e, mem)
  | ok wr ↦ write_at guest mem ring payload wr
]
