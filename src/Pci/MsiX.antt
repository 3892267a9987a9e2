-- ===== src/Pci/MsiX.antt =====
-- The MSI-X table of src/pci/msix.rs. `inject_msi` is the hypervisor's: an operation gives the messages
-- that it injects, and `accepts` is what the call returns. The locks and atomics make an operation a
-- step; tracing is left out.
pub mod Pending
pub mod Delivery
pub mod Snapshot
pub mod Install
mod Tests
use tinyvmm.Prelude.{
  ℕ, ◌+◌, ◌-◌, ◌*◌, ◌/◌, ◌%◌, ◌^◌, Bool, true, false, not, ◌&&◌, ◌||◌, Option, none, some, List, [],
  ◌∷◌, ◌++◌, length, get_or, set, take, drop, replicate, ltb, leb, ◌==◌, if◌then◌else◌, bit,
  bit_and, bit_or, u64, sub64, to_le_bytes, from_le_bytes,
}
use tinyvmm.Device.MmioBus.{MmioAccess, zeros}

pub record Entry : Type 0 where
  pub addr_lo : ℕ  -- u32
  pub addr_hi : ℕ  -- u32
  pub data_value : ℕ  -- u32
  pub ctrl : ℕ  -- u32, bit 0 masks

pub record MsiX : Type 0 where
  pub num_vectors : ℕ
  pub control : ℕ  -- u16
  pub table : List Entry
  pub pba : List ℕ  -- u64
  pub table_offset : ℕ
  pub pba_offset : ℕ
  pub bar_base_gpa : ℕ
  pub injected_count : ℕ

pub record Message : Type 0 where
  pub addr : ℕ
  pub value : ℕ

abbrev pub blank_entry : Entry
blank_entry = record { addr_lo = 0; addr_hi = 0; data_value = 0; ctrl = 0 }

abbrev pub div_ceil : ℕ → ℕ → ℕ
div_ceil n k = (n + k - 1) / k

-- None where the assertions fail.
unfoldable pub new : ℕ → ℕ → ℕ → Option MsiX
new num_vectors table_offset pba_offset =
    if not (leb 1 num_vectors && leb num_vectors 2048)
    then none
    else if not (bit_and table_offset 0x7 == 0 && bit_and pba_offset 0x7 == 0)
    then none
    else some (record {
      num_vectors = num_vectors;
      control = 0;
      table = replicate num_vectors (record blank_entry { ctrl = 1 });
      pba = replicate (div_ceil num_vectors 64) 0;
      table_offset = table_offset;
      pba_offset = pba_offset;
      bar_base_gpa = 0;
      injected_count = 0;
    })

unfoldable pub set_control : MsiX → ℕ → MsiX
set_control m mc = record m { control = mc }

abbrev pub enabled : MsiX → Bool
enabled m = not (bit_and m.control 0x8000 == 0)

abbrev pub function_masked : MsiX → Bool
function_masked m = not (bit_and m.control 0x4000 == 0)

abbrev pub entry : MsiX → ℕ → Entry
entry m vec = get_or m.table vec blank_entry

abbrev pub is_masked : MsiX → ℕ → Bool
is_masked m vec = not (bit_and (entry m vec).ctrl 0x1 == 0)

abbrev pub pba_word : MsiX → ℕ → ℕ
pba_word m vec = get_or m.pba (vec / 64) 0

-- `(pba[vec / 64] >> (vec % 64)) & 1 != 0`
abbrev pub pending : MsiX → ℕ → Bool
pending m vec = not (bit (vec % 64) (pba_word m vec) == 0)

-- `pba[vec / 64] |= 1 << (vec % 64)`
unfoldable pub latch : MsiX → ℕ → MsiX
latch m vec = record m { pba = set m.pba (vec / 64) (bit_or (pba_word m vec) (2 ^ (vec % 64))) }

-- `pba[vec / 64] &= !(1 << (vec % 64))`
unfoldable pub clear : MsiX → ℕ → MsiX
clear m vec = record m {
  pba = set m.pba (vec / 64) (bit_and (pba_word m vec) (2 ^ 64 - 1 - 2 ^ (vec % 64)));
}

abbrev pub message : Entry → Message
message e = record { addr = bit_or (e.addr_hi * 2 ^ 32) e.addr_lo; value = e.data_value }

unfoldable pub do_inject : MsiX → ℕ → MsiX × List Message
do_inject m vec =
    (record m { injected_count = u64 (m.injected_count + 1) }, message (entry m vec) ∷ [])

-- `trigger`: the last result is what it returns.
unfoldable pub trigger : (Message → Bool) → MsiX → ℕ → MsiX × List Message × Bool
unfolding latch do_inject
trigger accepts m vec =
    if leb m.num_vectors vec
    then (m, [], false)
    else if not (enabled m) || function_masked m
    then (latch m vec, [], false)
    else if is_masked m vec
    then (latch m vec, [], false)
    else (let (m', sent) = do_inject m vec in (m', sent, accepts (message (entry m vec))))

-- The write of the control field: the mask bit, and whether a pending interrupt is replayed.
unfoldable pub write_ctrl : MsiX → ℕ → ℕ → MsiX × List Message
unfolding clear do_inject
write_ctrl m vec v =
    let new_ctrl = bit_and v 0x1 in
    let e = entry m vec in
    let m' = record m { table = set m.table vec (record e { ctrl = new_ctrl }) } in
    if is_masked m vec && new_ctrl == 0 && enabled m && not (function_masked m) && pending m vec
    then do_inject (clear m' vec) vec
    else (m', [])

abbrev pub set_entry : MsiX → ℕ → Entry → MsiX
set_entry m vec e = record m { table = set m.table vec e }

unfoldable pub write_field : MsiX → ℕ → ℕ → ℕ → MsiX × List Message
unfolding write_ctrl
write_field m vec field v =
    let e = entry m vec in
    if field == 0
    then (set_entry m vec (record e { addr_lo = v }), [])
    else if field == 4
    then (set_entry m vec (record e { addr_hi = v }), [])
    else if field == 8
    then (set_entry m vec (record e { data_value = v }), [])
    else if field == 12
    then write_ctrl m vec v
    else (m, [])

unfoldable pub read_field : Entry → ℕ → ℕ
read_field e field =
    if field == 0
    then e.addr_lo
    else if field == 4
    then e.addr_hi
    else if field == 8
    then e.data_value
    else if field == 12
    then e.ctrl
    else 0

unfoldable pub handle_table : MsiX → MmioAccess → MsiX × MmioAccess × List Message
unfolding write_field read_field
handle_table m access =
    let off = sub64 access.gpa (u64 (m.bar_base_gpa + m.table_offset)) in
    let vec = off / 16 in
    let field = off % 16 in
    if not (access.access_size == 4) || not (bit_and off 0x3 == 0) || leb m.num_vectors vec
    then (m, (if access.is_write then access else record access { bytes = zeros }), [])
    else if access.is_write
    then (let (m', sent) = write_field m vec field (from_le_bytes (take 4 access.bytes)) in
        (m', access, sent))
    else (
      m,
      record access {
        bytes = to_le_bytes 4 (read_field (entry m vec) field) ++ drop 4 access.bytes;
      },
      [],
    )

unfoldable pub handle_pba : MsiX → MmioAccess → MmioAccess
handle_pba m access =
    if access.is_write
    then access
    else if not (access.access_size == 4) && not (access.access_size == 8)
    then record access { bytes = zeros }
    else (let off = sub64 access.gpa (u64 (m.bar_base_gpa + m.pba_offset)) in
        let value = get_or m.pba (off / 8) 0 in
        if access.access_size == 8
        then record access { bytes = to_le_bytes 8 value }
        else record access {
          bytes = to_le_bytes 4 (value / 2 ^ (bit_and off 4 * 8)) ++ drop 4 access.bytes;
        })
