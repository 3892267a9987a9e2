-- ===== src/Device/Pit.antt =====
-- The 8254 timer of src/devices/pit.rs. Each operation takes the ticks that `now_ticks` reads from the
-- host's clock, a u64.
pub mod Counting
pub mod Latching
pub mod Snapshot
mod Tests
use tinyvmm.Prelude.{
  ℕ, ◌+◌, ◌-◌, ◌*◌, ◌/◌, ◌%◌, Bool, true, false, not, ◌&&◌, ◌||◌, ltb, leb, ◌==◌, if◌then◌else◌,
  bit_and, bit_or, u16, u32, u64, sub64,
}
use tinyvmm.Device.IoBus.{IoAccess}

pub data AccessMode : Type 0 where
  latch lsb_only msb_only lsb_then_msb : AccessMode

-- `from_bits`, of the two low bits
abbrev pub from_bits : ℕ → AccessMode
from_bits b =
    let low = bit_and b 0x3 in
    if low == 0
    then AccessMode.latch
    else if low == 1
    then AccessMode.lsb_only
    else if low == 2
    then AccessMode.msb_only
    else AccessMode.lsb_then_msb

pub record Channel : Type 0 where
  pub access : AccessMode
  pub mode : ℕ  -- u8
  pub reload : ℕ  -- u16
  pub reload_have_lsb : Bool
  pub reload_lsb : ℕ  -- u8
  pub read_msb_next : Bool
  pub latch_valid : Bool
  pub latched : ℕ  -- u16
  pub latched_msb_next : Bool
  pub gate : Bool
  pub start_ticks : ℕ  -- u64
  pub running : Bool

unfoldable pub default_channel : Channel
default_channel = record {
  access = AccessMode.lsb_then_msb;
  mode = 0;
  reload = 0;
  reload_have_lsb = false;
  reload_lsb = 0;
  read_msb_next = false;
  latch_valid = false;
  latched = 0;
  latched_msb_next = false;
  gate = false;
  start_ticks = 0;
  running = false;
}

-- `struct Inner`
pub record Timer : Type 0 where
  pub ch0 : Channel
  pub ch1 : Channel
  pub ch2 : Channel
  pub port61 : ℕ

unfoldable pub new : Timer
unfolding default_channel
new = record {
  ch0 = record default_channel { gate = true };
  ch1 = record default_channel { gate = true };
  ch2 = record default_channel { gate = false };
  port61 = 0;
}

-- `inner.ch[i]`, and storing there; the indices in use are 0 to 2.
abbrev pub channel : Timer → ℕ → Channel
channel t i = if i == 0 then t.ch0 else if i == 1 then t.ch1 else t.ch2

abbrev pub set_channel : Timer → ℕ → Channel → Timer
set_channel t i c =
    if i == 0
    then record t { ch0 = c }
    else if i == 1
    then record t { ch1 = c }
    else record t { ch2 = c }

-- A reload value of 0 counts 65536.
abbrev pub period : ℕ → ℕ
period reload = if reload == 0 then 0x1_0000 else reload

unfoldable pub read_count : Channel → ℕ → ℕ
read_count c now =
    if not c.running || not c.gate
    then c.reload
    else (let elapsed = sub64 now c.start_ticks in
        if c.mode == 0
        then (if leb (period c.reload) elapsed then 0 else u16 (period c.reload - u32 elapsed))
        else u16 (period c.reload - elapsed % period c.reload))

abbrev pub latch_channel : Channel → ℕ → Channel
latch_channel c now = record c {
  latched = read_count c now;
  latch_valid = true;
  latched_msb_next = false;
}

abbrev pub set_mode : Channel → AccessMode → ℕ → Channel
set_mode c access mode = record c {
  access = access;
  mode = mode;
  reload_have_lsb = false;
  reload_lsb = 0;
  read_msb_next = false;
  latch_valid = false;
  running = false;
}

abbrev pub is_latch : AccessMode → Bool
is_latch AccessMode.latch = true
is_latch AccessMode.lsb_only = false
is_latch AccessMode.msb_only = false
is_latch AccessMode.lsb_then_msb = false

unfoldable pub program_channel : Timer → ℕ → ℕ → ℕ → Timer
program_channel t i cw now =
    let access = from_bits (bit_and cw 0x30 / 16) in
    let c = channel t i in
    if is_latch access
    then set_channel t i (latch_channel c now)
    else set_channel t i (set_mode c access (bit_and cw 0x0e / 2))

-- The read-back command latches each selected channel.
abbrev pub read_back : Channel → ℕ → ℕ → ℕ → Channel
read_back c cw mask now = if bit_and cw mask == 0 then c else latch_channel c now

unfoldable pub handle_control : Timer → ℕ → IoAccess → Timer × IoAccess
unfolding program_channel
handle_control t now acc =
    if not acc.is_write
    then (t, record acc { value = 0xff })
    else (let cw = acc.value % 256 in
        let sel = bit_and cw 0xc0 / 64 in
        if sel == 3
        then (
          record t {
            ch0 = read_back t.ch0 cw 2 now;
            ch1 = read_back t.ch1 cw 4 now;
            ch2 = read_back t.ch2 cw 8 now;
          },
          acc,
        )
        else (program_channel t sel cw now, acc))

abbrev pub start : Channel → ℕ → ℕ → Channel
start c reload now = record c { reload = reload; start_ticks = now; running = true }

-- `match c.access` of a write to a counter
abbrev pub write_counter : AccessMode → Channel → ℕ → ℕ → Channel
write_counter AccessMode.lsb_only c b now = start c (bit_or (bit_and c.reload 0xff00) b) now
write_counter AccessMode.msb_only c b now = start c (bit_or (bit_and c.reload 0x00ff) (b * 256)) now
write_counter AccessMode.lsb_then_msb c b now =
    if not c.reload_have_lsb
    then record c { reload_lsb = b; reload_have_lsb = true }
    else start (record c { reload_have_lsb = false }) (bit_or c.reload_lsb (b * 256)) now
write_counter AccessMode.latch c b now = c

abbrev pub low_byte : ℕ → ℕ
low_byte v = v % 256

abbrev pub high_byte : ℕ → ℕ
high_byte v = v / 256 % 256

-- The low byte and then the high byte, of a latched count or of the running one.
abbrev pub read_pair : Channel → ℕ → Channel × ℕ
read_pair c val =
    if c.latch_valid
    then (if not c.latched_msb_next
        then (record c { latched_msb_next = true }, low_byte val)
        else (record c { latched_msb_next = false; latch_valid = false }, high_byte val))
    else (if not c.read_msb_next
        then (record c { read_msb_next = true }, low_byte val)
        else (record c { read_msb_next = false }, high_byte val))

-- `match c.access` of a read from a counter
abbrev pub read_counter : AccessMode → Channel → ℕ → Channel × ℕ
read_counter AccessMode.lsb_only c val = (c, low_byte val)
read_counter AccessMode.msb_only c val = (c, high_byte val)
read_counter AccessMode.lsb_then_msb c val = read_pair c val
read_counter AccessMode.latch c val = (c, 0xff)

unfoldable pub handle_counter : Timer → ℕ → ℕ → IoAccess → Timer × IoAccess
handle_counter t i now acc =
    let c = channel t i in
    if acc.is_write
    then (set_channel t i (write_counter c.access c (acc.value % 256) now), acc)
    else (let (c', out) =
          read_counter c.access c (if c.latch_valid then c.latched else read_count c now) in
        (set_channel t i c', record acc { value = out }))

-- Bit 0 of port 0x61 gates channel 2, which restarts when the gate opens; bit 5 reads its output.
unfoldable pub handle_port61 : Timer → ℕ → IoAccess → Timer × IoAccess
handle_port61 t now acc =
    if acc.is_write
    then (let b = acc.value % 256 in
        let new_gate = not (bit_and b 0x01 == 0) in
        let opened = record t.ch2 { gate = new_gate } in
        let restarted =
          if new_gate && t.ch2.running then record opened { start_ticks = now } else opened in
        (
          record t {
            port61 = bit_and b 0x0f;
            ch2 =
                if new_gate && t.ch2.gate || not new_gate && not t.ch2.gate
                then t.ch2
                else restarted;
          },
          acc,
        ))
    else (let v = bit_and t.port61 0x03 in
        let out = t.ch2.mode == 0 && t.ch2.running && read_count t.ch2 now == 0 in
        (t, record acc { value = if out then bit_or v 0x20 else v }))
