-- ===== src/Device/Pit/Counting.antt =====
-- What the counters of src/devices/pit.rs count, from the control word to a count read later.
use tinyvmm.Prelude.{
  ℕ, ◌+◌, ◌-◌, ◌*◌, ◌/◌, ◌%◌, ◌^◌, ◌<◌, ◌≡◌, ◌==◌, if◌then◌else◌, true, false, bit_and,
  bit_or-disjoint, arith, refl, ap, ◌∙◌, u16, u64,
}
use tinyvmm.Device.IoBus.{IoAccess}
use tinyvmm.Device.Pit.{
  AccessMode, Channel, Timer, channel, set_channel, period, read_count, set_mode, program_channel,
  handle_control, write_counter, handle_counter,
}

-- A byte written to a port.
abbrev pub outb : ℕ → ℕ → IoAccess
outb port v = record { port = port; access_size = 1; is_write = true; value = v }

abbrev pub inb : ℕ → IoAccess
inb port = record { port = port; access_size = 1; is_write = false; value = 0 }

-- The count after `e` ticks from the value `v`: mode 0 stops at 0, the others start over.
abbrev pub counted : ℕ → ℕ → ℕ → ℕ
counted mode v e = u16 (period v - (if mode == 0 then e else e % period v))

pub channel-set_channel : (t : Timer) (i : ℕ) (c : Channel) → channel (set_channel t i c) i ≡ c
channel-set_channel t i c = ground arith

pub read_count-counted :
    (c : Channel) (e : ℕ)
    → c.running ≡ true
    → c.gate ≡ true
    → c.start_ticks < 2 ^ 64
    → e < 2 ^ 64
    → c.reload < 2 ^ 16
    → read_count c (u64 (c.start_ticks + e)) ≡ counted c.mode c.reload e
unfolding read_count
read_count-counted c e r g s l b = ground arith

control_lem :
    (t : Timer) (i cw now : ℕ)
    → cw < 256
    → i < 3
    → bit_and cw 0xc0 / 64 ≡ i
    → bit_and cw 0x30 / 16 ≡ 3
    → (handle_control t now (outb 0x43 cw)).0
      ≡ set_channel t i (set_mode (channel t i) AccessMode.lsb_then_msb (bit_and cw 0x0e / 2))
unfolding handle_control program_channel
control_lem t i cw now h l s a = ground arith

write_lem :
    (t : Timer) (i now v : ℕ)
    → v < 256
    → (handle_counter t i now (outb (0x40 + i) v)).0
      ≡ set_channel t i (write_counter (channel t i).access (channel t i) v now)
unfolding handle_counter
write_lem t i now v h = ground arith

write_channel :
    (t : Timer) (i now v : ℕ)
    → v < 256
    → channel (handle_counter t i now (outb (0x40 + i) v)).0 i
      ≡ write_counter (channel t i).access (channel t i) v now
write_channel t i now v h =
    ap (λ x. channel x i) (write_lem t i now v h)
    ∙ channel-set_channel t i (write_counter (channel t i).access (channel t i) v now)

-- A channel just set to two bytes, after its low byte and after its high byte.
load_pair :
    (b : Channel) (mode lo hi now start : ℕ) {c d e : Channel}
    → lo < 256
    → c ≡ set_mode b AccessMode.lsb_then_msb mode
    → d ≡ write_counter c.access c lo now
    → e ≡ write_counter d.access d hi start
    → e ≡ record (set_mode b AccessMode.lsb_then_msb mode) {
      reload_lsb = lo;
      reload = lo + hi * 256;
      start_ticks = start;
      running = true;
    }
load_pair b mode lo hi now start h p q r = ground (arith, bit_or-disjoint 8 lo hi h)

-- The three writes that program counter `i`: control word, low byte, high byte.
abbrev pub programmed : Timer → ℕ → ℕ → ℕ → ℕ → ℕ → ℕ → ℕ → Timer
programmed t i cw lo hi now now' start =
    let t1 = (handle_control t now (outb 0x43 cw)).0 in
    let t2 = (handle_counter t1 i now' (outb (0x40 + i) lo)).0 in
    (handle_counter t2 i start (outb (0x40 + i) hi)).0

module _ (t : Timer) (i cw lo hi now now' start : ℕ) (w : cw < 256) (in_range : i < 3)
    (l : lo < 256) (h : hi < 256) (s : bit_and cw 0xc0 / 64 ≡ i)
    (a : bit_and cw 0x30 / 16 ≡ 3) where
  abbrev pub loaded : Channel
  loaded = record (set_mode (channel t i) AccessMode.lsb_then_msb (bit_and cw 0x0e / 2)) {
    reload_lsb = lo;
    reload = lo + hi * 256;
    start_ticks = start;
    running = true;
  }

  channel-programmed : channel (programmed t i cw lo hi now now' start) i ≡ loaded
  channel-programmed =
      let t1 = (handle_control t now (outb 0x43 cw)).0 in
      let t2 = (handle_counter t1 i now' (outb (0x40 + i) lo)).0 in
      load_pair (channel t i) (bit_and cw 0x0e / 2) lo hi now' start l
        (ap (λ x. channel x i) (control_lem t i cw now w in_range s a)
          ∙ channel-set_channel t i
              (set_mode (channel t i) AccessMode.lsb_then_msb (bit_and cw 0x0e / 2)))
        (write_channel t1 i now' lo l) (write_channel t2 i start hi h)

  -- A counter programmed for two bytes counts down from the value written, 0 standing for 65536, from
  -- the moment of the second byte on: after `e` ticks its gate open, it reads the value less `e`, in
  -- mode 0 until it stops at 0, in the other modes over and over.
  pub programmed-counts :
      (e : ℕ)
      → start < 2 ^ 64
      → e < 2 ^ 64
      → (channel t i).gate ≡ true
      → read_count (channel (programmed t i cw lo hi now now' start) i) (u64 (start + e))
        ≡ counted (bit_and cw 0x0e / 2) (lo + hi * 256) e
  programmed-counts e b b' g =
      rw channel-programmed (read_count-counted loaded e refl g b b' (omega arith))
