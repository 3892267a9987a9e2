-- ===== src/Device/Pit/Latching.antt =====
-- The latch of the counters of src/devices/pit.rs.
use tinyvmm.Prelude.{
  ℕ, ◌+◌, ◌*◌, ◌/◌, ◌%◌, ◌^◌, ◌<◌, ◌≡◌, false, bit_and, arith, refl, ap, ◌∙◌, if◌then◌else◌,
}
use tinyvmm.Device.IoBus.{IoAccess}
use tinyvmm.Device.Pit.{
  AccessMode, Channel, Timer, channel, set_channel, read_count, latch_channel, program_channel,
  handle_control, read_counter, handle_counter, low_byte,
}
use tinyvmm.Device.Pit.Counting.{outb, inb, channel-set_channel}

read_count-lt : (c : Channel) (now : ℕ) → c.reload < 2 ^ 16 → read_count c now < 2 ^ 16
unfolding read_count
read_count-lt c now h = ground arith

latch_lem :
    (t : Timer) (i cw now : ℕ)
    → cw < 256
    → i < 3
    → bit_and cw 0xc0 / 64 ≡ i
    → bit_and cw 0x30 / 16 ≡ 0
    → (handle_control t now (outb 0x43 cw)).0 ≡ set_channel t i (latch_channel (channel t i) now)
unfolding handle_control program_channel
latch_lem t i cw now h l s a =
    let byte : cw % 256 ≡ cw = omega arith in
    let kind : bit_and (cw % 256) 0x30 / 16 ≡ 0 = rw byte a in
    ground (arith, ap (λ x. bit_and x 0x3) kind)

-- A read of a counter, by what its channel holds.
abbrev pub sampled : Channel → ℕ → ℕ
sampled c now = if c.latch_valid then c.latched else read_count c now

read_lem :
    (t : Timer) (i now : ℕ)
    → let (c', out) = read_counter (channel t i).access (channel t i) (sampled (channel t i) now) in
      handle_counter t i now (inb (0x40 + i))
      ≡ (set_channel t i c', record (inb (0x40 + i)) { value = out })
unfolding handle_counter
read_lem t i now = refl

read_channel :
    (t : Timer) (i now : ℕ)
    → let r = handle_counter t i now (inb (0x40 + i)) in
      let c = channel t i in
      (channel r.0 i ≡ (read_counter c.access c (sampled c now)).0)
      × (r.1.value ≡ (read_counter c.access c (sampled c now)).1)
read_channel t i now =
    let c = channel t i in
    (
      ap (λ r. channel r.0 i) (read_lem t i now)
          ∙ channel-set_channel t i (read_counter c.access c (sampled c now)).0,
      ap (λ r. r.1.value) (read_lem t i now),
    )

-- Two reads of a latched channel set to two bytes.
read_twice :
    (b : Channel) (now first second : ℕ) {c d e : Channel} {x y : ℕ}
    → b.access ≡ AccessMode.lsb_then_msb
    → b.reload < 2 ^ 16
    → c ≡ latch_channel b now
    → (d ≡ (read_counter c.access c (sampled c first)).0)
      × (x ≡ (read_counter c.access c (sampled c first)).1)
    → (e ≡ (read_counter d.access d (sampled d second)).0)
      × (y ≡ (read_counter d.access d (sampled d second)).1)
    → (x + y * 256 ≡ read_count b now) × (e.latch_valid ≡ false)
read_twice b now first second m h p q r = ground (arith, read_count-lt b now h)

read_stale :
    (b : Channel) (now first second : ℕ) {c d e : Channel} {x y : ℕ}
    → b.access ≡ AccessMode.lsb_only
    → c ≡ latch_channel b now
    → (d ≡ (read_counter c.access c (sampled c first)).0)
      × (x ≡ (read_counter c.access c (sampled c first)).1)
    → (e ≡ (read_counter d.access d (sampled d second)).0)
      × (y ≡ (read_counter d.access d (sampled d second)).1)
    → (x ≡ low_byte (read_count b now)) × (y ≡ low_byte (read_count b now)) × (e ≡ c)
read_stale b now first second m p q r = ground arith

module _ (t : Timer) (i cw now first second : ℕ) where
  abbrev pub latched_timer : Timer
  latched_timer = (handle_control t now (outb 0x43 cw)).0

  abbrev pub first_read : Timer × IoAccess
  first_read = handle_counter latched_timer i first (inb (0x40 + i))

  abbrev pub second_read : Timer × IoAccess
  second_read = handle_counter first_read.0 i second (inb (0x40 + i))

  module _ (w : cw < 256) (in_range : i < 3) (s : bit_and cw 0xc0 / 64 ≡ i)
      (a : bit_and cw 0x30 / 16 ≡ 0) where
    latched_channel : channel latched_timer i ≡ latch_channel (channel t i) now
    latched_channel =
        ap (λ x. channel x i) (latch_lem t i cw now w in_range s a)
        ∙ channel-set_channel t i (latch_channel (channel t i) now)

    -- After the latch command two reads of a counter set to two bytes, whenever they come, give the
    -- count at the command, low byte first, and release the latch.
    pub latched-read_twice :
        (channel t i).access ≡ AccessMode.lsb_then_msb
        → (channel t i).reload < 2 ^ 16
        → (first_read.1.value + second_read.1.value * 256 ≡ read_count (channel t i) now)
          × ((channel second_read.0 i).latch_valid ≡ false)
    latched-read_twice m h =
        read_twice (channel t i) now first second m h latched_channel
          (read_channel latched_timer i first) (read_channel first_read.0 i second)

    -- On a counter set to its low byte every read gives that byte of the latched count, however time
    -- passes: no read releases the latch.
    pub latched-read_stale :
        (channel t i).access ≡ AccessMode.lsb_only
        → (first_read.1.value ≡ low_byte (read_count (channel t i) now))
          × (second_read.1.value ≡ low_byte (read_count (channel t i) now))
          × (channel second_read.0 i ≡ channel latched_timer i)
    latched-read_stale m =
        read_stale (channel t i) now first second m latched_channel
          (read_channel latched_timer i first) (read_channel first_read.0 i second)
