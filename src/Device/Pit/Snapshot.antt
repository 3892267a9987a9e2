-- ===== src/Device/Pit/Snapshot.antt =====
-- The 64 bytes in which src/devices/pit.rs saves the timer: for a running counter the ticks since it
-- started, which are taken off the clock of the host that resumes.
use tinyvmm.Prelude.{
  ℕ, ◌+◌, ◌^◌, ◌<◌, ◌≡◌, Bool, false, not, List, ◌∷◌, ◌++◌, length, length-append, get_or, take,
  drop, ltb, ◌==◌, if◌then◌else◌, arith, ap, ◌∙◌, to_le_bytes, from_le_bytes,
  from_le_bytes-to_le_bytes, u64, sub64,
}
use tinyvmm.Device.Pit.{AccessMode, from_bits, Channel, Timer, channel, read_count}

abbrev pub mode_byte : AccessMode → ℕ
mode_byte AccessMode.latch = 0
mode_byte AccessMode.lsb_only = 1
mode_byte AccessMode.msb_only = 2
mode_byte AccessMode.lsb_then_msb = 3

abbrev pub flag : Bool → ℕ
flag b = if b then 1 else 0

-- The 21 bytes of a channel.
unfoldable pub channel_bytes : Channel → ℕ → List ℕ
channel_bytes c now =
    mode_byte c.access
    ∷ c.mode
    ∷ (to_le_bytes 2 c.reload
        ++ (flag c.reload_have_lsb
            ∷ c.reload_lsb
            ∷ flag c.read_msb_next
            ∷ flag c.latch_valid
            ∷ (to_le_bytes 2 c.latched
                ++ (flag c.latched_msb_next
                    ∷ flag c.gate
                    ∷ flag c.running
                    ∷ to_le_bytes 8 (if c.running then sub64 now c.start_ticks else 0)))))

unfoldable pub snapshot_capture : Timer → ℕ → List ℕ
unfolding channel_bytes
snapshot_capture t now =
    t.port61 ∷ (channel_bytes t.ch0 now ++ (channel_bytes t.ch1 now ++ channel_bytes t.ch2 now))

-- The channel that 21 bytes give.
unfoldable pub channel_at : List ℕ → ℕ → Channel
channel_at b now = record {
  access = from_bits (get_or b 0 0);
  mode = get_or b 1 0;
  reload = from_le_bytes (take 2 (drop 2 b));
  reload_have_lsb = not (get_or b 4 0 == 0);
  reload_lsb = get_or b 5 0;
  read_msb_next = not (get_or b 6 0 == 0);
  latch_valid = not (get_or b 7 0 == 0);
  latched = from_le_bytes (take 2 (drop 8 b));
  latched_msb_next = not (get_or b 10 0 == 0);
  gate = not (get_or b 11 0 == 0);
  start_ticks = sub64 now (from_le_bytes (take 8 (drop 13 b)));
  running = not (get_or b 12 0 == 0);
}

unfoldable pub restored : List ℕ → ℕ → Timer
unfolding channel_at
restored b now = record {
  ch0 = channel_at (drop 1 b) now;
  ch1 = channel_at (drop 22 b) now;
  ch2 = channel_at (drop 43 b) now;
  port61 = get_or b 0 0;
}

-- Fewer than 64 bytes change nothing.
unfoldable pub snapshot_apply : Timer → ℕ → List ℕ → Timer
unfolding restored
snapshot_apply t now b = if ltb (length b) 64 then t else restored b now

pub record Fits (c : Channel) : Type 0 where
  pub reload : c.reload < 2 ^ 16
  pub latched : c.latched < 2 ^ 16
  pub start_ticks : c.start_ticks < 2 ^ 64

-- The channel as it goes on at `later` from where it stood at `now`.
abbrev pub resumed : Channel → ℕ → ℕ → Channel
resumed c now later = record c {
  start_ticks = sub64 later (if c.running then sub64 now c.start_ticks else 0);
}

channel_at-channel_bytes :
    (c : Channel) (rest : List ℕ) (now later : ℕ)
    → Fits c
    → channel_at (channel_bytes c now ++ rest) later ≡ resumed c now later
unfolding channel_at channel_bytes
channel_at-channel_bytes c rest now later f = ground (
  arith,
  from_le_bytes-to_le_bytes 2 c.reload f.reload,
  from_le_bytes-to_le_bytes 2 c.latched f.latched,
  from_le_bytes-to_le_bytes 8 (if c.running then sub64 now c.start_ticks else 0) (ground arith),
)

snapshot_apply-snapshot_capture :
    (t u : Timer) (rest : List ℕ) (now later : ℕ)
    → Fits t.ch0
    → Fits t.ch1
    → Fits t.ch2
    → snapshot_apply u later (snapshot_capture t now ++ rest) ≡ record {
      ch0 = resumed t.ch0 now later;
      ch1 = resumed t.ch1 now later;
      ch2 = resumed t.ch2 now later;
      port61 = t.port61;
    }
unfolding snapshot_apply restored snapshot_capture channel_bytes
snapshot_apply-snapshot_capture t u rest now later f g h =
    let rest2 = channel_bytes t.ch2 now ++ rest in
    let e0 = channel_at-channel_bytes t.ch0 (channel_bytes t.ch1 now ++ rest2) now later f in
    let e1 = channel_at-channel_bytes t.ch1 rest2 now later g in
    let e2 = channel_at-channel_bytes t.ch2 rest now later h in
    let enough : ltb (length (snapshot_capture t now ++ rest)) 64 ≡ false =
      ground (arith, length-append (snapshot_capture t now) rest) in
    ap (λ short. if short then u else restored (snapshot_capture t now ++ rest) later) enough
    ∙ (λ k. record { ch0 = e0 k; ch1 = e1 k; ch2 = e2 k; port61 = t.port61 })

read_count-resumed :
    (c : Channel) (now later d : ℕ)
    → c.start_ticks < 2 ^ 64
    → now < 2 ^ 64
    → later < 2 ^ 64
    → read_count (resumed c now later) (u64 (later + d)) ≡ read_count c (u64 (now + d))
unfolding read_count
read_count-resumed c now later d s n l = ground arith

-- A resumed timer goes on counting where it was saved: `d` ticks after the resumption, whatever the
-- clocks of the two hosts, each counter reads what it would have read `d` ticks after the capture.
pub snapshot_keeps_counts :
    (t u : Timer) (rest : List ℕ) (i now later d : ℕ)
    → Fits t.ch0
    → Fits t.ch1
    → Fits t.ch2
    → now < 2 ^ 64
    → later < 2 ^ 64
    → read_count
        (channel (snapshot_apply u later (snapshot_capture t now ++ rest)) i)
        (u64 (later + d))
      ≡ read_count (channel t i) (u64 (now + d))
snapshot_keeps_counts t u rest i now later d f g h n l =
    rw (snapshot_apply-snapshot_capture t u rest now later f g h) (
      ground (
        arith,
        read_count-resumed t.ch0 now later d f.start_ticks n l,
        read_count-resumed t.ch1 now later d g.start_ticks n l,
        read_count-resumed t.ch2 now later d h.start_ticks n l,
      ))
