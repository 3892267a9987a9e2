-- ===== src/Device/Pit/Tests.antt =====
-- Channel 2 counting 1000 ticks in mode 0, and a channel set to its low byte.
use tinyvmm.Prelude.{◌+◌, ◌*◌, ◌/◌, ◌≡◌, true, false, arith, refl, u64, bit_and}
use tinyvmm.Device.Pit.{AccessMode, Channel, Timer, channel, read_count, low_byte}
use tinyvmm.Device.Pit.Counting.{counted, programmed, programmed-counts}
use tinyvmm.Device.Pit.Latching.{latched_timer, first_read, second_read, latched-read_stale}

abbrev fast : Channel
fast = record {
  access = AccessMode.lsb_then_msb;
  mode = 2;
  reload = 1000;
  reload_have_lsb = false;
  reload_lsb = 232;
  read_msb_next = false;
  latch_valid = false;
  latched = 0;
  latched_msb_next = false;
  gate = true;
  start_ticks = 500;
  running = true;
}

abbrev timer : Timer
timer = record {
  ch0 = fast;
  ch1 = record fast { access = AccessMode.lsb_only };
  ch2 = fast;
  port61 = 1;
}

counts : (read_count fast 1600 ≡ 900) × (read_count fast 500 ≡ 1000)
unfolding read_count
counts = (refl, refl)

programmed-counts_example :
    read_count (channel (programmed timer 2 0xb0 0xe8 3 10 20 30) 2) (u64 (30 + 400))
    ≡ counted (bit_and 0xb0 0x0e / 2) (0xe8 + 3 * 256) 400
programmed-counts_example =
    programmed-counts timer 2 0xb0 0xe8 3 10 20 30 (omega arith) (omega arith) (omega arith)
      (omega arith) refl refl 400 (omega arith) (omega arith) refl

latched-read_stale_example :
    ((first_read timer 1 0x40 700 800 900).1.value ≡ low_byte (read_count (channel timer 1) 700))
    × ((second_read timer 1 0x40 700 800 900).1.value ≡ low_byte (read_count (channel timer 1) 700))
    × (channel (second_read timer 1 0x40 700 800 900).0 1
        ≡ channel (latched_timer timer 1 0x40 700 800 900) 1)
latched-read_stale_example =
    latched-read_stale timer 1 0x40 700 800 900 (omega arith) (omega arith) refl refl refl
