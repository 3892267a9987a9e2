-- ===== src/Device/Pic/Tests.antt =====
-- Interrupts through src/devices/pic.rs, set up as Linux does.
use tinyvmm.Prelude.{
  if◌then◌else◌, ℕ, ◌+◌, ◌≡◌, ◌<◌, Bool, true, false, not, ◌&&◌, none, some, refl, arith, u8,
}
use tinyvmm.Device.IoBus.{IoAccess}
use tinyvmm.Device.Pic.{IcwStep, Pair, chip, default_chip, highest, raise, acknowledge, handle}
use tinyvmm.Device.Pic.Priority.{is_requested, priority, first, highest-first}
use tinyvmm.Device.Pic.Lines.{same_line, latched, unlatched, acknowledge_lem}

abbrev outb : ℕ → ℕ → IoAccess
outb port value = record { port = port; access_size = 1; is_write = true; value = value }

abbrev write : Pair → IoAccess → Bool → Pair
write p acc s = (handle p s acc).0

abbrev fresh : Pair
fresh = record { master = default_chip; slave = default_chip }

-- `init_8259A`: vectors from 0x30 and 0x38, then the two masks.
abbrev init : ℕ → ℕ → Pair
init master_mask slave_mask =
    let a = write fresh (outb 0x20 0x11) false in
    let b =
      write (write (write a (outb 0x21 0x30) false) (outb 0x21 4) false) (outb 0x21 1) false in
    let c = write b (outb 0xa0 0x11) true in
    let d = write (write (write c (outb 0xa1 0x38) true) (outb 0xa1 2) true) (outb 0xa1 1) true in
    write (write d (outb 0x21 master_mask) false) (outb 0xa1 slave_mask) true

abbrev ready : Pair
ready = record {
  master = record {
    vector_base = 0x30;
    mask = 0xe9;
    irr = 0;
    expect_icw4 = true;
    step = IcwStep.idle;
  };
  slave = record {
    vector_base = 0x38;
    mask = 0xfd;
    irr = 0;
    expect_icw4 = true;
    step = IcwStep.idle;
  };
}

init_ready : init 0xe9 0xfd ≡ ready
unfolding handle default_chip highest
init_ready = refl

-- 4, 9 and 1 are raised; 1 is served first, then the slave's 9, then 4.
abbrev busy : Pair
busy = (raise (raise (raise ready 4).0 9).0 1).0

served :
    ((acknowledge busy).1 ≡ some 0x31)
    × ((acknowledge (acknowledge busy).0).1 ≡ some 0x39)
    × ((acknowledge (acknowledge (acknowledge busy).0).0).1 ≡ some 0x34)
    × ((acknowledge (acknowledge (acknowledge (acknowledge busy).0).0).0).1 ≡ none)
unfolding acknowledge raise highest
served = (refl, refl, refl, refl)

highest-first_example : highest ready ≡ first (is_requested ready) priority
highest-first_example = highest-first ready (omega arith)

acknowledge_lem_example :
    let (p', vector) = acknowledge busy in
    (vector ≡ some (u8 ((chip busy false).vector_base + 1)))
    × (is_requested busy (false, 1) ≡ true)
    × ((t : Bool) (j : ℕ)
        → j < 8
        → is_requested p' (t, j) ≡ (is_requested busy (t, j) && not (same_line (t, j) (false, 1))))
    × ((t : Bool) (j : ℕ)
        → j < 8
        → latched p' (t, j) ≡ (if same_line (t, j) (false, 1) then 0 else latched busy (t, j)))
    × ((t : Bool) → unlatched (chip p' t) ≡ unlatched (chip busy t))
unfolding raise highest
acknowledge_lem_example = acknowledge_lem busy false 1 (omega arith) refl

-- 4 was latched while masked; the mask write that lets it through kicks.
abbrev waiting : Pair
waiting = record ready {
  master = record {
    vector_base = 0x30;
    mask = 0xfb;
    irr = 0x10;
    expect_icw4 = true;
    step = IcwStep.idle;
  };
}
