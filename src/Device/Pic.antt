-- ===== src/Device/Pic.antt =====
-- The 8259A pair of src/devices/pic.rs. The lock makes each operation atomic, so an operation is a
-- function of the pair; where it may call `notify`, the result says whether it does.
pub mod Priority
pub mod Lines
pub mod Cycle
pub mod Kick
pub mod Snapshot
mod Tests
use tinyvmm.Prelude.{
  ℕ, zero, suc, ◌+◌, ◌-◌, ◌/◌, ◌%◌, ◌^◌, Bool, true, false, not, ◌&&◌, ◌||◌, Option, none, some,
  List, [], ◌∷◌, ltb, leb, ◌==◌, if◌then◌else◌, bit_and, bit_or, u8,
}
use tinyvmm.Device.IoBus.{IoAccess}

abbrev pub icw1_is_init : ℕ
icw1_is_init = 0x10

abbrev pub icw1_ic4 : ℕ
icw1_ic4 = 0x01

abbrev pub cascade_irq : ℕ
cascade_irq = 2

pub data IcwStep : Type 0 where
  idle icw2 icw3 icw4 : IcwStep

pub record Chip : Type 0 where
  pub vector_base : ℕ  -- u8
  pub mask : ℕ  -- u8
  pub irr : ℕ  -- u8
  pub expect_icw4 : Bool
  pub step : IcwStep

unfoldable pub default_chip : Chip
default_chip = record {
  vector_base = 0;
  mask = 0xff;
  irr = 0;
  expect_icw4 = false;
  step = IcwStep.idle;
}

-- `struct Inner`
pub record Pair : Type 0 where
  pub master : Chip
  pub slave : Chip

-- `fn chip`, and storing through the reference it returns
abbrev pub chip : Pair → Bool → Chip
chip p is_slave = if is_slave then p.slave else p.master

abbrev pub set_chip : Pair → Bool → Chip → Pair
set_chip p is_slave c = if is_slave then record p { slave = c } else record p { master = c }

-- `!b` of a u8
abbrev pub not8 : ℕ → ℕ
not8 b = 255 - b

-- `irr & !mask`
abbrev pub requests : Chip → ℕ
requests c = bit_and c.irr (not8 c.mask)

-- `u8::trailing_zeros`, with the width
abbrev pub trailing_zeros : ℕ → ℕ → ℕ
trailing_zeros zero x = 0
trailing_zeros (suc w) x = if x % 2 == 1 then 0 else suc (trailing_zeros w (x / 2))

-- The loop of `highest` from `irq`, with the rounds left.
abbrev pub scan : Bool → ℕ → ℕ → ℕ → ℕ → Option (Bool × ℕ)
scan cascade master slave zero irq = none
scan cascade master slave (suc rounds) irq =
    let rest = scan cascade master slave rounds (irq + 1) in
    if irq == cascade_irq && cascade && not (slave == 0)
    then some (true, trailing_zeros 8 slave)
    else if not (bit_and master (2 ^ irq) == 0)
    then some (false, irq)
    else rest

unfoldable pub highest : Pair → Option (Bool × ℕ)
highest p =
    scan (bit_and p.master.mask (2 ^ cascade_irq) == 0) (requests p.master) (requests p.slave) 8 0

abbrev pub is_some {ℓ} : {A : Type ℓ} → Option A → Bool
is_some none = false
is_some (some a) = true

unfoldable pub output_pending : Pair → Bool
output_pending p = is_some (highest p)

-- `raise`: the pair and whether `notify` is called. A negative `irq` returns as one above 15 does.
unfoldable pub raise : Pair → ℕ → Pair × Bool
raise p irq =
    if leb irq 15
    then (let is_slave = leb 8 irq in
        let c = chip p is_slave in
        let p' = set_chip p is_slave (record c { irr = bit_or c.irr (2 ^ bit_and irq 7) }) in
        (p', is_some (highest p')))
    else (p, false)

-- The INTA cycle.
unfoldable pub acknowledge : Pair → Pair × Option ℕ
acknowledge p = elim (highest p) [
  | none ↦ (p, none)
  | some (is_slave, irq) ↦
      let c = chip p is_slave in
      (
        set_chip p is_slave (record c { irr = bit_and c.irr (not8 (2 ^ irq)) }),
        some (u8 (c.vector_base + irq)),
      )
]

-- The `match chip.step` of a data-port write: the chip, and whether it was a mask write that
-- unmasked something.
abbrev pub data_write : IcwStep → Chip → ℕ → Chip × Bool
data_write IcwStep.icw2 c v =
    (record c { vector_base = bit_and v 0xf8; step = IcwStep.icw3 }, false)
data_write IcwStep.icw3 c v =
    (record c { step = if c.expect_icw4 then IcwStep.icw4 else IcwStep.idle }, false)
data_write IcwStep.icw4 c v = (record c { step = IcwStep.idle }, false)
data_write IcwStep.idle c v = (record c { mask = v }, not (bit_and c.mask (not8 v) == 0))

abbrev pub command_write : Chip → ℕ → Chip
command_write c v =
    if not (bit_and v icw1_is_init == 0)
    then record c {
      expect_icw4 = not (bit_and v icw1_ic4 == 0);
      mask = 0xff;
      irr = 0;
      step = IcwStep.icw2;
    }
    else c

-- The pair, the access answered, and whether a mask write unmasked a latched request.
unfoldable pub handle_chip : Pair → Bool → Bool → IoAccess → Pair × IoAccess × Bool
handle_chip p is_slave cmd_port acc =
    let c = chip p is_slave in
    let v = acc.value % 256 in
    if not acc.is_write
    then (p, record acc { value = if cmd_port then c.irr else c.mask }, false)
    else if cmd_port
    then (set_chip p is_slave (command_write c v), acc, false)
    else (let (c', unmasked) = data_write c.step c v in
        let p' = set_chip p is_slave c' in (p', acc, unmasked && is_some (highest p')))

-- `handle`: the last result is whether `notify` is called.
unfoldable pub handle : Pair → Bool → IoAccess → Pair × IoAccess × Bool
unfolding handle_chip
handle p is_slave acc = handle_chip p is_slave (acc.port == 0x20 || acc.port == 0xa0) acc
