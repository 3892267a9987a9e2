-- ===== src/Pci/Bus.antt =====
-- The PCI host bridge of src/pci/bus.rs, with `decode_config_address` of src/pci/mod.rs: the guest's
-- two ports, the devices behind them, and the addresses that BARs get before the guest starts. A
-- device is a `PciFunction` over its own state; the shared pointer to it is its place in the slot.
pub mod Placement
pub mod Routing
mod Tests
use tinyvmm.Prelude.{
  ℕ, zero, suc, ◌+◌, ◌-◌, ◌*◌, ◌/◌, ◌%◌, ◌^◌, Bool, true, false, not, ◌&&◌, Option, none, some,
  List, [], ◌∷◌, ◌++◌, length, ◌>>=◌, ltb, ◌==◌, if◌then◌else◌, bit_and, bit_or, u8, u16, u32, u64,
  sub64, to_le_bytes, from_le_bytes, take,
}
use tinyvmm.Device.IoBus.{IoAccess}
use tinyvmm.Pci.Config.{BarKind}

abbrev pub config_address_enable : ℕ
config_address_enable = 0x8000_0000

abbrev pub config_address_port : ℕ
config_address_port = 0xcf8

abbrev pub config_data_port : ℕ
config_data_port = 0xcfc

abbrev pub mmio_window_base : ℕ
mmio_window_base = 0xe000_0000

abbrev pub mmio_window_end : ℕ
mmio_window_end = 0xfec0_0000

pub record PciFunction {ℓ} (F : Type ℓ) : Type ℓ where
  pub config_read : ℕ → ℕ → F → ℕ
  pub config_write : ℕ → ℕ → ℕ → F → F
  pub bar_layout : F → List (BarKind × ℕ)
  pub assign_bar_base : ℕ → ℕ → F → F

pub record Slot {ℓ} (F : Type ℓ) : Type ℓ where
  pub bus : ℕ
  pub device : ℕ
  pub function : ℕ
  pub dev : F

pub record PciBus {ℓ} (F : Type ℓ) : Type ℓ where
  pub config_address : ℕ  -- u32
  pub devices : List (Slot F)
  pub mmio_next : ℕ  -- u64

pub record Bdf : Type 0 where
  pub bus : ℕ
  pub device : ℕ
  pub function : ℕ

pub record DecodedAddress : Type 0 where
  pub enable : Bool
  pub bus : ℕ
  pub dev : ℕ
  pub fn : ℕ
  pub reg : ℕ

unfoldable pub decode_config_address : ℕ → DecodedAddress
decode_config_address addr = record {
  enable = not (bit_and addr config_address_enable == 0);
  bus = u8 (bit_and (addr / 2 ^ 16) 0xff);
  dev = u8 (bit_and (addr / 2 ^ 11) 0x1f);
  fn = u8 (bit_and (addr / 2 ^ 8) 0x07);
  reg = u8 (bit_and addr 0xfc);
}

-- `(mmio_next + mask) & !mask` with `mask = size - 1`.
unfoldable pub aligned_base : ℕ → ℕ → ℕ
aligned_base next size = let mask = sub64 size 1 in bit_and (u64 (next + mask)) (2 ^ 64 - 1 - mask)

abbrev pub is_mmio : BarKind → Bool
is_mmio BarKind.no_bar = false
is_mmio BarKind.io = false
is_mmio BarKind.mmio32 = true
is_mmio BarKind.mmio64 = true

abbrev pub is_io : BarKind → Bool
is_io BarKind.no_bar = false
is_io BarKind.io = true
is_io BarKind.mmio32 = false
is_io BarKind.mmio64 = false

-- The calls of `assign_bar_base` for the BARs from `i` on, as index, base and size, and `mmio_next` after
-- them; none is a panic.
unfoldable pub assign_from : ℕ → ℕ → List (BarKind × ℕ) → Option (ℕ × List (ℕ × ℕ × ℕ))
unfolding aligned_base
assign_from i next [] = some (next, [])
assign_from i next ((kind, size) ∷ layout) =
    let base = aligned_base next size in
    let placed = assign_from (i + 1) (u64 (base + size)) layout in
    let skipped = assign_from (i + 1) next layout in
    if is_io kind
    then none
    else if not (is_mmio kind)
    then skipped
    else if ltb mmio_window_end (u64 (base + size))
    then none
    else (placed >>= λ r. some (r.0, (i, base, size) ∷ r.1))

-- `(1 << (8 * size)) - 1`, for an access that is not of 4 bytes.
abbrev pub access_mask : ℕ → ℕ
access_mask size = 2 ^ (8 * size) - 1

-- An access that nothing answers.
abbrev pub all_ones : IoAccess → IoAccess
all_ones acc = if acc.is_write then acc else record acc { value = 0xffff_ffff }

module _ {ℓ} {F : Type ℓ} where
  unfoldable pub new : PciBus F
  new = record { config_address = 0; devices = []; mmio_next = mmio_window_base }

  unfoldable pub snapshot_capture : PciBus F → List ℕ
  snapshot_capture b = to_le_bytes 4 b.config_address

  unfoldable pub snapshot_apply : PciBus F → List ℕ → PciBus F
  snapshot_apply b bytes =
      if ltb (length bytes) 4 then b else record b { config_address = from_le_bytes (take 4 bytes) }

  unfoldable pub handle_address : IoAccess → PciBus F → IoAccess × PciBus F
  handle_address acc b =
      let byte_off = acc.port - config_address_port in
      let mask = u32 (access_mask acc.access_size * 2 ^ (8 * byte_off)) in
      let cur = b.config_address in
      let v = cur / 2 ^ (8 * byte_off) in
      if acc.is_write
      then (if acc.access_size == 4 then (acc, record b { config_address = acc.value }) else (
        acc,
        record b {
          config_address =
              bit_or (bit_and cur (2 ^ 32 - 1 - mask))
                (bit_and (u32 (acc.value * 2 ^ (8 * byte_off))) mask);
        },
      ))
      else (
        record acc {
          value = if acc.access_size == 4 then v else bit_and v (access_mask acc.access_size);
        },
        b,
      )

  abbrev pub is_at : Slot F → ℕ → ℕ → ℕ → Bool
  is_at s bus dev f = s.bus == bus && s.device == dev && s.function == f

  unfoldable pub find : List (Slot F) → ℕ → ℕ → ℕ → Option F
  find [] bus dev f = none
  find (s ∷ slots) bus dev f =
      let rest = find slots bus dev f in if is_at s bus dev f then some s.dev else rest

  -- A write through the pointer that `find` gives.
  unfoldable pub update : (F → F) → List (Slot F) → ℕ → ℕ → ℕ → List (Slot F)
  update g [] bus dev f = []
  update g (s ∷ slots) bus dev f =
      let rest = update g slots bus dev f in
      if is_at s bus dev f then record s { dev = g s.dev } ∷ slots else s ∷ rest

module _ {ℓ} {F : Type ℓ} (fn : PciFunction F) where
  abbrev pub assigned : F → List (ℕ × ℕ × ℕ) → F
  assigned d [] = d
  assigned d ((i, base, size) ∷ rest) = assigned (fn.assign_bar_base i base d) rest

  unfoldable pub assign_bars : PciBus F → F → Option (PciBus F × F)
  unfolding assign_from
  assign_bars b d = assign_from 0 b.mmio_next (fn.bar_layout d) >>= λ r.
      some (record b { mmio_next = r.0 }, assigned d r.1)

  unfoldable pub add_device : PciBus F → F → Option (PciBus F × Bdf)
  unfolding assign_bars
  add_device b d = do
    (b', d') ← assign_bars b d
    let device = u8 (length b.devices)
    some (
      record b' {
        devices = b.devices ++ (record { bus = 0; device = device; function = 0; dev = d' } ∷ []);
      },
      record { bus = 0; device = device; function = 0 },
    )

  unfoldable pub handle_data : IoAccess → PciBus F → IoAccess × PciBus F
  unfolding decode_config_address find update
  handle_data acc b =
      let dec = decode_config_address b.config_address in
      let offset = dec.reg + (acc.port - config_data_port) in
      let write = fn.config_write offset acc.access_size acc.value in
      if not dec.enable then (all_ones acc, b) else (elim (find b.devices dec.bus dec.dev dec.fn) [
        | none ↦ (all_ones acc, b)
        | some d ↦
            if acc.is_write
            then (acc, record b { devices = update write b.devices dec.bus dec.dev dec.fn })
            else (record acc { value = fn.config_read offset acc.access_size d }, b)
      ])
