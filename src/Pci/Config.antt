-- ===== src/Pci/Config.antt =====
-- The configuration space of src/pci/config.rs, in the constants of src/pci/mod.rs: reads and writes of
-- the guest, and the BAR mappings that follow the COMMAND register.
pub mod Mapping
pub mod Writable
pub mod Restore
mod Tests
use tinyvmm.Prelude.{
  ℕ, zero, suc, ◌+◌, ◌-◌, ◌*◌, ◌/◌, ◌%◌, ◌^◌, Bool, true, false, not, ◌&&◌, ◌||◌, List, [], ◌∷◌,
  ◌++◌, get_or, set, take, drop, replicate, ltb, leb, ◌==◌, if◌then◌else◌, bit_and, bit_or, u32,
}

abbrev pub cfg_command : ℕ
cfg_command = 0x04

abbrev pub cfg_bar0 : ℕ
cfg_bar0 = 0x10

abbrev pub cfg_space_size : ℕ
cfg_space_size = 0x100

abbrev pub cmd_memory_space : ℕ
cmd_memory_space = 2

abbrev pub cap_list_start : ℕ
cap_list_start = 0x40

pub data BarKind : Type 0 where
  no_bar io mmio32 mmio64 : BarKind

pub record Bar : Type 0 where
  pub kind : BarKind
  pub prefetchable : Bool
  pub size : ℕ  -- u32
  pub value_lo : ℕ  -- u32
  pub value_hi : ℕ  -- u32
  pub mapped : Bool
  pub mapped_gpa : ℕ  -- u64

abbrev pub default_bar : Bar
default_bar = record {
  kind = BarKind.no_bar;
  prefetchable = false;
  size = 0;
  value_lo = 0;
  value_hi = 0;
  mapped = false;
  mapped_gpa = 0;
}

pub data BarEvent : Type 0 where
  mapped_at : ℕ → ℕ → ℕ → BarEvent  -- index, GPA, size
  unmapped : ℕ → BarEvent

pub record ConfigSpace : Type 0 where
  pub cfg : List ℕ
  pub writable_mask : List ℕ
  pub bars : List Bar
  pub cap_next_alloc : ℕ

unfoldable pub new : ConfigSpace
new = record {
  cfg = replicate 256 0;
  writable_mask = replicate 256 0;
  bars = replicate 6 default_bar;
  cap_next_alloc = cap_list_start;
}

-- `read_le`, of the bytes given
abbrev pub read_le : List ℕ → ℕ
read_le [] = 0
read_le (b ∷ bs) = bit_or b (read_le bs * 256)

unfoldable pub read16 : ConfigSpace → ℕ → ℕ
read16 c off = read_le (take 2 (drop off c.cfg))

abbrev pub command : ConfigSpace → ℕ
command c = read16 c cfg_command

abbrev pub bar_at : List Bar → ℕ → Bar
bar_at bars i = get_or bars i default_bar

abbrev pub is_memory : BarKind → Bool
is_memory BarKind.no_bar = false
is_memory BarKind.io = false
is_memory BarKind.mmio32 = true
is_memory BarKind.mmio64 = true

abbrev pub is_mmio64 : BarKind → Bool
is_mmio64 BarKind.no_bar = false
is_mmio64 BarKind.io = false
is_mmio64 BarKind.mmio32 = false
is_mmio64 BarKind.mmio64 = true

-- `!(size - 1)` of a u32
abbrev pub not_below : ℕ → ℕ
not_below size = 2 ^ 32 - 1 - (size - 1)

unfoldable pub bar_size_mask_low : Bar → ℕ
bar_size_mask_low b = if b.size == 0 then 0 else elim b.kind [
  | no_bar ↦ 0
  | io ↦ bit_and (not_below b.size) 0xffff_fffc
  | mmio32 ↦ bit_and (not_below b.size) 0xffff_fff0
  | mmio64 ↦ bit_and (not_below b.size) 0xffff_fff0
]

unfoldable pub bar_size_mask_high : Bar → ℕ
bar_size_mask_high b = if not (is_mmio64 b.kind) || b.size == 0 then 0 else 0xffff_ffff

-- A slot without a BAR holds the high half of a 64-bit one before it.
abbrev pub is_high_half : List Bar → ℕ → Bool
is_high_half bars idx = ltb 0 idx && is_mmio64 (bar_at bars (idx - 1)).kind

abbrev pub flag : Bool → ℕ → ℕ
flag on v = if on then v else 0

unfoldable pub read_bar_dword : List Bar → ℕ → ℕ
unfolding bar_size_mask_low bar_size_mask_high
read_bar_dword bars idx =
    let b = bar_at bars idx in
    let below = bar_at bars (idx - 1) in
    let v = bit_and b.value_lo (bar_size_mask_low b) in
    elim b.kind [
      | no_bar ↦
          if is_high_half bars idx then bit_and below.value_hi (bar_size_mask_high below) else 0
      | io ↦ bit_or v 1
      | mmio32 ↦ if b.prefetchable then bit_or v 8 else v
      | mmio64 ↦ if b.prefetchable then bit_or (bit_or v 4) 8 else bit_or v 4
    ]

abbrev pub has_bar : BarKind → Bool
has_bar BarKind.no_bar = false
has_bar BarKind.io = true
has_bar BarKind.mmio32 = true
has_bar BarKind.mmio64 = true

unfoldable pub write_bar_dword : List Bar → ℕ → ℕ → List Bar
unfolding bar_size_mask_low bar_size_mask_high
write_bar_dword bars idx value =
    let b = bar_at bars idx in
    let below = bar_at bars (idx - 1) in
    if has_bar b.kind
    then set bars idx (record b { value_lo = bit_and value (bar_size_mask_low b) })
    else if is_high_half bars idx
    then set bars (idx - 1) (record below { value_hi = bit_and value (bar_size_mask_high below) })
    else bars

-- The address that a memory BAR holds.
abbrev pub bar_gpa : Bar → ℕ
bar_gpa b =
    let low = bit_and b.value_lo (2 ^ 64 - 16) in
    if is_mmio64 b.kind then bit_or low (b.value_hi * 2 ^ 32) else low

-- One round of `recompute_mappings`.
unfoldable pub remap : Bool → ℕ → Bar → Bar × List BarEvent
remap mem_on i b =
    let gpa = bar_gpa b in
    let want = mem_on && not (gpa == 0) in
    if not (is_memory b.kind)
    then (b, [])
    else if want && not b.mapped
    then (record b { mapped = true; mapped_gpa = gpa }, BarEvent.mapped_at i gpa b.size ∷ [])
    else if not want && b.mapped
    then (record b { mapped = false }, BarEvent.unmapped i ∷ [])
    else if want && b.mapped && not (b.mapped_gpa == gpa)
    then (record b { mapped_gpa = gpa }, BarEvent.unmapped i ∷ BarEvent.mapped_at i gpa b.size ∷ [])
    else (b, [])

-- The rounds from BAR `i` on.
unfoldable pub recompute_mappings : Bool → ℕ → List Bar → List Bar × List BarEvent
unfolding remap
recompute_mappings mem_on i [] = ([], [])
recompute_mappings mem_on i (b ∷ bs) =
    let (b', events) = remap mem_on i b in
    let (bs', more) = recompute_mappings mem_on (i + 1) bs in (b' ∷ bs', events ++ more)

unfoldable pub write_byte : ConfigSpace → ℕ → ℕ → ConfigSpace
write_byte c offset value =
    let mask = get_or c.writable_mask offset 0 in
    record c {
      cfg =
          set c.cfg offset
            (bit_or (bit_and (get_or c.cfg offset 0) (255 - mask)) (bit_and value mask));
    }

-- `for i in 0..size { self.write_byte(offset + i, (value >> 8 * i) & 0xFF) }`
unfoldable pub write_each : ConfigSpace → ℕ → ℕ → ℕ → ConfigSpace
unfolding write_byte
write_each c offset zero value = c
write_each c offset (suc size) value =
    write_each (write_byte c offset (value % 256)) (offset + 1) size (value / 256)

-- `(1 << (8 * size)) - 1`, or all ones for 4 bytes
abbrev pub ones : ℕ → ℕ
ones size = if size == 4 then 0xffff_ffff else 2 ^ (8 * size) - 1

unfoldable pub read : ConfigSpace → ℕ → ℕ → ℕ
unfolding read_bar_dword
read c offset size =
    if ltb cfg_space_size (offset + size)
    then ones size
    else if leb cfg_bar0 offset
        && leb (offset + size) (cfg_bar0 + 24)
        && (offset - cfg_bar0) / 4 == (offset + size - 1 - cfg_bar0) / 4
    then bit_and
        (read_bar_dword c.bars ((offset - cfg_bar0) / 4) / 2 ^ (8 * ((offset - cfg_bar0) % 4)))
        (ones size)
    else read_le (take size (drop offset c.cfg))

-- The dword that a write of part of a BAR makes of what it holds.
abbrev pub merge_bar : List Bar → ℕ → ℕ → ℕ → ℕ → ℕ
merge_bar bars idx byte_off size value =
    let cur = bit_and (read_bar_dword bars idx) (bar_size_mask_low (bar_at bars idx)) in
    let m = u32 (ones size * 2 ^ (8 * byte_off)) in
    if size == 4 && byte_off == 0
    then value
    else bit_or (bit_and cur (2 ^ 32 - 1 - m)) (bit_and (u32 (value * 2 ^ (8 * byte_off))) m)

unfoldable pub write : ConfigSpace → ℕ → ℕ → ℕ → ConfigSpace × List BarEvent
unfolding write_each recompute_mappings write_bar_dword
write c offset size value =
    let written = write_each c offset size value in
    let idx = (offset - cfg_bar0) / 4 in
    if ltb cfg_space_size (offset + size)
    then (c, [])
    else if leb offset (cfg_command + 1) && ltb cfg_command (offset + size)
    then (if command c == command written
        then (written, [])
        else (let (bars, events) =
              recompute_mappings (not (bit_and (command written) cmd_memory_space == 0)) 0
                written.bars in
            (record written { bars = bars }, events)))
    else if leb cfg_bar0 offset && leb (offset + size) (cfg_bar0 + 24)
    then (
      record c {
        bars =
            write_bar_dword c.bars idx (merge_bar c.bars idx ((offset - cfg_bar0) % 4) size value);
      },
      [],
    )
    else (written, [])
