-- ===== src/Pci/Config/Tests.antt =====
-- A device with a 64-bit BAR of 64 KiB at 0xe0000000, memory space off.
use tinyvmm.Prelude.{
  ◌≡◌, ◌≢◌, not, none, [], ◌∷◌, get_or, replicate, ◌==◌, arith, refl, bit, bit_and,
}
use tinyvmm.Pci.Config.{
  BarKind, Bar, default_bar, BarEvent, ConfigSpace, read16, command, bar_at, cmd_memory_space,
  remap, recompute_mappings, read_bar_dword, bar_size_mask_low, write_bar_dword, write_byte,
  write_each, write, read,
}
use tinyvmm.Pci.Config.Mapping.{seen, shown, wanted, seen-write}
use tinyvmm.Pci.Config.Writable.{bit-write}
use tinyvmm.Pci.Config.Restore.{snapshot_capture, snapshot_apply, shown-snapshot_apply}

abbrev bar : Bar
bar = record default_bar { kind = BarKind.mmio64; size = 0x1_0000; value_lo = 0xe000_0000 }

abbrev device : ConfigSpace
device = record {
  cfg = 0xf4 ∷ 0x1a ∷ 0x41 ∷ 0x10 ∷ replicate 252 0;
  writable_mask = 0 ∷ 0 ∷ 0 ∷ 0 ∷ 0xff ∷ 0xff ∷ replicate 250 0;
  bars = bar ∷ replicate 5 default_bar;
  cap_next_alloc = 0x40;
}

turned_on : (write device 4 2 2).1 ≡ BarEvent.mapped_at 0 0xe000_0000 0x1_0000 ∷ []
unfolding write write_each write_byte recompute_mappings remap read16
turned_on = refl

sized : read (write device 0x10 4 0xffff_ffff).0 0x10 4 ≡ 0xffff_0004
unfolding write write_each write_byte write_bar_dword read read_bar_dword bar_size_mask_low
sized = refl

seen-write_example :
    let (c', events) = write device 4 2 2 in seen events 0 none ≡ shown (bar_at c'.bars 0)
seen-write_example = seen-write device 4 2 2 0 (omega arith)

changed : command (write device 4 2 2).0 ≢ command device
unfolding write write_each write_byte recompute_mappings remap read16
changed = omega arith

bit-write_example :
    bit 4 (get_or (write device 0 4 0xffff_ffff).0.cfg 0 0) ≡ bit 4 (get_or device.cfg 0 0)
bit-write_example = bit-write 0 4 (omega arith) device 0 4 0xffff_ffff (omega arith) refl

-- The same device with memory space on, and a fresh one to restore it into.
abbrev running : ConfigSpace
running = record device { cfg = 0xf4 ∷ 0x1a ∷ 0x41 ∷ 0x10 ∷ 2 ∷ replicate 251 0 }

shown-snapshot_apply_example :
    let (cfg, vals) = snapshot_capture running in
    let (d, events) = snapshot_apply device cfg vals in
    (d.cfg ≡ running.cfg)
    × (shown (bar_at d.bars 0) ≡ wanted (not (bit_and (command running) cmd_memory_space == 0)) bar)
    × (seen events 0 none ≡ shown (bar_at d.bars 0))
shown-snapshot_apply_example = shown-snapshot_apply running device 0 refl (omega arith) refl refl

restored_mapping :
    (snapshot_apply device (snapshot_capture running).0 (snapshot_capture running).1).1
    ≡ BarEvent.mapped_at 0 0xe000_0000 0x1_0000 ∷ []
unfolding snapshot_apply snapshot_capture recompute_mappings remap read16
restored_mapping = refl
