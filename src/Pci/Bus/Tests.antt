-- ===== src/Pci/Bus/Tests.antt =====
-- The host bridge of src/pci/bus.rs with two devices.
use tinyvmm.Prelude.{
  ℕ, ◌+◌, ◌≤◌, ◌≡◌, true, false, some, List, [], ◌∷◌, ◌++◌, map, inl, inr, arith, refl,
}
use tinyvmm.Pci.Config.{BarKind}
use tinyvmm.Pci.Bus.{mmio_window_end, PciFunction, PciBus, assigned, add_device, handle_data}
use tinyvmm.Pci.Bus.Placement.{Stacked, index_size, slot_of, add_device_lem}
use tinyvmm.Pci.Bus.Routing.{select, data_access, dev_at, handle_data_lem}

-- A device that is the number last written to it, with a BAR of 16 KB and one of 4 KB.
abbrev latch : PciFunction ℕ
latch = record {
  config_read = λ offset size d. d + offset;
  config_write = λ offset size v d. v;
  bar_layout = λ d. (BarKind.mmio64, 0x4000) ∷ (BarKind.no_bar, 0) ∷ (BarKind.mmio32, 0x1000) ∷ [];
  assign_bar_base = λ i gpa d. d;
}

abbrev two : PciBus ℕ
two = record {
  config_address = 0;
  devices =
      record { bus = 0; device = 0; function = 0; dev = 100 }
      ∷ record { bus = 0; device = 1; function = 0; dev = 200 }
      ∷ [];
  mmio_next = 0xe000_1000;
}

add_device_lem_example :
    (b' : PciBus ℕ) × (calls : List (ℕ × ℕ × ℕ)) × (add_device latch two 7
      ≡ some (b', record { bus = 0; device = 2; function = 0 }))
    × (b'.devices ≡ two.devices ++ (slot_of two (assigned latch 7 calls) ∷ []))
    × Stacked 0xe000_1000 b'.mmio_next calls
    × (b'.mmio_next ≤ mmio_window_end)
    × (map index_size calls ≡ (0, 0x4000) ∷ (2, 0x1000) ∷ [])
add_device_lem_example =
    add_device_lem latch two 7
      (refl, inr (14, omega arith, refl), (refl, inl refl, (refl, inr (12, omega arith, refl), tt)))
      (omega arith)

handle_data_lem_example :
    let b1 = select 1 8 two in
    ((handle_data latch (data_access 2 2 false 0) b1).0.value ≡ 210)
    × (dev_at (handle_data latch (data_access 2 2 true 0) b1).1.devices 0 ≡ some 100)
handle_data_lem_example =
    handle_data_lem latch two 1 8 2 2 0 0 (refl, refl, refl, (refl, refl, refl, tt)) (omega arith)
      (omega arith) refl
