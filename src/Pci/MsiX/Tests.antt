-- ===== src/Pci/MsiX/Tests.antt =====
-- A device of two vectors at 0xe0000000, MSI-X on, the second vector masked.
use tinyvmm.Prelude.{◌≡◌, Bool, true, false, [], ◌∷◌, arith, refl}
use tinyvmm.Pci.MsiX.{
  MsiX, Message, set_control, entry, is_masked, pending, message, trigger, handle_table,
}
use tinyvmm.Pci.MsiX.Pending.{IsValid}
use tinyvmm.Pci.MsiX.Delivery.{trigger_lem, unmask, trigger-unmask, trigger-set_control}

abbrev device : MsiX
device = record {
  num_vectors = 2;
  control = 0x8000;
  table =
      record { addr_lo = 0xfee0_0000; addr_hi = 0; data_value = 0x41; ctrl = 0 }
      ∷ record { addr_lo = 0xfee0_1000; addr_hi = 0; data_value = 0x42; ctrl = 1 }
      ∷ [];
  pba = 0 ∷ [];
  table_offset = 0x1000;
  pba_offset = 0x1800;
  bar_base_gpa = 0xe000_0000;
  injected_count = 0;
}

device-IsValid : IsValid device
device-IsValid = record { table = refl; pba = refl }

abbrev always : Message → Bool
always msg = true

trigger_lem_example :
    let (m', sent, ok) = trigger always device 0 in
    (sent ≡ message (entry device 0) ∷ []) × (ok ≡ true) × (pending m' 1 ≡ false)
trigger_lem_example = trigger_lem always device 0 1 device-IsValid (omega arith)

trigger-unmask_example :
    let (m1, sent1, ok) = trigger always device 1 in
    let (m2, access, sent2) = handle_table m1 (unmask device 1 (0 ∷ 0 ∷ 0 ∷ 0 ∷ [])) in
    (sent1 ≡ [])
    × (sent2 ≡ record { addr = 0xfee0_1000; value = 0x42 } ∷ [])
    × (is_masked m2 1 ≡ false)
    × (pending m2 1 ≡ false)
trigger-unmask_example =
    trigger-unmask always device 1 1 (0 ∷ 0 ∷ 0 ∷ 0 ∷ []) device-IsValid (omega arith) (omega arith)
      refl refl refl refl

abbrev held : MsiX
held = record device { control = 0xc000 }

trigger-set_control_example :
    let (m', sent, ok) = trigger always held 0 in
    (sent ≡ []) × (pending (set_control m' 0x8000) 0 ≡ true)
trigger-set_control_example =
    trigger-set_control always held 0 0x8000 held-IsValid (omega arith) refl
  where
    held-IsValid : IsValid held
    held-IsValid = record { table = refl; pba = refl }
