-- ===== src/Device/MmioBus/Tests.antt =====
-- A BAR that is mapped and unmapped on the bus of src/devices/mmio_bus.rs.
use tinyvmm.Prelude.{ℕ, ◌≡◌, true, false, some, List, [], ◌∷◌, refl, arith}
use tinyvmm.Device.MmioBus.{Handler, Entry, overlaps_any, register}
use tinyvmm.Device.MmioBus.Ranges.{IsValid}

abbrev quiet : Handler ℕ
quiet acc s = (acc, s)

abbrev table : List (Entry ℕ)
table = record { base = 0xe000_0000; size = 0x1000; handler = quiet } ∷ []

abbrev with_pba : List (Entry ℕ)
with_pba =
    record { base = 0xe000_0000; size = 0x1000; handler = quiet }
    ∷ record { base = 0xe000_1000; size = 8; handler = quiet }
    ∷ []

table-IsValid : IsValid table
table-IsValid = (omega arith, tt, tt)

mapped : register table 0xe000_1000 8 quiet ≡ some (with_pba, true)
unfolding register overlaps_any
mapped = refl

clash : register table 0xe000_0ff8 16 quiet ≡ some (table, false)
unfolding register overlaps_any
clash = refl
