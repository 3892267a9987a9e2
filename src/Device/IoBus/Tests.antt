-- ===== src/Device/IoBus/Tests.antt =====
-- Two devices on the bus of src/devices/io_bus.rs.
use tinyvmm.Prelude.{ℕ, ◌≡◌, true, false, none, some, List, [], ◌∷◌, refl, arith, if◌then◌else◌}
use tinyvmm.Device.IoBus.{IoAccess, Handler, Entry, overlaps_any, register, dispatch}
use tinyvmm.Device.IoBus.Routing.{IsValid, dispatch-register}

-- A latch: a write stores its value, a read returns it.
abbrev latch : Handler ℕ
latch acc s = if acc.is_write then (acc, acc.value) else (record acc { value = s }, s)

-- A port that reads as 0xff and ignores writes.
abbrev fixed : Handler ℕ
fixed acc s = (if acc.is_write then acc else record acc { value = 0xff }, s)

abbrev one : List (Entry ℕ)
one = record { base = 0x20; size = 2; handler = fixed } ∷ []

abbrev two : List (Entry ℕ)
two =
    record { base = 0x20; size = 2; handler = fixed }
    ∷ record { base = 0x92; size = 1; handler = latch }
    ∷ []

abbrev read_at : ℕ → IoAccess
read_at port = record { port = port; access_size = 1; is_write = false; value = 0 }

one-IsValid : IsValid one
one-IsValid = (omega arith, tt, tt)

accepted : register one 0x92 1 latch ≡ some two
unfolding register overlaps_any
accepted = refl

refused : register one 0x21 4 latch ≡ none
unfolding register overlaps_any
refused = refl

floats : dispatch two (read_at 0x60) 5 ≡ (record (read_at 0x60) { value = 0xffff_ffff }, 5, false)
unfolding dispatch
floats = refl

dispatch-register_example :
    dispatch two (read_at 0x92) 5 ≡ (record (read_at 0x92) { value = 5 }, 5, true)
dispatch-register_example = dispatch-register one 0x92 1 latch one-IsValid accepted (read_at 0x92) 5
