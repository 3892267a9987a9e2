-- ===== src/Pci/MsiX/Delivery.antt =====
-- Which interrupts of src/pci/msix.rs reach the guest, and when.
use tinyvmm.Prelude.{
  ℕ, ◌+◌, ◌*◌, ◌/◌, ◌%◌, ◌^◌, ◌<◌, ◌≡◌, Bool, true, false, not, ◌&&◌, List, [], ◌∷◌, set,
  get_or-set_self, length-set, take, ◌==◌, if◌then◌else◌, bit_and, bit_or, bit_and_digit,
  bit_and-zero, from_le_bytes, arith, refl, ap, ◌∙◌,
}
use tinyvmm.Device.MmioBus.{MmioAccess}
use tinyvmm.Pci.MsiX.{
  MsiX, Entry, Message, set_control, enabled, function_masked, entry, is_masked, pba_word, pending,
  latch, clear, message, do_inject, blank_entry, trigger, write_ctrl, write_field, handle_table,
}
use tinyvmm.Pci.MsiX.Pending.{IsValid, pending-latch, pending-clear}

-- An interrupt of the vector would go through now.
abbrev pub is_open : MsiX → ℕ → Bool
is_open m v = enabled m && not (function_masked m) && not (is_masked m v)

-- `trigger` of a vector in range sends exactly that vector's message if nothing masks it, and touches no
-- pending bit; otherwise it sends nothing, returns false, and sets that vector's pending bit alone.
pub trigger_lem :
    (accepts : Message → Bool) (m : MsiX) (v j : ℕ)
    → IsValid m
    → v < m.num_vectors
    → let (m', sent, ok) = trigger accepts m v in
      (sent ≡ (if is_open m v then message (entry m v) ∷ [] else []))
      × (ok ≡ is_open m v && accepts (message (entry m v)))
      × (pending m' j ≡ (if not (is_open m v) && j == v then true else pending m j))
unfolding trigger do_inject
trigger_lem accepts m v j valid h = ground (arith, pending-latch m v j valid h)

-- The write of a vector's control field.
write_ctrl_lem :
    (m : MsiX) (v c j : ℕ)
    → IsValid m
    → v < m.num_vectors
    → enabled m ≡ true
    → function_masked m ≡ false
    → is_masked m v ≡ true
    → pending m v ≡ true
    → bit_and c 0x1 ≡ 0
    → let (m', sent) = write_ctrl m v c in
      (sent ≡ message (entry m v) ∷ [])
      × (is_masked m' v ≡ false)
      × (pending m' j ≡ (if j == v then false else pending m j))
unfolding write_ctrl do_inject clear
write_ctrl_lem m v c j valid h e f k p z =
    let e' : Entry = record (entry m v) { ctrl = bit_and c 0x1 } in
    let m' : MsiX = record m { table = set m.table v e' } in
    let self : entry m' v ≡ e' =
      get_or-set_self m.table v e' blank_entry (omega (arith, valid.table)) in
    let valid' : IsValid m' = record {
      table = length-set m.table v e' ∙ valid.table;
      pba = valid.pba;
    } in
    let replays : write_ctrl m v c ≡ do_inject (clear m' v) v = ground arith in
    rw replays (
      ap (λ x. message x ∷ []) self,
      ground (arith, ap (λ x. bit_and x.ctrl 0x1) self, ap (λ x. bit_and x 0x1) z),
      pending-clear m' v j valid' h,
    )

low_two : (x : ℕ) → bit_and x 3 ≡ x % 4
low_two x = omega (
  arith,
  bit_and_digit x 3,
  bit_and_digit (x / 2) 1,
  bit_and-zero (x / 2 / 2) (x / 2 / 2) (omega arith),
)

-- The guest's write of the control field of vector `v`.
abbrev pub unmask : MsiX → ℕ → List ℕ → MmioAccess
unmask m v bytes = record {
  gpa = m.bar_base_gpa + m.table_offset + (16 * v + 12);
  access_size = 4;
  is_write = true;
  bytes = bytes;
}

handle_table-ctrl :
    (m : MsiX) (v : ℕ) (bytes : List ℕ)
    → v < m.num_vectors
    → m.bar_base_gpa + m.table_offset + 16 * m.num_vectors < 2 ^ 64
    → let (m', sent) = write_ctrl m v (from_le_bytes (take 4 bytes)) in
      handle_table m (unmask m v bytes) ≡ (m', unmask m v bytes, sent)
unfolding handle_table write_field
handle_table-ctrl m v bytes h w = ground (arith, low_two (16 * v + 12))

-- `trigger` of a vector that its own mask bit holds back.
trigger-masked :
    (accepts : Message → Bool) (m : MsiX) (v : ℕ)
    → v < m.num_vectors
    → is_masked m v ≡ true
    → trigger accepts m v ≡ (latch m v, [], false)
unfolding trigger
trigger-masked accepts m v h k = ground arith

-- An interrupt for a masked vector is not lost: nothing is sent while the mask bit is set, and the
-- guest's write that clears it sends the vector's message once, with the address and data of its
-- entry, resets its pending bit and leaves the others as they were.
pub trigger-unmask :
    (accepts : Message → Bool) (m : MsiX) (v j : ℕ) (bytes : List ℕ)
    → IsValid m
    → v < m.num_vectors
    → m.bar_base_gpa + m.table_offset + 16 * m.num_vectors < 2 ^ 64
    → enabled m ≡ true
    → function_masked m ≡ false
    → is_masked m v ≡ true
    → bit_and (from_le_bytes (take 4 bytes)) 0x1 ≡ 0
    → let (m1, sent1, ok) = trigger accepts m v in
      let (m2, access, sent2) = handle_table m1 (unmask m v bytes) in
      (sent1 ≡ [])
      × (sent2 ≡ message (entry m v) ∷ [])
      × (is_masked m2 v ≡ false)
      × (pending m2 j ≡ (if j == v then false else pending m j))
unfolding latch
trigger-unmask accepts m v j bytes valid h w e f k z =
    let c = from_le_bytes (take 4 bytes) in
    let pending_now = pending-latch m v v valid h in
    let valid' : IsValid (latch m v) = record {
      table = valid.table;
      pba = length-set m.pba (v / 64) (bit_or (pba_word m v) (2 ^ (v % 64))) ∙ valid.pba;
    } in
    let done = write_ctrl_lem (latch m v) v c j valid' h e f k (ground arith) z in
    rw (trigger-masked accepts m v h k, handle_table-ctrl (latch m v) v bytes h w)
      (refl, done.0, done.1, ground (arith, done.2, pending-latch m v j valid h))

-- An interrupt triggered while the function is masked or MSI-X is off is held back, and lifting the
-- function mask does not send it: whatever is written to Message Control, it stays pending, also
-- where its vector is not masked.
pub trigger-set_control :
    (accepts : Message → Bool) (m : MsiX) (v mc : ℕ)
    → IsValid m
    → v < m.num_vectors
    → enabled m && not (function_masked m) ≡ false
    → let (m', sent, ok) = trigger accepts m v in
      (sent ≡ []) × (pending (set_control m' mc) v ≡ true)
unfolding trigger set_control
trigger-set_control accepts m v mc valid h o = ground (arith, pending-latch m v v valid h)
