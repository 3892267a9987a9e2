-- ===== src/Pci/Config/Mapping.antt =====
-- The BAR events of src/pci/config.rs against the mappings that they are meant to describe.
use tinyvmm.Prelude.{
  ℕ, zero, suc, ◌+◌, ◌-◌, ◌/◌, ◌%◌, ◌<◌, ◌≤◌, ◌≡◌, ◌≢◌, Bool, true, not, ◌&&◌, Option, none, some,
  List, [], ◌∷◌, ◌++◌, length, set, ◌==◌, if◌then◌else◌, arith, refl, ap, ◌∙◌, bit_and,
}
use tinyvmm.Pci.Config.{
  Bar, BarEvent, ConfigSpace, cmd_memory_space, cfg_command, cfg_space_size, cfg_bar0, read16,
  merge_bar, bar_size_mask_low, bar_size_mask_high, command, bar_at, is_memory, bar_gpa, remap,
  recompute_mappings, write_byte, write_each, write_bar_dword, write,
}

-- Where a BAR is mapped, as the events of BAR `i` tell it to one who knew where it was before.
abbrev pub seen : List BarEvent → ℕ → Option ℕ → Option ℕ
seen [] i at = at
seen (BarEvent.mapped_at k gpa size ∷ es) i at = seen es i (if k == i then some gpa else at)
seen (BarEvent.unmapped k ∷ es) i at = seen es i (if k == i then none else at)

-- Where the device takes the BAR to be mapped.
abbrev pub shown : Bar → Option ℕ
shown b = if b.mapped then some b.mapped_gpa else none

seen-append :
    (es fs : List BarEvent) (i : ℕ) (at : Option ℕ)
    → seen (es ++ fs) i at ≡ seen fs i (seen es i at)
seen-append [] fs i at = refl
seen-append (BarEvent.mapped_at k gpa size ∷ es) fs i at =
    seen-append es fs i (if k == i then some gpa else at)
seen-append (BarEvent.unmapped k ∷ es) fs i at = seen-append es fs i (if k == i then none else at)

seen-remap_self :
    (on : Bool) (i : ℕ) (b : Bar) → seen (remap on i b).1 i (shown b) ≡ shown (remap on i b).0
unfolding remap
seen-remap_self on i b = ground arith

seen-remap_other :
    (on : Bool) (i j : ℕ) (b : Bar) (at : Option ℕ) → i ≢ j → seen (remap on i b).1 j at ≡ at
unfolding remap
seen-remap_other on i j b at h = ground arith

seen-recompute_before :
    (on : Bool) (i j : ℕ) (bars : List Bar) (at : Option ℕ)
    → j < i
    → seen (recompute_mappings on i bars).1 j at ≡ at
unfolding recompute_mappings
seen-recompute_before on i j [] at h = refl
seen-recompute_before on i j (b ∷ bs) at h =
    seen-append (remap on i b).1 (recompute_mappings on (i + 1) bs).1 j at
    ∙ ap (seen (recompute_mappings on (i + 1) bs).1 j) (seen-remap_other on i j b at (omega arith))
    ∙ seen-recompute_before on (i + 1) j bs at (omega arith)

-- The events of `recompute_mappings` lead from the mappings before to those after, for every BAR.
seen-recompute_mappings :
    (on : Bool) (i n : ℕ) (bars : List Bar)
    → n < length bars
    → seen (recompute_mappings on i bars).1 (i + n) (shown (bar_at bars n))
      ≡ shown (bar_at (recompute_mappings on i bars).0 n)
unfolding recompute_mappings
seen-recompute_mappings on i n [] h = absurd (omega arith)
seen-recompute_mappings on i zero (b ∷ bs) h =
    ap (λ k. seen (recompute_mappings on i (b ∷ bs)).1 k (shown b)) (omega arith)
    ∙ seen-append (remap on i b).1 (recompute_mappings on (i + 1) bs).1 i (shown b)
    ∙ seen-recompute_before on (i + 1) i bs (seen (remap on i b).1 i (shown b)) (omega arith)
    ∙ seen-remap_self on i b
seen-recompute_mappings on i (suc n) (b ∷ bs) h =
    seen-append (remap on i b).1 (recompute_mappings on (i + 1) bs).1 (i + suc n)
      (shown (bar_at bs n))
    ∙ ap (seen (recompute_mappings on (i + 1) bs).1 (i + suc n))
        (seen-remap_other on i (i + suc n) b (shown (bar_at bs n)) (omega arith))
    ∙ ap (λ k. seen (recompute_mappings on (i + 1) bs).1 k (shown (bar_at bs n))) (omega arith)
    ∙ seen-recompute_mappings on (i + 1) n bs (omega arith)

write_each-bars :
    (c : ConfigSpace) (offset size value : ℕ) → (write_each c offset size value).bars ≡ c.bars
unfolding write_each write_byte
write_each-bars c offset zero value = refl
write_each-bars c offset (suc size) value =
    write_each-bars (write_byte c offset (value % 256)) (offset + 1) size (value / 256)

shown-set :
    (bars : List Bar) (k n : ℕ) (b : Bar)
    → shown b ≡ shown (bar_at bars k)
    → shown (bar_at (set bars k b) n) ≡ shown (bar_at bars n)
shown-set [] k n b h = refl
shown-set (a ∷ bars) zero zero b h = h
shown-set (a ∷ bars) zero (suc n) b h = refl
shown-set (a ∷ bars) (suc k) zero b h = refl
shown-set (a ∷ bars) (suc k) (suc n) b h = shown-set bars k n b h

shown-write_bar_dword :
    (bars : List Bar) (idx value n : ℕ)
    → shown (bar_at (write_bar_dword bars idx value) n) ≡ shown (bar_at bars n)
unfolding write_bar_dword
shown-write_bar_dword bars idx value n =
    let b = bar_at bars idx in
    let below = bar_at bars (idx - 1) in
    ground (
      arith,
      shown-set bars idx n (record b { value_lo = bit_and value (bar_size_mask_low b) }) refl,
      shown-set bars (idx - 1) n
          (record below { value_hi = bit_and value (bar_size_mask_high below) }) refl,
    )

pub seen-recompute_all :
    (on : Bool) (n : ℕ) (bars : List Bar)
    → n < length bars
    → seen (recompute_mappings on 0 bars).1 n (shown (bar_at bars n))
      ≡ shown (bar_at (recompute_mappings on 0 bars).0 n)
seen-recompute_all on n bars h =
    ap (λ k. seen (recompute_mappings on 0 bars).1 k (shown (bar_at bars n))) (omega arith)
    ∙ seen-recompute_mappings on 0 n bars h

-- The two kinds of write that reach a BAR.
seen-command :
    (on : Bool) (n : ℕ) {bars bars' : List Bar}
    → bars' ≡ bars
    → n < length bars
    → seen (recompute_mappings on 0 bars').1 n (shown (bar_at bars n))
      ≡ shown (bar_at (recompute_mappings on 0 bars').0 n)
seen-command on n {bars} e h = rw e (seen-recompute_all on n bars h)

-- Whatever the guest writes, the events of the write lead from the mappings before it to those after
-- it, BAR by BAR: whoever follows them knows where every BAR is mapped.
pub seen-write :
    (c : ConfigSpace) (offset size value n : ℕ)
    → n < length c.bars
    → let (c', events) = write c offset size value in
      seen events n (shown (bar_at c.bars n)) ≡ shown (bar_at c'.bars n)
unfolding write
seen-write c offset size value n h =
    let written = write_each c offset size value in
    let same : written.bars ≡ c.bars = write_each-bars c offset size value in
    let idx = (offset - cfg_bar0) / 4 in
    ground (
      arith,
      ap (λ bars. shown (bar_at bars n)) same,
      seen-command (not (bit_and (command written) cmd_memory_space == 0)) n same h,
      shown-write_bar_dword c.bars idx (merge_bar c.bars idx ((offset - cfg_bar0) % 4) size value)
          n,
    )

-- Where a memory BAR should be mapped, memory space being on or off.
abbrev pub wanted : Bool → Bar → Option ℕ
wanted on b = if on && not (bar_gpa b == 0) then some (bar_gpa b) else none

shown-remap :
    (on : Bool) (i : ℕ) (b : Bar) → is_memory b.kind ≡ true → shown (remap on i b).0 ≡ wanted on b
unfolding remap
shown-remap on i b k = ground arith

pub shown-recompute_mappings :
    (on : Bool) (i n : ℕ) (bars : List Bar)
    → n < length bars
    → is_memory (bar_at bars n).kind ≡ true
    → shown (bar_at (recompute_mappings on i bars).0 n) ≡ wanted on (bar_at bars n)
unfolding recompute_mappings
shown-recompute_mappings on i n [] h k = absurd (omega arith)
shown-recompute_mappings on i zero (b ∷ bs) h k = shown-remap on i b k
shown-recompute_mappings on i (suc n) (b ∷ bs) h k =
    shown-recompute_mappings on (i + 1) n bs (omega arith) k

shown-command :
    (on : Bool) (n : ℕ) {bars bars' : List Bar}
    → bars' ≡ bars
    → n < length bars
    → is_memory (bar_at bars n).kind ≡ true
    → shown (bar_at (recompute_mappings on 0 bars').0 n) ≡ wanted on (bar_at bars n)
shown-command on n {bars} e h k = rw e (shown-recompute_mappings on 0 n bars h k)

-- After a write that changes the COMMAND register every memory BAR is mapped at the address it holds,
-- if memory space is now on and the address is not 0, and is not mapped otherwise.
pub shown-write :
    (c : ConfigSpace) (offset size value n : ℕ)
    → n < length c.bars
    → is_memory (bar_at c.bars n).kind ≡ true
    → offset ≤ cfg_command + 1
    → cfg_command < offset + size
    → offset + size ≤ cfg_space_size
    → command (write c offset size value).0 ≢ command c
    → let c' = (write c offset size value).0 in
      shown (bar_at c'.bars n)
      ≡ wanted (not (bit_and (command c') cmd_memory_space == 0)) (bar_at c.bars n)
unfolding write read16
shown-write c offset size value n h k a b e d =
    let written = write_each c offset size value in
    let same : written.bars ≡ c.bars = write_each-bars c offset size value in
    ground (arith, shown-command (not (bit_and (command written) cmd_memory_space == 0)) n same h k)
