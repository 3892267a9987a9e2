-- ===== src/Pci/Config/Restore.antt =====
-- Saving and restoring the configuration space of src/pci/config.rs, and programming a BAR's address.
use tinyvmm.Prelude.{
  ℕ, zero, suc, ◌/◌, ◌^◌, ◌<◌, ◌≡◌, ◌==◌, not, true, false, none, List, [], ◌∷◌, length, set, map,
  arith, refl, ap, sym, ◌∙◌, bit_and, u32,
}
use tinyvmm.Pci.Config.{
  BarKind, Bar, BarEvent, ConfigSpace, cmd_memory_space, command, read16, bar_at, is_memory,
  recompute_mappings,
}
use tinyvmm.Pci.Config.Mapping.{seen, shown, wanted, seen-recompute_all, shown-recompute_mappings}

-- The programmed address of a BAR, as its two words.
abbrev pub words_of : Bar → ℕ × ℕ
words_of b = (b.value_lo, b.value_hi)

unfoldable pub snapshot_capture : ConfigSpace → List ℕ × List (ℕ × ℕ)
snapshot_capture c = (c.cfg, map words_of c.bars)

abbrev pub restored_bar : Bar → ℕ × ℕ → Bar
restored_bar b (lo, hi) = record b { value_lo = lo; value_hi = hi; mapped = false; mapped_gpa = 0 }

-- `self.bars.iter_mut().zip(bar_vals.iter())`
abbrev pub restored_bars : List Bar → List (ℕ × ℕ) → List Bar
restored_bars [] vals = []
restored_bars (b ∷ bs) [] = b ∷ bs
restored_bars (b ∷ bs) (v ∷ vals) = restored_bar b v ∷ restored_bars bs vals

unfoldable pub snapshot_apply : ConfigSpace → List ℕ → List (ℕ × ℕ) → ConfigSpace × List BarEvent
snapshot_apply c cfg vals =
    let c' = record c { cfg = cfg; bars = restored_bars c.bars vals } in
    let (bars, events) =
      recompute_mappings (not (bit_and (command c') cmd_memory_space == 0)) 0 c'.bars in
    (record c' { bars = bars }, events)

unfoldable pub set_bar_base : ConfigSpace → ℕ → ℕ → ConfigSpace
set_bar_base c idx gpa =
    let b = bar_at c.bars idx in
    elim b.kind [
      | BarKind.no_bar ↦ c
      | BarKind.io ↦ record c { bars = set c.bars idx (record b { value_lo = u32 gpa }) }
      | BarKind.mmio32 ↦ record c { bars = set c.bars idx (record b { value_lo = u32 gpa }) }
      | BarKind.mmio64 ↦ record c {
        bars =
            set c.bars idx
              (record b { value_lo = bit_and gpa 0xffff_ffff; value_hi = u32 (gpa / 2 ^ 32) });
      }
    ]

-- A BAR restored from the words of another.
bar_at-restored_bars :
    (bs cs : List Bar) (n : ℕ)
    → length bs ≡ length cs
    → n < length bs
    → bar_at (restored_bars bs (map words_of cs)) n
      ≡ restored_bar (bar_at bs n) (words_of (bar_at cs n))
bar_at-restored_bars [] cs n e h = absurd (omega arith)
bar_at-restored_bars (b ∷ bs) [] n e h = absurd (omega arith)
bar_at-restored_bars (b ∷ bs) (c ∷ cs) zero e h = refl
bar_at-restored_bars (b ∷ bs) (c ∷ cs) (suc n) e h =
    bar_at-restored_bars bs cs n (omega arith) (omega arith)

length-restored_bars :
    (bs : List Bar) (vals : List (ℕ × ℕ)) → length (restored_bars bs vals) ≡ length bs
length-restored_bars [] vals = refl
length-restored_bars (b ∷ bs) [] = refl
length-restored_bars (b ∷ bs) (v ∷ vals) = ap suc (length-restored_bars bs vals)

-- A snapshot of one device restored into another with the same BARs: the bytes are those saved, every
-- memory BAR is mapped exactly where the saved COMMAND register and address put it, and the events
-- tell the transport, which starts with nothing mapped, so.
pub shown-snapshot_apply :
    (c d : ConfigSpace) (n : ℕ)
    → length d.bars ≡ length c.bars
    → n < length d.bars
    → (bar_at d.bars n).kind ≡ (bar_at c.bars n).kind
    → is_memory (bar_at c.bars n).kind ≡ true
    → let (cfg, vals) = snapshot_capture c in
      let (d', events) = snapshot_apply d cfg vals in
      (d'.cfg ≡ c.cfg)
      × (shown (bar_at d'.bars n)
          ≡ wanted (not (bit_and (command c) cmd_memory_space == 0)) (bar_at c.bars n))
      × (seen events n none ≡ shown (bar_at d'.bars n))
unfolding snapshot_capture snapshot_apply read16
shown-snapshot_apply c d n e h k m =
    let on = not (bit_and (command c) cmd_memory_space == 0) in
    let bars = restored_bars d.bars (map words_of c.bars) in
    let bar : bar_at bars n ≡ restored_bar (bar_at d.bars n) (words_of (bar_at c.bars n)) =
      bar_at-restored_bars d.bars c.bars n e h in
    let inside : n < length bars =
      omega (arith, length-restored_bars d.bars (map words_of c.bars)) in
    (
      refl,
      shown-recompute_mappings on 0 n bars inside
            (ap (λ b. is_memory b.kind) bar ∙ ap is_memory k ∙ m)
          ∙ ap (wanted on) bar
          ∙ ap (λ kind. wanted on (record (bar_at c.bars n) { kind = kind })) k,
      ap (seen (recompute_mappings on 0 bars).1 n) (sym (ap shown bar))
          ∙ seen-recompute_all on n bars inside,
    )
