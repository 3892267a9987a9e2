-- ===== src/Virtio/Transport/Mapping.antt =====
-- The guest moves the BAR of src/virtio/transport.rs over the MMIO bus.
use tinyvmm.Prelude.{
  ℕ, ◌+◌, ◌^◌, ◌≤◌, ◌<◌, ◌≡◌, ◌>>=◌, Bool, true, false, not, Option, some, List, [], ◌∷◌, ◌++◌, All,
  if◌then◌else◌, arith, refl, ap, sym, ◌∙◌, inl, inr, Bool-cases,
}
use tinyvmm.Device.MmioBus.{Entry, is_range_free}
use tinyvmm.Device.MmioBus.Ranges.{Apart, InSpace, IsValid, overlaps_any_iff}
use tinyvmm.Device.MmioBus.Windows.{add_then_lem, take_all_lem, IsValid-append}
use tinyvmm.Pci.Bus.{mmio_window_base, mmio_window_end}
use tinyvmm.Pci.MsiX.{MsiX}
use tinyvmm.Pci.MsiX.Install.{table_size, pba_size, uninstall}
use tinyvmm.Virtio.Transport.{off_common, off_notify, off_device}
use tinyvmm.Virtio.Transport.Bar.{
  bar_size, len_common, off_isr, len_isr, len_notify, len_device, BarState, Windows,
  install_bar_handlers, placement_ok, on_bar_mapped, on_bar_unmapped,
}

-- The MSI-X table as the constructor lays it out: in the last 4 KB of the BAR, before the pending bits.
abbrev pub Laid : MsiX → Type 0
Laid m =
    (0 < m.num_vectors)
    × (m.num_vectors ≤ 128)
    × (m.table_offset ≡ 0x3000)
    × (m.pba_offset ≡ 0x3800)

module _ {ℓ} {S : Type ℓ} (w : Windows S) where
  -- The ranges of a BAR at `gpa`.
  abbrev pub ranges : MsiX → ℕ → List (Entry S)
  ranges m gpa =
      record { base = gpa + off_common; size = len_common; handler = w.on_common }
      ∷ record { base = gpa + off_isr; size = len_isr; handler = w.on_isr }
      ∷ record { base = gpa + off_notify; size = len_notify; handler = w.on_notify }
      ∷ record { base = gpa + off_device; size = len_device; handler = w.on_device }
      ∷ record { base = gpa + m.table_offset; size = table_size m; handler = w.on_table }
      ∷ record { base = gpa + m.pba_offset; size = pba_size m; handler = w.on_pba }
      ∷ []

  ranges-IsValid : (m : MsiX) (gpa : ℕ) → Laid m → gpa + bar_size < 2 ^ 64 → IsValid (ranges m gpa)
  ranges-IsValid m gpa l h = ground (arith, l, h)

  abbrev whole : ℕ → Entry S
  whole gpa = record { base = gpa; size = bar_size; handler = w.on_common }

  ranges-Apart :
      (e : Entry S) (m : MsiX) (gpa : ℕ)
      → Laid m
      → Apart e (whole gpa)
      → All (Apart e) (ranges m gpa)
  ranges-Apart e m gpa l a = ground (arith, l, a)

  All-ranges-Apart :
      (es : List (Entry S)) (m : MsiX) (gpa : ℕ)
      → Laid m
      → All (λ e. Apart e (whole gpa)) es
      → All (λ e. All (Apart e) (ranges m gpa)) es
  All-ranges-Apart [] m gpa l a = tt
  All-ranges-Apart (e ∷ es) m gpa l a =
      (ranges-Apart e m gpa l a.0, All-ranges-Apart es m gpa l a.1)

  abbrev base_set : MsiX → ℕ → MsiX
  base_set m gpa = record m { bar_base_gpa = gpa }

  install_bar_handlers_lem :
      (m : MsiX) (es : List (Entry S)) (gpa : ℕ)
      → IsValid (es ++ ranges m gpa)
      → install_bar_handlers w m es gpa ≡ some (es ++ ranges m gpa, base_set m gpa)
  unfolding install_bar_handlers
  install_bar_handlers_lem m es gpa v =
      add_then_lem es (ranges m gpa) (λ r. some (r, base_set m gpa)) v

  on_bar_unmapped_lem :
      (m : MsiX) (es : List (Entry S)) (gpa : ℕ)
      → IsValid (es ++ ranges m gpa)
      → (on_bar_unmapped
          (es ++ ranges m gpa)
          (record { bar_gpa = gpa; bar_mapped = true; msix = base_set m gpa })).0
        ≡ es
  unfolding on_bar_unmapped uninstall
  on_bar_unmapped_lem m es gpa v = take_all_lem es (ranges m gpa) v

  placement_ok_lem :
      (es : List (Entry S)) (gpa : ℕ)
      → IsValid es
      → placement_ok es gpa ≡ true
      → (mmio_window_base ≤ gpa)
        × (gpa + bar_size ≤ mmio_window_end)
        × All (λ e. Apart e (whole gpa)) es
  unfolding placement_ok is_range_free
  placement_ok_lem es gpa v ok =
      let inside : InSpace (whole gpa) = ground arith in
      (ground arith, ground arith, (overlaps_any_iff es (whole gpa) v inside).0 (ground arith))

  abbrev taken : MsiX → ℕ → BarState
  taken m gpa = record { bar_gpa = gpa; bar_mapped = true; msix = base_set m gpa }

  abbrev outcome : Bool → List (Entry S) → BarState → ℕ → Option (List (Entry S) × BarState)
  outcome ok es st gpa =
      if not ok
      then some (es, st)
      else (install_bar_handlers w st.msix es gpa >>= λ r.
          some (r.0, record { bar_gpa = gpa; bar_mapped = true; msix = r.1 }))

  on_bar_mapped-outcome :
      (es : List (Entry S)) (st : BarState) (gpa : ℕ) (ok : Bool)
      → placement_ok es gpa ≡ ok
      → on_bar_mapped w es st gpa ≡ outcome ok es st gpa
  unfolding on_bar_mapped
  on_bar_mapped-outcome es st gpa ok e = ap (λ b. outcome b es st gpa) e

  IsValid-placement :
      (es : List (Entry S)) (m : MsiX) (gpa : ℕ)
      → IsValid es
      → Laid m
      → placement_ok es gpa ≡ true
      → IsValid (es ++ ranges m gpa)
  IsValid-placement es m gpa v l ok =
      let (low, high, apart) = placement_ok_lem es gpa v ok in
      IsValid-append es (ranges m gpa) v (ranges-IsValid m gpa l (omega arith))
        (All-ranges-Apart es m gpa l apart)

  -- The guest maps the BAR at any address, over entries that lie apart. The transport does not panic.
  -- It takes the BAR as mapped exactly if all of it is inside the MMIO window and free; the entries still lie
  -- apart then, and the guest's taking the BAR away leaves exactly the entries that were there.
  pub on_bar_mapped_lem :
      (es : List (Entry S)) (st : BarState) (gpa : ℕ)
      → IsValid es
      → Laid st.msix
      → st.bar_mapped ≡ false
      → (r : List (Entry S) × BarState) × (on_bar_mapped w es st gpa ≡ some r)
        × (r.1.bar_mapped ≡ placement_ok es gpa)
        × IsValid r.0
        × ((on_bar_unmapped r.0 r.1).0 ≡ es)
  unfolding on_bar_unmapped
  on_bar_mapped_lem es st gpa v l off = elim (Bool-cases (placement_ok es gpa)) [
    | inl ok ↦
        let u = IsValid-placement es st.msix gpa v l ok in
        let done = install_bar_handlers_lem st.msix es gpa u in
        (
          (es ++ ranges st.msix gpa, taken st.msix gpa),
          on_bar_mapped-outcome es st gpa true ok
              ∙ ap
                  (λ o.
                    o >>= λ r. some (r.0, record { bar_gpa = gpa; bar_mapped = true; msix = r.1 }))
                  done,
          sym ok,
          u,
          on_bar_unmapped_lem st.msix es gpa u,
        )
    | inr bad ↦
        ((es, st), on_bar_mapped-outcome es st gpa false bad, off ∙ sym bad, v, simp off refl)
  ]
