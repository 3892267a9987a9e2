-- ===== src/Virtio/Transport/Bar.antt =====
-- The BAR of src/virtio/transport.rs on the MMIO bus: what the transport does when the guest maps its BAR
-- and when it takes it away. The handlers are arguments. The doorbells, which the hypervisor
-- provides and which do not touch the bus, are left out.
use tinyvmm.Prelude.{
  ℕ, ◌+◌, ◌^◌, ◌>>=◌, Bool, true, false, not, ◌&&◌, Option, some, List, ltb, leb, if◌then◌else◌,
}
use tinyvmm.Device.MmioBus.{Handler, Entry, is_range_free, unregister}
use tinyvmm.Device.MmioBus.Windows.{add}
use tinyvmm.Pci.Bus.{mmio_window_base, mmio_window_end}
use tinyvmm.Pci.MsiX.{MsiX}
use tinyvmm.Pci.MsiX.Install.{install, uninstall}
use tinyvmm.Virtio.Transport.{off_common, off_notify, off_device}

abbrev pub bar_size : ℕ
bar_size = 0x4000

abbrev pub len_common : ℕ
len_common = 0x40

abbrev pub off_isr : ℕ
off_isr = 0x40

abbrev pub len_isr : ℕ
len_isr = 4

abbrev pub len_notify : ℕ
len_notify = 0x1000

abbrev pub len_device : ℕ
len_device = 0x100

-- The part of `PciTransport` that knows where the BAR is.
pub record BarState : Type 0 where
  pub bar_gpa : ℕ
  pub bar_mapped : Bool
  pub msix : MsiX

-- The handlers of the windows, in the order of the registrations.
pub record Windows {ℓ} (S : Type ℓ) : Type ℓ where
  pub on_common : Handler S
  pub on_isr : Handler S
  pub on_notify : Handler S
  pub on_device : Handler S
  pub on_table : Handler S
  pub on_pba : Handler S

module _ {ℓ} {S : Type ℓ} where
  unfoldable pub install_bar_handlers :
      Windows S → MsiX → List (Entry S) → ℕ → Option (List (Entry S) × MsiX)
  unfolding install
  install_bar_handlers w m es gpa = do
    a ← add es (gpa + off_common) len_common w.on_common
    b ← add a (gpa + off_isr) len_isr w.on_isr
    c ← add b (gpa + off_notify) len_notify w.on_notify
    d ← add c (gpa + off_device) len_device w.on_device
    install m d gpa w.on_table w.on_pba

  unfoldable pub placement_ok : List (Entry S) → ℕ → Bool
  placement_ok es gpa =
      leb mmio_window_base gpa
      && (ltb (gpa + bar_size) (2 ^ 64) && leb (gpa + bar_size) mmio_window_end)
      && is_range_free es gpa bar_size

  unfoldable pub on_bar_mapped :
      Windows S → List (Entry S) → BarState → ℕ → Option (List (Entry S) × BarState)
  unfolding placement_ok install_bar_handlers
  on_bar_mapped w es st gpa =
      if not (placement_ok es gpa)
      then some (es, st)
      else (install_bar_handlers w st.msix es gpa >>= λ r.
          some (r.0, record { bar_gpa = gpa; bar_mapped = true; msix = r.1 }))

  unfoldable pub on_bar_unmapped : List (Entry S) → BarState → List (Entry S) × BarState
  unfolding uninstall
  on_bar_unmapped es st =
      if not st.bar_mapped
      then (es, st)
      else (let a = (unregister es (st.bar_gpa + off_common)).0 in
          let b = (unregister a (st.bar_gpa + off_isr)).0 in
          let c = (unregister b (st.bar_gpa + off_notify)).0 in
          let d = (unregister c (st.bar_gpa + off_device)).0 in
          (uninstall st.msix d, record st { bar_mapped = false }))
