-- ===== src/Pci/MsiX/Install.antt =====
-- The windows of an MSI-X table on the MMIO bus, src/pci/msix.rs. The handlers, which reach the table
-- through a shared pointer, are arguments.
use tinyvmm.Prelude.{ℕ, ◌+◌, ◌*◌, ◌>>=◌, Option, some, List}
use tinyvmm.Device.MmioBus.{Handler, Entry, unregister}
use tinyvmm.Device.MmioBus.Windows.{add}
use tinyvmm.Pci.MsiX.{MsiX, div_ceil}

abbrev pub table_size : MsiX → ℕ
table_size m = m.num_vectors * 16

abbrev pub pba_size : MsiX → ℕ
pba_size m = div_ceil m.num_vectors 64 * 8

module _ {ℓ} {S : Type ℓ} where
  unfoldable pub install :
      MsiX → List (Entry S) → ℕ → Handler S → Handler S → Option (List (Entry S) × MsiX)
  install m es bar_gpa on_table on_pba = do
    with_table ← add es (bar_gpa + m.table_offset) (table_size m) on_table
    with_both ← add with_table (bar_gpa + m.pba_offset) (pba_size m) on_pba
    some (with_both, record m { bar_base_gpa = bar_gpa })

  unfoldable pub uninstall : MsiX → List (Entry S) → List (Entry S)
  uninstall m es =
      let without_table = (unregister es (m.bar_base_gpa + m.table_offset)).0 in
      (unregister without_table (m.bar_base_gpa + m.pba_offset)).0
