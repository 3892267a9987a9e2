-- ===== src/Pci/MsiX/Snapshot.antt =====
-- Saving and restoring the table of src/pci/msix.rs.
use tinyvmm.Prelude.{ℕ, suc, ◌≡◌, List, [], ◌∷◌, length, map, arith, refl, ap, ap₂}
use tinyvmm.Pci.MsiX.{MsiX, Entry}

-- `[addr_lo, addr_hi, data, ctrl]`
abbrev pub Row : Type 0
Row = ℕ × ℕ × ℕ × ℕ

abbrev pub row_of : Entry → Row
row_of e = (e.addr_lo, e.addr_hi, e.data_value, e.ctrl)

abbrev pub entry_of : Row → Entry
entry_of (lo, hi, data_value, ctrl) = record {
  addr_lo = lo;
  addr_hi = hi;
  data_value = data_value;
  ctrl = ctrl;
}

unfoldable pub snapshot_capture : MsiX → ℕ × List Row × List ℕ
snapshot_capture m = (m.control, map row_of m.table, m.pba)

-- The saved elements over the present ones, as far as both go.
abbrev pub overwrite {ℓ κ} : {A : Type ℓ} {B : Type κ} → (B → A) → List A → List B → List A
overwrite f [] ys = []
overwrite f (x ∷ xs) [] = x ∷ xs
overwrite f (x ∷ xs) (y ∷ ys) = f y ∷ overwrite f xs ys

unfoldable pub snapshot_apply : MsiX → ℕ → List Row → List ℕ → MsiX
snapshot_apply m control table pba = record m {
  control = control;
  table = overwrite entry_of m.table table;
  pba = overwrite (λ w. w) m.pba pba;
}

overwrite-map {ℓ κ} :
    {A : Type ℓ} {B : Type κ} (f : B → A) (g : A → B) (h : (a : A) → f (g a) ≡ a) (xs ys : List A)
    → length xs ≡ length ys
    → overwrite f xs (map g ys) ≡ ys
overwrite-map f g h [] [] e = refl
overwrite-map f g h [] (y ∷ ys) e = absurd (omega arith)
overwrite-map f g h (x ∷ xs) [] e = absurd (omega arith)
overwrite-map f g h (x ∷ xs) (y ∷ ys) e = ap₂ ◌∷◌ (h y) (overwrite-map f g h xs ys (omega arith))

overwrite-same : (xs ys : List ℕ) → length xs ≡ length ys → overwrite (λ w. w) xs ys ≡ ys
overwrite-same [] [] e = refl
overwrite-same [] (y ∷ ys) e = absurd (omega arith)
overwrite-same (x ∷ xs) [] e = absurd (omega arith)
overwrite-same (x ∷ xs) (y ∷ ys) e = ap (λ r. y ∷ r) (overwrite-same xs ys (omega arith))

length-overwrite {ℓ κ} :
    {A : Type ℓ} {B : Type κ} (f : B → A) (xs : List A) (ys : List B)
    → length (overwrite f xs ys) ≡ length xs
length-overwrite f [] ys = refl
length-overwrite f (x ∷ xs) [] = refl
length-overwrite f (x ∷ xs) (y ∷ ys) = ap suc (length-overwrite f xs ys)

-- Restored into a device with as many vectors, a snapshot brings back Message Control, every entry and
-- every pending bit; no snapshot, of whatever length, changes the size of the table or of the pending
-- bits.
pub snapshot_apply-restores :
    (m n : MsiX) (control : ℕ) (table : List Row) (pba : List ℕ)
    → length n.table ≡ length m.table
    → length n.pba ≡ length m.pba
    → let (saved_control, saved_table, saved_pba) = snapshot_capture m in
      let r = snapshot_apply n saved_control saved_table saved_pba in
      let s = snapshot_apply n control table pba in
      (r.control ≡ m.control)
      × (r.table ≡ m.table)
      × (r.pba ≡ m.pba)
      × (length s.table ≡ length n.table)
      × (length s.pba ≡ length n.pba)
unfolding snapshot_capture snapshot_apply
snapshot_apply-restores m n control table pba t p = (
  refl,
  overwrite-map entry_of row_of (λ e. refl) n.table m.table t,
  overwrite-same n.pba m.pba p,
  length-overwrite entry_of n.table table,
  length-overwrite (λ w. w) n.pba pba,
)
