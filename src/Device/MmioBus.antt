-- ===== src/Device/MmioBus.antt =====
-- The MMIO bus of src/devices/mmio_bus.rs. The guest moves device BARs, so ranges come and go; sums
-- of addresses are u64 and wrap. The entry's name is left out.
pub mod Ranges
pub mod Windows
mod Tests
use tinyvmm.Prelude.{
  ℕ, ◌+◌, Bool, true, false, ◌&&◌, ◌||◌, not, Option, none, some, List, [], ◌∷◌, ◌++◌, ltb, leb,
  ◌==◌, if◌then◌else◌, u64,
}

-- `data` is 8 little-endian bytes.
pub record MmioAccess : Type 0 where
  pub gpa : ℕ
  pub access_size : ℕ
  pub is_write : Bool
  pub bytes : List ℕ

abbrev pub Handler {ℓ} : Type ℓ → Type ℓ
Handler S = MmioAccess → S → MmioAccess × S

pub record Entry {ℓ} (S : Type ℓ) : Type ℓ where
  pub base : ℕ
  pub size : ℕ
  pub handler : Handler S

abbrev pub ranges_overlap : ℕ → ℕ → ℕ → ℕ → Bool
ranges_overlap a_base a_size b_base b_size =
    ltb a_base (u64 (b_base + b_size)) && ltb b_base (u64 (a_base + a_size))

abbrev pub zeros : List ℕ
zeros = 0 ∷ 0 ∷ 0 ∷ 0 ∷ 0 ∷ 0 ∷ 0 ∷ 0 ∷ []

abbrev pub unclaimed : MmioAccess → MmioAccess
unclaimed acc = if acc.is_write then acc else record acc { bytes = zeros }

module _ {ℓ} {S : Type ℓ} where
  unfoldable pub overlaps_any : ℕ → ℕ → List (Entry S) → Bool
  overlaps_any base size [] = false
  overlaps_any base size (e ∷ es) =
      ranges_overlap base size e.base e.size || overlaps_any base size es

  -- The entries afterwards and whether the range was registered; none is the panic on an empty one.
  unfoldable pub register : List (Entry S) → ℕ → ℕ → Handler S → Option (List (Entry S) × Bool)
  register es base size h =
      if size == 0
      then none
      else if overlaps_any base size es
      then some (es, false)
      else some (es ++ (record { base = base; size = size; handler = h } ∷ []), true)

  unfoldable pub is_range_free : List (Entry S) → ℕ → ℕ → Bool
  is_range_free es base size = not (overlaps_any base size es)

  -- Removes the first entry at `base`.
  unfoldable pub unregister : List (Entry S) → ℕ → List (Entry S) × Bool
  unregister [] base = ([], false)
  unregister (e ∷ es) base =
      let (es', found) = unregister es base in
      if e.base == base then (es, true) else (e ∷ es', found)

  abbrev pub claims : Entry S → ℕ → Bool
  claims e gpa = leb e.base gpa && ltb gpa (u64 (e.base + e.size))

  unfoldable pub dispatch : List (Entry S) → MmioAccess → S → MmioAccess × S × Bool
  dispatch [] acc s = (unclaimed acc, s, false)
  dispatch (e ∷ es) acc s =
      let rest = dispatch es acc s in
      if claims e acc.gpa then (let (acc', s') = e.handler acc s in (acc', s', true)) else rest
