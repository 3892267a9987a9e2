-- ===== src/Device/IoBus.antt =====
-- The port-I/O bus of src/devices/io_bus.rs. A handler is a closure over shared device state, here a
-- function of the access and that state; the entry's name serves a panic message and is left out.
pub mod Routing
mod Tests
use tinyvmm.Prelude.{
  ℕ, ◌+◌, ◌≤◌, ◌<◌, Bool, true, false, ◌&&◌, ◌||◌, not, Option, none, some, List, [], ◌∷◌, ◌++◌,
  ltb, leb, ◌==◌, if◌then◌else◌,
}

pub record IoAccess : Type 0 where
  pub port : ℕ  -- u16
  pub access_size : ℕ  -- u16
  pub is_write : Bool
  pub value : ℕ  -- u32

abbrev pub Handler {ℓ} : Type ℓ → Type ℓ
Handler S = IoAccess → S → IoAccess × S

pub record Entry {ℓ} (S : Type ℓ) : Type ℓ where
  pub base : ℕ
  pub size : ℕ
  pub handler : Handler S

abbrev pub ranges_overlap : ℕ → ℕ → ℕ → ℕ → Bool
ranges_overlap a_base a_size b_base b_size =
    ltb a_base (b_base + b_size) && ltb b_base (a_base + a_size)

-- Unclaimed reads float to all-ones.
abbrev pub unclaimed : IoAccess → IoAccess
unclaimed acc = if acc.is_write then acc else record acc { value = 0xffff_ffff }

module _ {ℓ} {S : Type ℓ} where
  -- `for e in &self.entries`, with the test that panics
  unfoldable pub overlaps_any : ℕ → ℕ → List (Entry S) → Bool
  overlaps_any base size [] = false
  overlaps_any base size (e ∷ es) =
      ranges_overlap base size e.base e.size || overlaps_any base size es

  -- None is a panic: an empty range, one beyond the 16-bit space, or an overlap.
  unfoldable pub register : List (Entry S) → ℕ → ℕ → Handler S → Option (List (Entry S))
  register es base size h =
      if size == 0
      then none
      else if ltb 0x10000 (base + size)
      then none
      else if overlaps_any base size es
      then none
      else some (es ++ (record { base = base; size = size; handler = h } ∷ []))

  abbrev pub claims : Entry S → ℕ → Bool
  claims e port = leb e.base port && ltb port (e.base + e.size)

  unfoldable pub dispatch : List (Entry S) → IoAccess → S → IoAccess × S × Bool
  dispatch [] acc s = (unclaimed acc, s, false)
  dispatch (e ∷ es) acc s =
      let rest = dispatch es acc s in
      if claims e acc.port then (let (acc', s') = e.handler acc s in (acc', s', true)) else rest
