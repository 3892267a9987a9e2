-- ===== src/Net/Wire/Fragments.antt =====
-- `ipv4_fragments` of src/net/wire.rs.
use tinyvmm.Prelude.{
  ℕ, zero, suc, ◌+◌, ◌-◌, ◌*◌, ◌/◌, ◌^◌, Bool, List, [], ◌∷◌, ◌++◌, length, take, drop, min, max,
  ltb, if◌then◌else◌, bit_or, u16,
}
use tinyvmm.Net.Wire.{Ip, ipv4_header}

-- `(mtu.saturating_sub(20) & !7).max(8)`.
abbrev pub step_of : ℕ → ℕ
step_of mtu = max ((mtu - 20) / 8 * 8) 8

abbrev pub more_flag : Bool → ℕ
more_flag more = (if more then 1 else 0) * 2 ^ 13

-- The fragments from `off` on, in the order in which they are emitted. A round takes at least a byte,
-- so that `length payload` rounds are enough.
unfoldable pub fragments_from : ℕ → Ip → Ip → ℕ → ℕ → List ℕ → ℕ → ℕ → List (List ℕ)
fragments_from zero src dst proto id payload step off = []
fragments_from (suc fuel) src dst proto id payload step off =
    let chunk = take (min (off + step) (length payload) - off) (drop off payload) in
    let more = ltb (off + length chunk) (length payload) in
    let fragment = bit_or (more_flag more) (u16 (off / 8)) in
    let out = ipv4_header (20 + length chunk) id fragment proto src dst ++ chunk in
    let rest = fragments_from fuel src dst proto id payload step (off + length chunk) in
    if ltb off (length payload) then out ∷ rest else []

unfoldable pub ipv4_fragments : Ip → Ip → ℕ → ℕ → List ℕ → ℕ → List (List ℕ)
unfolding fragments_from
ipv4_fragments src dst proto id payload mtu =
    fragments_from (length payload) src dst proto id payload (step_of mtu) 0
