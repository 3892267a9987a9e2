-- ===== src/Virtio/Transport/Dwords.antt =====
-- The masks and shifts of src/virtio/transport.rs as arithmetic: a sub-dword write, the halves of a
-- 64-bit register, the fields of the status dword.
use tinyvmm.Prelude.{
  ℕ, ◌+◌, ◌-◌, ◌*◌, ◌/◌, ◌%◌, ◌^◌, ◌<◌, ◌≡◌, bit_and, bit_or, arith, ap, ap₂, ◌∙◌, bit_and-ones,
  bit_and-shifted, bit_or-shifted, bit_or-disjoint,
}
use tinyvmm.Virtio.Transport.{Common, with_low, with_high, low, high}
use tinyvmm.Virtio.Transport.CommonCfg.{status_dword}
use tinyvmm.Virtio.Transport.Handlers.{merge_dword}

pub status_dword_lem :
    (c : Common)
    → c.status < 256
    → c.config_generation < 256
    → status_dword c ≡ c.status + c.config_generation * 256 + c.queue_select * 2 ^ 16
status_dword_lem c s g =
    ap (λ x. bit_or x (c.queue_select * 2 ^ 16)) (bit_or-disjoint 8 c.status c.config_generation s)
    ∙ bit_or-disjoint 16 (c.status + c.config_generation * 256) c.queue_select (omega arith)

pub merge_dword-low_byte :
    (cur v : ℕ) → cur < 2 ^ 32 → v < 256 → merge_dword cur 1 0 v ≡ v + cur / 256 * 256
unfolding merge_dword
merge_dword-low_byte cur v h l =
    ap₂ bit_or
      (bit_and-shifted 8 cur (2 ^ 24 - 1) ∙ ap (λ x. x * 2 ^ 8) (bit_and-ones 24 (cur / 2 ^ 8)))
      (omega (arith, bit_and-ones 8 v))
    ∙ bit_or-shifted 8 v (cur / 2 ^ 8 % 2 ^ 24) l
    ∙ omega arith

pub merge_dword-high_half :
    (cur v : ℕ) → v < 2 ^ 16 → merge_dword cur 2 16 v ≡ cur % 2 ^ 16 + v * 2 ^ 16
unfolding merge_dword
merge_dword-high_half cur v l =
    ap₂ bit_or (bit_and-ones 16 cur) (omega (arith, bit_and-ones 16 v))
    ∙ bit_or-disjoint 16 (cur % 2 ^ 16) v (omega arith)

pub with_low_lem : (x v : ℕ) → v < 2 ^ 32 → with_low x v ≡ v + x / 2 ^ 32 % 2 ^ 32 * 2 ^ 32
unfolding with_low
with_low_lem x v h =
    ap (λ y. bit_or y v)
      (bit_and-shifted 32 x (2 ^ 32 - 1) ∙ ap (λ y. y * 2 ^ 32) (bit_and-ones 32 (x / 2 ^ 32)))
    ∙ bit_or-shifted 32 v (x / 2 ^ 32 % 2 ^ 32) h

pub with_high_lem : (x v : ℕ) → with_high x v ≡ x % 2 ^ 32 + v * 2 ^ 32
unfolding with_high
with_high_lem x v =
    ap (λ y. bit_or y (v * 2 ^ 32)) (bit_and-ones 32 x)
    ∙ bit_or-disjoint 32 (x % 2 ^ 32) v (omega arith)

-- The two halves in either register.
pub with_high-with_low : (x v : ℕ) → v < 2 ^ 64 → with_high (with_low x (low v)) (high v) ≡ v
with_high-with_low x v h =
    omega (arith, with_high_lem (with_low x (low v)) (high v), with_low_lem x (low v) (omega arith))

-- The status that a pending reset shows in place of the 0.
pub hidden-status :
    (v r : ℕ) → v < 2 ^ 32 → r < 256 → bit_or (bit_and v 0xffff_ff00) r ≡ r + v / 256 * 256
hidden-status v r h l =
    ap (λ y. bit_or y r)
      (bit_and-shifted 8 v (2 ^ 24 - 1) ∙ ap (λ y. y * 2 ^ 8) (bit_and-ones 24 (v / 2 ^ 8)))
    ∙ bit_or-shifted 8 r (v / 2 ^ 8 % 2 ^ 24) l
    ∙ omega arith
