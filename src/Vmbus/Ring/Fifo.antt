-- ===== src/Vmbus/Ring/Fifo.antt =====
-- The ring of src/vmbus/ring.rs as a queue of packets: what `write` appends, `read` takes.
use tinyvmm.Prelude.{
  ℕ, ◌+◌, ◌%◌, ◌^◌, ◌≤◌, ◌<◌, ◌≡◌, false, not, some, List, get_or, leb, ◌==◌, ==_iff, ◌>>=◌, ◌||◌,
  if◌then◌else◌, arith, refl, ap, ap₂, ◌∙◌,
}
use tinyvmm.Memory.{GuestMemory, load_acquire_u32}
use tinyvmm.Vmbus.Ring.{
  write_index, read_index, Error, ok, err, Ring, size, control, checked, indices,
}
use tinyvmm.Vmbus.Ring.Places.{Laid}
use tinyvmm.Vmbus.Ring.Control.{word, control_lem, load_lem}
use tinyvmm.Vmbus.Ring.Packets.{used, Held}

-- The ring holds these packets: the indices stand in the control page, and the packets between them.
pub record Contents (b : ℕ → ℕ) (ring : Ring) (host : ℕ → ℕ) (w r : ℕ) (ps : List (List ℕ))
    : Type 0 where
  pub write_word : word b (host 0 + write_index) ≡ w
  pub read_word : word b (host 0 + read_index) ≡ r
  pub write_in : w < size ring
  pub read_in : r < size ring
  pub write_aligned : w % 8 ≡ 0
  pub read_aligned : r % 8 ≡ 0
  pub held : Held ring host b w r ps
  pub room : used ps < size ring

pub lt→leb : (a b : ℕ) → a < b → leb b a ≡ false
lt→leb a b h = ground arith

aligned_test : (a : ℕ) → a % 8 ≡ 0 → not (a % 8 == 0) ≡ false
aligned_test a h = ap not ((==_iff (a % 8) 0).1 h)

module _ {m : GuestMemory} {ring : Ring} {host : ℕ → ℕ} (l : Laid m ring host) where
  pub size_bounded : size ring ≤ 2 ^ 28
  size_bounded = omega (arith, l.bounded, l.enough)

  pub size_aligned : size ring % 8 ≡ 0
  size_aligned = omega arith

  pub indices_lem :
      {w r : ℕ} {ps : List (List ℕ)}
      → Contents m.base ring host w r ps
      → indices m ring ≡ some (ok (w, r))
  unfolding indices
  indices_lem {w} {r} c =
      ap
        (λ o. o >>= λ a. control ring read_index >>= λ a'.
          some (checked (size ring) (load_acquire_u32 m a) (load_acquire_u32 m a')))
        (control_lem l write_index)
      ∙ ap
          (λ o. o >>= λ a'. some (
            checked (size ring) (load_acquire_u32 m (get_or ring.pages 0 0 + write_index))
              (load_acquire_u32 m a')))
          (control_lem l read_index)
      ∙ ap₂ (λ a a'. some (checked (size ring) a a'))
          (load_lem l write_index (omega arith) refl ∙ ap some c.write_word)
          (load_lem l read_index (omega arith) refl ∙ ap some c.read_word)
      ∙ ap (λ t. some (if t then err Error.corrupt else ok (w, r)))
          (ap₂ (λ x y. x || y)
            (ap₂ (λ x y. x || y)
              (ap₂ (λ x y. x || y) (lt→leb w (size ring) c.write_in)
                (lt→leb r (size ring) c.read_in))
              (aligned_test w c.write_aligned))
            (aligned_test r c.read_aligned))
