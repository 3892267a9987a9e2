-- ===== src/Virtio/Transport/Sizes.antt =====
-- The queue sizes that the transport of src/virtio/transport.rs keeps, and with what it enables a queue.
use tinyvmm.Prelude.{
  ℕ, zero, suc, ◌+◌, ◌%◌, ◌^◌, ◌≤◌, ◌<◌, ◌≡◌, ◌⊎◌, inl, inr, true, false, some, List, [], ◌∷◌,
  length, get_elem?, set, map, length-set, ◌==◌, u16, arith, refl, sym, ◌∙◌, Option-cases,
  bit_and-ones, pow-of-bit_and,
}
use native.Mathlib.Nat.{le_refl}
use tinyvmm.Virtio.Transport.{
  VirtioDevice, QueueState, Common, default_queue, is_power_of_two, selected, with_queue,
  set_queue_dword, aligned,
}
use tinyvmm.Virtio.Transport.CommonCfg.{write_driver_feature, write_queue_size, write_queue_dword}

-- A size of a power of two, as the source tests it, is one.
pow-is_power_of_two : (s : ℕ) → is_power_of_two s ≡ true → (k : ℕ) × (s ≡ 2 ^ k)
unfolding is_power_of_two
pow-is_power_of_two s e = pow-of-bit_and s s (le_refl s) (ground arith) (ground arith)

pub get_elem?-lt :
    (xs : List QueueState) (i : ℕ) {x : QueueState} → get_elem? xs i ≡ some x → i < length xs
get_elem?-lt [] i e = absurd (ground arith)
get_elem?-lt (y ∷ ys) zero e = omega arith
get_elem?-lt (y ∷ ys) (suc i) e = omega (arith, get_elem?-lt ys i e)

first : (i : ℕ) → 0 + i ≡ i
first i = omega arith

module _ {ℓ} {D : Type ℓ} (device : VirtioDevice D) where
  -- What the transport keeps of the size of queue `i`.
  abbrev SizeOk : ℕ → QueueState → Type 0
  SizeOk i q =
      (q.size ≡ 0) ⊎ ((is_power_of_two q.size ≡ true) × (q.size ≤ u16 (device.queue_max i)))

  abbrev pub SizesOk : ℕ → List QueueState → Type 0
  SizesOk i [] = Unit
  SizesOk i (q ∷ qs) = SizeOk i q × SizesOk (i + 1) qs

  SizesOk-get :
      (i j : ℕ) (qs : List QueueState) {q : QueueState}
      → SizesOk i qs
      → get_elem? qs j ≡ some q
      → SizeOk (i + j) q
  SizesOk-get i j [] v e = absurd (ground arith)
  SizesOk-get i zero (p ∷ qs) v e = ground arith
  SizesOk-get i (suc j) (p ∷ qs) v e = rw (shift i j) (SizesOk-get (i + 1) j qs v.1 e)
    where
      shift : (i j : ℕ) → i + suc j ≡ i + 1 + j
      shift i j = omega arith

  SizesOk-set :
      (i j : ℕ) (qs : List QueueState) (q : QueueState)
      → SizesOk i qs
      → SizeOk (i + j) q
      → SizesOk i (set qs j q)
  SizesOk-set i j [] q v e = tt
  SizesOk-set i zero (p ∷ qs) q v e = (ground arith, v.1)
  SizesOk-set i (suc j) (p ∷ qs) q v e = (v.0, SizesOk-set (i + 1) j qs q v.1 (ground arith))

  pub SizesOk-reset : (i : ℕ) (qs : List QueueState) → SizesOk i (map (λ q. default_queue) qs)
  SizesOk-reset i [] = tt
  SizesOk-reset i (q ∷ qs) = (inl refl, SizesOk-reset (i + 1) qs)

  -- The arguments with which a queue may be enabled, of `n` queues: the size is a power of two within
  -- the queue's maximum, and every ring is aligned to its accesses.
  pub record Enabling (n i desc driver used size : ℕ) : Type 0 where
    pub known : i < n
    pub power : (k : ℕ) × (size ≡ 2 ^ k)
    pub within : size ≤ u16 (device.queue_max i)
    pub desc_aligned : desc % 16 ≡ 0
    pub driver_aligned : driver % 2 ≡ 0
    pub used_aligned : used % 4 ≡ 0

  module _ (n : ℕ) where
    abbrev pub Sized : Common → Type 0
    Sized c = (length c.queues ≡ n) × SizesOk 0 c.queues

    pub with_queue-Sized :
        (c : Common) (q : QueueState) → Sized c → SizeOk c.queue_select q → Sized (with_queue c q)
    with_queue-Sized c q g ok = (
      length-set c.queues c.queue_select q ∙ g.0,
      SizesOk-set 0 c.queue_select c.queues q g.1 (rw (first c.queue_select) ok),
    )

    pub selected-SizeOk :
        (c : Common) {q : QueueState} → Sized c → selected c ≡ some q → SizeOk c.queue_select q
    selected-SizeOk c g e =
        rw (sym (first c.queue_select)) (SizesOk-get 0 c.queue_select c.queues g.1 e)

    pub write_queue_size-Sized :
        (c : Common) (v : ℕ) → Sized c → Sized (write_queue_size device c v)
    unfolding write_queue_size
    write_queue_size-Sized c v g = elim (Option-cases (selected c)) [
      | inl e ↦ rw (e, write_queue_size) g
      | inr (q, e) ↦
          rw (e, write_queue_size) (with_queue-Sized c _ g (ground (arith, selected-SizeOk c g e)))
    ]

    set_queue_dword-size : (q : QueueState) (off v : ℕ) → (set_queue_dword q off v).size ≡ q.size
    unfolding set_queue_dword
    set_queue_dword-size q off v = ground arith

    pub write_queue_dword-Sized :
        (c : Common) (off v : ℕ) → Sized c → Sized (write_queue_dword c off v)
    unfolding write_queue_dword
    write_queue_dword-Sized c off v g = elim (Option-cases (selected c)) [
      | inl e ↦ rw (e, write_queue_dword) g
      | inr (q, e) ↦
          rw (e, write_queue_dword)
            (with_queue-Sized c _ g (rw (set_queue_dword-size q off v) (selected-SizeOk c g e)))
    ]

    -- The test of the three alignments, in remainders.
    aligned-mod :
        (q : QueueState)
        → aligned q ≡ true
        → (q.desc % 16 ≡ 0) × (q.driver % 2 ≡ 0) × (q.device % 4 ≡ 0)
    aligned-mod q e =
        ground (arith, bit_and-ones 4 q.desc, bit_and-ones 1 q.driver, bit_and-ones 2 q.device)

    pub enabling :
        (c : Common) {q : QueueState}
        → Sized c
        → selected c ≡ some q
        → (q.size == 0) ≡ false
        → aligned q ≡ true
        → Enabling n c.queue_select q.desc q.driver q.device q.size
    enabling c {q} g e nonzero al =
        let legal = selected-SizeOk c g e in
        let power : is_power_of_two q.size ≡ true = ground arith in
        let (a, b, d) = aligned-mod q al in
        record {
          known = ground (arith, get_elem?-lt c.queues c.queue_select e);
          power = pow-is_power_of_two q.size power;
          within = ground arith;
          desc_aligned = a;
          driver_aligned = b;
          used_aligned = d;
        }

    pub write_driver_feature-Sized :
        (c : Common) (v : ℕ) → Sized c → Sized (write_driver_feature c v)
    unfolding write_driver_feature
    write_driver_feature-Sized c v g = (ground arith, ground arith)
