-- ===== src/Pci/Bus/Placement.antt =====
-- The addresses that src/pci/bus.rs gives to BARs before the guest starts.
use tinyvmm.Prelude.{
  ℕ, zero, suc, ◌+◌, ◌-◌, ◌*◌, ◌/◌, ◌%◌, ◌^◌, ◌≤◌, ◌<◌, ◌≡◌, ◌⊎◌, true, false, not, Option, none,
  some, List, [], ◌∷◌, ◌++◌, map, ◌>>=◌, ltb, if◌then◌else◌, bit_and, length, u8, u64, sub64, arith,
  refl, ap, ap₂, sym, ◌∙◌, inl, inr, Bool-cases, bit_and-ones, bit_and-shifted,
}
use native.Mathlib.Nat.{
  pow-suc, one-le-pow, mul_assoc, mul_comm, mul-suc, div-lt_iff_lt-mul, pow-le-pow_right,
  mod-eq_of_lt, div-add-mod, mod-lt, mul-mod_left,
}
use tinyvmm.Pci.Config.{BarKind}
use tinyvmm.Pci.Bus.{
  mmio_window_end, aligned_base, is_mmio, is_io, assign_from, PciFunction, PciBus, Slot, Bdf,
  assigned, add_device,
}

-- A size that a BAR can have: a power of two up to 2^31.
abbrev pub Sizeable : ℕ → Type 0
Sizeable size = (k : ℕ) × (k < 32) × (size ≡ 2 ^ k)

-- `base` is the first multiple of the size from `next` on.
pub record Next (next size base : ℕ) : Type 0 where
  pub after : next ≤ base
  pub near : base < next + size
  pub multiple : base % size ≡ 0
  pub positive : 0 < size

pow_split : (j k : ℕ) → 2 ^ (j + k) ≡ 2 ^ j * 2 ^ k
pow_split j zero = let same : j + 0 ≡ j = omega arith in ap (λ n. 2 ^ n) same ∙ omega arith
pow_split j (suc k) =
    let same : j + suc k ≡ suc (j + k) = omega arith in
    ap (λ n. 2 ^ n) same
    ∙ omega (
      arith,
      pow-suc 2 (j + k),
      ap (λ (t : ℕ). 2 ^ j * t) (pow-suc 2 k),
      pow_split j k,
      mul_assoc (2 ^ j) (2 ^ k) 2,
    )

mul-pred : (a b : ℕ) → (a - 1) * b ≡ a * b - b
mul-pred zero b = omega arith
mul-pred (suc a) b =
    let same : suc a - 1 ≡ a = omega arith in
    ap (λ t. t * b) same ∙ omega (arith, mul_comm (suc a) b, mul_comm a b, mul-suc b a)

-- Rounding up to a multiple of 2^k, in 64 bits.
aligned_base_lem :
    (next k : ℕ)
    → k < 32
    → next ≤ mmio_window_end
    → aligned_base next (2 ^ k) ≡ (next + (2 ^ k - 1)) / 2 ^ k * 2 ^ k
unfolding aligned_base
aligned_base_lem next k h l =
    ap₂ bit_and sum complement
    ∙ bit_and-shifted k x (2 ^ (64 - k) - 1)
    ∙ ap (λ q. q * 2 ^ k) (bit_and-ones (64 - k) (x / 2 ^ k) ∙ mod-eq_of_lt below)
  where
    small : 2 ^ k ≤ 2 ^ 31
    small = pow-le-pow_right (omega arith) {i = k} {j = 31} (omega arith)

    positive : 1 ≤ 2 ^ k
    positive = one-le-pow k 2 (omega arith)

    x : ℕ
    x = next + (2 ^ k - 1)

    whole : 2 ^ (64 - k) * 2 ^ k ≡ 2 ^ 64
    whole =
        let all : 64 - k + k ≡ 64 = omega arith in sym (pow_split (64 - k) k) ∙ ap (λ n. 2 ^ n) all

    sum : u64 (next + sub64 (2 ^ k) 1) ≡ x
    sum = omega (arith, small, positive)

    complement : 2 ^ 64 - 1 - sub64 (2 ^ k) 1 ≡ (2 ^ (64 - k) - 1) * 2 ^ k
    complement = omega (arith, small, positive, whole, mul-pred (2 ^ (64 - k)) (2 ^ k))

    below : x / 2 ^ k < 2 ^ (64 - k)
    below = (div-lt_iff_lt-mul positive).1 (omega (arith, small, positive, whole))

aligned_base-Next :
    (next k : ℕ) → k < 32 → next ≤ mmio_window_end → Next next (2 ^ k) (aligned_base next (2 ^ k))
aligned_base-Next next k h l =
    let x = next + (2 ^ k - 1) in
    let positive : 1 ≤ 2 ^ k = one-le-pow k 2 (omega arith) in
    rw (aligned_base_lem next k h l) record {
      after = omega (arith, div-add-mod x (2 ^ k), mul_comm (2 ^ k) (x / 2 ^ k), mod-lt x positive);
      near = omega (arith, div-add-mod x (2 ^ k), mul_comm (2 ^ k) (x / 2 ^ k), positive);
      multiple = mul-mod_left (x / 2 ^ k) (2 ^ k);
      positive = positive;
    }

-- The BARs lie one after another from `low` to `high`, each at a multiple of its size.
abbrev pub Stacked : ℕ → ℕ → List (ℕ × ℕ × ℕ) → Type 0
Stacked low high [] = low ≤ high
Stacked low high ((i, base, size) ∷ rest) =
    (low ≤ base) × (base % size ≡ 0) × (0 < size) × Stacked (base + size) high rest

-- The memory BARs of a layout, by index and size.
abbrev pub memory_bars : ℕ → List (BarKind × ℕ) → List (ℕ × ℕ)
memory_bars i [] = []
memory_bars i ((kind, size) ∷ layout) =
    if is_mmio kind then (i, size) ∷ memory_bars (i + 1) layout else memory_bars (i + 1) layout

abbrev pub index_size : ℕ × ℕ × ℕ → ℕ × ℕ
index_size (i, base, size) = (i, size)

-- No I/O BAR, and memory BARs of sizes that a BAR can have.
abbrev pub Fair : List (BarKind × ℕ) → Type 0
Fair [] = Unit
Fair ((kind, size) ∷ layout) =
    (is_io kind ≡ false) × ((is_mmio kind ≡ false) ⊎ Sizeable size) × Fair layout

-- The room that the memory BARs need at most, with the gaps before them.
abbrev pub room : List (BarKind × ℕ) → ℕ
room [] = 0
room ((kind, size) ∷ layout) = (if is_mmio kind then 2 * size else 0) + room layout

-- What `assign_from` promises of its result.
pub record Placed (i next : ℕ) (layout : List (BarKind × ℕ)) (r : ℕ × List (ℕ × ℕ × ℕ))
    : Type 0 where
  pub stacked : Stacked next r.0 r.1
  pub bounded : r.0 ≤ next + room layout
  pub complete : map index_size r.1 ≡ memory_bars i layout

assign_one :
    (i next size : ℕ) (kind : BarKind) (layout : List (BarKind × ℕ)) (r : ℕ × List (ℕ × ℕ × ℕ))
    → is_io kind ≡ false
    → is_mmio kind ≡ true
    → aligned_base next size + size ≤ mmio_window_end
    → assign_from (i + 1) (aligned_base next size + size) layout ≡ some r
    → assign_from i next ((kind, size) ∷ layout)
      ≡ some (r.0, (i, aligned_base next size, size) ∷ r.1)
unfolding assign_from
assign_one i next size kind layout r io mmio h e =
    let word : u64 (aligned_base next size + size) ≡ aligned_base next size + size = omega arith in
    let inside : ltb mmio_window_end (u64 (aligned_base next size + size)) ≡ false = ground arith in
    ap₂
      (λ b c.
        if b
        then none
        else if not c
        then assign_from (i + 1) next layout
        else if ltb mmio_window_end (u64 (aligned_base next size + size))
        then none
        else (assign_from (i + 1) (u64 (aligned_base next size + size)) layout >>= λ q.
            some (q.0, (i, aligned_base next size, size) ∷ q.1)))
      io mmio
    ∙ ap
        (λ b.
          if b
          then none
          else (assign_from (i + 1) (u64 (aligned_base next size + size)) layout >>= λ q.
              some (q.0, (i, aligned_base next size, size) ∷ q.1)))
        inside
    ∙ ap
        (λ n.
          assign_from (i + 1) n layout >>= λ q. some (q.0, (i, aligned_base next size, size) ∷ q.1))
        word
    ∙ ap (λ o. o >>= λ q. some (q.0, (i, aligned_base next size, size) ∷ q.1)) e

assign_none : (i next : ℕ) → assign_from i next [] ≡ some (next, [])
unfolding assign_from
assign_none i next = refl

assign_skip :
    (i next size : ℕ) (kind : BarKind) (layout : List (BarKind × ℕ))
    → is_io kind ≡ false
    → is_mmio kind ≡ false
    → assign_from i next ((kind, size) ∷ layout) ≡ assign_from (i + 1) next layout
unfolding assign_from
assign_skip i next size kind layout io mmio = simp (io, mmio) refl

placed_one :
    (i next size : ℕ) (kind : BarKind) (layout : List (BarKind × ℕ))
    → Fair ((kind, size) ∷ layout)
    → is_mmio kind ≡ true
    → next + room ((kind, size) ∷ layout) ≤ mmio_window_end
    → Next next size (aligned_base next size)
      × (aligned_base next size + size ≤ mmio_window_end)
      × (aligned_base next size + size ≤ next + 2 * size)
placed_one i next size kind layout f m h = elim f.1 [
  | inl n ↦ absurd (ground (arith, m, n))
  | inr (k, small, e) ↦
      let base : Next next size (aligned_base next size) =
        rw e (aligned_base-Next next k small (omega arith)) in
      (base, ground (arith, base.near, h, m), omega (arith, base.near))
]

-- With room for them in the window, all memory BARs of a layout are placed: none is left out, each lies at
-- a multiple of its size, after the one before and after all that was placed earlier, and what the next
-- device starts from is behind them, no further than the room that they need.
pub assign_from_lem :
    (i next : ℕ) (layout : List (BarKind × ℕ))
    → Fair layout
    → next + room layout ≤ mmio_window_end
    → (r : ℕ × List (ℕ × ℕ × ℕ)) × (assign_from i next layout ≡ some r) × Placed i next layout r
assign_from_lem i next [] f h = (
  (next, []),
  assign_none i next,
  record { stacked = omega arith; bounded = omega arith; complete = refl },
)
assign_from_lem i next ((kind, size) ∷ layout) f h = elim (Bool-cases (is_mmio kind)) [
  | inl m ↦
      let (base, fits, near) = placed_one i next size kind layout f m h in
      let rest : aligned_base next size + size + room layout ≤ mmio_window_end =
        ground (arith, h, near) in
      let (r, eq, placed) =
        assign_from_lem (i + 1) (aligned_base next size + size) layout f.2 rest in
      (
        (r.0, (i, aligned_base next size, size) ∷ r.1),
        assign_one i next size kind layout r f.0 m fits eq,
        record {
          stacked = (base.after, base.multiple, base.positive, placed.stacked);
          bounded = ground (arith, placed.bounded, near);
          complete =
              ap (λ l. (i, size) ∷ l) placed.complete
              ∙ sym (
                  ap
                    (λ b.
                      if b
                      then (i, size) ∷ memory_bars (i + 1) layout
                      else memory_bars (i + 1) layout)
                    m);
        },
      )
  | inr m ↦
      let rest : next + room layout ≤ mmio_window_end = ground (arith, h) in
      let (r, eq, placed) = assign_from_lem (i + 1) next layout f.2 rest in
      (
        r,
        assign_skip i next size kind layout f.0 m ∙ eq,
        record {
          stacked = placed.stacked;
          bounded = ground (arith, placed.bounded);
          complete =
              placed.complete
              ∙ sym (
                  ap
                    (λ b.
                      if b
                      then (i, size) ∷ memory_bars (i + 1) layout
                      else memory_bars (i + 1) layout)
                    m);
        },
      )
]

module _ {ℓ} {F : Type ℓ} where
  abbrev pub slot_of : PciBus F → F → Slot F
  slot_of b d = record { bus = 0; device = u8 (length b.devices); function = 0; dev = d }

  abbrev added : PciBus F → F → ℕ → PciBus F
  added b d next = record b { devices = b.devices ++ (slot_of b d ∷ []); mmio_next = next }

module _ {ℓ} {F : Type ℓ} (fn : PciFunction F) where
  abbrev advanced : PciBus F → F → ℕ × List (ℕ × ℕ × ℕ) → Option (PciBus F × F)
  advanced b d q = some (record b { mmio_next = q.0 }, assigned fn d q.1)

  abbrev appended : PciBus F → PciBus F × F → Option (PciBus F × Bdf)
  appended b p = some (
    record p.0 { devices = b.devices ++ (slot_of b p.1 ∷ []) },
    record { bus = 0; device = u8 (length b.devices); function = 0 },
  )

  -- A device with no I/O BAR, whose memory BARs the window has room for, is added behind the others at the
  -- next number. Each of its memory BARs is given an address once: a multiple of its size, after the BAR
  -- before it and after everything that was placed earlier, inside the window.
  pub add_device_lem :
      (b : PciBus F) (d : F)
      → Fair (fn.bar_layout d)
      → b.mmio_next + room (fn.bar_layout d) ≤ mmio_window_end
      → (b' : PciBus F) × (calls : List (ℕ × ℕ × ℕ)) × (add_device fn b d
          ≡ some (b', record { bus = 0; device = u8 (length b.devices); function = 0 }))
        × (b'.devices ≡ b.devices ++ (slot_of b (assigned fn d calls) ∷ []))
        × Stacked b.mmio_next b'.mmio_next calls
        × (b'.mmio_next ≤ mmio_window_end)
        × (map index_size calls ≡ memory_bars 0 (fn.bar_layout d))
  unfolding add_device
  add_device_lem b d f h =
      let (r, e, placed) = assign_from_lem 0 b.mmio_next (fn.bar_layout d) f h in
      (
        added b (assigned fn d r.1) r.0,
        r.1,
        ap (λ o. o >>= advanced b d >>= appended b) e,
        refl,
        placed.stacked,
        omega (arith, placed.bounded),
        placed.complete,
      )
