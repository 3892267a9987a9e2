-- ===== src/Vmbus/Ring/Control.antt =====
-- The control page of a ring of src/vmbus/ring.rs: its words, and what a store leaves.
use tinyvmm.Prelude.{
  ℕ, ◌+◌, ◌%◌, ◌^◌, ◌≤◌, ◌<◌, ◌≡◌, ◌⊎◌, Bool, true, false, Option, some, none, List, length, get_or,
  ◌==◌, ==_iff, ◌>>=◌, if◌then◌else◌, arith, ap, ◌∙◌, from_le_bytes, to_le_bytes,
  length-to_le_bytes, from_le_bytes-to_le_bytes,
}
use tinyvmm.Memory.{
  GuestMemory, region_off, read_host, write_host, load_acquire_u32, store_release_u32,
}
use tinyvmm.Memory.Region.{region_off_sub}
use tinyvmm.Memory.Access.{read_host-write_host_self, read_host-write_host_other, read_host_ext}
use tinyvmm.Vmbus.Ring.{page, Ring, size, control}
use tinyvmm.Vmbus.Ring.Places.{Laid, loc, loc_outside_control, get_elem?-get_or, round-lt}
use tinyvmm.Vmbus.Ring.Walks.{write_host-out}
use tinyvmm.Vmbus.Ring.Puts.{Put}

-- The little-endian word at a host offset.
abbrev pub word : (ℕ → ℕ) → ℕ → ℕ
word b at = from_le_bytes (read_host b at 4)

abbrev pub stored : (ℕ → ℕ) → ℕ → ℕ → ℕ → ℕ
stored b at v = write_host b at (to_le_bytes 4 v)

pub word-stored_self : (b : ℕ → ℕ) (at v : ℕ) → v < 2 ^ 32 → word (stored b at v) at ≡ v
word-stored_self b at v h =
    ap from_le_bytes (read_host-write_host_self b at (to_le_bytes 4 v))
    ∙ from_le_bytes-to_le_bytes 4 v (omega arith)

pub word-stored_other :
    (b : ℕ → ℕ) (at v at' : ℕ)
    → (at + 4 ≤ at') ⊎ (at' + 4 ≤ at)
    → word (stored b at v) at' ≡ word b at'
word-stored_other b at v at' h = ap from_le_bytes (
    read_host-write_host_other b at (to_le_bytes 4 v) at' 4
      (ground (arith, length-to_le_bytes 4 v)))

module _ {m : GuestMemory} {ring : Ring} {host : ℕ → ℕ} (l : Laid m ring host) where
  pub control_lem : (field : ℕ) → control ring field ≡ some (get_or ring.pages 0 0 + field)
  control_lem field =
      ap (λ o. o >>= λ p. some (p + field))
        (get_elem?-get_or ring.pages 0 (omega (arith, l.enough)))

  control_mapped :
      (field : ℕ)
      → field + 4 ≤ page
      → region_off m (get_or ring.pages 0 0 + field) 4 ≡ some (host 0 + field)
  control_mapped field h =
      region_off_sub m (get_or ring.pages 0 0) page field 4 l.valid
        (l.mapped 0 (omega (arith, l.enough))) (omega arith) h

  control_aligned : (field : ℕ) → field % 4 ≡ 0 → ((get_or ring.pages 0 0 + field) % 4 == 0) ≡ true
  control_aligned field h =
      let start = l.aligned 0 (omega (arith, l.enough)) in
      (==_iff ((get_or ring.pages 0 0 + field) % 4) 0).1 (omega (arith, start))

  pub load_lem :
      (field : ℕ)
      → field + 4 ≤ page
      → field % 4 ≡ 0
      → load_acquire_u32 m (get_or ring.pages 0 0 + field) ≡ some (word m.base (host 0 + field))
  unfolding load_acquire_u32
  load_lem field h k =
      let loaded : Option ℕ → Option ℕ =
        λ o. elim o [ none ↦ none | some p ↦ some (from_le_bytes (read_host m.base p 4)) ] in
      ap (λ b. if b then loaded (region_off m (get_or ring.pages 0 0 + field) 4) else none)
        (control_aligned field k)
      ∙ ap loaded (control_mapped field h)

  pub store_lem :
      (field v : ℕ)
      → field + 4 ≤ page
      → field % 4 ≡ 0
      → store_release_u32 m (get_or ring.pages 0 0 + field) v
        ≡ (record m { base = stored m.base (host 0 + field) v }, true)
  unfolding store_release_u32
  store_lem field v h k =
      let after : Option ℕ → GuestMemory × Bool = λ o. elim o [
        | none ↦ (m, false)
        | some p ↦ (record m { base = write_host m.base p (to_le_bytes 4 v) }, true)
      ] in
      ap (λ b. if b then after (region_off m (get_or ring.pages 0 0 + field) 4) else (m, false))
        (control_aligned field k)
      ∙ ap after (control_mapped field h)

  -- A store into the control page leaves the data.
  pub loc-stored :
      (b : ℕ → ℕ) (field v i : ℕ)
      → field + 4 ≤ page
      → i < size ring
      → stored b (host 0 + field) v (loc host i) ≡ b (loc host i)
  loc-stored b field v i h k =
      let outside = loc_outside_control l i k in
      write_host-out b (host 0 + field) (to_le_bytes 4 v) (loc host i)
        (ground (arith, outside, length-to_le_bytes 4 v))

  -- A packet written into the data leaves the control page.
  pub word-Put :
      {b b' : ℕ → ℕ} {off : ℕ} {packet : List ℕ} (field : ℕ)
      → Put b b' ring host off 0 packet
      → off < size ring
      → length packet ≤ size ring
      → field + 4 ≤ page
      → word b' (host 0 + field) ≡ word b (host 0 + field)
  word-Put {b} {b'} {off} {packet} field p h fits k = ap from_le_bytes (
      read_host_ext b' b (host 0 + field) 4 λ i low high. p.kept i λ j lt eq.
        let outside =
          loc_outside_control l ((off + j) % size ring)
            (round-lt (size ring) off j h (omega arith)) in
        ground (arith, outside, eq))
