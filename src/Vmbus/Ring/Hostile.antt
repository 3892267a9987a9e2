-- ===== src/Vmbus/Ring/Hostile.antt =====
-- The ring of src/vmbus/ring.rs in memory that says anything.
use tinyvmm.Prelude.{
  ℕ, suc, ◌+◌, ◌-◌, ◌*◌, ◌%◌, ◌^◌, ◌≤◌, ◌<◌, ◌≡◌, ◌⊎◌, inl, inr, Bool, true, false, not, ◌||◌,
  Option, some, none, List, [], ◌∷◌, ◌++◌, length, replicate, get_or, get_elem?, length-take,
  length-append, length-replicate, ltb, leb, ◌==◌, ◌>>=◌, if◌then◌else◌, Bool-cases, arith, refl,
  ap, u32,
}
use mathlib.Core.Path.{subst}
use native.Mathlib.Nat.{mod-lt}
use tinyvmm.Memory.{GuestMemory, Guest, run_guest, load_acquire_u32, store_release_u32}
use tinyvmm.Vmbus.Ring.{
  page, write_index, read_index, interrupt_mask, descriptor_len, trailer_len, Error, Result, ok,
  err, Ring, new, page_addresses, size, control, checked, indices, walk, copy_in, copy_out, resize,
  Reading, corrupted, le16, finish, read_payload, read_at, read, packet_of, next_multiple_of_8,
  Writing, signal, publish, write_at, write,
}
use tinyvmm.Vmbus.Ring.Places.{get_elem?-get_or}
use tinyvmm.Vmbus.Ring.Guards.{Returns, Returns-bind, Returns-if, walk-Returns, copy_in-length}

-- A packet that is given has at most `max` bytes.
abbrev pub Bounded : ℕ → Reading → Type 0
Bounded max (ok (some kind), buf, m) = length buf ≤ max
Bounded max (ok none, buf, m) = Unit
Bounded max (err e, buf, m) = Unit

-- Indices that pass lie in the data.
abbrev Sound : ℕ → Result (ℕ × ℕ) → Type 0
Sound n (ok (w, r)) = (w < n) × (r < n)
Sound n (err e) = Unit

if-Sound :
    (n w r : ℕ) (b : Bool)
    → (b ≡ false → (w < n) × (r < n))
    → Sound n (if b then err Error.corrupt else ok (w, r))
if-Sound n w r true h = tt
if-Sound n w r false h = h refl

passing : (n w r : ℕ) (x y : Bool) → (leb n w || leb n r || x || y) ≡ false → (w < n) × (r < n)
passing n w r x y h = (ground (arith, h), ground (arith, h))

checked-Sound : (n : ℕ) (w r : Option ℕ) → Sound n (checked n w r)
checked-Sound n none r = tt
checked-Sound n (some w) none = tt
checked-Sound n (some w) (some r) =
    if-Sound n w r (leb n w || leb n r || not (w % 8 == 0) || not (r % 8 == 0))
      (passing n w r (not (w % 8 == 0)) (not (r % 8 == 0)))

module _ (m : GuestMemory) (ring : Ring) (enough : 2 ≤ length ring.pages) where
  control-Returns : (field : ℕ) → Returns (λ (a : ℕ). Unit) (control ring field)
  control-Returns field =
      Returns-bind (λ (a : ℕ). Unit) (λ (a : ℕ). Unit) (get_elem? ring.pages 0)
        (λ p. some (p + field))
        (get_or ring.pages 0 0, get_elem?-get_or ring.pages 0 (omega (arith, enough)), tt)
        (λ a p. (a + field, refl, tt))

  indices-Returns : Returns (Sound (size ring)) (indices m ring)
  unfolding indices
  indices-Returns =
      Returns-bind (λ (a : ℕ). Unit) (Sound (size ring)) (control ring write_index) _
        (control-Returns write_index)
        λ a u.
          Returns-bind (λ (a : ℕ). Unit) (Sound (size ring)) (control ring read_index) _
            (control-Returns read_index)
            λ a' u'. (
              checked (size ring) (load_acquire_u32 m a) (load_acquire_u32 m a'),
              refl,
              checked-Sound (size ring) (load_acquire_u32 m a) (load_acquire_u32 m a'),
            )

  -- Nothing is promised of a reading but its bound, so a failure and an end are immediate.
  finish-Returns :
      (max next kind : ℕ) (buf : List ℕ)
      → length buf ≤ max
      → Returns (Bounded max) (finish m ring next kind buf)
  unfolding finish
  finish-Returns max next kind buf h =
      Returns-bind (λ (a : ℕ). Unit) (Bounded max) (control ring read_index) _
        (control-Returns read_index)
        λ a u.
          Returns-if (Bounded max) (store_release_u32 m a (u32 next)).1 _ _
            (λ e. ((ok (some kind), buf, (store_release_u32 m a (u32 next)).0), refl, h))
            (λ e. ((err Error.corrupt, buf, (store_release_u32 m a (u32 next)).0), refl, tt))

  corrupted-Returns : (max : ℕ) (buf : List ℕ) → Returns (Bounded max) (corrupted buf m)
  corrupted-Returns max buf = ((err Error.corrupt, buf, m), refl, tt)

  copied-Returns :
      (len off : ℕ) (buf : List ℕ)
      → off < size ring
      → length buf ≡ len
      → Returns (λ (c : List ℕ × Bool). length c.0 ≡ len) (walk ring off len (copy_in m) buf)
  copied-Returns len off buf h e =
      walk-Returns ring enough (λ s. length s ≡ len) len (copy_in m)
        (λ gpa at n s k e'. copy_in-length m len gpa at n s k e') len off 0 buf h e

  read_payload-Returns :
      (buf : List ℕ) (max available r : ℕ) (d : List ℕ)
      → Returns (Bounded max) (read_payload m ring buf max available r d)
  unfolding read_payload
  read_payload-Returns buf max available r d =
      let offset = le16 2 d * 8 in
      let len = le16 4 d * 8 in
      let n = len - offset in
      let next = (r + len + trailer_len) % size ring in
      Returns-if (Bounded max) _ _ _ (λ e. corrupted-Returns max buf)
        (λ e.
          Returns-if (Bounded max) (ltb max n) _ _ (λ e'. corrupted-Returns max buf)
            (λ e'.
              let small : n ≤ max = ground (arith, e') in
              Returns-bind (λ (c : List ℕ × Bool). length c.0 ≡ n) (Bounded max)
                (walk ring ((r + offset) % size ring) n (copy_in m) (resize buf n)) _
                (copied-Returns n ((r + offset) % size ring) (resize buf n)
                  (mod-lt (r + offset) (omega (arith, enough)))
                  (omega (
                    arith,
                    length-take n (buf ++ replicate n 0),
                    length-append buf (replicate n 0),
                    length-replicate {A = ℕ} n 0,
                  )))
                λ c q.
                  Returns-if (Bounded max) c.1 _ _
                    (λ e''. finish-Returns max next (le16 0 d) c.0 (omega (arith, q)))
                    (λ e''. ((err Error.corrupt, c.0, m), refl, tt))))

  read_at-Returns :
      (buf : List ℕ) (max w r : ℕ)
      → r < size ring
      → Returns (Bounded max) (read_at m ring buf max (w, r))
  unfolding read_at
  read_at-Returns buf max w r h =
      let available = (w + size ring - r) % size ring in
      Returns-if (Bounded max) (w == r) _ _ (λ e. ((ok none, buf, m), refl, tt))
        λ e.
          Returns-bind (λ (c : List ℕ × Bool). length c.0 ≡ descriptor_len) (Bounded max)
            (walk ring r descriptor_len (copy_in m) (replicate descriptor_len 0)) _
            (copied-Returns descriptor_len r (replicate descriptor_len 0) h refl)
            λ c q.
              Returns-if (Bounded max) c.1 _ _ (λ e'. read_payload-Returns buf max available r c.0)
                (λ e'. corrupted-Returns max buf)

  read-Returns : (buf : List ℕ) (max : ℕ) → Returns (Bounded max) (read m ring buf max)
  unfolding read
  read-Returns buf max =
      Returns-bind (Sound (size ring)) (Bounded max) (indices m ring) _ indices-Returns after
    where
      after :
          (i : Result (ℕ × ℕ))
          → Sound (size ring) i
          → Returns
              (Bounded max)
              (elim i [ err e ↦ some (err e, buf, m) | ok wr ↦ read_at m ring buf max wr ])
      after (err e) s = ((err e, buf, m), refl, tt)
      after (ok (w, r)) s = read_at-Returns buf max w r s.1

  publish-Returns :
      (guest : Guest) (w next : ℕ) → Returns (λ (x : Writing). Unit) (publish guest m ring w next)
  unfolding publish
  publish-Returns guest w next =
      Returns-bind (λ (a : ℕ). Unit) (λ (x : Writing). Unit) (control ring write_index) _
        (control-Returns write_index)
        λ at u.
          Returns-bind (λ (a : ℕ). Unit) (λ (x : Writing). Unit) (control ring interrupt_mask) _
            (control-Returns interrupt_mask)
            λ mask u'.
              Returns-bind (λ (a : ℕ). Unit) (λ (x : Writing). Unit) (control ring read_index) _
                (control-Returns read_index)
                λ r u''.
                  let c = store_release_u32 m at (u32 next) in
                  let seen = run_guest guest c.0 in
                  Returns-if (λ (x : Writing). Unit) c.1 _ _
                    (λ e. (
                      (signal w (load_acquire_u32 seen mask) (load_acquire_u32 seen r), seen),
                      refl,
                      tt,
                    ))
                    (λ e. ((err Error.corrupt, c.0), refl, tt))

module _ (m : GuestMemory) (ring : Ring) (enough : 2 ≤ length ring.pages) where
  write_at-Returns :
      (guest : Guest) (payload : List ℕ) (w r : ℕ)
      → w < size ring
      → Returns (λ (x : Writing). Unit) (write_at guest m ring payload (w, r))
  unfolding write_at
  write_at-Returns guest payload w r h =
      let len = descriptor_len + next_multiple_of_8 (length payload) in
      let packet = packet_of w payload in
      Returns-if (λ (x : Writing). Unit) _ _ _ (λ e. ((err Error.full, m), refl, tt))
        λ e.
          Returns-bind (λ (c : GuestMemory × Bool). Unit) (λ (x : Writing). Unit)
            (walk ring w (length packet) (copy_out packet) m) _
            (walk-Returns ring enough (λ (s : GuestMemory). Unit) (length packet) (copy_out packet)
              (λ gpa at n s k u. tt) (length packet) w 0 m h tt)
            λ c u.
              Returns-if (λ (x : Writing). Unit) c.1 _ _
                (λ e'.
                  publish-Returns c.0 ring enough guest w ((w + (len + trailer_len)) % size ring))
                (λ e'. ((err Error.corrupt, c.0), refl, tt))

  write-Returns :
      (guest : Guest) (payload : List ℕ)
      → Returns (λ (x : Writing). Unit) (write guest m ring payload)
  unfolding write
  write-Returns guest payload =
      Returns-bind (Sound (size ring)) (λ (x : Writing). Unit) (indices m ring) _
        (indices-Returns m ring enough) after
    where
      after :
          (i : Result (ℕ × ℕ))
          → Sound (size ring) i
          → Returns
              (λ (x : Writing). Unit)
              (elim i [ err e ↦ some (err e, m) | ok wr ↦ write_at guest m ring payload wr ])
      after (err e) s = ((err e, m), refl, tt)
      after (ok (w, r)) s = write_at-Returns guest payload w r s.0

-- What `new` accepts has a control page and a page of data.
abbrev OfLength : ℕ → Option (List ℕ) → Type 0
OfLength n none = Unit
OfLength n (some l) = length l ≡ n

page_addresses-OfLength : (pfns : List ℕ) → OfLength (length pfns) (page_addresses pfns)
page_addresses-OfLength [] = refl
page_addresses-OfLength (pfn ∷ pfns) =
    grown (length pfns) (ltb (pfn * page) (2 ^ 64)) (page_addresses pfns)
      (page_addresses-OfLength pfns)
  where
    grown :
        (n : ℕ) (b : Bool) (o : Option (List ℕ))
        → OfLength n o
        → OfLength (suc n) (if b then (o >>= λ l. some (pfn * page ∷ l)) else none)
    grown n false o h = tt
    grown n true none h = tt
    grown n true (some l) h = ap suc h

abbrev Enough : Option Ring → Type 0
Enough none = Unit
Enough (some ring) = 2 ≤ length ring.pages

new-Enough : (pfns : List ℕ) → Enough (new pfns)
unfolding new
new-Enough pfns =
    checked_length (Bool-cases (ltb (length pfns) 2)) (ltb (2 ^ 16) (length pfns))
      (page_addresses pfns) (page_addresses-OfLength pfns)
  where
    checked_length :
        ((ltb (length pfns) 2 ≡ true) ⊎ (ltb (length pfns) 2 ≡ false))
        → (c : Bool) (o : Option (List ℕ)) → OfLength (length pfns) o
        → Enough
            (if ltb (length pfns) 2 || c then none else (o >>= λ l. some (record { pages = l })))
    checked_length (inl e) c o h = rw e tt
    checked_length (inr e) true o h = rw e tt
    checked_length (inr e) false none h = rw e tt
    checked_length (inr e) false (some l) h = rw e (ground (arith, h, e))

-- A ring of any pages that `new` accepts, in RAM or not, twice in the list or not, with any bytes in
-- them: neither `read` nor `write` panics, and a packet that `read` gives is no longer than the caller
-- takes.
pub hostile_lem :
    (pfns : List ℕ) (ring : Ring) (m : GuestMemory) (guest : Guest) (buf payload : List ℕ) (max : ℕ)
    → new pfns ≡ some ring
    → ((a : Reading) × (read m ring buf max ≡ some a) × Bounded max a)
      × ((x : Writing) × (write guest m ring payload ≡ some x))
hostile_lem pfns ring m guest buf payload max e =
    let enough : 2 ≤ length ring.pages = subst Enough e (new-Enough pfns) in
    let (x, eq, u) = write-Returns m ring enough guest payload in
    (read-Returns m ring enough buf max, (x, eq))
