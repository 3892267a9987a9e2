-- ===== src/Pci/Bus/Routing.antt =====
-- The guest reaches the devices of src/pci/bus.rs through its two ports.
use tinyvmm.Prelude.{
  ℕ, zero, suc, ◌+◌, ◌-◌, ◌*◌, ◌/◌, ◌%◌, ◌^◌, ◌<◌, ◌≡◌, Bool, true, false, not, Option, none, some,
  List, [], ◌∷◌, ◌==◌, if◌then◌else◌, bit_and, u8, arith, refl, ap, ap₂, sym, ◌∙◌, inl, inr,
  Bool-cases, bit_and-ones, bit_and-shifted,
}
use tinyvmm.Device.IoBus.{IoAccess}
use tinyvmm.Pci.Bus.{
  config_address_enable, config_address_port, config_data_port, PciFunction, Slot, PciBus,
  DecodedAddress, decode_config_address, handle_address, is_at, find, update, all_ones, handle_data,
}

-- The address of register `reg` of device `n`.
abbrev pub address_of : ℕ → ℕ → ℕ
address_of n reg = config_address_enable + n * 2 ^ 11 + reg

decode_lem :
    (n reg : ℕ)
    → n < 32
    → reg < 256
    → reg % 4 ≡ 0
    → decode_config_address (address_of n reg)
      ≡ record { enable = true; bus = 0; dev = n; fn = 0; reg = reg }
unfolding decode_config_address
decode_lem n reg h l m =
    ap₂
      (λ (e : Bool) (b : ℕ). record {
        enable = e;
        bus = b;
        dev = u8 (bit_and (a / 2 ^ 11) 0x1f);
        fn = u8 (bit_and (a / 2 ^ 8) 0x07);
        reg = u8 (bit_and a 0xfc);
      })
      enabled (omega (arith, bit_and-ones 8 (a / 2 ^ 16)))
    ∙ ap₂
        (λ (d : ℕ) (f : ℕ). record {
          enable = true;
          bus = 0;
          dev = d;
          fn = f;
          reg = u8 (bit_and a 0xfc);
        })
        (omega (arith, bit_and-ones 5 (a / 2 ^ 11))) (omega (arith, bit_and-ones 3 (a / 2 ^ 8)))
    ∙ ap (λ (r : ℕ). record { enable = true; bus = 0; dev = n; fn = 0; reg = r })
        (omega (arith, bit_and-shifted 2 a 63, bit_and-ones 6 (a / 2 ^ 2)))
  where
    a : ℕ
    a = address_of n reg

    top : bit_and a (2 ^ 31) ≡ 2 ^ 31
    top = omega (arith, bit_and-shifted 31 a 1, bit_and-ones 1 (a / 2 ^ 31))

    enabled : not (bit_and a config_address_enable == 0) ≡ true
    enabled = ground (arith, top)

-- The devices have the numbers of their places.
abbrev pub Numbered {ℓ} : {F : Type ℓ} → ℕ → List (Slot F) → Type 0
Numbered i [] = Unit
Numbered i (s ∷ slots) = (s.bus ≡ 0) × (s.function ≡ 0) × (s.device ≡ i) × Numbered (i + 1) slots

module _ {ℓ} {F : Type ℓ} where
  abbrev pub dev_at : List (Slot F) → ℕ → Option F
  dev_at [] n = none
  dev_at (s ∷ slots) zero = some s.dev
  dev_at (s ∷ slots) (suc n) = dev_at slots n

  abbrev pub map_dev : (F → F) → Option F → Option F
  map_dev g none = none
  map_dev g (some d) = some (g d)

  is_at_lem :
      (s : Slot F) (i j : ℕ) → s.bus ≡ 0 → s.function ≡ 0 → s.device ≡ i → is_at s 0 j 0 ≡ (i == j)
  is_at_lem s i j b f d = ground (arith, b, f, d)

  find_lem :
      (slots : List (Slot F)) (i n : ℕ) → Numbered i slots → find slots 0 (i + n) 0 ≡ dev_at slots n
  unfolding find
  find_lem [] i n v = refl
  find_lem (s ∷ slots) i zero v =
      let here : is_at s 0 (i + 0) 0 ≡ true = is_at_lem s i (i + 0) v.0 v.1 v.2 ∙ ground arith in
      ap (λ b. if b then some s.dev else find slots 0 (i + 0) 0) here
  find_lem (s ∷ slots) i (suc n) v =
      let later : is_at s 0 (i + suc n) 0 ≡ false =
        is_at_lem s i (i + suc n) v.0 v.1 v.2 ∙ ground arith in
      let shift : i + suc n ≡ i + 1 + n = omega arith in
      ap (λ b. if b then some s.dev else find slots 0 (i + suc n) 0) later
      ∙ ap (λ j. find slots 0 j 0) shift
      ∙ find_lem slots (i + 1) n v.3

  update_lem :
      (g : F → F) (slots : List (Slot F)) (i n k : ℕ)
      → Numbered i slots
      → dev_at (update g slots 0 (i + n) 0) k
        ≡ (if k == n then map_dev g (dev_at slots k) else dev_at slots k)
  unfolding update
  update_lem g [] i n k v = elim (Bool-cases (k == n)) [ inl e ↦ rw e refl | inr e ↦ rw e refl ]
  update_lem g (s ∷ slots) i zero zero v =
      let hit : is_at s 0 (i + 0) 0 ≡ true = is_at_lem s i (i + 0) v.0 v.1 v.2 ∙ ground arith in
      ap
        (λ b.
          dev_at (if b then record s { dev = g s.dev } ∷ slots else s ∷ update g slots 0 (i + 0) 0)
            0)
        hit
  update_lem g (s ∷ slots) i zero (suc k) v =
      let hit : is_at s 0 (i + 0) 0 ≡ true = is_at_lem s i (i + 0) v.0 v.1 v.2 ∙ ground arith in
      let off : (suc k == 0) ≡ false = ground arith in
      ap
        (λ b.
          dev_at (if b then record s { dev = g s.dev } ∷ slots else s ∷ update g slots 0 (i + 0) 0)
            (suc k))
        hit
      ∙ sym (ap (λ b. if b then map_dev g (dev_at slots k) else dev_at slots k) off)
  update_lem g (s ∷ slots) i (suc n) zero v =
      let hit : is_at s 0 (i + suc n) 0 ≡ false =
        is_at_lem s i (i + suc n) v.0 v.1 v.2 ∙ ground arith in
      let off : (0 == suc n) ≡ false = ground arith in
      ap
        (λ b.
          dev_at
            (if b then record s { dev = g s.dev } ∷ slots else s ∷ update g slots 0 (i + suc n) 0)
            0)
        hit
      ∙ sym (ap (λ b. if b then some (g s.dev) else some s.dev) off)
  update_lem g (s ∷ slots) i (suc n) (suc k) v =
      let hit : is_at s 0 (i + suc n) 0 ≡ false =
        is_at_lem s i (i + suc n) v.0 v.1 v.2 ∙ ground arith in
      let same : (suc k == suc n) ≡ (k == n) = ground arith in
      let shift : i + suc n ≡ i + 1 + n = omega arith in
      ap
        (λ b.
          dev_at
            (if b then record s { dev = g s.dev } ∷ slots else s ∷ update g slots 0 (i + suc n) 0)
            (suc k))
        hit
      ∙ ap (λ j. dev_at (update g slots 0 j 0) k) shift
      ∙ update_lem g slots (i + 1) n k v.3
      ∙ sym (ap (λ b. if b then map_dev g (dev_at slots k) else dev_at slots k) same)

  -- The guest's write of CONFIG_ADDRESS.
  abbrev pub select : ℕ → ℕ → PciBus F → PciBus F
  select n reg b =
      (handle_address
        (record {
          port = config_address_port;
          access_size = 4;
          is_write = true;
          value = address_of n reg;
        })
        b).1

abbrev pub data_access : ℕ → ℕ → Bool → ℕ → IoAccess
data_access o size is_write v = record {
  port = config_data_port + o;
  access_size = size;
  is_write = is_write;
  value = v;
}

module _ {ℓ} {F : Type ℓ} (fn : PciFunction F) where
  abbrev pub answer : Option F → ℕ → ℕ → ℕ
  answer none offset size = 0xffff_ffff
  answer (some d) offset size = fn.config_read offset size d

  abbrev respond : IoAccess → PciBus F → DecodedAddress → Option F → IoAccess × PciBus F
  respond acc b dec found =
      let offset = dec.reg + (acc.port - config_data_port) in
      let write = fn.config_write offset acc.access_size acc.value in
      if not dec.enable then (all_ones acc, b) else (elim found [
        | none ↦ (all_ones acc, b)
        | some d ↦
            if acc.is_write
            then (acc, record b { devices = update write b.devices dec.bus dec.dev dec.fn })
            else (record acc { value = fn.config_read offset acc.access_size d }, b)
      ])

  abbrev place : ℕ → ℕ → DecodedAddress
  place n reg = record { enable = true; bus = 0; dev = n; fn = 0; reg = reg }

  handle_data-respond :
      (acc : IoAccess) (b : PciBus F) (n reg : ℕ)
      → Numbered 0 b.devices
      → n < 32
      → reg < 256
      → reg % 4 ≡ 0
      → handle_data fn acc (select n reg b)
        ≡ respond acc (select n reg b) (place n reg) (dev_at b.devices n)
  unfolding handle_data handle_address
  handle_data-respond acc b n reg num h l m =
      let first : n ≡ 0 + n = omega arith in
      ap (λ dec. respond acc (select n reg b) dec (find b.devices dec.bus dec.dev dec.fn))
        (decode_lem n reg h l m)
      ∙ ap (respond acc (select n reg b) (place n reg))
          (ap (λ j. find b.devices 0 j 0) first ∙ find_lem b.devices 0 n num)

  read-respond :
      (acc : IoAccess) (b : PciBus F) (n reg : ℕ) (found : Option F)
      → acc.is_write ≡ false
      → (respond acc b (place n reg) found).0.value
        ≡ answer found (reg + (acc.port - config_data_port)) acc.access_size
  read-respond acc b n reg none r = simp r refl
  read-respond acc b n reg (some d) r = simp r refl

  write-respond :
      (b : PciBus F) (n reg o size v k : ℕ) (found : Option F)
      → Numbered 0 b.devices
      → dev_at b.devices n ≡ found
      → dev_at (respond (data_access o size true v) b (place n reg) found).1.devices k ≡ (
          if k == n
          then map_dev
              (fn.config_write (reg + (config_data_port + o - config_data_port)) size v)
              (dev_at b.devices k)
          else dev_at b.devices k)
  write-respond b n reg o size v k none num e = elim (Bool-cases (k == n)) [
    | inl same ↦
        let place_n : k ≡ n = ground arith in
        let empty : dev_at b.devices k ≡ none = ap (dev_at b.devices) place_n ∙ e in
        simp (same, empty) refl
    | inr differ ↦ simp differ refl
  ]
  write-respond b n reg o size v k (some d) num e =
      let first : n ≡ 0 + n = omega arith in
      ap
        (λ j.
          dev_at
            (update (fn.config_write (reg + (config_data_port + o - config_data_port)) size v)
              b.devices 0 j 0)
            k)
        first
      ∙ update_lem (fn.config_write (reg + (config_data_port + o - config_data_port)) size v)
          b.devices 0 n k num

  -- The guest selects register `reg` of device `n` of bus 0 and accesses the data port at byte `o`. A
  -- read gives what the device added as number `n` has at that offset, or all ones if there is
  -- none. A write reaches that device alone, at that offset.
  pub handle_data_lem :
      (b : PciBus F) (n reg o size v k : ℕ)
      → Numbered 0 b.devices
      → n < 32
      → reg < 256
      → reg % 4 ≡ 0
      → let b1 = select n reg b in
        ((handle_data fn (data_access o size false v) b1).0.value
          ≡ answer (dev_at b.devices n) (reg + o) size)
        × (dev_at (handle_data fn (data_access o size true v) b1).1.devices k ≡ (
            if k == n
            then map_dev (fn.config_write (reg + o) size v) (dev_at b.devices k)
            else dev_at b.devices k))
  unfolding handle_address
  handle_data_lem b n reg o size v k num h l m =
      let offset : config_data_port + o - config_data_port ≡ o = omega arith in
      let b1 = select n reg b in
      (
        ap (λ r. r.0.value) (handle_data-respond (data_access o size false v) b n reg num h l m)
            ∙ read-respond (data_access o size false v) b1 n reg (dev_at b.devices n) refl
            ∙ ap (λ off. answer (dev_at b.devices n) (reg + off) size) offset,
        ap (λ r. dev_at r.1.devices k)
              (handle_data-respond (data_access o size true v) b n reg num h l m)
            ∙ write-respond b1 n reg o size v k (dev_at b.devices n) num refl
            ∙ ap
                (λ off.
                  if k == n
                  then map_dev (fn.config_write (reg + off) size v) (dev_at b.devices k)
                  else dev_at b.devices k)
                offset,
      )
