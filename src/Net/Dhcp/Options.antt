-- ===== src/Net/Dhcp/Options.antt =====
-- The options of a client's message, as `parse_options` of src/net/dhcp.rs reads them.
use tinyvmm.Prelude.{
  ℕ, zero, suc, ◌+◌, ◌≤◌, ◌≡◌, ◌≢◌, Bool, true, false, not, ◌||◌, Option, none, some, List, [], ◌∷◌,
  ◌++◌, All, length, length-append, take, drop, get_or, ltb, ◌==◌, ==_iff, if◌then◌else◌,
  Bool-cases, inl, inr, arith, refl, ap, ap₂, sym, ◌∙◌,
}
use tinyvmm.Net.Wire.{Ip}
use tinyvmm.Net.Dhcp.{
  RequestOptions, magic_cookie, options, opt_pad, opt_message_type, opt_requested_ip, opt_server_id,
  opt_end, note_type, address_of, note_address, note, option_step, options_from, parse_options,
  slice, same_bytes, is_request,
}
use tinyvmm.Net.Dhcp.Client.{
  Item, pad, option, IsOption, Ending, stops, ends, item_bytes, ClientMessage, ClientFits,
  client_bytes, later, last_option, one_byte, four_bytes, asked_type, asked_ip, asked_server,
}

-- What the items say, over what is known before them.
abbrev said : List Item → RequestOptions → RequestOptions
said items out = record {
  message_type = later (last_option opt_message_type one_byte items) out.message_type;
  requested_ip = later (last_option opt_requested_ip four_bytes items) out.requested_ip;
  server_id = later (last_option opt_server_id four_bytes items) out.server_id;
}

-- One option.
abbrev heard : ℕ → List ℕ → RequestOptions → RequestOptions
heard code payload out = record {
  message_type =
      later (if code == opt_message_type then one_byte payload else none) out.message_type;
  requested_ip =
      later (if code == opt_requested_ip then four_bytes payload else none) out.requested_ip;
  server_id = later (if code == opt_server_id then four_bytes payload else none) out.server_id;
}

later-later : {A : Type 0} → (a b c : Option A) → later (later a b) c ≡ later a (later b c)
later-later none b c = refl
later-later (some a) b c = refl

said-heard :
    (code : ℕ) (payload : List ℕ) (items : List Item) (out : RequestOptions)
    → said items (heard code payload out) ≡ said (option code payload ∷ items) out
said-heard code payload items out =
    let m =
      later-later (last_option opt_message_type one_byte items)
        (if code == opt_message_type then one_byte payload else none) out.message_type in
    let r =
      later-later (last_option opt_requested_ip four_bytes items)
        (if code == opt_requested_ip then four_bytes payload else none) out.requested_ip in
    let s =
      later-later (last_option opt_server_id four_bytes items)
        (if code == opt_server_id then four_bytes payload else none) out.server_id in
    let made : Option ℕ → Option Ip → Option Ip → RequestOptions =
      λ m r s. record { message_type = m; requested_ip = r; server_id = s } in
    sym (ap₂ (λ f x. f x) (ap₂ made m r) s)

note_type_lem :
    (payload : List ℕ) (out : RequestOptions)
    → note_type payload out
      ≡ record out { message_type = later (one_byte payload) out.message_type }
note_type_lem [] out = refl
note_type_lem (a ∷ []) out = refl
note_type_lem (a ∷ b ∷ payload) out = refl

note_ip_lem :
    (payload : List ℕ) (out : RequestOptions)
    → note_address (address_of payload) (λ ip. record out { requested_ip = some ip }) out
      ≡ record out { requested_ip = later (four_bytes payload) out.requested_ip }
note_ip_lem [] out = refl
note_ip_lem (a ∷ []) out = refl
note_ip_lem (a ∷ b ∷ []) out = refl
note_ip_lem (a ∷ b ∷ c ∷ []) out = refl
note_ip_lem (a ∷ b ∷ c ∷ d ∷ []) out = refl
note_ip_lem (a ∷ b ∷ c ∷ d ∷ e ∷ payload) out = refl

note_server_lem :
    (payload : List ℕ) (out : RequestOptions)
    → note_address (address_of payload) (λ ip. record out { server_id = some ip }) out
      ≡ record out { server_id = later (four_bytes payload) out.server_id }
note_server_lem [] out = refl
note_server_lem (a ∷ []) out = refl
note_server_lem (a ∷ b ∷ []) out = refl
note_server_lem (a ∷ b ∷ c ∷ []) out = refl
note_server_lem (a ∷ b ∷ c ∷ d ∷ []) out = refl
note_server_lem (a ∷ b ∷ c ∷ d ∷ e ∷ payload) out = refl

note_lem :
    (code : ℕ) (payload : List ℕ) (out : RequestOptions)
    → note code payload out ≡ heard code payload out
note_lem code payload out = elim (Bool-cases (code == opt_message_type)) [
  | inl e ↦
      let same : code ≡ opt_message_type = (==_iff code opt_message_type).0 e in
      ap (λ c. note c payload out) same
      ∙ note_type_lem payload out
      ∙ ap (λ c. heard c payload out) (sym same)
  | inr e ↦ elim (Bool-cases (code == opt_requested_ip)) [
    | inl f ↦
        let same : code ≡ opt_requested_ip = (==_iff code opt_requested_ip).0 f in
        ap (λ c. note c payload out) same
        ∙ note_ip_lem payload out
        ∙ ap (λ c. heard c payload out) (sym same)
    | inr f ↦ elim (Bool-cases (code == opt_server_id)) [
      | inl g ↦
          let same : code ≡ opt_server_id = (==_iff code opt_server_id).0 g in
          ap (λ c. note c payload out) same
          ∙ note_server_lem payload out
          ∙ ap (λ c. heard c payload out) (sym same)
      | inr g ↦
          none_lem (code == opt_message_type) (code == opt_requested_ip) (code == opt_server_id) e f
            g
    ]
  ]
]
  where
    none_lem :
        (a b c : Bool)
        → a ≡ false
        → b ≡ false
        → c ≡ false
        → (if a
            then note_type payload out
            else if b
            then note_address (address_of payload) (λ ip. record out { requested_ip = some ip }) out
            else if c
            then note_address (address_of payload) (λ ip. record out { server_id = some ip }) out
            else out)
          ≡ record {
            message_type = later (if a then one_byte payload else none) out.message_type;
            requested_ip = later (if b then four_bytes payload else none) out.requested_ip;
            server_id = later (if c then four_bytes payload else none) out.server_id;
          }
    none_lem true b c e f g = absurd (cc e)
    none_lem false true c e f g = absurd (cc f)
    none_lem false false true e f g = absurd (cc g)
    none_lem false false false e f g = refl

take-front : (xs ys : List ℕ) → take (length xs) (xs ++ ys) ≡ xs
take-front [] ys = refl
take-front (x ∷ xs) ys = ap (x ∷◌) (take-front xs ys)

drop-front : (xs ys : List ℕ) → drop (length xs) (xs ++ ys) ≡ ys
drop-front [] ys = refl
drop-front (x ∷ xs) ys = drop-front xs ys

is_not : (a b : ℕ) → a ≢ b → (a == b) ≡ false
is_not a b n = elim (Bool-cases (a == b)) [ inl e ↦ absurd (n ((==_iff a b).0 e)) | inr e ↦ e ]

-- A round takes an option off the front.
option_step_lem :
    (code : ℕ) (payload rest : List ℕ) (out : RequestOptions)
    → code ≢ opt_pad
    → code ≢ opt_end
    → option_step (code ∷ length payload ∷ (payload ++ rest)) out
      ≡ some (rest, heard code payload out)
option_step_lem code payload rest out n n' =
    let whole = payload ++ rest in
    let taken : Option (List ℕ × RequestOptions) =
      some (drop (length payload) whole, note code (take (length payload) whole) out) in
    let enough : ltb (length whole) (length payload) ≡ false =
      ground (arith, length-append payload rest) in
    ap₂
      (λ a b.
        if a
        then some (length payload ∷ whole, out)
        else if b
        then none
        else if ltb (length whole) (length payload)
        then none
        else taken)
      (is_not code opt_pad n) (is_not code opt_end n')
    ∙ ap (λ b. if b then none else taken) enough
    ∙ ap₂ (λ l p. some (l, note code p out)) (drop-front payload rest) (take-front payload rest)
    ∙ ap (λ o. some (rest, o)) (note_lem code payload out)

options_from_lem :
    (items : List Item) (ending : Ending) (fuel : ℕ) (out : RequestOptions)
    → All IsOption items
    → length (item_bytes items ending) ≤ fuel
    → options_from fuel (item_bytes items ending) out ≡ said items out
unfolding options_from
options_from_lem [] stops zero out a h = refl
options_from_lem [] stops (suc fuel) out a h = refl
options_from_lem [] (ends rest) zero out a h = absurd (omega (arith, h))
options_from_lem [] (ends rest) (suc fuel) out a h = refl
options_from_lem (pad ∷ items) ending zero out a h = absurd (omega (arith, h))
options_from_lem (pad ∷ items) ending (suc fuel) out (u, a) h =
    options_from_lem items ending fuel out a (omega (arith, h))
options_from_lem (option code payload ∷ items) ending zero out a h = absurd (omega (arith, h))
options_from_lem (option code payload ∷ items) ending (suc fuel) out ((n, n'), a) h =
    let rest = item_bytes items ending in
    let next : Option (List ℕ × RequestOptions) → RequestOptions =
      λ o. elim o [ none ↦ out | some r ↦ options_from fuel r.0 r.1 ] in
    ap next (option_step_lem code payload rest out n n')
    ∙ options_from_lem items ending fuel (heard code payload out) a
        (omega (arith, h, length-append payload rest))
    ∙ said-heard code payload items out

later-none : {A : Type 0} → (a : Option A) → later a none ≡ a
later-none none = refl
later-none (some a) = refl

drop-past : (xs ys : List ℕ) (n k : ℕ) → n ≡ length xs + k → drop n (xs ++ ys) ≡ drop k ys
drop-past [] ys n k e = let same : n ≡ k = omega (arith, e) in ap (λ i. drop i ys) same
drop-past (x ∷ xs) ys n k e =
    let more : n ≡ suc (length xs + k) = omega (arith, e) in
    ap (λ i. drop i (x ∷ (xs ++ ys))) more ∙ drop-past xs ys (length xs + k) k refl

get_or-past : (xs ys : List ℕ) (n k : ℕ) → n ≡ length xs + k → get_or (xs ++ ys) n 0 ≡ get_or ys k 0
get_or-past [] ys n k e = let same : n ≡ k = omega (arith, e) in ap (λ i. get_or ys i 0) same
get_or-past (x ∷ xs) ys n k e =
    let more : n ≡ suc (length xs + k) = omega (arith, e) in
    ap (λ i. get_or (x ∷ (xs ++ ys)) i 0) more ∙ get_or-past xs ys (length xs + k) k refl

-- The server understands the options as they are meant.
pub parse_options_lem :
    (c : ClientMessage)
    → ClientFits c
    → parse_options (drop options (client_bytes c)) ≡ record {
      message_type = asked_type c;
      requested_ip = asked_ip c;
      server_id = asked_server c;
    }
unfolding parse_options
parse_options_lem c f =
    let opts = item_bytes c.items c.ending in
    let blank : RequestOptions = record {
      message_type = none;
      requested_ip = none;
      server_id = none;
    } in
    let made : Option ℕ → Option Ip → Option Ip → RequestOptions =
      λ m r s. record { message_type = m; requested_ip = r; server_id = s } in
    let found : drop options (client_bytes c) ≡ opts =
      drop-past c.names (magic_cookie ++ opts) 206 4 (omega (arith, f.names_length)) in
    ap (λ l. options_from (length l) l blank) found
    ∙ options_from_lem c.items c.ending (length opts) blank f.each (omega arith)
    ∙ ap₂ (λ g x. g x) (ap₂ made (later-none (asked_type c)) (later-none (asked_ip c)))
        (later-none (asked_server c))

pub is_request_lem : (c : ClientMessage) → ClientFits c → is_request (client_bytes c) ≡ true
unfolding is_request
is_request_lem c f =
    let tail = magic_cookie ++ item_bytes c.items c.ending in
    let long : ltb (length (client_bytes c)) options ≡ false =
      ground (arith, f.names_length, length-append c.names tail) in
    let at : (n k : ℕ) → n ≡ 202 + k → get_or (c.names ++ tail) n 0 ≡ get_or tail k 0 =
      λ n k e. get_or-past c.names tail n k (omega (arith, e, f.names_length)) in
    let cookie : slice 236 4 (client_bytes c) ≡ magic_cookie =
      ap₂ (λ x y. x ++ y)
        (ap₂ (λ x y. x ∷ y ∷ []) (at 202 0 (omega arith)) (at 203 1 (omega arith)))
        (ap₂ (λ x y. x ∷ y ∷ []) (at 204 2 (omega arith)) (at 205 3 (omega arith))) in
    ap₂ (λ b l. not (b || false || false || false || not (same_bytes l magic_cookie))) long cookie
