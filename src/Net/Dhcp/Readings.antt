-- ===== src/Net/Dhcp/Readings.antt =====
-- The answers of src/net/dhcp.rs as a client reads them, and what its requests come to.
use tinyvmm.Prelude.{
  ℕ, ◌≡◌, ◌≢◌, Bool, true, false, not, ◌&&◌, Option, none, some, List, [], ◌∷◌, ◌++◌, ◌==◌,
  if◌then◌else◌, Bool-cases, inl, inr, refl, ap, ap₂, sym, ◌∙◌, arith,
}
use mathlib.Core.Path.{subst}
use tinyvmm.Net.Wire.{Ip}
use tinyvmm.Net.Dhcp.{
  Lease, Destination, discover, offer, request, ack, nak, inform, broadcast_ip, broadcast_mac,
  zero_ip, same_ip, is_other, wanted, reply_options, reply_header, padded, destination,
}
use tinyvmm.Net.Dhcp.Client.{ClientMessage, client_bytes, asked_ip}
use tinyvmm.Net.Dhcp.Policy.{
  read_reply, told, network, leased, Reached, at_address, at_broadcast, Asks, by_option, by_address,
}

same_ip_lem : (a b : Ip) → same_ip a b ≡ true → a ≡ b
same_ip_lem a b e =
    let made : ℕ → ℕ → ℕ → ℕ → Ip = λ w x y z. record { i0 = w; i1 = x; i2 = y; i3 = z } in
    let e0 : a.i0 ≡ b.i0 = ground (arith, e) in
    let e1 : a.i1 ≡ b.i1 = ground (arith, e) in
    let e2 : a.i2 ≡ b.i2 = ground (arith, e) in
    let e3 : a.i3 ≡ b.i3 = ground (arith, e) in
    ap₂ (λ f g. f g) (ap₂ (λ f x. f x) (ap₂ made e0 e1) e2) e3

same_ip_refl : (a : Ip) → same_ip a a ≡ true
same_ip_refl a = ground arith

differ : (a b : Ip) → same_ip a b ≡ false → a ≢ b
differ a b e same =
    let clash : same_ip a a ≡ false = ap (same_ip a) same ∙ e in absurd (cc (clash, same_ip_refl a))

module _ (c : ClientMessage) (lease : Lease) where
  -- The bytes of an answer.
  unfoldable pub carried : ℕ → ℕ → Ip → List ℕ
  carried t kind yiaddr =
      padded (reply_header (client_bytes c) kind yiaddr ++ reply_options t kind lease)

  pub offer_read :
      read_reply (carried discover offer lease.client)
      ≡ told c lease offer lease.client zero_ip (leased lease)
  unfolding carried read_reply reply_header reply_options
  offer_read = by_servers lease.dns
    where
      by_servers :
          (dns : List Ip)
          → read_reply (
              padded (
                reply_header (client_bytes c) offer lease.client
                ++ reply_options discover offer (record lease { dns = dns })))
            ≡ told c lease offer lease.client zero_ip (leased (record lease { dns = dns }))
      by_servers [] = refl
      by_servers (a ∷ []) = refl
      by_servers (a ∷ b ∷ []) = refl
      by_servers (a ∷ b ∷ d ∷ more) = refl

  pub ack_read :
      read_reply (carried request ack lease.client)
      ≡ told c lease ack lease.client c.ciaddr (leased lease)
  unfolding carried read_reply reply_header reply_options
  ack_read = by_servers lease.dns
    where
      by_servers :
          (dns : List Ip)
          → read_reply (
              padded (
                reply_header (client_bytes c) ack lease.client
                ++ reply_options request ack (record lease { dns = dns })))
            ≡ told c lease ack lease.client c.ciaddr (leased (record lease { dns = dns }))
      by_servers [] = refl
      by_servers (a ∷ []) = refl
      by_servers (a ∷ b ∷ []) = refl
      by_servers (a ∷ b ∷ d ∷ more) = refl

  pub inform_read :
      read_reply (carried inform ack zero_ip) ≡ told c lease ack zero_ip c.ciaddr (network lease)
  unfolding carried read_reply reply_header reply_options
  inform_read = by_servers lease.dns
    where
      by_servers :
          (dns : List Ip)
          → read_reply (
              padded (
                reply_header (client_bytes c) ack zero_ip
                ++ reply_options inform ack (record lease { dns = dns })))
            ≡ told c lease ack zero_ip c.ciaddr (network (record lease { dns = dns }))
      by_servers [] = refl
      by_servers (a ∷ []) = refl
      by_servers (a ∷ b ∷ []) = refl
      by_servers (a ∷ b ∷ d ∷ more) = refl

  pub nak_read : read_reply (carried request nak zero_ip) ≡ told c lease nak zero_ip zero_ip []
  unfolding carried read_reply reply_header reply_options
  nak_read = refl

  pub reached : (kind : ℕ) → (kind == nak) ≡ false → Reached c (destination kind c.ciaddr c.mac)
  unfolding destination
  reached kind e = elim (Bool-cases (same_ip c.ciaddr zero_ip)) [
    | inl f ↦
        subst (Reached c) (sym (ap₂ to_of f e)) (at_broadcast (same_ip_lem c.ciaddr zero_ip f))
    | inr f ↦ subst (Reached c) (sym (ap₂ to_of f e)) (at_address (differ c.ciaddr zero_ip f))
  ]
    where
      to_of : Bool → Bool → Destination
      to_of none_yet refusal =
          if not none_yet && not refusal
          then record { ip = c.ciaddr; mac = c.mac }
          else record { ip = broadcast_ip; mac = broadcast_mac }

  pub asked_other :
      (o : Option Ip) (ip : Ip) → is_other o ip ≡ true → (a : Ip) × (o ≡ some a) × (a ≢ ip)
  asked_other none ip e = absurd (cc e)
  asked_other (some a) ip e =
      let f : same_ip a ip ≡ false = ground (arith, e) in (a, refl, differ a ip f)

  pub asked_same : (o : Option Ip) (ip a : Ip) → is_other o ip ≡ false → o ≡ some a → a ≡ ip
  asked_same none ip a e f = absurd (cc f)
  asked_same (some b) ip a e f =
      let f' : b ≡ a = ap (λ o. elim o [ none ↦ b | some x ↦ x ]) f in
      let same : same_ip b ip ≡ true = ground (arith, e) in sym f' ∙ same_ip_lem b ip same

  pub wanted-Asks :
      (o : Option Ip) (ip : Ip) → asked_ip c ≡ o → wanted o c.ciaddr ≡ some ip → Asks c ip
  wanted-Asks (some a) ip e f = by_option (e ∙ f)
  wanted-Asks none ip e f = elim (Bool-cases (same_ip c.ciaddr zero_ip)) [
    | inl g ↦
        let clash : none ≡ some ip = sym (ap (λ b. if b then none else some c.ciaddr) g) ∙ f in
        absurd (cc clash)
    | inr g ↦
        let same : some c.ciaddr ≡ some ip =
          sym (ap (λ b. if b then none else some c.ciaddr) g) ∙ f in
        let own : c.ciaddr ≡ ip = ap (λ o. elim o [ none ↦ ip | some x ↦ x ]) same in
        subst (Asks c) own (by_address e (differ c.ciaddr zero_ip g))
  ]

  pub Asks-wanted : (ip : Ip) → Asks c ip → wanted (asked_ip c) c.ciaddr ≡ some ip
  Asks-wanted ip (by_option e) = ap (λ o. wanted o c.ciaddr) e
  Asks-wanted ip (by_address e n) = ap (λ o. wanted o c.ciaddr) e ∙ own
    where
      own : (if same_ip c.ciaddr zero_ip then none else some c.ciaddr) ≡ some c.ciaddr
      own = elim (Bool-cases (same_ip c.ciaddr zero_ip)) [
        | inl g ↦ absurd (n (same_ip_lem c.ciaddr zero_ip g))
        | inr g ↦ ap (λ b. if b then none else some c.ciaddr) g
      ]
