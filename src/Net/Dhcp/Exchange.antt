-- ===== src/Net/Dhcp/Exchange.antt =====
-- A client's exchange with the server of src/net/dhcp.rs, over the bytes of both messages: what the client is
-- to be told, and what it reads.
use tinyvmm.Prelude.{
  ℕ, ◌≡◌, ◌≢◌, Bool, true, false, not, ◌&&◌, Option, none, some, List, [], ◌++◌, drop, ◌==◌, ==_iff,
  ◌>>=◌, if◌then◌else◌, Bool-cases, inl, inr, refl, ap, sym, ◌∙◌, arith,
}
use mathlib.Core.Path.{subst}
use tinyvmm.Net.Wire.{Ip}
use tinyvmm.Net.Dhcp.{
  Lease, Destination, RequestOptions, options, discover, offer, request, ack, nak, inform,
  broadcast_ip, broadcast_mac, zero_ip, same_ip, parse_options, is_other, wanted, answer,
  reply_options, reply_header, padded, destination, reply,
}
use tinyvmm.Net.Dhcp.Client.{
  ClientMessage, ClientFits, client_bytes, asked_type, asked_ip, asked_server,
}
use tinyvmm.Net.Dhcp.Options.{parse_options_lem, is_request_lem}
use tinyvmm.Net.Dhcp.Policy.{
  ServerMessage, client_reads, told, Served, offered, passed_by, refused, granted, informed,
  ignored,
}
use tinyvmm.Net.Dhcp.Readings.{
  carried, offer_read, ack_read, inform_read, nak_read, reached, asked_other, asked_same,
  wanted-Asks, Asks-wanted,
}

module _ (c : ClientMessage) (lease : Lease) where
  meant : RequestOptions
  meant = record {
    message_type = asked_type c;
    requested_ip = asked_ip c;
    server_id = asked_server c;
  }

  -- What becomes of an answer to a message of type `t`.
  exchanged : ℕ → Option (ℕ × Ip) → Option (ServerMessage × Destination)
  exchanged t a =
      (a >>= λ a. some (carried c lease t a.0 a.1, destination a.0 c.ciaddr c.mac)) >>= client_reads

  discover_served :
      asked_type c ≡ some discover
      → Served c lease (exchanged discover (answer discover meant c.ciaddr lease))
  unfolding answer exchanged
  discover_served e =
      subst (λ m. Served c lease (some (m, destination offer c.ciaddr c.mac)))
        (sym (offer_read c lease)) (offered e (reached c lease offer refl))

  inform_served :
      asked_type c ≡ some inform
      → Served c lease (exchanged inform (answer inform meant c.ciaddr lease))
  unfolding answer exchanged
  inform_served e =
      subst (λ m. Served c lease (some (m, destination ack c.ciaddr c.mac)))
        (sym (inform_read c lease)) (informed e (reached c lease ack refl))

  -- A request to this server or to any.
  request_here :
      asked_type c ≡ some request
      → ((server : Ip) → asked_server c ≡ some server → server ≡ lease.server)
      → Served c lease (
          exchanged request (
            if is_other (wanted (asked_ip c) c.ciaddr) lease.client
            then some (nak, zero_ip)
            else some (ack, lease.client)))
  unfolding exchanged destination
  request_here e here = elim (Bool-cases (is_other (wanted (asked_ip c) c.ciaddr) lease.client)) [
    | inl f ↦
        let (ip, g, n) = asked_other c lease (wanted (asked_ip c) c.ciaddr) lease.client f in
        subst (Served c lease) (sym (ap outcome f)) (
          subst (λ m. Served c lease (some (m, destination nak c.ciaddr c.mac)))
            (sym (nak_read c lease))
            (subst (λ to. Served c lease (some (told c lease nak zero_ip zero_ip [], to)))
              (sym refusal) (refused e here (wanted-Asks c lease (asked_ip c) ip refl g) n)))
    | inr f ↦ subst (Served c lease) (sym (ap outcome f)) (
        subst (λ m. Served c lease (some (m, destination ack c.ciaddr c.mac)))
          (sym (ack_read c lease))
          (granted e here
            (λ ip a.
              asked_same c lease (wanted (asked_ip c) c.ciaddr) lease.client ip f
                (Asks-wanted c lease ip a))
            (reached c lease ack refl)))
  ]
    where
      outcome : Bool → Option (ServerMessage × Destination)
      outcome b = exchanged request (if b then some (nak, zero_ip) else some (ack, lease.client))

      refusal : destination nak c.ciaddr c.mac ≡ record { ip = broadcast_ip; mac = broadcast_mac }
      refusal = nak_to_all (same_ip c.ciaddr zero_ip)
        where
          nak_to_all :
              (b : Bool)
              → (if◌then◌else◌ {A = Destination}
                  (not b && not true)
                  (record { ip = c.ciaddr; mac = c.mac })
                  (record { ip = broadcast_ip; mac = broadcast_mac }))
                ≡ record { ip = broadcast_ip; mac = broadcast_mac }
          nak_to_all true = refl
          nak_to_all false = refl

  request_served :
      asked_type c ≡ some request
      → Served c lease (exchanged request (answer request meant c.ciaddr lease))
  unfolding answer exchanged meant
  request_served e = elim (Bool-cases (is_other (asked_server c) lease.server)) [
    | inl f ↦
        let (server, g, n) = asked_other c lease (asked_server c) lease.server f in
        subst (Served c lease) (sym (ap outcome f)) (passed_by e g n)
    | inr f ↦
        subst (Served c lease) (sym (ap outcome f))
          (request_here e (λ server g. asked_same c lease (asked_server c) lease.server server f g))
  ]
    where
      outcome : Bool → Option (ServerMessage × Destination)
      outcome b = exchanged request (
          if b
          then none
          else if is_other (wanted (asked_ip c) c.ciaddr) lease.client
          then some (nak, zero_ip)
          else some (ack, lease.client))

  -- A type that the server does not answer.
  unanswered :
      (t : ℕ)
      → (t == discover) ≡ false
      → (t == request) ≡ false
      → (t == inform) ≡ false
      → answer t meant c.ciaddr lease ≡ none
  unfolding answer
  unanswered t d r i = ground (arith, d, r, i)

  by_type :
      (t : Option ℕ)
      → asked_type c ≡ t
      → Served c lease (
          (t >>= λ t. answer t meant c.ciaddr lease >>= λ a.
          some (carried c lease t a.0 a.1, destination a.0 c.ciaddr c.mac))
          >>= client_reads)
  unfolding exchanged
  by_type none e =
      ignored (λ f. missing (sym e ∙ f)) (λ f. missing (sym e ∙ f)) (λ f. missing (sym e ∙ f))
    where
      missing : {t : ℕ} → none ≡ some t → ⊥
      missing f = absurd (cc f)
  by_type (some t) e = elim (Bool-cases (t == discover)) [
    | inl d ↦ of_type discover d (discover_served (e ∙ ap some (type_is discover d)))
    | inr d ↦ elim (Bool-cases (t == request)) [
      | inl r ↦ of_type request r (request_served (e ∙ ap some (type_is request r)))
      | inr r ↦ elim (Bool-cases (t == inform)) [
        | inl i ↦ of_type inform i (inform_served (e ∙ ap some (type_is inform i)))
        | inr i ↦
            subst (λ a. Served c lease (exchanged t a)) (sym (unanswered t d r i))
              (ignored (other discover d) (other request r) (other inform i))
      ]
    ]
  ]
    where
      type_is : (k : ℕ) → (t == k) ≡ true → t ≡ k
      type_is k d = (==_iff t k).0 d

      of_type :
          (k : ℕ)
          → (t == k) ≡ true
          → Served c lease (exchanged k (answer k meant c.ciaddr lease))
          → Served c lease (exchanged t (answer t meant c.ciaddr lease))
      of_type k d s =
          subst (λ k. Served c lease (exchanged k (answer k meant c.ciaddr lease)))
            (sym (type_is k d)) s

      other : (k : ℕ) → (t == k) ≡ false → asked_type c ≢ some k
      other k d f =
          let same : t ≡ k = ap (λ o. elim o [ none ↦ t | some x ↦ x ]) (sym e ∙ f) in
          absurd (cc ((==_iff t k).1 same, d))

-- Whatever a client sends, with any whole options, pads among them, in any order and up to any end (of the
-- options with a code and of its length, the last counts): what the client then reads is what it is to be
-- told. A DISCOVER is offered the lease; a REQUEST is passed over if it names another server, refused, to
-- all, if it asks for another address, and else granted the lease; an INFORM is told of the network;
-- nothing else is answered. The client reads its own transaction, flags, relay and hardware address, and
-- exactly the options of the answer; the answer goes to the address that the client has, or to all. The
-- header is that of a DHCP message over Ethernet.
pub exchange_lem :
    (c : ClientMessage) (lease : Lease)
    → ClientFits c
    → Served c lease (reply (client_bytes c) lease >>= client_reads)
unfolding reply meant carried
exchange_lem c lease f =
    let answered : RequestOptions → Option (List ℕ × Destination) = λ o. o.message_type >>= λ t.
    answer t o c.ciaddr lease >>= λ a. some (
      padded (reply_header (client_bytes c) a.0 a.1 ++ reply_options t a.0 lease),
      destination a.0 c.ciaddr c.mac,
    ) in
    subst (Served c lease)
      (sym (
        ap
          (λ b.
            (if not b then none else answered (parse_options (drop options (client_bytes c))))
            >>= client_reads)
          (is_request_lem c f)
        ∙ ap (λ o. answered o >>= client_reads) (parse_options_lem c f)))
      (by_type c lease (asked_type c) refl)
