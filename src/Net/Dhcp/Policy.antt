-- ===== src/Net/Dhcp/Policy.antt =====
-- What the server of src/net/dhcp.rs is to answer, and how a client reads an answer.
use tinyvmm.Prelude.{
  ℕ, zero, suc, ◌≡◌, ◌≢◌, Option, none, some, List, [], ◌∷◌, ◌++◌, drop, take, length, get_or, ◌==◌,
  if◌then◌else◌,
}
use tinyvmm.Net.Wire.{Mac, Ip, ip_bytes, ip_at, mac_at}
use tinyvmm.Net.Dhcp.{
  Lease, Destination, options, discover, offer, request, ack, nak, inform, bootreply, broadcast_ip,
  broadcast_mac, opt_pad, opt_subnet_mask, opt_router, opt_dns, opt_lease_time, opt_message_type,
  opt_server_id, opt_end, zero_ip, be32,
}
use tinyvmm.Net.Dhcp.Client.{ClientMessage, asked_type, asked_ip, asked_server}

-- What a client reads: the fields of the header, and the options with their codes.
pub record ServerMessage : Type 0 where
  pub op : ℕ
  pub xid : Ip
  pub flags0 : ℕ
  pub flags1 : ℕ
  pub ciaddr : Ip
  pub yiaddr : Ip
  pub giaddr : Ip
  pub mac : Mac
  pub opts : List (ℕ × List ℕ)

-- The options up to the end, in at most `fuel` rounds.
abbrev pub options_in : ℕ → List ℕ → List (ℕ × List ℕ)
options_in zero bytes = []
options_in (suc fuel) [] = []
options_in (suc fuel) (code ∷ []) = []
options_in (suc fuel) (code ∷ len ∷ rest) =
    let after_pad = options_in fuel (len ∷ rest) in
    let after = options_in fuel (drop len rest) in
    if code == opt_pad
    then after_pad
    else if code == opt_end
    then []
    else (code, take len rest) ∷ after

unfoldable pub read_reply : List ℕ → ServerMessage
read_reply out = record {
  op = get_or out 0 0;
  xid = ip_at out 4;
  flags0 = get_or out 10 0;
  flags1 = get_or out 11 0;
  ciaddr = ip_at out 12;
  yiaddr = ip_at out 16;
  giaddr = ip_at out 24;
  mac = mac_at out 28;
  opts = options_in (length out) (drop options out);
}

abbrev pub client_reads : List ℕ × Destination → Option (ServerMessage × Destination)
client_reads (out, to) = some (read_reply out, to)

-- A message of the server's: the client's own transaction, flags, relay and hardware address.
abbrev pub told : ClientMessage → Lease → ℕ → Ip → Ip → List (ℕ × List ℕ) → ServerMessage
told c lease kind yiaddr ciaddr opts = record {
  op = bootreply;
  xid = c.xid;
  flags0 = c.flags0;
  flags1 = c.flags1;
  ciaddr = ciaddr;
  yiaddr = yiaddr;
  giaddr = c.giaddr;
  mac = c.mac;
  opts = (opt_message_type, kind ∷ []) ∷ (opt_server_id, ip_bytes lease.server) ∷ opts;
}

-- At most three name servers.
abbrev pub name_servers : List Ip → List (ℕ × List ℕ)
name_servers [] = []
name_servers (a ∷ []) = (opt_dns, ip_bytes a) ∷ []
name_servers (a ∷ b ∷ []) = (opt_dns, ip_bytes a ++ ip_bytes b) ∷ []
name_servers (a ∷ b ∷ c ∷ more) = (opt_dns, ip_bytes a ++ (ip_bytes b ++ ip_bytes c)) ∷ []

abbrev pub network : Lease → List (ℕ × List ℕ)
network lease =
    (opt_subnet_mask, ip_bytes lease.netmask)
    ∷ (opt_router, ip_bytes lease.server)
    ∷ name_servers lease.dns

abbrev pub leased : Lease → List (ℕ × List ℕ)
leased lease = (opt_lease_time, be32 lease.lease_secs) ∷ network lease

-- Where an answer other than a refusal goes: to the address that the client has, or to all.
pub data Reached (c : ClientMessage) : Destination → Type 0 where
  at_address : c.ciaddr ≢ zero_ip → Reached c (record { ip = c.ciaddr; mac = c.mac })
  at_broadcast : c.ciaddr ≡ zero_ip → Reached c (record { ip = broadcast_ip; mac = broadcast_mac })

-- The address that a client asks for: that of its option, else the one that it has.
pub data Asks (c : ClientMessage) : Ip → Type 0 where
  by_option : {ip : Ip} → asked_ip c ≡ some ip → Asks c ip
  by_address : asked_ip c ≡ none → c.ciaddr ≢ zero_ip → Asks c c.ciaddr

-- The exchanges that the server is to have, by the type of the client's message.
pub data Served (c : ClientMessage) (lease : Lease)
    : Option (ServerMessage × Destination) → Type 0 where
  offered :
      {to : Destination}
      → asked_type c ≡ some discover
      → Reached c to
      → Served c lease (some (told c lease offer lease.client zero_ip (leased lease), to))
  passed_by :
      {server : Ip}
      → asked_type c ≡ some request
      → asked_server c ≡ some server
      → server ≢ lease.server
      → Served c lease none
  refused :
      {ip : Ip}
      → asked_type c ≡ some request
      → ((server : Ip) → asked_server c ≡ some server → server ≡ lease.server)
      → Asks c ip
      → ip ≢ lease.client
      → Served c lease (
          some (
            told c lease nak zero_ip zero_ip [],
            record { ip = broadcast_ip; mac = broadcast_mac },
          ))
  granted :
      {to : Destination}
      → asked_type c ≡ some request
      → ((server : Ip) → asked_server c ≡ some server → server ≡ lease.server)
      → ((ip : Ip) → Asks c ip → ip ≡ lease.client)
      → Reached c to
      → Served c lease (some (told c lease ack lease.client c.ciaddr (leased lease), to))
  informed :
      {to : Destination}
      → asked_type c ≡ some inform
      → Reached c to
      → Served c lease (some (told c lease ack zero_ip c.ciaddr (network lease), to))
  ignored :
      asked_type c ≢ some discover
      → asked_type c ≢ some request
      → asked_type c ≢ some inform
      → Served c lease none
