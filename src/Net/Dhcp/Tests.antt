-- ===== src/Net/Dhcp/Tests.antt =====
-- Messages of the tests of src/net/dhcp.rs.
use tinyvmm.Prelude.{ℕ, ◌≡◌, [], ◌∷◌, replicate, refl, ◌>>=◌}
use tinyvmm.Net.Wire.{Ip}
use tinyvmm.Net.Dhcp.{Lease, reply, usable_dns, unusable, request, local_resolver}
use tinyvmm.Net.Dhcp.Client.{ClientMessage, ClientFits, pad, option, ends, client_bytes}
use tinyvmm.Net.Dhcp.Policy.{client_reads, Served}
use tinyvmm.Net.Dhcp.Exchange.{exchange_lem}
use tinyvmm.Net.Dhcp.Servers.{usable_dns_lem}

abbrev ip : ℕ → ℕ → ℕ → ℕ → Ip
ip a b c d = record { i0 = a; i1 = b; i2 = c; i3 = d }

abbrev lease : Lease
lease = record {
  server = ip 10 0 0 1;
  client = ip 10 0 0 2;
  netmask = ip 255 255 255 0;
  dns = ip 8 8 8 8 ∷ ip 1 1 1 1 ∷ [];
  lease_secs = 86_400;
}

-- A client that asks for its old address, which is another: a pad, the type, an unknown option with a byte of 0,
-- and the address.
abbrev message : ClientMessage
message = record {
  hops = 0;
  xid = ip 0xde 0xad 0xbe 0xef;
  secs0 = 0;
  secs1 = 3;
  flags0 = 0x80;
  flags1 = 0;
  ciaddr = ip 0 0 0 0;
  yiaddr = ip 0 0 0 0;
  siaddr = ip 0 0 0 0;
  giaddr = ip 0 0 0 0;
  mac = record { m0 = 0x52; m1 = 0x54; m2 = 0; m3 = 0x12; m4 = 0x34; m5 = 0x56 };
  names = replicate 202 0;
  items =
      pad
      ∷ option 53 (request ∷ [])
      ∷ option 61 (1 ∷ 0 ∷ 2 ∷ [])
      ∷ option 50 (192 ∷ 168 ∷ 1 ∷ 5 ∷ [])
      ∷ [];
  ending = ends (0 ∷ 0 ∷ []);
}

message-Fits : ClientFits message
message-Fits = record {
  names_length = refl;
  each = (
    tt,
    (
      (λ e. absurd (cc e), λ e. absurd (cc e)),
      ((λ e. absurd (cc e), λ e. absurd (cc e)), ((λ e. absurd (cc e), λ e. absurd (cc e)), tt)),
    ),
  );
}

exchange_lem_example : Served message lease (reply (client_bytes message) lease >>= client_reads)
exchange_lem_example = exchange_lem message lease message-Fits

usable_dns_lem_example :
    usable_dns
      (local_resolver ∷ ip 169 254 1 1 ∷ ip 8 8 8 8 ∷ ip 8 8 8 8 ∷ [])
      (ip 10 0 0 1)
      (ip 255 255 255 0)
    ≡ ip 10 0 0 1 ∷ ip 8 8 8 8 ∷ []
unfolding unusable
usable_dns_lem_example =
    usable_dns_lem (ip 10 0 0 1) (ip 255 255 255 0)
      (local_resolver ∷ ip 169 254 1 1 ∷ ip 8 8 8 8 ∷ ip 8 8 8 8 ∷ [])
