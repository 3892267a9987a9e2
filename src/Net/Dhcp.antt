-- ===== src/Net/Dhcp.antt =====
-- The DHCP server of src/net/dhcp.rs, which has one lease for all: the options of a request, the reply
-- to it, and the name servers that a lease offers. The reply's buffer is its result; a copy of a slice
-- stands for its bytes, which the length test has made sure of.
pub mod Client
pub mod Options
pub mod Policy
pub mod Readings
pub mod Exchange
pub mod Servers
mod Tests
use tinyvmm.Prelude.{
  ℕ, zero, suc, ◌+◌, ◌-◌, ◌/◌, ◌%◌, ◌^◌, Bool, true, false, not, ◌&&◌, ◌||◌, Option, none, some,
  List, [], ◌∷◌, ◌++◌, length, take, drop, replicate, get_or, ltb, ◌==◌, ◌>>=◌, if◌then◌else◌,
  bit_and, u8,
}
use tinyvmm.Net.Wire.{Mac, Ip, ip_bytes, ip_at, mac_at}

abbrev pub broadcast_ip : Ip
broadcast_ip = record { i0 = 255; i1 = 255; i2 = 255; i3 = 255 }

abbrev pub broadcast_mac : Mac
broadcast_mac = record { m0 = 255; m1 = 255; m2 = 255; m3 = 255; m4 = 255; m5 = 255 }

abbrev pub bootrequest : ℕ
bootrequest = 1

abbrev pub bootreply : ℕ
bootreply = 2

abbrev pub htype_ethernet : ℕ
htype_ethernet = 1

abbrev pub hlen_ethernet : ℕ
hlen_ethernet = 6

abbrev pub magic_cookie : List ℕ
magic_cookie = 99 ∷ 130 ∷ 83 ∷ 99 ∷ []

abbrev pub options : ℕ
options = 240

abbrev pub min_reply : ℕ
min_reply = 300

abbrev pub max_dns : ℕ
max_dns = 3

abbrev pub discover : ℕ
discover = 1

abbrev pub offer : ℕ
offer = 2

abbrev pub request : ℕ
request = 3

abbrev pub ack : ℕ
ack = 5

abbrev pub nak : ℕ
nak = 6

abbrev pub inform : ℕ
inform = 8

abbrev pub opt_pad : ℕ
opt_pad = 0

abbrev pub opt_subnet_mask : ℕ
opt_subnet_mask = 1

abbrev pub opt_router : ℕ
opt_router = 3

abbrev pub opt_dns : ℕ
opt_dns = 6

abbrev pub opt_requested_ip : ℕ
opt_requested_ip = 50

abbrev pub opt_lease_time : ℕ
opt_lease_time = 51

abbrev pub opt_message_type : ℕ
opt_message_type = 53

abbrev pub opt_server_id : ℕ
opt_server_id = 54

abbrev pub opt_end : ℕ
opt_end = 255

pub record Lease : Type 0 where
  pub server : Ip
  pub client : Ip
  pub netmask : Ip
  pub dns : List Ip
  pub lease_secs : ℕ  -- u32

pub record Destination : Type 0 where
  pub ip : Ip
  pub mac : Mac

pub record RequestOptions : Type 0 where
  pub message_type : Option ℕ
  pub requested_ip : Option Ip
  pub server_id : Option Ip

abbrev pub same_ip : Ip → Ip → Bool
same_ip a b = a.i0 == b.i0 && a.i1 == b.i1 && a.i2 == b.i2 && a.i3 == b.i3

abbrev pub zero_ip : Ip
zero_ip = record { i0 = 0; i1 = 0; i2 = 0; i3 = 0 }

abbrev pub same_bytes : List ℕ → List ℕ → Bool
same_bytes [] [] = true
same_bytes [] (y ∷ ys) = false
same_bytes (x ∷ xs) [] = false
same_bytes (x ∷ xs) (y ∷ ys) = x == y && same_bytes xs ys

-- The match on a code and the bytes that came with it.
abbrev pub note_type : List ℕ → RequestOptions → RequestOptions
note_type (t ∷ []) out = record out { message_type = some t }
note_type other out = out

abbrev pub address_of : List ℕ → Option Ip
address_of (a ∷ b ∷ c ∷ d ∷ []) = some (record { i0 = a; i1 = b; i2 = c; i3 = d })
address_of other = none

abbrev pub note_address : Option Ip → (Ip → RequestOptions) → RequestOptions → RequestOptions
note_address none f out = out
note_address (some ip) f out = f ip

abbrev pub note : ℕ → List ℕ → RequestOptions → RequestOptions
note code payload out =
    if code == opt_message_type
    then note_type payload out
    else if code == opt_requested_ip
    then note_address (address_of payload) (λ ip. record out { requested_ip = some ip }) out
    else if code == opt_server_id
    then note_address (address_of payload) (λ ip. record out { server_id = some ip }) out
    else out

-- A round of the loop: the rest of the options and what is known, or none where it stops.
abbrev pub option_step : List ℕ → RequestOptions → Option (List ℕ × RequestOptions)
option_step [] out = none
option_step (code ∷ rest) out =
    if code == opt_pad then some (rest, out) else if code == opt_end then none else elim rest [
      | [] ↦ none
      | len ∷ tail ↦
          if ltb (length tail) len
          then none
          else some (drop len tail, note code (take len tail) out)
    ]

-- A round takes a byte at least, so that `length opts` rounds are enough.
unfoldable pub options_from : ℕ → List ℕ → RequestOptions → RequestOptions
options_from zero opts out = out
options_from (suc fuel) opts out = elim (option_step opts out) [
  | none ↦ out
  | some (rest, out') ↦ options_from fuel rest out'
]

unfoldable pub parse_options : List ℕ → RequestOptions
unfolding options_from
parse_options opts =
    options_from (length opts) opts
      record { message_type = none; requested_ip = none; server_id = none }

abbrev pub push_option : ℕ → List ℕ → List ℕ
push_option code payload = code ∷ u8 (length payload) ∷ payload

-- `req[at..at + n]`
abbrev pub slice : ℕ → ℕ → List ℕ → List ℕ
slice at zero req = []
slice at (suc n) req = get_or req at 0 ∷ slice (at + 1) n req

-- The type of the answer and the address in it.
abbrev pub is_other : Option Ip → Ip → Bool
is_other none ip = false
is_other (some a) ip = not (same_ip a ip)

abbrev pub wanted : Option Ip → Ip → Option Ip
wanted (some ip) ciaddr = some ip
wanted none ciaddr = if same_ip ciaddr zero_ip then none else some ciaddr

unfoldable pub answer : ℕ → RequestOptions → Ip → Lease → Option (ℕ × Ip)
answer message_type opts ciaddr lease =
    if message_type == discover
    then some (offer, lease.client)
    else if message_type == request
    then (if is_other opts.server_id lease.server
        then none
        else if is_other (wanted opts.requested_ip ciaddr) lease.client
        then some (nak, zero_ip)
        else some (ack, lease.client))
    else if message_type == inform
    then some (ack, zero_ip)
    else none

abbrev pub flatten : List Ip → List ℕ
flatten [] = []
flatten (a ∷ ips) = ip_bytes a ++ flatten ips

-- `to_be_bytes` of a u32.
abbrev pub be32 : ℕ → List ℕ
be32 n = u8 (n / 2 ^ 24) ∷ u8 (n / 2 ^ 16) ∷ u8 (n / 2 ^ 8) ∷ u8 n ∷ []

abbrev pub dns_option : List Ip → List ℕ
dns_option [] = []
dns_option (ip ∷ ips) = push_option opt_dns (flatten (take max_dns (ip ∷ ips)))

unfoldable pub reply_options : ℕ → ℕ → Lease → List ℕ
reply_options message_type kind lease =
    push_option opt_message_type (kind ∷ [])
    ++ (push_option opt_server_id (ip_bytes lease.server)
        ++ ((if kind == nak
              then []
              else ((if message_type == inform
                    then []
                    else push_option opt_lease_time (be32 lease.lease_secs))
                  ++ (push_option opt_subnet_mask (ip_bytes lease.netmask)
                      ++ (push_option opt_router (ip_bytes lease.server) ++ dns_option lease.dns))))
            ++ (opt_end ∷ [])))

-- The fixed fields of the reply.
unfoldable pub reply_header : List ℕ → ℕ → Ip → List ℕ
reply_header req kind yiaddr =
    (bootreply ∷ htype_ethernet ∷ hlen_ethernet ∷ 0 ∷ [])
    ++ (slice 4 4 req
        ++ ((0 ∷ 0 ∷ [])
            ++ (slice 10 2 req
                ++ (ip_bytes (if kind == ack then ip_at req 12 else zero_ip)
                    ++ (ip_bytes yiaddr
                        ++ (ip_bytes zero_ip
                            ++ (slice 24 4 req
                                ++ (slice 28 16 req ++ (replicate 192 0 ++ magic_cookie)))))))))

abbrev pub padded : List ℕ → List ℕ
padded out =
    if ltb (length out) min_reply then out ++ replicate (min_reply - length out) opt_pad else out

unfoldable pub destination : ℕ → Ip → Mac → Destination
destination kind ciaddr chaddr =
    if not (same_ip ciaddr zero_ip) && not (kind == nak)
    then record { ip = ciaddr; mac = chaddr }
    else record { ip = broadcast_ip; mac = broadcast_mac }

unfoldable pub is_request : List ℕ → Bool
is_request req = not (
    ltb (length req) options
    || not (get_or req 0 0 == bootrequest)
    || not (get_or req 1 0 == htype_ethernet)
    || not (get_or req 2 0 == hlen_ethernet)
    || not (same_bytes (slice 236 4 req) magic_cookie))

unfoldable pub reply : List ℕ → Lease → Option (List ℕ × Destination)
unfolding is_request parse_options answer reply_options reply_header destination
reply req lease =
    let opts = parse_options (drop options req) in
    let ciaddr = ip_at req 12 in
    if not (is_request req)
    then none
    else (opts.message_type >>= λ message_type. answer message_type opts ciaddr lease >>= λ a.
        some (
          padded (reply_header req a.0 a.1 ++ reply_options message_type a.0 lease),
          destination a.0 ciaddr (mac_at req 28),
        ))

-- `out.contains`.
abbrev pub contains : List Ip → Ip → Bool
contains [] ip = false
contains (a ∷ ips) ip = same_ip a ip || contains ips ip

abbrev pub on_subnet : Ip → Ip → Ip → Bool
on_subnet gateway netmask ip =
    bit_and ip.i0 netmask.i0 == bit_and gateway.i0 netmask.i0
    && bit_and ip.i1 netmask.i1 == bit_and gateway.i1 netmask.i1
    && bit_and ip.i2 netmask.i2 == bit_and gateway.i2 netmask.i2
    && bit_and ip.i3 netmask.i3 == bit_and gateway.i3 netmask.i3

abbrev pub local_resolver : Ip
local_resolver = record { i0 = 127; i1 = 0; i2 = 0; i3 = 1 }

unfoldable pub unusable : Ip → Ip → Ip → Bool
unusable gateway netmask ip =
    same_ip ip zero_ip
    || same_ip ip broadcast_ip
    || ip.i0 == 127
    || (ip.i0 == 169 && ip.i1 == 254)
    || (on_subnet gateway netmask ip && not (same_ip ip gateway))

-- The servers after those in `out`.
unfoldable pub dns_from : Ip → Ip → List Ip → List Ip → List Ip
unfolding unusable
dns_from gateway netmask [] out = out
dns_from gateway netmask (host ∷ hosts) out =
    let ip = if same_ip host local_resolver then gateway else host in
    dns_from gateway netmask hosts (
      if not (unusable gateway netmask ip) && not (contains out ip) && ltb (length out) max_dns
      then out ++ (ip ∷ [])
      else out)

unfoldable pub usable_dns : List Ip → Ip → Ip → List Ip
unfolding dns_from
usable_dns hosts gateway netmask = dns_from gateway netmask hosts []
