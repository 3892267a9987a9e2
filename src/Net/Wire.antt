-- ===== src/Net/Wire.antt =====
-- The packet formats of src/net/wire.rs: Ethernet, ARP and IPv4 here, and the protocols over IPv4 in a
-- child. Arrays of 4 and of 6 bytes are records; a slice within bounds is `take` and `drop`. The
-- forms that write into a cleared buffer give the buffer.
pub mod Layer4
pub mod Fragments
pub mod Headers
pub mod Packets
pub mod Reassembly
mod Tests
use tinyvmm.Prelude.{
  ℕ, zero, suc, ◌+◌, ◌-◌, ◌*◌, ◌/◌, ◌%◌, ◌^◌, Bool, not, ◌||◌, Option, none, some, List, [], ◌∷◌,
  ◌++◌, length, take, drop, get_or, min, max, ltb, ◌==◌, if◌then◌else◌, bit_and, bit_or, u8, u16,
}
use tinyvmm.Net.Csum.{checksum16}

pub record Mac : Type 0 where
  pub m0 : ℕ
  pub m1 : ℕ
  pub m2 : ℕ
  pub m3 : ℕ
  pub m4 : ℕ
  pub m5 : ℕ

pub record Ip : Type 0 where
  pub i0 : ℕ
  pub i1 : ℕ
  pub i2 : ℕ
  pub i3 : ℕ

abbrev pub mac_bytes : Mac → List ℕ
mac_bytes m = m.m0 ∷ m.m1 ∷ m.m2 ∷ m.m3 ∷ m.m4 ∷ m.m5 ∷ []

abbrev pub ip_bytes : Ip → List ℕ
ip_bytes i = i.i0 ∷ i.i1 ∷ i.i2 ∷ i.i3 ∷ []

abbrev pub byte : List ℕ → ℕ → ℕ
byte b i = get_or b i 0

abbrev pub mac_at : List ℕ → ℕ → Mac
mac_at b i = record {
  m0 = byte b i;
  m1 = byte b (i + 1);
  m2 = byte b (i + 2);
  m3 = byte b (i + 3);
  m4 = byte b (i + 4);
  m5 = byte b (i + 5);
}

abbrev pub ip_at : List ℕ → ℕ → Ip
ip_at b i = record { i0 = byte b i; i1 = byte b (i + 1); i2 = byte b (i + 2); i3 = byte b (i + 3) }

abbrev pub eth_hdr : ℕ
eth_hdr = 14

abbrev pub ethertype_ipv4 : ℕ
ethertype_ipv4 = 0x0800

-- `be16` of the two bytes at `i`, and the bytes that `put_be16` writes.
unfoldable pub be16 : List ℕ → ℕ → ℕ
be16 b i = bit_or (byte b i * 2 ^ 8) (byte b (i + 1))

abbrev pub put_be16 : ℕ → List ℕ
put_be16 v = u8 (v / 2 ^ 8) ∷ u8 (bit_and v 0xff) ∷ []

pub record EthView : Type 0 where
  pub dst : Mac
  pub src : Mac
  pub ethertype : ℕ
  pub payload : List ℕ

unfoldable pub parse_eth : List ℕ → Option EthView
unfolding be16
parse_eth f =
    if ltb (length f) eth_hdr
    then none
    else some
        (record { dst = mac_at f 0; src = mac_at f 6; ethertype = be16 f 12; payload = drop 14 f })

unfoldable pub build_eth : Mac → Mac → ℕ → List ℕ → List ℕ
build_eth dst src ethertype payload =
    mac_bytes dst ++ (mac_bytes src ++ (put_be16 ethertype ++ payload))

pub record ArpView : Type 0 where
  pub op : ℕ
  pub sha : Mac
  pub spa : Ip
  pub tpa : Ip

unfoldable pub parse_arp : List ℕ → Option ArpView
unfolding be16
parse_arp p =
    if ltb (length p) 28
    then none
    else if not (be16 p 0 == 1)
        || not (be16 p 2 == ethertype_ipv4)
        || not (byte p 4 == 6)
        || not (byte p 5 == 4)
    then none
    else some (record { op = be16 p 6; sha = mac_at p 8; spa = ip_at p 14; tpa = ip_at p 24 })

unfoldable pub build_arp_reply : Mac → Ip → Mac → Ip → List ℕ
build_arp_reply sender_mac sender_ip target_mac target_ip =
    put_be16 1
    ++ (put_be16 ethertype_ipv4
        ++ (6
            ∷ 4
            ∷ (put_be16 2
                ++ (mac_bytes sender_mac
                    ++ (ip_bytes sender_ip ++ (mac_bytes target_mac ++ ip_bytes target_ip))))))

pub record Ipv4View : Type 0 where
  pub proto : ℕ
  pub src : Ip
  pub dst : Ip
  pub payload : List ℕ
  pub datagram : List ℕ

abbrev pub header_len : List ℕ → ℕ
header_len p = bit_and (byte p 0) 0xf * 4

unfoldable pub parse_ipv4 : List ℕ → Option Ipv4View
unfolding be16
parse_ipv4 p =
    let ihl = header_len p in
    let end = max (min (be16 p 2) (length p)) ihl in
    if ltb (length p) 20
    then none
    else if not (byte p 0 / 2 ^ 4 == 4)
    then none
    else if ltb ihl 20 || ltb (length p) ihl
    then none
    else if not (bit_and (be16 p 6) 0x3fff == 0)
    then none
    else some (record {
      proto = byte p 9;
      src = ip_at p 12;
      dst = ip_at p 16;
      payload = drop ihl (take end p);
      datagram = take end p;
    })

-- The header of 20 bytes up to the checksum, and from it on.
abbrev pub header_front : ℕ → ℕ → ℕ → ℕ → List ℕ
header_front total id fragment proto =
    0x45 ∷ 0 ∷ (put_be16 total ++ (put_be16 id ++ (put_be16 fragment ++ (64 ∷ proto ∷ []))))

abbrev pub addresses : Ip → Ip → List ℕ
addresses src dst = ip_bytes src ++ ip_bytes dst

-- The header with its checksum filled in.
unfoldable pub ipv4_header : ℕ → ℕ → ℕ → ℕ → Ip → Ip → List ℕ
ipv4_header total id fragment proto src dst =
    let front = header_front (u16 total) id fragment proto in
    let csum = checksum16 ((front ++ (0 ∷ 0 ∷ addresses src dst)) ∷ []) in
    front ++ (put_be16 csum ++ addresses src dst)

-- No identification, DF set.
unfoldable pub build_ipv4 : Ip → Ip → ℕ → List ℕ → List ℕ
unfolding ipv4_header
build_ipv4 src dst proto payload =
    ipv4_header (20 + length payload) 0 0x4000 proto src dst ++ payload
