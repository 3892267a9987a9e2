-- ===== src/Net/Wire/Layer4.antt =====
-- ICMP, UDP and TCP of src/net/wire.rs.
use tinyvmm.Prelude.{
  ℕ, ◌+◌, ◌*◌, ◌/◌, ◌^◌, not, ◌||◌, Option, none, some, List, [], ◌∷◌, ◌++◌, length, take, drop,
  set, min, max, ltb, ◌==◌, if◌then◌else◌, bit_and, bit_or, u8, u16, u32,
}
use tinyvmm.Net.Csum.{checksum16}
use tinyvmm.Net.Wire.{Ip, ip_bytes, byte, be16, put_be16}

abbrev pub ip_proto_tcp : ℕ
ip_proto_tcp = 6

abbrev pub ip_proto_udp : ℕ
ip_proto_udp = 17

abbrev pub icmp_echo_request : ℕ
icmp_echo_request = 8

abbrev pub icmp_echo_reply : ℕ
icmp_echo_reply = 0

abbrev pub tcp_rst : ℕ
tcp_rst = 0x04

abbrev pub tcp_ack : ℕ
tcp_ack = 0x10

unfoldable pub be32 : List ℕ → ℕ → ℕ
be32 b i =
    bit_or (bit_or (bit_or (byte b i * 2 ^ 24) (byte b (i + 1) * 2 ^ 16)) (byte b (i + 2) * 2 ^ 8))
      (byte b (i + 3))

abbrev pub put_be32 : ℕ → List ℕ
put_be32 v = u8 (v / 2 ^ 24) ∷ u8 (v / 2 ^ 16) ∷ u8 (v / 2 ^ 8) ∷ u8 (bit_and v 0xff) ∷ []

-- None where the source returns false. The bytes after the checksum of the request are kept.
unfoldable pub build_icmp_echo_reply : List ℕ → Option (List ℕ)
build_icmp_echo_reply icmp =
    if ltb (length icmp) 8 || not (byte icmp 0 == icmp_echo_request)
    then none
    else (let out = set (set (set icmp 0 icmp_echo_reply) 2 0) 3 0 in
        let csum = checksum16 (out ∷ []) in
        some (set (set out 2 (u8 (csum / 2 ^ 8))) 3 (u8 (bit_and csum 0xff))))

pub record UdpView : Type 0 where
  pub src_port : ℕ
  pub dst_port : ℕ
  pub payload : List ℕ

unfoldable pub parse_udp : List ℕ → Option UdpView
unfolding be16
parse_udp p =
    if ltb (length p) 8
    then none
    else (let end = min (max (be16 p 4) 8) (length p) in
        some (record { src_port = be16 p 0; dst_port = be16 p 2; payload = drop 8 (take end p) }))

abbrev pub pseudo_header : Ip → Ip → ℕ → ℕ → List ℕ
pseudo_header src dst proto len = ip_bytes src ++ (ip_bytes dst ++ (0 ∷ proto ∷ put_be16 len))

abbrev pub all_ones_for_zero : ℕ → ℕ
all_ones_for_zero csum = if csum == 0 then 0xffff else csum

unfoldable pub build_udp : Ip → Ip → ℕ → ℕ → List ℕ → List ℕ
build_udp src_ip dst_ip src_port dst_port bytes =
    let ulen = u16 (8 + length bytes) in
    let front = put_be16 src_port ++ (put_be16 dst_port ++ put_be16 ulen) in
    let pseudo = pseudo_header src_ip dst_ip ip_proto_udp ulen in
    let csum = checksum16 (pseudo ∷ (front ++ (0 ∷ 0 ∷ [])) ∷ bytes ∷ []) in
    front ++ (put_be16 (all_ones_for_zero csum) ++ bytes)

pub record TcpView : Type 0 where
  pub src_port : ℕ
  pub dst_port : ℕ
  pub seq : ℕ
  pub ack : ℕ
  pub hdr_len : ℕ
  pub flags : ℕ

unfoldable pub parse_tcp : List ℕ → Option TcpView
unfolding be16 be32
parse_tcp p =
    if ltb (length p) 20
    then none
    else some (record {
      src_port = be16 p 0;
      dst_port = be16 p 2;
      seq = be32 p 4;
      ack = be32 p 8;
      hdr_len = byte p 12 / 2 ^ 4 * 4;
      flags = byte p 13;
    })

abbrev pub tcp_front : ℕ → ℕ → ℕ → ℕ → ℕ → ℕ → List ℕ
tcp_front src_port dst_port seq ack flags window =
    put_be16 src_port
    ++ (put_be16 dst_port ++ (put_be32 seq ++ (put_be32 ack ++ (0x50 ∷ flags ∷ put_be16 window))))

unfoldable pub build_tcp : Ip → Ip → ℕ → ℕ → ℕ → ℕ → ℕ → ℕ → List ℕ
build_tcp src_ip dst_ip src_port dst_port seq ack flags window =
    let front = tcp_front src_port dst_port seq ack flags window in
    let pseudo = pseudo_header src_ip dst_ip ip_proto_tcp 20 in
    let csum = checksum16 (pseudo ∷ (front ++ (0 ∷ 0 ∷ 0 ∷ 0 ∷ [])) ∷ []) in
    front ++ (put_be16 csum ++ (0 ∷ 0 ∷ []))

unfoldable pub build_tcp_rst_for_syn : Ip → ℕ → Ip → ℕ → ℕ → List ℕ
unfolding build_tcp
build_tcp_rst_for_syn guest_ip guest_port dst_ip dst_port syn_seq =
    build_tcp dst_ip guest_ip dst_port guest_port 0 (u32 (syn_seq + 1)) (bit_or tcp_rst tcp_ack) 0
