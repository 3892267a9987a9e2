-- ===== src/Net/Wire/Headers.antt =====
-- Ethernet, ARP and IPv4 of src/net/wire.rs: what is built is parsed back.
use tinyvmm.Prelude.{
  ℕ, ◌+◌, ◌*◌, ◌/◌, ◌%◌, ◌^◌, ◌<◌, ◌≡◌, false, some, none, List, [], ◌∷◌, ◌++◌, length, take, drop,
  min, max, bit_and, bit_or, u8, u16, bit_and-ones, bit_or-shifted, arith, refl, ap, ap₂, ◌∙◌, ltb,
  ◌||◌, if◌then◌else◌,
}
use tinyvmm.Net.Csum.{checksum16}
use tinyvmm.Net.Csum.Reference.{checksum16-lt, checksum16-verifies}
use tinyvmm.Net.Wire.{
  Mac, Ip, be16, put_be16, parse_eth, build_eth, parse_arp, build_arp_reply, Ipv4View, parse_ipv4,
  header_front, addresses, ipv4_header, build_ipv4,
}

pub put_be16_lem : (v : ℕ) → v < 2 ^ 16 → bit_or (u8 (v / 2 ^ 8) * 2 ^ 8) (u8 (bit_and v 0xff)) ≡ v
put_be16_lem v h =
    ap (bit_or (u8 (v / 2 ^ 8) * 2 ^ 8)) (ap u8 (bit_and-ones 8 v))
    ∙ bit_or-shifted 8 (u8 (v % 2 ^ 8)) (u8 (v / 2 ^ 8)) (omega arith)
    ∙ omega arith

pub put_be16_bytes : (v : ℕ) → v < 2 ^ 16 → put_be16 v ≡ v / 0x100 ∷ v % 0x100 ∷ []
put_be16_bytes v h = ap₂ (λ a b. a ∷ b ∷ []) (omega arith) (ap u8 (bit_and-ones 8 v) ∙ omega arith)

pub take-length : (xs : List ℕ) → take (length xs) xs ≡ xs
take-length [] = refl
take-length (x ∷ xs) = ap (λ r. x ∷ r) (take-length xs)

-- A frame that is built parses to what it was built from.
pub parse_eth-build_eth :
    (dst src : Mac) (ethertype : ℕ) (payload : List ℕ)
    → ethertype < 2 ^ 16
    → parse_eth (build_eth dst src ethertype payload)
      ≡ some (record { dst = dst; src = src; ethertype = ethertype; payload = payload })
unfolding parse_eth build_eth be16
parse_eth-build_eth dst src ethertype payload h =
    ap
      (λ b.
        if b
        then none
        else some (record {
          dst = dst;
          src = src;
          ethertype = bit_or (u8 (ethertype / 2 ^ 8) * 2 ^ 8) (u8 (bit_and ethertype 0xff));
          payload = payload;
        }))
      enough
    ∙ ap (λ e. some (record { dst = dst; src = src; ethertype = e; payload = payload }))
        (put_be16_lem ethertype h)
  where
    enough : ltb (length (build_eth dst src ethertype payload)) 14 ≡ false
    enough = ground arith

pub parse_arp-build_arp_reply :
    (sender_mac : Mac) (sender_ip : Ip) (target_mac : Mac) (target_ip : Ip)
    → parse_arp (build_arp_reply sender_mac sender_ip target_mac target_ip)
      ≡ some (record { op = 2; sha = sender_mac; spa = sender_ip; tpa = target_ip })
unfolding parse_arp build_arp_reply be16
parse_arp-build_arp_reply a b c d = refl

pub parse_ipv4-build_ipv4 :
    (src dst : Ip) (proto : ℕ) (payload : List ℕ)
    → 20 + length payload < 2 ^ 16
    → parse_ipv4 (build_ipv4 src dst proto payload)
      ≡ some (record {
        proto = proto;
        src = src;
        dst = dst;
        payload = payload;
        datagram = build_ipv4 src dst proto payload;
      })
unfolding parse_ipv4 build_ipv4 ipv4_header be16
parse_ipv4-build_ipv4 src dst proto payload h =
    ap (λ b. if b then none else if false || b then none else some (view last)) long_enough
    ∙ ap (λ e. some (view e)) whole
    ∙ ap
        (λ d.
          some (record { proto = proto; src = src; dst = dst; payload = drop 20 d; datagram = d }))
        (take-length p)
  where
    p : List ℕ
    p = build_ipv4 src dst proto payload

    total : ℕ
    total = u16 (20 + length payload)

    last : ℕ
    last = max (min (bit_or (u8 (total / 2 ^ 8) * 2 ^ 8) (u8 (bit_and total 0xff))) (length p)) 20

    view : ℕ → Ipv4View
    view end = record {
      proto = proto;
      src = src;
      dst = dst;
      payload = drop 20 (take end p);
      datagram = take end p;
    }

    long_enough : ltb (length p) 20 ≡ false
    long_enough = ground arith

    whole : last ≡ length p
    whole = ground (arith, put_be16_lem total (omega arith))

-- The header of a datagram or of a fragment passes the receiver's check: its checksum is 0.
pub checksum16-ipv4_header :
    (total id fragment proto : ℕ) (src dst : Ip)
    → checksum16 (ipv4_header total id fragment proto src dst ∷ []) ≡ 0
unfolding ipv4_header
checksum16-ipv4_header total id fragment proto src dst =
    ap (λ c. checksum16 ((front ++ (c ++ addresses src dst)) ∷ [])) put
    ∙ checksum16-verifies front (addresses src dst) refl
  where
    front : List ℕ
    front = header_front (u16 total) id fragment proto

    csum : ℕ
    csum = checksum16 ((front ++ (0 ∷ 0 ∷ addresses src dst)) ∷ [])

    put : put_be16 csum ≡ csum / 0x100 ∷ csum % 0x100 ∷ []
    put = put_be16_bytes csum (checksum16-lt _)

-- A datagram that is built, of a payload that its length field can count, parses to what it was built
-- from, and its header's checksum is 0, by which the receiver accepts it.
pub build_ipv4_lem :
    (src dst : Ip) (proto : ℕ) (payload : List ℕ)
    → 20 + length payload < 2 ^ 16
    → let p = build_ipv4 src dst proto payload in
      (parse_ipv4 p
        ≡ some (record { proto = proto; src = src; dst = dst; payload = payload; datagram = p }))
      × (checksum16 (take 20 p ∷ []) ≡ 0)
unfolding build_ipv4 ipv4_header
build_ipv4_lem src dst proto payload h = (
  parse_ipv4-build_ipv4 src dst proto payload h,
  checksum16-ipv4_header (20 + length payload) 0 0x4000 proto src dst,
)
