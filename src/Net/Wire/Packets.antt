-- ===== src/Net/Wire/Packets.antt =====
-- ICMP, UDP and TCP of src/net/wire.rs: what is built is parsed back and passes the receiver's check.
use tinyvmm.Prelude.{
  ℕ, ◌+◌, ◌-◌, ◌*◌, ◌/◌, ◌%◌, ◌^◌, ◌≤◌, ◌<◌, ◌≡◌, false, some, none, List, [], ◌∷◌, ◌++◌, length,
  take, drop, min, max, bit_and, bit_or, u8, u16, bit_and-ones, bit_or-shifted, arith, refl, ap,
  ap₂, ◌∙◌, ltb, ◌||◌, if◌then◌else◌,
}
use tinyvmm.Net.Csum.{checksum16}
use tinyvmm.Net.Csum.Folding.{residue, residue-complement, residue-complement_ones}
use tinyvmm.Net.Csum.Reference.{
  word_sum, append-nil, checksum16-lt, checksum16-blank, checksum16-filled, checksum16-verifies,
}
use tinyvmm.Net.Wire.{Ip, put_be16}
use tinyvmm.Net.Wire.Headers.{put_be16_lem, put_be16_bytes, take-length}
use tinyvmm.Net.Wire.Layer4.{
  be32, build_icmp_echo_reply, UdpView, parse_udp, pseudo_header, all_ones_for_zero, build_udp,
  TcpView, parse_tcp, tcp_front, build_tcp, ip_proto_udp, ip_proto_tcp, icmp_echo_request,
}

module _ (src_ip dst_ip : Ip) (src_port dst_port : ℕ) (bytes : List ℕ) where
  abbrev front : List ℕ
  front = put_be16 src_port ++ (put_be16 dst_port ++ put_be16 (u16 (8 + length bytes)))

  abbrev pseudo : List ℕ
  pseudo = pseudo_header src_ip dst_ip ip_proto_udp (u16 (8 + length bytes))

  abbrev csum : ℕ
  csum = checksum16 (pseudo ∷ (front ++ (0 ∷ 0 ∷ [])) ∷ bytes ∷ [])

  abbrev total : ℕ
  total = word_sum (pseudo ++ front) + word_sum bytes

  csum_lem : csum ≡ 0xffff - residue total
  csum_lem =
      checksum16-blank (pseudo ∷ (front ++ (0 ∷ 0 ∷ [])) ∷ bytes ∷ []) (pseudo ++ front) bytes refl
        (ap (λ t. (pseudo ++ front) ++ (0 ∷ 0 ∷ t)) (append-nil bytes))

  abbrev field : ℕ
  field = all_ones_for_zero csum

  abbrev datagram : List ℕ
  datagram = front ++ (put_be16 field ++ bytes)

  datagram-checked : checksum16 (pseudo ∷ datagram ∷ []) ≡ 0
  datagram-checked =
      checksum16-filled (pseudo ∷ datagram ∷ []) (pseudo ++ front) bytes field refl
        (ap₂ (λ m t. (pseudo ++ front) ++ (m ++ t)) (put_be16_bytes field small) (append-nil bytes))
        (ap (λ c. residue (total + all_ones_for_zero c)) csum_lem ∙ residue-complement_ones total)
    where
      small : field < 2 ^ 16
      small = ground (arith, checksum16-lt (pseudo ∷ (front ++ (0 ∷ 0 ∷ [])) ∷ bytes ∷ []))

  abbrev view : ℕ → ℕ → List ℕ → UdpView
  view a b t = record { src_port = a; dst_port = b; payload = t }

  datagram-parsed :
      src_port < 2 ^ 16
      → dst_port < 2 ^ 16
      → 8 + length bytes < 2 ^ 16
      → parse_udp datagram ≡ some (view src_port dst_port bytes)
  unfolding parse_udp
  datagram-parsed hs hd hl =
      ap
        (λ b.
          if b
          then none
          else some (view (word src_port) (word dst_port) (drop 8 (take last datagram))))
        enough
      ∙ ap₂ (λ a b. some (view a b (drop 8 (take last datagram)))) (put_be16_lem src_port hs)
          (put_be16_lem dst_port hd)
      ∙ ap (λ e. some (view src_port dst_port (drop 8 (take e datagram)))) whole
      ∙ ap (λ d. some (view src_port dst_port (drop 8 d))) (take-length datagram)
    where
      word : ℕ → ℕ
      word v = bit_or (u8 (v / 2 ^ 8) * 2 ^ 8) (u8 (bit_and v 0xff))

      last : ℕ
      last = min (max (word (u16 (8 + length bytes))) 8) (length datagram)

      enough : ltb (length datagram) 8 ≡ false
      enough = ground arith

      whole : last ≡ length datagram
      whole = ground (arith, put_be16_lem (u16 (8 + length bytes)) (omega arith))

  -- A datagram that is built parses back to its ports and its bytes, and the checksum over it and the
  -- pseudo-header is 0, by which the receiver accepts it.
  pub build_udp_lem :
      src_port < 2 ^ 16
      → dst_port < 2 ^ 16
      → 8 + length bytes < 2 ^ 16
      → let p = build_udp src_ip dst_ip src_port dst_port bytes in
        (parse_udp p ≡ some (record { src_port = src_port; dst_port = dst_port; payload = bytes }))
        × (checksum16 (pseudo_header src_ip dst_ip ip_proto_udp (8 + length bytes) ∷ p ∷ []) ≡ 0)
  unfolding build_udp
  build_udp_lem hs hd hl = (
    datagram-parsed hs hd hl,
    ap (λ n. checksum16 (pseudo_header src_ip dst_ip ip_proto_udp n ∷ datagram ∷ [])) short
        ∙ datagram-checked,
  )
    where
      short : 8 + length bytes ≡ u16 (8 + length bytes)
      short = omega arith

put_be32_lem :
    (v : ℕ)
    → v < 2 ^ 32
    → bit_or
        (bit_or
          (bit_or (u8 (v / 2 ^ 24) * 2 ^ 24) (u8 (v / 2 ^ 16) * 2 ^ 16))
          (u8 (v / 2 ^ 8) * 2 ^ 8))
        (u8 (bit_and v 0xff))
      ≡ v
put_be32_lem v h =
    ap (λ x. bit_or (bit_or x (c * 2 ^ 8)) d)
      (bit_or-shifted 24 (b * 2 ^ 16) a (omega arith) ∙ high)
    ∙ ap (λ x. bit_or x d) (bit_or-shifted 16 (c * 2 ^ 8) (v / 2 ^ 16) (omega arith) ∙ middle)
    ∙ ap (bit_or (v / 2 ^ 8 * 2 ^ 8)) (ap u8 (bit_and-ones 8 v))
    ∙ bit_or-shifted 8 (u8 (v % 2 ^ 8)) (v / 2 ^ 8) (omega arith)
    ∙ omega arith
  where
    a : ℕ
    a = u8 (v / 2 ^ 24)

    b : ℕ
    b = u8 (v / 2 ^ 16)

    c : ℕ
    c = u8 (v / 2 ^ 8)

    d : ℕ
    d = u8 (bit_and v 0xff)

    high : b * 2 ^ 16 + a * 2 ^ 24 ≡ v / 2 ^ 16 * 2 ^ 16
    high = omega arith

    middle : c * 2 ^ 8 + v / 2 ^ 16 * 2 ^ 16 ≡ v / 2 ^ 8 * 2 ^ 8
    middle = omega arith

module _ (src_ip dst_ip : Ip) (src_port dst_port seq ack flags window : ℕ) where
  abbrev segment_front : List ℕ
  segment_front = tcp_front src_port dst_port seq ack flags window

  abbrev segment_pseudo : List ℕ
  segment_pseudo = pseudo_header src_ip dst_ip ip_proto_tcp 20

  abbrev segment_csum : ℕ
  segment_csum = checksum16 (segment_pseudo ∷ (segment_front ++ (0 ∷ 0 ∷ 0 ∷ 0 ∷ [])) ∷ [])

  -- A segment that is built parses back to its fields, with a header of 20 bytes, and the checksum over
  -- it and the pseudo-header is 0.
  pub build_tcp_lem :
      src_port < 2 ^ 16
      → dst_port < 2 ^ 16
      → seq < 2 ^ 32
      → ack < 2 ^ 32
      → let p = build_tcp src_ip dst_ip src_port dst_port seq ack flags window in
        (parse_tcp p
          ≡ some (record {
            src_port = src_port;
            dst_port = dst_port;
            seq = seq;
            ack = ack;
            hdr_len = 20;
            flags = flags;
          }))
        × (checksum16 (pseudo_header src_ip dst_ip ip_proto_tcp 20 ∷ p ∷ []) ≡ 0)
  unfolding build_tcp parse_tcp be32
  build_tcp_lem hs hd hq ha = (
    ap₂ (λ a b. some (view a b (long seq) (long ack))) (put_be16_lem src_port hs)
          (put_be16_lem dst_port hd)
        ∙ ap₂ (λ a b. some (view src_port dst_port a b)) (put_be32_lem seq hq)
            (put_be32_lem ack ha),
    checksum16-filled (segment_pseudo ∷ segment ∷ []) (segment_pseudo ++ segment_front) (0 ∷ 0 ∷ [])
        segment_csum refl
        (ap (λ m. (segment_pseudo ++ segment_front) ++ (m ++ (0 ∷ 0 ∷ [])))
          (put_be16_bytes segment_csum (checksum16-lt _)))
        (ap (λ c. residue (sum + c))
            (checksum16-blank (segment_pseudo ∷ (segment_front ++ (0 ∷ 0 ∷ 0 ∷ 0 ∷ [])) ∷ [])
              (segment_pseudo ++ segment_front) (0 ∷ 0 ∷ []) refl refl)
          ∙ residue-complement sum),
  )
    where
      segment : List ℕ
      segment = build_tcp src_ip dst_ip src_port dst_port seq ack flags window

      sum : ℕ
      sum = word_sum (segment_pseudo ++ segment_front) + word_sum (0 ∷ 0 ∷ [])

      view : ℕ → ℕ → ℕ → ℕ → TcpView
      view a b c d = record {
        src_port = a;
        dst_port = b;
        seq = c;
        ack = d;
        hdr_len = 20;
        flags = flags;
      }

      long : ℕ → ℕ
      long v =
          bit_or
            (bit_or (bit_or (u8 (v / 2 ^ 24) * 2 ^ 24) (u8 (v / 2 ^ 16) * 2 ^ 16))
              (u8 (v / 2 ^ 8) * 2 ^ 8))
            (u8 (bit_and v 0xff))

-- An echo request of 8 bytes or more is answered by its own bytes with the type of a reply, and the
-- checksum of the answer is 0.
pub build_icmp_echo_reply_lem :
    (code k0 k1 : ℕ) (rest : List ℕ)
    → 4 ≤ length rest
    → let request = icmp_echo_request ∷ code ∷ k0 ∷ k1 ∷ rest in
      let c = checksum16 ((0 ∷ code ∷ 0 ∷ 0 ∷ rest) ∷ []) in
      let reply = 0 ∷ code ∷ c / 0x100 ∷ c % 0x100 ∷ rest in
      (build_icmp_echo_reply request ≡ some reply) × (checksum16 (reply ∷ []) ≡ 0)
unfolding build_icmp_echo_reply
build_icmp_echo_reply_lem code k0 k1 rest h = (
  ap
        (λ b.
          if b || false
          then none
          else some (0 ∷ code ∷ u8 (c / 2 ^ 8) ∷ u8 (bit_and c 0xff) ∷ rest))
        enough
      ∙ ap (λ m. some (0 ∷ code ∷ (m ++ rest))) (put_be16_bytes c (checksum16-lt _)),
  checksum16-verifies (0 ∷ code ∷ []) rest refl,
)
  where
    c : ℕ
    c = checksum16 ((0 ∷ code ∷ 0 ∷ 0 ∷ rest) ∷ [])

    enough : ltb (length (icmp_echo_request ∷ code ∷ k0 ∷ k1 ∷ rest)) 8 ≡ false
    enough = ground arith
