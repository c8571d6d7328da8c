-- ===== src/Packet/Parser/RoundTrip.antt =====
-- The frames of Source/PacketBuilder.c, parsed by PktParsePacket of Source/PacketParser.c.
use ddtsoft_net_test.Base.{ℕ, ◌+◌, ◌%◌, ◌≤◌, ◌<◌, ◌≡◌, ◌∙◌, arith, true, Option, some, Bytes}
use ddtsoft_net_test.Efi.{success}
use ddtsoft_net_test.Packet.Checksum.{pseudo_checksum}
use ddtsoft_net_test.Packet.Checksum.Sum.{pseudo_checksum_ext}
use ddtsoft_net_test.Packet.{ethernet_broadcast_mac}
use ddtsoft_net_test.Packet.Builder.Arp.{IsArpFrame, arp_request_frame, arp_reply_frame}
use ddtsoft_net_test.Packet.Builder.{
  build_arp_request, build_arp_reply, build_icmp_echo_request, build_udp_packet,
}
use ddtsoft_net_test.Packet.Builder.Data.{data_of}
use ddtsoft_net_test.Packet.Builder.Headers.{IsIpFrame}
use ddtsoft_net_test.Packet.Builder.Icmp.{IsEcho, icmp_frame}
use ddtsoft_net_test.Packet.Builder.Udp.{IsDatagram, udp_frame}
use ddtsoft_net_test.Packet.Builder.Tcp.{TcpArgs, IsInRange, IsSegment, tcp_packet, tcp_frame}
use ddtsoft_net_test.Packet.Parser.{
  ParsedPacket, zeroed, mark_valid, validate_icmp_checksum, validate_tcp_checksum,
  validate_udp_checksum, parse_icmp, parse_tcp, parse_udp, parse_l4, parse_frame, parse_packet,
}
use ddtsoft_net_test.Packet.Parser.Headers.{ip_parsed, parse_frame-IsIpFrame}

-- What PARSED_PACKET says of a frame with an IPv4 header, an L4 part and the payload at `o`, both
-- checksums valid.
abbrev pub icmp_parsed : ℕ → ParsedPacket
icmp_parsed n = record ip_parsed {
  valid = true;
  has_icmp = true;
  icmp = some 34;
  l4_checksum_valid = true;
  payload = some 42;
  payload_length = n;
}

abbrev pub udp_parsed : ℕ → ParsedPacket
udp_parsed n = record ip_parsed {
  valid = true;
  has_udp = true;
  udp = some 34;
  l4_checksum_valid = true;
  payload = some 42;
  payload_length = n;
}

abbrev pub tcp_parsed : ℕ → ParsedPacket
tcp_parsed n = record ip_parsed {
  valid = true;
  has_tcp = true;
  tcp = some 34;
  l4_checksum_valid = true;
  payload = some 54;
  payload_length = n;
}

-- The addresses that the receiver reads from the header are those that the sender summed.
received_sum :
    {b dm sm si di : Bytes} (p l q i k : ℕ)
    → IsIpFrame b dm sm si di p l
    → pseudo_checksum b 26 b 30 q k b i k ≡ pseudo_checksum si 0 di 0 q k b i k
received_sum {b} {si = si} {di = di} p l q i k f =
    pseudo_checksum_ext b si 26 0 b di 30 0 q k b i k (ground (arith, f.src_ip_at 0, f.src_ip_at 1))
      (ground (arith, f.src_ip_at 2, f.src_ip_at 3)) (ground (arith, f.dst_ip_at 0, f.dst_ip_at 1))
      (ground (arith, f.dst_ip_at 2, f.dst_ip_at 3))

module _ {b dm sm si di : Bytes} {n length : ℕ} where
  parse_icmp_frame :
      {x y : ℕ} {src : Bytes}
      → IsIpFrame b dm sm si di 1 (8 + n)
      → IsEcho b 34 x y src n
      → n ≤ 65507
      → 42 + n ≤ length
      → parse_frame b length ≡ icmp_parsed n
  unfolding parse_l4 parse_icmp mark_valid validate_icmp_checksum
  parse_icmp_frame f e small fits =
      parse_frame-IsIpFrame f length (omega arith) (omega arith)
      ∙ ground (arith, f.protocol, e.sum_valid)

  parse_udp_frame :
      {x y : ℕ} {src : Bytes}
      → IsIpFrame b dm sm si di 17 (8 + n)
      → IsDatagram b 34 si di x y src n
      → n ≤ 65507
      → 42 + n ≤ length
      → parse_frame b length ≡ udp_parsed n
  unfolding parse_l4 parse_udp mark_valid validate_udp_checksum
  parse_udp_frame f d small fits =
      let len : (8 + n) % 65536 ≡ 8 + n = omega arith in
      parse_frame-IsIpFrame f length (omega arith) (omega arith)
      ∙ ground (arith, len, f.protocol, d.sum_valid, received_sum 17 (8 + n) 17 34 (8 + n) f)

  parse_tcp_frame :
      {a : TcpArgs} {src : Bytes}
      → IsIpFrame b dm sm si di 6 (20 + n)
      → IsSegment b 34 si di a src n
      → n ≤ 65495
      → 54 + n ≤ length
      → parse_frame b length ≡ tcp_parsed n
  unfolding parse_l4 parse_tcp mark_valid validate_tcp_checksum
  parse_tcp_frame f t small fits =
      let len : (20 + n) % 65536 ≡ 20 + n = omega arith in
      parse_frame-IsIpFrame f length (omega arith) (omega arith)
      ∙ ground (
        arith,
        len,
        f.protocol,
        t.fields.data_offset_at,
        t.sum_valid,
        received_sum 6 (20 + n) 6 34 (20 + n) f,
      )

module _ (b src_mac dst_mac src_ip dst_ip : Bytes) (src : Option Bytes) (n length : ℕ)
    (p : ParsedPacket) where
  -- A frame built by PktBuildIcmpEchoRequest with at most 65507 bytes of data, whatever follows it in
  -- the buffer, is parsed as an echo request whose two checksums are valid and whose payload is the
  -- data. Its identifier, sequence number and data are the ones it was built from.
  pub parse-build_icmp_echo_request :
      (x y : ℕ)
      → x < 65536
      → y < 65536
      → n ≤ 65507
      → 42 + n ≤ length
      → let f = (build_icmp_echo_request b src_mac dst_mac src_ip dst_ip x y src n).0 in
        (parse_packet (some f) length (some p) ≡ (success, some (icmp_parsed n)))
        × IsIpFrame f dst_mac src_mac src_ip dst_ip 1 (8 + n)
        × IsEcho f 34 x y (data_of b 42 src) n
  unfolding parse_packet
  parse-build_icmp_echo_request x y hx hy small fits =
      let (f, e) = icmp_frame b src_mac dst_mac src_ip dst_ip x y src n hx hy small in
      (ground (arith, parse_icmp_frame {length = length} f e), f, e)

  -- A frame built by PktBuildUdpPacket with at most 65507 bytes of data is parsed as a UDP datagram
  -- whose two checksums are valid and whose payload is the data. Its checksum field is not zero, and
  -- its ports, length and data are the ones it was built from.
  pub parse-build_udp_packet :
      (x y : ℕ)
      → x < 65536
      → y < 65536
      → n ≤ 65507
      → 42 + n ≤ length
      → let f = (build_udp_packet b src_mac dst_mac src_ip dst_ip x y src n).0 in
        (parse_packet (some f) length (some p) ≡ (success, some (udp_parsed n)))
        × IsIpFrame f dst_mac src_mac src_ip dst_ip 17 (8 + n)
        × IsDatagram f 34 src_ip dst_ip x y (data_of b 42 src) n
  unfolding parse_packet
  parse-build_udp_packet x y hx hy small fits =
      let (f, d) = udp_frame b src_mac dst_mac src_ip dst_ip x y src n hx hy small in
      (ground (arith, parse_udp_frame {length = length} f d), f, d)

  -- A frame built by PktBuildTcpPacket with at most 65495 bytes of data is parsed as a TCP segment
  -- whose two checksums are valid and whose payload is the data. Its header fields and data are the
  -- ones it was built from.
  pub parse-build_tcp_packet :
      (a : TcpArgs)
      → IsInRange a
      → n ≤ 65495
      → 54 + n ≤ length
      → let f = (tcp_packet b src_mac dst_mac src_ip dst_ip a src n).0 in
        (parse_packet (some f) length (some p) ≡ (success, some (tcp_parsed n)))
        × IsIpFrame f dst_mac src_mac src_ip dst_ip 6 (20 + n)
        × IsSegment f 34 src_ip dst_ip a (data_of b 54 src) n
  unfolding parse_packet
  parse-build_tcp_packet a r small fits =
      let (f, t) = tcp_frame b src_mac dst_mac src_ip dst_ip a src n r small in
      (ground (arith, parse_tcp_frame {length = length} f t), f, t)

-- What PARSED_PACKET says of a complete ARP frame.
abbrev pub arp_parsed : ParsedPacket
arp_parsed = record zeroed {
  valid = true;
  has_ethernet = true;
  ethernet = some 0;
  ether_type = 0x0806;
  has_arp = true;
  arp = some 14;
}

parse_arp_frame :
    {f to sm si dm di : Bytes} {op length : ℕ}
    → IsArpFrame f to op sm si dm di
    → 42 ≤ length
    → parse_frame f length ≡ arp_parsed
unfolding parse_frame mark_valid
parse_arp_frame a fits = ground (arith, a.ether_type)

-- The frames of PktBuildArpRequest and PktBuildArpReply are parsed as ARP. Each field of the request
-- and of the reply is the one that it was built from; a request goes to the broadcast address and
-- leaves the target MAC zero.
pub parse-build_arp :
    (b src_mac src_ip dst_mac dst_ip : Bytes) (length : ℕ) (p : ParsedPacket)
    → 42 ≤ length
    → let request = (build_arp_request b src_mac src_ip dst_ip).0 in
      let reply = (build_arp_reply b src_mac src_ip dst_mac dst_ip).0 in
      (parse_packet (some request) length (some p) ≡ (success, some arp_parsed))
      × IsArpFrame request ethernet_broadcast_mac 1 src_mac src_ip (λ k. 0) dst_ip
      × (parse_packet (some reply) length (some p) ≡ (success, some arp_parsed))
      × IsArpFrame reply dst_mac 2 src_mac src_ip dst_mac dst_ip
unfolding parse_packet
parse-build_arp b sm si dm di length p fits =
    let request = arp_request_frame b sm si dm di in
    let reply = arp_reply_frame b sm si dm di in
    (
      ground (arith, parse_arp_frame {length = length} request),
      request,
      ground (arith, parse_arp_frame {length = length} reply),
      reply,
    )
