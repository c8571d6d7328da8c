-- ===== src/Packet/Parser/Examples.antt =====
-- The theorems on PacketBuilder.c and PacketParser.c at concrete frames.
use ddtsoft_net_test.Base.{
  ℕ, ltb, if◌then◌else◌, ◌==◌, ◌-◌, ◌≤◌, ◌+◌, ◌<◌, ◌≡◌, refl, arith, none, some, Bytes, load16,
  swap_bytes16,
}
use ddtsoft_net_test.Efi.{success}
use ddtsoft_net_test.Packet.{ethernet_broadcast_mac}
use ddtsoft_net_test.Packet.Checksum.{checksum}
use ddtsoft_net_test.Packet.Checksum.Fold.{ones_sum}
use ddtsoft_net_test.Packet.Checksum.Sum.{word_sum, checksum-eq}
use ddtsoft_net_test.Packet.Builder.{
  build_arp_request, build_arp_reply, build_icmp_echo_request, build_udp_packet,
}
use ddtsoft_net_test.Packet.Builder.Arp.{IsArpFrame}
use ddtsoft_net_test.Packet.Builder.Data.{data_of}
use ddtsoft_net_test.Packet.Builder.Headers.{IsIpFrame}
use ddtsoft_net_test.Packet.Builder.Icmp.{IsEcho}
use ddtsoft_net_test.Packet.Builder.Udp.{IsDatagram}
use ddtsoft_net_test.Packet.Builder.Tcp.{TcpArgs, IsInRange, IsSegment, tcp_packet}
use ddtsoft_net_test.Packet.Parser.{ParsedPacket, zeroed, parse_packet, parse_frame}
use ddtsoft_net_test.Packet.Parser.Bounds.{
  header_length, total_length, EndsBy, parse_packet_payload, parse_packet_wraps,
}
use ddtsoft_net_test.Packet.Parser.Reads.{Agree, parse_packet_reads}
use ddtsoft_net_test.Packet.Parser.RoundTrip.{
  icmp_parsed, udp_parsed, tcp_parsed, arp_parsed, parse-build_icmp_echo_request,
  parse-build_udp_packet, parse-build_tcp_packet, parse-build_arp,
}

abbrev buffer : Bytes
buffer = λ k. 0xaa

abbrev our_mac : Bytes
our_mac = λ k. 2 + k

abbrev their_mac : Bytes
their_mac = λ k. 8 + k

abbrev our_ip : Bytes
our_ip = λ k. 10 + k

abbrev their_ip : Bytes
their_ip = λ k. 20 + k

abbrev greeting : Bytes
greeting = λ k. 65 + k

abbrev syn : TcpArgs
syn = record {
  src_port = 49152;
  dst_port = 80;
  seq_num = 1000;
  ack_num = 0;
  flags = 2;
  window_size = 65535;
}

syn-IsInRange : IsInRange syn
syn-IsInRange = record {
  src_port_fits = omega arith;
  dst_port_fits = omega arith;
  seq_fits = omega arith;
  ack_fits = omega arith;
  flags_fit = omega arith;
  window_fits = omega arith;
}

parse-build_icmp_echo_request_example :
    let f =
      (build_icmp_echo_request buffer our_mac their_mac our_ip their_ip 7 1 (some greeting) 5).0 in
    (parse_packet (some f) 60 (some zeroed) ≡ (success, some (icmp_parsed 5)))
    × IsIpFrame f their_mac our_mac our_ip their_ip 1 (8 + 5)
    × IsEcho f 34 7 1 (data_of buffer 42 (some greeting)) 5
parse-build_icmp_echo_request_example =
    parse-build_icmp_echo_request buffer our_mac their_mac our_ip their_ip (some greeting) 5 60
      zeroed 7 1 (omega arith) (omega arith) (omega arith) (omega arith)

parse-build_udp_packet_example :
    let f =
      (build_udp_packet buffer our_mac their_mac our_ip their_ip 9999 53 (some greeting) 6).0 in
    (parse_packet (some f) 60 (some zeroed) ≡ (success, some (udp_parsed 6)))
    × IsIpFrame f their_mac our_mac our_ip their_ip 17 (8 + 6)
    × IsDatagram f 34 our_ip their_ip 9999 53 (data_of buffer 42 (some greeting)) 6
parse-build_udp_packet_example =
    parse-build_udp_packet buffer our_mac their_mac our_ip their_ip (some greeting) 6 60 zeroed 9999
      53 (omega arith) (omega arith) (omega arith) (omega arith)

parse-build_tcp_packet_example :
    let f = (tcp_packet buffer our_mac their_mac our_ip their_ip syn none 0).0 in
    (parse_packet (some f) 60 (some zeroed) ≡ (success, some (tcp_parsed 0)))
    × IsIpFrame f their_mac our_mac our_ip their_ip 6 (20 + 0)
    × IsSegment f 34 our_ip their_ip syn (data_of buffer 54 none) 0
parse-build_tcp_packet_example =
    parse-build_tcp_packet buffer our_mac their_mac our_ip their_ip none 0 60 zeroed syn
      syn-IsInRange (omega arith) (omega arith)

parse-build_arp_example :
    let request = (build_arp_request buffer our_mac our_ip their_ip).0 in
    let reply = (build_arp_reply buffer our_mac our_ip their_mac their_ip).0 in
    (parse_packet (some request) 60 (some zeroed) ≡ (success, some arp_parsed))
    × IsArpFrame request ethernet_broadcast_mac 1 our_mac our_ip (λ k. 0) their_ip
    × (parse_packet (some reply) 60 (some zeroed) ≡ (success, some arp_parsed))
    × IsArpFrame reply their_mac 2 our_mac our_ip their_mac their_ip
parse-build_arp_example =
    parse-build_arp buffer our_mac our_ip their_mac their_ip 60 zeroed (omega arith)

checksum-eq_example : checksum greeting 0 5 ≡ 65535 - ones_sum (word_sum greeting 0 5)
checksum-eq_example = checksum-eq greeting 0 5 (omega arith)

-- A frame of zeros but for the EtherType of IPv4, a header of 20 bytes with its total length, and
-- the protocol ICMP.
abbrev ip_frame : ℕ → Bytes
ip_frame total = λ k.
    if k == 12
    then 0x08
    else if k == 14
    then 0x45
    else if k == 17
    then total
    else if k == 23
    then 1
    else 0

abbrev plain : Bytes
plain = ip_frame 26

-- The same with a total length of 4, smaller than the header.
abbrev short : Bytes
short = ip_frame 4

plain-covers : header_length plain ≤ total_length plain
unfolding swap_bytes16 load16
plain-covers = omega arith

parse_packet_payload_example : EndsBy (parse_frame plain 60) 60
unfolding parse_packet
parse_packet_payload_example =
    parse_packet_payload plain 60 zeroed (parse_frame plain 60) plain-covers refl

-- A memory that differs from the frame behind its 60 bytes.
abbrev beyond : Bytes
beyond = λ k. if ltb k 60 then plain k else 1

beyond-Agree : Agree plain beyond 60
beyond-Agree = record { at = λ j h. ground arith }

parse_packet_reads_example :
    parse_packet (some plain) 60 (some zeroed) ≡ parse_packet (some beyond) 60 (some zeroed)
parse_packet_reads_example = parse_packet_reads 60 beyond-Agree (omega arith) plain-covers zeroed

parse_packet_wraps_example :
    (q : ParsedPacket) × (parse_packet (some short) 60 (some zeroed) ≡ (success, some q))
    × (60 < q.payload_length)
unfolding swap_bytes16 load16
parse_packet_wraps_example =
    parse_packet_wraps short 60 zeroed refl (omega arith) (omega arith) (omega arith) (omega arith)
      (omega arith) (omega arith)
