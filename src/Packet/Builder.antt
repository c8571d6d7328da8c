-- ===== src/Packet/Builder.antt =====
-- The header and frame builders of Source/PacketBuilder.c. A builder takes the bytes behind `Buffer`
-- and returns them as it leaves them, with the number that the function returns.
-- `..._unsummed` is a builder's state just before it writes the checksum.
pub mod Below
pub mod Extent
pub mod Headers
pub mod Data
pub mod Arp
pub mod Icmp
pub mod Udp
pub mod Tcp
pub mod Steps
use ddtsoft_net_test.Base.{
  ℕ, ◌+◌, ◌*◌, ◌%◌, Option, none, some, ltb, ◌==◌, if◌then◌else◌, Bytes, copy_mem, zero_mem, store8,
  store16, store32, load16, swap_bytes16, swap_bytes32,
}
use ddtsoft_net_test.Packet.{
  ethertype_ipv4, ethertype_arp, arp_op_request, arp_op_reply, arp_hw_ethernet, ip_proto_icmp,
  ip_proto_tcp, ip_proto_udp, ip_flag_df, icmp_type_echo_request, ethernet_header_size,
  ipv4_min_header_size, icmp_header_size, tcp_min_header_size, udp_header_size, arp_header_size,
  ipv4_version_ihl, ethernet_broadcast_mac,
}
use ddtsoft_net_test.Packet.Checksum.{checksum, pseudo_checksum}

-- PktBuildEthernetHeader at `buffer + o`
pub build_ethernet_header : Bytes → ℕ → Bytes → Bytes → ℕ → Bytes × ℕ
build_ethernet_header buffer o dst_mac src_mac ether_type =
    let b = copy_mem buffer o dst_mac 6 in
    let b = copy_mem b (o + 6) src_mac 6 in
    (store16 b (o + 12) (swap_bytes16 ether_type), ethernet_header_size)

pub ipv4_unsummed : Bytes → ℕ → Bytes → Bytes → ℕ → ℕ → ℕ → Bytes
ipv4_unsummed buffer o src_ip dst_ip protocol payload_length ttl =
    let b = store8 buffer o (ipv4_version_ihl 4 5) in
    let b = store8 b (o + 1) 0 in
    let b = store16 b (o + 2) (swap_bytes16 ((ipv4_min_header_size + payload_length) % 65536)) in
    let b = store16 b (o + 4) 0 in
    let b = store16 b (o + 6) (swap_bytes16 ip_flag_df) in
    let b = store8 b (o + 8) ttl in
    let b = store8 b (o + 9) protocol in
    let b = store16 b (o + 10) 0 in
    let b = copy_mem b (o + 12) src_ip 4 in copy_mem b (o + 16) dst_ip 4

-- PktBuildIpv4Header at `buffer + o`
pub build_ipv4_header : Bytes → ℕ → Bytes → Bytes → ℕ → ℕ → ℕ → Bytes × ℕ
build_ipv4_header buffer o src_ip dst_ip protocol payload_length ttl =
    let b = ipv4_unsummed buffer o src_ip dst_ip protocol payload_length ttl in
    (store16 b (o + 10) (swap_bytes16 (checksum b o ipv4_min_header_size)), ipv4_min_header_size)

-- The ARP header that both ARP builders write at `buffer + o`, up to its target MAC.
pub arp_header : Bytes → ℕ → ℕ → Bytes → Bytes → Bytes
arp_header buffer o operation src_mac src_ip =
    let b = store16 buffer o (swap_bytes16 arp_hw_ethernet) in
    let b = store16 b (o + 2) (swap_bytes16 ethertype_ipv4) in
    let b = store8 b (o + 4) 6 in
    let b = store8 b (o + 5) 4 in
    let b = store16 b (o + 6) (swap_bytes16 operation) in
    let b = copy_mem b (o + 8) src_mac 6 in copy_mem b (o + 14) src_ip 4

-- PktBuildArpRequest
pub build_arp_request : Bytes → Bytes → Bytes → Bytes → Bytes × ℕ
build_arp_request buffer src_mac src_ip target_ip =
    let (b, o) = build_ethernet_header buffer 0 ethernet_broadcast_mac src_mac ethertype_arp in
    let b = arp_header b o arp_op_request src_mac src_ip in
    let b = zero_mem b (o + 18) 6 in (copy_mem b (o + 24) target_ip 4, o + arp_header_size)

-- PktBuildArpReply
pub build_arp_reply : Bytes → Bytes → Bytes → Bytes → Bytes → Bytes × ℕ
build_arp_reply buffer src_mac src_ip dst_mac dst_ip =
    let (b, o) = build_ethernet_header buffer 0 dst_mac src_mac ethertype_arp in
    let b = arp_header b o arp_op_reply src_mac src_ip in
    let b = copy_mem b (o + 18) dst_mac 6 in (copy_mem b (o + 24) dst_ip 4, o + arp_header_size)

-- `if (Data != NULL && DataLength > 0) CopyMem (...)`
pub copy_data : Bytes → ℕ → Option Bytes → ℕ → Bytes
copy_data buffer o none n = buffer
copy_data buffer o (some src) n = if ltb 0 n then copy_mem buffer o src n else buffer

-- The Ethernet and IPv4 headers that the builders of the three IPv4 frames write first, and the
-- offset behind them.
pub ip_headers : Bytes → Bytes → Bytes → Bytes → Bytes → ℕ → ℕ → Bytes × ℕ
ip_headers buffer src_mac dst_mac src_ip dst_ip protocol l4_len =
    let (b, o) = build_ethernet_header buffer 0 dst_mac src_mac ethertype_ipv4 in
    let (b, n) = build_ipv4_header b o src_ip dst_ip protocol l4_len 64 in (b, o + n)

pub icmp_unsummed : Bytes → ℕ → ℕ → ℕ → Option Bytes → ℕ → Bytes
icmp_unsummed buffer o identifier sequence_number src n =
    let b = store8 buffer o icmp_type_echo_request in
    let b = store8 b (o + 1) 0 in
    let b = store16 b (o + 2) 0 in
    let b = store16 b (o + 4) (swap_bytes16 identifier) in
    let b = store16 b (o + 6) (swap_bytes16 sequence_number) in
    copy_data b (o + icmp_header_size) src n

-- PktBuildIcmpEchoRequest
pub build_icmp_echo_request :
    Bytes → Bytes → Bytes → Bytes → Bytes → ℕ → ℕ → Option Bytes → ℕ → Bytes × ℕ
build_icmp_echo_request buffer src_mac dst_mac src_ip dst_ip identifier sequence_number src n =
    let icmp_len = (icmp_header_size + n) % 65536 in
    let (b, o) = ip_headers buffer src_mac dst_mac src_ip dst_ip ip_proto_icmp icmp_len in
    let b = icmp_unsummed b o identifier sequence_number src n in
    (store16 b (o + 2) (swap_bytes16 (checksum b o icmp_len)), o + icmp_len)

pub udp_unsummed : Bytes → ℕ → ℕ → ℕ → ℕ → Option Bytes → ℕ → Bytes
udp_unsummed buffer o src_port dst_port udp_len src n =
    let b = store16 buffer o (swap_bytes16 src_port) in
    let b = store16 b (o + 2) (swap_bytes16 dst_port) in
    let b = store16 b (o + 4) (swap_bytes16 udp_len) in
    let b = store16 b (o + 6) 0 in copy_data b (o + udp_header_size) src n

-- A computed checksum of zero is sent as 0xFFFF.
pub zero_as_max : Bytes → ℕ → Bytes
zero_as_max b o = if load16 b o == 0 then store16 b o 0xffff else b

-- PktBuildUdpPacket
pub build_udp_packet : Bytes → Bytes → Bytes → Bytes → Bytes → ℕ → ℕ → Option Bytes → ℕ → Bytes × ℕ
build_udp_packet buffer src_mac dst_mac src_ip dst_ip src_port dst_port src n =
    let udp_len = (udp_header_size + n) % 65536 in
    let (b, o) = ip_headers buffer src_mac dst_mac src_ip dst_ip ip_proto_udp udp_len in
    let b = udp_unsummed b o src_port dst_port udp_len src n in
    let c = pseudo_checksum src_ip 0 dst_ip 0 ip_proto_udp udp_len b o udp_len in
    let b = store16 b (o + 6) (swap_bytes16 c) in (zero_as_max b (o + 6), o + udp_len)

pub tcp_unsummed : Bytes → ℕ → ℕ → ℕ → ℕ → ℕ → ℕ → ℕ → Option Bytes → ℕ → Bytes
tcp_unsummed buffer o src_port dst_port seq_num ack_num flags window_size src n =
    let b = store16 buffer o (swap_bytes16 src_port) in
    let b = store16 b (o + 2) (swap_bytes16 dst_port) in
    let b = store32 b (o + 4) (swap_bytes32 seq_num) in
    let b = store32 b (o + 8) (swap_bytes32 ack_num) in
    let b = store8 b (o + 12) (5 * 16) in
    let b = store8 b (o + 13) flags in
    let b = store16 b (o + 14) (swap_bytes16 window_size) in
    let b = store16 b (o + 16) 0 in
    let b = store16 b (o + 18) 0 in copy_data b (o + tcp_min_header_size) src n

-- PktBuildTcpPacket
pub build_tcp_packet :
    Bytes → Bytes → Bytes → Bytes → Bytes → ℕ → ℕ → ℕ → ℕ → ℕ → ℕ → Option Bytes → ℕ → Bytes × ℕ
build_tcp_packet buffer src_mac dst_mac src_ip dst_ip src_port dst_port seq_num ack_num flags
      window_size src n =
    let tcp_len = (tcp_min_header_size + n) % 65536 in
    let (b, o) = ip_headers buffer src_mac dst_mac src_ip dst_ip ip_proto_tcp tcp_len in
    let b = tcp_unsummed b o src_port dst_port seq_num ack_num flags window_size src n in
    let c = pseudo_checksum src_ip 0 dst_ip 0 ip_proto_tcp tcp_len b o tcp_len in
    (store16 b (o + 16) (swap_bytes16 c), o + tcp_len)
