-- ===== src/Packet.antt =====
-- Packet structures (Include/PacketDefs.h): sizes, protocol numbers and bit fields of the packed
-- headers. A field of a header at `o` is read and written at `o` plus its offset in the struct.
pub mod Checksum
pub mod Builder
pub mod Parser
pub mod Replies
pub mod Names
use Prim.Native.Nat.{bit_or}
use ddtsoft_net_test.Base.{ℕ, ◌+◌, ◌*◌, ◌/◌, ◌%◌, Bytes}

abbrev pub ethertype_ipv4 : ℕ
ethertype_ipv4 = 0x0800

abbrev pub ethertype_arp : ℕ
ethertype_arp = 0x0806

abbrev pub ethertype_ipv6 : ℕ
ethertype_ipv6 = 0x86dd

abbrev pub arp_op_request : ℕ
arp_op_request = 1

abbrev pub arp_op_reply : ℕ
arp_op_reply = 2

abbrev pub arp_hw_ethernet : ℕ
arp_hw_ethernet = 1

abbrev pub ip_proto_icmp : ℕ
ip_proto_icmp = 1

abbrev pub ip_proto_tcp : ℕ
ip_proto_tcp = 6

abbrev pub ip_proto_udp : ℕ
ip_proto_udp = 17

abbrev pub ip_flag_df : ℕ
ip_flag_df = 0x4000

abbrev pub icmp_type_echo_reply : ℕ
icmp_type_echo_reply = 0

abbrev pub icmp_type_dest_unreach : ℕ
icmp_type_dest_unreach = 3

abbrev pub icmp_type_echo_request : ℕ
icmp_type_echo_request = 8

abbrev pub icmp_type_time_exceeded : ℕ
icmp_type_time_exceeded = 11

abbrev pub ethernet_header_size : ℕ
ethernet_header_size = 14

abbrev pub ipv4_min_header_size : ℕ
ipv4_min_header_size = 20

abbrev pub icmp_header_size : ℕ
icmp_header_size = 8

abbrev pub tcp_min_header_size : ℕ
tcp_min_header_size = 20

abbrev pub udp_header_size : ℕ
udp_header_size = 8

abbrev pub arp_header_size : ℕ
arp_header_size = 28

-- IPV4_VERSION_IHL, and the readers of that byte and of the TCP data offset (`& 0x0F` is `% 16`).
abbrev pub ipv4_version_ihl : ℕ → ℕ → ℕ
ipv4_version_ihl ver ihl = bit_or (ver * 16) ihl

abbrev pub ipv4_hdr_len : ℕ → ℕ
ipv4_hdr_len verihl = verihl % 16 * 4

abbrev pub tcp_hdr_len : ℕ → ℕ
tcp_hdr_len doff = doff / 16 % 16 * 4

-- ETHERNET_BROADCAST_MAC
abbrev pub ethernet_broadcast_mac : Bytes
ethernet_broadcast_mac i = 0xff
