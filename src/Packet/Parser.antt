-- ===== src/Packet/Parser.antt =====
-- Source/PacketParser.c: the checksum validators and PktParsePacket.
-- A pointer into the frame is its offset from `Buffer`, and NULL is `none`.
pub mod Headers
pub mod RoundTrip
pub mod Bounds
pub mod Reads
mod Examples
use ddtsoft_net_test.Base.{
  ℕ, ◌+◌, ◌-◌, ◌%◌, ◌^◌, Bool, true, false, ◌&&◌, ◌||◌, not, Option, none, some, ltb, leb, ◌==◌,
  if◌then◌else◌, Bytes, load16, swap_bytes16,
}
use ddtsoft_net_test.Efi.{EfiStatus, success, invalid_parameter, buffer_too_small}
use ddtsoft_net_test.Packet.{
  ethertype_ipv4, ethertype_arp, ip_proto_icmp, ip_proto_tcp, ip_proto_udp, ethernet_header_size,
  ipv4_min_header_size, icmp_header_size, tcp_min_header_size, udp_header_size, arp_header_size,
  ipv4_hdr_len, tcp_hdr_len,
}
use ddtsoft_net_test.Packet.Checksum.{checksum, pseudo_checksum}

-- PARSED_PACKET
pub record ParsedPacket : Type 0 where
  pub valid : Bool
  pub has_ethernet : Bool
  pub ethernet : Option ℕ
  pub ether_type : ℕ
  pub has_ipv4 : Bool
  pub ipv4 : Option ℕ
  pub has_arp : Bool
  pub arp : Option ℕ
  pub has_icmp : Bool
  pub icmp : Option ℕ
  pub has_tcp : Bool
  pub tcp : Option ℕ
  pub has_udp : Bool
  pub udp : Option ℕ
  pub payload : Option ℕ
  pub payload_length : ℕ
  pub ip_checksum_valid : Bool
  pub l4_checksum_valid : Bool

-- `ZeroMem (Parsed, sizeof (PARSED_PACKET))`
abbrev pub zeroed : ParsedPacket
zeroed = record {
  valid = false;
  has_ethernet = false;
  ethernet = none;
  ether_type = 0;
  has_ipv4 = false;
  ipv4 = none;
  has_arp = false;
  arp = none;
  has_icmp = false;
  icmp = none;
  has_tcp = false;
  tcp = none;
  has_udp = false;
  udp = none;
  payload = none;
  payload_length = 0;
  ip_checksum_valid = false;
  l4_checksum_valid = false;
}

-- What the Ethernet header alone gives.
abbrev pub ethernet_parsed : ℕ → ParsedPacket
ethernet_parsed t = record zeroed { has_ethernet = true; ethernet = some 0; ether_type = t }

-- `Parsed->Valid = TRUE`
pub mark_valid : ParsedPacket → ParsedPacket
mark_valid p = record p { valid = true }

-- PktValidateIpChecksum
pub validate_ip_checksum : Bytes → ℕ → Bool
validate_ip_checksum m ip =
    let hdr_len = ipv4_hdr_len (m ip) in
    if ltb hdr_len ipv4_min_header_size then false else checksum m ip hdr_len == 0

-- PktValidateIcmpChecksum
pub validate_icmp_checksum : Bytes → ℕ → ℕ → Bool
validate_icmp_checksum m icmp icmp_length =
    if ltb icmp_length icmp_header_size then false else checksum m icmp icmp_length == 0

-- PktValidateTcpChecksum. The addresses lie at 12 and 16 in the IPv4 header.
pub validate_tcp_checksum : Bytes → ℕ → ℕ → ℕ → Bool
validate_tcp_checksum m ip tcp tcp_length =
    if ltb tcp_length tcp_min_header_size
    then false
    else pseudo_checksum m (ip + 12) m (ip + 16) ip_proto_tcp (tcp_length % 65536) m tcp tcp_length
      == 0

-- PktValidateUdpChecksum
pub validate_udp_checksum : Bytes → ℕ → ℕ → ℕ → Bool
validate_udp_checksum m ip udp udp_length =
    if ltb udp_length udp_header_size
    then false
    else if load16 m (udp + 6) == 0
    then true
    else pseudo_checksum m (ip + 12) m (ip + 16) ip_proto_udp (udp_length % 65536) m udp udp_length
      == 0

-- The four cases of the switch on the IP protocol, with the IPv4 header at `ip`, the L4 header at `o`
-- and `n` for L4Length.
pub parse_icmp : Bytes → ℕ → ℕ → ParsedPacket → ParsedPacket
parse_icmp m o n p = if ltb n icmp_header_size then p else record p {
  has_icmp = true;
  icmp = some o;
  l4_checksum_valid = validate_icmp_checksum m o n;
  payload = some (o + icmp_header_size);
  payload_length = n - icmp_header_size;
}

pub parse_tcp : Bytes → ℕ → ℕ → ℕ → ParsedPacket → ParsedPacket
parse_tcp m ip o n p =
    let hdr_len = tcp_hdr_len (m (o + 12)) in
    let fits = leb tcp_min_header_size hdr_len && leb hdr_len n in
    if ltb n tcp_min_header_size then p else record p {
      has_tcp = true;
      tcp = some o;
      l4_checksum_valid = validate_tcp_checksum m ip o n;
      payload = if fits then some (o + hdr_len) else p.payload;
      payload_length = if fits then n - hdr_len else p.payload_length;
    }

pub parse_udp : Bytes → ℕ → ℕ → ℕ → ParsedPacket → ParsedPacket
parse_udp m ip o n p = if ltb n udp_header_size then p else record p {
  has_udp = true;
  udp = some o;
  l4_checksum_valid = validate_udp_checksum m ip o n;
  payload = some (o + udp_header_size);
  payload_length = n - udp_header_size;
}

pub parse_l4 : Bytes → ℕ → ℕ → ℕ → ParsedPacket → ParsedPacket
parse_l4 m ip o n p =
    if m (ip + 9) == ip_proto_icmp
    then parse_icmp m o n p
    else if m (ip + 9) == ip_proto_tcp
    then parse_tcp m ip o n p
    else if m (ip + 9) == ip_proto_udp
    then parse_udp m ip o n p
    else record p { payload = some o; payload_length = n }

-- `IpTotalLen - IpHdrLen` on UINTN
pub l4_length : ℕ → ℕ → ℕ
l4_length total hdr = (2 ^ 64 + total - hdr) % 2 ^ 64

-- The IPv4 part, with the header at `o` of a frame of `length` bytes.
pub parse_ipv4 : Bytes → ℕ → ℕ → ParsedPacket → ParsedPacket
parse_ipv4 m o length p =
    let p = record p {
      has_ipv4 = true;
      ipv4 = some o;
      ip_checksum_valid = validate_ip_checksum m o;
    } in
    let hdr = ipv4_hdr_len (m o) in
    let total = swap_bytes16 (load16 m (o + 2)) in
    if ltb hdr ipv4_min_header_size || ltb length (o + total)
    then mark_valid p
    else mark_valid (parse_l4 m o (o + hdr) (l4_length total hdr) p)

-- The frame behind its Ethernet header.
pub parse_frame : Bytes → ℕ → ParsedPacket
parse_frame m length =
    let t = swap_bytes16 (load16 m 12) in
    let o = ethernet_header_size in
    let p = ethernet_parsed t in
    if t == ethertype_arp
    then (if ltb length (o + arp_header_size)
        then mark_valid p
        else mark_valid (record p { has_arp = true; arp = some o }))
    else if not (t == ethertype_ipv4)
    then mark_valid p
    else if ltb length (o + ipv4_min_header_size)
    then mark_valid p
    else parse_ipv4 m o length p

-- PktParsePacket: the status, and what it leaves in `Parsed` (`none` for a NULL pointer).
pub parse_packet : Option Bytes → ℕ → Option ParsedPacket → EfiStatus × Option ParsedPacket
parse_packet none length parsed = (invalid_parameter, parsed)
parse_packet (some m) length none = (invalid_parameter, none)
parse_packet (some m) length (some p) =
    if ltb length ethernet_header_size
    then (buffer_too_small, some zeroed)
    else (success, some (parse_frame m length))
