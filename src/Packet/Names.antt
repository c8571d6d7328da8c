-- ===== src/Packet/Names.antt =====
-- The name helpers of Source/PacketParser.c.
mod Examples
pub mod Flags
use Prim.Native.String.{String}
use ddtsoft_net_test.Base.{
  ℕ, ◌-◌, ◌/◌, ◌%◌, Bool, Option, none, some, List, [], ◌∷◌, ◌++◌, length, take, ltb, ◌==◌,
  if◌then◌else◌,
}
use ddtsoft_net_test.Packet.{
  ethertype_ipv4, ethertype_arp, ethertype_ipv6, ip_proto_icmp, ip_proto_tcp, ip_proto_udp,
  icmp_type_echo_reply, icmp_type_dest_unreach, icmp_type_echo_request, icmp_type_time_exceeded,
}

-- PktGetEtherTypeName
pub get_ether_type_name : ℕ → String
get_ether_type_name t =
    if t == ethertype_ipv4
    then "IPv4"
    else if t == ethertype_arp
    then "ARP"
    else if t == ethertype_ipv6
    then "IPv6"
    else "Unknown"

-- PktGetIpProtocolName
pub get_ip_protocol_name : ℕ → String
get_ip_protocol_name p =
    if p == ip_proto_icmp
    then "ICMP"
    else if p == ip_proto_tcp
    then "TCP"
    else if p == ip_proto_udp
    then "UDP"
    else "Unknown"

-- PktGetIcmpTypeName
pub get_icmp_type_name : ℕ → String
get_icmp_type_name t =
    if t == icmp_type_echo_reply
    then "Echo Reply"
    else if t == icmp_type_dest_unreach
    then "Destination Unreachable"
    else if t == icmp_type_echo_request
    then "Echo Request"
    else if t == icmp_type_time_exceeded
    then "Time Exceeded"
    else "Unknown"

abbrev pub Text : Type 0
Text = List ℕ

-- `Flags & bit`, for a power of two.
abbrev pub has_flag : ℕ → ℕ → Bool
has_flag flags bit = flags / bit % 2 == 1

-- One call of UnicodeSPrint behind the text so far: it writes what fits before the last character
-- of the buffer, which it keeps for the NUL, and returns how much it wrote.
pub print_flag : ℕ → ℕ → ℕ → Text → Text → Text
print_flag size flags bit name text =
    if has_flag flags bit then text ++ take (size - length text - 1) name else text

-- `if (Pos > 0 && Buffer[Pos - 1] == L' ') Buffer[Pos - 1] = 0;`
pub drop_space : Text → Text
drop_space [] = []
drop_space (c ∷ []) = if c == 32 then [] else c ∷ []
drop_space (c ∷ d ∷ cs) = c ∷ drop_space (d ∷ cs)

abbrev pub syn : Text
syn = 83 ∷ 89 ∷ 78 ∷ 32 ∷ []

abbrev pub ack : Text
ack = 65 ∷ 67 ∷ 75 ∷ 32 ∷ []

abbrev pub fin : Text
fin = 70 ∷ 73 ∷ 78 ∷ 32 ∷ []

abbrev pub rst : Text
rst = 82 ∷ 83 ∷ 84 ∷ 32 ∷ []

abbrev pub psh : Text
psh = 80 ∷ 83 ∷ 72 ∷ 32 ∷ []

abbrev pub urg : Text
urg = 85 ∷ 82 ∷ 71 ∷ 32 ∷ []

-- The prints of PktGetTcpFlagsStr in order.
pub print_flags : ℕ → ℕ → Text
print_flags size flags = print_flag size flags 0x20 urg (
    print_flag size flags 0x08 psh (
      print_flag size flags 0x04 rst (
        print_flag size flags 0x01 fin
          (print_flag size flags 0x10 ack (print_flag size flags 0x02 syn [])))))

-- PktGetTcpFlagsStr: the string in the buffer, if there is one; the pointer returned is to it, or
-- to an empty string.
pub get_tcp_flags_str : ℕ → Option ℕ → Text
get_tcp_flags_str flags none = []
get_tcp_flags_str flags (some size) = if size == 0 then [] else drop_space (print_flags size flags)
