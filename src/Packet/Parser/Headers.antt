-- ===== src/Packet/Parser/Headers.antt =====
-- PktParsePacket on a frame whose headers are as the builders write them.
use ddtsoft_net_test.Base.{ℕ, ◌+◌, ◌-◌, ◌≤◌, ◌<◌, ◌≡◌, arith, true, some, Bytes}
use ddtsoft_net_test.Packet.Builder.Headers.{IsIpFrame}
use ddtsoft_net_test.Packet.Parser.{
  ParsedPacket, zeroed, mark_valid, validate_ip_checksum, parse_l4, parse_ipv4, parse_frame,
  l4_length,
}

-- What the parser has found when it comes to the switch on the protocol.
abbrev pub ip_parsed : ParsedPacket
ip_parsed = record zeroed {
  has_ethernet = true;
  ethernet = some 0;
  ether_type = 0x0800;
  has_ipv4 = true;
  ipv4 = some 14;
  ip_checksum_valid = true;
}

pub l4_length_sub : (t h : ℕ) → h ≤ t → t < 65536 → l4_length t h ≡ t - h
unfolding l4_length
l4_length_sub t h p q = omega arith

module _ {b dm sm si di : Bytes} {p l : ℕ} (f : IsIpFrame b dm sm si di p l) (length : ℕ)
    (fits : 34 + l ≤ length) (small : l ≤ 65515) where
  header_checksum : validate_ip_checksum b 14 ≡ true
  unfolding validate_ip_checksum
  header_checksum = rw f.version_ihl (rw f.header_valid)

  ipv4_case :
      parse_ipv4 b 14 length
        (record zeroed { has_ethernet = true; ethernet = some 0; ether_type = 0x0800 })
      ≡ mark_valid (parse_l4 b 14 34 l ip_parsed)
  unfolding parse_ipv4
  ipv4_case =
      ground (arith, header_checksum, f.version_ihl, f.total_length, l4_length_sub (20 + l) 20)

  -- The parser comes to the L4 header at 34 with the length of the rest.
  pub parse_frame-IsIpFrame : parse_frame b length ≡ mark_valid (parse_l4 b 14 34 l ip_parsed)
  unfolding parse_frame
  parse_frame-IsIpFrame = ground (arith, f.ether_type, ipv4_case)
