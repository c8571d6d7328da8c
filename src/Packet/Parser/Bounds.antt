-- ===== src/Packet/Parser/Bounds.antt =====
-- Where the result of PktParsePacket (Source/PacketParser.c) points, and how long its payload is.
use ddtsoft_net_test.Base.{
  ℕ, ◌+◌, ◌-◌, ◌^◌, ◌≤◌, ◌<◌, ◌≡◌, ◌≢◌, refl, arith, Option, inl, inr, Bool-cases, ltb, ◌||◌, none,
  some, Bytes, load16, swap_bytes16, swap_bytes16-lt,
}
use ddtsoft_net_test.Efi.{success}
use ddtsoft_net_test.Packet.{ipv4_hdr_len}
use ddtsoft_net_test.Packet.Parser.{
  ParsedPacket, ethernet_parsed, mark_valid, parse_icmp, parse_tcp, parse_udp, parse_l4, parse_ipv4,
  parse_frame, parse_packet, l4_length,
}
use ddtsoft_net_test.Packet.Parser.Headers.{l4_length_sub}

-- The two length fields of the IPv4 header of a frame.
abbrev pub header_length : Bytes → ℕ
header_length m = ipv4_hdr_len (m 14)

abbrev pub total_length : Bytes → ℕ
total_length m = swap_bytes16 (load16 m 16)

abbrev pub Within : Option ℕ → ℕ → ℕ → Type 0
Within none n e = n ≡ 0
Within (some o) n e = o + n ≤ e

-- The payload that a result points to ends at `e` at the latest; without one its length is 0.
pub record EndsBy (q : ParsedPacket) (e : ℕ) : Type 0 where
  pub within : Within q.payload q.payload_length e

module _ (m : Bytes) where
  parse_l4-EndsBy :
      (ip o n : ℕ) (p : ParsedPacket)
      → p.payload ≡ none
      → p.payload_length ≡ 0
      → EndsBy (parse_l4 m ip o n p) (o + n)
  unfolding parse_l4 parse_icmp parse_tcp parse_udp
  parse_l4-EndsBy ip o n p h z = record { within = ground arith }

  EndsBy-mark_valid : (q : ParsedPacket) {d e : ℕ} → d ≤ e → EndsBy q d → EndsBy (mark_valid q) e
  unfolding mark_valid
  EndsBy-mark_valid q le h = record { within = ground (arith, h.within) }

  parse_ipv4-EndsBy :
      (length : ℕ) (p : ParsedPacket)
      → header_length m ≤ total_length m
      → p.payload ≡ none
      → p.payload_length ≡ 0
      → EndsBy (parse_ipv4 m 14 length p) length
  unfolding parse_ipv4
  parse_ipv4-EndsBy length p h e z =
      elim (Bool-cases (ltb (header_length m) 20 || ltb length (14 + total_length m))) [
        | inl bad ↦ rw bad (EndsBy-mark_valid _ {d = 0} (omega arith) (record { within = rw e z }))
        | inr good ↦
            rw (good, l4_length_sub (total_length m) (header_length m) h (swap_bytes16-lt _))
              (EndsBy-mark_valid _ (ground arith)
                (parse_l4-EndsBy 14 (14 + header_length m) _ _ e z))
      ]

  parse_frame-EndsBy :
      (length : ℕ) → header_length m ≤ total_length m → EndsBy (parse_frame m length) length
  unfolding parse_frame mark_valid
  parse_frame-EndsBy length h =
      let ip : EndsBy (parse_ipv4 m 14 length (ethernet_parsed (swap_bytes16 (load16 m 12))))
          length =
        parse_ipv4-EndsBy length _ h refl refl in
      record { within = ground (arith, ip.within) }

  -- Where the IPv4 total length covers the header, a payload that PktParsePacket reports lies in the
  -- frame: its end is at most Length. With no payload the payload length is 0.
  pub parse_packet_payload :
      (length : ℕ) (p q : ParsedPacket)
      → header_length m ≤ total_length m
      → parse_packet (some m) length (some p) ≡ (success, some q)
      → EndsBy q length
  unfolding parse_packet
  parse_packet_payload length p q h e = grind (arith, parse_frame-EndsBy length h)

l4_length_wraps : (t h : ℕ) → t < h → h ≤ 60 → l4_length t h ≡ 2 ^ 64 + t - h
unfolding l4_length
l4_length_wraps t h p q = omega arith

module _ (m : Bytes) (length : ℕ) (p : ParsedPacket) where
  -- The length check does not compare the IPv4 total length with the header length. Where it is the
  -- smaller, L4Length wraps: in a frame of any other protocol than TCP the parser reports a payload
  -- longer than the frame.
  pub parse_packet_wraps :
      swap_bytes16 (load16 m 12) ≡ 0x0800
      → 34 ≤ length
      → length < 2 ^ 32
      → 20 ≤ header_length m
      → total_length m < header_length m
      → 14 + total_length m ≤ length
      → m 23 ≢ 6
      → (q : ParsedPacket) × (parse_packet (some m) length (some p) ≡ (success, some q))
        × (length < q.payload_length)
  unfolding parse_packet
  parse_packet_wraps t l s h w f u =
      let wraps : l4_length (total_length m) (header_length m)
          ≡ 2 ^ 64 + total_length m - header_length m =
        l4_length_wraps _ _ w (omega arith) in
      (
        parse_frame m length,
        ground arith,
        unfold parse_frame parse_ipv4 parse_l4 parse_icmp parse_udp mark_valid in
            ground (arith, wraps),
      )
