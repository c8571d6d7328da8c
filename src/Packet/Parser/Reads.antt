-- ===== src/Packet/Parser/Reads.antt =====
-- The bytes that PktParsePacket (Source/PacketParser.c) looks at.
use ddtsoft_net_test.Base.{
  ℕ, ◌+◌, ◌-◌, ◌%◌, ◌≤◌, ◌<◌, ◌≡◌, ◌∙◌, ◌*◌, ◌||◌, ap, arith, inl, inr, Bool-cases, ltb, some,
  Bytes, load16, load16_ext, swap_bytes16, swap_bytes16-lt,
}
use ddtsoft_net_test.Packet.Checksum.{word, checksum, pseudo_checksum}
use ddtsoft_net_test.Packet.Checksum.Sum.{
  checksum_ext, pseudo_checksum_ext, pseudo_checksum_data_ext,
}
use ddtsoft_net_test.Packet.Parser.{
  ParsedPacket, mark_valid, ethernet_parsed, validate_ip_checksum, validate_icmp_checksum,
  validate_tcp_checksum, validate_udp_checksum, parse_icmp, parse_tcp, parse_udp, parse_l4,
  parse_ipv4, parse_frame, parse_packet,
}
use ddtsoft_net_test.Packet.Parser.Headers.{l4_length_sub}
use ddtsoft_net_test.Packet.Parser.Bounds.{header_length, total_length}

-- Memories that agree below `e`.
pub record Agree (m m' : Bytes) (e : ℕ) : Type 0 where
  pub at : (j : ℕ) → j < e → m j ≡ m' j

module _ {m m' : Bytes} {e : ℕ} (a : Agree m m' e) where
  checksum_agree : (i n : ℕ) → i + n ≤ e → n ≤ 65536 → checksum m i n ≡ checksum m' i n
  checksum_agree i n h s = checksum_ext m m' i n s (λ j p q. a.at j (omega arith))

  load16_agree : (o : ℕ) → o + 2 ≤ e → load16 m o ≡ load16 m' o
  load16_agree o h = load16_ext m m' o (a.at o (omega arith)) (a.at (o + 1) (omega arith))

  word_agree : (o : ℕ) → o + 2 ≤ e → word m o ≡ word m' o
  word_agree o h = omega (arith, a.at o (omega arith), a.at (o + 1) (omega arith))

  pseudo_agree :
      (s d p l i n : ℕ)
      → s + 4 ≤ e
      → d + 4 ≤ e
      → i + n ≤ e
      → n ≤ 65536
      → l < 65536
      → pseudo_checksum m s m d p l m i n ≡ pseudo_checksum m' s m' d p l m' i n
  pseudo_agree s d p l i n hs hd hi hn hl =
      pseudo_checksum_ext m m' s s m m' d d p l m i n (word_agree s (omega arith))
        (word_agree (s + 2) (omega arith)) (word_agree d (omega arith))
        (word_agree (d + 2) (omega arith))
      ∙ pseudo_checksum_data_ext m' s m' d p l m m' i n hl hn (λ j p q. a.at j (omega arith))

  ip_checksum_agree :
      (ip : ℕ)
      → ip < e
      → ip + m ip % 16 * 4 ≤ e
      → validate_ip_checksum m ip ≡ validate_ip_checksum m' ip
  unfolding validate_ip_checksum
  ip_checksum_agree ip h f =
      ground (arith, a.at ip h, checksum_agree ip (m ip % 16 * 4) f (omega arith))

  module _ (ip o n : ℕ) (p : ParsedPacket) (hip : ip + 20 ≤ e) (fits : o + n ≤ e)
      (small : n < 65536) where
    parse_icmp_agree : parse_icmp m o n p ≡ parse_icmp m' o n p
    unfolding parse_icmp validate_icmp_checksum
    parse_icmp_agree = ground (arith, checksum_agree o n fits (omega arith))

    parse_tcp_agree : parse_tcp m ip o n p ≡ parse_tcp m' ip o n p
    unfolding parse_tcp validate_tcp_checksum
    parse_tcp_agree = ground (
      arith,
      a.at (o + 12),
      pseudo_agree (ip + 12) (ip + 16) 6 (n % 65536) o n (omega arith) (omega arith) fits
          (omega arith) (omega arith),
    )

    parse_udp_agree : parse_udp m ip o n p ≡ parse_udp m' ip o n p
    unfolding parse_udp validate_udp_checksum
    parse_udp_agree = ground (
      arith,
      load16_agree (o + 6),
      pseudo_agree (ip + 12) (ip + 16) 17 (n % 65536) o n (omega arith) (omega arith) fits
          (omega arith) (omega arith),
    )

    parse_l4_agree : parse_l4 m ip o n p ≡ parse_l4 m' ip o n p
    unfolding parse_l4
    parse_l4_agree =
        rw (a.at (ip + 9) (omega arith), parse_icmp_agree, parse_tcp_agree, parse_udp_agree)

module _ {m m' : Bytes} (length : ℕ) (a : Agree m m' length) (fits : 14 + header_length m ≤ length)
    (covers : header_length m ≤ total_length m) where
  parse_ipv4_agree :
      (p : ParsedPacket) → 34 ≤ length → parse_ipv4 m 14 length p ≡ parse_ipv4 m' 14 length p
  unfolding parse_ipv4
  parse_ipv4_agree p h =
      rw
        (
          ← a.at 14 (omega arith),
          ← load16_agree a 16 (omega arith),
          ← ip_checksum_agree a 14 (omega arith) fits,
          l4_length_sub (total_length m) (header_length m) covers (swap_bytes16-lt _),
        )
        (elim (Bool-cases (ltb (header_length m) 20 || ltb length (14 + total_length m))) [
          | inl bad ↦ rw bad
          | inr good ↦ rw good (
              ap mark_valid (
                parse_l4_agree a 14 (14 + header_length m) (total_length m - header_length m) _
                  (omega arith) (ground arith) (omega (arith, swap_bytes16-lt (load16 m 16)))))
        ])

  parse_frame_agree : 14 ≤ length → parse_frame m length ≡ parse_frame m' length
  unfolding parse_frame
  parse_frame_agree h =
      rw (← load16_agree a 12 (omega arith))
        (ground (arith, parse_ipv4_agree (ethernet_parsed (swap_bytes16 (load16 m 12)))))

  -- Two memories that agree on the first Length bytes are parsed alike, if the IPv4 header ends in the
  -- frame and the total length covers it: PktParsePacket looks at nothing behind the frame.
  pub parse_packet_reads :
      (p : ParsedPacket)
      → parse_packet (some m) length (some p) ≡ parse_packet (some m') length (some p)
  unfolding parse_packet
  parse_packet_reads p = ground (arith, parse_frame_agree)
