-- ===== src/Packet/Builder/Udp.antt =====
-- The frame that PktBuildUdpPacket builds, as a receiver finds it.
use ddtsoft_net_test.Base.{
  ℕ, ◌+◌, ◌%◌, ◌≤◌, ◌<◌, ◌≡◌, ◌≢◌, ◌∙◌, sym, arith, inl, inr, true, false, Option, Bytes, store16,
  load16, swap_bytes16, ◌==◌, Bool-cases,
}
use ddtsoft_net_test.Base.{load16_ext}
use ddtsoft_net_test.Packet.Checksum.{pseudo_checksum}
use ddtsoft_net_test.Packet.Checksum.Sum.{pseudo_checksum-lt}
use ddtsoft_net_test.Packet.Checksum.Patch.{
  Patched, pseudo_checksum-Patched, pseudo_checksum-Patched_max,
}
use ddtsoft_net_test.Packet.Builder.{ip_headers, udp_unsummed, zero_as_max, build_udp_packet}
use ddtsoft_net_test.Packet.Builder.Extent.{
  past, store16_past, ip_headers_size, ip_headers_past, zero_as_max_past,
}
use ddtsoft_net_test.Packet.Builder.Headers.{IsIpFrame, ip_headers-IsIpFrame}
use ddtsoft_net_test.Packet.Builder.Below.{copy_data_below, l4_below, IsIpFrame-ext}
use ddtsoft_net_test.Packet.Builder.Data.{data_of, data_of_ext, copy_data_at}

-- A datagram of `n` data bytes at `o` between the two addresses. Its checksum is right, and it is
-- present: the field is not zero.
pub record IsDatagram (b : Bytes) (o : ℕ) (src_ip dst_ip : Bytes) (src_port dst_port : ℕ)
    (src : Bytes) (n : ℕ) : Type 0 where
  pub src_port_at : swap_bytes16 (load16 b o) ≡ src_port
  pub dst_port_at : swap_bytes16 (load16 b (o + 2)) ≡ dst_port
  pub length_at : swap_bytes16 (load16 b (o + 4)) ≡ 8 + n
  pub data_at : (k : ℕ) → k < n → b (o + 8 + k) ≡ src k
  pub sum_present : load16 b (o + 6) ≢ 0
  pub sum_valid : pseudo_checksum src_ip 0 dst_ip 0 17 (8 + n) b o (8 + n) ≡ 0

-- The field that the code writes for a checksum `c`.
abbrev sent : ℕ → ℕ
sent c = elim (c == 0) [ true ↦ 0xffff | false ↦ c ]

sent-Patched :
    (b : Bytes) (c v : ℕ)
    → b c ≡ 0
    → b (c + 1) ≡ 0
    → v < 65536
    → Patched b (zero_as_max (store16 b c (swap_bytes16 v)) c) c (sent v)
      × (load16 (zero_as_max (store16 b c (swap_bytes16 v)) c) c ≢ 0)
unfolding zero_as_max
sent-Patched b c v h l s = (
  record {
    high = h;
    low = l;
    small = ground arith;
    field = unfold store16 load16 swap_bytes16 in ground arith;
    others = λ j p q. unfold store16 load16 swap_bytes16 in ground arith;
  },
  unfold store16 load16 swap_bytes16 in ground arith,
)

module _ (b : Bytes) (o x y : ℕ) (src : Option Bytes) (n : ℕ) where
  udp_field_zero :
      (l : ℕ)
      → (udp_unsummed b o x y l src n (o + 6) ≡ 0) × (udp_unsummed b o x y l src n (o + 6 + 1) ≡ 0)
  unfolding udp_unsummed store16
  udp_field_zero l = (grind (arith, copy_data_below), grind (arith, copy_data_below))

  udp_data : (l k : ℕ) → k < n → udp_unsummed b o x y l src n (o + 8 + k) ≡ data_of b (o + 8) src k
  unfolding udp_unsummed
  udp_data l k h =
      copy_data_at _ (o + 8) src n k h ∙ data_of_ext _ b (o + 8) src k (grind (arith, past))

  udp_fields :
      (l : ℕ)
      → x < 65536
      → y < 65536
      → l < 65536
      → let u = udp_unsummed b o x y l src n in
        (swap_bytes16 (load16 u o) ≡ x)
        × (swap_bytes16 (load16 u (o + 2)) ≡ y)
        × (swap_bytes16 (load16 u (o + 4)) ≡ l)
  unfolding udp_unsummed store16 load16 swap_bytes16
  udp_fields l hx hy hl = (
    grind (arith, copy_data_below),
    grind (arith, copy_data_below),
    grind (arith, copy_data_below),
  )

  module _ (si di : Bytes) where
    -- The checksum that the code computes, and the datagram after it is written.
    abbrev udp_sum : ℕ
    udp_sum = pseudo_checksum si 0 di 0 17 (8 + n) (udp_unsummed b o x y (8 + n) src n) o (8 + n)

    abbrev udp_final : Bytes
    udp_final =
        zero_as_max (store16 (udp_unsummed b o x y (8 + n) src n) (o + 6) (swap_bytes16 udp_sum))
          (o + 6)

    udp_field-Patched :
        Patched (udp_unsummed b o x y (8 + n) src n) udp_final (o + 6) (sent udp_sum)
        × (load16 udp_final (o + 6) ≢ 0)
    udp_field-Patched =
        sent-Patched _ (o + 6) udp_sum (udp_field_zero (8 + n)).0 (udp_field_zero (8 + n)).1
          (pseudo_checksum-lt si 0 di 0 17 (8 + n) _ o (8 + n))

    udp_sum_valid : n ≤ 65507 → pseudo_checksum si 0 di 0 17 (8 + n) udp_final o (8 + n) ≡ 0
    udp_sum_valid h = elim (Bool-cases (udp_sum == 0)) [
      | inl e ↦
          pseudo_checksum-Patched_max 3 o (8 + n) si 0 di 0 17 (8 + n) udp_field-Patched.0
            (omega arith) (omega arith) (omega arith) (omega arith) (ground arith) (ground arith)
      | inr e ↦
          pseudo_checksum-Patched 3 o (8 + n) si 0 di 0 17 (8 + n) udp_field-Patched.0 (omega arith)
            (omega arith) (omega arith) (omega arith) (ground arith)
    ]

    udp-IsDatagram :
        x < 65536
        → y < 65536
        → n ≤ 65507
        → IsDatagram udp_final o si di x y (data_of b (o + 8) src) n
    udp-IsDatagram hx hy h = record {
      src_port_at = rw (same o (omega arith)) (udp_fields (8 + n) hx hy (omega arith)).0;
      dst_port_at = rw (same (o + 2) (omega arith)) (udp_fields (8 + n) hx hy (omega arith)).1;
      length_at = rw (same (o + 4) (omega arith)) (udp_fields (8 + n) hx hy (omega arith)).2;
      data_at = λ k lt. grind (arith, store16_past, zero_as_max_past, udp_data (8 + n) k lt);
      sum_present = udp_field-Patched.1;
      sum_valid = udp_sum_valid h;
    }
      where
        same :
            (j : ℕ) → j < o + 5 → load16 udp_final j ≡ load16 (udp_unsummed b o x y (8 + n) src n) j
        same j lt =
            load16_ext _ _ j (sym (udp_field-Patched.0.others j (omega arith) (omega arith)))
              (sym (udp_field-Patched.0.others (j + 1) (omega arith) (omega arith)))

module _ (b sm dm si di : Bytes) (x y : ℕ) (src : Option Bytes) (n : ℕ) where
  -- The UDP frame: its headers, and the datagram at 34.
  pub udp_frame :
      x < 65536
      → y < 65536
      → n ≤ 65507
      → let f = (build_udp_packet b sm dm si di x y src n).0 in
        IsIpFrame f dm sm si di 17 (8 + n) × IsDatagram f 34 si di x y (data_of b 42 src) n
  unfolding build_udp_packet
  udp_frame hx hy hn =
      let len : (8 + n) % 65536 ≡ 8 + n = omega arith in
      rw (len, ip_headers_size) (headers, segment)
    where
      h : Bytes
      h = (ip_headers b sm dm si di 17 (8 + n)).0

      f : Bytes
      f = udp_final h 34 x y src n si di

      headers : IsIpFrame f dm sm si di 17 (8 + n)
      headers =
          IsIpFrame-ext (λ j lt. grind (arith, l4_below))
            (ip_headers-IsIpFrame b sm dm si di 17 (8 + n) (omega arith) (omega arith))

      datagram : IsDatagram f 34 si di x y (data_of h 42 src) n
      datagram = udp-IsDatagram h 34 x y src n si di hx hy hn

      segment : IsDatagram f 34 si di x y (data_of b 42 src) n
      segment = record {
        src_port_at = datagram.src_port_at;
        dst_port_at = datagram.dst_port_at;
        length_at = datagram.length_at;
        data_at = λ k lt.
            datagram.data_at k lt
            ∙ data_of_ext h b 42 src k
                (ip_headers_past b (42 + k) sm dm si di 17 (8 + n) (omega arith));
        sum_present = datagram.sum_present;
        sum_valid = datagram.sum_valid;
      }
