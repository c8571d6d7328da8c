-- ===== src/Packet/Builder/Tcp.antt =====
-- The frame that PktBuildTcpPacket builds, as a receiver finds it.
use ddtsoft_net_test.Base.{
  ℕ, ◌+◌, ◌%◌, ◌^◌, ◌≤◌, ◌<◌, ◌≡◌, ◌∙◌, refl, arith, Option, Bytes, store8, store16, load16, load32,
  load16_ext, load32_ext, load_laws, load32_laws, swap_bytes16, swap_bytes32,
}
use ddtsoft_net_test.Packet.Checksum.{pseudo_checksum}
use ddtsoft_net_test.Packet.Checksum.Sum.{pseudo_checksum-lt}
use ddtsoft_net_test.Packet.Checksum.Patch.{Patched, pseudo_checksum-Patched}
use ddtsoft_net_test.Packet.Builder.{ip_headers, tcp_unsummed, build_tcp_packet}
use ddtsoft_net_test.Packet.Builder.Extent.{past, store16_past, ip_headers_size, ip_headers_past}
use ddtsoft_net_test.Packet.Builder.Headers.{IsIpFrame, ip_headers-IsIpFrame, store16-Patched}
use ddtsoft_net_test.Packet.Builder.Below.{
  copy_data_below, store16_below, load16-copy_data, load32-copy_data, l4_below, IsIpFrame-ext,
}
use ddtsoft_net_test.Packet.Builder.Data.{data_of, data_of_ext, copy_data_at}

-- What a caller asks of the header: ports, sequence numbers, flags and window.
pub record TcpArgs : Type 0 where
  pub src_port : ℕ
  pub dst_port : ℕ
  pub seq_num : ℕ
  pub ack_num : ℕ
  pub flags : ℕ
  pub window_size : ℕ

pub record IsInRange (a : TcpArgs) : Type 0 where
  pub src_port_fits : a.src_port < 65536
  pub dst_port_fits : a.dst_port < 65536
  pub seq_fits : a.seq_num < 2 ^ 32
  pub ack_fits : a.ack_num < 2 ^ 32
  pub flags_fit : a.flags < 256
  pub window_fits : a.window_size < 65536

-- The header fields of a segment at `o`; the data offset of 0x50 stands for 20 bytes.
pub record HasFields (b : Bytes) (o : ℕ) (a : TcpArgs) : Type 0 where
  pub src_port_at : swap_bytes16 (load16 b o) ≡ a.src_port
  pub dst_port_at : swap_bytes16 (load16 b (o + 2)) ≡ a.dst_port
  pub seq_at : swap_bytes32 (load32 b (o + 4)) ≡ a.seq_num
  pub ack_at : swap_bytes32 (load32 b (o + 8)) ≡ a.ack_num
  pub data_offset_at : b (o + 12) ≡ 0x50
  pub flags_at : b (o + 13) ≡ a.flags
  pub window_at : swap_bytes16 (load16 b (o + 14)) ≡ a.window_size

-- A segment of `n` data bytes at `o` between the two addresses, with its checksum right.
pub record IsSegment (b : Bytes) (o : ℕ) (src_ip dst_ip : Bytes) (a : TcpArgs) (src : Bytes) (n : ℕ)
    : Type 0 where
  pub fields : HasFields b o a
  pub data_at : (k : ℕ) → k < n → b (o + 20 + k) ≡ src k
  pub sum_valid : pseudo_checksum src_ip 0 dst_ip 0 6 (20 + n) b o (20 + n) ≡ 0

module _ (b : Bytes) (o : ℕ) (a : TcpArgs) (src : Option Bytes) (n : ℕ) where
  open a use {src_port, dst_port, seq_num, ack_num, flags, window_size}

  abbrev tcp_before : Bytes
  tcp_before = tcp_unsummed b o src_port dst_port seq_num ack_num flags window_size src n

  tcp_field_zero : (tcp_before (o + 16) ≡ 0) × (tcp_before (o + 16 + 1) ≡ 0)
  unfolding tcp_unsummed store16
  tcp_field_zero = (grind (arith, copy_data_below), grind (arith, copy_data_below))

  tcp_data : (k : ℕ) → k < n → tcp_before (o + 20 + k) ≡ data_of b (o + 20) src k
  unfolding tcp_unsummed
  tcp_data k h =
      copy_data_at _ (o + 20) src n k h ∙ data_of_ext _ b (o + 20) src k (grind (arith, past))

  module _ (r : IsInRange a) where
    tcp_src_port : swap_bytes16 (load16 tcp_before o) ≡ src_port
    unfolding tcp_unsummed
    tcp_src_port = grind (arith, load_laws, load16-copy_data)

    tcp_dst_port : swap_bytes16 (load16 tcp_before (o + 2)) ≡ dst_port
    unfolding tcp_unsummed
    tcp_dst_port = grind (arith, load_laws, load16-copy_data)

    tcp_window : swap_bytes16 (load16 tcp_before (o + 14)) ≡ window_size
    unfolding tcp_unsummed
    tcp_window = grind (arith, load_laws, load16-copy_data)

    tcp_seq : swap_bytes32 (load32 tcp_before (o + 4)) ≡ seq_num
    unfolding tcp_unsummed
    tcp_seq = grind (arith, load32_laws, load32-copy_data)

    tcp_ack : swap_bytes32 (load32 tcp_before (o + 8)) ≡ ack_num
    unfolding tcp_unsummed
    tcp_ack = grind (arith, load32_laws, load32-copy_data)

    tcp_bytes : (tcp_before (o + 12) ≡ 0x50) × (tcp_before (o + 13) ≡ flags)
    unfolding tcp_unsummed store8
    tcp_bytes = (
      grind (arith, copy_data_below, store16_below),
      grind (arith, copy_data_below, store16_below),
    )

    tcp-HasFields : (f : Bytes) → ((j : ℕ) → j < o + 16 → tcp_before j ≡ f j) → HasFields f o a
    tcp-HasFields f e = record {
      src_port_at = rw (← l16 o (omega arith)) tcp_src_port;
      dst_port_at = rw (← l16 (o + 2) (omega arith)) tcp_dst_port;
      seq_at = rw (← l32 (o + 4) (omega arith)) tcp_seq;
      ack_at = rw (← l32 (o + 8) (omega arith)) tcp_ack;
      data_offset_at = rw (← e (o + 12) (omega arith)) tcp_bytes.0;
      flags_at = rw (← e (o + 13) (omega arith)) tcp_bytes.1;
      window_at = rw (← l16 (o + 14) (omega arith)) tcp_window;
    }
      where
        l16 : (j : ℕ) → j < o + 15 → load16 tcp_before j ≡ load16 f j
        l16 j h = load16_ext _ f j (e j (omega arith)) (e (j + 1) (omega arith))

        l32 : (j : ℕ) → j < o + 13 → load32 tcp_before j ≡ load32 f j
        l32 j h = load32_ext _ f j (l16 j (omega arith)) (l16 (j + 2) (omega arith))

  module _ (si di : Bytes) where
    -- The checksum that the code computes, and the segment after it is written.
    abbrev tcp_sum : ℕ
    tcp_sum = pseudo_checksum si 0 di 0 6 (20 + n) tcp_before o (20 + n)

    abbrev tcp_final : Bytes
    tcp_final = store16 tcp_before (o + 16) (swap_bytes16 tcp_sum)

    tcp_field-Patched : Patched tcp_before tcp_final (o + 16) tcp_sum
    tcp_field-Patched =
        store16-Patched _ (o + 16) tcp_sum tcp_field_zero.0 tcp_field_zero.1
          (pseudo_checksum-lt si 0 di 0 6 (20 + n) _ o (20 + n))

    tcp-IsSegment :
        IsInRange a → n ≤ 65495 → IsSegment tcp_final o si di a (data_of b (o + 20) src) n
    tcp-IsSegment r h = record {
      fields =
          tcp-HasFields r tcp_final
            (λ j lt. tcp_field-Patched.others j (omega arith) (omega arith));
      data_at = λ k lt. grind (arith, store16_past, tcp_data k lt);
      sum_valid =
          pseudo_checksum-Patched 8 o (20 + n) si 0 di 0 6 (20 + n) tcp_field-Patched (omega arith)
            (omega arith) (omega arith) (omega arith) refl;
    }

-- The function's arguments as one record.
abbrev pub tcp_packet :
    Bytes → Bytes → Bytes → Bytes → Bytes → TcpArgs → Option Bytes → ℕ → Bytes × ℕ
tcp_packet b sm dm si di a src n =
    build_tcp_packet b sm dm si di a.src_port a.dst_port a.seq_num a.ack_num a.flags a.window_size
      src n

module _ (b sm dm si di : Bytes) (a : TcpArgs) (src : Option Bytes) (n : ℕ) where
  -- The TCP frame: its headers, and the segment at 34.
  pub tcp_frame :
      IsInRange a
      → n ≤ 65495
      → let f = (tcp_packet b sm dm si di a src n).0 in
        IsIpFrame f dm sm si di 6 (20 + n) × IsSegment f 34 si di a (data_of b 54 src) n
  unfolding build_tcp_packet
  tcp_frame r hn =
      let len : (20 + n) % 65536 ≡ 20 + n = omega arith in
      rw (len, ip_headers_size) (headers, moved)
    where
      h : Bytes
      h = (ip_headers b sm dm si di 6 (20 + n)).0

      f : Bytes
      f = tcp_final h 34 a src n si di

      headers : IsIpFrame f dm sm si di 6 (20 + n)
      headers =
          IsIpFrame-ext (λ j lt. grind (arith, l4_below))
            (ip_headers-IsIpFrame b sm dm si di 6 (20 + n) (omega arith) (omega arith))

      segment : IsSegment f 34 si di a (data_of h 54 src) n
      segment = tcp-IsSegment h 34 a src n si di r hn

      moved : IsSegment f 34 si di a (data_of b 54 src) n
      moved = record {
        fields = segment.fields;
        data_at = λ k lt.
            segment.data_at k lt
            ∙ data_of_ext h b 54 src k
                (ip_headers_past b (54 + k) sm dm si di 6 (20 + n) (omega arith));
        sum_valid = segment.sum_valid;
      }
