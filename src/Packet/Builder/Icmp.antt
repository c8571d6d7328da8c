-- ===== src/Packet/Builder/Icmp.antt =====
-- The frame that PktBuildIcmpEchoRequest builds, as a receiver finds it.
use ddtsoft_net_test.Base.{
  ℕ, ◌+◌, ◌%◌, ◌≤◌, ◌<◌, ◌≡◌, ◌∙◌, refl, arith, Option, Bytes, store16, load16, swap_bytes16,
}
use ddtsoft_net_test.Packet.Checksum.{checksum}
use ddtsoft_net_test.Packet.Checksum.Sum.{checksum-lt}
use ddtsoft_net_test.Packet.Checksum.Patch.{checksum-Patched}
use ddtsoft_net_test.Packet.Builder.{ip_headers, icmp_unsummed, build_icmp_echo_request}
use ddtsoft_net_test.Packet.Builder.Extent.{past, ip_headers_size, ip_headers_past}
use ddtsoft_net_test.Packet.Builder.Headers.{IsIpFrame, ip_headers-IsIpFrame, store16-Patched}
use ddtsoft_net_test.Packet.Builder.Below.{copy_data_below, l4_below, IsIpFrame-ext}
use ddtsoft_net_test.Packet.Builder.Data.{data_of, data_of_ext, copy_data_at}

-- An echo request of `n` data bytes at `o`, with its checksum right.
pub record IsEcho (b : Bytes) (o identifier sequence_number : ℕ) (src : Bytes) (n : ℕ)
    : Type 0 where
  pub type_at : b o ≡ 8
  pub code_at : b (o + 1) ≡ 0
  pub identifier_at : swap_bytes16 (load16 b (o + 4)) ≡ identifier
  pub sequence_at : swap_bytes16 (load16 b (o + 6)) ≡ sequence_number
  pub data_at : (k : ℕ) → k < n → b (o + 8 + k) ≡ src k
  pub sum_valid : checksum b o (8 + n) ≡ 0

module _ (b : Bytes) (o x y : ℕ) (src : Option Bytes) (n : ℕ) where
  icmp_field_zero :
      (icmp_unsummed b o x y src n (o + 2) ≡ 0) × (icmp_unsummed b o x y src n (o + 2 + 1) ≡ 0)
  unfolding icmp_unsummed store16
  icmp_field_zero = (grind (arith, copy_data_below), grind (arith, copy_data_below))

  icmp_data : (k : ℕ) → k < n → icmp_unsummed b o x y src n (o + 8 + k) ≡ data_of b (o + 8) src k
  unfolding icmp_unsummed
  icmp_data k h =
      copy_data_at _ (o + 8) src n k h ∙ data_of_ext _ b (o + 8) src k (grind (arith, past))

  icmp_sum_valid :
      n ≤ 65528
      → let u = icmp_unsummed b o x y src n in
        checksum (store16 u (o + 2) (swap_bytes16 (checksum u o (8 + n)))) o (8 + n) ≡ 0
  icmp_sum_valid h =
      checksum-Patched 1 o (8 + n)
        (store16-Patched _ (o + 2) _ icmp_field_zero.0 icmp_field_zero.1 (checksum-lt _ o (8 + n)))
        refl (omega arith) (omega arith) (omega arith)

  icmp-IsEcho :
      (c : ℕ)
      → x < 65536
      → y < 65536
      → checksum (store16 (icmp_unsummed b o x y src n) (o + 2) c) o (8 + n) ≡ 0
      → IsEcho (store16 (icmp_unsummed b o x y src n) (o + 2) c) o x y (data_of b (o + 8) src) n
  icmp-IsEcho c hx hy h = record {
    type_at = unfold icmp_unsummed store16 in grind (arith, copy_data_below);
    code_at = unfold icmp_unsummed store16 in grind (arith, copy_data_below);
    identifier_at =
        unfold icmp_unsummed store16 load16 swap_bytes16 in grind (arith, copy_data_below);
    sequence_at =
        unfold icmp_unsummed store16 load16 swap_bytes16 in grind (arith, copy_data_below);
    data_at = λ k lt. grind (arith, past, icmp_data k lt);
    sum_valid = h;
  }

module _ (b sm dm si di : Bytes) (x y : ℕ) (src : Option Bytes) (n : ℕ) where
  -- The echo request frame: its headers, and the ICMP message at 34.
  pub icmp_frame :
      x < 65536
      → y < 65536
      → n ≤ 65507
      → let f = (build_icmp_echo_request b sm dm si di x y src n).0 in
        IsIpFrame f dm sm si di 1 (8 + n) × IsEcho f 34 x y (data_of b 42 src) n
  unfolding build_icmp_echo_request
  icmp_frame hx hy hn =
      let len : (8 + n) % 65536 ≡ 8 + n = omega arith in
      rw (len, ip_headers_size) (headers, segment)
    where
      h : Bytes
      h = (ip_headers b sm dm si di 1 (8 + n)).0

      u : Bytes
      u = icmp_unsummed h 34 x y src n

      f : Bytes
      f = store16 u 36 (swap_bytes16 (checksum u 34 (8 + n)))

      headers : IsIpFrame f dm sm si di 1 (8 + n)
      headers =
          IsIpFrame-ext (λ j lt. grind (arith, l4_below))
            (ip_headers-IsIpFrame b sm dm si di 1 (8 + n) (omega arith) (omega arith))

      echo : IsEcho f 34 x y (data_of h 42 src) n
      echo = icmp-IsEcho h 34 x y src n _ hx hy (icmp_sum_valid h 34 x y src n (omega arith))

      segment : IsEcho f 34 x y (data_of b 42 src) n
      segment = record {
        type_at = echo.type_at;
        code_at = echo.code_at;
        identifier_at = echo.identifier_at;
        sequence_at = echo.sequence_at;
        data_at = λ k lt.
            echo.data_at k lt
            ∙ data_of_ext h b 42 src k
                (ip_headers_past b (42 + k) sm dm si di 1 (8 + n) (omega arith));
        sum_valid = echo.sum_valid;
      }
