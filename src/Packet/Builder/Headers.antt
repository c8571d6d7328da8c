-- ===== src/Packet/Builder/Headers.antt =====
-- The Ethernet and IPv4 headers that Source/PacketBuilder.c builds, as a receiver finds them.
use ddtsoft_net_test.Base.{
  ℕ, ◌+◌, ◌≤◌, ◌<◌, ◌≡◌, refl, arith, Bytes, copy_mem, store16, load16, swap_bytes16,
}
use ddtsoft_net_test.Packet.Checksum.{checksum}
use ddtsoft_net_test.Packet.Checksum.Sum.{checksum-lt}
use ddtsoft_net_test.Packet.Checksum.Patch.{Patched, checksum-Patched}
use ddtsoft_net_test.Packet.Builder.{
  build_ethernet_header, ipv4_unsummed, build_ipv4_header, ip_headers,
}

-- A value written high byte first into a field that was zero.
pub store16-Patched :
    (b : Bytes) (c v : ℕ)
    → b c ≡ 0
    → b (c + 1) ≡ 0
    → v < 65536
    → Patched b (store16 b c (swap_bytes16 v)) c v
unfolding store16 swap_bytes16
store16-Patched b c v h l s = record {
  high = h;
  low = l;
  small = s;
  field = ground arith;
  others = λ j p q. ground arith;
}

module _ (b : Bytes) (o : ℕ) (src dst : Bytes) (p l t : ℕ) where
  ipv4_field_zero :
      (ipv4_unsummed b o src dst p l t (o + 10) ≡ 0)
      × (ipv4_unsummed b o src dst p l t (o + 10 + 1) ≡ 0)
  unfolding ipv4_unsummed store16 copy_mem
  ipv4_field_zero = (ground arith, ground arith)

  -- The IPv4 header that PktBuildIpv4Header writes has checksum zero.
  pub ipv4_header_valid : checksum (build_ipv4_header b o src dst p l t).0 o 20 ≡ 0
  unfolding build_ipv4_header
  ipv4_header_valid =
      checksum-Patched 5 o 20
        (store16-Patched _ (o + 10) _ ipv4_field_zero.0 ipv4_field_zero.1 (checksum-lt _ o 20)) refl
        (omega arith) (omega arith) (omega arith)

-- What a receiver finds in the headers of an IPv4 frame with `l` bytes behind the IPv4 header.
pub record IsIpFrame (b : Bytes) (dst_mac src_mac src_ip dst_ip : Bytes) (p l : ℕ) : Type 0 where
  pub dst_mac_at : (k : ℕ) → k < 6 → b k ≡ dst_mac k
  pub src_mac_at : (k : ℕ) → k < 6 → b (6 + k) ≡ src_mac k
  pub ether_type : swap_bytes16 (load16 b 12) ≡ 0x0800
  pub version_ihl : b 14 ≡ 0x45
  pub total_length : swap_bytes16 (load16 b 16) ≡ 20 + l
  pub ttl : b 22 ≡ 64
  pub protocol : b 23 ≡ p
  pub src_ip_at : (k : ℕ) → k < 4 → b (26 + k) ≡ src_ip k
  pub dst_ip_at : (k : ℕ) → k < 4 → b (30 + k) ≡ dst_ip k
  pub header_valid : checksum b 14 20 ≡ 0

module _ (b sm dm si di : Bytes) (p l : ℕ) where
  -- The headers of a frame of protocol `p` with up to 65515 bytes behind them.
  pub ip_headers-IsIpFrame :
      p < 256 → l ≤ 65515 → IsIpFrame (ip_headers b sm dm si di p l).0 dm sm si di p l
  unfolding ip_headers build_ethernet_header
  ip_headers-IsIpFrame hp hl = record {
    dst_mac_at = λ k h. unfold build_ipv4_header ipv4_unsummed store16 copy_mem in ground arith;
    src_mac_at = λ k h. unfold build_ipv4_header ipv4_unsummed store16 copy_mem in ground arith;
    ether_type =
        unfold build_ipv4_header ipv4_unsummed store16 copy_mem load16 swap_bytes16 in omega arith;
    version_ihl = unfold build_ipv4_header ipv4_unsummed store16 copy_mem in refl;
    total_length =
        unfold build_ipv4_header ipv4_unsummed store16 copy_mem load16 swap_bytes16 in omega arith;
    ttl = unfold build_ipv4_header ipv4_unsummed store16 copy_mem in refl;
    protocol = unfold build_ipv4_header ipv4_unsummed store16 copy_mem in omega arith;
    src_ip_at = λ k h. unfold build_ipv4_header ipv4_unsummed store16 copy_mem in ground arith;
    dst_ip_at = λ k h. unfold build_ipv4_header ipv4_unsummed store16 copy_mem in ground arith;
    header_valid = ipv4_header_valid _ 14 si di p l 64;
  }
