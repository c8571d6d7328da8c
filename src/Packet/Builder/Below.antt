-- ===== src/Packet/Builder/Below.antt =====
-- The bytes in front of the L4 part of a frame that Source/PacketBuilder.c builds.
use ddtsoft_net_test.Base.{
  ℕ, ◌+◌, ◌≤◌, ◌<◌, ◌≡◌, arith, Option, none, some, Bytes, copy_mem, store8, store16, store32,
  load16, load32, load16_ext, load32_ext,
}
use ddtsoft_net_test.Packet.Checksum.Sum.{checksum_ext}
use ddtsoft_net_test.Packet.Builder.{
  copy_data, icmp_unsummed, udp_unsummed, zero_as_max, tcp_unsummed,
}
use ddtsoft_net_test.Packet.Builder.Headers.{IsIpFrame}

module _ (b : Bytes) (o i : ℕ) where
  pub copy_mem_below : (src : Bytes) (n : ℕ) → i < o → copy_mem b o src n i ≡ b i
  unfolding copy_mem
  copy_mem_below src n h = ground arith

  pub store8_below : (v : ℕ) → i < o → store8 b o v i ≡ b i
  unfolding store8
  store8_below v h = ground arith

  pub store16_below : (v : ℕ) → i < o → store16 b o v i ≡ b i
  unfolding store16
  store16_below v h = ground arith

  pub store32_below : (v : ℕ) → i < o → store32 b o v i ≡ b i
  unfolding store32
  store32_below v h = ground arith

  pub copy_data_below : (src : Option Bytes) (n : ℕ) → i < o → copy_data b o src n i ≡ b i
  unfolding copy_data
  copy_data_below none n h = ground arith
  copy_data_below (some src) n h = ground (arith, copy_mem_below src n h)

pub load16-copy_data :
    (b : Bytes) (o p : ℕ) (src : Option Bytes) (n : ℕ)
    → p + 2 ≤ o
    → load16 (copy_data b o src n) p ≡ load16 b p
load16-copy_data b o p src n h =
    load16_ext _ b p (copy_data_below b o p src n (omega arith))
      (copy_data_below b o (p + 1) src n (omega arith))

pub load32-copy_data :
    (b : Bytes) (o p : ℕ) (src : Option Bytes) (n : ℕ)
    → p + 4 ≤ o
    → load32 (copy_data b o src n) p ≡ load32 b p
load32-copy_data b o p src n h =
    load32_ext _ b p (load16-copy_data b o p src n (omega arith))
      (load16-copy_data b o (p + 2) src n (omega arith))

ruleset below = (copy_mem_below, store8_below, store16_below, store32_below, copy_data_below)

module _ (b : Bytes) (o i : ℕ) (h : i < o) where
  pub icmp_below : (d s : ℕ) (src : Option Bytes) (n : ℕ) → icmp_unsummed b o d s src n i ≡ b i
  unfolding icmp_unsummed
  icmp_below d s src n = grind (arith, below)

  pub udp_below :
      (sp dp l : ℕ) (src : Option Bytes) (n : ℕ) → udp_unsummed b o sp dp l src n i ≡ b i
  unfolding udp_unsummed
  udp_below sp dp l src n = grind (arith, below)

  pub tcp_below :
      (sp dp q a f w : ℕ) (src : Option Bytes) (n : ℕ)
      → tcp_unsummed b o sp dp q a f w src n i ≡ b i
  unfolding tcp_unsummed
  tcp_below sp dp q a f w src n = grind (arith, below)

  pub zero_as_max_below : zero_as_max b o i ≡ b i
  unfolding zero_as_max
  zero_as_max_below = ground (arith, store16_below b o i 0xffff h)

pub ruleset l4_below = (store16_below, icmp_below, udp_below, tcp_below, zero_as_max_below)

-- Bytes that agree below offset 34 carry the same headers.
pub IsIpFrame-ext :
    {b b' dm sm si di : Bytes} {p l : ℕ}
    → ((j : ℕ) → j < 34 → b' j ≡ b j)
    → IsIpFrame b dm sm si di p l
    → IsIpFrame b' dm sm si di p l
unfolding load16
IsIpFrame-ext {b} {b'} e f = record {
  dst_mac_at = λ k h. rw (e k (omega arith)) (f.dst_mac_at k h);
  src_mac_at = λ k h. rw (e (6 + k) (omega arith)) (f.src_mac_at k h);
  ether_type = ground (arith, e 12, e 13, f.ether_type);
  version_ihl = ground (arith, e 14, f.version_ihl);
  total_length = ground (arith, e 16, e 17, f.total_length);
  ttl = ground (arith, e 22, f.ttl);
  protocol = ground (arith, e 23, f.protocol);
  src_ip_at = λ k h. rw (e (26 + k) (omega arith)) (f.src_ip_at k h);
  dst_ip_at = λ k h. rw (e (30 + k) (omega arith)) (f.dst_ip_at k h);
  header_valid =
      rw (checksum_ext b' b 14 20 (omega arith) (λ j p q. e j (omega arith))) f.header_valid;
}
