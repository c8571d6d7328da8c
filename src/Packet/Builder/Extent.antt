-- ===== src/Packet/Builder/Extent.antt =====
-- The extent of what the builders of Source/PacketBuilder.c write, and the sizes that they return.
use ddtsoft_net_test.Base.{
  ℕ, ◌+◌, ◌%◌, ◌≤◌, ◌≡◌, refl, arith, Option, none, some, Bytes, copy_mem, zero_mem, store8,
  store16, store32,
}
use ddtsoft_net_test.Packet.Builder.{
  build_ethernet_header, ipv4_unsummed, build_ipv4_header, arp_header, build_arp_request,
  build_arp_reply, copy_data, ip_headers, icmp_unsummed, build_icmp_echo_request, udp_unsummed,
  build_udp_packet, tcp_unsummed, zero_as_max, build_tcp_packet,
}

module _ (b : Bytes) (o i : ℕ) where
  pub copy_mem_past : (src : Bytes) (n : ℕ) → o + n ≤ i → copy_mem b o src n i ≡ b i
  unfolding copy_mem
  copy_mem_past src n h = ground arith

  pub zero_mem_past : (n : ℕ) → o + n ≤ i → zero_mem b o n i ≡ b i
  unfolding zero_mem
  zero_mem_past n h = ground arith

  pub store8_past : (v : ℕ) → o + 1 ≤ i → store8 b o v i ≡ b i
  unfolding store8
  store8_past v h = ground arith

  pub store16_past : (v : ℕ) → o + 2 ≤ i → store16 b o v i ≡ b i
  unfolding store16
  store16_past v h = ground arith

  pub store32_past : (v : ℕ) → o + 4 ≤ i → store32 b o v i ≡ b i
  unfolding store32
  store32_past v h = ground arith

  pub copy_data_past : (src : Option Bytes) (n : ℕ) → o + n ≤ i → copy_data b o src n i ≡ b i
  unfolding copy_data
  copy_data_past none n h = ground arith
  copy_data_past (some src) n h = ground (arith, copy_mem_past src n h)

pub ruleset past =
    (copy_mem_past, zero_mem_past, store8_past, store16_past, store32_past, copy_data_past)

ethernet_past :
    (b : Bytes) (o i : ℕ) (dst src : Bytes) (t : ℕ)
    → o + 14 ≤ i
    → (build_ethernet_header b o dst src t).0 i ≡ b i
unfolding build_ethernet_header
ethernet_past b o i dst src t h = grind (arith, past)

pub ethernet_size :
    (b : Bytes) (o : ℕ) (dst src : Bytes) (t : ℕ) → (build_ethernet_header b o dst src t).1 ≡ 14
unfolding build_ethernet_header
ethernet_size b o dst src t = refl

ipv4_unsummed_past :
    (b : Bytes) (o i : ℕ) (src dst : Bytes) (p l t : ℕ)
    → o + 20 ≤ i
    → ipv4_unsummed b o src dst p l t i ≡ b i
unfolding ipv4_unsummed
ipv4_unsummed_past b o i src dst p l t h = grind (arith, past)

ipv4_past :
    (b : Bytes) (o i : ℕ) (src dst : Bytes) (p l t : ℕ)
    → o + 20 ≤ i
    → (build_ipv4_header b o src dst p l t).0 i ≡ b i
unfolding build_ipv4_header
ipv4_past b o i src dst p l t h = grind (arith, past, ipv4_unsummed_past)

pub ipv4_size :
    (b : Bytes) (o : ℕ) (src dst : Bytes) (p l t : ℕ) → (build_ipv4_header b o src dst p l t).1 ≡ 20
unfolding build_ipv4_header
ipv4_size b o src dst p l t = refl

arp_past : (b : Bytes) (o i op : ℕ) (mac ip : Bytes) → o + 18 ≤ i → arp_header b o op mac ip i ≡ b i
unfolding arp_header
arp_past b o i op mac ip h = grind (arith, past)

pub ip_headers_size : (b sm dm si di : Bytes) (p l : ℕ) → (ip_headers b sm dm si di p l).1 ≡ 34
unfolding ip_headers
ip_headers_size b sm dm si di p l = omega (arith, ethernet_size b 0 dm sm 0x0800, ipv4_size)

pub ip_headers_past :
    (b : Bytes) (i : ℕ) (sm dm si di : Bytes) (p l : ℕ)
    → 34 ≤ i
    → (ip_headers b sm dm si di p l).0 i ≡ b i
unfolding ip_headers
ip_headers_past b i sm dm si di p l h = grind (arith, ethernet_past, ipv4_past, ethernet_size)

icmp_past :
    (b : Bytes) (o i d s : ℕ) (src : Option Bytes) (n : ℕ)
    → o + 8 + n ≤ i
    → icmp_unsummed b o d s src n i ≡ b i
unfolding icmp_unsummed
icmp_past b o i d s src n h = grind (arith, past)

udp_past :
    (b : Bytes) (o i sp dp l : ℕ) (src : Option Bytes) (n : ℕ)
    → o + 8 + n ≤ i
    → udp_unsummed b o sp dp l src n i ≡ b i
unfolding udp_unsummed
udp_past b o i sp dp l src n h = grind (arith, past)

tcp_past :
    (b : Bytes) (o i sp dp q a f w : ℕ) (src : Option Bytes) (n : ℕ)
    → o + 20 + n ≤ i
    → tcp_unsummed b o sp dp q a f w src n i ≡ b i
unfolding tcp_unsummed
tcp_past b o i sp dp q a f w src n h = grind (arith, past)

pub zero_as_max_past : (b : Bytes) (o i : ℕ) → o + 2 ≤ i → zero_as_max b o i ≡ b i
unfolding zero_as_max
zero_as_max_past b o i h = ground (arith, store16_past b o i 0xffff h)

ruleset frame_past = (
  past, ethernet_past, ethernet_size, arp_past, ip_headers_past, ip_headers_size, zero_as_max_past,
  icmp_past, udp_past, tcp_past,
)

-- Both ARP builders return 42 and write no byte at or behind offset 42.
pub arp_frames_extent :
    (b src_mac src_ip dst_mac dst_ip : Bytes) (i : ℕ)
    → 42 ≤ i
    → let (request, n) = build_arp_request b src_mac src_ip dst_ip in
      let (reply, k) = build_arp_reply b src_mac src_ip dst_mac dst_ip in
      (n ≡ 42) × (request i ≡ b i) × (k ≡ 42) × (reply i ≡ b i)
unfolding build_arp_request build_arp_reply
arp_frames_extent b sm si dm di i h = (
  omega (arith, ethernet_size),
  grind (arith, frame_past),
  omega (arith, ethernet_size),
  grind (arith, frame_past),
)

module _ (b src_mac dst_mac src_ip dst_ip : Bytes) (src : Option Bytes) (n : ℕ) where
  icmp_extent :
      (d s i : ℕ)
      → 42 + n ≤ i
      → (build_icmp_echo_request b src_mac dst_mac src_ip dst_ip d s src n).0 i ≡ b i
  unfolding build_icmp_echo_request
  icmp_extent d s i h = grind (arith, frame_past)

  udp_extent :
      (sp dp i : ℕ)
      → 42 + n ≤ i
      → (build_udp_packet b src_mac dst_mac src_ip dst_ip sp dp src n).0 i ≡ b i
  unfolding build_udp_packet
  udp_extent sp dp i h = grind (arith, frame_past)

  tcp_extent :
      (sp dp q a f w i : ℕ)
      → 54 + n ≤ i
      → (build_tcp_packet b src_mac dst_mac src_ip dst_ip sp dp q a f w src n).0 i ≡ b i
  unfolding build_tcp_packet
  tcp_extent sp dp q a f w i h = grind (arith, frame_past)

  icmp_size :
      (d s : ℕ)
      → (build_icmp_echo_request b src_mac dst_mac src_ip dst_ip d s src n).1 ≡ 34 + (8 + n) % 65536
  unfolding build_icmp_echo_request
  icmp_size d s = omega (arith, ip_headers_size)

  udp_size :
      (sp dp : ℕ)
      → (build_udp_packet b src_mac dst_mac src_ip dst_ip sp dp src n).1 ≡ 34 + (8 + n) % 65536
  unfolding build_udp_packet
  udp_size sp dp = omega (arith, ip_headers_size)

  tcp_size :
      (sp dp q a f w : ℕ)
      → (build_tcp_packet b src_mac dst_mac src_ip dst_ip sp dp q a f w src n).1
        ≡ 34 + (20 + n) % 65536
  unfolding build_tcp_packet
  tcp_size sp dp q a f w = omega (arith, ip_headers_size)

  -- With at most 65495 bytes of data the builders of ICMP echo, UDP and TCP frames return the sizes
  -- of the headers plus the data, and no byte at or behind the size they return is written.
  pub ip_frames_extent :
      (x y q a f w j : ℕ)
      → n ≤ 65495
      → let (icmp, ni) = build_icmp_echo_request b src_mac dst_mac src_ip dst_ip x y src n in
        let (udp, nu) = build_udp_packet b src_mac dst_mac src_ip dst_ip x y src n in
        let (tcp, nt) = build_tcp_packet b src_mac dst_mac src_ip dst_ip x y q a f w src n in
        (ni ≡ 42 + n)
        × (nu ≡ 42 + n)
        × (nt ≡ 54 + n)
        × (icmp (ni + j) ≡ b (ni + j))
        × (udp (nu + j) ≡ b (nu + j))
        × (tcp (nt + j) ≡ b (nt + j))
  ip_frames_extent x y q a f w j h = (
    omega (arith, icmp_size x y),
    omega (arith, udp_size x y),
    omega (arith, tcp_size x y q a f w),
    icmp_extent x y _ (omega (arith, icmp_size x y)),
    udp_extent x y _ (omega (arith, udp_size x y)),
    tcp_extent x y q a f w _ (omega (arith, tcp_size x y q a f w)),
  )
