-- ===== src/Companion/Frames.antt =====
-- The frames that CompanionReceiveResponse of Source/CompanionLink.c accepts.
use ddtsoft_net_test.Base.{
  ℕ, ◌+◌, ◌-◌, ◌*◌, ◌/◌, ◌%◌, ◌≤◌, ◌<◌, ◌≡◌, arith, ◌↔◌, ap, sym, ◌∙◌, some,
}
use ddtsoft_net_test.Companion.{Link, Reception, be16, inspect}

-- Where the UDP header starts.
abbrev pub udp_header : Reception → ℕ
udp_header r = r.header_size + r.rx_buf r.header_size % 16 * 4

-- A UDP datagram over IPv4 from the companion to the link's port, whose payload is the `n` bytes at
-- `o` and lies in the frame.
pub record IsMessage (link : Link) (r : Reception) (o n : ℕ) : Type 0 where
  pub ether_type : (r.rx_buf 12 ≡ 0x08) × (r.rx_buf 13 ≡ 0)
  pub version : r.rx_buf r.header_size / 16 ≡ 4
  pub protocol : r.rx_buf (r.header_size + 9) ≡ 17
  pub src_ip_0 : r.rx_buf (r.header_size + 12) ≡ link.companion_ip 0
  pub src_ip_1 : r.rx_buf (r.header_size + 12 + 1) ≡ link.companion_ip 1
  pub src_ip_2 : r.rx_buf (r.header_size + 12 + 2) ≡ link.companion_ip 2
  pub src_ip_3 : r.rx_buf (r.header_size + 12 + 3) ≡ link.companion_ip 3
  pub start : o ≡ udp_header r + 8
  pub dst_port : be16 r.rx_buf (udp_header r + 2) ≡ link.port
  pub udp_length : be16 r.rx_buf (udp_header r + 4) ≡ n + 8
  pub not_empty : 0 < n
  pub header : 14 ≤ r.header_size
  pub size : 42 ≤ r.buf_size
  pub fits : o + n ≤ r.buf_size

accepted-IsMessage :
    (link : Link) (r : Reception) (o n : ℕ)
    → r.buf_size ≤ 1600
    → (inspect link r).payload ≡ some (o, n)
    → IsMessage link r o n
unfolding inspect
accepted-IsMessage link r o n small h = record {
  ether_type = (ground (arith, h), ground (arith, h));
  version = ground (arith, h);
  protocol = ground (arith, h);
  src_ip_0 = ground (arith, h);
  src_ip_1 = ground (arith, h);
  src_ip_2 = ground (arith, h);
  src_ip_3 = ground (arith, h);
  start = ground (arith, h);
  dst_port = ground (arith, h);
  udp_length = ground (arith, h);
  not_empty = ground (arith, h);
  header = ground (arith, h);
  size = ground (arith, h);
  fits = ground (arith, h);
}

IsMessage-accepted :
    (link : Link) (r : Reception) (o n : ℕ)
    → IsMessage link r o n
    → (inspect link r).payload ≡ some (o, n)
unfolding inspect
IsMessage-accepted link r o n m =
    let (t, u) = m.ether_type in
    let length : (be16 r.rx_buf (udp_header r + 4) + 65536 - 8) % 65536 ≡ n =
      omega (arith, m.udp_length) in
    let read : (inspect link r).payload
        ≡ some (udp_header r + 8, (be16 r.rx_buf (udp_header r + 4) + 65536 - 8) % 65536) =
      ground (
        arith, t, u, m.dst_port, m.version, m.protocol, m.src_ip_0, m.src_ip_1, m.src_ip_2,
        m.src_ip_3, m.start, m.not_empty, m.header, m.size, m.fits, length,
      ) in
    read
    ∙ ap (λ (k : ℕ). some (udp_header r + 8, k)) length
    ∙ ap (λ (k : ℕ). some (k, n)) (sym m.start)

-- Of a frame of at most 1600 bytes, the receive buffer's size, CompanionReceiveResponse takes the
-- payload exactly when the frame is a message from the companion. Its UDP length then covers the UDP
-- header, though the code does not test it: a shorter one wraps to a payload that no such frame holds.
pub inspect_iff :
    (link : Link) (r : Reception) (o n : ℕ)
    → r.buf_size ≤ 1600
    → ((inspect link r).payload ≡ some (o, n)) ↔ IsMessage link r o n
inspect_iff link r o n small = (accepted-IsMessage link r o n small, IsMessage-accepted link r o n)
