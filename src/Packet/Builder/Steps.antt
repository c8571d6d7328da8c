-- ===== src/Packet/Builder/Steps.antt =====
-- PktBuildIcmpEchoRequest with data, field by field, for code that builds such a frame itself.
use ddtsoft_net_test.Base.{
  ℕ, ◌+◌, ◌%◌, ◌<◌, ◌≡◌, refl, arith, true, some, ltb, Bytes, copy_mem, store8, store16,
  swap_bytes16,
}
use ddtsoft_net_test.Packet.{
  ethertype_ipv4, ip_proto_icmp, icmp_type_echo_request, icmp_header_size,
}
use ddtsoft_net_test.Packet.Checksum.{checksum}
use ddtsoft_net_test.Packet.Builder.{
  build_ethernet_header, build_ipv4_header, build_icmp_echo_request, ip_headers, icmp_unsummed,
  copy_data,
}

pub build_icmp_echo_request_steps :
    (buffer src_mac dst_mac src_ip dst_ip : Bytes) (x y : ℕ) (src : Bytes) (n : ℕ)
    → 0 < n
    → build_icmp_echo_request buffer src_mac dst_mac src_ip dst_ip x y (some src) n ≡ (
        let (tx, o) = build_ethernet_header buffer 0 dst_mac src_mac ethertype_ipv4 in
        let icmp_len = (icmp_header_size + n) % 65536 in
        let (tx, k) = build_ipv4_header tx o src_ip dst_ip ip_proto_icmp icmp_len 64 in
        let o = o + k in
        let tx = store8 tx o icmp_type_echo_request in
        let tx = store8 tx (o + 1) 0 in
        let tx = store16 tx (o + 2) 0 in
        let tx = store16 tx (o + 4) (swap_bytes16 x) in
        let tx = store16 tx (o + 6) (swap_bytes16 y) in
        let tx = copy_mem tx (o + icmp_header_size) src n in
        (store16 tx (o + 2) (swap_bytes16 (checksum tx o icmp_len)), o + icmp_len))
unfolding build_icmp_echo_request ip_headers icmp_unsummed copy_data
build_icmp_echo_request_steps buffer src_mac dst_mac src_ip dst_ip x y src n h =
    let some_data : ltb 0 n ≡ true = ground arith in rw some_data refl
