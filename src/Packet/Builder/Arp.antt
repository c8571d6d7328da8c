-- ===== src/Packet/Builder/Arp.antt =====
-- The frames that PktBuildArpRequest and PktBuildArpReply build, as a receiver finds them.
use ddtsoft_net_test.Base.{
  ℕ, ◌+◌, ◌<◌, ◌≡◌, refl, arith, Bytes, copy_mem, zero_mem, store16, load16, swap_bytes16,
}
use ddtsoft_net_test.Packet.{ethernet_broadcast_mac}
use ddtsoft_net_test.Packet.Builder.{
  build_ethernet_header, arp_header, build_arp_request, build_arp_reply,
}

-- An Ethernet frame to `to` that holds an ARP message for IPv4 over Ethernet.
pub record IsArpFrame (f : Bytes) (to : Bytes) (operation : ℕ)
    (src_mac src_ip dst_mac dst_ip : Bytes) : Type 0 where
  pub to_at : (k : ℕ) → k < 6 → f k ≡ to k
  pub from_at : (k : ℕ) → k < 6 → f (6 + k) ≡ src_mac k
  pub ether_type : swap_bytes16 (load16 f 12) ≡ 0x0806
  pub hardware_type : swap_bytes16 (load16 f 14) ≡ 1
  pub protocol_type : swap_bytes16 (load16 f 16) ≡ 0x0800
  pub lengths : (f 18 ≡ 6) × (f 19 ≡ 4)
  pub operation_at : swap_bytes16 (load16 f 20) ≡ operation
  pub sender_mac_at : (k : ℕ) → k < 6 → f (22 + k) ≡ src_mac k
  pub sender_ip_at : (k : ℕ) → k < 4 → f (28 + k) ≡ src_ip k
  pub target_mac_at : (k : ℕ) → k < 6 → f (32 + k) ≡ dst_mac k
  pub target_ip_at : (k : ℕ) → k < 4 → f (38 + k) ≡ dst_ip k

module _ (b src_mac src_ip dst_mac dst_ip : Bytes) where
  pub arp_request_frame :
      IsArpFrame
        (build_arp_request b src_mac src_ip dst_ip).0
        ethernet_broadcast_mac
        1
        src_mac
        src_ip
        (λ k. 0)
        dst_ip
  unfolding build_arp_request build_ethernet_header arp_header store16 copy_mem zero_mem load16
  arp_request_frame = record {
    to_at = λ k h. ground arith;
    from_at = λ k h. ground arith;
    ether_type = unfold swap_bytes16 in refl;
    hardware_type = unfold swap_bytes16 in refl;
    protocol_type = unfold swap_bytes16 in refl;
    lengths = (refl, refl);
    operation_at = unfold swap_bytes16 in refl;
    sender_mac_at = λ k h. ground arith;
    sender_ip_at = λ k h. ground arith;
    target_mac_at = λ k h. ground arith;
    target_ip_at = λ k h. ground arith;
  }

  pub arp_reply_frame :
      IsArpFrame
        (build_arp_reply b src_mac src_ip dst_mac dst_ip).0
        dst_mac
        2
        src_mac
        src_ip
        dst_mac
        dst_ip
  unfolding build_arp_reply build_ethernet_header arp_header store16 copy_mem load16
  arp_reply_frame = record {
    to_at = λ k h. ground arith;
    from_at = λ k h. ground arith;
    ether_type = unfold swap_bytes16 in refl;
    hardware_type = unfold swap_bytes16 in refl;
    protocol_type = unfold swap_bytes16 in refl;
    lengths = (refl, refl);
    operation_at = unfold swap_bytes16 in refl;
    sender_mac_at = λ k h. ground arith;
    sender_ip_at = λ k h. ground arith;
    target_mac_at = λ k h. ground arith;
    target_ip_at = λ k h. ground arith;
  }
