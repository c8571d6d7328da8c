-- ===== src/Layer3/Raw.antt =====
-- Source/Layer3Network.c: the ARP exchange, the ICMP exchange and the test for duplicate addresses over
-- raw frames. The driver, the clock and the exchange over the firmware's ARP protocol are parameters;
-- the driver's state is passed on. An address is the bytes behind its pointer.
pub mod Icmp
pub mod Duplicate
pub mod Exchanges
mod Examples
use ddtsoft_net_test.Base.{
  ℕ, zero, suc, ◌+◌, ◌-◌, ◌*◌, ◌%◌, ◌^◌, Bool, true, false, not, ◌&&◌, ◌||◌, Option, none, some,
  ltb, leb, ◌==◌, if◌then◌else◌, Bytes, copy_mem, zero_mem, store8, store16, load16, swap_bytes16,
  min,
}
use ddtsoft_net_test.Efi.{EfiStatus, success, not_ready, timeout, efi_error}
use ddtsoft_net_test.Efi.Polling.{Frames, poll}
use ddtsoft_net_test.Packet.{
  ethertype_ipv4, ethernet_header_size, ipv4_min_header_size, icmp_header_size, arp_header_size,
  ip_proto_icmp, icmp_type_echo_request, icmp_type_echo_reply, icmp_type_dest_unreach,
  icmp_type_time_exceeded, ipv4_hdr_len,
}
use ddtsoft_net_test.Packet.Builder.{build_arp_request, build_ethernet_header, build_ipv4_header}
use ddtsoft_net_test.Packet.Checksum.{checksum}
use ddtsoft_net_test.Packet.Replies.{arp_reply}
use ddtsoft_net_test.Runner.{Text, codes, TestResult, result_pass, result_fail, result_warn}
use ddtsoft_net_test.Stress.{sub64}
use ddtsoft_net_test.Utils.{Time, get_timestamp}

abbrev pub max_ethernet_frame_size : ℕ
max_ethernet_frame_size = 1518

abbrev pub l3_icmp_id : ℕ
l3_icmp_id = 0xdd30

-- ReceiveFilters, Transmit, Receive, Stall and GetTime; and L3ArpResolveViaProtocol, with our address
-- and the one to resolve.
pub record RawDriver (W : Type 0) : Type 0 where
  pub receive_filters : W → W
  pub transmit : Bytes → ℕ → W → EfiStatus × W
  pub receive : W → (EfiStatus × Bytes × ℕ) × W
  pub stall : ℕ → W → W
  pub get_time : W → (EfiStatus × Time) × W
  pub arp_via_protocol : Bytes → Bytes → W → (EfiStatus × Bytes) × W

-- The fields of NIC_INFO that are read. `snp_initialized` is `none` for a NULL Snp, or else tells
-- whether its state is EfiSimpleNetworkInitialized; `snp_address` is `Snp->Mode->CurrentAddress`.
pub record RawNic : Type 0 where
  pub has_arp : Bool
  pub has_ip_config : Bool
  pub ipv4_address : Bytes
  pub current_mac : Bytes
  pub snp_initialized : Option Bool
  pub snp_address : Bytes

-- `Nic->Snp != NULL && Nic->Snp->Mode->State == EfiSimpleNetworkInitialized`
pub snp_ready : RawNic → Bool
snp_ready nic = elim nic.snp_initialized [ some state ↦ state | none ↦ false ]

-- What a raw ICMP exchange gives: RttUs, ReplyType and ReplyCode.
pub record RawReply : Type 0 where
  pub rtt_us : ℕ
  pub reply_type : ℕ
  pub reply_code : ℕ

-- The payload that fits a frame.
pub fitting : ℕ → ℕ
fitting n =
    min n (max_ethernet_frame_size - ethernet_header_size - ipv4_min_header_size - icmp_header_size)

-- The frame that L3SendIcmpViaSnp builds and TxLen.
pub ping_frame : Bytes → Bytes → Bytes → Bytes → Bytes → ℕ → ℕ → ℕ → Bytes × ℕ
ping_frame tx_buf src_mac dst_mac src_ip dst_ip seq_num ttl n =
    let tx = zero_mem tx_buf 0 max_ethernet_frame_size in
    let (tx, o) = build_ethernet_header tx 0 dst_mac src_mac ethertype_ipv4 in
    let icmp_len = (icmp_header_size + n) % 65536 in
    let (tx, k) = build_ipv4_header tx o src_ip dst_ip ip_proto_icmp icmp_len ttl in
    let o = o + k in
    let tx = store8 tx o icmp_type_echo_request in
    let tx = store8 tx (o + 1) 0 in
    let tx = store16 tx (o + 2) 0 in
    let tx = store16 tx (o + 4) (swap_bytes16 l3_icmp_id) in
    let tx = store16 tx (o + 6) (swap_bytes16 seq_num) in
    let tx = copy_mem tx (o + icmp_header_size) (λ i. i % 256) n in
    (store16 tx (o + 2) (swap_bytes16 (checksum tx o icmp_len)), o + icmp_len)

-- The test of L3SendIcmpViaSnp for a received frame: ReplyType and ReplyCode of a reply or of an error
-- message.
pub icmp_reply : EfiStatus → Bytes → ℕ → Option (ℕ × ℕ)
icmp_reply status b len =
    let o = ethernet_header_size + ipv4_hdr_len (b ethernet_header_size) in
    let kind = b o in
    if (not (efi_error status)
        && leb (ethernet_header_size + ipv4_min_header_size + icmp_header_size) len)
      && ((swap_bytes16 (load16 b 12) == ethertype_ipv4)
          && (b (ethernet_header_size + 9) == ip_proto_icmp))
      && (((kind == icmp_type_echo_reply) && (swap_bytes16 (load16 b (o + 4)) == l3_icmp_id))
          || ((kind == icmp_type_time_exceeded) || (kind == icmp_type_dest_unreach)))
    then some (kind, b (o + 1))
    else none

-- `CompareMem (a, b, 6) == 0`
pub same6 : Bytes → Bytes → Bool
same6 a b =
    (a 0 == b 0)
    && ((a 1 == b 1) && ((a 2 == b 2) && ((a 3 == b 3) && ((a 4 == b 4) && (a 5 == b 5)))))

module _ {W : Type 0} (d : RawDriver W) where
  abbrev pub frames : Frames W
  frames = record { receive = d.receive; stall = d.stall }

  -- UtilGetTimestamp
  abbrev raw_now : W → ℕ × W
  raw_now w = (get_timestamp (d.get_time w).0, (d.get_time w).1)

  -- L3ArpResolveViaSnp; `tx_buf` is what the frame buffer holds at first. The address is read only on
  -- success.
  pub arp_resolve_via_snp : Bytes → RawNic → Bytes → Bytes → ℕ → W → (EfiStatus × Bytes) × W
  arp_resolve_via_snp tx_buf nic src_ip target_ip timeout_ms w =
      let (tx, len) = build_arp_request tx_buf nic.snp_address src_ip target_ip in
      let (status, w1) = d.transmit tx len (d.receive_filters w) in
      let (found, w2) = poll frames arp_reply timeout_ms w1 in
      if efi_error status
      then ((not_ready, λ i. 0), w1)
      else (elim found [ some mac ↦ ((success, mac), w2) | none ↦ ((timeout, λ i. 0), w2) ])

  -- The fallback of L3ResolveTargetMac.
  pub resolve_raw : Bytes → RawNic → Bytes → Bytes → ℕ → W → (EfiStatus × Bytes) × W
  resolve_raw tx_buf nic src_ip target_ip timeout_ms w =
      if snp_ready nic
      then arp_resolve_via_snp tx_buf nic src_ip target_ip timeout_ms w
      else ((not_ready, λ i. 0), w)

  -- L3ResolveTargetMac
  pub l3_resolve_target_mac : Bytes → RawNic → Bytes → Bytes → ℕ → W → (EfiStatus × Bytes) × W
  l3_resolve_target_mac tx_buf nic src_ip target_ip timeout_ms w =
      let ((status, mac), w1) = d.arp_via_protocol src_ip target_ip w in
      if not nic.has_arp
      then resolve_raw tx_buf nic src_ip target_ip timeout_ms w
      else if efi_error status
      then resolve_raw tx_buf nic src_ip target_ip timeout_ms w1
      else ((success, mac), w1)

  -- L3SendIcmpViaSnp, with the MAC addresses, the IP addresses, the sequence number, the TTL, the
  -- payload's size and the timeout. The reply is read only on success.
  pub send_icmp_via_snp :
      Bytes → Bytes → Bytes → Bytes → Bytes → ℕ → ℕ → ℕ → ℕ → W → (EfiStatus × RawReply) × W
  send_icmp_via_snp tx_buf src_mac dst_mac src_ip dst_ip seq_num ttl payload_size timeout_ms w =
      let (tx, len) =
        ping_frame tx_buf src_mac dst_mac src_ip dst_ip seq_num ttl (fitting payload_size) in
      let (start, w1) = raw_now (d.receive_filters w) in
      let (status, w2) = d.transmit tx len w1 in
      let (found, w3) = poll frames icmp_reply timeout_ms w2 in
      let nothing : RawReply = record { rtt_us = 0; reply_type = 0; reply_code = 0 } in
      if efi_error status then ((not_ready, nothing), w2) else (elim found [
        | some (kind, code) ↦
            let (now, w4) = raw_now w3 in
            let reply : RawReply = record {
              rtt_us = sub64 now start * 1000000 % 2 ^ 32;
              reply_type = kind;
              reply_code = code;
            } in
            ((success, reply), w4)
        | none ↦ ((timeout, nothing), w3)
      ])
