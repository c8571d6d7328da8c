-- ===== src/Layer3/Raw/Examples.antt =====
-- The raw exchanges of Layer3Network.c with a driver that hands out an ARP reply in its third round.
use ddtsoft_net_test.Base.{
  ℕ, ◌+◌, ◌%◌, ◌≡◌, ◌⊎◌, refl, arith, true, false, some, ltb, if◌then◌else◌, [], Bytes, zero_mem,
  load16, swap_bytes16,
}
use ddtsoft_net_test.Efi.{success, timeout, not_ready, efi_error}
use ddtsoft_net_test.Efi.Polling.{First, after, silent, poll}
use ddtsoft_net_test.Packet.Builder.{build_icmp_echo_request}
use ddtsoft_net_test.Packet.Replies.{arp_reply}
use ddtsoft_net_test.Layer3.Raw.{
  RawDriver, RawNic, snp_ready, fitting, ping_frame, icmp_reply, same6, frames, arp_resolve_via_snp,
  resolve_raw, l3_resolve_target_mac, send_icmp_via_snp, l3_icmp_id,
}
use ddtsoft_net_test.Layer3.Raw.Icmp.{
  ping_frame_eq, request_sent, reply_of, nothing, send_icmp_via_snp_lem,
}
use ddtsoft_net_test.Layer3.Raw.Duplicate.{DuplicatePrinter}

abbrev arp_frame : Bytes
arp_frame i = if ltb i 13 then 8 else if ltb i 20 then 6 else if ltb i 21 then 0 else 2

abbrev driver : RawDriver ℕ
driver = record {
  receive_filters = λ w. w;
  transmit = λ b n w. (success, w);
  receive = λ w. ((if ltb w 2 then not_ready else success, arp_frame, 42), w);
  stall = λ t w. w + 1;
  get_time = λ w. ((success, record { hour = 0; minute = 0; second = w }), w);
  arp_via_protocol = λ a b w. ((timeout, λ i. 0), w);
}

abbrev nic : RawNic
nic = record {
  has_arp = false;
  has_ip_config = false;
  ipv4_address = λ i. 10;
  current_mac = λ i. 3;
  snp_initialized = some true;
  snp_address = λ i. 3;
}

abbrev printer : DuplicatePrinter
printer = record {
  claimed = λ a m. [];
  claimed_by = λ m. [];
  unclaimed = λ a. [];
  unanswered = λ a. [];
  not_sent = λ s. [];
}

third_round : (arp_resolve_via_snp driver (λ i. 0) nic (λ i. 10) (λ i. 2) 5 0).0.0 ≡ success
unfolding arp_resolve_via_snp poll arp_reply load16 swap_bytes16
third_round = refl

fallback : (l3_resolve_target_mac driver (λ i. 0) nic (λ i. 10) (λ i. 2) 1 0).0.0 ≡ timeout
unfolding l3_resolve_target_mac resolve_raw snp_ready arp_resolve_via_snp poll arp_reply
fallback = refl

sizes : (fitting 1200 ≡ 1200) × (fitting 1477 ≡ 1476)
unfolding fitting
sizes = (refl, refl)

addresses : (same6 (λ i. 3) (λ i. 3) ≡ true) × (same6 (λ i. 3) (λ i. i) ≡ false)
unfolding same6
addresses = (refl, refl)

ping_frame_eq_example :
    ping_frame (λ i. 9) (λ i. 2) (λ i. 3) (λ i. 10) (λ i. 11) 5 64 32
    ≡ build_icmp_echo_request
        (zero_mem (λ i. 9) 0 1518)
        (λ i. 2)
        (λ i. 3)
        (λ i. 10)
        (λ i. 11)
        l3_icmp_id
        5
        (some (λ i. i % 256))
        32
ping_frame_eq_example =
    ping_frame_eq (λ i. 9) (λ i. 2) (λ i. 3) (λ i. 10) (λ i. 11) 5 32 (omega arith)

send_icmp_via_snp_lem_example :
    let result =
      send_icmp_via_snp driver (λ i. 0) (λ i. 2) (λ i. 3) (λ i. 10) (λ i. 11) 5 64 32 3 0 in
    let sent = request_sent driver (λ i. 0) (λ i. 2) (λ i. 3) (λ i. 10) (λ i. 11) 5 64 32 3 0 in
    ((efi_error sent.0 ≡ true)
      × (result ≡ (
        (not_ready, nothing driver (λ i. 0) (λ i. 2) (λ i. 3) (λ i. 10) (λ i. 11) 5 64 32 3 0),
        sent.1,
      )))
    ⊎ ((efi_error sent.0 ≡ false)
        × (silent (frames driver) icmp_reply 3 sent.1 ≡ true)
        × (result ≡ (
          (timeout, nothing driver (λ i. 0) (λ i. 2) (λ i. 3) (λ i. 10) (λ i. 11) 5 64 32 3 0),
          after (frames driver) icmp_reply 3 sent.1,
        )))
    ⊎ ((efi_error sent.0 ≡ false)
        × (k kind code : ℕ) × First (frames driver) icmp_reply 3 sent.1 k (kind, code)
        × ((kind ≡ 0) ⊎ (kind ≡ 3) ⊎ (kind ≡ 11))
        × (result
            ≡ reply_of driver
                (λ i. 0)
                (λ i. 2)
                (λ i. 3)
                (λ i. 10)
                (λ i. 11)
                5
                64
                32
                3
                0
                kind
                code
                (driver.receive (after (frames driver) icmp_reply k sent.1)).1))
send_icmp_via_snp_lem_example =
    send_icmp_via_snp_lem driver (λ i. 0) (λ i. 2) (λ i. 3) (λ i. 10) (λ i. 11) 5 64 32 3 0
