-- ===== src/Probe/Examples.antt =====
-- The probes of Source/ProtocolProbe.c on small networks.
use ddtsoft_net_test.Base.{
  ℕ, ◌+◌, ◌%◌, ◌^◌, ◌≡◌, ◌≢◌, ◌⊎◌, refl, arith, true, false, none, some, [], ◌∷◌, ltb,
  if◌then◌else◌, Bytes, load16, swap_bytes16,
}
use ddtsoft_net_test.Efi.{success, not_ready, timeout, device_error, efi_error}
use ddtsoft_net_test.Efi.Polling.{First, after, silent, poll}
use ddtsoft_net_test.Packet.Replies.{arp_reply}
use ddtsoft_net_test.Runner.{codes}
use ddtsoft_net_test.Probe.{
  ProbeProtocol, ProbeNic, Exchange, init_probe, record_result, record_pass, hex_digit,
  build_payload, is_echo, has_snp, get_name, is_available, verdict, arp_loop, arp_via_snp,
  probe_arp_once, dispatch, execute_once, probe_max,
}
use ddtsoft_net_test.Utils.{get_timestamp}
use ddtsoft_net_test.Probe.Samples.{Recorded, record_results}
use ddtsoft_net_test.Probe.Payload.{build_payload_lem, decimal_at, hex_at}
use ddtsoft_net_test.Probe.Replies.{frames, reply_at, started, request_sent, arp_via_snp_lem}
use ddtsoft_net_test.Probe.Once.{outcomes, execute_all, execute_once_lem}

abbrev arp_frame : Bytes
arp_frame i = if ltb i 13 then 8 else if ltb i 20 then 6 else if ltb i 21 then 0 else 2

-- The state counts the rounds, and an ARP reply arrives in the third one. Every third ICMP exchange
-- is answered, after a time of 40.
abbrev lively : Exchange ℕ
lively = record {
  receive_filters = λ w. w;
  transmit = λ b n w. (success, w);
  receive = λ w. ((if ltb w 2 then not_ready else success, arp_frame, 42), w);
  stall = λ t w. w + 1;
  get_time = λ w. ((success, record { hour = 0; minute = 0; second = w }), w);
  arp_via_protocol = λ ip w. ((timeout, 0), w);
  icmp_via_ip4 = λ ip n w. ((if ltb (w % 3) 2 then timeout else success, 40), w + 1);
  udp_echo = λ ip n w. ((device_error, 0), w);
  tcp_echo = λ ip n w. ((timeout, 0), w);
}

abbrev nic : ProbeNic
nic = record {
  has_arp = true;
  has_ip4 = true;
  has_udp4 = false;
  has_tcp4 = true;
  snp_initialized = some true;
  current_address = λ i. 2;
  ipv4_address = λ i. 10;
}

three_results :
    ((record_results
        ((1, 7) ∷ (3, 0) ∷ (1, 5) ∷ [])
        (init_probe ProbeProtocol.probe_udp)).rtt_avg_us
      ≡ 6)
    × ((record_result (init_probe ProbeProtocol.probe_udp) 2 0).lost ≡ 1)
unfolding record_result record_pass init_probe
three_results = (refl, refl)

digits : (hex_digit 9 ≡ 57) × (hex_digit 10 ≡ 65)
unfolding hex_digit
digits = (refl, refl)

names : (get_name ProbeProtocol.probe_tcp ≡ codes "TCP") × (has_snp nic ≡ true)
unfolding get_name has_snp
names = (refl, refl)

reply_frame :
    (arp_reply success arp_frame 42 ≡ some (λ i. arp_frame (22 + i)))
    × (arp_reply success arp_frame 41 ≡ none)
unfolding arp_reply load16 swap_bytes16
reply_frame = (refl, refl)

third_round : arp_loop lively 5 0 0 ≡ ((success, 2000000), 2)
unfolding arp_loop poll get_timestamp arp_reply load16 swap_bytes16
third_round = refl

arp_then_snp :
    execute_once lively (λ i. 0) nic (λ i. 10) (init_probe ProbeProtocol.probe_arp) 2
    ≡ (success, record_result (init_probe ProbeProtocol.probe_arp) 1 0, 2)
unfolding execute_once dispatch probe_arp_once arp_via_snp arp_loop poll arp_reply has_snp verdict
    init_probe swap_bytes16 load16 get_timestamp
arp_then_snp = refl

build_payload_lem_example :
    (is_echo (build_payload (λ i. 1) 12345 0xabcdef012) ≡ true)
    × (decimal_at (build_payload (λ i. 1) 12345 0xabcdef012) 11 ≡ 12345 % 10000)
    × (hex_at (build_payload (λ i. 1) 12345 0xabcdef012) 19 ≡ 0xabcdef012 % 2 ^ 32)
    × (build_payload (λ i. 1) 12345 0xabcdef012 27 ≡ 0)
build_payload_lem_example = build_payload_lem (λ i. 1) 12345 0xabcdef012

icmp_other : ProbeProtocol.probe_icmp ≢ probe_max
icmp_other e = absurd (ground (arith, e))

execute_once_lem_example :
    Recorded
      (outcomes lively (λ i. 0) nic (λ i. 10) ProbeProtocol.probe_icmp 6 1 0)
      (execute_all lively (λ i. 0) nic (λ i. 10) 6 (init_probe ProbeProtocol.probe_icmp) 0).0
    × ((execute_all lively (λ i. 0) nic (λ i. 10) 6 (init_probe ProbeProtocol.probe_icmp) 0).0.sent
        ≡ (execute_all lively
            (λ i. 0)
            nic
            (λ i. 10)
            6
            (init_probe ProbeProtocol.probe_icmp)
            0).0.received
          + (execute_all lively
              (λ i. 0)
              nic
              (λ i. 10)
              6
              (init_probe ProbeProtocol.probe_icmp)
              0).0.lost)
execute_once_lem_example =
    execute_once_lem lively (λ i. 0) nic (λ i. 10) ProbeProtocol.probe_icmp 6 0 icmp_other
      (omega arith)

udp_other : (init_probe ProbeProtocol.probe_udp).protocol ≢ probe_max
unfolding init_probe
udp_other e = absurd (ground (arith, e))

no_udp : is_available nic (init_probe ProbeProtocol.probe_udp).protocol ≡ false
unfolding is_available init_probe
no_udp = refl

arp_via_snp_lem_example :
    ((efi_error (request_sent lively (λ i. 0) nic (λ i. 10) 0).0 ≡ true)
      × (arp_via_snp lively (λ i. 0) nic (λ i. 10) 0
          ≡ ((not_ready, 0), (request_sent lively (λ i. 0) nic (λ i. 10) 0).1)))
    ⊎ ((efi_error (request_sent lively (λ i. 0) nic (λ i. 10) 0).0 ≡ false)
        × (silent (frames lively) arp_reply 2000 (request_sent lively (λ i. 0) nic (λ i. 10) 0).1
            ≡ true)
        × (arp_via_snp lively (λ i. 0) nic (λ i. 10) 0 ≡ (
          (timeout, 0),
          after (frames lively) arp_reply 2000 (request_sent lively (λ i. 0) nic (λ i. 10) 0).1,
        )))
    ⊎ ((efi_error (request_sent lively (λ i. 0) nic (λ i. 10) 0).0 ≡ false)
        × (k : ℕ) × (mac : Bytes) × First
            (frames lively)
            arp_reply
            2000
            (request_sent lively (λ i. 0) nic (λ i. 10) 0).1
            k
            mac
        × (arp_via_snp lively (λ i. 0) nic (λ i. 10) 0
            ≡ reply_at lively
                (started lively (λ i. 0) nic (λ i. 10) 0).0
                (lively.receive (
                  after
                    (frames lively)
                    arp_reply
                    k
                    (request_sent lively (λ i. 0) nic (λ i. 10) 0).1)).1))
arp_via_snp_lem_example = arp_via_snp_lem lively (λ i. 0) nic (λ i. 10) 0
