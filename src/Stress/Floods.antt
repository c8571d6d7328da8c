-- ===== src/Stress/Floods.antt =====
-- Source/StressTest.c: StressIcmpFlood, StressUdpFlood and StressTestGetStats.
pub mod Fair
pub mod Verdict
pub mod Raw
mod Examples
use ddtsoft_net_test.Base.{
  ℕ, zero, suc, ◌+◌, ◌-◌, ◌*◌, ◌/◌, ◌%◌, ◌^◌, Bool, true, false, not, ◌&&◌, Option, none, some, ltb,
  leb, ◌==◌, if◌then◌else◌, Bytes, load16, swap_bytes16,
}
use ddtsoft_net_test.Efi.{EfiStatus, success, invalid_parameter, not_ready, unsupported, efi_error}
use ddtsoft_net_test.Packet.{icmp_type_echo_reply}
use ddtsoft_net_test.Packet.Builder.{build_icmp_echo_request, build_udp_packet}
use ddtsoft_net_test.Packet.Parser.{ParsedPacket, zeroed, parse_packet}
use ddtsoft_net_test.Runner.{
  Text, TestResult, zero_result, result_pass, result_fail, result_warn, result_error,
}
use ddtsoft_net_test.Stress.{
  StressStats, add64, sub64, init_stats, record_rtt, Driver, timestamp, Ends, draw_every,
  iterations,
}

-- The echo reply that carries STRESS_ICMP_ID and the sequence number.
pub is_reply : Bytes → ℕ → ℕ → Bool
is_reply b size seq = elim (parse_packet (some b) size (some zeroed)).1 [
  | none ↦ false
  | some parsed ↦ elim parsed.icmp [
    | none ↦ false
    | some o ↦
        parsed.has_icmp
        && ((b o == icmp_type_echo_reply)
            && ((swap_bytes16 (load16 b (o + 4)) == 0xdd50)
                && (swap_bytes16 (load16 b (o + 6)) == seq)))
  ]
]

-- The payload pattern.
abbrev pub pattern : Bytes
pattern i = i % 256

-- The round-trip time, in microseconds, from the two timestamps or from the number of polls.
pub rtt_of : ℕ → ℕ → ℕ → ℕ
rtt_of sent_at received_at attempts =
    let t = sub64 received_at sent_at * 1000000 % 2 ^ 32 in if t == 0 then attempts * 1000 else t

module _ {W : Type 0} (d : Driver W) (e : Ends) where
  -- The loop over RxAttempts, with `left` to go.
  pub poll_reply : ℕ → ℕ → ℕ → ℕ → StressStats → W → StressStats × W
  poll_reply zero attempts seq send_time s w = (s, w)
  poll_reply (suc left) attempts seq send_time s w =
      let ((status, rx_buf, rx_size), w1) = d.receive (d.get_status w).1 in
      let now = timestamp d w1 in
      elim (efi_error status) [
        | true ↦ poll_reply left (attempts + 1) seq send_time s (d.stall 1000 w1)
        | false ↦ elim (is_reply rx_buf rx_size seq) [
          | false ↦ poll_reply left (attempts + 1) seq send_time s (d.stall 1000 w1)
          | true ↦ (
            record_rtt
                (record s {
                  packets_received = add64 s.packets_received 1;
                  bytes_received = add64 s.bytes_received rx_size;
                })
                (rtt_of send_time now.0 attempts),
            now.1,
          )
        ]
      ]

  -- One round of StressIcmpFlood.
  pub icmp_round : ℕ → Bytes × StressStats × W → Bytes × StressStats × W
  icmp_round seq (frame, s, w) =
      let (frame', size) =
        build_icmp_echo_request frame e.current_address e.target_mac e.ipv4_address e.target_ip
          0xdd50 seq (some pattern) 56 in
      let sent_at = timestamp d w in
      let (status, w1) = d.transmit frame' size sent_at.1 in
      let counted = record s {
        packets_sent = add64 s.packets_sent 1;
        bytes_sent = add64 s.bytes_sent size;
      } in
      let polled = poll_reply 50 0 seq sent_at.0 counted w1 in
      let drawn = draw_every d 10 seq polled.0 polled.1 in
      if efi_error status then (frame', s, w1) else (frame', drawn.0, drawn.1)

  -- The loop over SeqNum, with `left` rounds to go.
  pub icmp_loop : ℕ → ℕ → Bytes × StressStats × W → Bytes × StressStats × W
  icmp_loop zero seq x = x
  icmp_loop (suc left) seq x = icmp_loop left (seq + 1) (icmp_round seq x)

  -- One round of StressUdpFlood.
  pub udp_round : ℕ → Bytes × StressStats × W → Bytes × StressStats × W
  udp_round i (frame, s, w) =
      let (frame', size) =
        build_udp_packet frame e.current_address e.target_mac e.ipv4_address e.target_ip
          (10000 + i % 1000) 5000 (some pattern) 512 in
      let (status, w1) = d.transmit frame' size w in
      let s1 = if efi_error status then s else record s {
        packets_sent = add64 s.packets_sent 1;
        bytes_sent = add64 s.bytes_sent size;
      } in
      let ((rx_status, rx_buf, rx_size), w2) = d.receive (d.get_status w1).1 in
      let s2 = if efi_error rx_status then s1 else record s1 {
        packets_received = add64 s1.packets_received 1;
        bytes_received = add64 s1.bytes_received rx_size;
      } in
      let w3 = if i % 4 == 0 then d.stall 100 w2 else w2 in
      let drawn = draw_every d 20 i s2 w3 in (frame', drawn.0, drawn.1)

  pub udp_loop : ℕ → ℕ → Bytes × StressStats × W → Bytes × StressStats × W
  udp_loop zero i x = x
  udp_loop (suc left) i x = udp_loop left (i + 1) (udp_round i x)

-- The fields of NIC_INFO and TEST_CONFIG that are read. `snp_initialized` is `none` for a NULL Snp, or
-- else tells whether its state is EfiSimpleNetworkInitialized.
pub record StressNic : Type 0 where
  pub snp_initialized : Option Bool
  pub current_address : Bytes
  pub ipv4_address : Bytes

pub record StressConfig : Type 0 where
  pub target_ip : Bytes
  pub iterations : ℕ

-- The texts that UnicodeSPrint makes of the packets sent, those lost and the percentage, and of an
-- error.
pub record StressPrinter : Type 0 where
  pub stress_ok : ℕ → ℕ → Text
  pub stress_warn : ℕ → ℕ → ℕ → Text
  pub stress_fail : ℕ → Text
  pub stress_error : EfiStatus → Text

-- STRESS_MODE
abbrev pub mode_icmp_flood : ℕ
mode_icmp_flood = 0

abbrev pub mode_udp_flood : ℕ
mode_udp_flood = 1

abbrev pub mode_raw_frame_flood : ℕ
mode_raw_frame_flood = 2

pub packets_lost : ℕ → ℕ → ℕ
packets_lost sent received = if ltb received sent then sent - received else 0

pub loss_pct : ℕ → ℕ → ℕ
loss_pct sent received = if ltb 0 sent then packets_lost sent received * 100 % 2 ^ 64 / sent else 0

-- What StressTestGetStats fills in from the statistics, `elapsed` seconds after the start.
pub fill_rtt : StressStats → TestResult → TestResult
fill_rtt s r =
    if ltb 0 s.rtt_count && not (s.rtt_min_us == 0xffffffff)
    then record r {
      rtt_min_us = s.rtt_min_us;
      rtt_avg_us = s.rtt_total_us / s.rtt_count % 2 ^ 32;
      rtt_max_us = s.rtt_max_us;
      rtt_jitter_us = (s.rtt_max_us + (2 ^ 32 - s.rtt_min_us)) % 2 ^ 32;
    }
    else r

pub fill_stats : StressPrinter → ℕ → StressStats → TestResult
fill_stats p elapsed s =
    let r = fill_rtt s (record zero_result {
      packets_sent = s.packets_sent;
      packets_received = s.packets_received;
      bytes_sent = s.bytes_sent;
      bytes_received = s.bytes_received;
      duration_ms = elapsed * 1000 % 2 ^ 64;
    }) in
    let lost = packets_lost s.packets_sent s.packets_received in
    let pct = loss_pct s.packets_sent s.packets_received in
    if leb pct 1
    then record r { status_code = result_pass; summary = p.stress_ok s.packets_sent pct }
    else if leb pct 10
    then record r { status_code = result_warn; summary = p.stress_warn pct lost s.packets_sent }
    else record r { status_code = result_fail; summary = p.stress_fail pct }

-- `resolve` stands for StressResolveTargetMac and `raw_flood` for StressRawFrameFlood, which
-- Stress/Floods/Raw puts there; `frame` is what the frame buffer holds at first.
module _ {W : Type 0} (d : Driver W) (p : StressPrinter)
    (resolve : StressNic → StressConfig → W → (EfiStatus × Bytes) × W)
    (raw_flood : StressNic → StressConfig → StressStats → W → EfiStatus × StressStats × W)
    (frame : Bytes) (nic : StressNic) (config : StressConfig) where
  abbrev ends_at : Bytes → Ends
  ends_at mac = record {
    current_address = nic.current_address;
    ipv4_address = nic.ipv4_address;
    target_ip = config.target_ip;
    target_mac = mac;
  }

  -- StressIcmpFlood
  pub icmp_flood : StressStats → W → EfiStatus × StressStats × W
  icmp_flood s w = elim nic.snp_initialized [
    | some true ↦
        let ((status, mac), w') = resolve nic config w in
        let n = iterations config.iterations 100 in
        let (frame', s', w'') = icmp_loop d (ends_at mac) n 0 (frame, s, w') in
        if efi_error status then (status, s, w') else (success, s', w'')
    | some false ↦ (not_ready, s, w)
    | none ↦ (not_ready, s, w)
  ]

  -- StressUdpFlood
  pub udp_flood : StressStats → W → EfiStatus × StressStats × W
  udp_flood s w = elim nic.snp_initialized [
    | some true ↦
        let ((status, mac), w') = resolve nic config w in
        let n = iterations config.iterations 200 in
        let (frame', s', w'') = udp_loop d (ends_at mac) n 0 (frame, s, w') in
        if efi_error status then (status, s, w') else (success, s', w'')
    | some false ↦ (not_ready, s, w)
    | none ↦ (not_ready, s, w)
  ]

  -- The switch over Mode.
  pub run_flood : ℕ → StressStats → W → EfiStatus × StressStats × W
  run_flood mode s w =
      if mode == mode_icmp_flood
      then icmp_flood s w
      else if mode == mode_udp_flood
      then udp_flood s w
      else if mode == mode_raw_frame_flood
      then raw_flood nic config s w
      else (unsupported, s, w)

  -- StressTestGetStats behind its NULL checks: its status and what it leaves in Result.
  pub get_stats : ℕ → W → EfiStatus × TestResult × W
  get_stats mode w =
      let now = timestamp d w in
      let (status, s, w') = run_flood mode (init_stats now.0) now.1 in
      let later = timestamp d w' in
      if efi_error status
      then (
        status,
        record zero_result { status_code = result_error; summary = p.stress_error status },
        w',
      )
      else (success, fill_stats p (sub64 later.0 s.start_time_s) s, later.1)
