-- ===== src/Stress/Floods/Raw.antt =====
-- Source/StressTest.c: StressResolveTargetMac, StressRawFrameFlood, and StressTestGetStats with them.
mod Examples
use ddtsoft_net_test.Base.{
  ℕ, zero, suc, ◌+◌, ◌-◌, ◌%◌, Bool, true, false, ◌&&◌, Option, none, some, ltb, leb, ◌==◌,
  if◌then◌else◌, Bytes, copy_mem, zero_mem, store16, load16, swap_bytes16, min,
}
use ddtsoft_net_test.Efi.{EfiStatus, success, invalid_parameter, not_ready, timeout, efi_error}
use ddtsoft_net_test.Packet.{
  ethernet_header_size, arp_header_size, arp_op_reply, ethernet_broadcast_mac,
}
use ddtsoft_net_test.Packet.Builder.{build_arp_request}
use ddtsoft_net_test.Packet.Parser.{zeroed, parse_packet}
use ddtsoft_net_test.Runner.{TestResult}
use ddtsoft_net_test.Stress.{StressStats, add64, Driver, draw_every}
use ddtsoft_net_test.Stress.Floods.{StressNic, StressConfig, StressPrinter, get_stats}

-- `CompareMem (a, b, 4) == 0`
pub same4 : Bytes → Bytes → Bool
same4 a b = (a 0 == b 0) && ((a 1 == b 1) && ((a 2 == b 2) && (a 3 == b 3)))

-- The sender's MAC address of a frame that is an ARP reply of the target.
pub arp_reply_mac : Bytes → ℕ → Bytes → Option Bytes
arp_reply_mac b size target_ip =
    if ltb size (ethernet_header_size + arp_header_size)
    then none
    else elim (parse_packet (some b) size (some zeroed)).1 [
      | none ↦ none
      | some parsed ↦ elim parsed.arp [
        | none ↦ none
        | some o ↦
            if parsed.has_arp
              && ((swap_bytes16 (load16 b (o + 6)) == arp_op_reply)
                  && same4 (λ i. b (o + 14 + i)) target_ip)
            then some (λ i. b (o + 8 + i))
            else none
      ]
    ]

-- `Status == EFI_NOT_READY`
pub is_queue_full : EfiStatus → Bool
is_queue_full EfiStatus.not_ready = true
is_queue_full _ = false

-- The broadcast frame of StressRawFrameFlood.
pub raw_frame : Bytes → Bytes
raw_frame src_mac i =
    let b = copy_mem (zero_mem (λ k. 0) 0 64) 0 ethernet_broadcast_mac 6 in
    let b = copy_mem b 6 src_mac 6 in
    let b = store16 b 12 (swap_bytes16 0x88b5) in
    if leb ethernet_header_size i && ltb i 64 then i % 256 else b i

-- `(Config->Iterations > 0) ? Config->Iterations : 500`, and the limit of 50000.
pub raw_iterations : ℕ → ℕ
raw_iterations configured = min (if ltb 0 configured then configured else 500) 50000

module _ {W : Type 0} (d : Driver W) where
  -- The wait for an ARP reply, with `left` rounds to go. The address is read only on success.
  pub resolve_loop : ℕ → Bytes → W → (EfiStatus × Bytes) × W
  resolve_loop zero target_ip w = ((timeout, λ i. 0), w)
  resolve_loop (suc left) target_ip w =
      let ((status, rx_buf, rx_size), w1) = d.receive (d.get_status w).1 in
      elim (efi_error status) [
        | true ↦ resolve_loop left target_ip (d.stall 1000 w1)
        | false ↦ elim (arp_reply_mac rx_buf rx_size target_ip) [
          | none ↦ resolve_loop left target_ip (d.stall 1000 w1)
          | some mac ↦ ((success, mac), w1)
        ]
      ]

  -- StressResolveTargetMac; `frame` is what the frame buffer holds at first.
  pub resolve_target_mac : Bytes → StressNic → StressConfig → W → (EfiStatus × Bytes) × W
  resolve_target_mac frame nic config w =
      let (arp, size) =
        build_arp_request frame nic.current_address nic.ipv4_address config.target_ip in
      let (status, w1) = d.transmit arp size w in
      if efi_error status then ((status, λ i. 0), w1) else resolve_loop 3000 config.target_ip w1

  -- The wait for room in the transmit queue.
  pub wait_queue : ℕ → W → W
  wait_queue zero w = w
  wait_queue (suc left) w =
      let (done, w1) = d.get_status w in
      elim done [ true ↦ w1 | false ↦ wait_queue left (d.stall 100 w1) ]

  pub count_raw : EfiStatus → StressStats → StressStats
  count_raw status s =
      if efi_error status
      then s
      else record s { packets_sent = add64 s.packets_sent 1; bytes_sent = add64 s.bytes_sent 64 }

  -- One round of the flood.
  pub raw_round : Bytes → ℕ → StressStats × W → StressStats × W
  raw_round frame i (s, w) =
      let (status, w1) = d.transmit frame 64 w in
      let again = d.transmit frame 64 (wait_queue 100 w1) in
      let sent : StressStats × W =
        if is_queue_full status then (count_raw again.0 s, again.1) else (count_raw status s, w1) in
      let w2 = if i % 8 == 0 then (d.get_status sent.1).1 else sent.1 in draw_every d 50 i sent.0 w2

  pub raw_loop : Bytes → ℕ → ℕ → StressStats × W → StressStats × W
  raw_loop frame zero i x = x
  raw_loop frame (suc left) i x = raw_loop frame left (i + 1) (raw_round frame i x)

  -- The completions that remain.
  pub drain : ℕ → W → W
  drain zero w = w
  drain (suc left) w =
      let (done, w1) = d.get_status w in
      elim done [ true ↦ drain left (d.stall 1000 w1) | false ↦ w1 ]

  -- StressRawFrameFlood
  pub raw_frame_flood : StressNic → StressConfig → StressStats → W → EfiStatus × StressStats × W
  raw_frame_flood nic config s w = elim nic.snp_initialized [
    | some true ↦
        let n = raw_iterations config.iterations in
        let (s', w') = raw_loop (raw_frame nic.current_address) n 0 (s, w) in
        (success, s', drain 100 w')
    | some false ↦ (not_ready, s, w)
    | none ↦ (not_ready, s, w)
  ]

  -- StressTestGetStats: its status and what it leaves in Result; a NULL argument is `none`.
  pub stress_test_get_stats :
      StressPrinter
      → Bytes
      → Option StressNic
      → Option StressConfig
      → ℕ
      → Option TestResult
      → W
      → EfiStatus × Option TestResult × W
  stress_test_get_stats p frame (some nic) (some config) mode (some r0) w =
      let (status, r, w') =
        get_stats d p (resolve_target_mac frame) raw_frame_flood frame nic config mode w in
      (status, some r, w')
  stress_test_get_stats p frame _ _ mode r w = (invalid_parameter, r, w)
