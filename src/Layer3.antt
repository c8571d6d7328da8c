-- ===== src/Layer3.antt =====
-- Source/Layer3Network.c: the choice of the next hop, the ping, and the two tests that search with it.
-- The routines that exchange packets over the firmware's IP4 protocol and over the raw interface, the
-- ARP exchange and the formatted texts are parameters; the network's state is passed on.
pub mod Mtu
pub mod Tests
pub mod Raw
pub mod Hops
pub mod Subnet
mod Examples
use ddtsoft_net_test.Base.{
  ℕ, zero, suc, ◌+◌, ◌-◌, ◌*◌, ◌/◌, ◌%◌, ◌^◌, Bool, true, false, not, ◌&&◌, Option, none, some, ltb,
  leb, ◌==◌, if◌then◌else◌, Bytes,
}
use ddtsoft_net_test.Efi.{EfiStatus, success, not_ready, efi_error}
use ddtsoft_net_test.Packet.{ipv4_min_header_size, icmp_header_size, icmp_type_echo_reply}
use ddtsoft_net_test.Runner.{Text, codes, TestResult, result_pass, result_fail, result_warn}

-- EFI_IPv4_ADDRESS
pub record Ip : Type 0 where
  pub b0 : ℕ
  pub b1 : ℕ
  pub b2 : ℕ
  pub b3 : ℕ

-- The fields of NIC_INFO and of TEST_CONFIG that the ping reads. `snp_initialized` is `none` for a
-- NULL Snp, or else tells whether its state is EfiSimpleNetworkInitialized.
pub record PingNic : Type 0 where
  pub has_ip4 : Bool
  pub has_ip_config : Bool
  pub ipv4_address : Ip
  pub subnet_mask : Ip
  pub gateway : Ip
  pub snp_initialized : Option Bool

pub record PingConfig : Type 0 where
  pub local_ip : Ip
  pub target_ip : Ip
  pub subnet_mask : Ip
  pub gateway : Ip
  pub iterations : ℕ
  pub timeout_ms : ℕ

-- What a ping returns: its status and, where that is no error, what it writes to its out parameters.
pub record PingReply : Type 0 where
  pub status : EfiStatus
  pub rtt_us : ℕ
  pub reply_type : ℕ
  pub reply_code : ℕ

-- What a ping is asked to send.
pub record Probe : Type 0 where
  pub dst_ip : Ip
  pub seq_num : ℕ
  pub ttl : ℕ
  pub payload_size : ℕ
  pub timeout_ms : ℕ

-- L3SendIcmpViaIp4, with the local address, the mask and the gateway; L3SendIcmpViaSnp, with the MAC
-- address of the next hop and the local address; L3ResolveTargetMac, with the local address, the
-- address to resolve and the timeout; and Stall.
pub record Network (W : Type 0) : Type 0 where
  pub send_via_ip4 : Ip → Ip → Ip → Probe → W → PingReply × W
  pub send_via_snp : Bytes → Ip → Probe → W → PingReply × W
  pub resolve_target_mac : Ip → Ip → ℕ → W → (EfiStatus × Bytes) × W
  pub stall : ℕ → W → W

-- The texts that UnicodeSPrint makes.
pub record Printer : Type 0 where
  pub reached : ℕ → ℕ → Text
  pub hops_detail : ℕ → ℕ → Text
  pub not_reached : ℕ → Text
  pub path_mtu : ℕ → ℕ → Text
  pub mtu_detail : ℕ → ℕ → Text

-- `a & b`, on the `n` low bits.
pub bit_and : ℕ → ℕ → ℕ → ℕ
bit_and zero a b = 0
bit_and (suc n) a b = a % 2 * (b % 2) + 2 * bit_and n (a / 2) (b / 2)

-- L3IsSameSubnet
pub is_same_subnet : Ip → Ip → Ip → Bool
is_same_subnet a b m =
    (bit_and 8 a.b0 m.b0 == bit_and 8 b.b0 m.b0)
    && ((bit_and 8 a.b1 m.b1 == bit_and 8 b.b1 m.b1)
        && ((bit_and 8 a.b2 m.b2 == bit_and 8 b.b2 m.b2)
            && (bit_and 8 a.b3 m.b3 == bit_and 8 b.b3 m.b3)))

-- The address that L3ResolveNextHopMac asks the MAC of.
pub next_hop : PingConfig → Ip
next_hop c = if is_same_subnet c.local_ip c.target_ip c.subnet_mask then c.target_ip else c.gateway

-- `Status == EFI_SUCCESS || Status == EFI_TIMEOUT`
pub is_definite : EfiStatus → Bool
is_definite EfiStatus.success = true
is_definite EfiStatus.timeout = true
is_definite _ = false

abbrev pub failed : EfiStatus → PingReply
failed s = record { status = s; rtt_us = 0; reply_type = 0; reply_code = 0 }

abbrev pub count64 : ℕ → ℕ
count64 n = (n + 1) % 2 ^ 64

module _ {W : Type 0} (net : Network W) (p : Printer) (nic : PingNic) (config : PingConfig) where
  -- L3ResolveNextHopMac
  pub resolve_next_hop_mac : W → (EfiStatus × Bytes) × W
  resolve_next_hop_mac w = net.resolve_target_mac config.local_ip (next_hop config) 3000 w

  -- The path over the raw interface.
  pub ping_via_snp : Probe → W → PingReply × W
  ping_via_snp probe w = elim nic.snp_initialized [
    | some true ↦
        let ((s, mac), w') = resolve_next_hop_mac w in
        if efi_error s then (failed s, w') else net.send_via_snp mac config.local_ip probe w'
    | some false ↦ (failed not_ready, w)
    | none ↦ (failed not_ready, w)
  ]

  -- L3Ping
  pub l3_ping : Probe → W → PingReply × W
  l3_ping probe w =
      if nic.has_ip4 && nic.has_ip_config
      then (let (r, w') = net.send_via_ip4 nic.ipv4_address nic.subnet_mask nic.gateway probe w in
          if is_definite r.status then (r, w') else ping_via_snp probe w')
      else ping_via_snp probe w

  -- The loop of TestL3TtlHopDiscovery, with `left` values of Ttl to go. It gives the Ttl it ends at,
  -- HopsResponded, the round-trip time of the target's reply if it answered, the result and the
  -- network.
  pub ttl_loop : ℕ → ℕ → ℕ → TestResult → W → ℕ × ℕ × Option ℕ × TestResult × W
  ttl_loop zero ttl hops r w = (ttl, hops, none, r, w)
  ttl_loop (suc left) ttl hops r w =
      let sent = record r { packets_sent = count64 r.packets_sent } in
      let probe : Probe = record {
        dst_ip = config.target_ip;
        seq_num = ttl;
        ttl = ttl;
        payload_size = 32;
        timeout_ms = 2000;
      } in
      let got = l3_ping probe w in
      let answered = record sent { packets_received = count64 sent.packets_received } in
      elim (efi_error got.0.status) [
        | true ↦ ttl_loop left (ttl + 1) hops sent (net.stall 100000 got.1)
        | false ↦ elim (got.0.reply_type == icmp_type_echo_reply) [
          | true ↦ (ttl, hops + 1, some got.0.rtt_us, answered, got.1)
          | false ↦ ttl_loop left (ttl + 1) (hops + 1) answered (net.stall 100000 got.1)
        ]
      ]

  -- TestL3TtlHopDiscovery
  pub test_l3_ttl_hop_discovery : TestResult → W → EfiStatus × TestResult × W
  test_l3_ttl_hop_discovery r0 w =
      let (ttl, hops, reached, r, w') = ttl_loop 16 1 0 r0 w in
      elim reached [
        | some rtt ↦ (
          success,
          record r {
            status_code = result_pass;
            rtt_min_us = rtt;
            rtt_avg_us = rtt;
            rtt_max_us = rtt;
            summary = p.reached ttl rtt;
            detail = p.hops_detail hops ttl;
          },
          w',
        )
        | none ↦ (
          success,
          if ltb 0 hops
              then record r {
                status_code = result_warn;
                summary = p.not_reached hops;
                suggestion = codes "Target may be more than 16 hops away or blocking ICMP";
              }
              else record r {
                status_code = result_fail;
                summary = codes "No hops responded (0/16)";
                fail_reason = codes "No ICMP Time Exceeded or Echo Reply received";
                suggestion = codes "Check gateway reachability and ICMP filtering";
              },
          w',
        )
      ]

  -- The loop of TestL3MtuPathDiscovery, on fuel: LargestOk, the result and the network.
  pub mtu_loop : ℕ → ℕ → ℕ → ℕ → ℕ → TestResult → W → Option (ℕ × TestResult × W)
  mtu_loop zero lo hi largest_ok seq_num r w = none
  mtu_loop (suc fuel) lo hi largest_ok seq_num r w =
      let mid = (lo + hi) / 2 in
      let sent = record r { packets_sent = count64 r.packets_sent } in
      let seq' = (seq_num + 1) % 65536 in
      let probe : Probe = record {
        dst_ip = config.target_ip;
        seq_num = seq';
        ttl = 64;
        payload_size = mid;
        timeout_ms = 2000;
      } in
      let got = l3_ping probe w in
      let answered = record sent { packets_received = count64 sent.packets_received } in
      let counted = if efi_error got.0.status then sent else answered in
      elim (leb lo hi) [
        | false ↦ some (largest_ok, r, w)
        | true ↦ elim (not (efi_error got.0.status) && (got.0.reply_type == icmp_type_echo_reply)) [
          | true ↦ mtu_loop fuel (mid + 1) hi mid seq' answered (net.stall 200000 got.1)
          | false ↦ elim (mid == 0) [
            | true ↦ some (largest_ok, counted, got.1)
            | false ↦ mtu_loop fuel lo (mid - 1) largest_ok seq' counted (net.stall 200000 got.1)
          ]
        ]
      ]

  -- What TestL3MtuPathDiscovery reports of LargestOk.
  pub mtu_report : ℕ → TestResult → TestResult
  mtu_report largest_ok r =
      let path_mtu = ipv4_min_header_size + icmp_header_size + largest_ok in
      if ltb 0 largest_ok
      then record r {
        status_code = if leb 1500 path_mtu then result_pass else result_warn;
        summary = p.path_mtu path_mtu largest_ok;
        detail = p.mtu_detail largest_ok path_mtu;
      }
      else record r {
        status_code = result_fail;
        summary = codes "Path MTU discovery failed: no replies received";
        fail_reason = codes "Target did not respond to any ICMP echo request";
        suggestion = codes "Verify target is reachable with basic ping first";
      }

  -- TestL3MtuPathDiscovery
  pub test_l3_mtu_path_discovery : ℕ → TestResult → W → Option (EfiStatus × TestResult × W)
  test_l3_mtu_path_discovery fuel r0 w = elim (mtu_loop fuel 8 1472 0 100 r0 w) [
    | none ↦ none
    | some (largest_ok, r, w') ↦ some (success, mtu_report largest_ok r, w')
  ]
