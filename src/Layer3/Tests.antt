-- ===== src/Layer3/Tests.antt =====
-- Source/Layer3Network.c: the tests of the IP configuration, the ping, the sweep, the large packet and
-- the gateway.
pub mod Sweep
pub mod Gateway
mod Examples
use ddtsoft_net_test.Base.{
  ℕ, zero, suc, ◌+◌, ◌-◌, ◌/◌, ◌%◌, ◌^◌, Bool, true, false, not, ◌&&◌, ◌||◌, ltb, leb, ◌==◌,
  if◌then◌else◌, Bytes,
}
use ddtsoft_net_test.Efi.{EfiStatus, success, not_ready, timeout, efi_error}
use ddtsoft_net_test.Packet.{
  ipv4_min_header_size, icmp_header_size, icmp_type_echo_reply, icmp_type_dest_unreach,
}
use ddtsoft_net_test.Runner.{
  Text, codes, TestResult, result_pass, result_fail, result_skip, result_warn,
}
use ddtsoft_net_test.Layer3.{
  Ip, PingNic, PingConfig, PingReply, Probe, Network, Printer, l3_ping, is_same_subnet, count64,
}

-- The texts that UnicodeSPrint makes of addresses and numbers; the MAC address in `gateway_ok` is the
-- one that UtilFormatMac prints.
pub record TestPrinter : Type 0 where
  pub ip_detail : Ip → Ip → Ip → Text
  pub ip_ok : Ip → Ip → Ip → Text
  pub ip_alone : Ip → Text
  pub no_reply : Ip → Text
  pub reply_in : Ip → ℕ → Text
  pub unreachable : ℕ → Text
  pub other_type : ℕ → ℕ → Text
  pub sweep_ok : ℕ → ℕ → ℕ → ℕ → ℕ → Text
  pub sweep_loss : ℕ → ℕ → ℕ → ℕ → Text
  pub sweep_silent : ℕ → Text
  pub large_ok : ℕ → ℕ → Text
  pub large_type : ℕ → ℕ → ℕ → Text
  pub large_silent : ℕ → Text
  pub large_failed : ℕ → Text
  pub routing_detail : Ip → Ip → Ip → Bool → Bool → Text
  pub gateway_off : Ip → Text
  pub gateway_silent : Ip → Text
  pub gateway_ok : Ip → Bytes → Text

-- The loop for HasGateway.
pub has_gateway : Ip → Bool
has_gateway g = not (g.b0 == 0) || (not (g.b1 == 0) || (not (g.b2 == 0) || not (g.b3 == 0)))

-- TestL3IpConfigCheck
pub test_l3_ip_config_check : TestPrinter → PingNic → TestResult → EfiStatus × TestResult
test_l3_ip_config_check q nic r =
    let detail = q.ip_detail nic.ipv4_address nic.subnet_mask nic.gateway in
    let out : TestResult =
      if not nic.has_ip4
      then record r {
        status_code = result_fail;
        summary = codes "IPv4 protocol stack not available on this NIC";
        fail_reason = codes "EFI_IP4_SERVICE_BINDING_PROTOCOL not found";
        suggestion = codes "Ensure network stack driver is loaded";
      }
      else if not nic.has_ip_config
      then record r {
        status_code = result_fail;
        summary = codes "No IPv4 address configured";
        fail_reason = codes "IP4Config2 reports no station address";
        suggestion = codes "Configure a static IP or enable DHCP";
      }
      else if not (has_gateway nic.gateway)
      then record r {
        detail = detail;
        status_code = result_warn;
        summary = q.ip_alone nic.ipv4_address;
        suggestion = codes "Configure a default gateway for off-subnet routing";
      }
      else record r {
        detail = detail;
        status_code = result_pass;
        summary = q.ip_ok nic.ipv4_address nic.subnet_mask nic.gateway;
      } in
    (success, out)

-- SweepTally: Received, MinRtt, MaxRtt and TotalRtt.
pub record SweepTally : Type 0 where
  pub echoes : ℕ
  pub min_rtt : ℕ
  pub max_rtt : ℕ
  pub total_rtt : ℕ

-- `!EFI_ERROR (Status) && ReplyType == ICMP_TYPE_ECHO_REPLY`
pub is_echo_reply : PingReply → Bool
is_echo_reply g = not (efi_error g.status) && (g.reply_type == icmp_type_echo_reply)

-- What the sweep does of a reply.
pub tally_echo : ℕ → SweepTally → SweepTally
tally_echo rtt t = record {
  echoes = count64 t.echoes;
  total_rtt = (t.total_rtt + rtt) % 2 ^ 64;
  min_rtt = if ltb rtt t.min_rtt then rtt else t.min_rtt;
  max_rtt = if ltb t.max_rtt rtt then rtt else t.max_rtt;
}

-- Count of the sweep.
pub sweep_count : ℕ → ℕ
sweep_count iterations = if ltb 0 iterations && leb iterations 10 then iterations else 5

-- What TestL3IcmpSweep reports.
pub sweep_report : TestPrinter → ℕ → SweepTally → TestResult → TestResult
sweep_report q count t r =
    let average = t.total_rtt / t.echoes % 2 ^ 32 in
    let timed : TestResult = record r {
      rtt_min_us = t.min_rtt;
      rtt_avg_us = average;
      rtt_max_us = t.max_rtt;
      rtt_jitter_us = (t.max_rtt + (2 ^ 32 - t.min_rtt)) % 2 ^ 32;
    } in
    if t.echoes == count
    then record timed {
      status_code = result_pass;
      summary = q.sweep_ok t.echoes count t.min_rtt average t.max_rtt;
    }
    else if ltb 0 t.echoes
    then record timed {
      status_code = result_warn;
      summary = q.sweep_loss t.echoes count t.min_rtt t.max_rtt;
      suggestion = codes "Check for intermittent connectivity or congestion";
    }
    else record r {
      status_code = result_fail;
      summary = q.sweep_silent count;
      fail_reason = codes "No ICMP echo replies received from target";
      suggestion = codes "Verify target is reachable and ICMP is not blocked";
    }

module _ {W : Type 0} (net : Network W) (p : Printer) (q : TestPrinter) (nic : PingNic)
    (config : PingConfig) where
  -- The ping of the tests of this file: a sequence number, a payload and a timeout of `wait` unless the
  -- configuration has one.
  abbrev pub ask : ℕ → ℕ → ℕ → W → PingReply × W
  ask seq size wait w =
      l3_ping net p nic config
        (record {
          dst_ip = config.target_ip;
          seq_num = seq;
          ttl = 64;
          payload_size = size;
          timeout_ms = wait;
        })
        w

  -- `Config->TimeoutMs > 0 ? Config->TimeoutMs : n`
  abbrev pub wait_or : ℕ → ℕ
  wait_or n = if ltb 0 config.timeout_ms then config.timeout_ms else n

  -- What TestL3IcmpEcho reports of the reply.
  pub echo_report : PingReply → TestResult → TestResult
  echo_report g r =
      if efi_error g.status
      then (elim g.status [
        | not_ready ↦ record r {
          status_code = result_skip;
          summary = codes "Network stack not available for ICMP";
        }
        | _ ↦ record r {
          status_code = result_fail;
          summary = q.no_reply config.target_ip;
          fail_reason = codes "ICMP echo request timed out";
          suggestion = codes "Check firewall rules, target IP, and network path";
        }
      ])
      else if g.reply_type == icmp_type_echo_reply
      then record r {
        packets_received = 1;
        status_code = result_pass;
        rtt_min_us = g.rtt_us;
        rtt_avg_us = g.rtt_us;
        rtt_max_us = g.rtt_us;
        summary = q.reply_in config.target_ip g.rtt_us;
      }
      else if g.reply_type == icmp_type_dest_unreach
      then record r {
        packets_received = 1;
        status_code = result_fail;
        summary = q.unreachable g.reply_code;
        suggestion = codes "Check routing and firewall configuration";
      }
      else record r {
        packets_received = 1;
        status_code = result_warn;
        summary = q.other_type g.reply_type g.reply_code;
      }

  -- TestL3IcmpEcho
  pub test_l3_icmp_echo : TestResult → W → EfiStatus × TestResult × W
  test_l3_icmp_echo r0 w =
      let sent = record r0 {
        packets_sent = 1;
        bytes_sent = ipv4_min_header_size + icmp_header_size + 32;
      } in
      let (got, w') = ask 1 32 (wait_or 3000) w in (success, echo_report got sent, w')

  -- The loop of TestL3IcmpSweep, with `left` pings to go and the number `i`.
  pub sweep_loop : ℕ → ℕ → SweepTally → TestResult → W → SweepTally × TestResult × W
  sweep_loop zero i t r w = (t, r, w)
  sweep_loop (suc left) i t r w =
      let sent = record r { packets_sent = count64 r.packets_sent } in
      let answered = record sent { packets_received = count64 sent.packets_received } in
      let (got, w1) = ask ((i + 1) % 65536) 32 (wait_or 2000) w in
      let w2 = if ltb 0 left then net.stall 200000 w1 else w1 in
      elim (is_echo_reply got) [
        | true ↦ sweep_loop left (i + 1) (tally_echo got.rtt_us t) answered w2
        | false ↦ sweep_loop left (i + 1) t sent w2
      ]

  -- TestL3IcmpSweep
  pub test_l3_icmp_sweep : TestResult → W → EfiStatus × TestResult × W
  test_l3_icmp_sweep r0 w =
      let count = sweep_count config.iterations in
      let none_yet : SweepTally = record {
        echoes = 0;
        min_rtt = 0xffffffff;
        max_rtt = 0;
        total_rtt = 0;
      } in
      let (t, r, w') = sweep_loop count 0 none_yet r0 w in (success, sweep_report q count t r, w')
