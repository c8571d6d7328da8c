-- ===== src/Layer3/Tests/Gateway.antt =====
-- Source/Layer3Network.c: the test of the large packet and the test of the gateway.
pub mod Passes
use ddtsoft_net_test.Base.{
  ℕ, ◌+◌, ◌≡◌, ◌⊎◌, inl, inr, refl, arith, Bool-cases, Bool, true, false, not, ◌==◌, if◌then◌else◌,
}
use ddtsoft_net_test.Efi.{EfiStatus, success, not_ready, timeout, efi_error}
use ddtsoft_net_test.Packet.{ipv4_min_header_size, icmp_header_size, icmp_type_echo_reply}
use ddtsoft_net_test.Runner.{
  Text, codes, TestResult, result_pass, result_fail, result_skip, result_warn,
}
use ddtsoft_net_test.Layer3.{Ip, PingNic, PingConfig, PingReply, Network, Printer, is_same_subnet}
use ddtsoft_net_test.Layer3.Tests.{TestPrinter, has_gateway, ask, is_echo_reply}

module _ {W : Type 0} (net : Network W) (p : Printer) (q : TestPrinter) (nic : PingNic)
    (config : PingConfig) where
  -- What TestL3IpFragmentation reports of the reply to a payload of 1200 bytes.
  pub large_report : PingReply → TestResult → TestResult
  large_report g r =
      if is_echo_reply g
      then record r {
        packets_received = 1;
        status_code = result_pass;
        summary = q.large_ok 1200 g.rtt_us;
      }
      else if not (efi_error g.status)
      then record r {
        packets_received = 1;
        status_code = result_warn;
        summary = q.large_type 1200 g.reply_type g.reply_code;
      }
      else (elim g.status [
        | timeout ↦ record r {
          status_code = result_warn;
          summary = q.large_silent 1200;
          detail =
              codes "Frame sent successfully. Reply may require IP reassembly support on the path.";
        }
        | not_ready ↦ record r {
          status_code = result_fail;
          summary = q.large_failed 1200;
          suggestion = codes "NIC or IP4 stack may not support this frame size";
        }
        | _ ↦ record r {
          status_code = result_skip;
          summary = codes "Network stack not available for large ICMP test";
        }
      ])

  -- TestL3IpFragmentation
  pub test_l3_ip_fragmentation : TestResult → W → EfiStatus × TestResult × W
  test_l3_ip_fragmentation r0 w =
      let sent = record r0 {
        packets_sent = 1;
        bytes_sent = ipv4_min_header_size + icmp_header_size + 1200;
      } in
      let (got, w') = ask net p q nic config 200 1200 3000 w in (success, large_report got sent, w')

  -- TestL3RoutingTable
  pub test_l3_routing_table : TestResult → W → EfiStatus × TestResult × W
  test_l3_routing_table r0 w =
      let r = record r0 {
        detail =
            q.routing_detail nic.ipv4_address nic.subnet_mask nic.gateway nic.has_ip_config
              nic.has_ip4;
      } in
      let ((status, mac), w') = net.resolve_target_mac nic.ipv4_address nic.gateway 3000 w in
      let missing : TestResult = record r {
        status_code = result_warn;
        summary = codes "No default gateway configured";
        suggestion = codes "Configure a gateway for off-subnet routing";
      } in
      let off_subnet : TestResult = record r {
        status_code = result_warn;
        summary = q.gateway_off nic.gateway;
        suggestion = codes "Gateway should be on the same subnet as the NIC";
      } in
      let silent : TestResult = record r {
        status_code = result_fail;
        summary = q.gateway_silent nic.gateway;
        fail_reason = codes "ARP request for gateway timed out";
        suggestion = codes "Verify gateway is powered on and connected";
      } in
      let reached : TestResult = record r {
        status_code = result_pass;
        summary = q.gateway_ok nic.gateway mac;
      } in
      if not (has_gateway nic.gateway)
      then (success, missing, w)
      else if not (is_same_subnet nic.ipv4_address nic.gateway nic.subnet_mask)
      then (success, off_subnet, w)
      else if efi_error status
      then (success, silent, w')
      else (success, reached, w')
