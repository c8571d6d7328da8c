-- ===== src/Layer3/Tests/Examples.antt =====
-- The tests of Layer3Network.c with a target that answers every other ping.
use ddtsoft_net_test.Base.{
  ℕ, ◌+◌, ◌%◌, ◌^◌, ◌<◌, ◌≡◌, ◌≢◌, ◌↔◌, ◌⊎◌, refl, arith, true, false, none, ◌==◌, if◌then◌else◌,
  [],
}
use ddtsoft_net_test.Efi.{success, timeout, efi_error}
use ddtsoft_net_test.Runner.{result_pass, result_warn, zero_result}
use ddtsoft_net_test.Layer3.{
  Ip, PingNic, PingConfig, Probe, Network, Printer, l3_ping, failed, is_definite, ping_via_snp,
}
use ddtsoft_net_test.Layer3.Tests.{
  TestPrinter, has_gateway, sweep_count, test_l3_icmp_sweep, ask, wait_or, test_l3_ip_config_check,
  test_l3_icmp_echo,
}
use ddtsoft_net_test.Layer3.Tests.Gateway.{test_l3_ip_fragmentation, test_l3_routing_table}
use ddtsoft_net_test.Layer3.Tests.Gateway.Passes.{no_address, IsAnswered, tests_pass_iff}
use ddtsoft_net_test.Layer3.Subnet.{IsOneSubnet}
use ddtsoft_net_test.Layer3.Tests.Sweep.{IsReport, echo_times, test_l3_icmp_sweep_lem}

abbrev ip : ℕ → Ip
ip last = record { b0 = 10; b1 = 0; b2 = 0; b3 = last }

abbrev nic : PingNic
nic = record {
  has_ip4 = true;
  has_ip_config = true;
  ipv4_address = ip 2;
  subnet_mask = record { b0 = 255; b1 = 255; b2 = 255; b3 = 0 };
  gateway = ip 1;
  snp_initialized = none;
}

abbrev config : PingConfig
config = record {
  local_ip = ip 2;
  target_ip = ip 7;
  subnet_mask = record { b0 = 255; b1 = 255; b2 = 255; b3 = 0 };
  gateway = ip 1;
  iterations = 4;
  timeout_ms = 0;
}

abbrev printer : Printer
printer = record {
  reached = λ h r. [];
  hops_detail = λ n h. [];
  not_reached = λ n. [];
  path_mtu = λ n k. [];
  mtu_detail = λ n k. [];
}

abbrev test_printer : TestPrinter
test_printer = record {
  ip_detail = λ a b c. [];
  ip_ok = λ a b c. [];
  ip_alone = λ a. [];
  no_reply = λ a. [];
  reply_in = λ a n. [];
  unreachable = λ n. [];
  other_type = λ n m. [];
  sweep_ok = λ a b c d e. [];
  sweep_loss = λ a b c d. [];
  sweep_silent = λ n. [];
  large_ok = λ a b. [];
  large_type = λ a b c. [];
  large_silent = λ n. [];
  large_failed = λ n. [];
  routing_detail = λ a b c d e. [];
  gateway_off = λ a. [];
  gateway_silent = λ a. [];
  gateway_ok = λ a m. [];
}

-- Pings with an odd number are answered after a time that grows.
abbrev half : Network ℕ
half = record {
  send_via_ip4 = λ a m g p w. (
    record {
      status = if p.seq_num % 2 == 1 then success else timeout;
      rtt_us = (200 + w) % 2 ^ 32;
      reply_type = 0;
      reply_code = 0;
    },
    w + 1,
  );
  send_via_snp = λ mac a p w. (failed timeout, w);
  resolve_target_mac = λ a b t w. ((success, λ i. 7), w);
  stall = λ t w. w + 10;
}

half_fits : (probe : Probe) (w : ℕ) → (l3_ping half printer nic config probe w).0.rtt_us < 2 ^ 32
unfolding l3_ping is_definite ping_via_snp
half_fits probe w = grind arith

test_l3_icmp_sweep_lem_example :
    ((test_l3_icmp_sweep half printer test_printer nic config zero_result 0).0 ≡ success)
    × IsReport
        (sweep_count 4)
        (echo_times half printer test_printer nic config (sweep_count 4) 0 0)
        (test_l3_icmp_sweep half printer test_printer nic config zero_result 0).1
test_l3_icmp_sweep_lem_example =
    test_l3_icmp_sweep_lem half printer test_printer nic config half_fits 0

counts : (sweep_count 4 ≡ 4) × (sweep_count 0 ≡ 5) × (sweep_count 11 ≡ 5)
unfolding sweep_count
counts = (refl, refl, refl)

gateways :
    (has_gateway (ip 1) ≡ true) × (has_gateway (record { b0 = 0; b1 = 0; b2 = 0; b3 = 0 }) ≡ false)
unfolding has_gateway
gateways = (refl, refl)

tests_pass_iff_example :
    (((test_l3_ip_config_check test_printer nic zero_result).1.status_code ≡ result_pass)
      ↔ ((nic.has_ip4 ≡ true) × (nic.has_ip_config ≡ true) × (nic.gateway ≢ no_address)))
    × (((test_l3_ip_config_check test_printer nic zero_result).1.status_code ≡ result_warn)
        ↔ ((nic.has_ip4 ≡ true) × (nic.has_ip_config ≡ true) × (nic.gateway ≡ no_address)))
    × (((test_l3_icmp_echo half printer test_printer nic config zero_result 5).1.status_code
          ≡ result_pass)
        ↔ IsAnswered
            (ask half printer test_printer nic config 1 32
              (wait_or half printer test_printer nic config 3000)
              5).0)
    × (((test_l3_ip_fragmentation half printer test_printer nic config zero_result 5).1.status_code
          ≡ result_pass)
        ↔ IsAnswered (ask half printer test_printer nic config 200 1200 3000 5).0)
    × (((test_l3_routing_table half printer test_printer nic config zero_result 5).1.status_code
          ≡ result_pass)
        ↔ ((nic.gateway ≢ no_address)
            × IsOneSubnet nic.ipv4_address nic.gateway nic.subnet_mask
            × (efi_error (half.resolve_target_mac nic.ipv4_address nic.gateway 3000 5).0.0
                ≡ false)))
    × (((test_l3_routing_table half printer test_printer nic config zero_result 5).1.status_code
          ≡ result_warn)
        ↔ ((nic.gateway ≡ no_address)
            ⊎ (¬ IsOneSubnet nic.ipv4_address nic.gateway nic.subnet_mask)))
tests_pass_iff_example = tests_pass_iff half printer test_printer nic config zero_result 5
