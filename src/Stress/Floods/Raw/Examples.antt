-- ===== src/Stress/Floods/Raw/Examples.antt =====
-- The ARP exchange and the raw frame flood of StressTest.c with a driver that never receives.
use ddtsoft_net_test.Base.{
  ℕ, ◌+◌, ◌≡◌, refl, true, false, none, some, copy_mem, store16, swap_bytes16,
}
use ddtsoft_net_test.Efi.{success, invalid_parameter, not_ready, timeout, device_error}
use ddtsoft_net_test.Runner.{codes}
use ddtsoft_net_test.Stress.{Driver, init_stats}
use ddtsoft_net_test.Stress.Floods.{StressNic, StressConfig, StressPrinter}
use ddtsoft_net_test.Stress.Floods.Raw.{
  same4, arp_reply_mac, is_queue_full, raw_frame, raw_iterations, resolve_loop, resolve_target_mac,
  wait_queue, count_raw, raw_round, raw_loop, drain, raw_frame_flood, stress_test_get_stats,
}

abbrev deaf : Driver ℕ
deaf = record {
  transmit = λ b n w. (success, w + 1);
  get_status = λ w. (false, w);
  receive = λ w. ((not_ready, (λ i. 0), 0), w);
  stall = λ t w. w + 1;
  get_time = λ w. ((success, record { hour = 1; minute = 2; second = 3 }), w);
}

-- Every transmission fails.
abbrev broken : Driver ℕ
broken = record deaf { transmit = λ b n w. (device_error, w + 1) }

abbrev nic : StressNic
nic = record { snp_initialized = none; current_address = λ i. 2; ipv4_address = λ i. 10 }

abbrev config : StressConfig
config = record { target_ip = λ i. 10; iterations = 2 }

abbrev printer : StressPrinter
printer = record {
  stress_ok = λ n k. codes "ok";
  stress_warn = λ k l n. codes "warn";
  stress_fail = λ k. codes "fail";
  stress_error = λ s. codes "error";
}

no_reply : resolve_loop deaf 2 (λ i. 10) 0 ≡ ((timeout, λ i. 0), 2)
unfolding resolve_loop
no_reply = refl

too_small : arp_reply_mac (λ i. 0) 41 (λ i. 10) ≡ none
unfolding arp_reply_mac
too_small = refl

same_address : same4 (λ i. 10) (λ i. 10) ≡ true
unfolding same4
same_address = refl

not_sent : (resolve_target_mac broken (λ i. 0) nic config 0).0.0 ≡ device_error
unfolding resolve_target_mac
not_sent = refl

frame_bytes :
    (raw_frame (λ i. 2) 5 ≡ 0xff) × (raw_frame (λ i. 2) 11 ≡ 2) × (raw_frame (λ i. 2) 63 ≡ 63)
unfolding raw_frame copy_mem store16 swap_bytes16
frame_bytes = (refl, refl, refl)

limits : (raw_iterations 0 ≡ 500) × (raw_iterations 60000 ≡ 50000)
unfolding raw_iterations
limits = (refl, refl)

one_round : (raw_loop deaf (raw_frame (λ i. 2)) 1 1 (init_stats 40000, 0)).0.packets_sent ≡ 1
unfolding raw_loop raw_round is_queue_full count_raw init_stats
one_round = refl

waits : (wait_queue deaf 3 0 ≡ 3) × (drain deaf 3 0 ≡ 0)
unfolding wait_queue drain
waits = (refl, refl)

no_driver : (raw_frame_flood deaf nic config (init_stats 40000) 0).0 ≡ not_ready
unfolding raw_frame_flood
no_driver = refl

null_nic :
    stress_test_get_stats deaf printer (λ i. 0) none (some config) 0 none 0
    ≡ (invalid_parameter, none, 0)
unfolding stress_test_get_stats
null_nic = refl
