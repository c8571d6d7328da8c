-- ===== src/Stress/Floods/Examples.antt =====
-- The theorem on StressTestGetStats with a driver that sends, and never receives.
use ddtsoft_net_test.Base.{ℕ, ◌+◌, ◌≤◌, ◌≡◌, refl, arith, true, false, none, some, [], ◌∷◌, Bytes}
use ddtsoft_net_test.Efi.{EfiStatus, success, not_ready}
use ddtsoft_net_test.Packet.Parser.{zeroed, parse_packet}
use ddtsoft_net_test.Runner.{codes, TestResult}
use ddtsoft_net_test.Stress.{StressStats, Driver, Ends, iterations, init_stats}
use ddtsoft_net_test.Stress.Floods.{
  StressNic, StressConfig, StressPrinter, icmp_flood, run_flood, get_stats, mode_icmp_flood,
  is_reply, rtt_of, udp_flood, udp_loop, udp_round,
}
use ddtsoft_net_test.Stress.Floods.Verdict.{verdict, get_stats_icmp_lem}

-- The state counts the milliseconds.
abbrev deaf : Driver ℕ
deaf = record {
  transmit = λ b n w. (success, w + 1);
  get_status = λ w. (true, w);
  receive = λ w. ((not_ready, (λ i. 0), 0), w);
  stall = λ t w. w + 1;
  get_time = λ w. ((success, record { hour = 1; minute = 2; second = 3 }), w);
}

abbrev printer : StressPrinter
printer = record {
  stress_ok = λ n k. n ∷ k ∷ [];
  stress_warn = λ k l n. k ∷ l ∷ n ∷ [];
  stress_fail = λ k. k ∷ [];
  stress_error = λ s. codes "Stress test failed";
}

abbrev nic : StressNic
nic = record { snp_initialized = some true; current_address = λ i. 2; ipv4_address = λ i. 10 }

abbrev config : StressConfig
config = record { target_ip = λ i. 10; iterations = 2 }

abbrev resolve : StressNic → StressConfig → ℕ → (EfiStatus × Bytes) × ℕ
resolve n c w = ((success, λ i. 6), w)

abbrev raw : StressNic → StressConfig → StressStats → ℕ → EfiStatus × StressStats × ℕ
raw n c s w = (success, s, w)

abbrev ran : EfiStatus × TestResult × ℕ
ran = get_stats deaf printer resolve raw (λ i. 0) nic config mode_icmp_flood 0

get_stats_icmp_lem_example :
    (ran.1.packets_received ≤ ran.1.packets_sent)
    × (ran.1.packets_sent ≤ iterations config.iterations 100)
    × (ran.1.status_code ≡ verdict ran.1.packets_sent ran.1.packets_received)
get_stats_icmp_lem_example =
    get_stats_icmp_lem deaf printer resolve raw (λ i. 0) nic config 0 ran.2 ran.1
      (unfold get_stats run_flood icmp_flood in refl)

polls_as_time : rtt_of 100 100 7 ≡ 7000
unfolding rtt_of
polls_as_time = refl

no_packet :
    (b : Bytes) (n seq : ℕ)
    → (parse_packet (some b) n (some zeroed)).1 ≡ none
    → is_reply b n seq ≡ false
unfolding is_reply
no_packet b n seq h = ground (arith, h)

abbrev ends : Ends
ends = record {
  current_address = λ i. 2;
  ipv4_address = λ i. 10;
  target_ip = λ i. 10;
  target_mac = λ i. 6;
}

udp_sent : (udp_loop deaf ends 1 1 ((λ i. 0), init_stats 40000, 0)).1.packets_sent ≡ 1
unfolding udp_loop udp_round init_stats
udp_sent = refl

udp_not_ready :
    (udp_flood deaf printer resolve raw
      (λ i. 0)
      (record nic { snp_initialized = none })
      config
      (init_stats 40000)
      0).0
    ≡ not_ready
unfolding udp_flood
udp_not_ready = refl
