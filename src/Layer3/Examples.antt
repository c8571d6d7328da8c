-- ===== src/Layer3/Examples.antt =====
-- The tests of Layer3Network.c on a path that carries 1372 bytes to a target two hops away.
use ddtsoft_net_test.Base.{
  ℕ, ◌+◌, ◌≤◌, ◌<◌, ◌≡◌, refl, arith, true, none, some, leb, if◌then◌else◌, ◌⊎◌, [], ◌∷◌, min,
}
use ddtsoft_net_test.Efi.{EfiStatus, success, timeout, not_ready}
use ddtsoft_net_test.Runner.{codes, TestResult, result_pass, result_fail, result_warn, zero_result}
use ddtsoft_net_test.Layer3.{
  Ip, PingNic, PingConfig, Probe, PingReply, Network, Printer, bit_and, is_same_subnet, next_hop,
  ping_via_snp, resolve_next_hop_mac, test_l3_mtu_path_discovery, test_l3_ttl_hop_discovery,
}
use ddtsoft_net_test.Layer3.Mtu.{IsPath, test_l3_mtu_path_discovery_lem}
use ddtsoft_net_test.Layer3.Hops.{IsAway, other, test_l3_ttl_hop_discovery_lem}

abbrev ip : ℕ → Ip
ip last = record { b0 = 10; b1 = 0; b2 = 0; b3 = last }

abbrev nic : PingNic
nic = record {
  has_ip4 = true;
  has_ip_config = true;
  ipv4_address = ip 2;
  subnet_mask = record { b0 = 255; b1 = 255; b2 = 255; b3 = 0 };
  gateway = ip 1;
  snp_initialized = none;
}

abbrev config : PingConfig
config = record {
  local_ip = ip 2;
  target_ip = record { b0 = 10; b1 = 9; b2 = 0; b3 = 7 };
  subnet_mask = record { b0 = 255; b1 = 255; b2 = 255; b3 = 0 };
  gateway = ip 1;
  iterations = 4;
  timeout_ms = 0;
}

abbrev printer : Printer
printer = record {
  reached = λ h r. h ∷ r ∷ [];
  hops_detail = λ n h. n ∷ h ∷ [];
  not_reached = λ n. n ∷ [];
  path_mtu = λ n k. n ∷ k ∷ [];
  mtu_detail = λ n k. n ∷ k ∷ [];
}

abbrev reply : EfiStatus → ℕ → PingReply
reply s t = record { status = s; rtt_us = 250; reply_type = t; reply_code = 0 }

-- The network's state counts the packets.
abbrev narrow : Network ℕ
narrow = record {
  send_via_ip4 =
      λ a m g p w. (if leb p.payload_size 1372 then reply success 0 else reply timeout 0, w + 1);
  send_via_snp = λ mac a p w. (reply timeout 0, w + 1);
  resolve_target_mac = λ a b t w. ((timeout, λ i. 0), w);
  stall = λ t w. w;
}

narrow-IsPath : IsPath narrow nic 1372
narrow-IsPath = record {
  ip4 = refl;
  configured = refl;
  carries = λ p w le. (ground arith, ground arith);
  drops = λ p w lt. ground arith;
}

test_l3_mtu_path_discovery_lem_example :
    (r : TestResult) × (w' : ℕ) × (test_l3_mtu_path_discovery narrow printer nic config 12
        zero_result 0
      ≡ some (success, r, w'))
    × (r.packets_sent ≤ 11)
    × (r.status_code
        ≡ (if leb 1472 1372 then result_pass else if leb 8 1372 then result_warn else result_fail))
    × (r.summary ≡ (
        if leb 8 1372
        then printer.path_mtu (28 + min 1372 1472) (min 1372 1472)
        else codes "Path MTU discovery failed: no replies received"))
test_l3_mtu_path_discovery_lem_example =
    test_l3_mtu_path_discovery_lem narrow printer nic config 1372 narrow-IsPath 0

abbrev probe : Probe
probe = record { dst_ip = ip 9; seq_num = 1; ttl = 64; payload_size = 8; timeout_ms = 100 }

-- The router on the way answers with Time Exceeded.
abbrev routed : Network ℕ
routed = record {
  send_via_ip4 = λ a m g p w. (if leb 2 p.ttl then reply success 0 else reply success 11, w + 1);
  send_via_snp = λ mac a p w. (reply timeout 0, w + 1);
  resolve_target_mac = λ a b t w. ((timeout, λ i. 0), w);
  stall = λ t w. w;
}

routed-IsAway : IsAway routed nic 2
routed-IsAway = record {
  ip4 = refl;
  configured = refl;
  reaches = λ p w le. record { answered = ground arith; echo = ground arith };
  expires = λ p w lt. other (ground arith) (ground arith);
}

test_l3_ttl_hop_discovery_lem_example :
    (r : TestResult) × (w' : ℕ) × (test_l3_ttl_hop_discovery routed printer nic config zero_result 0
      ≡ (success, r, w'))
    × (r.packets_sent ≡ min 2 16)
    × (((2 ≤ 16)
          × (r.status_code ≡ result_pass)
          × ((rtt : ℕ) × (r.summary ≡ printer.reached 2 rtt)))
        ⊎ ((16 < 2) × ((r.status_code ≡ result_warn) ⊎ (r.status_code ≡ result_fail))))
test_l3_ttl_hop_discovery_lem_example =
    test_l3_ttl_hop_discovery_lem routed printer nic config 2 routed-IsAway 0 (omega arith)

-- Another subnet: the gateway is asked for.
gateway_first : next_hop config ≡ config.gateway
unfolding next_hop is_same_subnet bit_and
gateway_first = refl

no_driver : (ping_via_snp narrow printer nic config probe 0).0.status ≡ not_ready
unfolding ping_via_snp
no_driver = refl

unresolved : (resolve_next_hop_mac narrow printer nic config 0).0.0 ≡ timeout
unfolding resolve_next_hop_mac
unresolved = refl
