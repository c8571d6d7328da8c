-- ===== src/Layer3/Hops.antt =====
-- TestL3TtlHopDiscovery of Source/Layer3Network.c with a target some hops away.
use ddtsoft_net_test.Base.{
  ℕ, zero, suc, ◌+◌, ◌≤◌, ◌<◌, ◌≡◌, ◌≢◌, refl, arith, true, Option, none, some, ◌⊎◌, inl, inr,
  dec_lt, min,
}
use ddtsoft_net_test.Efi.{success, timeout}
use ddtsoft_net_test.Packet.{icmp_type_echo_reply}
use ddtsoft_net_test.Runner.{codes, TestResult, result_pass, result_fail, result_warn, zero_result}
use ddtsoft_net_test.Layer3.{
  PingNic, PingConfig, Probe, PingReply, Network, Printer, is_definite, l3_ping, ttl_loop,
  test_l3_ttl_hop_discovery, count64,
}

-- A reply of the target, and what comes from a router on the way: nothing in time, or another message.
pub record IsTargets (r : PingReply) : Type 0 where
  pub answered : r.status ≡ success
  pub echo : r.reply_type ≡ icmp_type_echo_reply

pub data IsRouters (r : PingReply) : Type 0 where
  silent : r.status ≡ timeout → IsRouters r
  other : r.status ≡ success → r.reply_type ≢ icmp_type_echo_reply → IsRouters r

-- The firmware's IP4 protocol is there, and the target is `h` hops away.
pub record IsAway {W : Type 0} (net : Network W) (nic : PingNic) (h : ℕ) : Type 0 where
  pub ip4 : nic.has_ip4 ≡ true
  pub configured : nic.has_ip_config ≡ true
  pub reaches :
      (p : Probe) (w : W)
      → h ≤ p.ttl
      → IsTargets (net.send_via_ip4 nic.ipv4_address nic.subnet_mask nic.gateway p w).0
  pub expires :
      (p : Probe) (w : W)
      → p.ttl < h
      → IsRouters (net.send_via_ip4 nic.ipv4_address nic.subnet_mask nic.gateway p w).0

module _ {W : Type 0} (net : Network W) (p : Printer) (nic : PingNic) (config : PingConfig) (h : ℕ)
    (away : IsAway net nic h) where
  ping_same :
      (probe : Probe) (w : W)
      → is_definite (net.send_via_ip4 nic.ipv4_address nic.subnet_mask nic.gateway probe w).0.status
        ≡ true
      → l3_ping net p nic config probe w
        ≡ net.send_via_ip4 nic.ipv4_address nic.subnet_mask nic.gateway probe w
  unfolding l3_ping
  ping_same probe w d = ground (arith, away.ip4, away.configured, d)

  ping_target :
      (probe : Probe) (w : W) → h ≤ probe.ttl → IsTargets (l3_ping net p nic config probe w).0
  ping_target probe w le =
      let t = away.reaches probe w le in
      let d : is_definite
            (net.send_via_ip4 nic.ipv4_address nic.subnet_mask nic.gateway probe w).0.status
          ≡ true =
        unfold is_definite in ground (arith, t.answered) in
      rw (ping_same probe w d) t

  ping_router :
      (probe : Probe) (w : W) → probe.ttl < h → IsRouters (l3_ping net p nic config probe w).0
  ping_router probe w lt =
      let t = away.expires probe w lt in
      let d : is_definite
            (net.send_via_ip4 nic.ipv4_address nic.subnet_mask nic.gateway probe w).0.status
          ≡ true =
        elim t [
          | silent e ↦ unfold is_definite in ground (arith, e)
          | other e n ↦ unfold is_definite in ground (arith, e)
        ] in
      rw (ping_same probe w d) t

  module _ (ttl hops : ℕ) (r : TestResult) (w : W) where
    abbrev probe : Probe
    probe = record {
      dst_ip = config.target_ip;
      seq_num = ttl;
      ttl = ttl;
      payload_size = 32;
      timeout_ms = 2000;
    }

    abbrev sent : TestResult
    sent = record r { packets_sent = count64 r.packets_sent }

    abbrev answered : TestResult
    answered = record sent { packets_received = count64 r.packets_received }

    abbrev got : PingReply × W
    got = l3_ping net p nic config probe w

    step_target :
        (left : ℕ)
        → h ≤ ttl
        → ttl_loop net p nic config (suc left) ttl hops r w
          ≡ (ttl, hops + 1, some got.0.rtt_us, answered, got.1)
    unfolding ttl_loop
    step_target left le = let t = ping_target probe w le in ground (arith, t.answered, t.echo)

    step_router :
        (left : ℕ)
        → ttl < h
        → (hops' : ℕ) × (r' : TestResult) × (ttl_loop net p nic config (suc left) ttl hops r w
            ≡ ttl_loop net p nic config left (ttl + 1) hops' r' (net.stall 100000 got.1))
          × (r'.packets_sent ≡ count64 r.packets_sent)
    unfolding ttl_loop
    step_router left lt = elim (ping_router probe w lt) [
      | silent e ↦ (hops, sent, ground (arith, e), refl)
      | other e n ↦ (hops + 1, answered, ground (arith, e, n), refl)
    ]

  -- How the loop ends, after `k` packets: at the target, or with no reply from it.
  abbrev Ends : ℕ → ℕ × ℕ × Option ℕ × TestResult × W → Type 0
  Ends k o =
      (o.3.packets_sent ≡ k)
      × (((h ≤ 16) × (o.0 ≡ h) × ((rtt : ℕ) × (o.2 ≡ some rtt))) ⊎ ((16 < h) × (o.2 ≡ none)))

  ttl_loop_lem :
      (left ttl hops : ℕ) (r : TestResult) (w : W)
      → ttl + left ≡ 17
      → ttl ≤ h
      → r.packets_sent + 1 ≡ ttl
      → Ends (min h 16) (ttl_loop net p nic config left ttl hops r w)
  ttl_loop_lem zero ttl hops r w e le c = unfold ttl_loop in (omega arith, inr (omega arith, refl))
  ttl_loop_lem (suc left) ttl hops r w e le c = elim (dec_lt ttl h) [
    | yes lt ↦
        let (hops', r', same, k) = step_router ttl hops r w left lt in
        rw same (
          ttl_loop_lem left (ttl + 1) hops' r' (net.stall 100000 (got ttl hops r w).1) (omega arith)
            (omega arith) (omega (arith, k)))
    | no ge ↦
        rw (step_target ttl hops r w left (omega arith))
          (omega arith, inl (omega arith, omega arith, ((got ttl hops r w).0.rtt_us, refl)))
  ]

  -- With the target `h` hops away, TestL3TtlHopDiscovery probes the distances from 1 on until it
  -- reaches the target, up to 16. It passes exactly if the target is at most 16 hops away, and then
  -- reports that distance, even when no router on the way has answered; else it warns or fails.
  pub test_l3_ttl_hop_discovery_lem :
      (w : W)
      → 0 < h
      → (r : TestResult) × (w' : W) × (test_l3_ttl_hop_discovery net p nic config zero_result w
          ≡ (success, r, w'))
        × (r.packets_sent ≡ min h 16)
        × (((h ≤ 16) × (r.status_code ≡ result_pass) × ((rtt : ℕ) × (r.summary ≡ p.reached h rtt)))
            ⊎ ((16 < h) × ((r.status_code ≡ result_warn) ⊎ (r.status_code ≡ result_fail))))
  unfolding test_l3_ttl_hop_discovery
  test_l3_ttl_hop_discovery_lem w pos =
      let o = ttl_loop net p nic config 16 1 0 zero_result w in
      let ends = ttl_loop_lem 16 1 0 zero_result w refl (omega arith) refl in
      elim ends.1 [
        | inl (le, at, (rtt, e)) ↦
            let r : TestResult = record o.3 {
              status_code = result_pass;
              rtt_min_us = rtt;
              rtt_avg_us = rtt;
              rtt_max_us = rtt;
              summary = p.reached o.0 rtt;
              detail = p.hops_detail o.1 o.0;
            } in
            (
              r,
              o.4,
              rw (e, test_l3_ttl_hop_discovery) refl,
              ends.0,
              inl (le, refl, (rtt, rw at refl)),
            )
        | inr (gt, e) ↦ elim (dec_lt 0 o.1) [
          | yes some_hops ↦
              let r : TestResult = record o.3 {
                status_code = result_warn;
                summary = p.not_reached o.1;
                suggestion = codes "Target may be more than 16 hops away or blocking ICMP";
              } in
              (
                r,
                o.4,
                rw (e, test_l3_ttl_hop_discovery) (ground (arith, some_hops)),
                ends.0,
                inr (gt, inl refl),
              )
          | no no_hops ↦
              let r : TestResult = record o.3 {
                status_code = result_fail;
                summary = codes "No hops responded (0/16)";
                fail_reason = codes "No ICMP Time Exceeded or Echo Reply received";
                suggestion = codes "Check gateway reachability and ICMP filtering";
              } in
              (
                r,
                o.4,
                rw (e, test_l3_ttl_hop_discovery) (ground (arith, no_hops)),
                ends.0,
                inr (gt, inr refl),
              )
        ]
      ]
