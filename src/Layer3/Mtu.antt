-- ===== src/Layer3/Mtu.antt =====
-- TestL3MtuPathDiscovery of Source/Layer3Network.c on a path that carries payloads up to a size.
use ddtsoft_net_test.Base.{
  ℕ, zero, suc, ◌+◌, ◌-◌, ◌/◌, ◌%◌, ◌^◌, ◌≤◌, ◌<◌, ◌≡◌, refl, ap, ◌∙◌, arith, true, Option, some,
  ltb, leb, if◌then◌else◌, ◌⊎◌, inl, inr, dec_lt, min,
}
use ddtsoft_net_test.Efi.{success, timeout}
use ddtsoft_net_test.Packet.{icmp_type_echo_reply}
use ddtsoft_net_test.Runner.{codes, TestResult, result_pass, result_fail, result_warn, zero_result}
use ddtsoft_net_test.Layer3.{
  PingNic, PingConfig, Probe, Network, Printer, is_definite, l3_ping, mtu_loop, mtu_report,
  test_l3_mtu_path_discovery, count64,
}

-- The firmware's IP4 protocol is there; an echo request with `m` bytes of payload at most is answered
-- by an echo reply, and a larger one is not answered in time.
pub record IsPath {W : Type 0} (net : Network W) (nic : PingNic) (m : ℕ) : Type 0 where
  pub ip4 : nic.has_ip4 ≡ true
  pub configured : nic.has_ip_config ≡ true
  pub carries :
      (p : Probe) (w : W)
      → p.payload_size ≤ m
      → ((net.send_via_ip4 nic.ipv4_address nic.subnet_mask nic.gateway p w).0.status ≡ success)
        × ((net.send_via_ip4 nic.ipv4_address nic.subnet_mask nic.gateway p w).0.reply_type
            ≡ icmp_type_echo_reply)
  pub drops :
      (p : Probe) (w : W)
      → m < p.payload_size
      → (net.send_via_ip4 nic.ipv4_address nic.subnet_mask nic.gateway p w).0.status ≡ timeout

-- What the search has established: everything below `lo` is carried, nothing above `hi` is.
pub record IsBracket (m lo hi largest : ℕ) : Type 0 where
  pub above_seven : 8 ≤ lo
  pub closed_above : hi ≤ 1472
  pub near : lo ≤ hi + 1
  pub last_answered :
      ((lo ≡ 8) × (largest ≡ 0)) ⊎ ((largest + 1 ≡ lo) × (8 ≤ largest) × (largest ≤ m))
  pub first_dropped : (hi ≡ 1472) ⊎ (m ≤ hi)

abbrev pub found : ℕ → ℕ
found m = if ltb m 8 then 0 else min m 1472

bracket-found : (m lo hi largest : ℕ) → IsBracket m lo hi largest → hi < lo → largest ≡ found m
bracket-found m lo hi largest b lt = elim b.last_answered [
  | inl (e, z) ↦ elim b.first_dropped [
    | inl top ↦ absurd (omega arith)
    | inr le ↦ ground (arith, b.near, b.above_seven)
  ]
  | inr (e, low, le) ↦ elim b.first_dropped [
    | inl top ↦ ground (arith, b.near, b.above_seven)
    | inr le' ↦ ground (arith, b.near, b.above_seven)
  ]
]

module _ {W : Type 0} (net : Network W) (p : Printer) (nic : PingNic) (config : PingConfig) (m : ℕ)
    (path : IsPath net nic m) where
  ping_answered :
      (probe : Probe) (w : W)
      → probe.payload_size ≤ m
      → ((l3_ping net p nic config probe w).0.status ≡ success)
        × ((l3_ping net p nic config probe w).0.reply_type ≡ icmp_type_echo_reply)
  unfolding l3_ping is_definite
  ping_answered probe w le =
      let c = path.carries probe w le in
      (
        ground (arith, path.ip4, path.configured, c.0),
        ground (arith, path.ip4, path.configured, c.0, c.1),
      )

  ping_dropped :
      (probe : Probe) (w : W)
      → m < probe.payload_size
      → (l3_ping net p nic config probe w).0.status ≡ timeout
  unfolding l3_ping is_definite
  ping_dropped probe w lt = ground (arith, path.ip4, path.configured, path.drops probe w lt)

  module _ (lo hi seq : ℕ) (r : TestResult) (w : W) where
    abbrev mid : ℕ
    mid = (lo + hi) / 2

    abbrev next : ℕ
    next = (seq + 1) % 65536

    abbrev probe : Probe
    probe = record {
      dst_ip = config.target_ip;
      seq_num = next;
      ttl = 64;
      payload_size = mid;
      timeout_ms = 2000;
    }

    abbrev sent : TestResult
    sent = record r { packets_sent = count64 r.packets_sent }

    abbrev answered : TestResult
    answered = record sent { packets_received = count64 r.packets_received }

    abbrev after : W
    after = net.stall 200000 (l3_ping net p nic config probe w).1

    step_over :
        (fuel largest : ℕ)
        → hi < lo
        → mtu_loop net p nic config (suc fuel) lo hi largest seq r w ≡ some (largest, r, w)
    unfolding mtu_loop
    step_over fuel largest lt = ground arith

    step_up :
        (fuel largest : ℕ)
        → lo ≤ hi
        → mid ≤ m
        → mtu_loop net p nic config (suc fuel) lo hi largest seq r w
          ≡ mtu_loop net p nic config fuel (mid + 1) hi mid next answered after
    unfolding mtu_loop
    step_up fuel largest le fits = let a = ping_answered probe w fits in ground (arith, a.0, a.1)

    step_down :
        (fuel largest : ℕ)
        → lo ≤ hi
        → 8 ≤ lo
        → m < mid
        → mtu_loop net p nic config (suc fuel) lo hi largest seq r w
          ≡ mtu_loop net p nic config fuel lo (mid - 1) largest next sent after
    unfolding mtu_loop
    step_down fuel largest le low big = ground (arith, ping_dropped probe w big)

  -- The loop has ended with the right size, after `k` packets at most.
  abbrev Ends : ℕ → Option (ℕ × TestResult × W) → Type 0
  Ends k o = (r : TestResult) × (w : W) × (o ≡ some (found m, r, w)) × (r.packets_sent ≤ k)

  over_ends :
      (fuel lo hi largest seq : ℕ) (r : TestResult) (w : W) (k : ℕ)
      → IsBracket m lo hi largest
      → hi < lo
      → r.packets_sent ≤ k
      → Ends k (mtu_loop net p nic config (suc fuel) lo hi largest seq r w)
  over_ends fuel lo hi largest seq r w k b over le =
      let same : some (largest, r, w) ≡ some (found m, r, w) =
        ap (λ (n : ℕ). some (n, r, w)) (bracket-found m lo hi largest b over) in
      (r, w, step_over lo hi seq r w fuel largest over ∙ same, le)

  mtu_loop_lem :
      (fuel lo hi largest seq : ℕ) (r : TestResult) (w : W) (k : ℕ)
      → IsBracket m lo hi largest
      → hi + 1 - lo < 2 ^ fuel
      → r.packets_sent + fuel ≤ k
      → k < 2 ^ 64
      → Ends k (mtu_loop net p nic config (suc fuel) lo hi largest seq r w)
  mtu_loop_lem zero lo hi largest seq r w k b small le room =
      over_ends zero lo hi largest seq r w k b (omega (arith, b.near)) (omega arith)
  mtu_loop_lem (suc fuel) lo hi largest seq r w k b small le room = elim (dec_lt hi lo) [
    | yes over ↦ over_ends (suc fuel) lo hi largest seq r w k b over (omega arith)
    | no more ↦ elim (dec_lt m (mid lo hi seq r w)) [
      | yes big ↦ rw (step_down lo hi seq r w (suc fuel) largest (omega arith) b.above_seven big) (
          mtu_loop_lem fuel lo (mid lo hi seq r w - 1) largest (next lo hi seq r w)
            (sent lo hi seq r w) (after lo hi seq r w) k
            (record {
              above_seven = b.above_seven;
              closed_above = omega (arith, b.closed_above);
              near = omega (arith, b.above_seven);
              last_answered = b.last_answered;
              first_dropped = inr (omega arith);
            })
            (omega arith) (omega arith) room)
      | no fits ↦ rw (step_up lo hi seq r w (suc fuel) largest (omega arith) (omega arith)) (
          mtu_loop_lem fuel (mid lo hi seq r w + 1) hi (mid lo hi seq r w) (next lo hi seq r w)
            (answered lo hi seq r w) (after lo hi seq r w) k
            (record {
              above_seven = omega (arith, b.above_seven);
              closed_above = b.closed_above;
              near = omega arith;
              last_answered = inr (refl, omega (arith, b.above_seven), omega arith);
              first_dropped = b.first_dropped;
            })
            (omega arith) (omega arith) room)
    ]
  ]

  -- On a path that carries payloads of `m` bytes, the search of TestL3MtuPathDiscovery ends after
  -- eleven probes at most. It passes if the path carries 1472 bytes, a full Ethernet packet; it warns
  -- and names the path's MTU exactly, 28 bytes more than `m`, if it carries 8 bytes at least but not
  -- so many; and else it fails.
  pub test_l3_mtu_path_discovery_lem :
      (w : W)
      → (r : TestResult) × (w' : W) × (test_l3_mtu_path_discovery net p nic config 12 zero_result w
          ≡ some (success, r, w'))
        × (r.packets_sent ≤ 11)
        × (r.status_code
            ≡ (if leb 1472 m then result_pass else if leb 8 m then result_warn else result_fail))
        × (r.summary ≡ (
            if leb 8 m
            then p.path_mtu (28 + min m 1472) (min m 1472)
            else codes "Path MTU discovery failed: no replies received"))
  unfolding test_l3_mtu_path_discovery mtu_report
  test_l3_mtu_path_discovery_lem w =
      let start : IsBracket m 8 1472 0 = record {
        above_seven = omega arith;
        closed_above = omega arith;
        near = omega arith;
        last_answered = inl (refl, refl);
        first_dropped = inl refl;
      } in
      let (r, w', ends, few) =
        mtu_loop_lem 11 8 1472 0 100 zero_result w 11 start (omega arith) (omega arith)
          (omega arith) in
      let reported : (mtu_report net p nic config (found m) r).summary ≡ (
          if leb 8 m
          then p.path_mtu (28 + min m 1472) (min m 1472)
          else codes "Path MTU discovery failed: no replies received") =
        elim (dec_lt m 8) [
          | yes lt ↦ let e : found m ≡ 0 = ground arith in rw e (ground arith)
          | no ge ↦ let e : found m ≡ min m 1472 = ground arith in rw e (ground arith)
        ] in
      (
        mtu_report net p nic config (found m) r,
        w',
        ground (arith, ends),
        ground (arith, few),
        ground arith,
        reported,
      )
