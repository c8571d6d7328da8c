-- ===== src/Stress/Floods/Verdict.antt =====
-- What StressTestGetStats of Source/StressTest.c reports of an ICMP flood.
use native.Mathlib.Nat.{div-lt_iff_lt-mul}
use ddtsoft_net_test.Base.{
  ℕ, zero, suc, ◌-◌, ◌*◌, ◌/◌, ◌%◌, ◌^◌, ◌≤◌, ◌≡◌, refl, arith, ltb, leb, ◌==◌, if◌then◌else◌,
  Bytes, inl, inr, Bool-cases, Option-cases,
}
use ddtsoft_net_test.Efi.{EfiStatus, success, efi_error}
use ddtsoft_net_test.Runner.{TestResult, result_pass, result_fail, result_warn}
use ddtsoft_net_test.Stress.{StressStats, sub64, init_stats, Driver, timestamp, iterations}
use ddtsoft_net_test.Stress.Floods.{
  icmp_loop, StressNic, StressConfig, StressPrinter, mode_icmp_flood, loss_pct, packets_lost,
  fill_rtt, fill_stats, icmp_flood, run_flood, get_stats, ends_at,
}
use ddtsoft_net_test.Stress.Floods.Fair.{IsFair, loop-IsFair}

-- PASS when less than 2 % of the packets are lost, or none was sent; WARN when less than 11 % are; else
-- FAIL.
abbrev pub verdict : ℕ → ℕ → ℕ
verdict sent received =
    let lost = sent - received in
    if sent == 0
    then result_pass
    else if ltb (lost * 100) (2 * sent)
    then result_pass
    else if ltb (lost * 100) (11 * sent)
    then result_warn
    else result_fail

-- The tests of the percentage, which is rounded down.
verdict_by_percent :
    (sent received : ℕ)
    → let pct = if sent == 0 then 0 else (sent - received) * 100 / sent in
      (if leb pct 1 then result_pass else if leb pct 10 then result_warn else result_fail)
      ≡ verdict sent received
verdict_by_percent zero received = refl
verdict_by_percent (suc n) received =
    let lost = suc n - received in
    let two = div-lt_iff_lt-mul {k = suc n} {x = lost * 100} {y = 2} (omega arith) in
    let eleven = div-lt_iff_lt-mul {k = suc n} {x = lost * 100} {y = 11} (omega arith) in
    ground (arith, two.0, two.1, eleven.0, eleven.1)

loss_pct-eq :
    (sent received : ℕ)
    → sent ≤ 10000
    → loss_pct sent received ≡ (if sent == 0 then 0 else (sent - received) * 100 / sent)
unfolding loss_pct packets_lost
loss_pct-eq sent received le =
    let e : (if ltb received sent then sent - received else 0) ≡ sent - received = ground arith in
    let small : (sent - received) * 100 % 2 ^ 64 ≡ (sent - received) * 100 = omega arith in
    rw (e, small) (ground arith)

fill_stats_lem :
    (p : StressPrinter) (elapsed : ℕ) (s : StressStats)
    → s.packets_sent ≤ 10000
    → ((fill_stats p elapsed s).packets_sent ≡ s.packets_sent)
      × ((fill_stats p elapsed s).packets_received ≡ s.packets_received)
      × ((fill_stats p elapsed s).status_code ≡ verdict s.packets_sent s.packets_received)
unfolding fill_stats fill_rtt
fill_stats_lem p elapsed s le = (
  ground arith,
  ground arith,
  rw (loss_pct-eq s.packets_sent s.packets_received le)
      (ground (arith, verdict_by_percent s.packets_sent s.packets_received)),
)

module _ {W : Type 0} (d : Driver W) (p : StressPrinter)
    (resolve : StressNic → StressConfig → W → (EfiStatus × Bytes) × W)
    (raw_flood : StressNic → StressConfig → StressStats → W → EfiStatus × StressStats × W)
    (frame : Bytes) (nic : StressNic) (config : StressConfig) where
  iterations-le : iterations config.iterations 100 ≤ 10000
  unfolding iterations
  iterations-le = omega arith

  abbrev flood : ℕ → W → EfiStatus × StressStats × W
  flood now w = icmp_flood d p resolve raw_flood frame nic config (init_stats now) w

  fresh-IsFair : (k now : ℕ) → IsFair k (init_stats now)
  unfolding init_stats
  fresh-IsFair k now = record { sent_few = omega arith; received_few = omega arith; timed = refl }

  flood-IsFair : (now : ℕ) (w : W) → IsFair (iterations config.iterations 100) (flood now w).1
  flood-IsFair now w =
      let n = iterations config.iterations 100 in
      let found = resolve nic config w in
      let start = init_stats now in
      let unready : (flood now w).1 ≡ start → IsFair n (flood now w).1 =
        λ same. rw same (fresh-IsFair n now) in
      elim (Option-cases nic.snp_initialized) [
        | inl missing ↦ unready (unfold icmp_flood in ground (arith, missing))
        | inr (ready, is) ↦ elim (Bool-cases ready) [
          | inr off ↦ unready (unfold icmp_flood in ground (arith, is, off))
          | inl on ↦ elim (Bool-cases (efi_error found.0.0)) [
            | inl bad ↦ unready (unfold icmp_flood in ground (arith, is, on, bad))
            | inr good ↦
                let same : (flood now w).1
                    ≡ (icmp_loop d (ends_at d p resolve raw_flood frame nic config found.0.1) n 0
                        (frame, start, found.1)).1 =
                  unfold icmp_flood in ground (arith, is, on, good) in
                rw same (
                  loop-IsFair d (ends_at d p resolve raw_flood frame nic config found.0.1) n 0 n
                    frame start found.1 (fresh-IsFair 0 now) (omega arith) iterations-le)
          ]
        ]
      ]

  -- When StressTestGetStats succeeds in the ICMP mode, whatever the driver does, it reports no more
  -- replies than packets and no more packets than iterations. Its verdict is that of the lost packets'
  -- share: it passes below two percent, warns from two to less than eleven, and fails from eleven on,
  -- since the percentage is rounded down before it is compared. It also passes when not one packet
  -- could be sent.
  pub get_stats_icmp_lem :
      (w w' : W) (r : TestResult)
      → get_stats d p resolve raw_flood frame nic config mode_icmp_flood w ≡ (success, r, w')
      → (r.packets_received ≤ r.packets_sent)
        × (r.packets_sent ≤ iterations config.iterations 100)
        × (r.status_code ≡ verdict r.packets_sent r.packets_received)
  get_stats_icmp_lem w w' r h =
      let now = timestamp d w in
      let x = flood now.0 now.1 in
      let f = flood-IsFair now.0 now.1 in
      elim (Bool-cases (efi_error x.0)) [
        | inl bad ↦ absurd (unfold get_stats run_flood in ground (arith, bad, h))
        | inr good ↦
            let elapsed = sub64 (timestamp d x.2).0 x.1.start_time_s in
            let same : fill_stats p elapsed x.1 ≡ r =
              unfold get_stats run_flood in ground (arith, good, h) in
            let filled = fill_stats_lem p elapsed x.1 (omega (arith, f.sent_few, iterations-le)) in
            rw (← same, filled.0, filled.1, filled.2) (f.received_few, f.sent_few, refl)
      ]
