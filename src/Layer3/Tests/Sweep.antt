-- ===== src/Layer3/Tests/Sweep.antt =====
-- TestL3IcmpSweep of Source/Layer3Network.c, against the replies to its pings.
use ddtsoft_net_test.Base.{
  ℕ, zero, suc, ◌+◌, ◌-◌, ◌*◌, ◌/◌, ◌%◌, ◌^◌, ◌≤◌, ◌<◌, ◌≡◌, inl, inr, refl, arith, Bool-cases,
  List, [], ◌∷◌, length, ltb, ◌==◌, if◌then◌else◌, min,
}
use ddtsoft_net_test.Base.Samples.{sum, largest, least}
use ddtsoft_net_test.Efi.{success}
use ddtsoft_net_test.Runner.{TestResult, result_pass, result_fail, result_warn, zero_result}
use ddtsoft_net_test.Layer3.{PingNic, PingConfig, Probe, Network, Printer, l3_ping, count64}
use ddtsoft_net_test.Layer3.Tests.{
  TestPrinter, SweepTally, tally_echo, is_echo_reply, sweep_count, sweep_report, sweep_loop, ask,
  wait_or, test_l3_icmp_sweep,
}

least-largest : (top x : ℕ) (xs : List ℕ) → least top (x ∷ xs) ≤ largest (x ∷ xs)
least-largest top x [] = ground arith
least-largest top x (y ∷ xs) = ground (arith, least-largest top y xs)

-- The tally of a list of times, in their order.
abbrev tally_all : List ℕ → SweepTally → SweepTally
tally_all [] t = t
tally_all (x ∷ xs) t = tally_all xs (tally_echo x t)

-- A tally of `k` times below 2 ^ 32, with their sum, the least below `top` and the greatest.
record IsTally (k total low high : ℕ) (t : SweepTally) : Type 0 where
  number : t.echoes ≡ k % 2 ^ 64
  together : t.total_rtt ≡ total % 2 ^ 64
  lowest : t.min_rtt ≡ low
  highest : t.max_rtt ≡ high

least-min : (a b : ℕ) (xs : List ℕ) → least (min a b) xs ≡ min a (least b xs)
least-min a b [] = refl
least-min a b (x ∷ xs) = omega (arith, least-min a b xs)

tally_all-sums :
    (xs : List ℕ) {k total low high : ℕ} (t : SweepTally)
    → IsTally k total low high t
    → IsTally
        (k + length xs)
        (total + sum xs)
        (least low xs)
        (if ltb high (largest xs) then largest xs else high)
        (tally_all xs t)
unfolding tally_echo
tally_all-sums [] t i = record {
  number = omega (arith, i.number);
  together = omega (arith, i.together);
  lowest = i.lowest;
  highest = ground (arith, i.highest);
}
tally_all-sums (x ∷ xs) {k} {total} {low} {high} t i =
    let step : IsTally (k + 1) (total + x) (min x low) (if ltb high x then x else high)
        (tally_echo x t) =
      record {
        number = omega (arith, i.number);
        together = omega (arith, i.together);
        lowest = ground (arith, i.lowest);
        highest = ground (arith, i.highest);
      } in
    let rest = tally_all-sums xs (tally_echo x t) step in
    record {
      number = omega (arith, rest.number);
      together = omega (arith, rest.together);
      lowest = rw (← least-min x low xs) rest.lowest;
      highest = ground (arith, rest.highest);
    }

abbrev no_echoes : SweepTally
no_echoes = record { echoes = 0; min_rtt = 0xffffffff; max_rtt = 0; total_rtt = 0 }

all_sums :
    (xs : List ℕ)
    → IsTally (length xs) (sum xs) (least 0xffffffff xs) (largest xs) (tally_all xs no_echoes)
all_sums xs =
    let start : IsTally 0 0 0xffffffff 0 no_echoes = record {
      number = omega arith;
      together = omega arith;
      lowest = refl;
      highest = refl;
    } in
    let t = tally_all-sums xs no_echoes start in
    record {
      number = omega (arith, t.number);
      together = omega (arith, t.together);
      lowest = t.lowest;
      highest = ground (arith, t.highest);
    }

sweep_count_range : (n : ℕ) → (1 ≤ sweep_count n) × (sweep_count n ≤ 10)
unfolding sweep_count
sweep_count_range n = (ground arith, ground arith)

-- What the sweep reports of the times `xs` of the echo replies to `count` pings.
pub record IsReport (count : ℕ) (xs : List ℕ) (r : TestResult) : Type 0 where
  pub between : (1 ≤ count) × (count ≤ 10)
  pub sent : r.packets_sent ≡ count
  pub received : r.packets_received ≡ length xs
  pub few : length xs ≤ count
  pub code : r.status_code ≡ (
      if length xs == count
      then result_pass
      else if ltb 0 (length xs)
      then result_warn
      else result_fail)
  pub low : r.rtt_min_us ≡ (if ltb 0 (length xs) then least 0xffffffff xs else 0)
  pub high : r.rtt_max_us ≡ largest xs
  pub average : r.rtt_avg_us ≡ sum xs / length xs % 2 ^ 32
  pub jitter : r.rtt_jitter_us ≡ (if ltb 0 (length xs) then largest xs - least 0xffffffff xs else 0)

least_fits : (xs : List ℕ) → (0 < length xs) → least 0xffffffff xs ≤ largest xs
least_fits [] h = absurd (omega (arith, h))
least_fits (x ∷ xs) h = least-largest 0xffffffff x xs

sum_below : (xs : List ℕ) → largest xs < 2 ^ 32 → sum xs ≤ length xs * 2 ^ 32
sum_below [] h = omega arith
sum_below (x ∷ xs) h =
    let below : largest xs < 2 ^ 32 = ground (arith, h) in
    let small : x < 2 ^ 32 = ground (arith, h) in omega (arith, sum_below xs below, small)

none_times : (xs : List ℕ) → length xs ≡ 0 → (largest xs ≡ 0) × (sum xs ≡ 0)
none_times [] h = (refl, refl)
none_times (x ∷ xs) h = absurd (omega (arith, h))

sweep_report-fields :
    (q : TestPrinter) (n : ℕ) (xs : List ℕ) (t : SweepTally) (r : TestResult)
    → IsTally (length xs) (sum xs) (least 0xffffffff xs) (largest xs) t
    → (1 ≤ n) × (n ≤ 10)
    → length xs ≤ n
    → largest xs < 2 ^ 32
    → r.packets_sent ≡ n
    → r.packets_received ≡ length xs
    → (r.rtt_min_us ≡ 0) × (r.rtt_max_us ≡ 0) × (r.rtt_avg_us ≡ 0) × (r.rtt_jitter_us ≡ 0)
    → IsReport n xs (sweep_report q n t r)
unfolding sweep_report
sweep_report-fields q n xs t r i range few fits sent got zeros =
    let order = least_fits xs in
    let total = sum_below xs fits in
    let empty : (length xs ≡ 0) → (largest xs ≡ 0) × (sum xs ≡ 0) = none_times xs in
    record {
      between = range;
      sent = ground (arith, sent);
      received = ground (arith, got);
      few = few;
      code = ground (arith, i.number, range.0, range.1, few);
      low = ground (arith, i.number, i.lowest, range.0, range.1, few, zeros.0);
      high = ground (arith, i.number, i.highest, range.0, range.1, few, zeros.1, empty);
      average = ground (arith, i.number, i.together, range.0, range.1, few, zeros.2, empty, total);
      jitter =
          ground
            (arith, i.number, i.lowest, i.highest, range.0, range.1, few, fits, order, zeros.3);
    }

module _ {W : Type 0} (net : Network W) (p : Printer) (q : TestPrinter) (nic : PingNic)
    (config : PingConfig) where
  -- The times of the echo replies to `left` pings, the first one with the number `i`; each ping finds
  -- the network as the one before and the pause after it leave it.
  abbrev pub echo_times : ℕ → ℕ → W → List ℕ
  echo_times zero i w = []
  echo_times (suc left) i w =
      let (got, w1) =
        ask net p q nic config ((i + 1) % 65536) 32 (wait_or net p q nic config 2000) w in
      let rest = echo_times left (i + 1) (if ltb 0 left then net.stall 200000 w1 else w1) in
      if is_echo_reply got then got.rtt_us ∷ rest else rest

  record IsSwept (left : ℕ) (xs : List ℕ) (t : SweepTally) (r : TestResult)
      (out : SweepTally × TestResult × W) : Type 0 where
    tallied : out.0 ≡ tally_all xs t
    sent_all : out.1.packets_sent ≡ (r.packets_sent + left) % 2 ^ 64
    got_all : out.1.packets_received ≡ (r.packets_received + length xs) % 2 ^ 64
    low_kept : out.1.rtt_min_us ≡ r.rtt_min_us
    high_kept : out.1.rtt_max_us ≡ r.rtt_max_us
    average_kept : out.1.rtt_avg_us ≡ r.rtt_avg_us
    jitter_kept : out.1.rtt_jitter_us ≡ r.rtt_jitter_us

  sweep_loop_lem :
      (left i : ℕ) (t : SweepTally) (r : TestResult) (w : W)
      → r.packets_sent < 2 ^ 64
      → r.packets_received < 2 ^ 64
      → IsSwept left (echo_times left i w) t r (sweep_loop net p q nic config left i t r w)
  unfolding sweep_loop
  sweep_loop_lem zero i t r w a b = record {
    tallied = refl;
    sent_all = omega (arith, a);
    got_all = omega (arith, b);
    low_kept = refl;
    high_kept = refl;
    average_kept = refl;
    jitter_kept = refl;
  }
  sweep_loop_lem (suc left) i t r w a b =
      let (got, w1) =
        ask net p q nic config ((i + 1) % 65536) 32 (wait_or net p q nic config 2000) w in
      let w2 = if ltb 0 left then net.stall 200000 w1 else w1 in
      let sent : TestResult = record r { packets_sent = count64 r.packets_sent } in
      let answered : TestResult = record sent {
        packets_received = count64 sent.packets_received;
      } in
      elim (Bool-cases (is_echo_reply got)) [
        | inl echo ↦
            let rest =
              sweep_loop_lem left (i + 1) (tally_echo got.rtt_us t) answered w2 (omega arith)
                (omega arith) in
            record {
              tallied = ground (arith, echo, rest.tallied);
              sent_all = ground (arith, echo, rest.sent_all);
              got_all = ground (arith, echo, rest.got_all);
              low_kept = ground (arith, echo, rest.low_kept);
              high_kept = ground (arith, echo, rest.high_kept);
              average_kept = ground (arith, echo, rest.average_kept);
              jitter_kept = ground (arith, echo, rest.jitter_kept);
            }
        | inr other ↦
            let rest = sweep_loop_lem left (i + 1) t sent w2 (omega arith) b in
            record {
              tallied = ground (arith, other, rest.tallied);
              sent_all = ground (arith, other, rest.sent_all);
              got_all = ground (arith, other, rest.got_all);
              low_kept = ground (arith, other, rest.low_kept);
              high_kept = ground (arith, other, rest.high_kept);
              average_kept = ground (arith, other, rest.average_kept);
              jitter_kept = ground (arith, other, rest.jitter_kept);
            }
      ]

  echo_times_few : (left i : ℕ) (w : W) → length (echo_times left i w) ≤ left
  echo_times_few zero i w = omega arith
  echo_times_few (suc left) i w =
      let (got, w1) =
        ask net p q nic config ((i + 1) % 65536) 32 (wait_or net p q nic config 2000) w in
      let w2 = if ltb 0 left then net.stall 200000 w1 else w1 in
      ground (arith, echo_times_few left (i + 1) w2)

  echo_times_fit :
      ((probe : Probe) (w : W) → (l3_ping net p nic config probe w).0.rtt_us < 2 ^ 32)
      → (left i : ℕ) (w : W) → largest (echo_times left i w) < 2 ^ 32
  echo_times_fit fits zero i w = omega arith
  echo_times_fit fits (suc left) i w =
      let (got, w1) =
        ask net p q nic config ((i + 1) % 65536) 32 (wait_or net p q nic config 2000) w in
      let w2 = if ltb 0 left then net.stall 200000 w1 else w1 in
      let small : got.rtt_us < 2 ^ 32 =
        fits
          (record {
            dst_ip = config.target_ip;
            seq_num = (i + 1) % 65536;
            ttl = 64;
            payload_size = 32;
            timeout_ms = wait_or net p q nic config 2000;
          })
          w in
      ground (arith, small, echo_times_fit fits left (i + 1) w2)

  -- When no ping gives a time of 2 ^ 32 microseconds or more, TestL3IcmpSweep sends one to ten pings,
  -- five unless Iterations says otherwise, one after the other, all of them to the one target of the
  -- configuration. It passes when all are answered by an echo reply, warns when some are, and fails
  -- when none is. The numbers of sent and received packets, and the least, the greatest and the average
  -- of the times are those of the echo replies, and the jitter is the greatest less the least.
  pub test_l3_icmp_sweep_lem :
      ((probe : Probe) (w : W) → (l3_ping net p nic config probe w).0.rtt_us < 2 ^ 32)
      → (w : W)
      → (test_l3_icmp_sweep net p q nic config zero_result w).0 ≡ success
        × IsReport
            (sweep_count config.iterations)
            (echo_times (sweep_count config.iterations) 0 w)
            (test_l3_icmp_sweep net p q nic config zero_result w).1
  unfolding test_l3_icmp_sweep
  test_l3_icmp_sweep_lem fits w =
      let n = sweep_count config.iterations in
      let xs = echo_times n 0 w in
      let swept = sweep_loop_lem n 0 no_echoes zero_result w (omega arith) (omega arith) in
      let out = sweep_loop net p q nic config n 0 no_echoes zero_result w in
      let sums : IsTally (length xs) (sum xs) (least 0xffffffff xs) (largest xs) out.0 =
        rw swept.tallied (all_sums xs) in
      let few = echo_times_few n 0 w in
      let range = sweep_count_range config.iterations in
      (
        refl,
        sweep_report-fields q n xs out.0 out.1 sums range few (echo_times_fit fits n 0 w)
            (omega (arith, swept.sent_all, range.1)) (omega (arith, swept.got_all, few, range.1))
            (swept.low_kept, swept.high_kept, swept.average_kept, swept.jitter_kept),
      )
