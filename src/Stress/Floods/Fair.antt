-- ===== src/Stress/Floods/Fair.antt =====
-- What the ICMP flood of Source/StressTest.c counts, whatever the driver does.
use ddtsoft_net_test.Base.{
  ℕ, zero, suc, ◌+◌, ◌%◌, ◌≤◌, ◌<◌, ◌≡◌, refl, arith, some, Bytes, inl, inr, Bool-cases, ℕ_discrete,
}
use ddtsoft_net_test.Efi.{EfiStatus, efi_error}
use ddtsoft_net_test.Packet.Builder.{build_icmp_echo_request}
use ddtsoft_net_test.Stress.{StressStats, add64, record_rtt, draw_stats, Driver, timestamp, Ends}
use ddtsoft_net_test.Stress.Floods.{pattern, poll_reply, icmp_round, icmp_loop}

-- After `k` rounds: no more packets than rounds, no more replies than packets, and a round-trip time
-- recorded for every reply.
pub record IsFair (k : ℕ) (s : StressStats) : Type 0 where
  pub sent_few : s.packets_sent ≤ k
  pub received_few : s.packets_received ≤ s.packets_sent
  pub timed : s.rtt_count ≡ s.packets_received

-- The same counters, with at most one reply more, and its time.
record IsPolled (s s' : StressStats) : Type 0 where
  sent_same : s'.packets_sent ≡ s.packets_sent
  received_more : s'.packets_received ≤ s.packets_received + 1
  timed_too : s'.rtt_count ≡ s'.packets_received

draw-IsFair : (k now : ℕ) (s : StressStats) → IsFair k s → IsFair k (draw_stats now s)
unfolding draw_stats
draw-IsFair k now s f = record {
  sent_few = ground (arith, f.sent_few);
  received_few = ground (arith, f.received_few);
  timed = ground (arith, f.timed);
}

module _ {W : Type 0} (d : Driver W) (e : Ends) where
  poll-IsPolled :
      (left attempts seq send_time : ℕ) (s : StressStats) (w : W)
      → s.rtt_count ≡ s.packets_received
      → s.packets_received < 10000
      → IsPolled s (poll_reply d e left attempts seq send_time s w).0
  unfolding poll_reply record_rtt
  poll-IsPolled zero attempts seq send_time s w t small = record {
    sent_same = refl;
    received_more = omega arith;
    timed_too = t;
  }
  poll-IsPolled (suc left) attempts seq send_time s w t small =
      let got = d.receive (d.get_status w).1 in
      let rest = poll-IsPolled left (attempts + 1) seq send_time s (d.stall 1000 got.1) t small in
      record {
        sent_same = ground (arith, rest.sent_same);
        received_more = ground (arith, rest.received_more);
        timed_too = ground (arith, rest.timed_too);
      }

  module _ (seq : ℕ) (frame : Bytes) (s : StressStats) (w : W) where
    abbrev built : Bytes × ℕ
    built =
        build_icmp_echo_request frame e.current_address e.target_mac e.ipv4_address e.target_ip
          0xdd50 seq (some pattern) 56

    abbrev sent_at : ℕ × W
    sent_at = timestamp d w

    abbrev transmitted : EfiStatus × W
    transmitted = d.transmit built.0 built.1 sent_at.1

    abbrev counted : StressStats
    counted = record s {
      packets_sent = add64 s.packets_sent 1;
      bytes_sent = add64 s.bytes_sent built.1;
    }

    abbrev polled : StressStats × W
    polled = poll_reply d e 50 0 seq sent_at.0 counted transmitted.1

    polled-IsFair : IsFair seq s → seq < 10000 → IsFair (seq + 1) polled.0
    polled-IsFair f small =
        let got =
          poll-IsPolled 50 0 seq sent_at.0 counted transmitted.1 f.timed
            (omega (arith, f.sent_few, f.received_few)) in
        record {
          sent_few = omega (arith, got.sent_same, f.sent_few);
          received_few =
              omega (arith, got.sent_same, got.received_more, f.sent_few, f.received_few);
          timed = got.timed_too;
        }

    round-IsFair :
        IsFair seq s → seq < 10000 → IsFair (seq + 1) (icmp_round d e seq (frame, s, w)).1
    round-IsFair f small = elim (Bool-cases (efi_error transmitted.0)) [
      | inl bad ↦
          let same : (icmp_round d e seq (frame, s, w)).1 ≡ s =
            unfold icmp_round in ground (arith, bad) in
          rw same (record {
            sent_few = omega (arith, f.sent_few);
            received_few = f.received_few;
            timed = f.timed;
          })
      | inr good ↦ elim (ℕ_discrete (seq % 10) 0) [
        | yes z ↦
            let same : (icmp_round d e seq (frame, s, w)).1
                ≡ draw_stats (timestamp d polled.1).0 polled.0 =
              unfold icmp_round in ground (arith, good, z) in
            rw same
              (draw-IsFair (seq + 1) (timestamp d polled.1).0 polled.0 (polled-IsFair f small))
        | no nz ↦
            let same : (icmp_round d e seq (frame, s, w)).1 ≡ polled.0 =
              unfold icmp_round in ground (arith, good, nz) in
            rw same (polled-IsFair f small)
      ]
    ]

  pub loop-IsFair :
      (left seq n : ℕ) (frame : Bytes) (s : StressStats) (w : W)
      → IsFair seq s
      → seq + left ≡ n
      → n ≤ 10000
      → IsFair n (icmp_loop d e left seq (frame, s, w)).1
  unfolding icmp_loop
  loop-IsFair zero seq n frame s w f all small = record {
    sent_few = omega (arith, f.sent_few);
    received_few = f.received_few;
    timed = f.timed;
  }
  loop-IsFair (suc left) seq n frame s w f all small =
      let x = icmp_round d e seq (frame, s, w) in
      loop-IsFair left (seq + 1) n x.0 x.1 x.2 (round-IsFair seq frame s w f (omega arith))
        (omega arith) small
