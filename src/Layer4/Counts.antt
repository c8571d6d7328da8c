-- ===== src/Layer4/Counts.antt =====
-- What the loops of TestL4TcpMultiPort and TestL4PortScan in Source/Layer4Transport.c count.
use ddtsoft_net_test.Base.{ℕ, ◌+◌, ◌-◌, ◌^◌, ◌≤◌, ◌<◌, ◌≡◌, arith, some, List, [], ◌∷◌, length}
use ddtsoft_net_test.Runner.{TestResult, zero_result}
use ddtsoft_net_test.Layer3.{PingConfig}
use ddtsoft_net_test.Layer4.{Attempt, count64, count_packets, multi_loop, scan_loop}
use ddtsoft_net_test.Layer4.Child.{Tcp}
use ddtsoft_net_test.Layer4.Rounds.{opens, tries, Rounds, Round-attempt, opens-length}

-- Counters that do not wrap in `n` rounds.
pub record IsRoom (n o c : ℕ) (r : TestResult) : Type 0 where
  first : o + n < 2 ^ 64
  second : c + n < 2 ^ 64
  sending : r.packets_sent + n < 2 ^ 64
  receiving : r.packets_received + n < 2 ^ 64

pub room : (n : ℕ) → n < 2 ^ 64 → IsRoom n 0 0 zero_result
room n lt = record {
  first = omega (arith, lt);
  second = omega (arith, lt);
  sending = omega (arith, lt);
  receiving = omega (arith, lt);
}

pub opens-tries : (xs : List Attempt) → opens xs ≤ tries xs
opens-tries [] = omega arith
opens-tries (Attempt.opened ∷ xs) = omega (arith, opens-tries xs)
opens-tries (Attempt.refused ∷ xs) = omega (arith, opens-tries xs)
opens-tries (Attempt.no_child ∷ xs) = opens-tries xs

-- The packets that a list of outcomes adds to a result.
pub record IsAdded (xs : List Attempt) (r r' : TestResult) : Type 0 where
  pub sent : r'.packets_sent ≡ r.packets_sent + tries xs
  pub received : r'.packets_received ≡ r.packets_received + opens xs

module _ (xs : List Attempt) (r r' : TestResult) (n : ℕ) (sending : r.packets_sent + n < 2 ^ 64)
    (receiving : r.packets_received + n < 2 ^ 64) (some_left : 0 < n) where
  refused-IsAdded :
      IsAdded xs (count_packets Attempt.refused r) r' → IsAdded (Attempt.refused ∷ xs) r r'
  unfolding count_packets
  refused-IsAdded a = record {
    sent = omega (arith, a.sent, sending, some_left);
    received = omega (arith, a.received);
  }

  opened-IsAdded :
      IsAdded xs (count_packets Attempt.opened r) r' → IsAdded (Attempt.opened ∷ xs) r r'
  unfolding count_packets
  opened-IsAdded a = record {
    sent = omega (arith, a.sent, sending, some_left);
    received = omega (arith, a.received, receiving, some_left);
  }

module _ {W : Type 0} (d : Tcp W) (config : PingConfig) where
  pub multi_loop_lem :
      (ports : List ℕ) (o c : ℕ) (r : TestResult) (w : W) (xs : List Attempt) (w' : W)
      → Rounds d config 3000 2000 100000 ports w xs w'
      → IsRoom (length ports) o c r
      → (r' : TestResult) × (multi_loop d config ports o c r w
          ≡ some (o + opens xs, c + (length ports - opens xs), r', w'))
        × IsAdded xs r r'
  unfolding multi_loop
  multi_loop_lem [] o c r w [] w' steps lt =
      (r, ground (arith, steps), record { sent = omega arith; received = omega arith })
  multi_loop_lem [] o c r w (a ∷ xs) w' steps lt = absurd steps
  multi_loop_lem (port ∷ ports) o c r w [] w' steps lt = absurd steps
  multi_loop_lem (port ∷ ports) o c r w (Attempt.no_child ∷ xs) w' (w1, step, steps) lt =
      let e = Round-attempt d config 3000 2000 100000 port w Attempt.no_child w1 step in
      let few = opens-length d config 3000 2000 100000 ports w1 xs w' steps in
      let (r', ends, added) = multi_loop_lem ports o (count64 c) r w1 xs w' steps (record {
        first = omega (arith, lt.first);
        second = omega (arith, lt.second);
        sending = omega (arith, lt.sending);
        receiving = omega (arith, lt.receiving);
      }) in
      (
        r',
        ground (arith, e, ends, few, lt.second),
        record { sent = omega (arith, added.sent); received = omega (arith, added.received) },
      )
  multi_loop_lem (port ∷ ports) o c r w (Attempt.refused ∷ xs) w' (w1, step, steps) lt =
      let e = Round-attempt d config 3000 2000 100000 port w Attempt.refused w1 step in
      let few = opens-length d config 3000 2000 100000 ports w1 xs w' steps in
      let (r', ends, added) =
        multi_loop_lem ports o (count64 c) (count_packets Attempt.refused r) w1 xs w' steps
          (record {
            first = omega (arith, lt.first);
            second = omega (arith, lt.second);
            sending = unfold count_packets in omega (arith, lt.sending);
            receiving = unfold count_packets in omega (arith, lt.receiving);
          }) in
      (
        r',
        ground (arith, e, ends, few, lt.second),
        refused-IsAdded xs r r' (length (port ∷ ports)) lt.sending lt.receiving (omega arith) added,
      )
  multi_loop_lem (port ∷ ports) o c r w (Attempt.opened ∷ xs) w' (w1, step, steps) lt =
      let e = Round-attempt d config 3000 2000 100000 port w Attempt.opened w1 step in
      let (r', ends, added) =
        multi_loop_lem ports (count64 o) c (count_packets Attempt.opened r) w1 xs w' steps (record {
          first = omega (arith, lt.first);
          second = omega (arith, lt.second);
          sending = unfold count_packets in omega (arith, lt.sending);
          receiving = unfold count_packets in omega (arith, lt.receiving);
        }) in
      (
        r',
        ground (arith, e, ends, lt.first),
        opened-IsAdded xs r r' (length (port ∷ ports)) lt.sending lt.receiving (omega arith) added,
      )

  pub scan_loop_lem :
      (ports : List ℕ) (o c : ℕ) (r : TestResult) (w : W) (xs : List Attempt) (w' : W)
      → Rounds d config 1500 500 50000 ports w xs w'
      → IsRoom (length ports) o c r
      → (r' : TestResult) × (scan_loop d config ports o c r w
          ≡ some (o + opens xs, c + tries xs, r', w'))
        × IsAdded xs r r'
  unfolding scan_loop
  scan_loop_lem [] o c r w [] w' steps lt =
      (r, ground (arith, steps), record { sent = omega arith; received = omega arith })
  scan_loop_lem [] o c r w (a ∷ xs) w' steps lt = absurd steps
  scan_loop_lem (port ∷ ports) o c r w [] w' steps lt = absurd steps
  scan_loop_lem (port ∷ ports) o c r w (Attempt.no_child ∷ xs) w' (w1, step, steps) lt =
      let e = Round-attempt d config 1500 500 50000 port w Attempt.no_child w1 step in
      let (r', ends, added) = scan_loop_lem ports o c r w1 xs w' steps (record {
        first = omega (arith, lt.first);
        second = omega (arith, lt.second);
        sending = omega (arith, lt.sending);
        receiving = omega (arith, lt.receiving);
      }) in
      (
        r',
        ground (arith, e, ends),
        record { sent = omega (arith, added.sent); received = omega (arith, added.received) },
      )
  scan_loop_lem (port ∷ ports) o c r w (Attempt.refused ∷ xs) w' (w1, step, steps) lt =
      let e = Round-attempt d config 1500 500 50000 port w Attempt.refused w1 step in
      let (r', ends, added) =
        scan_loop_lem ports o (count64 c) (count_packets Attempt.refused r) w1 xs w' steps (record {
          first = omega (arith, lt.first);
          second = omega (arith, lt.second);
          sending = unfold count_packets in omega (arith, lt.sending);
          receiving = unfold count_packets in omega (arith, lt.receiving);
        }) in
      (
        r',
        ground (arith, e, ends, lt.second),
        refused-IsAdded xs r r' (length (port ∷ ports)) lt.sending lt.receiving (omega arith) added,
      )
  scan_loop_lem (port ∷ ports) o c r w (Attempt.opened ∷ xs) w' (w1, step, steps) lt =
      let e = Round-attempt d config 1500 500 50000 port w Attempt.opened w1 step in
      let (r', ends, added) =
        scan_loop_lem ports (count64 o) (count64 c) (count_packets Attempt.opened r) w1 xs w' steps
          (record {
            first = omega (arith, lt.first);
            second = omega (arith, lt.second);
            sending = unfold count_packets in omega (arith, lt.sending);
            receiving = unfold count_packets in omega (arith, lt.receiving);
          }) in
      (
        r',
        ground (arith, e, ends, lt.first, lt.second),
        opened-IsAdded xs r r' (length (port ∷ ports)) lt.sending lt.receiving (omega arith) added,
      )
