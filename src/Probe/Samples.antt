-- ===== src/Probe/Samples.antt =====
-- The results that Source/ProtocolProbe.c records, against the list of them.
use ddtsoft_net_test.Base.{
  ℕ, suc, ◌+◌, ◌/◌, ◌%◌, ◌^◌, ◌≤◌, ◌<◌, ◌≡◌, refl, arith, some, List, [], ◌∷◌, ◌++◌, length,
  length-append, get_elem?, get_elem?-past, ltb, ◌==◌, ◌||◌, if◌then◌else◌, min, ℕ_discrete, dec_lt,
}
use ddtsoft_net_test.Base.Samples.{
  sum, largest, sum-append, largest-append, last-append, before-append,
}
use ddtsoft_net_test.Probe.{ProbeProtocol, ProbeStats, init_probe, record_pass, record_result}

-- Results as pairs of a PROBE_STATUS and a round-trip time.
abbrev pub record_results : List (ℕ × ℕ) → ProbeStats → ProbeStats
record_results [] s = s
record_results (x ∷ xs) s = record_results xs (record_result s x.0 x.1)

-- The times of the replies, and the number of the other results.
abbrev pub replies : List (ℕ × ℕ) → List ℕ
replies [] = []
replies (x ∷ xs) = if x.0 == 1 then x.1 ∷ replies xs else replies xs

abbrev pub losses : List (ℕ × ℕ) → ℕ
losses [] = 0
losses (x ∷ xs) = if x.0 == 1 then losses xs else suc (losses xs)

abbrev least_from : ℕ → List ℕ → ℕ
least_from m [] = m
least_from m (x ∷ xs) = least_from (min x m) xs

-- The least time; 0xffffffff of none.
abbrev pub least : List ℕ → ℕ
least [] = 0xffffffff
least (x ∷ xs) = least_from x xs

abbrev pub last_of : List ℕ → ℕ
last_of [] = 0
last_of (x ∷ []) = x
last_of (x ∷ y ∷ xs) = last_of (y ∷ xs)

-- `s` stands for the results `xs`, the first one first, of fewer than 2 ^ 32 probes.
pub record Recorded (xs : List (ℕ × ℕ)) (s : ProbeStats) : Type 0 where
  pub sent_all : s.sent ≡ length xs
  pub numbered : s.next_seq_id ≡ (length xs + 1) % 2 ^ 32
  pub answered : s.received ≡ length (replies xs)
  pub missed : s.lost ≡ losses xs
  pub summed : s.rtt_total_us ≡ sum (replies xs) % 2 ^ 64
  pub average : s.rtt_avg_us ≡ s.rtt_total_us / length (replies xs) % 2 ^ 32
  pub low : s.rtt_min_us ≡ least (replies xs)
  pub high : s.rtt_max_us ≡ largest (replies xs)
  pub latest : s.rtt_last_us ≡ last_of (replies xs)
  pub head : s.history_head ≡ length xs % 12
  pub recent :
      (i code rtt : ℕ)
      → get_elem? xs i ≡ some (code, rtt)
      → length xs ≤ i + 12
      → s.history (i % 12) ≡ record { seq_id = i + 1; entry_status = code; rtt_us = rtt }

replies-append :
    (xs : List (ℕ × ℕ)) (x : ℕ × ℕ)
    → replies (xs ++ x ∷ []) ≡ (if x.0 == 1 then replies xs ++ x.1 ∷ [] else replies xs)
replies-append [] x = ground arith
replies-append (y ∷ xs) x = ground (arith, replies-append xs x)

losses-append :
    (xs : List (ℕ × ℕ)) (x : ℕ × ℕ)
    → losses (xs ++ x ∷ []) ≡ (if x.0 == 1 then losses xs else suc (losses xs))
losses-append [] x = ground arith
losses-append (y ∷ xs) x = ground (arith, losses-append xs x)

-- Every result is a reply or a loss.
pub replies-losses : (xs : List (ℕ × ℕ)) → length (replies xs) + losses xs ≡ length xs
replies-losses [] = omega arith
replies-losses (x ∷ xs) = ground (arith, replies-losses xs)

least_from-append :
    (m : ℕ) (xs : List ℕ) (x : ℕ) → least_from m (xs ++ x ∷ []) ≡ min x (least_from m xs)
least_from-append m [] x = refl
least_from-append m (y ∷ xs) x = least_from-append (min y m) xs x

least-append :
    (xs : List ℕ) (x : ℕ)
    → least (xs ++ x ∷ []) ≡ (if ltb x (least xs) || (length xs + 1 == 1) then x else least xs)
least-append [] x = ground arith
least-append (y ∷ xs) x = ground (arith, least_from-append y xs x)

last_of-append : (xs : List ℕ) (x : ℕ) → last_of (xs ++ x ∷ []) ≡ x
last_of-append [] x = refl
last_of-append (y ∷ []) x = refl
last_of-append (y ∷ z ∷ xs) x = last_of-append (z ∷ xs) x

module _ (xs : List (ℕ × ℕ)) (code rtt : ℕ) (s : ProbeStats) (t : Recorded xs s)
    (few : length xs + 1 < 2 ^ 32) where
  answers : length (replies xs) + losses xs ≡ length xs
  answers = replies-losses xs

  recent_entry :
      (i c v : ℕ)
      → get_elem? (xs ++ (code, rtt) ∷ []) i ≡ some (c, v)
      → length xs + 1 ≤ i + 12
      → (record_result s code rtt).history (i % 12)
        ≡ record { seq_id = i + 1; entry_status = c; rtt_us = v }
  unfolding record_result record_pass
  recent_entry i c v e le = elim (ℕ_discrete i (length xs)) [
    | yes same ↦
        let at : get_elem? (xs ++ (code, rtt) ∷ []) i ≡ some (code, rtt) =
          rw same (last-append xs (code, rtt)) in
        ground (arith, at, e, same, t.head, t.numbered, few)
    | no other ↦ elim (dec_lt i (length xs)) [
      | yes lt ↦
          let off : (i % 12 ≡ s.history_head) → i ≡ length xs = λ h. omega (arith, h, t.head, le) in
          let was = t.recent i c v (rw (← before-append xs (code, rtt) i lt) e) (omega arith) in
          ground (arith, off, was, other)
      | no ge ↦
          let n = length-append xs ((code, rtt) ∷ []) in
          let past = get_elem?-past (xs ++ (code, rtt) ∷ []) i (omega (arith, n)) in
          absurd (ground (arith, past, e))
    ]
  ]

  pub record_result-Recorded : Recorded (xs ++ (code, rtt) ∷ []) (record_result s code rtt)
  unfolding record_result record_pass
  record_result-Recorded =
      let n = length-append xs ((code, rtt) ∷ []) in
      let r = replies-append xs (code, rtt) in
      let m = length-append (replies xs) (rtt ∷ []) in
      record {
        sent_all = ground (arith, n, t.sent_all);
        numbered = ground (arith, n, t.numbered);
        answered = ground (arith, r, m, t.answered, answers, few);
        missed = ground (arith, losses-append xs (code, rtt), t.missed, answers, few);
        summed = ground (arith, r, sum-append (replies xs) rtt, t.summed);
        average = ground (arith, r, m, t.average, t.answered, answers, few);
        low = ground (arith, r, least-append (replies xs) rtt, t.low, t.answered, answers, few);
        high = ground (arith, r, largest-append (replies xs) rtt, t.high);
        latest = ground (arith, r, last_of-append (replies xs) rtt, t.latest);
        head = ground (arith, n, t.head);
        recent = λ i c v e le. recent_entry i c v e (omega (arith, n, le));
      }

pub init_probe-Recorded : (p : ProbeProtocol) → Recorded [] (init_probe p)
unfolding init_probe
init_probe-Recorded p = record {
  sent_all = refl;
  numbered = omega arith;
  answered = refl;
  missed = refl;
  summed = omega arith;
  average = omega arith;
  low = refl;
  high = refl;
  latest = refl;
  head = omega arith;
  recent = λ i c v e le. absurd (ground (arith, e));
}
