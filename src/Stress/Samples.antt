-- ===== src/Stress/Samples.antt =====
-- The round-trip times that Source/StressTest.c records, against the list of them.
use ddtsoft_net_test.Base.{
  ℕ, ◌+◌, ◌%◌, ◌^◌, ◌≤◌, ◌≡◌, refl, arith, some, List, [], ◌∷◌, ◌++◌, length, length-append,
  get_elem?, min, ℕ_discrete, dec_lt, get_elem?-past,
}
use ddtsoft_net_test.Base.Samples.{
  sum, least, least-append, largest, sum-append, largest-append, last-append, before-append,
  append_one, append_nil,
}
use ddtsoft_net_test.Stress.{StressStats, init_stats, record_rtt}

abbrev pub record_all : List ℕ → StressStats → StressStats
record_all [] s = s
record_all (x ∷ xs) s = record_all xs (record_rtt s x)

-- `s` stands for the times `xs`, the first one first: their number, sum, least and largest, and the
-- last sixty, each at its place in the ring.
pub record Stands (xs : List ℕ) (s : StressStats) : Type 0 where
  pub counted : s.rtt_count ≡ length xs % 2 ^ 32
  pub summed : s.rtt_total_us ≡ sum xs % 2 ^ 64
  pub low : s.rtt_min_us ≡ least 0xffffffff xs
  pub high : s.rtt_max_us ≡ largest xs
  pub place : s.rtt_sample_idx ≡ length xs % 60
  pub held : s.rtt_sample_count ≡ min (length xs) 60
  pub recent : (i v : ℕ) → get_elem? xs i ≡ some v → length xs ≤ i + 60 → s.rtt_samples (i % 60) ≡ v

record_rtt-Stands :
    (xs : List ℕ) (x : ℕ) (s : StressStats) → Stands xs s → Stands (xs ++ x ∷ []) (record_rtt s x)
unfolding record_rtt
record_rtt-Stands xs x s t =
    let n = length-append xs (x ∷ []) in
    record {
      counted = omega (arith, n, t.counted);
      summed = omega (arith, sum-append xs x, t.summed);
      low = rw (least-append 0xffffffff xs x, t.low) refl;
      high = rw (largest-append xs x, t.high) refl;
      place = omega (arith, n, t.place);
      held = ground (arith, n, t.held);
      recent = λ i v e le. elim (ℕ_discrete i (length xs)) [
        | yes same ↦
            let at : get_elem? (xs ++ x ∷ []) i ≡ some x = rw same (last-append xs x) in
            ground (arith, at, e, same, t.place)
        | no other ↦ elim (dec_lt i (length xs)) [
          | yes lt ↦
              let off : (i % 60 ≡ s.rtt_sample_idx) → i ≡ length xs =
                λ h. omega (arith, h, t.place, n, le) in
              let was : s.rtt_samples (i % 60) ≡ v =
                t.recent i v (rw (← before-append xs x i lt) e) (omega (arith, n)) in
              ground (arith, off, was, other)
          | no ge ↦
              let past = get_elem?-past (xs ++ x ∷ []) i (omega (arith, n)) in
              absurd (ground (arith, past, e))
        ]
      ];
    }

record_more : (xs ys : List ℕ) (s : StressStats) → Stands ys s → Stands (ys ++ xs) (record_all xs s)
record_more [] ys s t = rw (append_nil ys) t
record_more (x ∷ xs) ys s t =
    rw (← append_one ys xs x)
      (record_more xs (ys ++ x ∷ []) (record_rtt s x) (record_rtt-Stands ys x s t))

-- After StressInitStats and any number of StressRecordRtt, the statistics are those of the recorded
-- times: how many they are, their sum (on 32 and 64 bits), the least and the largest; and the ring of
-- sixty holds the last sixty of them, or all when they are fewer, each under its number modulo sixty.
pub record_all-Stands : (xs : List ℕ) (now : ℕ) → Stands xs (record_all xs (init_stats now))
record_all-Stands xs now = record_more xs [] (init_stats now) fresh
  where
    fresh : Stands [] (init_stats now)
    fresh =
        unfold init_stats in
        record {
          counted = omega arith;
          summed = omega arith;
          low = refl;
          high = refl;
          place = omega arith;
          held = omega arith;
          recent = λ i v e le. absurd (ground (arith, e));
        }
