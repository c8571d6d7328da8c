-- ===== src/Report/Totals.antt =====
-- The counters of ReportCountResults in Source/ReportExporter.c.
use ddtsoft_net_test.Base.{
  ℕ, suc, ◌+◌, ◌%◌, ◌^◌, ◌<◌, ◌≡◌, arith, List, [], ◌∷◌, length, ltb, ◌==◌, if◌then◌else◌,
}
use ddtsoft_net_test.Runner.{TestResult}
use ddtsoft_net_test.Report.{Counts, no_counts, count_one, count_loop, count_results}

-- The number of results with a status code, and with none of the five.
abbrev pub with_code : ℕ → List TestResult → ℕ
with_code s [] = 0
with_code s (r ∷ rs) = if r.status_code == s then suc (with_code s rs) else with_code s rs

abbrev pub without_code : List TestResult → ℕ
without_code [] = 0
without_code (r ∷ rs) = if ltb 4 r.status_code then suc (without_code rs) else without_code rs

record IsAdded (rs : List TestResult) (c d : Counts) : Type 0 where
  passed : d.pass_count ≡ (c.pass_count + with_code 0 rs) % 2 ^ 64
  failed : d.fail_count ≡ (c.fail_count + with_code 1 rs) % 2 ^ 64
  warned : d.warn_count ≡ (c.warn_count + with_code 3 rs) % 2 ^ 64
  skipped : d.skip_count ≡ (c.skip_count + with_code 2 rs) % 2 ^ 64
  erred : d.err_count ≡ (c.err_count + with_code 4 rs) % 2 ^ 64

-- Every counter is a UINT64.
record IsSmall (c : Counts) : Type 0 where
  passes : c.pass_count < 2 ^ 64
  fails : c.fail_count < 2 ^ 64
  warns : c.warn_count < 2 ^ 64
  skips : c.skip_count < 2 ^ 64
  errs : c.err_count < 2 ^ 64

count_one-IsSmall : (s : ℕ) (c : Counts) → IsSmall c → IsSmall (count_one s c)
unfolding count_one
count_one-IsSmall s c i = record {
  passes = ground (arith, i.passes);
  fails = ground (arith, i.fails);
  warns = ground (arith, i.warns);
  skips = ground (arith, i.skips);
  errs = ground (arith, i.errs);
}

count_loop-IsAdded :
    (rs : List TestResult) (c : Counts) → IsSmall c → IsAdded rs c (count_loop rs c)
unfolding count_loop count_one
count_loop-IsAdded [] c i = record {
  passed = omega (arith, i.passes);
  failed = omega (arith, i.fails);
  warned = omega (arith, i.warns);
  skipped = omega (arith, i.skips);
  erred = omega (arith, i.errs);
}
count_loop-IsAdded (r ∷ rs) c i =
    let t =
      count_loop-IsAdded rs (count_one r.status_code c) (count_one-IsSmall r.status_code c i) in
    record {
      passed = ground (arith, t.passed);
      failed = ground (arith, t.failed);
      warned = ground (arith, t.warned);
      skipped = ground (arith, t.skipped);
      erred = ground (arith, t.erred);
    }

codes_sum :
    (rs : List TestResult)
    → with_code 0 rs
        + with_code 1 rs
        + with_code 2 rs
        + with_code 3 rs
        + with_code 4 rs
        + without_code rs
      ≡ length rs
codes_sum [] = omega arith
codes_sum (r ∷ rs) = ground (arith, codes_sum rs)

-- Of fewer than 2 ^ 64 results, ReportCountResults counts each that has one of the five status codes in
-- the counter of its code: the counters and the results with other codes sum up to their number.
pub count_results_lem :
    (rs : List TestResult)
    → length rs < 2 ^ 64
    → ((count_results rs).pass_count ≡ with_code 0 rs)
      × ((count_results rs).fail_count ≡ with_code 1 rs)
      × ((count_results rs).skip_count ≡ with_code 2 rs)
      × ((count_results rs).warn_count ≡ with_code 3 rs)
      × ((count_results rs).err_count ≡ with_code 4 rs)
      × ((count_results rs).pass_count
            + (count_results rs).fail_count
            + (count_results rs).skip_count
            + (count_results rs).warn_count
            + (count_results rs).err_count
            + without_code rs
          ≡ length rs)
unfolding count_results
count_results_lem rs few =
    let small : IsSmall no_counts = record {
      passes = omega arith;
      fails = omega arith;
      warns = omega arith;
      skips = omega arith;
      errs = omega arith;
    } in
    let t = count_loop-IsAdded rs no_counts small in
    let sums = codes_sum rs in
    let p : (count_loop rs no_counts).pass_count ≡ with_code 0 rs =
      omega (arith, t.passed, sums, few) in
    let f : (count_loop rs no_counts).fail_count ≡ with_code 1 rs =
      omega (arith, t.failed, sums, few) in
    let s : (count_loop rs no_counts).skip_count ≡ with_code 2 rs =
      omega (arith, t.skipped, sums, few) in
    let w : (count_loop rs no_counts).warn_count ≡ with_code 3 rs =
      omega (arith, t.warned, sums, few) in
    let e : (count_loop rs no_counts).err_count ≡ with_code 4 rs =
      omega (arith, t.erred, sums, few) in
    (p, f, s, w, e, omega (arith, p, f, s, w, e, sums))
