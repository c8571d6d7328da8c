-- ===== src/QuickScan/Scan/Counts.antt =====
-- The counters of Source/QuickScan.c: what the two scans count for the same tests.
use ddtsoft_net_test.Base.{
  ℕ, suc, ◌+◌, ◌≡◌, refl, arith, none, some, List, [], ◌∷◌, inl, inr, Option-cases,
}
use ddtsoft_net_test.Efi.{EfiStatus}
use ddtsoft_net_test.Registry.{Registry}
use ddtsoft_net_test.Registry.Tests.{TestFunction, TestDefinition}
use ddtsoft_net_test.Runner.{Text, NicInfo, TestConfig, TestResult}
use ddtsoft_net_test.QuickScan.{
  QuickLayerResult, quick_find_test, quick_determine_layer_status, set_status, count_result,
  keep_best, keep_worst, add_result,
}
use ddtsoft_net_test.QuickScan.Scan.{quick_run_layer_tests, run_silently, run}

-- The same counters, whatever the texts and the status.
pub record SameCounts (a b : QuickLayerResult) : Type 0 where
  pub run_same : a.tests_run ≡ b.tests_run
  pub passed_same : a.tests_passed ≡ b.tests_passed
  pub failed_same : a.tests_failed ≡ b.tests_failed
  pub warned_same : a.tests_warned ≡ b.tests_warned
  pub skipped_same : a.tests_skipped ≡ b.tests_skipped

-- Every test that ran is counted under one outcome.
pub record IsCounted (r : QuickLayerResult) : Type 0 where
  pub each_once : r.tests_run ≡ r.tests_passed + r.tests_failed + r.tests_warned + r.tests_skipped

-- How many of the names the registry knows.
abbrev pub known : Registry → List Text → ℕ
known reg [] = 0
known reg (n ∷ ns) = elim (quick_find_test reg n) [
  | none ↦ known reg ns
  | some t ↦ suc (known reg ns)
]

add_result-SameCounts :
    (t : TestResult) (a b : QuickLayerResult)
    → SameCounts a b
    → SameCounts (add_result t a) (count_result t b)
unfolding add_result count_result keep_best keep_worst
add_result-SameCounts t a b s = record {
  run_same = ground (arith, s.run_same);
  passed_same = ground (arith, s.passed_same);
  failed_same = ground (arith, s.failed_same);
  warned_same = ground (arith, s.warned_same);
  skipped_same = ground (arith, s.skipped_same);
}

count_result-IsCounted :
    (t : TestResult) (r : QuickLayerResult) → IsCounted r → IsCounted (count_result t r)
unfolding count_result
count_result-IsCounted t r c = record { each_once = ground (arith, c.each_once) }

count_result-run :
    (t : TestResult) (r : QuickLayerResult) → (count_result t r).tests_run ≡ r.tests_run + 1
unfolding count_result
count_result-run t r = ground arith

pub SameCounts-refl : (r : QuickLayerResult) → SameCounts r r
SameCounts-refl r = record {
  run_same = refl;
  passed_same = refl;
  failed_same = refl;
  warned_same = refl;
  skipped_same = refl;
}

-- Equal counters give equal statuses.
pub status_same :
    (a b : QuickLayerResult) → SameCounts a b → (set_status a).status ≡ (set_status b).status
unfolding set_status quick_determine_layer_status
status_same a b s =
    ground (arith, s.run_same, s.passed_same, s.failed_same, s.warned_same, s.skipped_same)

module _ (call : TestFunction → NicInfo → TestConfig → TestResult → EfiStatus × TestResult)
    (status_text : EfiStatus → Text) (clock : TestDefinition → ℕ × ℕ) (reg : Registry)
    (nic : NicInfo) (config : TestConfig) where
  abbrev pub loud : List Text → QuickLayerResult → QuickLayerResult
  loud = quick_run_layer_tests call status_text clock reg nic config

  abbrev pub quiet : List Text → QuickLayerResult → QuickLayerResult
  quiet = run_silently call status_text clock reg nic config

  -- One round of either loop.
  rounds :
      (n : Text) (ns : List Text) (t : TestDefinition) (a b : QuickLayerResult)
      → quick_find_test reg n ≡ some t
      → (loud (n ∷ ns) a ≡ loud ns (add_result (run call status_text clock reg nic config t) a))
        × (quiet (n ∷ ns) b
            ≡ quiet ns (count_result (run call status_text clock reg nic config t) b))
  unfolding quick_run_layer_tests run_silently
  rounds n ns t a b e = (ground (arith, e), ground (arith, e))

  unknown :
      (n : Text) (ns : List Text) (a b : QuickLayerResult)
      → quick_find_test reg n ≡ none
      → (loud (n ∷ ns) a ≡ loud ns a) × (quiet (n ∷ ns) b ≡ quiet ns b)
  unfolding quick_run_layer_tests run_silently
  unknown n ns a b e = (ground (arith, e), ground (arith, e))

  pub layer_SameCounts :
      (ns : List Text) (a b : QuickLayerResult)
      → SameCounts a b
      → SameCounts (loud ns a) (quiet ns b)
  layer_SameCounts [] a b s = unfold quick_run_layer_tests run_silently in s
  layer_SameCounts (n ∷ ns) a b s = elim (Option-cases (quick_find_test reg n)) [
    | inl e ↦ let u = unknown n ns a b e in rw (u.0, u.1) (layer_SameCounts ns a b s)
    | inr (t, e) ↦
        let u = rounds n ns t a b e in
        let r = run call status_text clock reg nic config t in
        rw (u.0, u.1)
          (layer_SameCounts ns (add_result r a) (count_result r b) (add_result-SameCounts r a b s))
  ]

  pub quiet-IsCounted :
      (ns : List Text) (r : QuickLayerResult)
      → IsCounted r
      → IsCounted (quiet ns r) × ((quiet ns r).tests_run ≡ r.tests_run + known reg ns)
  quiet-IsCounted [] r c = (unfold run_silently in c, unfold run_silently in omega arith)
  quiet-IsCounted (n ∷ ns) r c = elim (Option-cases (quick_find_test reg n)) [
    | inl e ↦
        let u = unknown n ns r r e in
        let rest = quiet-IsCounted ns r c in
        let k : known reg (n ∷ ns) ≡ known reg ns = ground (arith, e) in rw (u.1, k) rest
    | inr (t, e) ↦
        let u = rounds n ns t r r e in
        let x = run call status_text clock reg nic config t in
        let rest = quiet-IsCounted ns (count_result x r) (count_result-IsCounted x r c) in
        let k : known reg (n ∷ ns) ≡ suc (known reg ns) = ground (arith, e) in
        rw (u.1, k) (rest.0, omega (arith, rest.1, count_result-run x r))
  ]
