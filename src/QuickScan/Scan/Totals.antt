-- ===== src/QuickScan/Scan/Totals.antt =====
-- Which layers QuickScanRun of Source/QuickScan.c tests, and its totals, on the program's own registry.
use ddtsoft_net_test.Base.{
  ℕ, ◌+◌, ◌*◌, ◌≡◌, refl, arith, true, false, some, List, [], ◌∷◌, ◌==◌, if◌then◌else◌, length, inl,
  inr, ◌⊎◌, Bool-cases,
}
use ddtsoft_net_test.Efi.{EfiStatus, success}
use ddtsoft_net_test.Registry.{Registry, reg_init_all_tests}
use ddtsoft_net_test.Registry.Tests.{
  OsiLayer, physical, data_link, network, transport, application, TestFunction, TestDefinition,
}
use ddtsoft_net_test.Runner.{Text, NicInfo, TestConfig, TestResult}
use ddtsoft_net_test.QuickScan.{
  not_tested, is_fail, quick_determine_layer_status, QuickLayerResult, new_layer, Layers,
  quick_find_test, quick_l1_tests, quick_l2_tests, quick_l3_tests, quick_l4_tests, quick_l7_tests,
  set_status,
}
use ddtsoft_net_test.QuickScan.Diagnoses.{all_of}
use ddtsoft_net_test.QuickScan.Scan.{
  QuickScanResult, aggregate, scan_layer, scan_layers, quick_scan_run,
}
use ddtsoft_net_test.QuickScan.Scan.Counts.{
  known, SameCounts-refl, loud, layer_SameCounts, quiet-IsCounted,
}

-- The counters of a layer whose `n` tests all ran, and of one that was left out.
pub record IsRun (n : ℕ) (r : QuickLayerResult) : Type 0 where
  pub run_all : r.tests_run ≡ n
  pub outcomes : r.tests_passed + r.tests_failed + r.tests_warned + r.tests_skipped ≡ n

pub record IsLeftOut (n : ℕ) (r : QuickLayerResult) : Type 0 where
  pub run_none : r.tests_run ≡ 0
  pub outcomes : r.tests_passed + r.tests_failed + r.tests_warned ≡ 0
  pub all_skipped : r.tests_skipped ≡ n
  pub untested : r.status ≡ not_tested

module _ (call : TestFunction → NicInfo → TestConfig → TestResult → EfiStatus × TestResult)
    (status_text : EfiStatus → Text) (clock : TestDefinition → ℕ × ℕ) (reg : Registry)
    (nic : NicInfo) (config : TestConfig) where
  layer-IsRun :
      (l : OsiLayer) (ns : List Text)
      → IsRun
          (known reg ns)
          (set_status (loud call status_text clock reg nic config ns (new_layer l)))
  unfolding set_status
  layer-IsRun l ns =
      let s =
        layer_SameCounts call status_text clock reg nic config ns (new_layer l) (new_layer l)
          (SameCounts-refl (new_layer l)) in
      let q =
        quiet-IsCounted call status_text clock reg nic config ns (new_layer l)
          (record { each_once = refl }) in
      record {
        run_all = omega (arith, s.run_same, q.1);
        outcomes = omega (
          arith, s.passed_same, s.failed_same, s.warned_same, s.skipped_same, q.0.each_once, q.1,
        );
      }

  layer_cases :
      (l : OsiLayer) (ns : List Text) (before : QuickLayerResult)
      → ((is_fail before.status ≡ true)
          × IsLeftOut (length ns) (scan_layer call status_text clock reg nic config l ns before))
        ⊎ ((is_fail before.status ≡ false)
            × IsRun (known reg ns) (scan_layer call status_text clock reg nic config l ns before))
  layer_cases l ns before = elim (Bool-cases (is_fail before.status)) [
    | inl bad ↦ inl (
      bad,
      unfold scan_layer set_status quick_determine_layer_status in
          record {
            run_none = ground (arith, bad);
            outcomes = ground (arith, bad);
            all_skipped = ground (arith, bad);
            untested = ground (arith, bad);
          },
    )
    | inr good ↦
        let same : scan_layer call status_text clock reg nic config l ns before
            ≡ set_status (loud call status_text clock reg nic config ns (new_layer l)) =
          unfold scan_layer in ground (arith, good) in
        inr (good, rw same (layer-IsRun l ns))
  ]

abbrev pub registered : Registry
registered = reg_init_all_tests []

known_l1 : known registered quick_l1_tests ≡ 2
unfolding reg_init_all_tests quick_find_test
known_l1 = refl

known_l2 : known registered quick_l2_tests ≡ 2
unfolding reg_init_all_tests quick_find_test
known_l2 = refl

known_l3 : known registered quick_l3_tests ≡ 2
unfolding reg_init_all_tests quick_find_test
known_l3 = refl

known_l4 : known registered quick_l4_tests ≡ 2
unfolding reg_init_all_tests quick_find_test
known_l4 = refl

known_l7 : known registered quick_l7_tests ≡ 2
unfolding reg_init_all_tests quick_find_test
known_l7 = refl

-- A layer that depends on the one before it.
abbrev pub AfterLayer : QuickLayerResult → QuickLayerResult → Type 0
AfterLayer before r =
    ((is_fail before.status ≡ true) × IsLeftOut 2 r) ⊎ ((is_fail before.status ≡ false) × IsRun 2 r)

-- How many layers no test was run of.
abbrev pub left_out : List QuickLayerResult → ℕ
left_out [] = 0
left_out (r ∷ rs) = (if r.tests_run == 0 then 1 else 0) + left_out rs

abbrev layer_counts : QuickLayerResult → ℕ
layer_counts r = r.tests_passed + r.tests_failed + r.tests_warned + r.tests_skipped

abbrev layer_runs : QuickLayerResult → ℕ
layer_runs r = r.tests_run + 2 * (if r.tests_run == 0 then 1 else 0)

counts_two : (r : QuickLayerResult) → IsRun 2 r → (layer_counts r ≡ 2) × (layer_runs r ≡ 2)
counts_two r ran = (ran.outcomes, ground (arith, ran.run_all))

after_counts :
    (before r : QuickLayerResult) → AfterLayer before r → (layer_counts r ≡ 2) × (layer_runs r ≡ 2)
after_counts before r (inl (bad, out)) =
    (omega (arith, out.outcomes, out.all_skipped), ground (arith, out.run_none))
after_counts before r (inr (good, ran)) = counts_two r ran

module _ (call : TestFunction → NicInfo → TestConfig → TestResult → EfiStatus × TestResult)
    (status_text : EfiStatus → Text) (clock : TestDefinition → ℕ × ℕ) (nic : NicInfo)
    (config : TestConfig) where
  after :
      (l : OsiLayer) (ns : List Text) (before : QuickLayerResult)
      → known registered ns ≡ 2
      → length ns ≡ 2
      → AfterLayer before (scan_layer call status_text clock registered nic config l ns before)
  after l ns before k n =
      elim (layer_cases call status_text clock registered nic config l ns before) [
        | inl (bad, out) ↦ inl (bad, rw (← n) out)
        | inr (good, ran) ↦ inr (good, rw (← k) ran)
      ]

  first :
      (l : OsiLayer) (ns : List Text)
      → known registered ns ≡ 2
      → IsRun 2 (set_status (loud call status_text clock registered nic config ns (new_layer l)))
  first l ns k = rw (← k) (layer-IsRun call status_text clock registered nic config l ns)

  abbrev pub scanned : Layers
  scanned = scan_layers call status_text clock registered nic config

  shape :
      IsRun 2 scanned.l1
      × AfterLayer scanned.l1 scanned.l2
      × AfterLayer scanned.l2 scanned.l3
      × AfterLayer scanned.l3 scanned.l4
      × IsRun 2 scanned.l7
  unfolding scan_layers
  shape = (
    first physical quick_l1_tests known_l1,
    after data_link quick_l2_tests scanned.l1 known_l2 refl,
    after network quick_l3_tests scanned.l2 known_l3 refl,
    after transport quick_l4_tests scanned.l3 known_l4 refl,
    first application quick_l7_tests known_l7,
  )

  -- On the program's registry QuickScanRun finds all its tests. It runs both tests of layers 1 and 7,
  -- and both of layers 2, 3 and 4 unless the layer just before has failed; then they count as skipped,
  -- and the layer is not failed itself, so that the next one is run.
  pub quick_scan_run_lem :
      (r : QuickScanResult) × (quick_scan_run call status_text clock [] (some nic) (some config)
        ≡ (success, registered, some r))
      × IsRun 2 r.layers.l1
      × AfterLayer r.layers.l1 r.layers.l2
      × AfterLayer r.layers.l2 r.layers.l3
      × AfterLayer r.layers.l3 r.layers.l4
      × IsRun 2 r.layers.l7
  unfolding quick_scan_run aggregate
  quick_scan_run_lem = (aggregate scanned, refl, shape.0, shape.1, shape.2, shape.3, shape.4)

  -- The totals of that scan: passed, failed, warned and skipped tests are ten together, those left out
  -- counted as skipped. But TotalTests is more than ten by the number of tests that ran and ended as
  -- skipped: such a test is counted twice.
  pub quick_scan_run_totals :
      (r : QuickScanResult) × (quick_scan_run call status_text clock [] (some nic) (some config)
        ≡ (success, registered, some r))
      × (r.total_passed + r.total_failed + r.total_warned + r.total_skipped ≡ 10)
      × (r.total_tests + 2 * left_out (all_of r.layers) ≡ 10 + r.total_skipped)
  unfolding quick_scan_run aggregate
  quick_scan_run_totals =
      let t1 = counts_two scanned.l1 shape.0 in
      let t2 = after_counts scanned.l1 scanned.l2 shape.1 in
      let t3 = after_counts scanned.l2 scanned.l3 shape.2 in
      let t4 = after_counts scanned.l3 scanned.l4 shape.3 in
      let t7 = counts_two scanned.l7 shape.4 in
      (
        aggregate scanned,
        refl,
        omega (arith, t1.0, t2.0, t3.0, t4.0, t7.0),
        omega (arith, t1.1, t2.1, t3.1, t4.1, t7.1),
      )
