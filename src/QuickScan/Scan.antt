-- ===== src/QuickScan/Scan.antt =====
-- Source/QuickScan.c: the two scans.
pub mod Counts
pub mod Rounds
pub mod Totals
mod Examples
use ddtsoft_net_test.Base.{
  ℕ, zero, suc, ◌+◌, ◌-◌, ◌/◌, Bool, true, false, ◌&&◌, Option, none, some, List, [], ◌∷◌, ltb, leb,
  ◌==◌, if◌then◌else◌, length,
}
use ddtsoft_net_test.Efi.{EfiStatus, success, invalid_parameter}
use ddtsoft_net_test.Registry.{Registry, reg_init_all_tests}
use ddtsoft_net_test.Registry.Tests.{
  OsiLayer, physical, data_link, network, transport, application, TestFunction, TestDefinition,
}
use ddtsoft_net_test.Runner.{Text, NicInfo, TestConfig, TestResult, run_test}
use ddtsoft_net_test.QuickScan.{
  QuickLayerStatus, not_tested, is_fail, QuickLayerResult, new_layer, Layers, quick_l1_tests,
  quick_l2_tests, quick_l3_tests, quick_l4_tests, quick_l7_tests, quick_find_test, set_status,
  count_result, add_result, Diagnosis, quick_apply_diagnosis, diagnosis_text, detail_text,
  copy_text,
}

-- QUICK_SCAN_RESULT
pub record QuickScanResult : Type 0 where
  pub layers : Layers
  pub total_tests : ℕ
  pub total_passed : ℕ
  pub total_failed : ℕ
  pub total_warned : ℕ
  pub total_skipped : ℕ
  pub diagnosis : Diagnosis

-- The loop that aggregates the totals, and QuickApplyDiagnosis.
pub aggregate : Layers → QuickScanResult
aggregate s = record {
  layers = s;
  total_tests =
      (s.l1.tests_run + s.l1.tests_skipped)
      + (s.l2.tests_run + s.l2.tests_skipped)
      + (s.l3.tests_run + s.l3.tests_skipped)
      + (s.l4.tests_run + s.l4.tests_skipped)
      + (s.l7.tests_run + s.l7.tests_skipped);
  total_passed =
      s.l1.tests_passed + s.l2.tests_passed + s.l3.tests_passed + s.l4.tests_passed
      + s.l7.tests_passed;
  total_failed =
      s.l1.tests_failed + s.l2.tests_failed + s.l3.tests_failed + s.l4.tests_failed
      + s.l7.tests_failed;
  total_warned =
      s.l1.tests_warned + s.l2.tests_warned + s.l3.tests_warned + s.l4.tests_warned
      + s.l7.tests_warned;
  total_skipped =
      s.l1.tests_skipped + s.l2.tests_skipped + s.l3.tests_skipped + s.l4.tests_skipped
      + s.l7.tests_skipped;
  diagnosis = quick_apply_diagnosis s;
}

module _ (call : TestFunction → NicInfo → TestConfig → TestResult → EfiStatus × TestResult)
    (status_text : EfiStatus → Text) (clock : TestDefinition → ℕ × ℕ) (reg : Registry)
    (nic : NicInfo) (config : TestConfig) where
  -- `RunSingleTest (Test, Nic, Config, &TestResult)`
  pub run : TestDefinition → TestResult
  run t = run_test call status_text t nic config (clock t).0 (clock t).1

  -- QuickRunLayerTests
  pub quick_run_layer_tests : List Text → QuickLayerResult → QuickLayerResult
  quick_run_layer_tests [] r = r
  quick_run_layer_tests (name ∷ names) r = elim (quick_find_test reg name) [
    | none ↦ quick_run_layer_tests names r
    | some t ↦ quick_run_layer_tests names (add_result (run t) r)
  ]

  -- The inner loop of QuickScanGetDiagnosis.
  pub run_silently : List Text → QuickLayerResult → QuickLayerResult
  run_silently [] r = r
  run_silently (name ∷ names) r = elim (quick_find_test reg name) [
    | none ↦ run_silently names r
    | some t ↦ run_silently names (count_result (run t) r)
  ]

  -- A layer of QuickScanRun that depends on the one before it.
  pub scan_layer : OsiLayer → List Text → QuickLayerResult → QuickLayerResult
  scan_layer l names before = set_status (
      if is_fail before.status
      then record (new_layer l) { tests_skipped = length names }
      else quick_run_layer_tests names (new_layer l))

  pub scan_layers : Layers
  scan_layers =
      let r1 = set_status (quick_run_layer_tests quick_l1_tests (new_layer physical)) in
      let r2 = scan_layer data_link quick_l2_tests r1 in
      let r3 = scan_layer network quick_l3_tests r2 in
      let r4 = scan_layer transport quick_l4_tests r3 in
      let r7 = set_status (quick_run_layer_tests quick_l7_tests (new_layer application)) in
      record { l1 = r1; l2 = r2; l3 = r3; l4 = r4; l7 = r7 }

  -- Round `i` of the loop over the layers in QuickScanGetDiagnosis.
  pub silent_layer : ℕ → OsiLayer → List Text → QuickLayerResult → QuickLayerResult
  silent_layer i l names before =
      if ltb 0 i && (ltb i 4 && is_fail before.status)
      then record (new_layer l) { tests_skipped = length names; status = not_tested }
      else set_status (run_silently names (new_layer l))

  -- Its five rounds; the first has no layer before it.
  pub silent_layers : Layers
  silent_layers =
      let r1 = silent_layer 0 physical quick_l1_tests (new_layer physical) in
      let r2 = silent_layer 1 data_link quick_l2_tests r1 in
      let r3 = silent_layer 2 network quick_l3_tests r2 in
      let r4 = silent_layer 3 transport quick_l4_tests r3 in
      let r7 = silent_layer 4 application quick_l7_tests r4 in
      record { l1 = r1; l2 = r2; l3 = r3; l4 = r4; l7 = r7 }

module _ (call : TestFunction → NicInfo → TestConfig → TestResult → EfiStatus × TestResult)
    (status_text : EfiStatus → Text) (clock : TestDefinition → ℕ × ℕ) where
  -- QuickScanRun: its status, the registry it leaves, and the result that it displays.
  pub quick_scan_run :
      Registry → Option NicInfo → Option TestConfig → EfiStatus × Registry × Option QuickScanResult
  quick_scan_run reg (some nic) (some config) =
      let reg' = reg_init_all_tests reg in
      (success, reg', some (aggregate (scan_layers call status_text clock reg' nic config)))
  quick_scan_run reg _ _ = (invalid_parameter, reg, none)

  -- QuickScanGetDiagnosis: its status, the registry it leaves, and what it leaves in Diagnosis and
  -- in Detail, of DiagSize and DetailSize bytes; a NULL buffer is `none`.
  pub quick_scan_get_diagnosis :
      (ℕ → Text)
      → Registry
      → Option NicInfo
      → Option TestConfig
      → Option Text
      → ℕ
      → Option Text
      → ℕ
      → EfiStatus × Registry × Option Text × Option Text
  quick_scan_get_diagnosis decimal reg (some nic) (some config) (some diagnosis) diag_size detail
        detail_size =
      let reg' = reg_init_all_tests reg in
      let found = quick_apply_diagnosis (silent_layers call status_text clock reg' nic config) in
      (
        success,
        reg',
        some (copy_text diagnosis (diagnosis_text decimal found) (diag_size / 2)),
        elim detail [
          | none ↦ none
          | some d ↦
              some
                (if ltb 0 detail_size then copy_text d (detail_text found) (detail_size / 2) else d)
        ],
      )
  quick_scan_get_diagnosis decimal reg _ _ diagnosis diag_size detail detail_size =
      (invalid_parameter, reg, diagnosis, detail)
