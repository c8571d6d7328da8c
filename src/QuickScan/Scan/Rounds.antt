-- ===== src/QuickScan/Scan/Rounds.antt =====
-- The two scans of Source/QuickScan.c, layer by layer.
use ddtsoft_net_test.Base.{
  ℕ, ◌/◌, ◌≡◌, refl, arith, true, false, ◌&&◌, some, List, ltb, if◌then◌else◌, inl, inr, Bool-cases,
}
use ddtsoft_net_test.Efi.{EfiStatus, success}
use ddtsoft_net_test.Registry.{Registry, reg_init_all_tests}
use ddtsoft_net_test.Registry.Tests.{
  OsiLayer, physical, data_link, network, transport, application, TestFunction, TestDefinition,
}
use ddtsoft_net_test.Runner.{Text, NicInfo, TestConfig, TestResult}
use ddtsoft_net_test.QuickScan.{
  is_fail, QuickLayerResult, new_layer, Layers, quick_l1_tests, quick_l2_tests, quick_l3_tests,
  quick_l4_tests, quick_l7_tests, quick_determine_layer_status, set_status, quick_apply_diagnosis,
  diagnosis_text, detail_text, copy_text,
}
use ddtsoft_net_test.QuickScan.Scan.{
  QuickScanResult, aggregate, scan_layer, scan_layers, silent_layer, silent_layers, quick_scan_run,
  quick_scan_get_diagnosis,
}
use ddtsoft_net_test.QuickScan.Scan.Counts.{
  SameCounts, SameCounts-refl, status_same, loud, quiet, layer_SameCounts,
}

pub record SameLayer (a b : QuickLayerResult) : Type 0 where
  pub counts : SameCounts a b
  pub status_equal : a.status ≡ b.status

pub record AreSame (a b : Layers) : Type 0 where
  pub same1 : SameLayer a.l1 b.l1
  pub same2 : SameLayer a.l2 b.l2
  pub same3 : SameLayer a.l3 b.l3
  pub same4 : SameLayer a.l4 b.l4
  pub same7 : SameLayer a.l7 b.l7

diagnosis_same : (a b : Layers) → AreSame a b → quick_apply_diagnosis a ≡ quick_apply_diagnosis b
unfolding quick_apply_diagnosis
diagnosis_same a b s =
    rw
      (
        s.same1.status_equal, s.same2.status_equal, s.same3.status_equal, s.same4.status_equal,
        s.same7.status_equal, s.same3.counts.passed_same,
      )
      refl

set_status-SameLayer :
    (a b : QuickLayerResult) → SameCounts a b → SameLayer (set_status a) (set_status b)
set_status-SameLayer a b s = record {
  counts =
      unfold set_status in
      record {
        run_same = s.run_same;
        passed_same = s.passed_same;
        failed_same = s.failed_same;
        warned_same = s.warned_same;
        skipped_same = s.skipped_same;
      };
  status_equal = status_same a b s;
}

module _ (call : TestFunction → NicInfo → TestConfig → TestResult → EfiStatus × TestResult)
    (status_text : EfiStatus → Text) (clock : TestDefinition → ℕ × ℕ) (reg : Registry)
    (nic : NicInfo) (config : TestConfig) where
  run-SameLayer :
      (l : OsiLayer) (ns : List Text)
      → SameLayer
          (set_status (loud call status_text clock reg nic config ns (new_layer l)))
          (set_status (quiet call status_text clock reg nic config ns (new_layer l)))
  run-SameLayer l ns = set_status-SameLayer _ _ (
      layer_SameCounts call status_text clock reg nic config ns (new_layer l) (new_layer l)
        (SameCounts-refl (new_layer l)))

  layer-SameLayer :
      (i : ℕ) (l : OsiLayer) (ns : List Text) (a b : QuickLayerResult)
      → (ltb 0 i && ltb i 4) ≡ true
      → SameLayer a b
      → SameLayer
          (scan_layer call status_text clock reg nic config l ns a)
          (silent_layer call status_text clock reg nic config i l ns b)
  layer-SameLayer i l ns a b mid s = elim (Bool-cases (is_fail b.status)) [
    | inl bad ↦
        let bad' : is_fail a.status ≡ true = rw s.status_equal bad in
        unfold scan_layer silent_layer set_status quick_determine_layer_status in
        record {
          counts = record {
            run_same = ground (arith, bad, bad', mid);
            passed_same = ground (arith, bad, bad', mid);
            failed_same = ground (arith, bad, bad', mid);
            warned_same = ground (arith, bad, bad', mid);
            skipped_same = ground (arith, bad, bad', mid);
          };
          status_equal = ground (arith, bad, bad', mid);
        }
    | inr good ↦
        let good' : is_fail a.status ≡ false = rw s.status_equal good in
        let e1 : scan_layer call status_text clock reg nic config l ns a
            ≡ set_status (loud call status_text clock reg nic config ns (new_layer l)) =
          unfold scan_layer in ground (arith, good') in
        let e2 : silent_layer call status_text clock reg nic config i l ns b
            ≡ set_status (quiet call status_text clock reg nic config ns (new_layer l)) =
          unfold silent_layer in ground (arith, good) in
        rw (e1, e2) (run-SameLayer l ns)
  ]

  scans-AreSame :
      AreSame
        (scan_layers call status_text clock reg nic config)
        (silent_layers call status_text clock reg nic config)
  unfolding scan_layers silent_layers
  scans-AreSame =
      let s1 : SameLayer
          (set_status
            (loud call status_text clock reg nic config quick_l1_tests (new_layer physical)))
          (silent_layer call status_text clock reg nic config 0 physical quick_l1_tests
            (new_layer physical)) =
        unfold silent_layer in run-SameLayer physical quick_l1_tests in
      let s2 = layer-SameLayer 1 data_link quick_l2_tests _ _ refl s1 in
      let s3 = layer-SameLayer 2 network quick_l3_tests _ _ refl s2 in
      let s4 = layer-SameLayer 3 transport quick_l4_tests _ _ refl s3 in
      record {
        same1 = s1;
        same2 = s2;
        same3 = s3;
        same4 = s4;
        same7 = unfold silent_layer in run-SameLayer application quick_l7_tests;
      }

-- QuickScanGetDiagnosis gives the diagnosis that QuickScanRun shows for the same NIC and the same
-- configuration, from the same registry, and its explanation, each cut to its buffer.
pub quick_scan_agree :
    (call : TestFunction → NicInfo → TestConfig → TestResult → EfiStatus × TestResult)
    (status_text : EfiStatus → Text) (clock : TestDefinition → ℕ × ℕ) (decimal : ℕ → Text)
    (reg : Registry) (nic : NicInfo) (config : TestConfig) (d e : Text) (n k : ℕ)
    → (r : QuickScanResult) × (quick_scan_run call status_text clock reg (some nic) (some config)
        ≡ (success, reg_init_all_tests reg, some r))
      × (quick_scan_get_diagnosis call status_text clock decimal reg
            (some nic)
            (some config)
            (some d)
            n
            (some e)
            k
          ≡ (
            success,
            reg_init_all_tests reg,
            some (copy_text d (diagnosis_text decimal r.diagnosis) (n / 2)),
            some (if ltb 0 k then copy_text e (detail_text r.diagnosis) (k / 2) else e),
          ))
unfolding quick_scan_run quick_scan_get_diagnosis aggregate
quick_scan_agree call status_text clock decimal reg nic config d e n k =
    let reg' = reg_init_all_tests reg in
    (
      aggregate (scan_layers call status_text clock reg' nic config),
      refl,
      rw (diagnosis_same _ _ (scans-AreSame call status_text clock reg' nic config)) refl,
    )
