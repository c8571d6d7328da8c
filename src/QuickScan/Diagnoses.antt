-- ===== src/QuickScan/Diagnoses.antt =====
-- The decision tree of Source/QuickScan.c.
use ddtsoft_net_test.Base.{
  ℕ, ◌+◌, ◌≡◌, arith, Bool, true, ◌&&◌, ltb, ◌==◌, if◌then◌else◌, List, [], ◌∷◌,
}
use ddtsoft_net_test.QuickScan.{
  QuickLayerStatus, is_fail, is_pass, is_warn, QuickLayerResult, Layers, Diagnosis, no_link,
  no_frames, bad_ip_config, no_route, no_transport, no_services, healthy, warnings, some_skipped,
  quick_apply_diagnosis,
}

abbrev pub all_of : Layers → List QuickLayerResult
all_of s = s.l1 ∷ s.l2 ∷ s.l3 ∷ s.l4 ∷ s.l7 ∷ []

-- What a failure of a layer is taken for, when no lower layer failed.
abbrev pub meanings : Layers → List Diagnosis
meanings s =
    no_link
    ∷ no_frames
    ∷ (if s.l3.tests_passed == 0 then bad_ip_config else no_route)
    ∷ no_transport
    ∷ no_services
    ∷ []

-- The meaning of the first layer that failed, or else `d`.
abbrev pub first_failure : List QuickLayerResult → List Diagnosis → Diagnosis → Diagnosis
first_failure (r ∷ rs) (m ∷ ms) d = if is_fail r.status then m else first_failure rs ms d
first_failure _ _ d = d

abbrev pub every : (QuickLayerStatus → Bool) → List QuickLayerResult → Bool
every test [] = true
every test (r ∷ rs) = test r.status && every test rs

abbrev pub count : (QuickLayerStatus → Bool) → List QuickLayerResult → ℕ
count test [] = 0
count test (r ∷ rs) = (if test r.status then 1 else 0) + count test rs

-- QuickApplyDiagnosis blames the lowest layer that failed. When none did, all is well if every layer
-- passed; else it reports the number of layers with warnings, and skipped tests when there is none.
pub quick_apply_diagnosis_lem :
    (s : Layers)
    → quick_apply_diagnosis s
      ≡ first_failure (all_of s) (meanings s) (
          if every is_pass (all_of s)
          then healthy
          else if ltb 0 (count is_warn (all_of s))
          then warnings (count is_warn (all_of s))
          else some_skipped)
unfolding quick_apply_diagnosis is_fail is_pass is_warn
quick_apply_diagnosis_lem s = ground arith
