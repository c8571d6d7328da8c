-- ===== src/Report/Safe.antt =====
-- Which test functions ReportRunTests of Source/ReportExporter.c can call.
use ddtsoft_net_test.Base.{
  ℕ, ◌+◌, ◌*◌, ◌≡◌, refl, arith, Bool, Bool-cases, inl, inr, true, false, none, some, List, [], ◌∷◌,
  if◌then◌else◌,
}
use ddtsoft_net_test.Efi.{EfiStatus}
use ddtsoft_net_test.Registry.{reg_init_all_tests}
use ddtsoft_net_test.Registry.Tests.{OsiLayer, TestFunction, TestDefinition}
use ddtsoft_net_test.Registry.Queries.{tests_of, by_layer}
use ddtsoft_net_test.Runner.{Text, NicInfo, TestConfig, TestResult, zero_result}
use ddtsoft_net_test.Runner.Layers.{run_test_ext}
use ddtsoft_net_test.Report.{
  is_left_out, is_heavy, report_timeout, report_result, report_loop, report_run_tests,
}

-- The functions of the tests that a report runs.
abbrev pub is_run : TestFunction → Bool
is_run TestFunction.l1_nic_status = true
is_run TestFunction.l1_link_detect = true
is_run TestFunction.l1_link_negotiation = true
is_run TestFunction.l2_mac_address_valid = true
is_run TestFunction.l3_ip_config_check = true
is_run _ = false

-- A test that a report would run has one of these functions.
abbrev is_known : TestDefinition → Bool
is_known t = if is_left_out t then true else elim t.execute [ none ↦ true | some f ↦ is_run f ]

abbrev all_known : List TestDefinition → Bool
all_known [] = true
all_known (t ∷ ts) = if is_known t then all_known ts else false

registry_known : (l : OsiLayer) → all_known (tests_of l) ≡ true
unfolding is_left_out is_heavy
registry_known OsiLayer.physical = refl
registry_known OsiLayer.data_link = refl
registry_known OsiLayer.network = refl
registry_known OsiLayer.transport = refl
registry_known OsiLayer.session = refl
registry_known OsiLayer.presentation = refl
registry_known OsiLayer.application = refl
registry_known OsiLayer.all_layers = refl

module _
    (call call' : ℕ → ℕ → TestFunction → NicInfo → TestConfig → TestResult → EfiStatus × TestResult)
    (status_text : EfiStatus → Text) (clock : ℕ → ℕ) (esc : ℕ → Bool) (nic : NicInfo)
    (config : TestConfig) (timeout_ms : ℕ)
    (same : (t i : ℕ) (f : TestFunction) (n : NicInfo) (c : TestConfig) (r : TestResult)
      → is_run f ≡ true
      → call t i f n c r ≡ call' t i f n c r) where
  result_same :
      (i : ℕ) (t : TestDefinition)
      → is_known t ≡ true
      → report_result call status_text clock esc nic config timeout_ms i t
        ≡ report_result call' status_text clock esc nic config timeout_ms i t
  unfolding report_result
  result_same i t known = elim (Bool-cases (is_left_out t)) [
    | inl out ↦ rw (out, report_result) refl
    | inr in_report ↦
        let ext =
          run_test_ext (call (report_timeout timeout_ms) 1) (call' (report_timeout timeout_ms) 1)
            status_text t nic config (clock (2 * i)) (clock (2 * i + 1))
            (λ f e.
              same (report_timeout timeout_ms) 1 f nic config zero_result
                (ground (arith, known, in_report, e))) in
        rw (in_report, report_result) ext
  ]

  loop_same :
      (ts : List TestDefinition) (i : ℕ)
      → all_known ts ≡ true
      → report_loop call status_text clock esc nic config timeout_ms i ts
        ≡ report_loop call' status_text clock esc nic config timeout_ms i ts
  unfolding report_loop
  loop_same [] i known = refl
  loop_same (t ∷ ts) i known =
      let first : is_known t ≡ true = ground (arith, known) in
      let others : all_known ts ≡ true = ground (arith, known) in
      rw (result_same i t first, loop_same ts (i + 1) others, report_loop) refl

  -- Of the tests that the program registers, a report for any layer calls the functions of five only:
  -- the NIC status, the link detection, the link negotiation, the MAC address and the IP
  -- configuration. Whatever the other test functions do, the report is the same, whichever keys are
  -- pressed.
  pub report_run_tests_same :
      (l : OsiLayer)
      → report_run_tests call status_text clock esc nic config timeout_ms l (reg_init_all_tests [])
        ≡ report_run_tests call' status_text clock esc nic config timeout_ms l
            (reg_init_all_tests [])
  unfolding report_run_tests
  report_run_tests_same l = rw (by_layer l) (loop_same (tests_of l) 0 (registry_known l))
