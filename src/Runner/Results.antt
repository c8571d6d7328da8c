-- ===== src/Runner/Results.antt =====
-- What RunSingleTest reports.
use ddtsoft_net_test.Base.{
  ℕ, ◌≡◌, ◌≢◌, inl, inr, ◌↔◌, refl, sym, ap, ◌∙◌, Bool-cases, arith, true, false, ◌&&◌, Option,
  none, some, [],
}
use ddtsoft_net_test.Efi.{EfiStatus, efi_error}
use ddtsoft_net_test.Registry.Tests.{TestFunction, TestDefinition}
use ddtsoft_net_test.Runner.{
  Text, NicInfo, TestConfig, TestResult, result_pass, skipped_for_nic, skipped_for_target,
  run_check_prerequisites, all_zero, default_summary, fill_summary, set_duration, checked, execute,
  run_test, zero_result,
}

-- What a test needs of a NIC, one need at a time.
pub record Supports (nic : NicInfo) (t : TestDefinition) : Type 0 where
  pub snp : t.need_snp ≡ true → nic.snp ≡ true
  pub ip4 : t.need_ip4 ≡ true → nic.has_ip4 ≡ true
  pub tcp4 : t.need_tcp4 ≡ true → nic.has_tcp4 ≡ true
  pub udp4 : t.need_udp4 ≡ true → nic.has_udp4 ≡ true
  pub dhcp4 : t.need_dhcp4 ≡ true → nic.has_dhcp4 ≡ true
  pub mnp : t.need_mnp ≡ true → nic.has_mnp ≡ true

-- RunCheckPrerequisites accepts a NIC exactly when it has everything that the test needs.
pub run_check_prerequisites_iff :
    (t : TestDefinition) (nic : NicInfo)
    → (run_check_prerequisites (some t) (some nic) ≡ true) ↔ Supports nic t
unfolding run_check_prerequisites
run_check_prerequisites_iff t nic = (
  λ h. record {
    snp = λ e. ground arith;
    ip4 = λ e. ground arith;
    tcp4 = λ e. ground arith;
    udp4 = λ e. ground arith;
    dhcp4 = λ e. ground arith;
    mnp = λ e. ground arith;
  },
  λ s. ground (arith, s.snp, s.ip4, s.tcp4, s.udp4, s.dhcp4, s.mnp),
)

default_summary-ne-nil : (s : ℕ) → default_summary s ≢ []
unfolding default_summary
default_summary-ne-nil s = ground arith

fill_summary-ne-nil : (r : TestResult) → (fill_summary r).summary ≢ []
unfolding fill_summary
fill_summary-ne-nil r = ground (arith, default_summary-ne-nil r.status_code)

duration_keeps_status :
    (start end : ℕ) (r : TestResult) → (set_duration start end r).status_code ≡ r.status_code
unfolding set_duration
duration_keeps_status start end r = ground arith

fill_keeps_status : (r : TestResult) → (fill_summary r).status_code ≡ r.status_code
unfolding fill_summary
fill_keeps_status r = ground arith

module _ (call : TestFunction → NicInfo → TestConfig → TestResult → EfiStatus × TestResult)
    (status_text : EfiStatus → Text) (t : TestDefinition) (nic : NicInfo) (config : TestConfig)
    (start end : ℕ) where
  -- Whatever the test does, RunSingleTest leaves a summary.
  pub run_test_summary : (run_test call status_text t nic config start end).summary ≢ []
  unfolding run_test
  run_test_summary = ground (
    arith,
    fill_summary-ne-nil (set_duration start end (execute call status_text t.execute nic config)),
  )

  finished : TestResult → TestResult
  finished r = fill_summary (set_duration start end r)

  finished_status : (r : TestResult) → (finished r).status_code ≡ r.status_code
  unfolding finished
  finished_status r =
      fill_keeps_status (set_duration start end r) ∙ duration_keeps_status start end r

  -- A call that reports success for the test `t`.
  pub record Passes : Type 0 where
    pub supports : Supports nic t
    pub has_target : (t.requires_target && all_zero config) ≡ false
    pub function : TestFunction
    pub is_test : t.execute ≡ some function
    pub status : EfiStatus
    pub result : TestResult
    pub is_call : call function nic config zero_result ≡ (status, result)
    pub no_error : efi_error status ≡ false
    pub code : result.status_code ≡ result_pass

  ran :
      run_check_prerequisites (some t) (some nic) ≡ true
      → (t.requires_target && all_zero config) ≡ false
      → run_test call status_text t nic config start end
        ≡ finished (execute call status_text t.execute nic config)
  unfolding run_test finished
  ran h a = ground (arith, h, a)

  no_support :
      run_check_prerequisites (some t) (some nic) ≡ false
      → run_test call status_text t nic config start end ≡ skipped_for_nic
  unfolding run_test
  no_support h = ground (arith, h)

  no_target :
      run_check_prerequisites (some t) (some nic) ≡ true
      → (t.requires_target && all_zero config) ≡ true
      → run_test call status_text t nic config start end ≡ skipped_for_target
  unfolding run_test
  no_target h a = ground (arith, h, a)

  execute_status :
      (f : TestFunction) (s : EfiStatus) (r : TestResult)
      → t.execute ≡ some f
      → call f nic config zero_result ≡ (s, r)
      → execute call status_text t.execute nic config ≡ checked call status_text (s, r)
  unfolding execute
  execute_status f s r e c = rw (e, c) refl

  checked_status :
      (s : EfiStatus) (r : TestResult)
      → ((checked call status_text (s, r)).status_code ≡ result_pass)
        ↔ ((efi_error s ≡ false) × (r.status_code ≡ result_pass))
  unfolding checked
  checked_status s r = ground arith

  run_test-Passes :
      Passes → (run_test call status_text t nic config start end).status_code ≡ result_pass
  run_test-Passes p =
      ap (λ (r : TestResult). r.status_code)
        (ran ((run_check_prerequisites_iff t nic).1 p.supports) p.has_target)
      ∙ finished_status _
      ∙ ap (λ (r : TestResult). r.status_code)
          (execute_status p.function p.status p.result p.is_test p.is_call)
      ∙ (checked_status p.status p.result).1 (p.no_error, p.code)

  executed-Passes :
      Supports nic t
      → (t.requires_target && all_zero config) ≡ false
      → (e : Option TestFunction) → t.execute ≡ e
      → (execute call status_text t.execute nic config).status_code ≡ result_pass
      → Passes
  unfolding execute
  executed-Passes sup tgt none e h = absurd (ground (arith, e, h))
  executed-Passes sup tgt (some f) e h =
      let answer = call f nic config zero_result in
      let good = (checked_status answer.0 answer.1).0 (
        sym (ap (λ (r : TestResult). r.status_code) (execute_status f answer.0 answer.1 e refl))
        ∙ h) in
      record {
        supports = sup;
        has_target = tgt;
        function = f;
        is_test = e;
        status = answer.0;
        result = answer.1;
        is_call = refl;
        no_error = good.0;
        code = good.1;
      }

  passed-Passes :
      (run_test call status_text t nic config start end).status_code ≡ result_pass → Passes
  passed-Passes h = elim (Bool-cases (run_check_prerequisites (some t) (some nic))) [
    | inr lacks ↦ absurd (ground (arith, no_support lacks, h))
    | inl ok ↦ elim (Bool-cases (t.requires_target && all_zero config)) [
      | inl unset ↦ absurd (ground (arith, no_target ok unset, h))
      | inr tgt ↦
          executed-Passes ((run_check_prerequisites_iff t nic).0 ok) tgt t.execute refl (
            sym (finished_status _) ∙ sym (ap (λ (r : TestResult). r.status_code) (ran ok tgt)) ∙ h)
    ]
  ]

  -- RunSingleTest reports PASS exactly when the NIC has what the test needs, a target is set if the
  -- test requires one, the test has a function, and its call returned no error and left the status
  -- code at PASS. In particular a test that returns an error, or that never ran, is not a PASS.
  pub run_test_pass_iff :
      ((run_test call status_text t nic config start end).status_code ≡ result_pass) ↔ Passes
  run_test_pass_iff = (passed-Passes, run_test-Passes)
