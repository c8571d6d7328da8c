-- ===== src/Runner/Layers.antt =====
-- Which tests RunTestsByLayer runs, and in which order.
use ddtsoft_net_test.Base.{
  ℕ, suc, ◌+◌, ◌-◌, ◌*◌, ◌≡◌, refl, ap, ◌∙◌, arith, some, List, [], ◌∷◌, take, dec_lt, length,
  length-take, take-nil, sym, min, Option-cases, inl, inr,
}
use ddtsoft_net_test.Efi.{EfiStatus}
use ddtsoft_net_test.Registry.{Registry, reg_get_tests_by_layer, max_tests}
use ddtsoft_net_test.Registry.Tests.{OsiLayer, TestFunction, TestDefinition}
use ddtsoft_net_test.Registry.Queries.{tests_in, reg_get_tests_by_layer_lem}
use ddtsoft_net_test.Runner.{
  checked, Text, NicInfo, TestConfig, TestResult, run_test, run_loop, run_tests_by_layer, execute,
  zero_result,
}

module _ (call : TestFunction → NicInfo → TestConfig → TestResult → EfiStatus × TestResult)
    (status_text : EfiStatus → Text) (clock : ℕ → ℕ) (nic : NicInfo) (config : TestConfig) where
  -- The results of a list of tests, each between the next two readings of the clock.
  abbrev pub results_of : ℕ → List TestDefinition → List TestResult
  results_of i [] = []
  results_of i (t ∷ ts) =
      run_test call status_text t nic config (clock (2 * i)) (clock (2 * i + 1))
      ∷ results_of (i + 1) ts

  run_loop-eq :
      (max i : ℕ) (ts : List TestDefinition)
      → run_loop call status_text clock nic config max i ts ≡ results_of i (take (max - i) ts)
  unfolding run_loop
  run_loop-eq max i [] = ap (results_of i) (sym (take-nil (max - i)))
  run_loop-eq max i (t ∷ ts) = elim (dec_lt i max) [
    | yes lt ↦
        let room : max - i ≡ suc (max - (i + 1)) = omega arith in
        rw room (ground (arith, run_loop-eq max (i + 1) ts))
    | no ge ↦ let full : max - i ≡ 0 = omega arith in rw full (ground arith)
  ]

  length-results_of : (i : ℕ) (ts : List TestDefinition) → length (results_of i ts) ≡ length ts
  length-results_of i [] = refl
  length-results_of i (t ∷ ts) = ap (λ (n : ℕ). suc n) (length-results_of (i + 1) ts)

  -- RunTestsByLayer runs the registered tests of the layer once each, in the order of their
  -- registration, up to the size of the test table and of the result array, and writes one result
  -- for each at its place; there are never more results than the array holds.
  pub run_tests_by_layer_lem :
      (l : OsiLayer) (reg : Registry) (max : ℕ)
      → (rs : List TestResult) × (run_tests_by_layer call status_text l reg clock
            (some nic)
            (some config)
            max
          ≡ some rs)
        × (rs ≡ results_of 0 (take max (take max_tests (tests_in l reg))))
        × (length rs ≡ min max (min max_tests (length (tests_in l reg))))
  unfolding run_tests_by_layer
  run_tests_by_layer_lem l reg max =
      let found = reg_get_tests_by_layer l reg max_tests in
      let chosen = take max (take max_tests (tests_in l reg)) in
      let order : run_loop call status_text clock nic config max 0 found ≡ results_of 0 chosen =
        run_loop-eq max 0 found
        ∙ ap (λ (k : ℕ). results_of 0 (take k found)) {x = max - 0} (omega arith)
        ∙ ap (λ (ts : List TestDefinition). results_of 0 (take max ts))
            (reg_get_tests_by_layer_lem l reg max_tests) in
      (
        run_loop call status_text clock nic config max 0 found,
        refl,
        order,
        ap length order
            ∙ length-results_of 0 chosen
            ∙ length-take max (take max_tests (tests_in l reg))
            ∙ ap (min max) (length-take max_tests (tests_in l reg)),
      )

-- The result of a test depends on the test functions only through the one that it has.
pub run_test_ext :
    (call call' : TestFunction → NicInfo → TestConfig → TestResult → EfiStatus × TestResult)
    (status_text : EfiStatus → Text) (t : TestDefinition) (nic : NicInfo) (config : TestConfig)
    (start end : ℕ)
    → ((f : TestFunction)
        → t.execute ≡ some f
        → call f nic config zero_result ≡ call' f nic config zero_result)
    → run_test call status_text t nic config start end
      ≡ run_test call' status_text t nic config start end
unfolding run_test execute checked
run_test_ext call call' status_text t nic config start end same = elim (Option-cases t.execute) [
  | inl no_function ↦ rw no_function refl
  | inr (f, e) ↦ rw (e, same f e) refl
]
