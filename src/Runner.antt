-- ===== src/Runner.antt =====
-- Source/TestRunner.c: prerequisites, one test, and the tests of a layer.
-- The test functions and the text that `%r` prints for a status are parameters; the clock's readings
-- come as arguments. A pointer argument that may be NULL is an `Option`.
pub mod Results
pub mod Layers
mod Examples
use Prim.Native.Char.{code}
use Prim.Native.String
use Prim.Native.String.{String}
use ddtsoft_net_test.Base.{
  ℕ, zero, suc, ◌+◌, ◌-◌, ◌*◌, ◌%◌, ◌^◌, Bool, true, false, not, ◌&&◌, ◌||◌, Option, none, some,
  List, [], ◌∷◌, ◌++◌, take, ltb, leb, ◌==◌, if◌then◌else◌,
}
use ddtsoft_net_test.Efi.{EfiStatus, success, invalid_parameter, efi_error}
use ddtsoft_net_test.Registry.{Registry, reg_get_tests_by_layer, max_tests}
use ddtsoft_net_test.Registry.Tests.{OsiLayer, all_layers, TestFunction, TestDefinition}

-- A CHAR16 buffer as the characters before its NUL.
abbrev pub Text : Type 0
Text = List ℕ

abbrev pub codes : String → Text
codes String.[] = []
codes (String.◌∷◌ c s) = code c ∷ codes s

-- The fields of NIC_INFO that the prerequisites read; `snp` tells whether the pointer is not NULL.
pub record NicInfo : Type 0 where
  pub snp : Bool
  pub has_mnp : Bool
  pub has_ip4 : Bool
  pub has_tcp4 : Bool
  pub has_udp4 : Bool
  pub has_dhcp4 : Bool

-- TargetIp of TEST_CONFIG, byte by byte.
pub record TestConfig : Type 0 where
  pub ip0 : ℕ
  pub ip1 : ℕ
  pub ip2 : ℕ
  pub ip3 : ℕ

abbrev pub result_pass : ℕ
result_pass = 0

abbrev pub result_fail : ℕ
result_fail = 1

abbrev pub result_skip : ℕ
result_skip = 2

abbrev pub result_warn : ℕ
result_warn = 3

abbrev pub result_error : ℕ
result_error = 4

-- TEST_RESULT_DATA
pub record TestResult : Type 0 where
  pub status_code : ℕ
  pub duration_ms : ℕ
  pub summary : Text
  pub detail : Text
  pub fail_reason : Text
  pub suggestion : Text
  pub packets_sent : ℕ
  pub packets_received : ℕ
  pub bytes_sent : ℕ
  pub bytes_received : ℕ
  pub rtt_min_us : ℕ
  pub rtt_avg_us : ℕ
  pub rtt_max_us : ℕ
  pub rtt_jitter_us : ℕ

-- `ZeroMem (Result, sizeof (TEST_RESULT_DATA))`
abbrev pub zero_result : TestResult
zero_result = record {
  status_code = 0;
  duration_ms = 0;
  summary = [];
  detail = [];
  fail_reason = [];
  suggestion = [];
  packets_sent = 0;
  packets_received = 0;
  bytes_sent = 0;
  bytes_received = 0;
  rtt_min_us = 0;
  rtt_avg_us = 0;
  rtt_max_us = 0;
  rtt_jitter_us = 0;
}

-- RunCheckPrerequisites
pub run_check_prerequisites : Option TestDefinition → Option NicInfo → Bool
run_check_prerequisites none nic = false
run_check_prerequisites (some t) none = false
run_check_prerequisites (some t) (some nic) =
    if t.need_snp && not nic.snp
    then false
    else if t.need_ip4 && not nic.has_ip4
    then false
    else if t.need_tcp4 && not nic.has_tcp4
    then false
    else if t.need_udp4 && not nic.has_udp4
    then false
    else if t.need_dhcp4 && not nic.has_dhcp4
    then false
    else if t.need_mnp && not nic.has_mnp
    then false
    else true

-- The loop over TargetIp that looks for a byte other than zero.
pub all_zero : TestConfig → Bool
all_zero c = c.ip0 == 0 && (c.ip1 == 0 && (c.ip2 == 0 && c.ip3 == 0))

abbrev pub skipped_for_nic : TestResult
skipped_for_nic = record zero_result {
  status_code = result_skip;
  summary = codes "Skipped: NIC missing required protocol";
  fail_reason = codes "NIC does not support required protocol stack";
  suggestion = codes "Use a NIC with the required protocol support";
}

abbrev pub skipped_for_target : TestResult
skipped_for_target = record zero_result {
  status_code = result_skip;
  summary = codes "Skipped: Target IP required but not configured";
  suggestion = codes "Configure a target IP address in test settings";
}

abbrev pub not_implemented : TestResult
not_implemented = record zero_result {
  status_code = result_skip;
  summary = codes "Skipped: Test not yet implemented";
}

-- The default summary, by the status code.
pub default_summary : ℕ → Text
default_summary s =
    if s == result_pass
    then codes "Test passed"
    else if s == result_fail
    then codes "Test failed"
    else if s == result_warn
    then codes "Test completed with warnings"
    else codes "Test completed"

pub fill_summary : TestResult → TestResult
fill_summary r = elim r.summary [
  | [] ↦ record r { summary = default_summary r.status_code }
  | c ∷ cs ↦ r
]

-- `if (EndTime >= StartTime) Result->DurationMs = (EndTime - StartTime) * 1000`
pub set_duration : ℕ → ℕ → TestResult → TestResult
set_duration start end r =
    if leb start end then record r { duration_ms = (end - start) * 1000 % 2 ^ 64 } else r

module _ (call : TestFunction → NicInfo → TestConfig → TestResult → EfiStatus × TestResult)
    (status_text : EfiStatus → Text) where
  -- What is left of the call's result when it returns an error but no status code.
  pub checked : EfiStatus × TestResult → TestResult
  checked (s, r) =
      if efi_error s && r.status_code == 0
      then record r {
        status_code = result_error;
        summary = take 127 (codes "Test returned error: " ++ status_text s);
      }
      else r

  pub execute : Option TestFunction → NicInfo → TestConfig → TestResult
  execute none nic config = not_implemented
  execute (some f) nic config = checked (call f nic config zero_result)

  -- RunSingleTest behind its NULL checks, with the clock's two readings.
  pub run_test : TestDefinition → NicInfo → TestConfig → ℕ → ℕ → TestResult
  run_test t nic config start end =
      if not (run_check_prerequisites (some t) (some nic))
      then skipped_for_nic
      else if t.requires_target && all_zero config
      then skipped_for_target
      else fill_summary (set_duration start end (execute t.execute nic config))

  -- RunSingleTest: its status, and what it leaves in `Result`.
  pub run_single_test :
      Option TestDefinition
      → Option NicInfo
      → Option TestConfig
      → Option TestResult
      → ℕ
      → ℕ
      → EfiStatus × Option TestResult
  run_single_test (some t) (some nic) (some config) (some r) start end =
      (success, some (run_test t nic config start end))
  run_single_test _ _ _ r start end = (invalid_parameter, r)

  -- The loop of RunTestsByLayer from test `i` on; `clock` gives the successive readings.
  pub run_loop : (ℕ → ℕ) → NicInfo → TestConfig → ℕ → ℕ → List TestDefinition → List TestResult
  run_loop clock nic config max_results i [] = []
  run_loop clock nic config max_results i (t ∷ ts) =
      let r = run_test t nic config (clock (2 * i)) (clock (2 * i + 1)) in
      let rest = run_loop clock nic config max_results (i + 1) ts in
      if ltb i max_results then r ∷ rest else []

  -- RunTestsByLayer: the results written; `*ResultCount` is their number. `none` for
  -- EFI_INVALID_PARAMETER.
  pub run_tests_by_layer :
      OsiLayer
      → Registry
      → (ℕ → ℕ)
      → Option NicInfo
      → Option TestConfig
      → ℕ
      → Option (List TestResult)
  run_tests_by_layer l reg clock (some nic) (some config) max_results =
      some (run_loop clock nic config max_results 0 (reg_get_tests_by_layer l reg max_tests))
  run_tests_by_layer l reg clock _ _ max_results = none

  -- RunAllTests
  pub run_all_tests :
      Registry → (ℕ → ℕ) → Option NicInfo → Option TestConfig → ℕ → Option (List TestResult)
  run_all_tests = run_tests_by_layer all_layers
