-- ===== src/Report.antt =====
-- Source/ReportExporter.c: which tests a report runs, and how it counts their results. The screen is
-- left out; the test functions, the text that `%r` prints, the clock and the keys are parameters.
pub mod Safe
pub mod Totals
mod Examples
use Prim.Native.String.{String}
use ddtsoft_net_test.Base.{
  ℕ, zero, suc, ◌+◌, ◌*◌, ◌^◌, ◌%◌, Bool, true, false, ◌||◌, Option, none, some, List, [], ◌∷◌, ltb,
  ◌==◌, if◌then◌else◌, Bytes, store32,
}
use ddtsoft_net_test.Efi.{EfiStatus}
use ddtsoft_net_test.Registry.{Registry, reg_get_tests_by_layer, max_tests}
use ddtsoft_net_test.Registry.Tests.{OsiLayer, TestType, TestFunction, TestDefinition}
use ddtsoft_net_test.Runner.{
  Text, codes, NicInfo, TestConfig, TestResult, zero_result, run_test, result_pass, result_fail,
  result_skip, result_warn, result_error,
}

-- REPORT_FORMAT
pub data ReportFormat : Type 0 where
  format_txt format_csv format_detailed format_binary format_max : ReportFormat

-- The extension that ReportBuildFilename chooses.
pub extension : ReportFormat → Text
extension ReportFormat.format_txt = codes "txt"
extension ReportFormat.format_csv = codes "csv"
extension ReportFormat.format_detailed = codes "txt"
extension ReportFormat.format_binary = codes "bin"
extension ReportFormat.format_max = codes "dat"

-- The choice of the format by a key in ReportDoExport; `none` for EFI_ABORTED.
pub chosen_format : ℕ → Option ReportFormat
chosen_format key =
    if key == 49
    then some ReportFormat.format_txt
    else if key == 50
    then some ReportFormat.format_csv
    else if key == 51
    then some ReportFormat.format_detailed
    else if key == 52
    then some ReportFormat.format_binary
    else none

-- ReportResultStr
pub result_str : ℕ → Text
result_str s =
    if s == result_pass
    then codes "PASS"
    else if s == result_fail
    then codes "FAIL"
    else if s == result_skip
    then codes "SKIP"
    else if s == result_warn
    then codes "WARN"
    else if s == result_error
    then codes "ERROR"
    else codes "???"

-- The five counters of ReportCountResults.
pub record Counts : Type 0 where
  pub pass_count : ℕ
  pub fail_count : ℕ
  pub warn_count : ℕ
  pub skip_count : ℕ
  pub err_count : ℕ

abbrev pub no_counts : Counts
no_counts = record { pass_count = 0; fail_count = 0; warn_count = 0; skip_count = 0; err_count = 0 }

-- One round of the loop of ReportCountResults.
pub count_one : ℕ → Counts → Counts
count_one s c =
    if s == result_pass
    then record c { pass_count = (c.pass_count + 1) % 2 ^ 64 }
    else if s == result_fail
    then record c { fail_count = (c.fail_count + 1) % 2 ^ 64 }
    else if s == result_warn
    then record c { warn_count = (c.warn_count + 1) % 2 ^ 64 }
    else if s == result_skip
    then record c { skip_count = (c.skip_count + 1) % 2 ^ 64 }
    else if s == result_error
    then record c { err_count = (c.err_count + 1) % 2 ^ 64 }
    else c

pub count_loop : List TestResult → Counts → Counts
count_loop [] c = c
count_loop (r ∷ rs) c = count_loop rs (count_one r.status_code c)

-- ReportCountResults
pub count_results : List TestResult → Counts
count_results rs = count_loop rs no_counts

-- The first twelve bytes of ReportExportBinary's file: the magic, the version and the number of
-- results.
pub binary_header : Bytes → ℕ → Bytes
binary_header b result_count =
    store32 (store32 (store32 b 0 0x44445453) 4 0x00010000) 8 (result_count % 2 ^ 32)

-- `Type == TestTypeStress || Type == TestTypePerformance`
pub is_heavy : TestType → Bool
is_heavy TestType.stress = true
is_heavy TestType.performance = true
is_heavy _ = false

-- The condition under which ReportRunTests does not run a test.
pub is_left_out : TestDefinition → Bool
is_left_out t = t.requires_target || (ltb 1000 t.estimated_time_ms || is_heavy t.type)

abbrev pub not_run : TestResult
not_run = record zero_result {
  status_code = result_skip;
  summary = codes "Skipped in report mode — run from [T] Run Tests for full results";
}

-- TimeoutMs of the report's configuration.
pub report_timeout : ℕ → ℕ
report_timeout timeout_ms = if ltb 1500 timeout_ms then 1500 else timeout_ms

-- `call` runs a test function with TimeoutMs and Iterations of the configuration.
module _ (call : ℕ → ℕ → TestFunction → NicInfo → TestConfig → TestResult → EfiStatus × TestResult)
    (status_text : EfiStatus → Text) (clock : ℕ → ℕ) (esc : ℕ → Bool) (nic : NicInfo)
    (config : TestConfig) (timeout_ms : ℕ) where
  -- One test of a report.
  pub report_result : ℕ → TestDefinition → TestResult
  report_result i t =
      if is_left_out t
      then not_run
      else run_test (call (report_timeout timeout_ms) 1) status_text t nic config (clock (2 * i))
          (clock (2 * i + 1))

  -- The loop of ReportRunTests from test `i` on: what it leaves in OutTestDefs and OutResults. `esc i`
  -- tells whether the key ESC is read before test `i`.
  pub report_loop : ℕ → List TestDefinition → List (TestDefinition × TestResult)
  report_loop i [] = []
  report_loop i (t ∷ ts) =
      let rest = report_loop (i + 1) ts in if esc i then [] else (t, report_result i t) ∷ rest

  -- ReportRunTests. `*OutCount` is the number of results.
  pub report_run_tests : OsiLayer → Registry → List (TestDefinition × TestResult)
  report_run_tests l reg = report_loop 0 (reg_get_tests_by_layer l reg max_tests)
