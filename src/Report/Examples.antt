-- ===== src/Report/Examples.antt =====
-- Reports of ReportExporter.c with test functions that all pass.
use ddtsoft_net_test.Base.{
  ℕ, ◌≡◌, refl, true, false, none, some, List, [], ◌∷◌, ◌==◌, store32, store16, store8,
  if◌then◌else◌,
}
use ddtsoft_net_test.Efi.{EfiStatus, success, device_error}
use ddtsoft_net_test.Registry.{reg_init_all_tests}
use ddtsoft_net_test.Registry.Tests.{physical, TestFunction}
use ddtsoft_net_test.Runner.{Text, codes, NicInfo, TestConfig, TestResult, zero_result}
use ddtsoft_net_test.Report.{
  ReportFormat, extension, chosen_format, result_str, binary_header, report_timeout,
  report_run_tests,
}
use ddtsoft_net_test.Report.Safe.{is_run, report_run_tests_same}

abbrev nic : NicInfo
nic = record {
  snp = true;
  has_mnp = true;
  has_ip4 = true;
  has_tcp4 = false;
  has_udp4 = true;
  has_dhcp4 = true;
}

abbrev config : TestConfig
config = record { ip0 = 10; ip1 = 0; ip2 = 0; ip3 = 2 }

-- All functions pass; or those that a report does not call fail.
abbrev calm : ℕ → ℕ → TestFunction → NicInfo → TestConfig → TestResult → EfiStatus × TestResult
calm t i f n c r = (success, r)

abbrev wild : ℕ → ℕ → TestFunction → NicInfo → TestConfig → TestResult → EfiStatus × TestResult
wild t i f n c r = if is_run f then (success, r) else (device_error, record r { status_code = 1 })

wild_same :
    (t i : ℕ) (f : TestFunction) (n : NicInfo) (c : TestConfig) (r : TestResult)
    → is_run f ≡ true
    → calm t i f n c r ≡ wild t i f n c r
wild_same t i f n c r h = rw h refl

abbrev status_text : EfiStatus → Text
status_text s = codes "status"

report_run_tests_same_example :
    report_run_tests calm status_text
      (λ k. k)
      (λ i. i == 4)
      nic
      config
      5000
      physical
      (reg_init_all_tests [])
    ≡ report_run_tests wild status_text
        (λ k. k)
        (λ i. i == 4)
        nic
        config
        5000
        physical
        (reg_init_all_tests [])
report_run_tests_same_example =
    report_run_tests_same calm wild status_text (λ k. k) (λ i. i == 4) nic config 5000 wild_same
      physical

abbrev three : List TestResult
three =
    zero_result
    ∷ record zero_result { status_code = 3 }
    ∷ record zero_result { status_code = 9 }
    ∷ []

formats : (chosen_format 52 ≡ some ReportFormat.format_binary) × (chosen_format 53 ≡ none)
unfolding chosen_format
formats = (refl, refl)

extensions : (extension ReportFormat.format_csv ≡ codes "csv") × (result_str 3 ≡ codes "WARN")
unfolding extension result_str
extensions = (refl, refl)

-- The file of the binary report begins with the letter S.
first_byte : (binary_header (λ i. 0) 3 0 ≡ 0x53) × (binary_header (λ i. 0) 3 8 ≡ 3)
unfolding binary_header store32 store16 store8
first_byte = (refl, refl)

timeouts : (report_timeout 5000 ≡ 1500) × (report_timeout 1000 ≡ 1000)
unfolding report_timeout
timeouts = (refl, refl)
