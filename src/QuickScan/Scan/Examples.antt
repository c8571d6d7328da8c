-- ===== src/QuickScan/Scan/Examples.antt =====
-- The theorems on QuickScan.c at a NIC on which ARP fails.
use ddtsoft_net_test.Base.{
  ℕ, ◌+◌, ◌*◌, ◌/◌, ◌≡◌, refl, true, false, some, [], ◌∷◌, ltb, if◌then◌else◌,
}
use ddtsoft_net_test.Efi.{EfiStatus, success}
use ddtsoft_net_test.Registry.{reg_init_all_tests}
use ddtsoft_net_test.Registry.Tests.{
  physical, data_link, network, transport, application, TestFunction, TestDefinition,
  l2_arp_request_reply,
}
use ddtsoft_net_test.Runner.{Text, codes, NicInfo, TestConfig, TestResult, result_fail}
use ddtsoft_net_test.QuickScan.{
  new_layer, fail, pass, Layers, quick_apply_diagnosis, healthy, warnings, some_skipped, is_pass,
  is_warn, diagnosis_text, detail_text, copy_text,
}
use ddtsoft_net_test.QuickScan.Diagnoses.{
  all_of, meanings, first_failure, every, count, quick_apply_diagnosis_lem,
}
use ddtsoft_net_test.QuickScan.Scan.{QuickScanResult, quick_scan_run, quick_scan_get_diagnosis}
use ddtsoft_net_test.QuickScan.Scan.Rounds.{quick_scan_agree}
use ddtsoft_net_test.QuickScan.Scan.Totals.{
  IsRun, AfterLayer, left_out, registered, quick_scan_run_lem, quick_scan_run_totals,
}

abbrev nic : NicInfo
nic = record {
  snp = true;
  has_mnp = true;
  has_ip4 = true;
  has_tcp4 = false;
  has_udp4 = true;
  has_dhcp4 = true;
}

abbrev config : TestConfig
config = record { ip0 = 10; ip1 = 0; ip2 = 0; ip3 = 2 }

-- The ARP test fails, every other test passes.
abbrev call : TestFunction → NicInfo → TestConfig → TestResult → EfiStatus × TestResult
call l2_arp_request_reply n c r = (success, record r { status_code = result_fail })
call f n c r = (success, r)

abbrev status_text : EfiStatus → Text
status_text s = codes "status"

abbrev clock : TestDefinition → ℕ × ℕ
clock t = (100, 103)

abbrev decimal : ℕ → Text
decimal n = (48 + n) ∷ []

abbrev layers : Layers
layers = record {
  l1 = record (new_layer physical) { status = pass };
  l2 = record (new_layer data_link) { status = fail };
  l3 = new_layer network;
  l4 = record (new_layer transport) { status = fail };
  l7 = new_layer application;
}

quick_apply_diagnosis_lem_example :
    quick_apply_diagnosis layers
    ≡ first_failure (all_of layers) (meanings layers) (
        if every is_pass (all_of layers)
        then healthy
        else if ltb 0 (count is_warn (all_of layers))
        then warnings (count is_warn (all_of layers))
        else some_skipped)
quick_apply_diagnosis_lem_example = quick_apply_diagnosis_lem layers

quick_scan_agree_example :
    (r : QuickScanResult) × (quick_scan_run call status_text clock [] (some nic) (some config)
      ≡ (success, reg_init_all_tests [], some r))
    × (quick_scan_get_diagnosis call status_text clock decimal []
          (some nic)
          (some config)
          (some [])
          128
          (some [])
          256
        ≡ (
          success,
          reg_init_all_tests [],
          some (copy_text [] (diagnosis_text decimal r.diagnosis) (128 / 2)),
          some (if ltb 0 256 then copy_text [] (detail_text r.diagnosis) (256 / 2) else []),
        ))
quick_scan_agree_example =
    quick_scan_agree call status_text clock decimal [] nic config [] [] 128 256

quick_scan_run_lem_example :
    (r : QuickScanResult) × (quick_scan_run call status_text clock [] (some nic) (some config)
      ≡ (success, registered, some r))
    × IsRun 2 r.layers.l1
    × AfterLayer r.layers.l1 r.layers.l2
    × AfterLayer r.layers.l2 r.layers.l3
    × AfterLayer r.layers.l3 r.layers.l4
    × IsRun 2 r.layers.l7
quick_scan_run_lem_example = quick_scan_run_lem call status_text clock nic config

quick_scan_run_totals_example :
    (r : QuickScanResult) × (quick_scan_run call status_text clock [] (some nic) (some config)
      ≡ (success, registered, some r))
    × (r.total_passed + r.total_failed + r.total_warned + r.total_skipped ≡ 10)
    × (r.total_tests + 2 * left_out (all_of r.layers) ≡ 10 + r.total_skipped)
quick_scan_run_totals_example = quick_scan_run_totals call status_text clock nic config

texts :
    (copy_text [] (diagnosis_text decimal (warnings 2)) 5 ≡ codes "Ag c")
    × (copy_text [] (detail_text healthy) 4 ≡ codes "Tum")
unfolding copy_text diagnosis_text detail_text
texts = (refl, refl)
