-- ===== src/Runner/Examples.antt =====
-- The theorems on TestRunner.c at a concrete NIC, with a test function that returns an error.
use ddtsoft_net_test.Base.{
  ℕ, ◌+◌, ◌≡◌, ◌↔◌, true, false, none, some, ◌∷◌, List, [], length, min, take,
}
use ddtsoft_net_test.Efi.{EfiStatus, success, timeout}
use ddtsoft_net_test.Registry.{max_tests}
use ddtsoft_net_test.Registry.Tests.{
  physical, discovery, l1_loopback, TestFunction, TestDefinition, physical_tests, data_link,
  data_link_tests,
}
use ddtsoft_net_test.Registry.Queries.{tests_in}
use ddtsoft_net_test.Runner.{
  Text, codes, NicInfo, TestConfig, TestResult, result_pass, run_test, run_tests_by_layer,
}
use ddtsoft_net_test.Runner.Results.{Passes, run_test_pass_iff}
use ddtsoft_net_test.Runner.Layers.{results_of, run_tests_by_layer_lem}

abbrev nic : NicInfo
nic = record {
  snp = true;
  has_mnp = true;
  has_ip4 = true;
  has_tcp4 = false;
  has_udp4 = true;
  has_dhcp4 = true;
}

abbrev config : TestConfig
config = record { ip0 = 10; ip1 = 0; ip2 = 0; ip3 = 2 }

-- The loopback test times out, every other test passes.
abbrev call : TestFunction → NicInfo → TestConfig → TestResult → EfiStatus × TestResult
call l1_loopback n c r = (timeout, r)
call f n c r = (success, r)

abbrev status_text : EfiStatus → Text
status_text s = codes "status"

abbrev clock : ℕ → ℕ
clock k = 100 + k

abbrev first_test : List TestDefinition → TestDefinition
first_test [] = record {
  name = "";
  description = "";
  layer = physical;
  type = discovery;
  estimated_time_ms = 0;
  requires_target = false;
  requires_ipv6 = false;
  is_destructive = false;
  need_snp = false;
  need_mnp = false;
  need_ip4 = false;
  need_tcp4 = false;
  need_udp4 = false;
  need_dhcp4 = false;
  execute = none;
}
first_test (t ∷ ts) = t

run_test_pass_iff_example :
    ((run_test call status_text (first_test physical_tests) nic config 100 101).status_code
      ≡ result_pass)
    ↔ Passes call status_text (first_test physical_tests) nic config 100 101
run_test_pass_iff_example =
    run_test_pass_iff call status_text (first_test physical_tests) nic config 100 101

run_tests_by_layer_lem_example :
    (rs : List TestResult) × (run_tests_by_layer call status_text data_link data_link_tests clock
        (some nic)
        (some config)
        4
      ≡ some rs)
    × (rs
        ≡ results_of call status_text clock nic config 0
            (take 4 (take max_tests (tests_in data_link data_link_tests))))
    × (length rs ≡ min 4 (min max_tests (length (tests_in data_link data_link_tests))))
run_tests_by_layer_lem_example =
    run_tests_by_layer_lem call status_text clock nic config data_link data_link_tests 4
