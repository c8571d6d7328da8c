-- ===== src/Registry/Examples.antt =====
-- The theorems on TestRegistry.c at concrete registries.
use ddtsoft_net_test.Base.{◌≡◌, take}
use ddtsoft_net_test.Registry.{reg_get_tests_by_layer}
use ddtsoft_net_test.Registry.Tests.{application, application_tests}
use ddtsoft_net_test.Registry.Queries.{tests_in, reg_get_tests_by_layer_lem}

reg_get_tests_by_layer_lem_example :
    reg_get_tests_by_layer application application_tests 3
    ≡ take 3 (tests_in application application_tests)
reg_get_tests_by_layer_lem_example = reg_get_tests_by_layer_lem application application_tests 3
