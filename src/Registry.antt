-- ===== src/Registry.antt =====
-- Source/TestRegistry.c: the registry of tests and its queries.
-- `mRegistry` up to `mTestCount` is the list of the definitions added so far.
pub mod Tests
pub mod Queries
mod Examples
use Prim.Native.String.{String}
use ddtsoft_net_test.Base.{
  ℕ, ◌+◌, Bool, true, false, ◌||◌, Option, none, some, List, [], ◌∷◌, ◌++◌, length, get_elem?, ltb,
  leb, ◌==◌, if◌then◌else◌,
}
use ddtsoft_net_test.Registry.Tests.{
  OsiLayer, physical, data_link, network, transport, session, presentation, application, all_layers,
  TestType, discovery, connectivity, performance, stress, compliance, packet_capture, security,
  fuzz, all_types, TestDefinition, physical_tests, data_link_tests, network_tests, transport_tests,
  application_tests,
}

abbrev pub max_tests : ℕ
max_tests = 64

abbrev pub Registry : Type 0
Registry = List TestDefinition

-- RegAdd
pub reg_add : Registry → TestDefinition → Registry
reg_add r t = if leb max_tests (length r) then r else r ++ (t ∷ [])

pub reg_add_all : Registry → List TestDefinition → Registry
unfolding reg_add
reg_add_all r [] = r
reg_add_all r (t ∷ ts) = reg_add_all (reg_add r t) ts

-- RegInitAllTests
unfoldable pub reg_init_all_tests : Registry → Registry
unfolding reg_add_all
reg_init_all_tests r =
    let l1 = reg_add_all r physical_tests in
    let l2 = reg_add_all l1 data_link_tests in
    let l3 = reg_add_all l2 network_tests in
    let l4 = reg_add_all l3 transport_tests in
    let l7 = reg_add_all l4 application_tests in if ltb 0 (length r) then r else l7

-- RegGetTestCount
pub reg_get_test_count : Registry → ℕ
reg_get_test_count r = length r

-- RegGetTest
pub reg_get_test : Registry → ℕ → Option TestDefinition
reg_get_test r index = if leb (length r) index then none else get_elem? r index

-- `Layer == OsiLayerAll || mRegistry[I].Layer == Layer`, by the enumeration's values.
abbrev pub layer_code : OsiLayer → ℕ
layer_code physical = 1
layer_code data_link = 2
layer_code network = 3
layer_code transport = 4
layer_code session = 5
layer_code presentation = 6
layer_code application = 7
layer_code all_layers = 0xff

pub in_layer : OsiLayer → TestDefinition → Bool
in_layer l t = layer_code l == layer_code all_layers || layer_code t.layer == layer_code l

-- The loop of RegGetTestsByLayer over the rest of the registry, with `count` tests found.
pub tests_loop : OsiLayer → ℕ → Registry → ℕ → List TestDefinition
unfolding in_layer
tests_loop l max_count [] count = []
tests_loop l max_count (t ∷ r) count =
    let found = t ∷ tests_loop l max_count r (count + 1) in
    let skipped = tests_loop l max_count r count in
    if ltb count max_count then (if in_layer l t then found else skipped) else []

-- RegGetTestsByLayer: what it leaves in OutArray. It returns their number.
unfoldable pub reg_get_tests_by_layer : OsiLayer → Registry → ℕ → List TestDefinition
unfolding tests_loop
reg_get_tests_by_layer l r max_count = tests_loop l max_count r 0

-- RegGetLayerName
pub reg_get_layer_name : OsiLayer → String
reg_get_layer_name physical = "Layer 1 - Physical"
reg_get_layer_name data_link = "Layer 2 - Data Link"
reg_get_layer_name network = "Layer 3 - Network"
reg_get_layer_name transport = "Layer 4 - Transport"
reg_get_layer_name session = "Layer 5 - Session"
reg_get_layer_name presentation = "Layer 6 - Presentation"
reg_get_layer_name application = "Layer 7 - Application"
reg_get_layer_name all_layers = "All Layers"

-- RegGetLayerShort
pub reg_get_layer_short : OsiLayer → String
reg_get_layer_short physical = "L1"
reg_get_layer_short data_link = "L2"
reg_get_layer_short network = "L3"
reg_get_layer_short transport = "L4"
reg_get_layer_short session = "L5"
reg_get_layer_short presentation = "L6"
reg_get_layer_short application = "L7"
reg_get_layer_short all_layers = "ALL"

-- RegGetResultName
pub reg_get_result_name : ℕ → String
reg_get_result_name s =
    if s == 0
    then "PASS"
    else if s == 1
    then "FAIL"
    else if s == 2
    then "SKIP"
    else if s == 3
    then "WARN"
    else if s == 4
    then "ERROR"
    else "???"

-- RegGetTypeName
pub reg_get_type_name : TestType → String
reg_get_type_name discovery = "Discovery"
reg_get_type_name connectivity = "Connectivity"
reg_get_type_name performance = "Performance"
reg_get_type_name stress = "Stress"
reg_get_type_name compliance = "Compliance"
reg_get_type_name packet_capture = "Capture"
reg_get_type_name security = "Security"
reg_get_type_name fuzz = "Fuzz"
reg_get_type_name all_types = "All"
