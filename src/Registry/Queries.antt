-- ===== src/Registry/Queries.antt =====
-- What the registry holds after its initialisation, and what its queries return.
use ddtsoft_net_test.Base.{
  ℕ, suc, ◌+◌, ◌-◌, ◌<◌, ◌≡◌, ◌∙◌, refl, sym, ap, arith, List, [], ◌∷◌, ◌++◌, length, take,
  take-nil, if◌then◌else◌, dec_lt,
}
use ddtsoft_net_test.Registry.Tests.{
  OsiLayer, physical, data_link, network, transport, session, presentation, application, all_layers,
  TestDefinition, physical_tests, data_link_tests, network_tests, transport_tests,
  application_tests,
}
use ddtsoft_net_test.Registry.{
  Registry, reg_init_all_tests, in_layer, tests_loop, reg_get_tests_by_layer, reg_get_test_count,
  max_tests,
}

-- The tests of a list that are in a layer.
abbrev pub tests_in : OsiLayer → List TestDefinition → List TestDefinition
tests_in l [] = []
tests_in l (t ∷ ts) = let rest = tests_in l ts in if in_layer l t then t ∷ rest else rest

tests_loop-eq :
    (l : OsiLayer) (max : ℕ) (r : Registry) (count : ℕ)
    → tests_loop l max r count ≡ take (max - count) (tests_in l r)
unfolding tests_loop
tests_loop-eq l max [] count = sym (take-nil (max - count))
tests_loop-eq l max (t ∷ r) count = elim (dec_lt count max) [
  | yes lt ↦
      let room : max - count ≡ suc (max - (count + 1)) = omega arith in
      rw room (ground (arith, room, tests_loop-eq l max r (count + 1), tests_loop-eq l max r count))
  | no ge ↦ let full : max - count ≡ 0 = omega arith in rw full (ground arith)
]

-- RegGetTestsByLayer returns the tests of the layer in the order of their registration, cut off at
-- the size of the output array.
pub reg_get_tests_by_layer_lem :
    (l : OsiLayer) (r : Registry) (max : ℕ)
    → reg_get_tests_by_layer l r max ≡ take max (tests_in l r)
unfolding reg_get_tests_by_layer
reg_get_tests_by_layer_lem l r max =
    tests_loop-eq l max r 0 ∙ ap (λ (k : ℕ). take k (tests_in l r)) (omega arith)

-- The tests that the program has for a layer; none for the session and presentation layers.
abbrev pub all_tests : List TestDefinition
all_tests =
    physical_tests ++ data_link_tests ++ network_tests ++ transport_tests ++ application_tests

abbrev pub tests_of : OsiLayer → List TestDefinition
tests_of physical = physical_tests
tests_of data_link = data_link_tests
tests_of network = network_tests
tests_of transport = transport_tests
tests_of session = []
tests_of presentation = []
tests_of application = application_tests
tests_of all_layers = all_tests

pub by_layer :
    (l : OsiLayer) → reg_get_tests_by_layer l (reg_init_all_tests []) max_tests ≡ tests_of l
unfolding reg_get_tests_by_layer reg_init_all_tests
by_layer physical = refl
by_layer data_link = refl
by_layer network = refl
by_layer transport = refl
by_layer session = refl
by_layer presentation = refl
by_layer application = refl
by_layer all_layers = refl

init_id : (r : Registry) → 0 < length r → reg_init_all_tests r ≡ r
unfolding reg_init_all_tests
init_id r h = ground arith

init_nonempty : (r : Registry) → 0 < length (reg_init_all_tests r)
init_nonempty [] = unfold reg_init_all_tests in omega arith
init_nonempty (t ∷ r) = rw (init_id (t ∷ r) (omega arith)) (omega arith)

again : (r : Registry) → reg_init_all_tests (reg_init_all_tests r) ≡ reg_init_all_tests r
again r = init_id _ (init_nonempty r)

-- The first RegInitAllTests registers all 36 tests: the table has room for them. A query for any layer
-- then returns exactly the tests written for that layer. A second RegInitAllTests, on whatever
-- registry it finds, changes nothing.
pub reg_init_all_tests_lem :
    (l : OsiLayer) (r : Registry)
    → (reg_get_test_count (reg_init_all_tests []) ≡ 36)
      × (reg_get_tests_by_layer l (reg_init_all_tests []) max_tests ≡ tests_of l)
      × (reg_init_all_tests (reg_init_all_tests r) ≡ reg_init_all_tests r)
reg_init_all_tests_lem l r =
    (unfold reg_init_all_tests reg_get_test_count in refl, by_layer l, again r)
