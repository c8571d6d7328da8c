-- ===== src/Stress/Examples.antt =====
-- The recorded times of StressTest.c at three of them.
use ddtsoft_net_test.Base.{[], ◌∷◌}
use ddtsoft_net_test.Stress.{init_stats}
use ddtsoft_net_test.Stress.Samples.{Stands, record_all, record_all-Stands}

record_all-Stands_example :
    Stands (700 ∷ 200 ∷ 900 ∷ []) (record_all (700 ∷ 200 ∷ 900 ∷ []) (init_stats 40000))
record_all-Stands_example = record_all-Stands (700 ∷ 200 ∷ 900 ∷ []) 40000
