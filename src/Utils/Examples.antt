-- ===== src/Utils/Examples.antt =====
-- The theorem on Utils.c at a string that does not fit.
use ddtsoft_net_test.Base.{refl, arith, ltb, if◌then◌else◌}
use ddtsoft_net_test.Utils.{Chars}
use ddtsoft_net_test.Utils.Copy.{IsString}

abbrev three : Chars
three = λ k. if ltb k 3 then 65 else 0

three-IsString : IsString three 3
three-IsString = record { ends = refl; goes_on = λ j h. ground arith }
