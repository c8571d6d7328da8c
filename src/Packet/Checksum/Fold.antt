-- ===== src/Packet/Checksum/Fold.antt =====
-- The folding loop of PktChecksum in Source/PacketBuilder.c, and the one's complement sum.
use mathlib.Core.WellFounded.{Acc}
use ddtsoft_net_test.Base.{ℕ, ◌+◌, ◌-◌, ◌/◌, ◌%◌, ◌<◌, ◌≡◌, arith}
use ddtsoft_net_test.Base.{◌==◌, if◌then◌else◌}
use ddtsoft_net_test.Base.Order.{lt_wf}
use ddtsoft_net_test.Packet.Checksum.{fold_acc, fold_sum, complement}

-- The one's complement sum, written without a loop.
unfoldable pub ones_sum : ℕ → ℕ
ones_sum s = if s == 0 then 0 else (s - 1) % 65535 + 1

ones_sum_step : (s : ℕ) → 0 < s / 65536 → ones_sum (s % 65536 + s / 65536) ≡ ones_sum s
unfolding ones_sum
ones_sum_step s h = ground arith

ones_sum_small : (s : ℕ) → s < 65536 → ones_sum s ≡ s
unfolding ones_sum
ones_sum_small s h = ground arith

fold_acc-eq-ones_sum : (s : ℕ) (w : Acc ◌<◌ s) → fold_acc s w ≡ ones_sum s
unfolding fold_acc
fold_acc-eq-ones_sum s (Acc.intro _ smaller) = grind (
  arith,
  ones_sum_step s,
  ones_sum_small s,
  λ (p : s % 65536 + s / 65536 < s). fold_acc-eq-ones_sum (s % 65536 + s / 65536) (smaller _ p),
)

-- The folding loop ends on every sum, with the one's complement sum of its 16-bit words.
pub fold_sum-eq-ones_sum : (s : ℕ) → fold_sum s ≡ ones_sum s
unfolding fold_sum
fold_sum-eq-ones_sum s = fold_acc-eq-ones_sum s (lt_wf.apply s)

pub complement-fold_sum : (s : ℕ) → complement (fold_sum s) ≡ 65535 - ones_sum s
unfolding complement ones_sum
complement-fold_sum s = ground (arith, fold_sum-eq-ones_sum s)

-- Adding the complement of a sum to it makes a sum that folds to all ones.
pub complement_cancels : (s : ℕ) → complement (fold_sum (s + complement (fold_sum s))) ≡ 0
unfolding ones_sum
complement_cancels s =
    ground (arith, complement-fold_sum s, complement-fold_sum (s + complement (fold_sum s)))
