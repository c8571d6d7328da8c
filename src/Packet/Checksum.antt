-- ===== src/Packet/Checksum.antt =====
-- The Internet checksum of Source/PacketBuilder.c (PktChecksum, PktPseudoChecksum).
pub mod Fold
pub mod Sum
pub mod Patch
use mathlib.Core.Logic.{dite}
use mathlib.Core.WellFounded.{Acc}
use ddtsoft_net_test.Base.{ℕ, zero, suc, ◌+◌, ◌-◌, ◌*◌, ◌/◌, ◌%◌, ◌^◌, ◌<◌, arith, dec_lt, Bytes}
use ddtsoft_net_test.Base.Order.{lt_wf}

-- `(UINT16)((Data[Index] << 8) | Data[Index + 1])`. The operands of `|` share no bit.
abbrev pub word : Bytes → ℕ → ℕ
word m i = (m i * 256 + m (i + 1)) % 65536

-- The summing loop, from `m + i` with `n` bytes left: whole words, then an odd byte padded with
-- zero. `Sum` is a UINT32.
pub sum_words : Bytes → ℕ → ℕ → ℕ → ℕ
sum_words m i zero sum = sum
sum_words m i (suc zero) sum = (sum + m i * 256 % 65536) % 2 ^ 32
sum_words m i (suc (suc n)) sum = sum_words m (i + 2) n ((sum + word m i) % 2 ^ 32)

-- `while (Sum >> 16) Sum = (Sum & 0xFFFF) + (Sum >> 16);`
pub fold_acc : (sum : ℕ) → Acc ◌<◌ sum → ℕ
fold_acc sum (Acc.intro _ smaller) =
    dite (dec_lt 0 (sum / 65536))
      (λ h. fold_acc (sum % 65536 + sum / 65536) (smaller _ (omega arith))) (λ _. sum)

-- The loop, then `(UINT16)(~Sum)`.
pub fold_sum : ℕ → ℕ
unfolding fold_acc lt_wf dec_lt
fold_sum sum = fold_acc sum (lt_wf.apply sum)

pub complement : ℕ → ℕ
complement sum = (2 ^ 32 - 1 - sum) % 65536

-- PktChecksum over the `n` bytes at `m + i`.
pub checksum : Bytes → ℕ → ℕ → ℕ
checksum m i n = complement (fold_sum (sum_words m i n 0))

-- The pseudo-header part of `Sum`; the addresses are read at `s` and `d`.
pub pseudo_sum : Bytes → ℕ → Bytes → ℕ → ℕ → ℕ → ℕ
pseudo_sum src s dst d protocol len =
    (word src s + word src (s + 2) + word dst d + word dst (d + 2) + protocol % 65536 + len)
    % 2 ^ 32

-- PktPseudoChecksum over the `n` bytes at `m + i`.
pub pseudo_checksum : Bytes → ℕ → Bytes → ℕ → ℕ → ℕ → Bytes → ℕ → ℕ → ℕ
pseudo_checksum src s dst d protocol len m i n =
    complement (fold_sum (sum_words m i n (pseudo_sum src s dst d protocol len)))
