-- ===== src/Packet/Checksum/Patch.antt =====
-- A checksum written into its own field: the sender's side of PktChecksum and PktPseudoChecksum
-- against the receiver's.
use native.Mathlib.Nat.{add_assoc}
use ddtsoft_net_test.Base.{ℕ, zero, suc, ◌+◌, ◌-◌, ◌*◌, ◌≤◌, ◌<◌, ◌≡◌, ◌≢◌, ap, arith}
use ddtsoft_net_test.Base.{Bytes}
use ddtsoft_net_test.Packet.Checksum.{checksum, pseudo_sum, pseudo_checksum}
use ddtsoft_net_test.Packet.Checksum.Fold.{ones_sum}
use ddtsoft_net_test.Packet.Checksum.Sum.{word_sum, word_sum_ext, checksum-eq, pseudo_checksum-eq}

-- `m'` is `m` but for the 16-bit field at `c`, which is zero in `m` and `v` in `m'`.
pub record Patched (m m' : Bytes) (c v : ℕ) : Type 0 where
  pub high : m c ≡ 0
  pub low : m (c + 1) ≡ 0
  pub field : m' c * 256 + m' (c + 1) ≡ v
  pub small : v < 65536
  pub others : (j : ℕ) → j ≢ c → j ≢ c + 1 → m j ≡ m' j

-- Writing an aligned field that was zero adds its value to the sum.
pub word_sum-Patched :
    {m m' : Bytes} {c v : ℕ} (k i n : ℕ)
    → Patched m m' c v
    → c ≡ i + 2 * k
    → c + 2 ≤ i + n
    → word_sum m' i n ≡ word_sum m i n + v
unfolding word_sum
word_sum-Patched k i zero p e h = absurd (omega arith)
word_sum-Patched k i (suc zero) p e h = absurd (omega arith)
word_sum-Patched {m} {m'} {c} zero i (suc (suc n)) p e h =
    let at : i ≡ c = omega arith in
    omega (
      arith,
      ap m at,
      ap m' at,
      ap (λ (j : ℕ). m (j + 1)) at,
      ap (λ (j : ℕ). m' (j + 1)) at,
      word_sum_ext m m' (i + 2) n (λ j q r. p.others j (omega arith) (omega arith)),
    )
word_sum-Patched {m} {m'} {c} (suc k) i (suc (suc n)) p e h = omega (
  arith,
  p.others i (omega arith) (omega arith),
  p.others (i + 1) (omega arith) (omega arith),
  word_sum-Patched k (i + 2) n p (omega arith) (omega arith),
)

ones_sum_cancels : (s v : ℕ) → v ≡ 65535 - ones_sum s → 65535 - ones_sum (s + v) ≡ 0
unfolding ones_sum
ones_sum_cancels s v h = ground arith

ones_sum_cancels_max : (s : ℕ) → 65535 - ones_sum s ≡ 0 → 65535 - ones_sum (s + 65535) ≡ 0
unfolding ones_sum
ones_sum_cancels_max s h = ground arith

-- Up to 64 KiB with its checksum in an aligned field that was zero has checksum zero.
pub checksum-Patched :
    {m m' : Bytes} {c v : ℕ} (k i n : ℕ)
    → Patched m m' c v
    → v ≡ checksum m i n
    → c ≡ i + 2 * k
    → c + 2 ≤ i + n
    → n ≤ 65536
    → checksum m' i n ≡ 0
checksum-Patched {m} {m'} {c} {v} k i n p hv e fits small =
    rw (checksum-eq m' i n small, word_sum-Patched k i n p e fits)
      (ones_sum_cancels (word_sum m i n) v (rw (← checksum-eq m i n small) hv))

module _ {m m' : Bytes} {c v : ℕ} (k i n : ℕ) (a : Bytes) (s : ℕ) (b : Bytes) (d protocol len : ℕ)
    (p : Patched m m' c v) (e : c ≡ i + 2 * k) (fits : c + 2 ≤ i + n) (small : n ≤ 65536)
    (len_small : len < 65536) where
  -- The same behind a pseudo-header.
  pub pseudo_checksum-Patched :
      v ≡ pseudo_checksum a s b d protocol len m i n
      → pseudo_checksum a s b d protocol len m' i n ≡ 0
  pseudo_checksum-Patched hv =
      rw
        (
          pseudo_checksum-eq a s b d protocol len m' i n len_small small,
          word_sum-Patched k i n p e fits,
        )
        (regroup (
          ones_sum_cancels _ v
            (rw (← pseudo_checksum-eq a s b d protocol len m i n len_small small) hv)))
    where
      regroup :
          65535 - ones_sum (pseudo_sum a s b d protocol len + word_sum m i n + v) ≡ 0
          → 65535 - ones_sum (pseudo_sum a s b d protocol len + (word_sum m i n + v)) ≡ 0
      regroup h = rw (← add_assoc) h

  -- A field of all ones, as UDP sends for a computed zero, cancels as zero does.
  pub pseudo_checksum-Patched_max :
      v ≡ 65535
      → pseudo_checksum a s b d protocol len m i n ≡ 0
      → pseudo_checksum a s b d protocol len m' i n ≡ 0
  pseudo_checksum-Patched_max hv z =
      rw
        (
          pseudo_checksum-eq a s b d protocol len m' i n len_small small,
          word_sum-Patched k i n p e fits,
          hv,
          ← add_assoc,
        )
        (ones_sum_cancels_max _
          (rw (← pseudo_checksum-eq a s b d protocol len m i n len_small small) z))
