-- ===== src/Packet/Checksum/Sum.antt =====
-- The 32-bit sum of the checksum loops against the plain sum of the 16-bit words.
use ddtsoft_net_test.Base.{ℕ, zero, suc, ◌+◌, ◌-◌, ◌*◌, ◌%◌, ◌^◌, ◌≤◌, ◌<◌, ◌≡◌, refl, ap, arith}
use ddtsoft_net_test.Base.{Bytes}
use ddtsoft_net_test.Packet.Checksum.{word, sum_words, complement, fold_sum, checksum}
use ddtsoft_net_test.Packet.Checksum.{pseudo_sum, pseudo_checksum}
use ddtsoft_net_test.Packet.Checksum.Fold.{ones_sum, complement-fold_sum}

-- The big-endian 16-bit words of the `n` bytes from `i`, an odd byte padded with zero, added up.
unfoldable pub word_sum : Bytes → ℕ → ℕ → ℕ
word_sum m i zero = 0
word_sum m i (suc zero) = m i * 256 % 65536
word_sum m i (suc (suc n)) = word m i + word_sum m (i + 2) n

pub word_sum_le : (m : Bytes) (i n : ℕ) → 2 * word_sum m i n ≤ 65535 * (n + 1)
unfolding word_sum
word_sum_le m i zero = omega arith
word_sum_le m i (suc zero) = omega arith
word_sum_le m i (suc (suc n)) = omega (arith, word_sum_le m (i + 2) n)

pub sum_words-eq :
    (m : Bytes) (i n s : ℕ) → s < 2 ^ 32 → sum_words m i n s ≡ (s + word_sum m i n) % 2 ^ 32
unfolding sum_words word_sum
sum_words-eq m i zero s h = omega arith
sum_words-eq m i (suc zero) s h = omega arith
sum_words-eq m i (suc (suc n)) s h =
    omega (arith, sum_words-eq m (i + 2) n ((s + word m i) % 2 ^ 32) (omega arith))

-- Memories that agree on a range have the same sum over it.
pub word_sum_ext :
    (m m' : Bytes) (i n : ℕ)
    → ((j : ℕ) → i ≤ j → j < i + n → m j ≡ m' j)
    → word_sum m i n ≡ word_sum m' i n
unfolding word_sum
word_sum_ext m m' i zero h = refl
word_sum_ext m m' i (suc zero) h = omega (arith, h i (omega arith) (omega arith))
word_sum_ext m m' i (suc (suc n)) h = omega (
  arith,
  h i (omega arith) (omega arith),
  h (i + 1) (omega arith) (omega arith),
  word_sum_ext m m' (i + 2) n (λ j p q. h j (omega arith) (omega arith)),
)

-- PktChecksum of up to 64 KiB, which the UINT32 holds: the complement of the one's complement sum.
pub checksum-eq :
    (m : Bytes) (i n : ℕ) → n ≤ 65536 → checksum m i n ≡ 65535 - ones_sum (word_sum m i n)
unfolding checksum ones_sum
checksum-eq m i n h =
    ground (arith, word_sum_le m i n, sum_words-eq m i n 0, complement-fold_sum (sum_words m i n 0))

pub pseudo_sum_le :
    (a : Bytes) (s : ℕ) (b : Bytes) (d p l : ℕ) → l < 65536 → pseudo_sum a s b d p l ≤ 6 * 65535
unfolding pseudo_sum
pseudo_sum_le a s b d p l h = omega arith

pub pseudo_checksum-eq :
    (a : Bytes) (s : ℕ) (b : Bytes) (d p l : ℕ) (m : Bytes) (i n : ℕ)
    → l < 65536
    → n ≤ 65536
    → pseudo_checksum a s b d p l m i n ≡ 65535 - ones_sum (pseudo_sum a s b d p l + word_sum m i n)
unfolding pseudo_checksum ones_sum
pseudo_checksum-eq a s b d p l m i n hl h = ground (
  arith,
  word_sum_le m i n,
  pseudo_sum_le a s b d p l hl,
  sum_words-eq m i n (pseudo_sum a s b d p l),
  complement-fold_sum (sum_words m i n (pseudo_sum a s b d p l)),
)

pub checksum-lt : (m : Bytes) (i n : ℕ) → checksum m i n < 65536
unfolding checksum complement
checksum-lt m i n = omega arith

pub pseudo_checksum-lt :
    (a : Bytes) (s : ℕ) (b : Bytes) (d p l : ℕ) (m : Bytes) (i n : ℕ)
    → pseudo_checksum a s b d p l m i n < 65536
unfolding pseudo_checksum complement
pseudo_checksum-lt a s b d p l m i n = omega arith

pub checksum_ext :
    (m m' : Bytes) (i n : ℕ)
    → n ≤ 65536
    → ((j : ℕ) → i ≤ j → j < i + n → m j ≡ m' j)
    → checksum m i n ≡ checksum m' i n
checksum_ext m m' i n h e = rw (checksum-eq m i n h, checksum-eq m' i n h, word_sum_ext m m' i n e)

-- Only the eight address bytes of the pseudo-header are read.
pub pseudo_checksum_ext :
    (a a' : Bytes) (s s' : ℕ) (b b' : Bytes) (d d' p l : ℕ) (m : Bytes) (i n : ℕ)
    → word a s ≡ word a' s'
    → word a (s + 2) ≡ word a' (s' + 2)
    → word b d ≡ word b' d'
    → word b (d + 2) ≡ word b' (d' + 2)
    → pseudo_checksum a s b d p l m i n ≡ pseudo_checksum a' s' b' d' p l m i n
unfolding pseudo_checksum
pseudo_checksum_ext a a' s s' b b' d d' p l m i n e f g h =
    ap (λ k. complement (fold_sum (sum_words m i n k))) sums
  where
    sums : pseudo_sum a s b d p l ≡ pseudo_sum a' s' b' d' p l
    sums = unfold pseudo_sum in rw (e, f, g, h)

pub pseudo_checksum_data_ext :
    (a : Bytes) (s : ℕ) (b : Bytes) (d p l : ℕ) (m m' : Bytes) (i n : ℕ)
    → l < 65536
    → n ≤ 65536
    → ((j : ℕ) → i ≤ j → j < i + n → m j ≡ m' j)
    → pseudo_checksum a s b d p l m i n ≡ pseudo_checksum a s b d p l m' i n
pseudo_checksum_data_ext a s b d p l m m' i n hl h e = rw (
  pseudo_checksum-eq a s b d p l m i n hl h,
  pseudo_checksum-eq a s b d p l m' i n hl h,
  word_sum_ext m m' i n e,
)
