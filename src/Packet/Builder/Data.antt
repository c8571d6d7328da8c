-- ===== src/Packet/Builder/Data.antt =====
-- The data that a builder sends behind its last header.
use ddtsoft_net_test.Base.{ℕ, ◌+◌, ◌<◌, ◌≡◌, refl, arith, Option, none, some, Bytes, copy_mem}
use ddtsoft_net_test.Packet.Builder.{copy_data}

-- The caller's bytes, or what lay in the buffer from `o` on if the caller gave none.
pub data_of : Bytes → ℕ → Option Bytes → Bytes
data_of b o none k = b (o + k)
data_of b o (some src) k = src k

pub data_of_ext :
    (b b' : Bytes) (o : ℕ) (src : Option Bytes) (k : ℕ)
    → b (o + k) ≡ b' (o + k)
    → data_of b o src k ≡ data_of b' o src k
unfolding data_of
data_of_ext b b' o none k e = e
data_of_ext b b' o (some src) k e = refl

pub copy_data_at :
    (b : Bytes) (o : ℕ) (src : Option Bytes) (n k : ℕ)
    → k < n
    → copy_data b o src n (o + k) ≡ data_of b o src k
unfolding copy_data data_of
copy_data_at b o none n k h = refl
copy_data_at b o (some src) n k h = unfold copy_mem in ground arith
