-- ===== src/Base/Memory.antt =====
-- A `UINT8 *` as the bytes behind it, and the memory routines of the C runtime that the packet
-- code calls on such pointers. x86_64 keeps the low byte of a word first.
use Prim.Native.Nat.{ℕ, ◌+◌, ◌-◌, ◌*◌, ◌/◌, ◌%◌, ◌<◌}
use mathlib.Core.Path.{◌≡◌}
use mathlib.Core.Bool.{◌&&◌}
use native.Mathlib.Omega.{arith}
use ddtsoft_net_test.Base.Tests.{ltb, leb, ◌==◌, if◌then◌else◌}

-- `p[i]` is `p i`. A struct at offset `o` of a buffer is read at `o` plus the field's offset.
abbrev pub Bytes : Type 0
Bytes = ℕ → ℕ

-- Every cell holds a byte.
pub record IsBytes (m : Bytes) : Type 0 where
  pub below : (i : ℕ) → m i < 256

-- `CopyMem (m + o, src, n)`, source and destination apart
unfoldable pub copy_mem : Bytes → ℕ → Bytes → ℕ → Bytes
copy_mem m o src n i = if leb o i && ltb i (o + n) then src (i - o) else m i

-- `ZeroMem (m + o, n)`
unfoldable pub zero_mem : Bytes → ℕ → ℕ → Bytes
zero_mem m o n i = if leb o i && ltb i (o + n) then 0 else m i

-- One byte written at `o`.
unfoldable pub store8 : Bytes → ℕ → ℕ → Bytes
store8 m o v i = if i == o then v % 256 else m i

-- A `UINT16` and a `UINT32` field, low byte first.
unfoldable pub store16 : Bytes → ℕ → ℕ → Bytes
unfolding store8
store16 m o v = store8 (store8 m o v) (o + 1) (v / 256)

unfoldable pub store32 : Bytes → ℕ → ℕ → Bytes
unfolding store16
store32 m o v = store16 (store16 m o v) (o + 2) (v / 65536)

unfoldable pub load16 : Bytes → ℕ → ℕ
load16 m o = m o + 256 * m (o + 1)

unfoldable pub load32 : Bytes → ℕ → ℕ
unfolding load16
load32 m o = load16 m o + 65536 * load16 m (o + 2)

-- `SwapBytes16` and `SwapBytes32`, behind HTONS, NTOHS, HTONL and NTOHL
unfoldable pub swap_bytes16 : ℕ → ℕ
swap_bytes16 x = x % 256 * 256 + x / 256 % 256

unfoldable pub swap_bytes32 : ℕ → ℕ
unfolding swap_bytes16
swap_bytes32 x = swap_bytes16 (x % 65536) * 65536 + swap_bytes16 (x / 65536 % 65536)

module _ {m : Bytes} (b : IsBytes m) (o : ℕ) where
  pub copy_mem-IsBytes : (src : Bytes) (n : ℕ) → IsBytes src → IsBytes (copy_mem m o src n)
  unfolding copy_mem
  copy_mem-IsBytes src n s = record { below = λ i. ground (arith, b.below i, s.below (i - o)) }

  pub zero_mem-IsBytes : (n : ℕ) → IsBytes (zero_mem m o n)
  unfolding zero_mem
  zero_mem-IsBytes n = record { below = λ i. ground (arith, b.below i) }

  pub store8-IsBytes : (v : ℕ) → IsBytes (store8 m o v)
  unfolding store8
  store8-IsBytes v = record { below = λ i. ground (arith, b.below i) }

  pub store16-IsBytes : (v : ℕ) → IsBytes (store16 m o v)
  unfolding store16
  store16-IsBytes v = record { below = λ i. ground (arith, b.below i) }

  pub store32-IsBytes : (v : ℕ) → IsBytes (store32 m o v)
  unfolding store32
  store32-IsBytes v = record { below = λ i. ground (arith, b.below i) }

-- Both ways a word meets the network order: a swapped word lies high byte first.
pub swap_bytes16-load16 :
    {m : Bytes} (o : ℕ) → IsBytes m → swap_bytes16 (load16 m o) ≡ 256 * m o + m (o + 1)
unfolding swap_bytes16 load16
swap_bytes16-load16 {m} o b = omega (arith, b.below o, b.below (o + 1))

pub load16_ext :
    (m m' : Bytes) (o : ℕ) → m o ≡ m' o → m (o + 1) ≡ m' (o + 1) → load16 m o ≡ load16 m' o
unfolding load16
load16_ext m m' o p q = omega arith
