-- ===== src/Base/Access.antt =====
-- Words read back from bytes that other words were written to.
use Prim.Native.Nat.{ℕ, ◌+◌, ◌/◌, ◌%◌, ◌^◌, ◌≤◌, ◌<◌}
use mathlib.Core.Path.{◌≡◌}
use native.Mathlib.Omega.{arith}
use ddtsoft_net_test.Base.Memory.{
  Bytes, store8, store16, store32, load16, load32, swap_bytes16, swap_bytes32,
}

module _ (m : Bytes) (o p v : ℕ) where
  pub load16-store8_below : p + 2 ≤ o → load16 (store8 m o v) p ≡ load16 m p
  unfolding store8 load16
  load16-store8_below h = ground arith

  pub load16-store8_past : o + 1 ≤ p → load16 (store8 m o v) p ≡ load16 m p
  unfolding store8 load16
  load16-store8_past h = ground arith

  pub load16-store16_below : p + 2 ≤ o → load16 (store16 m o v) p ≡ load16 m p
  unfolding store16 load16
  load16-store16_below h = ground arith

  pub load16-store16_past : o + 2 ≤ p → load16 (store16 m o v) p ≡ load16 m p
  unfolding store16 load16
  load16-store16_past h = ground arith

  pub load16-store32_below : p + 2 ≤ o → load16 (store32 m o v) p ≡ load16 m p
  unfolding store32 load16
  load16-store32_below h = ground arith

  pub load16-store32_past : o + 4 ≤ p → load16 (store32 m o v) p ≡ load16 m p
  unfolding store32 load16
  load16-store32_past h = ground arith

pub load16-store16_self : (m : Bytes) (o v : ℕ) → v < 65536 → load16 (store16 m o v) o ≡ v
unfolding store16 load16
load16-store16_self m o v h = ground arith

pub load16-store32_low : (m : Bytes) (o v : ℕ) → load16 (store32 m o v) o ≡ v % 65536
unfolding store32 load16
load16-store32_low m o v = ground arith

pub load16-store32_high : (m : Bytes) (o v : ℕ) → load16 (store32 m o v) (o + 2) ≡ v / 65536 % 65536
unfolding store32 load16
load16-store32_high m o v = ground arith

pub swap_bytes16-lt : (v : ℕ) → swap_bytes16 v < 65536
unfolding swap_bytes16
swap_bytes16-lt v = omega arith

pub swap_bytes16_twice : (v : ℕ) → v < 65536 → swap_bytes16 (swap_bytes16 v) ≡ v
unfolding swap_bytes16
swap_bytes16_twice v h = omega arith

pub swap_bytes32_twice : (v : ℕ) → v < 2 ^ 32 → swap_bytes32 (swap_bytes32 v) ≡ v
unfolding swap_bytes32
swap_bytes32_twice v h = omega arith

pub swap_bytes32-lt : (v : ℕ) → swap_bytes32 v < 2 ^ 32
unfolding swap_bytes32
swap_bytes32-lt v = omega arith

pub load32_ext :
    (m m' : Bytes) (o : ℕ)
    → load16 m o ≡ load16 m' o
    → load16 m (o + 2) ≡ load16 m' (o + 2)
    → load32 m o ≡ load32 m' o
unfolding load32
load32_ext m m' o p q = unfold load16 in omega arith

pub load32-store32_self : (m : Bytes) (o v : ℕ) → v < 2 ^ 32 → load32 (store32 m o v) o ≡ v
unfolding load32
load32-store32_self m o v h = omega (arith, load16-store32_low m o v, load16-store32_high m o v)

module _ (m : Bytes) (o p v : ℕ) where
  pub load32-store8_below : p + 4 ≤ o → load32 (store8 m o v) p ≡ load32 m p
  load32-store8_below h =
      load32_ext _ m p (load16-store8_below m o p v (omega arith))
        (load16-store8_below m o (p + 2) v (omega arith))

  pub load32-store16_below : p + 4 ≤ o → load32 (store16 m o v) p ≡ load32 m p
  load32-store16_below h =
      load32_ext _ m p (load16-store16_below m o p v (omega arith))
        (load16-store16_below m o (p + 2) v (omega arith))

  pub load32-store32_below : p + 4 ≤ o → load32 (store32 m o v) p ≡ load32 m p
  load32-store32_below h =
      load32_ext _ m p (load16-store32_below m o p v (omega arith))
        (load16-store32_below m o (p + 2) v (omega arith))

pub ruleset load32_laws = (
  load32-store32_self, load32-store8_below, load32-store16_below, load32-store32_below,
  swap_bytes32_twice, swap_bytes32-lt,
)

pub ruleset load_laws = (
  load16-store8_below, load16-store8_past, load16-store16_below, load16-store16_past,
  load16-store32_below, load16-store32_past, load16-store16_self, swap_bytes16-lt,
  swap_bytes16_twice,
)
