-- ===== src/Utils/Copy.antt =====
-- UtilSafeStrCpy of Source/Utils.c, on strings.
use ddtsoft_net_test.Base.{
  ℕ, zero, suc, ◌+◌, ◌-◌, ◌≤◌, ◌<◌, ◌≡◌, ◌≢◌, refl, arith, some, ltb, ◌==◌, if◌then◌else◌, min,
  ℕ_discrete,
}
use ddtsoft_net_test.Utils.{Chars, put, copy_loop, safe_str_cpy}

-- A string of `k` characters before its NUL.
pub record IsString (s : Chars) (k : ℕ) : Type 0 where
  pub ends : s k ≡ 0
  pub goes_on : (j : ℕ) → j < k → s j ≢ 0

copy_loop_at :
    (dest src : Chars) (i n k j : ℕ)
    → IsString src k
    → i ≤ k
    → copy_loop dest src i n j ≡ (
        if ltb j i
        then dest j
        else if ltb j (i + min (k - i) n)
        then src j
        else if j == i + min (k - i) n
        then 0
        else dest j)
unfolding copy_loop
copy_loop_at dest src i zero k j s le = ground arith
copy_loop_at dest src i (suc n) k j s le = elim (ℕ_discrete i k) [
  | yes e ↦ let at : src i ≡ 0 = rw e s.ends in ground (arith, e, at)
  | no ne ↦
      let on : src i ≢ 0 = s.goes_on i (omega arith) in
      ground (arith, on, copy_loop_at (put dest i (src i)) src (i + 1) n k j s (omega arith))
]

-- UtilSafeStrCpy of a string into a buffer of `max` characters, at least one: its first `max - 1`
-- characters at most are copied, a NUL follows them, and nothing else in the buffer changes.
pub safe_str_cpy_lem :
    (dest src : Chars) (max k j : ℕ)
    → 0 < max
    → IsString src k
    → (r : Chars) × (safe_str_cpy (some dest) (some src) max ≡ some r)
      × (r j
          ≡ (if ltb j (min k (max - 1)) then src j else if j == min k (max - 1) then 0 else dest j))
unfolding safe_str_cpy
safe_str_cpy_lem dest src zero k j h s = absurd (omega arith)
safe_str_cpy_lem dest src (suc n) k j h s =
    (copy_loop dest src 0 n, refl, ground (arith, copy_loop_at dest src 0 n k j s (omega arith)))
