-- ===== src/Utils.antt =====
-- Source/Utils.c: the bounded string copy and the clock.
-- A CHAR16 buffer is a function from an index to a character; a NULL pointer is `none`.
pub mod Copy
mod Examples
use ddtsoft_net_test.Base.{ℕ, zero, suc, ◌+◌, ◌-◌, ◌*◌, ◌==◌, Option, none, some, if◌then◌else◌}
use ddtsoft_net_test.Efi.{EfiStatus, efi_error}

abbrev pub Chars : Type 0
Chars = ℕ → ℕ

abbrev pub put : Chars → ℕ → ℕ → Chars
put b i c = λ j. if j == i then c else b j

-- The loop `I < MaxLen - 1 && Src[I] != 0`, with `n` characters of room left, and the final NUL.
pub copy_loop : Chars → Chars → ℕ → ℕ → Chars
copy_loop dest src i zero = put dest i 0
copy_loop dest src i (suc n) =
    let rest = copy_loop (put dest i (src i)) src (i + 1) n in
    if src i == 0 then put dest i 0 else rest

-- UtilSafeStrCpy: what it leaves in Dest.
pub safe_str_cpy : Option Chars → Option Chars → ℕ → Option Chars
safe_str_cpy none src max_len = none
safe_str_cpy (some dest) none max_len = some dest
safe_str_cpy (some dest) (some src) zero = some dest
safe_str_cpy (some dest) (some src) (suc n) = some (copy_loop dest src 0 n)

-- The part of EFI_TIME that is read.
pub record Time : Type 0 where
  pub hour : ℕ
  pub minute : ℕ
  pub second : ℕ

-- UtilGetTimestamp, with what GetTime returns.
unfoldable pub get_timestamp : EfiStatus × Time → ℕ
get_timestamp (s, t) = if efi_error s then 0 else t.hour * 3600 + t.minute * 60 + t.second
