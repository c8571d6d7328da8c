-- ===== src/Smbios/Layout.antt =====
-- The string set behind an SMBIOS structure, as it lies in memory.
use ddtsoft_net_test.Base.{ℕ, zero, suc, ◌+◌, ◌≡◌, ◌≢◌, List, [], ◌∷◌, Bytes}
use ddtsoft_net_test.Smbios.Info.{Chars8}

-- The characters `cs` stand from `p` on, with a NUL at `e` behind them.
pub data TextAt (m : Bytes) : ℕ → Chars8 → ℕ → Type 0 where
  ended : {p : ℕ} → m p ≡ 0 → TextAt m p [] p
  char : {p : ℕ} {cs : Chars8} {e : ℕ} → m p ≢ 0 → TextAt m (p + 1) cs e → TextAt m p (m p ∷ cs) e

-- Strings of one character at least, one behind the other, and the NUL that ends the set; `q` is
-- the address behind it.
pub data SetAt (m : Bytes) : ℕ → List Chars8 → ℕ → Type 0 where
  closed : {p q : ℕ} → m p ≡ 0 → q ≡ p + 1 → SetAt m p [] q
  string :
      {p : ℕ} {s : Chars8} {e : ℕ} {ss : List Chars8} {q : ℕ}
      → m p ≢ 0
      → TextAt m p s e
      → SetAt m (e + 1) ss q
      → SetAt m p (s ∷ ss) q

-- A set without a string is two NULs.
pub data StringSet (m : Bytes) : ℕ → List Chars8 → ℕ → Type 0 where
  no_string : {p : ℕ} → m p ≡ 0 → m (p + 1) ≡ 0 → StringSet m p [] (p + 2)
  strings :
      {p : ℕ} {s : Chars8} {ss : List Chars8} {q : ℕ}
      → SetAt m p (s ∷ ss) q
      → StringSet m p (s ∷ ss) q

-- The string at an index from 0 on, and at an index of a structure's field, which counts from 1; an
-- index without a string stands for the empty text.
abbrev pub string_from : List Chars8 → ℕ → Chars8
string_from [] k = []
string_from (s ∷ ss) zero = s
string_from (s ∷ ss) (suc k) = string_from ss k

abbrev pub string_of : List Chars8 → ℕ → Chars8
string_of ss zero = []
string_of ss (suc k) = string_from ss k
