-- ===== src/Smbios/Strings.antt =====
-- The string set behind an SMBIOS structure: what Source/SmbiosParser.c finds in it.
use ddtsoft_net_test.Base.{
  ℕ, zero, suc, ◌+◌, ◌-◌, ◌≤◌, ◌<◌, ◌≡◌, ◌≢◌, refl, sym, ap, ◌∙◌, arith, Option, some, List, [],
  ◌∷◌, take, take-nil, length, leb, if◌then◌else◌, Bytes, ◌>>=◌, min,
}
use ddtsoft_net_test.Smbios.Info.{Field, Chars8, StringPtr, empty, at}
use ddtsoft_net_test.Smbios.Layout.{
  TextAt, ended, char, SetAt, closed, string, StringSet, no_string, strings, string_from, string_of,
}
use ddtsoft_net_test.Smbios.{
  find_nul, skip_strings, bytes_at, copy_ascii, skip_set, get_string, copy_string, get_next,
}

take-min : (n : ℕ) (cs : Chars8) → take (min n (length cs)) cs ≡ take n cs
take-min zero cs = ap (λ (k : ℕ). take k cs) {x = min 0 (length cs)} {y = 0} (omega arith)
take-min (suc n) [] = take-nil (min (suc n) 0)
take-min (suc n) (c ∷ cs) =
    ap (λ (k : ℕ). take k (c ∷ cs)) {x = min (suc n) (suc (length cs))}
      {y = suc (min n (length cs))} (omega arith)
    ∙ ap (λ (r : Chars8). c ∷ r) (take-min n cs)

module _ (m : Bytes) where
  text_end : {p : ℕ} {cs : Chars8} {e : ℕ} → TextAt m p cs e → e ≡ p + length cs
  text_end (ended z) = omega arith
  text_end (char nz rest) = omega (arith, text_end rest)

  find_nul_lem :
      (fuel : ℕ) {p : ℕ} {cs : Chars8} {e : ℕ}
      → TextAt m p cs e
      → e < p + fuel
      → find_nul fuel m p ≡ some e
  unfolding find_nul
  find_nul_lem zero t lt = absurd (omega (arith, text_end t))
  find_nul_lem (suc fuel) (ended z) lt = ground (arith, z)
  find_nul_lem (suc fuel) (char nz rest) lt =
      ground (arith, nz, find_nul_lem fuel rest (omega arith))

  bytes_at-take :
      (n : ℕ) {p : ℕ} {cs : Chars8} {e : ℕ}
      → TextAt m p cs e
      → n ≤ length cs
      → bytes_at m p n ≡ take n cs
  unfolding bytes_at
  bytes_at-take zero t le = refl
  bytes_at-take (suc n) (ended z) le = absurd (omega arith)
  bytes_at-take (suc n) {p} (char nz rest) le =
      ap (λ (r : Chars8). m p ∷ r) (bytes_at-take n rest (omega arith))

  copy_ascii-text :
      {p : ℕ} {cs : Chars8} {e : ℕ} (fuel dest_size : ℕ)
      → TextAt m p cs e
      → e < p + fuel
      → 0 < dest_size
      → copy_ascii fuel dest_size m (at p) ≡ some (take (dest_size - 1) cs)
  unfolding copy_ascii
  copy_ascii-text {p} {cs} {e} fuel dest_size t lt pos =
      let len : e - p ≡ length cs = omega (arith, text_end t) in
      let all : (if leb dest_size (e - p) then dest_size - 1 else e - p)
          ≡ min (dest_size - 1) (length cs) =
        ground (arith, len) in
      let shape : copy_ascii fuel dest_size m (at p)
          ≡ some (bytes_at m p (if leb dest_size (e - p) then dest_size - 1 else e - p)) =
        ground (arith, find_nul_lem fuel t lt) in
      shape
      ∙ ap some (
          ap (bytes_at m p) all
          ∙ bytes_at-take (min (dest_size - 1) (length cs)) t (omega arith)
          ∙ take-min (dest_size - 1) cs)

  -- A round of the loop over Index.
  skip_end :
      {p : ℕ} {s : Chars8} {e : ℕ} (fuel left : ℕ)
      → TextAt m p s e
      → e < p + fuel
      → m (e + 1) ≡ 0
      → skip_strings fuel (suc left) m p ≡ some empty
  unfolding skip_strings
  skip_end fuel left t lt z = ground (arith, find_nul_lem fuel t lt, z)

  skip_on :
      {p : ℕ} {s : Chars8} {e : ℕ} (fuel left : ℕ)
      → TextAt m p s e
      → e < p + fuel
      → m (e + 1) ≢ 0
      → skip_strings fuel (suc left) m p ≡ skip_strings fuel left m (e + 1)
  unfolding skip_strings
  skip_on fuel left t lt nz = ground (arith, find_nul_lem fuel t lt, nz)

  set_end : {p q : ℕ} {ss : List Chars8} → SetAt m p ss q → p < q
  set_end (closed z e) = omega arith
  set_end (string nz t rest) = omega (arith, text_end t, set_end rest)

  copy_set :
      (fuel dest_size left : ℕ) {p q : ℕ} {s : Chars8} {ss : List Chars8}
      → SetAt m p (s ∷ ss) q
      → q ≤ p + fuel
      → 0 < dest_size
      → (skip_strings fuel left m p >>= copy_ascii fuel dest_size m)
        ≡ some (take (dest_size - 1) (string_from (s ∷ ss) left))
  copy_set fuel dest_size zero (string nz t rest) le pos =
      unfold skip_strings in copy_ascii-text fuel dest_size t (omega (arith, set_end rest)) pos
  copy_set fuel dest_size (suc left) (string nz t (closed z q)) le pos =
      let early = skip_end fuel left t (omega (arith, q)) z in
      unfold copy_ascii in ground (arith, early, take-nil {A = ℕ} (dest_size - 1))
  copy_set fuel dest_size (suc left) (string {e = e} nz t (string nz' t' rest)) le pos =
      ap (λ (o : Option StringPtr). o >>= copy_ascii fuel dest_size m)
        (skip_on fuel left t (omega (arith, text_end t', set_end rest)) nz')
      ∙ copy_set fuel dest_size left (string nz' t' rest) (omega (arith, text_end t)) pos

  copy_any_set :
      (fuel dest_size left : ℕ) {p q : ℕ} {ss : List Chars8}
      → StringSet m p ss q
      → q ≤ p + fuel
      → 0 < dest_size
      → (skip_strings fuel left m p >>= copy_ascii fuel dest_size m)
        ≡ some (take (dest_size - 1) (string_from ss left))
  copy_any_set fuel dest_size left (strings s) le pos = copy_set fuel dest_size left s le pos
  copy_any_set fuel dest_size zero (no_string z z') le pos =
      unfold skip_strings in copy_ascii-text fuel dest_size (ended z) (omega arith) pos
  copy_any_set fuel dest_size (suc left) (no_string z z') le pos =
      let early = skip_end fuel left (ended z) (omega arith) z' in
      unfold copy_ascii in ground (arith, early, take-nil {A = ℕ} (dest_size - 1))

  text_nul : {p : ℕ} {cs : Chars8} {e : ℕ} → TextAt m p cs e → m e ≡ 0
  text_nul (ended z) = z
  text_nul (char nz rest) = text_nul rest

  skip_text :
      (fuel k : ℕ) {p : ℕ} {cs : Chars8} {e : ℕ}
      → TextAt m p cs e
      → fuel ≡ length cs + k
      → skip_set fuel m p ≡ skip_set k m e
  unfolding skip_set
  skip_text fuel k {p} (ended z) same = ap (λ (n : ℕ). skip_set n m p) {y = k} (omega (arith, same))
  skip_text zero k (char nz rest) same = absurd (omega (arith, same))
  skip_text (suc fuel) k (char nz rest) same =
      ground (arith, nz, skip_text fuel k rest (omega (arith, same)))

  nul_last : (fuel p : ℕ) → m p ≡ 0 → m (p + 1) ≡ 0 → 0 < fuel → skip_set fuel m p ≡ some (p + 2)
  unfolding skip_set
  nul_last zero p z z' lt = absurd (omega arith)
  nul_last (suc fuel) p z z' lt = ground (arith, z, z')

  nul_between :
      (fuel p : ℕ)
      → m p ≡ 0
      → m (p + 1) ≢ 0
      → 0 < fuel
      → skip_set fuel m p ≡ skip_set (fuel - 1) m (p + 1)
  nul_between zero p z nz lt = absurd (omega arith)
  nul_between (suc fuel) p z nz lt =
      let step : skip_set (suc fuel) m p ≡ skip_set fuel m (p + 1) =
        unfold skip_set in ground (arith, z, nz) in
      step ∙ ap (λ (n : ℕ). skip_set n m (p + 1)) {y = suc fuel - 1} (omega arith)

  skip_set_at :
      (fuel : ℕ) {p q : ℕ} {s : Chars8} {ss : List Chars8}
      → SetAt m p (s ∷ ss) q
      → q ≤ p + fuel
      → skip_set fuel m p ≡ some q
  skip_set_at fuel {p} {q} {s} (string {e = e} nz t (closed z eq)) le =
      let k = fuel - length s in
      skip_text fuel k t (omega (arith, text_end t, eq))
      ∙ nul_last k e (text_nul t) z (omega (arith, text_end t, eq))
      ∙ ap some (omega (arith, eq))
  skip_set_at fuel {p} {q} {s} (string {e = e} nz t (string nz' t' rest)) le =
      let k = fuel - length s in
      let past = set_end rest in
      skip_text fuel k t (omega (arith, text_end t, text_end t', past))
      ∙ nul_between k e (text_nul t) nz' (omega (arith, text_end t, text_end t', past))
      ∙ skip_set_at (k - 1) (string nz' t' rest) (omega (arith, text_end t, text_end t', past))

  skip_set_lem :
      (fuel : ℕ) {p q : ℕ} {ss : List Chars8}
      → StringSet m p ss q
      → q ≤ p + fuel
      → skip_set fuel m p ≡ some q
  skip_set_lem fuel (strings s) le = skip_set_at fuel s le
  skip_set_lem fuel {p} (no_string z z') le = nul_last fuel p z z' (omega arith)

  pub StringSet-past : {p q : ℕ} {ss : List Chars8} → StringSet m p ss q → p < q
  StringSet-past (no_string z z') = omega arith
  StringSet-past (strings s) = set_end s

-- A structure whose string set, in SMBIOS's form, stands behind its formatted part.
module _ (read : Field → Bytes → ℕ → ℕ) (m : Bytes) (fuel header q : ℕ) (ss : List Chars8)
    (set : StringSet m (header + read Field.hdr_length m header) ss q)
    (le : q ≤ header + fuel) where
  copy_at :
      (dest_size index : ℕ)
      → 0 < dest_size
      → (get_string read fuel m header index >>= copy_ascii fuel dest_size m)
        ≡ some (take (dest_size - 1) (string_of ss index))
  unfolding get_string
  copy_at dest_size zero pos = unfold copy_ascii in ap some (sym (take-nil {A = ℕ} (dest_size - 1)))
  copy_at dest_size (suc k) pos = copy_any_set m fuel dest_size k set (omega (arith, le)) pos

  -- SmbiosCopyString of a structure's string field ends, and copies the string that the field's
  -- number names, cut to one character less than the buffer: the empty text for 0 and for a number
  -- past the last string.
  pub copy_string_lem :
      (dest_size : ℕ) (f : Field)
      → 0 < dest_size
      → copy_string read fuel m dest_size header f
        ≡ some (take (dest_size - 1) (string_of ss (read f m header)))
  unfolding copy_string
  copy_string_lem dest_size f pos = copy_at dest_size (read f m header) pos

  -- SmbiosGetNext ends, at the address behind the two NULs that close the string set.
  pub get_next_lem : get_next read fuel m header ≡ some q
  unfolding get_next
  get_next_lem = skip_set_lem m fuel set (omega arith)
