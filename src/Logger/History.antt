-- ===== src/Logger/History.antt =====
-- The ring of Source/Logger.c against the history of the entries added to it.
use native.Mathlib.Nat.{add-zero}
use native.Mathlib.Numerals.{add-one}
use ddtsoft_net_test.Base.{
  ap, ℕ_discrete, dec_lt, get_elem?-drop, get_elem?-past, ℕ, zero, suc, ◌+◌, ◌-◌, ◌%◌, ◌≤◌, ◌<◌,
  ◌≡◌, refl, arith, some, List, [], ◌∷◌, length, get_elem?, drop, min,
}
use ddtsoft_net_test.Logger.{
  LogEntry, Log, log_init, log_add, log_get_count, log_get_entry, log_clear,
}

-- Entries added one after the other.
unfoldable pub log_add_all : Log → List LogEntry → Log
log_add_all s [] = s
log_add_all s (e ∷ es) = log_add_all (log_add s e) es

-- After `n` entries of the history `all`: slot `j % 128` holds entry `j`, for the last 128 of them.
pub record Holds (s : Log) (all : List LogEntry) (n : ℕ) : Type 0 where
  pub head_at : s.head ≡ n % 128
  pub count_at : s.count ≡ min n 128
  pub slot : (j : ℕ) → j < n → n ≤ j + 128 → some (s.entries (j % 128)) ≡ get_elem? all j

log_add-Holds :
    {s : Log} {all : List LogEntry} {n : ℕ} (e : LogEntry)
    → get_elem? all n ≡ some e
    → Holds s all n
    → Holds (log_add s e) all (n + 1)
unfolding log_add
log_add-Holds {s} {all} {n} e at h = record {
  head_at = omega (arith, h.head_at);
  count_at = ground (arith, h.count_at);
  slot = λ j p q. elim (ℕ_discrete j n) [
    | yes e' ↦ ground (arith, h.head_at, ap (get_elem? all) e')
    | no ne ↦ ground (arith, h.head_at, h.slot j (omega arith) (omega arith))
  ];
}

drop-cons :
    (n : ℕ) (all : List LogEntry) {e : LogEntry} {es : List LogEntry}
    → drop n all ≡ e ∷ es
    → (get_elem? all n ≡ some e) × (drop (suc n) all ≡ es)
drop-cons zero [] h = cc
drop-cons zero (x ∷ xs) h = ground (arith, h)
drop-cons (suc n) [] h = cc
drop-cons (suc n) (x ∷ xs) h = drop-cons n xs h

log_add_all-Holds :
    (all es : List LogEntry) (s : Log) (n : ℕ)
    → drop n all ≡ es
    → Holds s all n
    → Holds (log_add_all s es) all (n + length es)
unfolding log_add_all
log_add_all-Holds all [] s n d h = rw add-zero h
log_add_all-Holds all (e ∷ es) s n d h =
    let (at, rest) = drop-cons n all d in
    let e' : n + 1 + length es ≡ n + suc (length es) = omega arith in
    rw (← e')
      (log_add_all-Holds all es (log_add s e) (n + 1) (rw add-one rest) (log_add-Holds e at h))

log_get_entry-Holds :
    (s : Log) (all : List LogEntry) (i : ℕ)
    → Holds s all (length all)
    → log_get_entry s i ≡ get_elem? (drop (length all - 128) all) i
unfolding log_get_entry
log_get_entry-Holds s all i h = elim (dec_lt i s.count) [
  | yes lt ↦
      let k : ℕ = length all - s.count + i in
      let pos : (s.head + 128 - s.count + i) % 128 ≡ k % 128 =
        omega (arith, h.head_at, h.count_at) in
      let from : length all - 128 + i ≡ k = omega (arith, h.count_at) in
      rw (get_elem?-drop, from)
        (ground (
          arith,
          ap s.entries pos,
          h.slot k (omega (arith, h.count_at)) (omega (arith, h.count_at)),
        ))
  | no ge ↦
      rw (get_elem?-drop, get_elem?-past all (length all - 128 + i) (omega (arith, h.count_at)))
        (ground arith)
]

-- Entries added after LogClear, or after LogInit, in whatever state: LogGetCount counts them up to
-- 128, and LogGetEntry returns entry `i` of the last 128 of them, NULL past their end.
pub log_history :
    (s : Log) (es : List LogEntry) (i : ℕ)
    → let cleared = log_add_all (log_clear s) es in
      let fresh = log_add_all (log_init s) es in
      (log_get_count cleared ≡ min (length es) 128)
      × (log_get_entry cleared i ≡ get_elem? (drop (length es - 128) es) i)
      × (log_get_count fresh ≡ min (length es) 128)
      × (log_get_entry fresh i ≡ get_elem? (drop (length es - 128) es) i)
unfolding log_clear log_init log_get_count
log_history s es i =
    let cleared : Holds (log_add_all (log_clear s) es) es (0 + length es) =
      log_add_all-Holds es es (log_clear s) 0 refl
        (record { head_at = refl; count_at = refl; slot = λ j p q. absurd (omega arith) }) in
    let fresh : Holds (log_add_all (log_init s) es) es (0 + length es) =
      log_add_all-Holds es es (log_init s) 0 refl
        (record { head_at = refl; count_at = refl; slot = λ j p q. absurd (omega arith) }) in
    let z : 0 + length es ≡ length es = omega arith in
    (
      omega (arith, cleared.count_at),
      log_get_entry-Holds _ es i (rw z at cleared),
      omega (arith, fresh.count_at),
      log_get_entry-Holds _ es i (rw z at fresh),
    )
