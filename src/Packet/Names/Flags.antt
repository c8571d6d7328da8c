-- ===== src/Packet/Names/Flags.antt =====
-- The text of the TCP flags that PktGetTcpFlagsStr (Source/PacketParser.c) prints.
use ddtsoft_net_test.Base.{
  ℕ, zero, suc, ◌+◌, ◌-◌, ◌≤◌, ◌<◌, ◌≡◌, ◌∙◌, refl, ap, arith, Bool, true, false, some, List, [],
  ◌∷◌, ◌++◌, length, length-append, length-take, take, Bool-cases, inl, inr, sym, ◌==◌,
  if◌then◌else◌,
}
use mathlib.Core.List.{append-nil, append_assoc}
use ddtsoft_net_test.Packet.Names.{
  Text, has_flag, print_flag, drop_space, print_flags, get_tcp_flags_str, syn, ack, fin, rst, psh,
  urg,
}

length-print_flag :
    (size flags bit : ℕ) (name text : Text)
    → length text < size
    → length (print_flag size flags bit name text) < size
unfolding print_flag
length-print_flag size flags bit name text h = ground (
  arith,
  length-append text (take (size - length text - 1) name),
  length-take (size - length text - 1) name,
)

length-drop_space : (t : Text) → length (drop_space t) ≤ length t
unfolding drop_space
length-drop_space [] = omega arith
length-drop_space (c ∷ []) = ground arith
length-drop_space (c ∷ d ∷ cs) = omega (arith, length-drop_space (d ∷ cs))

take_all : (n : ℕ) (t : Text) → length t ≤ n → take n t ≡ t
take_all zero [] h = refl
take_all zero (c ∷ t) h = absurd (omega arith)
take_all (suc n) [] h = refl
take_all (suc n) (c ∷ t) h = ap (λ (s : Text). c ∷ s) (take_all n t (omega arith))

-- Names with a space between each two.
pub join : List Text → Text
join [] = []
join (n ∷ []) = n
join (n ∷ m ∷ ns) = n ++ (32 ∷ join (m ∷ ns))

abbrev pub name_of : ℕ → ℕ → Text → List Text
name_of flags bit n = if has_flag flags bit then n ∷ [] else []

-- The names of the flags that are set, in the order of a table.
abbrev pub names_of : ℕ → List (ℕ × Text) → List Text
names_of flags [] = []
names_of flags ((bit, n) ∷ rest) = name_of flags bit n ++ names_of flags rest

abbrev pub all_flags : List (ℕ × Text)
all_flags =
    (0x02, take 3 syn)
    ∷ (0x10, take 3 ack)
    ∷ (0x01, take 3 fin)
    ∷ (0x04, take 3 rst)
    ∷ (0x08, take 3 psh)
    ∷ (0x20, take 3 urg)
    ∷ []

-- Names with a space behind each.
abbrev spaced : List Text → Text
spaced [] = []
spaced (n ∷ ns) = n ++ (32 ∷ spaced ns)

drop_space-word : (n : Text) → drop_space (n ++ (32 ∷ [])) ≡ n
unfolding drop_space
drop_space-word [] = refl
drop_space-word (c ∷ []) = refl
drop_space-word (c ∷ d ∷ n) = ap (λ (t : Text). c ∷ t) (drop_space-word (d ∷ n))

drop_space-append :
    (n : Text) (c : ℕ) (t : Text) → drop_space (n ++ (c ∷ t)) ≡ n ++ drop_space (c ∷ t)
unfolding drop_space
drop_space-append [] c t = refl
drop_space-append (d ∷ []) c t = refl
drop_space-append (d ∷ e ∷ n) c t = ap (λ (s : Text). d ∷ s) (drop_space-append (e ∷ n) c t)

drop_space-spaced : (ns : List Text) → drop_space (spaced ns) ≡ join ns
unfolding drop_space join
drop_space-spaced [] = refl
drop_space-spaced (n ∷ []) = drop_space-word n
drop_space-spaced (n ∷ [] ∷ ns) =
    drop_space-append n 32 (32 ∷ spaced ns)
    ∙ ap (λ (t : Text). n ++ (32 ∷ t)) (drop_space-spaced ([] ∷ ns))
drop_space-spaced (n ∷ (c ∷ m) ∷ ns) =
    drop_space-append n 32 (c ∷ (m ++ (32 ∷ spaced ns)))
    ∙ ap (λ (t : Text). n ++ (32 ∷ t)) (drop_space-spaced ((c ∷ m) ∷ ns))

-- PktGetTcpFlagsStr never fills its buffer: there is room for the NUL.
pub length-get_tcp_flags_str :
    (flags size : ℕ) → 0 < size → length (get_tcp_flags_str flags (some size)) < size
unfolding get_tcp_flags_str print_flags
length-get_tcp_flags_str flags size h =
    let t1 = length-print_flag size flags 0x02 syn [] (omega arith) in
    let t2 = length-print_flag size flags 0x10 ack _ t1 in
    let t3 = length-print_flag size flags 0x01 fin _ t2 in
    let t4 = length-print_flag size flags 0x04 rst _ t3 in
    let t5 = length-print_flag size flags 0x08 psh _ t4 in
    let t6 = length-print_flag size flags 0x20 urg _ t5 in
    ground (arith, t6, length-drop_space (print_flags size flags))

print_flag-eq :
    (size flags bit : ℕ) (name text : Text)
    → length text + length name < size
    → (print_flag size flags bit name text ≡ text ++ (if has_flag flags bit then name else []))
      × (length (print_flag size flags bit name text) ≤ length text + length name)
unfolding print_flag
print_flag-eq size flags bit name text h =
    let all = take_all (size - length text - 1) name (omega arith) in
    elim (Bool-cases (has_flag flags bit)) [
      | inl on ↦ rw (on, all) (refl, omega (arith, length-append text name))
      | inr off ↦ rw off (sym (append-nil text), omega arith)
    ]

-- The text so far, and one more name.
spaced-append :
    (xs : List Text) (b : Bool) (n : Text) (text : Text)
    → text ≡ spaced xs
    → text ++ (if b then n ++ (32 ∷ []) else []) ≡ spaced (xs ++ (if b then n ∷ [] else []))
spaced-append xs true n text e = rw e (spaced-one xs n)
  where
    spaced-one :
        (xs : List Text) (n : Text) → spaced xs ++ (n ++ (32 ∷ [])) ≡ spaced (xs ++ (n ∷ []))
    spaced-one [] n = refl
    spaced-one (x ∷ xs) n =
        append_assoc x (32 ∷ spaced xs) (n ++ (32 ∷ []))
        ∙ ap (λ (t : Text). x ++ (32 ∷ t)) (spaced-one xs n)
spaced-append xs false n text e = append-nil text ∙ e ∙ ap spaced (sym (append-nil xs))

regroup :
    (a b c d e f : List Text)
    → [] ++ a ++ b ++ c ++ d ++ e ++ f ≡ a ++ (b ++ (c ++ (d ++ (e ++ (f ++ [])))))
regroup a b c d e f = simp (append_assoc, append-nil)

print_flags-spaced :
    (size flags : ℕ) → 25 ≤ size → print_flags size flags ≡ spaced (names_of flags all_flags)
unfolding print_flags
print_flags-spaced size flags h =
    let t1 = print_flag size flags 0x02 syn [] in
    let t2 = print_flag size flags 0x10 ack t1 in
    let t3 = print_flag size flags 0x01 fin t2 in
    let t4 = print_flag size flags 0x04 rst t3 in
    let t5 = print_flag size flags 0x08 psh t4 in
    let (e1, l1) = print_flag-eq size flags 0x02 syn [] (omega arith) in
    let (e2, l2) = print_flag-eq size flags 0x10 ack t1 (omega (arith, l1)) in
    let (e3, l3) = print_flag-eq size flags 0x01 fin t2 (omega (arith, l1, l2)) in
    let (e4, l4) = print_flag-eq size flags 0x04 rst t3 (omega (arith, l1, l2, l3)) in
    let (e5, l5) = print_flag-eq size flags 0x08 psh t4 (omega (arith, l1, l2, l3, l4)) in
    let (e6, l6) = print_flag-eq size flags 0x20 urg t5 (omega (arith, l1, l2, l3, l4, l5)) in
    let s1 = e1 ∙ spaced-append [] (has_flag flags 0x02) (take 3 syn) [] refl in
    let s2 = e2 ∙ spaced-append _ (has_flag flags 0x10) (take 3 ack) t1 s1 in
    let s3 = e3 ∙ spaced-append _ (has_flag flags 0x01) (take 3 fin) t2 s2 in
    let s4 = e4 ∙ spaced-append _ (has_flag flags 0x04) (take 3 rst) t3 s3 in
    let s5 = e5 ∙ spaced-append _ (has_flag flags 0x08) (take 3 psh) t4 s4 in
    e6
    ∙ spaced-append _ (has_flag flags 0x20) (take 3 urg) t5 s5
    ∙ ap spaced (
        regroup (name_of flags 0x02 (take 3 syn)) (name_of flags 0x10 (take 3 ack))
          (name_of flags 0x01 (take 3 fin)) (name_of flags 0x04 (take 3 rst))
          (name_of flags 0x08 (take 3 psh)) (name_of flags 0x20 (take 3 urg)))

-- With room for 24 characters and the NUL, PktGetTcpFlagsStr gives the names of the flags that are
-- set, in the order SYN, ACK, FIN, RST, PSH, URG, with one space between each two and none behind.
pub get_tcp_flags_str_lem :
    (flags size : ℕ)
    → 25 ≤ size
    → get_tcp_flags_str flags (some size) ≡ join (names_of flags all_flags)
unfolding get_tcp_flags_str
get_tcp_flags_str_lem flags size h =
    let room : (size == 0) ≡ false = ground arith in
    rw room (
      ap drop_space (print_flags-spaced size flags h)
      ∙ drop_space-spaced (names_of flags all_flags))
