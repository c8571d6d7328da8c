-- ===== src/Smbios/Table/Tally.antt =====
-- The memory devices of MEMORY_INFO, counted, and one more of them in Source/SmbiosParser.c.
use ddtsoft_net_test.Base.{
  ℕ, ◌+◌, ◌%◌, ◌^◌, ◌≤◌, ◌<◌, ◌≡◌, refl, ap, ◌∙◌, arith, List, [], ◌∷◌, ◌++◌, take, length,
  length-append, ltb, if◌then◌else◌,
}
use ddtsoft_net_test.Smbios.Info.{MemorySlotInfo, MemoryInfo, zero_memory}
use ddtsoft_net_test.Smbios.Table.{add_slot}

-- How many entries are populated, and their sizes together.
abbrev pub populated : List MemorySlotInfo → ℕ
populated [] = 0
populated (s ∷ ss) = (if ltb 0 s.size_mb then 1 else 0) + populated ss

abbrev pub total_mb : List MemorySlotInfo → ℕ
total_mb [] = 0
total_mb (s ∷ ss) = s.size_mb + total_mb ss

-- The entries from the index `k` on carry their places.
pub data Numbered : ℕ → List MemorySlotInfo → Type 0 where
  none_left : {k : ℕ} → Numbered k []
  numbered :
      {k : ℕ} {s : MemorySlotInfo} {ss : List MemorySlotInfo}
      → s.slot_index ≡ k
      → Numbered (k + 1) ss
      → Numbered k (s ∷ ss)

pub record IsTally (i : MemoryInfo) : Type 0 where
  pub filled : i.total_slots ≡ length i.slots
  pub few : i.total_slots ≤ 32
  pub counted : i.populated_slots ≡ populated i.slots
  pub summed : i.total_memory_mb ≡ total_mb i.slots % 2 ^ 32
  pub in_place : Numbered 0 i.slots

populated-append :
    (ss : List MemorySlotInfo) (s : MemorySlotInfo)
    → populated (ss ++ s ∷ []) ≡ populated ss + (if ltb 0 s.size_mb then 1 else 0)
populated-append [] s = omega arith
populated-append (x ∷ ss) s = omega (arith, populated-append ss s)

populated-le : (ss : List MemorySlotInfo) → populated ss ≤ length ss
populated-le [] = omega arith
populated-le (x ∷ ss) = ground (arith, populated-le ss)

total_mb-append :
    (ss : List MemorySlotInfo) (s : MemorySlotInfo)
    → total_mb (ss ++ s ∷ []) ≡ total_mb ss + s.size_mb
total_mb-append [] s = omega arith
total_mb-append (x ∷ ss) s = omega (arith, total_mb-append ss s)

append-Numbered :
    (k : ℕ) (ss : List MemorySlotInfo) (s : MemorySlotInfo)
    → Numbered k ss
    → s.slot_index ≡ k + length ss
    → Numbered k (ss ++ s ∷ [])
append-Numbered k [] s n e = numbered (omega (arith, e)) none_left
append-Numbered k (x ∷ ss) s (numbered here rest) e =
    numbered here (append-Numbered (k + 1) ss s rest (omega (arith, e)))

take-all : (ss : List MemorySlotInfo) → take (length ss) ss ≡ ss
take-all [] = refl
take-all (s ∷ ss) = ap (λ (r : List MemorySlotInfo). s ∷ r) (take-all ss)

-- A further device, where there is room.
pub add_slot-IsTally :
    (s : MemorySlotInfo) (i : MemoryInfo)
    → IsTally i
    → i.total_slots < 32
    → s.slot_index ≡ i.total_slots
    → IsTally (add_slot s i)
unfolding add_slot
add_slot-IsTally s i t lt e =
    let all : take i.total_slots i.slots ≡ i.slots =
      ap (λ (n : ℕ). take n i.slots) t.filled ∙ take-all i.slots in
    let le : populated i.slots ≤ 31 = omega (arith, populated-le i.slots, t.filled, lt) in
    record {
      filled = rw all (omega (arith, length-append i.slots (s ∷ []), t.filled));
      few = omega arith;
      counted = rw all (ground (arith, populated-append i.slots s, t.counted, le));
      summed = rw all (ground (arith, total_mb-append i.slots s, t.summed));
      in_place = rw all (append-Numbered 0 i.slots s t.in_place (omega (arith, e, t.filled)));
    }

pub zero_memory-IsTally : IsTally zero_memory
zero_memory-IsTally = record {
  filled = refl;
  few = omega arith;
  counted = refl;
  summed = refl;
  in_place = none_left;
}
