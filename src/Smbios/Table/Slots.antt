-- ===== src/Smbios/Table/Slots.antt =====
-- The memory devices that Source/SmbiosParser.c counts: MEMORY_INFO after any number of structures.
use ddtsoft_net_test.Base.{
  ℕ, zero, suc, ◌≡◌, sym, ◌∙◌, arith, true, not, ◌&&◌, some, ltb, leb, ◌==◌, inl, inr, Bytes,
  Bool-cases, Option-cases, ℕ_discrete,
}
use ddtsoft_net_test.Efi.{EfiStatus}
use ddtsoft_net_test.Smbios.Info.{Field, MemorySlotInfo, MemoryInfo}
use ddtsoft_net_test.Smbios.{State, get_next, parse_type0, parse_type1, parse_type2, parse_type4}
use ddtsoft_net_test.Smbios.Table.{
  SystemTable, add_slot, init_info, read_slot, parse_type17, parse_structure, walk, find_table,
  parse_smbios_tables, collect, collect_memory_info,
}
use ddtsoft_net_test.Smbios.Table.Tally.{IsTally, add_slot-IsTally, zero_memory-IsTally}

module _ (read : Field → Bytes → ℕ → ℕ) (fuel : ℕ) (m : Bytes) where
  type0_memory :
      (h : ℕ) (s s' : State) → parse_type0 read fuel m h s ≡ some s' → s'.memory ≡ s.memory
  unfolding parse_type0
  type0_memory h s s' e = ground (arith, e)

  type1_memory :
      (h : ℕ) (s s' : State) → parse_type1 read fuel m h s ≡ some s' → s'.memory ≡ s.memory
  unfolding parse_type1
  type1_memory h s s' e = ground (arith, e)

  type2_memory :
      (h : ℕ) (s s' : State) → parse_type2 read fuel m h s ≡ some s' → s'.memory ≡ s.memory
  unfolding parse_type2
  type2_memory h s s' e = ground (arith, e)

  type4_memory :
      (h : ℕ) (s s' : State) → parse_type4 read fuel m h s ≡ some s' → s'.memory ≡ s.memory
  unfolding parse_type4
  type4_memory h s s' e = ground (arith, e)

  read_slot_index :
      (h k : ℕ) (s : MemorySlotInfo) → read_slot read fuel m h k ≡ some s → s.slot_index ≡ k
  unfolding read_slot
  read_slot_index h k s e = ground (arith, e)

  type17-IsTally :
      (h : ℕ) (s s' : State)
      → IsTally s.memory
      → parse_type17 read fuel m h s ≡ some s'
      → IsTally s'.memory
  type17-IsTally h s s' t e = elim (Bool-cases (leb 32 s.memory.total_slots)) [
    | inl full ↦
        let same : s'.memory ≡ s.memory = unfold parse_type17 in ground (arith, e, full) in
        rw same t
    | inr room ↦ elim (Option-cases (read_slot read fuel m h s.memory.total_slots)) [
      | inl stuck ↦ absurd (unfold parse_type17 in ground (arith, e, room, stuck))
      | inr (slot, got) ↦
          let grown : s'.memory ≡ add_slot slot s.memory =
            unfold parse_type17 in ground (arith, e, room, got) in
          rw grown (
            add_slot-IsTally slot s.memory t (ground (arith, room))
              (read_slot_index h s.memory.total_slots slot got))
    ]
  ]

  structure-IsTally :
      (h : ℕ) (s s' : State)
      → IsTally s.memory
      → parse_structure read fuel m h s ≡ some s'
      → IsTally s'.memory
  structure-IsTally h s s' t e =
      let k = read Field.hdr_type m h in
      let kept : s'.memory ≡ s.memory → IsTally s'.memory = λ same. rw same t in
      elim (ℕ_discrete k 0) [
        | yes e0 ↦ kept (type0_memory h s s' (unfold parse_structure in ground (arith, e, e0)))
        | no n0 ↦ elim (ℕ_discrete k 1) [
          | yes e1 ↦ kept (type1_memory h s s' (unfold parse_structure in ground (arith, e, e1)))
          | no n1 ↦ elim (ℕ_discrete k 2) [
            | yes e2 ↦ kept (type2_memory h s s' (unfold parse_structure in ground (arith, e, e2)))
            | no n2 ↦ elim (ℕ_discrete k 4) [
              | yes e4 ↦
                  kept (type4_memory h s s' (unfold parse_structure in ground (arith, e, e4)))
              | no n4 ↦ elim (ℕ_discrete k 17) [
                | yes e17 ↦
                    type17-IsTally h s s' t (unfold parse_structure in ground (arith, e, e17))
                | no n17 ↦ kept (unfold parse_structure in ground (arith, e, n0, n1, n2, n4, n17))
              ]
            ]
          ]
        ]
      ]

  -- A round of the walk that goes on.
  pub walk_on :
      (rounds table_end current next : ℕ) (s s' : State)
      → (ltb current table_end && not (read Field.hdr_type m current == 127)) ≡ true
      → parse_structure read fuel m current s ≡ some s'
      → get_next read fuel m current ≡ some next
      → walk read fuel m (suc rounds) table_end current s
        ≡ walk read fuel m rounds table_end next s'
  unfolding walk
  walk_on rounds table_end current next s s' on parsed found = ground (arith, on, parsed, found)

  walk-IsTally :
      (rounds table_end current : ℕ) (s s' : State)
      → IsTally s.memory
      → walk read fuel m rounds table_end current s ≡ some s'
      → IsTally s'.memory
  walk-IsTally zero table_end current s s' t e = absurd (unfold walk in ground (arith, e))
  walk-IsTally (suc rounds) table_end current s s' t e =
      elim (Bool-cases (ltb current table_end && not (read Field.hdr_type m current == 127))) [
        | inr off ↦ let same : s ≡ s' = unfold walk in ground (arith, e, off) in rw (← same) t
        | inl on ↦ elim (Option-cases (parse_structure read fuel m current s)) [
          | inl stuck ↦ absurd (unfold walk in ground (arith, e, on, stuck))
          | inr (s1, parsed) ↦ elim (Option-cases (get_next read fuel m current)) [
            | inl lost ↦ absurd (unfold walk in ground (arith, e, on, parsed, lost))
            | inr (next, found) ↦
                walk-IsTally rounds table_end next s1 s' (structure-IsTally current s s1 t parsed)
                  (sym (walk_on rounds table_end current next s s1 on parsed found) ∙ e)
          ]
        ]
      ]

  parse_smbios_tables-IsTally :
      (t : SystemTable) (s s' : State) (status : EfiStatus)
      → IsTally s.memory
      → parse_smbios_tables read fuel m t s ≡ some (status, s')
      → IsTally s'.memory
  parse_smbios_tables-IsTally t s s' status tally e =
      let fresh : IsTally (init_info t s).memory = unfold init_info in zero_memory-IsTally in
      elim (Bool-cases s.smbios_parsed) [
        | inl again ↦
            let same : s ≡ s' = unfold parse_smbios_tables in ground (arith, e, again) in
            rw (← same) tally
        | inr first ↦ elim (Option-cases (find_table read fuel m t.configuration_table)) [
          | inl lost ↦
              let same : init_info t s ≡ s' =
                unfold parse_smbios_tables in ground (arith, e, first, lost) in
              rw (← same) fresh
          | inr ((a, table_end), found) ↦ elim (ℕ_discrete a 0) [
            | yes z ↦
                let same : init_info t s ≡ s' =
                  unfold parse_smbios_tables in ground (arith, e, first, found, z) in
                rw (← same) fresh
            | no nz ↦ elim (Option-cases (walk read fuel m fuel table_end a (init_info t s))) [
              | inl stuck ↦
                  absurd (unfold parse_smbios_tables in ground (arith, e, first, found, nz, stuck))
              | inr (s1, walked) ↦
                  let same : s1.memory ≡ s'.memory =
                    unfold parse_smbios_tables in ground (arith, e, first, found, nz, walked) in
                  rw (← same) (walk-IsTally fuel table_end a (init_info t s) s1 fresh walked)
            ]
          ]
        ]
      ]

  -- Whatever the tables hold, CollectMemoryInfo keeps its count right, and what it hands out is
  -- right too: at most 32 slots, as many as entries were filled, each under its own index; the
  -- populated ones are those with a size; the total is their sizes' sum on 32 bits.
  pub collect_memory_info-IsTally :
      (t : SystemTable) (info info' : MemoryInfo) (s s' : State) (status : EfiStatus)
      → IsTally s.memory
      → collect_memory_info read fuel m t (some info) s ≡ some (status, some info', s')
      → IsTally info' × IsTally s'.memory
  collect_memory_info-IsTally t info info' s s' status tally e =
      elim (Option-cases (parse_smbios_tables read fuel m t s)) [
        | inl stuck ↦ absurd (unfold collect_memory_info collect in ground (arith, e, stuck))
        | inr ((status', s1), parsed) ↦
            let same : s1 ≡ s' = unfold collect_memory_info collect in ground (arith, e, parsed) in
            let copied : s1.memory ≡ info' =
              unfold collect_memory_info collect in ground (arith, e, parsed) in
            let right = parse_smbios_tables-IsTally t s s1 status' tally parsed in
            (rw (← copied) right, rw (← same) right)
      ]
