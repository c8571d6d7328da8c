-- ===== src/Smbios/Table/Walk.antt =====
-- The walk of Source/SmbiosParser.c over a table that holds structures one behind the other.
use ddtsoft_net_test.Base.{
  ℕ, zero, suc, ◌+◌, ◌-◌, ◌≤◌, ◌<◌, ◌≡◌, ◌≢◌, refl, ap, ◌∙◌, arith, true, false, some, List, [],
  ◌∷◌, take, Bytes,
}
use ddtsoft_net_test.Efi.{success}
use ddtsoft_net_test.Smbios.Info.{Field}
use ddtsoft_net_test.Smbios.{State, copy_string, parse_type0, parse_type1, parse_type2, parse_type4}
use ddtsoft_net_test.Smbios.Layout.{StringSet, string_of}
use ddtsoft_net_test.Smbios.Strings.{StringSet-past, copy_string_lem, get_next_lem}
use ddtsoft_net_test.Smbios.Table.Slots.{walk_on}
use ddtsoft_net_test.Smbios.Table.{
  SystemTable, init_info, find_table, read_slot, parse_type17, parse_structure, walk,
  parse_smbios_tables,
}
use ddtsoft_net_test.Smbios.Table.Entries.{
  Entry, text, with_bios, with_system, with_board, with_cpu, device, with_device, with_entry,
  with_entries,
}

module _ (read : Field → Bytes → ℕ → ℕ) (m : Bytes) where
  -- The structure `e` stands at `h`, and ends at `q`.
  pub record EntryAt (h : ℕ) (e : Entry) (q : ℕ) : Type 0 where
    pub agrees : (f : Field) → read f m h ≡ e.field f
    pub set : StringSet m (h + read Field.hdr_length m h) e.strings q

  -- The structures from `p` on, up to the end of the table or to a structure of type 127, at `z`.
  pub data TableAt (table_end : ℕ) : ℕ → List Entry → ℕ → Type 0 where
    at_end : {p : ℕ} → table_end ≤ p → TableAt table_end p [] p
    at_127 : {p : ℕ} → read Field.hdr_type m p ≡ 127 → TableAt table_end p [] p
    entry :
        {p : ℕ} {e : Entry} {q : ℕ} {es : List Entry} {z : ℕ}
        → p < table_end
        → e.field Field.hdr_type ≢ 127
        → EntryAt p e q
        → TableAt table_end q es z
        → TableAt table_end p (e ∷ es) z

  module _ (fuel h q : ℕ) (e : Entry) (at : EntryAt h e q) (le : q ≤ h + fuel) where
    copies :
        (size : ℕ) (f : Field) → 0 < size → copy_string read fuel m size h f ≡ some (text e size f)
    copies size f lt =
        copy_string_lem read m fuel h q e.strings at.set le size f lt
        ∙ ap (λ (k : ℕ). some (take (size - 1) (string_of e.strings k))) (at.agrees f)

    type0_lem : (s : State) → parse_type0 read fuel m h s ≡ some (with_bios e s)
    unfolding parse_type0
    type0_lem s =
        rw
          (
            copies 64 Field.type0_vendor (omega arith),
            copies 64 Field.type0_bios_version (omega arith),
            copies 32 Field.type0_bios_release_date (omega arith),
            at.agrees Field.type0_system_bios_major_release,
            at.agrees Field.type0_system_bios_minor_release,
            at.agrees Field.type0_bios_size,
            at.agrees Field.type0_extended_bios_size_unit,
            at.agrees Field.type0_extended_bios_size_size,
          )
          (ground arith)

    type1_lem : (s : State) → parse_type1 read fuel m h s ≡ some (with_system e s)
    unfolding parse_type1
    type1_lem s =
        rw
          (
            copies 64 Field.type1_manufacturer (omega arith),
            copies 64 Field.type1_product_name (omega arith),
            copies 64 Field.type1_version (omega arith),
            copies 64 Field.type1_serial_number (omega arith),
            at.agrees Field.type1_uuid,
          )
          refl

    type2_lem : (s : State) → parse_type2 read fuel m h s ≡ some (with_board e s)
    unfolding parse_type2
    type2_lem s =
        rw
          (
            copies 64 Field.type2_manufacturer (omega arith),
            copies 64 Field.type2_product_name (omega arith),
            copies 64 Field.type2_version (omega arith),
            copies 64 Field.type2_serial_number (omega arith),
          )
          refl

    type4_lem : (s : State) → parse_type4 read fuel m h s ≡ some (with_cpu e s)
    unfolding parse_type4
    type4_lem s =
        rw
          (
            copies 128 Field.type4_processor_version (omega arith),
            copies 32 Field.type4_socket (omega arith),
            at.agrees Field.type4_max_speed,
            at.agrees Field.type4_current_speed,
            at.agrees Field.type4_core_count,
            at.agrees Field.type4_thread_count,
          )
          (ground arith)

    read_slot_lem : (k : ℕ) → read_slot read fuel m h k ≡ some (device e k)
    unfolding read_slot
    read_slot_lem k =
        rw
          (
            copies 32 Field.type17_device_locator (omega arith),
            copies 32 Field.type17_manufacturer (omega arith),
            copies 32 Field.type17_part_number (omega arith),
            copies 32 Field.type17_serial_number (omega arith),
            at.agrees Field.type17_size,
            at.agrees Field.type17_extended_size,
            at.agrees Field.type17_speed,
            at.agrees Field.type17_configured_memory_clock_speed,
            at.agrees Field.type17_memory_type,
            at.agrees Field.type17_form_factor,
          )
          refl

    type17_lem : (s : State) → parse_type17 read fuel m h s ≡ some (with_device e s)
    unfolding parse_type17
    type17_lem s = rw (read_slot_lem s.memory.total_slots) (ground arith)

    parse_structure_lem : (s : State) → parse_structure read fuel m h s ≡ some (with_entry e s)
    unfolding parse_structure
    parse_structure_lem s =
        rw
          (
            at.agrees Field.hdr_type,
            type0_lem s,
            type1_lem s,
            type2_lem s,
            type4_lem s,
            type17_lem s,
          )
          (ground arith)

  table_past : {table_end p z : ℕ} {es : List Entry} → TableAt table_end p es z → p ≤ z
  table_past (at_end le) = omega arith
  table_past (at_127 last) = omega arith
  table_past (entry lt other at rest) = omega (arith, StringSet-past m at.set, table_past rest)

  walk_lem :
      (fuel rounds : ℕ) {table_end p z : ℕ} {es : List Entry} (s : State)
      → TableAt table_end p es z
      → z < p + rounds
      → z ≤ p + fuel
      → walk read fuel m rounds table_end p s ≡ some (with_entries es s)
  walk_lem fuel zero s t lt le = absurd (omega (arith, table_past t))
  walk_lem fuel (suc rounds) s (at_end done) lt le = unfold walk in ground (arith, done)
  walk_lem fuel (suc rounds) s (at_127 last) lt le = unfold walk in ground (arith, last)
  walk_lem fuel (suc rounds) {table_end} {p} s (entry {e = e} {q = q} early other at rest) lt le =
      let past = StringSet-past m at.set in
      let fits : q ≤ p + fuel = omega (arith, table_past rest) in
      let here : read Field.hdr_type m p ≢ 127 = rw (at.agrees Field.hdr_type) other in
      walk_on read fuel m rounds table_end p q s (with_entry e s) (ground (arith, early, here))
        (parse_structure_lem fuel p q e at fits s)
        (get_next_lem read m fuel p q e.strings at.set fits)
      ∙ walk_lem fuel rounds (with_entry e s) rest (omega (arith, past)) (omega (arith, past))

  -- ParseSmbiosTables on a table in SMBIOS's form that is found: it ends, whatever was collected
  -- before is forgotten, and what is collected is what the structures say, one after the other, up
  -- to the end of the table or to the first structure of type 127.
  pub parse_smbios_tables_lem :
      (fuel a table_end z : ℕ) (es : List Entry) (t : SystemTable) (s : State)
      → s.smbios_parsed ≡ false
      → find_table read fuel m t.configuration_table ≡ some (a, table_end)
      → a ≢ 0
      → TableAt table_end a es z
      → z < a + fuel
      → parse_smbios_tables read fuel m t s
        ≡ some (success, record (with_entries es (init_info t s)) { smbios_parsed = true })
  unfolding parse_smbios_tables
  parse_smbios_tables_lem fuel a table_end z es t s first found nz table lt =
      rw (first, found, walk_lem fuel fuel (init_info t s) table lt (omega arith))
        (ground (arith, nz))
