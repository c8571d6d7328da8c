-- ===== src/Smbios/Table/Examples.antt =====
-- The theorems on Source/SmbiosParser.c at a table with one memory device of 4096 MB.
use ddtsoft_net_test.Base.{
  ℕ, zero, suc, ◌+◌, ◌-◌, ◌≡◌, refl, ap, arith, true, false, none, some, List, [], ◌∷◌, Bytes,
  load16, load32, ltb, if◌then◌else◌,
}
use ddtsoft_net_test.Efi.{success, invalid_parameter}
use ddtsoft_net_test.Smbios.Info.{Field, zero_firmware, zero_system, zero_cpu, zero_memory}
use ddtsoft_net_test.Smbios.{State}
use ddtsoft_net_test.Smbios.Table.{
  SystemTable, Guid, init_info, is_smbios3, is_smbios, find_entry, collect_firmware_info,
  collect_system_info, collect_cpu_info, find_table, parse_smbios_tables, collect,
  collect_memory_info,
}
use ddtsoft_net_test.Smbios.Layout.{StringSet, strings, closed, string, ended, char}
use ddtsoft_net_test.Smbios.Table.Tally.{IsTally, zero_memory-IsTally}
use ddtsoft_net_test.Smbios.Table.Slots.{collect_memory_info-IsTally}
use ddtsoft_net_test.Smbios.Table.Entries.{Entry, with_entries}
use ddtsoft_net_test.Smbios.Table.Walk.{entry, at_127, parse_smbios_tables_lem}

abbrev byte_of : List ℕ → ℕ → ℕ
byte_of [] i = 0
byte_of (b ∷ bs) zero = b
byte_of (b ∷ bs) (suc i) = byte_of bs i

-- Where the SMBIOS specification places some of the fields.
abbrev layout : Field → Bytes → ℕ → ℕ
layout Field.hdr_type m h = m h
layout Field.hdr_length m h = m (h + 1)
layout Field.type17_size m h = load16 m (h + 12)
layout Field.type17_device_locator m h = m (h + 16)
layout Field.type17_manufacturer m h = m (h + 23)
layout Field.entry3_table_maximum_size m h = load32 m (h + 12)
layout Field.entry3_table_address m h = load32 m (h + 16)
layout f m h = 0

-- The entry point at 100 and the table at 200: a device "D1" made by "AB", and the structure that
-- ends the table.
abbrev memory : Bytes
memory i =
    if ltb i 124
    then byte_of (64 ∷ 0 ∷ 0 ∷ 0 ∷ 200 ∷ 0 ∷ 0 ∷ 0 ∷ []) (i - 112)
    else if ltb i 224
    then byte_of
        (17 ∷ 24 ∷ 0 ∷ 0 ∷ 0 ∷ 0 ∷ 0 ∷ 0 ∷ 0 ∷ 0 ∷ 0 ∷ 0 ∷ 0 ∷ 16 ∷ 0 ∷ 0 ∷ 1 ∷ 0 ∷ 0 ∷ 0 ∷ 0 ∷ 0
          ∷ 0 ∷ 2 ∷ [])
        (i - 200)
    else byte_of (68 ∷ 49 ∷ 0 ∷ 65 ∷ 66 ∷ 0 ∷ 0 ∷ 127 ∷ 4 ∷ []) (i - 224)

abbrev table : SystemTable
table = record {
  firmware_vendor = some (69 ∷ []);
  firmware_revision = 1;
  hdr_revision = 131072;
  configuration_table = (Guid.other, 50) ∷ (Guid.smbios3_table, 100) ∷ [];
}

abbrev start : State
start = record {
  firmware = zero_firmware;
  system = zero_system;
  cpu = zero_cpu;
  memory = zero_memory;
  smbios_parsed = false;
  first_cpu = true;
}

abbrev device : Entry
device = record { field = λ f. layout f memory 200; strings = (68 ∷ 49 ∷ []) ∷ (65 ∷ 66 ∷ []) ∷ [] }

device-set : StringSet memory 224 device.strings 231
device-set = strings (
    string (λ e. absurd (omega (arith, e)))
      (char (λ e. absurd (omega (arith, e))) (char (λ e. absurd (omega (arith, e))) (ended refl)))
      (string (λ e. absurd (omega (arith, e)))
        (char (λ e. absurd (omega (arith, e))) (char (λ e. absurd (omega (arith, e))) (ended refl)))
        (closed refl refl)))

parse_smbios_tables_lem_example :
    parse_smbios_tables layout 64 memory table start
    ≡ some (
      success,
      record (with_entries (device ∷ []) (init_info table start)) { smbios_parsed = true },
    )
parse_smbios_tables_lem_example =
    parse_smbios_tables_lem layout memory 64 200 264 231 (device ∷ []) table start refl
      (unfold find_table is_smbios3 find_entry load32 in refl) (λ e. absurd (omega (arith, e)))
      (entry (omega arith) (λ e. absurd (omega (arith, e)))
        (record { agrees = λ f. refl; set = device-set }) (at_127 refl))
      (omega arith)

abbrev parsed : State
parsed = record (with_entries (device ∷ []) (init_info table start)) { smbios_parsed = true }

collect_memory_info-IsTally_example : IsTally parsed.memory × IsTally parsed.memory
collect_memory_info-IsTally_example =
    collect_memory_info-IsTally layout 64 memory table zero_memory parsed.memory start parsed
      success zero_memory-IsTally collected
  where
    collected :
        collect_memory_info layout 64 memory table (some zero_memory) start
        ≡ some (success, some parsed.memory, parsed)
    collected =
        unfold collect_memory_info collect in
        ap (λ r. elim r [ none ↦ none | some (e, s') ↦ some (success, some s'.memory, s') ])
          parse_smbios_tables_lem_example

collect_null :
    (collect_firmware_info layout 64 memory table none start
      ≡ some (invalid_parameter, none, start))
    × (collect_system_info layout 64 memory table none start
        ≡ some (invalid_parameter, none, start))
    × (collect_cpu_info layout 64 memory table none start ≡ some (invalid_parameter, none, start))
unfolding collect_firmware_info collect_system_info collect_cpu_info collect
collect_null = (refl, refl, refl)

older_entry : find_entry is_smbios table.configuration_table ≡ none
unfolding find_entry is_smbios
older_entry = refl
