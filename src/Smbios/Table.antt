-- ===== src/Smbios/Table.antt =====
-- Source/SmbiosParser.c: memory devices, the walk, ParseSmbiosTables and the accessors.
pub mod Tally
pub mod Slots
pub mod Entries
pub mod Walk
mod Examples
use ddtsoft_net_test.Base.{
  ℕ, zero, suc, ◌+◌, ◌/◌, ◌%◌, ◌^◌, Bool, true, false, not, ◌&&◌, Option, none, some, List, [], ◌∷◌,
  ◌++◌, take, ltb, leb, ◌==◌, if◌then◌else◌, Bytes, ◌>>=◌,
}
use ddtsoft_net_test.Efi.{EfiStatus, success, not_found, invalid_parameter}
use ddtsoft_net_test.Smbios.Info.{
  Field, FirmwareInfo, SystemInfo, CpuInfo, MemorySlotInfo, MemoryInfo, zero_firmware, zero_system,
  zero_cpu, zero_memory,
}
use ddtsoft_net_test.Smbios.{
  State, copy_string, get_next, parse_type0, parse_type1, parse_type2, parse_type4, size_mb,
}

-- The entry that ParseType17 fills becomes one of the table's, and is counted.
pub add_slot : MemorySlotInfo → MemoryInfo → MemoryInfo
add_slot slot i = record {
  slots = take i.total_slots i.slots ++ slot ∷ [];
  total_slots = (i.total_slots + 1) % 256;
  populated_slots = if ltb 0 slot.size_mb then (i.populated_slots + 1) % 256 else i.populated_slots;
  total_memory_mb =
      if ltb 0 slot.size_mb then (i.total_memory_mb + slot.size_mb) % 2 ^ 32 else i.total_memory_mb;
}

-- The GUIDs of the configuration table that the code tells apart.
pub data Guid : Type 0 where
  smbios3_table smbios_table other : Guid

-- The part of EFI_SYSTEM_TABLE that is read; each entry of ConfigurationTable is a GUID and the
-- address of its table.
pub record SystemTable : Type 0 where
  pub firmware_vendor : Option (List ℕ)
  pub firmware_revision : ℕ
  pub hdr_revision : ℕ
  pub configuration_table : List (Guid × ℕ)

-- CompareGuid with gEfiSmbios3TableGuid, and with gEfiSmbiosTableGuid
pub is_smbios3 : Guid → Bool
is_smbios3 Guid.smbios3_table = true
is_smbios3 _ = false

pub is_smbios : Guid → Bool
is_smbios Guid.smbios_table = true
is_smbios _ = false

-- The loop over ConfigurationTable, up to its `break`.
pub find_entry : (Guid → Bool) → List (Guid × ℕ) → Option ℕ
find_entry test [] = none
find_entry test ((g, a) ∷ rest) = if test g then some a else find_entry test rest

-- The four structures zeroed, and what the system table says of the firmware.
pub init_info : SystemTable → State → State
init_info t s = record s {
  firmware = record zero_firmware {
    firmware_vendor = elim t.firmware_vendor [ none ↦ [] | some v ↦ take 127 v ];
    firmware_revision = t.firmware_revision;
    uefi_spec_major = t.hdr_revision / 65536 % 65536;
    uefi_spec_minor = t.hdr_revision % 65536;
  };
  system = zero_system;
  cpu = zero_cpu;
  memory = zero_memory;
}

module _ (read : Field → Bytes → ℕ → ℕ) (fuel : ℕ) (m : Bytes) where
  -- The entry that ParseType17 fills.
  pub read_slot : ℕ → ℕ → Option MemorySlotInfo
  read_slot h index = do
    locator ← copy_string read fuel m 32 h Field.type17_device_locator
    maker ← copy_string read fuel m 32 h Field.type17_manufacturer
    part ← copy_string read fuel m 32 h Field.type17_part_number
    serial ← copy_string read fuel m 32 h Field.type17_serial_number
    some (record {
      slot_index = index;
      device_locator = locator;
      size_mb = size_mb (read Field.type17_size m h) (read Field.type17_extended_size m h);
      speed = read Field.type17_speed m h;
      configured_speed = read Field.type17_configured_memory_clock_speed m h;
      memory_type = read Field.type17_memory_type m h;
      manufacturer = maker;
      part_number = part;
      serial_number = serial;
      form_factor = read Field.type17_form_factor m h;
    })

  -- ParseType17
  pub parse_type17 : ℕ → State → Option State
  parse_type17 h s = if leb 32 s.memory.total_slots then some s else (do
    slot ← read_slot h s.memory.total_slots
    some (record s { memory = add_slot slot s.memory }))

  -- The switch over Current->Type.
  pub parse_structure : ℕ → State → Option State
  parse_structure h s =
      let t = read Field.hdr_type m h in
      if t == 0
      then parse_type0 read fuel m h s
      else if t == 1
      then parse_type1 read fuel m h s
      else if t == 2
      then parse_type2 read fuel m h s
      else if t == 4
      then parse_type4 read fuel m h s
      else if t == 17
      then parse_type17 h s
      else some s

  -- The walk, with at most `rounds` structures.
  pub walk : ℕ → ℕ → ℕ → State → Option State
  walk zero table_end current s = none
  walk (suc rounds) table_end current s =
      elim (ltb current table_end && not (read Field.hdr_type m current == 127)) [
        | false ↦ some s
        | true ↦ elim (parse_structure current s) [
          | none ↦ none
          | some s' ↦ elim (get_next read fuel m current) [
            | none ↦ none
            | some next ↦ walk rounds table_end next s'
          ]
        ]
      ]

  -- SmbiosTableAddress and TableEnd: of the SMBIOS 3 entry point if there is one, or else of the
  -- older.
  pub find_table : List (Guid × ℕ) → Option (ℕ × ℕ)
  find_table entries = elim (find_entry is_smbios3 entries) [
    | some e ↦
        let a = read Field.entry3_table_address m e in
        some (a, a + read Field.entry3_table_maximum_size m e)
    | none ↦ elim (find_entry is_smbios entries) [
      | some e ↦
          let a = read Field.entry_table_address m e in
          some (a, a + read Field.entry_table_length m e)
      | none ↦ none
    ]
  ]

  -- ParseSmbiosTables
  pub parse_smbios_tables : SystemTable → State → Option (EfiStatus × State)
  parse_smbios_tables t s =
      if s.smbios_parsed then some (success, s) else elim (find_table t.configuration_table) [
        | none ↦ some (not_found, init_info t s)
        | some (a, table_end) ↦ if a == 0 then some (not_found, init_info t s) else (do
          s' ← walk fuel table_end a (init_info t s)
          some (success, record s' { smbios_parsed = true }))
      ]

  -- An accessor: a NULL Info is refused; else what `part` of the parsed state is, is copied there.
  pub collect :
      {A : Type 0}
      → (State → A)
      → SystemTable
      → Option A
      → State
      → Option (EfiStatus × Option A × State)
  collect part t none s = some (invalid_parameter, none, s)
  collect part t (some info) s = do
    (status, s') ← parse_smbios_tables t s
    some (success, some (part s'), s')

  -- CollectFirmwareInfo
  pub collect_firmware_info :
      SystemTable → Option FirmwareInfo → State → Option (EfiStatus × Option FirmwareInfo × State)
  collect_firmware_info = collect (λ s. s.firmware)

  -- CollectSystemInfo
  pub collect_system_info :
      SystemTable → Option SystemInfo → State → Option (EfiStatus × Option SystemInfo × State)
  collect_system_info = collect (λ s. s.system)

  -- CollectCpuInfo
  pub collect_cpu_info :
      SystemTable → Option CpuInfo → State → Option (EfiStatus × Option CpuInfo × State)
  collect_cpu_info = collect (λ s. s.cpu)

  -- CollectMemoryInfo
  pub collect_memory_info :
      SystemTable → Option MemoryInfo → State → Option (EfiStatus × Option MemoryInfo × State)
  collect_memory_info = collect (λ s. s.memory)
