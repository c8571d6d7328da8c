-- ===== src/Smbios/Table/Entries.antt =====
-- What the SMBIOS structures say, as Source/SmbiosParser.c collects it: no addresses, no memory and
-- no fuel.
use ddtsoft_net_test.Base.{ℕ, ◌+◌, ◌-◌, ◌*◌, false, List, [], ◌∷◌, take, leb, ◌==◌, if◌then◌else◌}
use ddtsoft_net_test.Smbios.Info.{Field, Chars8, MemorySlotInfo}
use ddtsoft_net_test.Smbios.{State, size_mb}
use ddtsoft_net_test.Smbios.Layout.{string_of}
use ddtsoft_net_test.Smbios.Table.{add_slot}

-- A structure: its fields' values and its strings.
pub record Entry : Type 0 where
  pub field : Field → ℕ
  pub strings : List Chars8

module _ (e : Entry) where
  -- The text of a string field, cut to a buffer of `size` characters.
  abbrev pub text : ℕ → Field → Chars8
  text size f = take (size - 1) (string_of e.strings (e.field f))

  abbrev pub with_bios : State → State
  with_bios s = record s {
    firmware = record s.firmware {
      bios_vendor = text 64 Field.type0_vendor;
      bios_version = text 64 Field.type0_bios_version;
      bios_release_date = text 32 Field.type0_bios_release_date;
      bios_major_release = e.field Field.type0_system_bios_major_release;
      bios_minor_release = e.field Field.type0_system_bios_minor_release;
      bios_rom_size =
          if e.field Field.type0_bios_size == 255
          then (if e.field Field.type0_extended_bios_size_unit == 0
              then e.field Field.type0_extended_bios_size_size * 1024 * 1024
              else e.field Field.type0_extended_bios_size_size * 1024 * 1024 * 1024)
          else (e.field Field.type0_bios_size + 1) * 64 * 1024;
    };
  }

  abbrev pub with_system : State → State
  with_system s = record s {
    system = record s.system {
      manufacturer = text 64 Field.type1_manufacturer;
      product_name = text 64 Field.type1_product_name;
      version = text 64 Field.type1_version;
      serial_number = text 64 Field.type1_serial_number;
      system_uuid = e.field Field.type1_uuid;
    };
  }

  abbrev pub with_board : State → State
  with_board s = record s {
    system = record s.system {
      board_manufacturer = text 64 Field.type2_manufacturer;
      board_product = text 64 Field.type2_product_name;
      board_version = text 64 Field.type2_version;
      board_serial = text 64 Field.type2_serial_number;
    };
  }

  abbrev pub with_cpu : State → State
  with_cpu s =
      if s.first_cpu
      then (record s {
        first_cpu = false;
        cpu = record {
          processor_name = text 128 Field.type4_processor_version;
          max_speed = e.field Field.type4_max_speed;
          current_speed = e.field Field.type4_current_speed;
          core_count = e.field Field.type4_core_count;
          thread_count = e.field Field.type4_thread_count;
          socket_designation = text 32 Field.type4_socket;
        };
      })
      else s

  abbrev pub device : ℕ → MemorySlotInfo
  device index = record {
    slot_index = index;
    device_locator = text 32 Field.type17_device_locator;
    size_mb = size_mb (e.field Field.type17_size) (e.field Field.type17_extended_size);
    speed = e.field Field.type17_speed;
    configured_speed = e.field Field.type17_configured_memory_clock_speed;
    memory_type = e.field Field.type17_memory_type;
    manufacturer = text 32 Field.type17_manufacturer;
    part_number = text 32 Field.type17_part_number;
    serial_number = text 32 Field.type17_serial_number;
    form_factor = e.field Field.type17_form_factor;
  }

  abbrev pub with_device : State → State
  with_device s =
      if leb 32 s.memory.total_slots
      then s
      else record s { memory = add_slot (device s.memory.total_slots) s.memory }

  -- What the structure adds to the collected state, by its type.
  abbrev pub with_entry : State → State
  with_entry s =
      let t = e.field Field.hdr_type in
      if t == 0
      then with_bios s
      else if t == 1
      then with_system s
      else if t == 2
      then with_board s
      else if t == 4
      then with_cpu s
      else if t == 17
      then with_device s
      else s

abbrev pub with_entries : List Entry → State → State
with_entries [] s = s
with_entries (e ∷ es) s = with_entries es (with_entry e s)
