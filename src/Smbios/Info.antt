-- ===== src/Smbios/Info.antt =====
-- The structures of Include/SystemInfo.h that Source/SmbiosParser.c fills, and the fields that it
-- reads of the firmware's structures.
use ddtsoft_net_test.Base.{ℕ, List, []}

-- A CHAR8 buffer as the characters before its NUL.
abbrev pub Chars8 : Type 0
Chars8 = List ℕ

-- What SmbiosGetString returns: the literal "", or a place in the table.
pub data StringPtr : Type 0 where
  empty : StringPtr
  at : ℕ → StringPtr

-- The fields of SMBIOS_STRUCTURE, SMBIOS_TABLE_TYPE0, 1, 2, 4 and 17, and of the two entry points.
pub data Field : Type 0 where
  hdr_type hdr_length : Field
  type0_vendor type0_bios_version type0_bios_release_date : Field
  type0_system_bios_major_release type0_system_bios_minor_release : Field
  type0_bios_size type0_extended_bios_size_unit type0_extended_bios_size_size : Field
  type1_manufacturer type1_product_name type1_version type1_serial_number type1_uuid : Field
  type2_manufacturer type2_product_name type2_version type2_serial_number : Field
  type4_processor_version type4_socket type4_max_speed type4_current_speed : Field
  type4_core_count type4_thread_count : Field
  type17_device_locator type17_manufacturer type17_part_number type17_serial_number : Field
  type17_size type17_extended_size type17_speed type17_configured_memory_clock_speed : Field
  type17_memory_type type17_form_factor : Field
  entry3_table_address entry3_table_maximum_size entry_table_address entry_table_length : Field

-- FIRMWARE_INFO
pub record FirmwareInfo : Type 0 where
  pub firmware_vendor : List ℕ
  pub firmware_revision : ℕ
  pub uefi_spec_major : ℕ
  pub uefi_spec_minor : ℕ
  pub bios_vendor : Chars8
  pub bios_version : Chars8
  pub bios_release_date : Chars8
  pub bios_major_release : ℕ
  pub bios_minor_release : ℕ
  pub bios_rom_size : ℕ

-- SYSTEM_INFO
pub record SystemInfo : Type 0 where
  pub manufacturer : Chars8
  pub product_name : Chars8
  pub version : Chars8
  pub serial_number : Chars8
  pub system_uuid : ℕ
  pub board_manufacturer : Chars8
  pub board_product : Chars8
  pub board_version : Chars8
  pub board_serial : Chars8

-- CPU_INFO
pub record CpuInfo : Type 0 where
  pub processor_name : Chars8
  pub max_speed : ℕ
  pub current_speed : ℕ
  pub core_count : ℕ
  pub thread_count : ℕ
  pub socket_designation : Chars8

-- MEMORY_SLOT_INFO
pub record MemorySlotInfo : Type 0 where
  pub slot_index : ℕ
  pub device_locator : Chars8
  pub size_mb : ℕ
  pub speed : ℕ
  pub configured_speed : ℕ
  pub memory_type : ℕ
  pub manufacturer : Chars8
  pub part_number : Chars8
  pub serial_number : Chars8
  pub form_factor : ℕ

-- MEMORY_INFO. `slots` holds the entries of Slots that were filled, in order.
pub record MemoryInfo : Type 0 where
  pub total_memory_mb : ℕ
  pub populated_slots : ℕ
  pub total_slots : ℕ
  pub slots : List MemorySlotInfo

-- `ZeroMem` of each.
abbrev pub zero_firmware : FirmwareInfo
zero_firmware = record {
  firmware_vendor = [];
  firmware_revision = 0;
  uefi_spec_major = 0;
  uefi_spec_minor = 0;
  bios_vendor = [];
  bios_version = [];
  bios_release_date = [];
  bios_major_release = 0;
  bios_minor_release = 0;
  bios_rom_size = 0;
}

abbrev pub zero_system : SystemInfo
zero_system = record {
  manufacturer = [];
  product_name = [];
  version = [];
  serial_number = [];
  system_uuid = 0;
  board_manufacturer = [];
  board_product = [];
  board_version = [];
  board_serial = [];
}

abbrev pub zero_cpu : CpuInfo
zero_cpu = record {
  processor_name = [];
  max_speed = 0;
  current_speed = 0;
  core_count = 0;
  thread_count = 0;
  socket_designation = [];
}

abbrev pub zero_memory : MemoryInfo
zero_memory = record { total_memory_mb = 0; populated_slots = 0; total_slots = 0; slots = [] }
