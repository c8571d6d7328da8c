-- ===== src/Smbios.antt =====
-- Source/SmbiosParser.c: the walk over the SMBIOS tables, and what it collects.
-- Memory is a function from an address to a byte. The structures' layouts are the firmware headers':
-- `read` gives a field of the structure at an address. The loops run on fuel, `none` when it ends.
pub mod Info
pub mod Table
pub mod Layout
pub mod Strings
use ddtsoft_net_test.Base.{
  ℕ, zero, suc, ◌+◌, ◌-◌, ◌*◌, ◌/◌, ◌%◌, ◌^◌, Bool, true, false, ◌&&◌, ◌||◌, Option, none, some,
  List, [], ◌∷◌, ◌++◌, take, ltb, leb, ◌==◌, if◌then◌else◌, Bytes, ◌>>=◌,
}
use ddtsoft_net_test.Smbios.Info
use ddtsoft_net_test.Smbios.Info.{
  Field, FirmwareInfo, SystemInfo, CpuInfo, MemorySlotInfo, MemoryInfo, Chars8, StringPtr, empty,
  at,
}

-- `while (*StringPtr != '\0') StringPtr++`
pub find_nul : ℕ → Bytes → ℕ → Option ℕ
find_nul zero m p = none
find_nul (suc fuel) m p = elim (m p == 0) [ true ↦ some p | false ↦ find_nul fuel m (p + 1) ]

-- The loop over Index, with `left` rounds to go.
pub skip_strings : ℕ → ℕ → Bytes → ℕ → Option StringPtr
skip_strings fuel zero m p = some (at p)
skip_strings fuel (suc left) m p = elim (find_nul fuel m p) [
  | none ↦ none
  | some e ↦ elim (m (e + 1) == 0) [ true ↦ some empty | false ↦ skip_strings fuel left m (e + 1) ]
]

-- The `n` bytes from `p` on.
pub bytes_at : Bytes → ℕ → ℕ → Chars8
bytes_at m p zero = []
bytes_at m p (suc n) = m p ∷ bytes_at m (p + 1) n

-- AsciiStrLen, the bound on it, and CopyMem.
pub copy_ascii : ℕ → ℕ → Bytes → StringPtr → Option Chars8
copy_ascii fuel dest_size m empty = some []
copy_ascii fuel dest_size m (at p) = do
  e ← find_nul fuel m p
  let len = e - p
  some (bytes_at m p (if leb dest_size len then dest_size - 1 else len))

-- The loop of SmbiosGetNext, and the step over the two NULs that end it.
pub skip_set : ℕ → Bytes → ℕ → Option ℕ
skip_set zero m p = none
skip_set (suc fuel) m p = elim (m p == 0 && m (p + 1) == 0) [
  | true ↦ some (p + 2)
  | false ↦ skip_set fuel m (p + 1)
]

-- The variables of the file: the tables' contents and the flags mSmbiosParsed and FirstCpu.
pub record State : Type 0 where
  pub firmware : FirmwareInfo
  pub system : SystemInfo
  pub cpu : CpuInfo
  pub memory : MemoryInfo
  pub smbios_parsed : Bool
  pub first_cpu : Bool

-- The size of a memory device in MB, from its 16-bit Size and its ExtendedSize.
pub size_mb : ℕ → ℕ → ℕ
size_mb size extended =
    if size == 0 || size == 65535
    then 0
    else if size == 32767
    then extended % 2 ^ 31
    else if size / 32768 % 2 == 1
    then size % 32768 / 1024
    else size

module _ (read : Field → Bytes → ℕ → ℕ) (fuel : ℕ) (m : Bytes) where
  -- SmbiosGetString
  pub get_string : ℕ → ℕ → Option StringPtr
  get_string header zero = some empty
  get_string header (suc index) =
      skip_strings fuel index m (header + read Field.hdr_length m header)

  -- SmbiosCopyString
  pub copy_string : ℕ → ℕ → Field → Option Chars8
  copy_string dest_size header f =
      get_string header (read f m header) >>= copy_ascii fuel dest_size m

  -- SmbiosGetNext
  pub get_next : ℕ → Option ℕ
  get_next current = skip_set fuel m (current + read Field.hdr_length m current)

  -- ParseType0
  pub parse_type0 : ℕ → State → Option State
  parse_type0 h s = do
    vendor ← copy_string 64 h Field.type0_vendor
    version ← copy_string 64 h Field.type0_bios_version
    date ← copy_string 32 h Field.type0_bios_release_date
    some (record s {
      firmware = record s.firmware {
        bios_vendor = vendor;
        bios_version = version;
        bios_release_date = date;
        bios_major_release = read Field.type0_system_bios_major_release m h;
        bios_minor_release = read Field.type0_system_bios_minor_release m h;
        bios_rom_size =
            let n = read Field.type0_bios_size m h in
            let x = read Field.type0_extended_bios_size_size m h in
            if n == 255
            then (if read Field.type0_extended_bios_size_unit m h == 0
                then x * 1024 * 1024
                else x * 1024 * 1024 * 1024)
            else (n + 1) * 64 * 1024;
      };
    })

  -- ParseType1
  pub parse_type1 : ℕ → State → Option State
  parse_type1 h s = do
    manufacturer' ← copy_string 64 h Field.type1_manufacturer
    product ← copy_string 64 h Field.type1_product_name
    version' ← copy_string 64 h Field.type1_version
    serial ← copy_string 64 h Field.type1_serial_number
    some (record s {
      system = record s.system {
        manufacturer = manufacturer';
        product_name = product;
        version = version';
        serial_number = serial;
        system_uuid = read Field.type1_uuid m h;
      };
    })

  -- ParseType2
  pub parse_type2 : ℕ → State → Option State
  parse_type2 h s = do
    manufacturer ← copy_string 64 h Field.type2_manufacturer
    product ← copy_string 64 h Field.type2_product_name
    version ← copy_string 64 h Field.type2_version
    serial ← copy_string 64 h Field.type2_serial_number
    some (record s {
      system = record s.system {
        board_manufacturer = manufacturer;
        board_product = product;
        board_version = version;
        board_serial = serial;
      };
    })

  -- ParseType4
  pub parse_type4 : ℕ → State → Option State
  parse_type4 h s =
      if s.first_cpu
      then (do
        name ← copy_string 128 h Field.type4_processor_version
        socket ← copy_string 32 h Field.type4_socket
        some (record s {
          first_cpu = false;
          cpu = record {
            processor_name = name;
            max_speed = read Field.type4_max_speed m h;
            current_speed = read Field.type4_current_speed m h;
            core_count = read Field.type4_core_count m h;
            thread_count = read Field.type4_thread_count m h;
            socket_designation = socket;
          };
        }))
      else some s
