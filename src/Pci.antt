-- ===== src/Pci.antt =====
-- Source/PciEnumerator.c: the enumeration of the PCI devices, and the lookups of names.
-- What the firmware answers about each handle is data; the bytes of the configuration space that the
-- code reads are its numbers.
pub mod Ids
pub mod Present
mod Examples
use Prim.Native.String.{String}
use ddtsoft_net_test.Base.{
  ℕ, zero, suc, ◌%◌, Bool, true, false, ◌&&◌, ◌||◌, Option, none, some, List, [], ◌∷◌, take, length,
  ◌==◌, if◌then◌else◌, not,
}
use ddtsoft_net_test.Efi.{EfiStatus, success, invalid_parameter, not_found, efi_error}
use ddtsoft_net_test.Runner.{Text, codes}
use ddtsoft_net_test.Pci.Ids.{CodeEntry, NicEntry, vendor_table, class_table, nic_device_table}

-- PCI_DEVICE_INFO
pub record PciDeviceInfo : Type 0 where
  pub bus : ℕ
  pub device : ℕ
  pub function : ℕ
  pub vendor_id : ℕ
  pub device_id : ℕ
  pub subsys_vendor_id : ℕ
  pub subsys_device_id : ℕ
  pub class_code : ℕ
  pub sub_class_code : ℕ
  pub prog_interface : ℕ
  pub revision_id : ℕ
  pub vendor_name : Text
  pub class_name : Text
  pub device_path : Text
  pub is_network_device : Bool

-- A handle: the statuses of HandleProtocol, GetLocation and the first read, the location, what the
-- variables hold after the reads of the configuration space at an offset, 16 or 8 bits wide, and the
-- text of the device path, if there is one. The code does not look at the statuses of the later reads.
pub record PciHandle : Type 0 where
  pub pci_io_status : EfiStatus
  pub location_status : EfiStatus
  pub bus : ℕ
  pub dev : ℕ
  pub func : ℕ
  pub vendor_status : EfiStatus
  pub read16 : ℕ → ℕ
  pub read8 : ℕ → ℕ
  pub device_path : Option Text

-- The loop of PciLookupVendorName and of PciLookupClassName.
pub lookup_code : List CodeEntry → ℕ → String
lookup_code [] c = "Unknown"
lookup_code (e ∷ es) c = if e.code == c then e.name else lookup_code es c

-- PciLookupVendorName
pub pci_lookup_vendor_name : ℕ → String
pci_lookup_vendor_name = lookup_code vendor_table

-- PciLookupClassName
pub pci_lookup_class_name : ℕ → String
pci_lookup_class_name = lookup_code class_table

pub lookup_nic : List NicEntry → ℕ → ℕ → Option String
lookup_nic [] v d = none
lookup_nic (e ∷ es) v d =
    if e.vendor_id == v && e.device_id == d then some e.name else lookup_nic es v d

-- PciLookupNicDeviceName
pub pci_lookup_nic_device_name : ℕ → ℕ → Option String
pci_lookup_nic_device_name = lookup_nic nic_device_table

-- The entry that is filled in for a handle. ClassCode is read in three bytes from 0x09 on.
pub fill_device : PciHandle → PciDeviceInfo
fill_device h = record {
  bus = h.bus % 256;
  device = h.dev % 256;
  function = h.func % 256;
  vendor_id = h.read16 0x00;
  device_id = h.read16 0x02;
  subsys_vendor_id = h.read16 0x2c;
  subsys_device_id = h.read16 0x2e;
  class_code = h.read8 0x0b;
  sub_class_code = h.read8 0x0a;
  prog_interface = h.read8 0x09;
  revision_id = h.read8 0x08;
  vendor_name = take 63 (codes (pci_lookup_vendor_name (h.read16 0x00)));
  class_name = take 31 (codes (pci_lookup_class_name (h.read8 0x0b)));
  device_path = elim h.device_path [ none ↦ [] | some t ↦ take 255 t ];
  is_network_device = h.read8 0x0b == 0x02;
}

-- The tests that `continue` past a handle.
pub is_skipped : PciHandle → Bool
is_skipped h =
    efi_error h.pci_io_status
    || (efi_error h.location_status || (efi_error h.vendor_status || h.read16 0x00 == 0xffff))

-- The loop over the handles, with room for some more devices.
pub enumerate_loop : List PciHandle → ℕ → List PciDeviceInfo
enumerate_loop [] room = []
enumerate_loop (h ∷ hs) zero = []
enumerate_loop (h ∷ hs) (suc room) = elim (is_skipped h) [
  | true ↦ enumerate_loop hs (suc room)
  | false ↦ fill_device h ∷ enumerate_loop hs room
]

-- EnumeratePciDevices: the status, `*Count`, and the entries of Devices that are filled. `devices`
-- tells whether the array is not NULL, and `located` is none where LocateHandleBuffer fails.
pub enumerate_pci_devices :
    Bool → Option ℕ → Option (List PciHandle) → EfiStatus × Option ℕ × List PciDeviceInfo
enumerate_pci_devices false count located = (invalid_parameter, count, [])
enumerate_pci_devices true none located = (invalid_parameter, none, [])
enumerate_pci_devices true (some max_devices) none = (not_found, some 0, [])
enumerate_pci_devices true (some max_devices) (some handles) =
    let found = enumerate_loop handles max_devices in (success, some (length found), found)
