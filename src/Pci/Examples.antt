-- ===== src/Pci/Examples.antt =====
-- PciEnumerator.c on three handles, one of them without a device.
use ddtsoft_net_test.Base.{
  ℕ, ◌≤◌, ◌≡◌, refl, ◌||◌, true, none, some, List, [], ◌∷◌, length, ◌==◌, if◌then◌else◌,
}
use ddtsoft_net_test.Efi.{success}
use ddtsoft_net_test.Pci.{
  PciDeviceInfo, PciHandle, lookup_code, lookup_nic, pci_lookup_vendor_name, pci_lookup_class_name,
  pci_lookup_nic_device_name, fill_device, is_skipped, enumerate_loop, enumerate_pci_devices,
}
use ddtsoft_net_test.Pci.Present.{IsListing, enumerate_pci_devices_lem}

abbrev handle : ℕ → ℕ → ℕ → PciHandle
handle v d c = record {
  pci_io_status = success;
  location_status = success;
  bus = 0;
  dev = 3;
  func = 0;
  vendor_status = success;
  read16 = λ offset. if offset == 0x02 || offset == 0x2e then d else v;
  read8 = λ offset. if offset == 0x0b then c else 0;
  device_path = none;
}

abbrev handles : List PciHandle
handles = handle 0x8086 0x100e 2 ∷ handle 0xffff 0 0 ∷ handle 0x10ec 0x8168 2 ∷ []

enumerate_pci_devices_lem_example :
    (out : List PciDeviceInfo) × (enumerate_pci_devices true (some 2) (some handles)
      ≡ (success, some (length out), out))
    × (length out ≤ 2)
    × IsListing handles 2 out
enumerate_pci_devices_lem_example = enumerate_pci_devices_lem handles 2

two_listed : (enumerate_pci_devices true (some 2) (some handles)).1 ≡ some 2
unfolding enumerate_pci_devices enumerate_loop is_skipped
two_listed = refl

names :
    (pci_lookup_vendor_name 0x8086 ≡ "Intel")
    × (pci_lookup_class_name 0x40 ≡ "Unknown")
    × (pci_lookup_nic_device_name 0x10ec 0x8168 ≡ some "RTL8111/8168 GbE")
unfolding pci_lookup_vendor_name pci_lookup_class_name pci_lookup_nic_device_name lookup_code
    lookup_nic
names = (refl, refl, refl)

network : (fill_device (handle 0x8086 0x100e 2)).is_network_device ≡ true
unfolding fill_device
network = refl

absent : is_skipped (handle 0xffff 0 0) ≡ true
unfolding is_skipped
absent = refl
