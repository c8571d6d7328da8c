-- ===== src/Pci/Present.antt =====
-- Which devices EnumeratePciDevices of Source/PciEnumerator.c lists, and what it says of each.
use Prim.Native.String.{String}
use ddtsoft_net_test.Base.{
  ℕ, zero, suc, ◌%◌, ◌≤◌, ◌≡◌, ◌≢◌, ◌↔◌, ◌⊎◌, inl, inr, refl, arith, Bool-cases, true, false,
  Option, none, some, List, [], ◌∷◌, take, length, ◌==◌,
}
use ddtsoft_net_test.Efi.{success, efi_error}
use ddtsoft_net_test.Runner.{Text, codes}
use ddtsoft_net_test.Pci.Ids.{CodeEntry, vendor_table, class_table}
use ddtsoft_net_test.Pci.{
  PciDeviceInfo, PciHandle, lookup_code, pci_lookup_vendor_name, pci_lookup_class_name, fill_device,
  is_skipped, enumerate_loop, enumerate_pci_devices,
}

-- A device answers behind the handle.
pub record IsPresent (h : PciHandle) : Type 0 where
  pub opened : efi_error h.pci_io_status ≡ false
  pub located : efi_error h.location_status ≡ false
  pub answered : efi_error h.vendor_status ≡ false
  pub vendor : h.read16 0x00 ≢ 0xffff

-- The name of a code is that of the table's first entry with the code, or else "Unknown".
abbrev pub IsName : List CodeEntry → ℕ → String → Type 0
IsName [] c s = s ≡ "Unknown"
IsName (e ∷ es) c s = ((e.code ≡ c) × (s ≡ e.name)) ⊎ ((e.code ≢ c) × IsName es c s)

-- The device path's text, cut to the array.
abbrev pub IsCut : Option Text → Text → Type 0
IsCut none t = t ≡ []
IsCut (some whole) t = t ≡ take 255 whole

-- What an entry says, by the layout of the PCI configuration header: the identifiers at 0x00, 0x02,
-- 0x2C and 0x2E, the revision at 0x08, and the interface, the subclass and the class from 0x09 on.
pub record IsEntry (h : PciHandle) (e : PciDeviceInfo) : Type 0 where
  pub bus_lem : e.bus ≡ h.bus % 256
  pub device_lem : e.device ≡ h.dev % 256
  pub function_lem : e.function ≡ h.func % 256
  pub vendor_lem : e.vendor_id ≡ h.read16 0x00
  pub product_lem : e.device_id ≡ h.read16 0x02
  pub subsys_vendor_lem : e.subsys_vendor_id ≡ h.read16 0x2c
  pub subsys_device_lem : e.subsys_device_id ≡ h.read16 0x2e
  pub revision_lem : e.revision_id ≡ h.read8 0x08
  pub interface_lem : e.prog_interface ≡ h.read8 0x09
  pub sub_class_lem : e.sub_class_code ≡ h.read8 0x0a
  pub class_lem : e.class_code ≡ h.read8 0x0b
  pub network_lem : (e.is_network_device ≡ true) ↔ (e.class_code ≡ 0x02)
  pub vendor_name_lem :
      (s : String) × IsName vendor_table e.vendor_id s × (e.vendor_name ≡ take 63 (codes s))
  pub class_name_lem :
      (s : String) × IsName class_table e.class_code s × (e.class_name ≡ take 31 (codes s))
  pub path_lem : IsCut h.device_path e.device_path

-- The entries of a list of handles in an array with some room left.
pub data IsListing : List PciHandle → ℕ → List PciDeviceInfo → Type 0 where
  finished : {room : ℕ} → IsListing [] room []
  filled : {hs : List PciHandle} {room : ℕ} → room ≡ 0 → IsListing hs room []
  passed_over :
      {h : PciHandle} {hs : List PciHandle} {room : ℕ} {out : List PciDeviceInfo}
      → ¬ IsPresent h
      → IsListing hs room out
      → IsListing (h ∷ hs) room out
  listed :
      {h : PciHandle} {hs : List PciHandle} {room : ℕ} {e : PciDeviceInfo}
      {out : List PciDeviceInfo}
      → IsPresent h
      → IsEntry h e
      → IsListing hs room out
      → IsListing (h ∷ hs) (suc room) (e ∷ out)

lookup_code-IsName : (es : List CodeEntry) (c : ℕ) → IsName es c (lookup_code es c)
unfolding lookup_code
lookup_code-IsName [] c = refl
lookup_code-IsName (e ∷ es) c = elim (Bool-cases (e.code == c)) [
  | inl same ↦ inl (ground (arith, same), ground (arith, same))
  | inr other ↦ rw other (inr (ground (arith, other), lookup_code-IsName es c))
]

IsCut_lem : (p : Option Text) → IsCut p (elim p [ none ↦ [] | some t ↦ take 255 t ])
IsCut_lem none = refl
IsCut_lem (some t) = refl

fill_device-IsEntry : (h : PciHandle) → IsEntry h (fill_device h)
unfolding fill_device pci_lookup_vendor_name pci_lookup_class_name
fill_device-IsEntry h = record {
  bus_lem = refl;
  device_lem = refl;
  function_lem = refl;
  vendor_lem = refl;
  product_lem = refl;
  subsys_vendor_lem = refl;
  subsys_device_lem = refl;
  revision_lem = refl;
  interface_lem = refl;
  sub_class_lem = refl;
  class_lem = refl;
  network_lem = (λ t. ground (arith, t), λ t. ground (arith, t));
  vendor_name_lem = (_, lookup_code-IsName vendor_table (h.read16 0x00), refl);
  class_name_lem = (_, lookup_code-IsName class_table (h.read8 0x0b), refl);
  path_lem = IsCut_lem h.device_path;
}

is_skipped-IsPresent : (h : PciHandle) → is_skipped h ≡ true → ¬ IsPresent h
unfolding is_skipped
is_skipped-IsPresent h skipped p =
    ground (arith, skipped, p.opened, p.located, p.answered, p.vendor)

not_skipped-IsPresent : (h : PciHandle) → is_skipped h ≡ false → IsPresent h
unfolding is_skipped
not_skipped-IsPresent h kept = record {
  opened = ground (arith, kept);
  located = ground (arith, kept);
  answered = ground (arith, kept);
  vendor = ground (arith, kept);
}

enumerate_loop-IsListing :
    (hs : List PciHandle) (room : ℕ) → IsListing hs room (enumerate_loop hs room)
unfolding enumerate_loop
enumerate_loop-IsListing [] room = finished
enumerate_loop-IsListing (h ∷ hs) zero = filled refl
enumerate_loop-IsListing (h ∷ hs) (suc room) = elim (Bool-cases (is_skipped h)) [
  | inl skipped ↦
      rw (skipped, enumerate_loop)
        (passed_over (is_skipped-IsPresent h skipped) (enumerate_loop-IsListing hs (suc room)))
  | inr kept ↦
      rw (kept, enumerate_loop)
        (listed (not_skipped-IsPresent h kept) (fill_device-IsEntry h)
          (enumerate_loop-IsListing hs room))
]

length-enumerate_loop : (hs : List PciHandle) (room : ℕ) → length (enumerate_loop hs room) ≤ room
unfolding enumerate_loop
length-enumerate_loop [] room = omega arith
length-enumerate_loop (h ∷ hs) zero = omega arith
length-enumerate_loop (h ∷ hs) (suc room) =
    ground (arith, length-enumerate_loop hs (suc room), length-enumerate_loop hs room)

-- EnumeratePciDevices succeeds with the devices that are present, in the firmware's order, up to the
-- end of the array, and `*Count` is their number, at most what the array holds. A handle is passed over
-- exactly if one of the three accesses to it fails or its vendor is 0xFFFF, until the array is full. An
-- entry has the location in bytes, the numbers of the PCI header by their offsets, the names that the
-- tables give the vendor and the class, and marks a network device exactly if the class is 2.
pub enumerate_pci_devices_lem :
    (hs : List PciHandle) (max : ℕ)
    → (out : List PciDeviceInfo) × (enumerate_pci_devices true (some max) (some hs)
        ≡ (success, some (length out), out))
      × (length out ≤ max)
      × IsListing hs max out
unfolding enumerate_pci_devices
enumerate_pci_devices_lem hs max =
    (enumerate_loop hs max, refl, length-enumerate_loop hs max, enumerate_loop-IsListing hs max)
