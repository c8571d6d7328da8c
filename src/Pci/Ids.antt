-- ===== src/Pci/Ids.antt =====
-- Include/PciIds.h: the tables of PCI identifiers. The entry with the NULL name that ends a table is the
-- end of its list.
use Prim.Native.String.{String}
use ddtsoft_net_test.Base.{ℕ, List, [], ◌∷◌}

-- PCI_VENDOR_ENTRY and PCI_CLASS_ENTRY
pub record CodeEntry : Type 0 where
  pub code : ℕ
  pub name : String

-- PCI_NIC_DEVICE_ENTRY
pub record NicEntry : Type 0 where
  pub vendor_id : ℕ
  pub device_id : ℕ
  pub name : String

abbrev entry : ℕ → String → CodeEntry
entry c n = record { code = c; name = n }

abbrev nic : ℕ → ℕ → String → NicEntry
nic v d n = record { vendor_id = v; device_id = d; name = n }

-- gPciVendorTable
abbrev pub vendor_table : List CodeEntry
vendor_table =
    entry 0x8086 "Intel"
    ∷ entry 0x10ec "Realtek"
    ∷ entry 0x14e4 "Broadcom"
    ∷ entry 0x1969 "Qualcomm Atheros"
    ∷ entry 0x10de "NVIDIA"
    ∷ entry 0x1022 "AMD"
    ∷ entry 0x1002 "AMD/ATI"
    ∷ entry 0x15b3 "Mellanox"
    ∷ entry 0x1077 "QLogic"
    ∷ entry 0x19a2 "Emulex"
    ∷ entry 0x1137 "Cisco"
    ∷ entry 0x177d "Cavium"
    ∷ entry 0x1d6a "Aquantia"
    ∷ []

-- gPciClassTable
abbrev pub class_table : List CodeEntry
class_table =
    entry 0x00 "Unclassified"
    ∷ entry 0x01 "Storage"
    ∷ entry 0x02 "Network"
    ∷ entry 0x03 "Display"
    ∷ entry 0x04 "Multimedia"
    ∷ entry 0x05 "Memory"
    ∷ entry 0x06 "Bridge"
    ∷ entry 0x07 "Communication"
    ∷ entry 0x08 "System Peripheral"
    ∷ entry 0x09 "Input Device"
    ∷ entry 0x0a "Docking Station"
    ∷ entry 0x0b "Processor"
    ∷ entry 0x0c "Serial Bus"
    ∷ entry 0x0d "Wireless"
    ∷ []

-- gPciNicDeviceTable
abbrev pub nic_device_table : List NicEntry
nic_device_table =
    nic 0x8086 0x100e "PRO/1000 MT (82540EM)"
    ∷ nic 0x8086 0x100f "PRO/1000 MT (82545EM)"
    ∷ nic 0x8086 0x10d3 "82574L GbE"
    ∷ nic 0x8086 0x10ea "82577LM GbE"
    ∷ nic 0x8086 0x1502 "82579LM GbE"
    ∷ nic 0x8086 0x1503 "82579V GbE"
    ∷ nic 0x8086 0x150c "82583V GbE"
    ∷ nic 0x8086 0x1533 "I210 GbE"
    ∷ nic 0x8086 0x1539 "I211 GbE"
    ∷ nic 0x8086 0x15b7 "I219-LM"
    ∷ nic 0x8086 0x15b8 "I219-V"
    ∷ nic 0x8086 0x15bb "I219-LM (Cannon Point)"
    ∷ nic 0x8086 0x15bc "I219-V (Cannon Point)"
    ∷ nic 0x8086 0x15bd "I219-LM (Cannon Point)"
    ∷ nic 0x8086 0x15be "I219-V (Cannon Point)"
    ∷ nic 0x8086 0x15d7 "I219-LM (Comet Lake)"
    ∷ nic 0x8086 0x15d8 "I219-V (Comet Lake)"
    ∷ nic 0x8086 0x15e3 "I219-LM (Tiger Lake)"
    ∷ nic 0x8086 0x15f9 "I219-LM"
    ∷ nic 0x8086 0x15fa "I219-V"
    ∷ nic 0x8086 0x15fb "I219-LM"
    ∷ nic 0x8086 0x15fc "I219-V"
    ∷ nic 0x8086 0x0d4f "I219-LM (Alder Lake)"
    ∷ nic 0x8086 0x0d4e "I219-V (Alder Lake)"
    ∷ nic 0x8086 0x1a1e "I219-LM (Raptor Lake)"
    ∷ nic 0x8086 0x1a1f "I219-V (Raptor Lake)"
    ∷ nic 0x8086 0x10fb "X520 10GbE SFP+"
    ∷ nic 0x8086 0x1528 "X540-AT2 10GbE"
    ∷ nic 0x8086 0x15c8 "I350 GbE"
    ∷ nic 0x8086 0x1521 "I350 GbE"
    ∷ nic 0x8086 0x1572 "X710 10GbE SFP+"
    ∷ nic 0x8086 0x158b "XXV710 25GbE SFP28"
    ∷ nic 0x8086 0x37d2 "X722 10GbE"
    ∷ nic 0x10ec 0x8139 "RTL8139 100M"
    ∷ nic 0x10ec 0x8168 "RTL8111/8168 GbE"
    ∷ nic 0x10ec 0x8169 "RTL8169 GbE"
    ∷ nic 0x10ec 0x8125 "RTL8125 2.5GbE"
    ∷ nic 0x10ec 0x2600 "RTL8125B 2.5GbE"
    ∷ nic 0x14e4 0x1657 "BCM5719 GbE"
    ∷ nic 0x14e4 0x165f "BCM5720 GbE"
    ∷ nic 0x14e4 0x1682 "BCM57762 GbE"
    ∷ nic 0x14e4 0x16b5 "BCM57311 10GbE"
    ∷ nic 0x14e4 0x16b6 "BCM57312 10GbE"
    ∷ nic 0x1969 0x1091 "AR8161 GbE"
    ∷ nic 0x1969 0xe0a1 "Killer E2500 GbE"
    ∷ nic 0x1969 0x10a1 "QCA8171 GbE"
    ∷ nic 0x15b3 0x1013 "ConnectX-4 25GbE"
    ∷ nic 0x15b3 0x1015 "ConnectX-4 Lx 25GbE"
    ∷ nic 0x15b3 0x1017 "ConnectX-5 100GbE"
    ∷ nic 0x15b3 0x101b "ConnectX-6 100GbE"
    ∷ []
