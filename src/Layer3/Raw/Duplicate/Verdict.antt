-- ===== src/Layer3/Raw/Duplicate/Verdict.antt =====
-- When TestL3DuplicateIp of Source/Layer3Network.c reports a duplicate address.
use ddtsoft_net_test.Base.{Bool, not, ◌&&◌, Bytes, zero_mem}
use ddtsoft_net_test.Efi.{EfiStatus, efi_error}
use ddtsoft_net_test.Efi.Polling.{silent}
use ddtsoft_net_test.Packet.Builder.{build_arp_request}
use ddtsoft_net_test.Layer3.Raw.{RawDriver, RawNic, same6, frames}
use ddtsoft_net_test.Layer3.Raw.Duplicate.{DuplicatePrinter, claim}

module _ {W : Type 0} (d : RawDriver W) (q : DuplicatePrinter) (tx_buf : Bytes) (nic : RawNic) where
  -- Whether the firmware's ARP protocol finds another MAC address for `ip` than ours.
  abbrev pub is_protocol_claim : Bytes → W → Bool
  is_protocol_claim ip w =
      let ((status, mac), w1) = d.arp_via_protocol nic.ipv4_address ip w in
      not (efi_error status) && not (same6 mac nic.current_mac)

  -- The ARP probe with the sender's address 0.0.0.0, and what Transmit gives of it.
  abbrev pub probe_sent : Bytes → W → EfiStatus × W
  probe_sent ip w =
      let (tx, len) = build_arp_request (zero_mem tx_buf 0 64) nic.snp_address (λ i. 0) ip in
      d.transmit tx len (d.receive_filters w)

  -- Whether the probe is sent and one of three thousand rounds brings an ARP reply for `ip` from another
  -- MAC address than ours.
  abbrev pub is_raw_claim : Bytes → W → Bool
  is_raw_claim ip w =
      not (efi_error (probe_sent ip w).0)
      && not (silent (frames d) (claim ip nic.snp_address) 3000 (probe_sent ip w).1)
