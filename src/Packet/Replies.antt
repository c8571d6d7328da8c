-- ===== src/Packet/Replies.antt =====
-- The test for an ARP reply that ProbeArpViaSnp of Source/ProtocolProbe.c and L3ArpResolveViaSnp of
-- Source/Layer3Network.c both write out.
use ddtsoft_net_test.Base.{
  ℕ, ◌+◌, not, ◌&&◌, Option, none, some, leb, ◌==◌, if◌then◌else◌, Bytes, load16, swap_bytes16,
}
use ddtsoft_net_test.Efi.{EfiStatus, efi_error}
use ddtsoft_net_test.Packet.{ethernet_header_size, arp_header_size, arp_op_reply, ethertype_arp}

-- `none` for a frame that is not an ARP reply, and else the sender's MAC address, which L3ArpResolveViaSnp
-- copies.
unfoldable pub arp_reply : EfiStatus → Bytes → ℕ → Option Bytes
arp_reply status b size =
    if (not (efi_error status) && leb (ethernet_header_size + arp_header_size) size)
      && ((swap_bytes16 (load16 b 12) == ethertype_arp)
          && (swap_bytes16 (load16 b (ethernet_header_size + 6)) == arp_op_reply))
    then some (λ i. b (ethernet_header_size + 8 + i))
    else none
