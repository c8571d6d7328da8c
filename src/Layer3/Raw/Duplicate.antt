-- ===== src/Layer3/Raw/Duplicate.antt =====
-- TestL3DuplicateIp of Source/Layer3Network.c.
pub mod Verdict
use ddtsoft_net_test.Base.{
  ℕ, ◌+◌, Bool, true, false, not, ◌&&◌, Option, none, some, ◌==◌, if◌then◌else◌, Bytes, zero_mem,
}
use ddtsoft_net_test.Efi.{EfiStatus, success, efi_error}
use ddtsoft_net_test.Efi.Polling.{poll}
use ddtsoft_net_test.Packet.{ethernet_header_size}
use ddtsoft_net_test.Packet.Builder.{build_arp_request}
use ddtsoft_net_test.Packet.Replies.{arp_reply}
use ddtsoft_net_test.Runner.{Text, codes, TestResult, result_pass, result_fail, result_warn}
use ddtsoft_net_test.Layer3.Raw.{RawDriver, RawNic, snp_ready, same6, frames}
use ddtsoft_net_test.Stress.Floods.Raw.{same4}

-- The texts that UnicodeSPrint makes, of the probed address, a MAC address as UtilFormatMac prints it,
-- and a status.
pub record DuplicatePrinter : Type 0 where
  pub claimed : Bytes → Bytes → Text
  pub claimed_by : Bytes → Text
  pub unclaimed : Bytes → Text
  pub unanswered : Bytes → Text
  pub not_sent : EfiStatus → Text

-- ProbeIp: our address, or the configuration's LocalIp.
pub probe_ip : RawNic → Bytes → Bytes
probe_ip nic local_ip = if nic.has_ip_config then nic.ipv4_address else local_ip

-- The test for a received frame: an ARP reply for `ip` from another MAC address than `own`. It gives
-- that address and RxLen.
pub claim : Bytes → Bytes → EfiStatus → Bytes → ℕ → Option (Bytes × ℕ)
claim ip own status b len = elim (arp_reply status b len) [
  | none ↦ none
  | some mac ↦
      if same4 (λ i. b (ethernet_header_size + 14 + i)) ip && not (same6 mac own)
      then some (mac, len)
      else none
]

module _ {W : Type 0} (d : RawDriver W) (q : DuplicatePrinter) where
  -- What is reported of a MAC address that claims `ip`, and when none does.
  pub report_claim : Bytes → Bytes → TestResult → TestResult
  report_claim ip mac r = record r {
    status_code = result_fail;
    summary = q.claimed ip mac;
    fail_reason = q.claimed_by mac;
    suggestion = codes "Change IP on one of the conflicting hosts";
  }

  pub report_clean : Bytes → TestResult → TestResult
  report_clean ip r = record r { status_code = result_pass; summary = q.unclaimed ip }

  -- The first method, over the firmware's ARP protocol.
  pub ask_protocol : RawNic → Bytes → TestResult → W → TestResult × W
  ask_protocol nic ip r w =
      let ((status, mac), w1) = d.arp_via_protocol nic.ipv4_address ip w in
      let silent : TestResult = record r { status_code = result_pass; summary = q.unanswered ip } in
      if efi_error status
      then (silent, w1)
      else if not (same6 mac nic.current_mac)
      then (report_claim ip mac r, w1)
      else (report_clean ip r, w1)

  -- The second method, over raw frames.
  pub ask_raw : Bytes → RawNic → Bytes → TestResult → W → TestResult × W
  ask_raw tx_buf nic ip r w =
      let (tx, len) = build_arp_request (zero_mem tx_buf 0 64) nic.snp_address (λ i. 0) ip in
      let (status, w1) = d.transmit tx len (d.receive_filters w) in
      let unsent : TestResult = record r {
        status_code = result_warn;
        summary = q.not_sent status;
      } in
      let sent : TestResult = record r { packets_sent = 1; bytes_sent = len } in
      let (found, w2) = poll (frames d) (claim ip nic.snp_address) 3000 w1 in
      if efi_error status then (unsent, w1) else (elim found [
        | some (mac, rx_len) ↦ (
          report_claim ip mac (record sent { packets_received = 1; bytes_received = rx_len }),
          w2,
        )
        | none ↦ (report_clean ip sent, w2)
      ])

  -- TestL3DuplicateIp; `tx_buf` is what the frame buffer holds at first.
  pub test_l3_duplicate_ip : Bytes → RawNic → Bytes → TestResult → W → EfiStatus × TestResult × W
  test_l3_duplicate_ip tx_buf nic local_ip r w =
      let ip = probe_ip nic local_ip in
      let out : TestResult × W =
        if nic.has_arp
        then ask_protocol nic ip r w
        else if snp_ready nic
        then ask_raw tx_buf nic ip r w
        else (report_clean ip r, w) in
      (success, out.0, out.1)
