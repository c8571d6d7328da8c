-- ===== src/Probe.antt =====
-- Source/ProtocolProbe.c and Include/ProtocolProbe.h: the periodic echo tests over ARP, ICMP, UDP and
-- TCP. The exchanges over the firmware's protocols, the raw interface and the clock are parameters;
-- the network's state is passed on.
pub mod Samples
pub mod Payload
pub mod Replies
pub mod Once
mod Examples
use ddtsoft_net_test.Base.{
  ℕ, zero, suc, ◌+◌, ◌-◌, ◌*◌, ◌/◌, ◌%◌, ◌^◌, Bool, true, false, ◌&&◌, ◌||◌, not, Option, none,
  some, List, [], ◌∷◌, ltb, leb, ◌==◌, if◌then◌else◌, Bytes, load16, swap_bytes16, store8, zero_mem,
}
use ddtsoft_net_test.Efi.{EfiStatus, success, unsupported, not_ready, timeout, efi_error}
use ddtsoft_net_test.Efi.Polling.{poll}
use ddtsoft_net_test.Packet.{ethernet_header_size, arp_header_size, arp_op_reply, ethertype_arp}
use ddtsoft_net_test.Packet.Builder.{build_arp_request}
use ddtsoft_net_test.Packet.Replies.{arp_reply}
use ddtsoft_net_test.Runner.{Text, codes}
use ddtsoft_net_test.Stress.{add64, sub64}
use ddtsoft_net_test.Utils.{Time, get_timestamp}

-- PROBE_PROTOCOL
pub data ProbeProtocol : Type 0 where
  probe_arp probe_icmp probe_udp probe_tcp probe_max : ProbeProtocol

abbrev pub status_pass : ℕ
status_pass = 1

abbrev pub status_fail : ℕ
status_fail = 2

abbrev pub status_timeout : ℕ
status_timeout = 3

abbrev pub history_size : ℕ
history_size = 12

abbrev pub probe_timeout_ms : ℕ
probe_timeout_ms = 2000

-- PROBE_ENTRY
pub record ProbeEntry : Type 0 where
  pub seq_id : ℕ
  pub entry_status : ℕ
  pub rtt_us : ℕ

-- PROBE_STATS. `history` is the array History.
pub record ProbeStats : Type 0 where
  pub protocol : ProbeProtocol
  pub sent : ℕ
  pub received : ℕ
  pub lost : ℕ
  pub rtt_min_us : ℕ
  pub rtt_max_us : ℕ
  pub rtt_avg_us : ℕ
  pub rtt_last_us : ℕ
  pub rtt_total_us : ℕ
  pub next_seq_id : ℕ
  pub history : ℕ → ProbeEntry
  pub history_head : ℕ

-- ProbeInit
pub init_probe : ProbeProtocol → ProbeStats
init_probe p = record {
  protocol = p;
  sent = 0;
  received = 0;
  lost = 0;
  rtt_min_us = 0xffffffff;
  rtt_max_us = 0;
  rtt_avg_us = 0;
  rtt_last_us = 0;
  rtt_total_us = 0;
  next_seq_id = 1;
  history = λ i. record { seq_id = 0; entry_status = 0; rtt_us = 0 };
  history_head = 0;
}

-- An increment on UINT32.
abbrev pub count32 : ℕ → ℕ
count32 n = (n + 1) % 2 ^ 32

-- What ProbeRecordResult does of a reply, after the entry is written.
pub record_pass : ProbeStats → ℕ → ProbeStats
record_pass s rtt =
    let got = count32 s.received in
    let total = add64 s.rtt_total_us rtt in
    record s {
      received = got;
      rtt_last_us = rtt;
      rtt_total_us = total;
      rtt_avg_us = total / got % 2 ^ 32;
      rtt_min_us = if ltb rtt s.rtt_min_us || (got == 1) then rtt else s.rtt_min_us;
      rtt_max_us = if ltb s.rtt_max_us rtt then rtt else s.rtt_max_us;
    }

-- ProbeRecordResult
pub record_result : ProbeStats → ℕ → ℕ → ProbeStats
record_result s status rtt =
    let entry : ProbeEntry = record {
      seq_id = s.next_seq_id;
      entry_status = status;
      rtt_us = rtt;
    } in
    let added : ProbeStats = record s {
      history = λ i. if i == s.history_head then entry else s.history i;
      history_head = (s.history_head + 1) % history_size;
      next_seq_id = count32 s.next_seq_id;
      sent = count32 s.sent;
    } in
    if status == status_pass then record_pass added rtt else record added { lost = count32 s.lost }

-- The characters stored at an offset and behind it.
pub store_bytes : Bytes → ℕ → List ℕ → Bytes
store_bytes b o [] = b
store_bytes b o (c ∷ cs) = store_bytes (store8 b o c) (o + 1) cs

-- One hexadecimal digit.
pub hex_digit : ℕ → ℕ
hex_digit n = if ltb n 10 then 48 + n else 65 + n - 10

-- ProbeBuildPayload at the time `ts`.
pub build_payload : Bytes → ℕ → ℕ → Bytes
build_payload buffer seq_id ts =
    let b = store_bytes buffer 0 (68 ∷ 68 ∷ 84 ∷ 69 ∷ 67 ∷ 72 ∷ 79 ∷ 124 ∷ []) in
    let b = store_bytes b 8 (73 ∷ 68 ∷ 61 ∷ []) in
    let b = store8 b 11 (48 + seq_id / 1000 % 10) in
    let b = store8 b 12 (48 + seq_id / 100 % 10) in
    let b = store8 b 13 (48 + seq_id / 10 % 10) in
    let b = store8 b 14 (48 + seq_id % 10) in
    let b = store_bytes b 15 (124 ∷ 84 ∷ 83 ∷ 61 ∷ []) in
    let b = store8 b 19 (hex_digit (ts / 2 ^ 28 % 16)) in
    let b = store8 b 20 (hex_digit (ts / 2 ^ 24 % 16)) in
    let b = store8 b 21 (hex_digit (ts / 2 ^ 20 % 16)) in
    let b = store8 b 22 (hex_digit (ts / 2 ^ 16 % 16)) in
    let b = store8 b 23 (hex_digit (ts / 2 ^ 12 % 16)) in
    let b = store8 b 24 (hex_digit (ts / 2 ^ 8 % 16)) in
    let b = store8 b 25 (hex_digit (ts / 2 ^ 4 % 16)) in
    let b = store8 b 26 (hex_digit (ts % 16)) in zero_mem (store8 b 27 0) 28 4

-- `RecvBuf[0] == 'D' && ... && RecvBuf[6] == 'O'`
pub is_echo : Bytes → Bool
is_echo b =
    (b 0 == 68)
    && ((b 1 == 68)
        && ((b 2 == 84) && ((b 3 == 69) && ((b 4 == 67) && ((b 5 == 72) && (b 6 == 79))))))

-- The fields of NIC_INFO that are read. `snp_initialized` is `none` for a NULL Snp, or else tells
-- whether its state is EfiSimpleNetworkInitialized.
pub record ProbeNic : Type 0 where
  pub has_arp : Bool
  pub has_ip4 : Bool
  pub has_udp4 : Bool
  pub has_tcp4 : Bool
  pub snp_initialized : Option Bool
  pub current_address : Bytes
  pub ipv4_address : Bytes

-- `Nic->Snp != NULL && Nic->Snp->Mode->State == EfiSimpleNetworkInitialized`
pub has_snp : ProbeNic → Bool
has_snp nic = elim nic.snp_initialized [ some state ↦ state | none ↦ false ]

-- ProbeGetName
pub get_name : ProbeProtocol → Text
get_name ProbeProtocol.probe_arp = codes "ARP"
get_name ProbeProtocol.probe_icmp = codes "ICMP"
get_name ProbeProtocol.probe_udp = codes "UDP"
get_name ProbeProtocol.probe_tcp = codes "TCP"
get_name ProbeProtocol.probe_max = codes "Unknown"

-- ProbeIsAvailable
pub is_available : ProbeNic → ProbeProtocol → Bool
is_available nic ProbeProtocol.probe_arp = nic.has_arp || has_snp nic
is_available nic ProbeProtocol.probe_icmp = nic.has_ip4
is_available nic ProbeProtocol.probe_udp = nic.has_udp4
is_available nic ProbeProtocol.probe_tcp = nic.has_tcp4
is_available nic ProbeProtocol.probe_max = false

-- ReceiveFilters, Transmit, Receive, Stall and GetTime; and ProbeArpViaProtocol, ProbeIcmpViaIp4 with
-- its sequence number, ProbeUdpEcho and ProbeTcpEcho with their sequence ids, which give a status and
-- what they leave in RttUs.
pub record Exchange (W : Type 0) : Type 0 where
  pub receive_filters : W → W
  pub transmit : Bytes → ℕ → W → EfiStatus × W
  pub receive : W → (EfiStatus × Bytes × ℕ) × W
  pub stall : ℕ → W → W
  pub get_time : W → (EfiStatus × Time) × W
  pub arp_via_protocol : Bytes → W → (EfiStatus × ℕ) × W
  pub icmp_via_ip4 : Bytes → ℕ → W → (EfiStatus × ℕ) × W
  pub udp_echo : Bytes → ℕ → W → (EfiStatus × ℕ) × W
  pub tcp_echo : Bytes → ℕ → W → (EfiStatus × ℕ) × W

-- What ProbeExecuteOnce records of the exchange.
pub verdict : EfiStatus → ℕ → ℕ × ℕ
verdict EfiStatus.success rtt = (status_pass, rtt)
verdict (EfiStatus.warning n) rtt = (status_pass, rtt)
verdict EfiStatus.timeout rtt = (status_timeout, 0)
verdict _ rtt = (status_fail, 0)

module _ {W : Type 0} (d : Exchange W) where
  -- UtilGetTimestamp
  abbrev now : W → ℕ × W
  now w = (get_timestamp (d.get_time w).0, (d.get_time w).1)

  -- The wait for a reply in ProbeArpViaSnp, of at most `left` rounds.
  pub arp_loop : ℕ → ℕ → W → (EfiStatus × ℕ) × W
  arp_loop left start w =
      let (found, w1) = poll (record { receive = d.receive; stall = d.stall }) arp_reply left w in
      elim found [
        | some v ↦
            let (end_tick, w2) = now w1 in ((success, sub64 end_tick start * 1000000 % 2 ^ 32), w2)
        | none ↦ ((timeout, 0), w1)
      ]

  -- ProbeArpViaSnp; `frame` is what the frame buffer holds at first.
  pub arp_via_snp : Bytes → ProbeNic → Bytes → W → (EfiStatus × ℕ) × W
  arp_via_snp frame nic target_ip w =
      let (tx, len) = build_arp_request frame nic.current_address nic.ipv4_address target_ip in
      let (start, w1) = now (d.receive_filters w) in
      let (status, w2) = d.transmit tx len w1 in
      if efi_error status then ((not_ready, 0), w2) else arp_loop probe_timeout_ms start w2

  -- The ARP case of ProbeExecuteOnce.
  pub probe_arp_once : Bytes → ProbeNic → Bytes → W → (EfiStatus × ℕ) × W
  probe_arp_once frame nic target_ip w =
      let first : (EfiStatus × ℕ) × W =
        if nic.has_arp then d.arp_via_protocol target_ip w else ((unsupported, 0), w) in
      if efi_error first.0.0 && has_snp nic then arp_via_snp frame nic target_ip first.1 else first

  -- The switch of ProbeExecuteOnce; `none` for its default.
  pub dispatch : Bytes → ProbeNic → Bytes → ProbeProtocol → ℕ → W → Option ((EfiStatus × ℕ) × W)
  dispatch frame nic target_ip ProbeProtocol.probe_arp seq w =
      some (probe_arp_once frame nic target_ip w)
  dispatch frame nic target_ip ProbeProtocol.probe_icmp seq w =
      some (if nic.has_ip4 then d.icmp_via_ip4 target_ip (seq % 65536) w else ((unsupported, 0), w))
  dispatch frame nic target_ip ProbeProtocol.probe_udp seq w =
      some (if nic.has_udp4 then d.udp_echo target_ip seq w else ((unsupported, 0), w))
  dispatch frame nic target_ip ProbeProtocol.probe_tcp seq w =
      some (if nic.has_tcp4 then d.tcp_echo target_ip seq w else ((unsupported, 0), w))
  dispatch frame nic target_ip ProbeProtocol.probe_max seq w = none

  -- ProbeExecuteOnce
  pub execute_once : Bytes → ProbeNic → Bytes → ProbeStats → W → EfiStatus × ProbeStats × W
  execute_once frame nic target_ip s w =
      elim (dispatch frame nic target_ip s.protocol s.next_seq_id w) [
        | none ↦ (unsupported, s, w)
        | some ((status, rtt), w') ↦
            let (code, rtt') = verdict status rtt in (success, record_result s code rtt', w')
      ]
