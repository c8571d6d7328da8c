-- ===== src/Layer4.antt =====
-- Source/Layer4Transport.c: the tests of several TCP ports. The firmware's services and the formatted
-- texts are parameters; the state of the firmware and of the network is passed on.
pub mod Child
pub mod Rounds
pub mod Counts
pub mod Children
pub mod Ports
mod Examples
use ddtsoft_net_test.Base.{
  ℕ, ◌+◌, ◌%◌, ◌^◌, true, false, Option, none, some, List, [], ◌∷◌, length, ltb, ◌==◌,
  if◌then◌else◌,
}
use ddtsoft_net_test.Efi.{EfiStatus, success, efi_error}
use ddtsoft_net_test.Runner.{Text, codes, TestResult, result_pass, result_fail, result_warn}
use ddtsoft_net_test.Stress.{sub64}
use ddtsoft_net_test.Layer3.{PingConfig}
use ddtsoft_net_test.Layer4.Child.{
  Tcp, tcp_config, l4_create_tcp_child, l4_destroy_tcp_child, l4_tcp_connect, l4_tcp_close,
}

-- The texts that UnicodeSPrint makes.
pub record PortPrinter : Type 0 where
  pub multi_detail : ℕ → ℕ → Text
  pub all_open : ℕ → Text
  pub some_open : ℕ → ℕ → ℕ → Text
  pub all_closed : ℕ → Text
  pub scan_detail : ℕ → ℕ → Text
  pub scan_open : ℕ → ℕ → ℕ → Text
  pub scan_closed : ℕ → Text

-- What comes of one port: no child, no connection, or a connection.
pub data Attempt : Type 0 where
  no_child refused opened : Attempt

abbrev pub count64 : ℕ → ℕ
count64 n = (n + 1) % 2 ^ 64

-- PacketsSent and PacketsReceived after an attempt.
pub count_packets : Attempt → TestResult → TestResult
count_packets Attempt.no_child r = r
count_packets Attempt.refused r = record r { packets_sent = count64 r.packets_sent }
count_packets Attempt.opened r = record r {
  packets_sent = count64 r.packets_sent;
  packets_received = count64 r.packets_received;
}

abbrev pub multi_ports : List ℕ
multi_ports = 80 ∷ 443 ∷ 8080 ∷ 22 ∷ []

abbrev pub scan_ports : List ℕ
scan_ports = 22 ∷ 80 ∷ 443 ∷ 8080 ∷ 53 ∷ 3389 ∷ []

module _ {W : Type 0} (d : Tcp W) (config : PingConfig) where
  -- One round of the two loops: the port, the timeouts of the connection and of its end, and the pause.
  pub attempt : ℕ → ℕ → ℕ → ℕ → W → Option (Attempt × W)
  attempt port connect_ms close_ms pause w =
      let ((made, child, tcp4), w1) = l4_create_tcp_child d w in
      let addresses = tcp_config config.local_ip config.target_ip config.subnet_mask 0 port in
      elim (efi_error made) [
        | true ↦ some (Attempt.no_child, w1)
        | false ↦ elim (l4_tcp_connect d tcp4 addresses connect_ms w1) [
          | none ↦ none
          | some (status, w2) ↦ elim (efi_error status) [
            | true ↦ some (Attempt.refused, d.stall pause (l4_destroy_tcp_child d child tcp4 w2))
            | false ↦ elim (l4_tcp_close d tcp4 close_ms w2) [
              | none ↦ none
              | some (closed, w3) ↦
                  some (Attempt.opened, d.stall pause (l4_destroy_tcp_child d child tcp4 w3))
            ]
          ]
        ]
      ]

  -- The loop of TestL4TcpMultiPort: OpenCount and ClosedCount.
  pub multi_loop : List ℕ → ℕ → ℕ → TestResult → W → Option (ℕ × ℕ × TestResult × W)
  multi_loop [] open_count closed_count r w = some (open_count, closed_count, r, w)
  multi_loop (port ∷ ports) open_count closed_count r w = elim (attempt port 3000 2000 100000 w) [
    | none ↦ none
    | some (no_child, w1) ↦ multi_loop ports open_count (count64 closed_count) r w1
    | some (refused, w1) ↦
        multi_loop ports open_count (count64 closed_count) (count_packets Attempt.refused r) w1
    | some (opened, w1) ↦
        multi_loop ports (count64 open_count) closed_count (count_packets Attempt.opened r) w1
  ]

  -- What TestL4TcpMultiPort reports of the counts.
  pub multi_report : PortPrinter → ℕ → ℕ → TestResult → TestResult
  multi_report q open_count closed_count r1 =
      let r = record r1 { detail = q.multi_detail open_count closed_count } in
      let n = length multi_ports in
      if open_count == n
      then record r { status_code = result_pass; summary = q.all_open n }
      else if ltb 0 open_count
      then record r { status_code = result_warn; summary = q.some_open open_count n closed_count }
      else record r {
        status_code = result_fail;
        summary = q.all_closed n;
        fail_reason = codes "Could not connect to any tested port";
        suggestion = codes "Check target services and firewall configuration";
      }

  -- TestL4TcpMultiPort
  pub test_l4_tcp_multi_port : PortPrinter → TestResult → W → Option (EfiStatus × TestResult × W)
  test_l4_tcp_multi_port q r0 w = elim (multi_loop multi_ports 0 0 r0 w) [
    | none ↦ none
    | some (open_count, closed_count, r, w') ↦
        some (success, multi_report q open_count closed_count r, w')
  ]

  -- The loop of TestL4PortScan: OpenCount and TotalTried.
  pub scan_loop : List ℕ → ℕ → ℕ → TestResult → W → Option (ℕ × ℕ × TestResult × W)
  scan_loop [] open_count tried r w = some (open_count, tried, r, w)
  scan_loop (port ∷ ports) open_count tried r w = elim (attempt port 1500 500 50000 w) [
    | none ↦ none
    | some (no_child, w1) ↦ scan_loop ports open_count tried r w1
    | some (refused, w1) ↦
        scan_loop ports open_count (count64 tried) (count_packets Attempt.refused r) w1
    | some (opened, w1) ↦
        scan_loop ports (count64 open_count) (count64 tried) (count_packets Attempt.opened r) w1
  ]

  -- What TestL4PortScan reports of the counts.
  pub scan_report : PortPrinter → ℕ → ℕ → TestResult → TestResult
  scan_report q open_count tried r1 =
      let closed = sub64 tried open_count in
      let r = record r1 { detail = q.scan_detail open_count closed } in
      if tried == 0
      then record r {
        status_code = result_fail;
        summary = codes "Port scan failed: cannot create TCP connections";
      }
      else if ltb 0 open_count
      then record r { status_code = result_pass; summary = q.scan_open open_count closed tried }
      else record r {
        status_code = result_warn;
        summary = q.scan_closed tried;
        suggestion = codes "Target may have firewall blocking all scanned ports";
      }

  -- TestL4PortScan
  pub test_l4_port_scan : PortPrinter → TestResult → W → Option (EfiStatus × TestResult × W)
  test_l4_port_scan q r0 w = elim (scan_loop scan_ports 0 0 r0 w) [
    | none ↦ none
    | some (open_count, tried, r, w') ↦ some (success, scan_report q open_count tried r, w')
  ]
