-- ===== src/Layer3/Raw/Exchanges.antt =====
-- The tests of Source/Layer3Network.c over its own raw exchanges: they fill the record Network that the
-- ping and the tests take.
use ddtsoft_net_test.Base.{ℕ, ◌^◌, ◌<◌, arith, Bytes, ◌==◌, if◌then◌else◌}
use ddtsoft_net_test.Efi.{EfiStatus}
use ddtsoft_net_test.Runner.{zero_result}
use ddtsoft_net_test.Layer3.{
  Ip, PingNic, PingConfig, PingReply, Probe, Network, Printer, l3_ping, ping_via_snp,
  resolve_next_hop_mac,
}
use ddtsoft_net_test.Layer3.Tests.{TestPrinter, sweep_count, test_l3_icmp_sweep}
use ddtsoft_net_test.Layer3.Tests.Sweep.{IsReport, echo_times, test_l3_icmp_sweep_lem}
use ddtsoft_net_test.Layer3.Raw.{
  RawDriver, RawNic, RawReply, send_icmp_via_snp, l3_resolve_target_mac,
}

-- The bytes of an address, and what a raw exchange gives as a reply.
abbrev pub ip_bytes : Ip → Bytes
ip_bytes a i = if i == 0 then a.b0 else if i == 1 then a.b1 else if i == 2 then a.b2 else a.b3

abbrev pub as_reply : EfiStatus × RawReply → PingReply
as_reply (s, g) = record {
  status = s;
  rtt_us = g.rtt_us;
  reply_type = g.reply_type;
  reply_code = g.reply_code;
}

-- The exchanges as Layer3Network.c has them, over one driver; the exchange over the firmware's IP4
-- protocol is `ip4`. Both exchanges begin with a frame buffer that holds `tx_buf`.
abbrev pub raw_network :
    {W : Type 0}
    → RawDriver W
    → RawNic
    → Bytes
    → (Ip → Ip → Ip → Probe → W → PingReply × W)
    → Network W
raw_network d nic tx_buf ip4 = record {
  send_via_ip4 = ip4;
  send_via_snp = λ mac local_ip probe w.
      let (g, w') =
        send_icmp_via_snp d tx_buf nic.snp_address mac (ip_bytes local_ip) (ip_bytes probe.dst_ip)
          probe.seq_num probe.ttl probe.payload_size probe.timeout_ms w in
      (as_reply g, w');
  resolve_target_mac = λ src_ip target_ip timeout_ms w.
      l3_resolve_target_mac d tx_buf nic (ip_bytes src_ip) (ip_bytes target_ip) timeout_ms w;
  stall = d.stall;
}

module _ {W : Type 0} (d : RawDriver W) (raw : RawNic) (tx_buf : Bytes)
    (ip4 : Ip → Ip → Ip → Probe → W → PingReply × W) (p : Printer) (nic : PingNic)
    (config : PingConfig) where
  raw_fits :
      (src_mac dst_mac src_ip dst_ip : Bytes) (seq_num ttl size timeout_ms : ℕ) (w : W)
      → (send_icmp_via_snp d tx_buf src_mac dst_mac src_ip dst_ip seq_num ttl size timeout_ms
          w).0.1.rtt_us
        < 2 ^ 32
  unfolding send_icmp_via_snp
  raw_fits src_mac dst_mac src_ip dst_ip seq_num ttl size timeout_ms w = ground arith

  ping_via_snp_fits :
      (probe : Probe) (w : W)
      → (ping_via_snp (raw_network d raw tx_buf ip4) p nic config probe w).0.rtt_us < 2 ^ 32
  unfolding ping_via_snp
  ping_via_snp_fits probe w =
      let ((s, mac), w') = resolve_next_hop_mac (raw_network d raw tx_buf ip4) p nic config w in
      let fits =
        raw_fits raw.snp_address mac (ip_bytes config.local_ip) (ip_bytes probe.dst_ip)
          probe.seq_num probe.ttl probe.payload_size probe.timeout_ms w' in
      ground (arith, fits)

  l3_ping_fits :
      ((a m g : Ip) (probe : Probe) (w : W) → (ip4 a m g probe w).0.rtt_us < 2 ^ 32)
      → (probe : Probe) (w : W)
      → (l3_ping (raw_network d raw tx_buf ip4) p nic config probe w).0.rtt_us < 2 ^ 32
  unfolding l3_ping
  l3_ping_fits fits probe w =
      let x = ip4 nic.ipv4_address nic.subnet_mask nic.gateway probe w in
      ground (
        arith,
        fits nic.ipv4_address nic.subnet_mask nic.gateway probe w,
        ping_via_snp_fits probe w,
        ping_via_snp_fits probe x.1,
      )

  -- Over the raw exchanges of the program, and an IP4 protocol whose times fit 32 bits, the report of
  -- TestL3IcmpSweep is the one of the echo replies to its pings.
  pub test_l3_icmp_sweep-raw_network :
      (q : TestPrinter)
      → ((a m g : Ip) (probe : Probe) (w : W) → (ip4 a m g probe w).0.rtt_us < 2 ^ 32)
      → (w : W)
      → IsReport
          (sweep_count config.iterations)
          (echo_times
            (raw_network d raw tx_buf ip4)
            p
            q
            nic
            config
            (sweep_count config.iterations)
            0
            w)
          (test_l3_icmp_sweep (raw_network d raw tx_buf ip4) p q nic config zero_result w).1
  test_l3_icmp_sweep-raw_network q fits w =
      (test_l3_icmp_sweep_lem (raw_network d raw tx_buf ip4) p q nic config (l3_ping_fits fits) w).1
