-- ===== src/Stress.antt =====
-- Source/StressTest.c: the statistics, the ICMP and UDP floods, and the silent run.
-- The driver, the clock and the ARP exchange are parameters; the driver's state is passed on. The
-- drawing on the screen is left out, but not what it changes in the statistics.
pub mod Floods
pub mod Samples
mod Examples
use ddtsoft_net_test.Base.{
  ℕ, zero, suc, ◌+◌, ◌-◌, ◌*◌, ◌/◌, ◌%◌, ◌^◌, Bool, true, false, ◌&&◌, Option, none, some, ltb, leb,
  ◌==◌, if◌then◌else◌, Bytes, load16, swap_bytes16, min,
}
use ddtsoft_net_test.Efi.{EfiStatus, efi_error}
use ddtsoft_net_test.Utils.{Time, get_timestamp}

abbrev pub max_rtt_samples : ℕ
max_rtt_samples = 60

-- STRESS_STATS. `rtt_samples` is the array RttSamples.
pub record StressStats : Type 0 where
  pub packets_sent : ℕ
  pub packets_received : ℕ
  pub bytes_sent : ℕ
  pub bytes_received : ℕ
  pub packets_lost : ℕ
  pub rtt_min_us : ℕ
  pub rtt_max_us : ℕ
  pub rtt_total_us : ℕ
  pub rtt_count : ℕ
  pub rtt_samples : ℕ → ℕ
  pub rtt_sample_idx : ℕ
  pub rtt_sample_count : ℕ
  pub start_time_s : ℕ
  pub last_update_s : ℕ
  pub elapsed_s : ℕ
  pub pps_sent : ℕ
  pub pps_recv : ℕ
  pub bps_sent : ℕ

-- Additions and subtractions on UINT64.
abbrev pub add64 : ℕ → ℕ → ℕ
add64 a b = (a + b) % 2 ^ 64

abbrev pub sub64 : ℕ → ℕ → ℕ
sub64 a b = (a + (2 ^ 64 - b)) % 2 ^ 64

-- StressInitStats at the time `now`
pub init_stats : ℕ → StressStats
init_stats now = record {
  packets_sent = 0;
  packets_received = 0;
  bytes_sent = 0;
  bytes_received = 0;
  packets_lost = 0;
  rtt_min_us = 0xffffffff;
  rtt_max_us = 0;
  rtt_total_us = 0;
  rtt_count = 0;
  rtt_samples = λ i. 0;
  rtt_sample_idx = 0;
  rtt_sample_count = 0;
  start_time_s = now;
  last_update_s = now;
  elapsed_s = 0;
  pps_sent = 0;
  pps_recv = 0;
  bps_sent = 0;
}

-- StressRecordRtt
pub record_rtt : StressStats → ℕ → StressStats
record_rtt s rtt = record s {
  rtt_total_us = add64 s.rtt_total_us rtt;
  rtt_count = (s.rtt_count + 1) % 2 ^ 32;
  rtt_min_us = if ltb rtt s.rtt_min_us then rtt else s.rtt_min_us;
  rtt_max_us = if ltb s.rtt_max_us rtt then rtt else s.rtt_max_us;
  rtt_samples = λ i. if i == s.rtt_sample_idx then rtt else s.rtt_samples i;
  rtt_sample_idx = (s.rtt_sample_idx + 1) % max_rtt_samples;
  rtt_sample_count =
      if ltb s.rtt_sample_count max_rtt_samples then s.rtt_sample_count + 1 else s.rtt_sample_count;
}

-- What StressDrawStats changes, at the time `now`.
pub draw_stats : ℕ → StressStats → StressStats
draw_stats now s =
    let elapsed = sub64 now s.start_time_s in
    let lost =
      if ltb 0 s.packets_sent then sub64 s.packets_sent s.packets_received else s.packets_lost in
    if ltb 0 elapsed
    then record s {
      elapsed_s = elapsed;
      pps_sent = s.packets_sent / elapsed;
      pps_recv = s.packets_received / elapsed;
      bps_sent = s.bytes_sent / elapsed;
      packets_lost = lost;
    }
    else record s { elapsed_s = elapsed; packets_lost = lost }

-- Transmit of a frame's first bytes; GetStatus, which tells whether TxBuf is not NULL; Receive, with
-- the received bytes and their number; Stall; and GetTime.
pub record Driver (W : Type 0) : Type 0 where
  pub transmit : Bytes → ℕ → W → EfiStatus × W
  pub get_status : W → Bool × W
  pub receive : W → (EfiStatus × Bytes × ℕ) × W
  pub stall : ℕ → W → W
  pub get_time : W → (EfiStatus × Time) × W

-- UtilGetTimestamp
abbrev pub timestamp : {W : Type 0} → Driver W → W → ℕ × W
timestamp d w = (get_timestamp (d.get_time w).0, (d.get_time w).1)

-- `Snp->Mode->CurrentAddress`, `Nic->Ipv4Address`, `Config->TargetIp` and the resolved TargetMac.
pub record Ends : Type 0 where
  pub current_address : Bytes
  pub ipv4_address : Bytes
  pub target_ip : Bytes
  pub target_mac : Bytes

-- One iteration's draw, every `n`th time.
abbrev pub draw_every : {W : Type 0} → Driver W → ℕ → ℕ → StressStats → W → StressStats × W
draw_every d n i s w =
    if i % n == 0 then (draw_stats (timestamp d w).0 s, (timestamp d w).1) else (s, w)

-- `(Config->Iterations > 0) ? Config->Iterations : fallback`, and the limit of 10000.
pub iterations : ℕ → ℕ → ℕ
iterations configured fallback = min (if ltb 0 configured then configured else fallback) 10000
