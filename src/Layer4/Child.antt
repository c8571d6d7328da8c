-- ===== src/Layer4/Child.antt =====
-- Source/Layer4Transport.c: L4CreateTcpChild, L4DestroyTcpChild, L4TcpConnect and L4TcpClose over the
-- firmware's services, which are parameters.
pub mod Held
use ddtsoft_net_test.Base.{
  ℕ, zero, suc, ◌*◌, Bool, true, false, Option, none, some, ◌==◌, if◌then◌else◌,
}
use ddtsoft_net_test.Efi.{EfiStatus, success, not_ready, timeout, efi_error}
use ddtsoft_net_test.Layer3.{Ip}

-- EFI_TCP4_CONFIG_DATA, as far as it is not zero.
pub record TcpConfig : Type 0 where
  pub time_to_live : ℕ
  pub station_address : Ip
  pub subnet_mask : Ip
  pub station_port : ℕ
  pub remote_address : Ip
  pub remote_port : ℕ
  pub active_flag : Bool

-- The boot services and the protocols TCP4 and TCP4 service binding. Handles, events and interfaces are
-- numbers, and 0 is NULL. `find_tcp_sb` and `open_tcp4` are HandleProtocol on the NIC and on a child;
-- `token` is the status in the completion token of an event, which `connect` and `close` start with
-- EFI_NOT_READY and the firmware sets when the operation is done.
pub record Tcp (W : Type 0) : Type 0 where
  pub find_tcp_sb : W → EfiStatus
  pub create_child : W → (EfiStatus × ℕ) × W
  pub open_tcp4 : ℕ → W → EfiStatus × ℕ
  pub destroy_child : ℕ → W → W
  pub configure : ℕ → Option TcpConfig → W → EfiStatus × W
  pub create_event : W → (EfiStatus × ℕ) × W
  pub create_timer : W → (EfiStatus × ℕ) × W
  pub set_timer : ℕ → ℕ → W → W
  pub check_event : ℕ → W → EfiStatus × W
  pub close_event : ℕ → W → W
  pub connect : ℕ → ℕ → W → EfiStatus × W
  pub close : ℕ → ℕ → W → EfiStatus × W
  pub token : ℕ → W → EfiStatus
  pub poll : ℕ → W → W
  pub cancel : ℕ → ℕ → W → W
  pub stall : ℕ → W → W

-- `Status == EFI_NOT_READY` and `Status == EFI_SUCCESS`
abbrev pub is_not_ready : EfiStatus → Bool
is_not_ready EfiStatus.not_ready = true
is_not_ready _ = false

abbrev pub is_success : EfiStatus → Bool
is_success EfiStatus.success = true
is_success _ = false

-- TcpConfig of L4TcpConnect.
unfoldable pub tcp_config : Ip → Ip → Ip → ℕ → ℕ → TcpConfig
tcp_config local_ip remote_ip mask local_port remote_port = record {
  time_to_live = 64;
  station_address = local_ip;
  subnet_mask = mask;
  station_port = local_port;
  remote_address = remote_ip;
  remote_port = remote_port;
  active_flag = true;
}

module _ {W : Type 0} (d : Tcp W) where
  -- L4CreateTcpChild: the status, *ChildHandle and *Tcp4.
  unfoldable pub l4_create_tcp_child : W → (EfiStatus × ℕ × ℕ) × W
  l4_create_tcp_child w =
      let ((made, child), w1) = d.create_child w in
      let (opened, tcp4) = d.open_tcp4 child w1 in
      if efi_error (d.find_tcp_sb w)
      then ((d.find_tcp_sb w, 0, 0), w)
      else if efi_error made
      then ((made, child, 0), w1)
      else if efi_error opened
      then ((opened, 0, tcp4), d.destroy_child child w1)
      else ((success, child, tcp4), w1)

  -- L4DestroyTcpChild
  unfoldable pub l4_destroy_tcp_child : ℕ → ℕ → W → W
  l4_destroy_tcp_child child tcp4 w =
      let w1 = if tcp4 == 0 then w else (d.configure tcp4 none w).1 in
      if child == 0
      then w1
      else if efi_error (d.find_tcp_sb w1)
      then w1
      else d.destroy_child child w1

  -- `TimerEvent != NULL && gBS->CheckEvent (TimerEvent) == EFI_SUCCESS`
  unfoldable pub timed_out : ℕ → W → Bool × W
  timed_out timer w =
      let (status, w1) = d.check_event timer w in
      if timer == 0 then (false, w) else (is_success status, w1)

  -- The loop that polls until the token is set or the timer fires, with fuel.
  unfoldable pub wait_loop : ℕ → ℕ → ℕ → ℕ → W → Option W
  wait_loop zero tcp4 event timer w = none
  wait_loop (suc fuel) tcp4 event timer w = elim (is_not_ready (d.token event w)) [
    | false ↦ some w
    | true ↦
        let (fired, w1) = timed_out timer (d.poll tcp4 w) in
        elim fired [ true ↦ some w1 | false ↦ wait_loop fuel tcp4 event timer (d.stall 1000 w1) ]
  ]

  -- After the wait: a token that is not set is cancelled.
  unfoldable pub finish_token : ℕ → ℕ → W → EfiStatus × W
  finish_token tcp4 event w =
      if is_not_ready (d.token event w)
      then (timeout, d.close_event event (d.poll tcp4 (d.cancel tcp4 event w)))
      else (d.token event w, d.close_event event w)

  -- The timer, the wait, and the status of the token. The fuel is one round for each millisecond of the
  -- timeout, and two more.
  unfoldable pub await_token : ℕ → ℕ → ℕ → W → Option (EfiStatus × W)
  await_token tcp4 event timeout_ms w =
      let ((timer_status, created), w1) = d.create_timer w in
      let timer = if efi_error timer_status then 0 else created in
      let w2 = if efi_error timer_status then w1 else d.set_timer created (timeout_ms * 10000) w1 in
      elim (wait_loop (suc (suc timeout_ms)) tcp4 event timer w2) [
        | none ↦ none
        | some w3 ↦
            some (finish_token tcp4 event (if timer == 0 then w3 else d.close_event timer w3))
      ]

  -- What L4TcpConnect and L4TcpClose have in common: an event, an operation that starts with it, and
  -- the wait for its token.
  unfoldable pub run_token : ℕ → (ℕ → W → EfiStatus × W) → ℕ → W → Option (EfiStatus × W)
  run_token tcp4 start timeout_ms w =
      let ((made, event), w1) = d.create_event w in
      let (status, w2) = start event w1 in
      if efi_error made
      then some (made, w1)
      else if efi_error status
      then some (status, d.close_event event w2)
      else await_token tcp4 event timeout_ms w2

  -- L4TcpConnect
  unfoldable pub l4_tcp_connect : ℕ → TcpConfig → ℕ → W → Option (EfiStatus × W)
  l4_tcp_connect tcp4 config timeout_ms w =
      let (status, w1) = d.configure tcp4 (some config) w in
      if efi_error status then some (status, w1) else run_token tcp4 (d.connect tcp4) timeout_ms w1

  -- L4TcpClose
  unfoldable pub l4_tcp_close : ℕ → ℕ → W → Option (EfiStatus × W)
  l4_tcp_close tcp4 timeout_ms w = run_token tcp4 (d.close tcp4) timeout_ms w
