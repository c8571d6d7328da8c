-- ===== src/Layer4/Child/Held.antt =====
-- The TCP children and the events that the helpers of Source/Layer4Transport.c make and give back, and
-- the end of their waits.
use ddtsoft_net_test.Base.{
  ℕ, zero, suc, ◌-◌, ◌*◌, ◌≤◌, ◌<◌, ◌≡◌, ◌≢◌, refl, ◌∙◌, inl, inr, arith, Bool-cases, true, false,
  Option, none, some, List, ◌∷◌,
}
use ddtsoft_net_test.Efi.{EfiStatus, efi_error}
use ddtsoft_net_test.Layer4.Child.{
  Tcp, TcpConfig, is_not_ready, is_success, timed_out, wait_loop, finish_token, await_token,
  run_token, l4_tcp_connect, l4_tcp_close, l4_create_tcp_child, l4_destroy_tcp_child,
}

-- What CreateChild and CreateEvent give, under its handle.
pub data Resource : Type 0 where
  tcp_child boot_event : ℕ → Resource

-- What UEFI documents of the services. `held` lists what was created and is not destroyed or closed
-- yet, the newest first, and `time_left` the milliseconds until a timer fires: CreateChild and
-- CreateEvent add what they create, with a handle that is not NULL, and nothing when they fail;
-- DestroyChild and CloseEvent take away the handle that they are given; the other services change
-- neither. SetTimer counts in 100 ns, CheckEvent succeeds once the time is over, and a stall of
-- 1000 microseconds brings a timer one millisecond nearer. Two facts are assumptions on the run: the
-- NIC keeps or lacks its service binding throughout, and timers can be created.
pub record IsFirmware {W : Type 0} (d : Tcp W) (held : W → List Resource) (time_left : ℕ → W → ℕ)
    : Type 0 where
  pub sb_stays : (w w' : W) → d.find_tcp_sb w ≡ d.find_tcp_sb w'
  pub child_made :
      (w : W)
      → efi_error (d.create_child w).0.0 ≡ false
      → held (d.create_child w).1 ≡ Resource.tcp_child (d.create_child w).0.1 ∷ held w
  pub child_handle : (w : W) → efi_error (d.create_child w).0.0 ≡ false → (d.create_child w).0.1 ≢ 0
  pub child_failed :
      (w : W) → efi_error (d.create_child w).0.0 ≡ true → held (d.create_child w).1 ≡ held w
  pub child_destroyed :
      (c : ℕ) (rest : List Resource) (w : W)
      → held w ≡ Resource.tcp_child c ∷ rest
      → held (d.destroy_child c w) ≡ rest
  pub event_made :
      (w : W)
      → efi_error (d.create_event w).0.0 ≡ false
      → held (d.create_event w).1 ≡ Resource.boot_event (d.create_event w).0.1 ∷ held w
  pub event_failed :
      (w : W) → efi_error (d.create_event w).0.0 ≡ true → held (d.create_event w).1 ≡ held w
  pub event_closed :
      (e : ℕ) (rest : List Resource) (w : W)
      → held w ≡ Resource.boot_event e ∷ rest
      → held (d.close_event e w) ≡ rest
  pub timer_created : (w : W) → efi_error (d.create_timer w).0.0 ≡ false
  pub timer_made :
      (w : W) → held (d.create_timer w).1 ≡ Resource.boot_event (d.create_timer w).0.1 ∷ held w
  pub timer_handle : (w : W) → (d.create_timer w).0.1 ≢ 0
  pub timer_set : (e t : ℕ) (w : W) → time_left e (d.set_timer e (t * 10000) w) ≤ t
  pub timer_polled : (e tcp4 : ℕ) (w : W) → time_left e (d.poll tcp4 w) ≤ time_left e w
  pub timer_running : (e : ℕ) (w : W) → is_success (d.check_event e w).0 ≡ false → 0 < time_left e w
  pub timer_checked : (e : ℕ) (w : W) → time_left e (d.check_event e w).1 ≤ time_left e w
  pub timer_runs : (e : ℕ) (w : W) → time_left e (d.stall 1000 w) ≤ time_left e w - 1
  pub configuring :
      (tcp4 : ℕ) (c : Option TcpConfig) (w : W) → held (d.configure tcp4 c w).1 ≡ held w
  pub connecting : (tcp4 e : ℕ) (w : W) → held (d.connect tcp4 e w).1 ≡ held w
  pub closing : (tcp4 e : ℕ) (w : W) → held (d.close tcp4 e w).1 ≡ held w
  pub polling : (tcp4 : ℕ) (w : W) → held (d.poll tcp4 w) ≡ held w
  pub cancelling : (tcp4 e : ℕ) (w : W) → held (d.cancel tcp4 e w) ≡ held w
  pub setting : (e t : ℕ) (w : W) → held (d.set_timer e t w) ≡ held w
  pub checking : (e : ℕ) (w : W) → held (d.check_event e w).1 ≡ held w
  pub stalling : (t : ℕ) (w : W) → held (d.stall t w) ≡ held w

module _ {W : Type 0} (d : Tcp W) (held : W → List Resource) (time_left : ℕ → W → ℕ)
    (k : IsFirmware d held time_left) where
  wait_loop_lem :
      (fuel tcp4 event timer : ℕ) (w : W)
      → timer ≢ 0
      → time_left timer w < fuel
      → (w' : W) × (wait_loop d fuel tcp4 event timer w ≡ some w') × (held w' ≡ held w)
  unfolding wait_loop timed_out
  wait_loop_lem zero tcp4 event timer w real lt = absurd (omega arith)
  wait_loop_lem (suc fuel) tcp4 event timer w real lt =
      let w0 = d.poll tcp4 w in
      let w1 = (d.check_event timer w0).1 in
      let same : held w1 ≡ held w = k.checking timer w0 ∙ k.polling tcp4 w in
      elim (Bool-cases (is_not_ready (d.token event w))) [
        | inr ready ↦ (w, ground (arith, ready), refl)
        | inl waits ↦ elim (Bool-cases (is_success (d.check_event timer w0).0)) [
          | inl fired ↦ (w1, ground (arith, waits, fired, real), same)
          | inr running ↦
              let w2 = d.stall 1000 w1 in
              let less : time_left timer w2 < fuel = omega (
                arith,
                k.timer_runs timer w1,
                k.timer_checked timer w0,
                k.timer_polled timer tcp4 w,
                k.timer_running timer w0 running,
                lt,
              ) in
              let (w', ends, kept) = wait_loop_lem fuel tcp4 event timer w2 real less in
              (w', ground (arith, waits, running, real, ends), kept ∙ k.stalling 1000 w1 ∙ same)
        ]
      ]

  finish_token_lem :
      (tcp4 event : ℕ) (rest : List Resource) (w : W)
      → held w ≡ Resource.boot_event event ∷ rest
      → held (finish_token d tcp4 event w).1 ≡ rest
  unfolding finish_token
  finish_token_lem tcp4 event rest w h =
      let w1 = d.cancel tcp4 event w in
      let w2 = d.poll tcp4 w1 in
      let kept : held w2 ≡ Resource.boot_event event ∷ rest =
        k.polling tcp4 w1 ∙ k.cancelling tcp4 event w ∙ h in
      ground (arith, k.event_closed event rest w h, k.event_closed event rest w2 kept)

  finish_token_done :
      (tcp4 event : ℕ) (w : W)
      → efi_error (finish_token d tcp4 event w).0 ≡ false
      → d.token event w ≡ (finish_token d tcp4 event w).0
  unfolding finish_token
  finish_token_done tcp4 event w h = ground (arith, h)

  await_token_lem :
      (tcp4 event t : ℕ) (rest : List Resource) (w : W)
      → held w ≡ Resource.boot_event event ∷ rest
      → (s : EfiStatus) × (w' : W) × (await_token d tcp4 event t w ≡ some (s, w'))
        × (held w' ≡ rest)
        × (efi_error s ≡ false → (v : W) × (d.token event v ≡ s))
  unfolding await_token
  await_token_lem tcp4 event t rest w h =
      let ((status, timer), w1) = d.create_timer w in
      let w2 = d.set_timer timer (t * 10000) w1 in
      let real = k.timer_handle w in
      let (w3, ends, kept) =
        wait_loop_lem (suc (suc t)) tcp4 event timer w2 real
          (omega (arith, k.timer_set timer t w1)) in
      let with_timer : held w3 ≡ Resource.boot_event timer ∷ held w =
        kept ∙ k.setting timer (t * 10000) w1 ∙ k.timer_made w in
      let w4 = d.close_event timer w3 in
      let closed : held w4 ≡ Resource.boot_event event ∷ rest =
        k.event_closed timer (held w) w3 with_timer ∙ h in
      let out = finish_token d tcp4 event w4 in
      (
        out.0,
        out.1,
        ground (arith, k.timer_created w, real, ends),
        finish_token_lem tcp4 event rest w4 closed,
        λ fine. (w4, finish_token_done tcp4 event w4 fine),
      )

  run_token_lem :
      (tcp4 : ℕ) (start : ℕ → W → EfiStatus × W) (t : ℕ) (w : W)
      → ((e : ℕ) (v : W) → held (start e v).1 ≡ held v)
      → (s : EfiStatus) × (w' : W) × (run_token d tcp4 start t w ≡ some (s, w'))
        × (held w' ≡ held w)
        × (efi_error s ≡ false → (v : W) × (d.token (d.create_event w).0.1 v ≡ s))
  unfolding run_token
  run_token_lem tcp4 start t w keeps =
      let ((made, event), w1) = d.create_event w in
      let (status, w2) = start event w1 in
      elim (Bool-cases (efi_error made)) [
        | inl fails ↦ (
          made,
          w1,
          ground (arith, fails),
          k.event_failed w fails,
          λ fine. absurd (ground (arith, fails, fine)),
        )
        | inr works ↦
            let one : held w2 ≡ Resource.boot_event event ∷ held w =
              keeps event w1 ∙ k.event_made w works in
            elim (Bool-cases (efi_error status)) [
              | inl refused ↦ (
                status,
                d.close_event event w2,
                ground (arith, works, refused),
                k.event_closed event (held w) w2 one,
                λ fine. absurd (ground (arith, refused, fine)),
              )
              | inr started ↦
                  let (s, w', ends, kept, done) = await_token_lem tcp4 event t (held w) w2 one in
                  (s, w', ground (arith, works, started, ends), kept, done)
            ]
      ]

  -- A connection attempt ends, and gives back its events. Without an error, its status is what the
  -- firmware put into the token of the event that was created for it.
  pub l4_tcp_connect_lem :
      (tcp4 : ℕ) (c : TcpConfig) (t : ℕ) (w : W)
      → (s : EfiStatus) × (w' : W) × (l4_tcp_connect d tcp4 c t w ≡ some (s, w'))
        × (held w' ≡ held w)
        × (efi_error s ≡ false
            → (v : W) × (d.token (d.create_event (d.configure tcp4 (some c) w).1).0.1 v ≡ s))
  unfolding l4_tcp_connect
  l4_tcp_connect_lem tcp4 c t w =
      let (status, w1) = d.configure tcp4 (some c) w in
      elim (Bool-cases (efi_error status)) [
        | inl fails ↦ (
          status,
          w1,
          ground (arith, fails),
          k.configuring tcp4 (some c) w,
          λ fine. absurd (ground (arith, fails, fine)),
        )
        | inr works ↦
            let (s, w', ends, kept, done) =
              run_token_lem tcp4 (d.connect tcp4) t w1 (λ e v. k.connecting tcp4 e v) in
            (s, w', ground (arith, works, ends), kept ∙ k.configuring tcp4 (some c) w, done)
      ]

  -- The end of a connection too.
  pub l4_tcp_close_lem :
      (tcp4 t : ℕ) (w : W)
      → (s : EfiStatus) × (w' : W) × (l4_tcp_close d tcp4 t w ≡ some (s, w')) × (held w' ≡ held w)
  unfolding l4_tcp_close
  l4_tcp_close_lem tcp4 t w =
      let (s, w', ends, kept, done) =
        run_token_lem tcp4 (d.close tcp4) t w (λ e v. k.closing tcp4 e v) in
      (s, w', ends, kept)

  -- A child that cannot be made leaves nothing behind.
  pub l4_create_tcp_child_failed :
      (w : W)
      → efi_error (l4_create_tcp_child d w).0.0 ≡ true
      → held (l4_create_tcp_child d w).1 ≡ held w
  unfolding l4_create_tcp_child
  l4_create_tcp_child_failed w h =
      let ((made, c), w1) = d.create_child w in
      elim (Bool-cases (efi_error (d.find_tcp_sb w))) [
        | inl unbound ↦ ground (arith, unbound)
        | inr bound ↦ elim (Bool-cases (efi_error made)) [
          | inl fails ↦ ground (arith, bound, fails, k.child_failed w fails)
          | inr works ↦
              let gone = k.child_destroyed c (held w) w1 (k.child_made w works) in
              ground (arith, bound, works, h, gone)
        ]
      ]

  -- A child that is made is held under the handle that L4CreateTcpChild gives.
  pub l4_create_tcp_child_made :
      (w : W)
      → efi_error (l4_create_tcp_child d w).0.0 ≡ false
      → (held (l4_create_tcp_child d w).1
          ≡ Resource.tcp_child (l4_create_tcp_child d w).0.1 ∷ held w)
        × ((l4_create_tcp_child d w).0.1 ≢ 0)
        × (efi_error (d.find_tcp_sb w) ≡ false)
  unfolding l4_create_tcp_child
  l4_create_tcp_child_made w h =
      let made = (d.create_child w).0.0 in
      let bound : efi_error (d.find_tcp_sb w) ≡ false = ground (arith, h) in
      let works : efi_error made ≡ false = ground (arith, h) in
      (
        ground (arith, bound, works, h, k.child_made w works),
        ground (arith, bound, works, h, k.child_handle w works),
        bound,
      )

  -- L4DestroyTcpChild takes it away, where the NIC has its service binding.
  pub l4_destroy_tcp_child_lem :
      (c tcp4 : ℕ) (rest : List Resource) (w : W)
      → c ≢ 0
      → efi_error (d.find_tcp_sb w) ≡ false
      → held w ≡ Resource.tcp_child c ∷ rest
      → held (l4_destroy_tcp_child d c tcp4 w) ≡ rest
  unfolding l4_destroy_tcp_child
  l4_destroy_tcp_child_lem c tcp4 rest w real bound h =
      let w1 = (d.configure tcp4 none w).1 in
      let kept : held w1 ≡ Resource.tcp_child c ∷ rest = k.configuring tcp4 none w ∙ h in
      ground (
        arith,
        real,
        bound,
        k.sb_stays w w1,
        k.child_destroyed c rest w h,
        k.child_destroyed c rest w1 kept,
      )
