-- ===== src/Companion/Attempts.antt =====
-- One attempt of the handshake in CompanionConnect: what it sends, and how it goes on.
use ddtsoft_net_test.Base.{ℕ, zero, suc, ◌+◌, ◌≤◌, ◌≡◌, arith, Bool, true, false, some, Bytes}
use ddtsoft_net_test.Efi.{EfiStatus, success, device_error, efi_error}
use ddtsoft_net_test.Runner.{Text, codes}
use ddtsoft_net_test.Companion.{
  Link, connected, companion_error, Driver, Printer, max_msg_size, starts_with, polls,
  transmit_loop, wait_token, send_command, receive_response, connect_loop,
}
use ddtsoft_net_test.Companion.Receive.{IsDelivered}
use ddtsoft_net_test.Companion.Ends.{IsSamePeer, HasPending}

module _ {W : Type 0} (d : Driver W) (p : Printer) (pending : W → ℕ)
    (h : HasPending d pending) where
  polls_pending : (n : ℕ) (w : W) → pending (polls d p n w) ≤ pending w
  unfolding polls
  polls_pending zero w = omega arith
  polls_pending (suc n) w =
      omega
        (arith, polls_pending n (d.stall 30000 (d.poll w)), h.stalls 30000 (d.poll w), h.polls w)

  transmit_pending :
      (tries : ℕ) (retry : Bool) (link : Link) (m : Text) (w : W)
      → pending (transmit_loop d p tries retry link m w).1 ≤ pending w
  unfolding transmit_loop
  transmit_pending zero retry link m w = omega arith
  transmit_pending (suc tries) true link m w =
      let w' = polls d p 10 w in
      ground (
        arith,
        polls_pending 10 w,
        h.transmits link.companion_ip link.port m w',
        transmit_pending tries true link m (d.transmit link.companion_ip link.port m w').1,
      )
  transmit_pending (suc tries) false link m w = ground (
    arith,
    h.transmits link.companion_ip link.port m w,
    transmit_pending tries true link m (d.transmit link.companion_ip link.port m w).1,
  )

  wait_pending : (ms : ℕ) (w : W) → pending (wait_token d p ms w) ≤ pending w
  unfolding wait_token
  wait_pending zero w = omega arith
  wait_pending (suc ms) w =
      ground (arith, wait_pending ms (d.stall 1000 (d.poll w)), h.stalls 1000 (d.poll w), h.polls w)

  pub send_pending :
      (link : Link) (m : Text) (w : W) → pending (send_command d p link m w).2 ≤ pending w
  unfolding send_command
  send_pending link m w =
      let event = d.create_event w in
      let sent = transmit_loop d p 8 false link m event.1 in
      let w' = wait_token d p link.timeout_ms sent.1 in
      ground (
        arith,
        h.creates w,
        transmit_pending 8 false link m event.1,
        h.closes sent.1,
        wait_pending link.timeout_ms sent.1,
        h.cancels w',
        h.closes (d.cancel w'),
        h.closes w',
      )

module _ {W : Type 0} (d : Driver W) (p : Printer) where
  pub send_command-IsSamePeer :
      (link : Link) (m : Text) (w : W) → IsSamePeer link (send_command d p link m w).1
  unfolding send_command
  send_command-IsSamePeer link m w = record {
    state_same = ground arith;
    ip_same = ground arith;
    port_same = ground arith;
  }

  -- A handshake that succeeded: the companion, under the link's address and port, sent an ACK.
  pub record IsShaken (link l' : Link) : Type 0 where
    pub is_connected : l'.state ≡ connected
    pub listener : Link
    pub ip_same : listener.companion_ip ≡ link.companion_ip
    pub port_same : listener.port ≡ link.port
    pub response : Bytes
    pub delivered : IsDelivered d listener response max_msg_size
    pub ack : starts_with response 0 (codes "ACK") ≡ true

  pub data Outcome (link : Link) : EfiStatus → Link → Type 0 where
    shaken : (l' : Link) → IsShaken link l' → Outcome link success l'
    refused :
        (s : EfiStatus) (l' : Link)
        → efi_error s ≡ true
        → l'.state ≡ companion_error
        → Outcome link s l'

  -- How one attempt goes on.
  module _ (fuel left attempt : ℕ) (link : Link) (w : W) where
    abbrev pub hello : EfiStatus × Link × W
    hello =
        send_command d p (record link { status_msg = p.hello_attempt (attempt + 1) })
          (codes "HELLO DDTSoft 1.0\n") w

    pub connect_unsent :
        efi_error hello.0 ≡ true
        → connect_loop d p fuel (suc left) attempt link w
          ≡ connect_loop d p fuel left (attempt + 1) hello.1 (d.stall 1000000 hello.2)
    unfolding connect_loop
    connect_unsent e = ground (arith, e)

    module _ (s : EfiStatus) (l' : Link) (r : Bytes) (w' : W) (sent : efi_error hello.0 ≡ false)
        (got : receive_response d p fuel hello.1 (λ k. 0) max_msg_size 2000 hello.2
          ≡ some (s, l', r, w')) where
      pub connect_unanswered :
          efi_error s ≡ true
          → connect_loop d p fuel (suc left) attempt link w
            ≡ connect_loop d p fuel left (attempt + 1) l' w'
      unfolding connect_loop
      connect_unanswered e = ground (arith, sent, got, e)

      pub connect_ack :
          efi_error s ≡ false
          → starts_with r 0 (codes "ACK") ≡ true
          → connect_loop d p fuel (suc left) attempt link w
            ≡ some (
              success,
              record l' { state = connected; status_msg = codes "Connected to companion" },
              w',
            )
      unfolding connect_loop
      connect_ack e a = ground (arith, sent, got, e, a)

      pub connect_error :
          efi_error s ≡ false
          → starts_with r 0 (codes "ACK") ≡ false
          → starts_with r 0 (codes "ERROR") ≡ true
          → connect_loop d p fuel (suc left) attempt link w
            ≡ some (
              device_error,
              record l' { state = companion_error; status_msg = codes "Companion returned error" },
              w',
            )
      unfolding connect_loop
      connect_error e a b = ground (arith, sent, got, e, a, b)

      pub connect_unexpected :
          efi_error s ≡ false
          → starts_with r 0 (codes "ACK") ≡ false
          → starts_with r 0 (codes "ERROR") ≡ false
          → connect_loop d p fuel (suc left) attempt link w
            ≡ connect_loop d p fuel left (attempt + 1) l' w'
      unfolding connect_loop
      connect_unexpected e a b = ground (arith, sent, got, e, a, b)
