-- ===== src/Companion/Connect.antt =====
-- The handshake of Source/CompanionLink.c (CompanionConnect) as a whole.
use ddtsoft_net_test.Base.{
  ℕ, zero, suc, ◌+◌, ◌<◌, ◌≡◌, ◌∙◌, refl, ap, arith, true, false, Option, some, Bool-cases, inl,
  inr, Bytes,
}
use ddtsoft_net_test.Efi.{EfiStatus, success, unsupported, device_error, timeout, efi_error}
use ddtsoft_net_test.Runner.{codes}
use ddtsoft_net_test.Companion.{
  Link, connecting, companion_error, Driver, Printer, max_msg_size, starts_with, send_command,
  receive_response, connect_loop, connect,
}
use ddtsoft_net_test.Companion.Attempts.{
  send_pending, send_command-IsSamePeer, Outcome, shaken, refused, connect_unsent,
  connect_unanswered, connect_ack, connect_error, connect_unexpected,
}
use ddtsoft_net_test.Companion.Receive.{IsDelivered, receive_response-IsDelivered}
use ddtsoft_net_test.Companion.Ends.{HasPending, receive_response_ends}

module _ {W : Type 0} (d : Driver W) (p : Printer) (pending : W → ℕ)
    (h : HasPending d pending) where
  abbrev Ending : ℕ → Link → W → Option (EfiStatus × Link × W) → Type 0
  Ending fuel link w run =
      (s : EfiStatus) × (l' : Link) × (w' : W) × (run ≡ some (s, l', w')) × Outcome d p link s l'

  -- An attempt that starts from a later link with the same peer.
  later :
      (link l2 : Link) {s : EfiStatus} {l' : Link}
      → l2.companion_ip ≡ link.companion_ip
      → l2.port ≡ link.port
      → Outcome d p l2 s l'
      → Outcome d p link s l'
  later link l2 ip port (shaken l' k) = shaken l' (record {
    is_connected = k.is_connected;
    listener = k.listener;
    ip_same = k.ip_same ∙ ip;
    port_same = k.port_same ∙ port;
    response = k.response;
    delivered = k.delivered;
    ack = k.ack;
  })
  later link l2 ip port (refused s l' e f) = refused s l' e f

  success-IsDelivered :
      (fuel : ℕ) (link : Link) (w : W) (s : EfiStatus) (l2 : Link) (r : Bytes) (w2 : W)
      → receive_response d p fuel link (λ k. 0) max_msg_size 2000 w ≡ some (s, l2, r, w2)
      → s ≡ success
      → IsDelivered d link r max_msg_size
  success-IsDelivered fuel link w s l2 r w2 got ok =
      receive_response-IsDelivered d p fuel link (λ k. 0) max_msg_size 2000 w l2 r w2
        (got ∙ ap (λ (x : EfiStatus). some (x, l2, r, w2)) ok)

  connect_loop_ends :
      (fuel left attempt : ℕ) (link : Link) (w : W)
      → pending w + 2000 < fuel
      → Ending fuel link w (connect_loop d p fuel left attempt link w)
  connect_loop_ends fuel zero attempt link w lt =
      let l' = record link { state = companion_error } in
      (timeout, l', w, unfold connect_loop in refl, refused timeout l' refl refl)
  connect_loop_ends fuel (suc left) attempt link w lt =
      let greeted = record link { status_msg = p.hello_attempt (attempt + 1) } in
      let sent = send_command d p greeted (codes "HELLO DDTSoft 1.0\n") w in
      let less = send_pending d p pending h greeted (codes "HELLO DDTSoft 1.0\n") w in
      let peer = send_command-IsSamePeer d p greeted (codes "HELLO DDTSoft 1.0\n") w in
      elim (Bool-cases (efi_error sent.0)) [
        | inl bad ↦
            let (s, l', w', run, out) =
              connect_loop_ends fuel left (attempt + 1) sent.1 (d.stall 1000000 sent.2)
                (omega (arith, less, h.stalls 1000000 sent.2)) in
            (
              s,
              l',
              w',
              connect_unsent d p fuel left attempt link w bad ∙ run,
              later link sent.1 peer.ip_same peer.port_same out,
            )
        | inr good ↦
            let (s, l2, r, w2, got, end, less2, peer2) =
              receive_response_ends d p pending h fuel sent.1 (λ k. 0) max_msg_size 2000 sent.2
                (omega (arith, less)) in
            let again : Ending fuel link w (connect_loop d p fuel left (attempt + 1) l2 w2) =
              let (s', l', w', run, out) =
                connect_loop_ends fuel left (attempt + 1) l2 w2 (omega (arith, less, less2)) in
              (
                s',
                l',
                w',
                run,
                later link l2 (peer2.ip_same ∙ peer.ip_same) (peer2.port_same ∙ peer.port_same) out,
              ) in
            elim end [
              | inr bad ↦
                  rw (connect_unanswered d p fuel left attempt link w s l2 r w2 good got bad) again
              | inl ok ↦
                  let fine : efi_error s ≡ false = ap efi_error ok in
                  elim (Bool-cases (starts_with r 0 (codes "ACK"))) [
                    | inl ack ↦ (
                      success,
                      _,
                      w2,
                      connect_ack d p fuel left attempt link w s l2 r w2 good got fine ack,
                      shaken _ (record {
                        is_connected = refl;
                        listener = sent.1;
                        ip_same = peer.ip_same;
                        port_same = peer.port_same;
                        response = r;
                        delivered = success-IsDelivered fuel sent.1 sent.2 s l2 r w2 got ok;
                        ack = ack;
                      }),
                    )
                    | inr nack ↦ elim (Bool-cases (starts_with r 0 (codes "ERROR"))) [
                      | inl err ↦ (
                        device_error,
                        _,
                        w2,
                        connect_error d p fuel left attempt link w s l2 r w2 good got fine nack err,
                        refused device_error _ refl refl,
                      )
                      | inr odd ↦
                          rw
                            (connect_unexpected d p fuel left attempt link w s l2 r w2 good got fine
                              nack odd)
                            again
                    ]
                  ]
            ]
      ]

  -- CompanionConnect on an initialized link ends, if finitely many frames wait at the driver. It
  -- reports success exactly with the state CONNECTED, and then the companion has sent an ACK from its
  -- address to the link's port; in every other case it reports an error, and the state is ERROR.
  pub connect_lem :
      (fuel : ℕ) (link : Link) (w : W)
      → link.udp4 ≡ true
      → pending w + 2000 < fuel
      → (s : EfiStatus) × (l' : Link) × (w' : W) × (connect d p fuel link w ≡ some (s, l', w'))
        × Outcome d p link s l'
  connect_lem fuel link w up lt = elim (Bool-cases link.mnp) [
    | inr off ↦
        let l' = record link {
          state = companion_error;
          status_msg = codes "MNP not available for receive";
        } in
        (
          unsupported,
          l',
          w,
          unfold connect in ground (arith, up, off),
          refused unsupported l' refl refl,
        )
    | inl on ↦
        let start = record link { state = connecting } in
        let (s, l', w', run, out) = connect_loop_ends fuel 3 0 start w lt in
        (s, l', w', unfold connect in ground (arith, up, on, run), later link start refl refl out)
  ]
