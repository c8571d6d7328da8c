-- ===== src/Companion/Requests/Replies.antt =====
-- What the requests of CompanionLink.c on a connected link return.
use ddtsoft_net_test.Base.{
  ◌*◌, ◌%◌, ◌^◌, ◌⊎◌, false, ℕ, ◌+◌, ◌<◌, ◌≡◌, ◌∙◌, refl, ap, arith, true, Option, some, Bool-cases,
  inl, inr, Bytes,
}
use ddtsoft_net_test.Efi.{EfiStatus, success, efi_error}
use ddtsoft_net_test.Runner.{Text, codes}
use ddtsoft_net_test.Companion.{
  Link, connected, disconnected, Driver, Printer, Exchange, unsent, unanswered, answered,
  max_msg_size, starts_with, send_command,
}
use ddtsoft_net_test.Companion.Requests.{
  judge_prepare, judge_start, judge_stop, judge_result, get_result, prepare_command, exchange,
  prepare, start, stop, disconnect, is_connected, quit,
}
use ddtsoft_net_test.Companion.Receive.{receive_response-IsDelivered}
use ddtsoft_net_test.Companion.Ends.{HasPending, receive_response_ends}
use ddtsoft_net_test.Companion.Attempts.{send_pending, send_command-IsSamePeer}
use ddtsoft_net_test.Companion.Requests.Judged.{
  IsAnswer, Fits, buffer_of, Reply, judge_prepare-Reply, judge_start-Reply, judge_stop-Reply,
  judge_result_state, judge_result_lem,
}

module _ {W : Type 0} (d : Driver W) (p : Printer) (pending : W → ℕ) (h : HasPending d pending)
    (fuel : ℕ) (link : Link) (w : W) where
  exchange_ends :
      (m : Text) (b : Bytes) (size t : ℕ)
      → pending w + t < fuel
      → (x : Exchange) × (l' : Link) × (r' : Bytes) × (w' : W) × (exchange d p fuel link m b size t
            w
          ≡ some (x, l', r', w'))
        × Fits d link size x
        × (l'.state ≡ link.state)
        × (buffer_of x r' ≡ r')
  exchange_ends m b size t lt =
      let sent = send_command d p link m w in
      let peer = send_command-IsSamePeer d p link m w in
      elim (Bool-cases (efi_error sent.0)) [
        | inl bad ↦ (
          unsent sent.0,
          sent.1,
          b,
          sent.2,
          unfold exchange in ground (arith, bad),
          unfold Fits in bad,
          peer.state_same,
          refl,
        )
        | inr good ↦
            let (s, l', r, w', run, end, less, peer2) =
              receive_response_ends d p pending h fuel sent.1 b size t sent.2
                (omega (arith, send_pending d p pending h link m w)) in
            elim end [
              | inr bad ↦ (
                unanswered s,
                l',
                r,
                w',
                unfold exchange in ground (arith, good, run, bad),
                unfold Fits in bad,
                peer2.state_same ∙ peer.state_same,
                refl,
              )
              | inl ok ↦ (
                answered r,
                l',
                r,
                w',
                unfold exchange in ground (arith, good, run, ok),
                unfold Fits in
                    record {
                      listener = sent.1;
                      ip_same = peer.ip_same;
                      port_same = peer.port_same;
                      delivered =
                          receive_response-IsDelivered d p fuel sent.1 b size t sent.2 l' r w'
                            (run ∙ ap (λ (y : EfiStatus). some (y, l', r, w')) ok);
                    },
                peer2.state_same ∙ peer.state_same,
                refl,
              )
            ]
      ]

  -- CompanionPrepare on a connected link ends, if finitely many frames wait at the driver. It reports
  -- success only when an answer from the companion that begins with READY was delivered, in every
  -- other case an error, and the link stays connected.
  pub prepare_lem :
      (layer test : Text) (args : Option Text)
      → link.state ≡ connected
      → pending w + link.timeout_ms < fuel
      → (s : EfiStatus) × (l' : Link) × (w' : W) × (prepare d p fuel link layer test args w
          ≡ some (s, l', w'))
        × Reply d link (codes "READY") s l'
  unfolding prepare
  prepare_lem layer test args c lt =
      let (x, l', r', w', run, fits, same, buf) =
        exchange_ends (prepare_command layer test args) (λ k. 0) max_msg_size link.timeout_ms lt in
      (
        (judge_prepare x l').0,
        (judge_prepare x l').1,
        w',
        ground (arith, c, run),
        judge_prepare-Reply d link l' (same ∙ c) x fits,
      )

  -- CompanionStart on a connected link ends, if finitely many frames wait at the driver. It reports
  -- success only when an answer from the companion that begins with ACK was delivered, in every other
  -- case an error, and the link stays connected.
  pub start_lem :
      link.state ≡ connected
      → pending w + link.timeout_ms < fuel
      → (s : EfiStatus) × (l' : Link) × (w' : W) × (start d p fuel link w ≡ some (s, l', w'))
        × Reply d link (codes "ACK") s l'
  unfolding start
  start_lem c lt =
      let (x, l', r', w', run, fits, same, buf) =
        exchange_ends (codes "START\n") (λ k. 0) max_msg_size link.timeout_ms lt in
      (
        (judge_start x l').0,
        (judge_start x l').1,
        w',
        ground (arith, c, run),
        judge_start-Reply d link l' (same ∙ c) x fits,
      )

  -- CompanionStop on a connected link ends, if finitely many frames wait at the driver. It reports
  -- success only when an answer from the companion that begins with ACK was delivered, in every other
  -- case an error, and the link stays connected.
  pub stop_lem :
      link.state ≡ connected
      → pending w + link.timeout_ms < fuel
      → (s : EfiStatus) × (l' : Link) × (w' : W) × (stop d p fuel link w ≡ some (s, l', w'))
        × Reply d link (codes "ACK") s l'
  unfolding stop
  stop_lem c lt =
      let (x, l', r', w', run, fits, same, buf) =
        exchange_ends (codes "STOP\n") (λ k. 0) max_msg_size link.timeout_ms lt in
      (
        (judge_stop x l').0,
        (judge_stop x l').1,
        w',
        ground (arith, c, run),
        judge_stop-Reply d link l' (same ∙ c) x fits,
      )

  -- CompanionDisconnect on an initialized link ends, if finitely many frames wait at the driver. It
  -- reports success with the state DISCONNECTED, whatever the companion answers.
  pub disconnect_lem :
      link.udp4 ≡ true
      → pending w + 1000 < fuel
      → (l' : Link) × (w' : W) × (disconnect d p fuel link w ≡ some (success, l', w'))
        × (l'.state ≡ disconnected)
  unfolding disconnect
  disconnect_lem up lt =
      let sent = send_command d p link (codes "DONE\n") w in
      elim (Bool-cases (is_connected link.state)) [
        | inr off ↦ (quit link, w, ground (arith, up, off), refl)
        | inl on ↦
            let (s, l2, r, w', run, end, less, peer) =
              receive_response_ends d p pending h fuel sent.1 (λ k. 0) max_msg_size 1000 sent.2
                (omega (arith, send_pending d p pending h link (codes "DONE\n") w)) in
            (quit l2, w', ground (arith, up, on, run), refl)
      ]

  -- CompanionGetResult on a connected link ends, if finitely many frames wait at the driver. It
  -- reports success only with an answer from the companion in the buffer that does not begin with
  -- ERROR, in every other case an error, and the link stays connected.
  pub get_result_lem :
      (b : Bytes) (size : ℕ)
      → link.state ≡ connected
      → pending w + link.timeout_ms * 2 % 2 ^ 32 < fuel
      → (s : EfiStatus) × (l' : Link) × (r : Bytes) × (w' : W) × (get_result d p fuel link b size w
          ≡ some (s, l', r, w'))
        × ((efi_error s ≡ true)
            ⊎ ((s ≡ success) × IsAnswer d link size r × (starts_with r 0 (codes "ERROR") ≡ false)))
        × (l'.state ≡ connected)
  unfolding get_result
  get_result_lem b size c lt =
      let (x, l', r', w', run, fits, same, buf) =
        exchange_ends (codes "RESULT\n") b size (link.timeout_ms * 2 % 2 ^ 32) lt in
      (
        (judge_result x l').0,
        (judge_result x l').1,
        r',
        w',
        ground (arith, c, run),
        judge_result_lem d link l' size x r' fits buf,
        judge_result_state d link l' size x ∙ same ∙ c,
      )
