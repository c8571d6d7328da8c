-- ===== src/Probe/Once.antt =====
-- ProbeExecuteOnce of Source/ProtocolProbe.c, called again and again with the same statistics.
use ddtsoft_net_test.Base.{
  ℕ, zero, suc, ◌+◌, ◌^◌, ◌<◌, ◌≡◌, ◌≢◌, refl, arith, false, none, some, List, [], ◌∷◌, ◌++◌,
  length, length-append, Bytes,
}
use ddtsoft_net_test.Base.Samples.{append_one, append_nil}
use ddtsoft_net_test.Efi.{EfiStatus, success, unsupported}
use ddtsoft_net_test.Probe.{
  ProbeProtocol, probe_max, ProbeStats, ProbeNic, Exchange, init_probe, record_result, record_pass,
  verdict, dispatch, execute_once, count32, is_available, probe_arp_once, status_fail,
}
use ddtsoft_net_test.Probe.Samples.{
  Recorded, replies-losses, init_probe-Recorded, record_result-Recorded,
}

module _ {W : Type 0} (d : Exchange W) (frame : Bytes) (nic : ProbeNic) (target_ip : Bytes) where
  -- The exchange of one probe with the sequence id `seq`, judged.
  abbrev pub judged : ProbeProtocol → ℕ → W → (ℕ × ℕ) × W
  judged p seq w = elim (dispatch d frame nic target_ip p seq w) [
    | none ↦ ((status_fail, 0), w)
    | some ((status, rtt), w') ↦ (verdict status rtt, w')
  ]

  abbrev pub outcomes : ProbeProtocol → ℕ → ℕ → W → List (ℕ × ℕ)
  outcomes p zero seq w = []
  outcomes p (suc n) seq w = (judged p seq w).0 ∷ outcomes p n (count32 seq) (judged p seq w).1

  abbrev pub execute_all : ℕ → ProbeStats → W → ProbeStats × W
  execute_all zero s w = (s, w)
  execute_all (suc n) s w =
      let (status, s', w') = execute_once d frame nic target_ip s w in execute_all n s' w'

  dispatch_yields :
      (p : ProbeProtocol) (seq : ℕ) (w : W)
      → p ≢ probe_max
      → (x : (EfiStatus × ℕ) × W) × (dispatch d frame nic target_ip p seq w ≡ some x)
  unfolding dispatch
  dispatch_yields ProbeProtocol.probe_arp seq w h = (_, refl)
  dispatch_yields ProbeProtocol.probe_icmp seq w h = (_, refl)
  dispatch_yields ProbeProtocol.probe_udp seq w h = (_, refl)
  dispatch_yields ProbeProtocol.probe_tcp seq w h = (_, refl)
  dispatch_yields ProbeProtocol.probe_max seq w h = absurd (h refl)

  module _ (p : ProbeProtocol) (seq : ℕ) (s : ProbeStats) (h : p ≢ probe_max) (ep : s.protocol ≡ p)
      (es : s.next_seq_id ≡ seq) where
    -- One call records the outcome of its exchange.
    execute_once_records :
        (w : W)
        → execute_once d frame nic target_ip s w
          ≡ (success, record_result s (judged p seq w).0.0 (judged p seq w).0.1, (judged p seq w).1)
    unfolding execute_once
    execute_once_records w =
        let (x, e) = dispatch_yields p seq w h in
        let e' : dispatch d frame nic target_ip s.protocol s.next_seq_id w ≡ some x =
          rw (ep, es) e in
        rw (e', e, judged, execute_once) refl

    protocol_kept : (code rtt : ℕ) → (record_result s code rtt).protocol ≡ p
    unfolding record_result record_pass
    protocol_kept code rtt = ground (arith, ep)

    seq_counted : (code rtt : ℕ) → (record_result s code rtt).next_seq_id ≡ count32 seq
    unfolding record_result record_pass
    seq_counted code rtt = ground (arith, es)

  execute_more :
      (p : ProbeProtocol) (n seq : ℕ) (ys : List (ℕ × ℕ)) (s : ProbeStats) (w : W)
      → p ≢ probe_max
      → s.protocol ≡ p
      → s.next_seq_id ≡ seq
      → Recorded ys s
      → length ys + n < 2 ^ 32
      → Recorded (ys ++ outcomes p n seq w) (execute_all n s w).0
  execute_more p zero seq ys s w h ep es t lt = rw (append_nil ys) t
  execute_more p (suc n) seq ys s w h ep es t lt =
      let (x, w') = judged p seq w in
      let more =
        execute_more p n (count32 seq) (ys ++ x ∷ []) (record_result s x.0 x.1) w' h
          (protocol_kept p seq s h ep es x.0 x.1) (seq_counted p seq s h ep es x.0 x.1)
          (record_result-Recorded ys x.0 x.1 s t (omega (arith, lt)))
          (omega (arith, lt, length-append ys (x ∷ []))) in
      rw
        (
          execute_all,
          execute_once_records p seq s h ep es w,
          ← append_one ys (outcomes p n (count32 seq) w') x,
        )
        more

  -- ProbeExecuteOnce, called `n` times, fewer than 2 ^ 32, after ProbeInit with one of the four
  -- protocols, records each time the outcome of that exchange, and nothing else: the statistics are
  -- those of the outcomes. So the sent probes are the received and the lost ones; the average is the
  -- sum of the times of the replies, on 64 bits, over their number, on 32 bits; the least, the largest
  -- and the last time are theirs; and the ring of twelve holds the last twelve outcomes, numbered from
  -- one.
  pub execute_once_lem :
      (p : ProbeProtocol) (n : ℕ) (w : W)
      → p ≢ probe_max
      → n < 2 ^ 32
      → Recorded (outcomes p n 1 w) (execute_all n (init_probe p) w).0
        × ((execute_all n (init_probe p) w).0.sent
            ≡ (execute_all n (init_probe p) w).0.received + (execute_all n (init_probe p) w).0.lost)
  execute_once_lem p n w h lt =
      let t =
        execute_more p n 1 [] (init_probe p) w h init_protocol init_seq (init_probe-Recorded p)
          (omega (arith, lt)) in
      (t, omega (arith, t.sent_all, t.answered, t.missed, replies-losses (outcomes p n 1 w)))
    where
      init_protocol : (init_probe p).protocol ≡ p
      init_protocol = unfold init_probe in refl

      init_seq : (init_probe p).next_seq_id ≡ 1
      init_seq = unfold init_probe in refl

  dispatch_unavailable :
      (p : ProbeProtocol) (seq : ℕ) (w : W)
      → p ≢ probe_max
      → is_available nic p ≡ false
      → dispatch d frame nic target_ip p seq w ≡ some ((unsupported, 0), w)
  unfolding is_available dispatch probe_arp_once
  dispatch_unavailable ProbeProtocol.probe_arp seq w h a = ground (arith, a)
  dispatch_unavailable ProbeProtocol.probe_icmp seq w h a = ground (arith, a)
  dispatch_unavailable ProbeProtocol.probe_udp seq w h a = ground (arith, a)
  dispatch_unavailable ProbeProtocol.probe_tcp seq w h a = ground (arith, a)
  dispatch_unavailable ProbeProtocol.probe_max seq w h a = absurd (h refl)

  -- When ProbeIsAvailable says that the protocol is not available, ProbeExecuteOnce sends nothing and
  -- records a failure.
  pub execute_once_unavailable :
      (s : ProbeStats) (w : W)
      → s.protocol ≢ probe_max
      → is_available nic s.protocol ≡ false
      → execute_once d frame nic target_ip s w ≡ (success, record_result s status_fail 0, w)
  unfolding execute_once
  execute_once_unavailable s w h a =
      rw (dispatch_unavailable s.protocol s.next_seq_id w h a, execute_once)
        (unfold verdict in refl)
