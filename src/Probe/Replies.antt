-- ===== src/Probe/Replies.antt =====
-- The wait of ProbeArpViaSnp in Source/ProtocolProbe.c, against the frames that arrive.
use ddtsoft_net_test.Base.{
  ℕ, ◌*◌, ◌%◌, ◌^◌, ◌≡◌, ◌⊎◌, inl, inr, refl, arith, true, false, Bool-cases, Bytes,
}
use ddtsoft_net_test.Efi.{EfiStatus, success, not_ready, timeout, efi_error}
use ddtsoft_net_test.Efi.Polling.{Frames, First, after, silent, poll_lem}
use ddtsoft_net_test.Packet.Replies.{arp_reply}
use ddtsoft_net_test.Packet.Builder.{build_arp_request}
use ddtsoft_net_test.Probe.{ProbeNic, Exchange, now, arp_loop, arp_via_snp}
use ddtsoft_net_test.Stress.{sub64}

module _ {W : Type 0} (d : Exchange W) where
  abbrev pub frames : Frames W
  frames = record { receive = d.receive; stall = d.stall }

  -- The reply that the wait ends with when it hears one, in the state that Receive leaves: the time
  -- since `start`.
  abbrev pub reply_at : ℕ → W → (EfiStatus × ℕ) × W
  reply_at start w =
      let (end_tick, w') = now d w in ((success, sub64 end_tick start * 1000000 % 2 ^ 32), w')

  arp_loop_lem :
      (left start : ℕ) (w : W)
      → ((silent frames arp_reply left w ≡ true)
          × (arp_loop d left start w ≡ ((timeout, 0), after frames arp_reply left w)))
        ⊎ ((k : ℕ) × (mac : Bytes) × First frames arp_reply left w k mac
            × (arp_loop d left start w ≡ reply_at start (d.receive (after frames arp_reply k w)).1))
  unfolding arp_loop
  arp_loop_lem left start w = elim (poll_lem frames arp_reply left w) [
    | inl (s, e) ↦ inl (s, ground (arith, e))
    | inr (k, v, t, e) ↦ inr (k, v, t, ground (arith, e))
  ]

  module _ (frame : Bytes) (nic : ProbeNic) (target_ip : Bytes) (w : W) where
    -- The clock before the request is sent, and what Transmit gives of it.
    abbrev pub started : ℕ × W
    started = now d (d.receive_filters w)

    abbrev pub request_sent : EfiStatus × W
    request_sent =
        let (tx, len) = build_arp_request frame nic.current_address nic.ipv4_address target_ip in
        d.transmit tx len started.1

    -- ProbeArpViaSnp sends one ARP request for the target and always ends: with EFI_NOT_READY when
    -- the request cannot be sent; with EFI_TIMEOUT and no time when two thousand rounds bring no ARP
    -- reply; and otherwise with success and the time since the start, at the first round whose frame
    -- is an ARP reply, whoever sends it.
    pub arp_via_snp_lem :
        ((efi_error request_sent.0 ≡ true)
          × (arp_via_snp d frame nic target_ip w ≡ ((not_ready, 0), request_sent.1)))
        ⊎ ((efi_error request_sent.0 ≡ false)
            × (silent frames arp_reply 2000 request_sent.1 ≡ true)
            × (arp_via_snp d frame nic target_ip w
                ≡ ((timeout, 0), after frames arp_reply 2000 request_sent.1)))
        ⊎ ((efi_error request_sent.0 ≡ false)
            × (k : ℕ) × (mac : Bytes) × First frames arp_reply 2000 request_sent.1 k mac
            × (arp_via_snp d frame nic target_ip w
                ≡ reply_at started.0 (d.receive (after frames arp_reply k request_sent.1)).1))
    unfolding arp_via_snp
    arp_via_snp_lem = elim (Bool-cases (efi_error request_sent.0)) [
      | inl failed ↦ inl (failed, rw (failed, arp_via_snp) refl)
      | inr sent ↦ elim (arp_loop_lem 2000 started.0 request_sent.1) [
        | inl (s, e) ↦ inr (inl (sent, s, rw (sent, arp_via_snp) e))
        | inr (k, v, t, e) ↦ inr (inr (sent, k, v, t, rw (sent, arp_via_snp) e))
      ]
    ]
