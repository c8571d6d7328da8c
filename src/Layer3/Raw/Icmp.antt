-- ===== src/Layer3/Raw/Icmp.antt =====
-- L3SendIcmpViaSnp of Source/Layer3Network.c: the frame that it sends, and the replies that end it.
use ddtsoft_net_test.Base.{
  ℕ, ◌*◌, ◌%◌, ◌^◌, ◌<◌, ◌≡◌, ◌⊎◌, inl, inr, sym, arith, Bool-cases, true, false, some, Bytes,
  zero_mem,
}
use ddtsoft_net_test.Efi.{EfiStatus, success, not_ready, timeout, efi_error}
use ddtsoft_net_test.Efi.Polling.{First, after, silent, poll_lem}
use ddtsoft_net_test.Packet.Builder.{build_icmp_echo_request}
use ddtsoft_net_test.Packet.Builder.Steps.{build_icmp_echo_request_steps}
use ddtsoft_net_test.Layer3.Raw.{
  RawDriver, RawReply, frames, raw_now, fitting, ping_frame, icmp_reply, send_icmp_via_snp,
  l3_icmp_id, max_ethernet_frame_size,
}
use ddtsoft_net_test.Stress.{sub64}

-- With some payload and a TTL of 64, the frame of L3SendIcmpViaSnp is the one that
-- PktBuildIcmpEchoRequest builds in a zeroed buffer, with the identifier 0xDD30 and the bytes counted
-- up from zero.
pub ping_frame_eq :
    (tx_buf src_mac dst_mac src_ip dst_ip : Bytes) (seq_num n : ℕ)
    → 0 < n
    → ping_frame tx_buf src_mac dst_mac src_ip dst_ip seq_num 64 n
      ≡ build_icmp_echo_request
          (zero_mem tx_buf 0 max_ethernet_frame_size)
          src_mac
          dst_mac
          src_ip
          dst_ip
          l3_icmp_id
          seq_num
          (some (λ i. i % 256))
          n
unfolding ping_frame
ping_frame_eq tx_buf src_mac dst_mac src_ip dst_ip seq_num n h = sym (
    build_icmp_echo_request_steps (zero_mem tx_buf 0 max_ethernet_frame_size) src_mac dst_mac src_ip
      dst_ip l3_icmp_id seq_num (λ i. i % 256) n h)

module _ {W : Type 0} (d : RawDriver W) (tx_buf src_mac dst_mac src_ip dst_ip : Bytes)
    (seq_num ttl payload_size timeout_ms : ℕ) (w : W) where
  -- The clock before the request is sent, and what Transmit gives of it.
  abbrev pub started : ℕ × W
  started = raw_now d (d.receive_filters w)

  abbrev pub request_sent : EfiStatus × W
  request_sent =
      let (tx, len) =
        ping_frame tx_buf src_mac dst_mac src_ip dst_ip seq_num ttl (fitting payload_size) in
      d.transmit tx len started.1

  -- The reply in the state that Receive leaves.
  abbrev pub reply_of : ℕ → ℕ → W → (EfiStatus × RawReply) × W
  reply_of kind code w' = (
    (
      success,
      record {
        rtt_us = sub64 (raw_now d w').0 started.0 * 1000000 % 2 ^ 32;
        reply_type = kind;
        reply_code = code;
      },
    ),
    (raw_now d w').1,
  )

  abbrev pub nothing : RawReply
  nothing = record { rtt_us = 0; reply_type = 0; reply_code = 0 }

  icmp_reply_kind :
      (status : EfiStatus) (b : Bytes) (len kind code : ℕ)
      → icmp_reply status b len ≡ some (kind, code)
      → (kind ≡ 0) ⊎ (kind ≡ 3) ⊎ (kind ≡ 11)
  unfolding icmp_reply
  icmp_reply_kind status b len kind code e = ground (arith, e)

  -- L3SendIcmpViaSnp sends one frame and always ends: with EFI_NOT_READY when the frame cannot be
  -- sent; with EFI_TIMEOUT when as many rounds as the timeout has milliseconds bring no ICMP reply; and
  -- otherwise with success, at the first round whose frame is an echo reply with the identifier of the
  -- pings or reports an exceeded time or an unreachable destination, with its type and code, and the
  -- time since the start.
  pub send_icmp_via_snp_lem :
      let result =
        send_icmp_via_snp d tx_buf src_mac dst_mac src_ip dst_ip seq_num ttl payload_size timeout_ms
          w in
      ((efi_error request_sent.0 ≡ true) × (result ≡ ((not_ready, nothing), request_sent.1)))
      ⊎ ((efi_error request_sent.0 ≡ false)
          × (silent (frames d) icmp_reply timeout_ms request_sent.1 ≡ true)
          × (result ≡ ((timeout, nothing), after (frames d) icmp_reply timeout_ms request_sent.1)))
      ⊎ ((efi_error request_sent.0 ≡ false)
          × (k kind code : ℕ) × First (frames d) icmp_reply timeout_ms request_sent.1 k (kind, code)
          × ((kind ≡ 0) ⊎ (kind ≡ 3) ⊎ (kind ≡ 11))
          × (result
              ≡ reply_of kind code (d.receive (after (frames d) icmp_reply k request_sent.1)).1))
  unfolding send_icmp_via_snp
  send_icmp_via_snp_lem = elim (Bool-cases (efi_error request_sent.0)) [
    | inl failed ↦ inl (failed, ground (arith, failed))
    | inr sent ↦ elim (poll_lem (frames d) icmp_reply timeout_ms request_sent.1) [
      | inl (s, e) ↦ inr (inl (sent, s, ground (arith, sent, e)))
      | inr (k, v, t, e) ↦ inr (
          inr
            (sent, k, v.0, v.1, t, icmp_reply_kind _ _ _ v.0 v.1 t.passes, ground (arith, sent, e)))
    ]
  ]
