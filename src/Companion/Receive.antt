-- ===== src/Companion/Receive.antt =====
-- The receiving loop of Source/CompanionLink.c: its rounds and its response.
use ddtsoft_net_test.Base.{
  ℕ, zero, suc, ◌+◌, ◌-◌, ◌<◌, ◌≡◌, arith, true, false, none, some, ltb, Bool-cases, Option-cases,
  inl, inr, ◌∙◌, sym, ℕ_discrete, min, Bytes, copy_mem, store8,
}
use ddtsoft_net_test.Efi.{success, timeout, efi_error}
use ddtsoft_net_test.Companion.{
  Link, Driver, Printer, inspect, copy_length, fill_response, receive_loop, receive_response,
}

-- `response` is the payload of a frame that the driver delivered and that is a message from the
-- companion, cut to `size - 1` bytes, with a NUL behind it.
pub record IsDelivered {W : Type 0} (d : Driver W) (link : Link) (response : Bytes) (size : ℕ)
    : Type 0 where
  pub at : W
  pub no_error : efi_error (d.receive at).0.status ≡ false
  pub o : ℕ
  pub n : ℕ
  pub accepted : (inspect link (d.receive at).0).payload ≡ some (o, n)
  pub copied : (k : ℕ) → k < min n (size - 1) → response k ≡ (d.receive at).0.rx_buf (o + k)
  pub ended : response (min n (size - 1)) ≡ 0

fill_response_at :
    (response b : Bytes) (size o n k : ℕ)
    → k < min n (size - 1)
    → fill_response response size b o n k ≡ b (o + k)
unfolding fill_response copy_length copy_mem store8
fill_response_at response b size o n k h = ground arith

fill_response_end :
    (response b : Bytes) (size o n : ℕ) → fill_response response size b o n (min n (size - 1)) ≡ 0
unfolding fill_response copy_length copy_mem store8
fill_response_end response b size o n = ground arith

-- The rounds of the loop.
module _ {W : Type 0} (d : Driver W) (p : Printer) (fuel : ℕ) (link : Link) (b : Bytes)
    (size t e f i u : ℕ) (w : W) where
  pub loop_over :
      ltb e t ≡ false
      → receive_loop d p (suc fuel) link b size t e (f, i, u) w
        ≡ some (timeout, record link { status_msg = p.rx_counts f i u t }, b, w)
  unfolding receive_loop
  loop_over h = ground (arith, h)

  pub loop_idle :
      ltb e t ≡ true
      → efi_error (d.receive w).0.status ≡ true
      → receive_loop d p (suc fuel) link b size t e (f, i, u) w
        ≡ receive_loop d p fuel link b size t (e + 2) (f, i, u) (d.stall 2000 (d.receive w).1)
  unfolding receive_loop
  loop_idle h g = ground (arith, h, g)

  pub loop_other :
      ltb e t ≡ true
      → efi_error (d.receive w).0.status ≡ false
      → (inspect link (d.receive w).0).payload ≡ none
      → receive_loop d p (suc fuel) link b size t e (f, i, u) w
        ≡ receive_loop d p fuel link b size t e
            (
              f + 1,
              i + (inspect link (d.receive w).0).is_ipv4,
              u + (inspect link (d.receive w).0).is_udp,
            )
            (d.receive w).1
  unfolding receive_loop
  loop_other h g o = ground (arith, h, g, o)

  pub loop_message :
      (o n : ℕ)
      → ltb e t ≡ true
      → efi_error (d.receive w).0.status ≡ false
      → (inspect link (d.receive w).0).payload ≡ some (o, n)
      → receive_loop d p (suc fuel) link b size t e (f, i, u) w
        ≡ some (success, link, fill_response b size (d.receive w).0.rx_buf o n, (d.receive w).1)
  unfolding receive_loop
  loop_message o n h g m = ground (arith, h, g, m)

module _ {W : Type 0} (d : Driver W) (p : Printer) where
  receive_loop-IsDelivered :
      (fuel : ℕ) (link : Link) (b : Bytes) (size t e f i u : ℕ) (w : W) (link' : Link)
      (response : Bytes) (w' : W)
      → receive_loop d p fuel link b size t e (f, i, u) w ≡ some (success, link', response, w')
      → IsDelivered d link response size
  receive_loop-IsDelivered zero link b size t e f i u w l' r' w' h =
      absurd (unfold receive_loop in ground (arith, h))
  receive_loop-IsDelivered (suc fuel) link b size t e f i u w l' r' w' h =
      let got = d.receive w in
      let found = inspect link got.0 in
      elim (Bool-cases (ltb e t)) [
        | inr over ↦ absurd (ground (arith, loop_over d p fuel link b size t e f i u w over, h))
        | inl early ↦ elim (Bool-cases (efi_error got.0.status)) [
          | inl bad ↦
              receive_loop-IsDelivered fuel link b size t (e + 2) f i u (d.stall 2000 got.1) l' r'
                w' (sym (loop_idle d p fuel link b size t e f i u w early bad) ∙ h)
          | inr good ↦ elim (Option-cases found.payload) [
            | inl other ↦
                receive_loop-IsDelivered fuel link b size t e (f + 1) (i + found.is_ipv4)
                  (u + found.is_udp) got.1 l' r' w'
                  (sym (loop_other d p fuel link b size t e f i u w early good other) ∙ h)
            | inr ((o, n), at) ↦
                let filled : fill_response b size got.0.rx_buf o n ≡ r' =
                  ground
                    (arith, loop_message d p fuel link b size t e f i u w o n early good at, h) in
                record {
                  at = w;
                  no_error = good;
                  o = o;
                  n = n;
                  accepted = at;
                  copied = λ k lt. rw (← filled) (fill_response_at b got.0.rx_buf size o n k lt);
                  ended = rw (← filled) (fill_response_end b got.0.rx_buf size o n);
                }
          ]
        ]
      ]

  -- A success of CompanionReceiveResponse means that the driver delivered a message from the
  -- companion. The response is its payload, cut to one byte less than the buffer, with a NUL behind.
  pub receive_response-IsDelivered :
      (fuel : ℕ) (link : Link) (b : Bytes) (size t : ℕ) (w : W) (link' : Link) (response : Bytes)
      (w' : W)
      → receive_response d p fuel link b size t w ≡ some (success, link', response, w')
      → IsDelivered d link response size
  unfolding receive_response
  receive_response-IsDelivered fuel link b size t w l' r' w' h = elim (ℕ_discrete size 0) [
    | yes z ↦ absurd (ground (arith, z, h))
    | no nz ↦
        receive_loop-IsDelivered fuel link (store8 b 0 0) size t 0 0 0 0 (d.receive_filters w) l' r'
          w' (ground (arith, nz, h))
  ]
