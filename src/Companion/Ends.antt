-- ===== src/Companion/Ends.antt =====
-- The receiving loop of Source/CompanionLink.c and its end.
use ddtsoft_net_test.Base.{
  ℕ, zero, suc, ◌+◌, ◌-◌, ◌≤◌, ◌<◌, ◌≡◌, ◌∙◌, refl, arith, true, false, none, some, ltb, ℕ_discrete,
  ap, Bool-cases, Option-cases, ◌⊎◌, inl, inr, Bytes, store8,
}
use ddtsoft_net_test.Efi.{
  EfiStatus, success, unsupported, not_ready, invalid_parameter, timeout, efi_error,
}
use ddtsoft_net_test.Runner.{Text}
use ddtsoft_net_test.Companion.{Link, Driver, Printer, inspect, receive_loop, receive_response}
use ddtsoft_net_test.Companion.Receive.{loop_over, loop_idle, loop_other, loop_message}

-- The two links have the same state and the same peer.
pub record IsSamePeer (l l' : Link) : Type 0 where
  pub state_same : l'.state ≡ l.state
  pub ip_same : l'.companion_ip ≡ l.companion_ip
  pub port_same : l'.port ≡ l.port

pub IsSamePeer-refl : (l : Link) → IsSamePeer l l
IsSamePeer-refl l = record { state_same = refl; ip_same = refl; port_same = refl }

-- Frames wait at the driver: `pending` of them, fewer with each that is received, and no more for
-- the other calls.
pub record HasPending {W : Type 0} (d : Driver W) (pending : W → ℕ) : Type 0 where
  pub receives :
      (w : W) → efi_error (d.receive w).0.status ≡ false → pending (d.receive w).1 < pending w
  pub keeps : (w : W) → pending (d.receive w).1 ≤ pending w
  pub stalls : (n : ℕ) (w : W) → pending (d.stall n w) ≤ pending w
  pub polls : (w : W) → pending (d.poll w) ≤ pending w
  pub filters : (w : W) → pending (d.receive_filters w) ≤ pending w
  pub transmits :
      (ip : Bytes) (port : ℕ) (m : Text) (w : W) → pending (d.transmit ip port m w).1 ≤ pending w
  pub cancels : (w : W) → pending (d.cancel w) ≤ pending w
  pub creates : (w : W) → pending (d.create_event w).1 ≤ pending w
  pub closes : (w : W) → pending (d.close_event w) ≤ pending w

module _ {W : Type 0} (d : Driver W) (p : Printer) (pending : W → ℕ)
    (h : HasPending d pending) where
  receive_loop_ends :
      (fuel : ℕ) (link : Link) (b : Bytes) (size t e f i u : ℕ) (w : W)
      → pending w + (t - e) < fuel
      → (s : EfiStatus) × (l' : Link) × (r' : Bytes) × (w' : W) × (receive_loop d p fuel link b size
            t e
            (f, i, u)
            w
          ≡ some (s, l', r', w'))
        × ((s ≡ success) ⊎ (s ≡ timeout))
        × (pending w' ≤ pending w)
        × IsSamePeer link l'
  receive_loop_ends zero link b size t e f i u w lt = absurd (omega arith)
  receive_loop_ends (suc fuel) link b size t e f i u w lt =
      let got = d.receive w in
      let found = inspect link got.0 in
      elim (Bool-cases (ltb e t)) [
        | inr over ↦ (
          timeout,
          _,
          _,
          _,
          loop_over d p fuel link b size t e f i u w over,
          inr refl,
          omega arith,
          record { state_same = refl; ip_same = refl; port_same = refl },
        )
        | inl early ↦ elim (Bool-cases (efi_error got.0.status)) [
          | inl bad ↦
              let (s, l', r', w', run, end, less, same) =
                receive_loop_ends fuel link b size t (e + 2) f i u (d.stall 2000 got.1)
                  (ground (arith, early, h.stalls 2000 got.1, h.keeps w)) in
              (
                s,
                l',
                r',
                w',
                loop_idle d p fuel link b size t e f i u w early bad ∙ run,
                end,
                omega (arith, less, h.stalls 2000 got.1, h.keeps w),
                same,
              )
          | inr good ↦ elim (Option-cases found.payload) [
            | inl other ↦
                let (s, l', r', w', run, end, less, same) =
                  receive_loop_ends fuel link b size t e (f + 1) (i + found.is_ipv4)
                    (u + found.is_udp) got.1 (omega (arith, h.receives w good)) in
                (
                  s,
                  l',
                  r',
                  w',
                  loop_other d p fuel link b size t e f i u w early good other ∙ run,
                  end,
                  omega (arith, less, h.keeps w),
                  same,
                )
            | inr ((o, n), at) ↦ (
              success,
              _,
              _,
              _,
              loop_message d p fuel link b size t e f i u w o n early good at,
              inl refl,
              h.keeps w,
              IsSamePeer-refl link,
            )
          ]
        ]
      ]

  -- CompanionReceiveResponse ends if only finitely many frames wait at the driver: fuel for these and
  -- for its timeout is enough. It then reports success or an error, and leaves the link's state and
  -- its peer.
  pub receive_response_ends :
      (fuel : ℕ) (link : Link) (b : Bytes) (size t : ℕ) (w : W)
      → pending w + t < fuel
      → (s : EfiStatus) × (l' : Link) × (r' : Bytes) × (w' : W) × (receive_response d p fuel link b
            size t w
          ≡ some (s, l', r', w'))
        × ((s ≡ success) ⊎ (efi_error s ≡ true))
        × (pending w' ≤ pending w)
        × IsSamePeer link l'
  receive_response_ends fuel link b size t w lt = elim (ℕ_discrete size 0) [
    | yes z ↦ (
      invalid_parameter,
      link,
      b,
      w,
      unfold receive_response in ground (arith, z),
      inr refl,
      omega arith,
      IsSamePeer-refl link,
    )
    | no nz ↦ elim (Option-cases (d.snp w)) [
      | inl absent ↦ (
        unsupported,
        link,
        b,
        w,
        unfold receive_response in ground (arith, nz, absent),
        inr refl,
        omega arith,
        IsSamePeer-refl link,
      )
      | inr (ready, at) ↦ elim (Bool-cases ready) [
        | inr down ↦ (
          not_ready,
          link,
          b,
          w,
          unfold receive_response in ground (arith, nz, at, down),
          inr refl,
          omega arith,
          IsSamePeer-refl link,
        )
        | inl up ↦
            let (s, l', r', w', run, end, less, same) =
              receive_loop_ends fuel link (store8 b 0 0) size t 0 0 0 0 (d.receive_filters w)
                (omega (arith, h.filters w)) in
            (
              s,
              l',
              r',
              w',
              unfold receive_response in ground (arith, nz, at, up, run),
              (elim end [ inl e ↦ inl e | inr e ↦ inr (ap efi_error e) ]),
              omega (arith, less, h.filters w),
              same,
            )
      ]
    ]
  ]

module _ {W : Type 0} (d : Driver W) (p : Printer) (link : Link) where
  -- A driver that always has a frame, and never a message from the companion.
  pub record IsFlooded : Type 0 where
    pub no_error : (w : W) → efi_error (d.receive w).0.status ≡ false
    pub other : (w : W) → (inspect link (d.receive w).0).payload ≡ none

  receive_loop_starves :
      IsFlooded
      → (fuel : ℕ) (b : Bytes) (size t e f i u : ℕ) (w : W) → e < t
      → receive_loop d p fuel link b size t e (f, i, u) w ≡ none
  receive_loop_starves x zero b size t e f i u w lt = unfold receive_loop in refl
  receive_loop_starves x (suc fuel) b size t e f i u w lt =
      loop_other d p fuel link b size t e f i u w (ground arith) (x.no_error w) (x.other w)
      ∙ receive_loop_starves x fuel b size t e _ _ _ _ lt

  -- Frames that are no message take no time off the timeout: under a flood of them
  -- CompanionReceiveResponse does not end, whatever its timeout, however long it runs.
  pub receive_response_starves :
      IsFlooded
      → (fuel : ℕ) (b : Bytes) (size t : ℕ) (w : W) → d.snp w ≡ some true
      → 0 < size
      → 0 < t
      → receive_response d p fuel link b size t w ≡ none
  unfolding receive_response
  receive_response_starves x fuel b size t w up hs ht = ground (
    arith,
    up,
    receive_loop_starves x fuel (store8 b 0 0) size t 0 0 0 0 (d.receive_filters w) ht,
  )
