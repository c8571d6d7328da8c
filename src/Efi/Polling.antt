-- ===== src/Efi/Polling.antt =====
-- The loops that poll Receive of the firmware's Simple Network Protocol, one frame or a millisecond's
-- stall a round, until a frame passes a test. Source/ProtocolProbe.c and Source/Layer3Network.c have
-- one each for every kind of reply that they wait for.
use ddtsoft_net_test.Base.{
  ℕ, zero, suc, ◌<◌, ◌≡◌, ◌⊎◌, inl, inr, refl, arith, Bool, true, false, Option, none, some,
  Option-cases, Bytes,
}
use ddtsoft_net_test.Efi.{EfiStatus}

-- Receive, with the frame's bytes and their number, and Stall.
pub record Frames (W : Type 0) : Type 0 where
  pub receive : W → (EfiStatus × Bytes × ℕ) × W
  pub stall : ℕ → W → W

module _ {W V : Type 0} (d : Frames W) (test : EfiStatus → Bytes → ℕ → Option V) where
  -- `for (I = 0; I < left; I++) { Receive; if (test) return; Stall (1000); }`
  unfoldable pub poll : ℕ → W → Option V × W
  poll zero w = (none, w)
  poll (suc left) w =
      let ((status, rx_buf, rx_len), w1) = d.receive w in
      elim (test status rx_buf rx_len) [
        | some v ↦ (some v, w1)
        | none ↦ poll left (d.stall 1000 w1)
      ]

  -- What the test says of the frame that comes next.
  abbrev pub heard : W → Option V
  heard w = test (d.receive w).0.0 (d.receive w).0.1 (d.receive w).0.2

  -- `k` rounds on; and whether no frame of these rounds passes the test.
  abbrev pub after : ℕ → W → W
  after zero w = w
  after (suc k) w = after k (d.stall 1000 (d.receive w).1)

  abbrev pub silent : ℕ → W → Bool
  silent zero w = true
  silent (suc k) w = elim (heard w) [
    | some v ↦ false
    | none ↦ silent k (d.stall 1000 (d.receive w).1)
  ]

  -- The first frame to pass the test is the one of round `k`, of `n` rounds; it gives `v`.
  pub record First (n : ℕ) (w : W) (k : ℕ) (v : V) : Type 0 where
    pub in_time : k < n
    pub none_before : silent k w ≡ true
    pub passes : heard (after k w) ≡ some v

  -- A poll ends with the first frame that passes the test, or after all its rounds without one.
  pub poll_lem :
      (n : ℕ) (w : W)
      → ((silent n w ≡ true) × (poll n w ≡ (none, after n w)))
        ⊎ ((k : ℕ) × (v : V) × First n w k v × (poll n w ≡ (some v, (d.receive (after k w)).1)))
  unfolding poll
  poll_lem zero w = inl (refl, refl)
  poll_lem (suc n) w = elim (Option-cases (heard w)) [
    | inl quiet ↦ elim (poll_lem n (d.stall 1000 (d.receive w).1)) [
      | inl (s, e) ↦ inl (rw (quiet, silent) s, rw (quiet, poll) e)
      | inr (k, v, t, e) ↦ inr (
        suc k,
        v,
        record {
          in_time = omega (arith, t.in_time);
          none_before = rw (quiet, silent) t.none_before;
          passes = t.passes;
        },
        rw (quiet, poll) e,
      )
    ]
    | inr (v, e) ↦
        inr (
          0,
          v,
          record { in_time = omega arith; none_before = refl; passes = e },
          rw (e, poll) refl,
        )
  ]

  not_silent :
      (k n : ℕ) (w : W) (v : V)
      → k < n
      → silent k w ≡ true
      → heard (after k w) ≡ some v
      → silent n w ≡ false
  not_silent zero zero w v lt s h = absurd (omega (arith, lt))
  not_silent zero (suc n) w v lt s h = rw (h, silent) refl
  not_silent (suc k) zero w v lt s h = absurd (omega (arith, lt))
  not_silent (suc k) (suc n) w v lt s h = elim (Option-cases (heard w)) [
    | inl quiet ↦
        let rest =
          not_silent k n (d.stall 1000 (d.receive w).1) v (omega (arith, lt))
            (ground (arith, s, quiet)) h in
        rw (quiet, silent) rest
    | inr (u, e) ↦ rw (e, silent) refl
  ]

  -- Where a frame passes the test, the rounds are not silent.
  pub First-silent : (n : ℕ) (w : W) (k : ℕ) (v : V) → First n w k v → silent n w ≡ false
  First-silent n w k v t = not_silent k n w v t.in_time t.none_before t.passes
