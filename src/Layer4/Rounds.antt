-- ===== src/Layer4/Rounds.antt =====
-- The rounds of the port tests of Source/Layer4Transport.c, one for each port, as steps of the
-- firmware's state.
use ddtsoft_net_test.Base.{
  ℕ, suc, ◌≤◌, ◌≡◌, refl, ◌∙◌, inl, inr, arith, Bool-cases, true, false, some, List, [], ◌∷◌,
  length,
}
use ddtsoft_net_test.Efi.{EfiStatus, efi_error}
use ddtsoft_net_test.Layer3.{PingConfig}
use ddtsoft_net_test.Layer4.{Attempt, attempt}
use ddtsoft_net_test.Layer4.Child.{
  Tcp, tcp_config, l4_create_tcp_child, l4_destroy_tcp_child, l4_tcp_connect, l4_tcp_close,
}
use ddtsoft_net_test.Layer4.Child.Held.{
  Resource, IsFirmware, l4_tcp_connect_lem, l4_tcp_close_lem, l4_create_tcp_child_failed,
  l4_create_tcp_child_made, l4_destroy_tcp_child_lem,
}

-- The ports that accept a connection, and those that a child is made for.
abbrev pub opens : List Attempt → ℕ
opens [] = 0
opens (Attempt.opened ∷ xs) = suc (opens xs)
opens (Attempt.refused ∷ xs) = opens xs
opens (Attempt.no_child ∷ xs) = opens xs

abbrev pub tries : List Attempt → ℕ
tries [] = 0
tries (Attempt.opened ∷ xs) = suc (tries xs)
tries (Attempt.refused ∷ xs) = suc (tries xs)
tries (Attempt.no_child ∷ xs) = tries xs

module _ {W : Type 0} (d : Tcp W) (config : PingConfig) (connect_ms close_ms pause : ℕ) where
  -- What comes of one port, and the state after it: there is no child, and nothing more is done; or
  -- the connection to the port on the target fails, and the child is destroyed; or it succeeds, with a
  -- status that the firmware put into the token of its event, and is closed before the child is
  -- destroyed.
  abbrev pub Round : ℕ → W → Attempt → W → Type 0
  Round port w Attempt.no_child w' =
      (efi_error (l4_create_tcp_child d w).0.0 ≡ true) × (w' ≡ (l4_create_tcp_child d w).1)
  Round port w Attempt.refused w' =
      let ((made, child, tcp4), w1) = l4_create_tcp_child d w in
      let addresses = tcp_config config.local_ip config.target_ip config.subnet_mask 0 port in
      (status : EfiStatus) × (w2 : W) × (efi_error made ≡ false)
      × (l4_tcp_connect d tcp4 addresses connect_ms w1 ≡ some (status, w2))
      × (efi_error status ≡ true)
      × (w' ≡ d.stall pause (l4_destroy_tcp_child d child tcp4 w2))
  Round port w Attempt.opened w' =
      let ((made, child, tcp4), w1) = l4_create_tcp_child d w in
      let addresses = tcp_config config.local_ip config.target_ip config.subnet_mask 0 port in
      (status closed : EfiStatus) × (v w2 w3 : W) × (efi_error made ≡ false)
      × (l4_tcp_connect d tcp4 addresses connect_ms w1 ≡ some (status, w2))
      × (efi_error status ≡ false)
      × (d.token (d.create_event (d.configure tcp4 (some addresses) w1).1).0.1 v ≡ status)
      × (l4_tcp_close d tcp4 close_ms w2 ≡ some (closed, w3))
      × (w' ≡ d.stall pause (l4_destroy_tcp_child d child tcp4 w3))

  -- One round after the other.
  abbrev pub Rounds : List ℕ → W → List Attempt → W → Type 0
  Rounds [] w [] w' = w' ≡ w
  Rounds [] w (a ∷ xs) w' = ⊥
  Rounds (port ∷ ports) w [] w' = ⊥
  Rounds (port ∷ ports) w (a ∷ xs) w' = (w1 : W) × Round port w a w1 × Rounds ports w1 xs w'

  -- The code of a round takes the step.
  pub Round-attempt :
      (port : ℕ) (w : W) (a : Attempt) (w' : W)
      → Round port w a w'
      → attempt d config port connect_ms close_ms pause w ≡ some (a, w')
  unfolding attempt
  Round-attempt port w Attempt.no_child w' (fails, same) = ground (arith, fails, same)
  Round-attempt port w Attempt.refused w' (status, w2, works, ends, fails, same) =
      ground (arith, works, ends, fails, same)
  Round-attempt port w Attempt.opened w'
        (status, closed, v, w2, w3, works, ends, accepted, told, shut, same) =
      ground (arith, works, ends, accepted, shut, same)

  pub opens-length :
      (ports : List ℕ) (w : W) (xs : List Attempt) (w' : W)
      → Rounds ports w xs w'
      → opens xs ≤ length ports
  opens-length [] w [] w' steps = omega arith
  opens-length [] w (a ∷ xs) w' steps = absurd steps
  opens-length (port ∷ ports) w [] w' steps = absurd steps
  opens-length (port ∷ ports) w (Attempt.no_child ∷ xs) w' (w1, step, steps) =
      omega (arith, opens-length ports w1 xs w' steps)
  opens-length (port ∷ ports) w (Attempt.refused ∷ xs) w' (w1, step, steps) =
      omega (arith, opens-length ports w1 xs w' steps)
  opens-length (port ∷ ports) w (Attempt.opened ∷ xs) w' (w1, step, steps) =
      omega (arith, opens-length ports w1 xs w' steps)

  module _ (held : W → List Resource) (time_left : ℕ → W → ℕ)
      (k : IsFirmware d held time_left) where
    -- A round ends, and gives back what it takes.
    round_lem :
        (port : ℕ) (w : W) → (a : Attempt) × (w' : W) × Round port w a w' × (held w' ≡ held w)
    round_lem port w =
        let ((made, child, tcp4), w1) = l4_create_tcp_child d w in
        let addresses = tcp_config config.local_ip config.target_ip config.subnet_mask 0 port in
        elim (Bool-cases (efi_error made)) [
          | inl fails ↦ (
            Attempt.no_child,
            w1,
            (fails, refl),
            l4_create_tcp_child_failed d held time_left k w fails,
          )
          | inr works ↦
              let (has_child, real, bound) = l4_create_tcp_child_made d held time_left k w works in
              let (status, w2, ends, kept, done) =
                l4_tcp_connect_lem d held time_left k tcp4 addresses connect_ms w1 in
              let there : efi_error (d.find_tcp_sb w2) ≡ false =
                ground (arith, bound, k.sb_stays w w2) in
              elim (Bool-cases (efi_error status)) [
                | inl refused ↦
                    let w3 = l4_destroy_tcp_child d child tcp4 w2 in
                    let gone =
                      l4_destroy_tcp_child_lem d held time_left k child tcp4 (held w) w2 real there
                        (kept ∙ has_child) in
                    (
                      Attempt.refused,
                      d.stall pause w3,
                      (status, w2, works, ends, refused, refl),
                      k.stalling pause w3 ∙ gone,
                    )
                | inr accepted ↦
                    let (v, told) = done accepted in
                    let (closed, w3, shut, same) =
                      l4_tcp_close_lem d held time_left k tcp4 close_ms w2 in
                    let w4 = l4_destroy_tcp_child d child tcp4 w3 in
                    let still : efi_error (d.find_tcp_sb w3) ≡ false =
                      ground (arith, bound, k.sb_stays w w3) in
                    let gone =
                      l4_destroy_tcp_child_lem d held time_left k child tcp4 (held w) w3 real still
                        (same ∙ kept ∙ has_child) in
                    (
                      Attempt.opened,
                      d.stall pause w4,
                      (status, closed, v, w2, w3, works, ends, accepted, told, shut, refl),
                      k.stalling pause w4 ∙ gone,
                    )
              ]
        ]

    pub rounds_lem :
        (ports : List ℕ) (w : W)
        → (xs : List Attempt) × (w' : W) × Rounds ports w xs w' × (held w' ≡ held w)
    rounds_lem [] w = ([], w, refl, refl)
    rounds_lem (port ∷ ports) w =
        let (a, w1, step, kept) = round_lem port w in
        let (xs, w', steps, same) = rounds_lem ports w1 in
        (a ∷ xs, w', (w1, step, steps), same ∙ kept)
