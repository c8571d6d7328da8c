-- ===== src/Companion/Requests.antt =====
-- The requests of Source/CompanionLink.c on a connected link: each sends a command and judges the
-- response.
pub mod Judged
pub mod Replies
use ddtsoft_net_test.Base.{
  ℕ, ◌*◌, ◌%◌, ◌^◌, Bool, true, false, not, Option, none, some, [], ◌∷◌, ◌++◌, take, if◌then◌else◌,
  Bytes,
}
use ddtsoft_net_test.Efi.{EfiStatus, success, invalid_parameter, not_ready, device_error, efi_error}
use ddtsoft_net_test.Runner.{Text, codes}
use ddtsoft_net_test.Companion.{
  LinkState, disconnected, connected, Link, max_msg_size, Driver, Printer, starts_with, Exchange,
  unsent, unanswered, answered, with_msg, send_command, receive_response,
}

abbrev pub is_connected : LinkState → Bool
is_connected connected = true
is_connected _ = false

-- What each request makes of its exchange: the status it returns and the link's message.
pub judge_prepare : Exchange → Link → EfiStatus × Link
judge_prepare (unsent s) link = (s, with_msg link "Failed to send PREPARE")
judge_prepare (unanswered s) link = (s, with_msg link "No response to PREPARE")
judge_prepare (answered r) link =
    if starts_with r 0 (codes "READY")
    then (success, with_msg link "Companion ready")
    else if starts_with r 0 (codes "ERROR")
    then (device_error, with_msg link "Companion PREPARE error")
    else (device_error, with_msg link "Unexpected PREPARE response")

pub judge_start : Exchange → Link → EfiStatus × Link
judge_start (unsent s) link = (s, with_msg link "Failed to send START")
judge_start (unanswered s) link = (s, with_msg link "No response to START")
judge_start (answered r) link =
    if starts_with r 0 (codes "ACK")
    then (success, with_msg link "Test started")
    else (device_error, with_msg link "Unexpected START response")

pub judge_stop : Exchange → Link → EfiStatus × Link
judge_stop (unsent s) link = (s, with_msg link "Failed to send STOP")
judge_stop (unanswered s) link = (s, link)
judge_stop (answered r) link =
    if starts_with r 0 (codes "ACK")
    then (success, with_msg link "Test stopped")
    else (device_error, link)

pub judge_result : Exchange → Link → EfiStatus × Link
judge_result (unsent s) link = (s, with_msg link "Failed to send RESULT")
judge_result (unanswered s) link = (s, with_msg link "No result from companion")
judge_result (answered r) link =
    if starts_with r 0 (codes "REPORT")
    then (success, with_msg link "Result received")
    else if starts_with r 0 (codes "ERROR")
    then (device_error, with_msg link "Companion result error")
    else (success, link)

-- The command that CompanionPrepare formats into a buffer of 512 characters.
pub prepare_command : Text → Text → Option Text → Text
prepare_command layer test none =
    take 511 (codes "PREPARE " ++ layer ++ codes " " ++ test ++ codes "\n")
prepare_command layer test (some []) =
    take 511 (codes "PREPARE " ++ layer ++ codes " " ++ test ++ codes "\n")
prepare_command layer test (some (c ∷ cs)) =
    take 511 (codes "PREPARE " ++ layer ++ codes " " ++ test ++ codes " " ++ (c ∷ cs) ++ codes "\n")

abbrev pub quit : Link → Link
quit link = record link { state = disconnected; status_msg = codes "Disconnected" }

module _ {W : Type 0} (d : Driver W) (p : Printer) where
  -- A command and its response, without what the request makes of it. The caller's buffer comes back
  -- with it.
  pub exchange : ℕ → Link → Text → Bytes → ℕ → ℕ → W → Option (Exchange × Link × Bytes × W)
  exchange fuel link command response size timeout_ms w =
      let sent = send_command d p link command w in
      elim (efi_error sent.0) [
        | true ↦ some (unsent sent.0, sent.1, response, sent.2)
        | false ↦ elim (receive_response d p fuel sent.1 response size timeout_ms sent.2) [
          | none ↦ none
          | some (s, link', r, w') ↦
              some ((if efi_error s then unanswered s else answered r), link', r, w')
        ]
      ]

  abbrev judged :
      (Exchange → Link → EfiStatus × Link)
      → Option (Exchange × Link × Bytes × W)
      → Option (EfiStatus × Link × W)
  judged judge none = none
  judged judge (some (x, link, r, w)) = let (s, link') = judge x link in some (s, link', w)

  -- CompanionPrepare
  pub prepare : ℕ → Link → Text → Text → Option Text → W → Option (EfiStatus × Link × W)
  prepare fuel link layer test args w =
      if not (is_connected link.state)
      then some (not_ready, link, w)
      else judged judge_prepare (
          exchange fuel link (prepare_command layer test args) (λ k. 0) max_msg_size link.timeout_ms
            w)

  -- CompanionStart
  pub start : ℕ → Link → W → Option (EfiStatus × Link × W)
  start fuel link w =
      if not (is_connected link.state)
      then some (not_ready, link, w)
      else judged judge_start
          (exchange fuel link (codes "START\n") (λ k. 0) max_msg_size link.timeout_ms w)

  -- CompanionStop
  pub stop : ℕ → Link → W → Option (EfiStatus × Link × W)
  stop fuel link w =
      if not (is_connected link.state)
      then some (not_ready, link, w)
      else judged judge_stop
          (exchange fuel link (codes "STOP\n") (λ k. 0) max_msg_size link.timeout_ms w)

  -- CompanionGetResult, with what it leaves in the caller's buffer.
  pub get_result : ℕ → Link → Bytes → ℕ → W → Option (EfiStatus × Link × Bytes × W)
  get_result fuel link result size w =
      if not (is_connected link.state)
      then some (invalid_parameter, link, result, w)
      else elim (exchange fuel link (codes "RESULT\n") result size (link.timeout_ms * 2 % 2 ^ 32)
          w) [
            | none ↦ none
            | some (x, link', r, w') ↦
                let (s, link'') = judge_result x link' in some (s, link'', r, w')
          ]

  -- CompanionDisconnect
  pub disconnect : ℕ → Link → W → Option (EfiStatus × Link × W)
  disconnect fuel link w =
      if not link.udp4 then some (invalid_parameter, link, w) else elim (is_connected link.state) [
        | false ↦ some (success, quit link, w)
        | true ↦
            let sent = send_command d p link (codes "DONE\n") w in
            elim (receive_response d p fuel sent.1 (λ k. 0) max_msg_size 1000 sent.2) [
              | none ↦ none
              | some (s, link', r, w') ↦ some (success, quit link', w')
            ]
      ]
