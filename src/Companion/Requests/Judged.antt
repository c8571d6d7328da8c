-- ===== src/Companion/Requests/Judged.antt =====
-- What each request of CompanionLink.c makes of its exchange.
use ddtsoft_net_test.Base.{◌⊎◌, false, ℕ, ◌≡◌, refl, arith, true, Bool-cases, inl, inr, Bytes}
use ddtsoft_net_test.Efi.{EfiStatus, success, device_error, efi_error}
use ddtsoft_net_test.Runner.{Text, codes}
use ddtsoft_net_test.Companion.{
  Link, connected, Driver, Exchange, unsent, unanswered, answered, max_msg_size, starts_with,
}
use ddtsoft_net_test.Companion.Requests.{judge_prepare, judge_start, judge_stop, judge_result}
use ddtsoft_net_test.Companion.Receive.{IsDelivered}

-- A response that the driver delivered to the link's address and port.
pub record IsAnswer {W : Type 0} (d : Driver W) (link : Link) (size : ℕ) (r : Bytes) : Type 0 where
  pub listener : Link
  pub ip_same : listener.companion_ip ≡ link.companion_ip
  pub port_same : listener.port ≡ link.port
  pub delivered : IsDelivered d listener r size

unfoldable pub Fits : {W : Type 0} → Driver W → Link → ℕ → Exchange → Type 0
Fits d link size (unsent s) = efi_error s ≡ true
Fits d link size (unanswered s) = efi_error s ≡ true
Fits d link size (answered r) = IsAnswer d link size r

-- The response of an exchange, or the buffer if there is none.
abbrev pub buffer_of : Exchange → Bytes → Bytes
buffer_of (answered r) b = r
buffer_of _ b = b

-- The result of a request: a success has an answer with the prefix, and the link stays connected.
pub data Reply {W : Type 0} (d : Driver W) (link : Link) (start : Text)
    : EfiStatus → Link → Type 0 where
  accepted :
      (l' : Link) (r : Bytes)
      → l'.state ≡ connected
      → IsAnswer d link max_msg_size r
      → starts_with r 0 start ≡ true
      → Reply d link start success l'
  failed :
      (s : EfiStatus) (l' : Link)
      → l'.state ≡ connected
      → efi_error s ≡ true
      → Reply d link start s l'

module _ {W : Type 0} (d : Driver W) (link l' : Link) (c : l'.state ≡ connected) where
  pub judge_prepare-Reply :
      (x : Exchange)
      → Fits d link max_msg_size x
      → Reply d link (codes "READY") (judge_prepare x l').0 (judge_prepare x l').1
  unfolding judge_prepare Fits
  judge_prepare-Reply (unsent s) h = failed s _ c h
  judge_prepare-Reply (unanswered s) h = failed s _ c h
  judge_prepare-Reply (answered r) h = elim (Bool-cases (starts_with r 0 (codes "READY"))) [
    | inl yes_ ↦ rw yes_ (accepted _ r c h yes_)
    | inr no_ ↦ elim (Bool-cases (starts_with r 0 (codes "ERROR"))) [
      | inl e ↦ rw (no_, e) (failed device_error _ c refl)
      | inr e ↦ rw (no_, e) (failed device_error _ c refl)
    ]
  ]

  pub judge_start-Reply :
      (x : Exchange)
      → Fits d link max_msg_size x
      → Reply d link (codes "ACK") (judge_start x l').0 (judge_start x l').1
  unfolding judge_start Fits
  judge_start-Reply (unsent s) h = failed s _ c h
  judge_start-Reply (unanswered s) h = failed s _ c h
  judge_start-Reply (answered r) h = elim (Bool-cases (starts_with r 0 (codes "ACK"))) [
    | inl yes_ ↦ rw yes_ (accepted _ r c h yes_)
    | inr no_ ↦ rw no_ (failed device_error _ c refl)
  ]

  pub judge_stop-Reply :
      (x : Exchange)
      → Fits d link max_msg_size x
      → Reply d link (codes "ACK") (judge_stop x l').0 (judge_stop x l').1
  unfolding judge_stop Fits
  judge_stop-Reply (unsent s) h = failed s _ c h
  judge_stop-Reply (unanswered s) h = failed s _ c h
  judge_stop-Reply (answered r) h = elim (Bool-cases (starts_with r 0 (codes "ACK"))) [
    | inl yes_ ↦ rw yes_ (accepted _ r c h yes_)
    | inr no_ ↦ rw no_ (failed device_error _ c refl)
  ]

-- A result that the caller may use: an answer in the buffer that is not an error.
module _ {W : Type 0} (d : Driver W) (link l' : Link) (size : ℕ) where
  pub judge_result_state : (x : Exchange) → (judge_result x l').1.state ≡ l'.state
  unfolding judge_result
  judge_result_state (unsent s) = refl
  judge_result_state (unanswered s) = refl
  judge_result_state (answered r) = ground arith

  report_is_no_error :
      (r : Bytes)
      → starts_with r 0 (codes "REPORT") ≡ true
      → starts_with r 0 (codes "ERROR") ≡ false
  report_is_no_error r h = unfold starts_with in ground (arith, h)

  pub judge_result_lem :
      (x : Exchange) (r : Bytes)
      → Fits d link size x
      → buffer_of x r ≡ r
      → (efi_error (judge_result x l').0 ≡ true)
        ⊎ (((judge_result x l').0 ≡ success)
            × IsAnswer d link size r
            × (starts_with r 0 (codes "ERROR") ≡ false))
  unfolding judge_result Fits
  judge_result_lem (unsent s) r h e = inl h
  judge_result_lem (unanswered s) r h e = inl h
  judge_result_lem (answered q) r h e = elim (Bool-cases (starts_with r 0 (codes "REPORT"))) [
    | inl good ↦ inr (rw (e, good) refl, rw (← e) h, report_is_no_error r good)
    | inr bad ↦ elim (Bool-cases (starts_with r 0 (codes "ERROR"))) [
      | inl err ↦ inl (rw (e, bad, err) refl)
      | inr fine ↦ inr (rw (e, bad, fine) refl, rw (← e) h, fine)
    ]
  ]
