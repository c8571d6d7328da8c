-- ===== src/Companion.antt =====
-- Source/CompanionLink.c: the control channel to the test companion.
-- The UEFI drivers are the `Driver` record: an operation for each call that the code makes, on an
-- arbitrary state `W` of the machine and the network. Texts that UnicodeSPrint formats come from
-- `Printer`. Pointer arguments are not NULL; `udp4` and `mnp` tell whether the link's own are not.
pub mod Frames
pub mod Receive
pub mod Ends
pub mod Requests
pub mod Attempts
pub mod Connect
mod Examples
use Prim.Native.Char.{code}
use Prim.Native.String
use Prim.Native.String.{String}
use ddtsoft_net_test.Base.{
  ℕ, zero, suc, ◌+◌, ◌-◌, ◌*◌, ◌/◌, ◌%◌, ◌^◌, Bool, true, false, not, ◌&&◌, ◌||◌, Option, none,
  some, List, [], ◌∷◌, ◌++◌, length, take, ltb, leb, ◌==◌, if◌then◌else◌, Bytes, copy_mem, store8,
}
use ddtsoft_net_test.Efi.{
  EfiStatus, success, invalid_parameter, unsupported, not_ready, device_error, no_mapping, timeout,
  efi_error,
}
use ddtsoft_net_test.Runner.{Text, codes}

-- COMPANION_STATE
pub data LinkState : Type 0 where
  disconnected connecting connected companion_error : LinkState

-- COMPANION_LINK, without the handles and the addresses that only CompanionInit reads.
pub record Link : Type 0 where
  pub state : LinkState
  pub udp4 : Bool
  pub mnp : Bool
  pub companion_ip : Bytes
  pub port : ℕ
  pub timeout_ms : ℕ
  pub message_id : ℕ
  pub status_msg : Text

abbrev pub max_msg_size : ℕ
max_msg_size = 512

-- What one call of Snp->Receive returns.
pub record Reception : Type 0 where
  pub status : EfiStatus
  pub header_size : ℕ
  pub buf_size : ℕ
  pub rx_buf : Bytes

-- The driver calls. `snp` is `none` where HandleProtocol finds no protocol, otherwise whether its
-- mode is EfiSimpleNetworkInitialized; `token` reads TxToken.Status.
pub record Driver (W : Type 0) : Type 0 where
  pub create_event : W → EfiStatus × W
  pub close_event : W → W
  pub transmit : Bytes → ℕ → Text → W → EfiStatus × W
  pub cancel : W → W
  pub poll : W → W
  pub token : W → EfiStatus
  pub stall : ℕ → W → W
  pub snp : W → Option Bool
  pub receive_filters : W → W
  pub receive : W → Reception × W

pub record Printer : Type 0 where
  pub hello_attempt : ℕ → Text
  pub rx_counts : ℕ → ℕ → ℕ → ℕ → Text

abbrev is_not_ready : EfiStatus → Bool
is_not_ready not_ready = true
is_not_ready _ = false

abbrev is_no_mapping : EfiStatus → Bool
is_no_mapping no_mapping = true
is_no_mapping _ = false

-- What CompanionReceiveResponse finds in a frame: whether it counts as IPv4 and as UDP, and the
-- place and length of the payload that it accepts.
pub record Inspection : Type 0 where
  pub is_ipv4 : ℕ
  pub is_udp : ℕ
  pub payload : Option (ℕ × ℕ)

-- `(UINT16)((P[0] << 8) | P[1])`
abbrev pub be16 : Bytes → ℕ → ℕ
be16 b o = (b o * 256 + b (o + 1)) % 65536

-- `CompareMem (&IpHdr[12], &Link->CompanionIp, 4) == 0`
abbrev pub from_ip : Bytes → ℕ → Bytes → Bool
from_ip b o ip = b o == ip 0 && (b (o + 1) == ip 1 && (b (o + 2) == ip 2 && b (o + 3) == ip 3))

pub inspect : Link → Reception → Inspection
inspect link r =
    let b = r.rx_buf in
    let h = r.header_size in
    let hdr_len = b h % 16 * 4 in
    let udp = h + hdr_len in
    let payload_len = (be16 b (udp + 4) + 65536 - 8) % 65536 in
    if ltb r.buf_size 42 || ltb h 14
    then record { is_ipv4 = 0; is_udp = 0; payload = none }
    else if not (b 12 == 0x08) || not (b 13 == 0)
    then record { is_ipv4 = 0; is_udp = 0; payload = none }
    else if not (b h / 16 == 4)
    then record { is_ipv4 = 0; is_udp = 0; payload = none }
    else if not (b (h + 9) == 17)
    then record { is_ipv4 = 1; is_udp = 0; payload = none }
    else if not (from_ip b (h + 12) link.companion_ip)
    then record { is_ipv4 = 1; is_udp = 1; payload = none }
    else if ltb r.buf_size (h + hdr_len + 8)
    then record { is_ipv4 = 1; is_udp = 1; payload = none }
    else if not (be16 b (udp + 2) == link.port)
    then record { is_ipv4 = 1; is_udp = 1; payload = none }
    else if ltb 0 payload_len && leb (h + hdr_len + 8 + payload_len) r.buf_size
    then record { is_ipv4 = 1; is_udp = 1; payload = some (udp + 8, payload_len) }
    else record { is_ipv4 = 1; is_udp = 1; payload = none }

-- `if (CopyLen >= ResponseSize - 1) CopyLen = ResponseSize - 1;`
pub copy_length : ℕ → ℕ → ℕ
copy_length payload_len response_size =
    if leb (response_size - 1) payload_len then response_size - 1 else payload_len

-- The payload, cut to the buffer, and its NUL.
pub fill_response : Bytes → ℕ → Bytes → ℕ → ℕ → Bytes
fill_response response response_size b o n =
    let k = copy_length n response_size in store8 (copy_mem response 0 (λ i. b (o + i)) k) k 0

-- `AsciiStrnCmp (Response, Prefix, strlen (Prefix)) == 0`, for a prefix without NUL.
pub starts_with : Bytes → ℕ → Text → Bool
starts_with b i [] = true
starts_with b i (c ∷ cs) = let rest = starts_with b (i + 1) cs in b i == c && rest

-- What is left of an exchange: the command was not sent, or not answered, or it has a response.
pub data Exchange : Type 0 where
  unsent unanswered : EfiStatus → Exchange
  answered : Bytes → Exchange

abbrev pub with_msg : Link → String → Link
with_msg link s = record link { status_msg = codes s }

module _ {W : Type 0} (d : Driver W) (p : Printer) where
  -- Ten rounds of Poll and Stall between two tries.
  pub polls : ℕ → W → W
  polls zero w = w
  polls (suc n) w = polls n (d.stall 30000 (d.poll w))

  -- The loop `TxRetry < 8 && Status == EFI_NO_MAPPING` with `tries` left.
  pub transmit_loop : ℕ → Bool → Link → Text → W → EfiStatus × W
  transmit_loop zero retry link command w = (no_mapping, w)
  transmit_loop (suc tries) retry link command w =
      let sent = d.transmit link.companion_ip link.port command (if retry then polls 10 w else w) in
      elim (is_no_mapping sent.0) [
        | true ↦ transmit_loop tries true link command sent.1
        | false ↦ sent
      ]

  -- The loop that polls while the token is not ready and `ms` milliseconds are left.
  pub wait_token : ℕ → W → W
  wait_token zero w = w
  wait_token (suc ms) w = elim (is_not_ready (d.token w)) [
    | true ↦ wait_token ms (d.stall 1000 (d.poll w))
    | false ↦ w
  ]

  -- CompanionSendCommand
  pub send_command : Link → Text → W → EfiStatus × Link × W
  send_command link command w =
      let event = d.create_event w in
      let sent = transmit_loop 8 false link command event.1 in
      let w' = wait_token link.timeout_ms sent.1 in
      if not link.udp4
      then (invalid_parameter, link, w)
      else if length command == 0 || ltb max_msg_size (length command)
      then (invalid_parameter, link, w)
      else if efi_error event.0
      then (event.0, link, event.1)
      else if efi_error sent.0
      then (sent.0, link, d.close_event sent.1)
      else if is_not_ready (d.token w')
      then (timeout, link, d.close_event (d.cancel w'))
      else (
        d.token w',
        record link { message_id = (link.message_id + 1) % 2 ^ 32 },
        d.close_event w',
      )

  -- The loop of CompanionReceiveResponse; `none` where the fuel ends before it.
  pub receive_loop :
      ℕ → Link → Bytes → ℕ → ℕ → ℕ → ℕ × ℕ × ℕ → W → Option (EfiStatus × Link × Bytes × W)
  receive_loop zero link response size timeout_ms elapsed counts w = none
  receive_loop (suc fuel) link response size timeout_ms elapsed (frames, ipv4, udp) w =
      let r = (d.receive w).0 in
      let w' = (d.receive w).1 in
      let found = inspect link r in
      elim (ltb elapsed timeout_ms) [
        | false ↦ some (
          timeout,
          record link { status_msg = p.rx_counts frames ipv4 udp timeout_ms },
          response,
          w,
        )
        | true ↦ elim (efi_error r.status) [
          | true ↦
              receive_loop fuel link response size timeout_ms (elapsed + 2) (frames, ipv4, udp)
                (d.stall 2000 w')
          | false ↦ elim found.payload [
            | none ↦
                receive_loop fuel link response size timeout_ms elapsed
                  (frames + 1, ipv4 + found.is_ipv4, udp + found.is_udp) w'
            | some (o, n) ↦ some (success, link, fill_response response size r.rx_buf o n, w')
          ]
        ]
      ]

  -- CompanionReceiveResponse
  pub receive_response : ℕ → Link → Bytes → ℕ → ℕ → W → Option (EfiStatus × Link × Bytes × W)
  receive_response fuel link response size timeout_ms w =
      if size == 0 then some (invalid_parameter, link, response, w) else elim (d.snp w) [
        | none ↦ some (unsupported, link, response, w)
        | some false ↦ some (not_ready, link, response, w)
        | some true ↦
            receive_loop fuel link (store8 response 0 0) size timeout_ms 0 (0, 0, 0)
              (d.receive_filters w)
      ]

  -- The attempts of CompanionConnect, `left` of them to go.
  pub connect_loop : ℕ → ℕ → ℕ → Link → W → Option (EfiStatus × Link × W)
  connect_loop fuel zero attempt link w = some (timeout, record link { state = companion_error }, w)
  connect_loop fuel (suc left) attempt link w =
      let sent =
        send_command (record link { status_msg = p.hello_attempt (attempt + 1) })
          (codes "HELLO DDTSoft 1.0\n") w in
      elim (efi_error sent.0) [
        | true ↦ connect_loop fuel left (attempt + 1) sent.1 (d.stall 1000000 sent.2)
        | false ↦ elim (receive_response fuel sent.1 (λ k. 0) max_msg_size 2000 sent.2) [
          | none ↦ none
          | some (s, link', response, w') ↦ elim (efi_error s) [
            | true ↦ connect_loop fuel left (attempt + 1) link' w'
            | false ↦ elim (starts_with response 0 (codes "ACK")) [
              | true ↦ some (
                success,
                record link' { state = connected; status_msg = codes "Connected to companion" },
                w',
              )
              | false ↦ elim (starts_with response 0 (codes "ERROR")) [
                | true ↦ some (
                  device_error,
                  record link' {
                    state = companion_error;
                    status_msg = codes "Companion returned error";
                  },
                  w',
                )
                | false ↦ connect_loop fuel left (attempt + 1) link' w'
              ]
            ]
          ]
        ]
      ]

  -- CompanionConnect
  pub connect : ℕ → Link → W → Option (EfiStatus × Link × W)
  connect fuel link w =
      if not link.udp4
      then some (invalid_parameter, link, w)
      else if not link.mnp
      then some (
        unsupported,
        record link { state = companion_error; status_msg = codes "MNP not available for receive" },
        w,
      )
      else connect_loop fuel 3 0 (record link { state = connecting }) w
