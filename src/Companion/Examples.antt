-- ===== src/Companion/Examples.antt =====
-- The theorems on CompanionLink.c with a network that holds a list of frames.
use ddtsoft_net_test.Base.{
  ◌≤◌, ◌<◌, ◌≡◌, ◌↔◌, refl, arith, true, false, none, some, List, [], ◌∷◌, length, store8, ◌⊎◌,
  Bytes, ◌==◌, if◌then◌else◌,
}
use ddtsoft_net_test.Efi.{EfiStatus, success, not_ready, efi_error}
use ddtsoft_net_test.Runner.{codes}
use ddtsoft_net_test.Companion.{
  Link, connected, disconnected, Reception, Driver, Printer, inspect, receive_loop,
  receive_response, connect, fill_response,
}
use ddtsoft_net_test.Companion.Frames.{IsMessage, inspect_iff}
use ddtsoft_net_test.Companion.Receive.{IsDelivered, receive_response-IsDelivered}
use ddtsoft_net_test.Companion.Ends.{
  HasPending, IsSamePeer, receive_response_ends, IsFlooded, receive_response_starves,
}
use ddtsoft_net_test.Companion.Requests.{prepare}
use ddtsoft_net_test.Companion.Requests.Judged.{Reply}
use ddtsoft_net_test.Companion.Requests.Replies.{prepare_lem}
use ddtsoft_net_test.Companion.Attempts.{Outcome}
use ddtsoft_net_test.Companion.Connect.{connect_lem}

abbrev link : Link
link = record {
  state = disconnected;
  udp4 = true;
  mnp = true;
  companion_ip = λ k. 1;
  port = 9999;
  timeout_ms = 5000;
  message_id = 0;
  status_msg = [];
}

abbrev printer : Printer
printer = record { hello_attempt = λ n. codes "HELLO"; rx_counts = λ a b c t. codes "RX" }

abbrev idle : Reception
idle = record { status = not_ready; header_size = 0; buf_size = 0; rx_buf = λ k. 0 }

-- "ACK" in a datagram from 1.1.1.1 to port 9999.
abbrev ack_frame : Reception
ack_frame = record {
  status = success;
  header_size = 14;
  buf_size = 60;
  rx_buf = λ k.
      if k == 12
      then 0x08
      else if k == 13
      then 0
      else if k == 14
      then 0x45
      else if k == 23
      then 17
      else if k == 36
      then 39
      else if k == 37
      then 15
      else if k == 38
      then 0
      else if k == 39
      then 11
      else if k == 42
      then 65
      else if k == 43
      then 67
      else if k == 44
      then 75
      else 1;
}

abbrev next : List Reception → Reception × List Reception
next [] = (idle, [])
next (r ∷ rs) = (r, rs)

abbrev network : Driver (List Reception)
network = record {
  create_event = λ w. (success, w);
  close_event = λ w. w;
  transmit = λ ip port m w. (success, w);
  cancel = λ w. w;
  poll = λ w. w;
  token = λ w. success;
  stall = λ n w. w;
  snp = λ w. some true;
  receive_filters = λ w. w;
  receive = next;
}

network-HasPending : HasPending network (λ w. length w)
network-HasPending = record {
  receives = takes;
  keeps = shorter;
  stalls = λ n w. omega arith;
  polls = λ w. omega arith;
  filters = λ w. omega arith;
  transmits = λ ip port m w. omega arith;
  cancels = λ w. omega arith;
  creates = λ w. omega arith;
  closes = λ w. omega arith;
}
  where
    takes :
        (w : List Reception) → efi_error (next w).0.status ≡ false → length (next w).1 < length w
    takes [] h = absurd (ground (arith, h))
    takes (r ∷ rs) h = omega arith

    shorter : (w : List Reception) → length (next w).1 ≤ length w
    shorter [] = omega arith
    shorter (r ∷ rs) = omega arith

-- A network that always delivers a frame of the wrong EtherType.
abbrev flood : Driver (List Reception)
flood = record network {
  receive = λ w. (record { status = success; header_size = 14; buf_size = 60; rx_buf = λ k. 0 }, w);
}

flood-IsFlooded : IsFlooded flood printer link
flood-IsFlooded = record { no_error = λ w. refl; other = λ w. unfold inspect in refl }

inspect_iff_example :
    ((inspect link ack_frame).payload ≡ some (42, 3)) ↔ IsMessage link ack_frame 42 3
inspect_iff_example = inspect_iff link ack_frame 42 3 (omega arith)

receive_response-IsDelivered_example :
    IsDelivered network link (fill_response (store8 (λ k. 0) 0 0) 512 ack_frame.rx_buf 42 3) 512
unfolding receive_response receive_loop inspect
receive_response-IsDelivered_example =
    receive_response-IsDelivered network printer 5 link (λ k. 0) 512 2000 (idle ∷ ack_frame ∷ [])
      link (fill_response (store8 (λ k. 0) 0 0) 512 ack_frame.rx_buf 42 3) [] refl

receive_response_ends_example :
    (s : EfiStatus) × (l' : Link) × (r' : Bytes) × (w' : List Reception) × (receive_response network
        printer 2002 link
        (λ k. 0)
        512
        2000
        (idle ∷ [])
      ≡ some (s, l', r', w'))
    × ((s ≡ success) ⊎ (efi_error s ≡ true))
    × (length w' ≤ 1)
    × IsSamePeer link l'
receive_response_ends_example =
    receive_response_ends network printer (λ w. length w) network-HasPending 2002 link (λ k. 0) 512
      2000 (idle ∷ []) (omega arith)

receive_response_starves_example :
    receive_response flood printer 90 link (λ k. 0) 512 2000 [] ≡ none
receive_response_starves_example =
    receive_response_starves flood printer link flood-IsFlooded 90 (λ k. 0) 512 2000 [] refl
      (omega arith) (omega arith)

connect_lem_example :
    (s : EfiStatus) × (l' : Link) × (w' : List Reception) × (connect network printer 3000 link
        (idle ∷ ack_frame ∷ [])
      ≡ some (s, l', w'))
    × Outcome network printer link s l'
connect_lem_example =
    connect_lem network printer (λ w. length w) network-HasPending 3000 link (idle ∷ ack_frame ∷ [])
      refl (omega arith)

abbrev open_link : Link
open_link = record link { state = connected }

prepare_lem_example :
    (s : EfiStatus) × (l' : Link) × (w' : List Reception) × (prepare network printer 6000 open_link
        (codes "L3")
        (codes "ICMP_ECHO")
        none
        (ack_frame ∷ [])
      ≡ some (s, l', w'))
    × Reply network open_link (codes "READY") s l'
prepare_lem_example =
    prepare_lem network printer (λ w. length w) network-HasPending 6000 open_link (ack_frame ∷ [])
      (codes "L3") (codes "ICMP_ECHO") none refl (omega arith)
