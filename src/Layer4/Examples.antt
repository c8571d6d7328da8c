-- ===== src/Layer4/Examples.antt =====
-- The port tests of Layer4Transport.c with a target that listens on ports 80 and 22, refuses 443 and
-- is silent on the others.
use ddtsoft_net_test.Base.{
  ℕ, suc, ◌-◌, ◌/◌, ◌≡◌, refl, ◌||◌, Option, some, List, [], ◌∷◌, ◌==◌, if◌then◌else◌, none,
}
use ddtsoft_net_test.Efi.{success, not_ready, device_error}
use ddtsoft_net_test.Layer3.{Ip, PingConfig}
use ddtsoft_net_test.Layer4.{PortPrinter, Attempt, attempt}
use ddtsoft_net_test.Layer4.Child.{
  Tcp, TcpConfig, tcp_config, wait_loop, timed_out, finish_token, await_token, run_token,
  l4_tcp_connect, l4_tcp_close, l4_create_tcp_child, l4_destroy_tcp_child,
}
use ddtsoft_net_test.Layer4.Child.Held.{Resource}
use ddtsoft_net_test.Layer4.Rounds.{Rounds}

-- What is held, the last handle, the port of the connection, and the time left.
record World : Type 0 where
  held : List Resource
  last : ℕ
  port : ℕ
  left : ℕ

abbrev rest : List Resource → List Resource
rest [] = []
rest (x ∷ xs) = xs

abbrev with_port : World → Option TcpConfig → World
with_port w none = w
with_port w (some c) = record w { port = c.remote_port }

abbrev firmware : Tcp World
firmware = record {
  find_tcp_sb = λ w. success;
  create_child = λ w. (
    (success, suc w.last),
    record w { held = Resource.tcp_child (suc w.last) ∷ w.held; last = suc w.last },
  );
  open_tcp4 = λ c w. (success, c);
  destroy_child = λ c w. record w { held = rest w.held };
  configure = λ tcp4 c w. (success, with_port w c);
  create_event = λ w. (
    (success, suc w.last),
    record w { held = Resource.boot_event (suc w.last) ∷ w.held; last = suc w.last },
  );
  create_timer = λ w. (
    (success, suc w.last),
    record w { held = Resource.boot_event (suc w.last) ∷ w.held; last = suc w.last },
  );
  set_timer = λ e t w. record w { left = t / 10000 };
  check_event = λ e w. (if w.left == 0 then success else not_ready, w);
  close_event = λ e w. record w { held = rest w.held };
  connect = λ tcp4 e w. (success, w);
  close = λ tcp4 e w. (success, w);
  token = λ e w.
      if (w.port == 80) || (w.port == 22)
      then success
      else if w.port == 443
      then device_error
      else not_ready;
  poll = λ tcp4 w. w;
  cancel = λ tcp4 e w. w;
  stall = λ t w. record w { left = w.left - t / 1000 };
}

abbrev idle : World
idle = record { held = Resource.boot_event 1 ∷ []; last = 1; port = 0; left = 0 }

abbrev ip : ℕ → Ip
ip n = record { b0 = 10; b1 = 0; b2 = 0; b3 = n }

abbrev config : PingConfig
config = record {
  local_ip = ip 2;
  target_ip = ip 7;
  subnet_mask = record { b0 = 255; b1 = 255; b2 = 255; b3 = 0 };
  gateway = ip 1;
  iterations = 4;
  timeout_ms = 0;
}

abbrev printer : PortPrinter
printer = record {
  multi_detail = λ a b. [];
  all_open = λ n. [];
  some_open = λ a b c. [];
  all_closed = λ n. [];
  scan_detail = λ a b. [];
  scan_open = λ a b c. [];
  scan_closed = λ n. [];
}

abbrev outcome : Option (Attempt × World) → Option Attempt
outcome none = none
outcome (some (a, w)) = some a

one_of_each :
    (outcome (attempt firmware config 80 3000 2000 100000 idle) ≡ some Attempt.opened)
    × (outcome (attempt firmware config 443 3000 2000 100000 idle) ≡ some Attempt.refused)
    × (outcome (attempt firmware config 8080 20 2000 100000 idle) ≡ some Attempt.refused)
unfolding attempt l4_create_tcp_child l4_tcp_connect l4_tcp_close l4_destroy_tcp_child tcp_config
    run_token await_token wait_loop timed_out finish_token
one_of_each = (refl, refl, refl)
