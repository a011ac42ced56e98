-- ===== src/Tests/Balancer.antt =====
-- A gateway with two backends.
use echo_net.Base.{some, ◌+◌, ℕ, ◌≡◌, refl, List, [], ◌∷◌, none, Bool, true, arith, bytes}
use echo_net.Base.Maps.{find}
use echo_net.Protocol.MyProtocol.Message.{send_msg_req, send_msg_resp}
use echo_net.Gateway.State.{Gateway, Backend, new_gateway, has_fd}
use echo_net.Gateway.Pick.{pick_backend, pick_loop, try_backend, use_backend, advance_index}
use echo_net.Gateway.Handler.{business_handler, forward, count_forwarded}
use echo_net.Gateway.Threads.{health_check}
use echo_net.Base.Counts.{count}
use echo_net.Net.Socket.{in_progress, refused}
use echo_net.Gateway.Connect.{Instance, connect_backends, fds, opened, descriptors_kept}
use echo_net.Gateway.State.{PendingRequest}
use echo_net.Gateway.Choice.{IsPick, pick_backend-IsPick}
use echo_net.Gateway.Requests.{
  Arrival, Event, arrives, checked, cleaned, joined, handle, step, run, touches, spared,
  request_answered,
}

abbrev everyone : ℕ → Bool
everyone c = true

abbrev first_backend : Backend
first_backend = record {
  addr = bytes "a:1";
  conn = 100;
  fd = 10;
  last_pong_ms = 0;
  healthy = true;
  request_count = 0;
}

abbrev second_backend : Backend
second_backend = record {
  addr = bytes "b:1";
  conn = 101;
  fd = 11;
  last_pong_ms = 500;
  healthy = true;
  request_count = 0;
}

abbrev two : Gateway
two = record (new_gateway) {
  backends = first_backend ∷ second_backend ∷ [];
  backend_fds = 10 ∷ 11 ∷ [];
  next_new_id = 1;
  rr_index = 0;
}

-- A request of the client 7 under the id 42, and the response to the id that it is given.
abbrev asks : Arrival
asks = record {
  conn = 7;
  fd = 20;
  now = 5;
  now_ms = 0;
  message = record { type = send_msg_req; id = 42; payload = [] };
}

abbrev replies : Arrival
replies = record {
  conn = 100;
  fd = 10;
  now = 6;
  now_ms = 0;
  message = record { type = send_msg_resp; id = 1; payload = [] };
}

request_answered_example :
    let h = run everyone (handle everyone two asks).0 (checked 1000 ∷ []) in
    ((handle everyone two asks).1
      ≡ record { to = 100; message = record (asks.message) { id = 1 } } ∷ [])
    × ((handle everyone h replies).1
        ≡ record { to = 7; message = record (replies.message) { id = 42 } } ∷ [])
    × (find 1 (handle everyone h replies).0.pending ≡ none)
unfolding new_gateway has_fd pick_backend pick_loop try_backend use_backend advance_index spared
    touches run step health_check business_handler forward count_forwarded
request_answered_example =
    request_answered everyone two asks replies 100 (checked 1000 ∷ []) refl refl refl refl refl refl
      refl

abbrev day : List Event
day = joined (bytes "a:1") 100 10 ∷ arrives asks ∷ arrives replies ∷ arrives asks ∷ cleaned 6 ∷ []

abbrev asked : List Event
asked = joined (bytes "a:1") 100 10 ∷ arrives asks ∷ []

abbrev waiting : PendingRequest
waiting = record { client = 7; original_id = 42; created_at = 5 }

pick_backend-IsPick_example : IsPick two (pick_backend two)
unfolding new_gateway
pick_backend-IsPick_example = pick_backend-IsPick two (omega arith)

-- One connection is made in two steps, and one is refused.
abbrev instances : List Instance
instances =
    record {
      address = bytes "a:1";
      conn = 200;
      answers = record {
        socket = some 30;
        address = true;
        connecting = in_progress;
        writable = true;
        no_error = true;
      };
    }
    ∷ record {
      address = bytes "b:2";
      conn = 201;
      answers = record {
        socket = some 31;
        address = true;
        connecting = refused;
        writable = true;
        no_error = true;
      };
    }
    ∷ []

descriptors_kept_example :
    count 31 (connect_backends instances two).0
      + count 31 (fds (connect_backends instances two).1.backends)
    ≡ count 31 (opened instances) + count 31 (fds two.backends)
descriptors_kept_example = descriptors_kept 31 instances two
