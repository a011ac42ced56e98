-- ===== src/Tests/Talk.antt =====
-- The theorems on the chat service at concrete inputs: two users in one room.
use echo_net.Base.{
  stoul, to_number, ◌+◌, ◌%◌, ◌^◌, ◌≡◌, refl, List, [], ◌∷◌, ◌++◌, true, false, some, arith, length,
  Returns, bytes, Text, find_byte, skip_spaces, same_text,
}
use mathlib.Core.List.{Memᴰ}
use echo_net.Base.Maps.{find, put}
use echo_net.Protocol.MyProtocol.Message.{
  Message, MyType, login_req, create_room_req, join_room_req, send_msg_req, leave_room_req,
  error_resp,
}
use echo_net.Chat.Writer.{MessageRecord, Writer, db_writer_loop}
use echo_net.Chat.Writer.Batches.{settled}
use echo_net.Chat.Writer.Threads.{Storage, each_message_once, held, accepted, offered, waiting}
use echo_net.Chat.Writer.Threads as Threads
use echo_net.Chat.Writer.Exit.{db_writer_loop-Returns}
use echo_net.Chat.State.{
  Conn, Session, Chat, Answers, Statement, sent, reply, get_session_by_conn, next_64,
}
use echo_net.Chat.Service.{handle_message, on_connection_closed, is_limited, new_chat}
use echo_net.Chat.Talk.{talk_message}
use echo_net.Chat.Rooms.{create_room, handle_join_room, handle_create_room}
use echo_net.Chat.Login.{with_session, handle_login}
use echo_net.Chat.Responses.{IsAnswered}
use echo_net.Chat.Answered.{needs_session, handle_message-IsAnswered, refused_before_login}
use echo_net.Chat.Consistent.{is_in_room}
use echo_net.Chat.History.{Event, received, run, run-IsSound, new_chat-IsSound}
use echo_net.Chat.Delivery.{message_reaches_room}
use echo_net.Chat.Bounds.{IsBounded, run-IsBounded}
use echo_net.Chat.Stale.{stays_in_old_room}

abbrev works : Statement
works = record { connected = true; init = true; prepare = true; bind_param = true; execute = true }

abbrev fine : Answers
fine = record {
  global_limit = true;
  user_limit = λ key. true;
  select_user = works;
  bind_result = true;
  password = some (bytes "pw");
  insert_room = works;
  delete_room = works;
  redis = true;
}

abbrev alice : Conn
alice = record { connection = 1; fd = 5 }

abbrev bob : Conn
bob = record { connection = 2; fd = 6 }

abbrev says : MyType → Text → Message
says ty text = record { type = ty; id = 9; payload = text }

-- Both log in, the first one makes a room and the second one joins it.
abbrev together : List Event
together =
    received fine alice (says login_req (bytes "a|pw"))
    ∷ received fine bob (says login_req (bytes "b|pw"))
    ∷ received fine alice (says create_room_req (bytes "r"))
    ∷ received fine bob (says join_room_req (bytes "1"))
    ∷ []

abbrev first_state : Chat
first_state = record new_chat { next_room_id = 1 }

abbrev alice_in : Session
alice_in = record { connection = alice; user_id = 1; user_name = bytes "a"; room_id = 1 }

abbrev bob_in : Session
bob_in = record { connection = bob; user_id = 2; user_name = bytes "b"; room_id = 1 }

handle_message-IsAnswered_example :
    IsAnswered
      (run first_state together)
      alice
      (says leave_room_req [])
      (handle_message fine alice (says leave_room_req []) (run first_state together))
handle_message-IsAnswered_example =
    handle_message-IsAnswered fine alice (says leave_room_req []) (run first_state together)

refused_before_login_example :
    handle_message fine alice (says send_msg_req (bytes "hi")) new_chat ≡ record {
      chat = record new_chat { total_requests = next_64 new_chat.total_requests };
      effects =
          reply alice (says send_msg_req (bytes "hi")) error_resp (bytes "Not logged in") ∷ [];
    }
unfolding new_chat needs_session get_session_by_conn find is_limited
refused_before_login_example =
    refused_before_login fine alice (says send_msg_req (bytes "hi")) new_chat refl refl refl

message_reaches_room_example :
    Memᴰ
      (sent bob (talk_message alice_in (bytes "hi")))
      (handle_message fine alice
        (says send_msg_req (bytes "hi"))
        (run first_state together)).effects
unfolding new_chat is_limited find run handle_join_room with_session handle_create_room handle_login
    find_byte same_text put stoul skip_spaces to_number
message_reaches_room_example =
    message_reaches_room 1 together fine alice (says send_msg_req (bytes "hi")) 0 6 1 alice_in
      bob_in (omega arith) (omega arith) refl refl refl refl refl refl refl

run-IsBounded_example : IsBounded (run new_chat together)
unfolding new_chat
run-IsBounded_example = run-IsBounded new_chat together (record {
  session_id = omega arith;
  room_id = omega arith;
  queue = omega arith;
  dropped = omega arith;
  logins = omega arith;
  active = omega arith;
  requests = omega arith;
  errors = omega arith;
})

abbrev hello : MessageRecord
hello = record { room_id = 1; user_id = 1; content = bytes "hi" }

abbrev idle : Storage
idle = record {
  writer = record { msg_queue = []; db_writer_stop = false; dropped_messages = 0 };
  batch = [];
  phase = waiting;
  log = [];
}

abbrev steps : List Threads.Event
steps =
    Threads.enqueued hello ∷ Threads.locked ∷ Threads.enqueued hello ∷ Threads.inserted true ∷ []

each_message_once_example :
    (held (Threads.run idle steps) ≡ held idle ++ accepted idle steps)
    × (((Threads.run idle steps).writer.dropped_messages + length (accepted idle steps)) % 2 ^ 64
        ≡ (0 + offered steps) % 2 ^ 64)
each_message_once_example = each_message_once idle steps

abbrev full : Writer
full = record { msg_queue = hello ∷ hello ∷ []; db_writer_stop = true; dropped_messages = 0 }

db_writer_loop-Returns_example :
    Returns (λ log. settled log ≡ hello ∷ hello ∷ []) (db_writer_loop (false ∷ true ∷ []) full)
db_writer_loop-Returns_example = db_writer_loop-Returns (false ∷ true ∷ []) full refl (omega arith)

stays_in_old_room_example :
    (is_in_room 0 (
        find 1
          (create_room fine alice
            (says create_room_req (bytes "s"))
            (run first_state together)
            0
            alice_in).chat.rooms)
      ≡ true)
    × (is_in_room 0 (
          find 1
            (on_connection_closed fine 5
              (create_room fine alice
                (says create_room_req (bytes "s"))
                (run first_state together)
                0
                alice_in).chat).chat.rooms)
        ≡ true)
unfolding new_chat is_limited find run handle_join_room with_session handle_create_room handle_login
    find_byte same_text put stoul skip_spaces to_number
stays_in_old_room_example =
    stays_in_old_room fine fine alice (says create_room_req (bytes "s")) (run first_state together)
      5 0 alice_in
      (run-IsSound first_state together (omega arith) (new_chat-IsSound 1 (omega arith))) refl refl
      refl refl refl
