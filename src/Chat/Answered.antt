-- ===== src/Chat/Answered.antt =====
-- Every message gets one response.
pub mod Handlers
use echo_net.Base.{
  stoul, not, ℕ, ◌+◌, ◌≡◌, refl, ap, sym, ◌∙◌, List, [], ◌∷◌, ◌++◌, Bool, true, false, Option, none,
  some, Text, if◌then◌else◌, bytes, ◌==◌, ◌⊎◌, inl, inr, arith, map, length, Bool-cases, find_byte,
  not, is_empty, drop, ◌%◌, ◌^◌, append_assoc, take, to_string,
}
use echo_net.Base.Maps.{find}
use echo_net.Room.{Room, broadcast, add_member, member_count}
use echo_net.Protocol.MyProtocol.Message.{
  Message, MyType, login_req, create_room_req, join_room_req, leave_room_req, send_msg_req,
  heartbeat_req, error_resp, login_resp, create_room_resp, join_room_resp, unset, leave_room_resp,
  send_msg_resp, broadcast_msg, heartbeat_resp, member_count_update,
}
use echo_net.Chat.State.{
  Conn, Session, Chat, Answers, Effect, redis_set_online, redis_sadd, redis_srem, room_inserted,
  Outcome, reply, get_session_by_conn, on_redis, succeeds, get_room_by_id, set_room_id, next_64,
}
use echo_net.Chat.Login.{with_session, add_session, is_valid, login_at, handle_login}
use echo_net.Chat.Rooms.{
  handle_create_room, handle_join_room, handle_leave_room, remove_from_room, broadcast_member_count,
  check_and_remove_empty_room, create_room, enter_room, join_found, join_parsed, join_room,
  leave_room, leave_old, left_target, add_to_room,
}
use echo_net.Chat.Talk.{handle_send_message, handle_heartbeat, talk_message, talk_in, send_message}
use echo_net.Chat.Service.{handle_message, dispatch, refuse, send_rate_limited, is_limited}
use echo_net.Chat.Responses.{
  is_push, response_type, responses, Kept, IsAnswered, responses-send_all, IsSilent,
  broadcast_member_count-IsSilent, check_and_remove-IsSilent, on_redis-IsSilent, responses-reply,
}
use echo_net.Chat.Answered.Handlers.{
  IsAnswered-well, IsAnswered-error, with_session-IsAnswered, login_at-IsAnswered,
  create_room-IsAnswered, join_parsed-IsAnswered, leave_room-IsAnswered, send_message-IsAnswered,
}

-- The count of the request is no change.
IsAnswered-counted :
    (c : Chat) (n : ℕ) (conn : Conn) (msg : Message) (out : Outcome)
    → IsAnswered (record c { total_requests = n }) conn msg out
    → IsAnswered c conn msg out
IsAnswered-counted c n conn msg out h = record {
  response = h.response;
  only = h.only;
  same_id = h.same_id;
  right_type = elim h.right_type [
    | inl e ↦ inl e
    | inr (e, k) ↦ inr (
      e,
      record {
        sessions = k.sessions;
        objects = k.objects;
        rooms = k.rooms;
        next_session_id = k.next_session_id;
        next_room_id = k.next_room_id;
        writer = k.writer;
        active_connections = k.active_connections;
      },
    )
  ];
}

refuse-IsAnswered :
    (conn : Conn) (msg : Message) (text : Text) (c : Chat)
    → IsAnswered c conn msg (refuse conn msg text c)
unfolding refuse
refuse-IsAnswered conn msg text c = IsAnswered-error c _ conn msg text (record {
  sessions = refl;
  objects = refl;
  rooms = refl;
  next_session_id = refl;
  next_room_id = refl;
  writer = refl;
  active_connections = refl;
})

dispatch-IsAnswered :
    (a : Answers) (conn : Conn) (msg : Message) (c : Chat) (ty : MyType)
    → ty ≡ msg.type
    → IsAnswered c conn msg (dispatch a conn msg c ty)
unfolding dispatch handle_login handle_create_room handle_join_room handle_leave_room
    handle_send_message handle_heartbeat join_room response_type responses is_push
dispatch-IsAnswered a conn msg c login_req e =
    login_at-IsAnswered a conn msg c (find_byte 124 msg.payload) (ap response_type e)
dispatch-IsAnswered a conn msg c create_room_req e =
    with_session-IsAnswered c conn msg (get_session_by_conn c conn) _
      (λ o s. create_room-IsAnswered a conn msg c o s (ap response_type e))
dispatch-IsAnswered a conn msg c join_room_req e =
    with_session-IsAnswered c conn msg (get_session_by_conn c conn) _
      (λ o s. join_parsed-IsAnswered a conn msg c o s (stoul msg.payload) (ap response_type e))
dispatch-IsAnswered a conn msg c leave_room_req e =
    with_session-IsAnswered c conn msg (get_session_by_conn c conn) _
      (λ o s. leave_room-IsAnswered a conn msg c o s (ap response_type e))
dispatch-IsAnswered a conn msg c send_msg_req e =
    with_session-IsAnswered c conn msg (get_session_by_conn c conn) _
      (λ o s. send_message-IsAnswered conn msg c o s (ap response_type e))
dispatch-IsAnswered a conn msg c heartbeat_req e =
    IsAnswered-well c c conn msg heartbeat_resp [] [] (ap response_type e) refl refl
dispatch-IsAnswered a conn msg c login_resp e =
    refuse-IsAnswered conn msg (bytes "Unsupported message type") c
dispatch-IsAnswered a conn msg c create_room_resp e =
    refuse-IsAnswered conn msg (bytes "Unsupported message type") c
dispatch-IsAnswered a conn msg c join_room_resp e =
    refuse-IsAnswered conn msg (bytes "Unsupported message type") c
dispatch-IsAnswered a conn msg c unset e =
    refuse-IsAnswered conn msg (bytes "Unsupported message type") c
dispatch-IsAnswered a conn msg c leave_room_resp e =
    refuse-IsAnswered conn msg (bytes "Unsupported message type") c
dispatch-IsAnswered a conn msg c send_msg_resp e =
    refuse-IsAnswered conn msg (bytes "Unsupported message type") c
dispatch-IsAnswered a conn msg c broadcast_msg e =
    refuse-IsAnswered conn msg (bytes "Unsupported message type") c
dispatch-IsAnswered a conn msg c heartbeat_resp e =
    refuse-IsAnswered conn msg (bytes "Unsupported message type") c
dispatch-IsAnswered a conn msg c error_resp e =
    refuse-IsAnswered conn msg (bytes "Unsupported message type") c
dispatch-IsAnswered a conn msg c member_count_update e =
    refuse-IsAnswered conn msg (bytes "Unsupported message type") c

-- Every message gets exactly one response, to the connection it came from and with its id, whatever
-- the limits, the database and Redis answer. It has the type that belongs to the request, or it is
-- an error, and then the sessions, the rooms, the ids and the queue are as before.
pub handle_message-IsAnswered :
    (a : Answers) (conn : Conn) (msg : Message) (c : Chat)
    → IsAnswered c conn msg (handle_message a conn msg c)
unfolding handle_message send_rate_limited
handle_message-IsAnswered a conn msg c = elim (Bool-cases (is_limited a conn msg c)) [
  | inl e ↦ rw e (refuse-IsAnswered conn msg (bytes "RATE_LIMITED") c)
  | inr e ↦
      let counted : Chat = record c { total_requests = next_64 c.total_requests } in
      rw e (
        IsAnswered-counted c (next_64 c.total_requests) conn msg _
          (dispatch-IsAnswered a conn msg counted msg.type refl))
]

-- The requests that a connection may only make after a login.
unfoldable pub needs_session : MyType → Bool
needs_session create_room_req = true
needs_session join_room_req = true
needs_session leave_room_req = true
needs_session send_msg_req = true
needs_session _ = false

dispatch-none :
    (a : Answers) (conn : Conn) (msg : Message) (c : Chat) (ty : MyType)
    → needs_session ty ≡ true
    → get_session_by_conn c conn ≡ none
    → dispatch a conn msg c ty
      ≡ record { chat = c; effects = reply conn msg error_resp (bytes "Not logged in") ∷ [] }
unfolding dispatch needs_session handle_create_room handle_join_room handle_leave_room
    handle_send_message with_session
dispatch-none a conn msg c create_room_req k e = rw e refl
dispatch-none a conn msg c join_room_req k e = rw e refl
dispatch-none a conn msg c leave_room_req k e = rw e refl
dispatch-none a conn msg c send_msg_req k e = rw e refl
dispatch-none a conn msg c login_req k e = absurd (ground arith)
dispatch-none a conn msg c heartbeat_req k e = absurd (ground arith)
dispatch-none a conn msg c login_resp k e = absurd (ground arith)
dispatch-none a conn msg c create_room_resp k e = absurd (ground arith)
dispatch-none a conn msg c join_room_resp k e = absurd (ground arith)
dispatch-none a conn msg c unset k e = absurd (ground arith)
dispatch-none a conn msg c leave_room_resp k e = absurd (ground arith)
dispatch-none a conn msg c send_msg_resp k e = absurd (ground arith)
dispatch-none a conn msg c broadcast_msg k e = absurd (ground arith)
dispatch-none a conn msg c heartbeat_resp k e = absurd (ground arith)
dispatch-none a conn msg c error_resp k e = absurd (ground arith)
dispatch-none a conn msg c member_count_update k e = absurd (ground arith)

-- A connection with no session that asks to create, join or leave a room or to send a message, and
-- that no limit stops, gets one error and nothing else is sent; only the count of requests changes.
pub refused_before_login :
    (a : Answers) (conn : Conn) (msg : Message) (c : Chat)
    → needs_session msg.type ≡ true
    → get_session_by_conn c conn ≡ none
    → is_limited a conn msg c ≡ false
    → handle_message a conn msg c ≡ record {
      chat = record c { total_requests = next_64 c.total_requests };
      effects = reply conn msg error_resp (bytes "Not logged in") ∷ [];
    }
unfolding handle_message get_session_by_conn
refused_before_login a conn msg c k e l =
    rw l (
      dispatch-none a conn msg (record c { total_requests = next_64 c.total_requests }) msg.type k
        e)
