-- ===== src/Protocol/MyProtocol/Message.antt =====
-- The message types, their codes, and the encoder.
use echo_net.Base.{
  ℕ, ◌+◌, ◌%◌, ◌^◌, ◌<◌, ◌≡◌, refl, List, [], ◌++◌, Bool, true, false, Option, some, none, arith,
  length, if◌then◌else◌, ◌==◌,
}
use echo_net.Protocol.MyProtocol.Bytes.{bytes_16, bytes_32}

-- `enum class MyType`; `unset` is the value 0 of a message that holds nothing yet.
pub data MyType : Type 0 where
  login_req login_resp create_room_req create_room_resp join_room_req join_room_resp : MyType
  unset : MyType
  leave_room_req leave_room_resp send_msg_req send_msg_resp broadcast_msg : MyType
  heartbeat_req heartbeat_resp error_resp member_count_update : MyType

unfoldable pub type_code : MyType → ℕ
type_code unset = 0x00
type_code login_req = 0x01
type_code login_resp = 0x02
type_code create_room_req = 0x03
type_code create_room_resp = 0x04
type_code join_room_req = 0x05
type_code join_room_resp = 0x06
type_code leave_room_req = 0x07
type_code leave_room_resp = 0x08
type_code send_msg_req = 0x09
type_code send_msg_resp = 0x0a
type_code broadcast_msg = 0x0b
type_code heartbeat_req = 0x0c
type_code heartbeat_resp = 0x0d
type_code error_resp = 0x0e
type_code member_count_update = 0x0f

-- `isValidMsgType` and the `static_cast` behind it: the type with a code, if there is one.
unfoldable pub cast_type : ℕ → Option MyType
cast_type t =
    if t == 0x01
    then some login_req
    else if t == 0x02
    then some login_resp
    else if t == 0x03
    then some create_room_req
    else if t == 0x04
    then some create_room_resp
    else if t == 0x05
    then some join_room_req
    else if t == 0x06
    then some join_room_resp
    else if t == 0x07
    then some leave_room_req
    else if t == 0x08
    then some leave_room_resp
    else if t == 0x09
    then some send_msg_req
    else if t == 0x0a
    then some send_msg_resp
    else if t == 0x0b
    then some broadcast_msg
    else if t == 0x0c
    then some heartbeat_req
    else if t == 0x0d
    then some heartbeat_resp
    else if t == 0x0e
    then some error_resp
    else if t == 0x0f
    then some member_count_update
    else none

unfoldable pub is_valid_msg_type : ℕ → Bool
unfolding cast_type
is_valid_msg_type t = elim (cast_type t) [ none ↦ false | some ty ↦ true ]

pub record Message : Type 0 where
  pub type : MyType
  pub id : ℕ
  pub payload : List ℕ

-- `MAX_BODY_SIZE`
abbrev pub max_body_size : ℕ
max_body_size = 16777216

-- `encodeMessage`: the length is a `uint32_t`, so it wraps.
unfoldable pub encode_message : MyType → ℕ → List ℕ → List ℕ
encode_message ty id payload =
    bytes_32 ((6 + length payload) % 2 ^ 32)
    ++ (bytes_16 (type_code ty) ++ (bytes_32 id ++ payload))

-- `encode`
unfoldable pub encode : Message → List ℕ
unfolding encode_message
encode m = encode_message m.type m.id m.payload

-- `MyMessage()`
unfoldable pub no_message : Message
no_message = record { type = unset; id = 0; payload = [] }

pub cast_type-type_code :
    (ty : MyType) → is_valid_msg_type (type_code ty) ≡ true → cast_type (type_code ty) ≡ some ty
unfolding cast_type type_code is_valid_msg_type
cast_type-type_code unset h = cc
cast_type-type_code _ h = refl

pub type_code-lt : (ty : MyType) → type_code ty < 2 ^ 16
unfolding type_code
type_code-lt login_req = omega arith
type_code-lt _ = omega arith
