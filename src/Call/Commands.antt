-- ===== src/Call/Commands.antt =====
-- The checks of the messages that command an existing room: group keys, moderation and screen
-- sharing, from src/qapp_backend/call/service.py.
use call_backend.Prelude.{
  ℕ, String, not, ◌&&◌, Option, none, some, [], ◌∷◌, ◌==◌, nat_eq, string_eq, if◌then◌else◌, length,
  Result, ok,
}
use call_backend.Prelude.Raising.{◌>>=◌, ◌>>◌, require, or_raise}
use call_backend.Value.{Value, get_field, as_text, exact_fields}
use call_backend.Call.Base64.{decode_base64url}
use call_backend.Call.Requests.{
  is_participant_id, is_key_id, is_request_id, read_request_id, read_room_id,
}

pub record KeyRequest : Type 0 where
  pub request_id : String
  pub room_id : String
  pub target_id : String
  pub key_id : String
  pub nonce : Option Value
  pub ciphertext : Option Value
  pub signature : Option Value

abbrev pub group_key_envelope_ciphertext_bytes : ℕ
group_key_envelope_ciphertext_bytes = 48

unfoldable pub parse_group_key : String → Value → Result KeyRequest
parse_group_key sender message = do
  fs ←
      or_raise
        (exact_fields
          ("type" ∷ "requestId" ∷ "roomId" ∷ "targetParticipantId" ∷ "keyId" ∷ "nonce"
            ∷ "ciphertext" ∷ "signature" ∷ [])
          message)
        "invalid call_group_key message"
  request_id ← read_request_id fs
  room_id ← read_room_id fs
  target ← or_raise (as_text (get_field fs "targetParticipantId")) "invalid group key metadata"
  key_id ← or_raise (as_text (get_field fs "keyId")) "invalid group key metadata"
  require (is_participant_id target && not (target == sender) && is_key_id key_id)
      "invalid group key metadata"
  decode_base64url (get_field fs "nonce") (some 12)
  ciphertext ← decode_base64url (get_field fs "ciphertext") none
  require (length ciphertext == group_key_envelope_ciphertext_bytes) "invalid group key ciphertext"
  decode_base64url (get_field fs "signature") (some 64)
  ok (record {
    request_id = request_id;
    room_id = room_id;
    target_id = target;
    key_id = key_id;
    nonce = get_field fs "nonce";
    ciphertext = get_field fs "ciphertext";
    signature = get_field fs "signature";
  })

pub data Operation : Type 0 where
  mute allow_mic remove readmit : Operation

unfoldable pub read_operation : String → Option Operation
read_operation s =
    if s == "mute"
    then some mute
    else if s == "allow_mic"
    then some allow_mic
    else if s == "remove"
    then some remove
    else if s == "readmit"
    then some readmit
    else none

pub record ModerationRequest : Type 0 where
  pub request_id : String
  pub room_id : String
  pub target : String
  pub operation : Operation

-- `operation not in {...}` hashes the value, so an array or a `dict` there raises `TypeError`; both
-- that and the `ValueError` end the request, and are one error here.
unfoldable pub parse_moderation : Value → Result ModerationRequest
unfolding read_operation
parse_moderation message = do
  fs ←
      or_raise
        (exact_fields ("type" ∷ "requestId" ∷ "roomId" ∷ "targetParticipantId" ∷ "operation" ∷ [])
          message)
        "invalid moderation request"
  request_id ← read_request_id fs
  room_id ← read_room_id fs
  target ← or_raise (as_text (get_field fs "targetParticipantId")) "invalid moderation operation"
  require (is_participant_id target) "invalid moderation operation"
  name ← or_raise (as_text (get_field fs "operation")) "invalid moderation operation"
  operation ← or_raise (read_operation name) "invalid moderation operation"
  ok (record { request_id = request_id; room_id = room_id; target = target; operation = operation })

pub data ScreenCommand : Type 0 where
  start stop renew : ScreenCommand

unfoldable pub read_screen_command : String → Option ScreenCommand
read_screen_command s =
    if s == "call_screen_start"
    then some start
    else if s == "call_screen_stop"
    then some stop
    else if s == "call_screen_renew"
    then some renew
    else none

pub record ScreenRequest : Type 0 where
  pub command : ScreenCommand
  pub request_id : String
  pub room_id : String
  pub share_id : String

unfoldable pub parse_screen : Value → Result ScreenRequest
unfolding read_screen_command
parse_screen message = do
  fs ←
      or_raise (exact_fields ("type" ∷ "requestId" ∷ "roomId" ∷ "shareId" ∷ []) message)
        "invalid screen control message"
  name ← or_raise (as_text (get_field fs "type")) "invalid screen control message"
  command ← or_raise (read_screen_command name) "invalid screen control message"
  request_id ← read_request_id fs
  room_id ← read_room_id fs
  share_id ← or_raise (as_text (get_field fs "shareId")) "invalid screen share id"
  require (is_request_id share_id) "invalid screen share id"
  ok (record { command = command; request_id = request_id; room_id = room_id; share_id = share_id })
