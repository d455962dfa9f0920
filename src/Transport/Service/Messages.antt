-- ===== src/Transport/Service/Messages.antt =====
-- `handle_application_message` of src/qapp_backend/private_transport/service.py.
use call_backend.Prelude.{
  ℕ, String, Bool, ◌||◌, Option, none, some, List, if◌then◌else◌, ◌==◌, string_eq, is_some,
  contains, Result, ok, err, value_error,
}
use call_backend.Prelude.Raising.{◌>>=◌, ◌>>◌, require, or_raise}
use call_backend.Dict.{Dict, get}
use call_backend.Value.{Value, dict, get_field, as_text}
use call_backend.Transport.Payload.{Json, Payload, json, binary, decode_payload}
use call_backend.Transport.Service.{TransportService}

-- A call of a message handler.
pub record Invocation : Type 0 where
  pub handler : String
  pub session : String
  pub message_id : String
  pub qapp_connection_id : String
  pub lane : String
  pub transport : String
  pub message : Payload

-- self.server.message_handlers.get(message_type, self.server.message_handlers.get("*"))
unfoldable pub handler_for : List String → String → Option String
handler_for handlers kind =
    if contains handlers kind then some kind else if contains handlers "*" then some "*" else none

-- The type of a message, which is bytes or an object.
unfoldable pub type_of : Payload → Result (Option String)
type_of (binary bytes) = ok (some "file_binary")
type_of (json (dict fs)) = ok (as_text (get_field fs "type"))
type_of (json _) = err (value_error "private application payload must be an object")

-- DEVELOPMENT_MESSAGE_TYPES, or bytes
unfoldable pub is_supported : String → Bool
is_supported kind =
    kind == "private_transport_echo" || kind == "file_request" || kind == "file_binary"

-- `handle_application_message`, up to the call of the handler, for a session with `metadata`.
unfoldable pub handle_message :
    Json
    → List String
    → String
    → String
    → Dict String Value
    → String
    → String
    → List ℕ
    → TransportService
    → Result Invocation
unfolding type_of is_supported handler_for
handle_message codec handlers transport session metadata lane message_id payload t = do
  require (is_some (get t.attached session) transport) "private transport is detached"
  message ← decode_payload codec payload
  kind ← type_of message
  logical_id ←
      or_raise (as_text (get metadata "qapp_connection_id")) "logical session is unavailable"
  message_type ← or_raise kind "private application message is unsupported"
  require (is_supported message_type) "private application message is unsupported"
  handler ←
      or_raise (handler_for handlers message_type) "private application message is unsupported"
  ok (record {
    handler = handler;
    session = session;
    message_id = message_id;
    qapp_connection_id = logical_id;
    lane = lane;
    transport = transport;
    message = message;
  })
