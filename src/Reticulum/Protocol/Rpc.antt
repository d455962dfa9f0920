-- ===== src/Reticulum/Protocol/Rpc.antt =====
-- RPC requests and their dispatch: `decode_rpc_request` of
-- src/qapp_backend/reticulum/protocol.py and `RpcRouter` of src/qapp_backend/reticulum/rpc.py.
pub mod Bounds
use call_backend.Prelude.{
  ℕ, String, Bool, true, false, not, ◌||◌, ◌&&◌, Option, none, some, List, [], ◌∷◌, if◌then◌else◌,
  ◌==◌, nat_eq, string_eq, ltb, length, codes, Error, Result, ok, err, value_error, protocol_error,
  is_protocol_error,
}
use call_backend.Prelude.Raising.{◌>>=◌, ◌>>◌, require}
use call_backend.Dict.{Dict, get, put}
use call_backend.Value.{Value, Fields, dict, get_field, equals_number}
use call_backend.Transport.Payload.{Payload, json, binary}
use call_backend.Reticulum.Base64.{b64decode}
use call_backend.Reticulum.Protocol.{
  Wire, Encoding, encoding_of, encoding_in, field_text, when, decode_as,
}

pub record RpcRequestEnvelope : Type 0 where
  pub request_id : String
  pub encoding : Encoding
  pub payload : List ℕ

abbrev pub or_bad_request : {A : Type 0} → Option A → Result A
or_bad_request none = err (protocol_error "malformed RPC request envelope")
or_bad_request (some a) = ok a

abbrev pub is_version_one : Value → Bool
is_version_one (dict fs) = equals_number (get_field fs "version") 1
is_version_one _ = false

-- `decode_rpc_request`: each failure is the same `ProtocolError`.
unfoldable pub decode_rpc_request : Value → Result RpcRequestEnvelope
decode_rpc_request value = do
  or_bad_request (when (is_version_one value))
  request_id ← or_bad_request (field_text value "requestId")
  encoding ← or_bad_request (encoding_in (field_text value "encoding"))
  encoded ← or_bad_request (field_text value "payloadBase64")
  payload ← or_bad_request (b64decode (codes encoded))
  ok (record { request_id = request_id; encoding = encoding; payload = payload })

-- What a handler does: it gets the id of the request and the payload, and may change `S`.
abbrev pub Handler : Type 0 → Type 0
Handler S = String → Payload → S → Result Payload × S

pub record RpcRouter (S : Type 0) : Type 0 where
  pub max_payload : ℕ
  pub max_response : ℕ
  pub handlers : Dict String (Handler S)

abbrev pub is_rooted : List ℕ → Bool
is_rooted [] = false
is_rooted (c ∷ cs) = c == 47

abbrev pub is_registered : {S : Type 0} → Option (Handler S) → Bool
is_registered none = false
is_registered (some handler) = true

-- `register`; a coroutine function has no counterpart here.
unfoldable pub register : {S : Type 0} → String → Handler S → RpcRouter S → Result (RpcRouter S)
register path handler r =
    if not (is_rooted (codes path)) || is_registered (get r.handlers path)
    then err (value_error "RPC path must be unique and start with '/'")
    else ok (record r { handlers = put r.handlers path handler })

-- What `dispatch` returns: the result of the handler, or `_error` of a code, a message and an id.
pub data Response : Type 0 where
  answered : Payload → Response
  failed : String → String → Option String → Response

-- The first and the last `except` clause of `dispatch`.
abbrev pub failure : Option String → Error → Response
failure id e =
    if is_protocol_error e
    then failed "protocol_error" "Invalid RPC request envelope" none
    else failed "internal_error" "RPC handler failed" id

-- The bytes whose number `_validate_response_size` tests.
abbrev pub encoded_response : Wire → Payload → List ℕ
encoded_response wire (binary bytes) = bytes
encoded_response wire (json v) = wire.codec.dumps v

unfoldable pub respond : Wire → ℕ → String → Result Payload → Response
respond wire max_response id (err e) = failure (some id) e
respond wire max_response id (ok result) =
    if ltb max_response (length (encoded_response wire result))
    then failed "response_too_large" "RPC response exceeds size limit" (some id)
    else answered result

unfoldable pub call_handler :
    {S : Type 0} → Wire → ℕ → String → Handler S → Result Payload → S → Response × S
unfolding respond
call_handler wire max_response id handler (err e) s = (failure (some id) e, s)
call_handler wire max_response id handler (ok payload) s =
    let (result, s') = handler id payload s in (respond wire max_response id result, s')

unfoldable pub for_handler :
    {S : Type 0} → Wire → ℕ → RpcRequestEnvelope → Option (Handler S) → S → Response × S
unfolding call_handler
for_handler wire max_response e none s =
    (failed "not_found" "Unknown RPC endpoint" (some e.request_id), s)
for_handler wire max_response e (some handler) s =
    call_handler wire max_response e.request_id handler
      (decode_as wire "RPC JSON payload is invalid" e.encoding e.payload) s

unfoldable pub for_envelope :
    {S : Type 0} → Wire → String → Result RpcRequestEnvelope → RpcRouter S → S → Response × S
unfolding for_handler
for_envelope wire path (err e) r s = (failure none e, s)
for_envelope wire path (ok e) r s =
    if ltb r.max_payload (length e.payload)
    then (failed "payload_too_large" "RPC request exceeds size limit" (some e.request_id), s)
    else for_handler wire r.max_response e (get r.handlers path) s

-- `dispatch`
unfoldable pub dispatch : {S : Type 0} → Wire → String → Value → RpcRouter S → S → Response × S
unfolding for_envelope decode_rpc_request
dispatch wire path value r s = for_envelope wire path (decode_rpc_request value) r s
