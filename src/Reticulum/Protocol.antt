-- ===== src/Reticulum/Protocol.antt =====
-- Control messages and data envelopes: src/qapp_backend/reticulum/protocol.py. `Protocol.Rpc` has
-- the requests.
pub mod RoundTrip
pub mod Rpc
mod Tests
use call_backend.Prelude.{
  ℕ, String, Bool, true, false, not, ◌&&◌, ◌||◌, Option, none, some, List, [], ◌∷◌, if◌then◌else◌,
  ◌==◌, string_eq, leb, length, codes, Result, ok, err, value_error, protocol_error,
}
use call_backend.Prelude.Raising.{◌>>=◌, ◌>>◌, require, or_raise}
use call_backend.Value.{
  Value, Fields, dict, text, field, end, get_field, as_text, exact_fields, field_names,
}
use call_backend.Transport.Payload.{Json, Payload, json, binary}
use call_backend.Reticulum.Base64.{b64encode, b64decode}

-- The modules that the text of a message goes through: `json` with UTF-8, and `bytes.decode("ascii")`.
pub record Wire : Type 0 where
  pub codec : Json
  pub ascii : List ℕ → String

abbrev pub max_logical_connection_id_length : ℕ
max_logical_connection_id_length = 128

unfoldable pub is_logical_id : String → Bool
is_logical_id id =
    leb 1 (length (codes id)) && leb (length (codes id)) max_logical_connection_id_length

pub data ControlType : Type 0 where
  ping pong close : ControlType

unfoldable pub control_name : ControlType → String
control_name ping = "PING"
control_name pong = "PONG"
control_name close = "CLOSE"

unfoldable pub control_type_of : String → Option ControlType
control_type_of name =
    if name == "PING"
    then some ping
    else if name == "PONG"
    then some pong
    else if name == "CLOSE"
    then some close
    else none

pub record ControlMessage : Type 0 where
  pub kind : ControlType
  pub connection_id : Option String

-- The object that `encode` writes.
unfoldable pub control_value : ControlType → Option String → Result Value
unfolding control_name is_logical_id
control_value close (some id) =
    if is_logical_id id
    then ok (dict (field "type" (text "CLOSE") (field "connectionId" (text id) end)))
    else err (value_error "CLOSE requires a valid logical connection ID")
control_value close none = err (value_error "CLOSE requires a valid logical connection ID")
control_value kind none = ok (dict (field "type" (text (control_name kind)) end))
control_value kind (some id) = err (value_error "connectionId is only valid for CLOSE")

-- `ControlMessage.encode`
unfoldable pub encode_control : Wire → ControlMessage → Result (List ℕ)
unfolding control_value
encode_control wire m = do v ← control_value m.kind m.connection_id; ok (wire.codec.dumps v)

abbrev pub malformed : {A : Type 0} → Option A → Result A
malformed none = err (protocol_error "malformed or unsupported control message")
malformed (some a) = ok a

-- A message of that type, with the fields that go with it.
unfoldable pub control_fields : ControlType → Value → Option ControlMessage
unfolding is_logical_id
control_fields close v = do_close (exact_fields ("type" ∷ "connectionId" ∷ []) v)
  where
    with_id : Option String → Option ControlMessage
    with_id none = none
    with_id (some id) =
        if is_logical_id id then some (record { kind = close; connection_id = some id }) else none

    do_close : Option Fields → Option ControlMessage
    do_close none = none
    do_close (some fs) = with_id (as_text (get_field fs "connectionId"))
control_fields kind v = do_plain (exact_fields ("type" ∷ []) v)
  where
    do_plain : Option Fields → Option ControlMessage
    do_plain none = none
    do_plain (some fs) = some (record { kind = kind; connection_id = none })

abbrev pub type_field : Value → Option String
type_field (dict fs) = as_text (get_field fs "type")
type_field _ = none

abbrev pub kind_in : Option String → Option ControlType
kind_in none = none
kind_in (some name) = control_type_of name

abbrev pub typed_control : Option ControlType → Value → Option ControlMessage
typed_control none v = none
typed_control (some kind) v = control_fields kind v

-- `ControlMessage.decode`: each failure is the same `ProtocolError`.
unfoldable pub decode_control : Wire → List ℕ → Result ControlMessage
unfolding control_type_of control_fields
decode_control wire payload = do
  v ← malformed (wire.codec.loads payload)
  malformed (typed_control (kind_in (type_field v)) v)

pub data Encoding : Type 0 where
  as_json as_base64 : Encoding

abbrev pub encoding_name : Encoding → String
encoding_name as_json = "json"
encoding_name as_base64 = "base64"

unfoldable pub encoding_of : String → Option Encoding
encoding_of name =
    if name == "json" then some as_json else if name == "base64" then some as_base64 else none

pub record DataEnvelope : Type 0 where
  pub connection_id : String
  pub encoding : Encoding
  pub payload : List ℕ

abbrev pub loaded : String → Option Value → Result Payload
loaded reason none = err (protocol_error reason)
loaded reason (some v) = ok (json v)

-- `decode_payload`, of an envelope or of an RPC request
unfoldable pub decode_as : Wire → String → Encoding → List ℕ → Result Payload
decode_as wire reason as_base64 payload = ok (binary payload)
decode_as wire reason as_json payload = loaded reason (wire.codec.loads payload)

-- The encoding of a payload where the caller names none.
abbrev pub encoding_for : Payload → Encoding
encoding_for (binary bytes) = as_base64
encoding_for (json v) = as_json

abbrev pub chosen : Option String → Payload → String
chosen none payload = encoding_name (encoding_for payload)
chosen (some encoding) payload = encoding

abbrev pub bytes_of : Payload → Result (List ℕ)
bytes_of (binary bytes) = ok bytes
bytes_of (json v) = err (value_error "base64 payload must be bytes-like")

-- `json.dumps` refuses bytes.
abbrev pub dumped : Wire → Payload → Result (List ℕ)
dumped wire (binary bytes) = err (value_error "not JSON serializable")
dumped wire (json v) = ok (wire.codec.dumps v)

unfoldable pub raw_of : Wire → String → Payload → Result (List ℕ)
raw_of wire encoding payload =
    if encoding == "base64"
    then bytes_of payload
    else if encoding == "json"
    then dumped wire payload
    else err (value_error "unsupported payload encoding")

unfoldable pub envelope_value : Wire → String → String → List ℕ → Value
envelope_value wire connection_id encoding raw = dict (
    field "connectionId" (text connection_id) (
      field "payloadBase64" (text (wire.ascii (b64encode raw)))
        (field "encoding" (text encoding) end)))

-- `encode_data_envelope`
unfoldable pub encode_data_envelope : Wire → String → Payload → Option String → Result (List ℕ)
unfolding raw_of envelope_value
encode_data_envelope wire connection_id payload encoding = do
  require (not (connection_id == "")) "connection_id is required"
  raw ← raw_of wire (chosen encoding payload) payload
  ok (wire.codec.dumps (envelope_value wire connection_id (chosen encoding payload) raw))

abbrev pub or_malformed : {A : Type 0} → Option A → Result A
or_malformed none = err (protocol_error "malformed DATA envelope")
or_malformed (some a) = ok a

abbrev pub field_text : Value → String → Option String
field_text (dict fs) key = as_text (get_field fs key)
field_text _ key = none

abbrev pub encoding_in : Option String → Option Encoding
encoding_in none = none
encoding_in (some name) = encoding_of name

abbrev pub when : Bool → Option (Unit {0})
when true = some tt
when false = none

-- `decode_data_envelope`: each failure is the same `ProtocolError`.
unfoldable pub decode_data_envelope : Wire → List ℕ → Result DataEnvelope
unfolding is_logical_id encoding_of
decode_data_envelope wire payload = do
  v ← or_malformed (wire.codec.loads payload)
  connection_id ← or_malformed (field_text v "connectionId")
  or_malformed (when (is_logical_id connection_id))
  encoding ← or_malformed (encoding_in (field_text v "encoding"))
  encoded ← or_malformed (field_text v "payloadBase64")
  raw ← or_malformed (b64decode (codes encoded))
  ok (record { connection_id = connection_id; encoding = encoding; payload = raw })
