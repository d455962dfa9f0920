-- ===== src/Transport/Payload.antt =====
-- Application payloads on the private transport: `decode_application_payload` and
-- `encode_application_payload` of src/qapp_backend/private_transport/service.py.
pub mod RoundTrip
use call_backend.Prelude.{
  ℕ, Option, none, some, List, [], ◌∷◌, if◌then◌else◌, ◌==◌, nat_eq, ltb, length, Result, ok, err,
  value_error,
}
use call_backend.Value.{Value}

-- The module `json` with UTF-8: `loads` fails where one of the two refuses the bytes.
pub record Json : Type 0 where
  pub loads : List ℕ → Option Value
  pub dumps : Value → List ℕ

-- What a handler gets: a JSON value or bytes.
pub data Payload : Type 0 where
  json : Value → Payload
  binary : List ℕ → Payload

abbrev pub max_json_bytes : ℕ
max_json_bytes = 65536

unfoldable pub loaded : Option Value → Result Payload
loaded none = err (value_error "invalid JSON application payload")
loaded (some v) = ok (json v)

unfoldable pub decode_marked : Json → ℕ → List ℕ → Result Payload
unfolding loaded
decode_marked codec mark rest =
    if mark == 0
    then (if ltb max_json_bytes (length (mark ∷ rest))
        then err (value_error "JSON application payload exceeds limit")
        else loaded (codec.loads rest))
    else if mark == 1
    then ok (binary rest)
    else err (value_error "unsupported application payload encoding")

-- `decode_application_payload`
unfoldable pub decode_payload : Json → List ℕ → Result Payload
unfolding decode_marked
decode_payload codec [] = err (value_error "application payload is empty")
decode_payload codec (mark ∷ rest) = decode_marked codec mark rest

-- `encode_application_payload`
unfoldable pub encode_payload : Json → Payload → List ℕ
encode_payload codec (binary bytes) = 1 ∷ bytes
encode_payload codec (json v) = 0 ∷ codec.dumps v
