-- ===== src/Call/Requests.antt =====
-- The checks that each handler of src/qapp_backend/call/service.py makes of its message before it
-- takes the lock, in their order.
use call_backend.Prelude.{
  ℕ, String, Bool, false, ◌&&◌, ◌||◌, Option, none, some, List, [], ◌∷◌, if◌then◌else◌, ◌==◌,
  nat_eq, string_eq, leb, length, all, codes, Result, ok, err, value_error,
}
use call_backend.Prelude.Raising.{◌>>=◌, ◌>>◌, require, or_raise}
use call_backend.Value.{Value, Fields, get_field, as_text, exact_fields}
use call_backend.Call.Base64.{is_word, decode_base64url}
use call_backend.Call.Env.{Env, Peers}

-- [A-Za-z0-9._:-]
unfoldable pub is_request_char : ℕ → Bool
is_request_char c = is_word c || c == b'.' || c == b':'

-- [a-f0-9]
unfoldable pub is_hex : ℕ → Bool
is_hex c = (leb b'a' c && leb c b'f') || (leb b'0' c && leb c b'9')

-- ^[...]{low,high}$ with `fullmatch`
unfoldable pub matches : (ℕ → Bool) → ℕ → ℕ → String → Bool
matches class low high s =
    all class (codes s) && leb low (length (codes s)) && leb (length (codes s)) high

abbrev pub is_room_id : String → Bool
is_room_id = matches is_word 3 64

abbrev pub is_participant_id : String → Bool
is_participant_id = matches is_word 3 128

abbrev pub is_request_id : String → Bool
is_request_id = matches is_request_char 8 128

abbrev pub is_key_id : String → Bool
is_key_id = matches is_hex 32 32

unfoldable pub require_authenticated : Peers → String → Result String
require_authenticated peers session = elim (peers.authenticated_user session) [
  | none ↦ err (value_error "authenticated session required")
  | some user ↦
      if peers.provisional session || user == ""
      then err (value_error "authenticated session required")
      else ok user
]

unfoldable pub read_request_id : Fields → Result String
read_request_id fs = do
  value ← or_raise (as_text (get_field fs "requestId")) "invalid requestId"
  require (is_request_id value) "invalid requestId"
  ok value

unfoldable pub read_room_id : Fields → Result String
read_room_id fs = do
  value ← or_raise (as_text (get_field fs "roomId")) "invalid roomId"
  require (is_room_id value) "invalid roomId"
  ok value

starts_uncompressed : List ℕ → Bool
starts_uncompressed (b ∷ bs) = b == 4
starts_uncompressed [] = false

unfoldable pub validate_public_keys : Env → Option Value → Option Value → Result (Unit {0})
unfolding starts_uncompressed
validate_public_keys env agreement signing = do
  bytes ← decode_base64url agreement (some 65)
  require (starts_uncompressed bytes) "invalid P-256 public key"
  require (env.valid_point bytes) "invalid P-256 public key"
  decode_base64url signing (some 32)
  ok tt

-- `secret` is the decoded `inviteTokenHash` of a create, or `inviteToken` of a join.
pub record EntryRequest : Type 0 where
  pub request_id : String
  pub room_id : String
  pub secret : List ℕ
  pub agreement_key : String
  pub signing_key : String

abbrev text_or_empty : Option String → String
text_or_empty none = ""
text_or_empty (some s) = s

parse_entry : Env → String → Fields → Result EntryRequest
unfolding read_request_id read_room_id validate_public_keys
parse_entry env secret_name fs = do
  request_id ← read_request_id fs
  room_id ← read_room_id fs
  secret ← decode_base64url (get_field fs secret_name) (some 32)
  validate_public_keys env (get_field fs "keyAgreementPublicKey") (get_field fs "signingPublicKey")
  ok (record {
    request_id = request_id;
    room_id = room_id;
    secret = secret;
    agreement_key = text_or_empty (as_text (get_field fs "keyAgreementPublicKey"));
    signing_key = text_or_empty (as_text (get_field fs "signingPublicKey"));
  })

unfoldable pub parse_create : Env → Value → Result EntryRequest
unfolding parse_entry
parse_create env message = do
  fs ←
      or_raise
        (exact_fields
          ("type" ∷ "requestId" ∷ "roomId" ∷ "inviteTokenHash" ∷ "keyAgreementPublicKey"
            ∷ "signingPublicKey" ∷ [])
          message)
        "invalid call_create message"
  parse_entry env "inviteTokenHash" fs

unfoldable pub parse_join : Env → Value → Result EntryRequest
unfolding parse_entry
parse_join env message = do
  fs ←
      or_raise
        (exact_fields
          ("type" ∷ "requestId" ∷ "roomId" ∷ "inviteToken" ∷ "keyAgreementPublicKey"
            ∷ "signingPublicKey" ∷ [])
          message)
        "invalid call_join message"
  parse_entry env "inviteToken" fs

pub record RoomRequest : Type 0 where
  pub request_id : String
  pub room_id : String

parse_room : Fields → Result RoomRequest
unfolding read_request_id read_room_id
parse_room fs = do
  request_id ← read_request_id fs
  room_id ← read_room_id fs
  ok (record { request_id = request_id; room_id = room_id })

unfoldable pub parse_leave : Value → Result RoomRequest
unfolding parse_room
parse_leave message = do
  fs ←
      or_raise (exact_fields ("type" ∷ "requestId" ∷ "roomId" ∷ []) message)
        "invalid call_leave message"
  parse_room fs
