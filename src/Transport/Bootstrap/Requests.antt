-- ===== src/Transport/Bootstrap/Requests.antt =====
-- Requests for a token of the private transport, and the checks of what they say and of who sent
-- them: src/qapp_backend/private_transport/service.py, `_validate_bootstrap_context`.
use call_backend.Prelude.{
  ℕ, String, Bool, false, not, ◌&&◌, Option, none, some, List, [], ◌∷◌, if◌then◌else◌, ◌==◌, nat_eq,
  string_eq, leb, contains, is_some, Result, ok, err, value_error,
}
use call_backend.Prelude.Raising.{◌>>=◌, ◌>>◌, require, or_raise}
use call_backend.Dict.{get}
use call_backend.Value.{Value, text, get_field, as_text, exact_fields, equals_number}
use call_backend.Call.Base64.{is_word}
use call_backend.Call.Requests.{matches}
use call_backend.Auth.Identity.{Identity, normalize_qapp_identity}
use call_backend.Auth.Service.{World}
use call_backend.Reticulum.Sessions.{Session}
use call_backend.Reticulum.Server.{Link, Server, session_of}
use call_backend.Transport.Service.{pair_of}

-- What `bootstrap` reads of an `RpcContext`; `session` is the id of its session.
pub record RpcContext : Type 0 where
  pub connection : Option String
  pub session : Option String
  pub logical_connection_id : Option String

-- `token` is what `secrets` makes, `hash` the digest of a token in hexadecimal, `owner_hash` that of
-- texts joined by NUL. `refresh` is what `_refresh_endpoints` finds where reachability is automatic:
-- the two endpoints, or nothing where it raises.
pub record Outer : Type 0 where
  pub world : World
  pub token : String
  pub hash : String → String
  pub owner_hash : List String → String
  pub destination_hash : Option String
  pub server_name : String
  pub refresh : Option (Option (String × String))

pub record Request : Type 0 where
  pub nonce : String
  pub purpose : String

-- The fields of the answer that are not constants.
pub record Granted : Type 0 where
  pub logical_session_id : String
  pub destination : String
  pub endpoint : String
  pub server_name : String
  pub certificate : String
  pub attach_token : String
  pub expires_at : ℕ
  pub nonce : String
  pub owner_binding_hash : String
  pub application_protocol : String
  pub moqt : Bool

pub data Answer : Type 0 where
  refused : String → Answer
  granted : Granted → Answer

-- The parts that `owner_binding_hash` joins and hashes.
unfoldable pub owner_parts :
    String × String → String → String → String → String → String → List String
owner_parts qapp logical_id destination session nonce purpose =
    "qortal-private-owner-v2" ∷ qapp.0 ∷ qapp.1 ∷ logical_id ∷ destination ∷ session ∷ nonce
    ∷ purpose ∷ []

-- `PURPOSES`
unfoldable pub is_purpose : String → Bool
is_purpose p = contains ("game" ∷ "file-transfer" ∷ "realtime" ∷ []) p

-- The checks of the payload; the text of the error is the code that is returned.
unfoldable pub check_request : Value → Result Request
unfolding is_purpose
check_request payload = do
  fs ←
      or_raise (exact_fields ("version" ∷ "transport" ∷ "nonce" ∷ "purpose" ∷ []) payload)
        "invalid_request"
  require (equals_number (get_field fs "version") 1) "unsupported_version"
  require (is_some (as_text (get_field fs "transport")) "quic-masque-inner-v1")
      "unsupported_transport"
  purpose ← or_raise (as_text (get_field fs "purpose")) "unsupported_purpose"
  require (is_purpose purpose) "unsupported_purpose"
  nonce ← or_raise (as_text (get_field fs "nonce")) "invalid_nonce"
  require (matches is_word 32 128 nonce) "invalid_nonce"
  ok (record { nonce = nonce; purpose = purpose })

abbrev pub carries : Option Link → String → Bool
carries none logical_id = false
carries (some l) logical_id = not l.closed && contains l.logical_connection_ids logical_id

abbrev pub is_account : Option String → Bool
is_account none = false
is_account (some user) = not (user == "")

abbrev pub same_normal : String → String → Result Identity → Result (String × String)
same_normal name service (err e) = err (value_error "unauthenticated")
same_normal name service (ok qapp) =
    if qapp.name == name && qapp.service == service
    then ok (name, service)
    else err (value_error "unauthenticated")

-- normalize_qapp_identity(*pair) == pair, where the metadata holds a pair
unfoldable pub normal_identity : World → Option (String × String) → Result (String × String)
normal_identity w none = err (value_error "unauthenticated")
normal_identity w (some (name, service)) =
    same_normal name service
      (normalize_qapp_identity w.outside (some (text name)) (some (text service)))

-- A session with what was found out about it.
pub record Caller : Type 0 where
  pub session : Session
  pub connection : String
  pub logical_id : String
  pub user : String
  pub qapp : String × String

-- The checks of the context and of the session.
unfoldable pub check_session : World → RpcContext → Server → Result Caller
unfolding normal_identity
check_session w ctx v = do
  connection ← or_raise ctx.connection "unauthenticated"
  logical_id ← or_raise ctx.logical_connection_id "unauthenticated"
  require (carries (get v.links connection) logical_id) "unauthenticated"
  s ← or_raise (session_of logical_id v) "unauthenticated"
  require (is_some ctx.session s.session_id) "unauthenticated"
  require (is_some s.connection connection) "unauthenticated"
  require (not s.provisional) "unauthenticated"
  require (is_account s.authenticated_user) "unauthenticated"
  user ← or_raise s.authenticated_user "unauthenticated"
  require (not (leb s.expires_at w.now)) "unauthenticated"
  qapp ← normal_identity w (pair_of (get s.metadata "qapp_identity"))
  ok (record {
    session = s;
    connection = connection;
    logical_id = logical_id;
    user = user;
    qapp = qapp;
  })
