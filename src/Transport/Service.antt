-- ===== src/Transport/Service.antt =====
-- `PrivateTransportService` of src/qapp_backend/private_transport/service.py: its state, the claim
-- of a session by a transport and its release.
pub mod Invalidating
pub mod Messages
pub mod Ownership
pub mod Revoking
mod Tests
use call_backend.Prelude.{
  ℕ, ◌+◌, String, Bool, false, ◌||◌, not, Option, none, some, List, [], ◌∷◌, ◌++◌, if◌then◌else◌,
  ◌==◌, string_eq, is_none, is_some, contains, Result, ok, err, attach_rejected, value_error,
}
use call_backend.Prelude.Raising.{◌>>=◌, ◌>>◌, require, or_raise}
use call_backend.Dict
use call_backend.Dict.{Dict, get, put}
use call_backend.Value.{
  Value, text, array, nil, cons, dict, get_field, as_text, exact_fields, equals_number,
}
use call_backend.Reticulum.Sessions.{Session}
use call_backend.Transport.Tokens.{
  Authority, AttachGrant, SessionView, Claim, consume, invalidate_session,
}
use call_backend.Transport.Payload.{Json, Payload, json, binary, decode_payload}

-- The file that tells the media relay of a token.
pub record MediaGrant : Type 0 where
  pub token_sha256 : String
  pub logical_session_id : String
  pub authenticated_user : String
  pub qapp_identity : String × String
  pub purpose : String
  pub room_id : String
  pub expires_at : ℕ

-- `attached` is the attribute `private_transport` of the sessions, by their ids. `grant_files` and
-- `revocation_files` are the directories of the media relay, a file by the digest in its name (of a
-- token, of a session id); `disk` tells which of the coming writes of a file succeed, all after the
-- last entry. `closing` are the transports that were asked to close.
pub record TransportService : Type 0 where
  pub tokens : Authority
  pub attached : Dict String String
  pub media_grant_files : Dict String (List String)
  pub endpoint : Option String
  pub media_endpoint : Option String
  pub certificate_sha256 : Option String
  pub latest_peer_address : Option String
  pub grant_files : Dict String MediaGrant
  pub revocation_files : Dict String ℕ
  pub disk : List Bool
  pub closing : List String

-- tuple(session.metadata.get("qapp_identity") or ()), where it is a pair of texts
unfoldable pub pair_of : Option Value → Option (String × String)
pair_of (some (array (cons (text name) (cons (text service) nil)))) = some (name, service)
pair_of _ = none

abbrev pub open_connection : (String → Bool) → Option String → Bool
open_connection is_open none = false
open_connection is_open (some c) = is_open c

-- What `consume` reads of a session.
unfoldable pub view_of : (String → Bool) → Session → SessionView
unfolding pair_of
view_of is_open s = record {
  provisional = s.provisional;
  expires_at = s.expires_at;
  authenticated_user = s.authenticated_user;
  qapp_identity = pair_of (get s.metadata "qapp_identity");
  qapp_connection_id = as_text (get s.metadata "qapp_connection_id");
  has_open_connection = open_connection is_open s.connection;
}

abbrev pub view_found : (String → Bool) → Option Session → Option SessionView
view_found is_open none = none
view_found is_open (some s) = some (view_of is_open s)

-- `self.server.sessions.get`
unfoldable pub session_lookup : (String → Bool) → Dict String Session → String → Option SessionView
session_lookup is_open sessions id = view_found is_open (get sessions id)

abbrev or_reject {ℓ} : {A : Type ℓ} → Option A → Result A
or_reject none = err attach_rejected
or_reject (some a) = ok a

abbrev require_match : Bool → Result (Unit {0})
require_match Bool.true = ok tt
require_match false = err attach_rejected

-- The checks of `attach` on its metadata: the token and what it is claimed for.
unfoldable pub read_metadata : Value → Result (String × Claim)
read_metadata metadata = do
  fs ← or_reject (
      exact_fields
        ("protocolVersion" ∷ "logicalSessionId" ∷ "attachToken" ∷ "nonce" ∷ "purpose"
          ∷ "ownerBindingHash" ∷ [])
        metadata)
  require_match (equals_number (get_field fs "protocolVersion") 1)
  logical_session_id ← or_reject (as_text (get_field fs "logicalSessionId"))
  token ← or_reject (as_text (get_field fs "attachToken"))
  nonce ← or_reject (as_text (get_field fs "nonce"))
  purpose ← or_reject (as_text (get_field fs "purpose"))
  owner ← or_reject (as_text (get_field fs "ownerBindingHash"))
  ok (
    token,
    record {
      logical_session_id = logical_session_id;
      purpose = purpose;
      owner_binding_hash = owner;
      nonce = nonce;
    },
  )

unfoldable pub attach_session :
    String → String → Result AttachGrant → TransportService → Result String × TransportService
attach_session transport peer (err e) t = (err e, t)
attach_session transport peer (ok grant) t =
    if is_none (get t.attached grant.logical_session_id)
    then (
      ok grant.logical_session_id,
      record t {
        attached = put t.attached grant.logical_session_id transport;
        latest_peer_address = some peer;
      },
    )
    else (err attach_rejected, t)

unfoldable pub attach_claim :
    (String → String)
    → (String → Option SessionView)
    → ℕ
    → String
    → String
    → Result (String × Claim)
    → TransportService
    → Result String × TransportService
unfolding attach_session
attach_claim hash lookup now transport peer (err e) t = (err e, t)
attach_claim hash lookup now transport peer (ok (token, claim)) t =
    let (grant, tokens) = consume (hash token) claim lookup now t.tokens in
    attach_session transport peer grant (record t { tokens = tokens })

-- `attach`: the id of the session that the transport now serves. `hash` is `token_hash`.
unfoldable pub attach :
    (String → String)
    → (String → Option SessionView)
    → ℕ
    → String
    → String
    → Value
    → TransportService
    → Result String × TransportService
unfolding attach_claim read_metadata
attach hash lookup now transport peer metadata t =
    attach_claim hash lookup now transport peer (read_metadata metadata) t

-- `detach`
unfoldable pub detach : String → String → TransportService → TransportService
detach session transport t =
    if is_some (get t.attached session) transport
    then record t { attached = Dict.remove t.attached session }
    else t

abbrev pub next_write : List Bool → Bool
next_write [] = Bool.true
next_write (b ∷ bs) = b

abbrev pub later_writes : List Bool → List Bool
later_writes [] = []
later_writes (b ∷ bs) = bs
