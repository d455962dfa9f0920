-- ===== src/Transport/Bootstrap/Issuing.antt =====
-- What `bootstrap` of src/qapp_backend/private_transport/service.py does for a caller that may have
-- a token: the endpoints, the token, and the file that tells the media relay of it.
use call_backend.Prelude.{
  ℕ, String, Bool, true, false, Option, none, some, ◌∷◌, if◌then◌else◌, ◌==◌, nat_eq, string_eq,
  Error, Result, ok, err, os_error, rate_limited,
}
use call_backend.Dict.{get, put}
use call_backend.Value.{as_text}
use call_backend.Auth.Service.{AuthService}
use call_backend.Reticulum.Sessions.{Session}
use call_backend.Transport.Tokens.{AttachGrant, Binding, issue, release}
use call_backend.Transport.Service.{TransportService, MediaGrant, next_write, later_writes}
use call_backend.Transport.Service.Invalidating.{files_of}
use call_backend.Transport.Bootstrap.Requests.{
  Outer, Request, Granted, Answer, refused, granted, owner_parts, Caller,
}

-- The endpoints after `_refresh_endpoints`, where it is called.
unfoldable pub refreshed_endpoints :
    Option (Option (String × String)) → TransportService → TransportService
refreshed_endpoints none t = t
refreshed_endpoints (some none) t = record t { endpoint = none; media_endpoint = none }
refreshed_endpoints (some (some (endpoint, media))) t = record t {
  endpoint = some endpoint;
  media_endpoint = some media;
}

abbrev pub is_realtime : Request → Bool
is_realtime r = r.purpose == "realtime"

abbrev pub media_grant : String → AttachGrant → String → MediaGrant
media_grant digest grant room_id = record {
  token_sha256 = digest;
  logical_session_id = grant.logical_session_id;
  authenticated_user = grant.authenticated_user;
  qapp_identity = grant.qapp_identity;
  purpose = grant.purpose;
  room_id = room_id;
  expires_at = grant.expires_at;
}

-- `_write_media_grant`; nothing is kept of a write that fails.
unfoldable pub write_media_grant :
    String → AttachGrant → String → TransportService → Result (Unit {0}) × TransportService
write_media_grant digest grant room_id t =
    if next_write t.disk
    then (
      ok tt,
      record t {
        disk = later_writes t.disk;
        grant_files = put t.grant_files digest (media_grant digest grant room_id);
        media_grant_files =
            put t.media_grant_files grant.logical_session_id
              (digest ∷ files_of (get t.media_grant_files grant.logical_session_id));
      },
    )
    else (err os_error, record t { disk = later_writes t.disk })

abbrev pub room_of : Session → Option String
room_of s = as_text (get s.metadata "call_room_id")

-- What is bound to the token of a caller.
unfoldable pub binding_of : Outer → Caller → Request → String → Binding
unfolding owner_parts
binding_of o c r destination = record {
  logical_session_id = c.session.session_id;
  logical_connection_id = c.logical_id;
  authenticated_user = c.user;
  qapp_identity = c.qapp;
  purpose = r.purpose;
  owner_binding_hash =
      o.owner_hash
        (owner_parts c.qapp c.logical_id destination c.session.session_id r.nonce r.purpose);
  nonce = r.nonce;
}

unfoldable pub answer_of : Outer → Request → Binding → String → String → String → ℕ → Granted
answer_of o r b destination endpoint certificate expires_at = record {
  logical_session_id = b.logical_session_id;
  destination = destination;
  endpoint = endpoint;
  server_name = o.server_name;
  certificate = certificate;
  attach_token = o.token;
  expires_at = expires_at;
  nonce = r.nonce;
  owner_binding_hash = b.owner_binding_hash;
  application_protocol = if is_realtime r then "moqt-18" else "qortal-private/1";
  moqt = is_realtime r;
}

abbrev pub with_transport : TransportService → AuthService → AuthService
with_transport t a = record a { server = record a.server { transport = t } }

abbrev pub handed :
    Outer → Granted → Result (Unit {0}) → TransportService → Result Answer × TransportService
handed o answer (err e) t = (err e, t)
handed o answer (ok _) t =
    (ok (granted answer), record t { tokens = release (o.hash o.token) t.tokens })

-- The media relay is told of a token for it, and the token is then taken from the authority.
unfoldable pub hand_over :
    Outer → Granted → AttachGrant → String → TransportService → Result Answer × TransportService
unfolding write_media_grant
hand_over o answer grant room_id t =
    let (written, t') = write_media_grant (o.hash o.token) grant room_id t in
    handed o answer written t'

-- except BootstrapRateLimited
abbrev pub is_rate_limited : Error → Bool
is_rate_limited rate_limited = true
is_rate_limited _ = false

-- What follows a call of `issue`; `room` is the call of the session where the token is for the relay.
unfoldable pub after_issue :
    Outer
    → (ℕ → Granted)
    → Option String
    → Result AttachGrant
    → TransportService
    → Result Answer × TransportService
unfolding hand_over
after_issue o answer room (err e) t =
    (if is_rate_limited e then ok (refused "bootstrap_rate_limited") else err e, t)
after_issue o answer none (ok grant) t = (ok (granted (answer grant.expires_at)), t)
after_issue o answer (some room_id) (ok grant) t =
    hand_over o (answer grant.expires_at) grant room_id t

unfoldable pub issue_token :
    Outer
    → Caller
    → Request
    → Option String
    → String
    → String
    → String
    → TransportService
    → Result Answer × TransportService
unfolding after_issue binding_of answer_of
issue_token o c r room destination endpoint certificate t =
    let b = binding_of o c r destination in
    let (grant, tokens) = issue b (o.hash o.token) o.world.now t.tokens in
    after_issue o (answer_of o r b destination endpoint certificate) room grant
      (record t { tokens = tokens })

-- The room that a token for the relay needs.
unfoldable pub needed_room : Request → Session → Option (Option String)
needed_room r s = if is_realtime r then some (room_of s) else none

unfoldable pub for_room :
    Outer
    → Caller
    → Request
    → Option (Option String)
    → String
    → String
    → String
    → TransportService
    → Result Answer × TransportService
unfolding issue_token
for_room o c r none destination endpoint certificate t =
    issue_token o c r none destination endpoint certificate t
for_room o c r (some none) destination endpoint certificate t =
    (ok (refused "call_room_required"), t)
for_room o c r (some (some room)) destination endpoint certificate t =
    issue_token o c r (some room) destination endpoint certificate t

-- Where the backend is reachable: its destination, the endpoint of the answer and the certificate.
unfoldable pub reachable : Outer → Request → TransportService → Option (String × String × String)
reachable o r t =
    all_of o.destination_hash t.endpoint t.certificate_sha256
      (if is_realtime r then t.media_endpoint else t.endpoint)
  where
    all_of :
        Option String
        → Option String
        → Option String
        → Option String
        → Option (String × String × String)
    all_of (some destination) (some own) (some certificate) (some endpoint) =
        some (destination, endpoint, certificate)
    all_of _ _ _ _ = none

unfoldable pub for_reach :
    Outer
    → Caller
    → Request
    → Option (String × String × String)
    → TransportService
    → Result Answer × TransportService
unfolding for_room needed_room
for_reach o c r none t = (ok (refused "transport_unavailable"), t)
for_reach o c r (some (destination, endpoint, certificate)) t =
    for_room o c r (needed_room r c.session) destination endpoint certificate t

-- The rest of `bootstrap` for a caller that may have a transport.
unfoldable pub serve : Outer → Caller → Request → AuthService → Result Answer × AuthService
unfolding for_reach reachable refreshed_endpoints
serve o c r a =
    let t = refreshed_endpoints o.refresh a.server.transport in
    let (answer, t') = for_reach o c r (reachable o r t) t in (answer, with_transport t' a)
