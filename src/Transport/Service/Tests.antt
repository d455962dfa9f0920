-- ===== src/Transport/Service/Tests.antt =====
-- The properties of the private transport service at concrete inputs.
use call_backend.Prelude.{
  String, ◌≡◌, refl, Option, none, some, [], ◌∷◌, ok, true, false, string_eq, nat_eq, same_elements,
  contains,
}
use call_backend.Dict
use call_backend.Dict.{get, put, retain}
use call_backend.Value.{
  Value, text, num, dict, field, end, as_text, get_field, exact_fields, field_names, equals_number,
}
use call_backend.Transport.Tokens.{
  AttachGrant, Authority, SessionView, Claim, consume, consume_found, claim_matches,
  session_matches, expire, is_live,
}
use call_backend.Transport.Service.{
  TransportService, attach, attach_claim, attach_session, read_metadata, detach,
}
use call_backend.Transport.Service.Invalidating.{invalidate}
use call_backend.Transport.Service.Ownership.{
  detaching, Change, owners, detached, call_refines, Admitted, attach_sound,
}
use call_backend.Transport.Service.Revoking.{CutOff, invalidate_cuts}

abbrev grant : AttachGrant
grant = record {
  token_hash = "digest";
  logical_session_id = "session";
  logical_connection_id = "tab";
  authenticated_user = "Qalice";
  qapp_identity = ("calls", "APP");
  purpose = "game";
  owner_binding_hash = "owner";
  nonce = "nonce";
  expires_at = 31000;
}

abbrev tokens : Authority
tokens = record {
  ttl = 30000;
  per_session_per_minute = 5;
  per_user_per_minute = 10;
  max_unused_per_session = 2;
  max_unused_global = 100;
  grants = ("digest", grant) ∷ [];
  issued = [];
  issued_users = [];
}

abbrev idle : TransportService
idle = record {
  tokens = tokens;
  attached = [];
  media_grant_files = [];
  endpoint = some "10.0.0.1:4433";
  media_endpoint = none;
  certificate_sha256 = some "cert";
  latest_peer_address = none;
  grant_files = [];
  revocation_files = [];
  disk = [];
  closing = [];
}

abbrev busy : TransportService
busy = record idle { attached = ("session", "t1") ∷ [] }

abbrev view : SessionView
view = record {
  provisional = false;
  expires_at = 90000;
  authenticated_user = some "Qalice";
  qapp_identity = some ("calls", "APP");
  qapp_connection_id = some "tab";
  has_open_connection = true;
}

abbrev lookup : String → Option SessionView
lookup id = some view

abbrev hash : String → String
hash token = "digest"

abbrev metadata : Value
metadata = dict (
    field "protocolVersion" (num 1) (
      field "logicalSessionId" (text "session") (
        field "attachToken" (text "token") (
          field "nonce" (text "nonce")
            (field "purpose" (text "game") (field "ownerBindingHash" (text "owner") end))))))

attaches : (attach hash lookup 2000 "t1" "peer" metadata idle).0 ≡ ok "session"
unfolding attach attach_claim attach_session read_metadata consume consume_found claim_matches
    session_matches expire is_live get put retain exact_fields field_names same_elements contains
    as_text get_field equals_number Dict.remove
attaches = refl

attach_sound_example :
    (claim : Claim) × (token : String) × (read_metadata metadata ≡ ok (token, claim))
    × Admitted lookup 2000 "t1" idle
        (attach hash lookup 2000 "t1" "peer" metadata idle).1
        "session"
        (hash token)
        claim
attach_sound_example = attach_sound hash lookup 2000 "t1" "peer" metadata idle "session" attaches

call_refines_example :
    Change (owners busy) (detaching "session" "t2") (owners (detach "session" "t2" busy))
call_refines_example =
    call_refines (detaching "session" "t2") busy (detach "session" "t2" busy)
      (detached "session" "t2")

invalidate_cuts_example :
    CutOff hash "session" 5000 true busy (invalidate hash "session" true 5000 busy)
invalidate_cuts_example = invalidate_cuts hash "session" true 5000 busy
