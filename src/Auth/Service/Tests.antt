-- ===== src/Auth/Service/Tests.antt =====
-- The properties of the authentication service at concrete inputs.
use call_backend.Prelude.{
  true, false, ◌≡◌, refl, none, some, [], ◌∷◌, Error, Result, ok, err, backpressure, string_eq, ◌⊎◌,
}
use call_backend.Dict.{get}
use call_backend.Value.{Value, dict, field, end, text}
use call_backend.Auth.Tests.{outside, verifier, proof}
use call_backend.Auth.Service.{World, AuthService, authenticate, revoke, is_runtime_error}
use call_backend.Auth.Service.Entering.{Entered, authenticate_sound}
use call_backend.Auth.Service.Leaving.{is_caught, revoke_cases}
use call_backend.Reticulum.Sessions.{Session}

abbrev world : Result (Unit {0}) → World
world sent = record {
  outside = outside;
  config = record {
    access_mode = "public";
    revision = "1";
    access_revalidate_interval = 0;
    access_outage_grace = 0;
  };
  now = 2000;
  results = λ address. [];
  sent = sent;
  digest = λ s. s;
}

abbrev session : Session
session = record {
  session_id = "s1";
  token_hash = "d1";
  created_at = 0;
  last_seen = 0;
  expires_at = 90000;
  authenticated_user = none;
  metadata = ("qapp_connection_id", text "tab") ∷ [];
  subscriptions = [];
  last_application_sequence = 0;
  connection = some "link";
  provisional = true;
  dedup = [];
  last_persisted_at = 0;
}

abbrev service : AuthService
service = record {
  server = record {
    limits = record {
      max_unauthenticated_sessions = 1;
      max_logical_sessions_per_link = 2;
      max_new_sessions_per_link_per_minute = 2;
    };
    manager = record {
      database = [];
      ttl = 60000;
      dedup_limit = 2;
      provisional_ttl = 30000;
      persist_interval = 10000;
      sessions = ("s1", session) ∷ [];
      closed = [];
    };
    logical_sessions = ("tab", "s1") ∷ [];
    links = [];
    transport = record {
      tokens = record {
        ttl = 30000;
        per_session_per_minute = 5;
        per_user_per_minute = 10;
        max_unused_per_session = 2;
        max_unused_global = 100;
        grants = [];
        issued = [];
        issued_users = [];
      };
      attached = [];
      media_grant_files = [];
      endpoint = none;
      media_endpoint = none;
      certificate_sha256 = none;
      latest_peer_address = none;
      grant_files = [];
      revocation_files = [];
      disk = [];
      closing = [];
    };
    handed_over = [];
  };
  verifier = verifier;
  cache = [];
}

abbrev message : Value
message = dict (
    field "type" (text "AUTHENTICATE")
      (field "payload" (dict (field "proof" (dict proof) end)) end))

authenticate_sound_example :
    ((authenticate (world (ok tt)) "s1" message service).1.server ≡ service.server)
    ⊎ Entered
        (world (ok tt))
        "s1"
        message
        service
        (authenticate (world (ok tt)) "s1" message service).1
authenticate_sound_example = authenticate_sound (world (ok tt)) "s1" message service (refl, tt)

abbrev refusing : Result (Unit {0})
refusing = err backpressure

revoke_cases_example :
    ((is_caught refusing ≡ true)
      × (get (revoke (world refusing) "s1" service).1.server.manager.sessions "s1" ≡ none))
    ⊎ ((e : Error) × (refusing ≡ err e)
        × (is_runtime_error e ≡ false)
        × (revoke (world refusing) "s1" service ≡ (err e, service)))
revoke_cases_example = revoke_cases (world refusing) "s1" service (refl, tt)
