-- ===== src/Transport/Bootstrap/Tests.antt =====
-- The properties of `bootstrap` at a concrete input.
use call_backend.Prelude.{
  String, true, false, ◌≡◌, refl, none, some, [], ◌∷◌, ok, string_eq, nat_eq, contains,
  same_elements, arith, count,
}
use call_backend.Dict.{get, put, retain}
use call_backend.Value.{
  Value, text, num, array, cons, nil, dict, field, end, get_field, as_text, exact_fields,
  field_names, equals_number,
}
use call_backend.Call.Base64.{is_word}
use call_backend.Call.Requests.{matches}
use call_backend.Auth.Identity.{normalize_qapp_identity}
use call_backend.Auth.Service.{World, AuthService, require_session}
use call_backend.Reticulum.Sessions.{Session}
use call_backend.Reticulum.Server.{session_of}
use call_backend.Transport.Tokens.{
  SessionView, issue, refresh, expire, prune_rates, prune, is_limited, unused, record_grant,
  make_grant, setdefault,
}
use call_backend.Transport.Service.{attach, pair_of}
use call_backend.Transport.Bootstrap.{bootstrap, for_request, for_caller, for_access}
use call_backend.Transport.Bootstrap.Issuing.{
  serve, for_reach, reachable, refreshed_endpoints, needed_room, for_room, issue_token, after_issue,
  binding_of, answer_of,
}
use call_backend.Transport.Bootstrap.Requests.{
  Outer, RpcContext, Request, Caller, Granted, granted, check_request, check_session,
  normal_identity, owner_parts, is_purpose,
}
use call_backend.Transport.Bootstrap.Results.{Grounds, bootstrap_sound}
use call_backend.Transport.Bootstrap.Attaching.{metadata_of, bootstrap-attach}

abbrev world : World
world = record {
  outside = record {
    strip = λ s. s;
    lower = λ s. s;
    upper = λ s. s;
    canonical_proof = λ s. [];
    hashes = record { sha256 = λ bytes. []; ripemd160 = λ bytes. [] };
    verifies = λ key signature bytes. true;
  };
  config = record {
    access_mode = "public";
    revision = "1";
    access_revalidate_interval = 0;
    access_outage_grace = 0;
  };
  now = 1000;
  results = λ address. [];
  sent = ok tt;
  digest = λ s. s;
}

abbrev outer : Outer
outer = record {
  world = world;
  token = "token";
  hash = λ s. s;
  owner_hash = λ parts. "owner";
  destination_hash = some "dest";
  server_name = "backend";
  refresh = none;
}

abbrev session : Session
session = record {
  session_id = "s1";
  token_hash = "d1";
  created_at = 0;
  last_seen = 0;
  expires_at = 90000;
  authenticated_user = some "Qalice";
  metadata =
      ("qapp_identity", array (cons (text "calls") (cons (text "APP") nil)))
      ∷ ("qapp_connection_id", text "tab")
      ∷ [];
  subscriptions = [];
  last_application_sequence = 0;
  connection = some "link";
  provisional = false;
  dedup = [];
  last_persisted_at = 0;
}

abbrev service : AuthService
service = record {
  server = record {
    limits = record {
      max_unauthenticated_sessions = 1;
      max_logical_sessions_per_link = 2;
      max_new_sessions_per_link_per_minute = 2;
    };
    manager = record {
      database = [];
      ttl = 60000;
      dedup_limit = 2;
      provisional_ttl = 30000;
      persist_interval = 10000;
      sessions = ("s1", session) ∷ [];
      closed = [];
    };
    logical_sessions = ("tab", "s1") ∷ [];
    links =
        (
          "link",
          record {
            closed = false;
            logical_connection_ids = "tab" ∷ [];
            new_logical_session_times = [];
          },
        )
        ∷ [];
    transport = record {
      tokens = record {
        ttl = 30000;
        per_session_per_minute = 5;
        per_user_per_minute = 10;
        max_unused_per_session = 2;
        max_unused_global = 100;
        grants = [];
        issued = [];
        issued_users = [];
      };
      attached = [];
      media_grant_files = [];
      endpoint = some "10.0.0.1:4433";
      media_endpoint = none;
      certificate_sha256 = some "cert";
      latest_peer_address = none;
      grant_files = [];
      revocation_files = [];
      disk = [];
      closing = [];
    };
    handed_over = [];
  };
  verifier = record {
    challenges = [];
    max_outstanding_challenges = 1;
    enforce_qapp_allowlist = false;
    allowed_qapps = [];
  };
  cache = [];
}

abbrev context : RpcContext
context = record {
  connection = some "link";
  session = some "s1";
  logical_connection_id = some "tab";
}

abbrev nonce : String
nonce = "0123456789abcdef0123456789abcdef"

abbrev payload : Value
payload = dict (
    field "version" (num 1) (
      field "transport" (text "quic-masque-inner-v1")
        (field "nonce" (text nonce) (field "purpose" (text "game") end))))

abbrev request : Request
request = record { nonce = nonce; purpose = "game" }

abbrev caller : Caller
caller = record {
  session = session;
  connection = "link";
  logical_id = "tab";
  user = "Qalice";
  qapp = ("calls", "APP");
}

abbrev answer : Granted
answer = record {
  logical_session_id = "s1";
  destination = "dest";
  endpoint = "10.0.0.1:4433";
  server_name = "backend";
  certificate = "cert";
  attach_token = "token";
  expires_at = 31000;
  nonce = nonce;
  owner_binding_hash = "owner";
  application_protocol = "qortal-private/1";
  moqt = false;
}

reads : check_request payload ≡ ok request
unfolding check_request exact_fields field_names same_elements contains get_field as_text
    equals_number is_purpose matches is_word
reads = refl

checks : check_session world context service.server ≡ ok caller
unfolding check_session session_of get contains normal_identity normalize_qapp_identity pair_of
    as_text
checks = refl

grants : (bootstrap outer context payload service).0 ≡ ok (granted answer)
unfolding bootstrap for_request for_caller for_access serve for_reach reachable refreshed_endpoints
    needed_room for_room issue_token after_issue binding_of answer_of owner_parts check_request
    exact_fields field_names same_elements contains get_field as_text equals_number is_purpose
    matches is_word check_session session_of get normal_identity normalize_qapp_identity pair_of
    require_session issue refresh expire retain prune_rates prune is_limited unused count
    record_grant make_grant setdefault put
grants = refl

abbrev view : SessionView
view = record {
  provisional = false;
  expires_at = 90000;
  authenticated_user = some "Qalice";
  qapp_identity = some ("calls", "APP");
  qapp_connection_id = some "tab";
  has_open_connection = true;
}

bootstrap_sound_example :
    Grounds outer context payload service (bootstrap outer context payload service).1 answer
bootstrap_sound_example = bootstrap_sound outer context payload service answer grants

bootstrap-attach_example :
    (attach
      (λ s. s)
      (λ id. some view)
      2000
      "t1"
      "peer"
      (metadata_of answer "game")
      (bootstrap outer context payload service).1.server.transport).0
    ≡ ok "s1"
bootstrap-attach_example =
    bootstrap-attach outer context payload service answer request caller (λ id. some view) 2000 view
      "t1" "peer" grants reads checks refl (omega arith) refl
      (record {
        established = refl;
        live = omega arith;
        account = refl;
        qapp = refl;
        connection = refl;
        opened = refl;
      })
