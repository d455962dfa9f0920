-- ===== src/Reticulum/Server/Tests.antt =====
-- The properties of the server at concrete inputs.
use call_backend.Prelude.{
  some, String, ◌≡◌, refl, none, some, [], ◌∷◌, string_eq, nat_eq, contains, filter, count, ok,
}
use call_backend.Dict.{get, put, retain}
use call_backend.Value.{text, dict, field, end, as_text, get_field}
use call_backend.Reticulum.Sessions.{SessionManager, seen_message, trim}
use call_backend.Reticulum.Sessions.Manager.{
  load, load_rows, expire, is_expired, provisional_count, create, keep, touch, touch_found,
}
use call_backend.Transport.Service.{TransportService}
use call_backend.Reticulum.Server.{
  Limits, Server, session_of, expire_sessions, drop_expired, admit, admit_recent, recent_times,
}
use call_backend.Reticulum.Server.Events.{initialize, link_established}
use call_backend.Reticulum.Server.Events.Messages.{
  Incoming, application_message, create_session, admit_logical_id, open_session, use_session,
  find_session, current, deliver, handler_for,
}
use call_backend.Reticulum.Server.Histories.{established, received, step}

abbrev pub limits : Limits
limits = record {
  max_unauthenticated_sessions = 1;
  max_logical_sessions_per_link = 2;
  max_new_sessions_per_link_per_minute = 2;
}

abbrev pub manager : SessionManager
manager = record {
  database = [];
  ttl = 60000;
  dedup_limit = 2;
  provisional_ttl = 30000;
  persist_interval = 10000;
  sessions = [];
  closed = [];
}

abbrev pub transport : TransportService
transport = record {
  tokens = record {
    ttl = 30000;
    per_session_per_minute = 5;
    per_user_per_minute = 10;
    max_unused_per_session = 2;
    max_unused_global = 100;
    grants = [];
    issued = [];
    issued_users = [];
  };
  attached = [];
  media_grant_files = [];
  endpoint = some "10.0.0.1:4433";
  media_endpoint = none;
  certificate_sha256 = some "cert";
  latest_peer_address = none;
  grant_files = [];
  revocation_files = [];
  disk = [];
  closing = [];
}

abbrev digest : String → String
digest s = s

abbrev hello : Incoming
hello = record {
  connection = "link";
  logical_id = "tab";
  message_id = 7;
  payload = ok (dict (field "type" (text "HELLO") end));
  fresh_id = "s1";
  fresh_digest = "d1";
}

abbrev connected : Server
connected = step digest (established "link") 0 (initialize limits 0 manager transport)

unused : get connected.manager.sessions "s1" ≡ none
unfolding step link_established initialize load load_rows get
unused = refl

-- The first message of a tab opens a session and reaches the handler.
greeted :
    (application_message digest ("*" ∷ []) hello 1000 connected).0
    ≡ ok (
        some (record {
          handler = "*";
          session = "s1";
          message = dict (field "type" (text "HELLO") end);
        }))
unfolding application_message as_text get_field contains session_of get step link_established
    initialize create_session expire_sessions expire is_expired filter load load_rows
    provisional_count count retain drop_expired admit_logical_id admit admit_recent recent_times
    open_session create keep put use_session find_session current deliver seen_message trim touch
    touch_found handler_for
greeted = refl

abbrev greeted_server : Server
greeted_server = step digest (received ("*" ∷ []) hello) 1000 connected
