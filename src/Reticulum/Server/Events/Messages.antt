-- ===== src/Reticulum/Server/Events/Messages.antt =====
-- `_application_message` of src/qapp_backend/reticulum/server.py: the session of a message and its
-- handler.
use call_backend.Prelude.{
  ℕ, String, Bool, true, false, not, ◌&&◌, Option, none, some, List, if◌then◌else◌, ◌==◌, nat_eq,
  string_eq, leb, contains, Result, ok, err, protocol_error,
}
use call_backend.Prelude.Stateful.{Exec, pure, lift, ◌>>=◌, ◌>>◌}
use call_backend.Dict.{get, put}
use call_backend.Value.{Value, text, dict, get_field, as_text}
use call_backend.Reticulum.Sessions.{Session, seen_message}
use call_backend.Reticulum.Sessions.Manager.{create, touch, keep, provisional_count}
use call_backend.Reticulum.Server.{
  Link, Server, session_of, discard_session, expire_sessions, admit, discard_id, unlink,
}
use call_backend.Reticulum.Server.Events.{keep_session, is_open}

-- A message of a logical connection on the connection `c`, with the id and the token digest that a
-- new session gets.
pub record Incoming : Type 0 where
  pub connection : String
  pub logical_id : String
  pub message_id : ℕ
  pub payload : Result Value
  pub fresh_id : String
  pub fresh_digest : String

-- What a handler is called with.
pub record Dispatch : Type 0 where
  pub handler : String
  pub session : String
  pub message : Value

-- message.get("type") if isinstance(message, dict) else None
abbrev pub type_of : Value → Option String
type_of (dict fs) = as_text (get_field fs "type")
type_of _ = none

-- self.message_handlers.get(message_type, self.message_handlers.get("*"))
unfoldable pub handler_for : List String → Option String → Option String
handler_for handlers none = if contains handlers "*" then some "*" else none
handler_for handlers (some kind) =
    if contains handlers kind then some kind else if contains handlers "*" then some "*" else none

-- A session that has run out is discarded and does not count.
unfoldable pub current : (String → String) → ℕ → Option Session → Server → Option Session × Server
current digest now none v = (none, v)
current digest now (some s) v =
    if leb s.expires_at now then (none, discard_session digest now s v) else (some s, v)

abbrev pub admit_on : String → Bool → ℕ → String → Option Link → Exec Server (Unit {0})
admit_on c creating now logical_id none v = (ok tt, v)
admit_on c creating now logical_id (some l) v =
    let (r, l') = admit v.limits logical_id creating now l in
    (r, record v { links = put v.links c l' })

-- `_admit_logical_id` on the connection of the message.
unfoldable pub admit_logical_id : Incoming → Bool → ℕ → Exec Server (Unit {0})
admit_logical_id m creating now v =
    admit_on m.connection creating now m.logical_id (get v.links m.connection) v

-- A new provisional session, indexed under its logical connection.
unfoldable pub open_session : Incoming → ℕ → Exec Server Session
open_session m now v =
    let (s, manager) = create m.fresh_id m.fresh_digest (some m.connection) now true v.manager in
    let named : Session = record s {
      metadata = put s.metadata "qapp_connection_id" (text m.logical_id);
    } in
    (
      ok named,
      record v {
        manager = keep named manager;
        logical_sessions = put v.logical_sessions m.logical_id named.session_id;
      },
    )

unfoldable pub create_session : (String → String) → Incoming → ℕ → Exec Server Session
unfolding admit_logical_id open_session
create_session digest m now v =
    let swept = expire_sessions digest now v in
    if leb swept.limits.max_unauthenticated_sessions (provisional_count swept.manager)
    then (err (protocol_error "unauthenticated session capacity reached"), swept)
    else (admit_logical_id m true now >> open_session m now) swept

abbrev pub active_elsewhere : Server → Option String → String → Bool
active_elsewhere v none c = false
active_elsewhere v (some old) c = not (old == c) && is_open v old

-- The session that is there, moved to the connection of the message.
unfoldable pub claim_session : Incoming → Session → Exec Server Session
unfolding discard_id
claim_session m s v =
    if active_elsewhere v s.connection m.connection
    then (
      err (protocol_error "logical connection is already active"),
      record v { links = unlink m.logical_id (some m.connection) v.links },
    )
    else let moved : Session = record s { connection = some m.connection } in
      (ok moved, keep_session moved v)

unfoldable pub use_session : (String → String) → Incoming → ℕ → Option Session → Exec Server Session
unfolding admit_logical_id
use_session digest m now none = create_session digest m now
use_session digest m now (some s) = admit_logical_id m false now >> claim_session m s

-- The part of `_application_message` under the lock: the session of the message.
unfoldable pub find_session : (String → String) → Incoming → ℕ → Exec Server Session
unfolding current use_session
find_session digest m now v =
    let (found, v') = current digest now (session_of m.logical_id v) v in
    use_session digest m now found v'

-- A message that was seen is dropped, else the session is touched and the handler called.
unfoldable pub deliver : String → Value → ℕ → ℕ → Session → Exec Server (Option Dispatch)
unfolding seen_message
deliver handler message id now s v =
    let (seen, dedup) = seen_message v.manager.dedup_limit id s.dedup in
    let noted : Session = record s { dedup = dedup } in
    let kept = keep noted v.manager in
    if seen then (ok none, record v { manager = kept }) else (
      ok (some (record { handler = handler; session = s.session_id; message = message })),
      record v { manager = touch s.session_id now kept },
    )

abbrev pub handle_with :
    (String → String) → Incoming → ℕ → Value → Option String → Exec Server (Option Dispatch)
handle_with digest m now message none = pure none
handle_with digest m now message (some handler) =
    find_session digest m now >>= λ s. deliver handler message m.message_id now s

-- `_application_message`
unfoldable pub application_message :
    (String → String) → List String → Incoming → ℕ → Exec Server (Option Dispatch)
unfolding handler_for find_session deliver
application_message digest handlers m now = lift m.payload >>= λ message.
    handle_with digest m now message (handler_for handlers (type_of message))
