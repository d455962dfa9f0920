-- ===== src/Reticulum/Sessions/Manager.antt =====
-- `SessionManager` of src/qapp_backend/reticulum/sessions.py: the table of sessions and its rows.
use call_backend.Prelude.{
  ℕ, ◌+◌, String, Bool, false, not, ◌&&◌, ◌||◌, Option, none, some, List, [], ◌∷◌, ◌++◌,
  if◌then◌else◌, ◌==◌, nat_eq, string_eq, leb, count, filter, Result, ok, err, value_error,
}
use call_backend.Dict
use call_backend.Dict.{Dict, get, put, retain, values}
use call_backend.Reticulum.Sessions.{
  Session, StoredSession, SessionManager, to_stored, upsert, restore,
}

unfoldable pub store : Session → SessionManager → SessionManager
unfolding upsert to_stored
store s m = record m {
  sessions = put m.sessions s.session_id s;
  database = upsert (to_stored s) m.database;
}

unfoldable pub keep : Session → SessionManager → SessionManager
keep s m = record m { sessions = put m.sessions s.session_id s }

unfoldable pub load_rows : List StoredSession → ℕ → Dict String Session → Dict String Session
unfolding restore
load_rows [] now sessions = sessions
load_rows (row ∷ rows) now sessions =
    load_rows rows now
      (if leb row.expires_at now then sessions else put sessions row.session_id (restore row))

-- `load`
unfoldable pub load : ℕ → SessionManager → SessionManager
unfolding load_rows
load now m = record m { sessions = load_rows (values m.database) now m.sessions }

-- `create`, with the id and the digest of the token that `secrets` made.
unfoldable pub create :
    String → String → Option String → ℕ → Bool → SessionManager → Session × SessionManager
unfolding store keep
create session_id digest connection now provisional m =
    let session : Session = record {
      session_id = session_id;
      token_hash = digest;
      created_at = now;
      last_seen = now;
      expires_at = now + (if provisional then m.provisional_ttl else m.ttl);
      authenticated_user = none;
      metadata = [];
      subscriptions = [];
      last_application_sequence = 0;
      connection = connection;
      provisional = provisional;
      dedup = [];
      last_persisted_at = now;
    } in
    (session, if provisional then keep session m else store session m)

unfoldable pub promoted : String → ℕ → ℕ → Session → Session
promoted user now ttl s = record s {
  authenticated_user = some user;
  provisional = false;
  last_seen = now;
  expires_at = now + ttl;
  last_persisted_at = now;
}

unfoldable pub promote_found :
    String → ℕ → Option Session → SessionManager → Result (Unit {0}) × SessionManager
unfolding promoted store
promote_found user now none m = (err (value_error "session is no longer active"), m)
promote_found user now (some s) m = (ok tt, store (promoted user now m.ttl s) m)

-- `promote`
unfoldable pub promote : String → String → ℕ → SessionManager → Result (Unit {0}) × SessionManager
unfolding promote_found
promote session_id user now m = promote_found user now (get m.sessions session_id) m

unfoldable pub touch_found : ℕ → Option Session → SessionManager → SessionManager
unfolding store keep
touch_found now none m = m
touch_found now (some s) m =
    if s.provisional
    then keep (record s { last_seen = now }) m
    else if leb (s.last_persisted_at + m.persist_interval) now
    then store (record s { last_seen = now; expires_at = now + m.ttl; last_persisted_at = now }) m
    else keep (record s { last_seen = now; expires_at = now + m.ttl }) m

-- `touch`
unfoldable pub touch : String → ℕ → SessionManager → SessionManager
unfolding touch_found
touch session_id now m = touch_found now (get m.sessions session_id) m

-- The digest after a `resume` that was or was not asked to rotate the token to `fresh`.
unfoldable pub next_hash : Option String → Session → String
next_hash none s = s.token_hash
next_hash (some fresh) s = fresh

unfoldable pub resumed : Option String → String → ℕ → ℕ → Session → Session
unfolding next_hash
resumed fresh connection now ttl s = record s {
  token_hash = next_hash fresh s;
  connection = some connection;
  last_seen = now;
  expires_at = now + ttl;
  last_persisted_at = now;
}

-- The old connection is closed where it is another one and still open.
unfoldable pub close_replaced :
    (String → Bool) → String → Option String → SessionManager → SessionManager
close_replaced is_open connection none m = m
close_replaced is_open connection (some old) m =
    if not (old == connection) && is_open old
    then record m { closed = m.closed ++ (old, "replaced_by_resumed_connection") ∷ [] }
    else m

unfoldable pub resume_found :
    Option Session
    → String
    → String
    → (String → Bool)
    → ℕ
    → Option String
    → SessionManager
    → Option Session × SessionManager
unfolding resumed close_replaced store
resume_found none digest connection is_open now fresh m = (none, m)
resume_found (some s) digest connection is_open now fresh m =
    if leb s.expires_at now || not (s.token_hash == digest) then (none, m) else (
      some (resumed fresh connection now m.ttl s),
      store (resumed fresh connection now m.ttl s)
          (close_replaced is_open connection s.connection m),
    )

-- `resume` with a token of that digest; `fresh` is the digest of the new token, if `rotate`.
unfoldable pub resume :
    String
    → String
    → String
    → (String → Bool)
    → ℕ
    → Option String
    → SessionManager
    → Option Session × SessionManager
unfolding resume_found
resume session_id digest connection is_open now fresh m =
    resume_found (get m.sessions session_id) digest connection is_open now fresh m

unfoldable pub persist_found : Option Session → SessionManager → SessionManager
unfolding store
persist_found none m = m
persist_found (some s) m =
    if s.provisional then m else store (record s { last_persisted_at = s.last_seen }) m

-- `persist`
unfoldable pub persist : String → SessionManager → SessionManager
unfolding persist_found
persist session_id m = persist_found (get m.sessions session_id) m

unfoldable pub is_expired : ℕ → Session → Bool
is_expired now s = leb s.expires_at now

any_established : List Session → Bool
any_established [] = false
any_established (s ∷ ss) = not s.provisional || any_established ss

-- `expire`
unfoldable pub expire : ℕ → SessionManager → List Session × SessionManager
unfolding is_expired any_established
expire now m =
    let gone = filter (is_expired now) (values m.sessions) in
    (
      gone,
      record m {
        sessions = retain (λ s. not (is_expired now s)) m.sessions;
        database =
            if any_established gone
            then retain (λ row. not (leb row.expires_at now)) m.database
            else m.database;
      },
    )

unfoldable pub provisional_count : SessionManager → ℕ
provisional_count m = count (λ s. s.provisional) (values m.sessions)

unfoldable pub discard_found : Option Session → String → SessionManager → SessionManager
discard_found none session_id m = m
discard_found (some s) session_id m = record m {
  sessions = Dict.remove m.sessions session_id;
  database = if s.provisional then m.database else Dict.remove m.database session_id;
}

-- `discard`
unfoldable pub discard : String → SessionManager → SessionManager
unfolding discard_found
discard session_id m = discard_found (get m.sessions session_id) session_id m
