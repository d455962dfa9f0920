-- ===== src/Reticulum/Sessions.antt =====
-- `ApplicationSession` of src/qapp_backend/reticulum/sessions.py, the state of its `SessionManager`,
-- and the rows that are stored. `Sessions.Manager` has the manager's operations.
pub mod Manager
pub mod Resuming
use call_backend.Prelude.{
  ℕ, zero, suc, ◌+◌, ◌-◌, String, Bool, true, false, not, ◌&&◌, ◌||◌, Option, none, some, List, [],
  ◌∷◌, ◌++◌, if◌then◌else◌, ◌==◌, nat_eq, string_eq, leb, ltb, length, codes, contains, count, drop,
  filter, Result, ok, err, value_error,
}
use call_backend.Dict
use call_backend.Dict.{Dict, get, put, retain, values}
use call_backend.Value.{Value}

-- The table holds a session under its id, which is random, so that `self._sessions.get(id) is
-- session` is whether the id is in the table. `token_hash` is the digest of its token, `connection`
-- the id of its physical connection. Times are in milliseconds.
pub record Session : Type 0 where
  pub session_id : String
  pub token_hash : String
  pub created_at : ℕ
  pub last_seen : ℕ
  pub expires_at : ℕ
  pub authenticated_user : Option String
  pub metadata : Dict String Value
  pub subscriptions : List String
  pub last_application_sequence : ℕ
  pub connection : Option String
  pub provisional : Bool
  pub dedup : List ℕ
  pub last_persisted_at : ℕ

-- What `to_stored` writes; the JSON texts of a row are kept as what they encode.
pub record StoredSession : Type 0 where
  pub session_id : String
  pub token_hash : String
  pub authenticated_user : Option String
  pub created_at : ℕ
  pub last_seen : ℕ
  pub expires_at : ℕ
  pub metadata : Dict String Value
  pub subscriptions : List String
  pub last_application_sequence : ℕ

-- `closed` are the connections on which `close` was called, with the reason.
pub record SessionManager : Type 0 where
  pub database : Dict String StoredSession
  pub ttl : ℕ
  pub dedup_limit : ℕ
  pub provisional_ttl : ℕ
  pub persist_interval : ℕ
  pub sessions : Dict String Session
  pub closed : List (String × String)

-- The oldest ids are dropped: `popitem(last=False)`.
unfoldable pub trim : ℕ → List ℕ → List ℕ
trim limit ids = drop (length ids - limit) ids

-- `seen_message`: `move_to_end` for an id that is there, else it is added and the oldest go.
unfoldable pub seen_message : ℕ → ℕ → List ℕ → Bool × List ℕ
unfolding trim
seen_message limit id ids =
    if contains ids id
    then (true, filter (λ j. not (j == id)) ids ++ id ∷ [])
    else (false, trim limit (ids ++ id ∷ []))

unfoldable pub subscribe : String → Session → Result Session
subscribe topic s =
    if topic == "" || ltb 256 (length (codes topic))
    then err (value_error "topic must contain 1 to 256 characters")
    else ok (record s { subscriptions = topic ∷ filter (λ t. not (t == topic)) s.subscriptions })

unfoldable pub unsubscribe : String → Session → Session
unsubscribe topic s = record s { subscriptions = filter (λ t. not (t == topic)) s.subscriptions }

unfoldable pub to_stored : Session → StoredSession
to_stored s = record {
  session_id = s.session_id;
  token_hash = s.token_hash;
  authenticated_user = s.authenticated_user;
  created_at = s.created_at;
  last_seen = s.last_seen;
  expires_at = s.expires_at;
  metadata = s.metadata;
  subscriptions = s.subscriptions;
  last_application_sequence = s.last_application_sequence;
}

-- `upsert_session` keeps the `created_at` of a row that is there.
unfoldable pub keep_created : Option StoredSession → StoredSession → StoredSession
keep_created none row = row
keep_created (some old) row = record row { created_at = old.created_at }

unfoldable pub upsert : StoredSession → Dict String StoredSession → Dict String StoredSession
unfolding keep_created
upsert row db = put db row.session_id (keep_created (get db row.session_id) row)

unfoldable pub restore : StoredSession → Session
restore row = record {
  session_id = row.session_id;
  token_hash = row.token_hash;
  created_at = row.created_at;
  last_seen = row.last_seen;
  expires_at = row.expires_at;
  authenticated_user = row.authenticated_user;
  metadata = row.metadata;
  subscriptions = row.subscriptions;
  last_application_sequence = row.last_application_sequence;
  connection = none;
  provisional = false;
  dedup = [];
  last_persisted_at = row.last_seen;
}
