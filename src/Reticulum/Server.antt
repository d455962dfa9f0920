-- ===== src/Reticulum/Server.antt =====
-- `QAppServer` of src/qapp_backend/reticulum/server.py: the state under its session lock, the index
-- of logical connections and the removal of sessions. `Server.Events` has the callbacks.
pub mod Events
pub mod Histories
pub mod Invariant
mod Tests
use call_backend.Prelude.{
  ℕ, ◌+◌, String, Bool, true, false, not, ◌&&◌, Option, none, some, List, [], ◌∷◌, ◌++◌,
  if◌then◌else◌, ◌==◌, nat_eq, string_eq, leb, length, filter, contains, is_some, Result, ok, err,
  protocol_error, Error,
}
use call_backend.Dict
use call_backend.Dict.{Dict, get, put}
use call_backend.Value.{Value, text, as_text}
use call_backend.Reticulum.Sessions.{Session, SessionManager}
use call_backend.Reticulum.Sessions.Manager.{expire, discard, keep}
use call_backend.Transport.Service.{TransportService}
use call_backend.Transport.Service.Invalidating.{invalidate}

-- What the server keeps in a `PhysicalConnection`.
pub record Link : Type 0 where
  pub closed : Bool
  pub logical_connection_ids : List String
  pub new_logical_session_times : List ℕ

pub record Limits : Type 0 where
  pub max_unauthenticated_sessions : ℕ
  pub max_logical_sessions_per_link : ℕ
  pub max_new_sessions_per_link_per_minute : ℕ

-- `logical_sessions` leads to a session by its id; `links` are the connections by theirs, those that
-- closed too. `handed_over` are the sessions that the disconnect handlers were called with, such as
-- `CallService.disconnected`. Nothing adds to the `pending_transport` of a session, so it is not kept.
pub record Server : Type 0 where
  pub limits : Limits
  pub manager : SessionManager
  pub logical_sessions : Dict String String
  pub links : Dict String Link
  pub transport : TransportService
  pub handed_over : List String

-- An option of an option, taken apart in order.
abbrev pub then_get {ℓ} : {A : Type ℓ} → Option String → (String → Option A) → Option A
then_get none f = none
then_get (some k) f = f k

-- `self.logical_sessions.get(logical_id)`
unfoldable pub session_of : String → Server → Option Session
session_of logical_id v = then_get (get v.logical_sessions logical_id) (get v.manager.sessions)

abbrev pub is_text : Option Value → Bool
is_text (some (text s)) = true
is_text _ = false

abbrev pub logical_id_of : Session → Option String
logical_id_of s = as_text (get s.metadata "qapp_connection_id")

-- self.private_transport.invalidate_session(session, close_attached=True)
unfoldable pub cut_transport : (String → String) → ℕ → Session → Server → Server
cut_transport digest now s v = record v {
  transport =
      invalidate digest s.session_id (is_text (get s.metadata "call_room_id")) now v.transport;
}

unfoldable pub discard_id : String → Link → Link
discard_id logical_id l = record l {
  logical_connection_ids = filter (λ i. not (i == logical_id)) l.logical_connection_ids;
}

abbrev pub without_id : String → String → Option Link → Dict String Link → Dict String Link
without_id logical_id c none links = links
without_id logical_id c (some l) links = put links c (discard_id logical_id l)

-- connection.logical_connection_ids.discard(logical_id), if there is a connection
abbrev pub unlink : String → Option String → Dict String Link → Dict String Link
unlink logical_id none links = links
unlink logical_id (some c) links = without_id logical_id c (get links c) links

unfoldable pub remove_named : String → Session → Server → Server
unfolding discard_id
remove_named logical_id s v = record v {
  logical_sessions =
      if is_some (get v.logical_sessions logical_id) s.session_id
      then Dict.remove v.logical_sessions logical_id
      else v.logical_sessions;
  links = unlink logical_id s.connection v.links;
}

abbrev pub indexed_by : Option String → Session → Server → Server
indexed_by none s v = v
indexed_by (some logical_id) s v = remove_named logical_id s v

-- `_remove_session_indexes`
unfoldable pub remove_indexes : Session → Server → Server
unfolding remove_named
remove_indexes s v = indexed_by (logical_id_of s) s v

-- `_discard_session`
unfoldable pub discard_session : (String → String) → ℕ → Session → Server → Server
unfolding cut_transport remove_indexes
discard_session digest now s v =
    let v' = remove_indexes s (cut_transport digest now s v) in
    record v' { manager = discard s.session_id v'.manager }

abbrev pub revoke_found : (String → String) → ℕ → Option Session → Server → Server
revoke_found digest now none v = v
revoke_found digest now (some s) v =
    discard_session digest now s (record v { handed_over = v.handed_over ++ s.session_id ∷ [] })

-- `revoke_session`. The handlers of the repository raise nothing that is not caught.
unfoldable pub revoke_session : (String → String) → ℕ → String → Server → Server
unfolding discard_session
revoke_session digest now session v = revoke_found digest now (get v.manager.sessions session) v

unfoldable pub drop_expired : (String → String) → ℕ → List Session → Server → Server
unfolding cut_transport remove_indexes
drop_expired digest now [] v = v
drop_expired digest now (s ∷ ss) v =
    drop_expired digest now ss (remove_indexes s (cut_transport digest now s v))

-- `_expire_sessions`
unfoldable pub expire_sessions : (String → String) → ℕ → Server → Server
unfolding drop_expired
expire_sessions digest now v =
    let (gone, manager) = expire now v.manager in
    drop_expired digest now gone (record v { manager = manager })

-- while times and times[0] <= now - 60.0: times.popleft()
unfoldable pub recent_times : ℕ → List ℕ → List ℕ
recent_times now [] = []
recent_times now (t ∷ ts) =
    let rest = recent_times now ts in if leb (t + 60000) now then rest else t ∷ ts

-- The end of `_admit_logical_id`, with the times that are recent.
unfoldable pub admit_recent : Limits → String → Bool → ℕ → Link → Result (Unit {0}) × Link
admit_recent limits logical_id creating now l =
    if creating
      && leb limits.max_new_sessions_per_link_per_minute (length l.new_logical_session_times)
    then (err (protocol_error "logical session creation rate exceeded"), l)
    else (
      ok tt,
      record l {
        logical_connection_ids = logical_id ∷ l.logical_connection_ids;
        new_logical_session_times =
            if creating
            then l.new_logical_session_times ++ now ∷ []
            else l.new_logical_session_times;
      },
    )

-- `_admit_logical_id`
unfoldable pub admit : Limits → String → Bool → ℕ → Link → Result (Unit {0}) × Link
unfolding admit_recent recent_times
admit limits logical_id creating now l =
    if contains l.logical_connection_ids logical_id
    then (ok tt, l)
    else if leb limits.max_logical_sessions_per_link (length l.logical_connection_ids)
    then (err (protocol_error "logical session limit reached"), l)
    else admit_recent limits logical_id creating now
        (record l { new_logical_session_times = recent_times now l.new_logical_session_times })
