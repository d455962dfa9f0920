-- ===== src/Reticulum/Server/Events.antt =====
-- The callbacks of `QAppServer` in src/qapp_backend/reticulum/server.py: connections and logical
-- connections that end, the maintenance and the start. `Events.Messages` has the messages.
pub mod Messages
use call_backend.Prelude.{
  ℕ, String, Bool, true, false, not, ◌&&◌, Option, none, some, List, [], ◌∷◌, ◌++◌, if◌then◌else◌,
  ◌==◌, nat_eq, string_eq, leb, is_some, contains, Result, ok, err, protocol_error,
}
use call_backend.Prelude.Stateful.{Exec, pure, lift, ◌>>=◌, ◌>>◌}
use call_backend.Dict
use call_backend.Dict.{Dict, get, put, values, retain}
use call_backend.Value.{Value, text, dict, get_field, as_text}
use call_backend.Reticulum.Sessions.{Session, SessionManager, seen_message}
use call_backend.Reticulum.Sessions.Manager.{load, create, touch, persist, keep, provisional_count}
use call_backend.Transport.Service.{TransportService, attach, detach, session_lookup}
use call_backend.Reticulum.Server.{
  Link, Limits, Server, session_of, cut_transport, remove_indexes, discard_session, expire_sessions,
  admit, discard_id, unlink,
}

abbrev pub keep_session : Session → Server → Server
keep_session s v = record v { manager = keep s v.manager }

abbrev pub is_open : Server → String → Bool
is_open v c = open_link (get v.links c)
  where
    open_link : Option Link → Bool
    open_link none = false
    open_link (some l) = not l.closed

-- A new connection, as `_link_established` enters it.
unfoldable pub link_established : String → Server → Server
link_established c v = record v {
  links =
      put v.links c
        (record { closed = false; logical_connection_ids = []; new_logical_session_times = [] });
}

-- The established session of a logical connection that ends.
unfoldable pub lose_connection : (String → String) → ℕ → Session → Server → Server
lose_connection digest now s v =
    let cut = remove_indexes s (cut_transport digest now s v) in
    let idle : Session = record s {
      metadata = Dict.remove s.metadata "qapp_connection_id";
      connection = none;
    } in
    let kept = persist s.session_id (touch s.session_id now (keep idle cut.manager)) in
    record cut { manager = kept; handed_over = cut.handed_over ++ s.session_id ∷ [] }

unfoldable pub disconnect_found : (String → String) → ℕ → String → Option Session → Server → Server
unfolding lose_connection
disconnect_found digest now c none v = v
disconnect_found digest now c (some s) v =
    if not (is_some s.connection c)
    then v
    else if s.provisional
    then discard_session digest now s v
    else lose_connection digest now s v

-- `_disconnect_logical_session`, which `_logical_connection_closed` calls.
unfoldable pub disconnect_logical : (String → String) → ℕ → String → String → Server → Server
unfolding disconnect_found
disconnect_logical digest now c logical_id v =
    disconnect_found digest now c (session_of logical_id v) v

unfoldable pub disconnect_all : (String → String) → ℕ → String → List String → Server → Server
unfolding disconnect_logical
disconnect_all digest now c [] v = v
disconnect_all digest now c (i ∷ ids) v =
    disconnect_all digest now c ids (disconnect_logical digest now c i v)

unfoldable pub closed_link : Link
closed_link = record { closed = true; logical_connection_ids = []; new_logical_session_times = [] }

abbrev pub close_found : (String → String) → ℕ → String → Option Link → Server → Server
close_found digest now c none v = v
close_found digest now c (some l) v =
    let v' =
      disconnect_all digest now c l.logical_connection_ids
        (record v { links = put v.links c (record l { closed = true }) }) in
    record v' { links = put v'.links c closed_link }

-- A connection that was closed calls `_connection_closed`.
unfoldable pub connection_closed : (String → String) → ℕ → String → Server → Server
unfolding disconnect_all closed_link
connection_closed digest now c v = close_found digest now c (get v.links c) v

abbrev pub stays : Server → ℕ → Session → SessionManager → SessionManager
stays v now s manager =
    if not s.provisional && open_on s.connection then touch s.session_id now manager else manager
  where
    open_on : Option String → Bool
    open_on none = false
    open_on (some c) = is_open v c

unfoldable pub touch_open : Server → ℕ → List Session → SessionManager → SessionManager
touch_open v now [] manager = manager
touch_open v now (s ∷ ss) manager = touch_open v now ss (stays v now s manager)

-- The sessions in `_maintain`: those of open connections are touched, then the expired ones go.
unfoldable pub maintain_sessions : (String → String) → ℕ → Server → Server
unfolding touch_open
maintain_sessions digest now v =
    let touched = touch_open v now (values v.manager.sessions) v.manager in
    let swept = expire_sessions digest now (record v { manager = touched }) in
    record swept {
      manager = record swept.manager {
        database = retain (λ row. not (leb row.expires_at now)) swept.manager.database;
      };
    }

-- `attach` and `detach` of the private transport, on the sessions of the server.
unfoldable pub attach_transport :
    (String → String) → ℕ → String → String → Value → Server → Result String × Server
attach_transport hash now transport peer metadata v =
    let (r, t) =
      attach hash (session_lookup (is_open v) v.manager.sessions) now transport peer metadata
        v.transport in
    (r, record v { transport = t })

unfoldable pub detach_transport : String → String → Server → Server
detach_transport session transport v = record v { transport = detach session transport v.transport }

-- The state that `initialize` makes of the rows of the database.
unfoldable pub initialize : Limits → ℕ → SessionManager → TransportService → Server
initialize limits now manager transport = record {
  limits = limits;
  manager = load now (record manager { sessions = [] });
  logical_sessions = [];
  links = [];
  transport = record transport { attached = [] };
  handed_over = [];
}
