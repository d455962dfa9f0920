-- ===== src/Reticulum/Server/Histories.antt =====
-- Histories of the server of src/qapp_backend/reticulum/server.py: its callbacks, in any order.
use call_backend.Prelude.{ℕ, String, ◌≡◌, none, List, nat_eq, string_eq}
use call_backend.Dict.{get}
use call_backend.Value.{Value}
use call_backend.Reticulum.Sessions.{SessionManager}
use call_backend.Reticulum.Sessions.Manager.{promote}
use call_backend.Transport.Service.{TransportService}
use call_backend.Reticulum.Server.{Limits, Server, revoke_session}
use call_backend.Reticulum.Server.Events.{
  disconnect_logical, connection_closed, link_established, maintain_sessions, attach_transport,
  detach_transport, initialize,
}
use call_backend.Reticulum.Server.Events.Messages.{Incoming, application_message}

-- One callback, or one call of another component.
pub data Event : Type 0 where
  established : String → Event
  received : List String → Incoming → Event
  logically_closed : String → String → Event
  closed : String → Event
  revoked : String → Event
  maintained : Event
  promoted_to : String → String → Event
  attached_by : (String → String) → String → String → Value → Event
  detached_by : String → String → Event

unfoldable pub promote_session : String → String → ℕ → Server → Server
promote_session session user now v = record v { manager = (promote session user now v.manager).1 }

unfoldable pub step : (String → String) → Event → ℕ → Server → Server
step digest (established c) now v = link_established c v
step digest (received handlers m) now v = (application_message digest handlers m now v).1
step digest (logically_closed c logical_id) now v = disconnect_logical digest now c logical_id v
step digest (closed c) now v = connection_closed digest now c v
step digest (revoked session) now v = revoke_session digest now session v
step digest maintained now v = maintain_sessions digest now v
step digest (promoted_to session user) now v = promote_session session user now v
step digest (attached_by hash transport peer metadata) now v =
    (attach_transport hash now transport peer metadata v).1
step digest (detached_by session transport) now v = detach_transport session transport v

-- The random id of a new session is in use for no other.
abbrev pub Fresh : Event → Server → Type 0
Fresh (received handlers m) v = get v.manager.sessions m.fresh_id ≡ none
Fresh _ v = Unit {0}

-- The states after `initialize` and any events, at any times.
pub data Reached (digest : String → String) : Server → Type 0 where
  start :
      (limits : Limits) (now : ℕ) (manager : SessionManager) (transport : TransportService)
      → Reached digest (initialize limits now manager transport)
  next :
      (v : Server) (e : Event) (now : ℕ)
      → Reached digest v
      → Fresh e v
      → Reached digest (step digest e now v)
