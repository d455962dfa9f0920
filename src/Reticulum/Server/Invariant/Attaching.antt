-- ===== src/Reticulum/Server/Invariant/Attaching.antt =====
-- The invariant where private transports come and go.
use call_backend.Prelude.{
  ℕ, String, Bool, ◌≡◌, refl, Option, none, some, [], nat_eq, string_eq, arith, inl, inr,
}
use call_backend.Dict.{Dict, get, get-remove}
use call_backend.Value.{Value}
use call_backend.Reticulum.Sessions.{Session}
use call_backend.Transport.Tokens.{SessionView}
use call_backend.Transport.Service.{TransportService, detach, session_lookup, view_found}
use call_backend.Transport.Service.Ownership.{attach_sound, attach_owner}
use call_backend.Reticulum.Server.{Server}
use call_backend.Reticulum.Server.Events.{is_open, attach_transport, detach_transport}
use call_backend.Reticulum.Server.Invariant.{Sound, Known}

-- What the service of the transports does to the owners, the sessions must know.
transport-Sound :
    (v : Server) (t : TransportService)
    → ((id owner : String)
        → get t.attached id ≡ some owner
        → (s : Session) × Known [] v.manager id s)
    → Sound [] v
    → Sound [] (record v { transport = t })
transport-Sound v t served sound = record {
  keyed = sound.keyed;
  capacity = sound.capacity;
  fits = sound.fits;
  indexed = sound.indexed;
  served = served;
}

lookup_found :
    (is_open : String → Bool) (sessions : Dict String Session) (id : String) (w : SessionView)
    → session_lookup is_open sessions id ≡ some w
    → (s : Session) × (get sessions id ≡ some s)
unfolding session_lookup
lookup_found is_open sessions id w = by_found (get sessions id) refl
  where
    by_found :
        (o : Option Session)
        → get sessions id ≡ o
        → view_found is_open o ≡ some w
        → (s : Session) × (get sessions id ≡ some s)
    by_found none e h = absurd (ground arith)
    by_found (some s) e h = (s, e)

pub attach_transport-Sound :
    (hash : String → String) (now : ℕ) (transport peer : String) (metadata : Value) (v : Server)
    → Sound [] v
    → Sound [] (attach_transport hash now transport peer metadata v).1
unfolding attach_transport
attach_transport-Sound hash now transport peer metadata v sound =
    let lookup = session_lookup (is_open v) v.manager.sessions in
    transport-Sound v _
      (λ id owner h.
        elim (attach_owner hash lookup now transport peer metadata v.transport id owner h) [
          | inl before ↦ sound.served id owner before
          | inr now_attached ↦
              let (claim, token, _, admitted) =
                attach_sound hash lookup now transport peer metadata v.transport id now_attached in
              let (s, at) =
                lookup_found (is_open v) v.manager.sessions id admitted.view admitted.found in
              (s, inl at)
        ])
      sound

pub detach_transport-Sound :
    (session transport : String) (v : Server)
    → Sound [] v
    → Sound [] (detach_transport session transport v)
unfolding detach_transport detach
detach_transport-Sound session transport v sound =
    transport-Sound v _
      (λ id owner h.
        sound.served id owner (ground (arith, get-remove v.transport.attached session id)))
      sound
