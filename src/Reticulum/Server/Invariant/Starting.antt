-- ===== src/Reticulum/Server/Invariant/Starting.antt =====
-- The invariant at the start, under the maintenance and under an authentication.
use call_backend.Prelude.{
  ℕ, ◌≤◌, String, ◌≡◌, refl, ◌∙◌, ap, Option, none, some, List, [], ◌∷◌, nat_eq, string_eq,
  if_cases, arith, count, leb,
}
use call_backend.Dict.{Dict, get, put, values}
use call_backend.Dict.Retain.{count-put-le}
use call_backend.Reticulum.Sessions.{Session, StoredSession, SessionManager, restore}
use call_backend.Reticulum.Sessions.Manager.{
  provisional_count, load, load_rows, promote, promote_found, promoted, store,
}
use call_backend.Transport.Service.{TransportService}
use call_backend.Reticulum.Server.{Limits, Server}
use call_backend.Reticulum.Server.Events.{maintain_sessions, touch_open, stays, initialize}
use call_backend.Reticulum.Server.Histories.{promote_session}
use call_backend.Reticulum.Server.Invariant.{Sound, Keyed, get-Keyed, put-Keyed}
use call_backend.Reticulum.Server.Invariant.Leaving.{expire_sessions-Sound}
use call_backend.Reticulum.Server.Invariant.Updating.{update-Sound, touch-Sound}

load_rows-Keyed :
    (rows : List StoredSession) (now : ℕ) (d : Dict String Session)
    → Keyed d
    → Keyed (load_rows rows now d)
unfolding load_rows restore
load_rows-Keyed [] now d keyed = keyed
load_rows-Keyed (row ∷ rows) now d keyed =
    load_rows-Keyed rows now _
      (if_cases Keyed (leb row.expires_at now) (λ _. keyed) λ _. put-Keyed d (restore row) keyed)

load_rows_established :
    (rows : List StoredSession) (now : ℕ) (d : Dict String Session)
    → count (λ s. s.provisional) (values (load_rows rows now d))
      ≤ count (λ s. s.provisional) (values d)
unfolding load_rows restore
load_rows_established [] now d = omega arith
load_rows_established (row ∷ rows) now d =
    if_cases
      (λ e.
        count (λ s. s.provisional) (values (load_rows rows now e))
        ≤ count (λ s. s.provisional) (values d))
      (leb row.expires_at now) (λ _. load_rows_established rows now d)
      λ _. omega (
        arith,
        load_rows_established rows now (put d row.session_id (restore row)),
        count-put-le (λ s. s.provisional) d row.session_id (restore row),
      )

pub initialize-Sound :
    (limits : Limits) (now : ℕ) (manager : SessionManager) (transport : TransportService)
    → Sound [] (initialize limits now manager transport)
unfolding initialize load
initialize-Sound limits now manager transport = record {
  keyed = load_rows-Keyed (values manager.database) now [] tt;
  capacity =
      unfold provisional_count count in
      omega (arith, load_rows_established (values manager.database) now []);
  fits = λ c l h. absurd (unfold get in ground arith);
  indexed = λ at id h. absurd (unfold get in ground arith);
  served = λ id t h. absurd (unfold get in ground arith);
}

pub touch_open-Sound :
    (u : Server) (now : ℕ) (ss : List Session) (v : Server)
    → Sound [] v
    → Sound [] (record v { manager = touch_open u now ss v.manager })
unfolding touch_open
touch_open-Sound u now [] v sound = sound
touch_open-Sound u now (s ∷ ss) v sound =
    touch_open-Sound u now ss (record v { manager = stays u now s v.manager })
      (if_cases (λ m. Sound [] (record v { manager = m })) _
        (λ _. touch-Sound s.session_id now v sound) λ _. sound)

pub database-Sound :
    (v : Server) (database : Dict String StoredSession)
    → Sound [] v
    → Sound [] (record v { manager = record v.manager { database = database } })
database-Sound v database sound = record {
  keyed = sound.keyed;
  capacity = unfold provisional_count in sound.capacity;
  fits = sound.fits;
  indexed = sound.indexed;
  served = sound.served;
}

pub promote_session-Sound :
    (session user : String) (now : ℕ) (v : Server)
    → Sound [] v
    → Sound [] (promote_session session user now v)
unfolding promote_session promote promote_found promoted store
promote_session-Sound session user now v sound = by_found (get v.manager.sessions session) refl
  where
    by_found :
        (o : Option Session)
        → get v.manager.sessions session ≡ o
        → Sound [] (record v { manager = (promote_found user now o v.manager).1 })
    by_found none e = sound
    by_found (some s) e =
        update-Sound v s (promoted user now v.manager.ttl s) _
          (ap (get v.manager.sessions) (get-Keyed v.manager.sessions session s sound.keyed e) ∙ e)
          (record { same_id = refl; same_index = refl; no_less = λ p. absurd (ground arith) }) refl
          sound

pub maintain_sessions-Sound :
    (digest : String → String) (now : ℕ) (v : Server)
    → Sound [] v
    → Sound [] (maintain_sessions digest now v)
unfolding maintain_sessions
maintain_sessions-Sound digest now v sound = database-Sound _ _ (
    expire_sessions-Sound digest now _ (touch_open-Sound v now (values v.manager.sessions) v sound))
