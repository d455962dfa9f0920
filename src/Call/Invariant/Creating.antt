-- ===== src/Call/Invariant/Creating.antt =====
-- `create` keeps the invariant.
use call_backend.Prelude.{
  ◌≤◌, String, ◌≡◌, refl, Option, none, some, false, not, arith, if_cases, string_eq, ==_iff,
  length, Result, ok, err, contains, is_none, leb,
}
use call_backend.Prelude.Stateful.{Keeps, Keeps-lift, Keeps-bind}
use call_backend.Prelude.Raising.{require}
use call_backend.Dict
use call_backend.Dict.{
  Dict, get, put, get-put, get-remove, length-put-present, length-put-le, length-remove-put-le,
  Distinct, put-Distinct, remove-Distinct,
}
use call_backend.Value.{Value}
use call_backend.Call.Env.{Env, Peers, Clock}
use call_backend.Call.Requests.{
  EntryRequest, require_authenticated, is_participant_id, parse_create,
}
use call_backend.Call.State.{Room, Service, Snapshot, max_rooms}
use call_backend.Call.Rooms.{save, bind_session, clear_session_metadata}
use call_backend.Call.Membership.{first_room, confirm_room, create_locked, create}
use call_backend.Call.Invariant.{IsSound, IsBound, Tables, Inv}
use call_backend.Call.Invariant.Frame.{safe_send-Keeps, write_policy-Keeps}
use call_backend.Call.Invariant.Rooms.{put-Tables, remove-Tables}

pub authenticated :
    (peers : Peers) (session : String) (user : String)
    → require_authenticated peers session ≡ ok user
    → peers.authenticated_user session ≡ some user
unfolding require_authenticated
authenticated peers session user h = ground arith

first_room-IsSound :
    (env : Env) (clock : Clock) (session initiator : String) (req : EntryRequest)
    → IsSound (first_room env clock session initiator req)
unfolding first_room get contains
first_room-IsSound env clock session initiator req = record {
  distinct = (refl, tt);
  hosted = ground (arith, ==_iff initiator initiator);
  named = λ p m h. ground (arith, ==_iff initiator p);
  within = omega arith;
  apart = λ p h. ground arith;
  few_blocked = omega arith;
  few_muted = omega arith;
  sharing = λ h. absurd (h refl);
  idle = λ h. refl;
}

module _ (users : String → Option String) (env : Env) (clock : Clock) (session initiator : String)
    (req : EntryRequest) (s : Service) (account : users session ≡ some initiator) (h : Inv users s)
    (unbound : get s.session_rooms session ≡ none) where
  host_room : Room
  host_room = first_room env clock session initiator req

  -- Sessions of other rooms are bound, so they are not this one.
  elsewhere-IsBound :
      (j : String) (r : Room)
      → get s.rooms j ≡ some r
      → IsBound users (put s.session_rooms session req.room_id) j r
  elsewhere-IsBound j r at p m member = ground (
    arith,
    h.bound j r at p m member,
    get-put s.session_rooms session req.room_id m.session,
    ==_iff session m.session,
  )

  rolled_back :
      (j : String) (r : Room)
      → get s.rooms j ≡ some r
      → IsBound users (Dict.remove (put s.session_rooms session req.room_id) session) j r
  rolled_back j r at p m member = ground (
    arith,
    h.bound j r at p m member,
    get-put s.session_rooms session req.room_id m.session,
    get-remove (put s.session_rooms session req.room_id) session m.session,
    ==_iff session m.session,
  )

  host-IsBound : IsBound users (put s.session_rooms session req.room_id) req.room_id host_room
  unfolding host_room first_room get
  host-IsBound p m member = ground (
    arith,
    ==_iff initiator p,
    get-put s.session_rooms session req.room_id session,
    ==_iff session session,
  )

  own_id : host_room.room_id ≡ req.room_id
  unfolding host_room first_room
  own_id = refl

  created :
      length (put s.rooms req.room_id host_room) ≤ max_rooms
      → Tables users (put s.rooms req.room_id host_room) (put s.session_rooms session req.room_id)
  unfolding host_room
  created few =
      put-Tables users h (put s.session_rooms session req.room_id) req.room_id host_room own_id
        (first_room-IsSound env clock session initiator req) host-IsBound
        (λ j r _ at. elsewhere-IsBound j r at) few

  taken_back :
      Tables users (put s.rooms req.room_id host_room) (put s.session_rooms session req.room_id)
      → Tables users
          (Dict.remove (put s.rooms req.room_id host_room) req.room_id)
          (Dict.remove (put s.session_rooms session req.room_id) session)
  taken_back t =
      remove-Tables users t (Dict.remove (put s.session_rooms session req.room_id) session)
        req.room_id
        (λ j r ne at. rolled_back j r (ground (arith, get-put s.rooms req.room_id host_room j)))

-- What `create` relies on while it waits for the file system: both outcomes are good.
abbrev Prepared :
    (String → Option String) → String → Room → Dict String Room → Dict String String → Type 0
Prepared users session room rooms bindings =
    Tables users rooms bindings
    × Tables users (Dict.remove rooms room.room_id) (Dict.remove bindings session)

confirm_room-Inv :
    (users : String → Option String) (session : String) (room : Room) (r : Result (Unit {0}))
    (s : Service)
    → Prepared users session room s.rooms s.session_rooms
    → Inv users (confirm_room session room (r, s)).1
unfolding confirm_room clear_session_metadata
confirm_room-Inv users session room (ok _) s h = h.0
confirm_room-Inv users session room (err e) s h = h.1

unbound_of : (o : Option String) → not (is_none o) ≡ false → o ≡ none
unbound_of none h = refl
unbound_of (some a) h = cc

create_locked-Inv :
    (users : String → Option String) (env : Env) (clock : Clock) (session initiator : String)
    (req : EntryRequest)
    → users session ≡ some initiator
    → Keeps (Inv users) (create_locked env clock session initiator req)
unfolding create_locked host_room save bind_session
create_locked-Inv users env clock session initiator req account s h =
    if_cases good (not (is_none (get s.session_rooms session))) (λ _. h)
      λ free.
        if_cases good (not (is_none (get s.rooms req.room_id))) (λ _. h)
          λ fresh.
            if_cases good (leb max_rooms (length s.rooms)) (λ _. h)
              λ few. confirm_room-Inv users session host _ _ (
                write_policy-Keeps (Prepared users session host) env host _ (
                  let t = tables free (ground (arith, length-put-le s.rooms req.room_id host)) in
                  (t, taken free t)))
  where
    good : Result Snapshot × Service → Type 0
    good r = Inv users r.1

    host : Room
    host = first_room env clock session initiator req

    tables :
        not (is_none (get s.session_rooms session)) ≡ false
        → length (put s.rooms req.room_id host) ≤ max_rooms
        → Tables users (put s.rooms req.room_id host) (put s.session_rooms session req.room_id)
    tables free few =
        created users env clock session initiator req s account h (unbound_of _ free) few

    taken :
        not (is_none (get s.session_rooms session)) ≡ false
        → Tables users (put s.rooms req.room_id host) (put s.session_rooms session req.room_id)
        → Tables users
            (Dict.remove (put s.rooms req.room_id host) req.room_id)
            (Dict.remove (put s.session_rooms session req.room_id) session)
    taken free t =
        taken_back users env clock session initiator req s account h (unbound_of _ free) t

-- `create` keeps the invariant, on every branch, whatever the file system and the sessions do.
pub create-Inv :
    (env : Env) (peers : Peers) (clock : Clock) (session : String) (message : Value)
    → Keeps (Inv peers.authenticated_user) (create env peers clock session message)
unfolding create
create-Inv env peers clock session message =
    Keeps-lift {P = good} (require_authenticated peers session) _ λ initiator is.
      Keeps-lift {P = good} (require (is_participant_id initiator) _) _ λ _ _.
        Keeps-lift {P = good} (parse_create env message) _ λ req _.
          Keeps-bind {P = good} (create_locked env clock session initiator req) _
            (create_locked-Inv _ env clock session initiator req
              (authenticated peers session initiator is))
            λ snap. safe_send-Keeps (Tables peers.authenticated_user) peers session _
  where
    good : Service → Type 0
    good = Inv peers.authenticated_user
