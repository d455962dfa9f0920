-- ===== src/Call/Membership.antt =====
-- The handlers of `CallService` by which rooms begin and end and members come and go: `create`,
-- `join`, `leave`, `disconnected` and `_expire_room`. A locked section is a function of its own.
use call_backend.Prelude.{
  suc, ◌+◌, ◌*◌, String, Bool, true, false, not, ◌&&◌, Option, none, some, List, [], ◌∷◌,
  if◌then◌else◌, ◌==◌, nat_eq, string_eq, leb, length, contains, list_beq, is_some, is_none, Result,
  ok, err, value_error,
}
use call_backend.Prelude.Raising.{require}
use call_backend.Prelude.Stateful.{Exec, pure, raise, lift, ◌>>=◌, ◌>>◌}
use call_backend.Dict
use call_backend.Dict.{get, put}
use call_backend.Value.{Value}
use call_backend.Call.Env.{Env, Peers, Clock}
use call_backend.Call.Requests.{
  EntryRequest, RoomRequest, is_participant_id, require_authenticated, parse_create, parse_join,
  parse_leave,
}
use call_backend.Call.State.{
  Member, Room, new_room, Service, Snapshot, snapshot, recipients, max_rooms, max_call_seconds,
  max_participants_per_room, EndReason, initiator_left, initiator_disconnected, expired,
  call_created, call_joined, call_join_rejected, call_left, call_removed, call_membership,
  call_ended,
}
use call_backend.Call.Rooms.{
  save, safe_send, broadcast, bind_session, clear_session_metadata, write_policy, remove_member,
  end_room,
}

unfoldable pub make_member : String → String → EntryRequest → Member
make_member participant session req = record {
  participant_id = participant;
  key_agreement_public_key = req.agreement_key;
  signing_public_key = req.signing_key;
  session = session;
}

unfoldable pub first_room : Env → Clock → String → String → EntryRequest → Room
unfolding new_room make_member
first_room env clock session initiator req =
    record (new_room req.room_id initiator req.secret (clock.wall_ms + max_call_seconds * 1000)) {
      members = (initiator, make_member initiator session req) ∷ [];
      expiry_timer = true;
    }

-- `except OSError` takes the room and the session's binding back.
unfoldable pub confirm_room :
    String → Room → Result (Unit {0}) × Service → Result Snapshot × Service
unfolding clear_session_metadata
confirm_room session room (ok _, s) = (ok (snapshot room), s)
confirm_room session room (err e, s) = (
  err e,
  clear_session_metadata session (record s {
    rooms = Dict.remove s.rooms room.room_id;
    session_rooms = Dict.remove s.session_rooms session;
  }),
)

unfoldable pub create_locked : Env → Clock → String → String → EntryRequest → Exec Service Snapshot
unfolding confirm_room bind_session save first_room
create_locked env clock session initiator req s =
    if not (is_none (get s.session_rooms session))
    then (err (value_error "leave the current call before creating another"), s)
    else if not (is_none (get s.rooms req.room_id))
    then (err (value_error "call room already exists"), s)
    else if leb max_rooms (length s.rooms)
    then (err (value_error "call room capacity reached"), s)
    else (let room = first_room env clock session initiator req in
        confirm_room session room
          (write_policy env room (bind_session session req.room_id (save room s))))

unfoldable pub create : Env → Peers → Clock → String → Value → Exec Service (Unit {0})
create env peers clock session message = do
  initiator ← lift (require_authenticated peers session)
  lift (require (is_participant_id initiator) "invalid authenticated participant")
  req ← lift (parse_create env message)
  snap ← create_locked env clock session initiator req
  safe_send peers session (call_created req.request_id snap)

-- What the locked section of `join` hands to the code after it: nothing when it has answered and
-- returned, or whether the member changed, the snapshot and the recipients.
pub data Admission : Type 0 where
  turned_away : Admission
  admitted : Bool → Snapshot → List String → Admission

-- `existing != member`: the sessions are not compared.
unfoldable pub same_keys : Option Member → Member → Bool
same_keys none m = false
same_keys (some e) m =
    e.participant_id == m.participant_id
    && e.key_agreement_public_key == m.key_agreement_public_key
    && e.signing_public_key == m.signing_public_key

unfoldable pub held_by_other : Option Member → String → Bool
held_by_other none session = false
held_by_other (some m) session = not (m.session == session)

-- The room with the member, and with the next revision if the member is new or has new keys.
unfoldable pub with_member : String → Member → Room → Room
unfolding same_keys
with_member participant member room = record room {
  members = put room.members participant member;
  revision =
      if same_keys (get room.members participant) member then room.revision else room.revision + 1;
}

unfoldable pub admit : Env → String → String → EntryRequest → Room → Exec Service Admission
unfolding with_member save bind_session
admit env session participant req room s =
    let member = make_member participant session req in
    let joined = with_member participant member room in
    (write_policy env joined
        >> pure (
            admitted (not (same_keys (get room.members participant) member)) (snapshot joined)
              (recipients joined)))
      (save joined (bind_session session req.room_id s))

-- Over the limit the new member is deleted again.
unfoldable pub join_room : Env → String → String → EntryRequest → Room → Exec Service Admission
unfolding held_by_other
join_room env session participant req room s =
    let added = put room.members participant (make_member participant session req) in
    if held_by_other (get room.members participant) session
    then (err (value_error "participant is already active"), s)
    else if is_none (get room.members participant)
        && leb (suc max_participants_per_room) (length added)
    then (
      err (value_error "call participant capacity reached"),
      save (record room { members = Dict.remove added participant }) s,
    )
    else admit env session participant req room s

unfoldable pub unavailable : Peers → String → EntryRequest → Exec Service Admission
unavailable peers session req =
    safe_send peers session (call_join_rejected req.request_id req.room_id) >> pure turned_away

unfoldable pub join_found :
    Env → Peers → Clock → String → String → EntryRequest → Option Room → Exec Service Admission
join_found env peers clock session participant req none = unavailable peers session req
join_found env peers clock session participant req (some room) =
    if leb room.expires_at_ms clock.wall_ms
    then unavailable peers session req
    else if not (list_beq (env.sha256 req.secret) room.invite_token_hash)
    then raise (value_error "invalid call invitation")
    else if contains room.blocked participant
    then safe_send peers session (call_removed req.room_id) >> pure turned_away
    else join_room env session participant req room

abbrev pub elsewhere : Option String → String → Bool
elsewhere none room_id = false
elsewhere (some previous) room_id = not (previous == room_id)

unfoldable pub join_locked :
    Env → Peers → Clock → String → String → EntryRequest → Exec Service Admission
join_locked env peers clock session participant req s =
    if elsewhere (get s.session_rooms session) req.room_id
    then (err (value_error "leave the current call before joining another"), s)
    else join_found env peers clock session participant req (get s.rooms req.room_id) s

unfoldable pub announce_join : Peers → String → String → Admission → Exec Service (Unit {0})
announce_join peers session request_id turned_away = pure tt
announce_join peers session request_id (admitted changed snap sessions) = do
  safe_send peers session (call_joined request_id snap)
  if changed then broadcast peers sessions (call_membership snap) else pure tt

unfoldable pub join : Env → Peers → Clock → String → Value → Exec Service (Unit {0})
join env peers clock session message = do
  participant ← lift (require_authenticated peers session)
  lift (require (is_participant_id participant) "invalid authenticated participant")
  req ← lift (parse_join env message)
  outcome ← join_locked env peers clock session participant req
  announce_join peers session req.request_id outcome

-- `recipients` of a room that ended, or `update` of one that goes on.
pub data Departure : Type 0 where
  ended : List String → Departure
  departed : Option Room → Departure

-- The branch that `leave` and `disconnected` share.
unfoldable pub depart : Env → Option String → String → Room → Exec Service Departure
unfolding clear_session_metadata
depart env user session room s =
    if is_some user room.initiator_id
    then (let (sessions, s') = end_room env room s in
        (ok (ended sessions), clear_session_metadata session s'))
    else (do
      left ← remove_member env user session room
      λ s'. (ok (departed left), clear_session_metadata session s'))
        s

unfoldable pub announce_departure : Peers → String → EndReason → Departure → Exec Service (Unit {0})
announce_departure peers room_id reason (ended sessions) =
    broadcast peers sessions (call_ended room_id reason)
announce_departure peers room_id reason (departed none) = pure tt
announce_departure peers room_id reason (departed (some room)) =
    broadcast peers (recipients room) (call_membership (snapshot room))

unfoldable pub leave_found : Env → Peers → String → Option Room → Exec Service Departure
leave_found env peers session none = raise (value_error "call room is unavailable")
leave_found env peers session (some room) =
    depart env (peers.authenticated_user session) session room

unfoldable pub leave_locked : Env → Peers → String → RoomRequest → Exec Service Departure
unfolding leave_found
leave_locked env peers session req s =
    if is_some (get s.session_rooms session) req.room_id
    then leave_found env peers session (get s.rooms req.room_id) s
    else (err (value_error "session is not in the call room"), s)

unfoldable pub leave : Env → Peers → String → Value → Exec Service (Unit {0})
leave env peers session message = do
  participant ← lift (require_authenticated peers session)
  req ← lift (parse_leave message)
  departure ← leave_locked env peers session req
  safe_send peers session (call_left req.request_id req.room_id)
  announce_departure peers req.room_id initiator_left departure

unfoldable pub room_of : String → Service → Option Room
room_of session s = elim (get s.session_rooms session) [
  | none ↦ none
  | some room_id ↦ get s.rooms room_id
]

unfoldable pub disconnect_from : Env → Peers → String → Option Room → Exec Service (Unit {0})
disconnect_from env peers session none = pure tt
disconnect_from env peers session (some room) = do
  departure ← depart env (peers.authenticated_user session) session room
  announce_departure peers room.room_id initiator_disconnected departure

unfoldable pub disconnected : Env → Peers → String → Exec Service (Unit {0})
unfolding disconnect_from room_of
disconnected env peers session s = disconnect_from env peers session (room_of session s) s

unfoldable pub expire_found : Env → Peers → Option Room → Exec Service (Unit {0})
expire_found env peers none s = (ok tt, s)
expire_found env peers (some room) s =
    let (sessions, s') = end_room env room s in
    broadcast peers sessions (call_ended room.room_id expired) s'

unfoldable pub expire_room : Env → Peers → String → Exec Service (Unit {0})
unfolding expire_found
expire_room env peers room_id s = expire_found env peers (get s.rooms room_id) s
