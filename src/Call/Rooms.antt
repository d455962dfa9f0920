-- ===== src/Call/Rooms.antt =====
-- The private methods of `CallService` that the handlers share: sends, session bindings, policy
-- files, screen state, and the removal of a member or of a whole room.
use call_backend.Prelude.{
  ◌+◌, String, Bool, false, not, Option, none, some, List, [], ◌∷◌, ◌++◌, map, if◌then◌else◌, ◌==◌,
  string_eq, filter, ok, err, os_error, transport_error,
}
use call_backend.Prelude.Stateful.{Exec, pure, ◌>>◌}
use call_backend.Dict
use call_backend.Dict.{Dict, get, put, values}
use call_backend.Call.Env.{Env, Peers, Link, up, down, stalled}
use call_backend.Call.State.{
  Member, Room, Service, Effect, sent, persisted, Outgoing, Policy, DiskOutcome, written,
  no_directory, failed, muted_members,
}

unfoldable pub emit : Effect → Service → Service
emit e s = record s { trace = s.trace ++ e ∷ [] }

-- The room object was mutated: what its id finds is the new value.
unfoldable pub save : Room → Service → Service
save room s = record s { rooms = put s.rooms room.room_id room }

unfoldable pub send_over : Link → String → Outgoing → Exec Service (Unit {0})
unfolding emit
send_over up session payload s = (ok tt, emit (sent session payload) s)
send_over down session payload s = (ok tt, s)
send_over stalled session payload s = (err transport_error, s)

-- Only `RuntimeError` is caught.
unfoldable pub safe_send : Peers → String → Outgoing → Exec Service (Unit {0})
unfolding send_over
safe_send peers session payload = send_over (peers.link session) session payload

unfoldable pub broadcast : Peers → List String → Outgoing → Exec Service (Unit {0})
broadcast peers [] payload = pure tt
broadcast peers (session ∷ rest) payload =
    safe_send peers session payload >> broadcast peers rest payload

unfoldable pub bind_session : String → String → Service → Service
unfolding emit
bind_session session room_id s = emit (persisted session) (record s {
  session_rooms = put s.session_rooms session room_id;
  call_room_ids = put s.call_room_ids session room_id;
})

unfoldable pub clear_session_metadata : String → Service → Service
unfolding emit
clear_session_metadata session s =
    emit (persisted session) (record s { call_room_ids = Dict.remove s.call_room_ids session })

unfoldable pub policy_of : Room → Policy
policy_of room = record {
  room_id = room.room_id;
  expires_at = room.expires_at_ms;
  members = map (λ e. (e.0, e.1.session)) room.members;
  muted = muted_members room;
}

abbrev next_outcome : List DiskOutcome → DiskOutcome
next_outcome [] = written
next_outcome (o ∷ os) = o

abbrev later_outcomes : List DiskOutcome → List DiskOutcome
later_outcomes [] = []
later_outcomes (o ∷ os) = os

unfoldable pub write_outcome : DiskOutcome → String → Policy → Exec Service (Unit {0})
write_outcome written path policy s = (ok tt, record s { policies = put s.policies path policy })
write_outcome no_directory path policy s = (err os_error, s)
write_outcome failed path policy s =
    (err os_error, record s { policies = Dict.remove s.policies path })

unfoldable pub write_policy : Env → Room → Exec Service (Unit {0})
write_policy env room s =
    if env.writes_policies
    then write_outcome (next_outcome s.disk) (env.policy_name room.room_id) (policy_of room)
        (record s { disk = later_outcomes s.disk })
    else (ok tt, s)

unfoldable pub clear_screen : Room → Room
clear_screen room = record room {
  screen_timer = false;
  screen_owner = "";
  screen_id = "";
  screen_expires_at = 0;
  screen_revision = room.screen_revision + 1;
}

-- The room without the participant, before the policy is written.
unfoldable pub without_member : String → Room → Room
unfolding clear_screen
without_member participant room =
    let left = record room { members = Dict.remove room.members participant } in
    let cleared = if room.screen_owner == participant then clear_screen left else left in
    record cleared { revision = cleared.revision + 1 }

abbrev pub holds : Option Member → String → Bool
holds none session = false
holds (some m) session = m.session == session

unfoldable pub remove_held : Env → String → String → Room → Exec Service (Option Room)
unfolding without_member save
remove_held env session participant room s =
    let left = without_member participant room in
    let unbound = save left (record s { session_rooms = Dict.remove s.session_rooms session }) in
    (write_policy env left >> pure (some left)) unbound

-- `none` is the `None` of the source; the room that comes back is the mutated object, whose
-- sessions and snapshot the caller broadcasts.
unfoldable pub remove_member : Env → Option String → String → Room → Exec Service (Option Room)
remove_member env none session room = pure none
remove_member env (some participant) session room =
    if holds (get room.members participant) session
    then remove_held env session participant room
    else pure none

unfoldable pub unbind_all : List Member → Service → Service
unfolding clear_session_metadata
unbind_all [] s = s
unbind_all (m ∷ ms) s = unbind_all ms (
    clear_session_metadata m.session
      (record s { session_rooms = Dict.remove s.session_rooms m.session }))

unfoldable pub drop_policy : Env → String → Service → Service
drop_policy env room_id s =
    if env.writes_policies
    then record s { policies = Dict.remove s.policies (env.policy_name room_id) }
    else s

-- The sessions of all members but the initiator.
unfoldable pub others : Room → List String
others room =
    map (λ m. m.session)
      (filter (λ m. not (m.participant_id == room.initiator_id)) (values room.members))

-- The screen state and the timer of a room that is dropped are not read again.
unfoldable pub end_room : Env → Room → Service → List String × Service
unfolding unbind_all drop_policy others
end_room env room s = (
  others room,
  unbind_all (values room.members)
      (drop_policy env room.room_id (record s { rooms = Dict.remove s.rooms room.room_id })),
)
