-- ===== src/Call/Moderation.antt =====
-- `CallService.moderate` and `CallService.forward_group_key`: what only the initiator may do.
use call_backend.Prelude.{
  ℕ, ◌+◌, String, Bool, true, false, not, ◌&&◌, ◌||◌, Option, none, some, List, if◌then◌else◌, ◌==◌,
  string_eq, leb, length, contains, is_none, sorted, ok, err, value_error,
}
use call_backend.Prelude.Stateful.{Exec, pure, raise, lift, ◌>>=◌, ◌>>◌}
use call_backend.Dict.{get}
use call_backend.Value.{Value}
use call_backend.Call.Env.{Env, Peers, Clock}
use call_backend.Call.Requests.{require_authenticated}
use call_backend.Call.Commands.{
  KeyRequest, parse_group_key, ModerationRequest, parse_moderation, Operation, mute, allow_mic,
  remove, readmit,
}
use call_backend.Call.State.{
  Member, Room, Service, Snapshot, snapshot, recipients, add, discard, Delivery, ModerationResult,
  call_removed, call_membership, call_group_key, call_moderation_result,
}
use call_backend.Call.Rooms.{
  save, safe_send, broadcast, clear_session_metadata, write_policy, holds, remove_member,
}

abbrev pub max_moderated : ℕ
max_moderated = 256

unfoldable pub result_of : ModerationRequest → Room → Bool → String → ModerationResult
result_of req room accepted code = record {
  request_id = req.request_id;
  room_id = req.room_id;
  revision = room.revision;
  accepted = accepted;
  code = code;
  blocked_ids = sorted room.blocked;
}

-- The session of a removed member, the room's snapshot, the sessions to tell, the answer.
pub data Moderation : Type 0 where
  answered : Moderation
  moderated : Option String → Snapshot → List String → ModerationResult → Moderation

-- Every accepted operation ends in this.
unfoldable pub conclude : Env → ModerationRequest → Option String → Room → Exec Service Moderation
unfolding save
conclude env req removed room s =
    let next = record room { revision = room.revision + 1 } in
    (write_policy env next
        >> pure (moderated removed (snapshot next) (recipients next) (result_of req next true "")))
      (save next s)

unfoldable pub or_same : Option Room → Room → Room
or_same none room = room
or_same (some r) room = r

-- `_remove_member_locked(removed.session, room)`, then the session's metadata.
unfoldable pub evict : Env → Peers → Option Member → Room → Exec Service Room
unfolding or_same
evict env peers none room = pure room
evict env peers (some member) room = do
  left ← remove_member env (peers.authenticated_user member.session) member.session room
  λ s. (ok (or_same left room), clear_session_metadata member.session s)

abbrev pub session_of : Option Member → Option String
session_of none = none
session_of (some m) = some m.session

unfoldable pub remove_target : Env → Peers → ModerationRequest → Room → Exec Service Moderation
unfolding save
remove_target env peers req room s =
    if leb max_moderated (length room.blocked) && not (contains room.blocked req.target)
    then (err (value_error "removed participant limit reached"), s)
    else (let blocking = record room { blocked = add room.blocked req.target } in
        (do
          left ← evict env peers (get room.members req.target) blocking
          conclude env req (session_of (get room.members req.target))
              (record left { muted = discard left.muted req.target }))
          (save blocking s))

unfoldable pub apply_operation :
    Env → Peers → ModerationRequest → Operation → Room → Exec Service Moderation
apply_operation env peers req readmit room =
    conclude env req none (record room { blocked = discard room.blocked req.target })
apply_operation env peers req remove room = remove_target env peers req room
apply_operation env peers req mute room =
    if leb max_moderated (length room.muted) && not (contains room.muted req.target)
    then raise (value_error "muted participant limit reached")
    else conclude env req none (record room { muted = add room.muted req.target })
apply_operation env peers req allow_mic room =
    conclude env req none (record room { muted = discard room.muted req.target })

-- The participant whom the operation is about has left. (A removal of one who is blocked goes on.)
unfoldable pub target_left : ModerationRequest → Operation → Room → Bool
target_left req readmit room = false
target_left req remove room =
    is_none (get room.members req.target) && not (contains room.blocked req.target)
target_left req mute room = is_none (get room.members req.target)
target_left req allow_mic room = is_none (get room.members req.target)

unfoldable pub moderate_room :
    Env
    → Peers
    → Clock
    → String
    → String
    → ModerationRequest
    → Option Room
    → Exec Service Moderation
moderate_room env peers clock session actor req none =
    raise (value_error "only the active call creator can moderate")
moderate_room env peers clock session actor req (some room) =
    if not (actor == room.initiator_id)
      || not (holds (get room.members actor) session)
      || leb room.expires_at_ms clock.wall_ms
    then raise (value_error "only the active call creator can moderate")
    else if req.target == actor
    then raise (value_error "cannot moderate the call creator")
    else if target_left req req.operation room
    then (do
      safe_send peers session (call_moderation_result (result_of req room false "PARTICIPANT_LEFT"))
      pure answered)
    else apply_operation env peers req req.operation room

unfoldable pub moderate_locked :
    Env → Peers → Clock → String → String → ModerationRequest → Exec Service Moderation
moderate_locked env peers clock session actor req s =
    moderate_room env peers clock session actor req (get s.rooms req.room_id) s

unfoldable pub tell_removed : Peers → String → Option String → Exec Service (Unit {0})
tell_removed peers room_id none = pure tt
tell_removed peers room_id (some session) = safe_send peers session (call_removed room_id)

unfoldable pub announce_moderation : Peers → String → String → Moderation → Exec Service (Unit {0})
unfolding tell_removed
announce_moderation peers session room_id answered = pure tt
announce_moderation peers session room_id (moderated removed snap sessions result) = do
  tell_removed peers room_id removed
  broadcast peers sessions (call_membership snap)
  safe_send peers session (call_moderation_result result)

unfoldable pub moderate : Env → Peers → Clock → String → Value → Exec Service (Unit {0})
moderate env peers clock session message = do
  actor ← lift (require_authenticated peers session)
  req ← lift (parse_moderation message)
  outcome ← moderate_locked env peers clock session actor req
  announce_moderation peers session req.room_id outcome

-- The session that a group key goes to, if its sender may send it.
unfoldable pub key_target : String → String → KeyRequest → Option Room → Option String
key_target session sender req none = none
key_target session sender req (some room) =
    if sender == room.initiator_id && holds (get room.members sender) session
    then session_of (get room.members req.target_id)
    else none

unfoldable pub delivery : String → KeyRequest → Delivery
delivery sender req = record {
  request_id = req.request_id;
  room_id = req.room_id;
  sender_id = sender;
  target_id = req.target_id;
  key_id = req.key_id;
  nonce = req.nonce;
  ciphertext = req.ciphertext;
  signature = req.signature;
}

unfoldable pub deliver : Peers → String → KeyRequest → Option String → Exec Service (Unit {0})
unfolding delivery
deliver peers sender req none = raise (value_error "group key delivery is not authorized")
deliver peers sender req (some target) =
    safe_send peers target (call_group_key (delivery sender req))

unfoldable pub forward_checked : Peers → String → String → KeyRequest → Exec Service (Unit {0})
unfolding deliver
forward_checked peers session sender req s =
    deliver peers sender req (key_target session sender req (get s.rooms req.room_id)) s

unfoldable pub forward_group_key : Peers → String → Value → Exec Service (Unit {0})
unfolding forward_checked
forward_group_key peers session message = do
  sender ← lift (require_authenticated peers session)
  req ← lift (parse_group_key sender message)
  forward_checked peers session sender req
