-- ===== src/Call/Screen.antt =====
-- `CallService.screen_control` and `_expire_screen`: one participant at a time shares a screen, on
-- a lease that it renews.
use call_backend.Prelude.{
  ◌+◌, ◌*◌, String, Bool, true, not, ◌&&◌, ◌||◌, Option, none, some, List, if◌then◌else◌, ◌==◌,
  nat_eq, string_eq, leb, ltb, ok, err, value_error,
}
use call_backend.Prelude.Stateful.{Exec, pure, lift, ◌>>=◌, ◌>>◌}
use call_backend.Dict.{get}
use call_backend.Value.{Value}
use call_backend.Call.Env.{Peers, Clock}
use call_backend.Call.Requests.{require_authenticated}
use call_backend.Call.Commands.{ScreenRequest, parse_screen, ScreenCommand, start, stop, renew}
use call_backend.Call.State.{
  Room, Service, ScreenState, screen_snapshot, recipients, screen_lease_seconds, call_screen_result,
  call_screen_state,
}
use call_backend.Call.Rooms.{save, safe_send, broadcast, holds, clear_screen}

unfoldable pub owns : String → String → Room → Bool
owns participant share_id room = room.screen_owner == participant && room.screen_id == share_id

unfoldable pub is_free : Room → Bool
is_free room = room.screen_id == ""

-- A lease that has run out is cleared first.
unfoldable pub clear_stale : Clock → Room → Room
unfolding is_free
clear_stale clock room =
    if not (is_free room) && leb room.screen_expires_at clock.mono_ms
    then clear_screen room
    else room

unfoldable pub accepts : ScreenCommand → String → String → Room → Bool
accepts start participant share_id room = is_free room || owns participant share_id room
accepts stop participant share_id room = owns participant share_id room || is_free room
accepts renew participant share_id room = owns participant share_id room

unfoldable pub refusal : ScreenCommand → String
refusal start = "SCREEN_BUSY"
refusal stop = "SCREEN_NOT_OWNER"
refusal renew = "SCREEN_NOT_OWNER"

-- room.screen_expires_at = time.monotonic() + SCREEN_LEASE_SECONDS, with a new timer
unfoldable pub extend_lease : Clock → Room → Room
extend_lease clock room = record room {
  screen_expires_at = clock.later_mono_ms + screen_lease_seconds * 1000;
  screen_timer = true;
}

unfoldable pub take_screen : String → String → Room → Room
unfolding owns
take_screen participant share_id room =
    if owns participant share_id room then room else record room {
      screen_owner = participant;
      screen_id = share_id;
      screen_revision = room.screen_revision + 1;
    }

-- The room after the command, if it is accepted.
unfoldable pub run_command : ScreenCommand → Clock → String → String → Room → Room
unfolding take_screen extend_lease
run_command start clock participant share_id room =
    if accepts start participant share_id room
    then extend_lease clock (take_screen participant share_id room)
    else room
run_command stop clock participant share_id room =
    if owns participant share_id room then clear_screen room else room
run_command renew clock participant share_id room =
    if owns participant share_id room then extend_lease clock room else room

unfoldable pub after_command : Clock → String → ScreenRequest → Room → Room
unfolding clear_stale run_command
after_command clock participant req room =
    run_command req.command clock participant req.share_id (clear_stale clock room)

pub record ScreenOutcome : Type 0 where
  pub accepted : Bool
  pub code : String
  pub state : ScreenState
  pub sessions : List String
  pub changed : Bool

unfoldable pub screen_outcome : Clock → String → ScreenRequest → Room → ScreenOutcome
unfolding after_command clear_stale
screen_outcome clock participant req room =
    let accepted = accepts req.command participant req.share_id (clear_stale clock room) in
    record {
      accepted = accepted;
      code = if accepted then "" else refusal req.command;
      state = screen_snapshot (after_command clock participant req room);
      sessions = recipients (after_command clock participant req room);
      changed =
          not ((after_command clock participant req room).screen_revision == room.screen_revision);
    }

unfoldable pub control_room :
    Clock → String → String → ScreenRequest → Option Room → Exec Service ScreenOutcome
control_room clock session participant req none s =
    (err (value_error "screen sharing requires active call membership"), s)
control_room clock session participant req (some room) s =
    if not (holds (get room.members participant) session) || leb room.expires_at_ms clock.wall_ms
    then (err (value_error "screen sharing requires active call membership"), s)
    else (
      ok (screen_outcome clock participant req room),
      save (after_command clock participant req room) s,
    )

unfoldable pub control_locked : Clock → String → String → ScreenRequest → Exec Service ScreenOutcome
unfolding control_room
control_locked clock session participant req s =
    control_room clock session participant req (get s.rooms req.room_id) s

unfoldable pub screen_control : Peers → Clock → String → Value → Exec Service (Unit {0})
screen_control peers clock session message = do
  participant ← lift (require_authenticated peers session)
  req ← lift (parse_screen message)
  outcome ← control_locked clock session participant req
  safe_send peers session
      (call_screen_result req.request_id req.room_id outcome.accepted outcome.code outcome.state)
  if outcome.changed
      then broadcast peers outcome.sessions (call_screen_state req.room_id outcome.state)
      else pure tt

-- A timer that fires for another share, or before the lease ends, does nothing.
unfoldable pub expire_screen_found : Peers → Clock → String → Option Room → Exec Service (Unit {0})
unfolding save
expire_screen_found peers clock share_id none s = (ok tt, s)
expire_screen_found peers clock share_id (some room) s =
    if not (room.screen_id == share_id) || ltb clock.mono_ms room.screen_expires_at
    then (ok tt, s)
    else broadcast peers (recipients room)
        (call_screen_state room.room_id (screen_snapshot (clear_screen room)))
        (save (clear_screen room) s)

unfoldable pub expire_screen : Peers → Clock → String → String → Exec Service (Unit {0})
unfolding expire_screen_found
expire_screen peers clock room_id share_id s =
    expire_screen_found peers clock share_id (get s.rooms room_id) s
