-- ===== src/Call/Service.antt =====
-- `CallService.__init__`: the fresh state, the handlers that it registers, and histories of events.
use call_backend.Prelude.{
  String, Bool, ◌&&◌, Option, List, [], ◌∷◌, if◌then◌else◌, ◌==◌, string_eq, nat_eq, leb, length,
  all, codes, take, drop, list_beq,
}
use call_backend.Prelude.Stateful.{Exec, pure}
use call_backend.Dict.{Dict}
use call_backend.Value.{Value}
use call_backend.Call.Env.{Env, Peers, Link, Clock}
use call_backend.Call.Requests.{is_hex}
use call_backend.Call.State.{Service, Policy, DiskOutcome}
use call_backend.Call.Membership.{create, join, leave, disconnected, expire_room}
use call_backend.Call.Moderation.{moderate, forward_group_key}
use call_backend.Call.Screen.{screen_control, expire_screen}

-- re.fullmatch(r"[a-f0-9]{64}\.json", path.name)
unfoldable pub is_policy_name : String → Bool
is_policy_name name =
    let text = codes name in
    all is_hex (take 64 text) && leb 64 (length text) && list_beq (drop 64 text) (codes ".json")

-- A restarted backend deletes the policies of its previous process.
unfoldable pub without_policies : Dict String Policy → Dict String Policy
without_policies [] = []
without_policies ((name, p) ∷ ps) =
    let rest = without_policies ps in if is_policy_name name then rest else (name, p) ∷ rest

unfoldable pub init : Env → Dict String Policy → List DiskOutcome → Service
init env found disk = record {
  rooms = [];
  session_rooms = [];
  call_room_ids = [];
  policies = if env.writes_policies then without_policies found else found;
  disk = disk;
  trace = [];
}

-- The message types that the service registers, and what each calls.
unfoldable pub handle : Env → Peers → Clock → String → String → Value → Exec Service (Unit {0})
handle env peers clock kind session message =
    if kind == "call_create"
    then create env peers clock session message
    else if kind == "call_join"
    then join env peers clock session message
    else if kind == "call_leave"
    then leave env peers session message
    else if kind == "call_group_key"
    then forward_group_key peers session message
    else if kind == "call_moderate"
    then moderate env peers clock session message
    else if kind == "call_screen_start"
    then screen_control peers clock session message
    else if kind == "call_screen_stop"
    then screen_control peers clock session message
    else if kind == "call_screen_renew"
    then screen_control peers clock session message
    else pure tt

-- What can happen to the service: a message of a type from a session, the end of a session's
-- connection, or a timer of a room or of a screen lease, which may also fire late.
pub data Event : Type 0 where
  message : String → String → Value → Event
  closed : String → Event
  room_timer : String → Event
  screen_timer : String → String → Event

-- An event with the clock and the sessions as they are at that moment.
pub record Moment : Type 0 where
  pub provisional : String → Bool
  pub link : String → Link
  pub clock : Clock
  pub event : Event

unfoldable pub peers_at : (String → Option String) → Moment → Peers
peers_at users now = record {
  authenticated_user = users;
  provisional = now.provisional;
  link = now.link;
}

unfoldable pub react : Env → Peers → Clock → Event → Exec Service (Unit {0})
react env peers clock (message kind session value) = handle env peers clock kind session value
react env peers clock (closed session) = disconnected env peers session
react env peers clock (room_timer room_id) = expire_room env peers room_id
react env peers clock (screen_timer room_id share_id) = expire_screen peers clock room_id share_id

-- The server logs what a handler raises and goes on.
unfoldable pub run : Env → (String → Option String) → List Moment → Service → Service
run env users [] s = s
run env users (now ∷ later) s =
    run env users later (react env (peers_at users now) now.clock now.event s).1
