-- ===== src/Call/Invariant/Histories.antt =====
-- The invariant over whole histories of the call service.
use call_backend.Prelude.{String, ◌≡◌, Option, some, List, [], ◌∷◌, arith, ◌==◌, string_eq}
use call_backend.Prelude.Stateful.{Keeps, Keeps-if}
use call_backend.Dict.{Dict, get}
use call_backend.Value.{Value}
use call_backend.Call.Env.{Env, Peers, Clock}
use call_backend.Call.State.{Room, Member, Service, Policy, DiskOutcome}
use call_backend.Call.Service.{
  init, handle, Event, message, closed, room_timer, screen_timer, Moment, peers_at, react, run,
}
use call_backend.Call.Invariant.{Inv}
use call_backend.Call.Invariant.Creating.{create-Inv}
use call_backend.Call.Invariant.Joining.{join-Inv}
use call_backend.Call.Invariant.Leaving.{leave-Inv, disconnected-Inv, expire_room-Inv}
use call_backend.Call.Invariant.Moderating.{moderate-Inv, forward_group_key-Inv}
use call_backend.Call.Invariant.Sharing.{screen_control-Inv, expire_screen-Inv}

init-Inv :
    (env : Env) (users : String → Option String) (found : Dict String Policy)
    (disk : List DiskOutcome)
    → Inv users (init env found disk)
unfolding init get
init-Inv env users found disk = record {
  few_rooms = omega arith;
  keyed = λ k r h. absurd (ground arith);
  sound = λ k r h. absurd (ground arith);
  bound = λ k r h. absurd (ground arith);
}

handle-Inv :
    (env : Env) (peers : Peers) (clock : Clock) (kind session : String) (value : Value)
    → Keeps (Inv peers.authenticated_user) (handle env peers clock kind session value)
unfolding handle
handle-Inv env peers clock kind session value =
    Keeps-if {P = Inv users} (kind == "call_create") _ _ (create-Inv env peers clock session value)
      (Keeps-if {P = Inv users} (kind == "call_join") _ _ (join-Inv env peers clock session value) (
        Keeps-if {P = Inv users} (kind == "call_leave") _ _ (leave-Inv env peers session value) (
          Keeps-if {P = Inv users} (kind == "call_group_key") _ _
            (forward_group_key-Inv users peers session value)
            (Keeps-if {P = Inv users} (kind == "call_moderate") _ _
              (moderate-Inv env peers clock session value)
              (Keeps-if {P = Inv users} (kind == "call_screen_start") _ _
                (screen_control-Inv users peers clock session value)
                (Keeps-if {P = Inv users} (kind == "call_screen_stop") _ _
                  (screen_control-Inv users peers clock session value)
                  (Keeps-if {P = Inv users} (kind == "call_screen_renew") _ _
                    (screen_control-Inv users peers clock session value) (λ s h. h))))))))
  where
    users : String → Option String
    users = peers.authenticated_user

react-Inv :
    (env : Env) (users : String → Option String) (now : Moment) (e : Event)
    → Keeps (Inv users) (react env (peers_at users now) now.clock e)
unfolding react peers_at
react-Inv env users now (message kind session value) =
    handle-Inv env (peers_at users now) now.clock kind session value
react-Inv env users now (closed session) = disconnected-Inv env (peers_at users now) session
react-Inv env users now (room_timer room_id) =
    expire_room-Inv env (peers_at users now) users room_id
react-Inv env users now (screen_timer room_id share_id) =
    expire_screen-Inv users (peers_at users now) now.clock room_id share_id

run-keeps :
    (env : Env) (users : String → Option String) (history : List Moment) (s : Service)
    → Inv users s
    → Inv users (run env users history s)
unfolding run
run-keeps env users [] s h = h
run-keeps env users (now ∷ later) s h =
    run-keeps env users later _ (react-Inv env users now now.event s h)

-- After any history of messages, disconnections and timers from the start, with sessions that keep
-- their accounts and whatever their connections, the clock and the file system do: there are at
-- most 1024 rooms, each under its own id; in each the initiator is a member, at most 32
-- participants are members, no blocked participant is, at most 256 are blocked and at most 256
-- muted, and who shares a screen is a member; and the session of each member is bound to that room
-- and belongs to the member's account.
pub run-Inv :
    (env : Env) (users : String → Option String) (found : Dict String Policy)
    (disk : List DiskOutcome) (history : List Moment)
    → Inv users (run env users history (init env found disk))
run-Inv env users found disk history =
    run-keeps env users history (init env found disk) (init-Inv env users found disk)

-- In every state that such a history reaches, two memberships with the same session are one:
-- they are in the same room and of the same participant.
pub one_seat :
    (env : Env) (users : String → Option String) (found : Dict String Policy)
    (disk : List DiskOutcome) (history : List Moment) (j k p q : String) (r t : Room) (m n : Member)
    → get (run env users history (init env found disk)).rooms j ≡ some r
    → get (run env users history (init env found disk)).rooms k ≡ some t
    → get r.members p ≡ some m
    → get t.members q ≡ some n
    → m.session ≡ n.session
    → (j ≡ k) × (p ≡ q)
one_seat env users found disk history j k p q r t m n at_j at_k at_p at_q same =
    let h = run-Inv env users found disk history in
    (
      ground (arith, h.bound j r at_j p m at_p, h.bound k t at_k q n at_q),
      ground (arith, h.bound j r at_j p m at_p, h.bound k t at_k q n at_q),
    )
