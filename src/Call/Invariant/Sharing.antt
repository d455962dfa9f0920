-- ===== src/Call/Invariant/Sharing.antt =====
-- `screen_control` and `_expire_screen` keep the invariant.
use call_backend.Prelude.{
  String, ◌≡◌, ◌≢◌, refl, subst, ◌∙◌, Option, none, some, true, false, not, ◌||◌, arith, if_cases,
  ◌==◌, string_eq, leb, ltb, Result, ok, ◌&&◌, nat_eq,
}
use call_backend.Prelude.Stateful.{Keeps, Keeps-lift, Keeps-bind, Keeps-if, pure}
use call_backend.Dict.{get}
use call_backend.Value.{Value}
use call_backend.Call.Env.{Peers, Clock}
use call_backend.Call.Requests.{require_authenticated, is_request_id, matches}
use call_backend.Call.Commands.{ScreenRequest, parse_screen, ScreenCommand, start, stop, renew}
use call_backend.Call.State.{Member, Room, Service}
use call_backend.Call.Rooms.{save, safe_send, holds, clear_screen}
use call_backend.Call.Screen.{
  owns, is_free, clear_stale, accepts, extend_lease, take_screen, run_command, after_command,
  ScreenOutcome, control_room, control_locked, screen_control, expire_screen_found, expire_screen,
}
use call_backend.Call.Invariant.{IsSound, Tables, Inv}
use call_backend.Call.Invariant.Frame.{safe_send-Keeps, broadcast-Keeps}
use call_backend.Call.Invariant.Rooms.{at_own_id, update-Tables}

-- Only the fields of the screen differ.
record SameCall (r q : Room) : Type 0 where
  id : q.room_id ≡ r.room_id
  host : q.initiator_id ≡ r.initiator_id
  members : q.members ≡ r.members
  blocked : q.blocked ≡ r.blocked
  muted : q.muted ≡ r.muted

-- A screen is free, or a member shares it.
abbrev WellShared : Room → Type 0
WellShared r =
    (r.screen_id ≢ "" → get r.members r.screen_owner ≢ none)
    × (r.screen_id ≡ "" → r.screen_owner ≡ "")

clear_screen-same : (r : Room) → SameCall r (clear_screen r) × WellShared (clear_screen r)
unfolding clear_screen
clear_screen-same r = (
  record { id = refl; host = refl; members = refl; blocked = refl; muted = refl },
  ((λ ne. absurd (ne refl)), (λ _. refl)),
)

clear_stale-same :
    (clock : Clock) (r : Room)
    → WellShared r
    → SameCall r (clear_stale clock r) × WellShared (clear_stale clock r)
unfolding clear_stale
clear_stale-same clock r w =
    if_cases (λ q. SameCall r q × WellShared q)
      (not (is_free r) && leb r.screen_expires_at clock.mono_ms) (λ _. clear_screen-same r)
      λ _. (record { id = refl; host = refl; members = refl; blocked = refl; muted = refl }, w)

extend_lease-same :
    (clock : Clock) (r q : Room)
    → SameCall r q × WellShared q
    → SameCall r (extend_lease clock q) × WellShared (extend_lease clock q)
unfolding extend_lease
extend_lease-same clock r q (c, w) = (
  record { id = c.id; host = c.host; members = c.members; blocked = c.blocked; muted = c.muted },
  w,
)

same_self : (r : Room) → SameCall r r
same_self r = record { id = refl; host = refl; members = refl; blocked = refl; muted = refl }

take_screen-same :
    (participant share_id : String) (r : Room)
    → get r.members participant ≢ none
    → share_id ≢ ""
    → WellShared r
    → SameCall r (take_screen participant share_id r)
      × WellShared (take_screen participant share_id r)
unfolding take_screen
take_screen-same participant share_id r member named w =
    if_cases (λ q. SameCall r q × WellShared q) (owns participant share_id r)
      (λ _. (same_self r, w))
      λ _. (
        record { id = refl; host = refl; members = refl; blocked = refl; muted = refl },
        ((λ _. member), (λ e. absurd (named e))),
      )

run_command-same :
    (c : ScreenCommand) (clock : Clock) (participant share_id : String) (r : Room)
    → get r.members participant ≢ none
    → share_id ≢ ""
    → WellShared r
    → SameCall r (run_command c clock participant share_id r)
      × WellShared (run_command c clock participant share_id r)
unfolding run_command
run_command-same start clock participant share_id r member named w =
    if_cases (λ q. SameCall r q × WellShared q) (accepts start participant share_id r)
      (λ _. extend_lease-same clock r _ (take_screen-same participant share_id r member named w))
      λ _. (same_self r, w)
run_command-same stop clock participant share_id r member named w =
    if_cases (λ q. SameCall r q × WellShared q) (owns participant share_id r)
      (λ _. clear_screen-same r) λ _. (same_self r, w)
run_command-same renew clock participant share_id r member named w =
    if_cases (λ q. SameCall r q × WellShared q) (owns participant share_id r)
      (λ _. extend_lease-same clock r r (same_self r, w)) λ _. (same_self r, w)

after_command-same :
    (clock : Clock) (participant : String) (req : ScreenRequest) (r : Room)
    → get r.members participant ≢ none
    → req.share_id ≢ ""
    → WellShared r
    → SameCall r (after_command clock participant req r)
      × WellShared (after_command clock participant req r)
unfolding after_command
after_command-same clock participant req r member named w =
    let (c, w') = clear_stale-same clock r w in
    let (d, w'') =
      run_command-same req.command clock participant req.share_id (clear_stale clock r)
        (λ e. member (ground (arith, c.members))) named w' in
    (
      record {
        id = d.id ∙ c.id;
        host = d.host ∙ c.host;
        members = d.members ∙ c.members;
        blocked = d.blocked ∙ c.blocked;
        muted = d.muted ∙ c.muted;
      },
      w'',
    )

SameCall-IsSound : (r q : Room) → IsSound r → SameCall r q → WellShared q → IsSound q
SameCall-IsSound r q sound c w = record {
  distinct = rw c.members sound.distinct;
  hosted = rw (c.members, c.host) sound.hosted;
  named = rw c.members sound.named;
  within = rw c.members sound.within;
  apart = rw (c.members, c.blocked) sound.apart;
  few_blocked = rw c.blocked sound.few_blocked;
  few_muted = rw c.muted sound.few_muted;
  sharing = w.0;
  idle = w.1;
}

-- A room whose screen changed is saved.
save-Inv :
    (users : String → Option String) (s : Service) (k : String) (r q : Room)
    → Inv users s
    → get s.rooms k ≡ some r
    → SameCall r q
    → WellShared q
    → Inv users (save q s)
unfolding save
save-Inv users s k r q h at c w =
    at_own_id users s.rooms s.session_rooms k q (c.id ∙ h.keyed k r at) (
      update-Tables users h s.session_rooms k q (c.id ∙ h.keyed k r at) r at
        (SameCall-IsSound r q (h.sound k r at) c w)
        (λ p m at_p. h.bound k r at p m (ground (arith, c.members)))
        (λ j r' _ in_j. h.bound j r' in_j))

shared_of :
    (users : String → Option String) (s : Service) (k : String) (r : Room)
    → Inv users s
    → get s.rooms k ≡ some r
    → WellShared r
shared_of users s k r h at = ((h.sound k r at).sharing, (h.sound k r at).idle)

held-present : (o : Option Member) (session : String) → holds o session ≡ true → o ≢ none
held-present none session e h = absurd (ground arith)
held-present (some m) session e h = cc

control_locked-Inv :
    (users : String → Option String) (clock : Clock) (session participant : String)
    (req : ScreenRequest)
    → req.share_id ≢ ""
    → Keeps (Inv users) (control_locked clock session participant req)
unfolding control_locked
control_locked-Inv users clock session participant req named s h =
    by_room (get s.rooms req.room_id) refl
  where
    good : Result ScreenOutcome × Service → Type 0
    good r = Inv users r.1

    by_room :
        (o : Option Room)
        → get s.rooms req.room_id ≡ o
        → Inv users (control_room clock session participant req o s).1
    by_room none at = h
    by_room (some room) at =
        if_cases good
          (not (holds (get room.members participant) session)
            || leb room.expires_at_ms clock.wall_ms)
          (λ _. h)
          λ may.
            let (c, w) =
              after_command-same clock participant req room
                (held-present (get room.members participant) session (ground arith)) named
                (shared_of users s req.room_id room h at) in
            save-Inv users s req.room_id room (after_command clock participant req room) h at c w

parsed_share :
    (message : Value) (req : ScreenRequest)
    → parse_screen message ≡ ok req
    → is_request_id req.share_id ≡ true
unfolding parse_screen
parsed_share message req h = ground arith

no_request_id : (s : String) → is_request_id s ≡ true → s ≢ ""
unfolding matches
no_request_id s h e = absurd (by_value (subst (λ t. is_request_id t ≡ true) e h))
  where
    by_value : false ≡ true → ⊥
    by_value c = cc

-- `screen_control` keeps the invariant, on every branch, whatever the sessions do.
pub screen_control-Inv :
    (users : String → Option String) (peers : Peers) (clock : Clock) (session : String)
    (message : Value)
    → Keeps (Inv users) (screen_control peers clock session message)
unfolding screen_control
screen_control-Inv users peers clock session message =
    Keeps-lift {P = Inv users} (require_authenticated peers session) _ λ participant _.
      Keeps-lift {P = Inv users} (parse_screen message) _ λ req is.
        Keeps-bind {P = Inv users} (control_locked clock session participant req) _
          (control_locked-Inv users clock session participant req
            (no_request_id req.share_id (parsed_share message req is)))
          λ o.
            Keeps-bind {P = Inv users} (safe_send peers session _) _
              (safe_send-Keeps (Tables users) peers session _)
              λ _.
                Keeps-if {P = Inv users} o.changed _ (pure tt)
                  (broadcast-Keeps (Tables users) peers o.sessions _) λ _ k. k

-- So does the timer of a screen lease.
pub expire_screen-Inv :
    (users : String → Option String) (peers : Peers) (clock : Clock) (room_id share_id : String)
    → Keeps (Inv users) (expire_screen peers clock room_id share_id)
unfolding expire_screen expire_screen_found
expire_screen-Inv users peers clock room_id share_id s h = by_room (get s.rooms room_id) refl
  where
    by_room :
        (o : Option Room)
        → get s.rooms room_id ≡ o
        → Inv users (expire_screen_found peers clock share_id o s).1
    by_room none at = h
    by_room (some room) at =
        if_cases (λ (r : Result (Unit {0}) × Service). Inv users r.1)
          (not (room.screen_id == share_id) || ltb clock.mono_ms room.screen_expires_at) (λ _. h)
          λ _. broadcast-Keeps (Tables users) peers _ _ _ (
            save-Inv users s room_id room (clear_screen room) h at (clear_screen-same room).0
              (clear_screen-same room).1)
