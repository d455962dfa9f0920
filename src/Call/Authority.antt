-- ===== src/Call/Authority.antt =====
-- Who may do what in a room: group keys, moderation, and the stay of a removed participant.
use call_backend.Prelude.{
  String, ◌≡◌, ◌≢◌, ◌↔◌, refl, Option, none, some, Bool, true, not, arith, if_cases, exec_if,
  Option-cases, inl, inr, string_eq, nat_eq, ==_iff, leb, Result, ok, err, Error, value_error,
  transport_error, contains, List, list_beq, ◌⊎◌,
}
use call_backend.Prelude.Stateful.{◌>>◌, pure}
use call_backend.Dict.{get}
use call_backend.Call.Env.{Env, Peers, Link, up, down, stalled, Clock}
use call_backend.Call.Requests.{EntryRequest}
use call_backend.Call.Commands.{KeyRequest}
use call_backend.Call.State.{Member, Room, Service, Snapshot, Outgoing, call_group_key}
use call_backend.Call.Rooms.{holds, safe_send, send_over, emit}
use call_backend.Call.Moderation.{key_target, delivery, deliver, forward_checked}
use call_backend.Call.Membership.{
  join_found, join_locked, Admission, turned_away, admitted, elsewhere, unavailable,
}

holds_iff :
    (o : Option Member) (session : String)
    → (holds o session ≡ true) ↔ ((m : Member) × (o ≡ some m) × (m.session ≡ session))
holds_iff none session = ((λ h. absurd (ground arith)), λ h. absurd (ground (arith, h.1)))
holds_iff (some m) session = (
  (λ h. (m, refl, (==_iff m.session session).0 h)),
  λ h. (==_iff m.session session).1 (ground (arith, h.1, h.2)),
)

-- The room exists, the sender is its initiator and speaks from the session of the initiator's
-- membership, and the named target is a member with the session `x`.
pub record IsAuthorised (session sender : String) (req : KeyRequest) (s : Service) (x : String)
    : Type 0 where
  pub room : Room
  pub found : get s.rooms req.room_id ≡ some room
  pub initiator : sender ≡ room.initiator_id
  pub membership : Member
  pub seated : get room.members sender ≡ some membership
  pub speaks : membership.session ≡ session
  pub target : Member
  pub targeted : get room.members req.target_id ≡ some target
  pub reached : target.session ≡ x

key_target_of :
    (session sender : String) (req : KeyRequest) (s : Service) (o : Option Room) (x : String)
    → get s.rooms req.room_id ≡ o
    → key_target session sender req o ≡ some x
    → IsAuthorised session sender req s x
unfolding key_target
key_target_of session sender req s none x at h = absurd (ground arith)
key_target_of session sender req s (some room) x at h =
    elim (Option-cases (get room.members req.target_id)) [
      | inl e ↦ absurd (ground arith)
      | inr (t, e) ↦
          let (m, at_m, is) = (holds_iff (get room.members sender) session).0 (ground arith) in
          record {
            room = room;
            found = at;
            initiator = ground (arith, ==_iff sender room.initiator_id);
            membership = m;
            seated = at_m;
            speaks = is;
            target = t;
            targeted = e;
            reached = ground arith;
          }
    ]

key_target_to :
    (session sender : String) (req : KeyRequest) (s : Service) (o : Option Room) (x : String)
    → get s.rooms req.room_id ≡ o
    → IsAuthorised session sender req s x
    → key_target session sender req o ≡ some x
unfolding key_target
key_target_to session sender req s none x at a = absurd (ground (arith, a.found))
key_target_to session sender req s (some room) x at a = ground (
  arith,
  a.found,
  a.initiator,
  a.targeted,
  a.reached,
  a.seated,
  (holds_iff (get room.members sender) session).1,
  ==_iff a.membership.session session,
  a.speaks,
  ==_iff sender room.initiator_id,
)

-- A checked group key message either goes, and only it, to the session of the named target, and
-- then its sender is the initiator of the room, speaks from the session of the initiator's
-- membership and the target is a member; or no such session exists, the handler raises, and
-- nothing changes and nothing is sent.
pub forward_cases :
    (peers : Peers) (session sender : String) (req : KeyRequest) (s : Service)
    → ((x : String) × IsAuthorised session sender req s x
        × (forward_checked peers session sender req s
            ≡ safe_send peers x (call_group_key (delivery sender req)) s))
      ⊎ ((((x : String) → ¬ IsAuthorised session sender req s x))
          × (forward_checked peers session sender req s
              ≡ (err (value_error "group key delivery is not authorized"), s)))
unfolding forward_checked
forward_cases peers session sender req s =
    by_target (key_target session sender req (get s.rooms req.room_id)) refl
  where
    by_target :
        (o : Option String)
        → key_target session sender req (get s.rooms req.room_id) ≡ o
        → ((x : String) × IsAuthorised session sender req s x
            × (deliver peers sender req (key_target session sender req (get s.rooms req.room_id)) s
                ≡ safe_send peers x (call_group_key (delivery sender req)) s))
          ⊎ ((((x : String) → ¬ IsAuthorised session sender req s x))
              × (deliver peers sender req
                    (key_target session sender req (get s.rooms req.room_id))
                    s
                  ≡ (err (value_error "group key delivery is not authorized"), s)))
    by_target none e = inr (
      (λ x a.
          absurd (
            ground (arith, key_target_to session sender req s (get s.rooms req.room_id) x refl a))),
      rw e (unfold deliver in refl),
    )
    by_target (some x) e = inl (
      x,
      key_target_of session sender req s (get s.rooms req.room_id) x refl e,
      rw e (unfold deliver in refl),
    )

-- Nobody was admitted, and the rooms and the bindings are those of `s`.
record NotAdmitted (s : Service) (r : Result Admission × Service) : Type 0 where
  refused :
      (changed : Bool) (snap : Snapshot) (sessions : List String)
      → r.0 ≢ ok (admitted changed snap sessions)
  same_rooms : r.1.rooms ≡ s.rooms
  same_bindings : r.1.session_rooms ≡ s.session_rooms

raised : (s : Service) (e : Error) → NotAdmitted s (err e, s)
raised s e = record { refused = λ c n xs h. cc; same_rooms = refl; same_bindings = refl }

answered_only :
    (peers : Peers) (session : String) (payload : Outgoing) (s : Service)
    → NotAdmitted s ((safe_send peers session payload >> pure turned_away) s)
unfolding safe_send
answered_only peers session payload s = by_link (peers.link session)
  where
    by_link : (l : Link) → NotAdmitted s ((send_over l session payload >> pure turned_away) s)
    by_link up =
        unfold send_over emit in
        record { refused = λ c n xs h. cc; same_rooms = refl; same_bindings = refl }
    by_link down =
        unfold send_over in
        record { refused = λ c n xs h. cc; same_rooms = refl; same_bindings = refl }
    by_link stalled = unfold send_over in raised s transport_error

blocked_NotAdmitted :
    (env : Env) (peers : Peers) (clock : Clock) (session participant : String) (req : EntryRequest)
    (s : Service) (room : Room)
    → get s.rooms req.room_id ≡ some room
    → contains room.blocked participant ≡ true
    → NotAdmitted s (join_locked env peers clock session participant req s)
unfolding join_locked join_found unavailable
blocked_NotAdmitted env peers clock session participant req s room at is =
    if_cases (NotAdmitted s) (elsewhere (get s.session_rooms session) req.room_id) (λ _. raised s _)
      λ _.
        rw (at, join_found)
          (exec_if (NotAdmitted s) (leb room.expires_at_ms clock.wall_ms) s _ _
            (λ _. answered_only peers session _ s)
            λ _.
              exec_if (NotAdmitted s)
                (not (list_beq (env.sha256 req.secret) room.invite_token_hash)) s _ _
                (λ _. raised s _)
                λ _.
                  exec_if (NotAdmitted s) (contains room.blocked participant) s _ _
                    (λ _. answered_only peers session _ s)
                    λ free. absurd (ground (arith, is, free)))

-- Whoever is blocked in a room is not admitted to it, whatever the request says, and the rooms and
-- the session bindings stay as they are.
pub blocked_stays_out :
    (env : Env) (peers : Peers) (clock : Clock) (session participant : String) (req : EntryRequest)
    (s : Service) (room : Room)
    → get s.rooms req.room_id ≡ some room
    → contains room.blocked participant ≡ true
    → ((changed : Bool) (snap : Snapshot) (sessions : List String)
        → (join_locked env peers clock session participant req s).0
          ≢ ok (admitted changed snap sessions))
      × ((join_locked env peers clock session participant req s).1.rooms ≡ s.rooms)
      × ((join_locked env peers clock session participant req s).1.session_rooms ≡ s.session_rooms)
blocked_stays_out env peers clock session participant req s room at is =
    let n = blocked_NotAdmitted env peers clock session participant req s room at is in
    (n.refused, n.same_rooms, n.same_bindings)
