-- ===== src/Call/Invariant/Leaving.antt =====
-- `leave`, `disconnected` and `_expire_room` keep the invariant.
use call_backend.Prelude.{
  String, ◌≡◌, refl, sym, subst, ◌∙◌, Option, none, some, true, false, arith, if_cases, exec_if,
  Bool-cases, inl, inr, ◌==◌, string_eq, ==_iff, contains, List, [], ◌∷◌, map, is_some, Result,
}
use call_backend.Prelude.Stateful.{Keeps, Keeps-lift, Keeps-bind, bind_keeps}
use call_backend.Dict
use call_backend.Dict.{Dict, get, put, values, get-remove, get_of_value}
use call_backend.Value.{Value}
use call_backend.Call.Env.{Env, Peers}
use call_backend.Call.Requests.{RoomRequest, require_authenticated, parse_leave}
use call_backend.Call.State.{
  Member, Room, Service, EndReason, initiator_left, initiator_disconnected,
}
use call_backend.Call.Rooms.{
  clear_session_metadata, holds, remove_member, remove_held, unbind_all, drop_policy, end_room,
  safe_send,
}
use call_backend.Call.Membership.{
  Departure, ended, departed, depart, announce_departure, leave_found, leave_locked, leave, room_of,
  disconnect_from, disconnected, expire_found, expire_room,
}
use call_backend.Call.Invariant.{Tables, Inv}
use call_backend.Call.Invariant.Frame.{
  safe_send-Keeps, broadcast-Keeps, drop_policy-On, clear_session_metadata-On,
}
use call_backend.Call.Invariant.Rooms.{remove-Tables}
use call_backend.Call.Invariant.Removal.{remove_held-Inv}

unbind_all-rooms : (ms : List Member) (s : Service) → (unbind_all ms s).rooms ≡ s.rooms
unfolding unbind_all clear_session_metadata
unbind_all-rooms [] s = refl
unbind_all-rooms (m ∷ ms) s = unbind_all-rooms ms _

-- A session that is none of theirs stays bound.
unbind_all-others :
    (ms : List Member) (s : Service) (x : String)
    → contains (map (λ m. m.session) ms) x ≡ false
    → get (unbind_all ms s).session_rooms x ≡ get s.session_rooms x
unfolding unbind_all clear_session_metadata contains
unbind_all-others [] s x h = refl
unbind_all-others (m ∷ ms) s x h =
    unbind_all-others ms _ x (ground arith) ∙ ground (arith, get-remove s.session_rooms m.session x)

module _ (users : String → Option String) (env : Env) (room : Room) (s : Service) (h : Inv users s)
    (at : get s.rooms room.room_id ≡ some room) where
  no_member_elsewhere :
      (j : String) (r : Room)
      → (room.room_id == j) ≡ false
      → get s.rooms j ≡ some r
      → (p : String) (m : Member) → get r.members p ≡ some m
      → contains (map (λ x. x.session) (values room.members)) m.session ≡ false
  no_member_elsewhere j r ne in_j p m at_p =
      elim (Bool-cases (contains (map (λ x. x.session) (values room.members)) m.session)) [
        | inr out ↦ out
        | inl is_in ↦
            let (q, m', at_q, same) =
              get_of_value (λ (x : Member). x.session) room.members m.session
                (h.sound room.room_id room at).distinct is_in in
            absurd (
              ground (
                arith,
                h.bound room.room_id room at q m' at_q,
                h.bound j r in_j p m at_p,
                ==_iff room.room_id j,
              ))
      ]

  abbrev dropped : Service
  dropped = drop_policy env room.room_id (record s { rooms = Dict.remove s.rooms room.room_id })

  dropped_tables :
      (dropped.rooms ≡ Dict.remove s.rooms room.room_id) × (dropped.session_rooms ≡ s.session_rooms)
  dropped_tables =
      drop_policy-On (λ r b. (r ≡ Dict.remove s.rooms room.room_id) × (b ≡ s.session_rooms)) env
        room.room_id _ (refl, refl)

  pub end_room-Inv : Inv users (end_room env room s).1
  unfolding end_room
  end_room-Inv =
      rw (unbind_all-rooms (values room.members) dropped, dropped_tables.0)
        (remove-Tables users h _ room.room_id (λ j r ne in_j p m at_p. ground (
          arith,
          unbind_all-others (values room.members) dropped m.session
              (no_member_elsewhere j r ne in_j p m at_p),
          dropped_tables,
          h.bound j r in_j p m at_p,
        )))

module _ (users : String → Option String) (env : Env) (session : String) (room : Room) (s : Service)
    (h : Inv users s) (k : String) (at : get s.rooms k ≡ some room) where
  remove_member-Inv :
      (p : String)
      → (p == room.initiator_id) ≡ false
      → Inv users (remove_member env (some p) session room s).1
  unfolding remove_member
  remove_member-Inv p guest =
      exec_if (λ (r : Result (Option Room) × Service). Inv users r.1)
        (holds (get room.members p) session) s _ _
        (λ held. by_member (get room.members p) refl held) λ _. h
    where
      by_member :
          (o : Option Member)
          → get room.members p ≡ o
          → holds o session ≡ true
          → Inv users (remove_held env session p room s).1
      by_member none at_p held = absurd (ground arith)
      by_member (some m) at_p held =
          remove_held-Inv users env session p room room.blocked s s h k at m at_p
            ((==_iff m.session session).0 held) guest (h.sound k room at).few_blocked
            (λ q b _. (h.sound k room at).apart q b) refl (λ r. refl)

  depart-Inv : (user : Option String) → Inv users (depart env user session room s).1
  unfolding depart
  depart-Inv user =
      if_cases (λ (r : Result Departure × Service). Inv users r.1) (is_some user room.initiator_id)
        (λ host. clear_session_metadata-On (Tables users) session (end_room env room s).1 (
          end_room-Inv users env room s h
            (subst (λ i. get s.rooms i ≡ some room) (sym (h.keyed k room at)) at)))
        λ guest.
          bind_keeps {P = Inv users} (remove_member env user session room) _ s
            (guest_leaves user guest) λ left s'. clear_session_metadata-On (Tables users) session s'
    where
      guest_leaves :
          (o : Option String)
          → is_some o room.initiator_id ≡ false
          → Inv users (remove_member env o session room s).1
      guest_leaves none guest = unfold remove_member in h
      guest_leaves (some p) guest = remove_member-Inv p guest

announce_departure-Inv :
    (users : String → Option String) (peers : Peers) (room_id : String) (reason : EndReason)
    (d : Departure)
    → Keeps (Inv users) (announce_departure peers room_id reason d)
unfolding announce_departure
announce_departure-Inv users peers room_id reason (ended sessions) =
    broadcast-Keeps (Tables users) peers sessions _
announce_departure-Inv users peers room_id reason (departed none) = λ s h. h
announce_departure-Inv users peers room_id reason (departed (some room)) =
    broadcast-Keeps (Tables users) peers _ _

leave_locked-Inv :
    (env : Env) (peers : Peers) (session : String) (req : RoomRequest)
    → Keeps (Inv peers.authenticated_user) (leave_locked env peers session req)
unfolding leave_locked
leave_locked-Inv env peers session req s h =
    if_cases (λ (r : Result Departure × Service). Inv peers.authenticated_user r.1)
      (is_some (get s.session_rooms session) req.room_id)
      (λ _. by_room (get s.rooms req.room_id) refl) λ _. h
  where
    by_room :
        (o : Option Room)
        → get s.rooms req.room_id ≡ o
        → Inv peers.authenticated_user (leave_found env peers session o s).1
    by_room none at = h
    by_room (some room) at =
        depart-Inv peers.authenticated_user env session room s h req.room_id at _

-- `leave` keeps the invariant, on every branch, whatever the file system and the sessions do.
pub leave-Inv :
    (env : Env) (peers : Peers) (session : String) (message : Value)
    → Keeps (Inv peers.authenticated_user) (leave env peers session message)
unfolding leave
leave-Inv env peers session message =
    Keeps-lift {P = good} (require_authenticated peers session) _ λ participant _.
      Keeps-lift {P = good} (parse_leave message) _ λ req _.
        Keeps-bind {P = good} (leave_locked env peers session req) _
          (leave_locked-Inv env peers session req)
          λ d.
            Keeps-bind {P = good} (safe_send peers session _) _
              (safe_send-Keeps (Tables peers.authenticated_user) peers session _)
              λ _.
                announce_departure-Inv peers.authenticated_user peers req.room_id initiator_left d
  where
    good : Service → Type 0
    good = Inv peers.authenticated_user

-- So does `disconnected`, for a session in a call or in none.
pub disconnected-Inv :
    (env : Env) (peers : Peers) (session : String)
    → Keeps (Inv peers.authenticated_user) (disconnected env peers session)
unfolding disconnected
disconnected-Inv env peers session s h = by_binding (get s.session_rooms session) refl
  where
    by_room :
        (k : String) (o : Option Room)
        → get s.rooms k ≡ o
        → Inv peers.authenticated_user (disconnect_from env peers session o s).1
    by_room k none at = h
    by_room k (some room) at =
        bind_keeps {P = Inv peers.authenticated_user}
          (depart env (peers.authenticated_user session) session room) _ s
          (depart-Inv peers.authenticated_user env session room s h k at _)
          λ d.
            announce_departure-Inv peers.authenticated_user peers room.room_id
              initiator_disconnected d

    by_binding :
        (b : Option String)
        → get s.session_rooms session ≡ b
        → Inv peers.authenticated_user (disconnect_from env peers session (room_of session s) s).1
    by_binding none e = rw (e, room_of) h
    by_binding (some k) e = rw (e, room_of) (by_room k (get s.rooms k) refl)

-- And the timer that ends a room.
pub expire_room-Inv :
    (env : Env) (peers : Peers) (users : String → Option String) (room_id : String)
    → Keeps (Inv users) (expire_room env peers room_id)
unfolding expire_room
expire_room-Inv env peers users room_id s h = by_room (get s.rooms room_id) refl
  where
    by_room : (o : Option Room) → get s.rooms room_id ≡ o → Inv users (expire_found env peers o s).1
    by_room none at = h
    by_room (some room) at = broadcast-Keeps (Tables users) peers _ _ _ (
        end_room-Inv users env room s h
          (subst (λ i. get s.rooms i ≡ some room) (sym (h.keyed room_id room at)) at))
