-- ===== src/Call/Invariant/Joining.antt =====
-- `join` keeps the invariant.
use call_backend.Prelude.{
  suc, ◌≤◌, String, ◌≡◌, refl, sym, ◌∙◌, Option, none, some, true, false, not, ◌&&◌, arith,
  if_cases, exec_if, inl, inr, ◌==◌, string_eq, nat_eq, ==_iff, length, Result, contains, is_none,
  leb, list_beq, Option-cases,
}
use call_backend.Prelude.Stateful.{Keeps, Keeps-lift, Keeps-bind, Keeps-if, pure}
use call_backend.Prelude.Raising.{require}
use call_backend.Dict
use call_backend.Dict.{
  Dict, get, put, get-put, get-remove, length-put-present, length-put-le, length-remove-put-le,
  Distinct, put-Distinct, remove-Distinct,
}
use call_backend.Value.{Value}
use call_backend.Call.Env.{Env, Peers, Clock}
use call_backend.Call.Requests.{EntryRequest, require_authenticated, is_participant_id, parse_join}
use call_backend.Call.State.{Member, Room, Service, max_participants_per_room}
use call_backend.Call.Rooms.{save, bind_session, write_policy, safe_send}
use call_backend.Call.Membership.{
  make_member, held_by_other, with_member, admit, join_room, unavailable, join_found, join_locked,
  elsewhere, announce_join, join, Admission, turned_away, admitted,
}
use call_backend.Call.Invariant.{IsSound, IsBound, Tables, Inv}
use call_backend.Call.Invariant.Creating.{authenticated}
use call_backend.Call.Invariant.Frame.{safe_send-Keeps, broadcast-Keeps, write_policy-Keeps}
use call_backend.Call.Invariant.Rooms.{at_own_id, update-Tables}

module _ (participant : String) (member : Member) (room : Room) (sound : IsSound room)
    (named : member.participant_id ≡ participant)
    (allowed : contains room.blocked participant ≡ false) where
  added_within :
      (is_none (get room.members participant)
          && leb (suc max_participants_per_room) (length (put room.members participant member)))
        ≡ false
      → length (put room.members participant member) ≤ max_participants_per_room
  added_within fits = elim (Option-cases (get room.members participant)) [
    | inl e ↦ ground arith
    | inr (m, e) ↦ rw (length-put-present room.members participant member m e) sound.within
  ]

  with_member-IsSound :
      length (put room.members participant member) ≤ max_participants_per_room
      → IsSound (with_member participant member room)
  unfolding with_member
  with_member-IsSound fits = record {
    distinct = put-Distinct room.members participant member sound.distinct;
    hosted = λ e.
        ground (arith, sound.hosted, get-put room.members participant member room.initiator_id);
    named = λ p m h.
        ground
          (arith, sound.named p m, get-put room.members participant member p, ==_iff participant p);
    within = fits;
    apart = λ p h.
        ground
          (arith, sound.apart p h, get-put room.members participant member p, ==_iff participant p);
    few_blocked = sound.few_blocked;
    few_muted = sound.few_muted;
    sharing = λ ne e.
        ground (arith, sound.sharing ne, get-put room.members participant member room.screen_owner);
    idle = sound.idle;
  }

  turned_back-get :
      is_none (get room.members participant) ≡ true
      → (p : String)
      → get (Dict.remove (put room.members participant member) participant) p ≡ get room.members p
  turned_back-get absent p = ground (
    arith,
    get-remove (put room.members participant member) participant p,
    get-put room.members participant member p,
    ==_iff participant p,
  )

  turned_back-IsSound :
      is_none (get room.members participant) ≡ true
      → IsSound
          (record room { members = Dict.remove (put room.members participant member) participant })
  turned_back-IsSound absent = record {
    distinct =
        remove-Distinct (put room.members participant member) participant
          (put-Distinct room.members participant member sound.distinct);
    hosted = λ e. ground (arith, sound.hosted, turned_back-get absent room.initiator_id);
    named = λ p m h. ground (arith, sound.named p m, turned_back-get absent p);
    within = omega (arith, sound.within, length-remove-put-le room.members participant member);
    apart = λ p h. turned_back-get absent p ∙ sound.apart p h;
    few_blocked = sound.few_blocked;
    few_muted = sound.few_muted;
    sharing = λ ne e. ground (arith, sound.sharing ne, turned_back-get absent room.screen_owner);
    idle = sound.idle;
  }

module _ (users : String → Option String) (env : Env) (session participant : String)
    (req : EntryRequest) (room : Room) (s : Service) (account : users session ≡ some participant)
    (h : Inv users s) (at : get s.rooms req.room_id ≡ some room)
    (here : elsewhere (get s.session_rooms session) req.room_id ≡ false)
    (allowed : contains room.blocked participant ≡ false) where
  own : room.room_id ≡ req.room_id
  own = h.keyed req.room_id room at

  -- A session of another room is bound to that room, so it is not the one that joins.
  others-IsBound :
      (j : String) (r : Room)
      → (req.room_id == j) ≡ false
      → get s.rooms j ≡ some r
      → IsBound users (put s.session_rooms session req.room_id) j r
  others-IsBound j r ne in_j p m member = ground (
    arith,
    h.bound j r in_j p m member,
    get-put s.session_rooms session req.room_id m.session,
    ==_iff session m.session,
    ==_iff req.room_id j,
    ==_iff j req.room_id,
  )

  joined-IsBound :
      IsBound users
        (put s.session_rooms session req.room_id)
        req.room_id
        (with_member participant (make_member participant session req) room)
  unfolding with_member make_member
  joined-IsBound p m member = ground (
    arith,
    h.bound req.room_id room at p m,
    get-put room.members participant (make_member participant session req) p,
    get-put s.session_rooms session req.room_id m.session,
    ==_iff participant p,
    ==_iff session m.session,
  )

  joined_Tables :
      length (put room.members participant (make_member participant session req))
        ≤ max_participants_per_room
      → Tables users
          (put s.rooms req.room_id
            (with_member participant (make_member participant session req) room))
          (put s.session_rooms session req.room_id)
  unfolding make_member with_member
  joined_Tables fits =
      update-Tables users h (put s.session_rooms session req.room_id) req.room_id
        (with_member participant (make_member participant session req) room) own room at
        (with_member-IsSound participant (make_member participant session req) room
          (h.sound req.room_id room at) refl allowed fits)
        joined-IsBound others-IsBound

  admit-Inv :
      length (put room.members participant (make_member participant session req))
        ≤ max_participants_per_room
      → Inv users (admit env session participant req room s).1
  unfolding admit save bind_session with_member
  admit-Inv fits =
      Keeps-bind {P = Inv users} (write_policy env _) (λ _. pure _)
        (write_policy-Keeps (Tables users) env _) (λ _ _ k. k) _
        (at_own_id users s.rooms _ req.room_id (with_member _ _ room) own (joined_Tables fits))

  join_room-Inv : Inv users (join_room env session participant req room s).1
  unfolding join_room save make_member
  join_room-Inv =
      if_cases good (held_by_other (get room.members participant) session) (λ _. h)
        λ _.
          if_cases good
            (is_none (get room.members participant)
              && leb (suc max_participants_per_room) (length added))
            (λ full. at_own_id users s.rooms s.session_rooms req.room_id _ own (
              update-Tables users h s.session_rooms req.room_id _ own room at
                (turned_back-IsSound participant (make_member participant session req) room
                  (h.sound req.room_id room at) refl allowed (absent full))
                (λ p m at_p. h.bound req.room_id room at p m (
                  sym (
                    turned_back-get participant (make_member participant session req) room
                      (h.sound req.room_id room at) refl allowed (absent full) p)
                  ∙ at_p))
                (λ j r _ in_j. h.bound j r in_j)))
            λ room_left. admit-Inv (
              added_within participant (make_member participant session req) room
                (h.sound req.room_id room at) refl allowed room_left)
    where
      added : Dict String Member
      added = put room.members participant (make_member participant session req)

      absent :
          (is_none (get room.members participant)
              && leb (suc max_participants_per_room) (length added))
            ≡ true
          → is_none (get room.members participant) ≡ true
      absent full = ground arith

      good : Result Admission × Service → Type 0
      good r = Inv users r.1

module _ (users : String → Option String) (env : Env) (peers : Peers) (clock : Clock)
    (session participant : String) (req : EntryRequest)
    (account : users session ≡ some participant) where
  unavailable-Inv : Keeps (Inv users) (unavailable peers session req)
  unfolding unavailable
  unavailable-Inv =
      Keeps-bind {P = Inv users} (safe_send peers session _) (λ _. pure turned_away)
        (safe_send-Keeps (Tables users) peers session _) (λ _ _ k. k)

  join_found-Inv :
      (s : Service) (o : Option Room)
      → get s.rooms req.room_id ≡ o
      → elsewhere (get s.session_rooms session) req.room_id ≡ false
      → Inv users s
      → Inv users (join_found env peers clock session participant req o s).1
  unfolding join_found
  join_found-Inv s none at here h = unavailable-Inv s h
  join_found-Inv s (some room) at here h =
      exec_if good (leb room.expires_at_ms clock.wall_ms) s _ _ (λ _. unavailable-Inv s h)
        λ _.
          exec_if good (not (list_beq (env.sha256 req.secret) room.invite_token_hash)) s _ _
            (λ _. h)
            λ _.
              exec_if good (contains room.blocked participant) s _ _
                (λ _.
                  Keeps-bind {P = Inv users} (safe_send peers session _) (λ _. pure turned_away)
                    (safe_send-Keeps (Tables users) peers session _) (λ _ _ k. k) s h)
                λ allowed.
                  join_room-Inv users env session participant req room s account h at here allowed
    where
      good : Result Admission × Service → Type 0
      good r = Inv users r.1

  join_locked-Inv : Keeps (Inv users) (join_locked env peers clock session participant req)
  unfolding join_locked
  join_locked-Inv s h =
      if_cases (λ (r : Result Admission × Service). Inv users r.1)
        (elsewhere (get s.session_rooms session) req.room_id) (λ _. h)
        λ here. join_found-Inv s (get s.rooms req.room_id) refl here h

announce_join-Inv :
    (users : String → Option String) (peers : Peers) (session request_id : String) (a : Admission)
    → Keeps (Inv users) (announce_join peers session request_id a)
unfolding announce_join
announce_join-Inv users peers session request_id turned_away s h = h
announce_join-Inv users peers session request_id (admitted changed snap sessions) s h =
    Keeps-bind {P = Inv users} (safe_send peers session _) _
      (safe_send-Keeps (Tables users) peers session _)
      (λ _.
        Keeps-if {P = Inv users} changed _ (pure tt)
          (broadcast-Keeps (Tables users) peers sessions _) (λ _ k. k))
      s h

-- `join` keeps the invariant, on every branch, whatever the file system and the sessions do.
pub join-Inv :
    (env : Env) (peers : Peers) (clock : Clock) (session : String) (message : Value)
    → Keeps (Inv peers.authenticated_user) (join env peers clock session message)
unfolding join
join-Inv env peers clock session message =
    Keeps-lift {P = good} (require_authenticated peers session) _ λ participant is.
      Keeps-lift {P = good} (require (is_participant_id participant) _) _ λ _ _.
        Keeps-lift {P = good} (parse_join env message) _ λ req _.
          Keeps-bind {P = good} (join_locked env peers clock session participant req) _
            (join_locked-Inv good_users env peers clock session participant req
              (authenticated peers session participant is))
            λ a. announce_join-Inv good_users peers session _ a
  where
    good_users : String → Option String
    good_users = peers.authenticated_user

    good : Service → Type 0
    good = Inv good_users
