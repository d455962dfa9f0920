-- ===== src/Call/Invariant/Moderating.antt =====
-- `moderate` and `forward_group_key` keep the invariant.
use call_backend.Prelude.{
  ◌+◌, ◌≤◌, String, ◌≡◌, refl, Option, none, some, true, false, not, ◌&&◌, ◌||◌, arith, exec_if,
  Bool-cases, inl, inr, ◌==◌, string_eq, nat_eq, ==_iff, leb, Result, length, contains, List,
  length-filter-le,
}
use call_backend.Prelude.Stateful.{Keeps, Keeps-lift, Keeps-bind, pure}
use call_backend.Dict.{get}
use call_backend.Value.{Value}
use call_backend.Call.Env.{Env, Peers, Clock}
use call_backend.Call.Requests.{require_authenticated}
use call_backend.Call.Commands.{
  ModerationRequest, parse_moderation, KeyRequest, parse_group_key, Operation, mute, allow_mic,
  remove, readmit,
}
use call_backend.Call.State.{Room, Service, add, discard}
use call_backend.Call.Rooms.{safe_send, broadcast, holds}
use call_backend.Call.Moderation.{
  max_moderated, Moderation, answered, moderated, conclude, remove_target, target_left,
  apply_operation, moderate_room, moderate_locked, tell_removed, announce_moderation, moderate,
  deliver, forward_checked, forward_group_key,
}
use call_backend.Call.Invariant.{IsSound, Tables, Inv}
use call_backend.Call.Invariant.Frame.{safe_send-Keeps, broadcast-Keeps}
use call_backend.Call.Invariant.Evicting.{
  contains-discard, add_bound, lists-IsSound, conclude-Inv, remove_target-Inv,
}

few_filtered :
    (xs : List String) (x : String)
    → length xs ≤ max_moderated
    → length (discard xs x) ≤ max_moderated
unfolding discard
few_filtered xs x few = omega (arith, few, length-filter-le (λ y. not (y == x)) xs)

module _ (env : Env) (peers : Peers) (req : ModerationRequest) (s : Service)
    (h : Inv peers.authenticated_user s) (k : String) (room : Room) (at : get s.rooms k ≡ some room)
    (guest : (req.target == room.initiator_id) ≡ false) where
  abbrev users : String → Option String
  users = peers.authenticated_user

  abbrev sound : IsSound room
  sound = h.sound k room at

  with_lists :
      (bs ms : List String)
      → length bs ≤ max_moderated
      → length ms ≤ max_moderated
      → ((q : String) → contains bs q ≡ true → contains room.blocked q ≡ true)
      → Inv users (conclude env req none (record room { blocked = bs; muted = ms }) s).1
  with_lists bs ms few_bs few_ms fewer =
      conclude-Inv users env req k none s room (record room { blocked = bs; muted = ms }) h at refl
        refl
        (lists-IsSound room sound bs ms few_bs few_ms (λ q c. sound.apart q (fewer q c))
          (room.revision + 1))

  apply_operation-Inv : (o : Operation) → Inv users (apply_operation env peers req o room s).1
  unfolding apply_operation
  apply_operation-Inv readmit =
      with_lists (discard room.blocked req.target) room.muted
        (few_filtered room.blocked req.target sound.few_blocked) sound.few_muted
        (λ q c. contains-discard room.blocked req.target q c)
  apply_operation-Inv remove =
      elim (Bool-cases
        (leb max_moderated (length room.blocked) && not (contains room.blocked req.target))) [
          | inl full ↦ unfold remove_target in rw full h
          | inr room_left ↦ remove_target-Inv env peers req s h k room at guest room_left
        ]
  apply_operation-Inv mute =
      exec_if (λ (r : Result Moderation × Service). Inv users r.1)
        (leb max_moderated (length room.muted) && not (contains room.muted req.target)) s _ _
        (λ _. h)
        λ room_left.
          with_lists room.blocked (add room.muted req.target) sound.few_blocked
            (add_bound room.muted req.target room_left sound.few_muted) (λ q c. c)
  apply_operation-Inv allow_mic =
      with_lists room.blocked (discard room.muted req.target) sound.few_blocked
        (few_filtered room.muted req.target sound.few_muted) (λ q c. c)

module _ (env : Env) (peers : Peers) (clock : Clock) (session actor : String)
    (req : ModerationRequest) where
  moderate_locked-Inv :
      Keeps (Inv peers.authenticated_user) (moderate_locked env peers clock session actor req)
  unfolding moderate_locked moderate_room
  moderate_locked-Inv s h = by_room (get s.rooms req.room_id) refl
    where
      good : Result Moderation × Service → Type 0
      good r = Inv peers.authenticated_user r.1

      by_room :
          (o : Option Room)
          → get s.rooms req.room_id ≡ o
          → good (moderate_room env peers clock session actor req o s)
      by_room none at = h
      by_room (some room) at =
          exec_if good
            (not (actor == room.initiator_id)
              || not (holds (get room.members actor) session)
              || leb room.expires_at_ms clock.wall_ms)
            s _ _ (λ _. h)
            λ may.
              exec_if good (req.target == actor) s _ _ (λ _. h)
                λ other.
                  exec_if good (target_left req req.operation room) s _ _
                    (λ _.
                      Keeps-bind {P = Inv peers.authenticated_user} (safe_send peers session _)
                        (λ _. pure answered)
                        (safe_send-Keeps (Tables peers.authenticated_user) peers session _)
                        (λ _ _ t. t) s h)
                    λ _.
                      apply_operation-Inv env peers req s h req.room_id room at
                        (ground (
                          arith,
                          ==_iff actor room.initiator_id,
                          ==_iff req.target room.initiator_id,
                          ==_iff req.target actor,
                        ))
                        req.operation

announce_moderation-Inv :
    (users : String → Option String) (peers : Peers) (session room_id : String) (m : Moderation)
    → Keeps (Inv users) (announce_moderation peers session room_id m)
unfolding announce_moderation
announce_moderation-Inv users peers session room_id answered = λ s h. h
announce_moderation-Inv users peers session room_id (moderated removed snap sessions result) =
    Keeps-bind {P = Inv users} (tell_removed peers room_id removed) _ (told removed) λ _.
      Keeps-bind {P = Inv users} (broadcast peers sessions _) _
        (broadcast-Keeps (Tables users) peers sessions _)
        λ _. safe_send-Keeps (Tables users) peers session _
  where
    told : (o : Option String) → Keeps (Inv users) (tell_removed peers room_id o)
    told none = λ s h. h
    told (some x) = safe_send-Keeps (Tables users) peers x _

-- `moderate` keeps the invariant, on every branch, whatever the file system and the sessions do.
pub moderate-Inv :
    (env : Env) (peers : Peers) (clock : Clock) (session : String) (message : Value)
    → Keeps (Inv peers.authenticated_user) (moderate env peers clock session message)
unfolding moderate
moderate-Inv env peers clock session message =
    Keeps-lift {P = good} (require_authenticated peers session) _ λ actor _.
      Keeps-lift {P = good} (parse_moderation message) _ λ req _.
        Keeps-bind {P = good} (moderate_locked env peers clock session actor req) _
          (moderate_locked-Inv env peers clock session actor req)
          λ m. announce_moderation-Inv peers.authenticated_user peers session req.room_id m
  where
    good : Service → Type 0
    good = Inv peers.authenticated_user

-- So does `forward_group_key`, which writes nothing.
pub forward_group_key-Inv :
    (users : String → Option String) (peers : Peers) (session : String) (message : Value)
    → Keeps (Inv users) (forward_group_key peers session message)
unfolding forward_group_key forward_checked deliver
forward_group_key-Inv users peers session message =
    Keeps-lift {P = Inv users} (require_authenticated peers session) _ λ sender _.
      Keeps-lift {P = Inv users} (parse_group_key sender message) _
        λ req _ s h. delivered sender req _ s h
  where
    delivered :
        (sender : String) (req : KeyRequest) (o : Option String)
        → Keeps (Inv users) (deliver peers sender req o)
    delivered sender req none = λ s h. h
    delivered sender req (some x) = safe_send-Keeps (Tables users) peers x _
