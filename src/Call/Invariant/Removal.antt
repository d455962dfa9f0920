-- ===== src/Call/Invariant/Removal.antt =====
-- The invariant when a member is taken out of a room.
use call_backend.Prelude.{
  ◌≤◌, String, ◌≡◌, refl, sym, subst, ◌∙◌, Option, none, some, true, false, arith, Bool-cases, ◌⊎◌,
  inl, inr, ◌==◌, string_eq, ==_iff, length, if◌then◌else◌, contains, List,
}
use call_backend.Prelude.Stateful.{Post, Post-state, then_pure}
use call_backend.Dict
use call_backend.Dict.{Dict, get, put, get-put, get-remove, length-remove-le, remove-Distinct}
use call_backend.Call.Env.{Env}
use call_backend.Call.State.{Member, Room, Service}
use call_backend.Call.Rooms.{clear_screen, without_member, remove_held, save, write_policy}
use call_backend.Call.Moderation.{max_moderated}
use call_backend.Call.Invariant.{IsSound, IsBound, Tables, Inv}
use call_backend.Call.Invariant.Frame.{write_policy-Keeps}
use call_backend.Call.Invariant.Rooms.{at_own_id, update-Tables}

-- The room with another set of blocked participants, of whom only `p` may be a member.
abbrev pub blocking : Room → List String → Room
blocking room bs = record room { blocked = bs }

module _ (p : String) (room : Room) (bs : List String) (sound : IsSound room)
    (guest : (p == room.initiator_id) ≡ false) (few : length bs ≤ max_moderated)
    (apart : (q : String)
      → contains bs q ≡ true
      → (p == q) ≡ false
      → get room.members q ≡ none) where
  left : Room
  left = without_member p (blocking room bs)

  left_members : left.members ≡ Dict.remove room.members p
  unfolding left without_member clear_screen
  left_members = ground arith

  left_screen :
      ((left.screen_id ≡ "") × (left.screen_owner ≡ ""))
      ⊎ ((room.screen_owner == p) ≡ false)
        × (left.screen_id ≡ room.screen_id)
        × (left.screen_owner ≡ room.screen_owner)
  unfolding left without_member clear_screen
  left_screen = elim (Bool-cases (room.screen_owner == p)) [
    | inl own ↦ rw own (inl (refl, refl))
    | inr other ↦ inr (other, rw other, rw other)
  ]

  left_rest :
      (left.room_id ≡ room.room_id)
      × (left.initiator_id ≡ room.initiator_id)
      × (left.blocked ≡ bs)
      × (left.muted ≡ room.muted)
  unfolding left without_member clear_screen
  left_rest = ground arith

  members_at : (q : String) → get left.members q ≡ (if p == q then none else get room.members q)
  members_at q = rw left_members (get-remove room.members p q)

  pub without_member-IsSound : IsSound (without_member p (blocking room bs))
  unfolding left
  without_member-IsSound = record {
    distinct = rw left_members (remove-Distinct room.members p sound.distinct);
    hosted = λ e. sound.hosted (ground (arith, members_at left.initiator_id, left_rest));
    named = λ q m h. ground (arith, sound.named q m, members_at q);
    within = rw left_members (omega (arith, sound.within, length-remove-le room.members p));
    apart = λ q h. ground (arith, apart q, left_rest, members_at q);
    few_blocked = ground (arith, left_rest);
    few_muted = ground (arith, left_rest, sound.few_muted);
    sharing = λ ne e. ground (
      arith,
      left_screen,
      sound.sharing,
      members_at left.screen_owner,
      ==_iff room.screen_owner p,
      ==_iff p room.screen_owner,
    );
    idle = λ e. ground (arith, left_screen, sound.idle);
  }

-- `s₀` is the service in which the handler has written the new set of blocked participants.
module _ (users : String → Option String) (env : Env) (session p : String) (room : Room)
    (bs : List String) (s s₀ : Service) (h : Inv users s) (k : String)
    (at : get s.rooms k ≡ some room) (m : Member) (member : get room.members p ≡ some m)
    (held : m.session ≡ session) (guest : (p == room.initiator_id) ≡ false)
    (few : length bs ≤ max_moderated)
    (apart : (q : String) → contains bs q ≡ true → (p == q) ≡ false → get room.members q ≡ none)
    (same_bindings : s₀.session_rooms ≡ s.session_rooms)
    (same_rooms : (r : Room) → put s₀.rooms k r ≡ put s.rooms k r) where
  pub after : Room
  after = without_member p (blocking room bs)

  pub own : after.room_id ≡ k
  unfolding after left
  own = (left_rest p room bs (h.sound k room at) guest few apart).0 ∙ h.keyed k room at

  unbound_elsewhere :
      (j : String) (r : Room)
      → (k == j) ≡ false
      → get s.rooms j ≡ some r
      → IsBound users (Dict.remove s.session_rooms session) j r
  unbound_elsewhere j r ne in_j q m' at_q = ground (
    arith,
    h.bound j r in_j q m' at_q,
    h.bound k room at p m member,
    get-remove s.session_rooms session m'.session,
    ==_iff session m'.session,
    ==_iff k j,
  )

  -- Of two members one session has one account only.
  still-IsBound : IsBound users (Dict.remove s.session_rooms session) k after
  unfolding after left
  still-IsBound q m' at_q = ground (
    arith,
    members_at p room bs (h.sound k room at) guest few apart q,
    h.bound k room at q m',
    h.bound k room at p m member,
    get-remove s.session_rooms session m'.session,
    ==_iff session m'.session,
    ==_iff p q,
  )

  left_Tables : Tables users (put s.rooms k after) (Dict.remove s.session_rooms session)
  unfolding after
  left_Tables =
      update-Tables users h (Dict.remove s.session_rooms session) k after own room at
        (without_member-IsSound p room bs (h.sound k room at) guest few apart) still-IsBound
        unbound_elsewhere

  -- Whether or not the policy can be written, the room that is found is the one without the member.
  pub remove_held-Post :
      Post
        (λ o t. (o ≡ some after) × (Inv users t × (get t.rooms k ≡ some after)))
        (λ t. Inv users t × (get t.rooms k ≡ some after))
        (remove_held env session p (blocking room bs) s₀)
  unfolding remove_held save after
  remove_held-Post =
      then_pure (λ t. Inv users t × (get t.rooms k ≡ some after)) (write_policy env _) (some after)
        _
        (write_policy-Keeps (λ r b. Tables users r b × (get r k ≡ some after)) env _ _
          (
            at_own_id users s₀.rooms _ k after own (
                subst (λ b. Tables users (put s₀.rooms k after) (Dict.remove b session))
                  (sym same_bindings) (rw (same_rooms after) left_Tables)),
            found,
          ))
    where
      found : get (put s₀.rooms after.room_id after) k ≡ some after
      found = ground (arith, get-put s₀.rooms after.room_id after k, ==_iff after.room_id k, own)

  pub remove_held-Inv : Inv users (remove_held env session p (blocking room bs) s₀).1
  remove_held-Inv =
      (Post-state (λ t. Inv users t × (get t.rooms k ≡ some after))
        (remove_held env session p (blocking room bs) s₀) (λ o t q. q.1) remove_held-Post).0

  -- The room that is left is sound.
  pub after-IsSound : IsSound after
  unfolding after
  after-IsSound = without_member-IsSound p room bs (h.sound k room at) guest few apart
