-- ===== src/Call/Invariant/Evicting.antt =====
-- The removal of a participant, and every operation's conclusion, keep the invariant.
use call_backend.Prelude.{
  ℕ, ◌+◌, ◌≤◌, String, ◌≡◌, refl, sym, subst, ◌∙◌, Option, none, some, true, false, not, ◌&&◌, ◌||◌,
  arith, Bool-cases, inl, inr, ◌==◌, string_eq, nat_eq, ==_iff, eq_refl, leb, length, contains,
  List, [], ◌∷◌, ◌++◌, length-append, filter, length-filter-le,
}
use call_backend.Prelude.Stateful.{
  Exec, Keeps-bind, pure, ◌>>=◌, Post, bind-Post, Post-of, Post-mono, Post-state,
}
use call_backend.Dict.{get, put, get-put, put-put}
use call_backend.Call.Env.{Env, Peers}
use call_backend.Call.Commands.{ModerationRequest}
use call_backend.Call.State.{Member, Room, Service, add, discard}
use call_backend.Call.Rooms.{save, remove_member, write_policy}
use call_backend.Call.Moderation.{
  max_moderated, session_of, Moderation, conclude, evict, remove_target,
}
use call_backend.Call.Invariant.{IsSound, Tables, Inv}
use call_backend.Call.Invariant.Frame.{write_policy-Keeps, clear_session_metadata-On}
use call_backend.Call.Invariant.Rooms.{at_own_id, update-Tables}
use call_backend.Call.Invariant.Removal.{blocking, after, remove_held-Post, after-IsSound}

pub length-add : (xs : List String) (x : String) → length (add xs x) ≤ length xs + 1
unfolding add
length-add xs x = ground (arith, length-append xs (x ∷ []))

contains-append :
    (xs : List String) (x q : String) → contains (xs ++ x ∷ []) q ≡ (contains xs q || (x == q))
unfolding contains
contains-append [] x q = ground arith
contains-append (y ∷ ys) x q = ground (arith, contains-append ys x q)

contains-add :
    (xs : List String) (x q : String)
    → contains (add xs x) q ≡ true
    → (x == q) ≡ false
    → contains xs q ≡ true
unfolding add
contains-add xs x q h ne = ground (arith, contains-append xs x q)

pub contains-discard :
    (xs : List String) (x q : String) → contains (discard xs x) q ≡ true → contains xs q ≡ true
unfolding discard filter contains
contains-discard [] x q h = h
contains-discard (y ∷ ys) x q h = ground (arith, contains-discard ys x q)

pub add_bound :
    (xs : List String) (x : String)
    → (leb max_moderated (length xs) && not (contains xs x)) ≡ false
    → length xs ≤ max_moderated
    → length (add xs x) ≤ max_moderated
unfolding add
add_bound xs x room_left few = ground (arith, length-append xs (x ∷ []))

-- The room with other moderation lists, of which the blocked are no members.
module _ (r : Room) (sound : IsSound r) (bs ms : List String) (few_bs : length bs ≤ max_moderated)
    (few_ms : length ms ≤ max_moderated)
    (apart : (q : String) → contains bs q ≡ true → get r.members q ≡ none) where
  pub lists-IsSound : (n : ℕ) → IsSound (record r { blocked = bs; muted = ms; revision = n })
  lists-IsSound n = record {
    distinct = sound.distinct;
    hosted = sound.hosted;
    named = sound.named;
    within = sound.within;
    apart = apart;
    few_blocked = few_bs;
    few_muted = few_ms;
    sharing = sound.sharing;
    idle = sound.idle;
  }

module _ (users : String → Option String) (env : Env) (req : ModerationRequest) (k : String) where
  pub conclude-Inv :
      (removed : Option String) (s : Service) (r q : Room)
      → Inv users s
      → get s.rooms k ≡ some r
      → q.room_id ≡ r.room_id
      → q.members ≡ r.members
      → IsSound (record q { revision = q.revision + 1 })
      → Inv users (conclude env req removed q s).1
  unfolding conclude save
  conclude-Inv removed s r q h at id members sound =
      Keeps-bind {P = Inv users} (write_policy env _) (λ _. pure _)
        (write_policy-Keeps (Tables users) env _) (λ _ _ t. t) _
        (at_own_id users s.rooms s.session_rooms k _ (id ∙ h.keyed k r at) (
          update-Tables users h s.session_rooms k _ (id ∙ h.keyed k r at) r at sound
            (λ p m at_p. h.bound k r at p m (ground arith)) (λ j r' _ in_j. h.bound j r' in_j)))

few_discarded :
    (xs : List String) (x : String)
    → length xs ≤ max_moderated
    → length (discard xs x) ≤ max_moderated
unfolding discard
few_discarded xs x few = omega (arith, few, length-filter-le (λ y. not (y == x)) xs)

module _ (env : Env) (peers : Peers) (req : ModerationRequest) (s : Service)
    (h : Inv peers.authenticated_user s) (k : String) (room : Room) (at : get s.rooms k ≡ some room)
    (guest : (req.target == room.initiator_id) ≡ false)
    (room_left : (leb max_moderated (length room.blocked) && not (contains room.blocked req.target))
      ≡ false) where
  abbrev users : String → Option String
  users = peers.authenticated_user

  abbrev bs : List String
  bs = add room.blocked req.target

  few : length bs ≤ max_moderated
  few = add_bound room.blocked req.target room_left (h.sound k room at).few_blocked

  apart :
      (q : String) → contains bs q ≡ true → (req.target == q) ≡ false → get room.members q ≡ none
  apart q c ne = (h.sound k room at).apart q (contains-add room.blocked req.target q c ne)

  blocking_found : get (save (blocking room bs) s).rooms k ≡ some (blocking room bs)
  unfolding save
  blocking_found = ground (
    arith,
    get-put s.rooms room.room_id (blocking room bs) k,
    ==_iff room.room_id k,
    h.keyed k room at,
  )

  -- What is concluded with after the removal.
  next_of :
      (r : Room)
      → IsSound r
      → IsSound (record r { muted = discard r.muted req.target; revision = r.revision + 1 })
  next_of r sound =
      lists-IsSound r sound r.blocked (discard r.muted req.target) sound.few_blocked
        (few_discarded r.muted req.target sound.few_muted) sound.apart (r.revision + 1)

  absent-Inv :
      (removed : Option String)
      → get room.members req.target ≡ none
      → Inv users
          (conclude env req removed
            (record (blocking room bs) { muted = discard room.muted req.target })
            (save (blocking room bs) s)).1
  unfolding save
  absent-Inv removed absent =
      conclude-Inv users env req k removed (save (blocking room bs) s) (blocking room bs) _
        (at_own_id users s.rooms s.session_rooms k _ (h.keyed k room at) (
          update-Tables users h s.session_rooms k _ (h.keyed k room at) room at sound
            (h.bound k room at) (λ j r _ in_j. h.bound j r in_j)))
        blocking_found refl refl (next_of (blocking room bs) sound)
    where
      sound : IsSound (blocking room bs)
      sound =
          lists-IsSound room (h.sound k room at) bs room.muted few (h.sound k room at).few_muted
            (λ q c. elim (Bool-cases (req.target == q)) [
              | inl same ↦
                  subst (λ x. get room.members x ≡ none) ((==_iff req.target q).0 same) absent
              | inr other ↦ apart q c other
            ])
            room.revision

  same_rooms : (r : Room) → put (save (blocking room bs) s).rooms k r ≡ put s.rooms k r
  unfolding save
  same_rooms r =
      subst (λ i. put (put s.rooms i (blocking room bs)) k r ≡ put s.rooms k r)
        (sym (h.keyed k room at)) (put-put s.rooms k (blocking room bs) r)

  same_bindings : (save (blocking room bs) s).session_rooms ≡ s.session_rooms
  unfolding save
  same_bindings = refl

  module _ (m : Member) (member : get room.members req.target ≡ some m) where
    gone : Room
    gone =
        after users env m.session req.target room bs s (save (blocking room bs) s) h k at m member
          refl guest few apart same_bindings same_rooms

    gone-IsSound : IsSound gone
    unfolding gone
    gone-IsSound =
        after-IsSound users env m.session req.target room bs s (save (blocking room bs) s) h k at m
          member refl guest few apart same_bindings same_rooms

    abbrev Holding : Service → Type 0
    Holding t = Inv users t × (get t.rooms k ≡ some gone)

    removed_Post :
        Post
          (λ o t. (o ≡ some gone) × Holding t)
          Holding
          (remove_member env
            (users m.session)
            m.session
            (blocking room bs)
            (save (blocking room bs) s))
    unfolding remove_member gone
    removed_Post =
        rw ((h.bound k room at req.target m member).1, member, eq_refl m.session)
          (remove_held-Post users env m.session req.target room bs s (save (blocking room bs) s) h k
            at m member refl guest few apart same_bindings same_rooms)

    evicted_Post :
        Post
          (λ r t. (r ≡ gone) × Holding t)
          Holding
          (evict env peers (some m) (blocking room bs) (save (blocking room bs) s))
    unfolding evict
    evicted_Post =
        bind-Post Holding (λ o t. (o ≡ some gone) × Holding t) (λ r t. (r ≡ gone) × Holding t)
          (remove_member env (users m.session) m.session (blocking room bs)) _
          (save (blocking room bs) s) removed_Post
          λ o t q. (
            ground (arith, q.0),
            clear_session_metadata-On (λ rooms b. Tables users rooms b × (get rooms k ≡ some gone))
                m.session t q.1,
          )

    present-Inv :
        (removed : Option String)
        → Inv users
            ((evict env peers (some m) (blocking room bs) >>= λ left.
                conclude env req removed (record left { muted = discard left.muted req.target }))
              (save (blocking room bs) s)).1
    present-Inv removed =
        Post-state (Inv users) _ (λ _ _ q. q)
          (bind-Post (Inv users) (λ r t. (r ≡ gone) × Holding t) (λ _ t. Inv users t)
            (evict env peers (some m) (blocking room bs)) finish (save (blocking room bs) s)
            (Post-mono Holding (Inv users) (λ r t. (r ≡ gone) × Holding t)
              (λ r t. (r ≡ gone) × Holding t) _ (λ _ _ q. q) (λ _ q. q.0) evicted_Post)
            λ r t q. Post-of (Inv users) (finish r t) (
              subst (λ x. Inv users (finish x t).1) (sym q.0)
                (conclude-Inv users env req k removed t gone _ q.1.0 q.1.1 refl refl
                  (next_of gone gone-IsSound))))
      where
        finish : Room → Exec Service Moderation
        finish left =
            conclude env req removed (record left { muted = discard left.muted req.target })

  pub remove_target-Inv : Inv users (remove_target env peers req room s).1
  unfolding remove_target
  remove_target-Inv =
      rw room_left
        (by_member (get room.members req.target) refl (session_of (get room.members req.target)))
    where
      by_member :
          (o : Option Member)
          → get room.members req.target ≡ o
          → (removed : Option String)
          → Inv users
              ((evict env peers o (blocking room bs) >>= λ left.
                  conclude env req removed (record left { muted = discard left.muted req.target }))
                (save (blocking room bs) s)).1
      by_member none absent removed = unfold evict in absent-Inv removed absent
      by_member (some m) member removed = present-Inv m member removed
