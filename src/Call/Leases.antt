-- ===== src/Call/Leases.antt =====
-- The lease of a screen share: who gets it, and what ends it.
use call_backend.Prelude.{
  ◌≤◌, ◌↔◌, ◌+◌, ◌*◌, ◌<◌, String, ◌≡◌, ◌≢◌, refl, sym, ap, ◌∙◌, some, Bool, true, false, not, ◌&&◌,
  arith, ◌==◌, string_eq, nat_eq, ==_iff, leb, ok, Bool-cases, inl, inr, ◌⊎◌,
}
use call_backend.Call.Env.{Peers, Clock}
use call_backend.Call.Commands.{ScreenRequest, ScreenCommand, start, stop, renew}
use call_backend.Call.State.{Room, Service, screen_lease_seconds}
use call_backend.Call.Rooms.{clear_screen}
use call_backend.Call.Screen.{
  owns, is_free, clear_stale, accepts, take_screen, extend_lease, run_command, after_command,
  expire_screen_found,
}

-- Whether another participant, or another share of the same one, holds the screen on a lease that
-- has not run out.
abbrev pub busy : Clock → String → String → Room → Bool
busy clock participant share_id room =
    not (room.screen_id == "")
    && not (leb room.screen_expires_at clock.mono_ms)
    && not (room.screen_owner == participant && room.screen_id == share_id)

-- The room after a start on a screen that is free for it.
taken :
    (clock : Clock) (participant share_id : String) (room : Room)
    → accepts start participant share_id room ≡ true
    → ((run_command start clock participant share_id room).screen_owner ≡ participant)
      × ((run_command start clock participant share_id room).screen_id ≡ share_id)
      × ((run_command start clock participant share_id room).screen_expires_at
          ≡ clock.later_mono_ms + screen_lease_seconds * 1000)
unfolding run_command take_screen extend_lease owns
taken clock participant share_id room a = (
  ground (arith, ==_iff room.screen_owner participant, ==_iff room.screen_id share_id),
  ground (arith, ==_iff room.screen_owner participant, ==_iff room.screen_id share_id),
  ground arith,
)

stale_or_not :
    (clock : Clock) (participant share_id : String) (room : Room)
    → accepts start participant share_id (clear_stale clock room)
      ≡ not (busy clock participant share_id room)
unfolding accepts clear_stale owns is_free clear_screen
stale_or_not clock participant share_id room =
    by_tests (room.screen_id == "") refl (leb room.screen_expires_at clock.mono_ms) refl
  where
    by_tests :
        (b : Bool)
        → (room.screen_id == "") ≡ b
        → (c : Bool) → leb room.screen_expires_at clock.mono_ms ≡ c
        → accepts start participant share_id (clear_stale clock room)
          ≡ not (busy clock participant share_id room)
    by_tests true e c f = rw e (ground (arith, e))
    by_tests false e true f = rw (e, f)
    by_tests false e false f = elim (Bool-cases (room.screen_owner == participant)) [
      | inl o ↦ elim (Bool-cases (room.screen_id == share_id)) [
        | inl i ↦ rw (e, f, o, i) (ground (arith, e, f, o, i))
        | inr i ↦ rw (e, f, o, i) (ground (arith, e, f, o, i))
      ]
      | inr o ↦ rw (e, f, o) (ground (arith, e, f, o))
    ]

-- A start is accepted exactly if no other share, of another participant or of the same one, has the
-- screen on a live lease. Then the participant holds it under the share id, on a lease of 45 seconds
-- from the later reading of the clock; otherwise the screen stays as it is, once a lease that ran
-- out is cleared.
pub start_exclusive :
    (clock : Clock) (participant share_id : String) (room : Room)
    → let next = run_command start clock participant share_id (clear_stale clock room) in
      (accepts start participant share_id (clear_stale clock room)
        ≡ not (busy clock participant share_id room))
      × (busy clock participant share_id room ≡ false
          → (next.screen_owner ≡ participant)
            × (next.screen_id ≡ share_id)
            × (next.screen_expires_at ≡ clock.later_mono_ms + screen_lease_seconds * 1000))
      × (busy clock participant share_id room ≡ true → next ≡ clear_stale clock room)
unfolding run_command
start_exclusive clock participant share_id room = (
  verdict,
  (λ free.
      unfold run_command in
      taken clock participant share_id (clear_stale clock room) (verdict ∙ ap not free)),
  λ held. rw (verdict, held),
)
  where
    verdict :
        accepts start participant share_id (clear_stale clock room)
        ≡ not (busy clock participant share_id room)
    verdict = stale_or_not clock participant share_id room

-- A timer of an earlier lease does nothing to a share that was started or renewed since: for 45
-- seconds after the later reading of the clock at which the command was accepted, `_expire_screen`
-- changes nothing and sends nothing, for whatever share it was set.
pub lease_holds :
    (peers : Peers) (clock later : Clock) (participant share_id other : String)
    (command : ScreenCommand) (room : Room) (s : Service)
    → command ≢ stop
    → accepts command participant share_id room ≡ true
    → later.mono_ms < clock.later_mono_ms + screen_lease_seconds * 1000
    → expire_screen_found peers later other
        (some (run_command command clock participant share_id room))
        s
      ≡ (ok tt, s)
unfolding expire_screen_found run_command accepts extend_lease
lease_holds peers clock later participant share_id other start room s ne a h = ground arith
lease_holds peers clock later participant share_id other stop room s ne a h = absurd (ne refl)
lease_holds peers clock later participant share_id other renew room s ne a h = ground arith

-- The participant has the screen, under that share id, on a lease that has not run out.
pub record Holder (clock : Clock) (participant share_id : String) (room : Room) : Type 0 where
  pub owner : room.screen_owner ≡ participant
  pub share : room.screen_id ≡ share_id
  pub live : clock.mono_ms < room.screen_expires_at

-- Nobody has the screen, or its lease has run out.
abbrev pub Vacant : Clock → Room → Type 0
Vacant clock room = (room.screen_id ≡ "") ⊎ (room.screen_expires_at ≤ clock.mono_ms)

owns_same :
    (participant share_id : String) (room : Room)
    → owns participant share_id room ≡ true
    → (room.screen_owner ≡ participant) × (room.screen_id ≡ share_id)
unfolding owns
owns_same participant share_id room h = (
  ground (arith, h, ==_iff room.screen_owner participant),
  ground (arith, h, ==_iff room.screen_id share_id),
)

owns_by :
    (participant share_id : String) (room : Room)
    → room.screen_owner ≡ participant
    → room.screen_id ≡ share_id
    → owns participant share_id room ≡ true
unfolding owns
owns_by participant share_id room o i =
    ground (arith, o, i, ==_iff room.screen_owner participant, ==_iff room.screen_id share_id)

taken_instead :
    (clock : Clock) (participant share_id : String) (room : Room)
    → share_id ≢ ""
    → Holder clock participant share_id room
    → ¬ Vacant clock room
taken_instead clock participant share_id room named h (inl free) = named (sym h.share ∙ free)
taken_instead clock participant share_id room named h (inr late) = omega (arith, h.live, late)

-- A command on a live share that is another's is refused, and leaves the room.
refused_all :
    (command : ScreenCommand) (clock : Clock) (participant share_id : String) (room : Room)
    → room.screen_id ≢ ""
    → owns participant share_id room ≡ false
    → (accepts command participant share_id room ≡ false)
      × (run_command command clock participant share_id room ≡ room)
unfolding accepts run_command is_free
refused_all start clock participant share_id room there other =
    let busy : (room.screen_id == "") ≡ false = ground (arith, there, ==_iff room.screen_id "") in
    (rw (busy, other) refl, rw (busy, other) refl)
refused_all stop clock participant share_id room there other =
    let busy : (room.screen_id == "") ≡ false = ground (arith, there, ==_iff room.screen_id "") in
    (rw (other, busy) refl, rw other refl)
refused_all renew clock participant share_id room there other = (other, rw other refl)

-- What `clear_stale` leaves: the room with its live share, or a room without a share.
kept_or_free :
    (clock : Clock) (room : Room)
    → ((room.screen_id ≢ "")
        × (clock.mono_ms < room.screen_expires_at)
        × (clear_stale clock room ≡ room))
      ⊎ (Vacant clock room × ((clear_stale clock room).screen_id ≡ ""))
unfolding clear_stale is_free clear_screen
kept_or_free clock room = elim (Bool-cases (room.screen_id == "")) [
  | inl free ↦
      let none_there = (==_iff room.screen_id "").0 free in inr (inl none_there, rw free none_there)
  | inr busy ↦ elim (Bool-cases (leb room.screen_expires_at clock.mono_ms)) [
    | inl late ↦ inr (inr (ground (arith, late)), rw (busy, late) refl)
    | inr live ↦ inl (
      λ e. ground (arith, busy, (==_iff room.screen_id "").1 e),
      ground (arith, live),
      rw (busy, live) refl,
    )
  ]
]

renewal :
    (clock : Clock) (participant share_id : String) (room : Room)
    → share_id ≢ ""
    → (accepts renew participant share_id (clear_stale clock room) ≡ true)
      ↔ Holder clock participant share_id room
unfolding accepts
renewal clock participant share_id room named = elim (kept_or_free clock room) [
  | inl (there, live, same) ↦ (
    λ h.
        let (owner, share) =
          owns_same participant share_id room (ap (owns participant share_id) (sym same) ∙ h) in
        record { owner = owner; share = share; live = live },
    λ h. ap (owns participant share_id) same ∙ owns_by participant share_id room h.owner h.share,
  )
  | inr (vacant, free) ↦ (
    λ h.
        let (_, share) = owns_same participant share_id (clear_stale clock room) h in
        absurd (named (sym share ∙ free)),
    λ h. absurd (taken_instead clock participant share_id room named h vacant),
  )
]

-- A command for a share id that is not empty, as every request has one. A renewal is accepted exactly
-- if the participant has the screen under that share id on a live lease. And if somebody has the
-- screen on a live lease, but not this participant under that share id, then no command of it, be it
-- a start, a stop or a renewal, is accepted, and the room is not changed at all.
pub others_cannot :
    (clock : Clock) (participant : String) (req : ScreenRequest) (room : Room)
    → req.share_id ≢ ""
    → ((accepts renew participant req.share_id (clear_stale clock room) ≡ true)
        ↔ Holder clock participant req.share_id room)
      × (Holder clock participant req.share_id room
          ⊎ Vacant clock room
          ⊎ ((accepts req.command participant req.share_id (clear_stale clock room) ≡ false)
              × (after_command clock participant req room ≡ room)))
unfolding after_command
others_cannot clock participant req room named = (
  renewal clock participant req.share_id room named,
  elim (kept_or_free clock room) [
    | inr (vacant, _) ↦ inr (inl vacant)
    | inl (there, live, same) ↦ elim (Bool-cases (owns participant req.share_id room)) [
      | inl own ↦
          let (owner, share) = owns_same participant req.share_id room own in
          inl (record { owner = owner; share = share; live = live })
      | inr other ↦
          let (refused, left) =
            refused_all req.command clock participant req.share_id room there other in
          inr (
            inr (
              ap (accepts req.command participant req.share_id) same ∙ refused,
              ap (run_command req.command clock participant req.share_id) same ∙ left,
            ))
    ]
  ],
)
