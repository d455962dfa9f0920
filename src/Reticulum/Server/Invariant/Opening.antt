-- ===== src/Reticulum/Server/Invariant/Opening.antt =====
-- A message for which `_application_message` opens a session, on the link that it came over.
use call_backend.Prelude.{
  ℕ, ◌≤◌, String, Bool, true, false, ◌≡◌, ◌≢◌, refl, sym, subst, ◌∙◌, ap, Option, none, some, List,
  [], ◌∷◌, if◌then◌else◌, ◌==◌, string_eq, nat_eq, ==_iff, if_cases, arith, leb, ◌⊎◌, inl, inr,
  Result, ok, err,
}
use call_backend.Prelude.Windows.{in_last_minute}
use call_backend.Prelude.Stateful.{Post, bind-Post}
use call_backend.Dict.{Dict, get, put, get-put}
use call_backend.Reticulum.Sessions.{Session}
use call_backend.Reticulum.Sessions.Manager.{expire, provisional_count}
use call_backend.Reticulum.Server.{
  Link, Limits, Server, admit, discard_id, without_id, unlink, remove_named, indexed_by,
  remove_indexes, cut_transport, discard_session, drop_expired, expire_sessions, logical_id_of,
  session_of,
}
use call_backend.Reticulum.Server.Events.Messages.{
  Incoming, current, admit_on, admit_logical_id, open_session, create_session, claim_session,
  active_elsewhere, use_session, find_session,
}
use call_backend.Reticulum.Server.Invariant.{Sound}
use call_backend.Reticulum.Server.Invariant.Rates.{LinkRun, removed, begin, LinkRun-in_last_minute}
use call_backend.Reticulum.Server.Invariant.Disconnecting.{session_of-found}

-- A link that may have lost logical connections, and opened no session.
abbrev RanOn : Limits → Link → ℕ → String → Dict String Link → Type 0
RanOn limits before now c links =
    (l : Link) × (get links c ≡ some l)
    × LinkRun limits before now l before.new_logical_session_times

abbrev Ran : Limits → Link → ℕ → String → Server → Type 0
Ran limits before now c v = (v.limits ≡ limits) × RanOn limits before now c v.links

-- What an opened session leaves: its admission on the link, with the link in the table after it.
pub record Opened (limits : Limits) (before : Link) (now : ℕ) (m : Incoming) (w : Server)
    : Type 0 where
  pub found : Link
  pub run : LinkRun limits before now found before.new_logical_session_times
  pub after : Link
  pub admission : admit limits m.logical_id true now found ≡ (ok tt, after)
  pub in_table : get w.links m.connection ≡ some after

module _ (limits : Limits) (before : Link) (now : ℕ) (c : String) where
  unlink-RanOn :
      (logical_id : String) (o : Option String) (links : Dict String Link)
      → RanOn limits before now c links
      → RanOn limits before now c (unlink logical_id o links)
  unlink-RanOn logical_id none links ran = ran
  unlink-RanOn logical_id (some d) links (l, there, run) = by_link (get links d) refl
    where
      by_key :
          (k : Link) (b : Bool)
          → get links d ≡ some k
          → (d == c) ≡ b
          → get (put links d (discard_id logical_id k)) c
            ≡ (if b then some (discard_id logical_id k) else get links c)
          → RanOn limits before now c (put links d (discard_id logical_id k))
      by_key k false e other h = (l, h ∙ there, run)
      by_key k true e same h =
          let found : some k ≡ some l = sym e ∙ ap (get links) ((==_iff d c).0 same) ∙ there in
          let same_link : k ≡ l = ground arith in
          (
            discard_id logical_id l,
            h ∙ ap (λ x. some (discard_id logical_id x)) same_link,
            removed now l before.new_logical_session_times logical_id run,
          )

      by_link :
          (o : Option Link)
          → get links d ≡ o
          → RanOn limits before now c (without_id logical_id d o links)
      by_link none e = (l, there, run)
      by_link (some k) e = by_key k (d == c) e refl (get-put links d (discard_id logical_id k) c)

  remove_indexes-Ran :
      (digest : String → String) (s : Session) (v : Server)
      → Ran limits before now c v
      → Ran limits before now c (remove_indexes s (cut_transport digest now s v))
  unfolding remove_indexes remove_named cut_transport
  remove_indexes-Ran digest s v (same, ran) = by_id (logical_id_of s)
    where
      by_id :
          (o : Option String)
          → Ran limits before now c (indexed_by o s (cut_transport digest now s v))
      by_id none = (same, ran)
      by_id (some i) = (same, unlink-RanOn i s.connection v.links ran)

  drop_expired-Ran :
      (digest : String → String) (gone : List Session) (v : Server)
      → Ran limits before now c v
      → Ran limits before now c (drop_expired digest now gone v)
  unfolding drop_expired
  drop_expired-Ran digest [] v ran = ran
  drop_expired-Ran digest (s ∷ ss) v ran =
      drop_expired-Ran digest ss (remove_indexes s (cut_transport digest now s v))
        (remove_indexes-Ran digest s v ran)

  expire_sessions-Ran :
      (digest : String → String) (v : Server)
      → Ran limits before now c v
      → Ran limits before now c (expire_sessions digest now v)
  unfolding expire_sessions
  expire_sessions-Ran digest v ran =
      drop_expired-Ran digest (expire now v.manager).0
        (record v { manager = (expire now v.manager).1 }) ran

-- Of the session that is found: it is not new, or it was opened by an admission.
abbrev NewIsOpened : Limits → Link → ℕ → Incoming → Session → Server → Type 0
NewIsOpened limits before now m s w = (s.session_id ≢ m.fresh_id) ⊎ Opened limits before now m w

admitted_on :
    (limits : Limits) (before : Link) (now : ℕ) (m : Incoming) (v : Server)
    → Ran limits before now m.connection v
    → Post (λ _ w. Opened limits before now m w) (λ _. Unit {0}) (admit_logical_id m true now v)
unfolding admit_logical_id
admitted_on limits before now m v (same, (l, there, run)) =
    subst
      (λ o.
        Post (λ _ w. Opened limits before now m w) (λ _. Unit {0})
          (admit_on m.connection true now m.logical_id o v))
      (sym there)
      (let (r, l') = admit v.limits m.logical_id true now l in
        by_result r l' (ap (λ s. admit s m.logical_id true now l) (sym same)))
  where
    by_result :
        (r : Result (Unit {0})) (l' : Link)
        → admit limits m.logical_id true now l ≡ (r, l')
        → Post
            (λ _ w. Opened limits before now m w)
            (λ _. Unit {0})
            (r, record v { links = put v.links m.connection l' })
    by_result (err e) l' h = tt
    by_result (ok a) l' h = record {
      found = l;
      run = run;
      after = l';
      admission = h;
      in_table =
          ground
            (arith, get-put v.links m.connection l' m.connection, ==_iff m.connection m.connection);
    }

create_session_opens :
    (digest : String → String) (limits : Limits) (before : Link) (now : ℕ) (m : Incoming)
    (v : Server)
    → Ran limits before now m.connection v
    → Post (NewIsOpened limits before now m) (λ _. Unit {0}) (create_session digest m now v)
unfolding create_session open_session
create_session_opens digest limits before now m v ran =
    let swept = expire_sessions digest now v in
    if_cases {A = Result Session × Server} (Post (NewIsOpened limits before now m) (λ _. Unit {0}))
      (leb swept.limits.max_unauthenticated_sessions (provisional_count swept.manager)) (λ _. tt)
      λ _.
        bind-Post (λ _. Unit {0}) (λ _ w. Opened limits before now m w)
          (NewIsOpened limits before now m) (admit_logical_id m true now) (λ _. open_session m now)
          swept
          (admitted_on limits before now m swept
            (expire_sessions-Ran limits before now m.connection digest v ran))
          λ _ w o. inr (record {
            found = o.found;
            run = o.run;
            after = o.after;
            admission = o.admission;
            in_table = o.in_table;
          })

claimed_not_new :
    (limits : Limits) (before : Link) (now : ℕ) (m : Incoming) (s : Session) (v : Server)
    → s.session_id ≢ m.fresh_id
    → Post (NewIsOpened limits before now m) (λ _. Unit {0}) (claim_session m s v)
unfolding claim_session
claimed_not_new limits before now m s v old =
    if_cases {A = Result Session × Server} (Post (NewIsOpened limits before now m) (λ _. Unit {0}))
      (active_elsewhere v s.connection m.connection) (λ _. tt) λ _. inl old

nothing_said : (r : Result (Unit {0}) × Server) → Post (λ _ _. Unit {0}) (λ _. Unit {0}) r
nothing_said (ok a, w) = tt
nothing_said (err e, w) = tt

found_or_opened :
    (digest : String → String) (m : Incoming) (now : ℕ) (before : Link) (v : Server)
    → Sound [] v
    → get v.manager.sessions m.fresh_id ≡ none
    → get v.links m.connection ≡ some before
    → Post (NewIsOpened v.limits before now m) (λ _. Unit {0}) (find_session digest m now v)
unfolding find_session current use_session discard_session
found_or_opened digest m now before v sound unused there = by_found (session_of m.logical_id v) refl
  where
    Good : Result Session × Server → Type 0
    Good = Post (NewIsOpened v.limits before now m) (λ _. Unit {0})

    ran : Ran v.limits before now m.connection v
    ran = (refl, (before, there, begin now))

    by_found :
        (o : Option Session)
        → session_of m.logical_id v ≡ o
        → Good (use_session digest m now (current digest now o v).0 (current digest now o v).1)
    by_found none e = create_session_opens digest v.limits before now m v ran
    by_found (some s) e =
        let (here, _) = session_of-found m.logical_id v s sound e in
        if_cases {A = Option Session × Server} (λ r. Good (use_session digest m now r.0 r.1))
          (leb s.expires_at now)
          (λ _.
            create_session_opens digest v.limits before now m (discard_session digest now s v)
              (remove_indexes-Ran v.limits before now m.connection digest s v ran))
          λ _.
            bind-Post (λ _. Unit {0}) (λ _ _. Unit {0}) (NewIsOpened v.limits before now m)
              (admit_logical_id m false now) (λ _. claim_session m s) v
              (nothing_said (admit_logical_id m false now v))
              λ _ w _.
                claimed_not_new v.limits before now m s w
                  (λ same. absurd (ground (arith, here, unused, ap (get v.manager.sessions) same)))

-- A new session that a message finds was admitted on the link of the message.
find_session-Opened :
    (digest : String → String) (m : Incoming) (now : ℕ) (before : Link) (v w : Server) (s : Session)
    → Sound [] v
    → get v.manager.sessions m.fresh_id ≡ none
    → get v.links m.connection ≡ some before
    → find_session digest m now v ≡ (ok s, w)
    → s.session_id ≡ m.fresh_id
    → Opened v.limits before now m w
find_session-Opened digest m now before v w s sound unused there e new =
    elim (subst (Post (NewIsOpened v.limits before now m) (λ _. Unit {0})) e
      (found_or_opened digest m now before v sound unused there)) [
        | inl old ↦ absurd (old new)
        | inr opened ↦ opened
      ]

-- The rate at which the links of a server open sessions.
pub record Metered (digest : String → String) (v : Server) : Type 0 where
  -- Whatever follows on a link.
  pub rate :
      (c : String) (l after : Link) (now : ℕ) (times : List ℕ)
      → get v.links c ≡ some l
      → LinkRun v.limits l now after times
      → in_last_minute now times ≤ v.limits.max_new_sessions_per_link_per_minute
  -- A message that opens a session does so by an admission on its link.
  pub opening :
      (m : Incoming) (now : ℕ) (l : Link) (s : Session) (w : Server)
      → get v.manager.sessions m.fresh_id ≡ none
      → get v.links m.connection ≡ some l
      → find_session digest m now v ≡ (ok s, w)
      → s.session_id ≡ m.fresh_id
      → Opened v.limits l now m w

pub Sound-Metered : (digest : String → String) (v : Server) → Sound [] v → Metered digest v
Sound-Metered digest v sound = record {
  rate = λ c l after now times h run.
      LinkRun-in_last_minute v.limits l (sound.fits c l h) now after times run;
  opening =
      λ m now l s w unused h e new. find_session-Opened digest m now l v w s sound unused h e new;
}
