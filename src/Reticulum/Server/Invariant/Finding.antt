-- ===== src/Reticulum/Server/Invariant/Finding.antt =====
-- The invariant when a message finds its session: the one that is there, or a new one.
use call_backend.Prelude.{
  ℕ, String, true, false, not, ◌≡◌, refl, sym, subst, ◌∙◌, ap, Option, none, some, List, [], ◌∷◌,
  nat_eq, string_eq, if_cases, arith, leb, Result, ok, err,
}
use call_backend.Prelude.Stateful.{continue, Post, bind-Post, Post-state, Post-of}
use call_backend.Dict.{get, get-remove}
use call_backend.Dict.Retain.{get-retain-none}
use call_backend.Value.{Value}
use call_backend.Reticulum.Sessions.{Session}
use call_backend.Reticulum.Sessions.Manager.{
  provisional_count, expire, is_expired, discard, discard_found,
}
use call_backend.Reticulum.Server.{
  Server, discard_session, session_of, expire_sessions, drop_expired,
}
use call_backend.Reticulum.Server.Events.Messages.{
  Incoming, current, admit_logical_id, open_session, create_session, claim_session, use_session,
  find_session, deliver, handle_with, handler_for, type_of, application_message,
}
use call_backend.Reticulum.Server.Invariant.{Sound}
use call_backend.Reticulum.Server.Invariant.Leaving.{
  manager-remove_indexes, discard_session-Sound, expire_sessions-Sound,
}
use call_backend.Reticulum.Server.Invariant.Messages.{
  Admitted, InTable, admit_on-Post, open_session-Post, claim_session-Post, deliver-Sound,
}
use call_backend.Reticulum.Server.Invariant.Disconnecting.{session_of-found}

-- An unused id stays unused while sessions only go.
discard_session_unused :
    (digest : String → String) (now : ℕ) (s : Session) (id : String) (v : Server)
    → get v.manager.sessions id ≡ none
    → get (discard_session digest now s v).manager.sessions id ≡ none
unfolding discard_session discard
discard_session_unused digest now s id v unused =
    subst (λ m. get (discard s.session_id m).sessions id ≡ none)
      (sym (manager-remove_indexes digest now s v)) (by_found (get v.manager.sessions s.session_id))
  where
    by_found :
        (o : Option Session) → get (discard_found o s.session_id v.manager).sessions id ≡ none
    by_found none = unused
    by_found (some x) = ground (arith, get-remove v.manager.sessions s.session_id id)

manager-drop_expired :
    (digest : String → String) (now : ℕ) (gone : List Session) (v : Server)
    → (drop_expired digest now gone v).manager ≡ v.manager
unfolding drop_expired
manager-drop_expired digest now [] v = refl
manager-drop_expired digest now (s ∷ ss) v =
    manager-drop_expired digest now ss _ ∙ manager-remove_indexes digest now s v

expire_sessions_unused :
    (digest : String → String) (now : ℕ) (id : String) (v : Server)
    → get v.manager.sessions id ≡ none
    → get (expire_sessions digest now v).manager.sessions id ≡ none
unfolding expire_sessions
expire_sessions_unused digest now id v unused =
    ap (λ m. get m.sessions id)
      (manager-drop_expired digest now (expire now v.manager).0
        (record v { manager = (expire now v.manager).1 }))
    ∙ (unfold expire in get-retain-none (λ s. not (is_expired now s)) v.manager.sessions id unused)

create_session-Post :
    (digest : String → String) (m : Incoming) (now : ℕ) (v : Server)
    → get v.manager.sessions m.fresh_id ≡ none
    → Sound [] v
    → Post InTable (Sound []) (create_session digest m now v)
unfolding create_session admit_logical_id
create_session-Post digest m now v unused sound =
    let swept = expire_sessions digest now v in
    let still = expire_sessions-Sound digest now v sound in
    if_cases {A = Result Session × Server} (Post InTable (Sound []))
      (leb swept.limits.max_unauthenticated_sessions (provisional_count swept.manager)) (λ _. still)
      λ room.
        bind-Post (Sound []) (Admitted swept) InTable (admit_logical_id m true now)
          (λ _. open_session m now) swept
          (admit_on-Post m.connection true now m.logical_id swept (get swept.links m.connection)
            refl still)
          λ _ w (next, same, limits).
            open_session-Post m now w
              (ap (λ n. get n.sessions m.fresh_id) same
                ∙ expire_sessions_unused digest now m.fresh_id v unused)
              (ground
                (arith, ap provisional_count same, ap (λ l. l.max_unauthenticated_sessions) limits))
              next

use_session-Post :
    (digest : String → String) (m : Incoming) (now : ℕ) (o : Option Session) (v : Server)
    → get v.manager.sessions m.fresh_id ≡ none
    → ((s : Session) → o ≡ some s → get v.manager.sessions s.session_id ≡ some s)
    → Sound [] v
    → Post InTable (Sound []) (use_session digest m now o v)
unfolding use_session admit_logical_id
use_session-Post digest m now none v unused here sound =
    create_session-Post digest m now v unused sound
use_session-Post digest m now (some s) v unused here sound =
    bind-Post (Sound []) (Admitted v) InTable (admit_logical_id m false now)
      (λ _. claim_session m s) v
      (admit_on-Post m.connection false now m.logical_id v (get v.links m.connection) refl sound)
      λ _ w (next, same, _).
        claim_session-Post m s w (next, ap (λ n. get n.sessions s.session_id) same ∙ here s refl)

find_session-Post :
    (digest : String → String) (m : Incoming) (now : ℕ) (v : Server)
    → get v.manager.sessions m.fresh_id ≡ none
    → Sound [] v
    → Post InTable (Sound []) (find_session digest m now v)
unfolding find_session current
find_session-Post digest m now v unused sound = by_found (session_of m.logical_id v) refl
  where
    by_found :
        (o : Option Session)
        → session_of m.logical_id v ≡ o
        → Post InTable
            (Sound [])
            (use_session digest m now (current digest now o v).0 (current digest now o v).1)
    by_found none e =
        use_session-Post digest m now none v unused (λ s never. absurd (ground arith)) sound
    by_found (some s) e =
        let (here, _) = session_of-found m.logical_id v s sound e in
        if_cases {A = Option Session × Server}
          (λ r. Post InTable (Sound []) (use_session digest m now r.0 r.1)) (leb s.expires_at now)
          (λ _.
            use_session-Post digest m now none (discard_session digest now s v)
              (discard_session_unused digest now s m.fresh_id v unused)
              (λ x never. absurd (ground arith)) (discard_session-Sound digest now s v here sound))
          λ _.
            use_session-Post digest m now (some s) v unused
              (λ x same.
                let e' : s ≡ x = ground arith in
                subst (λ y. get v.manager.sessions y.session_id ≡ some y) e' here)
              sound

pub application_message-Sound :
    (digest : String → String) (handlers : List String) (m : Incoming) (now : ℕ) (v : Server)
    → get v.manager.sessions m.fresh_id ≡ none
    → Sound [] v
    → Sound [] (application_message digest handlers m now v).1
unfolding application_message
application_message-Sound digest handlers m now v unused sound = by_payload m.payload
  where
    by_handler :
        (message : Value) (o : Option String) → Sound [] (handle_with digest m now message o v).1
    by_handler message none = sound
    by_handler message (some handler) =
        Post-state (Sound []) _ (λ _ _ q. q)
          (bind-Post (Sound []) InTable (λ _ w. Sound [] w) (find_session digest m now)
            (λ s. deliver handler message m.message_id now s) v
            (find_session-Post digest m now v unused sound)
            λ s w q. Post-of (Sound []) _ (deliver-Sound handler message m.message_id now s w q))

    by_payload :
        (r : Result Value)
        → Sound []
            (continue
              (λ message. handle_with digest m now message (handler_for handlers (type_of message)))
              r
              v).1
    by_payload (ok message) = by_handler message (handler_for handlers (type_of message))
    by_payload (err e) = sound
