-- ===== src/Auth/Service/Leaving.antt =====
-- Revocation of a session whose account is no longer let in.
use call_backend.Prelude.{
  ℕ, String, Bool, true, false, ◌≡◌, refl, sym, subst, ◌∙◌, ap, Option, none, some, string_eq,
  eq_refl, arith, Error, Result, ok, err, ◌⊎◌, inl, inr, Bool-cases,
}
use call_backend.Dict.{get, get-remove}
use call_backend.Auth.Service.{
  World, AuthService, is_runtime_error, remove_session, after_notice, revoke,
}
use call_backend.Reticulum.Sessions.{Session}
use call_backend.Reticulum.Sessions.Manager.{discard, discard_found}
use call_backend.Reticulum.Server.{Server, revoke_session, revoke_found, discard_session}
use call_backend.Reticulum.Server.Invariant.{Keyed, get-Keyed}
use call_backend.Reticulum.Server.Invariant.Leaving.{manager-remove_indexes}

discard_session_gone :
    (digest : String → String) (now : ℕ) (s : Session) (v : Server)
    → get v.manager.sessions s.session_id ≡ some s
    → get (discard_session digest now s v).manager.sessions s.session_id ≡ none
unfolding discard_session discard discard_found
discard_session_gone digest now s v here =
    subst (λ m. get (discard s.session_id m).sessions s.session_id ≡ none)
      (sym (manager-remove_indexes digest now s v))
      (rw here (
        ground
          (arith, get-remove v.manager.sessions s.session_id s.session_id, eq_refl s.session_id)))

revoke_session_gone :
    (digest : String → String) (now : ℕ) (session : String) (v : Server)
    → Keyed v.manager.sessions
    → get (revoke_session digest now session v).manager.sessions session ≡ none
unfolding revoke_session
revoke_session_gone digest now session v keyed = by_found (get v.manager.sessions session) refl
  where
    by_found :
        (o : Option Session)
        → get v.manager.sessions session ≡ o
        → get (revoke_found digest now o v).manager.sessions session ≡ none
    by_found none e = e
    by_found (some s) e =
        let named = get-Keyed v.manager.sessions session s keyed e in
        subst (λ k. get (revoke_found digest now (some s) v).manager.sessions k ≡ none) named
          (discard_session_gone digest now s _ (ap (get v.manager.sessions) named ∙ e))

-- The outcome of a notice that `revoke` goes on after.
abbrev pub is_caught : Result (Unit {0}) → Bool
is_caught (ok _) = true
is_caught (err e) = is_runtime_error e

-- A revocation either removes the session, where its notice was sent or met a `RuntimeError`, such
-- as that of a session without a connection; or the send raised anything else, such as the
-- `BackpressureError` of a full queue: then this error comes back and nothing was removed.
pub revoke_cases :
    (w : World) (session : String) (a : AuthService)
    → Keyed a.server.manager.sessions
    → ((is_caught w.sent ≡ true)
        × (get (revoke w session a).1.server.manager.sessions session ≡ none))
      ⊎ ((e : Error) × (w.sent ≡ err e)
          × (is_runtime_error e ≡ false)
          × (revoke w session a ≡ (err e, a)))
unfolding revoke after_notice remove_session
revoke_cases w session a keyed = by_outcome w.sent
  where
    gone : get (revoke_session w.digest w.now session a.server).manager.sessions session ≡ none
    gone = revoke_session_gone w.digest w.now session a.server keyed

    by_outcome :
        (r : Result (Unit {0}))
        → ((is_caught r ≡ true)
            × (get (after_notice w session r a).1.server.manager.sessions session ≡ none))
          ⊎ ((e : Error) × (r ≡ err e)
              × (is_runtime_error e ≡ false)
              × (after_notice w session r a ≡ (err e, a)))
    by_outcome (ok _) = inl (refl, gone)
    by_outcome (err x) = elim (Bool-cases (is_runtime_error x)) [
      | inl caught ↦ inl (caught, rw caught gone)
      | inr other ↦ inr (x, refl, other, rw other refl)
    ]
