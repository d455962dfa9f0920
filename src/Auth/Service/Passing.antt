-- ===== src/Auth/Service/Passing.antt =====
-- Why `require_authorized` lets a session of the server pass.
use call_backend.Prelude.{
  ℕ, String, ◌≡◌, refl, sym, ◌∙◌, ap, some, ◌⊎◌, inl, inr, arith, string_eq, ==_iff, ◌==◌,
  Bool-cases, Result, ok, err,
}
use call_backend.Auth.Groups.{AccessConfig, is_recent, refreshed, require_authorized}
use call_backend.Auth.Groups.FailClosed.{Grounds, require_authorized_sound}
use call_backend.Reticulum.Sessions.{Session, SessionManager}
use call_backend.Auth.Service.{World, AuthService, access_of, user_of, note_check, require_session}

note_check-refreshed :
    (config : AccessConfig) (now : ℕ) (s : Session) (answer : Result ℕ) (m : SessionManager)
    → (note_check config now s answer m).0 ≡ (refreshed config (access_of s) now answer).0
unfolding note_check refreshed
note_check-refreshed config now s (ok t) m = refl
note_check-refreshed config now s (err e) m = refl

-- `require_authorized` on the sessions of the server answers as on the metadata alone.
require_session-answer :
    (w : World) (s : Session) (a : AuthService)
    → (require_session w s a).0
      ≡ (require_authorized w.config
          (user_of s.authenticated_user)
          (access_of s)
          w.now
          (w.results (user_of s.authenticated_user))
          a.cache).0.0
unfolding require_session require_authorized
require_session-answer w s a = elim (Bool-cases (w.config.access_mode == "public")) [
  | inl open_to_all ↦ rw open_to_all refl
  | inr closed ↦ elim (Bool-cases (is_recent w.config (access_of s) w.now)) [
    | inl lately ↦ rw (closed, lately) refl
    | inr not_lately ↦
        rw (closed, not_lately) (note_check-refreshed w.config w.now s _ a.server.manager)
  ]
]

-- A session passes at a public backend, or on the grounds of the access policy.
pub require_session_sound :
    (w : World) (s : Session) (a : AuthService) (user : String)
    → s.authenticated_user ≡ some user
    → (require_session w s a).0 ≡ ok tt
    → (w.config.access_mode ≡ "public")
      ⊎ Grounds w.config user (access_of s) w.now (w.results user) a.cache
require_session_sound w s a user account h = elim (Bool-cases (w.config.access_mode == "public")) [
  | inl open_to_all ↦ inl ((==_iff w.config.access_mode "public").0 open_to_all)
  | inr closed ↦
      let same : user_of s.authenticated_user ≡ user = ap user_of account in
      inr (
        require_authorized_sound w.config user (access_of s) w.now (w.results user) a.cache
          (λ e. ground (arith, closed, (==_iff w.config.access_mode "public").1 e))
          (ap (λ u. (require_authorized w.config u (access_of s) w.now (w.results u) a.cache).0.0)
              (sym same)
            ∙ sym (require_session-answer w s a)
            ∙ h))
]
