-- ===== src/Auth/Service.antt =====
-- `QAppAuthenticationService` of src/qapp_backend/auth/service.py on the sessions of the server:
-- authentication by a signed proof, the check of membership, and revocation.
pub mod Entering
pub mod Leaving
pub mod Passing
mod Tests
use call_backend.Prelude.{
  ℕ, String, Bool, true, false, not, ◌&&◌, ◌||◌, Option, none, some, List, [], ◌∷◌, ◌++◌,
  if◌then◌else◌, ◌==◌, string_eq, all, contains, filter, Error, Result, ok, err, value_error,
  access_denied, access_unavailable, runtime_error,
}
use call_backend.Prelude.Raising.{◌>>=◌, ◌>>◌, require, or_raise}
use call_backend.Dict.{Dict, get, put, values}
use call_backend.Value.{
  Value, Fields, dict, text, num, array, nil, cons, get_field, as_text, field_names, exact_fields,
}
use call_backend.Auth.Groups.{Access, AccessConfig, Cache, authorize, is_recent, refreshed}
use call_backend.Auth.Identity.{Identity, Outside, Verifier, verify}
use call_backend.Reticulum.Sessions.{Session, SessionManager}
use call_backend.Reticulum.Sessions.Manager.{keep, promote, persist}
use call_backend.Reticulum.Server.{Server, revoke_session}

-- `sent` is how `session.send` ends: `RuntimeError` where the session has no open connection, another
-- error where the connection refuses. `results` are the group checks of an address, if made.
pub record World : Type 0 where
  pub outside : Outside
  pub config : AccessConfig
  pub now : ℕ
  pub results : String → List (Result Bool)
  pub sent : Result (Unit {0})
  pub digest : String → String

pub record AuthService : Type 0 where
  pub server : Server
  pub verifier : Verifier
  pub cache : Cache

abbrev as_number : Option Value → Option ℕ
as_number (some (num n)) = some n
as_number _ = none

abbrev pub access_of : Session → Access
access_of s = record {
  checked_at = as_number (get s.metadata "group_access_checked_at");
  policy_revision = as_text (get s.metadata "group_access_policy_revision");
}

unfoldable pub with_access : ℕ → String → Session → Session
with_access checked_at revision s = record s {
  metadata =
      put (put s.metadata "group_access_checked_at" (num checked_at)) "group_access_policy_revision"
        (text revision);
}

abbrev pub user_of : Option String → String
user_of none = ""
user_of (some user) = user

-- The end of `require_authorized`, with the answer of the policy.
unfoldable pub note_check :
    AccessConfig → ℕ → Session → Result ℕ → SessionManager → Result (Unit {0}) × SessionManager
unfolding with_access
note_check config now s (ok checked_at) m =
    (ok tt, persist s.session_id (keep (with_access checked_at config.revision s) m))
note_check config now s (err e) m = ((refreshed config (access_of s) now (err e)).0, m)

-- `require_authorized`
unfoldable pub require_session : World → Session → AuthService → Result (Unit {0}) × AuthService
unfolding note_check
require_session w s a =
    if w.config.access_mode == "public"
    then (ok tt, a)
    else if is_recent w.config (access_of s) w.now
    then (ok tt, a)
    else let user = user_of s.authenticated_user in
      let (answer, cache) = authorize w.config.access_mode user w.now (w.results user) a.cache in
      let (r, manager) = note_check w.config w.now s answer a.server.manager in
      (r, record a { cache = cache; server = record a.server { manager = manager } })

pub data Reply : Type 0 where
  authenticated : String → Identity → Reply
  authentication_error : String → Reply
  no_reply : Reply

-- `_send_error`: only a `RuntimeError` of the send is caught.
unfoldable pub send_error : Result (Unit {0}) → String → Result Reply
send_error (ok _) code = ok (authentication_error code)
send_error (err runtime_error) code = ok no_reply
send_error (err e) code = err e

-- The `except` clauses of `authenticate`.
unfoldable pub answer_error : Result (Unit {0}) → Error → Result Reply
unfolding send_error
answer_error sent access_denied = send_error sent "BACKEND_ACCESS_DENIED"
answer_error sent access_unavailable = send_error sent "BACKEND_ACCESS_UNAVAILABLE"
answer_error sent (value_error reason) = send_error sent "IDENTITY_PROOF_INVALID"
answer_error sent e = err e

-- A send of the answer stands in the same `try`, and one of the error would end as it does.
unfoldable pub answer_success : Result (Unit {0}) → Reply → Result Reply
unfolding answer_error
answer_success (ok _) reply = ok reply
answer_success (err e) reply = answer_error (err e) e

-- The proof in the message.
unfoldable pub proof_of : Value → Result Value
proof_of (dict fs) = do
  require (all (contains ("type" ∷ "requestId" ∷ "payload" ∷ [])) (field_names fs))
      "authentication message is invalid"
  payload ← or_raise (get_field fs "payload") "authentication payload is invalid"
  inner ← or_raise (exact_fields ("proof" ∷ []) payload) "authentication payload is invalid"
  or_raise (get_field inner "proof") "authentication payload is invalid"
proof_of _ = err (value_error "authentication message is invalid")

unfoldable pub identified : Identity → ℕ → String → Session → Session
unfolding with_access
identified qapp checked_at revision s = with_access checked_at revision (record s {
  metadata =
      put s.metadata "qapp_identity" (array (cons (text qapp.name) (cons (text qapp.service) nil)));
})

-- After the access check: the metadata, `promote` and `persist`. A session that is not in the table
-- is not promoted.
unfoldable pub enter_found :
    World → String → Identity → ℕ → Option Session → AuthService → Result Reply × AuthService
unfolding answer_error answer_success identified
enter_found w address qapp checked_at none a =
    (answer_error w.sent (value_error "session is no longer active"), a)
enter_found w address qapp checked_at (some s) a =
    let named = keep (identified qapp checked_at w.config.revision s) a.server.manager in
    let entered = persist s.session_id (promote s.session_id address w.now named).1 in
    (
      answer_success w.sent (authenticated address qapp),
      record a { server = record a.server { manager = entered } },
    )

unfoldable pub enter_allowed :
    World → String → String → Identity → Result ℕ → AuthService → Result Reply × AuthService
unfolding enter_found answer_error
enter_allowed w session address qapp (err e) a = (answer_error w.sent e, a)
enter_allowed w session address qapp (ok checked_at) a =
    enter_found w address qapp checked_at (get a.server.manager.sessions session) a

unfoldable pub enter_proved :
    World → String → Result (String × String × Identity) → AuthService → Result Reply × AuthService
unfolding enter_allowed answer_error
enter_proved w session (err e) a = (answer_error w.sent e, a)
enter_proved w session (ok (address, public_key, qapp)) a =
    let (answer, cache) =
      authorize w.config.access_mode address w.now (w.results address) a.cache in
    enter_allowed w session address qapp answer (record a { cache = cache })

unfoldable pub prove :
    World → Result Value → Verifier → Result (String × String × Identity) × Verifier
prove w (err e) v = (err e, v)
prove w (ok proof) v = verify w.outside w.now proof v

-- `authenticate`, for the session of that id.
unfoldable pub authenticate : World → String → Value → AuthService → Result Reply × AuthService
unfolding proof_of prove enter_proved
authenticate w session message a =
    let (proved, verifier) = prove w (proof_of message) a.verifier in
    enter_proved w session proved (record a { verifier = verifier })

-- What `session_info` answers of the session of a request.
unfoldable pub session_info : Option Session → Bool × Option String
session_info none = (false, none)
session_info (some s) = (not s.provisional && has_user s.authenticated_user, s.authenticated_user)
  where
    has_user : Option String → Bool
    has_user none = false
    has_user (some user) = not (user == "")

-- except RuntimeError
abbrev pub is_runtime_error : Error → Bool
is_runtime_error runtime_error = true
is_runtime_error _ = false

unfoldable pub remove_session : World → String → AuthService → AuthService
remove_session w session a = record a { server = revoke_session w.digest w.now session a.server }

unfoldable pub after_notice :
    World → String → Result (Unit {0}) → AuthService → Result (Unit {0}) × AuthService
after_notice w session (ok _) a = (ok tt, remove_session w session a)
after_notice w session (err e) a =
    if is_runtime_error e then (ok tt, remove_session w session a) else (err e, a)

-- `revoke`: only a `RuntimeError` of the notice is caught, before the session is removed.
unfoldable pub revoke : World → String → AuthService → Result (Unit {0}) × AuthService
unfolding after_notice
revoke w session a = after_notice w session w.sent a

unfoldable pub after_check :
    World → String → Result (Unit {0}) → AuthService → Result (Unit {0}) × AuthService
unfolding revoke
after_check w session (ok _) a = (ok tt, a)
after_check w session (err access_denied) a = revoke w session a
after_check w session (err access_unavailable) a = revoke w session a
after_check w session (err e) a = (err e, a)

unfoldable pub revalidate_found :
    World → Option Session → AuthService → Result (Unit {0}) × AuthService
unfolding require_session after_check
revalidate_found w none a = (ok tt, a)
revalidate_found w (some s) a =
    let (r, checked) = require_session w s a in after_check w s.session_id r checked

-- `_revalidate`
unfoldable pub revalidate : World → String → AuthService → Result (Unit {0}) × AuthService
unfolding revalidate_found
revalidate w session a = revalidate_found w (get a.server.manager.sessions session) a

-- The sessions that `maintain` hands to its workers, those that are pending left out.
unfoldable pub is_due : World → List String → Session → Bool
unfolding session_info
is_due w pending s =
    (session_info (some s)).0
    && not (is_recent w.config (access_of s) w.now)
    && not (contains pending s.session_id)

unfoldable pub due_sessions : World → List String → AuthService → List Session
unfolding is_due
due_sessions w pending a =
    if w.config.access_mode == "public"
    then []
    else filter (is_due w pending) (values a.server.manager.sessions)
