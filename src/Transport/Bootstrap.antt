-- ===== src/Transport/Bootstrap.antt =====
-- `PrivateTransportService.bootstrap` of src/qapp_backend/private_transport/service.py: who gets a
-- token for the private transport, and what else comes with it.
pub mod Issuing
pub mod Requests
pub mod Asking
pub mod Callers
pub mod Granting
pub mod Results
pub mod Attaching
mod Tests
use call_backend.Prelude.{
  ℕ, ◌+◌, String, Bool, true, false, not, ◌&&◌, ◌||◌, Option, none, some, List, [], ◌∷◌,
  if◌then◌else◌, ◌==◌, nat_eq, string_eq, leb, contains, is_some, is_none, Error, Result, ok, err,
  value_error, os_error, rate_limited, access_denied, access_unavailable,
}
use call_backend.Prelude.Raising.{◌>>=◌, ◌>>◌, require, or_raise}
use call_backend.Dict.{Dict, get, put}
use call_backend.Value.{Value, text, get_field, as_text, exact_fields, equals_number}
use call_backend.Call.Base64.{is_word}
use call_backend.Call.Requests.{matches}
use call_backend.Auth.Identity.{Identity, normalize_qapp_identity}
use call_backend.Auth.Service.{World, AuthService, require_session, revoke}
use call_backend.Reticulum.Sessions.{Session}
use call_backend.Reticulum.Server.{Link, Server, session_of, is_text, logical_id_of}
use call_backend.Transport.Tokens.{AttachGrant, Binding, issue, release}
use call_backend.Transport.Service.{TransportService, MediaGrant, pair_of, next_write, later_writes}
use call_backend.Transport.Service.Invalidating.{files_of}
use call_backend.Transport.Bootstrap.Requests.{
  RpcContext, Outer, Request, Granted, Answer, refused, granted, owner_parts, is_purpose,
  check_request, carries, is_account, same_normal, normal_identity, Caller, check_session,
}
use call_backend.Transport.Bootstrap.Issuing.{
  refreshed_endpoints, is_realtime, media_grant, write_media_grant, room_of, binding_of, answer_of,
  with_transport, handed, hand_over, is_rate_limited, after_issue, issue_token, needed_room,
  for_room, reachable, for_reach, serve,
}

abbrev pub refusal : String → Result (Unit {0}) → Result Answer
refusal code (ok _) = ok (refused code)
refusal code (err e) = err e

-- A caller that the access policy turns away loses its session.
unfoldable pub turn_away : Outer → String → String → AuthService → Result Answer × AuthService
turn_away o session code a = let (r, a') = revoke o.world session a in (refusal code r, a')

-- except GroupAccessDenied, except GroupAccessUnavailable
abbrev pub denial_code : Error → Option String
denial_code access_denied = some "backend_access_denied"
denial_code access_unavailable = some "backend_access_unavailable"
denial_code _ = none

unfoldable pub deny :
    Outer → String → Error → Option String → AuthService → Result Answer × AuthService
unfolding turn_away
deny o session e none a = (err e, a)
deny o session e (some code) a = turn_away o session code a

unfoldable pub for_access :
    Outer → Caller → Request → Result (Unit {0}) → AuthService → Result Answer × AuthService
unfolding serve deny
for_access o c r (err e) a = deny o c.session.session_id e (denial_code e) a
for_access o c r (ok _) a =
    if is_none (get a.server.transport.attached c.session.session_id)
    then serve o c r a
    else (ok (refused "transport_already_attached"), a)

-- The code that a failed check returns.
abbrev pub code_in : Error → Option String
code_in (value_error code) = some code
code_in _ = none

abbrev pub answer_code : Error → Option String → Result Answer
answer_code e none = err e
answer_code e (some code) = ok (refused code)

unfoldable pub for_caller :
    Outer → Request → Result Caller → AuthService → Result Answer × AuthService
unfolding for_access
for_caller o r (err e) a = (answer_code e (code_in e), a)
for_caller o r (ok c) a =
    let (access, a') = require_session o.world c.session a in for_access o c r access a'

unfoldable pub for_request :
    Outer → RpcContext → Result Request → AuthService → Result Answer × AuthService
unfolding for_caller check_session
for_request o ctx (err e) a = (answer_code e (code_in e), a)
for_request o ctx (ok r) a = for_caller o r (check_session o.world ctx a.server) a

-- `bootstrap`
unfoldable pub bootstrap : Outer → RpcContext → Value → AuthService → Result Answer × AuthService
unfolding for_request check_request
bootstrap o ctx payload a = for_request o ctx (check_request payload) a
