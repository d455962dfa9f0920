-- ===== src/Transport/Bootstrap/Results.antt =====
-- The result of `bootstrap`: what it rests on.
use call_backend.Prelude.{
  String, true, ◌≡◌, ◌≢◌, refl, ◌∙◌, ap, Option, none, some, string_eq, nat_eq, arith, Error,
  Result, ok, err, is_none, if_cases, ◌⊎◌,
}
use call_backend.Dict.{get}
use call_backend.Value.{Value}
use call_backend.Auth.Groups.FailClosed
use call_backend.Auth.Service.{World, AuthService, access_of, require_session}
use call_backend.Auth.Service.Passing.{require_session_sound}
use call_backend.Reticulum.Sessions.{Session}
use call_backend.Transport.Service.{TransportService}
use call_backend.Transport.Bootstrap.{
  turn_away, for_access, for_caller, for_request, bootstrap, answer_code, code_in, deny,
  denial_code, refusal,
}
use call_backend.Transport.Bootstrap.Issuing.{reachable, refreshed_endpoints, serve}
use call_backend.Transport.Bootstrap.Requests.{
  Outer, RpcContext, Request, Caller, Granted, Answer, granted, check_request, check_session,
}
use call_backend.Transport.Bootstrap.Asking.{Asks, check_request-Asks}
use call_backend.Transport.Bootstrap.Callers.{Qualified, check_session-Qualified}
use call_backend.Transport.Bootstrap.Granting.{Issued, for_reach-Issued}

transport-require_session :
    (w : World) (s : Session) (a : AuthService)
    → (require_session w s a).1.server.transport ≡ a.server.transport
unfolding require_session
transport-require_session w s a = ground arith

tokens-refreshed_endpoints :
    (r : Option (Option (String × String))) (t : TransportService)
    → ((refreshed_endpoints r t).tokens ≡ t.tokens)
      × ((refreshed_endpoints r t).attached ≡ t.attached)
unfolding refreshed_endpoints
tokens-refreshed_endpoints none t = (refl, refl)
tokens-refreshed_endpoints (some none) t = (refl, refl)
tokens-refreshed_endpoints (some (some (e, m))) t = (refl, refl)

-- What a granted bootstrap has passed, and its token.
pub record Grounds (o : Outer) (ctx : RpcContext) (payload : Value) (a b : AuthService)
    (g : Granted) : Type 0 where
  pub request : Request
  pub read : check_request payload ≡ ok request
  pub asks : Asks payload request
  pub caller : Caller
  pub checked : check_session o.world ctx a.server ≡ ok caller
  pub qualified : Qualified o.world ctx a.server caller
  pub access : (require_session o.world caller.session a).0 ≡ ok tt
  pub let_in :
      (o.world.config.access_mode ≡ "public")
      ⊎ FailClosed.Grounds o.world.config caller.user
          (access_of caller.session)
          o.world.now
          (o.world.results caller.user)
          a.cache
  pub free : get b.server.transport.attached caller.session.session_id ≡ none
  pub before : TransportService
  pub same_tokens : before.tokens ≡ a.server.transport.tokens
  pub issued : Issued o caller request before b.server.transport g

none_of : (o : Option String) → is_none o ≡ true → o ≡ none
none_of none h = refl
none_of (some x) h = absurd (ground arith)

never_granted :
    (code : String) (r : Result (Unit {0})) (g : Granted) → refusal code r ≢ ok (granted g)
never_granted code (ok _) g h = absurd (ground arith)
never_granted code (err e) g h = absurd (ground arith)

never_denied :
    (o : Outer) (session : String) (e : Error) (code : Option String) (a : AuthService)
    (g : Granted)
    → (deny o session e code a).0 ≢ ok (granted g)
unfolding deny turn_away
never_denied o session e none a g h = absurd (ground arith)
never_denied o session e (some code) a g h = never_granted code _ g h

never_coded : (e : Error) (code : Option String) (g : Granted) → answer_code e code ≢ ok (granted g)
never_coded e none g h = absurd (ground arith)
never_coded e (some code) g h = absurd (ground arith)

for_access-Grounds :
    (o : Outer) (ctx : RpcContext) (payload : Value) (r : Request) (c : Caller) (a m : AuthService)
    (access : Result (Unit {0})) (g : Granted)
    → check_request payload ≡ ok r
    → check_session o.world ctx a.server ≡ ok c
    → (require_session o.world c.session a).0 ≡ access
    → m.server.transport ≡ a.server.transport
    → (for_access o c r access m).0 ≡ ok (granted g)
    → Grounds o ctx payload a (for_access o c r access m).1 g
unfolding for_access serve
for_access-Grounds o ctx payload r c a m (err e) g read checked access same h =
    absurd (never_denied o c.session.session_id e (denial_code e) m g h)
for_access-Grounds o ctx payload r c a m (ok _) g read checked access same granting =
    let t = refreshed_endpoints o.refresh m.server.transport in
    let (same_tokens, same_owners) = tokens-refreshed_endpoints o.refresh m.server.transport in
    if_cases {A = Result Answer × AuthService}
      (λ p. p.0 ≡ ok (granted g) → Grounds o ctx payload a p.1 g)
      (is_none (get m.server.transport.attached c.session.session_id))
      (λ free h.
        let issued = for_reach-Issued o c r (reachable o r t) t g h in
        record {
          request = r;
          read = read;
          asks = check_request-Asks payload r read;
          caller = c;
          checked = checked;
          qualified = check_session-Qualified o.world ctx a.server c checked;
          access = access;
          let_in =
              require_session_sound o.world c.session a c.user
                (check_session-Qualified o.world ctx a.server c checked).account access;
          free =
              ap (λ d. get d c.session.session_id) (issued.same_owners ∙ same_owners)
              ∙ none_of _ free;
          before = t;
          same_tokens = same_tokens ∙ ap (λ u. u.tokens) same;
          issued = issued;
        })
      (λ _ h. absurd (ground arith)) granting

for_caller-Grounds :
    (o : Outer) (ctx : RpcContext) (payload : Value) (r : Request) (caller : Result Caller)
    (a : AuthService) (g : Granted)
    → check_request payload ≡ ok r
    → check_session o.world ctx a.server ≡ caller
    → (for_caller o r caller a).0 ≡ ok (granted g)
    → Grounds o ctx payload a (for_caller o r caller a).1 g
unfolding for_caller
for_caller-Grounds o ctx payload r (err e) a g read checked h =
    absurd (never_coded e (code_in e) g h)
for_caller-Grounds o ctx payload r (ok c) a g read checked h =
    for_access-Grounds o ctx payload r c a (require_session o.world c.session a).1
      (require_session o.world c.session a).0 g read checked refl
      (transport-require_session o.world c.session a) h

-- A token is granted only for a request of exactly the four fields, of this version and
-- transport, for one of the three purposes and with a nonce of 32 to 128 letters, digits,
-- underscores and hyphens; to the session of an open connection's logical connection that is
-- established, of an account, not expired, carries a Q-App in normal form, passes the access
-- check and has no private transport; and the token was issued for it. A token for realtime media
-- is then with the media relay only: the authority no longer has it, and its file names the room
-- that the session is in.
pub bootstrap_sound :
    (o : Outer) (ctx : RpcContext) (payload : Value) (a : AuthService) (g : Granted)
    → (bootstrap o ctx payload a).0 ≡ ok (granted g)
    → Grounds o ctx payload a (bootstrap o ctx payload a).1 g
unfolding bootstrap for_request
bootstrap_sound o ctx payload a g = by_request (check_request payload) refl
  where
    by_request :
        (r : Result Request)
        → check_request payload ≡ r
        → (for_request o ctx r a).0 ≡ ok (granted g)
        → Grounds o ctx payload a (for_request o ctx r a).1 g
    by_request (err e) read h = absurd (never_coded e (code_in e) g h)
    by_request (ok r) read h =
        for_caller-Grounds o ctx payload r (check_session o.world ctx a.server) a g read refl h
