-- ===== src/Transport/Bootstrap/Attaching.antt =====
-- From a granted bootstrap to the attachment.
use call_backend.Prelude.{
  ℕ, ◌+◌, ◌<◌, String, true, false, ◌≡◌, refl, sym, subst, ◌∙◌, ap, Option, none, some, string_eq,
  nat_eq, arith, ok, same_elements, contains,
}
use call_backend.Prelude.Chains.{same_result}
use call_backend.Dict.{get}
use call_backend.Value.{
  Value, dict, field, end, text, num, exact_fields, field_names, get_field, as_text, equals_number,
}
use call_backend.Auth.Service.{AuthService}
use call_backend.Transport.Tokens.{
  AttachGrant, Authority, Binding, SessionView, Claim, issue, make_grant, consume,
}
use call_backend.Transport.Tokens.OneTime.{Serves, claim_of, issue-consume}
use call_backend.Transport.Service.{
  TransportService, attach, attach_claim, attach_session, read_metadata,
}
use call_backend.Transport.Bootstrap.{bootstrap}
use call_backend.Transport.Bootstrap.Issuing.{is_realtime, binding_of, answer_of}
use call_backend.Transport.Bootstrap.Requests.{
  Outer, RpcContext, Request, Caller, Granted, granted, check_request, check_session,
}
use call_backend.Transport.Bootstrap.Granting.{Issued}
use call_backend.Transport.Bootstrap.Results.{bootstrap_sound}

-- The metadata with which a client attaches.
abbrev pub metadata_of : Granted → String → Value
metadata_of g purpose = dict (
    field "protocolVersion" (num 1) (
      field "logicalSessionId" (text g.logical_session_id) (
        field "attachToken" (text g.attach_token) (
          field "nonce" (text g.nonce) (
            field "purpose" (text purpose)
              (field "ownerBindingHash" (text g.owner_binding_hash) end))))))

read_metadata_of :
    (g : Granted) (purpose : String)
    → read_metadata (metadata_of g purpose)
      ≡ ok (
        g.attach_token,
        record {
          logical_session_id = g.logical_session_id;
          purpose = purpose;
          owner_binding_hash = g.owner_binding_hash;
          nonce = g.nonce;
        },
      )
unfolding read_metadata exact_fields field_names same_elements contains get_field as_text
    equals_number
read_metadata_of g purpose = refl

grant_of_issue :
    (b : Binding) (digest : String) (now : ℕ) (a : Authority) (g : AttachGrant)
    → (issue b digest now a).0 ≡ ok g
    → g ≡ make_grant b digest (now + a.ttl)
unfolding issue
grant_of_issue b digest now a g h = ground arith

attach_accepts :
    (hash : String → String) (lookup : String → Option SessionView) (now : ℕ)
    (transport peer : String) (metadata : Value) (t : TransportService) (token : String)
    (claim : Claim) (grant : AttachGrant)
    → read_metadata metadata ≡ ok (token, claim)
    → (consume (hash token) claim lookup now t.tokens).0 ≡ ok grant
    → get t.attached grant.logical_session_id ≡ none
    → (attach hash lookup now transport peer metadata t).0 ≡ ok grant.logical_session_id
unfolding attach attach_claim attach_session
attach_accepts hash lookup now transport peer metadata t token claim grant read consumed free =
    rw read (rw consumed (rw free refl))

-- The caller's session is as it was: established, of the same account and Q-App, on the same logical
-- connection, with an open connection, and not expired.
pub record Stays (later : ℕ) (c : Caller) (v : SessionView) : Type 0 where
  pub established : v.provisional ≡ false
  pub live : later < v.expires_at
  pub account : v.authenticated_user ≡ some c.user
  pub qapp : v.qapp_identity ≡ some c.qapp
  pub connection : v.qapp_connection_id ≡ some c.logical_id
  pub opened : v.has_open_connection ≡ true

issued_attaches :
    (o : Outer) (c : Caller) (r : Request) (destination endpoint certificate : String)
    (a : Authority) (grant : AttachGrant) (u : TransportService)
    (lookup : String → Option SessionView) (later : ℕ) (v : SessionView) (transport peer : String)
    → (issue (binding_of o c r destination) (o.hash o.token) o.world.now a).0 ≡ ok grant
    → u.tokens ≡ (issue (binding_of o c r destination) (o.hash o.token) o.world.now a).1
    → later < o.world.now + a.ttl
    → lookup c.session.session_id ≡ some v
    → Stays later c v
    → get u.attached c.session.session_id ≡ none
    → (attach o.hash lookup later transport peer
        (metadata_of
          (answer_of o r
            (binding_of o c r destination)
            destination
            endpoint
            certificate
            grant.expires_at)
          r.purpose)
        u).0
      ≡ ok c.session.session_id
unfolding binding_of answer_of make_grant
issued_attaches o c r destination endpoint certificate a grant u lookup later v transport peer
      issued same before found stays free =
    let b = binding_of o c r destination in
    let digest = o.hash o.token in
    let is : grant ≡ make_grant b digest (o.world.now + a.ttl) =
      grant_of_issue b digest o.world.now a grant issued in
    let here : grant.logical_session_id ≡ c.session.session_id =
      ap (λ x. x.logical_session_id) is in
    let serves : Serves later (make_grant b digest (o.world.now + a.ttl)) v = record {
      established = stays.established;
      live = stays.live;
      account = stays.account;
      qapp = stays.qapp;
      connection = stays.connection;
      opened = stays.opened;
    } in
    attach_accepts o.hash lookup later transport peer _ u o.token (claim_of b) grant
      (read_metadata_of (answer_of o r b destination endpoint certificate grant.expires_at)
        r.purpose)
      (ap (λ t. (consume digest (claim_of b) lookup later t).0) same
        ∙ issue-consume b digest o.world.now later a grant lookup v issued before found
            (subst (λ x. Serves later x v) (sym is) serves))
      (ap (get u.attached) here ∙ free)
    ∙ ap ok here

-- A client that was granted a token other than for realtime media gets through: if it attaches with
-- what the answer says before the token expires, and nothing came in between, its session still
-- being found as it was, the attachment succeeds and is to its session.
pub bootstrap-attach :
    (o : Outer) (ctx : RpcContext) (payload : Value) (a : AuthService) (g : Granted) (r : Request)
    (c : Caller) (lookup : String → Option SessionView) (later : ℕ) (v : SessionView)
    (transport peer : String)
    → (bootstrap o ctx payload a).0 ≡ ok (granted g)
    → check_request payload ≡ ok r
    → check_session o.world ctx a.server ≡ ok c
    → is_realtime r ≡ false
    → later < o.world.now + a.server.transport.tokens.ttl
    → lookup c.session.session_id ≡ some v
    → Stays later c v
    → (attach o.hash lookup later transport peer
        (metadata_of g r.purpose)
        (bootstrap o ctx payload a).1.server.transport).0
      ≡ ok c.session.session_id
bootstrap-attach o ctx payload a g r c lookup later v transport peer h read checked plain before
      found stays =
    let x = bootstrap_sound o ctx payload a g h in
    let same_request : x.request ≡ r = same_result x.request r (sym x.read ∙ read) in
    let same_caller : x.caller ≡ c = same_result x.caller c (sym x.checked ∙ checked) in
    let i : Issued o c r x.before (bootstrap o ctx payload a).1.server.transport g =
      subst (λ d. Issued o d r x.before (bootstrap o ctx payload a).1.server.transport g)
        same_caller
        (subst (λ q. Issued o x.caller q x.before (bootstrap o ctx payload a).1.server.transport g)
          same_request x.issued) in
    let free : get (bootstrap o ctx payload a).1.server.transport.attached c.session.session_id
        ≡ none =
      ap (λ d. get (bootstrap o ctx payload a).1.server.transport.attached d.session.session_id)
        (sym same_caller)
      ∙ x.free in
    subst
      (λ y.
        (attach o.hash lookup later transport peer (metadata_of y r.purpose)
          (bootstrap o ctx payload a).1.server.transport).0
        ≡ ok c.session.session_id)
      i.answered
      (issued_attaches o c r i.destination i.endpoint i.certificate x.before.tokens i.grant
        (bootstrap o ctx payload a).1.server.transport lookup later v transport peer i.issued
        (i.own plain) (subst (λ t. later < o.world.now + t.ttl) (sym x.same_tokens) before) found
        stays free)
