-- ===== src/Transport/Bootstrap/Callers.antt =====
-- Who passes the checks of `bootstrap`.
use call_backend.Prelude.{
  ◌<◌, String, true, false, not, ◌≡◌, ◌≢◌, subst, Option, none, some, string_eq, ==_iff, arith,
  Result, ok, err, is_some, leb, ap, refl, ◌∙◌, contains,
}
use call_backend.Prelude.Raising.{require, or_raise}
use call_backend.Prelude.Chains.{chain, required, present, same_result}
use call_backend.Dict.{get}
use call_backend.Value.{text}
use call_backend.Auth.Identity.{Identity, normalize_qapp_identity}
use call_backend.Auth.Identity.Normal.{Normal, normalized-Normal}
use call_backend.Reticulum.Sessions.{Session}
use call_backend.Auth.Service.{World}
use call_backend.Reticulum.Server.{Link, Server, session_of, then_get}
use call_backend.Transport.Service.{pair_of}
use call_backend.Transport.Bootstrap.Requests.{
  RpcContext, Caller, carries, is_account, same_normal, normal_identity, check_session,
}

-- The caller's session is that of an open connection's logical connection, established, of an
-- account, not expired, and carries a Q-App in normal form.
pub record Qualified (w : World) (ctx : RpcContext) (v : Server) (c : Caller) : Type 0 where
  pub at_connection : ctx.connection ≡ some c.connection
  pub at_logical : ctx.logical_connection_id ≡ some c.logical_id
  pub link : Link
  pub linked : get v.links c.connection ≡ some link
  pub is_up : link.closed ≡ false
  pub carried : contains link.logical_connection_ids c.logical_id ≡ true
  pub id : String
  pub indexed : get v.logical_sessions c.logical_id ≡ some id
  pub in_table : get v.manager.sessions id ≡ some c.session
  pub own : ctx.session ≡ some c.session.session_id
  pub connected : c.session.connection ≡ some c.connection
  pub established : c.session.provisional ≡ false
  pub account : c.session.authenticated_user ≡ some c.user
  pub known : c.user ≢ ""
  pub live : w.now < c.session.expires_at
  pub qapp : pair_of (get c.session.metadata "qapp_identity") ≡ some c.qapp
  pub normal : Normal w.outside (record { name = c.qapp.0; service = c.qapp.1 })

-- The link that carries a logical connection.
abbrev OpenLink : Option Link → String → Type 0
OpenLink o logical_id =
    (l : Link) × (o ≡ some l)
    × (l.closed ≡ false)
    × (contains l.logical_connection_ids logical_id ≡ true)

carries_link :
    (o : Option Link) (logical_id : String) → carries o logical_id ≡ true → OpenLink o logical_id
carries_link none logical_id h = absurd (ground arith)
carries_link (some l) logical_id h = (l, refl, ground (arith, h), ground (arith, h))

indexed_session :
    (logical_id : String) (v : Server) (s : Session)
    → session_of logical_id v ≡ some s
    → (id : String) × (get v.logical_sessions logical_id ≡ some id)
      × (get v.manager.sessions id ≡ some s)
unfolding session_of
indexed_session logical_id v s h = by_id (get v.logical_sessions logical_id) refl h
  where
    by_id :
        (o : Option String)
        → get v.logical_sessions logical_id ≡ o
        → then_get o (get v.manager.sessions) ≡ some s
        → (id : String) × (get v.logical_sessions logical_id ≡ some id)
          × (get v.manager.sessions id ≡ some s)
    by_id none e k = absurd (ground arith)
    by_id (some id) e k = (id, e, k)

is_some→same : (o : Option String) (a : String) → is_some o a ≡ true → o ≡ some a
is_some→same none a h = absurd (ground arith)
is_some→same (some b) a h = ground (arith, ==_iff b a)

account_known :
    (o : Option String) (user : String) → o ≡ some user → is_account o ≡ true → user ≢ ""
account_known o user e known same = absurd (ground (arith, ==_iff user ""))

-- The Q-App of a session, and that it is in normal form.
abbrev InNormalForm : World → Option (String × String) → String × String → Type 0
InNormalForm w o qapp =
    (o ≡ some qapp) × Normal w.outside (record { name = qapp.0; service = qapp.1 })

same_normal_form :
    (w : World) (name service : String) (r : Result Identity) (qapp : String × String)
    → normalize_qapp_identity w.outside (some (text name)) (some (text service)) ≡ r
    → same_normal name service r ≡ ok qapp
    → InNormalForm w (some (name, service)) qapp
same_normal_form w name service (err e) qapp normalized h = absurd (ground arith)
same_normal_form w name service (ok x) qapp normalized h =
    let same_name : x.name ≡ name = ground (arith, h, ==_iff x.name name) in
    let same_service : x.service ≡ service = ground (arith, h, ==_iff x.service service) in
    let pair : (name, service) ≡ qapp = ground (arith, h) in
    (
      ap some pair,
      subst (λ q. Normal w.outside (record { name = q.0; service = q.1 })) pair
          (subst (λ i. Normal w.outside i)
            (ap {B = Identity} (λ n. record { name = n; service = x.service }) same_name
              ∙ ap {B = Identity} (λ t. record { name = name; service = t }) same_service)
            (normalized-Normal w.outside name service x normalized same_name same_service)),
    )

normal_identity_form :
    (w : World) (o : Option (String × String)) (qapp : String × String)
    → normal_identity w o ≡ ok qapp
    → InNormalForm w o qapp
unfolding normal_identity
normal_identity_form w none qapp h = absurd (ground arith)
normal_identity_form w (some (name, service)) qapp h = same_normal_form w name service _ qapp refl h

pub check_session-Qualified :
    (w : World) (ctx : RpcContext) (v : Server) (c : Caller)
    → check_session w ctx v ≡ ok c
    → Qualified w ctx v c
unfolding check_session
check_session-Qualified w ctx v c =
    chain (or_raise ctx.connection "unauthenticated") _ c _ λ connection at_connection.
      chain (or_raise ctx.logical_connection_id "unauthenticated") _ c _ λ logical_id at_logical.
        chain (require (carries (get v.links connection) logical_id) "unauthenticated") _ c _
          λ _ carried.
            chain (or_raise (session_of logical_id v) "unauthenticated") _ c _ λ s indexed.
              chain (require (is_some ctx.session s.session_id) "unauthenticated") _ c _ λ _ own.
                chain (require (is_some s.connection connection) "unauthenticated") _ c _
                  λ _ connected.
                    chain (require (not s.provisional) "unauthenticated") _ c _ λ _ established.
                      chain (require (is_account s.authenticated_user) "unauthenticated") _ c _
                        λ _ known.
                          chain (or_raise s.authenticated_user "unauthenticated") _ c _
                            λ user account.
                              chain (require (not (leb s.expires_at w.now)) "unauthenticated") _ c _
                                λ _ live.
                                  chain
                                    (normal_identity w (pair_of (get s.metadata "qapp_identity"))) _
                                    c _
                                    λ qapp normal done.
                                      let link =
                                        carries_link _ logical_id
                                          (required _ "unauthenticated" _ carried) in
                                      let found =
                                        indexed_session logical_id v s
                                          (present _ "unauthenticated" _ indexed) in
                                      let form = normal_identity_form w _ qapp normal in
                                      subst (Qualified w ctx v) (same_result _ c done) (record {
                                        link = link.0;
                                        linked = link.1;
                                        is_up = link.2;
                                        id = found.0;
                                        in_table = found.2;
                                        normal = form.1;
                                        at_connection = present _ "unauthenticated" _ at_connection;
                                        at_logical = present _ "unauthenticated" _ at_logical;
                                        carried = link.3;
                                        indexed = found.1;
                                        own = is_some→same _ _ (required _ "unauthenticated" _ own);
                                        connected =
                                            is_some→same _ _
                                              (required _ "unauthenticated" _ connected);
                                        established = ground (arith, established);
                                        account = present _ "unauthenticated" _ account;
                                        known =
                                            account_known _ user
                                              (present _ "unauthenticated" _ account)
                                              (required _ "unauthenticated" _ known);
                                        live = ground (arith, live);
                                        qapp = form.0;
                                      })
