-- ===== src/Transport/Tokens/OneTime.antt =====
-- A token works once, for what it was bound to.
use call_backend.Prelude.{
  ℕ, ◌+◌, ◌<◌, String, ◌≡◌, ◌≢◌, refl, sym, subst, ◌∙◌, ap, Option, none, some, true, false, not,
  arith, ◌==◌, string_eq, ==_iff, eq_refl, ok, err, attach_rejected, is_some, Bool-cases, inl, inr,
}
use call_backend.Dict.{get, get-put, get-remove, retain}
use call_backend.Dict.Retain.{get-retain-some, get-retain-none, retain_keeps, retain_comm}
use call_backend.Transport.Tokens.{
  AttachGrant, Authority, Binding, is_live, expire, is_limited, make_grant, refresh, record_grant,
  issue, SessionView, Claim, claim_matches, session_matches, consume_found, consume, belongs,
  invalidate_session, release, identity_is,
}

absent_rejected :
    (digest : String) (c : Claim) (lookup : String → Option SessionView) (now : ℕ) (a : Authority)
    → get a.grants digest ≡ none
    → (consume digest c lookup now a).0 ≡ err attach_rejected
unfolding consume expire consume_found
absent_rejected digest c lookup now a h = rw (get-retain-none (is_live now) a.grants digest h)

-- A token is good for one attempt: once it was shown, with whatever claim and result, every later
-- attempt with it is rejected.
pub consume_twice :
    (digest : String) (c d : Claim) (lookup later : String → Option SessionView) (now retry : ℕ)
    (a : Authority)
    → (consume digest d later retry (consume digest c lookup now a).1).0 ≡ err attach_rejected
unfolding consume
consume_twice digest c d lookup later now retry a =
    absent_rejected digest d later retry _
      (get-remove (expire now a).grants digest digest ∙ rw (eq_refl digest))

-- The session that a grant is for: established, not expired, of the same account, Q-App and logical
-- connection, and with an open physical connection.
pub record Serves (now : ℕ) (g : AttachGrant) (v : SessionView) : Type 0 where
  pub established : v.provisional ≡ false
  pub live : now < v.expires_at
  pub account : v.authenticated_user ≡ some g.authenticated_user
  pub qapp : v.qapp_identity ≡ some g.qapp_identity
  pub connection : v.qapp_connection_id ≡ some g.logical_connection_id
  pub opened : v.has_open_connection ≡ true

session_of_match :
    (now : ℕ) (g : AttachGrant) (o : Option SessionView)
    → session_matches now g o ≡ true
    → (v : SessionView) × (o ≡ some v) × Serves now g v
unfolding session_matches
session_of_match now g none h = absurd (ground arith)
session_of_match now g (some v) h = (
  v,
  refl,
  record {
    established = ground arith;
    live = ground arith;
    account = by_user v.authenticated_user (ground arith);
    qapp = by_qapp v.qapp_identity (ground arith);
    connection = by_connection v.qapp_connection_id (ground arith);
    opened = ground arith;
  },
)
  where
    by_user :
        (o : Option String) → is_some o g.authenticated_user ≡ true → o ≡ some g.authenticated_user
    by_user none e = absurd (ground arith)
    by_user (some u) e = ap some ((==_iff u g.authenticated_user).0 e)

    by_connection :
        (o : Option String)
        → is_some o g.logical_connection_id ≡ true
        → o ≡ some g.logical_connection_id
    by_connection none e = absurd (ground arith)
    by_connection (some u) e = ap some ((==_iff u g.logical_connection_id).0 e)

    by_qapp :
        (o : Option (String × String))
        → identity_is o g.qapp_identity ≡ true
        → o ≡ some g.qapp_identity
    by_qapp none e = absurd (ground arith)
    by_qapp (some i) e = ground (arith, ==_iff i.0 g.qapp_identity.0, ==_iff i.1 g.qapp_identity.1)

match_of_session :
    (now : ℕ) (g : AttachGrant) (v : SessionView)
    → Serves now g v
    → session_matches now g (some v) ≡ true
unfolding session_matches
match_of_session now g v s = ground (
  arith,
  s.established,
  s.live,
  s.account,
  s.qapp,
  s.connection,
  s.opened,
  eq_refl g.authenticated_user,
  eq_refl g.qapp_identity.0,
  eq_refl g.qapp_identity.1,
  eq_refl g.logical_connection_id,
)

-- What an accepted attempt passed.
found_sound :
    (digest : String) (c : Claim) (lookup : String → Option SessionView) (now : ℕ)
    (o : Option AttachGrant) (g : AttachGrant)
    → consume_found digest c lookup now o ≡ ok g
    → (o ≡ some g)
      × ((g.token_hash == digest) ≡ true)
      × (claim_matches c now g ≡ true)
      × (session_matches now g (lookup g.logical_session_id) ≡ true)
unfolding consume_found
found_sound digest c lookup now none g h = absurd (ground arith)
found_sound digest c lookup now (some x) g h =
    (ground arith, ground arith, ground arith, ground arith)

-- A token is accepted only with a grant of its own digest that has not expired, whose session,
-- purpose, owner binding and nonce are those of the claim, and for a session that the look-up
-- finds and the grant is for: established, not expired, of the grant's account, Q-App and
-- logical connection, with an open physical connection.
pub consume_sound :
    (digest : String) (c : Claim) (lookup : String → Option SessionView) (now : ℕ) (a : Authority)
    (g : AttachGrant)
    → (consume digest c lookup now a).0 ≡ ok g
    → (now < g.expires_at)
      × (g.token_hash ≡ digest)
      × (g.logical_session_id ≡ c.logical_session_id)
      × (g.purpose ≡ c.purpose)
      × (g.owner_binding_hash ≡ c.owner_binding_hash)
      × (g.nonce ≡ c.nonce)
      × ((v : SessionView) × (lookup g.logical_session_id ≡ some v) × Serves now g v)
unfolding consume
consume_sound digest c lookup now a g h =
    let (_, hash, claim, session) =
      found_sound digest c lookup now (get (expire now a).grants digest) g h in
    (
      unfold claim_matches in ground (arith, claim),
      (==_iff g.token_hash digest).0 hash,
      unfold claim_matches in
          ground (arith, claim, ==_iff g.logical_session_id c.logical_session_id),
      unfold claim_matches in ground (arith, claim, ==_iff g.purpose c.purpose),
      unfold claim_matches in
          ground (arith, claim, ==_iff g.owner_binding_hash c.owner_binding_hash),
      unfold claim_matches in ground (arith, claim, ==_iff g.nonce c.nonce),
      session_of_match now g (lookup g.logical_session_id) session,
    )

abbrev pub claim_of : Binding → Claim
claim_of b = record {
  logical_session_id = b.logical_session_id;
  purpose = b.purpose;
  owner_binding_hash = b.owner_binding_hash;
  nonce = b.nonce;
}

-- A grant that is stored under its own digest is accepted with its own claim.
stored_accepted :
    (b : Binding) (digest : String) (until later : ℕ) (lookup : String → Option SessionView)
    (v : SessionView)
    → later < until
    → lookup b.logical_session_id ≡ some v
    → Serves later (make_grant b digest until) v
    → consume_found digest (claim_of b) lookup later (some (make_grant b digest until))
      ≡ ok (make_grant b digest until)
unfolding consume_found claim_matches make_grant
stored_accepted b digest until later lookup v before found serves =
    rw (found, match_of_session later (make_grant b digest until) v serves)
      (ground (
        arith,
        eq_refl digest,
        eq_refl b.logical_session_id,
        eq_refl b.purpose,
        eq_refl b.owner_binding_hash,
        eq_refl b.nonce,
      ))

recorded :
    (b : Binding) (digest : String) (now later : ℕ) (a : Authority)
    → later < now + a.ttl
    → get (expire later (record_grant b digest now (refresh b now a))).grants digest
      ≡ some (make_grant b digest (now + a.ttl))
unfolding expire record_grant refresh
recorded b digest now later a before =
    get-retain-some (is_live later) _ digest (make_grant b digest (now + a.ttl))
      (get-put (expire now a).grants digest (make_grant b digest (now + a.ttl)) digest
        ∙ rw (eq_refl digest))
      (unfold is_live make_grant in ground arith)

-- What was issued can be used: the token of a successful `issue`, shown before it expires with what
-- it was bound to, is accepted for a session that its grant is for.
pub issue-consume :
    (b : Binding) (digest : String) (now later : ℕ) (a : Authority) (g : AttachGrant)
    (lookup : String → Option SessionView) (v : SessionView)
    → (issue b digest now a).0 ≡ ok g
    → later < now + a.ttl
    → lookup b.logical_session_id ≡ some v
    → Serves later g v
    → (consume digest (claim_of b) lookup later (issue b digest now a).1).0 ≡ ok g
unfolding issue
issue-consume b digest now later a g lookup v h before found serves =
    elim (Bool-cases (is_limited b (refresh b now a))) [
      | inl limited ↦ absurd (ground arith)
      | inr free ↦ rw free (accepted (ground arith))
    ]
  where
    accepted :
        make_grant b digest (now + a.ttl) ≡ g
        → (consume digest (claim_of b) lookup later (record_grant b digest now (refresh b now a))).0
          ≡ ok g
    accepted same =
        unfold consume in
        ap (consume_found digest (claim_of b) lookup later) (recorded b digest now later a before)
        ∙ stored_accepted b digest (now + a.ttl) later lookup v before found
            (subst (λ x. Serves later x v) (sym same) serves)
        ∙ ap ok same

-- After `invalidate_session` no token of that session is accepted.
pub invalidate-consume :
    (session digest : String) (c : Claim) (lookup : String → Option SessionView) (now : ℕ)
    (a : Authority) (g : AttachGrant)
    → (consume digest c lookup now (invalidate_session session a)).0 ≡ ok g
    → g.logical_session_id ≢ session
unfolding consume invalidate_session expire
invalidate-consume session digest c lookup now a g h e = absurd (
    unfold belongs in
    ground (
      arith,
      retain_keeps (λ x. not (belongs session x)) (retain (is_live now) a.grants) digest g
          (rw (retain_comm (λ x. not (belongs session x)) (is_live now) a.grants)
            ((found_sound digest c lookup now _ g h).0)),
      ==_iff g.logical_session_id session,
      e,
    ))

-- A released token is not accepted.
pub release-consume :
    (digest : String) (c : Claim) (lookup : String → Option SessionView) (now : ℕ) (a : Authority)
    → (consume digest c lookup now (release digest a)).0 ≡ err attach_rejected
release-consume digest c lookup now a =
    absent_rejected digest c lookup now (release digest a)
      (unfold release in get-remove a.grants digest digest ∙ rw (eq_refl digest))
