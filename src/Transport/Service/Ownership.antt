-- ===== src/Transport/Service/Ownership.antt =====
-- Which transport serves a session: a session has one at most, and another one never takes over.
use call_backend.Prelude.{
  ℕ, ◌<◌, String, Bool, ◌≡◌, refl, sym, ◌∙◌, ap, subst, fun_ext, if_cases, Option, none, some,
  if◌then◌else◌, ◌==◌, string_eq, ==_iff, is_none, is_some, arith, Result, ok, err, true, false,
  ◌≢◌, ◌⊎◌, inl,
}
use call_backend.Dict
use call_backend.Dict.{get, put, get-put, get-remove}
use call_backend.Value.{Value}
use call_backend.Transport.Tokens.{AttachGrant, SessionView, Claim, Authority, consume}
use call_backend.Transport.Tokens.OneTime.{Serves, consume_sound}
use call_backend.Transport.Service.{
  TransportService, attach_session, attach_claim, attach, read_metadata, detach,
}
use call_backend.Transport.Service.Invalidating.{invalidate, write_media_revocation}

-- The abstract view: the transport of each session.
abbrev pub Owners : Type 0
Owners = String → Option String

abbrev pub owners : TransportService → Owners
owners t = get t.attached

abbrev pub update : Owners → String → Option String → Owners
update f session w = λ s. if session == s then w else f s

-- Who acts on the owners: a transport that asks for a session, a transport that ends its service of
-- one, or the server that cuts a session off.
pub data Actor : Type 0 where
  attaching : String → Actor
  detaching : String → String → Actor
  invalidating : String → Actor

-- What each of them may do: a transport gets a session that is free, or none; one that ends gives
-- the session back if it is the owner, and else changes nothing; the server takes the session that
-- it names from its owner, and no other.
pub data Change (f : Owners) : Actor → Owners → Type 0 where
  refused : (transport : String) → Change f (attaching transport) f
  claimed :
      (session transport : String)
      → f session ≡ none
      → Change f (attaching transport) (update f session (some transport))
  not_owner :
      (session transport : String)
      → f session ≢ some transport
      → Change f (detaching session transport) f
  returned :
      (session transport : String)
      → f session ≡ some transport
      → Change f (detaching session transport) (update f session none)
  cut_off : (session : String) → Change f (invalidating session) (update f session none)

-- One call of the service, and who makes it.
pub data Call (t : TransportService) : Actor → TransportService → Type 0 where
  attached :
      (hash : String → String) (lookup : String → Option SessionView) (now : ℕ)
      (transport peer : String) (metadata : Value)
      → Call t (attaching transport) (attach hash lookup now transport peer metadata t).1
  detached :
      (session transport : String)
      → Call t (detaching session transport) (detach session transport t)
  invalidated :
      (digest : String → String) (session : String) (in_call : Bool) (now : ℕ)
      → Call t (invalidating session) (invalidate digest session in_call now t)

is_none→none : {A : Type 0} (o : Option A) → is_none o ≡ true → o ≡ none
is_none→none none h = refl
is_none→none (some a) h = absurd (ground arith)

is_some_not : (o : Option String) (a : String) → is_some o a ≡ false → o ≢ some a
is_some_not none a h e = absurd (ground arith)
is_some_not (some b) a h e = absurd (ground (arith, ==_iff b a, e))

is_some→some : (o : Option String) (a : String) → is_some o a ≡ true → o ≡ some a
is_some→some none a h = absurd (ground arith)
is_some→some (some b) a h = ground (arith, ==_iff b a)

put-Change :
    (session transport : String) (t : TransportService)
    → get t.attached session ≡ none
    → Change (owners t) (attaching transport) (get (put t.attached session transport))
put-Change session transport t free =
    subst (Change (owners t) (attaching transport))
      (sym (fun_ext λ s. get-put t.attached session transport s)) (claimed session transport free)

owners-remove :
    (session : String) (t : TransportService)
    → update (owners t) session none ≡ get (Dict.remove t.attached session)
owners-remove session t = sym (fun_ext λ s. get-remove t.attached session s)

attach_session-Change :
    (transport peer : String) (r : Result AttachGrant) (t : TransportService)
    → Change (owners t) (attaching transport) (owners (attach_session transport peer r t).1)
unfolding attach_session
attach_session-Change transport peer (err e) t = refused transport
attach_session-Change transport peer (ok g) t =
    if_cases {A = Result String × TransportService}
      (λ r. Change (owners t) (attaching transport) (owners r.1))
      (is_none (get t.attached g.logical_session_id))
      (λ free. put-Change g.logical_session_id transport t (is_none→none _ free))
      λ _. refused transport

detach-Change :
    (session transport : String) (t : TransportService)
    → Change (owners t) (detaching session transport) (owners (detach session transport t))
unfolding detach
detach-Change session transport t =
    if_cases (λ u. Change (owners t) (detaching session transport) (owners u))
      (is_some (get t.attached session) transport)
      (λ own.
        subst (Change (owners t) (detaching session transport)) (owners-remove session t)
          (returned session transport (is_some→some _ transport own)))
      λ other. not_owner session transport (is_some_not _ transport other)

pub attached-write_media_revocation :
    (digest : String → String) (session : String) (now : ℕ) (t : TransportService)
    → (write_media_revocation digest session now t).attached ≡ t.attached
unfolding write_media_revocation
attached-write_media_revocation digest session now t = ground arith

pub attached-invalidate :
    (digest : String → String) (session : String) (in_call : Bool) (now : ℕ) (t : TransportService)
    → (invalidate digest session in_call now t).attached ≡ Dict.remove t.attached session
unfolding invalidate write_media_revocation
attached-invalidate digest session in_call now t = ground arith

attach_claim-Change :
    (hash : String → String) (lookup : String → Option SessionView) (now : ℕ)
    (transport peer : String) (m : Result (String × Claim)) (t : TransportService)
    → Change
        (owners t)
        (attaching transport)
        (owners (attach_claim hash lookup now transport peer m t).1)
unfolding attach_claim
attach_claim-Change hash lookup now transport peer (err e) t = refused transport
attach_claim-Change hash lookup now transport peer (ok (token, claim)) t =
    let (grant, tokens) = consume (hash token) claim lookup now t.tokens in
    attach_session-Change transport peer grant (record t { tokens = tokens })

-- The service refines the view of a session's owner. `attach`, whatever it is called with, leaves
-- the owners as they are or gives a session that has no transport to the transport that asks.
-- `detach` by the session's own transport takes the session back from it, and by any other changes
-- nothing. `invalidate_session` takes the session that it names from its owner and touches no other.
-- None hands a session from one transport to another.
pub call_refines :
    (actor : Actor) (t u : TransportService) → Call t actor u → Change (owners t) actor (owners u)
call_refines _ t _ (attached hash lookup now transport peer metadata) =
    unfold attach in attach_claim-Change hash lookup now transport peer (read_metadata metadata) t
call_refines _ t _ (detached session transport) = detach-Change session transport t
call_refines _ t _ (invalidated digest session in_call now) =
    subst (Change (owners t) (invalidating session))
      (owners-remove session t ∙ sym (ap get (attached-invalidate digest session in_call now t)))
      (cut_off session)

-- What an attachment to the session `id` passed and did.
pub record Admitted (lookup : String → Option SessionView) (now : ℕ) (transport : String)
    (t u : TransportService) (id digest : String) (claim : Claim) : Type 0 where
  pub was_free : get t.attached id ≡ none
  pub owned : get u.attached id ≡ some transport
  pub named : claim.logical_session_id ≡ id
  pub grant : AttachGrant
  pub accepted : (consume digest claim lookup now t.tokens).0 ≡ ok grant
  pub for_session : grant.logical_session_id ≡ id
  pub live : now < grant.expires_at
  pub same_purpose : grant.purpose ≡ claim.purpose
  pub same_owner : grant.owner_binding_hash ≡ claim.owner_binding_hash
  pub same_nonce : grant.nonce ≡ claim.nonce
  pub view : SessionView
  pub found : lookup id ≡ some view
  pub serves : Serves now grant view

attach_session_free :
    (transport peer : String) (g : AttachGrant) (t : TransportService) (id : String)
    → (attach_session transport peer (ok g) t).0 ≡ ok id
    → (g.logical_session_id ≡ id)
      × (get t.attached id ≡ none)
      × (get (attach_session transport peer (ok g) t).1.attached id ≡ some transport)
unfolding attach_session
attach_session_free transport peer g t id h = (
  ground arith,
  ground (arith, is_none→none (get t.attached g.logical_session_id)),
  ground
      (arith, get-put t.attached g.logical_session_id transport id, ==_iff g.logical_session_id id),
)

by_consumed :
    (hash : String → String) (lookup : String → Option SessionView) (now : ℕ)
    (transport peer : String) (token : String) (claim : Claim) (t : TransportService) (id : String)
    (r : Result AttachGrant × Authority)
    → consume (hash token) claim lookup now t.tokens ≡ r
    → (attach_session transport peer r.0 (record t { tokens = r.1 })).0 ≡ ok id
    → Admitted lookup now transport t
        (attach_session transport peer r.0 (record t { tokens = r.1 })).1
        id
        (hash token)
        claim
unfolding attach_session
by_consumed hash lookup now transport peer token claim t id (err e, a) same h =
    absurd (ground arith)
by_consumed hash lookup now transport peer token claim t id (ok g, a) same h =
    let (live, _, session, purpose, owner, nonce, (v, found, serves)) =
      consume_sound (hash token) claim lookup now t.tokens g (ap (λ r. r.0) same) in
    let (here, free, owned) = attach_session_free transport peer g (record t { tokens = a }) id h in
    record {
      was_free = free;
      owned = owned;
      named = sym session ∙ here;
      grant = g;
      accepted = ap (λ r. r.0) same;
      for_session = here;
      live = live;
      same_purpose = purpose;
      same_owner = owner;
      same_nonce = nonce;
      view = v;
      found = subst (λ s. lookup s ≡ some v) here found;
      serves = serves;
    }

attach_claim_sound :
    (hash : String → String) (lookup : String → Option SessionView) (now : ℕ)
    (transport peer : String) (t : TransportService) (id : String) (m : Result (String × Claim))
    → (attach_claim hash lookup now transport peer m t).0 ≡ ok id
    → (claim : Claim) × (token : String) × (m ≡ ok (token, claim))
      × Admitted lookup now transport t
          (attach_claim hash lookup now transport peer m t).1
          id
          (hash token)
          claim
unfolding attach_claim
attach_claim_sound hash lookup now transport peer t id (err e) h = absurd (ground arith)
attach_claim_sound hash lookup now transport peer t id (ok (token, claim)) h =
    (claim, token, refl, by_consumed hash lookup now transport peer token claim t id _ refl h)

-- A transport that attaches gets a session that had none, and becomes its transport; the metadata
-- names this session and a token, whose grant has not expired and is for the purpose, owner and
-- nonce of the metadata; and the session that the look-up finds is established, not expired, of
-- the account, Q-App and logical connection of the grant, with an open connection.
pub attach_sound :
    (hash : String → String) (lookup : String → Option SessionView) (now : ℕ)
    (transport peer : String) (metadata : Value) (t : TransportService) (id : String)
    → (attach hash lookup now transport peer metadata t).0 ≡ ok id
    → (claim : Claim) × (token : String) × (read_metadata metadata ≡ ok (token, claim))
      × Admitted lookup now transport t
          (attach hash lookup now transport peer metadata t).1
          id
          (hash token)
          claim
unfolding attach
attach_sound hash lookup now transport peer metadata t id =
    attach_claim_sound hash lookup now transport peer t id (read_metadata metadata)

attach_session_owner :
    (transport peer : String) (r : Result AttachGrant) (t : TransportService) (id owner : String)
    → get (attach_session transport peer r t).1.attached id ≡ some owner
    → (get t.attached id ≡ some owner) ⊎ ((attach_session transport peer r t).0 ≡ ok id)
unfolding attach_session
attach_session_owner transport peer (err e) t id owner h = inl h
attach_session_owner transport peer (ok g) t id owner h =
    ground
      (arith, get-put t.attached g.logical_session_id transport id, ==_iff g.logical_session_id id)

-- An owner was there before, or has just attached.
pub attach_owner :
    (hash : String → String) (lookup : String → Option SessionView) (now : ℕ)
    (transport peer : String) (metadata : Value) (t : TransportService) (id owner : String)
    → get (attach hash lookup now transport peer metadata t).1.attached id ≡ some owner
    → (get t.attached id ≡ some owner)
      ⊎ ((attach hash lookup now transport peer metadata t).0 ≡ ok id)
unfolding attach attach_claim
attach_owner hash lookup now transport peer metadata t id owner =
    by_metadata (read_metadata metadata)
  where
    by_metadata :
        (m : Result (String × Claim))
        → get (attach_claim hash lookup now transport peer m t).1.attached id ≡ some owner
        → (get t.attached id ≡ some owner)
          ⊎ ((attach_claim hash lookup now transport peer m t).0 ≡ ok id)
    by_metadata (err e) h = inl h
    by_metadata (ok (token, claim)) h =
        let (grant, tokens) = consume (hash token) claim lookup now t.tokens in
        attach_session_owner transport peer grant (record t { tokens = tokens }) id owner h
