-- ===== src/Transport/Tokens.antt =====
-- `AttachTokenAuthority` of src/qapp_backend/private_transport/authorization.py: one-time
-- credentials, issued under rate limits and consumed by an attachment.
pub mod OneTime
pub mod Limits
pub mod Tracks
pub mod Rates
use call_backend.Prelude.{
  ℕ, ◌+◌, ◌-◌, ◌≤◌, String, Bool, true, false, not, ◌&&◌, ◌||◌, Option, none, some, List, [], ◌∷◌,
  ◌++◌, if◌then◌else◌, ◌==◌, nat_eq, string_eq, leb, length, count, list_beq, is_some, Eq, Result,
  ok, err, attach_rejected, rate_limited,
}
use call_backend.Dict
use call_backend.Dict.{Dict, get, put, retain, values}

-- `token_hash(token)`, the SHA-256 of a token, is a value of the type of the digests. Times are in
-- milliseconds.
pub record AttachGrant : Type 0 where
  pub token_hash : String
  pub logical_session_id : String
  pub logical_connection_id : String
  pub authenticated_user : String
  pub qapp_identity : String × String
  pub purpose : String
  pub owner_binding_hash : String
  pub nonce : String
  pub expires_at : ℕ

pub record Authority : Type 0 where
  pub ttl : ℕ
  pub per_session_per_minute : ℕ
  pub per_user_per_minute : ℕ
  pub max_unused_per_session : ℕ
  pub max_unused_global : ℕ
  pub grants : Dict String AttachGrant
  pub issued : Dict String (List ℕ)
  pub issued_users : Dict String (List ℕ)

-- What `issue` is asked to bind a token to.
pub record Binding : Type 0 where
  pub logical_session_id : String
  pub logical_connection_id : String
  pub authenticated_user : String
  pub qapp_identity : String × String
  pub purpose : String
  pub owner_binding_hash : String
  pub nonce : String

unfoldable pub is_live : ℕ → AttachGrant → Bool
is_live now g = not (leb g.expires_at now)

-- `_expire_locked`
unfoldable pub expire : ℕ → Authority → Authority
unfolding is_live
expire now a = record a { grants = retain (is_live now) a.grants }

-- while recent and recent[0] <= cutoff: recent.popleft()
unfoldable pub drop_old : ℕ → List ℕ → List ℕ
drop_old now [] = []
drop_old now (t ∷ ts) = let rest = drop_old now ts in if leb (t + 60000) now then rest else t ∷ ts

unfoldable pub prune : ℕ → Dict String (List ℕ) → Dict String (List ℕ)
unfolding drop_old
prune now [] = []
prune now ((k, ts) ∷ m) = elim (drop_old now ts) [
  | [] ↦ prune now m
  | t ∷ kept ↦ (k, t ∷ kept) ∷ prune now m
]

-- `_prune_rates_locked`: `recent[0] <= now - 60.0` is `recent[0] + 60000 <= now`.
unfoldable pub prune_rates : ℕ → Authority → Authority
prune_rates now a = record a {
  issued = prune now a.issued;
  issued_users = prune now a.issued_users;
}

abbrev pub or_empty : Option (List ℕ) → List ℕ
or_empty none = []
or_empty (some ts) = ts

-- `mapping.setdefault(key, deque())` creates an empty deque, which `_prune_rates_locked` drops.
unfoldable pub setdefault : Dict String (List ℕ) → String → Dict String (List ℕ)
setdefault m k = put m k (or_empty (get m k))

abbrev pub recent : Dict String (List ℕ) → String → List ℕ
recent m k = or_empty (get m k)

unfoldable pub belongs : String → AttachGrant → Bool
belongs session g = g.logical_session_id == session

unfoldable pub unused : String → Authority → ℕ
unfolding belongs
unused session a = count (belongs session) (values a.grants)

unfoldable pub is_limited : Binding → Authority → Bool
is_limited b a =
    leb a.per_session_per_minute (length (recent a.issued b.logical_session_id))
    || leb a.per_user_per_minute (length (recent a.issued_users b.authenticated_user))
    || leb a.max_unused_per_session (unused b.logical_session_id a)
    || leb a.max_unused_global (length a.grants)

unfoldable pub make_grant : Binding → String → ℕ → AttachGrant
make_grant b digest expires_at = record {
  token_hash = digest;
  logical_session_id = b.logical_session_id;
  logical_connection_id = b.logical_connection_id;
  authenticated_user = b.authenticated_user;
  qapp_identity = b.qapp_identity;
  purpose = b.purpose;
  owner_binding_hash = b.owner_binding_hash;
  nonce = b.nonce;
  expires_at = expires_at;
}

unfoldable pub refresh : Binding → ℕ → Authority → Authority
unfolding expire prune_rates
refresh b now a =
    let pruned = prune_rates now (expire now a) in
    record pruned {
      issued = setdefault pruned.issued b.logical_session_id;
      issued_users = setdefault pruned.issued_users b.authenticated_user;
    }

unfoldable pub record_grant : Binding → String → ℕ → Authority → Authority
unfolding make_grant
record_grant b digest now a = record a {
  grants = put a.grants digest (make_grant b digest (now + a.ttl));
  issued = put a.issued b.logical_session_id (recent a.issued b.logical_session_id ++ now ∷ []);
  issued_users =
      put a.issued_users b.authenticated_user
        (recent a.issued_users b.authenticated_user ++ now ∷ []);
}

-- `digest` is the hash of the token that `secrets.token_urlsafe` made.
unfoldable pub issue : Binding → String → ℕ → Authority → Result AttachGrant × Authority
issue b digest now a =
    if is_limited b (refresh b now a)
    then (err rate_limited, refresh b now a)
    else (ok (make_grant b digest (now + a.ttl)), record_grant b digest now (refresh b now a))

-- A session as `session_lookup` finds it.
pub record SessionView : Type 0 where
  pub provisional : Bool
  pub expires_at : ℕ
  pub authenticated_user : Option String
  pub qapp_identity : Option (String × String)
  pub qapp_connection_id : Option String
  pub has_open_connection : Bool

-- What `consume` is shown besides the token.
pub record Claim : Type 0 where
  pub logical_session_id : String
  pub purpose : String
  pub owner_binding_hash : String
  pub nonce : String

unfoldable pub claim_matches : Claim → ℕ → AttachGrant → Bool
claim_matches c now g =
    not (leb g.expires_at now)
    && g.logical_session_id == c.logical_session_id
    && g.purpose == c.purpose
    && g.owner_binding_hash == c.owner_binding_hash
    && g.nonce == c.nonce

abbrev pub identity_is : Option (String × String) → String × String → Bool
identity_is none i = false
identity_is (some j) i = j.0 == i.0 && j.1 == i.1

unfoldable pub session_matches : ℕ → AttachGrant → Option SessionView → Bool
session_matches now g none = false
session_matches now g (some v) =
    not v.provisional
    && not (leb v.expires_at now)
    && is_some v.authenticated_user g.authenticated_user
    && identity_is v.qapp_identity g.qapp_identity
    && is_some v.qapp_connection_id g.logical_connection_id
    && v.has_open_connection

unfoldable pub consume_found :
    String → Claim → (String → Option SessionView) → ℕ → Option AttachGrant → Result AttachGrant
unfolding claim_matches session_matches
consume_found digest c lookup now none = err attach_rejected
consume_found digest c lookup now (some g) =
    if not (g.token_hash == digest)
    then err attach_rejected
    else if not (claim_matches c now g)
    then err attach_rejected
    else if session_matches now g (lookup g.logical_session_id)
    then ok g
    else err attach_rejected

-- A real token is taken out before anything else of the claim is looked at.
unfoldable pub consume :
    String → Claim → (String → Option SessionView) → ℕ → Authority → Result AttachGrant × Authority
unfolding consume_found
consume digest c lookup now a =
    let live = expire now a in
    (
      consume_found digest c lookup now (get live.grants digest),
      record live { grants = Dict.remove live.grants digest },
    )

unfoldable pub invalidate_session : String → Authority → Authority
invalidate_session session a = record a {
  grants = retain (λ g. not (belongs session g)) a.grants;
  issued = Dict.remove a.issued session;
}

unfoldable pub release : String → Authority → Authority
release digest a = record a { grants = Dict.remove a.grants digest }

unfoldable pub outstanding : Option String → ℕ → Authority → ℕ × Authority
unfolding expire
outstanding none now a = (length (expire now a).grants, expire now a)
outstanding (some session) now a = (unused session (expire now a), expire now a)
