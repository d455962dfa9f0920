-- ===== src/Transport/Tokens/Limits.antt =====
-- The limits of `AttachTokenAuthority` hold in every state that its operations reach.
use call_backend.Prelude.{
  ℕ, ◌+◌, ◌≤◌, String, ◌≡◌, refl, ap, Option, none, some, Bool, false, not, List, [], ◌∷◌, ◌++◌,
  arith, ◌==◌, string_eq, ==_iff, length, length-append, if_cases, Result,
}
use call_backend.Dict
use call_backend.Dict.{
  Dict, get, put, retain, values, length-put-le, length-remove-le, length-retain-le,
}
use call_backend.Dict.Retain.{count-put-le, count-remove-le, count-retain-le}
use call_backend.Transport.Tokens.{
  AttachGrant, Authority, Binding, is_live, expire, drop_old, prune, prune_rates, setdefault,
  recent, belongs, unused, is_limited, make_grant, refresh, record_grant, issue, SessionView, Claim,
  consume, invalidate_session, release, outstanding,
}

-- Every deque holds at most `n` times.
abbrev pub AllWithin : ℕ → Dict String (List ℕ) → Type 0
AllWithin n [] = Unit {0}
AllWithin n ((k, ts) ∷ m) = (length ts ≤ n) × AllWithin n m

pub record InLimits (a : Authority) : Type 0 where
  pub total : length a.grants ≤ a.max_unused_global
  pub each : (session : String) → unused session a ≤ a.max_unused_per_session
  pub sessions : AllWithin a.per_session_per_minute a.issued
  pub users : AllWithin a.per_user_per_minute a.issued_users

put-AllWithin :
    (n : ℕ) (m : Dict String (List ℕ)) (k : String) (ts : List ℕ)
    → length ts ≤ n
    → AllWithin n m
    → AllWithin n (put m k ts)
unfolding put
put-AllWithin n [] k ts h w = (h, tt)
put-AllWithin n ((j, us) ∷ m) k ts h w =
    if_cases (AllWithin n) (j == k) (λ _. (h, w.1)) λ _. (w.0, put-AllWithin n m k ts h w.1)

remove-AllWithin :
    (n : ℕ) (m : Dict String (List ℕ)) (k : String) → AllWithin n m → AllWithin n (Dict.remove m k)
unfolding Dict.remove
remove-AllWithin n [] k w = tt
remove-AllWithin n ((j, us) ∷ m) k w =
    if_cases (AllWithin n) (j == k) (λ _. remove-AllWithin n m k w.1)
      λ _. (w.0, remove-AllWithin n m k w.1)

pub recent-within :
    (n : ℕ) (m : Dict String (List ℕ)) (k : String) → AllWithin n m → length (recent m k) ≤ n
unfolding get
recent-within n [] k w = omega arith
recent-within n ((j, us) ∷ m) k w = ground (arith, recent-within n m k w.1)

drop_old-le : (now : ℕ) (ts : List ℕ) → length (drop_old now ts) ≤ length ts
unfolding drop_old
drop_old-le now [] = omega arith
drop_old-le now (t ∷ ts) = ground (arith, drop_old-le now ts)

prune-AllWithin : (n now : ℕ) (m : Dict String (List ℕ)) → AllWithin n m → AllWithin n (prune now m)
unfolding prune
prune-AllWithin n now [] w = tt
prune-AllWithin n now ((k, ts) ∷ m) w = by_kept (drop_old now ts) refl (prune-AllWithin n now m w.1)
  where
    by_kept :
        (kept : List ℕ)
        → drop_old now ts ≡ kept
        → AllWithin n (prune now m)
        → AllWithin n (elim kept [ [] ↦ prune now m | t ∷ us ↦ (k, t ∷ us) ∷ prune now m ])
    by_kept [] e rest = rest
    by_kept (t ∷ us) e rest = (omega (arith, w.0, ap length e, drop_old-le now ts), rest)

expire-InLimits : (now : ℕ) (a : Authority) → InLimits a → InLimits (expire now a)
unfolding expire unused
expire-InLimits now a l = record {
  total = omega (arith, l.total, length-retain-le (is_live now) a.grants);
  each = λ session.
      omega (arith, l.each session, count-retain-le (belongs session) (is_live now) a.grants);
  sessions = l.sessions;
  users = l.users;
}

setdefault-AllWithin :
    (n : ℕ) (m : Dict String (List ℕ)) (k : String) → AllWithin n m → AllWithin n (setdefault m k)
unfolding setdefault
setdefault-AllWithin n m k w = put-AllWithin n m k (recent m k) (recent-within n m k w) w

refresh-InLimits : (b : Binding) (now : ℕ) (a : Authority) → InLimits a → InLimits (refresh b now a)
refresh-InLimits b now a l =
    let live = expire-InLimits now a l in
    unfold refresh prune_rates expire in
    record {
      total = unfold expire in live.total;
      each = unfold expire unused in λ session. unfold expire unused in live.each session;
      sessions =
          setdefault-AllWithin a.per_session_per_minute (prune now a.issued) b.logical_session_id
            (prune-AllWithin a.per_session_per_minute now a.issued l.sessions);
      users =
          setdefault-AllWithin a.per_user_per_minute (prune now a.issued_users) b.authenticated_user
            (prune-AllWithin a.per_user_per_minute now a.issued_users l.users);
    }

length-snoc : (ts : List ℕ) (now : ℕ) → length (ts ++ now ∷ []) ≡ length ts + 1
length-snoc ts now = length-append ts (now ∷ [])

record-InLimits :
    (b : Binding) (digest : String) (now : ℕ) (a : Authority)
    → is_limited b a ≡ false
    → InLimits a
    → InLimits (record_grant b digest now a)
unfolding record_grant is_limited
record-InLimits b digest now a free l = record {
  total = ground (arith, length-put-le a.grants digest (make_grant b digest (now + a.ttl)));
  each = λ session.
      unfold unused belongs make_grant in
      ground (
        arith,
        l.each session,
        ==_iff b.logical_session_id session,
        count-put-le (belongs session) a.grants digest (make_grant b digest (now + a.ttl)),
      );
  sessions =
      put-AllWithin a.per_session_per_minute a.issued b.logical_session_id _
        (ground (arith, length-snoc (recent a.issued b.logical_session_id) now)) l.sessions;
  users =
      put-AllWithin a.per_user_per_minute a.issued_users b.authenticated_user _
        (ground (arith, length-snoc (recent a.issued_users b.authenticated_user) now)) l.users;
}

-- One call of the authority.
pub data Step : Authority → Authority → Type 0 where
  issued :
      (a : Authority) (b : Binding) (digest : String) (now : ℕ) → Step a (issue b digest now a).1
  consumed :
      (a : Authority) (digest : String) (c : Claim) (lookup : String → Option SessionView) (now : ℕ)
      → Step a (consume digest c lookup now a).1
  invalidated : (a : Authority) (session : String) → Step a (invalidate_session session a)
  released : (a : Authority) (digest : String) → Step a (release digest a)
  measured :
      (a : Authority) (session : Option String) (now : ℕ) → Step a (outstanding session now a).1

remove-InLimits : (a : Authority) (digest : String) → InLimits a → InLimits (release digest a)
unfolding release unused
remove-InLimits a digest l = record {
  total = omega (arith, l.total, length-remove-le a.grants digest);
  each =
      λ session. omega (arith, l.each session, count-remove-le (belongs session) a.grants digest);
  sessions = l.sessions;
  users = l.users;
}

-- A call of any operation, with any arguments and at any time, keeps the limits where they hold:
-- on the unused tokens in all and for each session, and on the lengths of the deques of issue times
-- of each session and each account.
pub Step-InLimits : (a b : Authority) → Step a b → InLimits a → InLimits b
Step-InLimits a _ (issued _ b digest now) l =
    let fresh = refresh-InLimits b now a l in
    unfold issue in
    if_cases {A = Result AttachGrant × Authority} (λ r. InLimits r.1)
      (is_limited b (refresh b now a)) (λ _. fresh)
      λ free. record-InLimits b digest now (refresh b now a) free fresh
Step-InLimits a _ (consumed _ digest c lookup now) l =
    unfold consume in
    (unfold release in remove-InLimits (expire now a) digest (expire-InLimits now a l))
Step-InLimits a _ (invalidated _ session) l =
    let keep : AttachGrant → Bool = λ g. not (belongs session g) in
    unfold invalidate_session in
    record {
      total = omega (arith, l.total, length-retain-le keep a.grants);
      each = λ other.
          unfold unused in
          omega (arith, l.each other, count-retain-le (belongs other) keep a.grants);
      sessions = remove-AllWithin a.per_session_per_minute a.issued session l.sessions;
      users = l.users;
    }
Step-InLimits a _ (released _ digest) l = remove-InLimits a digest l
Step-InLimits a _ (measured _ none now) l = unfold outstanding in expire-InLimits now a l
Step-InLimits a _ (measured _ (some session) now) l = unfold outstanding in expire-InLimits now a l
