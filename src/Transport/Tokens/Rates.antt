-- ===== src/Transport/Tokens/Rates.antt =====
-- How many tokens `AttachTokenAuthority` issues within a minute.
use call_backend.Prelude.{
  ℕ, ◌≤◌, String, ◌≡◌, refl, sym, subst, ap, Option, none, some, List, [], arith, if◌then◌else◌,
  ◌==◌, string_eq, nat_eq, length, count, if_cases, Result, ok, err,
}
use call_backend.Prelude.Windows.{in_last_minute, in_last_minute-le}
use call_backend.Dict.{values}
use call_backend.Transport.Tokens.{
  AttachGrant, Authority, Binding, expire, prune, prune_rates, setdefault, recent, belongs, unused,
  is_limited, refresh, record_grant, issue, SessionView, Claim, consume, invalidate_session,
  release, outstanding,
}
use call_backend.Transport.Tokens.Tracks.{
  noted, Tracks, later-Tracks, refreshed-Tracks, noted-Tracks, removed-Tracks, nothing_tracked,
}
use call_backend.Transport.Tokens.Limits.{
  AllWithin, InLimits, issued, consumed, invalidated, released, measured, Step-InLimits,
  recent-within,
}

-- Every time at which a token was issued for a session or for an account, in their order.
pub record Log : Type 0 where
  pub sessions : String → List ℕ
  pub users : String → List ℕ

abbrev pub log_issue : Binding → ℕ → Result AttachGrant → Log → Log
log_issue b now (err e) l = l
log_issue b now (ok grant) l = record {
  sessions = noted l.sessions b.logical_session_id now;
  users = noted l.users b.authenticated_user now;
}

-- A session that was invalidated starts anew.
abbrev pub log_invalidation : String → Log → Log
log_invalidation session l = record l { sessions = λ k. if session == k then [] else l.sessions k }

abbrev pub no_issues : Log
no_issues = record { sessions = λ k. []; users = λ k. [] }

-- The authority as it starts, and after any calls at times that do not go back.
pub data Reached : ℕ → Authority → Log → Type 0 where
  fresh :
      (now : ℕ) (a : Authority)
      → a.grants ≡ []
      → a.issued ≡ []
      → a.issued_users ≡ []
      → Reached now a no_issues
  then_issued :
      (now later : ℕ) (a : Authority) (l : Log) (b : Binding) (digest : String)
      → Reached now a l
      → now ≤ later
      → Reached later (issue b digest later a).1 (log_issue b later (issue b digest later a).0 l)
  then_consumed :
      (now later : ℕ) (a : Authority) (l : Log) (digest : String) (c : Claim)
      (lookup : String → Option SessionView)
      → Reached now a l
      → now ≤ later
      → Reached later (consume digest c lookup later a).1 l
  then_invalidated :
      (now : ℕ) (a : Authority) (l : Log) (session : String)
      → Reached now a l
      → Reached now (invalidate_session session a) (log_invalidation session l)
  then_released :
      (now : ℕ) (a : Authority) (l : Log) (digest : String)
      → Reached now a l
      → Reached now (release digest a) l
  then_measured :
      (now later : ℕ) (a : Authority) (l : Log) (session : Option String)
      → Reached now a l
      → now ≤ later
      → Reached later (outstanding session later a).1 l

record Kept (now : ℕ) (a : Authority) (l : Log) : Type 0 where
  limits : InLimits a
  sessions : Tracks now a.issued l.sessions
  users : Tracks now a.issued_users l.users

later-Kept : (now later : ℕ) (a : Authority) (l : Log) → now ≤ later → Kept now a l → Kept later a l
later-Kept now later a l h k = record {
  limits = k.limits;
  sessions = later-Tracks now later a.issued l.sessions h k.sessions;
  users = later-Tracks now later a.issued_users l.users h k.users;
}

-- The two tables after an issue.
abbrev IssuedTracks : ℕ → Binding → Log → Result AttachGrant × Authority → Type 0
IssuedTracks now b l r =
    Tracks now r.1.issued (log_issue b now r.0 l).sessions
    × Tracks now r.1.issued_users (log_issue b now r.0 l).users

issue-Tracks :
    (now : ℕ) (a : Authority) (l : Log) (b : Binding) (digest : String)
    → Kept now a l
    → IssuedTracks now b l (issue b digest now a)
unfolding issue refresh record_grant prune_rates expire
issue-Tracks now a l b digest k =
    let sessions = refreshed-Tracks now a.issued b.logical_session_id l.sessions k.sessions in
    let users = refreshed-Tracks now a.issued_users b.authenticated_user l.users k.users in
    if_cases {A = Result AttachGrant × Authority} (IssuedTracks now b l)
      (is_limited b (refresh b now a)) (λ _. (sessions, users))
      λ _. (
        noted-Tracks now (setdefault (prune now a.issued) b.logical_session_id) b.logical_session_id
            l.sessions sessions,
        noted-Tracks now (setdefault (prune now a.issued_users) b.authenticated_user)
            b.authenticated_user l.users users,
      )

no_unused :
    (session : String) (a : Authority) → a.grants ≡ [] → unused session a ≤ a.max_unused_per_session
unfolding unused
no_unused session a h =
    omega (arith, ap (λ d. count (belongs session) (values d)) h, nothing_counted session)
  where
    nothing_counted : (t : String) → count (belongs t) [] ≡ 0
    nothing_counted t = unfold count in refl

-- Asking for the number of unused tokens keeps the times.
same_issued :
    (session : Option String) (now : ℕ) (a : Authority)
    → ((outstanding session now a).1.issued ≡ a.issued)
      × ((outstanding session now a).1.issued_users ≡ a.issued_users)
unfolding outstanding expire
same_issued none now a = (refl, refl)
same_issued (some session) now a = (refl, refl)

reached-Kept : (now : ℕ) (a : Authority) (l : Log) → Reached now a l → Kept now a l
unfolding consume expire invalidate_session release
reached-Kept now a _ (fresh _ _ no_grants no_sessions no_users) = record {
  limits = record {
    total = omega (arith, ap length no_grants);
    each = λ session. no_unused session a no_grants;
    sessions = subst (AllWithin a.per_session_per_minute) (sym no_sessions) tt;
    users = subst (AllWithin a.per_user_per_minute) (sym no_users) tt;
  };
  sessions = subst (λ m. Tracks now m (λ k. [])) (sym no_sessions) (nothing_tracked now);
  users = subst (λ m. Tracks now m (λ k. [])) (sym no_users) (nothing_tracked now);
}
reached-Kept later _ _ (then_issued now _ a l b digest r h) =
    let k = later-Kept now later a l h (reached-Kept now a l r) in
    let (sessions, users) = issue-Tracks later a l b digest k in
    record {
      limits = Step-InLimits a _ (issued a b digest later) k.limits;
      sessions = sessions;
      users = users;
    }
reached-Kept later _ _ (then_consumed now _ a l digest c lookup r h) =
    let k = later-Kept now later a l h (reached-Kept now a l r) in
    record {
      limits = Step-InLimits a _ (consumed a digest c lookup later) k.limits;
      sessions = k.sessions;
      users = k.users;
    }
reached-Kept now _ _ (then_invalidated _ a l session r) =
    let k = reached-Kept now a l r in
    record {
      limits = Step-InLimits a _ (invalidated a session) k.limits;
      sessions = removed-Tracks now a.issued session l.sessions k.sessions;
      users = k.users;
    }
reached-Kept now _ _ (then_released _ a l digest r) =
    let k = reached-Kept now a l r in
    record {
      limits = Step-InLimits a _ (released a digest) k.limits;
      sessions = k.sessions;
      users = k.users;
    }
reached-Kept later _ _ (then_measured now _ a l session r h) =
    let k = later-Kept now later a l h (reached-Kept now a l r) in
    record {
      limits = Step-InLimits a _ (measured a session later) k.limits;
      sessions =
          subst (λ m. Tracks later m l.sessions) (sym (same_issued session later a).0) k.sessions;
      users = subst (λ m. Tracks later m l.users) (sym (same_issued session later a).1) k.users;
    }

-- The limits on unused tokens, and on the tokens issued within the last minute.
pub record Limited (now : ℕ) (a : Authority) (l : Log) : Type 0 where
  pub total : length a.grants ≤ a.max_unused_global
  pub each : (session : String) → unused session a ≤ a.max_unused_per_session
  pub session_rate :
      (session : String) → in_last_minute now (l.sessions session) ≤ a.per_session_per_minute
  pub user_rate : (user : String) → in_last_minute now (l.users user) ≤ a.per_user_per_minute

-- From an authority without tokens, after any calls of any operations with any arguments at times
-- that do not go back: the unused tokens in all and those of each session are within their limits;
-- at most the configured number of tokens was issued within the last minute for each account, and
-- for each session since it was last invalidated, counted over all the issues that there were.
pub reached-Limited : (now : ℕ) (a : Authority) (l : Log) → Reached now a l → Limited now a l
reached-Limited now a l r =
    let k = reached-Kept now a l r in
    record {
      total = k.limits.total;
      each = k.limits.each;
      session_rate = λ session. omega (
        arith,
        in_last_minute-le now (recent a.issued session) (l.sessions session)
            (k.sessions.covers session),
        recent-within a.per_session_per_minute a.issued session k.limits.sessions,
      );
      user_rate = λ user. omega (
        arith,
        in_last_minute-le now (recent a.issued_users user) (l.users user) (k.users.covers user),
        recent-within a.per_user_per_minute a.issued_users user k.limits.users,
      );
    }
