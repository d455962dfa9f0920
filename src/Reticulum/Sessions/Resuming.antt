-- ===== src/Reticulum/Sessions/Resuming.antt =====
-- A resume token works once; an expired session is gone; a message is seen once.
use call_backend.Prelude.{
  ℕ, zero, suc, ◌+◌, ◌-◌, ◌≤◌, ◌<◌, String, ◌≡◌, ◌≢◌, ◌↔◌, refl, sym, ap, ◌∙◌, Bool, true, false,
  not, ◌&&◌, ◌||◌, Option, none, some, List, [], ◌∷◌, ◌++◌, arith, if◌then◌else◌, ◌==◌, nat_eq,
  string_eq, ==_iff, eq_refl, leb, length, length-append, length-drop, contains, drop, filter,
  length-filter-le, if_cases,
}
use call_backend.Dict.{Distinct, get, get-put}
use call_backend.Dict.Retain.{get-retain, get-retain-some, retain_keeps}
use call_backend.Reticulum.Sessions.{Session, SessionManager, trim, seen_message}
use call_backend.Reticulum.Sessions.Manager.{
  store, resumed, close_replaced, resume_found, resume, next_hash, is_expired, expire,
}

closed-sessions :
    (is_open : String → Bool) (connection : String) (o : Option String) (m : SessionManager)
    → (close_replaced is_open connection o m).sessions ≡ m.sessions
unfolding close_replaced
closed-sessions is_open connection none m = refl
closed-sessions is_open connection (some old) m =
    if_cases (λ (n : SessionManager). n.sessions ≡ m.sessions)
      (not (old == connection) && is_open old) (λ _. refl) λ _. refl

mismatch :
    (s : Session) (digest connection : String) (is_open : String → Bool) (now : ℕ)
    (fresh : Option String) (m : SessionManager)
    → s.token_hash ≢ digest
    → resume_found (some s) digest connection is_open now fresh m ≡ (none, m)
unfolding resume_found
mismatch s digest connection is_open now fresh m h = ground (arith, ==_iff s.token_hash digest, h)

resume-result :
    (s t : Session) (digest connection : String) (is_open : String → Bool) (now : ℕ)
    (fresh : Option String) (m n : SessionManager)
    → resume_found (some s) digest connection is_open now fresh m ≡ (some t, n)
    → (t ≡ resumed fresh connection now m.ttl s)
      × (n
          ≡ store
              (resumed fresh connection now m.ttl s)
              (close_replaced is_open connection s.connection m))
unfolding resume_found
resume-result s t digest connection is_open now fresh m n h =
    by_test (leb s.expires_at now || not (s.token_hash == digest)) h
  where
    by_test :
        (b : Bool)
        → ◌≡◌ {A = Option Session × SessionManager}
            (if b then (none, m) else (
              some (resumed fresh connection now m.ttl s),
              store
                  (resumed fresh connection now m.ttl s)
                  (close_replaced is_open connection s.connection m),
            ))
            (some t, n)
        → (t ≡ resumed fresh connection now m.ttl s)
          × (n
              ≡ store
                  (resumed fresh connection now m.ttl s)
                  (close_replaced is_open connection s.connection m))
    by_test true e = absurd (ground arith)
    by_test false e = (ground (arith, e), ap (λ r. r.1) (sym e))

stored_there : (m : SessionManager) (s : Session) → get (store s m).sessions s.session_id ≡ some s
unfolding store
stored_there m s = get-put m.sessions s.session_id s s.session_id ∙ rw (eq_refl s.session_id)

fresh_accepted :
    (s : Session) (digest connection : String) (is_open : String → Bool) (now : ℕ)
    (fresh : Option String) (m : SessionManager)
    → now < s.expires_at
    → s.token_hash ≡ digest
    → (resume_found (some s) digest connection is_open now fresh m).0
      ≡ some (resumed fresh connection now m.ttl s)
unfolding resume_found
fresh_accepted s digest connection is_open now fresh m live same =
    ground (arith, ==_iff s.token_hash digest, live, same)

-- A resume of a session in the table that rotates its token to another one spends the old token:
-- afterwards the old one is refused, at any time and on any connection, and nothing changes; the
-- new one is accepted until the session expires.
pub resume_rotates :
    (m n : SessionManager) (s t : Session) (digest fresh connection : String)
    (is_open : String → Bool) (now : ℕ)
    → get m.sessions s.session_id ≡ some s
    → resume s.session_id digest connection is_open now (some fresh) m ≡ (some t, n)
    → fresh ≢ digest
    → ((other : String) (still_open : String → Bool) (later : ℕ) (next : Option String)
        → resume s.session_id digest other still_open later next n ≡ (none, n))
      × ((other : String) (still_open : String → Bool) (later : ℕ) (next : Option String)
          → later < now + m.ttl
          → (resume s.session_id fresh other still_open later next n).0
            ≡ some (resumed next other later n.ttl t))
unfolding resume
resume_rotates m n s t digest fresh connection is_open now found h differs = (
  (λ other still_open later next.
      ap (λ o. resume_found o digest other still_open later next n) there
      ∙ mismatch t digest other still_open later next n (λ e. differs (sym hash ∙ e))),
  λ other still_open later next live.
      ap (λ o. (resume_found o fresh other still_open later next n).0) there
      ∙ fresh_accepted t fresh other still_open later next n (omega (arith, live, expiry)) hash,
)
  where
    result :
        (t ≡ resumed (some fresh) connection now m.ttl s)
        × (n
            ≡ store
                (resumed (some fresh) connection now m.ttl s)
                (close_replaced is_open connection s.connection m))
    result =
        resume-result s t digest connection is_open now (some fresh) m n
          (ap (λ o. resume_found o digest connection is_open now (some fresh) m) (sym found) ∙ h)

    there : get n.sessions s.session_id ≡ some t
    there =
        ap (λ k. get k.sessions s.session_id) (result.1)
        ∙ (unfold resumed in
            stored_there (close_replaced is_open connection s.connection m)
              (resumed (some fresh) connection now m.ttl s))
        ∙ ap some (sym (result.0))

    hash : t.token_hash ≡ fresh
    hash = ap (λ x. x.token_hash) (result.0) ∙ (unfold resumed next_hash in refl)

    expiry : t.expires_at ≡ now + m.ttl
    expiry = ap (λ x. x.expires_at) (result.0) ∙ (unfold resumed in refl)

-- `expire` leaves in the table exactly the sessions that have not expired by then, unchanged, if no
-- id stands twice in it.
pub expire_exact :
    (m : SessionManager) (session_id : String) (s : Session) (now : ℕ)
    → Distinct m.sessions
    → (get (expire now m).1.sessions session_id ≡ some s)
      ↔ ((get m.sessions session_id ≡ some s) × (now < s.expires_at))
unfolding expire
expire_exact m session_id s now distinct = (
  λ h. (
    get-retain left m.sessions session_id s distinct h,
    unfold is_expired in ground (arith, retain_keeps left m.sessions session_id s h),
  ),
  λ h. get-retain-some left m.sessions session_id s h.0 (unfold is_expired in ground (arith, h.1)),
)
  where
    left : Session → Bool
    left x = not (is_expired now x)

contains-append_self : (xs : List ℕ) (x : ℕ) → contains (xs ++ x ∷ []) x ≡ true
unfolding contains
contains-append_self [] x = ground (arith, eq_refl x)
contains-append_self (y ∷ xs) x = ground (arith, contains-append_self xs x)

drop-snoc :
    (n : ℕ) (xs : List ℕ) (x : ℕ) → n ≤ length xs → drop n (xs ++ x ∷ []) ≡ drop n xs ++ x ∷ []
drop-snoc zero xs x h = refl
drop-snoc (suc n) [] x h = absurd (omega arith)
drop-snoc (suc n) (y ∷ xs) x h = drop-snoc n xs x (omega arith)

filter-present :
    (xs : List ℕ) (x : ℕ)
    → contains xs x ≡ true
    → length (filter (λ y. not (y == x)) xs) + 1 ≤ length xs
unfolding contains filter
filter-present [] x h = absurd (ground arith)
filter-present (y ∷ xs) x h =
    ground (arith, length-filter-le (λ z. not (z == x)) xs, filter-present xs x)

trim-snoc :
    (limit : ℕ) (ids : List ℕ) (id : ℕ)
    → 0 < limit
    → (contains (trim limit (ids ++ id ∷ [])) id ≡ true)
      × (length (trim limit (ids ++ id ∷ [])) ≤ limit)
unfolding trim
trim-snoc limit ids id positive = (
  rw
      (drop-snoc (length (ids ++ id ∷ []) - limit) ids id
        (omega (arith, positive, length-append ids (id ∷ []))))
      (contains-append_self _ id),
  omega (arith, length-drop (length (ids ++ id ∷ []) - limit) (ids ++ id ∷ [])),
)

seen-recorded :
    (limit id : ℕ) (ids : List ℕ)
    → 0 < limit
    → length ids ≤ limit
    → (contains (seen_message limit id ids).1 id ≡ true)
      × (length (seen_message limit id ids).1 ≤ limit)
unfolding seen_message
seen-recorded limit id ids positive small =
    if_cases {A = Bool × List ℕ} (λ r. (contains r.1 id ≡ true) × (length r.1 ≤ limit))
      (contains ids id)
      (λ there. (
        contains-append_self (filter (λ y. not (y == id)) ids) id,
        omega (
          arith,
          small,
          filter-present ids id there,
          length-append (filter (λ y. not (y == id)) ids) (id ∷ []),
        ),
      ))
      λ _. trim-snoc limit ids id positive

seen-contained :
    (limit id : ℕ) (ids : List ℕ) → contains ids id ≡ true → (seen_message limit id ids).0 ≡ true
unfolding seen_message
seen-contained limit id ids h = rw h

-- With a positive limit and a cache within it, a message that was just looked at counts as seen,
-- whether it was new or not, and the cache stays within its limit.
pub seen_once :
    (limit id : ℕ) (ids : List ℕ)
    → 0 < limit
    → length ids ≤ limit
    → ((seen_message limit id (seen_message limit id ids).1).0 ≡ true)
      × (length (seen_message limit id ids).1 ≤ limit)
seen_once limit id ids positive small =
    let (there, bounded) = seen-recorded limit id ids positive small in
    (seen-contained limit id _ there, bounded)
