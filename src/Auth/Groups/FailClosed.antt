-- ===== src/Auth/Groups/FailClosed.antt =====
-- Access is closed when nobody can tell: what lets an account in, on every path.
use call_backend.Prelude.{
  ℕ, ◌+◌, ◌<◌, String, ◌≡◌, ◌≢◌, refl, sym, ap, ◌∙◌, ◌⊎◌, inl, inr, Bool, true, false, ◌&&◌, ◌||◌,
  Option, none, some, List, [], ◌∷◌, arith, if◌then◌else◌, string_eq, ==_iff, ltb, leb, is_some,
  ◌≤◌, Result, ok, err, Error, access_unavailable,
}
use call_backend.Dict.{get}
use call_backend.Auth.Groups.{
  membership_cache, collect, check_groups, MembershipResult, Cache, verdict, record_check, look_up,
  authorize, Access, AccessConfig, is_recent, is_in_grace, is_unavailable, refreshed,
  require_authorized,
}

-- Some group's check said yes.
abbrev pub any_member : List (Result Bool) → Bool
any_member [] = false
any_member (ok b ∷ rs) = b || any_member rs
any_member (err e ∷ rs) = any_member rs

-- Some group's check had no answer.
abbrev pub any_failed : List (Result Bool) → Bool
any_failed [] = false
any_failed (ok b ∷ rs) = any_failed rs
any_failed (err e ∷ rs) = true

collect-value :
    (u : Bool) (rs : List (Result Bool))
    → collect u rs ≡ (
        if any_member rs
        then ok true
        else if u || any_failed rs
        then err access_unavailable
        else ok false)
unfolding collect
collect-value u [] = ground arith
collect-value u (ok true ∷ rs) = refl
collect-value u (ok false ∷ rs) = collect-value u rs
collect-value u (err e ∷ rs) = ground (arith, collect-value true rs)

-- The result of the groups' checks does not depend on the order in which they end: yes if one of
-- them says yes, else no answer if one of them has none, else no.
pub check_groups-value :
    (rs : List (Result Bool))
    → check_groups rs ≡ (
        if any_member rs
        then ok true
        else if any_failed rs
        then err access_unavailable
        else ok false)
unfolding check_groups
check_groups-value rs = collect-value false rs

-- A yes that was cached less than 30 seconds ago.
abbrev pub Remembered : String → ℕ → Cache → Type 0
Remembered address now cache =
    (c : MembershipResult) × (get cache address ≡ some c)
    × (c.allowed ≡ true)
    × (now < c.checked_at + membership_cache)

checked-member :
    (address : String) (now t : ℕ) (rs : List (Result Bool)) (cache : Cache)
    → (record_check address now (check_groups rs) cache).0 ≡ ok t
    → any_member rs ≡ true
checked-member address now t rs cache h = by_answer (check_groups rs) refl h
  where
    by_answer :
        (r : Result Bool)
        → check_groups rs ≡ r
        → (record_check address now r cache).0 ≡ ok t
        → any_member rs ≡ true
    by_answer (err e) same k = unfold record_check in absurd (ground arith)
    by_answer (ok false) same k = unfold record_check verdict in absurd (ground arith)
    by_answer (ok true) same k = ground (arith, check_groups-value rs, same)

checked-unavailable :
    (address : String) (now : ℕ) (rs : List (Result Bool)) (cache : Cache)
    → (record_check address now (check_groups rs) cache).0 ≡ err access_unavailable
    → (any_failed rs ≡ true) × (any_member rs ≡ false)
checked-unavailable address now rs cache h = by_answer (check_groups rs) refl h
  where
    by_answer :
        (r : Result Bool)
        → check_groups rs ≡ r
        → (record_check address now r cache).0 ≡ err access_unavailable
        → (any_failed rs ≡ true) × (any_member rs ≡ false)
    by_answer (err e) same k = ground (arith, check_groups-value rs, same)
    by_answer (ok false) same k = unfold record_check verdict in absurd (ground arith)
    by_answer (ok true) same k = unfold record_check verdict in absurd (ground arith)

authorize-private :
    (mode address : String) (now : ℕ) (rs : List (Result Bool)) (cache : Cache)
    → mode ≢ "public"
    → authorize mode address now rs cache ≡ look_up address now rs (get cache address) cache
unfolding authorize
authorize-private mode address now rs cache closed = ground (arith, ==_iff mode "public", closed)

verdict-allowed : (c : MembershipResult) (t : ℕ) → verdict c ≡ ok t → c.allowed ≡ true
unfolding verdict
verdict-allowed c t h = ground arith

verdict-answers : (c : MembershipResult) → verdict c ≢ err access_unavailable
unfolding verdict
verdict-answers c h = ground arith

look_up_sound :
    (address : String) (now t : ℕ) (rs : List (Result Bool)) (o : Option MembershipResult)
    (cache : Cache)
    → get cache address ≡ o
    → (look_up address now rs o cache).0 ≡ ok t
    → Remembered address now cache ⊎ (any_member rs ≡ true)
look_up_sound address now t rs none cache e h =
    inr (checked-member address now t rs cache (unfold look_up in h))
look_up_sound address now t rs (some c) cache e h =
    by_age (ltb now (c.checked_at + membership_cache)) refl (unfold look_up in h)
  where
    by_age :
        (b : Bool)
        → ltb now (c.checked_at + membership_cache) ≡ b
        → ((if b then (verdict c, cache) else record_check address now (check_groups rs) cache).0)
          ≡ ok t
        → Remembered address now cache ⊎ (any_member rs ≡ true)
    by_age true young k = inl (c, e, verdict-allowed c t k, ground (arith, young))
    by_age false old k = inr (checked-member address now t rs cache k)

look_up-unavailable :
    (address : String) (now : ℕ) (rs : List (Result Bool)) (o : Option MembershipResult)
    (cache : Cache)
    → (look_up address now rs o cache).0 ≡ err access_unavailable
    → (any_failed rs ≡ true) × (any_member rs ≡ false)
look_up-unavailable address now rs none cache h =
    checked-unavailable address now rs cache (unfold look_up in h)
look_up-unavailable address now rs (some c) cache h =
    by_age (ltb now (c.checked_at + membership_cache)) (unfold look_up in h)
  where
    by_age :
        (b : Bool)
        → ((if b then (verdict c, cache) else record_check address now (check_groups rs) cache).0)
          ≡ err access_unavailable
        → (any_failed rs ≡ true) × (any_member rs ≡ false)
    by_age true k = absurd (verdict-answers c k)
    by_age false k = checked-unavailable address now rs cache k

unavailable_is : (e : Error) → is_unavailable e ≡ true → e ≡ access_unavailable
unavailable_is access_unavailable h = refl
unavailable_is _ h = absurd (ground arith)

refused_unless :
    (config : AccessConfig) (a : Access) (now : ℕ) (e : Error)
    → (refreshed config a now (err e)).0 ≡ ok tt
    → (is_unavailable e ≡ true) × (is_in_grace config a now ≡ true)
unfolding refreshed
refused_unless config a now e h = by_tests (is_unavailable e) (is_in_grace config a now) h
  where
    by_tests :
        (b c : Bool)
        → (if◌then◌else◌ {A = Result (Unit {0}) × Access} (b && c) (ok tt, a) (err e, a)).0 ≡ ok tt
        → (b ≡ true) × (c ≡ true)
    by_tests true true k = (refl, refl)
    by_tests true false k = absurd (ground arith)
    by_tests false c k = absurd (ground arith)

-- The last check was made under the policy that is in force.
pub record Checked (config : AccessConfig) (a : Access) (at : ℕ) : Type 0 where
  pub then_at : a.checked_at ≡ some at
  pub same_policy : a.policy_revision ≡ some config.revision

-- Why `require_authorized` may let a session pass where the backend is not public.
pub data Grounds (config : AccessConfig) (address : String) (a : Access) (now : ℕ)
    (rs : List (Result Bool)) (cache : Cache) : Type 0 where
  checked_lately :
      (at : ℕ)
      → Checked config a at
      → now < at + config.access_revalidate_interval
      → Grounds config address a now rs cache
  remembered : Remembered address now cache → Grounds config address a now rs cache
  member_now : any_member rs ≡ true → Grounds config address a now rs cache
  outage :
      (at : ℕ)
      → Checked config a at
      → now ≤ at + config.access_outage_grace
      → any_failed rs ≡ true
      → any_member rs ≡ false
      → Grounds config address a now rs cache

same_revision : (o : Option String) (r : String) → is_some o r ≡ true → o ≡ some r
same_revision none r h = absurd (ground arith)
same_revision (some s) r h = ground (arith, ==_iff s r)

recent_since :
    (config : AccessConfig) (a : Access) (now : ℕ) (address : String) (rs : List (Result Bool))
    (cache : Cache)
    → is_recent config a now ≡ true
    → Grounds config address a now rs cache
unfolding is_recent
recent_since config a now address rs cache h = by_time a.checked_at refl h
  where
    by_time :
        (o : Option ℕ)
        → a.checked_at ≡ o
        → elim o [
          | none ↦ false
          | some t ↦
              is_some a.policy_revision config.revision
              && ltb now (t + config.access_revalidate_interval)
        ]
          ≡ true
        → Grounds config address a now rs cache
    by_time none e k = absurd (ground arith)
    by_time (some t) e k =
        checked_lately t
          (record { then_at = e; same_policy = same_revision _ _ (ground (arith, k)) })
          (ground (arith, k))

-- The last check was within the outage grace.
abbrev Graced : AccessConfig → Access → ℕ → Type 0
Graced config a now = (at : ℕ) × Checked config a at × (now ≤ at + config.access_outage_grace)

grace_since :
    (config : AccessConfig) (a : Access) (now : ℕ)
    → is_in_grace config a now ≡ true
    → Graced config a now
unfolding is_in_grace
grace_since config a now h = by_time a.checked_at refl h
  where
    by_time :
        (o : Option ℕ)
        → a.checked_at ≡ o
        → elim o [
          | none ↦ false
          | some t ↦
              is_some a.policy_revision config.revision && leb now (t + config.access_outage_grace)
        ]
          ≡ true
        → Graced config a now
    by_time none e k = absurd (ground arith)
    by_time (some t) e k = (
      t,
      record { then_at = e; same_policy = same_revision _ _ (ground (arith, k)) },
      ground (arith, k),
    )

-- A session passes at a backend that is not public only if its last check was made under the policy
-- revision in force and less than the revalidation interval ago, or its account's membership was
-- confirmed less than 30 seconds ago, or a group's check confirms it now, or no check confirms it,
-- one has no answer, and its last check was made under the policy revision in force and no longer
-- ago than the outage grace.
pub require_authorized_sound :
    (config : AccessConfig) (address : String) (a : Access) (now : ℕ) (rs : List (Result Bool))
    (cache : Cache)
    → config.access_mode ≢ "public"
    → (require_authorized config address a now rs cache).0.0 ≡ ok tt
    → Grounds config address a now rs cache
unfolding require_authorized
require_authorized_sound config address a now rs cache closed h =
    by_recent (is_recent config a now) refl
      (ground (arith, ==_iff config.access_mode "public", closed, h))
  where
    by_answer :
        (r : Result ℕ)
        → (look_up address now rs (get cache address) cache).0 ≡ r
        → (refreshed config a now r).0 ≡ ok tt
        → Grounds config address a now rs cache
    by_answer (ok t) e k =
        by_reason (look_up_sound address now t rs (get cache address) cache refl e)
      where
        by_reason :
            Remembered address now cache ⊎ (any_member rs ≡ true)
            → Grounds config address a now rs cache
        by_reason (inl c) = remembered c
        by_reason (inr m) = member_now m
    by_answer (err f) e k =
        let (missing, grace) = refused_unless config a now f k in
        let (failed, nobody) =
          look_up-unavailable address now rs (get cache address) cache
            (e ∙ ap err (unavailable_is f missing)) in
        let (at, checked, within) = grace_since config a now grace in
        outage at checked within failed nobody

    by_recent :
        (b : Bool)
        → is_recent config a now ≡ b
        → (if b
            then ok tt
            else (refreshed config a now (authorize config.access_mode address now rs cache).0).0)
          ≡ ok tt
        → Grounds config address a now rs cache
    by_recent true e k = recent_since config a now address rs cache e
    by_recent false e k =
        by_answer _
          (ap (λ r. r.0) (sym (authorize-private config.access_mode address now rs cache closed))) k
