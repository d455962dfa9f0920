-- ===== src/Auth/Groups.antt =====
-- Group membership as the condition of access: `GroupAccessPolicy` of
-- src/qapp_backend/auth/group_access.py and `require_authorized` of src/qapp_backend/auth/service.py.
pub mod Cores
pub mod FailClosed
use call_backend.Prelude.{
  ℕ, ◌+◌, String, Bool, true, false, not, ◌&&◌, ◌||◌, Option, none, some, List, [], ◌∷◌,
  if◌then◌else◌, ◌==◌, nat_eq, string_eq, leb, ltb, length, is_some, filter, Result, ok, err, Error,
  access_denied, access_unavailable,
}
use call_backend.Dict
use call_backend.Dict.{Dict, get, put}

-- Times are in milliseconds.
abbrev pub membership_cache : ℕ
membership_cache = 30000

abbrev pub core_failure_cooldown : ℕ
core_failure_cooldown = 30000

abbrev pub core_check_deadline : ℕ
core_check_deadline = 6000

-- How an attempt at one Core goes: the clock before it, whether a request slot was free, what the
-- requester returned (nothing where it raised), and the clock after it.
pub record Attempt : Type 0 where
  pub before : ℕ
  pub has_slot : Bool
  pub answer : Option Bool
  pub after : ℕ

abbrev or_zero : Option ℕ → ℕ
or_zero none = 0
or_zero (some t) = t

unfoldable pub is_cool : ℕ → Dict String ℕ → String → Bool
is_cool now failed base = leb (or_zero (get failed base)) now

unfoldable pub or_all : List String → List String → List String
or_all [] bases = bases
or_all (b ∷ bs) bases = b ∷ bs

unfoldable pub or_next :
    Option Bool → String → Dict String ℕ → Result Bool × Dict String ℕ → Result Bool × Dict String ℕ
or_next none base failed next = next
or_next (some member) base failed next = (ok member, Dict.remove failed base)

-- The loop of `_check_one_group` over the Cores.
unfoldable pub ask :
    ℕ → (String → Attempt) → List String → Dict String ℕ → Result Bool × Dict String ℕ
unfolding or_next
ask deadline attempt [] failed = (err access_unavailable, failed)
ask deadline attempt (base ∷ bases) failed =
    let next = ask deadline attempt bases failed in
    let after_failure =
      ask deadline attempt bases (put failed base ((attempt base).after + core_failure_cooldown)) in
    if leb deadline (attempt base).before
    then (err access_unavailable, failed)
    else if not (attempt base).has_slot
    then next
    else or_next (attempt base).answer base failed after_failure

-- `_check_one_group`, started at `now`.
unfoldable pub check_one_group :
    ℕ → (String → Attempt) → List String → Dict String ℕ → Result Bool × Dict String ℕ
unfolding ask is_cool or_all
check_one_group now attempt bases failed =
    ask (now + core_check_deadline) attempt (or_all (filter (is_cool now failed) bases) bases)
      failed

-- The loop of `_check_groups` over what the groups' checks return, in the order in which they end.
unfoldable pub collect : Bool → List (Result Bool) → Result Bool
collect unavailable [] = if unavailable then err access_unavailable else ok false
collect unavailable (ok true ∷ rs) = ok true
collect unavailable (ok false ∷ rs) = collect unavailable rs
collect unavailable (err e ∷ rs) = collect true rs

unfoldable pub check_groups : List (Result Bool) → Result Bool
unfolding collect
check_groups rs = collect false rs

pub record MembershipResult : Type 0 where
  pub allowed : Bool
  pub checked_at : ℕ

abbrev pub Cache : Type 0
Cache = Dict String MembershipResult

unfoldable pub verdict : MembershipResult → Result ℕ
verdict r = if r.allowed then ok r.checked_at else err access_denied

unfoldable pub record_check : String → ℕ → Result Bool → Cache → Result ℕ × Cache
unfolding verdict
record_check address now (err e) cache = (err e, cache)
record_check address now (ok allowed) cache = (
  verdict (record { allowed = allowed; checked_at = now }),
  put cache address (record { allowed = allowed; checked_at = now }),
)

unfoldable pub look_up :
    String → ℕ → List (Result Bool) → Option MembershipResult → Cache → Result ℕ × Cache
unfolding verdict record_check check_groups
look_up address now results none cache = record_check address now (check_groups results) cache
look_up address now results (some cached) cache =
    if ltb now (cached.checked_at + membership_cache)
    then (verdict cached, cache)
    else record_check address now (check_groups results) cache

-- `authorize`, where no other thread is checking the same address; `results` is what the groups'
-- checks return if they are made.
unfoldable pub authorize : String → String → ℕ → List (Result Bool) → Cache → Result ℕ × Cache
unfolding look_up
authorize mode address now results cache =
    if mode == "public"
    then (ok now, cache)
    else look_up address now results (get cache address) cache

-- The metadata of a session about its last check.
pub record Access : Type 0 where
  pub checked_at : Option ℕ
  pub policy_revision : Option String

pub record AccessConfig : Type 0 where
  pub access_mode : String
  pub revision : String
  pub access_revalidate_interval : ℕ
  pub access_outage_grace : ℕ

-- The last check was made under the present policy, less than `interval` ago; or no more than
-- `grace`.
unfoldable pub is_recent : AccessConfig → Access → ℕ → Bool
is_recent config a now = elim a.checked_at [
  | none ↦ false
  | some t ↦
      is_some a.policy_revision config.revision && ltb now (t + config.access_revalidate_interval)
]

unfoldable pub is_in_grace : AccessConfig → Access → ℕ → Bool
is_in_grace config a now = elim a.checked_at [
  | none ↦ false
  | some t ↦ is_some a.policy_revision config.revision && leb now (t + config.access_outage_grace)
]

-- except GroupAccessUnavailable
abbrev pub is_unavailable : Error → Bool
is_unavailable access_unavailable = true
is_unavailable _ = false

unfoldable pub refreshed : AccessConfig → Access → ℕ → Result ℕ → Result (Unit {0}) × Access
refreshed config a now (ok t) =
    (ok tt, record { checked_at = some t; policy_revision = some config.revision })
refreshed config a now (err e) =
    if is_unavailable e && is_in_grace config a now then (ok tt, a) else (err e, a)

-- `require_authorized`, with the metadata and the cache after it.
unfoldable pub require_authorized :
    AccessConfig
    → String
    → Access
    → ℕ
    → List (Result Bool)
    → Cache
    → (Result (Unit {0}) × Access) × Cache
unfolding is_recent refreshed authorize
require_authorized config address a now results cache =
    if config.access_mode == "public"
    then ((ok tt, a), cache)
    else if is_recent config a now
    then ((ok tt, a), cache)
    else let (answer, next) = authorize config.access_mode address now results cache in
      (refreshed config a now answer, next)
