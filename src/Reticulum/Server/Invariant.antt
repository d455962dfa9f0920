-- ===== src/Reticulum/Server/Invariant.antt =====
-- The invariant of the server's state, and what a write to one of its parts has to show.
pub mod Removing
pub mod Leaving
pub mod Updating
pub mod Disconnecting
pub mod Messages
pub mod Finding
pub mod Starting
pub mod Attaching
pub mod Rates
pub mod Opening
pub mod Histories
use call_backend.Prelude.{
  ℕ, ◌+◌, ◌≤◌, String, Bool, true, false, ◌≡◌, ◌≢◌, refl, sym, subst, ◌∙◌, ap, Option, none, some,
  List, [], ◌∷◌, if◌then◌else◌, ◌==◌, string_eq, ==_iff, if_cases, arith, length, ◌⊎◌, inl, inr,
}
use call_backend.Dict
use call_backend.Dict.{Dict, get, put, retain, get-put, get-remove}
use call_backend.Reticulum.Sessions.{Session, SessionManager}
use call_backend.Reticulum.Sessions.Manager.{provisional_count}
use call_backend.Reticulum.Server.{Link, Limits, Server, logical_id_of}

-- Every session stands under its own id.
abbrev pub Keyed : Dict String Session → Type 0
Keyed [] = Unit {0}
Keyed ((k, s) ∷ d) = (s.session_id ≡ k) × Keyed d

pub get-Keyed :
    (d : Dict String Session) (k : String) (s : Session)
    → Keyed d
    → get d k ≡ some s
    → s.session_id ≡ k
unfolding get
get-Keyed [] k s keyed h = absurd (ground arith)
get-Keyed ((j, x) ∷ d) k s keyed h = ground (arith, ==_iff j k, keyed.0, get-Keyed d k s keyed.1)

pub put-Keyed : (d : Dict String Session) (s : Session) → Keyed d → Keyed (put d s.session_id s)
unfolding put
put-Keyed [] s keyed = (refl, tt)
put-Keyed ((j, x) ∷ d) s keyed =
    if_cases Keyed (j == s.session_id) (λ _. (refl, keyed.1)) λ _. (keyed.0, put-Keyed d s keyed.1)

pub remove-Keyed : (d : Dict String Session) (k : String) → Keyed d → Keyed (Dict.remove d k)
unfolding Dict.remove
remove-Keyed [] k keyed = tt
remove-Keyed ((j, x) ∷ d) k keyed =
    if_cases Keyed (j == k) (λ _. remove-Keyed d k keyed.1) λ _. (keyed.0, remove-Keyed d k keyed.1)

pub retain-Keyed : (p : Session → Bool) (d : Dict String Session) → Keyed d → Keyed (retain p d)
unfolding retain
retain-Keyed p [] keyed = tt
retain-Keyed p ((j, x) ∷ d) keyed =
    if_cases Keyed (p x) (λ _. (keyed.0, retain-Keyed p d keyed.1)) λ _. retain-Keyed p d keyed.1

-- One of the listed sessions is `s`.
abbrev pub Among : Session → List Session → Type 0
Among s [] = true ≡ false
Among s (x ∷ xs) = (x ≡ s) ⊎ Among s xs

pub record LinkFits (limits : Limits) (l : Link) : Type 0 where
  pub ids : length l.logical_connection_ids ≤ limits.max_logical_sessions_per_link
  pub times : length l.new_logical_session_times ≤ limits.max_new_sessions_per_link_per_minute

abbrev pub AllFit : Limits → Dict String Link → Type 0
AllFit limits links = (c : String) (l : Link) → get links c ≡ some l → LinkFits limits l

-- A session that an index may lead to: in the table, or one of `gone`, which are about to be taken
-- out of the indexes.
abbrev pub Known : List Session → SessionManager → String → Session → Type 0
Known gone m id s = (get m.sessions id ≡ some s) ⊎ (Among s gone × (s.session_id ≡ id))

pub record Sound (gone : List Session) (v : Server) : Type 0 where
  pub keyed : Keyed v.manager.sessions
  pub capacity : provisional_count v.manager ≤ v.limits.max_unauthenticated_sessions
  pub fits : AllFit v.limits v.links
  pub indexed :
      (logical_id id : String)
      → get v.logical_sessions logical_id ≡ some id
      → (s : Session) × Known gone v.manager id s × (logical_id_of s ≡ some logical_id)
  pub served :
      (id transport : String)
      → get v.transport.attached id ≡ some transport
      → (s : Session) × Known gone v.manager id s
