-- ===== src/Reticulum/Server/Invariant/Leaving.antt =====
-- The invariant under expiry, discarding, revocation and the end of a connection.
use call_backend.Prelude.{
  ℕ, ◌≤◌, String, Bool, true, not, ◌≡◌, ◌≢◌, refl, sym, subst, ◌∙◌, ap, Option, none, some, List,
  [], ◌∷◌, ◌++◌, ◌==◌, nat_eq, string_eq, ==_iff, if_cases, arith, filter, inl, inr, Bool-cases,
}
use call_backend.Dict.{Dict, get, values, get-remove}
use call_backend.Dict.Retain.{get-retain-some, count-retain-le, count-remove-le}
use call_backend.Reticulum.Sessions.{Session, SessionManager}
use call_backend.Reticulum.Sessions.Manager.{
  provisional_count, expire, is_expired, discard, discard_found,
}
use call_backend.Reticulum.Server.{
  Server, logical_id_of, cut_transport, indexed_by, remove_named, remove_indexes, discard_session,
  drop_expired, expire_sessions, revoke_found, revoke_session,
}
use call_backend.Reticulum.Server.Invariant.{
  Sound, Keyed, get-Keyed, retain-Keyed, remove-Keyed, Known, Among,
}
use call_backend.Reticulum.Server.Invariant.Removing.{remove_indexes-Sound}

-- A session of the table that a test selects is among the selected values.
selected :
    (p : Session → Bool) (d : Dict String Session) (k : String) (s : Session)
    → get d k ≡ some s
    → p s ≡ true
    → Among s (filter p (values d))
unfolding get filter
selected p [] k s h t = absurd (ground arith)
selected p ((j, x) ∷ d) k s h t =
    if_cases (Among s) (p x)
      (λ passes. elim (Bool-cases (j == k)) [
        | inl same ↦ inl (ground arith)
        | inr other ↦ inr (selected p d k s (ground arith) t)
      ])
      λ fails. selected p d k s (ground arith) t

expired-Known :
    (now : ℕ) (m : SessionManager) (id : String) (s : Session)
    → Keyed m.sessions
    → Known [] m id s
    → Known (expire now m).0 (expire now m).1 id s
unfolding expire
expired-Known now m id s keyed (inr (never, _)) = absurd (ground arith)
expired-Known now m id s keyed (inl here) = elim (Bool-cases (is_expired now s)) [
  | inl late ↦
      inr
        (selected (is_expired now) m.sessions id s here late, get-Keyed m.sessions id s keyed here)
  | inr early ↦ inl (get-retain-some (λ x. not (is_expired now x)) m.sessions id s here (rw early))
]

expire-Sound :
    (now : ℕ) (v : Server)
    → Sound [] v
    → Sound (expire now v.manager).0 (record v { manager = (expire now v.manager).1 })
expire-Sound now v sound = record {
  keyed =
      unfold expire in retain-Keyed (λ s. not (is_expired now s)) v.manager.sessions sound.keyed;
  capacity =
      unfold expire provisional_count in
      ground (
        arith,
        sound.capacity,
        count-retain-le (λ s. s.provisional) (λ s. not (is_expired now s)) v.manager.sessions,
      );
  fits = sound.fits;
  indexed = λ at id h.
      let (s, known, named) = sound.indexed at id h in
      (s, expired-Known now v.manager id s sound.keyed known, named);
  served = λ id transport h.
      let (s, known) = sound.served id transport h in
      (s, expired-Known now v.manager id s sound.keyed known);
}

drop_expired-Sound :
    (digest : String → String) (now : ℕ) (gone : List Session) (v : Server)
    → Sound gone v
    → Sound [] (drop_expired digest now gone v)
unfolding drop_expired
drop_expired-Sound digest now [] v sound = sound
drop_expired-Sound digest now (s ∷ ss) v sound =
    drop_expired-Sound digest now ss _ (remove_indexes-Sound digest now s ss v sound)

pub expire_sessions-Sound :
    (digest : String → String) (now : ℕ) (v : Server)
    → Sound [] v
    → Sound [] (expire_sessions digest now v)
unfolding expire_sessions
expire_sessions-Sound digest now v sound =
    drop_expired-Sound digest now (expire now v.manager).0
      (record v { manager = (expire now v.manager).1 }) (expire-Sound now v sound)

-- A manager that differs at the key of `s` only.
pub record Elsewhere (s : Session) (v : Server) (m : SessionManager) : Type 0 where
  pub keys : Keyed m.sessions
  pub room : provisional_count m ≤ v.limits.max_unauthenticated_sessions
  pub others : (id : String) → s.session_id ≢ id → get m.sessions id ≡ get v.manager.sessions id

leaving-Known :
    (s : Session) (v : Server) (m : SessionManager) (id : String) (x : Session)
    → get v.manager.sessions s.session_id ≡ some s
    → Elsewhere s v m
    → Known [] v.manager id x
    → Known (s ∷ []) m id x
leaving-Known s v m id x here apart (inr (never, _)) = absurd (ground arith)
leaving-Known s v m id x here apart (inl at) = elim (Bool-cases (s.session_id == id)) [
  | inl same ↦
      let e : s ≡ x = ground (arith, ==_iff s.session_id id) in
      inr (inl e, ap (λ y. y.session_id) (sym e) ∙ (==_iff s.session_id id).0 same)
  | inr other ↦ inl (apart.others id ((λ e. absurd (ground (arith, ==_iff s.session_id id)))) ∙ at)
]

leaving-Sound :
    (s : Session) (v : Server) (m : SessionManager)
    → get v.manager.sessions s.session_id ≡ some s
    → Elsewhere s v m
    → Sound [] v
    → Sound (s ∷ []) (record v { manager = m })
leaving-Sound s v m here apart sound = record {
  keyed = apart.keys;
  capacity = apart.room;
  fits = sound.fits;
  indexed = λ at id h.
      let (x, known, named) = sound.indexed at id h in
      (x, leaving-Known s v m id x here apart known, named);
  served = λ id transport h.
      let (x, known) = sound.served id transport h in
      (x, leaving-Known s v m id x here apart known);
}

-- The manager may change before the indexes or after them.
manager_later :
    (digest : String → String) (now : ℕ) (s : Session) (v : Server) (m : SessionManager)
    → record (remove_indexes s (cut_transport digest now s v)) { manager = m }
      ≡ remove_indexes s (cut_transport digest now s (record v { manager = m }))
unfolding remove_indexes remove_named cut_transport
manager_later digest now s v m = by_id (logical_id_of s)
  where
    by_id :
        (o : Option String)
        → record (indexed_by o s (cut_transport digest now s v)) { manager = m }
          ≡ indexed_by o s (cut_transport digest now s (record v { manager = m }))
    by_id none = refl
    by_id (some i) = refl

pub manager-remove_indexes :
    (digest : String → String) (now : ℕ) (s : Session) (v : Server)
    → (remove_indexes s (cut_transport digest now s v)).manager ≡ v.manager
unfolding remove_indexes remove_named cut_transport
manager-remove_indexes digest now s v = by_id (logical_id_of s)
  where
    by_id :
        (o : Option String) → (indexed_by o s (cut_transport digest now s v)).manager ≡ v.manager
    by_id none = refl
    by_id (some i) = refl

-- The invariant does not look at what was handed over.
pub handed_over-Sound :
    (gone : List Session) (v : Server) (handed : List String)
    → Sound gone v
    → Sound gone (record v { handed_over = handed })
handed_over-Sound gone v handed sound = record {
  keyed = sound.keyed;
  capacity = sound.capacity;
  fits = sound.fits;
  indexed = sound.indexed;
  served = sound.served;
}

-- A session of the table leaves the indexes while the manager changes it alone.
pub leave-Sound :
    (digest : String → String) (now : ℕ) (s : Session) (v : Server) (m : SessionManager)
    → get v.manager.sessions s.session_id ≡ some s
    → Elsewhere s v m
    → Sound [] v
    → Sound [] (record (remove_indexes s (cut_transport digest now s v)) { manager = m })
leave-Sound digest now s v m here apart sound =
    subst (Sound []) (sym (manager_later digest now s v m)) (
      remove_indexes-Sound digest now s [] (record v { manager = m })
        (leaving-Sound s v m here apart sound))

discard-Elsewhere :
    (s : Session) (v : Server)
    → Sound [] v
    → get v.manager.sessions s.session_id ≡ some s
    → Elsewhere s v (discard s.session_id v.manager)
unfolding discard discard_found provisional_count
discard-Elsewhere s v sound here = rw here (record {
  keys = remove-Keyed v.manager.sessions s.session_id sound.keyed;
  room =
      omega (
        arith,
        sound.capacity,
        count-remove-le (λ x. x.provisional) v.manager.sessions s.session_id,
      );
  others = λ id other.
      ground (arith, get-remove v.manager.sessions s.session_id id, ==_iff s.session_id id, other);
})

pub discard_session-Sound :
    (digest : String → String) (now : ℕ) (s : Session) (v : Server)
    → get v.manager.sessions s.session_id ≡ some s
    → Sound [] v
    → Sound [] (discard_session digest now s v)
unfolding discard_session
discard_session-Sound digest now s v here sound =
    subst
      (λ m. Sound [] (record (remove_indexes s (cut_transport digest now s v)) {
        manager = discard s.session_id m;
      }))
      (sym (manager-remove_indexes digest now s v))
      (leave-Sound digest now s v (discard s.session_id v.manager) here
        (discard-Elsewhere s v sound here) sound)

pub revoke_session-Sound :
    (digest : String → String) (now : ℕ) (session : String) (v : Server)
    → Sound [] v
    → Sound [] (revoke_session digest now session v)
unfolding revoke_session
revoke_session-Sound digest now session v sound = by_found (get v.manager.sessions session) refl
  where
    by_found :
        (o : Option Session)
        → get v.manager.sessions session ≡ o
        → Sound [] (revoke_found digest now o v)
    by_found none e = sound
    by_found (some s) e =
        discard_session-Sound digest now s
          (record v { handed_over = v.handed_over ++ s.session_id ∷ [] })
          (ap (get v.manager.sessions) (get-Keyed v.manager.sessions session s sound.keyed e) ∙ e)
          (handed_over-Sound [] v _ sound)
