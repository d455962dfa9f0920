-- ===== src/Reticulum/Server/Invariant/Updating.antt =====
-- The invariant where a session of the table is written again, and at the end of a connection.
use call_backend.Prelude.{
  ℕ, ◌+◌, ◌≤◌, String, Bool, true, false, ◌≡◌, refl, sym, subst, ◌∙◌, ap, Option, none, some, [],
  ◌==◌, nat_eq, string_eq, ==_iff, if_cases, arith, count, inl, inr, leb,
}
use call_backend.Dict.{Dict, get, put, values, get-put}
use call_backend.Dict.Retain.{count-put-replaced}
use call_backend.Reticulum.Sessions.{Session, SessionManager}
use call_backend.Reticulum.Sessions.Manager.{provisional_count, keep, store, touch, touch_found}
use call_backend.Reticulum.Server.{Server, logical_id_of}
use call_backend.Reticulum.Server.Invariant.{Sound, Keyed, get-Keyed, put-Keyed, Known}
use call_backend.Reticulum.Server.Invariant.Leaving.{Elsewhere}

-- `x` may stand where `s` stood.
pub record Replaces (s x : Session) : Type 0 where
  pub same_id : x.session_id ≡ s.session_id
  pub same_index : logical_id_of x ≡ logical_id_of s
  pub no_less : x.provisional ≡ true → s.provisional ≡ true

put-capacity :
    (d : Dict String Session) (k : String) (s x : Session)
    → get d k ≡ some s
    → (x.provisional ≡ true → s.provisional ≡ true)
    → count (λ y. y.provisional) (values (put d k x)) ≤ count (λ y. y.provisional) (values d)
put-capacity d k s x here no_less = count-put-replaced (λ y. y.provisional) d k x s here no_less

replaced-Known :
    (d : Dict String Session) (s x : Session) (m n : SessionManager) (id : String) (y : Session)
    → get m.sessions s.session_id ≡ some s
    → Replaces s x
    → n.sessions ≡ put m.sessions s.session_id x
    → Known [] m id y
    → (z : Session) × Known [] n id z × (logical_id_of z ≡ logical_id_of y)
replaced-Known d s x m n id y here r written (inr (never, _)) = absurd (ground arith)
replaced-Known d s x m n id y here r written (inl at) = by_key (s.session_id == id) refl
  where
    by_key :
        (b : Bool)
        → (s.session_id == id) ≡ b
        → (z : Session) × Known [] n id z × (logical_id_of z ≡ logical_id_of y)
    by_key true same =
        let e : s ≡ y = ground (arith, ==_iff s.session_id id) in
        (
          x,
          inl (ground (arith, ap (λ e. get e id) written, get-put m.sessions s.session_id x id)),
          r.same_index ∙ ap logical_id_of e,
        )
    by_key false other = (
      y,
      inl (ground (arith, ap (λ e. get e id) written, get-put m.sessions s.session_id x id)),
      refl,
    )

-- A session is written again.
pub update-Sound :
    (v : Server) (s x : Session) (n : SessionManager)
    → get v.manager.sessions s.session_id ≡ some s
    → Replaces s x
    → n.sessions ≡ put v.manager.sessions s.session_id x
    → Sound [] v
    → Sound [] (record v { manager = n })
update-Sound v s x n here r written sound = record {
  keyed = subst Keyed (sym written) (
      subst (λ k. Keyed (put v.manager.sessions k x)) r.same_id
        (put-Keyed v.manager.sessions x sound.keyed));
  capacity =
      unfold provisional_count in
      omega (
        arith,
        sound.capacity,
        ap (λ d. count (λ y. y.provisional) (values d)) written,
        put-capacity v.manager.sessions s.session_id s x here r.no_less,
      );
  fits = sound.fits;
  indexed = λ at id h.
      let (y, known, named) = sound.indexed at id h in
      let (z, still, same) =
        replaced-Known v.manager.sessions s x v.manager n id y here r written known in
      (z, still, same ∙ named);
  served = λ id transport h.
      let (y, known) = sound.served id transport h in
      let (z, still, _) =
        replaced-Known v.manager.sessions s x v.manager n id y here r written known in
      (z, still);
}

pub touch-Sound :
    (id : String) (now : ℕ) (v : Server)
    → Sound [] v
    → Sound [] (record v { manager = touch id now v.manager })
unfolding touch touch_found keep store
touch-Sound id now v sound = by_found (get v.manager.sessions id) refl
  where
    by_found :
        (o : Option Session)
        → get v.manager.sessions id ≡ o
        → Sound [] (record v { manager = touch_found now o v.manager })
    by_found none e = sound
    by_found (some s) e =
        let here =
          ap (get v.manager.sessions) (get-Keyed v.manager.sessions id s sound.keyed e) ∙ e in
        if_cases (λ m. Sound [] (record v { manager = m })) s.provisional
          (λ _.
            update-Sound v s (record s { last_seen = now }) _ here
              (record { same_id = refl; same_index = refl; no_less = λ p. p }) refl sound)
          λ _.
            if_cases (λ m. Sound [] (record v { manager = m }))
              (leb (s.last_persisted_at + v.manager.persist_interval) now)
              (λ _.
                update-Sound v s
                  (record s {
                    last_seen = now;
                    expires_at = now + v.manager.ttl;
                    last_persisted_at = now;
                  })
                  _ here (record { same_id = refl; same_index = refl; no_less = λ p. p }) refl
                  sound)
              λ _.
                update-Sound v s (record s { last_seen = now; expires_at = now + v.manager.ttl }) _
                  here (record { same_id = refl; same_index = refl; no_less = λ p. p }) refl sound

-- A session under the same id, counted no more, leaves the rest of the table alone.
pub put_apart :
    (s x y : Session) (v : Server) (m n : SessionManager)
    → get m.sessions s.session_id ≡ some y
    → (x.provisional ≡ true → y.provisional ≡ true)
    → n.sessions ≡ put m.sessions s.session_id x
    → x.session_id ≡ s.session_id
    → Elsewhere s v m
    → Elsewhere s v n
put_apart s x y v m n here no_less written named apart = record {
  keys =
      subst Keyed (sym written)
        (subst (λ k. Keyed (put m.sessions k x)) named (put-Keyed m.sessions x apart.keys));
  room =
      unfold provisional_count in
      omega (
        arith,
        apart.room,
        ap (λ d. count (λ z. z.provisional) (values d)) written,
        put-capacity m.sessions s.session_id y x here no_less,
      );
  others = λ id other. ground (
    arith,
    ap (λ e. get e id) written,
    get-put m.sessions s.session_id x id,
    ==_iff s.session_id id,
    apart.others id other,
    other,
  );
}
