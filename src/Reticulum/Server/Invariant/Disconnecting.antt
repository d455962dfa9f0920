-- ===== src/Reticulum/Server/Invariant/Disconnecting.antt =====
-- The invariant at the end of a logical or of a physical connection.
use call_backend.Prelude.{
  ℕ, ◌+◌, String, true, not, ◌≡◌, refl, sym, subst, ◌∙◌, ap, Option, none, some, List, [], ◌∷◌,
  nat_eq, string_eq, if_cases, arith, inl, inr, leb, is_some,
}
use call_backend.Dict
use call_backend.Dict.{Dict, get, put, retain, values, get-put, get-remove}
use call_backend.Reticulum.Sessions.{Session, SessionManager}
use call_backend.Reticulum.Sessions.Manager.{
  keep, store, touch, touch_found, persist, persist_found,
}
use call_backend.Reticulum.Server.{
  Link, Limits, Server, logical_id_of, cut_transport, remove_indexes, session_of, then_get,
}
use call_backend.Reticulum.Server.Events.{
  lose_connection, disconnect_found, disconnect_logical, disconnect_all, closed_link, close_found,
  connection_closed,
}
use call_backend.Reticulum.Server.Invariant.{Sound, get-Keyed, LinkFits}
use call_backend.Reticulum.Server.Invariant.Removing.{put-AllFit}
use call_backend.Reticulum.Server.Invariant.Leaving.{
  Elsewhere, leave-Sound, manager-remove_indexes, handed_over-Sound, discard_session-Sound,
}
use call_backend.Reticulum.Server.Invariant.Updating.{put_apart}

touch_apart :
    (s : Session) (v : Server) (now : ℕ) (m : SessionManager)
    → Elsewhere s v m
    → Elsewhere s v (touch s.session_id now m)
unfolding touch touch_found keep store
touch_apart s v now m apart = by_found (get m.sessions s.session_id) refl
  where
    by_found :
        (o : Option Session) → get m.sessions s.session_id ≡ o → Elsewhere s v (touch_found now o m)
    by_found none e = apart
    by_found (some y) e =
        let named = get-Keyed m.sessions s.session_id y apart.keys e in
        let written : (x : Session)
            → put m.sessions y.session_id x ≡ put m.sessions s.session_id x =
          λ x. ap (λ k. put m.sessions k x) named in
        if_cases (Elsewhere s v) y.provisional
          (λ _.
            put_apart s (record y { last_seen = now }) y v m _ e (λ p. p) (written _) named apart)
          λ _.
            if_cases (Elsewhere s v) (leb (y.last_persisted_at + m.persist_interval) now)
              (λ _.
                put_apart s
                  (record y { last_seen = now; expires_at = now + m.ttl; last_persisted_at = now })
                  y v m _ e (λ p. p) (written _) named apart)
              λ _.
                put_apart s (record y { last_seen = now; expires_at = now + m.ttl }) y v m _ e
                  (λ p. p) (written _) named apart

persist_apart :
    (s : Session) (v : Server) (m : SessionManager)
    → Elsewhere s v m
    → Elsewhere s v (persist s.session_id m)
unfolding persist persist_found store
persist_apart s v m apart = by_found (get m.sessions s.session_id) refl
  where
    by_found :
        (o : Option Session) → get m.sessions s.session_id ≡ o → Elsewhere s v (persist_found o m)
    by_found none e = apart
    by_found (some y) e =
        let named = get-Keyed m.sessions s.session_id y apart.keys e in
        if_cases (Elsewhere s v) y.provisional (λ _. apart)
          λ _.
            put_apart s (record y { last_persisted_at = y.last_seen }) y v m _ e (λ p. p)
              (ap (λ k. put m.sessions k (record y { last_persisted_at = y.last_seen })) named)
              named apart

idle_apart :
    (s x : Session) (v : Server)
    → Sound [] v
    → get v.manager.sessions s.session_id ≡ some s
    → x.session_id ≡ s.session_id
    → (x.provisional ≡ true → s.provisional ≡ true)
    → Elsewhere s v (keep x v.manager)
unfolding keep
idle_apart s x v sound here named no_less =
    put_apart s x s v v.manager (keep x v.manager) here no_less
      (ap (λ k. put v.manager.sessions k x) named) named
      (record { keys = sound.keyed; room = sound.capacity; others = λ id other. refl })

pub lose_connection-Sound :
    (digest : String → String) (now : ℕ) (s : Session) (v : Server)
    → get v.manager.sessions s.session_id ≡ some s
    → Sound [] v
    → Sound [] (lose_connection digest now s v)
unfolding lose_connection
lose_connection-Sound digest now s v here sound =
    let idle : Session = record s {
      metadata = Dict.remove s.metadata "qapp_connection_id";
      connection = none;
    } in
    handed_over-Sound [] _ _ (
      subst
        (λ m. Sound [] (record (remove_indexes s (cut_transport digest now s v)) {
          manager = persist s.session_id (touch s.session_id now (keep idle m));
        }))
        (sym (manager-remove_indexes digest now s v))
        (leave-Sound digest now s v _ here
          (persist_apart s v _
            (touch_apart s v now _ (idle_apart s idle v sound here refl (λ p. p))))
          sound))

-- The index leads to the session of the table.
pub session_of-found :
    (logical_id : String) (v : Server) (s : Session)
    → Sound [] v
    → session_of logical_id v ≡ some s
    → (get v.manager.sessions s.session_id ≡ some s) × (logical_id_of s ≡ some logical_id)
unfolding session_of
session_of-found logical_id v s sound = by_entry (get v.logical_sessions logical_id) refl
  where
    by_entry :
        (o : Option String)
        → get v.logical_sessions logical_id ≡ o
        → then_get o (get v.manager.sessions) ≡ some s
        → (get v.manager.sessions s.session_id ≡ some s) × (logical_id_of s ≡ some logical_id)
    by_entry none e h = absurd (ground arith)
    by_entry (some id) e h =
        let (x, known, named) = sound.indexed logical_id id e in
        (
          ap (get v.manager.sessions) (get-Keyed v.manager.sessions id s sound.keyed h) ∙ h,
          elim known [
            | inl at ↦ let e : s ≡ x = ground arith in ap logical_id_of e ∙ named
            | inr (never, _) ↦ absurd (ground arith)
          ],
        )

pub disconnect_logical-Sound :
    (digest : String → String) (now : ℕ) (c logical_id : String) (v : Server)
    → Sound [] v
    → Sound [] (disconnect_logical digest now c logical_id v)
unfolding disconnect_logical disconnect_found
disconnect_logical-Sound digest now c logical_id v sound = by_found (session_of logical_id v) refl
  where
    by_found :
        (o : Option Session)
        → session_of logical_id v ≡ o
        → Sound [] (disconnect_found digest now c o v)
    by_found none e = sound
    by_found (some s) e =
        let (here, _) = session_of-found logical_id v s sound e in
        if_cases (Sound []) (not (is_some s.connection c)) (λ _. sound)
          λ _.
            if_cases (Sound []) s.provisional (λ _. discard_session-Sound digest now s v here sound)
              λ _. lose_connection-Sound digest now s v here sound

disconnect_all-Sound :
    (digest : String → String) (now : ℕ) (c : String) (ids : List String) (v : Server)
    → Sound [] v
    → Sound [] (disconnect_all digest now c ids v)
unfolding disconnect_all
disconnect_all-Sound digest now c [] v sound = sound
disconnect_all-Sound digest now c (i ∷ ids) v sound =
    disconnect_all-Sound digest now c ids _ (disconnect_logical-Sound digest now c i v sound)

-- A link that fits may be written.
pub put_link-Sound :
    (c : String) (l : Link) (v : Server)
    → LinkFits v.limits l
    → Sound [] v
    → Sound [] (record v { links = put v.links c l })
put_link-Sound c l v fits sound = record {
  keyed = sound.keyed;
  capacity = sound.capacity;
  fits = put-AllFit v.limits v.links c l sound.fits fits;
  indexed = sound.indexed;
  served = sound.served;
}

closed_link-LinkFits : (limits : Limits) → LinkFits limits closed_link
unfolding closed_link
closed_link-LinkFits limits = record { ids = omega arith; times = omega arith }

pub connection_closed-Sound :
    (digest : String → String) (now : ℕ) (c : String) (v : Server)
    → Sound [] v
    → Sound [] (connection_closed digest now c v)
unfolding connection_closed
connection_closed-Sound digest now c v sound = by_link (get v.links c) refl
  where
    by_link : (o : Option Link) → get v.links c ≡ o → Sound [] (close_found digest now c o v)
    by_link none e = sound
    by_link (some l) e =
        let old = sound.fits c l e in
        put_link-Sound c closed_link _ (closed_link-LinkFits _) (
          disconnect_all-Sound digest now c l.logical_connection_ids _ (
            put_link-Sound c (record l { closed = true }) v
              (record { ids = old.ids; times = old.times }) sound))
