-- ===== src/Reticulum/Server/Invariant/Messages.antt =====
-- The invariant under the messages of logical connections.
use call_backend.Prelude.{
  ℕ, ◌≤◌, ◌<◌, String, Bool, true, false, ◌≡◌, refl, sym, subst, ◌∙◌, ap, Option, none, some, List,
  [], ◌∷◌, if◌then◌else◌, ◌==◌, nat_eq, string_eq, ==_iff, eq_refl, if_cases, arith, count, length,
  length-append, inl, inr, Result, ok, err,
}
use call_backend.Prelude.Stateful.{Post}
use call_backend.Dict.{get, put, values, get-put, put-put}
use call_backend.Dict.Retain.{count-put-le}
use call_backend.Value.{Value, text, as_text}
use call_backend.Reticulum.Sessions.{Session, SessionManager, seen_message}
use call_backend.Reticulum.Sessions.Manager.{provisional_count, keep, create}
use call_backend.Reticulum.Server.{
  Link, Limits, Server, logical_id_of, admit, admit_recent, recent_times,
}
use call_backend.Reticulum.Server.Events.Messages.{
  Incoming, Dispatch, admit_on, open_session, claim_session, deliver, active_elsewhere,
}
use call_backend.Reticulum.Server.Invariant.{Sound, Keyed, put-Keyed, Known, LinkFits}
use call_backend.Reticulum.Server.Invariant.Removing.{unlink-AllFit}
use call_backend.Reticulum.Server.Invariant.Updating.{update-Sound, touch-Sound}
use call_backend.Reticulum.Server.Invariant.Disconnecting.{put_link-Sound}

recent_times-le : (now : ℕ) (ts : List ℕ) → length (recent_times now ts) ≤ length ts
unfolding recent_times
recent_times-le now [] = omega arith
recent_times-le now (t ∷ ts) = ground (arith, recent_times-le now ts)

-- An admission keeps the limits on the link, whether it succeeds or not.
pub admit-LinkFits :
    (limits : Limits) (logical_id : String) (creating : Bool) (now : ℕ) (l : Link)
    → LinkFits limits l
    → LinkFits limits (admit limits logical_id creating now l).1
unfolding admit admit_recent
admit-LinkFits limits logical_id creating now l fits = record {
  ids = ground (arith, fits.ids);
  times = ground (
    arith,
    fits.times,
    recent_times-le now l.new_logical_session_times,
    length-append (recent_times now l.new_logical_session_times) (now ∷ []),
  );
}

-- The state after an admission.
abbrev pub Admitted : Server → Unit {0} → Server → Type 0
Admitted v _ w = Sound [] w × (w.manager ≡ v.manager) × (w.limits ≡ v.limits)

pub admit_on-Post :
    (c : String) (creating : Bool) (now : ℕ) (logical_id : String) (v : Server) (o : Option Link)
    → get v.links c ≡ o
    → Sound [] v
    → Post (Admitted v) (Sound []) (admit_on c creating now logical_id o v)
admit_on-Post c creating now logical_id v none e sound = (sound, refl, refl)
admit_on-Post c creating now logical_id v (some l) e sound =
    let (r, l') = admit v.limits logical_id creating now l in
    by_result r l' (admit-LinkFits v.limits logical_id creating now l (sound.fits c l e))
  where
    by_result :
        (r : Result (Unit {0})) (l' : Link)
        → LinkFits v.limits l'
        → Post (Admitted v) (Sound []) (r, record v { links = put v.links c l' })
    by_result (ok a) l' fits = (put_link-Sound c l' v fits sound, refl, refl)
    by_result (err a) l' fits = put_link-Sound c l' v fits sound

-- A session with its entry in the table.
abbrev pub InTable : Session → Server → Type 0
InTable s v = Sound [] v × (get v.manager.sessions s.session_id ≡ some s)

-- A session under an unused id, with its entry in the index.
new_session-Sound :
    (v : Server) (s : Session) (logical_id : String) (n : SessionManager)
    → get v.manager.sessions s.session_id ≡ none
    → n.sessions ≡ put v.manager.sessions s.session_id s
    → logical_id_of s ≡ some logical_id
    → provisional_count v.manager < v.limits.max_unauthenticated_sessions
    → Sound [] v
    → Sound [] (record v {
      manager = n;
      logical_sessions = put v.logical_sessions logical_id s.session_id;
    })
new_session-Sound v s logical_id n fresh written named room sound = record {
  keyed = subst Keyed (sym written) (put-Keyed v.manager.sessions s sound.keyed);
  capacity =
      unfold provisional_count in
      ground (
        arith,
        room,
        ap (λ d. count (λ y. y.provisional) (values d)) written,
        count-put-le (λ y. y.provisional) v.manager.sessions s.session_id s,
      );
  fits = sound.fits;
  indexed = λ at id h.
      by_entry at id (logical_id == at) refl
        (sym (get-put v.logical_sessions logical_id s.session_id at) ∙ h);
  served = λ id transport h. let (y, known) = sound.served id transport h in (y, still id y known);
}
  where
    still : (id : String) (y : Session) → Known [] v.manager id y → Known [] n id y
    still id y (inr (never, _)) = absurd (ground arith)
    still id y (inl at) = inl (
        ground (
          arith,
          ap (λ d. get d id) written,
          get-put v.manager.sessions s.session_id s id,
          ==_iff s.session_id id,
          at,
          fresh,
        ))

    by_entry :
        (at id : String) (b : Bool)
        → (logical_id == at) ≡ b
        → (if b then some s.session_id else get v.logical_sessions at) ≡ some id
        → (y : Session) × Known [] n id y × (logical_id_of y ≡ some at)
    by_entry at id true same h = (
      s,
      inl (
          ground (
            arith,
            ap (λ d. get d id) written,
            get-put v.manager.sessions s.session_id s id,
            ==_iff s.session_id id,
          )),
      named ∙ ap some ((==_iff logical_id at).0 same),
    )
    by_entry at id false other h =
        let (y, known, indexed) = sound.indexed at id h in (y, still id y known, indexed)

logical_id_named :
    (logical_id : String) (s : Session)
    → as_text (get (put s.metadata "qapp_connection_id" (text logical_id)) "qapp_connection_id")
      ≡ some logical_id
unfolding as_text
logical_id_named logical_id s =
    ap as_text (get-put s.metadata "qapp_connection_id" (text logical_id) "qapp_connection_id")

pub open_session-Post :
    (m : Incoming) (now : ℕ) (v : Server)
    → get v.manager.sessions m.fresh_id ≡ none
    → provisional_count v.manager < v.limits.max_unauthenticated_sessions
    → Sound [] v
    → Post InTable (Sound []) (open_session m now v)
unfolding open_session create keep
open_session-Post m now v fresh room sound =
    let created : Session =
      (create m.fresh_id m.fresh_digest (some m.connection) now true v.manager).0 in
    let named : Session = record created {
      metadata = put created.metadata "qapp_connection_id" (text m.logical_id);
    } in
    (
      new_session-Sound v named m.logical_id _ fresh
          (put-put v.manager.sessions m.fresh_id created named)
          (logical_id_named m.logical_id created) room sound,
      ground (
        arith,
        get-put (put v.manager.sessions m.fresh_id created) m.fresh_id named m.fresh_id,
        eq_refl m.fresh_id,
      ),
    )

pub claim_session-Post :
    (m : Incoming) (s : Session) (v : Server)
    → InTable s v
    → Post InTable (Sound []) (claim_session m s v)
unfolding claim_session keep
claim_session-Post m s v (sound, here) =
    let moved : Session = record s { connection = some m.connection } in
    if_cases (Post InTable (Sound [])) (active_elsewhere v s.connection m.connection)
      (λ _. record {
        keyed = sound.keyed;
        capacity = sound.capacity;
        fits = unlink-AllFit v.limits m.logical_id (some m.connection) v.links sound.fits;
        indexed = sound.indexed;
        served = sound.served;
      })
      λ _. (
        update-Sound v s moved _ here
            (record { same_id = refl; same_index = refl; no_less = λ p. p }) refl sound,
        ground (
          arith,
          get-put v.manager.sessions s.session_id moved s.session_id,
          eq_refl s.session_id,
        ),
      )

pub deliver-Sound :
    (handler : String) (message : Value) (id now : ℕ) (s : Session) (v : Server)
    → InTable s v
    → Sound [] (deliver handler message id now s v).1
unfolding deliver keep
deliver-Sound handler message id now s v (sound, here) =
    let (seen, dedup) = seen_message v.manager.dedup_limit id s.dedup in
    let noted : Session = record s { dedup = dedup } in
    let kept : Sound [] (record v { manager = keep noted v.manager }) =
      update-Sound v s noted _ here (record { same_id = refl; same_index = refl; no_less = λ p. p })
        refl sound in
    if_cases {A = Result (Option Dispatch) × Server} (λ r. Sound [] r.1) seen (λ _. kept)
      λ _. touch-Sound s.session_id now (record v { manager = keep noted v.manager }) kept
