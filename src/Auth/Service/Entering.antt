-- ===== src/Auth/Service/Entering.antt =====
-- Who becomes an account's session, and who stops being one.
use call_backend.Prelude.{
  ℕ, String, false, ◌≡◌, ◌≢◌, refl, sym, ◌∙◌, ap, Option, none, some, string_eq, ==_iff, eq_refl,
  arith, Result, ok, err, ◌⊎◌, inl, inr,
}
use call_backend.Dict.{get, put, get-put, put-put}
use call_backend.Value.{Value, array, cons, nil, text}
use call_backend.Auth.Groups.{authorize}
use call_backend.Auth.Identity.{Identity, verify}
use call_backend.Auth.Service.{
  World, AuthService, prove, proof_of, authenticate, enter_proved, enter_allowed, enter_found,
  identified, with_access,
}
use call_backend.Reticulum.Sessions.{Session, SessionManager}
use call_backend.Reticulum.Sessions.Manager.{
  keep, store, promote, promote_found, promoted, persist, persist_found,
}
use call_backend.Reticulum.Server.Invariant.{Keyed, get-Keyed}

sessions-promote :
    (id user : String) (now : ℕ) (m : SessionManager) (s : Session)
    → get m.sessions id ≡ some s
    → (promote id user now m).1.sessions ≡ put m.sessions s.session_id (promoted user now m.ttl s)
unfolding promote promote_found promoted store
sessions-promote id user now m s h = rw h refl

sessions-persist :
    (id : String) (m : SessionManager) (s : Session)
    → get m.sessions id ≡ some s
    → s.provisional ≡ false
    → (persist id m).sessions
      ≡ put m.sessions s.session_id (record s { last_persisted_at = s.last_seen })
unfolding persist persist_found store
sessions-persist id m s h established = rw (h, established) refl

-- What an authentication of `session` rests on and leaves.
pub record Entered (w : World) (session : String) (message : Value) (a b : AuthService)
    : Type 0 where
  pub proof : Value
  pub read : proof_of message ≡ ok proof
  pub address : String
  pub public_key : String
  pub qapp : Identity
  pub verified : (verify w.outside w.now proof a.verifier).0 ≡ ok (address, public_key, qapp)
  pub checked_at : ℕ
  pub allowed :
      (authorize w.config.access_mode address w.now (w.results address) a.cache).0 ≡ ok checked_at
  pub s : Session
  pub found : get b.server.manager.sessions session ≡ some s
  pub account : s.authenticated_user ≡ some address
  pub established : s.provisional ≡ false
  pub named :
      get s.metadata "qapp_identity"
      ≡ some (array (cons (text qapp.name) (cons (text qapp.service) nil)))
  pub others :
      (id : String)
      → session ≢ id
      → get b.server.manager.sessions id ≡ get a.server.manager.sessions id

-- The table after the three writes of an authentication.
entered_table :
    (m : SessionManager) (x : Session) (address : String) (now : ℕ)
    → (y : Session) × ((persist x.session_id
          (promote x.session_id address now (keep x m)).1).sessions
        ≡ put m.sessions x.session_id y)
      × (y.authenticated_user ≡ some address)
      × (y.provisional ≡ false)
      × (y.metadata ≡ x.metadata)
unfolding promoted keep
entered_table m x address now =
    let k = x.session_id in
    let p = promoted address now m.ttl x in
    let y : Session = record p { last_persisted_at = p.last_seen } in
    let kept : get (keep x m).sessions k ≡ some x =
      ground (arith, get-put m.sessions x.session_id x x.session_id, eq_refl x.session_id) in
    let second = sessions-promote k address now (keep x m) x kept in
    let there : get (promote k address now (keep x m)).1.sessions k ≡ some p =
      ap (λ d. get d k) second ∙ ground (arith, get-put (put m.sessions k x) k p k, eq_refl k) in
    (
      y,
      sessions-persist k (promote k address now (keep x m)).1 p there refl
          ∙ ap (λ d. put d k y) second
          ∙ put-put (put m.sessions k x) k p y
          ∙ put-put m.sessions k x y,
      refl,
      refl,
      refl,
    )

identified_named :
    (qapp : Identity) (checked_at : ℕ) (revision : String) (s : Session)
    → get (identified qapp checked_at revision s).metadata "qapp_identity"
      ≡ some (array (cons (text qapp.name) (cons (text qapp.service) nil)))
unfolding identified with_access
identified_named qapp checked_at revision s =
    get-put _ "group_access_policy_revision" _ "qapp_identity"
    ∙ get-put _ "group_access_checked_at" _ "qapp_identity"
    ∙ get-put s.metadata "qapp_identity" _ "qapp_identity"

enter_found-Entered :
    (w : World) (session : String) (message proof : Value) (address public_key : String)
    (qapp : Identity) (checked_at : ℕ) (s : Session) (a b : AuthService)
    → proof_of message ≡ ok proof
    → (verify w.outside w.now proof a.verifier).0 ≡ ok (address, public_key, qapp)
    → (authorize w.config.access_mode address w.now (w.results address) a.cache).0 ≡ ok checked_at
    → b.server ≡ a.server
    → s.session_id ≡ session
    → Entered w session message a (enter_found w address qapp checked_at (some s) b).1
unfolding enter_found
enter_found-Entered w session message proof address public_key qapp checked_at s a b read verified
      allowed same here =
    let x = identified qapp checked_at w.config.revision s in
    let (y, table, account, established, metadata) =
      entered_table b.server.manager x address w.now in
    let key : x.session_id ≡ session = unfold identified with_access in here in
    record {
      proof = proof;
      read = read;
      address = address;
      public_key = public_key;
      qapp = qapp;
      verified = verified;
      checked_at = checked_at;
      allowed = allowed;
      s = y;
      found =
          ap (λ d. get d session) table
          ∙ ground (
            arith,
            get-put b.server.manager.sessions s.session_id y session,
            ==_iff s.session_id session,
            here,
          );
      account = account;
      established = established;
      named =
          ap (λ d. get d "qapp_identity") metadata
          ∙ identified_named qapp checked_at w.config.revision s;
      others = λ id other.
          ap (λ d. get d id) table
          ∙ ground (
            arith,
            get-put b.server.manager.sessions s.session_id y id,
            ==_iff s.session_id id,
            other,
            here,
          )
          ∙ ap (λ v. get v.manager.sessions id) same;
    }

-- The stages of an authentication, each with what came before.
allowed_stage :
    (w : World) (session : String) (message proof : Value) (address public_key : String)
    (qapp : Identity) (a b : AuthService) (r : Result ℕ)
    → Keyed a.server.manager.sessions
    → proof_of message ≡ ok proof
    → (verify w.outside w.now proof a.verifier).0 ≡ ok (address, public_key, qapp)
    → (authorize w.config.access_mode address w.now (w.results address) a.cache).0 ≡ r
    → b.server ≡ a.server
    → ((enter_allowed w session address qapp r b).1.server ≡ a.server)
      ⊎ Entered w session message a (enter_allowed w session address qapp r b).1
unfolding enter_allowed enter_found
allowed_stage w session message proof address public_key qapp a b (err e) keyed read verified
      allowed same =
    inl same
allowed_stage w session message proof address public_key qapp a b (ok checked_at) keyed read
      verified allowed same =
    by_found (get b.server.manager.sessions session) refl
  where
    by_found :
        (o : Option Session)
        → get b.server.manager.sessions session ≡ o
        → ((enter_found w address qapp checked_at o b).1.server ≡ a.server)
          ⊎ Entered w session message a (enter_found w address qapp checked_at o b).1
    by_found none e = inl same
    by_found (some s) e = inr (
        enter_found-Entered w session message proof address public_key qapp checked_at s a b read
          verified allowed same
          (get-Keyed a.server.manager.sessions session s keyed
            (ap (λ v. get v.manager.sessions session) (sym same) ∙ e)))

proved_stage :
    (w : World) (session : String) (message proof : Value) (a b : AuthService)
    (r : Result (String × String × Identity))
    → Keyed a.server.manager.sessions
    → proof_of message ≡ ok proof
    → (verify w.outside w.now proof a.verifier).0 ≡ r
    → b.server ≡ a.server
    → b.cache ≡ a.cache
    → ((enter_proved w session r b).1.server ≡ a.server)
      ⊎ Entered w session message a (enter_proved w session r b).1
unfolding enter_proved
proved_stage w session message proof a b (err e) keyed read verified same cached = inl same
proved_stage w session message proof a b (ok (address, public_key, qapp)) keyed read verified same
      cached =
    allowed_stage w session message proof address public_key qapp a _
      (authorize w.config.access_mode address w.now (w.results address) b.cache).0 keyed read
      verified
      (ap (λ c. (authorize w.config.access_mode address w.now (w.results address) c).0)
        (sym cached))
      same

-- An authentication touches the server only for a session of the table, and only where the message
-- carries a proof that the verifier accepts, by an address that the access policy lets in; then this
-- session is established under this address and carries the Q-App of the proof, and no other session
-- changes. In every other case the server stays as it was.
pub authenticate_sound :
    (w : World) (session : String) (message : Value) (a : AuthService)
    → Keyed a.server.manager.sessions
    → ((authenticate w session message a).1.server ≡ a.server)
      ⊎ Entered w session message a (authenticate w session message a).1
unfolding authenticate prove enter_proved
authenticate_sound w session message a keyed = by_message (proof_of message) refl
  where
    by_message :
        (r : Result Value)
        → proof_of message ≡ r
        → ((enter_proved w session
              (prove w r a.verifier).0
              (record a { verifier = (prove w r a.verifier).1 })).1.server
            ≡ a.server)
          ⊎ Entered w session message a
              (enter_proved w session
                (prove w r a.verifier).0
                (record a { verifier = (prove w r a.verifier).1 })).1
    by_message (err e) read = inl refl
    by_message (ok proof) read =
        proved_stage w session message proof a _ (verify w.outside w.now proof a.verifier).0 keyed
          read refl refl refl
