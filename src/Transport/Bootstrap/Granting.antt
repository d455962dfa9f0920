-- ===== src/Transport/Bootstrap/Granting.antt =====
-- What a granted bootstrap rests on, and what becomes of its token.
use call_backend.Prelude.{
  ℕ, String, Bool, true, false, ◌≡◌, refl, sym, ◌∙◌, ap, Option, none, some, string_eq, eq_refl,
  arith, Result, ok, err, if_cases, if◌then◌else◌,
}
use call_backend.Dict.{get, get-put, get-remove}
use call_backend.Transport.Tokens.{AttachGrant, Authority, issue, release}
use call_backend.Transport.Service.{TransportService, MediaGrant, next_write}
use call_backend.Transport.Bootstrap.Issuing.{
  is_realtime, room_of, binding_of, answer_of, write_media_grant, media_grant, handed, hand_over,
  after_issue, issue_token, needed_room, for_room, for_reach,
}
use call_backend.Transport.Bootstrap.Requests.{Outer, Request, Caller, Granted, granted}

-- What a token for `c` is, after `t` became `u`.
pub record Issued (o : Outer) (c : Caller) (r : Request) (t u : TransportService) (g : Granted)
    : Type 0 where
  pub destination : String
  pub endpoint : String
  pub certificate : String
  pub grant : AttachGrant
  pub answered :
      answer_of o r (binding_of o c r destination) destination endpoint certificate grant.expires_at
      ≡ g
  pub issued :
      (issue (binding_of o c r destination) (o.hash o.token) o.world.now t.tokens).0 ≡ ok grant
  pub own :
      is_realtime r ≡ false
      → u.tokens ≡ (issue (binding_of o c r destination) (o.hash o.token) o.world.now t.tokens).1
  pub moved :
      is_realtime r ≡ true
      → (get u.tokens.grants (o.hash o.token) ≡ none)
        × (room : String) × (file : MediaGrant) × (room_of c.session ≡ some room)
        × (get u.grant_files (o.hash o.token) ≡ some file)
        × (file.room_id ≡ room)
        × (file.logical_session_id ≡ grant.logical_session_id)
  pub same_owners : u.attached ≡ t.attached

-- A grant that was handed over to the media relay.
record Moved (o : Outer) (grant : AttachGrant) (room : String) (t u : TransportService)
    (g : Granted) : Type 0 where
  unkept : get u.tokens.grants (o.hash o.token) ≡ none
  file : MediaGrant
  written : get u.grant_files (o.hash o.token) ≡ some file
  in_room : file.room_id ≡ room
  for_session : file.logical_session_id ≡ grant.logical_session_id
  owners : u.attached ≡ t.attached

hand_over-Moved :
    (o : Outer) (answer g : Granted) (grant : AttachGrant) (room : String) (t : TransportService)
    → (hand_over o answer grant room t).0 ≡ ok (granted g)
    → (answer ≡ g) × Moved o grant room t (hand_over o answer grant room t).1 g
unfolding hand_over write_media_grant release
hand_over-Moved o answer g grant room t =
    if_cases {A = Result (Unit {0}) × TransportService}
      (λ p.
        (handed o answer p.0 p.1).0 ≡ ok (granted g)
        → (answer ≡ g) × Moved o grant room t (handed o answer p.0 p.1).1 g)
      (next_write t.disk)
      (λ _ h. (
        ground arith,
        record {
          unkept = ground (
            arith,
            get-remove t.tokens.grants (o.hash o.token) (o.hash o.token),
            eq_refl (o.hash o.token),
          );
          file = media_grant (o.hash o.token) grant room;
          written =
              get-put t.grant_files (o.hash o.token) (media_grant (o.hash o.token) grant room)
                (o.hash o.token)
              ∙ (rw (eq_refl (o.hash o.token)) refl);
          in_room = refl;
          for_session = refl;
          owners = refl;
        },
      ))
      λ _ h. absurd (ground arith)

module _ (o : Outer) (c : Caller) (r : Request) (destination endpoint certificate : String)
    (t : TransportService) (g : Granted) where
  abbrev answer : ℕ → Granted
  answer = answer_of o r (binding_of o c r destination) destination endpoint certificate

  plain-Issued :
      (grant : Result AttachGrant) (tokens : Authority)
      → issue (binding_of o c r destination) (o.hash o.token) o.world.now t.tokens ≡ (grant, tokens)
      → is_realtime r ≡ false
      → (after_issue o answer none grant (record t { tokens = tokens })).0 ≡ ok (granted g)
      → Issued o c r t (after_issue o answer none grant (record t { tokens = tokens })).1 g
  unfolding after_issue
  plain-Issued (err e) tokens issued plain h = absurd (ground arith)
  plain-Issued (ok grant) tokens issued plain h = record {
    destination = destination;
    endpoint = endpoint;
    certificate = certificate;
    grant = grant;
    answered = ground arith;
    issued = ap (λ p. p.0) issued;
    own = λ _. sym (ap (λ p. p.1) issued);
    moved = λ real. absurd (ground (arith, real, plain));
    same_owners = refl;
  }

  moved-Issued :
      (room : String) (grant : Result AttachGrant) (tokens : Authority)
      → issue (binding_of o c r destination) (o.hash o.token) o.world.now t.tokens ≡ (grant, tokens)
      → is_realtime r ≡ true
      → room_of c.session ≡ some room
      → (after_issue o answer (some room) grant (record t { tokens = tokens })).0 ≡ ok (granted g)
      → Issued o c r t (after_issue o answer (some room) grant (record t { tokens = tokens })).1 g
  unfolding after_issue
  moved-Issued room (err e) tokens issued real named h = absurd (ground arith)
  moved-Issued room (ok grant) tokens issued real named h =
      let (same, m) =
        hand_over-Moved o (answer grant.expires_at) g grant room (record t { tokens = tokens }) h in
      record {
        destination = destination;
        endpoint = endpoint;
        certificate = certificate;
        grant = grant;
        answered = same;
        issued = ap (λ p. p.0) issued;
        own = λ plain. absurd (ground (arith, real, plain));
        moved = λ _. (m.unkept, room, m.file, named, m.written, m.in_room, m.for_session);
        same_owners = m.owners;
      }

pub for_reach-Issued :
    (o : Outer) (c : Caller) (r : Request) (reach : Option (String × String × String))
    (t : TransportService) (g : Granted)
    → (for_reach o c r reach t).0 ≡ ok (granted g)
    → Issued o c r t (for_reach o c r reach t).1 g
unfolding for_reach for_room issue_token needed_room answer_of
for_reach-Issued o c r none t g h = absurd (ground arith)
for_reach-Issued o c r (some (destination, endpoint, certificate)) t g h =
    by_kind (is_realtime r) refl (room_of c.session) refl h
  where
    by_kind :
        (b : Bool)
        → is_realtime r ≡ b
        → (room : Option String) → room_of c.session ≡ room
        → (for_room o c r (if b then some room else none) destination endpoint certificate t).0
          ≡ ok (granted g)
        → Issued o c r t
            (for_room o c r (if b then some room else none) destination endpoint certificate t).1
            g
    by_kind false plain room named h =
        plain-Issued o c r destination endpoint certificate t g _ _ refl plain h
    by_kind true real none named h = absurd (ground arith)
    by_kind true real (some room) named h =
        moved-Issued o c r destination endpoint certificate t g room _ _ refl real named h
