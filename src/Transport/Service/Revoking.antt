-- ===== src/Transport/Service/Revoking.antt =====
-- What is left to the private transport of a session after `invalidate_session`.
use call_backend.Prelude.{
  ℕ, ◌+◌, String, Bool, true, false, ◌≡◌, ◌≢◌, subst, ◌∙◌, ap, Option, none, some, List, [], ◌∷◌,
  string_eq, ==_iff, eq_refl, arith, contains, ok, err, value_error,
}
use call_backend.Dict
use call_backend.Dict.{Dict, get, put, get-put, get-remove}
use call_backend.Value.{Value}
use call_backend.Transport.Tokens
use call_backend.Transport.Tokens.{SessionView, invalidate_session}
use call_backend.Transport.Tokens.OneTime.{invalidate-consume}
use call_backend.Transport.Payload.{Json}
use call_backend.Transport.Service.{MediaGrant, TransportService, attach, next_write}
use call_backend.Transport.Service.Invalidating.{
  invalidate, write_media_revocation, unlink_all, files_of,
}
use call_backend.Transport.Service.Messages.{handle_message}
use call_backend.Transport.Service.Ownership.{attach_sound, attached-invalidate}

detached_refused :
    (codec : Json) (handlers : List String) (transport session : String)
    (metadata : Dict String Value) (lane message_id : String) (payload : List ℕ)
    (t : TransportService)
    → get t.attached session ≡ none
    → handle_message codec handlers transport session metadata lane message_id payload t
      ≡ err (value_error "private transport is detached")
unfolding handle_message
detached_refused codec handlers transport session metadata lane message_id payload t h = rw h

unlinked :
    (paths : List String) (files : Dict String MediaGrant) (path : String)
    → get files path ≡ none
    → get (unlink_all paths files) path ≡ none
unfolding unlink_all
unlinked [] files path h = h
unlinked (p ∷ paths) files path h =
    unlinked paths (Dict.remove files p) path (ground (arith, get-remove files p path))

unlinks :
    (paths : List String) (files : Dict String MediaGrant) (path : String)
    → contains paths path ≡ true
    → get (unlink_all paths files) path ≡ none
unfolding unlink_all contains
unlinks [] files path h = absurd (ground arith)
unlinks (p ∷ paths) files path h = ground (
  arith,
  get-remove files p path,
  unlinked paths (Dict.remove files p) path,
  unlinks paths (Dict.remove files p) path,
)

tokens-invalidate :
    (digest : String → String) (session : String) (in_call : Bool) (now : ℕ) (t : TransportService)
    → (invalidate digest session in_call now t).tokens ≡ invalidate_session session t.tokens
unfolding invalidate write_media_revocation
tokens-invalidate digest session in_call now t = ground arith

grant_files-invalidate :
    (digest : String → String) (session : String) (in_call : Bool) (now : ℕ) (t : TransportService)
    → (invalidate digest session in_call now t).grant_files
      ≡ unlink_all (files_of (get t.media_grant_files session)) t.grant_files
unfolding invalidate write_media_revocation
grant_files-invalidate digest session in_call now t = ground arith

-- What no longer works for `session` in the state `u` after `t`.
pub record CutOff (digest : String → String) (session : String) (now : ℕ) (in_call : Bool)
    (t u : TransportService) : Type 0 where
  pub silent :
      (codec : Json) (handlers : List String) (transport : String) (metadata : Dict String Value)
      (lane message_id : String) (payload : List ℕ)
      → handle_message codec handlers transport session metadata lane message_id payload u
        ≡ err (value_error "private transport is detached")
  pub closed :
      (hash : String → String) (lookup : String → Option SessionView) (later : ℕ)
      (transport peer : String) (metadata : Value)
      → (attach hash lookup later transport peer metadata u).0 ≢ ok session
  pub withdrawn :
      (path : String)
      → contains (files_of (get t.media_grant_files session)) path ≡ true
      → get u.grant_files path ≡ none
  pub told :
      in_call ≡ true
      → session ≢ ""
      → next_write t.disk ≡ true
      → get u.revocation_files (digest session) ≡ some (now + 600000)

told-invalidate :
    (digest : String → String) (session : String) (now : ℕ) (t : TransportService)
    → session ≢ ""
    → next_write t.disk ≡ true
    → get (invalidate digest session true now t).revocation_files (digest session)
      ≡ some (now + 600000)
unfolding invalidate write_media_revocation
told-invalidate digest session now t named writes = ground (
  arith,
  (==_iff session "").0,
  get-put t.revocation_files (digest session) (now + 600000) (digest session),
  eq_refl (digest session),
)

-- `invalidate_session` cuts the session off from the private transport: no message of any
-- transport is handled for it, no token issued before lets a transport attach to it, whenever and
-- with whatever metadata, the files that told the media relay of its tokens are gone, and where the
-- session is in a call, its id is not empty and the write succeeds, the relay is told of the
-- revocation for the next ten minutes.
pub invalidate_cuts :
    (digest : String → String) (session : String) (in_call : Bool) (now : ℕ) (t : TransportService)
    → CutOff digest session now in_call t (invalidate digest session in_call now t)
invalidate_cuts digest session in_call now t = record {
  silent = λ codec handlers transport metadata lane message_id payload.
      detached_refused codec handlers transport session metadata lane message_id payload _ (
        ap (λ d. get d session) (attached-invalidate digest session in_call now t)
        ∙ get-remove t.attached session session
        ∙ rw (eq_refl session));
  closed = λ hash lookup later transport peer metadata h.
      let (claim, token, _, admitted) =
        attach_sound hash lookup later transport peer metadata
          (invalidate digest session in_call now t) session h in
      invalidate-consume session (hash token) claim lookup later t.tokens admitted.grant
        (subst (λ a. (Tokens.consume (hash token) claim lookup later a).0 ≡ ok admitted.grant)
          (tokens-invalidate digest session in_call now t) admitted.accepted)
        admitted.for_session;
  withdrawn = λ path held.
      ap (λ d. get d path) (grant_files-invalidate digest session in_call now t)
      ∙ unlinks (files_of (get t.media_grant_files session)) t.grant_files path held;
  told = by_call in_call;
}
  where
    by_call :
        (b : Bool)
        → b ≡ true
        → session ≢ ""
        → next_write t.disk ≡ true
        → get (invalidate digest session b now t).revocation_files (digest session)
          ≡ some (now + 600000)
    by_call true h = told-invalidate digest session now t
    by_call false h = absurd (ground arith)
