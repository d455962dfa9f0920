-- ===== src/Transport/Service/Invalidating.antt =====
-- `invalidate_session` and `_write_media_revocation` of
-- src/qapp_backend/private_transport/service.py.
use call_backend.Prelude.{
  ℕ, ◌+◌, String, Bool, false, ◌||◌, not, Option, none, some, List, [], ◌∷◌, ◌++◌, if◌then◌else◌,
  ◌==◌, string_eq,
}
use call_backend.Dict
use call_backend.Dict.{Dict, get, put}
use call_backend.Transport.Tokens.{invalidate_session}
use call_backend.Transport.Service.{MediaGrant, TransportService, next_write, later_writes}

-- `_write_media_revocation`, whose `OSError` is caught; `directory.mkdir` is taken to succeed. `digest` is the SHA-256 of the id.
unfoldable pub write_media_revocation :
    (String → String) → String → ℕ → TransportService → TransportService
write_media_revocation digest session now t =
    if session == ""
    then t
    else if next_write t.disk
    then record t {
      revocation_files = put t.revocation_files (digest session) (now + 600000);
      disk = later_writes t.disk;
    }
    else record t { disk = later_writes t.disk }

abbrev pub files_of : Option (List String) → List String
files_of none = []
files_of (some paths) = paths

-- for path in grant_files: path.unlink(missing_ok=True), which is taken to succeed.
unfoldable pub unlink_all : List String → Dict String MediaGrant → Dict String MediaGrant
unlink_all [] files = files
unlink_all (path ∷ paths) files = unlink_all paths (Dict.remove files path)

abbrev pub closed_with : Option String → List String → List String
closed_with none closing = closing
closed_with (some transport) closing = closing ++ transport ∷ []

-- `invalidate_session(session, close_attached=True)`, the only use of it. `in_call` is whether the
-- session's `call_room_id` is a text.
unfoldable pub invalidate :
    (String → String) → String → Bool → ℕ → TransportService → TransportService
unfolding unlink_all write_media_revocation
invalidate digest session in_call now t =
    let paths = files_of (get t.media_grant_files session) in
    let cleared = record t {
      tokens = invalidate_session session t.tokens;
      attached = Dict.remove t.attached session;
      media_grant_files = Dict.remove t.media_grant_files session;
      grant_files = unlink_all paths t.grant_files;
      closing = closed_with (get t.attached session) t.closing;
    } in
    if not (is_empty paths) || in_call
    then write_media_revocation digest session now cleared
    else cleared
  where
    is_empty : List String → Bool
    is_empty [] = Bool.true
    is_empty (x ∷ xs) = false
