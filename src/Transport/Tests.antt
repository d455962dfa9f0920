-- ===== src/Transport/Tests.antt =====
-- The properties of the private transport at concrete inputs.
use call_backend.Prelude.{
  ℕ, ◌+◌, ◌≤◌, ◌<◌, String, ◌≡◌, ◌≢◌, refl, Bool, true, false, Option, none, some, List, [], ◌∷◌,
  arith, if◌then◌else◌, list_beq, nat_eq, length, Result, ok, err, attach_rejected,
}
use call_backend.Dict.{get}
use call_backend.Transport.Tokens.{
  AttachGrant, Authority, Binding, make_grant, refresh, issue, SessionView, Claim, consume,
  consume_found, invalidate_session, release, unused,
}
use call_backend.Transport.Tokens.OneTime.{
  Serves, consume_twice, consume_sound, claim_of, issue-consume,
}
use call_backend.Transport.Tokens.Rates.{
  log_issue, no_issues, fresh, then_issued, Limited, reached-Limited,
}
use call_backend.Transport.Framing.{Frame, Utf8, pack, encode_datagram, decode_datagram, feed}
use call_backend.Transport.Framing.Datagrams.{datagram-round_trip}
use call_backend.Transport.Framing.RoundTrip.{pack_all, stream-round_trip}

abbrev fresh_authority : Authority
fresh_authority = record {
  ttl = 30000;
  per_session_per_minute = 5;
  per_user_per_minute = 10;
  max_unused_per_session = 2;
  max_unused_global = 100;
  grants = [];
  issued = [];
  issued_users = [];
}

abbrev binding : Binding
binding = record {
  logical_session_id = "session";
  logical_connection_id = "tab";
  authenticated_user = "Qalice";
  qapp_identity = ("calls", "APP");
  purpose = "media";
  owner_binding_hash = "owner";
  nonce = "nonce";
}

abbrev grant : AttachGrant
grant = record {
  token_hash = "digest";
  logical_session_id = "session";
  logical_connection_id = "tab";
  authenticated_user = "Qalice";
  qapp_identity = ("calls", "APP");
  purpose = "media";
  owner_binding_hash = "owner";
  nonce = "nonce";
  expires_at = 31000;
}

abbrev view : SessionView
view = record {
  provisional = false;
  expires_at = 90000;
  authenticated_user = some "Qalice";
  qapp_identity = some ("calls", "APP");
  qapp_connection_id = some "tab";
  has_open_connection = true;
}

abbrev lookup : String → Option SessionView
lookup session = some view

abbrev serving : (now : ℕ) → now < 90000 → Serves now grant view
serving now h = record {
  established = refl;
  live = h;
  account = refl;
  qapp = refl;
  connection = refl;
  opened = refl;
}

abbrev after_issue : Authority
after_issue = (issue binding "digest" 1000 fresh_authority).1

consume_twice_example :
    (consume "digest"
      (claim_of binding)
      lookup
      3000
      (consume "digest" (claim_of binding) lookup 2000 after_issue).1).0
    ≡ err attach_rejected
consume_twice_example =
    consume_twice "digest" (claim_of binding) (claim_of binding) lookup lookup 2000 3000 after_issue

was_issued : (issue binding "digest" 1000 fresh_authority).0 ≡ ok grant
unfolding issue call_backend.Transport.Tokens.is_limited refresh get
    call_backend.Transport.Tokens.setdefault call_backend.Dict.put
    call_backend.Transport.Tokens.prune unused call_backend.Prelude.count call_backend.Dict.retain
    make_grant
was_issued = refl

issue-consume_example : (consume "digest" (claim_of binding) lookup 2000 after_issue).0 ≡ ok grant
issue-consume_example =
    issue-consume binding "digest" 1000 2000 fresh_authority grant lookup view was_issued
      (omega arith) refl (serving 2000 (omega arith))

consume_sound_example :
    (2000 < grant.expires_at)
    × (grant.token_hash ≡ "digest")
    × (grant.logical_session_id ≡ "session")
    × (grant.purpose ≡ "media")
    × (grant.owner_binding_hash ≡ "owner")
    × (grant.nonce ≡ "nonce")
    × ((v : SessionView) × (lookup grant.logical_session_id ≡ some v) × Serves 2000 grant v)
consume_sound_example =
    consume_sound "digest" (claim_of binding) lookup 2000 after_issue grant issue-consume_example

reached-Limited_example :
    Limited 1000 after_issue
      (log_issue binding 1000 (issue binding "digest" 1000 fresh_authority).0 no_issues)
reached-Limited_example =
    reached-Limited 1000 after_issue
      (log_issue binding 1000 (issue binding "digest" 1000 fresh_authority).0 no_issues)
      (then_issued 0 1000 fresh_authority no_issues binding "digest"
        (fresh 0 fresh_authority refl refl refl) (omega arith))

abbrev two_frames : List Frame
two_frames =
    record { frame_type = 1; metadata = 123 ∷ 125 ∷ []; payload = [] }
    ∷ record { frame_type = 3; metadata = []; payload = 7 ∷ 8 ∷ 9 ∷ [] }
    ∷ []

length-two_frames : length (pack_all two_frames) ≤ 29
unfolding pack call_backend.Reticulum.Framing.Bytes.field
length-two_frames = omega arith

stream-round_trip_example : feed 1048576 29 [] (pack_all two_frames) ≡ (ok two_frames, [])
stream-round_trip_example =
    stream-round_trip 1048576 29 two_frames
      (
        record {
          type_fits = omega arith;
          metadata_fits = omega arith;
          payload_fits = omega arith;
          peer_accepts = omega arith;
        },
        (
          record {
            type_fits = omega arith;
            metadata_fits = omega arith;
            payload_fits = omega arith;
            peer_accepts = omega arith;
          },
          tt,
        ),
      )
      length-two_frames

abbrev one_letter : Utf8
one_letter = record {
  decode = λ bytes. if list_beq bytes (97 ∷ []) then some "a" else none;
  encode = λ s. 97 ∷ [];
}

encoded :
    encode_datagram one_letter "a" (1 ∷ 2 ∷ [])
    ≡ ok (81 ∷ 80 ∷ 51 ∷ 68 ∷ 1 ∷ 0 ∷ 1 ∷ 97 ∷ 1 ∷ 2 ∷ [])
unfolding encode_datagram call_backend.Reticulum.Framing.Bytes.field
encoded = refl

datagram-round_trip_example :
    decode_datagram one_letter (81 ∷ 80 ∷ 51 ∷ 68 ∷ 1 ∷ 0 ∷ 1 ∷ 97 ∷ 1 ∷ 2 ∷ [])
    ≡ ok ("a", 1 ∷ 2 ∷ [])
datagram-round_trip_example =
    datagram-round_trip one_letter "a" (1 ∷ 2 ∷ [])
      (81 ∷ 80 ∷ 51 ∷ 68 ∷ 1 ∷ 0 ∷ 1 ∷ 97 ∷ 1 ∷ 2 ∷ []) refl encoded
