-- ===== src/Call/Tests/Rules.antt =====
-- The properties of single operations of the call service at concrete inputs.
use call_backend.Prelude.{
  ap, length, codes, arith, ◌↔◌, ℕ, ◌+◌, ◌*◌, ◌/◌, String, ◌≡◌, ◌≢◌, refl, ◌⊎◌, Bool, true, false,
  not, none, some, List, [], ◌∷◌, ◌++◌, arith, if◌then◌else◌, ◌==◌, string_eq, nat_eq, all, length,
  contains, ok, err, value_error, transport_error,
}
use call_backend.Dict.{get}
use call_backend.Call.Env.{up, down, stalled, Peers, Clock}
use call_backend.Call.State.{Room, Service, call_removed, call_group_key, screen_lease_seconds}
use call_backend.Call.Requests.{EntryRequest}
use call_backend.Call.Commands.{KeyRequest, ScreenRequest, start, stop, renew}
use call_backend.Call.Base64.{is_word, is_base64url, decode_codes, pads}
use call_backend.Call.Base64.Accepts.{result_length, accepted, decode-accepted, decode-padded}
use call_backend.Call.Rooms.{broadcast, safe_send}
use call_backend.Call.Membership.{admitted, join_locked}
use call_backend.Call.Moderation.{forward_checked, delivery}
use call_backend.Call.Screen.{
  accepts, clear_stale, run_command, expire_screen_found, after_command, owns,
}
use call_backend.Call.Sends.{deliveries, tracing, broadcast-delivers, broadcast-stops}
use call_backend.Call.Authority.{IsAuthorised, forward_cases, blocked_stays_out}
use call_backend.Call.Leases.{busy, start_exclusive, lease_holds, others_cannot, Holder, Vacant}
use call_backend.Call.Tests.{env, users, clock, room}

abbrev peers : Peers
peers = record {
  authenticated_user = users;
  provisional = λ session. false;
  link = λ session. if session == "s9" then stalled else if session == "s3" then down else up;
}

-- The room in which Bob is blocked.
abbrev strict_room : Room
strict_room = record room { blocked = "Qbob" ∷ [] }

abbrev strict : Service
strict = record {
  rooms = ("room", strict_room) ∷ [];
  session_rooms = ("s1", "room") ∷ [];
  call_room_ids = ("s1", "room") ∷ [];
  policies = [];
  disk = [];
  trace = [];
}

abbrev bobs_request : EntryRequest
bobs_request = record {
  request_id = "request-2";
  room_id = "room";
  secret = room.invite_token_hash;
  agreement_key = "k";
  signing_key = "s";
}

strict_there : get strict.rooms "room" ≡ some strict_room
unfolding get
strict_there = refl

bob_blocked : contains strict_room.blocked "Qbob" ≡ true
unfolding contains
bob_blocked = refl

blocked_stays_out_example :
    ((changed : Bool) (snap : _) (sessions : List String)
      → (join_locked env peers clock "s2" "Qbob" bobs_request strict).0
        ≢ ok (admitted changed snap sessions))
    × ((join_locked env peers clock "s2" "Qbob" bobs_request strict).1.rooms ≡ strict.rooms)
    × ((join_locked env peers clock "s2" "Qbob" bobs_request strict).1.session_rooms
        ≡ strict.session_rooms)
blocked_stays_out_example =
    blocked_stays_out env peers clock "s2" "Qbob" bobs_request strict strict_room strict_there
      bob_blocked

abbrev key_request : KeyRequest
key_request = record {
  request_id = "request-3";
  room_id = "room";
  target_id = "Qalice";
  key_id = "00112233445566778899aabbccddeeff";
  nonce = none;
  ciphertext = none;
  signature = none;
}

forward_cases_example :
    ((x : String) × IsAuthorised "s1" "Qalice" key_request strict x
      × (forward_checked peers "s1" "Qalice" key_request strict
          ≡ safe_send peers x (call_group_key (delivery "Qalice" key_request)) strict))
    ⊎ (((x : String) → ¬ IsAuthorised "s1" "Qalice" key_request strict x)
        × (forward_checked peers "s1" "Qalice" key_request strict
            ≡ (err (value_error "group key delivery is not authorized"), strict)))
forward_cases_example = forward_cases peers "s1" "Qalice" key_request strict

abbrev shared : Room
shared = record room { screen_owner = "Qalice"; screen_id = "share-1"; screen_expires_at = 40000 }

start_exclusive_example :
    let next = run_command start clock "Qbob" "share-2" (clear_stale clock shared) in
    (accepts start "Qbob" "share-2" (clear_stale clock shared)
      ≡ not (busy clock "Qbob" "share-2" shared))
    × (busy clock "Qbob" "share-2" shared ≡ false
        → (next.screen_owner ≡ "Qbob")
          × (next.screen_id ≡ "share-2")
          × (next.screen_expires_at ≡ 501 + screen_lease_seconds * 1000))
    × (busy clock "Qbob" "share-2" shared ≡ true → next ≡ clear_stale clock shared)
start_exclusive_example = start_exclusive clock "Qbob" "share-2" shared

abbrev later : Clock
later = record { wall_ms = 40000; mono_ms = 45500; later_mono_ms = 45500 }

renewed : accepts renew "Qalice" "share-1" shared ≡ true
unfolding accepts owns
renewed = refl

lease_holds_example :
    expire_screen_found peers later "share-1"
      (some (run_command renew clock "Qalice" "share-1" shared))
      strict
    ≡ (ok tt, strict)
lease_holds_example =
    lease_holds peers clock later "Qalice" "share-1" "share-1" renew shared strict
      (λ e. absurd (ground arith)) renewed (omega arith)

abbrev bobs_stop : ScreenRequest
bobs_stop = record {
  request_id = "request-4";
  room_id = "room";
  command = stop;
  share_id = "share-1";
}

others_cannot_example :
    ((accepts renew "Qbob" "share-1" (clear_stale clock shared) ≡ true)
      ↔ Holder clock "Qbob" "share-1" shared)
    × (Holder clock "Qbob" "share-1" shared
        ⊎ Vacant clock shared
        ⊎ ((accepts stop "Qbob" "share-1" (clear_stale clock shared) ≡ false)
            × (after_command clock "Qbob" bobs_stop shared ≡ shared)))
others_cannot_example =
    others_cannot clock "Qbob" bobs_stop shared λ e. omega (arith, ap (λ s. length (codes s)) e)

broadcast-delivers_example :
    broadcast peers ("s1" ∷ "s3" ∷ "s2" ∷ []) (call_removed "room") strict
    ≡ (ok tt, tracing strict (deliveries peers ("s1" ∷ "s3" ∷ "s2" ∷ []) (call_removed "room")))
broadcast-delivers_example =
    broadcast-delivers peers ("s1" ∷ "s3" ∷ "s2" ∷ []) (call_removed "room") strict refl

broadcast-stops_example :
    broadcast peers ("s1" ∷ "s9" ∷ "s2" ∷ []) (call_removed "room") strict
    ≡ (err transport_error, tracing strict (deliveries peers ("s1" ∷ []) (call_removed "room")))
broadcast-stops_example =
    broadcast-stops peers ("s1" ∷ []) "s9" ("s2" ∷ []) (call_removed "room") strict refl refl

-- The characters of "QUI", with and without a sign "=" after them.
abbrev qui : List ℕ
qui = b'Q' ∷ b'U' ∷ b'I' ∷ []

words : all is_word qui ≡ true
unfolding is_word
words = refl

decode-accepted_example :
    result_length (decode_codes (qui ++ pads 0) none)
    ≡ (if accepted (length qui) 0 then some (length qui * 3 / 4) else none)
decode-accepted_example = decode-accepted qui 0 words (omega arith) (omega arith)

decode-padded_example :
    (is_base64url (qui ++ pads 1) ≡ true)
    × (decode_codes (qui ++ pads 1) none ≡ err (value_error "invalid base64url value"))
decode-padded_example =
    decode-padded qui 1 none words (omega arith) (omega arith) (omega arith) refl
