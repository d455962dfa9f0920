-- ===== src/Call/Tests.antt =====
-- The properties of the call service at concrete inputs; the child has those of one operation.
mod Rules
use call_backend.Prelude.{
  ℕ, ◌+◌, ◌*◌, ◌/◌, ◌%◌, ◌≤◌, ◌<◌, String, ◌≡◌, ◌≢◌, refl, ◌⊎◌, inl, inr, Bool, true, false, Option,
  none, some, List, [], ◌∷◌, ◌++◌, arith, if◌then◌else◌, ◌==◌, string_eq, nat_eq, ==_iff, length,
  Result, ok, err, value_error, transport_error,
}
use call_backend.Dict.{Dict, get}
use call_backend.Value.{Value, Fields, end, field, text, dict}
use call_backend.Call.Env.{Env, Link, up, down, stalled, Peers, Clock}
use call_backend.Call.State.{
  Member, Room, Service, Effect, Outgoing, call_removed, screen_lease_seconds, new_room,
}
use call_backend.Call.Requests.{EntryRequest}
use call_backend.Call.Commands.{KeyRequest, ScreenRequest, start, renew}
use call_backend.Call.Service.{Moment, message, init, run}
use call_backend.Call.Invariant.{Inv}
use call_backend.Call.Invariant.Histories.{run-Inv, one_seat}

abbrev pub env : Env
env = record {
  valid_point = λ bytes. true;
  sha256 = λ bytes. bytes;
  policy_name = λ id. id;
  writes_policies = false;
}

abbrev pub users : String → Option String
users session =
    if session == "s1" then some "Qalice" else if session == "s2" then some "Qbob" else none

abbrev pub clock : Clock
clock = record { wall_ms = 1000; mono_ms = 500; later_mono_ms = 501 }

abbrev create_fields : Fields
create_fields = field "type" (text "call_create") (
    field "requestId" (text "request-1") (
      field "roomId" (text "room") (
        field "inviteTokenHash" (text "AAAAAAAAAAAAAAAAAAAAAAAAAAAAAAAAAAAAAAAAAAA") (
          field "keyAgreementPublicKey"
            (text
              "BAAAAAAAAAAAAAAAAAAAAAAAAAAAAAAAAAAAAAAAAAAAAAAAAAAAAAAAAAAAAAAAAAAAAAAAAAAAAAAAAAAAAAA")
            (field "signingPublicKey" (text "AAAAAAAAAAAAAAAAAAAAAAAAAAAAAAAAAAAAAAAAAAA") end)))))

abbrev moment : Moment
moment = record {
  provisional = λ session. false;
  link = λ session. up;
  clock = clock;
  event = message "call_create" "s1" (dict create_fields);
}

abbrev pub after_create : Service
after_create = run env users (moment ∷ []) (init env [] [])

run-Inv_example : Inv users after_create
run-Inv_example = run-Inv env users [] [] (moment ∷ [])

abbrev pub alice : Member
alice = record {
  participant_id = "Qalice";
  key_agreement_public_key =
      "BAAAAAAAAAAAAAAAAAAAAAAAAAAAAAAAAAAAAAAAAAAAAAAAAAAAAAAAAAAAAAAAAAAAAAAAAAAAAAAAAAAAAAA";
  signing_public_key = "AAAAAAAAAAAAAAAAAAAAAAAAAAAAAAAAAAAAAAAAAAA";
  session = "s1";
}

abbrev pub room : Room
room = record {
  room_id = "room";
  initiator_id = "Qalice";
  invite_token_hash =
      0 ∷ 0 ∷ 0 ∷ 0 ∷ 0 ∷ 0 ∷ 0 ∷ 0 ∷ 0 ∷ 0 ∷ 0 ∷ 0 ∷ 0 ∷ 0 ∷ 0 ∷ 0 ∷ 0 ∷ 0 ∷ 0 ∷ 0 ∷ 0 ∷ 0 ∷ 0 ∷ 0
      ∷ 0 ∷ 0 ∷ 0 ∷ 0 ∷ 0 ∷ 0 ∷ 0 ∷ 0 ∷ [];
  expires_at_ms = 10801000;
  revision = 1;
  members = ("Qalice", alice) ∷ [];
  expiry_timer = true;
  screen_owner = "";
  screen_id = "";
  screen_revision = 1;
  screen_expires_at = 0;
  screen_timer = false;
  blocked = [];
  muted = [];
}

pub created : get after_create.rooms "room" ≡ some room
unfolding run call_backend.Call.Service.react call_backend.Call.Service.handle
    call_backend.Call.Service.peers_at init call_backend.Value.field_names
    call_backend.Value.get_field call_backend.Value.as_text call_backend.Value.exact_fields
    call_backend.Call.Base64.is_word call_backend.Call.Base64.at_most_pads
    call_backend.Call.Base64.words_then_pads call_backend.Call.Base64.is_base64url
    call_backend.Call.Base64.strip_pads call_backend.Call.Base64.pads
    call_backend.Call.Base64.sextet call_backend.Call.Base64.emit call_backend.Call.Base64.left_over
    call_backend.Call.Base64.a2b_base64 call_backend.Call.Base64.urlsafe_b64decode
    call_backend.Call.Base64.expect_length call_backend.Call.Base64.decode_codes
    call_backend.Call.Base64.decode_base64url call_backend.Call.Requests.is_request_char
    call_backend.Call.Requests.is_hex call_backend.Call.Requests.matches
    call_backend.Call.Requests.require_authenticated call_backend.Call.Requests.read_request_id
    call_backend.Call.Requests.read_room_id call_backend.Call.Requests.validate_public_keys
    call_backend.Call.Requests.parse_create call_backend.Call.Requests.parse_join
    call_backend.Call.Requests.parse_leave call_backend.Call.Rooms.save
    call_backend.Call.Rooms.bind_session call_backend.Call.Rooms.write_policy
    call_backend.Call.Rooms.safe_send call_backend.Call.Rooms.send_over call_backend.Call.Rooms.emit
    call_backend.Call.Membership.create call_backend.Call.Membership.create_locked
    call_backend.Call.Membership.confirm_room call_backend.Call.Membership.first_room
    call_backend.Call.Membership.make_member call_backend.Call.State.new_room get
    call_backend.Dict.put call_backend.Prelude.contains call_backend.Prelude.same_elements
created = refl

seated : get room.members "Qalice" ≡ some alice
unfolding get
seated = refl

abbrev at_room : String
at_room = "room"

abbrev by_alice : String
by_alice = "Qalice"

one_seat_example : (at_room ≡ at_room) × (by_alice ≡ by_alice)
one_seat_example =
    one_seat env users [] [] (moment ∷ []) at_room at_room by_alice by_alice room room alice alice
      created created seated seated refl
