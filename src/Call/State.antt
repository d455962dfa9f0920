-- ===== src/Call/State.antt =====
-- The state of `CallService` (src/qapp_backend/call/service.py): rooms with their members, the
-- room of each session, the policy files, and a trace of what the service does to the sessions.
use call_backend.Prelude.{
  ℕ, ◌*◌, String, Bool, false, not, Option, none, some, List, [], ◌∷◌, ◌++◌, map, if◌then◌else◌,
  ◌==◌, string_eq, filter, contains, sorted,
}
use call_backend.Dict.{Dict, get, keys, values}
use call_backend.Value.{Value}

abbrev pub max_rooms : ℕ
max_rooms = 1024

abbrev pub max_participants_per_room : ℕ
max_participants_per_room = 32

abbrev pub max_call_seconds : ℕ
max_call_seconds = 3 * 60 * 60

abbrev pub screen_lease_seconds : ℕ
screen_lease_seconds = 45

-- `session` is the id of the session object.
pub record Member : Type 0 where
  pub participant_id : String
  pub key_agreement_public_key : String
  pub signing_public_key : String
  pub session : String

-- A timer is a flag: whether the room holds one. Times are in milliseconds.
pub record Room : Type 0 where
  pub room_id : String
  pub initiator_id : String
  pub invite_token_hash : List ℕ
  pub expires_at_ms : ℕ
  pub revision : ℕ
  pub members : Dict String Member
  pub expiry_timer : Bool
  pub screen_owner : String
  pub screen_id : String
  pub screen_revision : ℕ
  pub screen_expires_at : ℕ
  pub screen_timer : Bool
  pub blocked : List String
  pub muted : List String

-- Room(room_id, initiator_id, invite_token_hash, expires_at_ms)
unfoldable pub new_room : String → String → List ℕ → ℕ → Room
new_room room_id initiator_id hash expires_at_ms = record {
  room_id = room_id;
  initiator_id = initiator_id;
  invite_token_hash = hash;
  expires_at_ms = expires_at_ms;
  revision = 1;
  members = [];
  expiry_timer = false;
  screen_owner = "";
  screen_id = "";
  screen_revision = 1;
  screen_expires_at = 0;
  screen_timer = false;
  blocked = [];
  muted = [];
}

-- Sets of participant ids: `s.add(x)`, `s.discard(x)`.
unfoldable pub add : List String → String → List String
add xs x = if contains xs x then xs else xs ++ x ∷ []

unfoldable pub discard : List String → String → List String
discard xs x = filter (λ y. not (y == x)) xs

pub record ScreenState : Type 0 where
  pub revision : ℕ
  pub participant_id : String
  pub share_id : String

pub record MemberView : Type 0 where
  pub participant_id : String
  pub key_agreement_public_key : String
  pub signing_public_key : String
  pub track_namespace : List String
  pub track_name : String

unfoldable pub public_value : String → Member → MemberView
public_value room_id m = record {
  participant_id = m.participant_id;
  key_agreement_public_key = m.key_agreement_public_key;
  signing_public_key = m.signing_public_key;
  track_namespace = "qortal" ∷ "call" ∷ room_id ∷ m.participant_id ∷ [];
  track_name = "audio";
}

pub record Snapshot : Type 0 where
  pub room_id : String
  pub revision : ℕ
  pub initiator_participant_id : String
  pub expires_at : ℕ
  pub screen_share : ScreenState
  pub muted_participant_ids : List String
  pub members : List MemberView

unfoldable pub screen_snapshot : Room → ScreenState
screen_snapshot room = record {
  revision = room.screen_revision;
  participant_id = room.screen_owner;
  share_id = room.screen_id;
}

-- sorted(room.muted.intersection(room.members))
unfoldable pub muted_members : Room → List String
muted_members room = sorted (filter (contains (keys room.members)) room.muted)

views_in_order : String → Dict String Member → List String → List MemberView
views_in_order room_id members [] = []
views_in_order room_id members (p ∷ ps) = elim (get members p) [
  | none ↦ views_in_order room_id members ps
  | some m ↦ public_value room_id m ∷ views_in_order room_id members ps
]

unfoldable pub snapshot : Room → Snapshot
unfolding views_in_order
snapshot room = record {
  room_id = room.room_id;
  revision = room.revision;
  initiator_participant_id = room.initiator_id;
  expires_at = room.expires_at_ms;
  screen_share = screen_snapshot room;
  muted_participant_ids = muted_members room;
  members = views_in_order room.room_id room.members (sorted (keys room.members));
}

-- tuple(member.session for member in room.members.values())
unfoldable pub recipients : Room → List String
recipients room = map (λ m. m.session) (values room.members)

pub record Delivery : Type 0 where
  pub request_id : String
  pub room_id : String
  pub sender_id : String
  pub target_id : String
  pub key_id : String
  pub nonce : Option Value
  pub ciphertext : Option Value
  pub signature : Option Value

pub record ModerationResult : Type 0 where
  pub request_id : String
  pub room_id : String
  pub revision : ℕ
  pub accepted : Bool
  pub code : String
  pub blocked_ids : List String

pub data EndReason : Type 0 where
  initiator_left initiator_disconnected expired : EndReason

-- The messages that the service sends, by their `type`.
pub data Outgoing : Type 0 where
  call_created call_joined : String → Snapshot → Outgoing
  call_join_rejected call_left : String → String → Outgoing
  call_removed : String → Outgoing
  call_membership : Snapshot → Outgoing
  call_ended : String → EndReason → Outgoing
  call_group_key : Delivery → Outgoing
  call_moderation_result : ModerationResult → Outgoing
  call_screen_result : String → String → Bool → String → ScreenState → Outgoing
  call_screen_state : String → ScreenState → Outgoing

pub data Effect : Type 0 where
  sent : String → Outgoing → Effect
  persisted : String → Effect

pub record Policy : Type 0 where
  pub room_id : String
  pub expires_at : ℕ
  pub members : List (String × String)
  pub muted : List String

-- What the file system does to one policy write: it succeeds, `mkdir` raises, or a later call does.
pub data DiskOutcome : Type 0 where
  written no_directory failed : DiskOutcome

-- `call_room_ids` is `metadata["call_room_id"]` of each session; `disk` holds the outcomes of the
-- coming policy writes, and none left means that they succeed.
pub record Service : Type 0 where
  pub rooms : Dict String Room
  pub session_rooms : Dict String String
  pub call_room_ids : Dict String String
  pub policies : Dict String Policy
  pub disk : List DiskOutcome
  pub trace : List Effect
