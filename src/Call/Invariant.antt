-- ===== src/Call/Invariant.antt =====
-- What holds of the call service between two handlers, whatever the sessions do, as long as a
-- session that is in a call keeps its account.
mod Frame
mod Rooms
mod Removal
mod Evicting
pub mod Creating
pub mod Joining
pub mod Leaving
pub mod Moderating
pub mod Sharing
pub mod Histories
use call_backend.Prelude.{
  ℕ, ◌≤◌, String, ◌≡◌, ◌≢◌, true, Option, some, none, List, length, contains, string_eq,
}
use call_backend.Dict.{Dict, get, Distinct}
use call_backend.Call.State.{Member, Room, Service, max_rooms, max_participants_per_room}
use call_backend.Call.Moderation.{max_moderated}

-- One room: its host is a member; it has at most 32 members, each under its own name; nobody is a
-- member who is blocked; who shares a screen is a member.
pub record IsSound (room : Room) : Type 0 where
  pub distinct : Distinct room.members
  pub hosted : get room.members room.initiator_id ≢ none
  pub named : (p : String) (m : Member) → get room.members p ≡ some m → m.participant_id ≡ p
  pub within : length room.members ≤ max_participants_per_room
  pub apart : (p : String) → contains room.blocked p ≡ true → get room.members p ≡ none
  pub few_blocked : length room.blocked ≤ max_moderated
  pub few_muted : length room.muted ≤ max_moderated
  pub sharing : room.screen_id ≢ "" → get room.members room.screen_owner ≢ none
  pub idle : room.screen_id ≡ "" → room.screen_owner ≡ ""

-- The sessions of a room's members are bound to it, and each has the member's account.
abbrev pub IsBound : (String → Option String) → Dict String String → String → Room → Type 0
IsBound users bindings k room =
    (p : String) (m : Member)
    → get room.members p ≡ some m
    → (get bindings m.session ≡ some k) × (users m.session ≡ some p)

pub record Tables (users : String → Option String) (rooms : Dict String Room)
    (bindings : Dict String String) : Type 0 where
  pub few_rooms : length rooms ≤ max_rooms
  pub keyed : (k : String) (r : Room) → get rooms k ≡ some r → r.room_id ≡ k
  pub sound : (k : String) (r : Room) → get rooms k ≡ some r → IsSound r
  pub bound : (k : String) (r : Room) → get rooms k ≡ some r → IsBound users bindings k r

-- `users` gives the account of each session.
abbrev pub Inv : (String → Option String) → Service → Type 0
Inv users s = Tables users s.rooms s.session_rooms
