-- ===== src/Call/Invariant/Rooms.antt =====
-- The invariant when one room is added, changed or dropped.
use call_backend.Prelude.{
  ◌≤◌, String, ◌≡◌, ◌∙◌, sym, subst, Option, some, false, arith, Bool-cases, inl, inr, ◌==◌,
  string_eq, ==_iff, length,
}
use call_backend.Dict
use call_backend.Dict.{Dict, get, put, get-put, get-remove, length-put-present, length-remove-le}
use call_backend.Call.State.{Room, max_rooms}
use call_backend.Call.Invariant.{IsSound, IsBound, Tables}

some_injective {ℓ} : {A : Type ℓ} (a b : A) → some a ≡ some b → a ≡ b
some_injective a b h = cc

-- `save` writes at the id that the room carries.
pub at_own_id :
    (users : String → Option String) (rooms : Dict String Room) (b : Dict String String)
    (k : String) (room : Room)
    → room.room_id ≡ k
    → Tables users (put rooms k room) b
    → Tables users (put rooms room.room_id room) b
at_own_id users rooms b k room own = subst (λ i. Tables users (put rooms i room) b) (sym own)

module _ (users : String → Option String) {rooms : Dict String Room} {b : Dict String String}
    (t : Tables users rooms b) (b' : Dict String String) (k : String) where
  abbrev OthersBound : Type 0
  OthersBound =
      (j : String) (r : Room) → (k == j) ≡ false → get rooms j ≡ some r → IsBound users b' j r

  module _ (room : Room) (own : room.room_id ≡ k) where
    put_cases {ℓ} :
        (P : String → Room → Type ℓ) (j : String) (r : Room)
        → P k room
        → ((k == j) ≡ false → get rooms j ≡ some r → P j r)
        → get (put rooms k room) j ≡ some r
        → P j r
    put_cases P j r this that h = elim (Bool-cases (k == j)) [
      | inl same ↦
          rw (← (==_iff k j).0 same)
            (rw (← some_injective room r (sym (get-put rooms k room j ∙ rw same) ∙ h)) this)
      | inr other ↦ that other (sym (get-put rooms k room j ∙ rw other) ∙ h)
    ]

    pub put-Tables :
        IsSound room
        → IsBound users b' k room
        → OthersBound
        → length (put rooms k room) ≤ max_rooms
        → Tables users (put rooms k room) b'
    put-Tables sound bound others few = record {
      few_rooms = few;
      keyed = λ j r. put_cases (λ i q. q.room_id ≡ i) j r own (λ _ at. t.keyed j r at);
      sound = λ j r. put_cases (λ i q. IsSound q) j r sound (λ _ at. t.sound j r at);
      bound = λ j r. put_cases (IsBound users b') j r bound (λ ne at. others j r ne at);
    }

    -- A room that is there is changed.
    pub update-Tables :
        (old : Room)
        → get rooms k ≡ some old
        → IsSound room
        → IsBound users b' k room
        → OthersBound
        → Tables users (put rooms k room) b'
    update-Tables old at sound bound others =
        put-Tables sound bound others (rw (length-put-present rooms k room old at) t.few_rooms)

  remove_cases {ℓ} :
      (P : Type ℓ) (j : String) (r : Room)
      → ((k == j) ≡ false → get rooms j ≡ some r → P)
      → get (Dict.remove rooms k) j ≡ some r
      → P
  remove_cases P j r that h = elim (Bool-cases (k == j)) [
    | inl same ↦ absurd (ground (arith, get-remove rooms k j))
    | inr other ↦ that other (ground (arith, get-remove rooms k j))
  ]

  pub remove-Tables : OthersBound → Tables users (Dict.remove rooms k) b'
  remove-Tables others = record {
    few_rooms = omega (arith, t.few_rooms, length-remove-le rooms k);
    keyed = λ j r. remove_cases (r.room_id ≡ j) j r (λ _ at. t.keyed j r at);
    sound = λ j r. remove_cases (IsSound r) j r (λ _ at. t.sound j r at);
    bound = λ j r. remove_cases (IsBound users b' j r) j r (λ ne at. others j r ne at);
  }
