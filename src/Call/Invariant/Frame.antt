-- ===== src/Call/Invariant/Frame.antt =====
-- What the shared methods leave alone: the rooms and the session bindings.
use call_backend.Prelude.{String, List, [], ◌∷◌, Bool-cases, inl, inr}
use call_backend.Prelude.Stateful.{Keeps, Keeps-bind}
use call_backend.Dict.{Dict}
use call_backend.Call.Env.{Env, Peers, Link, up, down, stalled}
use call_backend.Call.State.{
  Room, Service, Outgoing, Policy, DiskOutcome, written, no_directory, failed,
}
use call_backend.Call.Rooms.{
  send_over, safe_send, broadcast, clear_session_metadata, write_outcome, write_policy, drop_policy,
}

-- A property of the rooms and the bindings alone.
module _ (P : Dict String Room → Dict String String → Type 0) where
  abbrev On : Service → Type 0
  On s = P s.rooms s.session_rooms

  send_over-Keeps :
      (l : Link) (session : String) (payload : Outgoing) → Keeps On (send_over l session payload)
  unfolding send_over
  send_over-Keeps up session payload s h = h
  send_over-Keeps down session payload s h = h
  send_over-Keeps stalled session payload s h = h

  pub safe_send-Keeps :
      (peers : Peers) (session : String) (payload : Outgoing)
      → Keeps On (safe_send peers session payload)
  unfolding safe_send
  safe_send-Keeps peers session payload = send_over-Keeps (peers.link session) session payload

  pub broadcast-Keeps :
      (peers : Peers) (sessions : List String) (payload : Outgoing)
      → Keeps On (broadcast peers sessions payload)
  unfolding broadcast
  broadcast-Keeps peers [] payload = λ s h. h
  broadcast-Keeps peers (x ∷ xs) payload =
      Keeps-bind {P = On} (safe_send peers x payload) (λ _. broadcast peers xs payload)
        (safe_send-Keeps peers x payload) (λ _. broadcast-Keeps peers xs payload)

  pub clear_session_metadata-On :
      (session : String) (s : Service) → On s → On (clear_session_metadata session s)
  unfolding clear_session_metadata
  clear_session_metadata-On session s h = h

  write_outcome-Keeps :
      (o : DiskOutcome) (path : String) (policy : Policy) → Keeps On (write_outcome o path policy)
  unfolding write_outcome
  write_outcome-Keeps written path policy s h = h
  write_outcome-Keeps no_directory path policy s h = h
  write_outcome-Keeps failed path policy s h = h

  pub write_policy-Keeps : (env : Env) (room : Room) → Keeps On (write_policy env room)
  unfolding write_policy
  write_policy-Keeps env room s h = elim (Bool-cases env.writes_policies) [
    | inl w ↦ rw w (write_outcome-Keeps _ _ _ _ h)
    | inr w ↦ rw w h
  ]

  pub drop_policy-On :
      (env : Env) (room_id : String) (s : Service) → On s → On (drop_policy env room_id s)
  unfolding drop_policy
  drop_policy-On env room_id s h = elim (Bool-cases env.writes_policies) [
    | inl w ↦ rw w h
    | inr w ↦ rw w h
  ]
