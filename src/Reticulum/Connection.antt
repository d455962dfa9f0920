-- ===== src/Reticulum/Connection.antt =====
-- `PhysicalConnection` of src/qapp_backend/reticulum/connection.py: what was sent and is not yet
-- acknowledged, under a limit of messages and of bytes. `Connection.Receiving` has what it receives.
pub mod Totals
pub mod Limits
pub mod Acknowledging
pub mod Adopting
pub mod Receiving
pub mod Steps
pub mod Arriving
mod Tests
use call_backend.Prelude.{
  ℕ, ◌+◌, ◌-◌, ◌%◌, ◌^◌, String, Bool, true, false, not, Option, none, some, List, [], ◌∷◌, ◌++◌,
  map, if◌then◌else◌, ◌==◌, nat_eq, string_eq, leb, ltb, length, contains, filter, Result, ok, err,
  Error, connection_closed, backpressure,
}
use call_backend.Prelude.Stateful.{Exec, continue, ◌>>=◌, ◌>>◌}
use call_backend.Dict
use call_backend.Dict.{Dict, get, put}
use call_backend.Reticulum.Framing.{Frame, data_frame, encode, FrameParser}

-- Times and delays are in milliseconds.
pub record Config : Type 0 where
  pub max_frame_size : ℕ
  pub max_queue_bytes : ℕ
  pub max_unacked_messages : ℕ
  pub ack_timeout : ℕ

pub data Timer : Type 0 where
  unarmed cancelled : Timer
  armed : ℕ → Timer

pub record PendingMessage : Type 0 where
  pub connection_id : String
  pub frame : List ℕ
  pub created_at : ℕ
  pub timer : Timer

-- What the connection asks of others: its writer, its owner and the link.
pub data Call : Type 0 where
  writer_cancel on_close schedule_teardown teardown : Call
  on_logical_close : String → Call

pub record Connection : Type 0 where
  pub config : Config
  pub parser : FrameParser
  pub logical_connection_ids : List String
  pub closed_logical_connection_ids : List String
  pub pending : Dict ℕ PendingMessage
  pub pending_bytes : ℕ
  pub last_activity : ℕ
  pub closed : Bool
  pub close_reason : Option String
  pub next_message_id : ℕ
  pub calls : List Call

-- What `writer(data)` does, with all that happens to the connection in other threads meanwhile.
abbrev pub Writer : Type 0
Writer = List ℕ → Exec Connection (Unit {0})

unfoldable pub call : Call → Connection → Connection
call x c = record c { calls = c.calls ++ x ∷ [] }

abbrev pub cancel_timer : Timer → Timer
cancel_timer unarmed = unarmed
cancel_timer cancelled = cancelled
cancel_timer (armed delay) = cancelled

unfoldable pub cancel_timers : Dict ℕ PendingMessage → Dict ℕ PendingMessage
cancel_timers [] = []
cancel_timers ((id, p) ∷ d) = (id, record p { timer = cancel_timer p.timer }) ∷ cancel_timers d

-- `close`: what is pending stays, for the connection that replaces this one.
unfoldable pub close : String → Connection → Connection
unfolding call cancel_timers
close reason c = if c.closed then c else record c {
  closed = true;
  close_reason = some reason;
  parser = record c.parser { buffer = [] };
  pending = cancel_timers c.pending;
  calls = c.calls ++ writer_cancel ∷ on_close ∷ [];
}

unfoldable pub after_write : ℕ → Result (Unit {0}) × Connection → Result (Unit {0}) × Connection
unfolding close call
after_write now (err e, c) = (err e, call schedule_teardown (close "buffer_write_failed" c))
after_write now (ok u, c) =
    if c.closed then (err connection_closed, c) else (ok u, record c { last_activity = now })

-- `_write`; `now` is the clock after it.
unfoldable pub write : Writer → ℕ → List ℕ → Exec Connection (Unit {0})
unfolding after_write
write writer now bytes c =
    if c.closed then (err connection_closed, c) else after_write now (writer bytes c)

unfoldable pub forget_entry : ℕ → ℕ → Connection → Option PendingMessage → Connection
forget_entry id size c none = c
forget_entry id size c (some p) = record c {
  pending = Dict.remove c.pending id;
  pending_bytes = c.pending_bytes - size;
}

-- if self.pending.pop(message_id, None) is not None: self.pending_bytes -= size
unfoldable pub forget : ℕ → ℕ → Connection → Connection
unfolding forget_entry
forget id size c = forget_entry id size c (get c.pending id)

unfoldable pub arm_entry : ℕ → ℕ → Connection → Option PendingMessage → Connection
arm_entry id delay c none = c
arm_entry id delay c (some p) =
    if c.closed
    then c
    else record c { pending = put c.pending id (record p { timer = armed delay }) }

-- `_arm_timeout`, where the message is still pending on an open connection. Nothing else stores
-- under its id meanwhile, so that what is stored there is this message.
unfoldable pub arm : ℕ → ℕ → Connection → Connection
unfolding arm_entry
arm id delay c = arm_entry id delay c (get c.pending id)

unfoldable pub enqueue : ℕ → PendingMessage → Connection → Connection
enqueue id p c = record c {
  pending = put c.pending id p;
  pending_bytes = c.pending_bytes + length p.frame;
}

-- What follows `_write` of a message that was enqueued.
unfoldable pub settle_write :
    ℕ → ℕ → ℕ → Result (Unit {0}) × Connection → Result (Unit {0}) × Connection
unfolding forget arm
settle_write id size delay (err e, c) = (err e, forget id size c)
settle_write id size delay (ok u, c) = (ok u, arm id delay c)

unfoldable pub transmit : Writer → ℕ → ℕ → ℕ → PendingMessage → Exec Connection (Unit {0})
unfolding write settle_write enqueue
transmit writer now id delay p c =
    settle_write id (length p.frame) delay (write writer now p.frame (enqueue id p c))

unfoldable pub returning : ℕ → Result (Unit {0}) × Connection → Result ℕ × Connection
returning id (ok u, c) = (ok id, c)
returning id (err e, c) = (err e, c)

unfoldable pub send_encoded : Writer → ℕ → ℕ → String → ℕ → Result (List ℕ) → Exec Connection ℕ
unfolding transmit returning
send_encoded writer created now connection_id id (err e) c = (err e, c)
send_encoded writer created now connection_id id (ok encoded) c =
    if ltb c.config.max_queue_bytes (c.pending_bytes + length encoded)
    then (err backpressure, c)
    else returning id (
        transmit writer now id c.config.ack_timeout
          (record {
            connection_id = connection_id;
            frame = encoded;
            created_at = created;
            timer = unarmed;
          })
          c)

-- `send_data`, with the clock when the message is stored and after the write.
unfoldable pub send_data : Writer → ℕ → ℕ → String → List ℕ → Exec Connection ℕ
unfolding send_encoded
send_data writer created now connection_id envelope c =
    if c.closed
    then (err connection_closed, c)
    else if leb c.config.max_unacked_messages (length c.pending)
    then (err backpressure, c)
    else send_encoded writer created now connection_id c.next_message_id
        (encode c.config.max_frame_size
          (record { frame_type = data_frame; message_id = c.next_message_id; payload = envelope }))
        (record c { next_message_id = (c.next_message_id + 1) % 2 ^ 64 })

unfoldable pub size_of : Option PendingMessage → ℕ
size_of none = 0
size_of (some p) = length p.frame

-- `_ack_timeout`
unfoldable pub ack_timeout : ℕ → Connection → Connection
unfolding forget size_of
ack_timeout id c = forget id (size_of (get c.pending id)) c

unfoldable pub acknowledge_entry : ℕ → Connection → Option PendingMessage → Bool × Connection
unfolding ack_timeout
acknowledge_entry id c none = (false, c)
acknowledge_entry id c (some p) = (true, ack_timeout id c)

-- `acknowledge`
unfoldable pub acknowledge : ℕ → Connection → Bool × Connection
unfolding acknowledge_entry
acknowledge id c = acknowledge_entry id c (get c.pending id)

unfoldable pub close_logical : String → Connection → Bool × Connection
unfolding call
close_logical id c =
    if contains c.logical_connection_ids id
    then (
      true,
      call (on_logical_close id) (record c {
        logical_connection_ids = filter (λ j. not (j == id)) c.logical_connection_ids;
        closed_logical_connection_ids = id ∷ c.closed_logical_connection_ids;
      }),
    )
    else (false, c)

-- A message of the connection that this one replaces, with the clock when it is looked at, after
-- its write, and when its timer is set.
pub record Carried : Type 0 where
  pub message_id : ℕ
  pub connection_id : String
  pub frame : List ℕ
  pub created_at : ℕ
  pub now : ℕ
  pub written_at : ℕ
  pub armed_at : ℕ

unfoldable pub adopt_one : Writer → Carried → Exec Connection (Unit {0})
unfolding transmit
adopt_one writer m c =
    transmit writer m.written_at m.message_id (m.created_at + c.config.ack_timeout - m.armed_at)
      (record {
        connection_id = m.connection_id;
        frame = m.frame;
        created_at = m.created_at;
        timer = unarmed;
      })
      c

abbrev pub is_full : Carried → Connection → Bool
is_full m c =
    if leb c.config.max_unacked_messages (length c.pending)
    then true
    else ltb c.config.max_queue_bytes (c.pending_bytes + length m.frame)

-- `adopt_pending`
unfoldable pub adopt_pending : Writer → List Carried → Exec Connection (Unit {0})
unfolding adopt_one
adopt_pending writer [] c = (ok tt, c)
adopt_pending writer (m ∷ ms) c =
    let skip = adopt_pending writer ms c in
    let resend = (adopt_one writer m >> adopt_pending writer ms) c in
    if c.closed
    then (err connection_closed, c)
    else if leb (m.created_at + c.config.ack_timeout) m.now
    then skip
    else if is_full m c
    then (ok tt, c)
    else resend
