-- ===== src/Reticulum/Connection/Receiving.antt =====
-- `receive`, `_dispatch`, `send_control` and `send_application` of `PhysicalConnection` in
-- src/qapp_backend/reticulum/connection.py: what a connection makes of the bytes that come in.
use call_backend.Prelude.{
  ℕ, String, false, Option, none, some, List, [], ◌∷◌, ◌==◌, string_eq, if◌then◌else◌, contains,
  Result, ok, err, protocol_error, is_protocol_error, nat_eq, ◌*◌,
}
use call_backend.Prelude.Stateful.{Exec, ◌>>◌}
use call_backend.Transport.Payload.{Payload}
use call_backend.Reticulum.Framing.{
  Frame, FrameType, data_frame, ack, control, encode, FrameParser, make_parser, Fed, raised, frames,
  feed,
}
use call_backend.Reticulum.Protocol.{
  Wire, ControlType, ping, pong, close, ControlMessage, encode_control, decode_control,
  DataEnvelope, encode_data_envelope, decode_data_envelope,
}
use call_backend.Reticulum.Connection.{
  Config, Connection, Call, teardown, Writer, call, write, acknowledge, close_logical, send_data,
}

-- `on_application_message`, with all that it does to the connection.
abbrev pub Application : Type 0
Application = DataEnvelope → ℕ → Exec Connection (Unit {0})

-- What a dispatch uses: the writer, the owner of the connection, the formats of messages, the clock.
pub record Outlets : Type 0 where
  pub writer : Writer
  pub application : Application
  pub wire : Wire
  pub now : ℕ

-- A connection as `__init__` makes it; `draw` is what `secrets.randbits(63)` returns.
unfoldable pub with_parser : Config → ℕ → ℕ → FrameParser → Connection
with_parser config draw now parser = record {
  config = config;
  parser = parser;
  logical_connection_ids = [];
  closed_logical_connection_ids = [];
  pending = [];
  pending_bytes = 0;
  last_activity = now;
  closed = false;
  close_reason = none;
  next_message_id = if draw == 0 then 1 else draw;
  calls = [];
}

abbrev pub opened : Config → ℕ → ℕ → Result FrameParser → Result Connection
opened config draw now (err e) = err e
opened config draw now (ok parser) = ok (with_parser config draw now parser)

unfoldable pub open_connection : Config → ℕ → ℕ → Result Connection
unfolding with_parser
open_connection config draw now =
    opened config draw now (make_parser config.max_frame_size (config.max_frame_size * 2))

abbrev pub written : Outlets → Result (List ℕ) → Exec Connection (Unit {0})
written o (err e) c = (err e, c)
written o (ok bytes) c = write o.writer o.now bytes c

-- self._write(frame.encode(self.config.max_frame_size))
unfoldable pub write_frame : Outlets → Frame → Exec Connection (Unit {0})
write_frame o frame c = written o (encode c.config.max_frame_size frame) c

abbrev pub ack_of : ℕ → Frame
ack_of id = record { frame_type = ack; message_id = id; payload = [] }

-- `send_control`
abbrev pub control_written : Outlets → ℕ → Result (List ℕ) → Exec Connection (Unit {0})
control_written o id (err e) c = (err e, c)
control_written o id (ok payload) c =
    write_frame o (record { frame_type = control; message_id = id; payload = payload }) c

unfoldable pub send_control : Outlets → ControlType → ℕ → Exec Connection (Unit {0})
unfolding write_frame
send_control o kind id c =
    control_written o id (encode_control o.wire (record { kind = kind; connection_id = none })) c

-- `send_application`, with the clock when the message is stored.
abbrev pub application_sent : Outlets → ℕ → String → Result (List ℕ) → Exec Connection ℕ
application_sent o created connection_id (err e) c = (err e, c)
application_sent o created connection_id (ok envelope) c =
    send_data o.writer created o.now connection_id envelope c

unfoldable pub send_application : Outlets → ℕ → String → Payload → Exec Connection ℕ
send_application o created connection_id payload c =
    application_sent o created connection_id
      (encode_data_envelope o.wire connection_id payload none) c

abbrev pub or_empty : Option String → String
or_empty none = ""
or_empty (some id) = id

unfoldable pub on_kind : Outlets → ℕ → ControlType → Option String → Exec Connection (Unit {0})
unfolding send_control
on_kind o id ping connection_id c = send_control o pong id c
on_kind o id pong connection_id c = (ok tt, c)
on_kind o id close connection_id c = (ok tt, (close_logical (or_empty connection_id) c).1)

unfoldable pub on_control : Outlets → ℕ → Result ControlMessage → Exec Connection (Unit {0})
unfolding on_kind
on_control o id (err e) c = (err e, c)
on_control o id (ok m) c = on_kind o id m.kind m.connection_id c

-- A message of a logical connection that was closed is acknowledged and dropped.
unfoldable pub on_data : Outlets → ℕ → Result DataEnvelope → Exec Connection (Unit {0})
unfolding write_frame
on_data o id (err e) c = (err e, c)
on_data o id (ok e) c =
    if contains c.closed_logical_connection_ids e.connection_id
    then write_frame o (ack_of id) c
    else (o.application e id >> write_frame o (ack_of id)) c

unfoldable pub dispatch_typed : Outlets → FrameType → ℕ → List ℕ → Exec Connection (Unit {0})
unfolding on_control on_data
dispatch_typed o ack id payload c = (ok tt, (acknowledge id c).1)
dispatch_typed o control id payload c = on_control o id (decode_control o.wire payload) c
dispatch_typed o data_frame id payload c = on_data o id (decode_data_envelope o.wire payload) c

-- `_dispatch`
unfoldable pub dispatch : Outlets → Frame → Exec Connection (Unit {0})
unfolding dispatch_typed
dispatch o frame = dispatch_typed o frame.frame_type frame.message_id frame.payload

unfoldable pub dispatch_all : Outlets → List Frame → Exec Connection (Unit {0})
unfolding dispatch
dispatch_all o [] c = (ok tt, c)
dispatch_all o (frame ∷ rest) c = (dispatch o frame >> dispatch_all o rest) c

-- The frames of a delivery, or the `ProtocolError` that the parser raises.
unfoldable pub dispatch_fed : Outlets → Fed → Exec Connection (Unit {0})
unfolding dispatch_all
dispatch_fed o (raised fault) c = (err (protocol_error "invalid frame"), c)
dispatch_fed o (frames fs) c = dispatch_all o fs c

-- except ProtocolError: the connection ends and its link is torn down, whose own errors are passed
-- over.
unfoldable pub on_error : Result (Unit {0}) × Connection → Result (Unit {0}) × Connection
on_error (ok u, c) = (ok u, c)
on_error (err e, c) =
    if is_protocol_error e
    then (ok tt, call teardown (call_backend.Reticulum.Connection.close "protocol_error" c))
    else (err e, c)

-- `receive`
unfoldable pub receive : Outlets → List ℕ → Exec Connection (Unit {0})
unfolding dispatch_fed on_error
receive o bytes c =
    if c.closed
    then (ok tt, c)
    else let (fed, parser) = feed bytes c.parser in
      on_error (dispatch_fed o fed (record c { parser = parser; last_activity = o.now }))
