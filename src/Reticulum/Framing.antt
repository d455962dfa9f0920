-- ===== src/Reticulum/Framing.antt =====
-- src/qapp_backend/reticulum/framing.py: frames with a 14 byte header, and the parser that cuts
-- them out of a stream of bytes. `Framing.Bytes` has the fields of the header.
pub mod Bytes
pub mod Drain
pub mod Deliveries
pub mod RoundTrip
use call_backend.Prelude.{
  ℕ, zero, suc, ◌+◌, Bool, true, false, not, ◌&&◌, Option, none, some, List, [], ◌∷◌, ◌++◌,
  if◌then◌else◌, ◌==◌, nat_eq, ltb, leb, length, drop, Result, ok, err, value_error,
}
use call_backend.Reticulum.Framing.Bytes.{field, number, part}

abbrev pub protocol_version : ℕ
protocol_version = 1

abbrev pub header_size : ℕ
header_size = 14

abbrev pub protocol_max_frame_size : ℕ
protocol_max_frame_size = 262144

pub data FrameType : Type 0 where
  data_frame ack control : FrameType

abbrev pub type_number : FrameType → ℕ
type_number data_frame = 1
type_number ack = 2
type_number control = 3

-- `FrameType(raw_type)`, which raises on any other number.
unfoldable pub frame_type_of : ℕ → Option FrameType
frame_type_of n =
    if n == 1
    then some data_frame
    else if n == 2
    then some ack
    else if n == 3
    then some control
    else none

pub record Frame : Type 0 where
  pub frame_type : FrameType
  pub message_id : ℕ
  pub payload : List ℕ

unfoldable pub pack : Frame → List ℕ
pack f =
    field 1 protocol_version
    ++ field 1 (type_number f.frame_type)
    ++ field 8 f.message_id
    ++ field 4 (length f.payload)
    ++ f.payload

unfoldable pub encode : ℕ → Frame → Result (List ℕ)
encode max_frame_size f =
    if not (leb f.message_id 18446744073709551615)
    then err (value_error "message_id must be an unsigned 64-bit integer")
    else if ltb max_frame_size (length f.payload)
    then err (value_error "payload exceeds maximum frame size")
    else ok (pack f)

-- The `ProtocolError`s of `feed`.
pub data Fault : Type 0 where
  receive_buffer_exceeded payload_exceeds ack_payload : Fault
  unsupported_version unknown_type : ℕ → Fault

-- What one turn of the loop in `feed` makes of the buffer.
pub data Scan : Type 0 where
  waiting : Scan
  failed : Fault → Scan
  framed : Frame → List ℕ → Scan

abbrev pub is_ack : FrameType → Bool
is_ack data_frame = false
is_ack ack = true
is_ack control = false

unfoldable pub scan_payload : FrameType → ℕ → ℕ → List ℕ → Scan
scan_payload type size max_frame_size buffer =
    if ltb max_frame_size size
    then failed payload_exceeds
    else if ltb (length buffer) (header_size + size)
    then waiting
    else if is_ack type && not (length (part header_size size buffer) == 0)
    then failed ack_payload
    else framed
        (record {
          frame_type = type;
          message_id = number 0 (part 2 8 buffer);
          payload = part header_size size buffer;
        })
        (drop (header_size + size) buffer)

unfoldable pub scan_typed : Option FrameType → ℕ → List ℕ → Scan
scan_typed none max_frame_size buffer = failed (unknown_type (number 0 (part 1 1 buffer)))
scan_typed (some type) max_frame_size buffer =
    scan_payload type (number 0 (part 10 4 buffer)) max_frame_size buffer

unfoldable pub scan : ℕ → List ℕ → Scan
scan max_frame_size buffer =
    if ltb (length buffer) header_size
    then waiting
    else if not (number 0 (part 0 1 buffer) == protocol_version)
    then failed (unsupported_version (number 0 (part 0 1 buffer)))
    else scan_typed (frame_type_of (number 0 (part 1 1 buffer))) max_frame_size buffer

-- The frames cut out and the bytes left over, or the error that was raised.
pub data Drained : Type 0 where
  fault : Fault → Drained
  drained : List Frame → List ℕ → Drained

unfoldable pub with_frame : Frame → Drained → Drained
with_frame f (fault e) = fault e
with_frame f (drained fs rest) = drained (f ∷ fs) rest

abbrev pub turn : (List ℕ → Drained) → List ℕ → Scan → Drained
turn next buffer waiting = drained [] buffer
turn next buffer (failed e) = fault e
turn next buffer (framed f rest) = with_frame f (next rest)

-- The loop, on fuel: each frame takes bytes out of the buffer, so its length is enough.
unfoldable pub drain : ℕ → ℕ → List ℕ → Drained
drain max_frame_size zero buffer = drained [] buffer
drain max_frame_size (suc fuel) buffer =
    turn (drain max_frame_size fuel) buffer (scan max_frame_size buffer)

unfoldable pub drain_all : ℕ → List ℕ → Drained
drain_all max_frame_size buffer = drain max_frame_size (length buffer) buffer

pub record FrameParser : Type 0 where
  pub max_frame_size : ℕ
  pub max_receive_buffer_size : ℕ
  pub buffer : List ℕ

-- What `feed` raises or returns.
pub data Fed : Type 0 where
  raised : Fault → Fed
  frames : List Frame → Fed

unfoldable pub settle : FrameParser → Drained → Fed × FrameParser
settle p (fault e) = (raised e, record p { buffer = [] })
settle p (drained fs rest) = (frames fs, record p { buffer = rest })

unfoldable pub feed : List ℕ → FrameParser → Fed × FrameParser
feed bytes p =
    if ltb p.max_receive_buffer_size (length p.buffer + length bytes)
    then (raised receive_buffer_exceeded, record p { buffer = [] })
    else settle p (drain_all p.max_frame_size (p.buffer ++ bytes))

-- `FrameParser(max_frame_size, max_receive_buffer_size)`, where 0 stands for `None` too.
unfoldable pub make_parser : ℕ → ℕ → Result FrameParser
make_parser max_frame_size receive_size =
    let limit = if receive_size == 0 then max_frame_size + max_frame_size else receive_size in
    if not (ltb 0 max_frame_size && leb max_frame_size protocol_max_frame_size)
    then err (value_error "invalid max_frame_size")
    else if ltb limit (header_size + max_frame_size)
    then err (value_error "receive buffer must hold one maximum-sized frame")
    else ok
        (record { max_frame_size = max_frame_size; max_receive_buffer_size = limit; buffer = [] })
