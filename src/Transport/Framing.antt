-- ===== src/Transport/Framing.antt =====
-- src/qapp_backend/private_transport/framing.py: the frames of the reliable stream and the
-- datagrams. Bytes are numbers; `Reticulum.Framing.Bytes` has the big-endian fields.
pub mod Datagrams
pub mod RoundTrip
use call_backend.Prelude.{
  ℕ, zero, suc, ◌+◌, ◌-◌, ◌<◌, String, Bool, true, false, not, ◌&&◌, ◌||◌, Option, none, some, List,
  [], ◌∷◌, ◌++◌, if◌then◌else◌, ◌==◌, nat_eq, ltb, leb, min, length, take, drop, list_beq, Result,
  ok, err, value_error,
}
use call_backend.Reticulum.Framing.Bytes.{field, number, part}

abbrev pub max_metadata_bytes : ℕ
max_metadata_bytes = 4096

abbrev pub max_reliable_payload_bytes : ℕ
max_reliable_payload_bytes = 1048576

abbrev pub max_datagram_payload_bytes : ℕ
max_datagram_payload_bytes = 1024

abbrev pub max_message_id_bytes : ℕ
max_message_id_bytes = 128

abbrev pub header_size : ℕ
header_size = 12

-- b"QP3F", b"QP3D"
abbrev pub stream_magic : List ℕ
stream_magic = 81 ∷ 80 ∷ 51 ∷ 70 ∷ []

abbrev pub datagram_magic : List ℕ
datagram_magic = 81 ∷ 80 ∷ 51 ∷ 68 ∷ []

pub record Frame : Type 0 where
  pub frame_type : ℕ
  pub metadata : List ℕ
  pub payload : List ℕ

unfoldable pub pack : Frame → List ℕ
pack f =
    stream_magic
    ++ field 1 1
    ++ field 1 f.frame_type
    ++ field 2 (length f.metadata)
    ++ field 4 (length f.payload)
    ++ f.metadata
    ++ f.payload

-- `encode_frame`; a frame type that is no byte is not modelled, the code uses 1, 2 and 3.
unfoldable pub encode_frame : Frame → Result (List ℕ)
encode_frame f =
    if ltb max_metadata_bytes (length f.metadata)
      || ltb max_reliable_payload_bytes (length f.payload)
    then err (value_error "inner frame exceeds limit")
    else ok (pack f)

-- What one turn of the loop in `feed` does with the buffer and the bytes that are still to come:
-- it stops, it raises, or it has cut out a frame.
pub data Turn : Type 0 where
  stop : List ℕ → Turn
  fail : String → List ℕ → Turn
  cut : Frame → List ℕ → List ℕ → Turn

unfoldable pub cut_frame : ℕ → ℕ → List ℕ → List ℕ → Turn
cut_frame metadata_length payload_length buffer incoming =
    let total = header_size + metadata_length + payload_length in
    if ltb (length buffer) total
    then stop buffer
    else cut
        (record {
          frame_type = number 0 (part 5 1 buffer);
          metadata = part header_size metadata_length buffer;
          payload = part (header_size + metadata_length) payload_length buffer;
        })
        (drop total buffer) incoming

unfoldable pub read_body : ℕ → List ℕ → List ℕ → Turn
unfolding cut_frame
read_body max_payload_bytes buffer incoming =
    let metadata_length = number 0 (part 6 2 buffer) in
    let payload_length = number 0 (part 8 4 buffer) in
    let want =
      min (header_size + metadata_length + payload_length - length buffer) (length incoming) in
    if not (list_beq (take 4 buffer) stream_magic) || not (number 0 (part 4 1 buffer) == 1)
    then fail "unsupported inner stream protocol" buffer
    else if ltb max_metadata_bytes metadata_length || ltb max_payload_bytes payload_length
    then fail "inner frame exceeds limit" buffer
    else cut_frame metadata_length payload_length (buffer ++ take want incoming)
        (drop want incoming)

unfoldable pub read_header : ℕ → List ℕ → List ℕ → Turn
unfolding read_body
read_header max_payload_bytes buffer incoming =
    if ltb (length buffer) header_size
    then stop buffer
    else read_body max_payload_bytes buffer incoming

unfoldable pub turn : ℕ → List ℕ → List ℕ → Turn
unfolding read_header
turn max_payload_bytes buffer incoming =
    let want = min (header_size - length buffer) (length incoming) in
    read_header max_payload_bytes (buffer ++ take want incoming) (drop want incoming)

-- The frames of a delivery, or the error, and the buffer afterwards.
unfoldable pub with_frame : Frame → Result (List Frame) × List ℕ → Result (List Frame) × List ℕ
with_frame f (ok fs, buffer) = (ok (f ∷ fs), buffer)
with_frame f (err e, buffer) = (err e, buffer)

abbrev pub next :
    (List ℕ → List ℕ → Result (List Frame) × List ℕ) → Turn → Result (List Frame) × List ℕ
next rest (stop buffer) = (ok [], buffer)
next rest (fail text buffer) = (err (value_error text), buffer)
next rest (cut f buffer incoming) = with_frame f (rest buffer incoming)

-- The loop `while offset < len(incoming)`, on fuel: each frame takes at least one byte.
unfoldable pub feed : ℕ → ℕ → List ℕ → List ℕ → Result (List Frame) × List ℕ
unfolding turn
feed max_payload_bytes fuel buffer [] = (ok [], buffer)
feed max_payload_bytes zero buffer (b ∷ bs) = (ok [], buffer)
feed max_payload_bytes (suc fuel) buffer (b ∷ bs) =
    next (feed max_payload_bytes fuel) (turn max_payload_bytes buffer (b ∷ bs))

-- `bytes.decode("utf-8")`, `str.encode("utf-8")`
pub record Utf8 : Type 0 where
  pub decode : List ℕ → Option String
  pub encode : String → List ℕ

unfoldable pub encode_datagram : Utf8 → String → List ℕ → Result (List ℕ)
encode_datagram utf8 message_id payload =
    let encoded_id = utf8.encode message_id in
    if not (leb 1 (length encoded_id) && leb (length encoded_id) max_message_id_bytes)
      || ltb max_datagram_payload_bytes (length payload)
    then err (value_error "invalid inner datagram")
    else ok (datagram_magic ++ field 1 1 ++ field 2 (length encoded_id) ++ encoded_id ++ payload)

unfoldable pub with_id : Option String → List ℕ → Result (String × List ℕ)
with_id none payload = err (value_error "invalid datagram message ID")
with_id (some message_id) payload = ok (message_id, payload)

unfoldable pub decode_datagram : Utf8 → List ℕ → Result (String × List ℕ)
unfolding with_id
decode_datagram utf8 bytes =
    let size = number 0 (part 5 2 bytes) in
    if ltb (length bytes) 7
      || not (list_beq (take 4 bytes) datagram_magic)
      || not (number 0 (part 4 1 bytes) == 1)
    then err (value_error "invalid inner datagram")
    else if not (leb 1 size && leb size max_message_id_bytes)
        || ltb (length bytes) (7 + size)
        || ltb max_datagram_payload_bytes (length bytes - (7 + size))
    then err (value_error "invalid inner datagram lengths")
    else with_id (utf8.decode (part 7 size bytes)) (drop (7 + size) bytes)
