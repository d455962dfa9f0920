-- ===== src/Reticulum/Connection/Arriving.antt =====
-- A message that a peer sends reaches the owner of the connection.
use call_backend.Prelude.{
  ℕ, ◌≤◌, String, ◌≡◌, refl, sym, ap, ◌∙◌, true, false, none, List, [], ◌∷◌, ◌++◌, arith, string_eq,
  contains, Result, ok, err, length, if◌then◌else◌,
}
use mathlib.Core.List.{append-nil}
use call_backend.Prelude.Stateful.{continue, ◌>>◌}
use call_backend.Prelude.Chains.{same_result}
use call_backend.Transport.Payload.{Payload}
use call_backend.Reticulum.Framing.{
  Frame, data_frame, encode, pack, FrameParser, Fed, frames, feed, protocol_max_frame_size,
}
use call_backend.Reticulum.Framing.RoundTrip.{Sendable, feed-pack_all}
use call_backend.Reticulum.Base64.RoundTrip.{AllBytes}
use call_backend.Reticulum.Protocol.{
  is_logical_id, encode_data_envelope, DataEnvelope, decode_data_envelope, decode_as,
}
use call_backend.Reticulum.Protocol.RoundTrip.{Reads, plain, envelope-round_trip}
use call_backend.Reticulum.Connection.{Connection}
use call_backend.Reticulum.Connection.Receiving.{
  Outlets, write_frame, ack_of, on_data, dispatch_typed, dispatch, dispatch_all, dispatch_fed,
  on_error, receive,
}

abbrev pub data_of : ℕ → List ℕ → Frame
data_of mid envelope = record { frame_type = data_frame; message_id = mid; payload = envelope }

record Encoded (max mid : ℕ) (envelope bytes : List ℕ) : Type 0 where
  sendable : Sendable max (data_of mid envelope)
  packed : bytes ≡ pack (data_of mid envelope)

encoded :
    (max mid : ℕ) (envelope bytes : List ℕ)
    → encode max (data_of mid envelope) ≡ ok bytes
    → Encoded max mid envelope bytes
unfolding encode
encoded max mid envelope bytes h = record {
  sendable = record {
    id_fits = ground arith;
    payload_fits = ground arith;
    ack_empty = λ never. absurd (ground arith);
  };
  packed = ground arith;
}

no_more :
    (r : Result (Unit {0}) × Connection)
    → continue {S = Connection} {A = Unit {0}} {B = Unit {0}} (λ _ c. (ok tt, c)) r.0 r.1 ≡ r
no_more (ok u, c) = refl
no_more (err e, c) = refl

-- What `receive` makes of one data frame whose logical connection is not closed.
module _ (o : Outlets) (c : Connection) (mid : ℕ) (e : DataEnvelope) (envelope : List ℕ) where
  one_dispatched :
      contains c.closed_logical_connection_ids e.connection_id ≡ false
      → decode_data_envelope o.wire envelope ≡ ok e
      → dispatch_fed o (frames (data_of mid envelope ∷ [])) c
        ≡ (o.application e mid >> write_frame o (ack_of mid)) c
  unfolding dispatch_fed dispatch_all dispatch dispatch_typed on_data
  one_dispatched live decoded =
      rw (decoded, live) (no_more ((o.application e mid >> write_frame o (ack_of mid)) c))

receive_open :
    (o : Outlets) (c : Connection) (bytes : List ℕ) (fed : Fed) (parser : FrameParser)
    → c.closed ≡ false
    → feed bytes c.parser ≡ (fed, parser)
    → receive o bytes c
      ≡ on_error (dispatch_fed o fed (record c { parser = parser; last_activity = o.now }))
unfolding receive
receive_open o c bytes fed parser up h =
    let after : Fed × FrameParser → Result (Unit {0}) × Connection =
      λ x. on_error (dispatch_fed o x.0 (record c { parser = x.1; last_activity = o.now })) in
    ap (λ b. if b then (ok tt, c) else after (feed bytes c.parser)) up ∙ ap after h

one_fed :
    (parser : FrameParser) (f : Frame) (bytes : List ℕ)
    → Sendable parser.max_frame_size f
    → bytes ≡ pack f
    → parser.max_frame_size ≤ protocol_max_frame_size
    → length bytes ≤ parser.max_receive_buffer_size
    → parser.buffer ≡ []
    → feed bytes parser ≡ (frames (f ∷ []), record parser { buffer = [] })
one_fed parser f bytes sendable packed limit room nothing =
    let alone : bytes ≡ pack f ++ [] = packed ∙ sym (append-nil (pack f)) in
    ap (λ b. feed b parser) alone
    ∙ feed-pack_all parser (f ∷ []) limit (sendable, tt) nothing
        (omega (arith, ap length alone, room))

-- An application payload arrives: where a peer can encode it for a logical connection, and the frame
-- for the connection, then receiving its bytes, with nothing of another frame kept before, hands the
-- owner an envelope of this logical connection whose payload is decoded to what was sent, under the
-- id of the frame, and then writes the acknowledgement of this id. The connection is open, the
-- logical connection was not closed, the buffer has room, and the formats of messages read back what
-- they write.
pub message_arrives :
    (o : Outlets) (c : Connection) (id reason : String) (p : Payload) (mid : ℕ)
    (envelope bytes : List ℕ)
    → Reads o.wire id p
    → is_logical_id id ≡ true
    → AllBytes (plain o.wire p)
    → encode_data_envelope o.wire id p none ≡ ok envelope
    → encode c.parser.max_frame_size (data_of mid envelope) ≡ ok bytes
    → c.parser.max_frame_size ≤ protocol_max_frame_size
    → length bytes ≤ c.parser.max_receive_buffer_size
    → c.parser.buffer ≡ []
    → c.closed ≡ false
    → contains c.closed_logical_connection_ids id ≡ false
    → (e : DataEnvelope) × (e.connection_id ≡ id)
      × (decode_as o.wire reason e.encoding e.payload ≡ ok p)
      × (receive o bytes c
          ≡ on_error (
              (o.application e mid >> write_frame o (ack_of mid))
                (record c { parser = record c.parser { buffer = [] }; last_activity = o.now })))
message_arrives o c id reason p mid envelope bytes reads named all writes packs limit room nothing
      up live =
    let (written, e, encodes, decodes, same_id, same_payload) =
      envelope-round_trip o.wire id reason p reads named all in
    let same : written ≡ envelope = same_result written envelope (sym encodes ∙ writes) in
    let x = encoded c.parser.max_frame_size mid envelope bytes packs in
    let fed =
      one_fed c.parser (data_of mid envelope) bytes x.sendable x.packed limit room nothing in
    (
      e,
      same_id,
      same_payload,
      receive_open o c bytes _ _ up fed
          ∙ ap on_error (
              one_dispatched o
                (record c { parser = record c.parser { buffer = [] }; last_activity = o.now }) mid e
                envelope (ap (contains c.closed_logical_connection_ids) same_id ∙ live)
                (ap (decode_data_envelope o.wire) (sym same) ∙ decodes)),
    )
