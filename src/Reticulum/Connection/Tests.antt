-- ===== src/Reticulum/Connection/Tests.antt =====
-- The properties of a physical connection at concrete inputs.
use call_backend.Prelude.{
  ℕ, ◌≡◌, refl, true, Option, none, some, List, [], ◌∷◌, arith, ok, contains, codes, nat_eq,
  string_eq,
}
use call_backend.Prelude.Stateful.{◌>>◌}
use call_backend.Dict.{get}
use call_backend.Transport.Payload.{Payload, binary}
use call_backend.Reticulum.Base64.{b64encode, digit}
use call_backend.Reticulum.Framing.{FrameParser, make_parser, encode, pack}
use call_backend.Reticulum.Protocol.{
  Wire, envelope_value, encode_data_envelope, is_logical_id, DataEnvelope, decode_as,
}
use call_backend.Reticulum.Protocol.RoundTrip.{sent_value}
use call_backend.Reticulum.Connection.{Config, Connection, PendingMessage, Writer}
use call_backend.Reticulum.Connection.Totals.{frame_at}
use call_backend.Reticulum.Connection.Limits.{Fits, KeepsLimits}
use call_backend.Reticulum.Connection.Receiving.{
  Outlets, with_parser, open_connection, write_frame, ack_of, on_error, receive, send_application,
}
use call_backend.Reticulum.Connection.Steps.{
  KeepsOutlets, received, sent, fresh, then_step, reached-Fits,
}
use call_backend.Reticulum.Connection.Arriving.{data_of, message_arrives}

-- A link that takes every write, and nothing else happens.
abbrev quiet : Writer
quiet bytes c = (ok tt, c)

same_frame :
    (o : Option PendingMessage) (f g : List ℕ) → frame_at o ≡ some f → frame_at o ≡ some g → g ≡ f
same_frame none f g h k = absurd (ground arith)
same_frame (some p) f g h k = ground (arith, h, k)

abbrev quiet_KeepsLimits : KeepsLimits quiet
quiet_KeepsLimits = record {
  fits = λ bytes c h. h;
  same = λ bytes c id f g h k. same_frame (get c.pending id) f g h k;
}

abbrev payload : Payload
payload = binary (1 ∷ 2 ∷ [])

-- A wire that knows one text, that of the envelope below: its base64 is AQI=.
abbrev text_only : Wire
text_only = record {
  codec = record { loads = λ bytes. none; dumps = λ v. [] };
  ascii = λ bytes. "AQI=";
}

abbrev wire : Wire
wire = record text_only {
  codec = record {
    loads = λ bytes. some (sent_value text_only "tab" payload);
    dumps = λ v. 123 ∷ 125 ∷ [];
  };
}

-- The owner takes every message and does nothing to the connection.
abbrev outlets : Outlets
outlets = record { writer = quiet; application = λ e id c. (ok tt, c); wire = wire; now = 7 }

abbrev outlets_KeepsOutlets : KeepsOutlets outlets
outlets_KeepsOutlets = record { writes = quiet_KeepsLimits; handles = λ e id c l. l }

abbrev config : Config
config = record {
  max_frame_size = 16;
  max_queue_bytes = 40;
  max_unacked_messages = 2;
  ack_timeout = 120000;
}

abbrev start : Connection
start =
    with_parser config 300 0
      (record { max_frame_size = 16; max_receive_buffer_size = 32; buffer = [] })

opens : open_connection config 300 0 ≡ ok start
unfolding open_connection make_parser
opens = refl

reached-Fits_example :
    Fits (receive outlets (1 ∷ 2 ∷ []) (send_application outlets 3 "tab" payload start).1).1
reached-Fits_example = reached-Fits _ (
    then_step _ _
      (then_step _ _ (fresh config 300 0 start opens)
        (sent start outlets 3 "tab" payload outlets_KeepsOutlets))
      (received (send_application outlets 3 "tab" payload start).1 outlets (1 ∷ 2 ∷ [])
        outlets_KeepsOutlets))

reads_envelope :
    wire.codec.loads (wire.codec.dumps (sent_value wire "tab" payload))
    ≡ some (sent_value wire "tab" payload)
unfolding envelope_value
reads_envelope = refl

named : is_logical_id "tab" ≡ true
unfolding is_logical_id
named = refl

abbrev envelope : List ℕ
envelope = 123 ∷ 125 ∷ []

abbrev delivery : List ℕ
delivery = 1 ∷ 1 ∷ 0 ∷ 0 ∷ 0 ∷ 0 ∷ 0 ∷ 0 ∷ 1 ∷ 44 ∷ 0 ∷ 0 ∷ 0 ∷ 2 ∷ 123 ∷ 125 ∷ []

writes : encode_data_envelope wire "tab" payload none ≡ ok envelope
unfolding encode_data_envelope
writes = refl

packs : encode 16 (data_of 300 envelope) ≡ ok delivery
unfolding encode pack call_backend.Reticulum.Framing.Bytes.field
packs = refl

same_text : codes "AQI=" ≡ b64encode (1 ∷ 2 ∷ [])
unfolding b64encode digit
same_text = refl

message_arrives_example :
    (e : DataEnvelope) × (e.connection_id ≡ "tab")
    × (decode_as wire "invalid" e.encoding e.payload ≡ ok payload)
    × (receive outlets delivery start
        ≡ on_error (
            (outlets.application e 300 >> write_frame outlets (ack_of 300))
              (record start { parser = record start.parser { buffer = [] }; last_activity = 7 })))
unfolding with_parser contains
message_arrives_example =
    message_arrives outlets start "tab" "invalid" payload 300 envelope delivery
      (record {
        envelope = reads_envelope;
        inner = λ v never. absurd (ground arith);
        is_ascii = same_text;
      })
      named (omega arith, (omega arith, tt)) writes packs (omega arith) (omega arith) refl refl refl
