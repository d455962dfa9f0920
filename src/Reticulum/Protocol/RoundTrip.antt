-- ===== src/Reticulum/Protocol/RoundTrip.antt =====
-- Messages of the protocol come back from their bytes.
use call_backend.Prelude.{
  ℕ, String, true, false, subst, ◌≡◌, refl, ap, Option, none, some, List, arith, ◌==◌, string_eq,
  ==_iff, codes, contains, same_elements, ok, length, Bool-cases, inl, inr,
}
use call_backend.Value.{
  Value, dict, text, field, end, get_field, as_text, exact_fields, field_names,
}
use call_backend.Transport.Payload.{Payload, json, binary}
use call_backend.Reticulum.Base64.{b64encode}
use call_backend.Reticulum.Base64.RoundTrip.{AllBytes, b64decode-b64encode}
use call_backend.Reticulum.Protocol.{
  Wire, is_logical_id, ControlType, ping, pong, close, ControlMessage, control_name, control_value,
  control_type_of, control_fields, encode_control, decode_control, encoding_of, encoding_for,
  encoding_name, chosen, raw_of, envelope_value, encode_data_envelope, DataEnvelope,
  decode_data_envelope, decode_as, typed_control, kind_in, type_field,
}

-- The bytes of a payload, and the object of its envelope.
abbrev pub plain : Wire → Payload → List ℕ
plain wire (binary bytes) = bytes
plain wire (json v) = wire.codec.dumps v

abbrev pub sent_value : Wire → String → Payload → Value
sent_value wire id p = envelope_value wire id (encoding_name (encoding_for p)) (plain wire p)

-- What the modules of the wire do for one application payload: `json` reads back the text that it
-- writes for the envelope and, unless the payload is bytes, for the payload; base64 text is ASCII.
pub record Reads (wire : Wire) (id : String) (p : Payload) : Type 0 where
  pub envelope :
      wire.codec.loads (wire.codec.dumps (sent_value wire id p)) ≡ some (sent_value wire id p)
  pub inner : (v : Value) → p ≡ json v → wire.codec.loads (wire.codec.dumps v) ≡ some v
  pub is_ascii : codes (wire.ascii (b64encode (plain wire p))) ≡ b64encode (plain wire p)

inner_round_trip :
    (wire : Wire) (id reason : String) (p : Payload)
    → Reads wire id p
    → decode_as wire reason (encoding_for p) (plain wire p) ≡ ok p
unfolding decode_as
inner_round_trip wire id reason (binary bytes) reads = refl
inner_round_trip wire id reason (json v) reads = rw (reads.inner v refl) refl

fields_round_trip :
    (wire : Wire) (id : String) (p : Payload)
    → Reads wire id p
    → is_logical_id id ≡ true
    → AllBytes (plain wire p)
    → decode_data_envelope wire (wire.codec.dumps (sent_value wire id p))
      ≡ ok (record { connection_id = id; encoding = encoding_for p; payload = plain wire p })
unfolding decode_data_envelope envelope_value get_field as_text encoding_of
fields_round_trip wire id (binary bytes) reads named all =
    rw (reads.envelope, named, reads.is_ascii, b64decode-b64encode bytes all) refl
fields_round_trip wire id (json v) reads named all =
    rw (reads.envelope, named, reads.is_ascii, b64decode-b64encode (wire.codec.dumps v) all) refl

raw_of-chosen : (wire : Wire) (p : Payload) → raw_of wire (chosen none p) p ≡ ok (plain wire p)
unfolding raw_of
raw_of-chosen wire (binary bytes) = refl
raw_of-chosen wire (json v) = refl

not_empty : (id : String) → is_logical_id id ≡ true → (id == "") ≡ false
unfolding is_logical_id
not_empty id named = elim (Bool-cases (id == "")) [
  | inl same ↦ absurd (ground (arith, named, ap (λ s. length (codes s)) ((==_iff id "").0 same)))
  | inr other ↦ other
]

-- An application payload gets through: for a logical id of 1 to 128 characters and bytes as payload
-- text, the envelope that is encoded without a choice of encoding is decoded to the same id, and its
-- payload to the same payload, where `json` reads back what it writes and ASCII text keeps its
-- characters.
pub envelope-round_trip :
    (wire : Wire) (id reason : String) (p : Payload)
    → Reads wire id p
    → is_logical_id id ≡ true
    → AllBytes (plain wire p)
    → (bytes : List ℕ) × (e : DataEnvelope) × (encode_data_envelope wire id p none ≡ ok bytes)
      × (decode_data_envelope wire bytes ≡ ok e)
      × (e.connection_id ≡ id)
      × (decode_as wire reason e.encoding e.payload ≡ ok p)
unfolding encode_data_envelope
envelope-round_trip wire id reason p reads named all = (
  wire.codec.dumps (sent_value wire id p),
  record { connection_id = id; encoding = encoding_for p; payload = plain wire p },
  rw (not_empty id named, raw_of-chosen wire p) refl,
  fields_round_trip wire id p reads named all,
  refl,
  inner_round_trip wire id reason p reads,
)

abbrev Decodes : ControlType → Option String → Value → Type 0
Decodes k id v =
    typed_control (kind_in (type_field v)) v ≡ some (record { kind = k; connection_id = id })

control_fields_round_trip :
    (k : ControlType) (id : Option String) (v : Value) → control_value k id ≡ ok v → Decodes k id v
unfolding control_value control_fields control_name control_type_of get_field as_text exact_fields
    field_names same_elements contains
control_fields_round_trip ping none v h =
    let e : dict (field "type" (text "PING") end) ≡ v = ground arith in
    subst (Decodes ping none) e refl
control_fields_round_trip ping (some id) v h = absurd (ground arith)
control_fields_round_trip pong none v h =
    let e : dict (field "type" (text "PONG") end) ≡ v = ground arith in
    subst (Decodes pong none) e refl
control_fields_round_trip pong (some id) v h = absurd (ground arith)
control_fields_round_trip close none v h = absurd (ground arith)
control_fields_round_trip close (some id) v h = elim (Bool-cases (is_logical_id id)) [
  | inl named ↦
      let e : dict (field "type" (text "CLOSE") (field "connectionId" (text id) end)) ≡ v =
        ground (arith, named) in
      subst (Decodes close (some id)) e (rw named refl)
  | inr bad ↦ absurd (ground (arith, bad))
]

-- A control message that can be encoded is decoded to itself, where `json` reads back the text that
-- it writes for it.
pub control-round_trip :
    (wire : Wire) (m : ControlMessage) (v : Value)
    → control_value m.kind m.connection_id ≡ ok v
    → wire.codec.loads (wire.codec.dumps v) ≡ some v
    → (encode_control wire m ≡ ok (wire.codec.dumps v))
      × (decode_control wire (wire.codec.dumps v) ≡ ok m)
unfolding encode_control decode_control
control-round_trip wire m v writes reads =
    (rw writes refl, rw reads (rw (control_fields_round_trip m.kind m.connection_id v writes) refl))
