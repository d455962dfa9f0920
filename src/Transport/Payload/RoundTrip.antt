-- ===== src/Transport/Payload/RoundTrip.antt =====
-- Payloads of the private transport, encoded and decoded.
use call_backend.Prelude.{◌≤◌, ◌+◌, ◌≡◌, refl, some, arith, length, ok}
use call_backend.Transport.Payload.{
  Json, Payload, json, binary, max_json_bytes, loaded, decode_marked, decode_payload,
  encode_payload,
}

-- The limit on JSON texts lets it through.
abbrev pub Fits : Json → Payload → Type 0
Fits codec (binary bytes) = Unit {0}
Fits codec (json v) = length (codec.dumps v) + 1 ≤ max_json_bytes

-- `loads` reads what `dumps` writes for it.
abbrev pub ReadsBack : Json → Payload → Type 0
ReadsBack codec (binary bytes) = Unit {0}
ReadsBack codec (json v) = codec.loads (codec.dumps v) ≡ some v

-- A payload comes back from its encoding: bytes always, a JSON value where the module `json` reads
-- back what it writes for it, and its text and the mark are at most 65,536 bytes long.
pub payload-round_trip :
    (codec : Json) (p : Payload)
    → ReadsBack codec p
    → Fits codec p
    → decode_payload codec (encode_payload codec p) ≡ ok p
unfolding decode_payload encode_payload decode_marked loaded
payload-round_trip codec (binary bytes) reads fit = refl
payload-round_trip codec (json v) reads fit = ground (arith, reads)
