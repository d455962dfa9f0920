-- ===== src/Transport/Framing/Datagrams.antt =====
-- A datagram that is encoded is decoded again.
use call_backend.Prelude.{
  ℕ, ◌+◌, ◌≤◌, String, ◌≡◌, refl, ap, ◌∙◌, true, some, List, ◌++◌, arith, nat_eq, length,
  length-append, take, drop, take-length-append, drop-length-append, list_beq, ok,
}
use call_backend.Reticulum.Framing.Bytes.{field, number, part, number-field, drop-drop}
use call_backend.Transport.Framing.{
  max_datagram_payload_bytes, max_message_id_bytes, datagram_magic, Utf8, encode_datagram,
  decode_datagram, with_id,
}

abbrev datagram : List ℕ → List ℕ → List ℕ
datagram encoded_id payload =
    datagram_magic ++ field 1 1 ++ field 2 (length encoded_id) ++ encoded_id ++ payload

part-size :
    (encoded_id payload : List ℕ)
    → length encoded_id ≤ max_message_id_bytes
    → number 0 (part 5 2 (datagram encoded_id payload)) ≡ length encoded_id
unfolding field
part-size encoded_id payload h = number-field 2 (length encoded_id) (omega (arith, h))

part-id :
    (encoded_id payload : List ℕ)
    → part 7 (length encoded_id) (datagram encoded_id payload) ≡ encoded_id
unfolding field
part-id encoded_id payload = take-length-append encoded_id payload

rest-payload :
    (encoded_id payload : List ℕ)
    → drop (7 + length encoded_id) (datagram encoded_id payload) ≡ payload
unfolding field
rest-payload encoded_id payload =
    drop-drop 7 (length encoded_id) (datagram encoded_id payload)
    ∙ drop-length-append encoded_id payload

length-datagram :
    (encoded_id payload : List ℕ)
    → length (datagram encoded_id payload) ≡ 7 + (length encoded_id + length payload)
unfolding field
length-datagram encoded_id payload = omega (arith, length-append encoded_id payload)

magic-datagram :
    (encoded_id payload : List ℕ)
    → list_beq (take 4 (datagram encoded_id payload)) datagram_magic ≡ true
magic-datagram encoded_id payload = refl

version-datagram :
    (encoded_id payload : List ℕ) → number 0 (part 4 1 (datagram encoded_id payload)) ≡ 1
unfolding field number
version-datagram encoded_id payload = refl

decode-datagram :
    (utf8 : Utf8) (encoded_id payload : List ℕ)
    → 1 ≤ length encoded_id
    → length encoded_id ≤ max_message_id_bytes
    → length payload ≤ max_datagram_payload_bytes
    → decode_datagram utf8 (datagram encoded_id payload) ≡ with_id (utf8.decode encoded_id) payload
unfolding decode_datagram
decode-datagram utf8 encoded_id payload low high small =
    rw
      (
        part-size encoded_id payload high,
        part-id encoded_id payload,
        rest-payload encoded_id payload,
        length-datagram encoded_id payload,
        version-datagram encoded_id payload,
      )
      (ground arith)

-- A datagram that is encoded is decoded to its message id and payload, if the id's text is what
-- decoding its UTF-8 gives.
pub datagram-round_trip :
    (utf8 : Utf8) (message_id : String) (payload bytes : List ℕ)
    → utf8.decode (utf8.encode message_id) ≡ some message_id
    → encode_datagram utf8 message_id payload ≡ ok bytes
    → decode_datagram utf8 bytes ≡ ok (message_id, payload)
unfolding encode_datagram
datagram-round_trip utf8 message_id payload bytes text h =
    ap (decode_datagram utf8) (the_bytes)
    ∙ decode-datagram utf8 (utf8.encode message_id) payload (ground (arith, h)) (ground (arith, h))
        (ground (arith, h))
    ∙ ap (λ o. with_id o payload) text
    ∙ (unfold with_id in refl)
  where
    the_bytes : bytes ≡ datagram (utf8.encode message_id) payload
    the_bytes = ground (arith, h)
