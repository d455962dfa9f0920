-- ===== src/Transport/Framing/RoundTrip.antt =====
-- A stream of frames that is encoded for the private transport is decoded again.
use call_backend.Prelude.{
  ℕ, zero, suc, ◌+◌, ◌-◌, ◌≤◌, ◌<◌, ◌≡◌, refl, sym, ap, ◌∙◌, true, List, [], ◌∷◌, ◌++◌, arith,
  nat_eq, min, length, length-append, take, drop, take-length-append, drop-length-append, list_beq,
  ok,
}
use call_backend.Reticulum.Framing.Bytes.{field, number, part, number-field, drop-drop}
use call_backend.Transport.Framing.{
  max_metadata_bytes, max_reliable_payload_bytes, stream_magic, Frame, pack, cut, cut_frame,
  read_body, read_header, turn, with_frame, next, feed,
}

-- A frame that the peer accepts.
pub record Sendable (max_payload_bytes : ℕ) (f : Frame) : Type 0 where
  pub type_fits : f.frame_type < 256
  pub metadata_fits : length f.metadata ≤ max_metadata_bytes
  pub payload_fits : length f.payload ≤ max_reliable_payload_bytes
  pub peer_accepts : length f.payload ≤ max_payload_bytes

header : Frame → List ℕ
unfolding field
header f =
    81 ∷ 80 ∷ 51 ∷ 70 ∷ 1 ∷ field 1 f.frame_type
    ++ field 2 (length f.metadata)
    ++ field 4 (length f.payload)

take_all : (xs : List ℕ) → take (length xs) xs ≡ xs
take_all [] = refl
take_all (x ∷ xs) = ap (◌∷◌ x) (take_all xs)

drop_all : (xs : List ℕ) → drop (length xs) xs ≡ []
drop_all [] = refl
drop_all (x ∷ xs) = drop_all xs

body : Frame → List ℕ
body f = f.metadata ++ f.payload

length-body : (f : Frame) → length (body f) ≡ length f.metadata + length f.payload
unfolding body
length-body f = length-append f.metadata f.payload

-- The whole frame in the buffer is cut out.
whole-cut :
    (max_payload_bytes : ℕ) (f : Frame) (more : List ℕ)
    → Sendable max_payload_bytes f
    → cut_frame (length f.metadata) (length f.payload) (header f ++ body f) more ≡ cut f [] more
unfolding cut_frame
whole-cut max_payload_bytes f more s =
    rw (of_length, of_type, of_metadata, of_payload, of_rest) (ground arith)
  where
    of_length : length (header f ++ body f) ≡ 12 + length f.metadata + length f.payload
    of_length = unfold header field in omega (arith, length-body f)

    of_type : number 0 (part 5 1 (header f ++ body f)) ≡ f.frame_type
    of_type = unfold header field in number-field 1 f.frame_type (omega (arith, s.type_fits))

    of_metadata : part 12 (length f.metadata) (header f ++ body f) ≡ f.metadata
    of_metadata = unfold header field body in take-length-append f.metadata f.payload

    of_payload : part (12 + length f.metadata) (length f.payload) (header f ++ body f) ≡ f.payload
    of_payload =
        ap (take (length f.payload)) {y = f.payload} (
          drop-drop 12 (length f.metadata) (header f ++ body f)
          ∙ (unfold header field body in drop-length-append f.metadata f.payload))
        ∙ take_all f.payload

    of_rest : drop (12 + length f.metadata + length f.payload) (header f ++ body f) ≡ []
    of_rest = ap (λ n. drop n (header f ++ body f)) (sym of_length) ∙ drop_all (header f ++ body f)

body-read :
    (max_payload_bytes : ℕ) (f : Frame) (more : List ℕ)
    → Sendable max_payload_bytes f
    → read_body max_payload_bytes (header f) (body f ++ more) ≡ cut f [] more
unfolding read_body
body-read max_payload_bytes f more s =
    rw
      (
        of_version,
        of_metadata,
        of_payload,
        of_want,
        of_take,
        of_drop,
        whole-cut max_payload_bytes f more s,
      )
      (ground (arith, s.metadata_fits, s.peer_accepts, of_magic))
  where
    of_magic : list_beq (take 4 (header f)) stream_magic ≡ true
    of_magic = unfold header in refl

    of_version : number 0 (part 4 1 (header f)) ≡ 1
    of_version = unfold header number in refl

    of_metadata : number 0 (part 6 2 (header f)) ≡ length f.metadata
    of_metadata =
        unfold header field in number-field 2 (length f.metadata) (omega (arith, s.metadata_fits))

    of_payload : number 0 (part 8 4 (header f)) ≡ length f.payload
    of_payload =
        unfold header field in number-field 4 (length f.payload) (omega (arith, s.payload_fits))

    of_want :
        min
          (12 + length f.metadata + length f.payload - length (header f))
          (length (body f ++ more))
        ≡ length (body f)
    of_want = unfold header field in omega (arith, length-body f, length-append (body f) more)

    of_take : take (length (body f)) (body f ++ more) ≡ body f
    of_take = take-length-append (body f) more

    of_drop : drop (length (body f)) (body f ++ more) ≡ more
    of_drop = drop-length-append (body f) more

pack-header : (f : Frame) (more : List ℕ) → pack f ++ more ≡ header f ++ (body f ++ more)
unfolding pack header field body
pack-header f more = refl

length-pack : (f : Frame) (more : List ℕ) → length more + 12 ≤ length (pack f ++ more)
unfolding pack field
length-pack f more = omega (arith, length-append (f.metadata ++ f.payload) more)

turn-header :
    (max_payload_bytes : ℕ) (f : Frame) (rest : List ℕ)
    → turn max_payload_bytes [] (header f ++ rest) ≡ read_body max_payload_bytes (header f) rest
unfolding turn read_header
turn-header max_payload_bytes f rest = rw (of_want, of_take, of_drop, of_length) refl
  where
    of_length : length (header f) ≡ 12
    of_length = unfold header field in refl

    of_want : min 12 (length (header f ++ rest)) ≡ 12
    of_want = unfold header field in omega arith

    of_take : take 12 (header f ++ rest) ≡ header f
    of_take = unfold header field in refl

    of_drop : drop 12 (header f ++ rest) ≡ rest
    of_drop = unfold header field in refl

turn-pack :
    (max_payload_bytes : ℕ) (f : Frame) (more : List ℕ)
    → Sendable max_payload_bytes f
    → turn max_payload_bytes [] (pack f ++ more) ≡ cut f [] more
turn-pack max_payload_bytes f more s =
    ap (turn max_payload_bytes []) (pack-header f more)
    ∙ turn-header max_payload_bytes f (body f ++ more)
    ∙ body-read max_payload_bytes f more s

feed-turn :
    (max_payload_bytes fuel : ℕ) (bytes : List ℕ) (f : Frame) (rest : List ℕ)
    → 0 < length bytes
    → turn max_payload_bytes [] bytes ≡ cut f [] rest
    → feed max_payload_bytes (suc fuel) [] bytes
      ≡ with_frame f (feed max_payload_bytes fuel [] rest)
unfolding feed
feed-turn max_payload_bytes fuel [] f rest h e = absurd (omega arith)
feed-turn max_payload_bytes fuel (b ∷ bs) f rest h e = ap (next (feed max_payload_bytes fuel)) e

feed-nil : (max_payload_bytes fuel : ℕ) → feed max_payload_bytes fuel [] [] ≡ (ok [], [])
unfolding feed
feed-nil max_payload_bytes zero = refl
feed-nil max_payload_bytes (suc fuel) = refl

abbrev pub pack_all : List Frame → List ℕ
pack_all [] = []
pack_all (f ∷ fs) = pack f ++ pack_all fs

abbrev pub AllSendable : ℕ → List Frame → Type 0
AllSendable max_payload_bytes [] = Unit {0}
AllSendable max_payload_bytes (f ∷ fs) =
    Sendable max_payload_bytes f × AllSendable max_payload_bytes fs

-- Frames that the peer accepts, sent one after the other, are cut out of one delivery again, in
-- their order, and nothing is kept.
pub stream-round_trip :
    (max_payload_bytes fuel : ℕ) (fs : List Frame)
    → AllSendable max_payload_bytes fs
    → length (pack_all fs) ≤ fuel
    → feed max_payload_bytes fuel [] (pack_all fs) ≡ (ok fs, [])
stream-round_trip max_payload_bytes fuel [] s h = feed-nil max_payload_bytes fuel
stream-round_trip max_payload_bytes zero (f ∷ fs) s h =
    absurd (omega (arith, h, length-pack f (pack_all fs)))
stream-round_trip max_payload_bytes (suc fuel) (f ∷ fs) s h =
    feed-turn max_payload_bytes fuel (pack f ++ pack_all fs) f (pack_all fs)
      (omega (arith, length-pack f (pack_all fs))) (turn-pack max_payload_bytes f (pack_all fs) s.0)
    ∙ ap (with_frame f) (
        stream-round_trip max_payload_bytes fuel fs s.1
          (omega (arith, h, length-pack f (pack_all fs))))
    ∙ (unfold with_frame in refl)
