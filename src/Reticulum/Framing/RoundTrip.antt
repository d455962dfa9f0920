-- ===== src/Reticulum/Framing/RoundTrip.antt =====
-- What `encode` writes, the parser reads.
use call_backend.Prelude.{
  ℕ, zero, suc, ◌+◌, ◌≤◌, ◌≡◌, refl, sym, ap, ◌∙◌, false, not, ◌&&◌, some, List, [], ◌∷◌, ◌++◌,
  arith, ◌==◌, nat_eq, length, length-append, drop, take-length-append, drop-length-append, ok,
}
use mathlib.Core.List.{append-nil}
use call_backend.Reticulum.Framing.Bytes.{field, number, part, number-field, drop-drop}
use call_backend.Reticulum.Framing.{
  Frame, FrameType, data_frame, ack, control, type_number, frame_type_of, is_ack, pack, encode,
  scan, scan_typed, scan_payload, framed, drained, with_frame, turn, drain, drain_all, FrameParser,
  Fed, raised, frames, feed, settle, protocol_max_frame_size, protocol_version,
}
use call_backend.Reticulum.Framing.Drain.{drain-nil}
use call_backend.Reticulum.Framing.Deliveries.{feed-fits, feed-append, feed-prefix, also}

-- A frame that its sender can encode and that is no ACK with a payload.
pub record Sendable (max_frame_size : ℕ) (f : Frame) : Type 0 where
  pub id_fits : f.message_id ≤ 18446744073709551615
  pub payload_fits : length f.payload ≤ max_frame_size
  pub ack_empty : f.frame_type ≡ ack → f.payload ≡ []

type-round : (t : FrameType) → frame_type_of (number 0 (field 1 (type_number t))) ≡ some t
unfolding frame_type_of number field
type-round data_frame = refl
type-round ack = refl
type-round control = refl

ack_passes :
    (max_frame_size : ℕ) (f : Frame)
    → Sendable max_frame_size f
    → (is_ack f.frame_type && not (length f.payload == 0)) ≡ false
ack_passes max_frame_size f s = by_type f.frame_type s.ack_empty
  where
    by_type :
        (t : FrameType)
        → (t ≡ ack → f.payload ≡ [])
        → (is_ack t && not (length f.payload == 0)) ≡ false
    by_type data_frame h = refl
    by_type ack h = ground (arith, ap length (h refl))
    by_type control h = refl

-- The header and what follows it, read back.
length-pack :
    (f : Frame) (more : List ℕ) → length (pack f ++ more) ≡ 14 + (length f.payload + length more)
unfolding pack field
length-pack f more = omega (arith, length-append f.payload more)

part-payload : (f : Frame) (more : List ℕ) → part 14 (length f.payload) (pack f ++ more) ≡ f.payload
unfolding pack field
part-payload f more = take-length-append f.payload more

rest-pack : (f : Frame) (more : List ℕ) → drop (14 + length f.payload) (pack f ++ more) ≡ more
unfolding pack field
rest-pack f more =
    drop-drop 14 (length f.payload) (pack f ++ more) ∙ drop-length-append f.payload more

part-id :
    (f : Frame) (more : List ℕ)
    → f.message_id ≤ 18446744073709551615
    → number 0 (part 2 8 (pack f ++ more)) ≡ f.message_id
unfolding pack field
part-id f more h = unfold field in number-field 8 f.message_id (omega (arith, h))

part-size :
    (f : Frame) (more : List ℕ)
    → length f.payload ≤ protocol_max_frame_size
    → number 0 (part 10 4 (pack f ++ more)) ≡ length f.payload
unfolding pack field
part-size f more h = number-field 4 (length f.payload) (omega (arith, h))

part-type :
    (f : Frame) (more : List ℕ)
    → frame_type_of (number 0 (part 1 1 (pack f ++ more))) ≡ some f.frame_type
unfolding pack field
part-type f more = type-round f.frame_type

part-version : (f : Frame) (more : List ℕ) → number 0 (part 0 1 (pack f ++ more)) ≡ protocol_version
unfolding pack field number
part-version f more = refl

payload-pack :
    (max_frame_size : ℕ) (f : Frame) (more : List ℕ)
    → Sendable max_frame_size f
    → scan_payload f.frame_type (length f.payload) max_frame_size (pack f ++ more) ≡ framed f more
unfolding scan_payload
payload-pack max_frame_size f more s =
    rw
      (
        part-payload f more,
        rest-pack f more,
        part-id f more s.id_fits,
        length-pack f more,
        ack_passes max_frame_size f s,
      )
      (ground (arith, s.payload_fits))

scan-pack :
    (max_frame_size : ℕ) (f : Frame) (more : List ℕ)
    → max_frame_size ≤ protocol_max_frame_size
    → Sendable max_frame_size f
    → scan max_frame_size (pack f ++ more) ≡ framed f more
unfolding scan scan_typed
scan-pack max_frame_size f more m s =
    rw
      (
        length-pack f more,
        part-version f more,
        part-type f more,
        part-size f more (omega (arith, m, s.payload_fits)),
        payload-pack max_frame_size f more s,
      )
      (ground arith)

-- The bytes of frames sent one after the other.
abbrev pub pack_all : List Frame → List ℕ
pack_all [] = []
pack_all (f ∷ fs) = pack f ++ pack_all fs

abbrev pub AllSendable : ℕ → List Frame → Type 0
AllSendable max_frame_size [] = Unit {0}
AllSendable max_frame_size (f ∷ fs) = Sendable max_frame_size f × AllSendable max_frame_size fs

drain-pack_all :
    (max_frame_size fuel : ℕ) (fs : List Frame)
    → max_frame_size ≤ protocol_max_frame_size
    → AllSendable max_frame_size fs
    → length (pack_all fs) ≤ fuel
    → drain max_frame_size fuel (pack_all fs) ≡ drained fs []
unfolding drain with_frame
drain-pack_all max_frame_size fuel [] m s h = drain-nil max_frame_size fuel
drain-pack_all max_frame_size zero (f ∷ fs) m s h =
    absurd (omega (arith, h, length-pack f (pack_all fs)))
drain-pack_all max_frame_size (suc fuel) (f ∷ fs) m s h =
    ap (turn (drain max_frame_size fuel) (pack f ++ pack_all fs))
      (scan-pack max_frame_size f (pack_all fs) m s.0)
    ∙ ap (with_frame f) (
        drain-pack_all max_frame_size fuel fs m s.1
          (omega (arith, h, length-pack f (pack_all fs), length-append f.payload (pack_all fs))))

drain_all-pack_all :
    (max_frame_size : ℕ) (fs : List Frame)
    → max_frame_size ≤ protocol_max_frame_size
    → AllSendable max_frame_size fs
    → drain_all max_frame_size (pack_all fs) ≡ drained fs []
unfolding drain_all
drain_all-pack_all max_frame_size fs m s = drain-pack_all max_frame_size _ fs m s (omega arith)

-- `encode` accepts every frame that is sendable.
pub encode-Sendable :
    (max_frame_size : ℕ) (f : Frame)
    → Sendable max_frame_size f
    → encode max_frame_size f ≡ ok (pack f)
unfolding encode
encode-Sendable max_frame_size f s = ground (arith, s.id_fits, s.payload_fits)

-- The bytes of sendable frames, in one delivery to a parser that has kept nothing and whose buffer
-- can hold them, are read back as these frames, and nothing is kept.
pub feed-pack_all :
    (p : FrameParser) (fs : List Frame)
    → p.max_frame_size ≤ protocol_max_frame_size
    → AllSendable p.max_frame_size fs
    → p.buffer ≡ []
    → length (pack_all fs) ≤ p.max_receive_buffer_size
    → feed (pack_all fs) p ≡ (frames fs, record p { buffer = [] })
feed-pack_all p fs m s e h =
    feed-fits (pack_all fs) p (omega (arith, ap length e))
    ∙ ap (λ b. settle p (drain_all p.max_frame_size (b ++ pack_all fs))) e
    ∙ ap (settle p) (drain_all-pack_all p.max_frame_size fs m s)
    ∙ (unfold settle in refl)

-- Deliveries one after the other: the frames of all, or the first error.
unfoldable pub feed_all : List (List ℕ) → FrameParser → Fed × FrameParser
feed_all [] p = (frames [], p)
feed_all (xs ∷ xss) p =
    (also (feed xs p).0 (feed_all xss (feed xs p).1).0, (feed_all xss (feed xs p).1).1)

abbrev pub concat : List (List ℕ) → List ℕ
concat [] = []
concat (xs ∷ xss) = xs ++ concat xss

after_first :
    (xss : List (List ℕ)) (q r : FrameParser) (gs fs : List Frame) (x : Fed × FrameParser)
    → ◌≡◌ {A = Fed × FrameParser} (also (frames gs) x.0, x.1) (frames fs, r)
    → ((ks : List Frame) → x ≡ (frames ks, r) → feed_all xss q ≡ (frames ks, r))
    → ◌≡◌ {A = Fed × FrameParser}
        (also (frames gs) (feed_all xss q).0, (feed_all xss q).1)
        (frames fs, r)
after_first xss q r gs fs (raised e, t) same ih = absurd (ground arith)
after_first xss q r gs fs (frames ks, t) same ih =
    ap (λ z. (also (frames gs) z.0, z.1)) (ih ks (ap (λ z. (frames ks, z.1)) same))
    ∙ ap (λ z. (z.0, r)) same

-- Deliveries that together raise nothing in one piece have the same result piece by piece.
feed_all-concat :
    (xs : List ℕ) (xss : List (List ℕ)) (p r : FrameParser) (fs : List Frame)
    → length p.buffer + length (concat (xs ∷ xss)) ≤ p.max_receive_buffer_size
    → feed (concat (xs ∷ xss)) p ≡ (frames fs, r)
    → feed_all (xs ∷ xss) p ≡ (frames fs, r)
unfolding feed_all
feed_all-concat xs [] p r fs h e =
    ap (λ z. (also z.0 (frames []), z.1)) (ap (λ b. feed b p) (sym (append-nil xs)) ∙ e)
    ∙ ap (λ gs. (frames gs, r)) (append-nil fs)
feed_all-concat xs (ys ∷ yss) p r fs h e =
    let (gs, rest, first, small) = feed-prefix xs (concat (ys ∷ yss)) p r fs h e in
    let q : FrameParser = record p { buffer = rest } in
    ap (λ z. (also z.0 (feed_all (ys ∷ yss) z.1).0, (feed_all (ys ∷ yss) z.1).1)) first
    ∙ after_first (ys ∷ yss) q r gs fs (feed (concat (ys ∷ yss)) q)
        (sym (feed-append xs (concat (ys ∷ yss)) p q gs h first) ∙ e)
        λ ks same.
          feed_all-concat ys yss q r ks
            (omega (arith, h, small, length-append xs (concat (ys ∷ yss)))) same

-- Sendable frames, encoded one after the other and delivered in pieces that are cut anywhere, reach
-- a parser that has kept nothing as these frames in their order, and in the end nothing is kept,
-- where its buffer can hold all that is sent.
pub deliveries-pack_all :
    (p : FrameParser) (fs : List Frame) (xs : List ℕ) (xss : List (List ℕ))
    → p.max_frame_size ≤ protocol_max_frame_size
    → AllSendable p.max_frame_size fs
    → p.buffer ≡ []
    → length (pack_all fs) ≤ p.max_receive_buffer_size
    → concat (xs ∷ xss) ≡ pack_all fs
    → feed_all (xs ∷ xss) p ≡ (frames fs, record p { buffer = [] })
deliveries-pack_all p fs xs xss m s e h cut =
    feed_all-concat xs xss p (record p { buffer = [] }) fs
      (omega (arith, ap length e, ap length cut, h))
      (ap (λ b. feed b p) cut ∙ feed-pack_all p fs m s e h)
