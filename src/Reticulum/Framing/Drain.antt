-- ===== src/Reticulum/Framing/Drain.antt =====
-- One turn of the loop of `FrameParser.feed`, and the fuel of the loop.
use call_backend.Prelude.{
  ℕ, zero, suc, ◌+◌, ◌≤◌, ◌<◌, ◌≡◌, refl, sym, ap, ◌∙◌, Bool, true, false, not, ◌&&◌, Option, none,
  some, List, [], ◌∷◌, ◌++◌, arith, if◌then◌else◌, ◌==◌, nat_eq, ltb, length, drop, take,
  length-append, length-drop, if_cases, Bool-cases, inl, inr,
}
use call_backend.Reticulum.Framing.Bytes.{number, part, take-append, drop-append}
use call_backend.Reticulum.Framing.{
  Frame, FrameType, frame_type_of, Fault, Scan, waiting, failed, framed, scan, scan_typed,
  scan_payload, is_ack, Drained, drained, with_frame, turn, drain, header_size,
}

part-append :
    (from size : ℕ) (xs ys : List ℕ)
    → from + size ≤ length xs
    → part from size (xs ++ ys) ≡ part from size xs
part-append from size xs ys h =
    ap (take size) (drop-append from xs ys (omega arith))
    ∙ take-append size (drop from xs) ys (omega (arith, length-drop from xs))

-- A turn that ends the wait or the frame ends it in the same way when more bytes are there.
pub data Follows (more : List ℕ) : Scan → Scan → Type 0 where
  on_waiting : (after : Scan) → Follows more waiting after
  on_failed : (e : Fault) → Follows more (failed e) (failed e)
  on_framed : (f : Frame) (rest : List ℕ) → Follows more (framed f rest) (framed f (rest ++ more))

payload-Follows :
    (type : FrameType) (size max_frame_size : ℕ) (xs ys : List ℕ)
    → Follows ys
        (scan_payload type size max_frame_size xs)
        (scan_payload type size max_frame_size (xs ++ ys))
unfolding scan_payload
payload-Follows type size max_frame_size xs ys = elim (Bool-cases (ltb max_frame_size size)) [
  | inl big ↦ rw big (on_failed _)
  | inr fits ↦ elim (Bool-cases (ltb (length xs) (header_size + size))) [
    | inl short ↦ rw (fits, short) (on_waiting _)
    | inr long ↦
        rw
          (
            fits,
            long,
            long_too long,
            part-append header_size size xs ys (ground (arith, long)),
            part-append 2 8 xs ys (ground (arith, long)),
            drop-append (header_size + size) xs ys (ground (arith, long)),
          )
          (by_ack (is_ack type && not (length (part header_size size xs) == 0)) _ _ _)
  ]
]
  where
    long_too :
        ltb (length xs) (header_size + size) ≡ false
        → ltb (length (xs ++ ys)) (header_size + size) ≡ false
    long_too h = ground (arith, length-append xs ys)

    by_ack :
        (b : Bool) (e : Fault) (f : Frame) (rest : List ℕ)
        → Follows ys
            (if b then failed e else framed f rest)
            (if b then failed e else framed f (rest ++ ys))
    by_ack true e f rest = on_failed e
    by_ack false e f rest = on_framed f rest

pub scan-Follows :
    (max_frame_size : ℕ) (xs ys : List ℕ)
    → Follows ys (scan max_frame_size xs) (scan max_frame_size (xs ++ ys))
unfolding scan
scan-Follows max_frame_size xs ys = elim (Bool-cases (ltb (length xs) header_size)) [
  | inl short ↦ rw short (on_waiting _)
  | inr long ↦
      rw
        (
          long,
          long_too long,
          part-append 0 1 xs ys (ground (arith, long)),
          part-append 1 1 xs ys (ground (arith, long)),
        )
        (by_version (number 0 (part 0 1 xs) == 1) _ long)
]
  where
    long_too : ltb (length xs) header_size ≡ false → ltb (length (xs ++ ys)) header_size ≡ false
    long_too h = ground (arith, length-append xs ys)

    by_type :
        (o : Option FrameType)
        → ltb (length xs) header_size ≡ false
        → Follows ys (scan_typed o max_frame_size xs) (scan_typed o max_frame_size (xs ++ ys))
    by_type none long =
        unfold scan_typed in rw (part-append 1 1 xs ys (ground (arith, long))) (on_failed _)
    by_type (some type) long =
        unfold scan_typed in
        rw (part-append 10 4 xs ys (ground (arith, long)))
          (payload-Follows type (number 0 (part 10 4 xs)) max_frame_size xs ys)

    by_version :
        (b : Bool) (e : Fault)
        → ltb (length xs) header_size ≡ false
        → Follows ys
            (if not b
              then failed e
              else scan_typed (frame_type_of (number 0 (part 1 1 xs))) max_frame_size xs)
            (if not b
              then failed e
              else scan_typed (frame_type_of (number 0 (part 1 1 xs))) max_frame_size (xs ++ ys))
    by_version true e long = by_type _ long
    by_version false e long = on_failed e

-- A frame takes its bytes out of the buffer; a turn that waits has less than a frame of them.
pub record Progress (max_frame_size : ℕ) (buffer : List ℕ) (s : Scan) : Type 0 where
  pub shorter : (f : Frame) (rest : List ℕ) → s ≡ framed f rest → length rest < length buffer
  pub partial : s ≡ waiting → length buffer < header_size + max_frame_size

failed-Progress :
    (max_frame_size : ℕ) (buffer : List ℕ) (e : Fault) → Progress max_frame_size buffer (failed e)
failed-Progress max_frame_size buffer e = record {
  shorter = λ f rest h. absurd (ground arith);
  partial = λ h. absurd (ground arith);
}

waiting-Progress :
    (max_frame_size : ℕ) (buffer : List ℕ)
    → length buffer < header_size + max_frame_size
    → Progress max_frame_size buffer waiting
waiting-Progress max_frame_size buffer h = record {
  shorter = λ f rest e. absurd (ground arith);
  partial = λ e. h;
}

payload-Progress :
    (type : FrameType) (size max_frame_size : ℕ) (buffer : List ℕ)
    → Progress max_frame_size buffer (scan_payload type size max_frame_size buffer)
unfolding scan_payload
payload-Progress type size max_frame_size buffer =
    if_cases (Progress max_frame_size buffer) (ltb max_frame_size size)
      (λ _. failed-Progress max_frame_size buffer _)
      λ fits.
        if_cases (Progress max_frame_size buffer) (ltb (length buffer) (header_size + size))
          (λ short. waiting-Progress max_frame_size buffer (ground arith))
          λ long.
            if_cases (Progress max_frame_size buffer)
              (is_ack type && not (length (part header_size size buffer) == 0))
              (λ _. failed-Progress max_frame_size buffer _)
              λ _. record {
                shorter = λ f rest e. ground (arith, length-drop (header_size + size) buffer);
                partial = λ e. absurd (ground arith);
              }

pub scan-Progress :
    (max_frame_size : ℕ) (buffer : List ℕ)
    → Progress max_frame_size buffer (scan max_frame_size buffer)
unfolding scan
scan-Progress max_frame_size buffer =
    if_cases (Progress max_frame_size buffer) (ltb (length buffer) header_size)
      (λ short. waiting-Progress max_frame_size buffer (ground arith))
      λ _.
        if_cases (Progress max_frame_size buffer) (not (number 0 (part 0 1 buffer) == 1))
          (λ _. failed-Progress max_frame_size buffer _)
          λ _. by_type (frame_type_of (number 0 (part 1 1 buffer)))
  where
    by_type :
        (o : Option FrameType) → Progress max_frame_size buffer (scan_typed o max_frame_size buffer)
    by_type none = unfold scan_typed in failed-Progress max_frame_size buffer _
    by_type (some type) = unfold scan_typed in payload-Progress type _ max_frame_size buffer

turn_agree :
    (max_frame_size : ℕ) (next last : List ℕ → Drained) (buffer : List ℕ)
    → ((rest : List ℕ) → length rest < length buffer → next rest ≡ last rest)
    → turn next buffer (scan max_frame_size buffer) ≡ turn last buffer (scan max_frame_size buffer)
turn_agree max_frame_size next last buffer h =
    by_scan (scan max_frame_size buffer) (scan-Progress max_frame_size buffer)
  where
    by_scan :
        (s : Scan) → Progress max_frame_size buffer s → turn next buffer s ≡ turn last buffer s
    by_scan waiting p = refl
    by_scan (failed e) p = refl
    by_scan (framed f rest) p = ap (with_frame f) (h rest (p.shorter f rest refl))

pub drain-nil : (max_frame_size fuel : ℕ) → drain max_frame_size fuel [] ≡ drained [] []
unfolding drain scan
drain-nil max_frame_size zero = refl
drain-nil max_frame_size (suc fuel) = refl

-- The loop has the same result on any two amounts of fuel that are at least the length of the
-- buffer.
pub drain_enough :
    (max_frame_size fuel more : ℕ) (buffer : List ℕ)
    → length buffer ≤ fuel
    → length buffer ≤ more
    → drain max_frame_size fuel buffer ≡ drain max_frame_size more buffer
unfolding drain
drain_enough max_frame_size fuel more [] h k =
    drain-nil max_frame_size fuel ∙ sym (drain-nil max_frame_size more)
drain_enough max_frame_size zero more (b ∷ bs) h k = absurd (omega arith)
drain_enough max_frame_size (suc fuel) zero (b ∷ bs) h k = absurd (omega arith)
drain_enough max_frame_size (suc fuel) (suc more) (b ∷ bs) h k =
    turn_agree max_frame_size _ _ (b ∷ bs)
      λ rest l. drain_enough max_frame_size fuel more rest (omega arith) (omega arith)
