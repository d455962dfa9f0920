-- ===== src/Reticulum/Framing/Deliveries.antt =====
-- How the bytes are cut into deliveries does not matter to `feed`, and the buffer stays small.
use call_backend.Prelude.{
  ℕ, zero, suc, ◌+◌, ◌≤◌, ◌<◌, ◌≡◌, refl, sym, ap, ◌∙◌, List, [], ◌∷◌, ◌++◌, arith, ltb, length,
  length-append, if_cases,
}
use mathlib.Core.List.{append_assoc}
use call_backend.Reticulum.Framing.{
  Frame, Scan, waiting, failed, framed, Drained, fault, drained, with_frame, turn, drain, drain_all,
  FrameParser, Fed, raised, frames, feed, settle, header_size,
}
use call_backend.Reticulum.Framing.Drain.{
  Follows, on_waiting, on_failed, on_framed, scan-Follows, Progress, scan-Progress, drain-nil,
  drain_enough,
}

abbrev prepend : List Frame → Drained → Drained
prepend fs (fault e) = fault e
prepend fs (drained gs rest) = drained (fs ++ gs) rest

-- What the loop makes of the bytes left over and those that come next.
abbrev resume : ℕ → List ℕ → Drained → Drained
resume max_frame_size more (fault e) = fault e
resume max_frame_size more (drained fs rest) = prepend fs (drain_all max_frame_size (rest ++ more))

prepend-nil : (d : Drained) → prepend [] d ≡ d
prepend-nil (fault e) = refl
prepend-nil (drained fs rest) = refl

prepend-cons :
    (f : Frame) (fs : List Frame) (d : Drained) → prepend (f ∷ fs) d ≡ with_frame f (prepend fs d)
unfolding with_frame
prepend-cons f fs (fault e) = refl
prepend-cons f fs (drained gs rest) = refl

with_frame-resume :
    (max_frame_size : ℕ) (more : List ℕ) (f : Frame) (d : Drained)
    → with_frame f (resume max_frame_size more d) ≡ resume max_frame_size more (with_frame f d)
unfolding with_frame
with_frame-resume max_frame_size more f (fault e) = refl
with_frame-resume max_frame_size more f (drained fs rest) = sym (prepend-cons f fs _)

drain-resume :
    (max_frame_size fuel less : ℕ) (xs ys : List ℕ)
    → length (xs ++ ys) ≤ fuel
    → length xs ≤ less
    → drain max_frame_size fuel (xs ++ ys) ≡ resume max_frame_size ys (drain max_frame_size less xs)
unfolding drain_all drain
drain-resume max_frame_size fuel less [] ys h k =
    drain_enough max_frame_size fuel (length ys) ys h (omega arith)
    ∙ sym (prepend-nil _)
    ∙ ap (resume max_frame_size ys) (sym (drain-nil max_frame_size less))
drain-resume max_frame_size zero less (x ∷ xs) ys h k = absurd (omega arith)
drain-resume max_frame_size (suc fuel) zero (x ∷ xs) ys h k = absurd (omega arith)
drain-resume max_frame_size (suc fuel) (suc less) (x ∷ xs) ys h k =
    by_follows (scan-Follows max_frame_size (x ∷ xs) ys) (scan-Progress max_frame_size (x ∷ xs))
      (drain_enough max_frame_size (suc fuel) (length (x ∷ xs ++ ys)) (x ∷ xs ++ ys) h
        (omega arith))
      (λ rest l.
        drain-resume max_frame_size fuel less rest ys
          (omega (arith, l, length-append rest ys, length-append xs ys)) (omega arith))
  where
    by_follows :
        {s t : Scan}
        → Follows ys s t
        → Progress max_frame_size (x ∷ xs) s
        → turn (drain max_frame_size fuel) (x ∷ xs ++ ys) t
          ≡ drain_all max_frame_size (x ∷ xs ++ ys)
        → ((rest : List ℕ)
            → length rest < length (x ∷ xs)
            → drain max_frame_size fuel (rest ++ ys)
              ≡ resume max_frame_size ys (drain max_frame_size less rest))
        → turn (drain max_frame_size fuel) (x ∷ xs ++ ys) t
          ≡ resume max_frame_size ys (turn (drain max_frame_size less) (x ∷ xs) s)
    by_follows (on_waiting after) p e ih = e ∙ sym (prepend-nil _)
    by_follows (on_failed fail) p e ih = refl
    by_follows (on_framed f rest) p e ih =
        ap (with_frame f) (ih rest (p.shorter f rest refl))
        ∙ with_frame-resume max_frame_size ys f (drain max_frame_size less rest)

-- What two deliveries bring, one after the other; an error of the first is the result.
abbrev pub also : Fed → Fed → Fed
also (raised e) fed = raised e
also (frames fs) (raised e) = raised e
also (frames fs) (frames gs) = frames (fs ++ gs)

settle-prepend :
    (p : FrameParser) (fs : List Frame) (rest : List ℕ) (d : Drained)
    → settle p (prepend fs d) ≡ (
      also (frames fs) (settle (record p { buffer = rest }) d).0,
      (settle (record p { buffer = rest }) d).1,
    )
unfolding settle
settle-prepend p fs rest (fault e) = refl
settle-prepend p fs rest (drained gs left) = refl

-- How many bytes the loop leaves.
abbrev left_over : Drained → ℕ
left_over (fault e) = 0
left_over (drained fs rest) = length rest

left_over-with_frame : (f : Frame) (d : Drained) → left_over (with_frame f d) ≡ left_over d
unfolding with_frame
left_over-with_frame f (fault e) = refl
left_over-with_frame f (drained fs rest) = refl

record Leaves (max_frame_size : ℕ) (buffer : List ℕ) (d : Drained) : Type 0 where
  no_more : left_over d ≤ length buffer
  no_frame : left_over d < header_size + max_frame_size

turn-Leaves :
    (max_frame_size : ℕ) (buffer : List ℕ) (next : List ℕ → Drained) (s : Scan)
    → Progress max_frame_size buffer s
    → ((rest : List ℕ) → length rest < length buffer → Leaves max_frame_size rest (next rest))
    → Leaves max_frame_size buffer (turn next buffer s)
turn-Leaves max_frame_size buffer next waiting p ih = record {
  no_more = omega arith;
  no_frame = p.partial refl;
}
turn-Leaves max_frame_size buffer next (failed e) p ih = record {
  no_more = omega arith;
  no_frame = omega arith;
}
turn-Leaves max_frame_size buffer next (framed f rest) p ih =
    let l = ih rest (p.shorter f rest refl) in
    record {
      no_more = omega (arith, l.no_more, p.shorter f rest refl, left_over-with_frame f (next rest));
      no_frame = omega (arith, l.no_frame, left_over-with_frame f (next rest));
    }

drain-Leaves :
    (max_frame_size fuel : ℕ) (buffer : List ℕ)
    → length buffer ≤ fuel
    → Leaves max_frame_size buffer (drain max_frame_size fuel buffer)
unfolding drain
drain-Leaves max_frame_size zero buffer h = record { no_more = omega arith; no_frame = omega arith }
drain-Leaves max_frame_size (suc fuel) buffer h =
    turn-Leaves max_frame_size buffer _ _ (scan-Progress max_frame_size buffer)
      λ rest l. drain-Leaves max_frame_size fuel rest (omega arith)

drain_all-Leaves :
    (max_frame_size : ℕ) (buffer : List ℕ)
    → Leaves max_frame_size buffer (drain_all max_frame_size buffer)
unfolding drain_all
drain_all-Leaves max_frame_size buffer =
    drain-Leaves max_frame_size (length buffer) buffer (omega arith)

drain_all-resume :
    (max_frame_size : ℕ) (xs ys : List ℕ)
    → drain_all max_frame_size (xs ++ ys) ≡ resume max_frame_size ys (drain_all max_frame_size xs)
unfolding drain_all
drain_all-resume max_frame_size xs ys =
    drain-resume max_frame_size _ _ xs ys (omega arith) (omega arith)

settle-left_over : (p : FrameParser) (d : Drained) → length (settle p d).1.buffer ≡ left_over d
unfolding settle
settle-left_over p (fault e) = refl
settle-left_over p (drained fs rest) = refl

pub feed-fits :
    (bytes : List ℕ) (p : FrameParser)
    → length p.buffer + length bytes ≤ p.max_receive_buffer_size
    → feed bytes p ≡ settle p (drain_all p.max_frame_size (p.buffer ++ bytes))
unfolding feed
feed-fits bytes p h = ground arith

-- A delivery that the buffer can hold has the effect of its two parts, delivered one after the
-- other, wherever it is cut, as long as the first part raises nothing: the same frames or the same
-- error, and the same bytes kept.
pub feed-append :
    (xs ys : List ℕ) (p q : FrameParser) (fs : List Frame)
    → length p.buffer + length (xs ++ ys) ≤ p.max_receive_buffer_size
    → feed xs p ≡ (frames fs, q)
    → feed (xs ++ ys) p ≡ (also (frames fs) (feed ys q).0, (feed ys q).1)
feed-append xs ys p q fs h e =
    feed-fits (xs ++ ys) p h
    ∙ ap (settle p) whole
    ∙ by_first (drain_all p.max_frame_size (p.buffer ++ xs))
        (drain_all-Leaves p.max_frame_size (p.buffer ++ xs)).no_more
        (sym (feed-fits xs p (omega (arith, length-append xs ys))) ∙ e)
  where
    whole :
        drain_all p.max_frame_size (p.buffer ++ (xs ++ ys))
        ≡ resume p.max_frame_size ys (drain_all p.max_frame_size (p.buffer ++ xs))
    whole =
        ap (drain_all p.max_frame_size) (sym (append_assoc p.buffer xs ys))
        ∙ drain_all-resume p.max_frame_size (p.buffer ++ xs) ys

    settled :
        (gs : List Frame) (rest : List ℕ)
        → (frames gs, record p { buffer = rest }) ≡ settle p (drained gs rest)
    settled gs rest = unfold settle in refl

    next : Fed × FrameParser → Fed × FrameParser
    next r = (also r.0 (feed ys r.1).0, (feed ys r.1).1)

    by_first :
        (d : Drained)
        → left_over d ≤ length (p.buffer ++ xs)
        → settle p d ≡ (frames fs, q)
        → settle p (resume p.max_frame_size ys d) ≡ (also (frames fs) (feed ys q).0, (feed ys q).1)
    by_first (fault e) small same = unfold settle in absurd (ground arith)
    by_first (drained gs rest) small same =
        settle-prepend p gs rest _
        ∙ ap (λ r. (also (frames gs) r.0, r.1))
            (sym (
              feed-fits ys (record p { buffer = rest })
                (omega (arith, h, small, length-append xs ys, length-append p.buffer xs))))
        ∙ ap next (settled gs rest ∙ same)

-- After a delivery the parser keeps less than one frame of the largest size, whatever was kept
-- before and however many bytes came.
pub feed-bounded :
    (bytes : List ℕ) (p : FrameParser)
    → length (feed bytes p).1.buffer < header_size + p.max_frame_size
unfolding feed
feed-bounded bytes p =
    if_cases {A = Fed × FrameParser} (λ r. length r.1.buffer < header_size + p.max_frame_size)
      (ltb p.max_receive_buffer_size (length p.buffer + length bytes)) (λ _. omega arith)
      λ _. omega (
        arith,
        settle-left_over p (drain_all p.max_frame_size (p.buffer ++ bytes)),
        (drain_all-Leaves p.max_frame_size (p.buffer ++ bytes)).no_frame,
      )

-- What came before a delivery that raises nothing, in the part of it that came first: it raises
-- nothing either, and keeps no more than came.
pub feed-prefix :
    (xs ys : List ℕ) (p r : FrameParser) (hs : List Frame)
    → length p.buffer + length (xs ++ ys) ≤ p.max_receive_buffer_size
    → feed (xs ++ ys) p ≡ (frames hs, r)
    → (fs : List Frame) × (rest : List ℕ) × (feed xs p ≡ (frames fs, record p { buffer = rest }))
      × (length rest ≤ length p.buffer + length xs)
feed-prefix xs ys p r hs h e =
    by_first (drain_all p.max_frame_size (p.buffer ++ xs)) refl
      (drain_all-Leaves p.max_frame_size (p.buffer ++ xs)).no_more
      (ap (settle p) (
          sym (drain_all-resume p.max_frame_size (p.buffer ++ xs) ys)
          ∙ ap (drain_all p.max_frame_size) (append_assoc p.buffer xs ys))
        ∙ sym (feed-fits (xs ++ ys) p h)
        ∙ e)
  where
    by_first :
        (d : Drained)
        → drain_all p.max_frame_size (p.buffer ++ xs) ≡ d
        → left_over d ≤ length (p.buffer ++ xs)
        → settle p (resume p.max_frame_size ys d) ≡ (frames hs, r)
        → (fs : List Frame) × (rest : List ℕ) × (feed xs p
            ≡ (frames fs, record p { buffer = rest }))
          × (length rest ≤ length p.buffer + length xs)
    by_first (fault x) same small bad = unfold settle in absurd (ground arith)
    by_first (drained fs rest) same small good = (
      fs,
      rest,
      feed-fits xs p (omega (arith, h, length-append xs ys))
          ∙ ap (settle p) same
          ∙ (unfold settle in refl),
      omega (arith, small, length-append p.buffer xs),
    )
