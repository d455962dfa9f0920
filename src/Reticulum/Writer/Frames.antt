-- ===== src/Reticulum/Writer/Frames.antt =====
-- What a physical stream carries: whole writes, and at most one in part, at its end.
use call_backend.Prelude.{
  ℕ, Bool, true, false, not, ◌||◌, ◌≡◌, ◌⊎◌, inl, inr, refl, sym, subst, ap, ◌∙◌, Option, none,
  some, List, [], ◌∷◌, ◌++◌, arith, ltb, length, take, drop, take-append-drop, Result, ok, err,
  if_cases, if◌then◌else◌, leb, write_failed,
}
use mathlib.Core.List.{append-nil, append_assoc}
use call_backend.Reticulum.Framing.RoundTrip.{concat}
use call_backend.Reticulum.Writer.{
  Stream, Attempt, Conditions, check_fails, took, write_loop, cancel, concluded, write_bytes,
}

abbrev is_ok : Result (Unit {0}) → Bool
is_ok (ok u) = true
is_ok (err e) = false

-- What a loop did: the part of the data that was taken, and what is left.
record Wrote (bytes : List ℕ) (s : Stream) (x : Result (Unit {0}) × Stream) : Type 0 where
  part : List ℕ
  rest : List ℕ
  whole : bytes ≡ part ++ rest
  written : x.1.written ≡ s.written ++ part
  finished : is_ok x.0 ≡ true → rest ≡ []

nothing_written :
    (bytes : List ℕ) (s : Stream) (r : Result (Unit {0}))
    → (is_ok r ≡ true → bytes ≡ [])
    → Wrote bytes s (r, s)
nothing_written bytes s r finished = record {
  part = [];
  rest = bytes;
  whole = refl;
  written = sym (append-nil s.written);
  finished = finished;
}

some_written :
    (n : ℕ) (bytes : List ℕ) (s : Stream) (x : Result (Unit {0}) × Stream)
    → Wrote (drop n bytes) (record s { written = s.written ++ take n bytes }) x
    → Wrote bytes s x
some_written n bytes s x w = record {
  part = take n bytes ++ w.part;
  rest = w.rest;
  whole =
      sym (take-append-drop n bytes)
      ∙ ap (λ xs. take n bytes ++ xs) w.whole
      ∙ sym (append_assoc (take n bytes) w.part w.rest);
  written = w.written ∙ append_assoc s.written (take n bytes) w.part;
  finished = w.finished;
}

took-Wrote :
    (next : List ℕ → Stream → Result (Unit {0}) × Stream) (reply : Option ℕ) (bytes : List ℕ)
    (s : Stream)
    → ((rest : List ℕ) (t : Stream) → Wrote rest t (next rest t))
    → Wrote bytes s (took next reply bytes s)
unfolding took
took-Wrote next none bytes s later = nothing_written bytes s _ λ never. absurd (ground arith)
took-Wrote next (some n) bytes s later =
    if_cases {A = Result (Unit {0}) × Stream} (Wrote bytes s) (ltb (length bytes) n)
      (λ _. nothing_written bytes s _ λ never. absurd (ground arith))
      λ _. some_written n bytes s _ (later (drop n bytes) _)

write_loop-Wrote :
    (deadline : ℕ) (attempts : List Attempt) (bytes : List ℕ) (s : Stream)
    → Wrote bytes s (write_loop deadline attempts bytes s)
unfolding write_loop
write_loop-Wrote deadline [] bytes s = nothing_written bytes s _ λ never. absurd (ground arith)
write_loop-Wrote deadline (a ∷ attempts) [] s = nothing_written [] s _ λ _. refl
write_loop-Wrote deadline (a ∷ attempts) (b ∷ bytes) s =
    let later = write_loop-Wrote deadline attempts in
    if_cases {A = Result (Unit {0}) × Stream} (Wrote (b ∷ bytes) s)
      (check_fails deadline a.moment s)
      (λ _. nothing_written (b ∷ bytes) s _ λ never. absurd (ground arith))
      λ _. took-Wrote (write_loop deadline attempts) a.reply (b ∷ bytes) s later

-- A call: all of the data is there, or the stream is cancelled.
record Called (bytes : List ℕ) (s : Stream) (x : Result (Unit {0}) × Stream) : Type 0 where
  wrote : Wrote bytes s x
  outcome : (x.0 ≡ ok tt) ⊎ (x.1.cancelled ≡ true)

concluded-Called :
    (gave_up : Bool) (bytes : List ℕ) (s : Stream) (x : Result (Unit {0}) × Stream)
    → Wrote bytes s x
    → Called bytes s (concluded gave_up x)
unfolding concluded cancel
concluded-Called gave_up bytes s (err e, t) w = record {
  wrote = record {
    part = w.part;
    rest = w.rest;
    whole = w.whole;
    written = w.written;
    finished = λ never. absurd (ground arith);
  };
  outcome = inr refl;
}
concluded-Called true bytes s (ok u, t) w = record {
  wrote = record {
    part = w.part;
    rest = w.rest;
    whole = w.whole;
    written = w.written;
    finished = λ never. absurd (ground arith);
  };
  outcome = inr refl;
}
concluded-Called false bytes s (ok u, t) w = record { wrote = w; outcome = inl refl }

write_bytes-Called :
    (deadline : ℕ) (w : Conditions) (bytes : List ℕ) (s : Stream)
    → Called bytes s (write_bytes deadline w bytes s)
unfolding write_bytes
write_bytes-Called deadline w bytes s =
    if_cases {A = Result (Unit {0}) × Stream} (Called bytes s)
      (not w.locked || check_fails deadline w.first s || w.queue_full)
      (λ _. record {
        wrote =
            unfold cancel in
            record {
              part = [];
              rest = bytes;
              whole = refl;
              written = sym (append-nil s.written);
              finished = λ never. absurd (ground arith);
            };
        outcome = inr (unfold cancel in refl);
      })
      λ _. concluded-Called w.gave_up bytes s _ (write_loop-Wrote deadline w.attempts bytes s)

-- The writes of a stream, one after the other: the deadline, the conditions and the bytes of each.
abbrev pub Calls : Type 0
Calls = List (ℕ × Conditions × List ℕ)

abbrev pub frames_of : Calls → List (List ℕ)
frames_of [] = []
frames_of ((deadline, w, bytes) ∷ calls) = bytes ∷ frames_of calls

abbrev pub write_all : Calls → Stream → Stream
write_all [] s = s
write_all ((deadline, w, bytes) ∷ calls) s = write_all calls (write_bytes deadline w bytes s).1

blocked : (a b c d e : Bool) → b ≡ true → (a || (b || c || d) || e) ≡ true
blocked true b c d e h = refl
blocked false true c d e h = refl
blocked false false c d e h = absurd (ground arith)

cancelled_refuses :
    (deadline : ℕ) (w : Conditions) (bytes : List ℕ) (s : Stream)
    → s.cancelled ≡ true
    → write_bytes deadline w bytes s ≡ (err write_failed, cancel s)
unfolding write_bytes check_fails
cancelled_refuses deadline w bytes s off =
    ap
      (λ b.
        if b
        then (err write_failed, cancel s)
        else concluded w.gave_up (write_loop deadline w.attempts bytes s))
      (blocked (not w.locked) s.cancelled w.first.set_by_other (leb deadline w.first.now)
        w.queue_full off)

cancelled_stays :
    (calls : Calls) (s : Stream) → s.cancelled ≡ true → (write_all calls s).written ≡ s.written
cancelled_stays [] s off = refl
cancelled_stays ((deadline, w, bytes) ∷ calls) s off =
    let refused = cancelled_refuses deadline w bytes s off in
    cancelled_stays calls _ (ap (λ x. x.1.cancelled) refused ∙ unfold cancel in refl)
    ∙ ap (λ x. x.1.written) refused
    ∙ unfold cancel in refl

-- `sent` are the first of the frames, and `part` is empty or the beginning of the next one.
pub data Begins : List (List ℕ) → List ℕ → List (List ℕ) → Type 0 where
  nothing_more : (frames : List (List ℕ)) → Begins [] [] frames
  cut_off : (part rest : List ℕ) (frames : List (List ℕ)) → Begins [] part ((part ++ rest) ∷ frames)
  one_more :
      (frame : List ℕ) (sent : List (List ℕ)) (part : List ℕ) (frames : List (List ℕ))
      → Begins sent part frames
      → Begins (frame ∷ sent) part (frame ∷ frames)

pub record Framed (calls : Calls) (s t : Stream) : Type 0 where
  pub sent : List (List ℕ)
  pub part : List ℕ
  pub written : t.written ≡ s.written ++ (concat sent ++ part)
  pub begins : Begins sent part (frames_of calls)

-- Whatever happens to its writes, a stream carries whole frames in their order and after them
-- nothing, or the beginning of the frame that comes next: no byte of another frame follows one that
-- was written in part, whether the raw writer took few bytes at a time, failed or stalled, or the
-- lock, the queue, the deadline or a cancellation ended a write.
pub write_all-Framed : (calls : Calls) (s : Stream) → Framed calls s (write_all calls s)
write_all-Framed [] s = record {
  sent = [];
  part = [];
  written = sym (append-nil s.written);
  begins = nothing_more [];
}
write_all-Framed ((deadline, w, bytes) ∷ calls) s =
    let after = (write_bytes deadline w bytes s).1 in
    let c = write_bytes-Called deadline w bytes s in
    elim c.outcome [
      | inl returned ↦
          let later = write_all-Framed calls after in
          let all : bytes ≡ c.wrote.part =
            c.wrote.whole
            ∙ ap (λ xs. c.wrote.part ++ xs) (c.wrote.finished (ap is_ok returned))
            ∙ append-nil c.wrote.part in
          record {
            sent = bytes ∷ later.sent;
            part = later.part;
            written =
                later.written
                ∙ ap (λ xs. xs ++ (concat later.sent ++ later.part))
                    (c.wrote.written ∙ ap (λ xs. s.written ++ xs) (sym all))
                ∙ append_assoc s.written bytes (concat later.sent ++ later.part)
                ∙ ap (λ xs. s.written ++ xs)
                    (sym (append_assoc bytes (concat later.sent) later.part));
            begins = one_more bytes later.sent later.part (frames_of calls) later.begins;
          }
      | inr off ↦ record {
        sent = [];
        part = c.wrote.part;
        written = cancelled_stays calls after off ∙ c.wrote.written;
        begins =
            subst (λ d. Begins [] c.wrote.part (d ∷ frames_of calls)) (sym c.wrote.whole)
              (cut_off c.wrote.part c.wrote.rest (frames_of calls));
      }
    ]
