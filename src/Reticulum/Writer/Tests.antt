-- ===== src/Reticulum/Writer/Tests.antt =====
-- Two writes on a stream, of which the second is cut off.
use call_backend.Prelude.{◌≡◌, refl, true, false, some, none, [], ◌∷◌}
use call_backend.Reticulum.Writer.{Stream, Moment, Conditions}
use call_backend.Reticulum.Writer.Frames.{Calls, write_all, Framed, write_all-Framed}

abbrev early : Moment
early = record { now = 5; set_by_other = false }

abbrev in_two : Conditions
in_two = record {
  locked = true;
  first = early;
  queue_full = false;
  attempts =
      record { moment = early; reply = some 1 }
      ∷ record { moment = early; reply = some 1 }
      ∷ record { moment = early; reply = none }
      ∷ [];
  gave_up = false;
}

abbrev cut_short : Conditions
cut_short = record in_two {
  attempts =
      record { moment = early; reply = some 1 } ∷ record { moment = early; reply = none } ∷ [];
}

abbrev calls : Calls
calls = (10, in_two, 1 ∷ 2 ∷ []) ∷ (10, cut_short, 3 ∷ 4 ∷ []) ∷ (10, in_two, 5 ∷ 6 ∷ []) ∷ []

abbrev unused : Stream
unused = record { written = []; cancelled = false }

cut : (write_all calls unused).written ≡ 1 ∷ 2 ∷ 3 ∷ []
unfolding call_backend.Reticulum.Writer.write_bytes
cut = refl

write_all-Framed_example : Framed calls unused (write_all calls unused)
write_all-Framed_example = write_all-Framed calls unused
