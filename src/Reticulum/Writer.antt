-- ===== src/Reticulum/Writer.antt =====
-- `ReticulumWriter` of src/qapp_backend/reticulum/writer.py: the writes of one physical stream, each
-- with a deadline, of which one that fails ends the stream.
pub mod Frames
mod Tests
use call_backend.Prelude.{
  ℕ, Bool, true, false, not, ◌||◌, Option, none, some, List, [], ◌∷◌, ◌++◌, if◌then◌else◌, leb, ltb,
  length, take, drop, Result, ok, err, write_failed,
}

-- `written` is what the raw writer took so far.
pub record Stream : Type 0 where
  pub written : List ℕ
  pub cancelled : Bool

-- A look at the clock and at the event, which another thread may have set.
pub record Moment : Type 0 where
  pub now : ℕ
  pub set_by_other : Bool

-- One turn of the loop: its check, and what `raw.write` returns, `none` for an exception or a
-- negative number. It takes the first bytes, as many as it returns, and none where it raises or
-- returns a number that is out of range.
pub record Attempt : Type 0 where
  pub moment : Moment
  pub reply : Option ℕ

-- What a call meets: whether it gets the lock in time, the first check, whether the pool's queue has
-- room, the turns of the loop, and whether the caller stops waiting before the loop is done.
pub record Conditions : Type 0 where
  pub locked : Bool
  pub first : Moment
  pub queue_full : Bool
  pub attempts : List Attempt
  pub gave_up : Bool

-- `check`: whether it raises.
unfoldable pub check_fails : ℕ → Moment → Stream → Bool
check_fails deadline m s = s.cancelled || m.set_by_other || leb deadline m.now

unfoldable pub took :
    (List ℕ → Stream → Result (Unit {0}) × Stream)
    → Option ℕ
    → List ℕ
    → Stream
    → Result (Unit {0}) × Stream
took next none rest s = (err write_failed, s)
took next (some n) rest s =
    if ltb (length rest) n
    then (err write_failed, s)
    else next (drop n rest) (record s { written = s.written ++ take n rest })

abbrev pub checked_end : Bool → Stream → Result (Unit {0}) × Stream
checked_end fails s = (if fails then err write_failed else ok tt, s)

abbrev pub turn :
    ℕ
    → Attempt
    → (List ℕ → Stream → Result (Unit {0}) × Stream)
    → List ℕ
    → Stream
    → Result (Unit {0}) × Stream
turn deadline a next [] s = checked_end (check_fails deadline a.moment s) s
turn deadline a next (b ∷ rest) s =
    if check_fails deadline a.moment s
    then (err write_failed, s)
    else took next a.reply (b ∷ rest) s

-- The loop of `write`; without another turn the raw writer stalls, and the caller runs into its
-- deadline.
unfoldable pub write_loop : ℕ → List Attempt → List ℕ → Stream → Result (Unit {0}) × Stream
unfolding took check_fails
write_loop deadline [] rest s = (err write_failed, s)
write_loop deadline (a ∷ attempts) rest s = turn deadline a (write_loop deadline attempts) rest s

unfoldable pub cancel : Stream → Stream
cancel s = record s { cancelled = true }

-- A write that fails cancels the stream, since a frame may be there in part.
unfoldable pub concluded : Bool → Result (Unit {0}) × Stream → Result (Unit {0}) × Stream
unfolding cancel
concluded gave_up (err e, s) = (err e, cancel s)
concluded gave_up (ok u, s) = if gave_up then (err write_failed, cancel s) else (ok u, s)

-- `__call__`, with its deadline.
unfoldable pub write_bytes : ℕ → Conditions → List ℕ → Stream → Result (Unit {0}) × Stream
unfolding write_loop concluded
write_bytes deadline w bytes s =
    if not w.locked || check_fails deadline w.first s || w.queue_full
    then (err write_failed, cancel s)
    else concluded w.gave_up (write_loop deadline w.attempts bytes s)
