-- ===== src/Reticulum/Tests.antt =====
-- The properties of the wire at concrete inputs.
use call_backend.Prelude.{
  ℕ, ◌+◌, ◌≤◌, ◌<◌, String, ◌≡◌, ◌≢◌, refl, Bool, true, false, Option, none, some, List, [], ◌∷◌,
  ◌++◌, arith, length, nat_eq, string_eq, ==_iff,
}
use call_backend.Dict.{Dict, Distinct, get}
use call_backend.Reticulum.Framing.{
  Frame, FrameType, data_frame, ack, control, pack, drain, drained, FrameParser, Fed, frames, feed,
  header_size,
}
use call_backend.Reticulum.Framing.Drain.{drain_enough}
use call_backend.Reticulum.Framing.Deliveries.{also, feed-append, feed-bounded}
use call_backend.Reticulum.Framing.RoundTrip.{pack_all, feed_all, concat, deliveries-pack_all}
use call_backend.Reticulum.Sessions.{Session, SessionManager}
use call_backend.Reticulum.Sessions.Manager.{create, resume, resumed}
use call_backend.Reticulum.Sessions.Resuming.{resume_rotates}

abbrev parser : FrameParser
parser = record { max_frame_size = 16; max_receive_buffer_size = 64; buffer = [] }

abbrev sent : List Frame
sent =
    record { frame_type = data_frame; message_id = 300; payload = 1 ∷ 2 ∷ 3 ∷ [] }
    ∷ record { frame_type = ack; message_id = 7; payload = [] }
    ∷ []

-- The first frame without its last byte, and the rest.
abbrev first_piece : List ℕ
first_piece = 1 ∷ 1 ∷ 0 ∷ 0 ∷ 0 ∷ 0 ∷ 0 ∷ 0 ∷ 1 ∷ 44 ∷ 0 ∷ 0 ∷ 0 ∷ 3 ∷ 1 ∷ 2 ∷ []

abbrev second_piece : List ℕ
second_piece = 3 ∷ 1 ∷ 2 ∷ 0 ∷ 0 ∷ 0 ∷ 0 ∷ 0 ∷ 0 ∷ 0 ∷ 7 ∷ 0 ∷ 0 ∷ 0 ∷ 0 ∷ []

cut : concat (first_piece ∷ second_piece ∷ []) ≡ pack_all sent
unfolding pack call_backend.Reticulum.Framing.Bytes.field
cut = refl

length-sent : length (pack_all sent) ≤ 64
unfolding pack call_backend.Reticulum.Framing.Bytes.field
length-sent = omega arith

deliveries-pack_all_example :
    feed_all (first_piece ∷ second_piece ∷ []) parser ≡ (frames sent, parser)
deliveries-pack_all_example =
    deliveries-pack_all parser sent first_piece (second_piece ∷ []) (omega arith)
      (
        record {
          id_fits = omega arith;
          payload_fits = omega arith;
          ack_empty = λ e. absurd (ground arith);
        },
        (record { id_fits = omega arith; payload_fits = omega arith; ack_empty = λ e. refl }, tt),
      )
      refl length-sent cut

abbrev waiting_parser : FrameParser
waiting_parser = record { max_frame_size = 16; max_receive_buffer_size = 64; buffer = first_piece }

first_kept : feed first_piece parser ≡ (frames [], waiting_parser)
unfolding feed call_backend.Reticulum.Framing.settle call_backend.Reticulum.Framing.drain_all drain
    call_backend.Reticulum.Framing.scan call_backend.Reticulum.Framing.Bytes.number
    call_backend.Reticulum.Framing.scan_typed call_backend.Reticulum.Framing.frame_type_of
    call_backend.Reticulum.Framing.scan_payload
first_kept = refl

feed-append_example :
    feed (first_piece ++ second_piece) parser
    ≡ (also (frames []) (feed second_piece waiting_parser).0, (feed second_piece waiting_parser).1)
feed-append_example =
    feed-append first_piece second_piece parser waiting_parser [] (omega arith) first_kept

feed-bounded_example : length (feed first_piece parser).1.buffer < 30
feed-bounded_example = feed-bounded first_piece parser

drain_enough_example :
    drain 16 31 (first_piece ++ second_piece) ≡ drain 16 50 (first_piece ++ second_piece)
drain_enough_example =
    drain_enough 16 31 50 (first_piece ++ second_piece) (omega arith) (omega arith)

abbrev empty_manager : SessionManager
empty_manager = record {
  database = [];
  ttl = 100000;
  dedup_limit = 2;
  provisional_ttl = 1000;
  persist_interval = 60000;
  sessions = [];
  closed = [];
}

abbrev manager : SessionManager
manager = (create "s1" "old" (some "link-1") 10 false empty_manager).1

abbrev session : Session
session = (create "s1" "old" (some "link-1") 10 false empty_manager).0

abbrev all_open : String → Bool
all_open c = true

there : get manager.sessions "s1" ≡ some session
unfolding create get call_backend.Dict.put
there = refl

resumes : resume "s1" "old" "link-2" all_open 20 (some "new") manager ≡ (
  some (resumed (some "new") "link-2" 20 100000 session),
  (resume "s1" "old" "link-2" all_open 20 (some "new") manager).1,
)
unfolding resume create get call_backend.Dict.put
resumes = refl

abbrev old_token : String
old_token = "old"

abbrev new_token : String
new_token = "new"

differs : new_token ≢ old_token
differs e = ground (arith, (==_iff new_token old_token).1 e)

abbrev after_resume : SessionManager
after_resume = (resume "s1" "old" "link-2" all_open 20 (some "new") manager).1

abbrev resumed_session : Session
resumed_session = resumed (some "new") "link-2" 20 100000 session

resume_rotates_example :
    ((other : String) (still_open : String → Bool) (later : ℕ) (next : Option String)
      → resume "s1" "old" other still_open later next after_resume ≡ (none, after_resume))
    × ((other : String) (still_open : String → Bool) (later : ℕ) (next : Option String)
        → later < 20 + 100000
        → (resume "s1" "new" other still_open later next after_resume).0
          ≡ some (resumed next other later after_resume.ttl resumed_session))
unfolding create
resume_rotates_example =
    resume_rotates manager after_resume session resumed_session "old" "new" "link-2" all_open 20
      there resumes differs
