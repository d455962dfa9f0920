-- ===== src/Reticulum/Server/Invariant/Rates.antt =====
-- How many sessions a link may open within a minute.
use call_backend.Prelude.{
  ℕ, ◌+◌, ◌≤◌, String, Bool, true, false, not, ◌&&◌, List, [], ◌∷◌, ◌++◌, arith, if◌then◌else◌,
  string_eq, nat_eq, leb, length, contains, if_cases, Result, ok, err, protocol_error,
}
use call_backend.Prelude.Windows.{
  in_last_minute, Covers, in_last_minute-le, later-Covers, snoc-Covers, drop-Covers, cons-Covers,
  same-Covers,
}
use call_backend.Reticulum.Server.{Link, Limits, discard_id, recent_times, admit_recent, admit}
use call_backend.Reticulum.Server.Invariant.{LinkFits}
use call_backend.Reticulum.Server.Invariant.Messages.{admit-LinkFits}
use call_backend.Reticulum.Server.Invariant.Removing.{discard_id-LinkFits}

abbrev pub is_ok : Result (Unit {0}) → Bool
is_ok (ok u) = true
is_ok (err e) = false

-- Whether an admission is of a new session under a logical connection that the link does not have.
abbrev pub opens : Limits → String → Bool → ℕ → Link → Bool
opens limits logical_id creating now l =
    creating
    && not (contains l.logical_connection_ids logical_id)
    && is_ok (admit limits logical_id creating now l).0

-- Admissions on a link and removals of its logical connections, at times that do not go back, with
-- the times of all the new sessions since its beginning, before which the link kept some already.
pub data LinkRun (limits : Limits) (before : Link) : ℕ → Link → List ℕ → Type 0 where
  begin : (now : ℕ) → LinkRun limits before now before before.new_logical_session_times
  admitted :
      (now later : ℕ) (l : Link) (times : List ℕ) (logical_id : String) (creating : Bool)
      → LinkRun limits before now l times
      → now ≤ later
      → LinkRun limits before later
          (admit limits logical_id creating later l).1
          (if opens limits logical_id creating later l then times ++ later ∷ [] else times)
  removed :
      (now : ℕ) (l : Link) (times : List ℕ) (logical_id : String)
      → LinkRun limits before now l times
      → LinkRun limits before now (discard_id logical_id l) times

recent_times-Covers : (now : ℕ) (ts : List ℕ) → Covers now (recent_times now ts) ts
unfolding recent_times
recent_times-Covers now [] = same-Covers now []
recent_times-Covers now (t ∷ ts) =
    let later = recent_times-Covers now ts in
    if_cases (λ rest. Covers now rest (t ∷ ts)) (leb (t + 60000) now)
      (λ old. cons-Covers now t (recent_times now ts) ts (ground (arith, old)) later)
      λ _. same-Covers now (t ∷ ts)

recently :
    (now : ℕ) (l : Link) (times : List ℕ)
    → Covers now l.new_logical_session_times times
    → Covers now (recent_times now l.new_logical_session_times) times
recently now l times c =
    drop-Covers now (recent_times now l.new_logical_session_times) l.new_logical_session_times times
      (recent_times-Covers now l.new_logical_session_times) c

-- What an admission gives keeps the times of the last minute.
abbrev AdmitCovers : ℕ → Bool → Bool → List ℕ → Result (Unit {0}) × Link → Type 0
AdmitCovers now creating there times (r, l) =
    Covers now l.new_logical_session_times
      (if creating && not there && is_ok r then times ++ now ∷ [] else times)

by_tests :
    (limits : Limits) (logical_id : String) (now : ℕ) (l : Link) (times : List ℕ)
    → Covers now l.new_logical_session_times times
    → (creating there full : Bool)
    → AdmitCovers now creating there times (
        if there
        then (ok tt, l)
        else if full
        then (err (protocol_error "logical session limit reached"), l)
        else admit_recent limits logical_id creating now
            (record l { new_logical_session_times = recent_times now l.new_logical_session_times }))
unfolding admit_recent
by_tests limits logical_id now l times c true true full = c
by_tests limits logical_id now l times c false true full = c
by_tests limits logical_id now l times c true false true = c
by_tests limits logical_id now l times c false false true = c
by_tests limits logical_id now l times c false false false = recently now l times c
by_tests limits logical_id now l times c true false false =
    let kept = recent_times now l.new_logical_session_times in
    if_cases (AdmitCovers now true false times)
      (leb limits.max_new_sessions_per_link_per_minute (length kept)) (λ _. recently now l times c)
      λ _. snoc-Covers now now kept times (recently now l times c)

admit-Covers :
    (limits : Limits) (logical_id : String) (creating : Bool) (now : ℕ) (l : Link) (times : List ℕ)
    → Covers now l.new_logical_session_times times
    → Covers now
        (admit limits logical_id creating now l).1.new_logical_session_times
        (if opens limits logical_id creating now l then times ++ now ∷ [] else times)
unfolding admit
admit-Covers limits logical_id creating now l times c =
    by_tests limits logical_id now l times c creating (contains l.logical_connection_ids logical_id)
      (leb limits.max_logical_sessions_per_link (length l.logical_connection_ids))

-- Along a run, a link that keeps its limits goes on to keep them, with the times of the last minute.
LinkRun-Covers :
    (limits : Limits) (before : Link)
    → LinkFits limits before
    → (now : ℕ) (l : Link) (times : List ℕ) → LinkRun limits before now l times
    → LinkFits limits l × Covers now l.new_logical_session_times times
unfolding discard_id
LinkRun-Covers limits before fits now _ _ (begin _) =
    (fits, same-Covers now before.new_logical_session_times)
LinkRun-Covers limits before fits _ _ _ (admitted now later l times logical_id creating r h) =
    let (kept, covers) = LinkRun-Covers limits before fits now l times r in
    (
      admit-LinkFits limits logical_id creating later l kept,
      admit-Covers limits logical_id creating later l times
          (later-Covers now later l.new_logical_session_times times h covers),
    )
LinkRun-Covers limits before fits _ _ _ (removed now l times logical_id r) =
    let (kept, covers) = LinkRun-Covers limits before fits now l times r in
    (discard_id-LinkFits limits logical_id l kept, covers)

pub LinkRun-in_last_minute :
    (limits : Limits) (before : Link)
    → LinkFits limits before
    → (now : ℕ) (l : Link) (times : List ℕ) → LinkRun limits before now l times
    → in_last_minute now times ≤ limits.max_new_sessions_per_link_per_minute
LinkRun-in_last_minute limits before fits now l times r =
    let (kept, covers) = LinkRun-Covers limits before fits now l times r in
    omega (arith, kept.times, in_last_minute-le now l.new_logical_session_times times covers)
