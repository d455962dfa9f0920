-- ===== src/Auth/Identity/Challenges.antt =====
-- A challenge is answered once, and there are never too many.
use call_backend.Prelude.{
  ℕ, ◌+◌, ◌-◌, ◌≤◌, ◌<◌, String, ◌≡◌, ap, ◌∙◌, not, ◌&&◌, none, some, arith, if_cases, ◌==◌,
  string_eq, eq_refl, ltb, length, length-drop, drop, codes, all, nat_eq, Result, err, value_error,
}
use call_backend.Dict.{Dict, get, put, get-remove, retain, length-put-le}
use call_backend.Value.{Fields, dict, get_field, as_text}
use call_backend.Call.Requests.{is_hex}
use call_backend.Auth.Identity.{
  Challenge, Outside, Verifier, make_room, issue, check_found, verify_fields, verify,
}

spent :
    (out : Outside) (now : ℕ) (fs : Fields) (id : String) (v : Verifier)
    → get v.challenges id ≡ none
    → (verify_fields out now fs (some id) v).0
      ≡ err (value_error "identity challenge is invalid or expired")
unfolding verify_fields check_found
spent out now fs id v h = rw h

taken :
    (out : Outside) (now : ℕ) (fs : Fields) (id : String) (v : Verifier)
    → get (verify_fields out now fs (some id) v).1.challenges id ≡ none
unfolding verify_fields
taken out now fs id v = get-remove v.challenges id id ∙ rw (eq_refl id)

-- A challenge is good for one attempt: after a proof that names it, accepted or not, every later
-- proof that names it is refused.
pub verify_once :
    (out : Outside) (now later : ℕ) (fs gs : Fields) (id : String) (v : Verifier)
    → as_text (get_field fs "challengeId") ≡ some id
    → as_text (get_field gs "challengeId") ≡ some id
    → (verify out later (dict gs) (verify out now (dict fs) v).1).0
      ≡ err (value_error "identity challenge is invalid or expired")
unfolding verify
verify_once out now later fs gs id v h k =
    ap
      (λ o.
        (verify_fields out later gs o
          (verify_fields out now fs (as_text (get_field fs "challengeId")) v).1).0)
      k
    ∙ ap (λ o. (verify_fields out later gs (some id) (verify_fields out now fs o v).1).0) h
    ∙ spent out later gs id (verify_fields out now fs (some id) v).1 (taken out now fs id v)

room-fits :
    (limit : ℕ) (cs : Dict String Challenge) (id : String) (c : Challenge)
    → 0 < limit
    → length (put (make_room limit cs) id c) ≤ limit
unfolding make_room
room-fits limit cs id c positive = omega (
  arith,
  positive,
  length-put-le (drop (length cs + 1 - limit) cs) id c,
  length-drop (length cs + 1 - limit) cs,
)

-- If the limit on challenges is positive and no more than that are outstanding, no more are
-- after a challenge is issued.
pub issue-bounded :
    (id nonce destination : String) (now : ℕ) (v : Verifier)
    → 0 < v.max_outstanding_challenges
    → length v.challenges ≤ v.max_outstanding_challenges
    → length (issue id nonce destination now v).1.challenges ≤ v.max_outstanding_challenges
unfolding issue
issue-bounded id nonce destination now v positive small =
    if_cases {A = Result Challenge × Verifier}
      (λ r. length r.1.challenges ≤ v.max_outstanding_challenges)
      (all is_hex (codes destination) && length (codes destination) == 32)
      (λ _. omega (
        arith,
        positive,
        room-fits v.max_outstanding_challenges
            (retain (λ c. not (ltb c.expires_at now)) v.challenges) id _ positive,
      ))
      λ _. small
