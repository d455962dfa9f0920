-- ===== src/Auth/Groups/Cores.antt =====
-- A group's answer is some Core's.
use call_backend.Prelude.{
  ℕ, ◌+◌, ◌<◌, String, ◌≡◌, refl, ◌∙◌, ◌⊎◌, inl, inr, Bool, true, false, not, Option, none, some,
  List, [], ◌∷◌, arith, if◌then◌else◌, string_eq, leb, filter, Result, ok, err, access_unavailable,
}
use call_backend.Dict.{Dict, put}
use call_backend.Auth.Groups.{
  core_check_deadline, core_failure_cooldown, Attempt, or_next, ask, is_cool, or_all,
  check_one_group,
}

-- A Core of the list that was asked in time and gave that answer.
abbrev pub Answering : ℕ → (String → Attempt) → Bool → List String → Type 0
Answering deadline attempt b [] = ⊥
Answering deadline attempt b (base ∷ bases) =
    (((attempt base).answer ≡ some b)
      × ((attempt base).has_slot ≡ true)
      × ((attempt base).before < deadline))
    ⊎ Answering deadline attempt b bases

-- The result of the three tests of a turn.
abbrev turn :
    Bool
    → Bool
    → Option Bool
    → String
    → Dict String ℕ
    → (x y : Result Bool × Dict String ℕ) → Result Bool
turn late slot o base failed x y =
    (if_pair late (err access_unavailable, failed)
      (if_pair (not slot) x (or_next o base failed y))).0
  where
    if_pair :
        Bool
        → Result Bool × Dict String ℕ
        → Result Bool × Dict String ℕ
        → Result Bool × Dict String ℕ
    if_pair b x y = if b then x else y

turn-answer :
    (deadline : ℕ) (attempt : String → Attempt) (base : String) (bases : List String)
    (failed : Dict String ℕ) (b : Bool) (x y : Result Bool × Dict String ℕ) (late slot : Bool)
    (o : Option Bool)
    → leb deadline (attempt base).before ≡ late
    → (attempt base).has_slot ≡ slot
    → (attempt base).answer ≡ o
    → (x.0 ≡ ok b → Answering deadline attempt b bases)
    → (y.0 ≡ ok b → Answering deadline attempt b bases)
    → turn late slot o base failed x y ≡ ok b
    → Answering deadline attempt b (base ∷ bases)
unfolding or_next
turn-answer deadline attempt base bases failed b x y true slot o e s a hx hy h =
    absurd (ground arith)
turn-answer deadline attempt base bases failed b x y false false o e s a hx hy h = inr (hx h)
turn-answer deadline attempt base bases failed b x y false true none e s a hx hy h = inr (hy h)
turn-answer deadline attempt base bases failed b x y false true (some m) e s a hx hy h =
    inl (a ∙ ground (arith, h), s, ground (arith, e))

ask-answer :
    (deadline : ℕ) (attempt : String → Attempt) (bases : List String) (failed : Dict String ℕ)
    (b : Bool)
    → (ask deadline attempt bases failed).0 ≡ ok b
    → Answering deadline attempt b bases
unfolding ask
ask-answer deadline attempt [] failed b h = absurd (ground arith)
ask-answer deadline attempt (base ∷ bases) failed b h =
    turn-answer deadline attempt base bases failed b _ _ _ _ _ refl refl refl
      (ask-answer deadline attempt bases failed b)
      (ask-answer deadline attempt bases
        (put failed base ((attempt base).after + core_failure_cooldown)) b)
      h

-- A group's check has an answer only if a Core that was asked within the six seconds, with a free
-- request slot, gave it.
pub check_one_group-answer :
    (now : ℕ) (attempt : String → Attempt) (bases : List String) (failed : Dict String ℕ) (b : Bool)
    → (check_one_group now attempt bases failed).0 ≡ ok b
    → Answering
        (now + core_check_deadline)
        attempt
        b
        (or_all (filter (is_cool now failed) bases) bases)
unfolding check_one_group
check_one_group-answer now attempt bases failed b h =
    ask-answer (now + core_check_deadline) attempt _ failed b h
