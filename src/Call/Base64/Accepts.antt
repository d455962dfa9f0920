-- ===== src/Call/Base64/Accepts.antt =====
-- Which values `_decode_base64url` accepts, and how long their bytes are.
use call_backend.Prelude.{
  ℕ, zero, suc, ◌+◌, ◌-◌, ◌*◌, ◌/◌, ◌%◌, ◌≤◌, ◌<◌, ◌≡◌, refl, ◌≢◌, ◌∙◌, ap, inl, inr, Bool, true,
  false, Option, none, some, List, [], ◌∷◌, ◌++◌, arith, if◌then◌else◌, ◌==◌, nat_eq, length, all,
  leb, length-append, Result, ok, err, value_error, Option-cases, ◌&&◌, ◌||◌,
}
use call_backend.Call.Base64.{
  pad, is_word, at_most_pads, words_then_pads, is_base64url, strip_pads, pads, sextet, emit,
  left_over, a2b_base64, urlsafe_b64decode, expect_length, decode_codes,
}

sextet_of_word : (c : ℕ) → is_word c ≡ true → sextet c ≢ none
unfolding is_word sextet
sextet_of_word c h = ground arith

word-ne-pad : (c : ℕ) → is_word c ≡ true → (c == pad) ≡ false
unfolding is_word
word-ne-pad c h = ground arith

-- The pads that follow the characters of a group end the text well exactly if they fill the group.
a2b-pads :
    (p quad left seen : ℕ)
    → quad < 4
    → seen < 4 - quad
    → a2b_base64 (pads p) quad left seen
      ≡ (if quad == 0 || (leb 2 quad && leb 4 (quad + (seen + p))) then some [] else none)
unfolding a2b_base64 pads
a2b-pads zero quad left seen h k = ground arith
a2b-pads (suc p) quad left seen h k =
    ground (arith, a2b-pads p quad left (seen + 1), a2b-pads p quad left seen)

abbrev decoded_length : Option (List ℕ) → Option ℕ
decoded_length none = none
decoded_length (some bytes) = some (length bytes)

abbrev plus : ℕ → Option ℕ → Option ℕ
plus n none = none
plus n (some m) = some (m + n)

emit-length :
    (quad left v : ℕ) (r : Option (List ℕ))
    → decoded_length (emit quad left v r) ≡ plus (if quad == 0 then 0 else 1) (decoded_length r)
unfolding emit
emit-length quad left v none = refl
emit-length zero left v (some bytes) = ground arith
emit-length (suc zero) left v (some bytes) = ground arith
emit-length (suc (suc zero)) left v (some bytes) = ground arith
emit-length (suc (suc (suc quad))) left v (some bytes) = ground arith

a2b-cons :
    (c : ℕ) (cs : List ℕ) (quad left seen v : ℕ)
    → is_word c ≡ true
    → sextet c ≡ some v
    → a2b_base64 (c ∷ cs) quad left seen
      ≡ emit quad left v (a2b_base64 cs ((quad + 1) % 4) (left_over quad v) 0)
unfolding a2b_base64
a2b-cons c cs quad left seen v w e = rw (word-ne-pad c w, e)

-- Whether `p` pads complete a text whose last group has `quad` characters.
abbrev completes : ℕ → ℕ → Bool
completes quad p = quad == 0 || (leb 2 quad && leb 4 (quad + p))

words-length :
    (d : List ℕ) (p quad left : ℕ)
    → all is_word d ≡ true
    → quad < 4
    → decoded_length (a2b_base64 (d ++ pads p) quad left 0) ≡ (
        if completes ((quad + length d) % 4) p
        then some ((quad + length d) * 3 / 4 - quad * 3 / 4)
        else none)
words-length [] p quad left w h = rw (a2b-pads p quad left 0 h (omega arith)) (ground arith)
words-length (c ∷ cs) p quad left w h = elim (Option-cases (sextet c)) [
  | inl e ↦ absurd (sextet_of_word c (ground arith) e)
  | inr (v, e) ↦
      rw
        (
          a2b-cons c (cs ++ pads p) quad left 0 v (ground arith) e,
          emit-length quad left v (a2b_base64 (cs ++ pads p) ((quad + 1) % 4) (left_over quad v) 0),
          words-length cs p ((quad + 1) % 4) (left_over quad v) (ground arith) (omega arith),
        )
        (ground arith)
]

strip-pads : (k : ℕ) → strip_pads (pads k) ≡ []
unfolding strip_pads pads
strip-pads zero = refl
strip-pads (suc k) = rw (strip-pads k)

strip-word-cons : (c : ℕ) (cs : List ℕ) → is_word c ≡ true → strip_pads (c ∷ cs) ≡ c ∷ strip_pads cs
unfolding strip_pads
strip-word-cons c cs w = by_rest (strip_pads cs)
  where
    by_rest :
        (rest : List ℕ)
        → ◌≡◌ {A = List ℕ}
            (elim rest [ [] ↦ if c == pad then [] else c ∷ [] | d ∷ ds ↦ c ∷ d ∷ ds ])
            (c ∷ rest)
    by_rest [] = rw (word-ne-pad c w)
    by_rest (d ∷ ds) = refl

strip-words-pads : (d : List ℕ) (k : ℕ) → all is_word d ≡ true → strip_pads (d ++ pads k) ≡ d
strip-words-pads [] k w = strip-pads k
strip-words-pads (c ∷ cs) k w =
    rw (strip-word-cons c (cs ++ pads k) (ground arith), strip-words-pads cs k (ground arith))

length-pads : (k : ℕ) → length (pads k) ≡ k
unfolding pads
length-pads zero = refl
length-pads (suc k) = ap suc (length-pads k)

at_most-pads : (k n : ℕ) → k ≤ n → at_most_pads n (pads k) ≡ true
unfolding at_most_pads pads
at_most-pads zero zero h = refl
at_most-pads zero (suc n) h = refl
at_most-pads (suc k) zero h = absurd (omega arith)
at_most-pads (suc k) (suc n) h = at_most-pads k n (omega arith)

pads-match : (k : ℕ) → k ≤ 2 → words_then_pads (pads k) ≡ true
unfolding words_then_pads at_most_pads pads is_word
pads-match zero h = refl
pads-match (suc k) h = at_most-pads k 1 (omega arith)

words-match :
    (d : List ℕ) (k : ℕ) → all is_word d ≡ true → k ≤ 2 → words_then_pads (d ++ pads k) ≡ true
unfolding words_then_pads
words-match [] k w h = pads-match k h
words-match (c ∷ cs) k w h = ground (arith, words-match cs k)

well_formed :
    (d : List ℕ) (k : ℕ)
    → all is_word d ≡ true
    → 0 < length d
    → k ≤ 2
    → is_base64url (d ++ pads k) ≡ true
unfolding is_base64url
well_formed [] k w n h = absurd (omega arith)
well_formed (c ∷ cs) k w n h = ground (arith, words-match cs k)

abbrev pub result_length : Result (List ℕ) → Option ℕ
result_length (ok bytes) = some (length bytes)
result_length (err e) = none

-- The lengths at which `n` characters and `k` signs "=" are accepted.
abbrev pub accepted : ℕ → ℕ → Bool
accepted n k = n % 4 == 0 || (k == 0 && leb 2 (n % 4)) || (k == 2 && n % 4 == 3)

urlsafe-length :
    (d : List ℕ) (k : ℕ)
    → all is_word d ≡ true
    → k ≤ 2
    → decoded_length (urlsafe_b64decode (d ++ pads k))
      ≡ (if accepted (length d) k then some (length d * 3 / 4) else none)
unfolding urlsafe_b64decode
urlsafe-length d k w h =
    rw
      (
        strip-words-pads d k w,
        length-append d (pads k),
        length-pads k,
        words-length d ((4 - (length d + k) % 4) % 4) 0 0 w (omega arith),
      )
      (ground arith)

decode-no_length :
    (value : List ℕ)
    → is_base64url value ≡ true
    → result_length (decode_codes value none) ≡ decoded_length (urlsafe_b64decode value)
unfolding decode_codes expect_length
decode-no_length value m = ground arith

-- `_decode_base64url` on `n` characters of the alphabet, `n` at least 1, and then `k` signs "=",
-- `k` at most 2, with no length asked for: it succeeds exactly if `n` is a multiple of 4, or there
-- are no signs and `n` leaves 2 or 3 modulo 4, or there are two signs and `n` leaves 3; and then it
-- yields `3 n / 4` bytes, rounded down.
pub decode-accepted :
    (d : List ℕ) (k : ℕ)
    → all is_word d ≡ true
    → 0 < length d
    → k ≤ 2
    → result_length (decode_codes (d ++ pads k) none)
      ≡ (if accepted (length d) k then some (length d * 3 / 4) else none)
decode-accepted d k w n h =
    decode-no_length (d ++ pads k) (well_formed d k w n h) ∙ urlsafe-length d k w h

decode-none :
    (value : List ℕ) (expected : Option ℕ)
    → decoded_length (urlsafe_b64decode value) ≡ none
    → decode_codes value expected ≡ err (value_error "invalid base64url value")
unfolding decode_codes
decode-none value expected h = ground arith

-- A value that carries the standard padding, so that its length with the one or two signs "=" is a
-- multiple of 4, matches the pattern that `_decode_base64url` checks and is then always refused,
-- whatever length is asked for.
pub decode-padded :
    (d : List ℕ) (k : ℕ) (expected : Option ℕ)
    → all is_word d ≡ true
    → 0 < length d
    → 1 ≤ k
    → k ≤ 2
    → (length d + k) % 4 ≡ 0
    → (is_base64url (d ++ pads k) ≡ true)
      × (decode_codes (d ++ pads k) expected ≡ err (value_error "invalid base64url value"))
decode-padded d k expected w n low high whole = (
  well_formed d k w n high,
  decode-none (d ++ pads k) expected (urlsafe-length d k w high ∙ ground arith),
)
