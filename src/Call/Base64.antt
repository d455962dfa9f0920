-- ===== src/Call/Base64.antt =====
-- `_decode_base64url` of src/qapp_backend/call/service.py, with the standard library's
-- `base64.urlsafe_b64decode` (the lenient loop of `binascii.a2b_base64`) that it calls.
pub mod Accepts
use call_backend.Prelude.{
  ℕ, zero, suc, ◌+◌, ◌-◌, ◌*◌, ◌/◌, ◌%◌, String, Bool, true, false, ◌&&◌, ◌||◌, Option, none, some,
  List, [], ◌∷◌, ◌++◌, if◌then◌else◌, ◌==◌, nat_eq, leb, length, all, codes, Result, ok, err,
  value_error,
}
use call_backend.Value.{Value, text, as_text}

abbrev pub pad : ℕ
pad = b'='

-- [A-Za-z0-9_-]
unfoldable pub is_word : ℕ → Bool
is_word c =
    (leb b'A' c && leb c b'Z')
    || (leb b'a' c && leb c b'z')
    || (leb b'0' c && leb c b'9')
    || c == b'_'
    || c == b'-'

unfoldable pub at_most_pads : ℕ → List ℕ → Bool
at_most_pads n [] = true
at_most_pads zero (c ∷ cs) = false
at_most_pads (suc n) (c ∷ cs) = c == pad && at_most_pads n cs

unfoldable pub words_then_pads : List ℕ → Bool
unfolding is_word at_most_pads
words_then_pads [] = true
words_then_pads (c ∷ cs) =
    let rest = words_then_pads cs in if is_word c then rest else at_most_pads 2 (c ∷ cs)

-- ^[A-Za-z0-9_-]+={0,2}$
unfoldable pub is_base64url : List ℕ → Bool
unfolding words_then_pads
is_base64url [] = false
is_base64url (c ∷ cs) = is_word c && words_then_pads cs

-- value.rstrip("=")
unfoldable pub strip_pads : List ℕ → List ℕ
strip_pads [] = []
strip_pads (c ∷ cs) = elim (strip_pads cs) [
  | [] ↦ if c == pad then [] else c ∷ []
  | d ∷ ds ↦ c ∷ d ∷ ds
]

unfoldable pub pads : ℕ → List ℕ
pads zero = []
pads (suc n) = pad ∷ pads n

-- The value of a character, "-" and "_" standing for "+" and "/".
unfoldable pub sextet : ℕ → Option ℕ
sextet c =
    if leb b'A' c && leb c b'Z'
    then some (c - b'A')
    else if leb b'a' c && leb c b'z'
    then some (c - b'a' + 26)
    else if leb b'0' c && leb c b'9'
    then some (c - b'0' + 52)
    else if c == b'-' || c == b'+'
    then some 62
    else if c == b'_' || c == b'/'
    then some 63
    else none

-- The byte that the character at place `quad` of its group of four completes.
unfoldable pub emit : ℕ → ℕ → ℕ → Option (List ℕ) → Option (List ℕ)
emit quad left v none = none
emit zero left v (some bytes) = some bytes
emit (suc zero) left v (some bytes) = some ((left * 4 + v / 16) ∷ bytes)
emit (suc (suc zero)) left v (some bytes) = some ((left * 16 + v / 4) ∷ bytes)
emit quad left v (some bytes) = some ((left * 64 + v) ∷ bytes)

unfoldable pub left_over : ℕ → ℕ → ℕ
left_over zero v = v
left_over (suc zero) v = v % 16
left_over (suc (suc zero)) v = v % 4
left_over quad v = 0

-- `quad` characters of the current group were read, `seen` pads after them; `none` is
-- `binascii.Error`. A character outside the alphabet is skipped.
unfoldable pub a2b_base64 : List ℕ → ℕ → ℕ → ℕ → Option (List ℕ)
a2b_base64 [] quad left seen = if quad == 0 then some [] else none
a2b_base64 (c ∷ cs) quad left seen =
    let padded = a2b_base64 cs quad left (if leb 2 quad then seen + 1 else seen) in
    let skipped = a2b_base64 cs quad left seen in
    if c == pad
    then (if leb 2 quad && leb 4 (quad + (seen + 1)) then some [] else padded)
    else elim (sextet c) [
      | none ↦ skipped
      | some v ↦ emit quad left v (a2b_base64 cs ((quad + 1) % 4) (left_over quad v) 0)
    ]

-- The padding is computed from the length that the value has with its own "=" signs.
unfoldable pub urlsafe_b64decode : List ℕ → Option (List ℕ)
urlsafe_b64decode value = a2b_base64 (strip_pads value ++ pads ((4 - length value % 4) % 4)) 0 0 0

unfoldable pub expect_length : Option ℕ → List ℕ → Result (List ℕ)
expect_length none decoded = ok decoded
expect_length (some n) decoded =
    if length decoded == n then ok decoded else err (value_error "invalid key length")

unfoldable pub decode_codes : List ℕ → Option ℕ → Result (List ℕ)
decode_codes value expected =
    if is_base64url value
    then elim (urlsafe_b64decode value) [
      | none ↦ err (value_error "invalid base64url value")
      | some decoded ↦ expect_length expected decoded
    ]
    else err (value_error "invalid base64url value")

unfoldable pub decode_base64url : Option Value → Option ℕ → Result (List ℕ)
unfolding as_text
decode_base64url value expected = elim (as_text value) [
  | none ↦ err (value_error "invalid base64url value")
  | some s ↦ decode_codes (codes s) expected
]
