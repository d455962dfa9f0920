-- ===== src/Reticulum/Base64.antt =====
-- `base64.b64encode` and `base64.b64decode(..., validate=True)` of Python, which
-- src/qapp_backend/reticulum/protocol.py uses: the standard alphabet, groups of four, padding at the
-- end only and nothing else between.
pub mod RoundTrip
use call_backend.Prelude.{
  ℕ, ◌+◌, ◌-◌, ◌*◌, ◌/◌, ◌%◌, Bool, true, false, ◌&&◌, ◌||◌, Option, none, some, List, [], ◌∷◌,
  ◌++◌, if◌then◌else◌, ◌==◌, nat_eq, ltb, leb,
}

-- A-Z a-z 0-9 + /
unfoldable pub digit : ℕ → ℕ
digit n =
    if ltb n 26
    then n + 65
    else if ltb n 52
    then n + 71
    else if ltb n 62
    then n - 4
    else if n == 62
    then 43
    else 47

unfoldable pub value : ℕ → Option ℕ
value c =
    if leb 65 c && leb c 90
    then some (c - 65)
    else if leb 97 c && leb c 122
    then some (c - 71)
    else if leb 48 c && leb c 57
    then some (c + 4)
    else if c == 43
    then some 62
    else if c == 47
    then some 63
    else none

abbrev pub pad : ℕ
pad = 61

unfoldable pub b64encode : List ℕ → List ℕ
unfolding digit
b64encode [] = []
b64encode (a ∷ []) = digit (a / 4) ∷ digit (a % 4 * 16) ∷ pad ∷ pad ∷ []
b64encode (a ∷ b ∷ []) = digit (a / 4) ∷ digit (a % 4 * 16 + b / 16) ∷ digit (b % 16 * 4) ∷ pad ∷ []
b64encode (a ∷ b ∷ c ∷ rest) =
    digit (a / 4)
    ∷ digit (a % 4 * 16 + b / 16)
    ∷ digit (b % 16 * 4 + c / 64)
    ∷ digit (c % 64)
    ∷ b64encode rest

-- A full group, before the rest.
unfoldable pub full : Option ℕ → Option ℕ → Option ℕ → Option ℕ → Option (List ℕ) → Option (List ℕ)
full (some p) (some q) (some r) (some s) (some rest) =
    some ((p * 4 + q / 16) ∷ (q % 16 * 16 + r / 4) ∷ (r % 4 * 64 + s) ∷ rest)
full _ _ _ _ _ = none

unfoldable pub last_two : Option ℕ → Option ℕ → Option ℕ → Option (List ℕ)
last_two (some p) (some q) (some r) = some ((p * 4 + q / 16) ∷ (q % 16 * 16 + r / 4) ∷ [])
last_two _ _ _ = none

unfoldable pub last_one : Option ℕ → Option ℕ → Option (List ℕ)
last_one (some p) (some q) = some ((p * 4 + q / 16) ∷ [])
last_one _ _ = none

abbrev pub is_empty : List ℕ → Bool
is_empty [] = true
is_empty (x ∷ xs) = false

unfoldable pub b64decode : List ℕ → Option (List ℕ)
unfolding value full last_two last_one
b64decode [] = some []
b64decode (a ∷ b ∷ c ∷ d ∷ rest) =
    let others = b64decode rest in
    if d == pad && is_empty rest
    then (if c == pad then last_one (value a) (value b) else last_two (value a) (value b) (value c))
    else full (value a) (value b) (value c) (value d) others
b64decode _ = none
