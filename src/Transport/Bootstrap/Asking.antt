-- ===== src/Transport/Bootstrap/Asking.antt =====
-- What a request says that passes the checks of `bootstrap`.
use call_backend.Prelude.{
  ℕ, ◌≤◌, String, true, false, ◌≡◌, refl, subst, ap, Option, none, some, List, [], ◌∷◌, ◌⊎◌, inl,
  inr, arith, nat_eq, string_eq, ==_iff, length, codes, all, is_some, contains, ok,
}
use call_backend.Prelude.Raising.{require, or_raise}
use call_backend.Prelude.Chains.{chain, required, present, same_result}
use call_backend.Value.{
  Value, Fields, text, num, bool, get_field, as_text, exact_fields, equals_number,
}
use call_backend.Call.Base64.{is_word}
use call_backend.Call.Requests.{matches}
use call_backend.Transport.Bootstrap.Requests.{Request, is_purpose, check_request}

-- A letter, a digit, an underscore or a hyphen.
abbrev pub WordChar : ℕ → Type 0
WordChar c =
    ((65 ≤ c) × (c ≤ 90)) ⊎ ((97 ≤ c) × (c ≤ 122)) ⊎ ((48 ≤ c) × (c ≤ 57)) ⊎ (c ≡ 95) ⊎ (c ≡ 45)

abbrev pub AllWordChars : List ℕ → Type 0
AllWordChars [] = Unit {0}
AllWordChars (c ∷ cs) = WordChar c × AllWordChars cs

-- The four fields and no other; version 1, which `True` equals too; this transport; one of the three
-- purposes; and a nonce of 32 to 128 letters, digits, underscores and hyphens.
pub record Asks (payload : Value) (r : Request) : Type 0 where
  pub fields : Fields
  pub only : exact_fields ("version" ∷ "transport" ∷ "nonce" ∷ "purpose" ∷ []) payload ≡ some fields
  pub version :
      (get_field fields "version" ≡ some (num 1)) ⊎ (get_field fields "version" ≡ some (bool true))
  pub transport : get_field fields "transport" ≡ some (text "quic-masque-inner-v1")
  pub purpose : get_field fields "purpose" ≡ some (text r.purpose)
  pub known : (r.purpose ≡ "game") ⊎ (r.purpose ≡ "file-transfer") ⊎ (r.purpose ≡ "realtime")
  pub nonce : get_field fields "nonce" ≡ some (text r.nonce)
  pub nonce_long : 32 ≤ length (codes r.nonce)
  pub nonce_short : length (codes r.nonce) ≤ 128
  pub nonce_chars : AllWordChars (codes r.nonce)

word_char : (c : ℕ) → is_word c ≡ true → WordChar c
unfolding is_word
word_char c h = ground (arith, h)

all_word_chars : (cs : List ℕ) → all is_word cs ≡ true → AllWordChars cs
all_word_chars [] h = tt
all_word_chars (c ∷ cs) h = (word_char c (ground (arith, h)), all_word_chars cs (ground (arith, h)))

version_one :
    (o : Option Value) → equals_number o 1 ≡ true → (o ≡ some (num 1)) ⊎ (o ≡ some (bool true))
unfolding equals_number
version_one none h = absurd (ground arith)
version_one (some (num m)) h = inl (ap (λ x. some (num x)) ((==_iff m 1).0 h))
version_one (some (bool true)) h = inr refl
version_one (some (bool false)) h = absurd (ground arith)
version_one (some _) h = absurd (ground arith)

text_there : (o : Option Value) (t : String) → as_text o ≡ some t → o ≡ some (text t)
unfolding as_text
text_there none t h = absurd (ground arith)
text_there (some (text s)) t h = ground (arith, h)
text_there (some _) t h = absurd (ground arith)

is_some_same : (o : Option String) (a : String) → is_some o a ≡ true → o ≡ some a
is_some_same none a h = absurd (ground arith)
is_some_same (some b) a h = ground (arith, ==_iff b a)

one_of_three :
    (p : String) → is_purpose p ≡ true → (p ≡ "game") ⊎ (p ≡ "file-transfer") ⊎ (p ≡ "realtime")
unfolding is_purpose contains
one_of_three p h = ground (
  arith,
  h,
  ==_iff "game" p,
  ==_iff "file-transfer" p,
  ==_iff "realtime" p,
  ==_iff p "game",
  ==_iff p "file-transfer",
  ==_iff p "realtime",
)

pub check_request-Asks :
    (payload : Value) (r : Request) → check_request payload ≡ ok r → Asks payload r
unfolding check_request
check_request-Asks payload r =
    chain
      (or_raise (exact_fields ("version" ∷ "transport" ∷ "nonce" ∷ "purpose" ∷ []) payload)
        "invalid_request")
      _ r _
      λ fs only.
        chain (require (equals_number (get_field fs "version") 1) "unsupported_version") _ r _
          λ _ version.
            chain
              (require (is_some (as_text (get_field fs "transport")) "quic-masque-inner-v1")
                "unsupported_transport")
              _ r _
              λ _ transport.
                chain (or_raise (as_text (get_field fs "purpose")) "unsupported_purpose") _ r _
                  λ purpose at_purpose.
                    chain (require (is_purpose purpose) "unsupported_purpose") _ r _ λ _ known.
                      chain (or_raise (as_text (get_field fs "nonce")) "invalid_nonce") _ r _
                        λ nonce at_nonce.
                          chain (require (matches is_word 32 128 nonce) "invalid_nonce") _ r _
                            λ _ formed done.
                              let word = required _ _ _ formed in
                              subst (Asks payload) (same_result _ r done) (record {
                                fields = fs;
                                only = present _ _ _ only;
                                version = version_one _ (required _ _ _ version);
                                transport =
                                    text_there _ _ (is_some_same _ _ (required _ _ _ transport));
                                purpose = text_there _ _ (present _ _ _ at_purpose);
                                known = one_of_three purpose (required _ _ _ known);
                                nonce = text_there _ _ (present _ _ _ at_nonce);
                                nonce_long = unfold matches in ground (arith, word);
                                nonce_short = unfold matches in ground (arith, word);
                                nonce_chars =
                                    all_word_chars (codes nonce)
                                      (unfold matches in ground (arith, word));
                              })
