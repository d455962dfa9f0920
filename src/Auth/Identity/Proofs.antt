-- ===== src/Auth/Identity/Proofs.antt =====
-- What an accepted proof has passed.
use call_backend.Prelude.{
  ℕ, ◌≤◌, String, ◌≡◌, refl, sym, ap, ◌∙◌, subst, Bool, true, false, [], ◌∷◌, ◌⊎◌, inl, inr,
  Bool-cases, ==_iff, not, ◌&&◌, ◌||◌, Option, none, some, List, arith, codes, list_beq,
  list_beq→eq, nat_eq, string_eq, Result, ok, err,
}
use call_backend.Prelude.Raising.{require, or_raise}
use call_backend.Prelude.Chains.{chain, required, present, same_result}
use call_backend.Dict.{get}
use call_backend.Value.{Value, Fields, dict, text, num, get_field, as_text}
use call_backend.Auth.Base58.{base58_decode, qortal_address}
use call_backend.Auth.Identity.Normal.{Normal, normalized-Normal}
use call_backend.Auth.Identity.{
  Challenge, Identity, Outside, Verifier, same_identity, is_text, is_number, is_allowed, is_current,
  matches_challenge, normalize_qapp_identity, decoded_or_none, check_proof, check_found,
  verify_fields, verify,
}

-- One of the listed Q-Apps.
abbrev pub Listed : Identity → List Identity → Type 0
Listed i [] = true ≡ false
Listed i (j ∷ js) = ((i.name ≡ j.name) × (i.service ≡ j.service)) ⊎ Listed i js

listed : (i : Identity) (js : List Identity) → is_allowed i js ≡ true → Listed i js
unfolding is_allowed
listed i [] h = absurd (ground arith)
listed i (j ∷ js) h = elim (Bool-cases (same_identity i j)) [
  | inl same ↦
      inl (
        ground (arith, same, ==_iff i.name j.name),
        ground (arith, same, ==_iff i.service j.service),
      )
  | inr other ↦ inr (listed i js (ground (arith, h, other)))
]

allowed_cases :
    (enforced : Bool) (i : Identity) (js : List Identity)
    → (not enforced || is_allowed i js) ≡ true
    → (enforced ≡ false) ⊎ Listed i js
allowed_cases true i js h = inr (listed i js h)
allowed_cases false i js h = inl refl

text_is : (o : Option Value) (t : String) → is_text o t ≡ true → o ≡ some (text t)
unfolding is_text
text_is none t h = absurd (ground arith)
text_is (some (text s)) t h = ap (λ x. some (text x)) ((==_iff s t).0 h)
text_is (some _) t h = absurd (ground arith)

number_is : (o : Option Value) (n : ℕ) → is_number o n ≡ true → o ≡ some (num n)
unfolding is_number
number_is none n h = absurd (ground arith)
number_is (some (num m)) n h = ap (λ x. some (num x)) ((==_iff m n).0 h)
number_is (some _) n h = absurd (ground arith)

-- It came in time, repeats the challenge, names its Q-App in normal form and one that is allowed,
-- and is signed, over all of that, by the key of its address.
pub record Answers (out : Outside) (v : Verifier) (now : ℕ) (fs : Fields) (c : Challenge)
    (r : String × String × Identity) : Type 0 where
  pub in_time : now ≤ c.expires_at
  pub protocol : get_field fs "protocol" ≡ some (text "qortal-qapp-auth-v1")
  pub challenge_id : get_field fs "challengeId" ≡ some (text c.challenge_id)
  pub nonce : get_field fs "nonce" ≡ some (text c.nonce)
  pub destination : get_field fs "backendDestination" ≡ some (text c.backend_destination)
  pub expiry : get_field fs "expiresAt" ≡ some (num c.expires_at)
  pub address : as_text (get_field fs "address") ≡ some r.0
  pub public_key : as_text (get_field fs "publicKey") ≡ some r.1
  pub qapp_name : get_field fs "qappName" ≡ some (text r.2.name)
  pub qapp_service : get_field fs "qappService" ≡ some (text r.2.service)
  pub normal : Normal out r.2
  pub allowed : (v.enforce_qapp_allowlist ≡ false) ⊎ Listed r.2 v.allowed_qapps
  pub key : List ℕ
  pub key_text : base58_decode (codes r.1) ≡ ok key
  pub own : qortal_address out.hashes key ≡ ok (codes r.0)
  pub signature_text : String
  pub given : as_text (get_field fs "signature") ≡ some signature_text
  pub signature : List ℕ
  pub decoded : base58_decode (codes signature_text) ≡ ok signature
  pub signed :
      out.verifies key signature (
        out.canonical_proof (record { challenge = c; address = r.0; public_key = r.1; qapp = r.2 }))
      ≡ true

present_bytes :
    (r : Result (List ℕ)) (message : String) (bytes : List ℕ)
    → or_raise (decoded_or_none r) message ≡ ok bytes
    → r ≡ ok bytes
unfolding decoded_or_none
present_bytes (ok bs) message bytes h = h
present_bytes (err e) message bytes h = absurd (ground arith)

own_address :
    (r : Result (List ℕ)) (own expected : List ℕ)
    → r ≡ ok own
    → list_beq own expected ≡ true
    → r ≡ ok expected
own_address r own expected h e = ground (arith, h, list_beq→eq own expected e)

repeated :
    (c : Challenge) (fs : Fields)
    → matches_challenge c fs ≡ true
    → (get_field fs "protocol" ≡ some (text "qortal-qapp-auth-v1"))
      × (get_field fs "challengeId" ≡ some (text c.challenge_id))
      × (get_field fs "nonce" ≡ some (text c.nonce))
      × (get_field fs "backendDestination" ≡ some (text c.backend_destination))
      × (get_field fs "expiresAt" ≡ some (num c.expires_at))
unfolding matches_challenge
repeated c fs h = (
  text_is _ _ (ground (arith, h)),
  text_is _ _ (ground (arith, h)),
  text_is _ _ (ground (arith, h)),
  text_is _ _ (ground (arith, h)),
  number_is _ _ (ground (arith, h)),
)

-- The Q-App that passes the checks of its name.
named :
    (out : Outside) (v : Verifier) (fs : Fields) (qapp : Identity)
    → normalize_qapp_identity out (get_field fs "qappName") (get_field fs "qappService") ≡ ok qapp
    → (is_text (get_field fs "qappName") qapp.name
        && is_text (get_field fs "qappService") qapp.service
        && (not v.enforce_qapp_allowlist || is_allowed qapp v.allowed_qapps))
      ≡ true
    → (get_field fs "qappName" ≡ some (text qapp.name))
      × (get_field fs "qappService" ≡ some (text qapp.service))
      × Normal out qapp
      × ((v.enforce_qapp_allowlist ≡ false) ⊎ Listed qapp v.allowed_qapps)
named out v fs qapp normalized h =
    let name = text_is (get_field fs "qappName") qapp.name (ground (arith, h)) in
    let service = text_is (get_field fs "qappService") qapp.service (ground (arith, h)) in
    (
      name,
      service,
      normalized-Normal out qapp.name qapp.service qapp
          (ap (λ n. normalize_qapp_identity out n (some (text qapp.service))) (sym name)
            ∙ ap (normalize_qapp_identity out (get_field fs "qappName")) (sym service)
            ∙ normalized)
          refl refl,
      allowed_cases v.enforce_qapp_allowlist qapp v.allowed_qapps (ground (arith, h)),
    )

check_proof_sound :
    (out : Outside) (v : Verifier) (now : ℕ) (fs : Fields) (c : Challenge)
    (r : String × String × Identity)
    → check_proof out v now fs c ≡ ok r
    → Answers out v now fs c r
unfolding check_proof
check_proof_sound out v now fs c r =
    chain (require (is_current now c) "identity challenge is invalid or expired") _ r _ λ _ current.
      chain (require (matches_challenge c fs) "identity proof does not match its challenge") _ r _
        λ _ matching.
          chain (or_raise (as_text (get_field fs "address")) "identity proof is incomplete") _ r _
            λ address at_address.
              chain (or_raise (as_text (get_field fs "publicKey")) "identity proof is incomplete") _
                r _
                λ public_key at_key.
                  chain
                    (or_raise (as_text (get_field fs "signature")) "identity proof is incomplete") _
                    r _
                    λ signature at_signature.
                      chain
                        (normalize_qapp_identity out (get_field fs "qappName")
                          (get_field fs "qappService"))
                        _ r _
                        λ qapp normalized.
                          chain
                            (require
                              (is_text (get_field fs "qappName") qapp.name
                                && is_text (get_field fs "qappService") qapp.service
                                && (not v.enforce_qapp_allowlist
                                    || is_allowed qapp v.allowed_qapps))
                              "Q-App is not authorized for this backend")
                            _ r _
                            λ _ allowed.
                              chain (base58_decode (codes public_key)) _ r _ λ key is_key.
                                chain (qortal_address out.hashes key) _ r _ λ own is_own.
                                  chain
                                    (require (list_beq own (codes address))
                                      "public key does not match Qortal address")
                                    _ r _
                                    λ _ same.
                                      chain
                                        (or_raise
                                          (decoded_or_none (base58_decode (codes signature)))
                                          "invalid Qortal identity signature")
                                        _ r _
                                        λ bytes is_bytes.
                                          chain
                                            (require
                                              (out.verifies key bytes (
                                                out.canonical_proof (record {
                                                  challenge = c;
                                                  address = address;
                                                  public_key = public_key;
                                                  qapp = qapp;
                                                })))
                                              "invalid Qortal identity signature")
                                            _ r _
                                            λ _ signed done.
                                              subst (Answers out v now fs c)
                                                (same_result (address, public_key, qapp) r done)
                                                (record {
                                                  in_time =
                                                      unfold is_current in
                                                      ground (arith, required _ _ _ current);
                                                  protocol =
                                                      (repeated c fs (required _ _ _ matching)).0;
                                                  challenge_id =
                                                      (repeated c fs (required _ _ _ matching)).1;
                                                  nonce =
                                                      (repeated c fs (required _ _ _ matching)).2;
                                                  destination =
                                                      (repeated c fs (required _ _ _ matching)).3;
                                                  expiry =
                                                      (repeated c fs (required _ _ _ matching)).4;
                                                  address = present _ _ _ at_address;
                                                  public_key = present _ _ _ at_key;
                                                  qapp_name =
                                                      (named out v fs qapp normalized
                                                        (required _ _ _ allowed)).0;
                                                  qapp_service =
                                                      (named out v fs qapp normalized
                                                        (required _ _ _ allowed)).1;
                                                  normal =
                                                      (named out v fs qapp normalized
                                                        (required _ _ _ allowed)).2;
                                                  allowed =
                                                      (named out v fs qapp normalized
                                                        (required _ _ _ allowed)).3;
                                                  key = key;
                                                  key_text = is_key;
                                                  own =
                                                      own_address _ own (codes address) is_own
                                                        (required _ _ _ same);
                                                  signature_text = signature;
                                                  given = present _ _ _ at_signature;
                                                  signature = bytes;
                                                  decoded = present_bytes _ _ _ is_bytes;
                                                  signed = required _ _ _ signed;
                                                })

-- A proof is accepted only for a challenge that was issued, is not yet answered and has not run
-- out, if it repeats the protocol and that challenge's id, nonce, destination and expiry, names a
-- Q-App in normal form that is on the allowlist, unless that is not enforced, and is signed over all
-- of that by the key that its address belongs to.
pub verify_sound :
    (out : Outside) (now : ℕ) (fs : Fields) (v : Verifier) (r : String × String × Identity)
    → (verify out now (dict fs) v).0 ≡ ok r
    → (id : String) × (c : Challenge) × (as_text (get_field fs "challengeId") ≡ some id)
      × (get v.challenges id ≡ some c)
      × Answers out v now fs c r
unfolding verify
verify_sound out now fs v r h = by_id (as_text (get_field fs "challengeId")) refl h
  where
    by_challenge :
        (id : String) (o : Option Challenge)
        → get v.challenges id ≡ o
        → check_found out v now fs o ≡ ok r
        → (c : Challenge) × (get v.challenges id ≡ some c) × Answers out v now fs c r
    by_challenge id none e k = unfold check_found in absurd (ground arith)
    by_challenge id (some c) e k =
        (c, e, check_proof_sound out v now fs c r (unfold check_found in k))

    by_id :
        (o : Option String)
        → as_text (get_field fs "challengeId") ≡ o
        → (verify_fields out now fs o v).0 ≡ ok r
        → (id : String) × (c : Challenge) × (as_text (get_field fs "challengeId") ≡ some id)
          × (get v.challenges id ≡ some c)
          × Answers out v now fs c r
    by_id none e k = unfold verify_fields in absurd (ground arith)
    by_id (some id) e k =
        let (c, at, answers) =
          by_challenge id (get v.challenges id) refl (unfold verify_fields in k) in
        (id, c, e, at, answers)
