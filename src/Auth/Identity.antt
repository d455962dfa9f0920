-- ===== src/Auth/Identity.antt =====
-- `QortalIdentityVerifier` of src/qapp_backend/auth/qortal_identity.py: challenges that are issued,
-- and the signed proofs that answer them.
pub mod Challenges
pub mod Normal
pub mod Proofs
use call_backend.Prelude.{
  ℕ, ◌+◌, ◌-◌, String, Bool, true, false, not, ◌&&◌, ◌||◌, Option, none, some, List, [], ◌∷◌,
  if◌then◌else◌, ◌==◌, nat_eq, string_eq, leb, ltb, length, drop, list_beq, codes, all, Result, ok,
  err, value_error,
}
use call_backend.Prelude.Raising.{◌>>=◌, ◌>>◌, require, or_raise}
use call_backend.Dict
use call_backend.Dict.{Dict, get, put, retain}
use call_backend.Value.{Value, Fields, dict, text, num, get_field, as_text}
use call_backend.Call.Requests.{is_hex}
use call_backend.Auth.Base58.{Hashes, base58_decode, qortal_address}

abbrev pub auth_protocol : String
auth_protocol = "qortal-qapp-auth-v1"

-- `CHALLENGE_TTL_SECONDS`, in milliseconds.
abbrev pub challenge_ttl : ℕ
challenge_ttl = 60000

pub record Challenge : Type 0 where
  pub challenge_id : String
  pub nonce : String
  pub backend_destination : String
  pub expires_at : ℕ

pub record Identity : Type 0 where
  pub name : String
  pub service : String

-- `signed_fields`, which `canonical_proof` turns into bytes.
pub record SignedFields : Type 0 where
  pub challenge : Challenge
  pub address : String
  pub public_key : String
  pub qapp : Identity

-- The methods of `str` on all of Unicode, `json.dumps`, `hashlib`, and the verification of an
-- Ed25519 signature, which is false where the key or the signature is malformed too.
pub record Outside : Type 0 where
  pub strip : String → String
  pub lower : String → String
  pub upper : String → String
  pub canonical_proof : SignedFields → List ℕ
  pub hashes : Hashes
  pub verifies : List ℕ → List ℕ → List ℕ → Bool

pub record Verifier : Type 0 where
  pub challenges : Dict String Challenge
  pub max_outstanding_challenges : ℕ
  pub enforce_qapp_allowlist : Bool
  pub allowed_qapps : List Identity

unfoldable pub is_service_char : ℕ → Bool
is_service_char c = (leb b'A' c && leb c b'Z') || (leb b'0' c && leb c b'9') || c == b'_'

unfoldable pub normalize_qapp_identity : Outside → Option Value → Option Value → Result Identity
unfolding is_service_char
normalize_qapp_identity out name service = do
  given_name ← or_raise (as_text name) "Q-App identity fields must be strings"
  given_service ← or_raise (as_text service) "Q-App identity fields must be strings"
  let normal_name = out.lower (out.strip given_name)
  let normal_service = out.upper (out.strip given_service)
  require (not (normal_name == "") && leb (length (codes normal_name)) 128) "Q-App name is invalid"
  require
      (all is_service_char (codes normal_service)
        && leb 1 (length (codes normal_service))
        && leb (length (codes normal_service)) 32)
      "Q-App service is invalid"
  ok (record { name = normal_name; service = normal_service })

abbrev pub same_identity : Identity → Identity → Bool
same_identity i j = i.name == j.name && i.service == j.service

unfoldable pub is_allowed : Identity → List Identity → Bool
is_allowed i [] = false
is_allowed i (j ∷ js) = same_identity i j || is_allowed i js

-- `popitem(last=False)` until there is room for one more.
unfoldable pub make_room : ℕ → Dict String Challenge → Dict String Challenge
make_room limit cs = drop (length cs + 1 - limit) cs

-- `issue`, with the id and the nonce that `secrets` made; `now` is in milliseconds.
unfoldable pub issue : String → String → String → ℕ → Verifier → Result Challenge × Verifier
unfolding make_room
issue id nonce destination now v =
    let challenge : Challenge = record {
      challenge_id = id;
      nonce = nonce;
      backend_destination = destination;
      expires_at = now + challenge_ttl;
    } in
    if all is_hex (codes destination) && length (codes destination) == 32
    then (
      ok challenge,
      record v {
        challenges =
            put
              (make_room v.max_outstanding_challenges
                (retain (λ c. not (ltb c.expires_at now)) v.challenges))
              id challenge;
      },
    )
    else (err (value_error "backend destination is unavailable"), v)

unfoldable pub is_text : Option Value → String → Bool
is_text (some (text s)) t = s == t
is_text _ t = false

unfoldable pub is_number : Option Value → ℕ → Bool
is_number (some (num m)) n = m == n
is_number _ n = false

unfoldable pub matches_challenge : Challenge → Fields → Bool
unfolding is_text is_number
matches_challenge c fs =
    is_text (get_field fs "protocol") auth_protocol
    && is_text (get_field fs "challengeId") c.challenge_id
    && is_text (get_field fs "nonce") c.nonce
    && is_text (get_field fs "backendDestination") c.backend_destination
    && is_number (get_field fs "expiresAt") c.expires_at

unfoldable pub is_current : ℕ → Challenge → Bool
is_current now c = leb now c.expires_at

-- except ValueError
unfoldable pub decoded_or_none : Result (List ℕ) → Option (List ℕ)
decoded_or_none (ok bytes) = some bytes
decoded_or_none (err e) = none

-- The checks of `verify` once the challenge is taken out.
unfoldable pub check_proof :
    Outside → Verifier → ℕ → Fields → Challenge → Result (String × String × Identity)
unfolding is_current matches_challenge decoded_or_none
check_proof out v now fs c = do
  require (is_current now c) "identity challenge is invalid or expired"
  require (matches_challenge c fs) "identity proof does not match its challenge"
  address ← or_raise (as_text (get_field fs "address")) "identity proof is incomplete"
  public_key ← or_raise (as_text (get_field fs "publicKey")) "identity proof is incomplete"
  signature ← or_raise (as_text (get_field fs "signature")) "identity proof is incomplete"
  qapp ← normalize_qapp_identity out (get_field fs "qappName") (get_field fs "qappService")
  require
      (is_text (get_field fs "qappName") qapp.name
        && is_text (get_field fs "qappService") qapp.service
        && (not v.enforce_qapp_allowlist || is_allowed qapp v.allowed_qapps))
      "Q-App is not authorized for this backend"
  key ← base58_decode (codes public_key)
  own_address ← qortal_address out.hashes key
  require (list_beq own_address (codes address)) "public key does not match Qortal address"
  signature_bytes ←
      or_raise (decoded_or_none (base58_decode (codes signature)))
        "invalid Qortal identity signature"
  require
      (out.verifies key signature_bytes (
        out.canonical_proof
          (record { challenge = c; address = address; public_key = public_key; qapp = qapp })))
      "invalid Qortal identity signature"
  ok (address, public_key, qapp)

unfoldable pub check_found :
    Outside → Verifier → ℕ → Fields → Option Challenge → Result (String × String × Identity)
unfolding check_proof
check_found out v now fs none = err (value_error "identity challenge is invalid or expired")
check_found out v now fs (some c) = check_proof out v now fs c

unfoldable pub verify_fields :
    Outside → ℕ → Fields → Option String → Verifier → Result (String × String × Identity) × Verifier
unfolding check_found
verify_fields out now fs none v = (err (value_error "identity proof is missing its challenge"), v)
verify_fields out now fs (some id) v = (
  check_found out v now fs (get v.challenges id),
  record v { challenges = Dict.remove v.challenges id },
)

-- `verify`: the challenge is taken out before anything else of the proof is looked at.
unfoldable pub verify :
    Outside → ℕ → Value → Verifier → Result (String × String × Identity) × Verifier
unfolding verify_fields
verify out now (dict fs) v = verify_fields out now fs (as_text (get_field fs "challengeId")) v
verify out now _ v = (err (value_error "identity proof must be an object"), v)
