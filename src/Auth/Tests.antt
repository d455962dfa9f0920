-- ===== src/Auth/Tests.antt =====
-- The properties of access and identity at concrete inputs.
use call_backend.Prelude.{
  ℕ, ◌+◌, ◌≤◌, ◌<◌, String, ◌≡◌, ◌≢◌, refl, Bool, true, false, Option, none, some, List, [], ◌∷◌,
  arith, if◌then◌else◌, ◌==◌, string_eq, ==_iff, length, Result, ok, err, value_error,
  access_unavailable,
}
use call_backend.Dict.{Dict, get}
use call_backend.Value.{Fields, end, field, text, num, dict, get_field, as_text}
use call_backend.Auth.Groups.{
  Attempt, Access, AccessConfig, check_one_group, check_groups, require_authorized,
}
use call_backend.Auth.Groups.Cores.{Answering, check_one_group-answer}
use call_backend.Auth.Groups.FailClosed.{check_groups-value, Grounds, require_authorized_sound}
use call_backend.Auth.Identity.{Challenge, Identity, Outside, Verifier, issue, verify}
use call_backend.Auth.Identity.Proofs.{Answers, verify_sound}
use call_backend.Auth.Identity.Challenges.{verify_once, issue-bounded}

check_groups-value_example :
    check_groups (ok false ∷ err access_unavailable ∷ []) ≡ err access_unavailable
check_groups-value_example = check_groups-value (ok false ∷ err access_unavailable ∷ [])

-- The first Core fails, the second answers.
abbrev attempt : String → Attempt
attempt base =
    if base == "core-a"
    then record { before = 10; has_slot = true; answer = none; after = 2010 }
    else record { before = 2010; has_slot = true; answer = some true; after = 2100 }

abbrev cores : List String
cores = "core-a" ∷ "core-b" ∷ []

asked : (check_one_group 0 attempt cores []).0 ≡ ok true
unfolding check_one_group call_backend.Prelude.filter call_backend.Dict.get
asked = refl

check_one_group-answer_example : Answering 6000 attempt true cores
unfolding check_one_group call_backend.Prelude.filter call_backend.Dict.get
check_one_group-answer_example = check_one_group-answer 0 attempt cores [] true asked

abbrev config : AccessConfig
config = record {
  access_mode = "groups";
  revision = "r1";
  access_revalidate_interval = 300000;
  access_outage_grace = 900000;
}

-- Checked ten minutes ago, and no Core answers now.
abbrev last_check : Access
last_check = record { checked_at = some 1000; policy_revision = some "r1" }

passes :
    (require_authorized config "Qalice" last_check 601000 (err access_unavailable ∷ []) []).0.0
    ≡ ok tt
unfolding require_authorized call_backend.Dict.get call_backend.Auth.Groups.is_in_grace
passes = refl

not_public : config.access_mode ≢ "public"
not_public e = ground (arith, (==_iff config.access_mode "public").1 e)

require_authorized_sound_example :
    Grounds config "Qalice" last_check 601000 (err access_unavailable ∷ []) []
require_authorized_sound_example =
    require_authorized_sound config "Qalice" last_check 601000 (err access_unavailable ∷ []) []
      not_public passes

abbrev pub outside : Outside
outside = record {
  strip = λ s. s;
  lower = λ s. s;
  upper = λ s. s;
  canonical_proof = λ s. [];
  hashes = record { sha256 = λ bytes. 0 ∷ 0 ∷ 0 ∷ 0 ∷ []; ripemd160 = λ bytes. [] };
  verifies = λ key signature bytes. true;
}

abbrev pub verifier : Verifier
verifier = record {
  challenges =
      (
        "c1",
        record { challenge_id = "c1"; nonce = "n1"; backend_destination = "d"; expires_at = 61000 },
      )
      ∷ [];
  max_outstanding_challenges = 1;
  enforce_qapp_allowlist = false;
  allowed_qapps = [];
}

abbrev named : Fields
named = field "challengeId" (text "c1") end

named_id : as_text (get_field named "challengeId") ≡ some "c1"
unfolding get_field as_text
named_id = refl

verify_once_example :
    (verify outside 3000 (dict named) (verify outside 2000 (dict named) verifier).1).0
    ≡ err (value_error "identity challenge is invalid or expired")
verify_once_example = verify_once outside 2000 3000 named named "c1" verifier named_id named_id

issue-bounded_example :
    length (issue "c2" "n2" "00112233445566778899aabbccddeeff" 2000 verifier).1.challenges ≤ 1
issue-bounded_example =
    issue-bounded "c2" "n2" "00112233445566778899aabbccddeeff" 2000 verifier (omega arith)
      (omega arith)

abbrev pub proof : Fields
proof = field "protocol" (text "qortal-qapp-auth-v1") (
    field "challengeId" (text "c1") (
      field "nonce" (text "n1") (
        field "backendDestination" (text "d") (
          field "expiresAt" (num 61000) (
            field "address" (text "7YXq9H1") (
              field "publicKey" (text "11111111111111111111111111111111") (
                field "signature" (text "1")
                  (field "qappName" (text "calls") (field "qappService" (text "APP") end)))))))))

abbrev accepted_proof : String × String × Identity
accepted_proof =
    ("7YXq9H1", "11111111111111111111111111111111", record { name = "calls"; service = "APP" })

accepted : (verify outside 2000 (dict proof) verifier).0 ≡ ok accepted_proof
unfolding call_backend.Auth.Identity.normalize_qapp_identity call_backend.Auth.Identity.is_allowed
    call_backend.Auth.Identity.make_room call_backend.Auth.Identity.is_text
    call_backend.Auth.Identity.matches_challenge call_backend.Auth.Identity.is_current
    call_backend.Auth.Identity.decoded_or_none call_backend.Auth.Identity.check_proof
    call_backend.Auth.Identity.check_found call_backend.Auth.Identity.verify_fields verify
    call_backend.Auth.Base58.index_from call_backend.Auth.Base58.leading
    call_backend.Auth.Base58.value_of call_backend.Auth.Base58.digits
    call_backend.Auth.Base58.base58_decode call_backend.Auth.Base58.base58_encode
    call_backend.Auth.Base58.checksum call_backend.Auth.Base58.qortal_address
    call_backend.Value.field_names get_field as_text call_backend.Value.exact_fields get
    call_backend.Dict.remove call_backend.Reticulum.Framing.Bytes.number
accepted = refl

verify_sound_example :
    (id : String) × (c : Challenge) × (as_text (get_field proof "challengeId") ≡ some id)
    × (get verifier.challenges id ≡ some c)
    × Answers outside verifier 2000 proof c accepted_proof
verify_sound_example = verify_sound outside 2000 proof verifier accepted_proof accepted
