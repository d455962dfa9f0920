-- ===== src/Auth/Base58.antt =====
-- Base58 and addresses, of src/qapp_backend/auth/qortal_identity.py. A text is the list of its code
-- points.
use call_backend.Prelude.{
  ℕ, zero, suc, ◌+◌, ◌*◌, ◌/◌, ◌%◌, Option, none, some, List, [], ◌∷◌, ◌++◌, reverse, if◌then◌else◌,
  ◌==◌, nat_eq, length, take, codes, Result, ok, err, value_error,
}
use call_backend.Reticulum.Framing.Bytes.{number}

abbrev pub address_version : ℕ
address_version = 58

abbrev pub alphabet : List ℕ
alphabet = codes "123456789ABCDEFGHJKLMNPQRSTUVWXYZabcdefghijkmnopqrstuvwxyz"

-- `_BASE58_ALPHABET.find(...)`, counted from `n`; none for -1.
unfoldable pub index_from : ℕ → List ℕ → ℕ → Option ℕ
index_from n [] c = none
index_from n (a ∷ more) c = let rest = index_from (suc n) more c in if a == c then some n else rest

unfoldable pub leading : ℕ → List ℕ → List ℕ
leading c [] = []
leading c (x ∷ xs) = let rest = leading c xs in if x == c then c ∷ rest else []

-- The value of the digits.
unfoldable pub value_of : ℕ → List ℕ → Option ℕ
unfolding index_from
value_of acc [] = some acc
value_of acc (c ∷ cs) = elim (index_from 0 alphabet c) [
  | none ↦ none
  | some i ↦ value_of (acc * 58 + i) cs
]

-- The digits of a number in a base, the last first, without leading zeros; the fuel is the number
-- of digits at most.
unfoldable pub digits : ℕ → ℕ → ℕ → List ℕ
digits zero base n = []
digits (suc fuel) base n =
    let rest = digits fuel base (n / base) in if n == 0 then [] else n % base ∷ rest

zeros : List ℕ → List ℕ
zeros [] = []
zeros (x ∷ xs) = 0 ∷ zeros xs

decoded : List ℕ → Option ℕ → Result (List ℕ)
unfolding zeros digits leading
decoded cs none = err (value_error "invalid Base58 value")
decoded cs (some n) = ok (zeros (leading b'1' cs) ++ reverse (digits (length cs) 256 n))

-- A text of `k` digits is below 58^k, so it has no more than `k` bytes.
unfoldable pub base58_decode : List ℕ → Result (List ℕ)
unfolding value_of decoded
base58_decode [] = err (value_error "invalid Base58 value")
base58_decode (c ∷ cs) = decoded (c ∷ cs) (value_of 0 (c ∷ cs))

symbol : List ℕ → ℕ → ℕ
symbol [] i = 0
symbol (a ∷ more) zero = a
symbol (a ∷ more) (suc i) = symbol more i

symbols : List ℕ → List ℕ
unfolding symbol
symbols [] = []
symbols (d ∷ ds) = symbol alphabet d ∷ symbols ds

ones : List ℕ → List ℕ
ones [] = []
ones (x ∷ xs) = b'1' ∷ ones xs

-- A byte has fewer than two digits of base 58 on average, so twice the bytes are enough.
unfoldable pub base58_encode : List ℕ → List ℕ
unfolding symbols ones digits number leading
base58_encode bytes =
    ones (leading 0 bytes)
    ++ symbols (reverse (digits (length bytes + length bytes) 58 (number 0 bytes)))

-- `hashlib`
pub record Hashes : Type 0 where
  pub sha256 : List ℕ → List ℕ
  pub ripemd160 : List ℕ → List ℕ

unfoldable pub checksum : Hashes → List ℕ → List ℕ
checksum h bytes = take 4 (h.sha256 (h.sha256 bytes))

unfoldable pub qortal_address : Hashes → List ℕ → Result (List ℕ)
unfolding checksum base58_encode
qortal_address h key =
    if length key == 32
    then (let versioned = address_version ∷ h.ripemd160 (h.sha256 key) in
        ok (base58_encode (versioned ++ checksum h versioned)))
    else err (value_error "Qortal public key must be 32 bytes")
