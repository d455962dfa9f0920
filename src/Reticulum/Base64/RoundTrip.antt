-- ===== src/Reticulum/Base64/RoundTrip.antt =====
-- Bytes come back from their base64 text.
use call_backend.Prelude.{
  ℕ, ◌+◌, ◌*◌, ◌/◌, ◌%◌, ◌<◌, ◌≡◌, refl, ap, false, some, List, [], ◌∷◌, ◌==◌, nat_eq, arith,
}
use call_backend.Reticulum.Base64.{
  digit, value, pad, b64encode, b64decode, full, last_two, last_one,
}

-- Every element is a byte.
abbrev pub AllBytes : List ℕ → Type 0
AllBytes [] = Unit {0}
AllBytes (b ∷ bs) = (b < 256) × AllBytes bs

value-digit : (n : ℕ) → n < 64 → value (digit n) ≡ some n
unfolding value digit
value-digit n h = ground arith

digit_not_pad : (n : ℕ) → n < 64 → (digit n == pad) ≡ false
unfolding digit
digit_not_pad n h = ground arith

first_byte : (a b : ℕ) → a < 256 → b < 256 → a / 4 * 4 + (a % 4 * 16 + b / 16) / 16 ≡ a
first_byte a b ha hb = omega arith

second_byte :
    (a b c : ℕ)
    → b < 256
    → c < 256
    → (a % 4 * 16 + b / 16) % 16 * 16 + (b % 16 * 4 + c / 64) / 4 ≡ b
second_byte a b c hb hc = omega arith

last_byte : (a b : ℕ) → b < 256 → (a % 4 * 16 + b / 16) % 16 * 16 + b % 16 * 4 / 4 ≡ b
last_byte a b hb = omega arith

third_byte : (b c : ℕ) → c < 256 → (b % 16 * 4 + c / 64) % 4 * 64 + c % 64 ≡ c
third_byte b c hc = omega arith

-- The texts of `b64encode` are read back.
pub b64decode-b64encode : (bs : List ℕ) → AllBytes bs → b64decode (b64encode bs) ≡ some bs
unfolding b64encode b64decode full last_two last_one
b64decode-b64encode [] all = refl
b64decode-b64encode (a ∷ []) (ha, _) =
    rw (value-digit (a / 4) (omega arith), value-digit (a % 4 * 16) (omega arith))
      (ap (λ x. some (x ∷ [])) (omega arith))
b64decode-b64encode (a ∷ b ∷ []) (ha, (hb, _)) =
    rw
      (
        digit_not_pad (b % 16 * 4) (omega arith),
        value-digit (a / 4) (omega arith),
        value-digit (a % 4 * 16 + b / 16) (omega arith),
        value-digit (b % 16 * 4) (omega arith),
      )
      (rw (first_byte a b ha hb, last_byte a b hb) refl)
b64decode-b64encode (a ∷ b ∷ c ∷ rest) (ha, (hb, (hc, hrest))) =
    rw
      (
        digit_not_pad (c % 64) (omega arith),
        value-digit (a / 4) (omega arith),
        value-digit (a % 4 * 16 + b / 16) (omega arith),
        value-digit (b % 16 * 4 + c / 64) (omega arith),
        value-digit (c % 64) (omega arith),
        b64decode-b64encode rest hrest,
      )
      (rw (first_byte a b ha hb, second_byte a b c hb hc, third_byte b c hc) refl)
