-- ===== src/Reticulum/Framing/Bytes.antt =====
-- The big-endian fields of `struct`, as lists of bytes, and what they hold.
use call_backend.Prelude.{
  ℕ, zero, suc, ◌+◌, ◌*◌, ◌/◌, ◌%◌, ◌<◌, ◌≤◌, ◌≡◌, refl, sym, ap, ◌∙◌, List, [], ◌∷◌, ◌++◌, arith,
  length, take, drop, length-append,
}

-- A field of that many bytes.
unfoldable pub field : ℕ → ℕ → List ℕ
field zero n = []
field (suc size) n = field size (n / 256) ++ n % 256 ∷ []

unfoldable pub number : ℕ → List ℕ → ℕ
number acc [] = acc
number acc (b ∷ bs) = number (acc * 256 + b) bs

abbrev pub part : ℕ → ℕ → List ℕ → List ℕ
part from size bs = take size (drop from bs)

-- How many numbers fit into a field.
abbrev pub capacity : ℕ → ℕ
capacity zero = 1
capacity (suc size) = 256 * capacity size

number-snoc : (acc : ℕ) (bs : List ℕ) (b : ℕ) → number acc (bs ++ b ∷ []) ≡ number acc bs * 256 + b
unfolding number
number-snoc acc [] b = refl
number-snoc acc (c ∷ bs) b = number-snoc (acc * 256 + c) bs b

pub number-field : (size n : ℕ) → n < capacity size → number 0 (field size n) ≡ n
unfolding number field
number-field zero n h = omega arith
number-field (suc size) n h =
    number-snoc 0 (field size (n / 256)) (n % 256)
    ∙ omega (arith, h, number-field size (n / 256) (omega (arith, h)))

pub length-field : (size n : ℕ) → length (field size n) ≡ size
unfolding field
length-field zero n = refl
length-field (suc size) n =
    length-append (field size (n / 256)) (n % 256 ∷ []) ∙ omega (arith, length-field size (n / 256))

plus_suc : (n m : ℕ) → suc n + m ≡ suc (n + m)
plus_suc n m = omega arith

module _ {ℓ} {A : Type ℓ} where
  pub take-append : (n : ℕ) (xs ys : List A) → n ≤ length xs → take n (xs ++ ys) ≡ take n xs
  take-append zero xs ys h = refl
  take-append (suc n) [] ys h = absurd (omega arith)
  take-append (suc n) (x ∷ xs) ys h = ap (◌∷◌ x) (take-append n xs ys (omega arith))

  pub drop-append : (n : ℕ) (xs ys : List A) → n ≤ length xs → drop n (xs ++ ys) ≡ drop n xs ++ ys
  drop-append zero xs ys h = refl
  drop-append (suc n) [] ys h = absurd (omega arith)
  drop-append (suc n) (x ∷ xs) ys h = drop-append n xs ys (omega arith)

  drop-nil : (n : ℕ) → drop {A = A} n [] ≡ []
  drop-nil zero = refl
  drop-nil (suc n) = refl

  pub drop-drop : (n m : ℕ) (xs : List A) → drop (n + m) xs ≡ drop m (drop n xs)
  drop-drop zero m xs = ap (λ k. drop k xs) (omega arith)
  drop-drop (suc n) m [] = drop-nil (suc n + m) ∙ sym (drop-nil m)
  drop-drop (suc n) m (x ∷ xs) = ap (λ k. drop k (x ∷ xs)) (plus_suc n m) ∙ drop-drop n m xs
