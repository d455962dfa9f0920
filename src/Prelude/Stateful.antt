-- ===== src/Prelude/Stateful.antt =====
-- Code that mutates a state and may raise. What was written before a raise stays written, so the
-- state comes back beside the error too.
use mathlib.Core.Path.{◌≡◌, refl}
use mathlib.Core.Bool.{Bool, true, false}
use call_backend.Prelude.Raising.{Error, Result, ok, err}
use call_backend.Prelude.Tests.{if◌then◌else◌}

abbrev pub Exec {ℓ} : Type ℓ → Type ℓ → Type ℓ
Exec S A = S → Result A × S

abbrev pub pure {ℓ} : {S A : Type ℓ} → A → Exec S A
pure a s = (ok a, s)

abbrev pub raise {ℓ} : {S A : Type ℓ} → Error → Exec S A
raise e s = (err e, s)

abbrev pub lift {ℓ} : {S A : Type ℓ} → Result A → Exec S A
lift r s = (r, s)

module _ {ℓ} {S A B : Type ℓ} where
  abbrev pub continue : (A → Exec S B) → Result A → S → Result B × S
  continue f (ok a) s = f a s
  continue f (err e) s = (err e, s)

  infixl 5 ◌>>=◌ ◌>>◌
  abbrev pub ◌>>=◌ : Exec S A → (A → Exec S B) → Exec S B
  ◌>>=◌ m f s = let (r, s') = m s in continue f r s'

  abbrev pub ◌>>◌ : Exec S A → Exec S B → Exec S B
  m >> n = m >>= λ _. n

-- `m` keeps `P`, whether it returns or raises.
abbrev pub Keeps {ℓ} : {S A : Type ℓ} → (S → Type ℓ) → Exec S A → Type ℓ
Keeps {S = S} P m = (s : S) → P s → P (m s).1

module _ {ℓ} {S A B : Type ℓ} {P : S → Type ℓ} where
  -- The rest of the block may use that `r` did not raise.
  pub Keeps-lift :
      (r : Result A) (next : A → Exec S B)
      → ((a : A) → r ≡ ok a → Keeps P (next a))
      → Keeps P (lift r >>= next)
  Keeps-lift (ok a) next after s held = after a refl s held
  Keeps-lift (err e) next after s held = held

  pub Keeps-bind :
      (m : Exec S A) (next : A → Exec S B)
      → Keeps P m
      → ((a : A) → Keeps P (next a))
      → Keeps P (m >>= next)
  Keeps-bind m next before after s held =
      let (r, s') = m s in Keeps-lift r next (λ a _. after a) s' (before s held)

  -- The same from one state.
  pub bind_keeps :
      (m : Exec S A) (next : A → Exec S B) (s : S)
      → P (m s).1
      → ((a : A) → Keeps P (next a))
      → P ((m >>= next) s).1
  bind_keeps m next s held after = let (r, s') = m s in Keeps-lift r next (λ a _. after a) s' held

module _ {ℓ} {S A : Type ℓ} {P : S → Type ℓ} where
  pub Keeps-if : (b : Bool) (m n : Exec S A) → Keeps P m → Keeps P n → Keeps P (if b then m else n)
  Keeps-if true m n km kn = km
  Keeps-if false m n km kn = kn

-- What holds of the value and the state after a return, and of the state after a raise.
abbrev pub Post {ℓ} : {S A : Type ℓ} → (A → S → Type ℓ) → (S → Type ℓ) → Result A × S → Type ℓ
Post Q P (ok a, s) = Q a s
Post Q P (err e, s) = P s

module _ {ℓ} {S A B : Type ℓ} (P : S → Type ℓ) where
  pub bind-Post :
      (Q : A → S → Type ℓ) (R : B → S → Type ℓ) (m : Exec S A) (f : A → Exec S B) (s : S)
      → Post Q P (m s)
      → ((a : A) (s' : S) → Q a s' → Post R P (f a s'))
      → Post R P ((m >>= f) s)
  bind-Post Q R m f s h k = let (r, s') = m s in go r s' h
    where
      go : (r : Result A) (s' : S) → Post Q P (r, s') → Post R P (continue f r s')
      go (ok a) s' q = k a s' q
      go (err e) s' q = q

  pub then_pure :
      (m : Exec S A) (b : B) (s : S) → P (m s).1 → Post (λ c s'. (c ≡ b) × P s') P ((m >> pure b) s)
  then_pure m b s h = let (r, s') = m s in go r s' h
    where
      go :
          (r : Result A) (s' : S)
          → P s'
          → Post (λ c t. (c ≡ b) × P t) P (continue (λ _. pure b) r s')
      go (ok a) s' q = (refl, q)
      go (err e) s' q = q

module _ {ℓ} {S A : Type ℓ} (P : S → Type ℓ) where
  -- The state alone.
  pub Post-state :
      {Q : A → S → Type ℓ} (r : Result A × S) → ((a : A) (s : S) → Q a s → P s) → Post Q P r → P r.1
  Post-state (ok a, s) f q = f a s q
  Post-state (err e, s) f q = q

  -- Where the state is known to be good both ways.
  pub Post-of : (r : Result A × S) → P r.1 → Post (λ _ s. P s) P r
  Post-of (ok a, s) h = h
  Post-of (err e, s) h = h

  pub Post-mono :
      (P' : S → Type ℓ) (Q Q' : A → S → Type ℓ) (r : Result A × S)
      → ((a : A) (s : S) → Q a s → Q' a s)
      → ((s : S) → P s → P' s)
      → Post Q P r
      → Post Q' P' r
  Post-mono P' Q Q' (ok a, s) f g h = f a s h
  Post-mono P' Q Q' (err e, s) f g h = g s h
