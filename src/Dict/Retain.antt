-- ===== src/Dict/Retain.antt =====
-- What `retain` does to a look-up and to a count.
use call_backend.Prelude.{
  ◌+◌, ◌≤◌, ◌≡◌, refl, Bool, true, none, some, [], ◌∷◌, arith, if◌then◌else◌, Eq, ==_iff, count,
}
use call_backend.Dict.{Dict, Distinct, get, put, remove, retain, values}

module _ {ℓ κ} {K : Type ℓ} {V : Type κ} ⦃e : Eq K⦄ where
  pub get-retain-some :
      (p : V → Bool) (d : Dict K V) (k : K) (v : V)
      → get d k ≡ some v
      → p v ≡ true
      → get (retain p d) k ≡ some v
  unfolding get retain
  get-retain-some p [] k v h t = h
  get-retain-some p ((j, w) ∷ d) k v h t = ground (arith, get-retain-some p d k v)

  pub get-retain-none :
      (p : V → Bool) (d : Dict K V) (k : K) → get d k ≡ none → get (retain p d) k ≡ none
  unfolding get retain
  get-retain-none p [] k h = h
  get-retain-none p ((j, w) ∷ d) k h = ground (arith, get-retain-none p d k)

  -- What is left was there, where no key stands twice.
  pub get-retain :
      (p : V → Bool) (d : Dict K V) (k : K) (v : V)
      → Distinct d
      → get (retain p d) k ≡ some v
      → get d k ≡ some v
  unfolding get retain
  get-retain p [] k v distinct h = h
  get-retain p ((j, w) ∷ d) k v distinct h =
      ground (arith, ==_iff j k, distinct.0, get-retain-none p d k, get-retain p d k v distinct.1)

  pub retain_keeps :
      (p : V → Bool) (d : Dict K V) (k : K) (v : V) → get (retain p d) k ≡ some v → p v ≡ true
  unfolding get retain
  retain_keeps p [] k v h = absurd (ground arith)
  retain_keeps p ((j, w) ∷ d) k v h = ground (arith, retain_keeps p d k v)

  -- Counts of values that pass a test.
  pub count-put-le :
      (p : V → Bool) (d : Dict K V) (k : K) (v : V)
      → count p (values (put d k v)) ≤ count p (values d) + (if p v then 1 else 0)
  unfolding put count
  count-put-le p [] k v = ground arith
  count-put-le p ((j, w) ∷ d) k v = ground (arith, count-put-le p d k v)

  pub count-remove-le :
      (p : V → Bool) (d : Dict K V) (k : K) → count p (values (remove d k)) ≤ count p (values d)
  unfolding remove count
  count-remove-le p [] k = omega arith
  count-remove-le p ((j, w) ∷ d) k = ground (arith, count-remove-le p d k)

  pub count-retain-le :
      (p q : V → Bool) (d : Dict K V) → count p (values (retain q d)) ≤ count p (values d)
  unfolding retain count
  count-retain-le p q [] = omega arith
  count-retain-le p q ((j, w) ∷ d) = ground (arith, count-retain-le p q d)

  pub retain_comm : (p q : V → Bool) (d : Dict K V) → retain p (retain q d) ≡ retain q (retain p d)
  unfolding retain
  retain_comm p q [] = refl
  retain_comm p q ((j, w) ∷ d) = ground (arith, retain_comm p q d)

  -- A value in place of another that counts no less.
  pub count-put-replaced :
      (p : V → Bool) (d : Dict K V) (k : K) (v w : V)
      → get d k ≡ some w
      → (p v ≡ true → p w ≡ true)
      → count p (values (put d k v)) ≤ count p (values d)
  unfolding put get count
  count-put-replaced p [] k v w h t = absurd (ground arith)
  count-put-replaced p ((j, x) ∷ d) k v w h t = ground (arith, count-put-replaced p d k v w)
