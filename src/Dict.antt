-- ===== src/Dict.antt =====
-- Python's `dict`: an association list in the order of first insertion. `d[k] = v` keeps the place
-- of a key that is there, `del` and `pop` take the key out.
pub mod Retain
use call_backend.Prelude.{
  ◌+◌, ◌≤◌, ◌≡◌, refl, sym, ap, ◌∙◌, inl, inr, Bool-cases, Bool, true, Option, none, some, List, [],
  ◌∷◌, arith, if◌then◌else◌, Eq, ◌==◌, ==_iff, eq_refl, length, map, contains,
}

abbrev pub Dict {ℓ κ} : Type ℓ → Type κ → Type (ℓ ⊔ κ)
Dict K V = List (K × V)

module _ {ℓ κ} {K : Type ℓ} {V : Type κ} where
  abbrev pub keys : Dict K V → List K
  keys d = map (λ e. e.0) d

  abbrev pub values : Dict K V → List V
  values d = map (λ e. e.1) d

module _ {ℓ κ} {K : Type ℓ} {V : Type κ} ⦃e : Eq K⦄ where
  -- d.get(k)
  unfoldable pub get : Dict K V → K → Option V
  get [] k = none
  get ((j, v) ∷ d) k = if j == k then some v else get d k

  -- d[k] = v
  unfoldable pub put : Dict K V → K → V → Dict K V
  put [] k v = (k, v) ∷ []
  put ((j, w) ∷ d) k v = if j == k then (k, v) ∷ d else (j, w) ∷ put d k v

  -- d.pop(k, None), del d[k]
  unfoldable pub remove : Dict K V → K → Dict K V
  remove [] k = []
  remove ((j, v) ∷ d) k = let rest = remove d k in if j == k then rest else (j, v) ∷ rest

  -- d = {k: v for k, v in d.items() if keep(v)}
  unfoldable pub retain : (V → Bool) → Dict K V → Dict K V
  retain keep [] = []
  retain keep ((j, v) ∷ d) = let rest = retain keep d in if keep v then (j, v) ∷ rest else rest

  pub get-put :
      (d : Dict K V) (k : K) (v : V) (j : K)
      → get (put d k v) j ≡ (if k == j then some v else get d j)
  unfolding get put
  get-put [] k v j = refl
  get-put ((i, w) ∷ d) k v j = ground (arith, ==_iff k j, ==_iff i k, ==_iff i j, get-put d k v j)

  pub get-remove :
      (d : Dict K V) (k j : K) → get (remove d k) j ≡ (if k == j then none else get d j)
  unfolding get remove
  get-remove [] k j = ground arith
  get-remove ((i, w) ∷ d) k j = ground (arith, ==_iff k j, ==_iff i k, ==_iff i j, get-remove d k j)

  pub length-put-le : (d : Dict K V) (k : K) (v : V) → length (put d k v) ≤ length d + 1
  unfolding put
  length-put-le [] k v = omega arith
  length-put-le ((i, w) ∷ d) k v = ground (arith, length-put-le d k v)

  -- A write to a key that is there adds nothing.
  pub length-put-present :
      (d : Dict K V) (k : K) (v w : V) → get d k ≡ some w → length (put d k v) ≡ length d
  unfolding get put
  length-put-present [] k v w h = ground arith
  length-put-present ((i, x) ∷ d) k v w h = ground (arith, ==_iff i k, length-put-present d k v w)

  pub length-remove-le : (d : Dict K V) (k : K) → length (remove d k) ≤ length d
  unfolding remove
  length-remove-le [] k = omega arith
  length-remove-le ((i, w) ∷ d) k = ground (arith, length-remove-le d k)

  -- Taking out a key that was just added leaves no more than before.
  pub length-remove-put-le :
      (d : Dict K V) (k : K) (v : V) → length (remove (put d k v) k) ≤ length d
  unfolding put remove
  length-remove-put-le [] k v = ground (arith, ==_iff k k)
  length-remove-put-le ((i, w) ∷ d) k v =
      ground (arith, ==_iff k k, ==_iff i k, length-remove-le d k, length-remove-put-le d k v)

  pub length-retain-le : (keep : V → Bool) (d : Dict K V) → length (retain keep d) ≤ length d
  unfolding retain
  length-retain-le keep [] = omega arith
  length-retain-le keep ((i, w) ∷ d) = ground (arith, length-retain-le keep d)

  pub put-put : (d : Dict K V) (k : K) (v w : V) → put (put d k v) k w ≡ put d k w
  unfolding put
  put-put [] k v w = ground (arith, eq_refl k)
  put-put ((i, x) ∷ d) k v w = ground (arith, eq_refl k, put-put d k v w)

  -- The keys of a `dict` are distinct.
  abbrev pub Distinct : Dict K V → Type (ℓ ⊔ κ)
  Distinct [] = Unit
  Distinct ((j, v) ∷ d) = (get d j ≡ none) × Distinct d

  get-nil : (k : K) → get [] k ≡ none
  unfolding get
  get-nil k = refl

  pub put-Distinct : (d : Dict K V) (k : K) (v : V) → Distinct d → Distinct (put d k v)
  unfolding put
  put-Distinct [] k v h = (get-nil k, tt)
  put-Distinct ((i, w) ∷ d) k v h = elim (Bool-cases (i == k)) [
    | inl same ↦ rw same (ap (get d) (sym ((==_iff i k).0 same)) ∙ h.0, h.1)
    | inr other ↦
        rw other (ground (arith, get-put d k v i, ==_iff i k, ==_iff k i), put-Distinct d k v h.1)
  ]

  pub remove-Distinct : (d : Dict K V) (k : K) → Distinct d → Distinct (remove d k)
  unfolding remove
  remove-Distinct [] k h = tt
  remove-Distinct ((i, w) ∷ d) k h = elim (Bool-cases (i == k)) [
    | inl same ↦ rw same (remove-Distinct d k h.1)
    | inr other ↦ rw other (ground (arith, get-remove d k i), remove-Distinct d k h.1)
  ]

module _ {ℓ κ μ} {K : Type ℓ} {V : Type κ} {B : Type μ} ⦃e : Eq K⦄ ⦃f : Eq B⦄ where
  -- What is among the values is at a key.
  pub get_of_value :
      (g : V → B) (d : Dict K V) (b : B)
      → Distinct d
      → contains (map g (values d)) b ≡ true
      → (k : K) × (v : V) × (get d k ≡ some v) × (g v ≡ b)
  unfolding contains get
  get_of_value g [] b h m = absurd (ground arith)
  get_of_value g ((i, w) ∷ d) b h m = elim (Bool-cases (g w == b)) [
    | inl here ↦ (i, w, ground (arith, ==_iff i i), (==_iff (g w) b).0 here)
    | inr later ↦
        let (k, v, at, is) = get_of_value g d b h.1 (ground arith) in
        (k, v, ground (arith, ==_iff i k, h.0), is)
  ]

  -- And what is at a key is among the values.
  pub value_of_get :
      (g : V → B) (d : Dict K V) (k : K) (v : V)
      → get d k ≡ some v
      → contains (map g (values d)) (g v) ≡ true
  unfolding contains get
  value_of_get g [] k v h = ground arith
  value_of_get g ((i, w) ∷ d) k v h = ground (arith, value_of_get g d k v, ==_iff (g w) (g v), ap g)
