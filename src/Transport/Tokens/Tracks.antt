-- ===== src/Transport/Tokens/Tracks.antt =====
-- The deques of issue times of `AttachTokenAuthority`, against the times of all issues.
use call_backend.Prelude.{
  ℕ, ◌+◌, ◌≤◌, String, Bool, true, false, ◌≡◌, refl, sym, subst, ap, ◌∙◌, none, some, List, [], ◌∷◌,
  ◌++◌, arith, if◌then◌else◌, ◌==◌, string_eq, nat_eq, ==_iff, leb, if_cases,
}
use call_backend.Prelude.Windows.{
  Covers, later-Covers, empty-Covers, snoc-Covers, drop-Covers, cons-Covers, same-Covers,
}
use call_backend.Dict
use call_backend.Dict.{
  Dict, Distinct, get, put, values, get-put, get-remove, put-Distinct, remove-Distinct,
}
use call_backend.Transport.Tokens.{drop_old, prune, setdefault, or_empty, recent}

abbrev pub noted : (String → List ℕ) → String → ℕ → String → List ℕ
noted f key now = λ k. if key == k then f k ++ now ∷ [] else f k

-- A dictionary of deques keeps what is less than a minute old of each log.
pub record Tracks (now : ℕ) (m : Dict String (List ℕ)) (f : String → List ℕ) : Type 0 where
  pub distinct : Distinct m
  pub covers : (k : String) → Covers now (recent m k) (f k)

drop_old-Covers : (now : ℕ) (ts : List ℕ) → Covers now (drop_old now ts) ts
unfolding drop_old
drop_old-Covers now [] = same-Covers now []
drop_old-Covers now (t ∷ ts) =
    let later = drop_old-Covers now ts in
    if_cases (λ rest. Covers now rest (t ∷ ts)) (leb (t + 60000) now)
      (λ old. cons-Covers now t (drop_old now ts) ts (ground (arith, old)) later)
      λ _. same-Covers now (t ∷ ts)

abbrev with_kept : String → List ℕ → Dict String (List ℕ) → Dict String (List ℕ)
with_kept k kept m = elim kept [ [] ↦ m | t ∷ us ↦ (k, t ∷ us) ∷ m ]

prune-none :
    (now : ℕ) (m : Dict String (List ℕ)) (k : String) → get m k ≡ none → get (prune now m) k ≡ none
unfolding prune get
prune-none now [] k h = refl
prune-none now ((j, ts) ∷ m) k h =
    by_kept (drop_old now ts) (ground (arith, h)) (prune-none now m k (ground (arith, h)))
  where
    by_kept :
        (kept : List ℕ)
        → (j == k) ≡ false
        → get (prune now m) k ≡ none
        → get (with_kept j kept (prune now m)) k ≡ none
    by_kept [] other later = later
    by_kept (t ∷ us) other later = rw other later

prune-Distinct : (now : ℕ) (m : Dict String (List ℕ)) → Distinct m → Distinct (prune now m)
unfolding prune
prune-Distinct now [] d = tt
prune-Distinct now ((j, ts) ∷ m) d =
    by_kept (drop_old now ts) (prune-none now m j d.0) (prune-Distinct now m d.1)
  where
    by_kept :
        (kept : List ℕ)
        → get (prune now m) j ≡ none
        → Distinct (prune now m)
        → Distinct (with_kept j kept (prune now m))
    by_kept [] absent later = later
    by_kept (t ∷ us) absent later = (absent, later)

recent-prune :
    (now : ℕ) (m : Dict String (List ℕ)) (k : String)
    → Distinct m
    → recent (prune now m) k ≡ drop_old now (recent m k)
unfolding prune get
recent-prune now [] k d = unfold drop_old in refl
recent-prune now ((j, ts) ∷ m) k d =
    by_key (j == k) refl (drop_old now ts) refl (recent-prune now m k d.1)
  where
    by_key :
        (b : Bool)
        → (j == k) ≡ b
        → (kept : List ℕ) → drop_old now ts ≡ kept
        → recent (prune now m) k ≡ drop_old now (recent m k)
        → or_empty (get (with_kept j kept (prune now m)) k)
          ≡ drop_old now (or_empty (if b then some ts else get m k))
    by_key true same [] e later =
        ap or_empty (prune-none now m k (ap (get m) (sym ((==_iff j k).0 same)) ∙ d.0)) ∙ sym e
    by_key true same (t ∷ us) e later = rw same (sym e)
    by_key false other [] e later = later
    by_key false other (t ∷ us) e later = rw other later

recent-setdefault :
    (m : Dict String (List ℕ)) (key k : String) → recent (setdefault m key) k ≡ recent m k
unfolding setdefault
recent-setdefault m key k = ap or_empty (get-put m key (recent m key) k) ∙ by_key (key == k) refl
  where
    by_key :
        (b : Bool)
        → (key == k) ≡ b
        → or_empty (if b then some (recent m key) else get m k) ≡ recent m k
    by_key true same = ap (recent m) ((==_iff key k).0 same)
    by_key false other = refl

pub later-Tracks :
    (now later : ℕ) (m : Dict String (List ℕ)) (f : String → List ℕ)
    → now ≤ later
    → Tracks now m f
    → Tracks later m f
later-Tracks now later m f h t = record {
  distinct = t.distinct;
  covers = λ k. later-Covers now later (recent m k) (f k) h (t.covers k);
}

pub refreshed-Tracks :
    (now : ℕ) (m : Dict String (List ℕ)) (key : String) (f : String → List ℕ)
    → Tracks now m f
    → Tracks now (setdefault (prune now m) key) f
refreshed-Tracks now m key f t = record {
  distinct =
      unfold setdefault in
      put-Distinct (prune now m) key (recent (prune now m) key) (prune-Distinct now m t.distinct);
  covers = λ k.
      subst (λ kept. Covers now kept (f k))
        (sym (recent-setdefault (prune now m) key k ∙ recent-prune now m k t.distinct))
        (drop-Covers now (drop_old now (recent m k)) (recent m k) (f k)
          (drop_old-Covers now (recent m k)) (t.covers k));
}

pub noted-Tracks :
    (now : ℕ) (m : Dict String (List ℕ)) (key : String) (f : String → List ℕ)
    → Tracks now m f
    → Tracks now (put m key (recent m key ++ now ∷ [])) (noted f key now)
noted-Tracks now m key f t = record {
  distinct = put-Distinct m key (recent m key ++ now ∷ []) t.distinct;
  covers = λ k.
      subst (λ o. Covers now (or_empty o) (noted f key now k))
        (sym (get-put m key (recent m key ++ now ∷ []) k)) (by_key k (key == k) refl);
}
  where
    by_key :
        (k : String) (b : Bool)
        → (key == k) ≡ b
        → Covers now
            (or_empty (if b then some (recent m key ++ now ∷ []) else get m k))
            (if b then f k ++ now ∷ [] else f k)
    by_key k false other = t.covers k
    by_key k true same =
        subst (λ j. Covers now (recent m j ++ now ∷ []) (f k ++ now ∷ []))
          (sym ((==_iff key k).0 same)) (snoc-Covers now now (recent m k) (f k) (t.covers k))

pub removed-Tracks :
    (now : ℕ) (m : Dict String (List ℕ)) (key : String) (f : String → List ℕ)
    → Tracks now m f
    → Tracks now (Dict.remove m key) (λ k. if key == k then [] else f k)
removed-Tracks now m key f t = record {
  distinct = remove-Distinct m key t.distinct;
  covers = λ k.
      subst (λ o. Covers now (or_empty o) (if key == k then [] else f k)) (sym (get-remove m key k))
        (by_key k (key == k));
}
  where
    by_key :
        (k : String) (b : Bool)
        → Covers now (or_empty (if b then none else get m k)) (if b then [] else f k)
    by_key k true = empty-Covers now
    by_key k false = t.covers k

pub nothing_tracked : (now : ℕ) → Tracks now [] (λ k. [])
unfolding get
nothing_tracked now = record { distinct = tt; covers = λ k. empty-Covers now }
