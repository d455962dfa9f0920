-- ===== src/Prelude/Windows.antt =====
-- Times of the last minute: what a list of recent times says of all the times there were.
use Prim.Native.Nat.{ℕ, ◌+◌, ◌≤◌}
use mathlib.Core.Path.{◌≡◌, refl, sym, ap, ◌∙◌}
use mathlib.Core.Bool.{Bool}
use mathlib.Core.List.{List, [], ◌∷◌, ◌++◌, append_assoc}
use native.Mathlib.Omega.{arith}
use call_backend.Prelude.Tests.{ltb}
use call_backend.Prelude.Lists.{length, count, count-append, count-le-length}

-- How many of the times lie less than a minute back, in milliseconds.
abbrev pub in_last_minute : ℕ → List ℕ → ℕ
in_last_minute now times = count (λ t. ltb now (t + 60000)) times

abbrev pub AllPassed : ℕ → List ℕ → Type 0
AllPassed now [] = Unit {0}
AllPassed now (t ∷ ts) = (t + 60000 ≤ now) × AllPassed now ts

-- `kept` are the last of all the times, and those before them are a minute back or more.
pub record Covers (now : ℕ) (kept times : List ℕ) : Type 0 where
  pub gone : List ℕ
  pub whole : times ≡ gone ++ kept
  pub passed : AllPassed now gone

none_counted : (now : ℕ) (gone : List ℕ) → AllPassed now gone → in_last_minute now gone ≡ 0
unfolding count
none_counted now [] all = refl
none_counted now (t ∷ ts) all = ground (arith, all.0, none_counted now ts all.1)

pub in_last_minute-le :
    (now : ℕ) (kept times : List ℕ) → Covers now kept times → in_last_minute now times ≤ length kept
in_last_minute-le now kept times c =
    let among : ℕ → Bool = λ t. ltb now (t + 60000) in
    omega (
      arith,
      ap (count among) c.whole,
      count-append among c.gone kept,
      none_counted now c.gone c.passed,
      count-le-length among kept,
    )

still_passed :
    (now later : ℕ) (gone : List ℕ) → now ≤ later → AllPassed now gone → AllPassed later gone
still_passed now later [] h all = tt
still_passed now later (t ∷ ts) h all = (omega (arith, h, all.0), still_passed now later ts h all.1)

pub later-Covers :
    (now later : ℕ) (kept times : List ℕ)
    → now ≤ later
    → Covers now kept times
    → Covers later kept times
later-Covers now later kept times h c = record {
  gone = c.gone;
  whole = c.whole;
  passed = still_passed now later c.gone h c.passed;
}

pub empty-Covers : (now : ℕ) → Covers now [] []
empty-Covers now = record { gone = []; whole = refl; passed = tt }

pub snoc-Covers :
    (now t : ℕ) (kept times : List ℕ)
    → Covers now kept times
    → Covers now (kept ++ t ∷ []) (times ++ t ∷ [])
snoc-Covers now t kept times c = record {
  gone = c.gone;
  whole = ap (λ xs. xs ++ t ∷ []) c.whole ∙ append_assoc c.gone kept (t ∷ []);
  passed = c.passed;
}

both_passed :
    (now : ℕ) (xs ys : List ℕ) → AllPassed now xs → AllPassed now ys → AllPassed now (xs ++ ys)
both_passed now [] ys a b = b
both_passed now (x ∷ xs) ys a b = (a.0, both_passed now xs ys a.1 b)

-- Dropping what has passed from the times that were kept.
pub drop-Covers :
    (now : ℕ) (rest kept times : List ℕ)
    → Covers now rest kept
    → Covers now kept times
    → Covers now rest times
drop-Covers now rest kept times d c = record {
  gone = c.gone ++ d.gone;
  whole = c.whole ∙ ap (λ xs. c.gone ++ xs) d.whole ∙ sym (append_assoc c.gone d.gone rest);
  passed = both_passed now c.gone d.gone c.passed d.passed;
}

-- One more time before them, which has passed.
pub cons-Covers :
    (now t : ℕ) (rest kept : List ℕ)
    → t + 60000 ≤ now
    → Covers now rest kept
    → Covers now rest (t ∷ kept)
cons-Covers now t rest kept h c = record {
  gone = t ∷ c.gone;
  whole = ap (λ xs. t ∷ xs) c.whole;
  passed = (h, c.passed);
}

pub same-Covers : (now : ℕ) (kept : List ℕ) → Covers now kept kept
same-Covers now kept = record { gone = []; whole = refl; passed = tt }
