-- ===== src/Prelude/Chains.antt =====
-- Reading a chain of fallible steps backwards, from what it returned.
use mathlib.Core.Path.{◌≡◌, refl}
use mathlib.Core.Bool.{Bool, true}
use mathlib.Core.Option.{Option, none, some}
use native.Mathlib.Omega.{arith}
use Prim.Native.String.{String}
use call_backend.Prelude.Raising.{Result, ok, err, ◌>>=◌, require, or_raise}

-- A chain that returns, step by step.
pub chain :
    {A : Type 0} {B : Type 0} (m : Result A) (f : A → Result B) (b : B) (P : Type 0)
    → ((a : A) → m ≡ ok a → f a ≡ ok b → P)
    → (m >>= f) ≡ ok b
    → P
chain (ok a) f b P k h = k a refl h
chain (err e) f b P k h = absurd (ground arith)

pub required : (t : Bool) (message : String) (u : Unit {0}) → require t message ≡ ok u → t ≡ true
required t message u h = ground arith

pub present :
    {A : Type 0} (o : Option A) (message : String) (s : A) → or_raise o message ≡ ok s → o ≡ some s
present none message s h = absurd (ground arith)
present (some t) message s h = ground (arith, h)

pub same_result : {A : Type 0} (a b : A) → ok a ≡ ok b → a ≡ b
same_result a b h = ground (arith, h)
