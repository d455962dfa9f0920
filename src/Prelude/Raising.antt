-- ===== src/Prelude/Raising.antt =====
-- Code that may raise, without a state.
use Prim.Native.String.{String}
use mathlib.Core.Bool.{Bool, true, false}
use mathlib.Core.Option.{Option, none, some}

-- The exceptions of the modelled code: `ValueError` with its text, the other exceptions that a
-- component declares by name, `OSError` from the file system, and what the physical transport
-- raises on a send (`BackpressureError`, `ConnectionClosedError`; both are `transport_error` where
-- the code treats them alike).
pub data Error : Type 0 where
  value_error protocol_error : String → Error
  os_error transport_error runtime_error rate_limited attach_rejected : Error
  connection_closed backpressure write_failed access_denied access_unavailable : Error

-- except ProtocolError
abbrev pub is_protocol_error : Error → Bool
is_protocol_error (protocol_error reason) = true
is_protocol_error _ = false

pub data Result {ℓ} (A : Type ℓ) : Type ℓ where
  ok : A → Result A
  err : Error → Result A

infixl 5 ◌>>=◌ ◌>>◌
abbrev pub ◌>>=◌ {ℓ κ} : {A : Type ℓ} {B : Type κ} → Result A → (A → Result B) → Result B
ok a >>= f = f a
err e >>= f = err e

abbrev pub ◌>>◌ {ℓ κ} : {A : Type ℓ} {B : Type κ} → Result A → Result B → Result B
m >> k = m >>= λ _. k

-- if not test: raise ValueError(text)
abbrev pub require : Bool → String → Result (Unit {0})
require true text = ok tt
require false text = err (value_error text)

abbrev pub or_raise {ℓ} : {A : Type ℓ} → Option A → String → Result A
or_raise none text = err (value_error text)
or_raise (some a) text = ok a
