-- ===== src/Call/Env.antt =====
-- What the call service takes from outside: hashing and curve arithmetic, the configuration, and
-- the sessions as it sees them.
use call_backend.Prelude.{ℕ, String, Bool, Option, List}

pub record Env : Type 0 where
  -- `ec.EllipticCurvePublicKey.from_encoded_point` does not raise
  pub valid_point : List ℕ → Bool
  -- `hashlib.sha256(...).digest()`
  pub sha256 : List ℕ → List ℕ
  -- the name of a room's policy file, from the digest of its id
  pub policy_name : String → String
  -- whether `call_media_revocations_path` is configured
  pub writes_policies : Bool

-- What `session.send` meets: an active connection, none (`RuntimeError`), or one whose send raises
-- `BackpressureError` or `ConnectionClosedError`, which are no `RuntimeError`.
pub data Link : Type 0 where
  up down stalled : Link

-- The sessions by their ids: `SessionManager` makes one object for each random id, so that
-- `a is b` is the equality of the ids.
pub record Peers : Type 0 where
  pub authenticated_user : String → Option String
  pub provisional : String → Bool
  pub link : String → Link

-- `int(time.time() * 1000)`, and two readings of `time.monotonic()` in milliseconds.
pub record Clock : Type 0 where
  pub wall_ms : ℕ
  pub mono_ms : ℕ
  pub later_mono_ms : ℕ
