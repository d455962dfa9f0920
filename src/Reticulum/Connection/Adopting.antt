-- ===== src/Reticulum/Connection/Adopting.antt =====
-- A connection that takes over from another keeps its limits.
use call_backend.Prelude.{◌+◌, List, [], ◌∷◌, arith, nat_eq, leb, Result, if_cases}
use call_backend.Prelude.Stateful.{bind_keeps}
use call_backend.Reticulum.Connection.{
  Connection, Writer, Carried, adopt_one, adopt_pending, is_full,
}
use call_backend.Reticulum.Connection.Limits.{Fits, KeepsLimits, transmit-Fits}

-- A connection within its limits is within them after it has taken over any messages of the
-- connection that it replaces, whether or not a write fails, under the same condition on other
-- threads.
pub adopt_pending-Fits :
    (writer : Writer) (ms : List Carried) (c : Connection)
    → KeepsLimits writer
    → Fits c
    → Fits (adopt_pending writer ms c).1
unfolding adopt_pending
adopt_pending-Fits writer [] c k l = l
adopt_pending-Fits writer (m ∷ ms) c k l =
    if_cases {A = Result (Unit {0}) × Connection} (λ r. Fits r.1) c.closed (λ _. l)
      λ _.
        if_cases {A = Result (Unit {0}) × Connection} (λ r. Fits r.1)
          (leb (m.created_at + c.config.ack_timeout) m.now)
          (λ _. adopt_pending-Fits writer ms c k l)
          λ _.
            if_cases {A = Result (Unit {0}) × Connection} (λ r. Fits r.1) (is_full m c) (λ _. l)
              λ free.
                bind_keeps {P = Fits} (adopt_one writer m) (λ _. adopt_pending writer ms) c
                  (unfold adopt_one in
                    transmit-Fits writer _ _ _ _ c k (ground (arith, free)) (ground (arith, free))
                      l)
                  λ _ d h. adopt_pending-Fits writer ms d k h
