-- ===== src/Reticulum/Connection/Acknowledging.antt =====
-- Acknowledgements and timeouts of what is pending.
use call_backend.Prelude.{
  ℕ, ◌≡◌, refl, ap, ◌∙◌, false, Option, none, some, List, arith, nat_eq, eq_refl, length,
}
use call_backend.Dict.{get, get-remove}
use call_backend.Reticulum.Connection.Totals.{frame_at}
use call_backend.Reticulum.Connection.{
  Connection, PendingMessage, forget, forget_entry, acknowledge_entry, size_of, ack_timeout,
  acknowledge,
}
use call_backend.Reticulum.Connection.Limits.{Fits, forget-Fits}

size_of-frame_at :
    (o : Option PendingMessage) (f : List ℕ) → frame_at o ≡ some f → length f ≡ size_of o
unfolding size_of
size_of-frame_at none f e = absurd (ground arith)
size_of-frame_at (some p) f e = ground (arith, e)

pub ack_timeout-Fits : (id : ℕ) (c : Connection) → Fits c → Fits (ack_timeout id c)
unfolding ack_timeout
ack_timeout-Fits id c l =
    forget-Fits id (size_of (get c.pending id)) c
      (record { fits = l; sized = size_of-frame_at (get c.pending id) })

pub acknowledge-state : (id : ℕ) (c : Connection) → (acknowledge id c).1 ≡ ack_timeout id c
unfolding acknowledge
acknowledge-state id c = by_entry (get c.pending id) refl
  where
    by_entry :
        (o : Option PendingMessage)
        → get c.pending id ≡ o
        → (acknowledge_entry id c o).1 ≡ ack_timeout id c
    by_entry none e = unfold acknowledge_entry ack_timeout forget forget_entry in rw e
    by_entry (some p) e = unfold acknowledge_entry in refl

acknowledged-gone : (id : ℕ) (c : Connection) → get (ack_timeout id c).pending id ≡ none
unfolding ack_timeout forget
acknowledged-gone id c = by_entry (get c.pending id) refl
  where
    by_entry :
        (o : Option PendingMessage)
        → get c.pending id ≡ o
        → get (forget_entry id (size_of (get c.pending id)) c o).pending id ≡ none
    by_entry none e = unfold forget_entry in e
    by_entry (some p) e = unfold forget_entry in get-remove c.pending id id ∙ rw (eq_refl id)

absent_ignored : (id : ℕ) (c : Connection) → get c.pending id ≡ none → acknowledge id c ≡ (false, c)
unfolding acknowledge acknowledge_entry
absent_ignored id c h = rw h

-- On a connection within its limits, an acknowledgement has the effect of a timeout, keeps the
-- limits, and a second acknowledgement of the same id is reported as unknown and changes
-- nothing.
pub acknowledge_once :
    (id : ℕ) (c : Connection)
    → Fits c
    → Fits (ack_timeout id c)
      × ((acknowledge id c).1 ≡ ack_timeout id c)
      × (acknowledge id (acknowledge id c).1 ≡ (false, (acknowledge id c).1))
acknowledge_once id c l = (
  ack_timeout-Fits id c l,
  acknowledge-state id c,
  absent_ignored id (acknowledge id c).1
      (ap (λ d. get d.pending id) (acknowledge-state id c) ∙ acknowledged-gone id c),
)
