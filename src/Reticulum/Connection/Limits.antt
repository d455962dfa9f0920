-- ===== src/Reticulum/Connection/Limits.antt =====
-- The limits of what is pending on a connection, under writes that fail and calls of other threads.
use call_backend.Prelude.{
  ℕ, ◌+◌, ◌%◌, ◌^◌, ◌≤◌, String, ◌≡◌, refl, sym, ap, ◌∙◌, Option, none, some, List, arith, nat_eq,
  eq_refl, leb, ltb, length, Result, ok, err, subst, if_cases,
}
use call_backend.Dict.{get, get-put, length-put-le, length-put-present, length-remove-le}
use call_backend.Reticulum.Framing.{data_frame, encode}
use call_backend.Reticulum.Connection.Totals.{
  total, frame_at, total-put-le, total-put_same, total-remove, total-cancel_timers,
  length-cancel_timers, get-cancel_timers,
}
use call_backend.Reticulum.Connection.{
  Connection, PendingMessage, Writer, armed, close, call, after_write, write, forget, forget_entry,
  arm, arm_entry, enqueue, settle_write, transmit, send_encoded, send_data, returning,
}

-- The byte count covers what is pending, and both limits of the configuration hold.
pub record Fits (c : Connection) : Type 0 where
  pub covered : total c.pending ≤ c.pending_bytes
  pub bytes : c.pending_bytes ≤ c.config.max_queue_bytes
  pub messages : length c.pending ≤ c.config.max_unacked_messages

-- What other threads may do to a connection during a write: they acknowledge, send, close and arm
-- timers under the same limits, and store no other frame under the id of a message in flight.
pub record KeepsLimits (writer : Writer) : Type 0 where
  pub fits : (bytes : List ℕ) (c : Connection) → Fits c → Fits (writer bytes c).1
  pub same :
      (bytes : List ℕ) (c : Connection) (id : ℕ) (f g : List ℕ)
      → frame_at (get c.pending id) ≡ some f
      → frame_at (get (writer bytes c).1.pending id) ≡ some g
      → g ≡ f

-- The limits, while a frame of that size is in flight under the id.
pub record InFlight (id size : ℕ) (c : Connection) : Type 0 where
  pub fits : Fits c
  pub sized : (f : List ℕ) → frame_at (get c.pending id) ≡ some f → length f ≡ size

pub forget-Fits : (id size : ℕ) (c : Connection) → InFlight id size c → Fits (forget id size c)
unfolding forget
forget-Fits id size c i = by_entry (get c.pending id) refl
  where
    by_entry : (o : Option PendingMessage) → get c.pending id ≡ o → Fits (forget_entry id size c o)
    by_entry none e = unfold forget_entry in i.fits
    by_entry (some p) e =
        unfold forget_entry in
        record {
          covered = omega (
            arith,
            total-remove c.pending id p e,
            i.fits.covered,
            i.sized p.frame (ap frame_at e),
          );
          bytes = omega (arith, i.fits.bytes);
          messages = omega (arith, i.fits.messages, length-remove-le c.pending id);
        }

arm-Fits : (id delay : ℕ) (c : Connection) → Fits c → Fits (arm id delay c)
unfolding arm
arm-Fits id delay c l = by_entry (get c.pending id) refl
  where
    by_entry : (o : Option PendingMessage) → get c.pending id ≡ o → Fits (arm_entry id delay c o)
    by_entry none e = unfold arm_entry in l
    by_entry (some p) e =
        unfold arm_entry in
        if_cases Fits c.closed (λ _. l)
          λ _. record {
            covered = omega (
              arith,
              total-put_same c.pending id (record p { timer = armed delay }) p e refl,
              l.covered,
            );
            bytes = l.bytes;
            messages = omega (
              arith,
              length-put-present c.pending id (record p { timer = armed delay }) p e,
              l.messages,
            );
          }

pub close-Fits : (reason : String) (c : Connection) → Fits c → Fits (close reason c)
unfolding close
close-Fits reason c l =
    if_cases Fits c.closed (λ _. l)
      λ _. record {
        covered = omega (arith, total-cancel_timers c.pending, l.covered);
        bytes = l.bytes;
        messages = omega (arith, length-cancel_timers c.pending, l.messages);
      }

close-InFlight :
    (id size : ℕ) (reason : String) (c : Connection)
    → InFlight id size c
    → InFlight id size (close reason c)
unfolding close
close-InFlight id size reason c i = record {
  fits = close-Fits reason c i.fits;
  sized =
      if_cases {A = Connection}
        (λ d. (f : List ℕ) → frame_at (get d.pending id) ≡ some f → length f ≡ size) c.closed
        (λ _. i.sized) λ _ f e. i.sized f (sym (get-cancel_timers c.pending id) ∙ e);
}

enqueue-InFlight :
    (id : ℕ) (p : PendingMessage) (c : Connection)
    → c.pending_bytes + length p.frame ≤ c.config.max_queue_bytes
    → length c.pending + 1 ≤ c.config.max_unacked_messages
    → Fits c
    → InFlight id (length p.frame) (enqueue id p c)
unfolding enqueue
enqueue-InFlight id p c b m l = record {
  fits = record {
    covered = omega (arith, total-put-le c.pending id p, l.covered);
    bytes = b;
    messages = omega (arith, length-put-le c.pending id p, m);
  };
  sized = λ f e. ground (arith, get-put c.pending id p id, eq_refl id);
}

-- The limits do not depend on the other fields.
pub same_limits :
    (c d : Connection)
    → d.pending ≡ c.pending
    → d.pending_bytes ≡ c.pending_bytes
    → d.config ≡ c.config
    → Fits c
    → Fits d
same_limits c d e b k l = record {
  covered = omega (arith, ap total e, b, l.covered);
  bytes = omega (arith, b, ap (λ x. x.max_queue_bytes) k, l.bytes);
  messages = omega (arith, ap length e, ap (λ x. x.max_unacked_messages) k, l.messages);
}

same_pending :
    (id size : ℕ) (c d : Connection)
    → d.pending ≡ c.pending
    → d.pending_bytes ≡ c.pending_bytes
    → d.config ≡ c.config
    → InFlight id size c
    → InFlight id size d
same_pending id size c d e b k i = record {
  fits = same_limits c d e b k i.fits;
  sized = λ f h. i.sized f (ap (λ x. frame_at (get x id)) (sym e) ∙ h);
}

after_write-InFlight :
    (id size now : ℕ) (r : Result (Unit {0}) × Connection)
    → InFlight id size r.1
    → InFlight id size (after_write now r).1
unfolding after_write call
after_write-InFlight id size now (err e, c) i =
    same_pending id size _ _ refl refl refl (close-InFlight id size "buffer_write_failed" c i)
after_write-InFlight id size now (ok u, c) i =
    if_cases {A = Result (Unit {0}) × Connection} (λ r. InFlight id size r.1) c.closed (λ _. i)
      λ _. same_pending id size _ _ refl refl refl i

writer-InFlight :
    (writer : Writer) (id size : ℕ) (bytes : List ℕ) (c : Connection)
    → KeepsLimits writer
    → (f : List ℕ) → frame_at (get c.pending id) ≡ some f
    → InFlight id size c
    → InFlight id size (writer bytes c).1
writer-InFlight writer id size bytes c k f stored i = record {
  fits = k.fits bytes c i.fits;
  sized = λ g e. ap length (k.same bytes c id f g stored e) ∙ i.sized f stored;
}

write-InFlight :
    (writer : Writer) (now id size : ℕ) (bytes : List ℕ) (c : Connection)
    → KeepsLimits writer
    → (f : List ℕ) → frame_at (get c.pending id) ≡ some f
    → InFlight id size c
    → InFlight id size (write writer now bytes c).1
unfolding write
write-InFlight writer now id size bytes c k f stored i =
    if_cases {A = Result (Unit {0}) × Connection} (λ r. InFlight id size r.1) c.closed (λ _. i)
      λ _. after_write-InFlight id size now _ (writer-InFlight writer id size bytes c k f stored i)

settle-Fits :
    (id size delay : ℕ) (r : Result (Unit {0}) × Connection)
    → InFlight id size r.1
    → Fits (settle_write id size delay r).1
unfolding settle_write
settle-Fits id size delay (err e, c) i = forget-Fits id size c i
settle-Fits id size delay (ok u, c) i = arm-Fits id delay c i.fits

pub transmit-Fits :
    (writer : Writer) (now id delay : ℕ) (p : PendingMessage) (c : Connection)
    → KeepsLimits writer
    → c.pending_bytes + length p.frame ≤ c.config.max_queue_bytes
    → length c.pending + 1 ≤ c.config.max_unacked_messages
    → Fits c
    → Fits (transmit writer now id delay p c).1
unfolding transmit
transmit-Fits writer now id delay p c k b m l = settle-Fits id (length p.frame) delay _ (
    write-InFlight writer now id (length p.frame) p.frame (enqueue id p c) k p.frame
      (unfold enqueue in ap frame_at {y = some p} (get-put c.pending id p id ∙ rw (eq_refl id)))
      (enqueue-InFlight id p c b m l))

returning-state : (id : ℕ) (r : Result (Unit {0}) × Connection) → (returning id r).1 ≡ r.1
unfolding returning
returning-state id (ok u, c) = refl
returning-state id (err e, c) = refl

send_encoded-Fits :
    (writer : Writer) (created now : ℕ) (connection_id : String) (id : ℕ)
    (encoded : Result (List ℕ)) (c : Connection)
    → KeepsLimits writer
    → length c.pending + 1 ≤ c.config.max_unacked_messages
    → Fits c
    → Fits (send_encoded writer created now connection_id id encoded c).1
unfolding send_encoded
send_encoded-Fits writer created now connection_id id (err e) c k m l = l
send_encoded-Fits writer created now connection_id id (ok encoded) c k m l =
    if_cases {A = Result ℕ × Connection} (λ r. Fits r.1)
      (ltb c.config.max_queue_bytes (c.pending_bytes + length encoded)) (λ _. l)
      λ room.
        subst Fits (sym (returning-state id _))
          (transmit-Fits writer now id c.config.ack_timeout _ c k (ground (arith, room)) m l)

-- If at most the configured number of messages and of bytes is pending and the byte count covers
-- what is pending, then this holds after a send too, whatever it meets: a closed connection, a
-- full queue, a message too large, a write that fails. Other threads may use the connection
-- during the write, if they keep the same limits and store no other frame under the id of a
-- message in flight.
pub send_data-Fits :
    (writer : Writer) (created now : ℕ) (connection_id : String) (envelope : List ℕ)
    (c : Connection)
    → KeepsLimits writer
    → Fits c
    → Fits (send_data writer created now connection_id envelope c).1
unfolding send_data
send_data-Fits writer created now connection_id envelope c k l =
    if_cases {A = Result ℕ × Connection} (λ r. Fits r.1) c.closed (λ _. l)
      λ _.
        if_cases {A = Result ℕ × Connection} (λ r. Fits r.1)
          (leb c.config.max_unacked_messages (length c.pending)) (λ _. l)
          λ room.
            send_encoded-Fits writer created now connection_id c.next_message_id
              (encode c.config.max_frame_size (record {
                frame_type = data_frame;
                message_id = c.next_message_id;
                payload = envelope;
              }))
              (record c { next_message_id = (c.next_message_id + 1) % 2 ^ 64 }) k
              (ground (arith, room))
              (record { covered = l.covered; bytes = l.bytes; messages = l.messages })
