-- ===== src/Reticulum/Connection/Steps.antt =====
-- What holds of a connection after any sequence of its operations.
use call_backend.Prelude.{
  ℕ, String, ◌≡◌, refl, Bool, Option, List, [], ◌∷◌, arith, nat_eq, string_eq, contains, Result, ok,
  err, is_protocol_error, if_cases, subst, sym,
}
use call_backend.Prelude.Stateful.{bind_keeps}
use call_backend.Prelude.Chains.{same_result}
use call_backend.Transport.Payload.{Payload}
use call_backend.Reticulum.Framing.{
  Frame, FrameType, data_frame, ack, control, encode, FrameParser, Fed, raised, frames, feed,
}
use call_backend.Reticulum.Protocol.{ControlType, ping, pong, close, ControlMessage, DataEnvelope}
use call_backend.Reticulum.Connection.{
  Config, Connection, Call, teardown, Writer, Carried, call, after_write, write, acknowledge,
  ack_timeout, close_logical, send_data, adopt_pending,
}
use call_backend.Reticulum.Connection.Limits.{
  Fits, KeepsLimits, same_limits, close-Fits, send_data-Fits,
}
use call_backend.Reticulum.Connection.Acknowledging.{ack_timeout-Fits, acknowledge-state}
use call_backend.Reticulum.Connection.Adopting.{adopt_pending-Fits}
use call_backend.Reticulum.Connection.Receiving.{
  Outlets, with_parser, opened, open_connection, written, write_frame, ack_of, control_written,
  send_control, application_sent, send_application, or_empty, on_kind, on_control, on_data,
  dispatch_typed, dispatch, dispatch_all, dispatch_fed, on_error, receive,
}

-- The writer and the owner of a connection keep its limits: what they and other threads do to it
-- meanwhile are operations of the connection too.
pub record KeepsOutlets (o : Outlets) : Type 0 where
  pub writes : KeepsLimits o.writer
  pub handles :
      (e : DataEnvelope) (id : ℕ) (c : Connection) → Fits c → Fits (o.application e id c).1

-- One operation of a connection.
pub data Step : Connection → Connection → Type 0 where
  received :
      (c : Connection) (o : Outlets) (bytes : List ℕ)
      → KeepsOutlets o
      → Step c (receive o bytes c).1
  sent :
      (c : Connection) (o : Outlets) (created : ℕ) (id : String) (payload : Payload)
      → KeepsOutlets o
      → Step c (send_application o created id payload c).1
  controlled :
      (c : Connection) (o : Outlets) (kind : ControlType) (id : ℕ)
      → KeepsOutlets o
      → Step c (send_control o kind id c).1
  adopted :
      (c : Connection) (o : Outlets) (ms : List Carried)
      → KeepsOutlets o
      → Step c (adopt_pending o.writer ms c).1
  acknowledged : (c : Connection) (id : ℕ) → Step c (acknowledge id c).1
  timed_out : (c : Connection) (id : ℕ) → Step c (ack_timeout id c)
  closed_logical : (c : Connection) (id : String) → Step c (close_logical id c).1
  closed_link :
      (c : Connection) (reason : String) → Step c (call_backend.Reticulum.Connection.close reason c)

after_write-Fits :
    (now : ℕ) (r : Result (Unit {0}) × Connection) → Fits r.1 → Fits (after_write now r).1
unfolding after_write call
after_write-Fits now (err e, c) l =
    same_limits (call_backend.Reticulum.Connection.close "buffer_write_failed" c) _ refl refl refl
      (close-Fits "buffer_write_failed" c l)
after_write-Fits now (ok u, c) l =
    if_cases {A = Result (Unit {0}) × Connection} (λ r. Fits r.1) c.closed (λ _. l)
      λ _. same_limits c _ refl refl refl l

close_logical-Fits : (id : String) (c : Connection) → Fits c → Fits (close_logical id c).1
unfolding close_logical call
close_logical-Fits id c l =
    if_cases {A = Bool × Connection} (λ r. Fits r.1) (contains c.logical_connection_ids id)
      (λ _. same_limits c _ refl refl refl l) λ _. l

acknowledge-Fits : (id : ℕ) (c : Connection) → Fits c → Fits (acknowledge id c).1
acknowledge-Fits id c l = subst Fits (sym (acknowledge-state id c)) (ack_timeout-Fits id c l)

module _ (o : Outlets) (k : KeepsOutlets o) where
  write-Fits : (bytes : List ℕ) (c : Connection) → Fits c → Fits (write o.writer o.now bytes c).1
  unfolding write
  write-Fits bytes c l =
      if_cases {A = Result (Unit {0}) × Connection} (λ r. Fits r.1) c.closed (λ _. l)
        λ _. after_write-Fits o.now (o.writer bytes c) (k.writes.fits bytes c l)

  written-Fits : (r : Result (List ℕ)) (c : Connection) → Fits c → Fits (written o r c).1
  written-Fits (err e) c l = l
  written-Fits (ok bytes) c l = write-Fits bytes c l

  write_frame-Fits : (f : Frame) (c : Connection) → Fits c → Fits (write_frame o f c).1
  unfolding write_frame
  write_frame-Fits f c l = written-Fits (encode c.config.max_frame_size f) c l

  control_written-Fits :
      (id : ℕ) (r : Result (List ℕ)) (c : Connection) → Fits c → Fits (control_written o id r c).1
  control_written-Fits id (err e) c l = l
  control_written-Fits id (ok payload) c l = write_frame-Fits _ c l

  send_control-Fits :
      (kind : ControlType) (id : ℕ) (c : Connection) → Fits c → Fits (send_control o kind id c).1
  unfolding send_control
  send_control-Fits kind id c l = control_written-Fits id _ c l

  application_sent-Fits :
      (created : ℕ) (id : String) (r : Result (List ℕ)) (c : Connection)
      → Fits c
      → Fits (application_sent o created id r c).1
  application_sent-Fits created id (err e) c l = l
  application_sent-Fits created id (ok envelope) c l =
      send_data-Fits o.writer created o.now id envelope c k.writes l

  on_kind-Fits :
      (id : ℕ) (kind : ControlType) (name : Option String) (c : Connection)
      → Fits c
      → Fits (on_kind o id kind name c).1
  unfolding on_kind
  on_kind-Fits id ping name c l = send_control-Fits pong id c l
  on_kind-Fits id pong name c l = l
  on_kind-Fits id close name c l = close_logical-Fits (or_empty name) c l

  on_control-Fits :
      (id : ℕ) (r : Result ControlMessage) (c : Connection) → Fits c → Fits (on_control o id r c).1
  unfolding on_control
  on_control-Fits id (err e) c l = l
  on_control-Fits id (ok m) c l = on_kind-Fits id m.kind m.connection_id c l

  on_data-Fits :
      (id : ℕ) (r : Result DataEnvelope) (c : Connection) → Fits c → Fits (on_data o id r c).1
  unfolding on_data
  on_data-Fits id (err e) c l = l
  on_data-Fits id (ok e) c l =
      if_cases {A = Result (Unit {0}) × Connection} (λ r. Fits r.1)
        (contains c.closed_logical_connection_ids e.connection_id)
        (λ _. write_frame-Fits (ack_of id) c l)
        λ _.
          bind_keeps {P = Fits} (o.application e id) (λ _. write_frame o (ack_of id)) c
            (k.handles e id c l) λ _ d h. write_frame-Fits (ack_of id) d h

  dispatch_typed-Fits :
      (t : FrameType) (id : ℕ) (payload : List ℕ) (c : Connection)
      → Fits c
      → Fits (dispatch_typed o t id payload c).1
  unfolding dispatch_typed
  dispatch_typed-Fits ack id payload c l = acknowledge-Fits id c l
  dispatch_typed-Fits control id payload c l = on_control-Fits id _ c l
  dispatch_typed-Fits data_frame id payload c l = on_data-Fits id _ c l

  dispatch_all-Fits : (fs : List Frame) (c : Connection) → Fits c → Fits (dispatch_all o fs c).1
  unfolding dispatch_all dispatch
  dispatch_all-Fits [] c l = l
  dispatch_all-Fits (f ∷ fs) c l =
      bind_keeps {P = Fits} (dispatch o f) (λ _. dispatch_all o fs) c
        (dispatch_typed-Fits f.frame_type f.message_id f.payload c l)
        λ _ d h. dispatch_all-Fits fs d h

  dispatch_fed-Fits : (fed : Fed) (c : Connection) → Fits c → Fits (dispatch_fed o fed c).1
  unfolding dispatch_fed
  dispatch_fed-Fits (raised fault) c l = l
  dispatch_fed-Fits (frames fs) c l = dispatch_all-Fits fs c l

  on_error-Fits : (r : Result (Unit {0}) × Connection) → Fits r.1 → Fits (on_error r).1
  unfolding on_error call
  on_error-Fits (ok u, c) l = l
  on_error-Fits (err e, c) l =
      if_cases {A = Result (Unit {0}) × Connection} (λ r. Fits r.1) (is_protocol_error e)
        (λ _.
          same_limits (call_backend.Reticulum.Connection.close "protocol_error" c) _ refl refl refl
            (close-Fits "protocol_error" c l))
        λ _. l

  receive-Fits : (bytes : List ℕ) (c : Connection) → Fits c → Fits (receive o bytes c).1
  unfolding receive
  receive-Fits bytes c l =
      if_cases {A = Result (Unit {0}) × Connection} (λ r. Fits r.1) c.closed (λ _. l)
        λ _.
          on_error-Fits _
            (dispatch_fed-Fits (feed bytes c.parser).0 _ (same_limits c _ refl refl refl l))

-- Any operation of a connection keeps its limits, errors included.
Step-Fits : (c d : Connection) → Step c d → Fits c → Fits d
Step-Fits c _ (received _ o bytes k) l = receive-Fits o k bytes c l
Step-Fits c _ (sent _ o created id payload k) l =
    unfold send_application in application_sent-Fits o k created id _ c l
Step-Fits c _ (controlled _ o kind id k) l = send_control-Fits o k kind id c l
Step-Fits c _ (adopted _ o ms k) l = adopt_pending-Fits o.writer ms c k.writes l
Step-Fits c _ (acknowledged _ id) l = acknowledge-Fits id c l
Step-Fits c _ (timed_out _ id) l = ack_timeout-Fits id c l
Step-Fits c _ (closed_logical _ id) l = close_logical-Fits id c l
Step-Fits c _ (closed_link _ reason) l = close-Fits reason c l

-- A connection that was opened and then used.
pub data Reached : Connection → Type 0 where
  fresh :
      (config : Config) (draw now : ℕ) (c : Connection)
      → open_connection config draw now ≡ ok c
      → Reached c
  then_step : (c d : Connection) → Reached c → Step c d → Reached d

with_parser-Fits :
    (config : Config) (draw now : ℕ) (p : FrameParser) → Fits (with_parser config draw now p)
unfolding with_parser
with_parser-Fits config draw now p = record {
  covered = omega arith;
  bytes = omega arith;
  messages = omega arith;
}

opened-Fits :
    (config : Config) (draw now : ℕ) (p : Result FrameParser) (c : Connection)
    → opened config draw now p ≡ ok c
    → Fits c
opened-Fits config draw now (err e) c h = absurd (ground arith)
opened-Fits config draw now (ok parser) c h =
    subst Fits (same_result _ c h) (with_parser-Fits config draw now parser)

-- The limits hold of a connection at all times: from when it is opened, after any deliveries of
-- bytes, application and control messages sent, acknowledgements, timeouts, messages taken over from
-- another connection and closings, in any order and whatever raises, at most the configured number
-- of messages and of bytes is pending. Writes and handlers may use the connection meanwhile, by
-- operations that keep the limits and store no other frame under the id of a message in flight.
pub reached-Fits : (c : Connection) → Reached c → Fits c
unfolding open_connection
reached-Fits c (fresh config draw now _ h) = opened-Fits config draw now _ c h
reached-Fits d (then_step c _ before step) = Step-Fits c d step (reached-Fits c before)
