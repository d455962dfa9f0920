-- ===== src/Call/Sends.antt =====
-- What `_safe_send` and `_broadcast` deliver.
use call_backend.Prelude.{
  String, ◌≡◌, refl, sym, ap, ◌∙◌, Bool, true, false, not, List, [], ◌∷◌, ◌++◌, map, arith, filter,
  all, if◌then◌else◌, ok, err, transport_error,
}
use mathlib.Core.List.{append-nil, append_assoc}
use call_backend.Prelude.Stateful.{◌>>◌}
use call_backend.Call.Env.{Peers, Link, up, down, stalled}
use call_backend.Call.State.{Service, Effect, sent, Outgoing}
use call_backend.Call.Rooms.{emit, send_over, safe_send, broadcast}

abbrev pub is_up : Link → Bool
is_up up = true
is_up down = false
is_up stalled = false

abbrev pub is_stalled : Link → Bool
is_stalled up = false
is_stalled down = false
is_stalled stalled = true

-- The sends of one payload to those of the sessions that are connected.
abbrev pub deliveries : Peers → List String → Outgoing → List Effect
deliveries peers sessions payload =
    map (λ x. sent x payload) (filter (λ x. is_up (peers.link x)) sessions)

-- Nothing but the trace grows.
abbrev pub tracing : Service → List Effect → Service
tracing s es = record s { trace = s.trace ++ es }

send-cons :
    (peers : Peers) (x : String) (xs : List String) (payload : Outgoing) (s : Service)
    → is_stalled (peers.link x) ≡ false
    → broadcast peers (x ∷ xs) payload s
      ≡ broadcast peers xs payload (tracing s (deliveries peers (x ∷ []) payload))
unfolding broadcast safe_send filter
send-cons peers x xs payload s h = by_link (peers.link x) h
  where
    by_link :
        (l : Link)
        → is_stalled l ≡ false
        → (send_over l x payload >> broadcast peers xs payload) s
          ≡ broadcast peers xs payload
              (tracing s (map (λ y. sent y payload) (if is_up l then x ∷ [] else [])))
    by_link up e = unfold send_over emit in refl
    by_link down e =
        unfold send_over in
        ap (λ es. broadcast peers xs payload (record s { trace = es })) (sym (append-nil s.trace))
    by_link stalled e = absurd (ground arith)

tracing-nil : (s : Service) → tracing s [] ≡ s
tracing-nil s = ap (λ es. record s { trace = es }) (append-nil s.trace)

tracing-tracing :
    (s : Service) (es fs : List Effect) → tracing (tracing s es) fs ≡ tracing s (es ++ fs)
tracing-tracing s es fs = ap (λ gs. record s { trace = gs }) (append_assoc s.trace es fs)

deliveries-cons :
    (peers : Peers) (x : String) (xs : List String) (payload : Outgoing)
    → deliveries peers (x ∷ []) payload ++ deliveries peers xs payload
      ≡ deliveries peers (x ∷ xs) payload
unfolding filter
deliveries-cons peers x xs payload = ground arith

-- A broadcast that meets no connection which raises reaches every session that is connected, in
-- their order, skips those that are not, and changes nothing else.
pub broadcast-delivers :
    (peers : Peers) (sessions : List String) (payload : Outgoing) (s : Service)
    → all (λ x. not (is_stalled (peers.link x))) sessions ≡ true
    → broadcast peers sessions payload s ≡ (ok tt, tracing s (deliveries peers sessions payload))
unfolding broadcast filter
broadcast-delivers peers [] payload s h = ap (λ t. (ok tt, t)) (sym (tracing-nil s))
broadcast-delivers peers (x ∷ xs) payload s h =
    send-cons peers x xs payload s (ground arith)
    ∙ broadcast-delivers peers xs payload _ (ground arith)
    ∙ ap (λ t. (ok tt, t))
        (tracing-tracing s (deliveries peers (x ∷ []) payload) (deliveries peers xs payload)
          ∙ ap (tracing s) (deliveries-cons peers x xs payload))

stalled-stops :
    (peers : Peers) (x : String) (ys : List String) (payload : Outgoing) (s : Service)
    → is_stalled (peers.link x) ≡ true
    → broadcast peers (x ∷ ys) payload s ≡ (err transport_error, s)
unfolding broadcast safe_send send_over
stalled-stops peers x ys payload s h = by_link (peers.link x) h
  where
    by_link :
        (l : Link)
        → is_stalled l ≡ true
        → (send_over l x payload >> broadcast peers ys payload) s ≡ (err transport_error, s)
    by_link up e = absurd (ground arith)
    by_link down e = absurd (ground arith)
    by_link stalled e = refl

-- A connection whose send raises anything but `RuntimeError` ends the broadcast: those before it
-- have the message, nobody after it gets it, and the handler raises.
pub broadcast-stops :
    (peers : Peers) (xs : List String) (x : String) (ys : List String) (payload : Outgoing)
    (s : Service)
    → all (λ y. not (is_stalled (peers.link y))) xs ≡ true
    → is_stalled (peers.link x) ≡ true
    → broadcast peers (xs ++ x ∷ ys) payload s
      ≡ (err transport_error, tracing s (deliveries peers xs payload))
unfolding filter
broadcast-stops peers [] x ys payload s h k =
    stalled-stops peers x ys payload s k ∙ ap (λ t. (err transport_error, t)) (sym (tracing-nil s))
broadcast-stops peers (y ∷ xs) x ys payload s h k =
    send-cons peers y (xs ++ x ∷ ys) payload s (ground arith)
    ∙ broadcast-stops peers xs x ys payload _ (ground arith) k
    ∙ ap (λ t. (err transport_error, t))
        (tracing-tracing s (deliveries peers (y ∷ []) payload) (deliveries peers xs payload)
          ∙ ap (tracing s) (deliveries-cons peers y xs payload))
