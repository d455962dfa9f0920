-- ===== src/Reticulum/Protocol/Rpc/Bounds.antt =====
-- What the RPC router lets through.
use call_backend.Prelude.{
  ◌≢◌, ℕ, ◌≤◌, String, ◌≡◌, refl, subst, ap, Option, none, some, arith, ltb, length, Error, Result,
  ok, err, string_eq, is_protocol_error, if_cases,
}
use call_backend.Dict.{get}
use call_backend.Value.{Value}
use call_backend.Transport.Payload.{Payload}
use call_backend.Reticulum.Protocol.{Wire, decode_as}
use call_backend.Reticulum.Protocol.Rpc.{
  RpcRequestEnvelope, decode_rpc_request, Handler, RpcRouter, Response, answered, failure,
  is_protocol_error, encoded_response, respond, call_handler, for_handler, for_envelope, dispatch,
}

-- A result that was returned: the request, its handler, the payload, and what the handler did.
pub record Served {S : Type 0} (wire : Wire) (path : String) (value : Value) (r : RpcRouter S)
    (s : S) (result : Payload) (after : S) : Type 0 where
  pub request : RpcRequestEnvelope
  pub handler : Handler S
  pub payload : Payload
  pub decoded : decode_rpc_request value ≡ ok request
  pub request_fits : length request.payload ≤ r.max_payload
  pub registered : get r.handlers path ≡ some handler
  pub read :
      decode_as wire "RPC JSON payload is invalid" request.encoding request.payload ≡ ok payload
  pub returned : handler request.request_id payload s ≡ (ok result, after)
  pub response_fits : length (encoded_response wire result) ≤ r.max_response

failure_answers_not : (id : Option String) (e : Error) (p : Payload) → failure id e ≢ answered p
failure_answers_not id e p =
    if_cases (λ x. x ≢ answered p) (is_protocol_error e) (λ _ h. absurd (ground arith))
      λ _ h. absurd (ground arith)

respond-answered :
    (wire : Wire) (max : ℕ) (id : String) (o : Result Payload) (p : Payload)
    → respond wire max id o ≡ answered p
    → (o ≡ ok p) × (length (encoded_response wire p) ≤ max)
unfolding respond
respond-answered wire max id (err e) p h = absurd (failure_answers_not (some id) e p h)
respond-answered wire max id (ok q) p answers =
    if_cases (λ x. x ≡ answered p → (ok q ≡ ok p) × (length (encoded_response wire p) ≤ max))
      (ltb max (length (encoded_response wire q))) (λ _ h. absurd (ground arith))
      (λ small h.
        let same : q ≡ p = ground arith in
        (
          ap ok same,
          subst (λ x. length (encoded_response wire x) ≤ max) same (ground (arith, small)),
        ))
      answers

module _ {S : Type 0} (wire : Wire) (path : String) (value : Value) (r : RpcRouter S) (s : S) where
  call_handler-Served :
      (e : RpcRequestEnvelope) (handler : Handler S) (read : Result Payload) (result : Payload)
      → decode_rpc_request value ≡ ok e
      → length e.payload ≤ r.max_payload
      → get r.handlers path ≡ some handler
      → decode_as wire "RPC JSON payload is invalid" e.encoding e.payload ≡ read
      → (call_handler wire r.max_response e.request_id handler read s).0 ≡ answered result
      → Served wire path value r s result
          (call_handler wire r.max_response e.request_id handler read s).1
  unfolding call_handler
  call_handler-Served e handler (err x) result decoded fits registered read h =
      absurd (failure_answers_not (some e.request_id) x result h)
  call_handler-Served e handler (ok p) result decoded fits registered read h =
      let (returned, small) =
        respond-answered wire r.max_response e.request_id (handler e.request_id p s).0 result h in
      record {
        request = e;
        handler = handler;
        payload = p;
        decoded = decoded;
        request_fits = fits;
        registered = registered;
        read = read;
        returned = ap (λ x. (x, (handler e.request_id p s).1)) returned;
        response_fits = small;
      }

  for_handler-Served :
      (e : RpcRequestEnvelope) (handler : Option (Handler S)) (result : Payload)
      → decode_rpc_request value ≡ ok e
      → length e.payload ≤ r.max_payload
      → get r.handlers path ≡ handler
      → (for_handler wire r.max_response e handler s).0 ≡ answered result
      → Served wire path value r s result (for_handler wire r.max_response e handler s).1
  unfolding for_handler
  for_handler-Served e none result decoded fits registered h = absurd (ground arith)
  for_handler-Served e (some handler) result decoded fits registered h =
      call_handler-Served e handler _ result decoded fits registered refl h

  for_envelope-Served :
      (o : Result RpcRequestEnvelope) (result : Payload)
      → decode_rpc_request value ≡ o
      → (for_envelope wire path o r s).0 ≡ answered result
      → Served wire path value r s result (for_envelope wire path o r s).1
  unfolding for_envelope
  for_envelope-Served (err e) result decoded h = absurd (failure_answers_not none e result h)
  for_envelope-Served (ok e) result decoded answers =
      if_cases {A = Response × S}
        (λ x. x.0 ≡ answered result → Served wire path value r s result x.1)
        (ltb r.max_payload (length e.payload)) (λ _ h. absurd (ground arith))
        (λ small h.
          for_handler-Served e (get r.handlers path) result decoded (ground (arith, small)) refl h)
        answers

-- A result comes out of `dispatch` only where the request could be decoded and its payload is within
-- the limit, a handler is registered for the path and was called once, with the id and the payload
-- of the request, this handler returned the result, and the bytes of the result are within the limit
-- of a response. What the handler left is what `dispatch` leaves.
pub dispatch_bounded :
    {S : Type 0} (wire : Wire) (path : String) (value : Value) (r : RpcRouter S) (s : S)
    (result : Payload)
    → (dispatch wire path value r s).0 ≡ answered result
    → Served wire path value r s result (dispatch wire path value r s).1
unfolding dispatch
dispatch_bounded wire path value r s result h =
    for_envelope-Served wire path value r s (decode_rpc_request value) result refl h
