-- ===== src/Reticulum/Protocol/Tests.antt =====
-- The properties of the messages at concrete inputs.
use call_backend.Prelude.{ap, string_eq, nat_eq, ◌+◌, ◌≡◌, refl, none, [], ◌∷◌, ok, ℕ}
use call_backend.Value.{Value, text, num, dict, field, end, get_field, as_text, equals_number}
use call_backend.Transport.Payload.{Payload, binary}
use call_backend.Dict.{get}
use call_backend.Reticulum.Base64.{b64decode}
use call_backend.Reticulum.Protocol.{Wire, encoding_of, decode_as}
use call_backend.Reticulum.Protocol.Rpc.{Handler, RpcRouter, answered, dispatch}
use call_backend.Reticulum.Protocol.Rpc.Bounds.{Served, dispatch_bounded}

abbrev payload : Payload
payload = binary (1 ∷ 2 ∷ [])

-- No text is read or written here.
abbrev wire : Wire
wire = record { codec = record { loads = λ bytes. none; dumps = λ v. [] }; ascii = λ bytes. "" }

-- A handler that counts its calls and answers with what it got.
abbrev echo : Handler ℕ
echo id p n = (ok p, n + 1)

abbrev router : RpcRouter ℕ
router = record { max_payload = 4; max_response = 4; handlers = ("/echo", echo) ∷ [] }

abbrev request : Value
request = dict (
    field "version" (num 1) (
      field "requestId" (text "r1")
        (field "encoding" (text "base64") (field "payloadBase64" (text "AQI=") end))))

answers : dispatch wire "/echo" request router 0 ≡ (answered payload, 1)
unfolding dispatch equals_number get_field as_text encoding_of b64decode get decode_as
answers = refl

dispatch_bounded_example :
    Served wire "/echo" request router 0 payload (dispatch wire "/echo" request router 0).1
dispatch_bounded_example =
    dispatch_bounded wire "/echo" request router 0 payload (ap (λ x. x.0) answers)
