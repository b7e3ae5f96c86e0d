-- ===== src/Protocol/Message/Response.antt =====
-- `Message::create_response` of crates/protocol/src/message.rs.
pub mod Valid
use zeroio.Common.{
  ℕ, Bool, Option, none, some, List, [], ◌∷◌, Result, ok, err, panic, ◌>>=◌, if◌then◌else◌,
}
use zeroio.Protocol.Errors.{ProtocolError, ProtocolResult, lit, invalid_format}
use zeroio.Protocol.External.{Buffers, Serde}
use zeroio.Protocol.Types.MessageType.{response, is_request}
use zeroio.Protocol.Types.StatusCode.{StatusCode}
use zeroio.Protocol.Types.Header
use zeroio.Protocol.Types.Header.{Header, Routing, RequestResponse, correlation}
use zeroio.Protocol.Message.{Message, Cached, client_id, header, message_type}
use zeroio.Protocol.Message.Raw
use zeroio.Protocol.Message.Raw.{RawMessage}

module _ {B : Type 0} where
  abbrev ok_or : ProtocolError → Option B → ProtocolResult B
  ok_or e none = err e
  ok_or e (some b) = ok b

-- The first route is sent back to the client that asked; the others are kept.
abbrev answer_routing : ℕ → List Routing → ProtocolResult (List Routing)
answer_routing id [] = err (invalid_format (lit "Request message has empty routing" ∷ []))
answer_routing id (r ∷ rs) = ok ((record r { client_id = some id }) ∷ rs)

module _ {V : Type 0} where
  -- From the request's header to the header of the response.
  unfoldable pub response_header : ℕ → Option StatusCode → Header V → ProtocolResult (Header V)
  response_header id status h = do
    reqrep ← ok_or (invalid_format (lit "Request message missing reqrep field" ∷ [])) h.reqrep
    original ← ok_or (invalid_format (lit "Request message missing routing field" ∷ [])) h.routing
    routing ← answer_routing id original
    ok (record Header.new {
      reqrep = some (record { req_type = correlation; id = reqrep.id });
      routing = some routing;
      status = status;
    })

  unfoldable pub create_response :
      {A T : Type 0}
      → Serde (Header V)
      → Serde T
      → Buffers
      → Message V A
      → ℕ
      → Option StatusCode
      → T
      → Cached V A (RawMessage V)
  create_response serde_header serde bufs m sender status payload =
      if is_request (message_type m)
      then (let (result, m') = header serde_header bufs m in
          (
            (do
              h ← result
              h' ← response_header (client_id m) status h
              Raw.new serde response sender h' payload),
            m',
          ))
      else (err (invalid_format (lit "Cannot create response for non-request message" ∷ [])), m)
