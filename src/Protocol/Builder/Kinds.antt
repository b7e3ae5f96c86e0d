-- ===== src/Protocol/Builder/Kinds.antt =====
-- The specialised builders of crates/protocol/src/builder.rs, one for each kind of message.
use zeroio.Common.{ℕ, String, Option, none, some, ok, err, panic, map_ok}
use zeroio.Protocol.Errors.{ProtocolResult}
use zeroio.Protocol.External.{Buffers, Serde}
use zeroio.Protocol.Types.MessageType
use zeroio.Protocol.Types.StatusCode.{StatusCode}
use zeroio.Protocol.Types.Header.{Header}
use zeroio.Protocol.Message
use zeroio.Protocol.Message.{Message, Cached}
use zeroio.Protocol.Builder
use zeroio.Protocol.Builder.{
  MessageBuilder, new, route_to, route_with_id, as_response, with_topic, with_client_name,
}

module _ {V : Type 0} where
  abbrev pub join : ℕ → String → MessageBuilder V
  join id name = with_client_name (new MessageType.join id) name

  abbrev pub request : ℕ → String → String → Option ℕ → MessageBuilder V
  request id target path target_id = route_to (new MessageType.request id) target path target_id

  abbrev pub notification : ℕ → String → String → Option ℕ → MessageBuilder V
  notification id target path target_id =
      route_to (new MessageType.notification id) target path target_id

  abbrev pub broadcast : ℕ → MessageBuilder V
  broadcast id = new MessageType.broadcast id

  abbrev pub subscribe : ℕ → MessageBuilder V
  subscribe id = new MessageType.subscribe id

  abbrev pub response : ℕ → String → String → String → ℕ → MessageBuilder V
  response id target request_id path target_id =
      as_response (route_with_id (new MessageType.response id) target path target_id) request_id

  abbrev pub publish : ℕ → MessageBuilder V
  publish id = new MessageType.publish id

  abbrev pub unsubscribe : ℕ → MessageBuilder V
  unsubscribe id = new MessageType.unsubscribe id

  abbrev pub forwarded_response_with_status : ℕ → String → String → String → ℕ → MessageBuilder V
  forwarded_response_with_status id requester request_id path requester_id =
      as_response (route_to (new MessageType.response id) requester path (some requester_id))
        request_id

  -- An error is passed over, and a panic is not.
  abbrev pub with_reqrep_of :
      ProtocolResult (Header V) → MessageBuilder V → ProtocolResult (MessageBuilder V)
  with_reqrep_of (ok h) b = elim (h.reqrep) [ some r ↦ ok (Builder.reqrep b r) | none ↦ ok b ]
  with_reqrep_of (err e) b = ok b
  with_reqrep_of panic b = panic

  abbrev pub with_optional_status : Option StatusCode → MessageBuilder V → MessageBuilder V
  with_optional_status none b = b
  with_optional_status (some s) b = Builder.status b s

  unfoldable pub response_from_request :
      {A : Type 0}
      → Serde (Header V)
      → Buffers
      → ℕ
      → Message V A
      → Option StatusCode
      → Cached V A (MessageBuilder V)
  response_from_request serde bufs id m status =
      let (result, m') = Message.header serde bufs m in
      (
        map_ok (with_optional_status status) (with_reqrep_of result (new MessageType.response id)),
        m',
      )

  abbrev pub simple_notification : ℕ → String → String → Option ℕ → MessageBuilder V
  simple_notification id target path target_id =
      route_to (new MessageType.notification id) target path target_id

  abbrev pub simple_broadcast : ℕ → String → MessageBuilder V
  simple_broadcast id topic = with_topic (broadcast id) topic

  abbrev pub simple_publish : ℕ → String → MessageBuilder V
  simple_publish id topic = with_topic (publish id) topic

  abbrev pub simple_subscribe : ℕ → String → MessageBuilder V
  simple_subscribe id topic = with_topic (subscribe id) topic

  abbrev pub join_with_token : ℕ → String → String → MessageBuilder V
  join_with_token id name token = Builder.auth_token (join id name) token

  abbrev pub join_with_basic_auth : ℕ → String → String → String → MessageBuilder V
  join_with_basic_auth id name user password = Builder.auth_basic (join id name) user password

  abbrev pub join_with_api_key : ℕ → String → String → MessageBuilder V
  join_with_api_key id name key = Builder.auth_api_key (join id name) key
