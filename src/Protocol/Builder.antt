-- ===== src/Protocol/Builder.antt =====
-- `MessageBuilder` of crates/protocol/src/builder.rs. `forward_to` and `response_from_request` read
-- the header of a message, which may fill its cache: they return the message too.
pub mod Kinds
pub mod Valid
use zeroio.Common.{
  ℕ, String, Option, none, some, List, [], ◌∷◌, map, Result, ok, err, panic, map_ok, ◌>>=◌, ◌>>◌,
}
use zeroio.Protocol.Errors.{ProtocolResult}
use zeroio.Protocol.External.{Buffers, Serde}
use zeroio.Protocol.Types.MessageType.{
  MessageType, join, request, response, notification, broadcast, publish, subscribe, unsubscribe,
}
use zeroio.Protocol.Types.StatusCode.{StatusCode}
use zeroio.Protocol.Types.Header
use zeroio.Protocol.Types.Header.{Header, Routing, RequestResponse, Auth}
use zeroio.Protocol.Message
use zeroio.Protocol.Message.{Message, Cached}
use zeroio.Protocol.Message.Raw
use zeroio.Protocol.Message.Raw.{RawMessage}
use zeroio.Protocol.Parser.Validate.{validate_message_structure}

pub record MessageBuilder (V : Type 0) : Type 0 where
  pub message_type : MessageType
  pub client_id : ℕ
  pub header : Header V

-- A target of `route_to` and `route_to_many`.
abbrev pub route : String → String → Option ℕ → Routing
route name path id = record { client_name = name; path = path; client_id = id }

module _ {V : Type 0} where
  abbrev pub new : MessageType → ℕ → MessageBuilder V
  new t id = record { message_type = t; client_id = id; header = Header.new }

  abbrev pub set_routing : MessageBuilder V → List Routing → MessageBuilder V
  set_routing b rs = record b { header = record (b.header) { routing = some rs } }

  abbrev pub set_routing_target : MessageBuilder V → String → String → Option ℕ → MessageBuilder V
  set_routing_target b name path id = record b {
    header = record (b.header) { routing = some (route name path id ∷ []) };
  }

  abbrev pub route_with_id : MessageBuilder V → String → String → ℕ → MessageBuilder V
  route_with_id b name path id = record b {
    header = Header.with_route_and_id b.header name path id;
  }

  abbrev pub route_to : MessageBuilder V → String → String → Option ℕ → MessageBuilder V
  route_to b name path id = record b {
    header = record (b.header) { routing = some (route name path id ∷ []) };
  }

  abbrev pub route_to_many : MessageBuilder V → List (String × String × Option ℕ) → MessageBuilder V
  route_to_many b targets = record b {
    header = record (b.header) {
      routing = some (map (λ (name, path, id). route name path id) targets);
    };
  }

  -- `if let Ok(header) = message.header() { if let Some(reqrep) = &header.reqrep { … } }`. An error
  -- is passed over, and a panic is not.
  abbrev copy_reqrep : ProtocolResult (Header V) → Header V → ProtocolResult (Header V)
  copy_reqrep (ok from) h = elim (from.reqrep) [
    | some r ↦ ok (record h { reqrep = some r })
    | none ↦ ok h
  ]
  copy_reqrep (err e) h = ok h
  copy_reqrep panic h = panic

  unfoldable pub forward_to :
      {A : Type 0}
      → Serde (Header V)
      → Buffers
      → MessageBuilder V
      → Message V A
      → String
      → String
      → Option ℕ
      → Cached V A (MessageBuilder V)
  forward_to serde bufs b m name path id =
      let (result, m') = Message.header serde bufs m in
      (
        map_ok (λ h. record b { header = record h { routing = some (route name path id ∷ []) } })
            (copy_reqrep result b.header),
        m',
      )

  abbrev pub reqrep : MessageBuilder V → RequestResponse → MessageBuilder V
  reqrep b r = record b { header = record (b.header) { reqrep = some r } }

  abbrev pub as_request : MessageBuilder V → String → MessageBuilder V
  as_request b id = record b {
    header = record (b.header) { reqrep = some (record { req_type = Header.request; id = id }) };
  }

  abbrev pub as_response : MessageBuilder V → String → MessageBuilder V
  as_response b id = record b {
    header = record (b.header) {
      reqrep = some (record { req_type = Header.correlation; id = id });
    };
  }

  abbrev pub with_topic : MessageBuilder V → String → MessageBuilder V
  with_topic b t = record b { header = record (b.header) { topic = some t } }

  abbrev pub status : MessageBuilder V → StatusCode → MessageBuilder V
  status b s = record b { header = record (b.header) { status = some s } }

  abbrev pub with_status : MessageBuilder V → StatusCode → MessageBuilder V
  with_status = status

  abbrev pub auth : MessageBuilder V → Auth → MessageBuilder V
  auth b a = record b { header = record (b.header) { auth = some a } }

  abbrev pub auth_token : MessageBuilder V → String → MessageBuilder V
  auth_token b t = record b { header = Header.with_auth b.header (Header.auth_token t) }

  abbrev pub auth_token_legacy : MessageBuilder V → String → MessageBuilder V
  auth_token_legacy b t = auth b (Header.auth_token t)

  abbrev pub auth_basic : MessageBuilder V → String → String → MessageBuilder V
  auth_basic b user password = auth b (Header.auth_basic user password)

  abbrev pub auth_api_key : MessageBuilder V → String → MessageBuilder V
  auth_api_key b key = auth b (Header.auth_api_key key)

  abbrev pub with_client_name : MessageBuilder V → String → MessageBuilder V
  with_client_name b name = record b { header = record (b.header) { client_name = some name } }

  unfoldable pub build_with_payload :
      {T : Type 0} → Serde T → MessageBuilder V → T → ProtocolResult (RawMessage V)
  build_with_payload serde b payload = do
    validate_message_structure b.message_type b.header
    Raw.new serde b.message_type b.client_id b.header payload

  -- `nil` is `NIL`, the MessagePack value of an empty payload.
  unfoldable pub build : Serde V → V → MessageBuilder V → ProtocolResult (RawMessage V)
  build serde nil b = do
    validate_message_structure b.message_type b.header
    Raw.new serde b.message_type b.client_id b.header nil
