-- ===== src/Protocol/Types/Header.antt =====
-- `Header` and its parts, of crates/protocol/src/types.rs. The MessagePack values of `rmpv` are a
-- type `V`; the map of additional fields is the list of its entries.
use zeroio.Common.{
  ℕ, String, Bool, ◌&&◌, Option, none, some, List, [], ◌∷◌, is_some, is_none, is_empty,
}
use zeroio.Protocol.Types.StatusCode.{StatusCode}

pub record Routing : Type 0 where
  pub client_name : String
  pub path : String
  pub client_id : Option ℕ

pub data RequestResponseType : Type 0 where
  request correlation : RequestResponseType

pub record RequestResponse : Type 0 where
  pub req_type : RequestResponseType
  pub id : String

abbrev pub req : String → RequestResponse
req id = record { req_type = request; id = id }

abbrev pub res : String → RequestResponse
res id = record { req_type = correlation; id = id }

pub data AuthType : Type 0 where
  token basic api_key : AuthType

pub data AuthCredentials : Type 0 where
  token : String → AuthCredentials
  basic : String → String → AuthCredentials
  api_key : String → AuthCredentials

pub record Auth : Type 0 where
  pub auth_type : AuthType
  pub credentials : AuthCredentials

abbrev pub auth_token : String → Auth
auth_token t = record { auth_type = AuthType.token; credentials = AuthCredentials.token t }

abbrev pub auth_basic : String → String → Auth
auth_basic u p = record { auth_type = AuthType.basic; credentials = AuthCredentials.basic u p }

abbrev pub auth_api_key : String → Auth
auth_api_key k = record { auth_type = AuthType.api_key; credentials = AuthCredentials.api_key k }

pub record Header (V : Type 0) : Type 0 where
  pub routing : Option (List Routing)
  pub reqrep : Option RequestResponse
  pub topic : Option String
  pub status : Option StatusCode
  pub auth : Option Auth
  pub client_name : Option String
  pub additional : List (String × V)

module _ {V : Type 0} where
  abbrev pub new : Header V
  new = record {
    routing = none;
    reqrep = none;
    topic = none;
    status = none;
    auth = none;
    client_name = none;
    additional = [];
  }

  abbrev pub with_routing : Header V → List Routing → Header V
  with_routing h rs = record h { routing = some rs }

  abbrev pub with_route : Header V → String → String → Header V
  with_route h name path = record h {
    routing = some (record { client_name = name; path = path; client_id = none } ∷ []);
  }

  abbrev pub with_route_and_id : Header V → String → String → ℕ → Header V
  with_route_and_id h name path id = record h {
    routing = some (record { client_name = name; path = path; client_id = some id } ∷ []);
  }

  abbrev pub with_reqrep : Header V → RequestResponse → Header V
  with_reqrep h r = record h { reqrep = some r }

  abbrev pub with_topic : Header V → String → Header V
  with_topic h t = record h { topic = some t }

  abbrev pub with_status : Header V → StatusCode → Header V
  with_status h s = record h { status = some s }

  abbrev pub with_auth : Header V → Auth → Header V
  with_auth h a = record h { auth = some a }

  abbrev pub with_client_name : Header V → String → Header V
  with_client_name h n = record h { client_name = some n }

  -- `header == Header::default()`: every optional field is `None` and the map has no entry.
  abbrev pub is_default : Header V → Bool
  is_default h =
      is_none h.routing
      && is_none h.reqrep
      && is_none h.topic
      && is_none h.status
      && is_none h.auth
      && is_none h.client_name
      && is_empty h.additional

pub data HeaderField : Type 0 where
  routing reqrep topic status auth client_name : HeaderField

abbrev pub name : HeaderField → String
name routing = "routing"
name reqrep = "reqrep"
name topic = "topic"
name status = "status"
name auth = "auth"
name client_name = "client_name"

abbrev pub is_present_in : {V : Type 0} → HeaderField → Header V → Bool
is_present_in routing h = is_some h.routing
is_present_in reqrep h = is_some h.reqrep
is_present_in topic h = is_some h.topic
is_present_in status h = is_some h.status
is_present_in auth h = is_some h.auth
is_present_in client_name h = is_some h.client_name
