-- ===== src/Protocol/Parser/Validate/Rules.antt =====
-- The structure of each kind of message, said without the tables and the loops of the code.
use zeroio.Common.{
  ◌≡◌, ◌↔◌, ◌≢◌, true, false, Option, some, List, [], ◌∷◌, ok, panic, is_some, arith,
}
use zeroio.Protocol.Types.MessageType.{
  MessageType, join, request, response, notification, broadcast, publish, subscribe, unsubscribe,
}
use zeroio.Protocol.Types.Header.{Header, Routing}
use zeroio.Protocol.Parser.Validate.{validate_message_structure}

abbrev Present : {B : Type 0} → Option B → Type 0
Present o = is_some o ≡ true

abbrev Absent : {B : Type 0} → Option B → Type 0
Absent o = is_some o ≡ false

abbrev SingleRoute : Option (List Routing) → Type 0
SingleRoute (some (r ∷ [])) = Unit
SingleRoute _ = ⊥

-- One route, that names the client that waits for the reply.
abbrev ReplyRoute : Option (List Routing) → Type 0
ReplyRoute (some (r ∷ [])) = Present r.client_id
ReplyRoute _ = ⊥

abbrev SomeRoute : Option (List Routing) → Type 0
SomeRoute (some (r ∷ rs)) = Unit
SomeRoute _ = ⊥

module _ {V : Type 0} where
  abbrev pub IsWellFormed : MessageType → Header V → Type 0
  IsWellFormed join h =
      Present h.client_name × Absent h.routing × Absent h.reqrep × Absent h.topic × Absent h.status
  IsWellFormed request h = SingleRoute h.routing × Present h.reqrep × Absent h.topic × Absent h.auth
  IsWellFormed response h = ReplyRoute h.routing × Present h.reqrep × Absent h.topic × Absent h.auth
  IsWellFormed notification h =
      SomeRoute h.routing × Absent h.reqrep × Absent h.topic × Absent h.auth
  IsWellFormed broadcast h = Absent h.routing × Absent h.reqrep × Absent h.topic × Absent h.auth
  IsWellFormed publish h = Present h.topic × Absent h.routing × Absent h.reqrep × Absent h.auth
  IsWellFormed subscribe h =
      Present h.topic × Absent h.routing × Absent h.reqrep × Absent h.status × Absent h.auth
  IsWellFormed unsubscribe h =
      Present h.topic × Absent h.routing × Absent h.reqrep × Absent h.status × Absent h.auth

  -- The validation passes exactly the headers that are well formed for their type of message: the
  -- required fields are there, the forbidden ones are not, and the routes are as many as the type
  -- asks for, with a client for a response.
  pub validate_iff :
      (t : MessageType) (h : Header V) → (validate_message_structure t h ≡ ok tt) ↔ IsWellFormed t h
  unfolding validate_message_structure
  validate_iff join h = ground arith
  validate_iff t h = ground arith

  -- The validation never panics.
  pub validate-ne-panic : (t : MessageType) (h : Header V) → validate_message_structure t h ≢ panic
  unfolding validate_message_structure
  validate-ne-panic join h = ground arith
  validate-ne-panic t h = ground arith
