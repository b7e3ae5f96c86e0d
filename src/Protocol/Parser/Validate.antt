-- ===== src/Protocol/Parser/Validate.antt =====
-- `validate_message_structure` of crates/protocol/src/parser.rs.
pub mod Rules
pub mod Causes
use zeroio.Common.{
  ℕ, zero, suc, ◌+◌, Bool, true, false, Option, none, some, List, [], ◌∷◌, Result, ok, err, panic,
  ◌>>=◌, ◌>>◌, if◌then◌else◌, length, is_none, ◌==◌,
}
use zeroio.Protocol.Errors.{
  ProtocolError, ProtocolResult, lit, num, missing_required_field, forbidden_field, invalid_routing,
}
use zeroio.Protocol.Types.MessageType.{
  MessageType, join, request, response, notification, broadcast, publish, subscribe, unsubscribe,
  as_str,
}
use zeroio.Protocol.Types.Header.{Header, Routing, HeaderField, name, is_present_in}

-- The two components of the table at the head of the function.
abbrev pub required : MessageType → List HeaderField
required join = HeaderField.client_name ∷ []
required request = HeaderField.routing ∷ HeaderField.reqrep ∷ []
required response = HeaderField.routing ∷ HeaderField.reqrep ∷ []
required notification = HeaderField.routing ∷ []
required broadcast = []
required publish = HeaderField.topic ∷ []
required subscribe = HeaderField.topic ∷ []
required unsubscribe = HeaderField.topic ∷ []

abbrev pub forbidden : MessageType → List HeaderField
forbidden join =
    HeaderField.routing ∷ HeaderField.reqrep ∷ HeaderField.topic ∷ HeaderField.status ∷ []
forbidden request = HeaderField.topic ∷ HeaderField.auth ∷ []
forbidden response = HeaderField.topic ∷ HeaderField.auth ∷ []
forbidden notification = HeaderField.reqrep ∷ HeaderField.topic ∷ HeaderField.auth ∷ []
forbidden broadcast =
    HeaderField.routing ∷ HeaderField.reqrep ∷ HeaderField.topic ∷ HeaderField.auth ∷ []
forbidden publish = HeaderField.routing ∷ HeaderField.reqrep ∷ HeaderField.auth ∷ []
forbidden subscribe =
    HeaderField.routing ∷ HeaderField.reqrep ∷ HeaderField.status ∷ HeaderField.auth ∷ []
forbidden unsubscribe =
    HeaderField.routing ∷ HeaderField.reqrep ∷ HeaderField.status ∷ HeaderField.auth ∷ []

module _ {V : Type 0} where
  unfoldable pub check_required :
      MessageType → Header V → List HeaderField → ProtocolResult (Unit {0})
  check_required t h [] = ok tt
  check_required t h (f ∷ fs) =
      if is_present_in f h
      then check_required t h fs
      else err (missing_required_field (name f) (as_str t))

  unfoldable pub check_forbidden :
      MessageType → Header V → List HeaderField → ProtocolResult (Unit {0})
  check_forbidden t h [] = ok tt
  check_forbidden t h (f ∷ fs) =
      if is_present_in f h
      then err (forbidden_field (name f) (as_str t))
      else check_forbidden t h fs

-- `routing.len() != 1` for REQ and REP.
abbrev pub check_single : MessageType → List Routing → ProtocolResult Routing
check_single t (r ∷ []) = ok r
check_single t rs = err (
    invalid_routing (
      lit (as_str t)
      ∷ lit " messages must have exactly one routing entry, got "
      ∷ num (length rs)
      ∷ []))

abbrev pub check_reply_route : Routing → ProtocolResult (Unit {0})
check_reply_route r =
    if is_none r.client_id
    then err (invalid_routing (lit "REP messages must include client_id in routing" ∷ []))
    else ok tt

abbrev pub check_routing : MessageType → Option (List Routing) → ProtocolResult (Unit {0})
check_routing request (some rs) = check_single request rs >>= λ r. ok tt
check_routing response (some rs) = check_single response rs >>= check_reply_route
check_routing notification (some []) =
    err (invalid_routing (lit "NOTIF messages must have at least one routing entry" ∷ []))
check_routing _ _ = ok tt

unfoldable pub validate_message_structure :
    {V : Type 0} → MessageType → Header V → ProtocolResult (Unit {0})
unfolding check_required check_forbidden
validate_message_structure t h = do
  check_required t h (required t)
  check_forbidden t h (forbidden t)
  check_routing t h.routing
