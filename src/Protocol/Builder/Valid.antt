-- ===== src/Protocol/Builder/Valid.antt =====
-- What `build` accepts, and which of the specialised builders it accepts as they stand.
use zeroio.Common.{
  ℕ, String, ◌≡◌, ◌≢◌, ◌∙◌, ap, ◌>>=◌, panic, ◌↔◌, refl, Option, ok, err, map_ok, arith,
  Option-cases, inl, inr, >>=-eq-ok, map_err-eq-ok,
}
use zeroio.Protocol.Errors.{
  ProtocolResult, from_encode_error, missing_required_field, forbidden_field,
}
use zeroio.Protocol.External.{Buffers, Serde}
use zeroio.Protocol.Types.MessageType
use zeroio.Protocol.Types.StatusCode.{StatusCode}
use zeroio.Protocol.Types.Header.{Header}
use zeroio.Protocol.Message
use zeroio.Protocol.Message.{Message}
use zeroio.Protocol.Message.Raw
use zeroio.Protocol.Message.Raw.{RawMessage}
use zeroio.Protocol.Parser.Validate.{validate_message_structure}
use zeroio.Protocol.Parser.Validate.Rules.{IsWellFormed, validate_iff}
use zeroio.Protocol.Builder
use zeroio.Protocol.Builder.{MessageBuilder, new, build, build_with_payload}
use zeroio.Protocol.Builder.Kinds.{
  with_reqrep_of, with_optional_status, join, request, notification, response, broadcast,
  forwarded_response_with_status, response_from_request, simple_notification, simple_broadcast,
  simple_publish, simple_subscribe, join_with_token, join_with_basic_auth, join_with_api_key,
}

module _ {V T : Type 0} (serde : Serde T) (b : MessageBuilder V) (payload : T) where
  -- The message holds what the builder holds, and the serialized payload.
  pub record IsBuilt (m : RawMessage V) : Type 0 where
    pub well_formed : IsWellFormed b.message_type b.header
    pub same_type : m.message_type ≡ b.message_type
    pub same_client : m.client_id ≡ b.client_id
    pub same_header : m.header ≡ b.header
    pub payload_ok : serde.to_vec payload ≡ ok m.payload_data

  IsBuilt-of :
      (m : RawMessage V)
      → IsWellFormed b.message_type b.header
      → Raw.new serde b.message_type b.client_id b.header payload ≡ ok m
      → IsBuilt m
  unfolding Raw.new
  IsBuilt-of m w e =
      let (bytes, p, q) = >>=-eq-ok (from_encode_error (serde.to_vec payload)) _ e in
      let r : serde.to_vec payload ≡ ok bytes = map_err-eq-ok _ (serde.to_vec payload) bytes p in
      record {
        well_formed = w;
        same_type = cc q;
        same_client = cc q;
        same_header = cc q;
        payload_ok = cc (q, r);
      }

  build_forth : (m : RawMessage V) → build_with_payload serde b payload ≡ ok m → IsBuilt m
  unfolding build_with_payload
  build_forth m e =
      let (u, p, q) = >>=-eq-ok (validate_message_structure b.message_type b.header) _ e in
      IsBuilt-of m ((validate_iff b.message_type b.header).0 p) q

  build_back : (m : RawMessage V) → IsBuilt m → build_with_payload serde b payload ≡ ok m
  unfolding build_with_payload Raw.new
  build_back m h =
      rw ((validate_iff b.message_type b.header).1 h.well_formed, h.payload_ok)
        (cc (h.same_type, h.same_client, h.same_header))

  -- A message is built exactly when its header is well formed for its type and its payload is
  -- serialized, and it is then what the builder holds with that payload.
  pub build_with_payload_iff :
      (m : RawMessage V) → (build_with_payload serde b payload ≡ ok m) ↔ IsBuilt m
  build_with_payload_iff m = (build_forth m, build_back m)

-- `build` is `build_with_payload` of the nil value.
build-eq-with_payload :
    {V : Type 0} (serde : Serde V) (nil : V) (b : MessageBuilder V)
    → build serde nil b ≡ build_with_payload serde b nil
unfolding build build_with_payload
build-eq-with_payload serde nil b = refl

abbrev pub IsAccepted : {V : Type 0} → MessageBuilder V → Type 0
IsAccepted b = validate_message_structure b.message_type b.header ≡ ok tt

module _ (V : Type 0) (id target : ℕ) (name path request_id topic secret : String)
    (target_id : Option ℕ) where
  -- These builders pass the validation of `build` as they stand, whatever their arguments; a
  -- request passes once it has its correlation id.
  pub kinds-IsAccepted :
      IsAccepted {V = V} (join id name)
      × IsAccepted {V = V} (join_with_token id name secret)
      × IsAccepted {V = V} (join_with_basic_auth id name path secret)
      × IsAccepted {V = V} (join_with_api_key id name secret)
      × IsAccepted {V = V} (Builder.as_request (request id name path target_id) request_id)
      × IsAccepted {V = V} (notification id name path target_id)
      × IsAccepted {V = V} (simple_notification id name path target_id)
      × IsAccepted {V = V} (response id name request_id path target)
      × IsAccepted {V = V} (forwarded_response_with_status id name request_id path target)
      × IsAccepted {V = V} (broadcast id)
      × IsAccepted {V = V} (simple_publish id topic)
      × IsAccepted {V = V} (simple_subscribe id topic)
  unfolding validate_message_structure
  kinds-IsAccepted = (refl, refl, refl, refl, refl, refl, refl, refl, refl, refl, refl, refl)

module _ {V : Type 0} (serde : Serde V) (nil : V) where
  -- `simple_broadcast` sets a topic, which a broadcast must not have: `build` returns that error
  -- for every sender and topic.
  simple_broadcast_refused :
      (id : ℕ) (topic : String)
      → build serde nil (simple_broadcast id topic) ≡ err (forbidden_field "topic" "BCAST")
  unfolding build validate_message_structure
  simple_broadcast_refused id topic = refl

  -- Whatever could be read of a header, the builder that is made of it has no route.
  no_route_refused :
      (id : ℕ) (status : Option StatusCode) (r : ProtocolResult (Header V))
      → r ≢ panic
      → (b : MessageBuilder V) × (map_ok
            (with_optional_status status)
            (with_reqrep_of r (new MessageType.response id))
          ≡ ok b)
        × (build serde nil b ≡ err (missing_required_field "routing" "REP"))
  unfolding build validate_message_structure
  no_route_refused id status (ok h) read = elim (Option-cases h.reqrep) [
    | inl none_there ↦ rw none_there (_, refl, ground arith)
    | inr (q, there) ↦ rw there (_, refl, ground arith)
  ]
  no_route_refused id status (err x) read = (_, refl, ground arith)
  no_route_refused id status panic read = absurd (read refl)

  response_from_request_refused :
      {A : Type 0} (serde_header : Serde (Header V)) (bufs : Buffers) (id : ℕ) (m : Message V A)
      (status : Option StatusCode)
      → (Message.header serde_header bufs m).0 ≢ panic
      → (b : MessageBuilder V) × ((response_from_request serde_header bufs id m status).0 ≡ ok b)
        × (build serde nil b ≡ err (missing_required_field "routing" "REP"))
  unfolding response_from_request
  response_from_request_refused serde_header bufs id m status read =
      no_route_refused id status (Message.header serde_header bufs m).0 read

  -- `simple_broadcast` sets a topic, which a broadcast must not have: `build` returns that error,
  -- whatever the arguments. Of a message whose header is read without a panic, well or with an error,
  -- `response_from_request` makes a builder, which has no route: `build` returns that error.
  pub builders_refused :
      {A : Type 0} (serde_header : Serde (Header V)) (bufs : Buffers) (id : ℕ) (topic : String)
      (id' : ℕ) (m : Message V A) (status : Option StatusCode)
      → (Message.header serde_header bufs m).0 ≢ panic
      → (build serde nil (simple_broadcast id topic) ≡ err (forbidden_field "topic" "BCAST"))
        × ((response_from_request serde_header bufs id' m status).0 >>= build serde nil
            ≡ err (missing_required_field "routing" "REP"))
  builders_refused serde_header bufs id topic id' m status read =
      let (b, made, refused) = response_from_request_refused serde_header bufs id' m status read in
      (simple_broadcast_refused id topic, ap (λ r. r >>= build serde nil) made ∙ refused)
