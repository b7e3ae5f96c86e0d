-- ===== src/Protocol/Message/Response/Valid.antt =====
-- The responses that `create_response` makes, and the requests that it refuses.
use zeroio.Common.{
  ℕ, ◌≡◌, refl, sym, ◌∙◌, Option, none, some, List, [], ◌∷◌, ok, ◌>>=◌, arith, Bool-cases, inl, inr,
  map_err-eq-ok, >>=-eq-ok, ok-injective,
}
use zeroio.Protocol.Errors.{ProtocolResult, from_encode_error}
use zeroio.Protocol.External.{Buffers, Serde}
use zeroio.Protocol.Types.MessageType.{request, response, is_request, to_u8, is_request→eq}
use zeroio.Protocol.Types.StatusCode.{StatusCode}
use zeroio.Protocol.Types.Header
use zeroio.Protocol.Types.Header.{Header, Routing, RequestResponse, correlation}
use zeroio.Protocol.Message.{Message, client_id, message_type, header}
use zeroio.Protocol.Message.Raw
use zeroio.Protocol.Message.Raw.{RawMessage}
use zeroio.Protocol.Message.Response.{response_header, create_response}
use zeroio.Protocol.Parser.Validate.{validate_message_structure}

-- The header that answers a request with one route.
abbrev pub answer :
    {V : Type 0} → ℕ → Option StatusCode → RequestResponse → Routing → List Routing → Header V
answer id status q r rs = record Header.new {
  reqrep = some (record { req_type = correlation; id = q.id });
  routing = some ((record r { client_id = some id }) ∷ rs);
  status = status;
}

response_header_lem :
    {V : Type 0} (id : ℕ) (status : Option StatusCode) (h : Header V) (q : RequestResponse)
    (r : Routing) (rs : List Routing)
    → h.reqrep ≡ some q
    → h.routing ≡ some (r ∷ rs)
    → response_header id status h ≡ ok (answer id status q r rs)
unfolding response_header
response_header_lem id status h q r rs eq er = ground arith

module _ {V A T : Type 0} (serde_header : Serde (Header V)) (serde : Serde T) (bufs : Buffers)
    (m : Message V A) (sender : ℕ) (status : Option StatusCode) (payload : T) where
  -- A request whose header is read and has a correlation id and exactly one route, with a payload
  -- that is serialized, is answered by a response to the client that asked, with the same id and
  -- the given status, that passes the validation of responses.
  pub create_response_valid :
      (h : Header V) (q : RequestResponse) (r : Routing) (bytes : List ℕ)
      → message_type m ≡ request
      → (header serde_header bufs m).0 ≡ ok h
      → h.reqrep ≡ some q
      → h.routing ≡ some (r ∷ [])
      → serde.to_vec payload ≡ ok bytes
      → ((create_response serde_header serde bufs m sender status payload).0
          ≡ ok (record {
            message_type = response;
            client_id = sender;
            header = answer (client_id m) status q r [];
            payload_data = bytes;
          }))
        × (validate_message_structure {V = V} response (answer (client_id m) status q r []) ≡ ok tt)
  unfolding create_response Raw.new validate_message_structure to_u8
  create_response_valid h q r bytes t e eq er p =
      (ground (arith, response_header_lem (client_id m) status h q r [] eq er), refl)

  -- What a response that was created says of the request.
  pub record IsAnswered (raw : RawMessage V) : Type 0 where
    pub asked : message_type m ≡ request
    pub request_header : Header V
    pub header_read : (header serde_header bufs m).0 ≡ ok request_header
    pub correlation_id : RequestResponse
    pub first_route : Routing
    pub more_routes : List Routing
    pub has_reqrep : request_header.reqrep ≡ some correlation_id
    pub has_routing : request_header.routing ≡ some (first_route ∷ more_routes)
    pub is_response : raw.message_type ≡ response
    pub from_sender : raw.client_id ≡ sender
    pub answers : raw.header ≡ answer (client_id m) status correlation_id first_route more_routes
    pub payload_ok : serde.to_vec payload ≡ ok raw.payload_data

  header_inv :
      (h g : Header V)
      → response_header (client_id m) status h ≡ ok g
      → (q : RequestResponse) × (r : Routing) × (rs : List Routing) × (h.reqrep ≡ some q)
        × (h.routing ≡ some (r ∷ rs))
        × (g ≡ answer (client_id m) status q r rs)
  unfolding response_header
  header_inv h g e = by_fields h.reqrep h.routing refl refl
    where
      by_fields :
          (oq : Option RequestResponse) (or : Option (List Routing))
          → h.reqrep ≡ oq
          → h.routing ≡ or
          → (q : RequestResponse) × (r : Routing) × (rs : List Routing) × (h.reqrep ≡ some q)
            × (h.routing ≡ some (r ∷ rs))
            × (g ≡ answer (client_id m) status q r rs)
      by_fields none or eq er = ground arith
      by_fields (some q) none eq er = ground arith
      by_fields (some q) (some []) eq er = ground arith
      by_fields (some q) (some (r ∷ rs)) eq er = (
        q,
        r,
        rs,
        eq,
        er,
        ok-injective (sym e ∙ response_header_lem (client_id m) status h q r rs eq er),
      )

  created_inv :
      (result : ProtocolResult (Header V)) (raw : RawMessage V)
      → (result >>= λ h.
          response_header (client_id m) status h >>= λ g. Raw.new serde response sender g payload)
        ≡ ok raw
      → (h : Header V) × (g : Header V) × (result ≡ ok h)
        × (response_header (client_id m) status h ≡ ok g)
        × (Raw.new serde response sender g payload ≡ ok raw)
  created_inv result raw e =
      let (h, p, e1) = >>=-eq-ok result _ e in
      let (g, q, e2) = >>=-eq-ok (response_header (client_id m) status h) _ e1 in (h, g, p, q, e2)

  new_inv :
      (g : Header V) (raw : RawMessage V)
      → Raw.new serde response sender g payload ≡ ok raw
      → (raw.message_type ≡ response)
        × (raw.client_id ≡ sender)
        × (raw.header ≡ g)
        × (serde.to_vec payload ≡ ok raw.payload_data)
  unfolding Raw.new
  new_inv g raw e =
      let (bytes, p, q) = >>=-eq-ok (from_encode_error (serde.to_vec payload)) _ e in
      let r : serde.to_vec payload ≡ ok bytes = map_err-eq-ok _ (serde.to_vec payload) bytes p in
      (cc q, cc q, cc q, cc (q, r))

  from_request :
      (raw : RawMessage V)
      → (create_response serde_header serde bufs m sender status payload).0 ≡ ok raw
      → (message_type m ≡ request)
        × (((header serde_header bufs m).0 >>= λ h. response_header (client_id m) status h >>= λ g.
              Raw.new serde response sender g payload)
            ≡ ok raw)
  unfolding create_response
  from_request raw e = elim (Bool-cases (is_request (message_type m))) [
    | inl asked ↦ (is_request→eq (message_type m) asked, rw asked at e)
    | inr other ↦ cc (rw other at e)
  ]

  -- A response is created only for a request whose header is read and has a correlation id and a
  -- route, and for a payload that is serialized; it carries the id, the status and the payload,
  -- goes back to the client that asked by the first route, and keeps the other routes.
  pub create_response_sound :
      (raw : RawMessage V)
      → (create_response serde_header serde bufs m sender status payload).0 ≡ ok raw
      → IsAnswered raw
  create_response_sound raw e =
      let (asked, e1) = from_request raw e in
      let (h, g, p, e2, e3) = created_inv (header serde_header bufs m).0 raw e1 in
      let (q, r, rs, a, b, c) = header_inv h g e2 in
      let (t, i, d, y) = new_inv g raw e3 in
      record {
        asked = asked;
        request_header = h;
        header_read = p;
        correlation_id = q;
        first_route = r;
        more_routes = rs;
        has_reqrep = a;
        has_routing = b;
        is_response = t;
        from_sender = i;
        answers = d ∙ c;
        payload_ok = y;
      }
