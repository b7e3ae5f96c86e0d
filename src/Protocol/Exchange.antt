-- ===== src/Protocol/Exchange.antt =====
-- A request and its answer, from one program to another and back: the builder, the codecs, messages and
-- `create_response` together (builder.rs, codec.rs and message.rs of crates/protocol/src).
use zeroio.Common.{ℕ, ◌≡◌, ◌≤◌, refl, subst, ◌∙◌, ap, Option, some, List, [], ◌∷◌, ok}
use zeroio.Protocol.External.{Nom, Buffers, Serde, Castable}
use zeroio.Protocol.Types.MessageType.{request, response}
use zeroio.Protocol.Types.StatusCode.{StatusCode}
use zeroio.Protocol.Types.Header.{Header, Routing, RequestResponse}
use zeroio.Protocol.Types.BaseHeader
use zeroio.Protocol.Message.{Cached, message_type, header}
use zeroio.Protocol.Message.Bytes.{raw_payload_bytes-frame}
use zeroio.Protocol.Message.Raw.{RawMessage, header_bytes}
use zeroio.Protocol.Message.Raw.ToBytes.{wire_size, Fits, sent_base-IsFrame}
use zeroio.Protocol.Message.Raw.RoundTrip.{ReadsBack, received, header-received}
use zeroio.Protocol.Message.Response.{create_response}
use zeroio.Protocol.Message.Response.Valid.{answer, create_response_valid}
use zeroio.Protocol.Message.Typed.{payload_as, decode_typed}
use zeroio.Protocol.Message.Typed.Cache.{first_reading}
use zeroio.Protocol.Codec.{MessageCodec, decode, encode_raw}
use zeroio.Protocol.Codec.RoundTrip.{IsEmptyAndFits, encode_decode}
use zeroio.Protocol.Builder.{MessageBuilder, build_with_payload}
use zeroio.Protocol.Builder.Valid.{build_with_payload_iff}

-- A message passes from a codec to another one, and its header is read back. For a route, `rmp_serde`
-- does the latter if the route has its client id.
pub record Crosses {V : Type 0} (serde : Serde (Header V)) (from to : MessageCodec)
    (m : RawMessage V) (hb : List ℕ) : Type 0 where
  pub serialized : header_bytes serde m ≡ ok hb
  pub fits : Fits m hb
  pub frame_room : wire_size m hb ≤ from.max_frame_size
  pub room : IsEmptyAndFits to m hb
  pub header_law : ReadsBack serde m.header

-- The answer to a message of this client.
abbrev pub reply :
    {V : Type 0} → ℕ → Option StatusCode → RequestResponse → Routing → ℕ → List ℕ → RawMessage V
reply asker status q r sender bytes = record {
  message_type = response;
  client_id = sender;
  header = answer asker status q r [];
  payload_data = bytes;
}

module _ {V : Type 0} (A : Type 0) (serde : Serde (Header V)) (bufs : Buffers) where
  payload-received :
      {T : Type 0} (cast : Castable A T) (serde_t : Serde T) (m : RawMessage V) (hb : List ℕ)
      (t : T)
      → Fits m hb
      → serde_t.from_slice m.payload_data ≡ ok t
      → (payload_as cast serde_t bufs (received A serde bufs m hb)).0 ≡ ok t
  payload-received cast serde_t m hb t fits reads =
      ap (λ (r : Cached V A _). r.0)
        (first_reading bufs (received A serde bufs m hb) cast serde_t t refl decoded)
    where
      decoded : decode_typed cast serde_t bufs (received A serde bufs m hb) ≡ ok t
      decoded = rw (raw_payload_bytes-frame V A bufs (sent_base-IsFrame m hb fits), reads)

  module _ {E T U : Type 0} (nom : Nom E) (cast_t : Castable A T) (cast_u : Castable A U)
      (serde_t : Serde T) (serde_u : Serde U) (client server : MessageCodec) where
    -- Let a request be built, with a correlation id and one route, by a client, let its payload be
    -- read back, and let an answer be serialized and read back. Let the headers of the request and of
    -- its response be read back as they were written, too. If both messages are within the protocol's
    -- limits and those of the codecs of the client and a server, whose buffers are empty, then the server's codec gives the request, its payload is read
    -- as it was asked, and `create_response` makes the response; the client's codec gives that
    -- response, whose header has the id of the request, the status and the route back to the client
    -- that asked, and whose payload is read as the answer.
    pub request_answered :
        (b : MessageBuilder V) (question : T) (value : U) (raw : RawMessage V)
        (hb hb' bytes : List ℕ) (q : RequestResponse) (r : Routing) (status : Option StatusCode)
        (sender : ℕ)
        → b.message_type ≡ request
        → b.header.reqrep ≡ some q
        → b.header.routing ≡ some (r ∷ [])
        → build_with_payload serde_t b question ≡ ok raw
        → ReadsBack serde_t question
        → Crosses serde client server raw hb
        → serde_u.to_vec value ≡ ok bytes
        → ReadsBack serde_u value
        → Crosses serde server client (reply b.client_id status q r sender bytes) hb'
        → let asked = received A serde bufs raw hb in
          let response_raw = reply b.client_id status q r sender bytes in
          let back = received A serde bufs response_raw hb' in
          (decode nom bufs server (encode_raw serde bufs client raw []).1
            ≡ (ok (some asked), server, []))
          × ((payload_as cast_t serde_t bufs asked).0 ≡ ok question)
          × ((create_response serde serde_u bufs asked sender status value).0 ≡ ok response_raw)
          × (decode nom bufs client (encode_raw serde bufs server response_raw []).1
              ≡ (ok (some back), client, []))
          × (message_type back ≡ response)
          × ((header serde bufs back).0 ≡ ok (answer b.client_id status q r []))
          × ((payload_as cast_u serde_u bufs back).0 ≡ ok value)
    unfolding BaseHeader.new
    request_answered b question value raw hb hb' bytes q r status sender t eq er built law there
          wrote law' back =
        let made = (build_with_payload_iff serde_t b question raw).0 built in
        (
          encode_decode A nom serde bufs client server raw hb there.serialized there.fits
              there.frame_room there.room,
          payload-received cast_t serde_t raw hb question there.fits
              (law.reads_back _ made.payload_ok),
          subst
              (λ id.
                (create_response serde serde_u bufs (received A serde bufs raw hb) sender status
                  value).0
                ≡ ok (reply id status q r sender bytes))
              made.same_client
              (create_response_valid serde serde_u bufs (received A serde bufs raw hb) sender status
                value raw.header q r bytes (made.same_type ∙ t)
                (header-received A serde bufs raw hb there.header_law there.serialized there.fits)
                (ap (λ h. h.reqrep) made.same_header ∙ eq)
                (ap (λ h. h.routing) made.same_header ∙ er) wrote).0,
          encode_decode A nom serde bufs server client (reply b.client_id status q r sender bytes)
              hb' back.serialized back.fits back.frame_room back.room,
          refl,
          header-received A serde bufs (reply b.client_id status q r sender bytes) hb'
              back.header_law back.serialized back.fits,
          payload-received cast_u serde_u (reply b.client_id status q r sender bytes) hb' value
              back.fits (law'.reads_back bytes wrote),
        )
