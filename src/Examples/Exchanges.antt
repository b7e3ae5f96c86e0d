-- ===== src/Examples/Exchanges.antt =====
-- A request and its answer at a concrete input: the question is a text, the answer a number.
use zeroio.Common.{
  ℕ, ◌≡◌, ◌<◌, refl, sym, ◌∙◌, String, Option, none, some, List, [], ◌∷◌, ok, length, arith, subst,
  ok-injective,
}
use zeroio.Protocol.External.{Serde}
use zeroio.Protocol.External.Reference.{nom, buffers}
use zeroio.Protocol.Types.MessageType.{request, response}
use zeroio.Protocol.Types.StatusCode.{StatusCode}
use zeroio.Protocol.Types.Header
use zeroio.Protocol.Types.Header.{Header}
use zeroio.Protocol.Message.{message_type, header}
use zeroio.Protocol.Message.Raw
use zeroio.Protocol.Message.Raw.{RawMessage, header_bytes}
use zeroio.Protocol.Message.Raw.RoundTrip.{ReadsBack, received}
use zeroio.Protocol.Message.Response.{create_response}
use zeroio.Protocol.Message.Typed.{payload_as}
use zeroio.Protocol.Codec.{MessageCodec, codec_with_limits, decode, encode_raw}
use zeroio.Protocol.Builder.{MessageBuilder, build_with_payload}
use zeroio.Protocol.Parser.Validate.{validate_message_structure}
use zeroio.Protocol.Exchange.{Crosses, reply, request_answered}
use zeroio.Examples.Data.{
  Boxed, texts, numbers, header_part, payload_part, route, sample_header, serde_of,
}

abbrev builder : MessageBuilder ℕ
builder = record { message_type = request; client_id = 7; header = sample_header }

abbrev asked : RawMessage ℕ
asked = record {
  message_type = request;
  client_id = 7;
  header = sample_header;
  payload_data = payload_part;
}

abbrev ok_status : StatusCode
ok_status = record { code = 200 }

abbrev answered : RawMessage ℕ
answered = reply 7 (some ok_status) (Header.req "r1") route 9 (42 ∷ [])

-- A serializer for the two headers: only the second one has a status.
abbrev bytes_of : Option StatusCode → List ℕ
bytes_of none = header_part
bytes_of (some s) = 2 ∷ 0 ∷ 0 ∷ []

abbrev header_of : List ℕ → Header ℕ
header_of (x ∷ y ∷ []) = sample_header
header_of bytes = answered.header

abbrev two_headers : Serde (Header ℕ)
two_headers = record {
  to_vec = λ h. ok (bytes_of h.status);
  from_slice = λ bytes. ok (header_of bytes);
}

ReadsBack-of :
    {T : Type 0} (serde : Serde T) (t : T) (b : ℕ) (bytes : List ℕ)
    → serde.to_vec t ≡ ok (b ∷ bytes)
    → serde.from_slice (b ∷ bytes) ≡ ok t
    → ReadsBack serde t
ReadsBack-of serde t b bytes wrote reads = record {
  reads_back = λ bs e. subst (λ l. serde.from_slice l ≡ ok t) (ok-injective (sym wrote ∙ e)) reads;
  not_empty = λ bs e. subst (λ l. 0 < length l) (ok-injective (sym wrote ∙ e)) (omega arith);
}

abbrev text_serde : Serde String
text_serde = serde_of "how many?" payload_part

abbrev number_serde : Serde ℕ
number_serde = serde_of 5 (42 ∷ [])

abbrev small_codec : MessageCodec
small_codec = codec_with_limits 100 50

question-Crosses : Crosses two_headers small_codec small_codec asked header_part
unfolding header_bytes
question-Crosses = record {
  serialized = refl;
  fits = record { client_ok = omega arith; header_fits = omega arith; size_fits = omega arith };
  frame_room = omega arith;
  room = record {
    buffer_empty = refl;
    header_room = omega arith;
    message_room = omega arith;
    frame_room = omega arith;
  };
  header_law = ReadsBack-of two_headers sample_header 1 (2 ∷ []) refl refl;
}

answer-Crosses : Crosses two_headers small_codec small_codec answered (2 ∷ 0 ∷ 0 ∷ [])
unfolding header_bytes
answer-Crosses = record {
  serialized = refl;
  fits = record { client_ok = omega arith; header_fits = omega arith; size_fits = omega arith };
  frame_room = omega arith;
  room = record {
    buffer_empty = refl;
    header_room = omega arith;
    message_room = omega arith;
    frame_room = omega arith;
  };
  header_law = ReadsBack-of two_headers answered.header 2 (0 ∷ 0 ∷ []) refl refl;
}

built : build_with_payload text_serde builder "how many?" ≡ ok asked
unfolding build_with_payload validate_message_structure Raw.new
built = refl

request_answered_example :
    let arrived = received Boxed two_headers buffers asked header_part in
    let back = received Boxed two_headers buffers answered (2 ∷ 0 ∷ 0 ∷ []) in
    (decode nom buffers small_codec (encode_raw two_headers buffers small_codec asked []).1
      ≡ (ok (some arrived), small_codec, []))
    × ((payload_as texts text_serde buffers arrived).0 ≡ ok "how many?")
    × ((create_response two_headers number_serde buffers arrived 9 (some ok_status) 5).0
        ≡ ok answered)
    × (decode nom buffers small_codec (encode_raw two_headers buffers small_codec answered []).1
        ≡ (ok (some back), small_codec, []))
    × (message_type back ≡ response)
    × ((header two_headers buffers back).0 ≡ ok answered.header)
    × ((payload_as numbers number_serde buffers back).0 ≡ ok 5)
request_answered_example =
    request_answered Boxed two_headers buffers nom texts numbers text_serde number_serde small_codec
      small_codec builder "how many?" 5 asked header_part (2 ∷ 0 ∷ 0 ∷ []) (42 ∷ [])
      (Header.req "r1") route (some ok_status) 9 refl refl refl built
      (ReadsBack-of text_serde "how many?" 3 (4 ∷ 5 ∷ []) refl refl) question-Crosses refl
      (ReadsBack-of number_serde 5 42 [] refl refl) answer-Crosses
