-- ===== src/Examples/Messages.antt =====
-- Messages, their caches, the builders and the responses at concrete inputs.
use zeroio.Common.{
  ◌>>=◌, panic-ne-ok, sym, ◌∙◌, ℕ, ◌≡◌, ◌↔◌, refl, none, List, [], ◌∷◌, ◌++◌, map, ok, err, panic,
  arith,
}
use zeroio.Protocol.Errors.{missing_required_field, forbidden_field}
use zeroio.Protocol.External.{Serde}
use zeroio.Protocol.External.Reference.{nom, buffers}
use zeroio.Protocol.Types.MessageType.{request, response, join}
use zeroio.Protocol.Types.Header
use zeroio.Protocol.Types.BaseHeader
use zeroio.Protocol.Types.BaseHeader.{BaseHeader, IsValid, total_message_size, encode}
use zeroio.Protocol.Message.{
  init_header, raw_header_bytes, Message, from_bytes, fresh, header, raw_payload_bytes,
  message_type, raw_bytes,
}
use zeroio.Protocol.Message.Overflow.{IsHostile, hostile_header_panics}
use zeroio.Protocol.Message.Raw.{RawMessage, header_bytes}
use zeroio.Protocol.Message.Raw.RoundTrip.{received, header-received}
use zeroio.Protocol.Message.Typed.{payload_as, decode_typed, TypedMessage}
use zeroio.Protocol.Message.Typed.Cache.{other_type_panics}
use zeroio.Protocol.Message.Typed.Accesses.{
  Access, reads_header, reads_payload, reads_typed, clears, access, accesses, accesses_as_fresh,
}
use zeroio.Protocol.Message.Response.{create_response}
use zeroio.Protocol.Message.Response.Valid.{
  answer, create_response_valid, create_response_sound, IsAnswered,
}
use zeroio.Protocol.Builder.{MessageBuilder, build, build_with_payload}
use zeroio.Protocol.Builder.Kinds
use zeroio.Protocol.Builder.Valid.{IsBuilt, build_with_payload_iff, builders_refused}
use zeroio.Examples.Data.{
  Boxed, texts, numbers, base, header_part, payload_part, route, sample_header, serde_of,
  header_serde, header_serde-ReadsBack, raw, raw-Fits, message,
}

serialized : header_bytes header_serde raw ≡ ok header_part
unfolding header_bytes
serialized = refl

abbrev arrived : Message ℕ Boxed
arrived = received Boxed header_serde buffers raw header_part

read_text : decode_typed texts (serde_of "five" []) buffers message ≡ ok "five"
unfolding raw_payload_bytes encode
read_text = refl

read_number : decode_typed numbers (serde_of 5 []) buffers message ≡ ok 5
unfolding raw_payload_bytes encode
read_number = refl

other_type_panics_example :
    ((payload_as texts (serde_of "five" []) buffers message).0 ≡ ok "five")
    × ((payload_as numbers
          (serde_of 5 [])
          buffers
          (payload_as texts (serde_of "five" []) buffers message).1).0
        ≡ panic)
other_type_panics_example =
    other_type_panics buffers message texts numbers (serde_of "five" []) (serde_of 5 []) "five" 5
      refl read_text read_number refl

abbrev bundle : TypedMessage ℕ ℕ
bundle = record { base_header = base; header = sample_header; payload = 5 }

abbrev calls : List Access
calls =
    reads_typed ∷ reads_header ∷ reads_typed ∷ clears ∷ reads_payload ∷ reads_header ∷ reads_typed
    ∷ []

accesses_as_fresh_example :
    accesses texts header_serde
      (serde_of 5 [])
      0
      (serde_of "five" [])
      buffers
      calls
      (fresh base (raw_bytes message))
    ≡ map
        (λ a.
          (access texts header_serde
            (serde_of 5 [])
            0
            (serde_of "five" [])
            buffers
            a
            (fresh base (raw_bytes message))).0)
        calls
accesses_as_fresh_example =
    accesses_as_fresh texts header_serde (serde_of 5 []) 0 (serde_of "five" []) buffers base
      (raw_bytes message) calls

-- A payload length of 2^64 - 5 with a header of 10 bytes: the sum wraps around to 39.
abbrev wrapping : BaseHeader
wrapping = record base { header_length = 10; payload_length = 18446744073709551611 }

wrapping-IsHostile : IsHostile wrapping (0 ∷ 0 ∷ 0 ∷ 0 ∷ 0 ∷ [])
unfolding total_message_size
wrapping-IsHostile = record {
  base_ok = record {
    version_ok = refl;
    client_id_ok = omega arith;
    reserved_ok = refl;
    header_length_ok = omega arith;
    payload_length_ok = omega arith;
  };
  wraps = refl;
  cut_short = omega arith;
}

abbrev hostile_bytes : List ℕ
hostile_bytes = encode wrapping ++ (0 ∷ 0 ∷ 0 ∷ 0 ∷ 0 ∷ [])

hostile_header_panics_example :
    (from_bytes {V = ℕ} {A = Boxed} nom hostile_bytes ≡ ok (fresh wrapping hostile_bytes))
    × (header {A = Boxed} header_serde buffers (fresh wrapping hostile_bytes)
        ≡ (panic, fresh wrapping hostile_bytes))
hostile_header_panics_example =
    hostile_header_panics ℕ Boxed nom buffers wrapping-IsHostile header_serde

abbrev five : ℕ
five = 5

abbrev five_serde : Serde ℕ
five_serde = serde_of five payload_part

abbrev nil : ℕ
nil = 0

abbrev nil_serde : Serde ℕ
nil_serde = serde_of nil (192 ∷ [])

abbrev joining : MessageBuilder ℕ
joining = Kinds.join 0 "store"

abbrev join_raw : RawMessage ℕ
join_raw = record {
  message_type = join;
  client_id = 0;
  header = Header.with_client_name Header.new "store";
  payload_data = payload_part;
}

build_with_payload_iff_example :
    (build_with_payload five_serde joining five ≡ ok join_raw)
    ↔ IsBuilt five_serde joining five join_raw
build_with_payload_iff_example = build_with_payload_iff five_serde joining five join_raw

header_of_message : (header header_serde buffers arrived).0 ≡ ok sample_header
header_of_message =
    header-received Boxed header_serde buffers raw header_part header_serde-ReadsBack serialized
      raw-Fits

abbrev answered : RawMessage ℕ
answered = record {
  message_type = response;
  client_id = 9;
  header = answer 7 none (Header.req "r1") route [];
  payload_data = payload_part;
}

is_request-arrived : message_type arrived ≡ request
unfolding BaseHeader.new
is_request-arrived = refl

response_to_arrived :
    ((create_response header_serde five_serde buffers arrived 9 none five).0 ≡ ok answered)
unfolding BaseHeader.new
response_to_arrived =
    (create_response_valid header_serde five_serde buffers arrived 9 none five sample_header
      (Header.req "r1") route payload_part is_request-arrived header_of_message refl refl refl).0

create_response_sound_example :
    IsAnswered header_serde five_serde buffers arrived 9 none five answered
create_response_sound_example =
    create_response_sound header_serde five_serde buffers arrived 9 none five answered
      response_to_arrived

read_header : (header header_serde buffers message).0 ≡ ok sample_header
unfolding header init_header raw_header_bytes encode
read_header = refl

builders_refused_example :
    (build nil_serde nil (Kinds.simple_broadcast 7 "news") ≡ err (forbidden_field "topic" "BCAST"))
    × ((Kinds.response_from_request header_serde buffers 9 message none).0 >>= build nil_serde nil
        ≡ err (missing_required_field "routing" "REP"))
builders_refused_example =
    builders_refused nil_serde nil header_serde buffers 7 "news" 9 message none
      (λ e. panic-ne-ok (sym e ∙ read_header))
