-- ===== src/Examples/Data.antt =====
-- The concrete values of the examples: a request with a header of two bytes and a payload of three,
-- the serializers that go with it, and a parser with small limits.
use zeroio.Common.{
  ℕ, ◌<◌, String, Option, none, some, List, [], ◌∷◌, ok, length, replicate, refl, arith,
  ok-injective, subst,
}
use zeroio.Protocol.External.{Serde, Castable}
use zeroio.Protocol.Types.MessageType.{request}
use zeroio.Protocol.Types.Header
use zeroio.Protocol.Types.Header.{Header, Routing}
use zeroio.Protocol.Types.BaseHeader.{BaseHeader, IsValid, total_message_size}
use zeroio.Protocol.Message.{Message, fresh}
use zeroio.Protocol.Message.Bytes.{IsFrame, frame_bytes}
use zeroio.Protocol.Message.Raw.{RawMessage}
use zeroio.Protocol.Message.Raw.RoundTrip.{ReadsBack}
use zeroio.Protocol.Message.Raw.ToBytes.{Fits}
use zeroio.Protocol.Parser.Stream
use zeroio.Protocol.Parser.Stream.{MessageParser}
use zeroio.Protocol.Parser.Stream.Extract.{IsWithin}

-- A cached value of one of two types.
pub data Boxed : Type 0 where
  text : String → Boxed
  number : ℕ → Boxed

abbrev pub as_text : Boxed → Option String
as_text (text s) = some s
as_text (number n) = none

abbrev pub as_number : Boxed → Option ℕ
as_number (text s) = none
as_number (number n) = some n

abbrev pub texts : Castable Boxed String
texts = record { upcast = text; downcast_ref = as_text; downcast-upcast = λ t. refl }

abbrev pub numbers : Castable Boxed ℕ
numbers = record { upcast = number; downcast_ref = as_number; downcast-upcast = λ t. refl }

abbrev pub base : BaseHeader
base = record {
  version = 1;
  message_type = request;
  client_id = 7;
  reserved = replicate 16 0;
  header_length = 2;
  payload_length = 3;
}

pub base-IsValid : IsValid base
base-IsValid = record {
  version_ok = refl;
  client_id_ok = omega arith;
  reserved_ok = refl;
  header_length_ok = omega arith;
  payload_length_ok = omega arith;
}

abbrev pub header_part : List ℕ
header_part = 1 ∷ 2 ∷ []

abbrev pub payload_part : List ℕ
payload_part = 3 ∷ 4 ∷ 5 ∷ []

pub base-IsFrame : IsFrame base header_part payload_part
base-IsFrame = record {
  base_ok = base-IsValid;
  no_overflow = omega arith;
  header_bytes_ok = refl;
  payload_bytes_ok = refl;
}

abbrev pub route : Routing
route = record { client_name = "store"; path = "/items"; client_id = some 3 }

abbrev pub sample_header : Header ℕ
sample_header = Header.with_reqrep (Header.with_routing Header.new (route ∷ [])) (Header.req "r1")

-- A serializer for the one header, and for any one value.
abbrev pub serde_of : {T : Type 0} → T → List ℕ → Serde T
serde_of t bytes = record { to_vec = λ x. ok bytes; from_slice = λ bs. ok t }

abbrev pub header_serde : Serde (Header ℕ)
header_serde = serde_of sample_header header_part

pub header_serde-ReadsBack : ReadsBack header_serde sample_header
header_serde-ReadsBack = record {
  reads_back = λ bs e. refl;
  not_empty = λ bs e. subst (λ t. 0 < length t) (ok-injective e) (omega arith);
}

abbrev pub raw : RawMessage ℕ
raw = record {
  message_type = request;
  client_id = 7;
  header = sample_header;
  payload_data = payload_part;
}

pub raw-Fits : Fits raw header_part
raw-Fits = record { client_ok = omega arith; header_fits = omega arith; size_fits = omega arith }

abbrev pub message : Message ℕ Boxed
message = fresh base (frame_bytes base header_part payload_part)

abbrev pub parser : MessageParser
parser = Stream.with_limits 100 50

abbrev pub holding : List ℕ → MessageParser
holding bytes = record parser { buffer = bytes }

pub base-IsWithin : (bytes : List ℕ) → IsWithin (holding bytes) base
unfolding total_message_size
base-IsWithin bytes = record { header_within = omega arith; message_within = omega arith }
