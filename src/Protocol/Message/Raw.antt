-- ===== src/Protocol/Message/Raw.antt =====
-- `RawMessage` of crates/protocol/src/message.rs.
pub mod ToBytes
pub mod RoundTrip
use zeroio.Common.{
  ℕ, ◌+◌, Bool, List, [], ◌∷◌, ◌++◌, Result, ok, err, panic, ◌>>=◌, ltb, if◌then◌else◌, length,
}
use zeroio.Common.Words.{as_u32, as_u64, to_be_u32, to_be_u64}
use zeroio.Protocol.Constants.{base_header_size, default_max_header_size, default_max_message_size}
use zeroio.Protocol.Errors.{
  ProtocolError, ProtocolResult, header_too_large, message_too_large, from_encode_error,
}
use zeroio.Protocol.External.{Nom, Serde}
use zeroio.Protocol.Types.MessageType.{MessageType}
use zeroio.Protocol.Types.Header.{Header, is_default}
use zeroio.Protocol.Types.BaseHeader
use zeroio.Protocol.Types.BaseHeader.{BaseHeader, encode}
use zeroio.Protocol.Message.{Message, from_bytes}

pub record RawMessage (V : Type 0) : Type 0 where
  pub message_type : MessageType
  pub client_id : ℕ
  pub header : Header V
  pub payload_data : List ℕ

module _ {V : Type 0} where
  unfoldable pub new :
      {T : Type 0} → Serde T → MessageType → ℕ → Header V → T → ProtocolResult (RawMessage V)
  new serde t id h payload = do
    payload_data ← from_encode_error (serde.to_vec payload)
    ok (record { message_type = t; client_id = id; header = h; payload_data = payload_data })

  unfoldable pub header_bytes : Serde (Header V) → RawMessage V → ProtocolResult (List ℕ)
  header_bytes serde m =
      if is_default m.header then ok [] else from_encode_error (serde.to_vec m.header)

  -- `to_bytes` from the point where the header is serialized. `BaseHeader.encode` is what the code
  -- pushes for the base header.
  unfoldable pub assemble : RawMessage V → List ℕ → ProtocolResult (List ℕ)
  unfolding BaseHeader.new
  assemble m header_bytes =
      let header_length = as_u32 (length header_bytes) in
      let payload_length = as_u64 (length m.payload_data) in
      let total_size = as_u64 (base_header_size + header_length + payload_length) in
      if ltb (as_u32 default_max_header_size) header_length
      then err (header_too_large header_length default_max_header_size)
      else if ltb default_max_message_size total_size
      then err (message_too_large total_size default_max_message_size)
      else ok (
          encode (BaseHeader.new m.message_type m.client_id header_length payload_length)
          ++ (header_bytes ++ m.payload_data))

  unfoldable pub to_bytes : Serde (Header V) → RawMessage V → ProtocolResult (List ℕ)
  unfolding header_bytes assemble
  to_bytes serde m = header_bytes serde m >>= assemble m

  unfoldable pub into_message :
      {A E : Type 0} → Nom E → Serde (Header V) → RawMessage V → ProtocolResult (Message V A)
  into_message nom serde m = to_bytes serde m >>= from_bytes nom
