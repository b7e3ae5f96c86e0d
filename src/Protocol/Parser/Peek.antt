-- ===== src/Protocol/Parser/Peek.antt =====
-- `peek_message_info` of crates/protocol/src/parser.rs.
pub mod Agrees
use zeroio.Common.{
  ℕ, Bool, Option, none, some, List, [], ◌∷◌, Result, ok, err, ltb, ◌==◌, if◌then◌else◌, length,
}
use zeroio.Common.Words.{from_be}
use zeroio.Protocol.Constants.{base_header_size, protocol_version}
use zeroio.Protocol.Errors.{
  ProtocolError, ProtocolResult, incomplete_data, invalid_version, unknown_message_type,
}
use zeroio.Protocol.Types.MessageType.{MessageType, from_u8}

-- The reads of `bytes[0]` to `bytes[5]`, which the length check makes safe.
unfoldable pub peek_bytes : List ℕ → ProtocolResult (MessageType × ℕ)
peek_bytes (b0 ∷ b1 ∷ b2 ∷ b3 ∷ b4 ∷ b5 ∷ rest) =
    if b0 == protocol_version
    then elim (from_u8 b1) [
      | none ↦ err (unknown_message_type b1)
      | some t ↦ ok (t, from_be (b2 ∷ b3 ∷ b4 ∷ b5 ∷ []))
    ]
    else err (invalid_version protocol_version b0)
peek_bytes _ = Result.panic

unfoldable pub peek_message_info : List ℕ → ProtocolResult (MessageType × ℕ)
unfolding peek_bytes
peek_message_info bytes =
    if ltb (length bytes) base_header_size
    then err (incomplete_data base_header_size (length bytes))
    else peek_bytes bytes
