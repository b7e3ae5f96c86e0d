-- ===== src/Protocol/Errors.antt =====
-- crates/protocol/src/errors.rs. A text made by `format!` is kept as the list of its pieces.
use zeroio.Common.{ℕ, String, List, Result, map_err}

pub data Piece : Type 0 where
  lit : String → Piece
  num : ℕ → Piece

abbrev pub Text : Type 0
Text = List Piece

pub data ProtocolError : Type 0 where
  invalid_version : ℕ → ℕ → ProtocolError
  unknown_message_type : ℕ → ProtocolError
  invalid_format : Text → ProtocolError
  message_too_large : ℕ → ℕ → ProtocolError
  header_too_large : ℕ → ℕ → ProtocolError
  invalid_client_id : ℕ → ProtocolError
  missing_required_field : String → String → ProtocolError
  forbidden_field : String → String → ProtocolError
  message_pack_serialization : String → ProtocolError
  message_pack_deserialization : String → ProtocolError
  incomplete_data : ℕ → ℕ → ProtocolError
  parse_error : Text → ProtocolError
  invalid_routing : Text → ProtocolError
  invalid_auth : Text → ProtocolError
  buffer_overflow : ProtocolError
  io : String → ProtocolError

abbrev pub ProtocolResult : Type 0 → Type 0
ProtocolResult A = Result ProtocolError A

-- `?` on what rmp_serde returns; its error is known by its text.
abbrev pub from_encode_error : {A : Type 0} → Result String A → ProtocolResult A
from_encode_error = map_err message_pack_serialization

abbrev pub from_decode_error : {A : Type 0} → Result String A → ProtocolResult A
from_decode_error = map_err message_pack_deserialization
