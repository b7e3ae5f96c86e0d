-- ===== src/Protocol/Types/BaseHeader.antt =====
-- `BaseHeader` of crates/protocol/src/types.rs, and the 34 bytes that `RawMessage::to_bytes` writes
-- for it.
use zeroio.Common.{
  ℕ, ◌+◌, ◌≡◌, Bool, ◌&&◌, List, ◌∷◌, ◌++◌, leb, length, replicate, length-append, arith,
}
use zeroio.Common.Words.{IsU32, IsU64, as_u32, as_u64, to_be_u32, to_be_u64}
use zeroio.Protocol.Constants.{protocol_version, base_header_size, reserved_size}
use zeroio.Protocol.Types.MessageType.{MessageType, to_u8}

pub record BaseHeader : Type 0 where
  pub version : ℕ
  pub message_type : MessageType
  pub client_id : ℕ
  pub reserved : List ℕ
  pub header_length : ℕ
  pub payload_length : ℕ

unfoldable pub new : MessageType → ℕ → ℕ → ℕ → BaseHeader
new t id hl pl = record {
  version = protocol_version;
  message_type = t;
  client_id = id;
  reserved = replicate 16 0;
  header_length = hl;
  payload_length = pl;
}

-- A sum of u64s, which wraps around in a release build. `BASE_HEADER_SIZE + header_length` cannot.
unfoldable pub total_message_size : BaseHeader → ℕ
total_message_size h = as_u64 (base_header_size + h.header_length + h.payload_length)

unfoldable pub is_size_valid : BaseHeader → ℕ → ℕ → Bool
unfolding total_message_size
is_size_valid h max_message_size max_header_size =
    leb (total_message_size h) max_message_size && leb h.header_length (as_u32 max_header_size)

-- The values that the types of the fields allow, at the version that the parser accepts.
pub record IsValid (h : BaseHeader) : Type 0 where
  pub version_ok : h.version ≡ protocol_version
  pub client_id_ok : IsU32 h.client_id
  pub reserved_ok : length h.reserved ≡ reserved_size
  pub header_length_ok : IsU32 h.header_length
  pub payload_length_ok : IsU64 h.payload_length

-- The sizes that a header announces add up to a u64.
abbrev pub NoOverflow : BaseHeader → Type 0
NoOverflow h = IsU64 (base_header_size + h.header_length + h.payload_length)

unfoldable pub encode : BaseHeader → List ℕ
encode h =
    h.version ∷ to_u8 h.message_type ∷ to_be_u32 h.client_id
    ++ (h.reserved ++ (to_be_u32 h.header_length ++ to_be_u64 h.payload_length))

pub length-encode : (h : BaseHeader) → length h.reserved ≡ 16 → length (encode h) ≡ 34
unfolding encode
length-encode h e = omega (
  arith,
  e,
  length-append {0} h.reserved (to_be_u32 h.header_length ++ to_be_u64 h.payload_length),
)

pub total_of_NoOverflow :
    (h : BaseHeader)
    → NoOverflow h
    → total_message_size h ≡ base_header_size + h.header_length + h.payload_length
unfolding total_message_size
total_of_NoOverflow h ok = omega arith
