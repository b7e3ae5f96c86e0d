-- ===== src/Protocol/Message.antt =====
-- `Message` of crates/protocol/src/message.rs. A method that fills a cache through `&self` returns
-- the message with its new caches beside its result. `V` is `rmpv::Value`, and `A` the type
-- `dyn Any` of the cached typed payload.
pub mod Raw
pub mod Typed
pub mod Response
pub mod Bytes
pub mod Overflow
use zeroio.Common.{
  ℕ, zero, suc, ◌+◌, ◌≡◌, Bool, true, false, not, Option, none, some, List, [], ◌∷◌, Result, ok,
  err, panic, ◌>>=◌, map_ok, or_panic, ltb, ◌==◌, if◌then◌else◌, length, is_some, String,
}
use zeroio.Common.Words.{as_u64}
use zeroio.Protocol.Constants.{base_header_size}
use zeroio.Protocol.Errors.{
  ProtocolError, ProtocolResult, lit, incomplete_data, invalid_format, from_decode_error,
}
use zeroio.Protocol.External.{Nom, Buffers, Serde}
use zeroio.Protocol.Types.MessageType.{MessageType}
use zeroio.Protocol.Types.Header
use zeroio.Protocol.Types.Header.{Header}
use zeroio.Protocol.Types.BaseHeader.{BaseHeader, total_message_size}
use zeroio.Protocol.Parser.Base.{parse_base_header}

pub record Message (V A : Type 0) : Type 0 where
  pub base_header : BaseHeader
  pub raw_data : List ℕ
  pub header_cache : Option (Header V)
  pub payload_cache : Option V
  pub typed_payload_cache : Option A

-- A call of a method with `&self` that may fill a cache.
abbrev pub Cached : Type 0 → Type 0 → Type 0 → Type 0
Cached V A B = ProtocolResult B × Message V A

module _ {V A : Type 0} where
  abbrev pub message_type : Message V A → MessageType
  message_type m = m.base_header.message_type

  abbrev pub client_id : Message V A → ℕ
  client_id m = m.base_header.client_id

  abbrev pub header_length : Message V A → ℕ
  header_length m = m.base_header.header_length

  abbrev pub payload_length : Message V A → ℕ
  payload_length m = m.base_header.payload_length

  abbrev pub total_size : Message V A → ℕ
  total_size m = total_message_size m.base_header

  abbrev pub raw_bytes : Message V A → List ℕ
  raw_bytes m = m.raw_data

  abbrev pub is_header_cached : Message V A → Bool
  is_header_cached m = is_some m.header_cache

  abbrev pub is_payload_cached : Message V A → Bool
  is_payload_cached m = is_some m.payload_cache

  abbrev pub clear_cache : Message V A → Message V A
  clear_cache m = record m { header_cache = none; payload_cache = none; typed_payload_cache = none }

  -- A message of these bytes with nothing cached yet.
  abbrev pub fresh : BaseHeader → List ℕ → Message V A
  fresh h bytes = record {
    base_header = h;
    raw_data = bytes;
    header_cache = none;
    payload_cache = none;
    typed_payload_cache = none;
  }

  -- The size check of `from_bytes`, after the base header is parsed.
  unfoldable pub of_parsed : List ℕ → BaseHeader → ProtocolResult (Message V A)
  of_parsed bytes h =
      if length bytes == total_message_size h
      then ok (fresh h bytes)
      else err (incomplete_data (total_message_size h) (length bytes))

  unfoldable pub from_bytes : {E : Type 0} → Nom E → List ℕ → ProtocolResult (Message V A)
  unfolding of_parsed
  from_bytes nom bytes =
      if ltb (length bytes) base_header_size
      then err (incomplete_data base_header_size (length bytes))
      else (do h ← parse_base_header nom bytes; of_parsed bytes h)

  unfoldable pub raw_header_bytes : Buffers → Message V A → ProtocolResult (List ℕ)
  raw_header_bytes bufs m =
      if header_length m == 0
      then ok []
      else or_panic (bufs.slice base_header_size (base_header_size + header_length m) m.raw_data)

  -- The end is a sum of u64s, which wraps around in a release build.
  unfoldable pub raw_payload_bytes : Buffers → Message V A → ProtocolResult (List ℕ)
  raw_payload_bytes bufs m =
      let start = base_header_size + header_length m in
      if payload_length m == 0
      then ok []
      else or_panic (bufs.slice start (as_u64 (start + payload_length m)) m.raw_data)

  abbrev store_header : Message V A → ProtocolResult (Header V) → Cached V A (Header V)
  store_header m (ok h) = (ok h, record m { header_cache = some h })
  store_header m (err e) = (err e, m)
  store_header m panic = (panic, m)

  -- The closure that `header` hands to `get_or_try_init`.
  unfoldable pub init_header : Serde (Header V) → Buffers → Message V A → ProtocolResult (Header V)
  unfolding raw_header_bytes
  init_header serde bufs m =
      if ltb 0 (header_length m)
      then (do bytes ← raw_header_bytes bufs m; from_decode_error (serde.from_slice bytes))
      else ok Header.new

  unfoldable pub header : Serde (Header V) → Buffers → Message V A → Cached V A (Header V)
  header serde bufs m = elim m.header_cache [
    | some h ↦ (ok h, m)
    | none ↦ store_header m (init_header serde bufs m)
  ]

  abbrev store_payload : Message V A → ProtocolResult V → Cached V A V
  store_payload m (ok v) = (ok v, record m { payload_cache = some v })
  store_payload m (err e) = (err e, m)
  store_payload m panic = (panic, m)

  -- The closure that `payload` hands to `get_or_try_init`; `nil` is `rmpv::Value::Nil`.
  unfoldable pub init_payload : Serde V → V → Buffers → Message V A → ProtocolResult V
  unfolding raw_payload_bytes
  init_payload serde nil bufs m =
      if ltb 0 (payload_length m)
      then (do bytes ← raw_payload_bytes bufs m; from_decode_error (serde.from_slice bytes))
      else ok nil

  unfoldable pub payload : Serde V → V → Buffers → Message V A → Cached V A V
  payload serde nil bufs m = elim m.payload_cache [
    | some v ↦ (ok v, m)
    | none ↦ store_payload m (init_payload serde nil bufs m)
  ]
