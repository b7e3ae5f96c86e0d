-- ===== src/Protocol/Message/Typed.antt =====
-- `Message::payload_as` and `TypedMessage` of crates/protocol/src/message.rs.
pub mod Cache
pub mod Accesses
pub mod Copies
use zeroio.Common.{ℕ, Option, none, some, List, Result, ok, err, panic, ◌>>=◌}
use zeroio.Protocol.Errors.{ProtocolError, ProtocolResult, from_decode_error}
use zeroio.Protocol.External.{Nom, Buffers, Serde, Castable}
use zeroio.Protocol.Types.Header.{Header}
use zeroio.Protocol.Types.BaseHeader.{BaseHeader}
use zeroio.Protocol.Message.{Message, Cached, header, raw_payload_bytes}
use zeroio.Protocol.Message.Raw
use zeroio.Protocol.Message.Raw.{RawMessage, into_message}

-- `OnceCell::set` keeps a value that is there.
abbrev pub set_once : {A : Type 0} → Option A → A → Option A
set_once none a = some a
set_once (some b) a = some b

abbrev pub cached_as : {A T : Type 0} → Castable A T → Option A → Option T
cached_as cast none = none
cached_as cast (some a) = cast.downcast_ref a

-- `expect`
abbrev expect : {B : Type 0} → ProtocolResult B → ProtocolResult B
expect (ok b) = ok b
expect (err e) = panic
expect panic = panic

module _ {V A T : Type 0} (cast : Castable A T) where
  -- The value is read back from the cache, and a value of another type there is a panic.
  abbrev reread : Message V A → Option A → Cached V A T
  reread m cache = elim (cached_as cast cache) [
    | some t ↦ (ok t, record m { typed_payload_cache = cache })
    | none ↦ (panic, record m { typed_payload_cache = cache })
  ]

  abbrev store_typed : Message V A → ProtocolResult T → Cached V A T
  store_typed m (ok t) = reread m (set_once m.typed_payload_cache (cast.upcast t))
  store_typed m (err e) = (err e, m)
  store_typed m panic = (panic, m)

  abbrev pub decode_typed : Serde T → Buffers → Message V A → ProtocolResult T
  decode_typed serde bufs m = do
    bytes ← raw_payload_bytes bufs m
    from_decode_error (serde.from_slice bytes)

  unfoldable pub payload_as : Serde T → Buffers → Message V A → Cached V A T
  payload_as serde bufs m = elim (cached_as cast m.typed_payload_cache) [
    | some t ↦ (ok t, m)
    | none ↦ store_typed m (decode_typed serde bufs m)
  ]

pub record TypedMessage (V T : Type 0) : Type 0 where
  pub base_header : BaseHeader
  pub header : Header V
  pub payload : T

module _ {V A T : Type 0} where
  -- The header may be cached in the message on the way.
  unfoldable pub from_message :
      Serde (Header V) → Serde T → Buffers → Message V A → Cached V A (TypedMessage V T)
  from_message serde_header serde bufs m =
      let (result, m') = header serde_header bufs m in
      (
        (do
          h ← result
          bytes ← raw_payload_bytes bufs m
          payload ← from_decode_error (serde.from_slice bytes)
          ok (record { base_header = m.base_header; header = h; payload = payload })),
        m',
      )

  unfoldable pub to_message :
      {E : Type 0}
      → Nom E
      → Serde (Header V)
      → Serde T
      → TypedMessage V T
      → ProtocolResult (Message V A)
  to_message nom serde_header serde t = do
    raw ←
        expect (Raw.new serde t.base_header.message_type t.base_header.client_id t.header t.payload)
    expect (into_message nom serde_header raw)
