-- ===== src/Protocol/Message/Typed/Copies.antt =====
-- `TypedMessage::from_message` and `From<TypedMessage>` of crates/protocol/src/message.rs, one after
-- the other.
use zeroio.Common.{
  ℕ, ◌≡◌, ◌<◌, ◌⊎◌, inl, inr, refl, ◌∙◌, List, ok, err, panic, length, lt→ltb, arith, false, sym,
  Bool-cases, ltb,
}
use mathlib.Core.Bool.{true≢false}
use zeroio.Protocol.Constants.{default_max_header_size, default_max_message_size}
use zeroio.Protocol.Errors.{ProtocolError, header_too_large, message_too_large}
use zeroio.Protocol.External.{Nom, Buffers, Serde}
use zeroio.Protocol.Types.Header.{Header}
use zeroio.Protocol.Types.BaseHeader
use zeroio.Protocol.Message.{Message, header}
use zeroio.Protocol.Message.Raw
use zeroio.Protocol.Message.Raw.{RawMessage, header_bytes, into_message, to_bytes}
use zeroio.Protocol.Message.Raw.ToBytes.{sent_base, wire_size, IsHeld, to_bytes_lem}
use zeroio.Protocol.Message.Typed.{TypedMessage, to_message}

-- What is written of a typed message whose payload is serialized.
abbrev pub raw_of : {V T : Type 0} → TypedMessage V T → List ℕ → RawMessage V
raw_of typed bytes = record {
  message_type = typed.base_header.message_type;
  client_id = typed.base_header.client_id;
  header = typed.header;
  payload_data = bytes;
}

module _ {V T E : Type 0} (A : Type 0) (nom : Nom E) (serde_header : Serde (Header V))
    (serde : Serde T) (bufs : Buffers) where
  -- The same message with the sizes that were sent.
  abbrev pub sized : TypedMessage V T → List ℕ → List ℕ → TypedMessage V T
  sized typed hb bytes = record typed { base_header = sent_base (raw_of typed bytes) hb }

  to_message_refused :
      (typed : TypedMessage V T) (bytes : List ℕ) (x : ProtocolError)
      → serde.to_vec typed.payload ≡ ok bytes
      → to_bytes serde_header (raw_of typed bytes) ≡ err x
      → to_message {A = A} nom serde_header serde typed ≡ panic
  unfolding to_message Raw.new into_message
  to_message_refused typed bytes x wrote refused = ground arith

  to_bytes_too_large :
      (m : RawMessage V) (hb : List ℕ)
      → header_bytes serde_header m ≡ ok hb
      → IsHeld m hb
      → (default_max_header_size < length hb) ⊎ (default_max_message_size < wire_size m hb)
      → (x : ProtocolError) × (to_bytes serde_header m ≡ err x)
  to_bytes_too_large m hb serialized held large =
      elim (Bool-cases (ltb default_max_header_size (length hb))) [
        | inl big_header ↦ (
          header_too_large (length hb) default_max_header_size,
          to_bytes_lem m hb serde_header serialized held ∙ rw big_header refl,
        )
        | inr small_header ↦ (
          message_too_large (wire_size m hb) default_max_message_size,
          to_bytes_lem m hb serde_header serialized held
              ∙ rw (
                small_header,
                lt→ltb default_max_message_size (wire_size m hb) (over small_header large),
              ),
        )
      ]
    where
      over :
          ltb default_max_header_size (length hb) ≡ false
          → (default_max_header_size < length hb) ⊎ (default_max_message_size < wire_size m hb)
          → default_max_message_size < wire_size m hb
      over small (inl h) =
          absurd (true≢false (sym (lt→ltb default_max_header_size (length hb) h) ∙ small))
      over small (inr h) = h

  -- A typed message whose payload and header are serialized, to more bytes than a limit of the protocol
  -- and fewer than 2^64, does not become a `Message`: the conversion panics.
  pub too_large_panics :
      (typed : TypedMessage V T) (hb bytes : List ℕ)
      → serde.to_vec typed.payload ≡ ok bytes
      → header_bytes serde_header (raw_of typed bytes) ≡ ok hb
      → IsHeld (raw_of typed bytes) hb
      → (default_max_header_size < length hb)
        ⊎ (default_max_message_size < wire_size (raw_of typed bytes) hb)
      → to_message {A = A} nom serde_header serde typed ≡ panic
  too_large_panics typed hb bytes wrote serialized held large =
      let (x, refused) = to_bytes_too_large (raw_of typed bytes) hb serialized held large in
      to_message_refused typed bytes x wrote refused
