-- ===== src/Protocol/Message/Raw/ToBytes.antt =====
-- `RawMessage::to_bytes`: its bounds, and the frame that it writes.
use zeroio.Common.{
  ℕ, ◌+◌, ◌≡◌, ◌≤◌, refl, ◌∙◌, List, ok, err, length, arith, ltb, if◌then◌else◌, le→ltb,
}
use zeroio.Common.Words.{IsU32, IsU64, as_u32, as_u64}
use zeroio.Protocol.Constants.{default_max_header_size, default_max_message_size}
use zeroio.Protocol.Errors.{header_too_large, message_too_large}
use zeroio.Protocol.External.{Nom, Serde}
use zeroio.Protocol.Types.Header.{Header}
use zeroio.Protocol.Types.BaseHeader
use zeroio.Protocol.Types.BaseHeader.{BaseHeader, encode}
use zeroio.Protocol.Message.{fresh}
use zeroio.Protocol.Message.Bytes.{IsFrame, frame_bytes, from_bytes-frame}
use zeroio.Protocol.Message.Raw.{RawMessage, header_bytes, assemble, to_bytes, into_message}

module _ {V : Type 0} (m : RawMessage V) (hb : List ℕ) where
  -- The base header that is sent with the serialized header `hb`.
  abbrev pub sent_base : BaseHeader
  sent_base = BaseHeader.new m.message_type m.client_id (length hb) (length m.payload_data)

  -- The number of bytes on the wire.
  abbrev pub wire_size : ℕ
  wire_size = 34 + length hb + length m.payload_data

  -- Sizes that a program can hold in memory: a header below 4 GiB, and all of it below 2^64 bytes.
  pub record IsHeld : Type 0 where
    pub header_ok : IsU32 (length hb)
    pub size_ok : IsU64 wire_size

  pub record Fits : Type 0 where
    pub client_ok : IsU32 m.client_id
    pub header_fits : length hb ≤ default_max_header_size
    pub size_fits : wire_size ≤ default_max_message_size

  casts :
      IsHeld
      → (as_u32 (length hb) ≡ length hb)
        × (as_u64 (length m.payload_data) ≡ length m.payload_data)
        × (as_u64 wire_size ≡ wire_size)
  casts held = omega arith

  pub assemble_lem :
      IsHeld
      → assemble m hb ≡ (
          if ltb default_max_header_size (length hb)
          then err (header_too_large (length hb) default_max_header_size)
          else if ltb default_max_message_size wire_size
          then err (message_too_large wire_size default_max_message_size)
          else ok (frame_bytes sent_base hb m.payload_data))
  unfolding assemble
  assemble_lem held = let (a, b, c) = casts held in rw (a, b, c)

  -- What `to_bytes` returns once the header is serialized, for a header below 4 GiB and a message
  -- below 2^64 bytes: an error with the size if the header or the message is above its limit, and
  -- else the frame of the message.
  pub to_bytes_lem :
      (serde : Serde (Header V))
      → header_bytes serde m ≡ ok hb
      → IsHeld
      → to_bytes serde m ≡ (
          if ltb default_max_header_size (length hb)
          then err (header_too_large (length hb) default_max_header_size)
          else if ltb default_max_message_size wire_size
          then err (message_too_large wire_size default_max_message_size)
          else ok (frame_bytes sent_base hb m.payload_data))
  unfolding to_bytes
  to_bytes_lem serde e held = rw e (assemble_lem held)

  pub held_of_fits : Fits → IsHeld
  held_of_fits fits = omega arith

  pub sent_base-IsFrame : Fits → IsFrame sent_base hb m.payload_data
  unfolding BaseHeader.new
  sent_base-IsFrame fits = record {
    base_ok = record {
      version_ok = refl;
      client_id_ok = fits.client_ok;
      reserved_ok = refl;
      header_length_ok = omega arith;
      payload_length_ok = omega arith;
    };
    no_overflow = omega arith;
    header_bytes_ok = refl;
    payload_bytes_ok = refl;
  }

  pub to_bytes-frame :
      (serde : Serde (Header V))
      → header_bytes serde m ≡ ok hb
      → Fits
      → to_bytes serde m ≡ ok (frame_bytes sent_base hb m.payload_data)
  to_bytes-frame serde e fits =
      to_bytes_lem serde e (held_of_fits fits)
      ∙ rw (
        le→ltb default_max_header_size (length hb) fits.header_fits,
        le→ltb default_max_message_size wire_size fits.size_fits,
      )

  pub into_message-frame :
      {E A : Type 0} (nom : Nom E) (serde : Serde (Header V))
      → header_bytes serde m ≡ ok hb
      → Fits
      → into_message {A = A} nom serde m
        ≡ ok (fresh sent_base (frame_bytes sent_base hb m.payload_data))
  unfolding into_message
  into_message-frame nom serde e fits =
      rw (to_bytes-frame serde e fits) (from_bytes-frame (sent_base-IsFrame fits) nom)
