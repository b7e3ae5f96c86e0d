-- ===== src/Protocol/Codec/Outgoing.antt =====
-- The sending side of `MessageCodec` of crates/protocol/src/codec.rs: what `encode` makes of a list of messages.
use zeroio.Common.{
  ℕ, ◌≡◌, ◌≤◌, refl, sym, ◌∙◌, ap, map, List, [], ◌∷◌, ◌++◌, ok, length, append_assoc, append-nil,
  arith, All, le→ltb,
}
use zeroio.Common.Words.{as_u32}
use zeroio.Protocol.External.{Buffers, Serde}
use zeroio.Protocol.Types.Header.{Header}
use zeroio.Protocol.Types.BaseHeader
use zeroio.Protocol.Message.Bytes.{length-frame_bytes, total-frame_bytes}
use zeroio.Protocol.Message.Raw.{RawMessage, header_bytes}
use zeroio.Protocol.Message.Raw.ToBytes.{sent_base, wire_size, Fits, sent_base-IsFrame}
use zeroio.Protocol.Parser.Stream.Batch.{Sent, sent_bytes, stream_bytes, IsSendable}
use zeroio.Protocol.Codec.{MessageCodec, encode_raw}
use zeroio.Protocol.Codec.RoundTrip.{encode_raw_lem}
use zeroio.Protocol.Codec.Reading.{encode_all}

-- A message that is sent, with its header as it is serialized.
pub record Outgoing (V : Type 0) : Type 0 where
  pub message : RawMessage V
  pub header_part : List ℕ

abbrev pub as_sent : {V : Type 0} → Outgoing V → Sent
as_sent o = record {
  base = sent_base o.message o.header_part;
  header_bytes = o.header_part;
  payload_bytes = o.message.payload_data;
}

abbrev pub size_of : {V : Type 0} → Outgoing V → ℕ
size_of o = wire_size o.message o.header_part

-- A message that both codecs let through, and is not larger than `largest`.
pub record Passes {V : Type 0} (serde : Serde (Header V)) (c d : MessageCodec) (largest : ℕ)
    (o : Outgoing V) : Type 0 where
  pub serialized : header_bytes serde o.message ≡ ok o.header_part
  pub fits : Fits o.message o.header_part
  pub frame_room : size_of o ≤ c.max_frame_size
  pub header_room : length o.header_part ≤ as_u32 d.parser.max_header_size
  pub message_room : size_of o ≤ d.parser.max_message_size
  pub size_ok : size_of o ≤ largest

module _ {V : Type 0} (serde : Serde (Header V)) (bufs : Buffers) (c d : MessageCodec)
    (largest : ℕ) where
  pub length-sent :
      (o : Outgoing V) → Passes serde c d largest o → length (sent_bytes (as_sent o)) ≡ size_of o
  unfolding BaseHeader.new
  length-sent o pass = length-frame_bytes (sent_base-IsFrame o.message o.header_part pass.fits)

  encode_all_more :
      (m : RawMessage V) (ms : List (RawMessage V)) (dst dst' : List ℕ)
      → encode_raw serde bufs c m dst ≡ (ok tt, dst')
      → encode_all serde bufs c (m ∷ ms) dst ≡ encode_all serde bufs c ms dst'
  encode_all_more m ms dst dst' e = rw (e, encode_all) (rw e)

  one :
      (o : Outgoing V) (dst : List ℕ)
      → Passes serde c d largest o
      → encode_raw serde bufs c o.message dst ≡ (ok tt, dst ++ sent_bytes (as_sent o))
  one o dst pass =
      rw
        (
          encode_raw_lem serde bufs c o.message o.header_part dst pass.serialized pass.fits,
          le→ltb c.max_frame_size (size_of o) pass.frame_room,
        )
        refl

  pub encode_all_lem :
      (items : List (Outgoing V)) (dst : List ℕ)
      → All (Passes serde c d largest) items
      → encode_all serde bufs c (map (λ o. o.message) items) dst
        ≡ (ok tt, dst ++ stream_bytes (map as_sent items) [])
  encode_all_lem [] dst all = ap (λ l. (ok tt, l)) (sym (append-nil dst))
  encode_all_lem (o ∷ items) dst (pass, all) =
      encode_all_more o.message (map (λ o. o.message) items) dst _ (one o dst pass)
      ∙ encode_all_lem items (dst ++ sent_bytes (as_sent o)) all
      ∙ ap (λ l. (ok tt, l))
          (append_assoc dst (sent_bytes (as_sent o)) (stream_bytes (map as_sent items) []))

  pub All-IsSendable :
      (items : List (Outgoing V))
      → All (Passes serde c d largest) items
      → All (IsSendable d.parser) (map as_sent items)
  unfolding BaseHeader.new
  All-IsSendable [] all = tt
  All-IsSendable (o ∷ items) (pass, all) = (
    record {
      frame = sent_base-IsFrame o.message o.header_part pass.fits;
      within = record {
        header_within = pass.header_room;
        message_within = omega (
          arith,
          length-sent o pass,
          total-frame_bytes (sent_base-IsFrame o.message o.header_part pass.fits),
          pass.message_room,
        );
      };
    },
    All-IsSendable items all,
  )

  pub All-short :
      (items : List (Outgoing V))
      → All (Passes serde c d largest) items
      → All (λ s. length (sent_bytes s) ≤ largest) (map as_sent items)
  All-short [] all = tt
  All-short (o ∷ items) (pass, all) =
      (omega (arith, length-sent o pass, pass.size_ok), All-short items all)
