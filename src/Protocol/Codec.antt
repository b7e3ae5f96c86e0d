-- ===== src/Protocol/Codec.antt =====
-- crates/protocol/src/codec.rs: the codecs that tokio's framing drives. `decode` returns its result,
-- the codec and the input that it leaves; `encode` its result and the output with what was added.
pub mod RoundTrip
pub mod Bounds
pub mod Utils
pub mod Reading
pub mod Ready
pub mod Drain
pub mod Outgoing
pub mod EndToEnd
use zeroio.Common.{
  ℕ, Bool, Option, none, some, List, [], Result, ok, err, panic, ltb, if◌then◌else◌, is_empty,
  length,
}
use zeroio.Protocol.Constants.{default_max_message_size}
use zeroio.Protocol.Errors.{ProtocolError, ProtocolResult, message_too_large}
use zeroio.Protocol.External.{Nom, Buffers, Serde}
use zeroio.Protocol.Types.Header.{Header}
use zeroio.Protocol.Message.{Message, raw_bytes}
use zeroio.Protocol.Message.Raw.{RawMessage, to_bytes}
use zeroio.Protocol.Parser.Stream
use zeroio.Protocol.Parser.Stream.{MessageParser, push_data, try_parse}

pub record MessageCodec : Type 0 where
  pub parser : MessageParser
  pub max_frame_size : ℕ

pub record MessageDecoder : Type 0 where
  pub parser : MessageParser
  pub max_frame_size : ℕ

pub record MessageEncoder : Type 0 where
  pub max_frame_size : ℕ

abbrev pub codec : MessageCodec
codec = record { parser = Stream.new; max_frame_size = default_max_message_size }

abbrev pub codec_with_limits : ℕ → ℕ → MessageCodec
codec_with_limits max_message max_header = record {
  parser = Stream.with_limits max_message max_header;
  max_frame_size = max_message;
}

abbrev pub decoder : MessageDecoder
decoder = record { parser = Stream.new; max_frame_size = default_max_message_size }

abbrev pub decoder_with_limits : ℕ → ℕ → MessageDecoder
decoder_with_limits max_message max_header = record {
  parser = Stream.with_limits max_message max_header;
  max_frame_size = max_message;
}

abbrev pub clear_decoder : MessageDecoder → MessageDecoder
clear_decoder d = record d { parser = Stream.clear d.parser }

abbrev pub codec_buffer_size : MessageCodec → ℕ
codec_buffer_size c = Stream.buffer_size c.parser

abbrev pub decoder_buffer_size : MessageDecoder → ℕ
decoder_buffer_size d = Stream.buffer_size d.parser

abbrev pub encoder : MessageEncoder
encoder = record { max_frame_size = default_max_message_size }

abbrev pub encoder_with_max_frame_size : ℕ → MessageEncoder
encoder_with_max_frame_size max = record { max_frame_size = max }

-- The result, the parser and the input after a call of `decode`.
abbrev pub Decoded : Type 0 → Type 0 → Type 0
Decoded V A = ProtocolResult (Option (Message V A)) × MessageParser × List ℕ

module _ {E V A : Type 0} (nom : Nom E) (bufs : Buffers) where
  abbrev parse_next : MessageParser → List ℕ → Decoded V A
  parse_next p src = let (result, p') = try_parse nom bufs p in (result, p', src)

  -- After `push_data`: the input is cleared if it was taken.
  abbrev pub after_push : List ℕ → ProtocolResult (Unit {0}) → MessageParser → Decoded V A
  after_push src (ok u) p = parse_next p []
  after_push src (err e) p = (err e, p, src)
  after_push src panic p = (panic, p, src)

  -- The body that the two decoders share word for word.
  unfoldable pub decode_with : ℕ → MessageParser → List ℕ → Decoded V A
  decode_with max p src =
      if ltb max (length src)
      then (err (message_too_large (length src) max), p, src)
      else if is_empty src
      then parse_next p src
      else (let (pushed, p') = push_data bufs p src in after_push src pushed p')

  unfoldable pub decode :
      MessageCodec → List ℕ → ProtocolResult (Option (Message V A)) × MessageCodec × List ℕ
  unfolding decode_with
  decode c src =
      let (result, p, src') = decode_with c.max_frame_size c.parser src in
      (result, record c { parser = p }, src')

  unfoldable pub decoder_decode :
      MessageDecoder → List ℕ → ProtocolResult (Option (Message V A)) × MessageDecoder × List ℕ
  unfolding decode_with
  decoder_decode d src =
      let (result, p, src') = decode_with d.max_frame_size d.parser src in
      (result, record d { parser = p }, src')

-- The frame size check and the write that the four `encode` methods share.
unfoldable pub write_frame : Buffers → ℕ → List ℕ → List ℕ → ProtocolResult (Unit {0}) × List ℕ
write_frame bufs max bytes dst =
    if ltb max (length bytes)
    then (err (message_too_large (length bytes) max), dst)
    else (ok tt, bufs.extend_from_slice dst bytes)

abbrev write_result :
    Buffers → ℕ → ProtocolResult (List ℕ) → List ℕ → ProtocolResult (Unit {0}) × List ℕ
write_result bufs max (ok bytes) dst = write_frame bufs max bytes dst
write_result bufs max (err e) dst = (err e, dst)
write_result bufs max panic dst = (panic, dst)

module _ {V : Type 0} (serde : Serde (Header V)) (bufs : Buffers) where
  unfoldable pub encode_raw :
      MessageCodec → RawMessage V → List ℕ → ProtocolResult (Unit {0}) × List ℕ
  unfolding write_frame
  encode_raw c item dst = write_result bufs c.max_frame_size (to_bytes serde item) dst

  unfoldable pub encoder_encode_raw :
      MessageEncoder → RawMessage V → List ℕ → ProtocolResult (Unit {0}) × List ℕ
  unfolding write_frame
  encoder_encode_raw c item dst = write_result bufs c.max_frame_size (to_bytes serde item) dst

module _ {V A : Type 0} (bufs : Buffers) where
  unfoldable pub encode_message :
      MessageCodec → Message V A → List ℕ → ProtocolResult (Unit {0}) × List ℕ
  unfolding write_frame
  encode_message c item dst = write_frame bufs c.max_frame_size (raw_bytes item) dst

  unfoldable pub encoder_encode_message :
      MessageEncoder → Message V A → List ℕ → ProtocolResult (Unit {0}) × List ℕ
  unfolding write_frame
  encoder_encode_message c item dst = write_frame bufs c.max_frame_size (raw_bytes item) dst
