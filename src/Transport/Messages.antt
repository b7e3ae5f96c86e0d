-- ===== src/Transport/Messages.antt =====
-- The functions of crates/transport/src/message.rs that put a codec to a stream, over what makes
-- tokio_util's `FramedRead`, `FramedWrite` and `Framed`.
use zeroio.Protocol.Codec.{MessageCodec, MessageDecoder, MessageEncoder, codec, decoder, encoder}

abbrev pub reader : {T S : Type 0} → (T → MessageDecoder → S) → T → S
reader new stream = new stream decoder

abbrev pub writer : {T S : Type 0} → (T → MessageEncoder → S) → T → S
writer new stream = new stream encoder

abbrev pub sink : {T S : Type 0} → (T → MessageCodec → S) → T → S
sink new stream = new stream codec
