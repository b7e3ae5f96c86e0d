-- ===== src/Protocol/Codec/RoundTrip.antt =====
-- What `encode` writes is what `decode` reads, one message at a time.
use zeroio.Common.{
  ℕ, ◌+◌, ◌≡◌, ◌≤◌, refl, ◌∙◌, ap, some, List, [], ◌∷◌, ◌++◌, ok, err, panic, ltb, if◌then◌else◌,
  is_empty, length, append-nil, arith, le→ltb, Bool-cases, inl, inr,
}
use zeroio.Common.Words.{as_u32}
use zeroio.Protocol.Errors.{ProtocolResult, message_too_large}
use zeroio.Protocol.External.{Nom, Buffers, Serde}
use zeroio.Protocol.Types.Header.{Header}
use zeroio.Protocol.Types.BaseHeader
use zeroio.Protocol.Types.BaseHeader.{BaseHeader}
use zeroio.Protocol.Message.{fresh}
use zeroio.Protocol.Message.Bytes.{IsFrame, frame_bytes, length-frame_bytes, total-frame_bytes}
use zeroio.Protocol.Message.Raw.{RawMessage, header_bytes}
use zeroio.Protocol.Message.Raw.ToBytes.{
  sent_base, wire_size, Fits, sent_base-IsFrame, to_bytes-frame,
}
use zeroio.Protocol.Parser.Stream.{MessageParser, push_data, try_parse}
use zeroio.Protocol.Parser.Stream.Extract.{IsWithin, try_parse_whole}
use zeroio.Protocol.Parser.Stream.Bounds.{IsBounded, push_data-IsBounded, try_parse-IsBounded}
use zeroio.Protocol.Parser.Stream.Batch.{with_buffer}
use zeroio.Protocol.Codec.{MessageCodec, after_push, decode_with, decode, write_frame, encode_raw}

module _ {V : Type 0} (serde : Serde (Header V)) (bufs : Buffers) where
  -- A message with a header that is serialized and sizes within the protocol's limits is appended
  -- to the output as its frame, unless it is larger than the codec's frames may be: then that is
  -- the error, and the output is as before.
  pub encode_raw_lem :
      (c : MessageCodec) (m : RawMessage V) (hb dst : List ℕ)
      → header_bytes serde m ≡ ok hb
      → Fits m hb
      → encode_raw serde bufs c m dst ≡ (
          if ltb c.max_frame_size (wire_size m hb)
          then (err (message_too_large (wire_size m hb) c.max_frame_size), dst)
          else (ok tt, dst ++ frame_bytes (sent_base m hb) hb m.payload_data))
  unfolding encode_raw write_frame BaseHeader.new
  encode_raw_lem c m hb dst e fits =
      rw
        (
          to_bytes-frame m hb serde e fits,
          size,
          bufs.extend_lem dst (frame_bytes (sent_base m hb) hb m.payload_data),
        )
        refl
    where
      size : length (frame_bytes (sent_base m hb) hb m.payload_data) ≡ wire_size m hb
      size = length-frame_bytes (sent_base-IsFrame m hb fits)

-- A codec with an empty buffer whose limits let a message of these sizes through.
pub record IsEmptyAndFits {V : Type 0} (d : MessageCodec) (m : RawMessage V) (hb : List ℕ)
    : Type 0 where
  pub buffer_empty : d.parser.buffer ≡ []
  pub header_room : length hb ≤ as_u32 d.parser.max_header_size
  pub message_room : wire_size m hb ≤ d.parser.max_message_size
  pub frame_room : wire_size m hb ≤ d.max_frame_size

module _ {E : Type 0} (V A : Type 0) (nom : Nom E) (bufs : Buffers) where
  pub push_then_parse :
      (max : ℕ) (p : MessageParser) (src : List ℕ)
      → length src ≤ max
      → length p.buffer + length src ≤ p.max_message_size
      → decode_with {V = V} {A = A} nom bufs max p src
        ≡ (let (r, p') = try_parse nom bufs (with_buffer p (p.buffer ++ src)) in (r, p', []))
  unfolding decode_with push_data
  push_then_parse max p [] small room = rw (le→ltb max 0 small, append-nil p.buffer)
  push_then_parse max p (b ∷ src) small room = rw (
    le→ltb max (length (b ∷ src)) small,
    le→ltb p.max_message_size (length p.buffer + length (b ∷ src)) room,
    bufs.extend_lem p.buffer (b ∷ src),
  )

  -- A codec whose buffer and input together begin with a message within its limits, and fit its
  -- limits themselves, returns that message, keeps the bytes behind it in its buffer and takes all
  -- of the input.
  pub decode_whole :
      (c : MessageCodec) (src : List ℕ) {h : BaseHeader} (hb pb rest : List ℕ)
      → IsFrame h hb pb
      → IsWithin c.parser h
      → length src ≤ c.max_frame_size
      → length c.parser.buffer + length src ≤ c.parser.max_message_size
      → c.parser.buffer ++ src ≡ frame_bytes h hb pb ++ rest
      → decode nom bufs c src ≡ (
        ok (some (fresh {V = V} {A = A} h (frame_bytes h hb pb))),
        record c { parser = with_buffer c.parser rest },
        [],
      )
  unfolding decode
  decode_whole c src {h} hb pb rest f w small room e = rw (
    push_then_parse c.max_frame_size c.parser src small room,
    try_parse_whole {V = V} {A = A} nom bufs (with_buffer c.parser (c.parser.buffer ++ src)) hb pb
        rest f within e,
  )
    where
      within : IsWithin (with_buffer c.parser (c.parser.buffer ++ src)) h
      within = record { header_within = w.header_within; message_within = w.message_within }

module _ {E V : Type 0} (A : Type 0) (nom : Nom E) (serde : Serde (Header V)) (bufs : Buffers) where
  -- Let a message have a header that is serialized, sizes within the protocol's limits and the
  -- limits of two codecs, and the second codec an empty buffer. What the first codec writes into an
  -- empty output, the second one reads as exactly that message; nothing is left in its buffer or
  -- the input.
  pub encode_decode :
      (c d : MessageCodec) (m : RawMessage V) (hb : List ℕ)
      → header_bytes serde m ≡ ok hb
      → Fits m hb
      → wire_size m hb ≤ c.max_frame_size
      → IsEmptyAndFits d m hb
      → decode nom bufs d (encode_raw serde bufs c m []).1 ≡ (
        ok (
            some (
              fresh {V = V} {A = A}
                (sent_base m hb)
                (frame_bytes (sent_base m hb) hb m.payload_data))),
        d,
        [],
      )
  unfolding BaseHeader.new
  encode_decode c d m hb e fits small room =
      rw
        (encode_raw_lem serde bufs c m hb [] e fits, le→ltb c.max_frame_size (wire_size m hb) small)
        (decode_whole V A nom bufs d sent hb m.payload_data [] frame within
            (omega (arith, size, room.frame_room))
            (omega (arith, size, ap length room.buffer_empty, room.message_room))
            (rw (room.buffer_empty, append-nil sent) refl)
          ∙ rw (← room.buffer_empty) refl)
    where
      sent : List ℕ
      sent = frame_bytes (sent_base m hb) hb m.payload_data

      frame : IsFrame (sent_base m hb) hb m.payload_data
      frame = sent_base-IsFrame m hb fits

      size : length sent ≡ wire_size m hb
      size = length-frame_bytes frame

      within : IsWithin d.parser (sent_base m hb)
      within = record {
        header_within = room.header_room;
        message_within = omega (arith, total-frame_bytes frame, size, room.message_room);
      }

module _ {E : Type 0} (V A : Type 0) (nom : Nom E) (bufs : Buffers) where
  -- Whatever bytes come in, `decode` keeps the buffered bytes within the largest message size if
  -- they were so before.
  pub decode-IsBounded :
      (c : MessageCodec) (src : List ℕ)
      → IsBounded c.parser
      → IsBounded ((decode {V = V} {A = A} nom bufs c src).1).parser
  unfolding decode decode_with
  decode-IsBounded c src h = elim (Bool-cases (ltb c.max_frame_size (length src))) [
    | inl large ↦ rw large h
    | inr small ↦ rw small (elim (Bool-cases (is_empty src)) [
      | inl nothing ↦ rw nothing (try_parse-IsBounded V A nom bufs c.parser h)
      | inr there ↦ rw there (pushed (push_data bufs c.parser src).0)
    ])
  ]
    where
      pushed :
          (r : ProtocolResult (Unit {0}))
          → IsBounded
              ((after_push {V = V} {A = A} nom bufs src r (push_data bufs c.parser src).1).1)
      pushed (ok u) = try_parse-IsBounded V A nom bufs _ (push_data-IsBounded bufs c.parser src h)
      pushed (err e) = push_data-IsBounded bufs c.parser src h
      pushed panic = push_data-IsBounded bufs c.parser src h
