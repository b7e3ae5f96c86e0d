-- ===== src/Examples/Streams.antt =====
-- The stream parser and the codec at concrete inputs.
use mathlib.Core.List.{flatten}
use zeroio.Common.{
  ◌≤◌, drop, panic, ◌≢◌, sym, append-nil, err, ℕ, ◌≡◌, ◌≤◌, refl, none, some, List, [], ◌∷◌, ok,
  arith, length, inl, map, take, drop, replicate,
}
use zeroio.Protocol.Errors.{incomplete_data, ProtocolResult, header_too_large}
use zeroio.Protocol.External.Reference.{nom, buffers}
use zeroio.Protocol.Types.BaseHeader.{total_message_size, BaseHeader, IsValid, encode}
use zeroio.Protocol.Message.{Message, fresh, from_bytes}
use zeroio.Protocol.Parser.Peek.{peek_message_info}
use zeroio.Protocol.Parser.Stream.NoPanic.{parsers_never_panic}
use zeroio.Protocol.Parser.Stream.Oversized.{oversized_refused, announced}
use zeroio.Protocol.Parser.Stream.Wrapped.{wrapped_total_slips}
use zeroio.Protocol.Message.Bytes.{frame_bytes}
use zeroio.Protocol.Message.Raw.{header_bytes, to_bytes}
use zeroio.Protocol.Parser.Stream.{MessageParser, push_data, try_parse, parse_all}
use zeroio.Protocol.Parser.Stream.Batch.{
  Sent, IsSendable, short, stream_bytes, delivered, with_buffer, push_pieces, parse_all_ends,
  stream_in_pieces,
}
use zeroio.Protocol.Parser.Stream.Corrupt.{IsCorrupt, IsCorrupt-never_ends}
use zeroio.Protocol.Types.BaseHeader
use zeroio.Protocol.Codec.Outgoing.{Outgoing, as_sent, Passes}
use zeroio.Protocol.Codec.Reading.{encode_all, read_all}
use zeroio.Protocol.Codec.Bounds.{decode_each, decoded_bounded}
use zeroio.Protocol.Codec.EndToEnd.{encoded_delivered}
use zeroio.Protocol.Codec.{MessageCodec, codec_with_limits, decode, encode_raw}
use zeroio.Examples.Data.{
  Boxed, base, base-IsFrame, base-IsWithin, header_part, payload_part, header_serde, raw, raw-Fits,
  parser, holding,
}

abbrev frame : List ℕ
frame = frame_bytes base header_part payload_part

abbrev found : Message ℕ Boxed
found = fresh base frame

parse_all_ends_example :
    (x : ProtocolResult (List (Message ℕ Boxed)) × MessageParser) × (parse_all nom buffers
        (holding frame)
      ≡ some x)
parse_all_ends_example = parse_all_ends ℕ Boxed nom buffers (holding frame)

abbrev sent : Sent
sent = record { base = base; header_bytes = header_part; payload_bytes = payload_part }

sent-IsSendable : IsSendable parser sent
sent-IsSendable = record { frame = base-IsFrame; within = base-IsWithin [] }

abbrev two : List ℕ
two = stream_bytes (sent ∷ sent ∷ []) (1 ∷ [])

abbrev pieces : List (List ℕ)
pieces = take 10 two ∷ drop 10 two ∷ []

pieces_ok : flatten pieces ≡ two
unfolding flatten encode
pieces_ok = refl

two_fit : length two ≤ 100
unfolding encode
two_fit = omega arith

stream_in_pieces_example :
    (push_pieces buffers parser pieces ≡ (ok tt, with_buffer parser two))
    × (parse_all {V = ℕ} {A = Boxed} nom buffers (with_buffer parser two)
        ≡ some (ok (found ∷ found ∷ []), with_buffer parser (1 ∷ [])))
stream_in_pieces_example =
    stream_in_pieces ℕ Boxed nom buffers parser pieces (sent ∷ sent ∷ []) (1 ∷ []) refl pieces_ok
      two_fit (sent-IsSendable, (sent-IsSendable, tt)) (short (omega arith))

-- A front with the version 2.
abbrev garbage : List ℕ
garbage = 2 ∷ replicate 33 0

garbage-IsCorrupt : IsCorrupt garbage
garbage-IsCorrupt = record {
  version = 2;
  type_u8 = 0;
  tail = replicate 32 0;
  whole = refl;
  long = omega arith;
  wrong = inl (λ e. absurd (omega arith));
}

IsCorrupt-never_ends_example :
    (try_parse {V = ℕ} {A = Boxed} nom buffers (push_data buffers (holding garbage) frame).1
      ≡ (ok none, (push_data buffers (holding garbage) frame).1))
    × IsCorrupt (push_data buffers (holding garbage) frame).1.buffer
IsCorrupt-never_ends_example =
    IsCorrupt-never_ends ℕ Boxed nom buffers (holding garbage) frame garbage-IsCorrupt

abbrev small_codec : MessageCodec
small_codec = codec_with_limits 100 50

serialized : header_bytes header_serde raw ≡ ok header_part
unfolding header_bytes
serialized = refl

outgoing : Outgoing ℕ
outgoing = record { message = raw; header_part = header_part }

outgoing-Passes : Passes header_serde small_codec small_codec 39 outgoing
unfolding outgoing
outgoing-Passes = record {
  serialized = serialized;
  fits = raw-Fits;
  frame_room = omega arith;
  header_room = omega arith;
  message_room = omega arith;
  size_ok = omega arith;
}

-- Two messages in three pieces: the second piece ends the first message and begins the second one.
abbrev stream : List ℕ
unfolding encode BaseHeader.new
stream = stream_bytes (as_sent outgoing ∷ as_sent outgoing ∷ []) []

abbrev parts : List (List ℕ)
unfolding stream outgoing
parts = take 10 stream ∷ take 40 (drop 10 stream) ∷ drop 50 stream ∷ []

parts_ok :
    flatten parts
    ≡ (encode_all header_serde buffers small_codec
        (map (λ o. o.message) (outgoing ∷ outgoing ∷ []))
        []).1
unfolding parts stream outgoing flatten encode BaseHeader.new encode_raw to_bytes
parts_ok = refl

encoded_delivered_example :
    ((encode_all header_serde buffers small_codec
        (map (λ o. o.message) (outgoing ∷ outgoing ∷ []))
        []).0
      ≡ ok tt)
    × (mss : List (List (Message ℕ Boxed))) × (read_all nom buffers parts small_codec
        ≡ some (mss, small_codec))
    × (flatten mss ≡ delivered (map as_sent (outgoing ∷ outgoing ∷ [])))
unfolding parts stream outgoing encode BaseHeader.new
encoded_delivered_example =
    encoded_delivered Boxed nom header_serde buffers small_codec small_codec 39
      (outgoing ∷ outgoing ∷ []) parts (outgoing-Passes, (outgoing-Passes, tt)) refl parts_ok
      ((omega arith, omega arith), ((omega arith, omega arith), ((omega arith, omega arith), tt)))

decoded_bounded_example :
    length
      (decode_each ℕ Boxed nom buffers
        (frame ∷ garbage ∷ frame ∷ frame ∷ [])
        small_codec).parser.buffer
    ≤ 100
decoded_bounded_example =
    decoded_bounded ℕ Boxed nom buffers 100 50 (frame ∷ garbage ∷ frame ∷ frame ∷ [])

parsers_never_panic_example :
    ((decode {V = ℕ} {A = Boxed} nom buffers small_codec garbage).0 ≢ panic)
    × ((x : ProtocolResult (List (Message ℕ Boxed)) × MessageParser) × (parse_all nom buffers
            (holding frame)
          ≡ some x)
        × (x.0 ≢ panic))
    × (from_bytes {V = ℕ} {A = Boxed} nom garbage ≢ panic)
    × (peek_message_info garbage ≢ panic)
parsers_never_panic_example =
    parsers_never_panic ℕ Boxed nom buffers small_codec (holding frame) garbage

-- A header of 51 bytes, where 50 are allowed, and none of them there.
abbrev large : BaseHeader
large = record base { header_length = 51 }

large-IsValid : IsValid large
large-IsValid = record {
  version_ok = refl;
  client_id_ok = omega arith;
  reserved_ok = refl;
  header_length_ok = omega arith;
  payload_length_ok = omega arith;
}

oversized_refused_example :
    let next = (push_data buffers (holding (encode large)) (1 ∷ [])).1 in
    (try_parse {V = ℕ} {A = Boxed} nom buffers next ≡ (err (header_too_large 51 50), next))
    × (parse_all {V = ℕ} {A = Boxed} nom buffers next ≡ some (err (header_too_large 51 50), next))
oversized_refused_example =
    oversized_refused ℕ Boxed nom buffers (holding (encode large)) large [] (1 ∷ []) large-IsValid
      (sym (append-nil (encode large))) (inl (omega arith))

-- A payload of 2^64 - 1 bytes: with the base header, the sum wraps around to 33.
abbrev endless : BaseHeader
endless = record base { header_length = 0; payload_length = 18446744073709551615 }

endless-IsValid : IsValid endless
endless-IsValid = record {
  version_ok = refl;
  client_id_ok = omega arith;
  reserved_ok = refl;
  header_length_ok = omega arith;
  payload_length_ok = omega arith;
}

endless-total : total_message_size endless ≡ 33
unfolding total_message_size
endless-total = refl

wrapped_total_slips_example :
    (18446744073709551616 ≤ announced endless)
    × (try_parse {V = ℕ} {A = Boxed} nom buffers (holding (encode endless)) ≡ (
      err (incomplete_data 34 (total_message_size endless)),
      holding (drop (total_message_size endless) (encode endless)),
    ))
wrapped_total_slips_example =
    wrapped_total_slips ℕ Boxed nom buffers (holding (encode endless)) endless [] endless-IsValid
      (sym (append-nil (encode endless))) (omega arith) (omega (arith, endless-total))
      (omega (arith, endless-total))
