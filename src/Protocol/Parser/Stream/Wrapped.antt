-- ===== src/Protocol/Parser/Stream/Wrapped.antt =====
-- Sizes over 2^64 at the parser of crates/protocol/src/parser.rs: their sum is `total_message_size` of
-- types.rs, which wraps around in a release build.
use zeroio.Common.{
  ℕ, ◌≡◌, ◌<◌, ◌≤◌, ◌∙◌, ap, List, ◌++◌, err, refl, length, length-append, length-take, take, drop,
  arith, lt→ltb, le→ltb,
}
use zeroio.Common.Words.{as_u32}
use zeroio.Protocol.Errors.{incomplete_data}
use zeroio.Protocol.External.{Nom, Buffers}
use zeroio.Protocol.Types.BaseHeader.{
  BaseHeader, IsValid, encode, length-encode, total_message_size,
}
use zeroio.Protocol.Message.{from_bytes}
use zeroio.Protocol.Parser.Stream.{MessageParser, extract, try_parse}
use zeroio.Protocol.Parser.Stream.Extract.{take-encode, parse-encode, try_parse_base}
use zeroio.Protocol.Parser.Stream.Oversized.{announced}

announced-wraps : (h : BaseHeader) → total_message_size h < 34 → 18446744073709551616 ≤ announced h
unfolding total_message_size
announced-wraps h small = omega (arith, small)

module _ {E : Type 0} (V A : Type 0) (nom : Nom E) (bufs : Buffers) where
  from_bytes_short :
      (bytes : List ℕ)
      → length bytes < 34
      → from_bytes {V = V} {A = A} nom bytes ≡ err (incomplete_data 34 (length bytes))
  unfolding from_bytes
  from_bytes_short bytes short = rw (lt→ltb (length bytes) 34 short) refl

  extract_cuts :
      (p : MessageParser) (h : BaseHeader)
      → h.header_length ≤ as_u32 p.max_header_size
      → total_message_size h ≤ p.max_message_size
      → total_message_size h < 34
      → 34 ≤ length p.buffer
      → extract {V = V} {A = A} nom bufs p h ≡ (
        err (incomplete_data 34 (total_message_size h)),
        record p { buffer = drop (total_message_size h) p.buffer },
      )
  unfolding extract
  extract_cuts p h header_ok total_ok small long =
      let cut : length (take (total_message_size h) p.buffer) ≡ total_message_size h =
        length-take (total_message_size h) p.buffer ∙ omega (arith, small, long) in
      rw
        (
          le→ltb (as_u32 p.max_header_size) h.header_length header_ok,
          le→ltb p.max_message_size (total_message_size h) total_ok,
          le→ltb (length p.buffer) (total_message_size h) (omega (arith, small, long)),
          bufs.split_to_ok (total_message_size h) p.buffer (omega (arith, small, long)),
          from_bytes_short (take (total_message_size h) p.buffer) (omega (arith, cut, small)),
          cut,
        )
        refl

  -- Let the buffer of a parser begin with a valid base header whose sizes add up to less than 34 modulo
  -- 2^64, and let that remainder and the header length be within the parser's limits. Then the sizes
  -- are more than any u64, but `try_parse` does not refuse them: it takes as many bytes as the
  -- remainder out of the buffer, and returns the error that they are too few for a base header.
  pub wrapped_total_slips :
      (p : MessageParser) (h : BaseHeader) (rest : List ℕ)
      → IsValid h
      → p.buffer ≡ encode h ++ rest
      → h.header_length ≤ as_u32 p.max_header_size
      → total_message_size h ≤ p.max_message_size
      → total_message_size h < 34
      → (18446744073709551616 ≤ announced h)
        × (try_parse {V = V} {A = A} nom bufs p ≡ (
          err (incomplete_data 34 (total_message_size h)),
          record p { buffer = drop (total_message_size h) p.buffer },
        ))
  wrapped_total_slips p h rest valid front header_ok total_ok small =
      let long : 34 ≤ length p.buffer = omega (
        arith,
        ap length front,
        length-append {0} (encode h) rest,
        length-encode h valid.reserved_ok,
      ) in
      (
        announced-wraps h small,
        try_parse_base nom bufs p h long
              (rw (front, take-encode h rest valid.reserved_ok) (parse-encode nom h valid))
            ∙ extract_cuts p h header_ok total_ok small long,
      )
