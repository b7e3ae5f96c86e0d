-- ===== src/Protocol/Message/Overflow.antt =====
-- Base headers whose announced sizes overflow a u64 in `total_message_size`.
use zeroio.Common.{
  ℕ, ◌+◌, ◌≡◌, ◌<◌, sym, ◌∙◌, List, ◌++◌, ok, panic, length, length-append, arith, false, lt→ltb,
  le→ltb, eq→==, ◌==◌, ap, or_panic,
}
use zeroio.Protocol.External.{Nom, Buffers, Serde}
use zeroio.Protocol.Types.Header.{Header}
use zeroio.Protocol.Types.BaseHeader.{
  BaseHeader, IsValid, encode, length-encode, total_message_size,
}
use zeroio.Protocol.Parser.Base.RoundTrip.{parse_base_header-encode}
use zeroio.Protocol.Message.{
  Message, fresh, of_parsed, from_bytes, raw_header_bytes, init_header, header,
}

-- The wrapped sum is the number of bytes that arrived, and these do not even hold the header.
pub record IsHostile (h : BaseHeader) (body : List ℕ) : Type 0 where
  pub base_ok : IsValid h
  pub wraps : total_message_size h ≡ 34 + length body
  pub cut_short : length body < h.header_length

module _ {E : Type 0} (V A : Type 0) (nom : Nom E) (bufs : Buffers) {h : BaseHeader} {body : List ℕ}
    (bad : IsHostile h body) where
  length-hostile : length (encode h ++ body) ≡ 34 + length body
  length-hostile =
      omega (arith, length-append {0} (encode h) body, length-encode h bad.base_ok.reserved_ok)

  abbrev hostile : Message V A
  hostile = fresh h (encode h ++ body)

  of_parsed-hostile : of_parsed (encode h ++ body) h ≡ ok hostile
  unfolding of_parsed
  of_parsed-hostile =
      rw (eq→== (length (encode h ++ body)) (total_message_size h) (length-hostile ∙ sym bad.wraps))

  pub from_bytes-hostile : from_bytes nom (encode h ++ body) ≡ ok hostile
  unfolding from_bytes
  from_bytes-hostile = rw (
    le→ltb (length (encode h ++ body)) 34 (omega (arith, length-hostile)),
    parse_base_header-encode nom h body bad.base_ok,
    of_parsed-hostile,
  )

  has_header : (h.header_length == 0) ≡ false
  has_header = let short : length body < h.header_length = bad.cut_short in ground arith

  raw_header_bytes-hostile : raw_header_bytes bufs hostile ≡ panic
  unfolding raw_header_bytes
  raw_header_bytes-hostile =
      let short : length body < h.header_length = bad.cut_short in
      rw has_header (
        ap or_panic (
          bufs.slice_past_end 34 (34 + h.header_length) (encode h ++ body)
            (omega (arith, length-hostile))))

  -- Bytes whose base header announces sizes that overflow a u64 to just the length of the bytes,
  -- which are too few for the header: `from_bytes` accepts them, and reading the header of the
  -- message panics.
  pub hostile_header_panics :
      (serde : Serde (Header V))
      → (from_bytes nom (encode h ++ body) ≡ ok hostile)
        × (header serde bufs hostile ≡ (panic, hostile))
  unfolding header init_header
  hostile_header_panics serde =
      let short : length body < h.header_length = bad.cut_short in
      (from_bytes-hostile, rw (lt→ltb 0 h.header_length (omega arith), raw_header_bytes-hostile))
