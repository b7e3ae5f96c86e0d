-- ===== src/Protocol/Parser/Frame/RoundTrip.antt =====
-- `parse_message_bytes` on the bytes of a message.
use zeroio.Common.{
  ℕ, ◌+◌, ◌≡◌, refl, subst, List, [], ◌++◌, ok, length, length-append, append-nil, arith, eq→==,
}
use zeroio.Protocol.External.{Nom}
use zeroio.Protocol.Types.BaseHeader.{BaseHeader, total_message_size, total_of_NoOverflow}
use zeroio.Protocol.Message.Bytes.{IsFrame, frame_bytes}
use zeroio.Protocol.Parser.Base.RoundTrip.{parse_base_header_nom-encode}
use zeroio.Protocol.Parser.Frame.{
  MessageFrame, frame_of, parse_message_frame_nom, parse_message_bytes,
}

module _ {E : Type 0} (nom : Nom E) {h : BaseHeader} (hb pb : List ℕ) (f : IsFrame h hb pb) where
  abbrev frame : MessageFrame
  frame = record { base_header = h; header_bytes = hb; payload_bytes = pb }

  frame_of_lem : frame_of nom (hb ++ pb) h ≡ ok ([], frame)
  unfolding frame_of
  frame_of_lem =
      rw (eq→== (length (hb ++ pb) + 34) (total_message_size h) whole, first, second) refl
    where
      whole : length (hb ++ pb) + 34 ≡ total_message_size h
      whole = omega (
        arith,
        length-append {0} hb pb,
        total_of_NoOverflow h f.no_overflow,
        f.header_bytes_ok,
        f.payload_bytes_ok,
      )

      first : nom.take_bytes h.header_length (hb ++ pb) ≡ ok (pb, hb)
      first =
          subst (λ n. nom.take_bytes n (hb ++ pb) ≡ ok (pb, hb)) f.header_bytes_ok
            (nom.take_ok hb pb)

      second : nom.take_bytes h.payload_length pb ≡ ok ([], pb)
      second =
          subst (λ n. nom.take_bytes n pb ≡ ok ([], pb)) f.payload_bytes_ok
            (subst (λ t. nom.take_bytes (length pb) t ≡ ok ([], pb)) (append-nil pb)
              (nom.take_ok pb []))

  -- The bytes of a message, of the lengths that its valid base header announces, are parsed into
  -- the base header, the header bytes and the payload bytes.
  pub parse_message_bytes-frame : parse_message_bytes nom (frame_bytes h hb pb) ≡ ok frame
  unfolding parse_message_bytes parse_message_frame_nom
  parse_message_bytes-frame =
      rw (parse_base_header_nom-encode nom h (hb ++ pb) f.base_ok, frame_of_lem)
