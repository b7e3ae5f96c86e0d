-- ===== src/Protocol/Parser/Base/RoundTrip.antt =====
-- The base header parser against the bytes that `RawMessage::to_bytes` writes.
use zeroio.Common.{ℕ, ◌≡◌, refl, ap, ◌∙◌, some, List, ◌∷◌, ◌++◌, ok, append_assoc}
use zeroio.Common.Words.{to_be_u32, to_be_u64, from_be-to_be_u32, from_be-to_be_u64}
use zeroio.Protocol.External.{Nom}
use zeroio.Protocol.Types.MessageType.{to_u8, from_u8, from_u8-to_u8}
use zeroio.Protocol.Types.BaseHeader.{BaseHeader, IsValid, encode}
use zeroio.Protocol.Parser.Base.{convert, parse_base_header_nom, parse_base_header}
use zeroio.Protocol.Parser.Base.Fields.{fields}

-- The bytes of a header, and what follows them, as the parser takes them apart.
abbrev pub wire : BaseHeader → List ℕ → List ℕ
wire h rest =
    h.version
    ∷ to_u8 h.message_type
    ∷ (to_be_u32 h.client_id
        ++ (h.reserved ++ (to_be_u32 h.header_length ++ (to_be_u64 h.payload_length ++ rest))))

pub encode-append : (h : BaseHeader) (rest : List ℕ) → encode h ++ rest ≡ wire h rest
unfolding encode
encode-append h rest =
    ap (λ t. h.version ∷ to_u8 h.message_type ∷ (to_be_u32 h.client_id ++ t))
      (append_assoc h.reserved (to_be_u32 h.header_length ++ to_be_u64 h.payload_length) rest)

module _ {E : Type 0} (nom : Nom E) where
  convert-to_u8 :
      (h : BaseHeader) (rest : List ℕ) (t : ℕ)
      → from_u8 t ≡ some h.message_type
      → convert nom rest h.version t h.client_id h.reserved h.header_length h.payload_length
        ≡ ok (rest, h)
  unfolding convert
  convert-to_u8 h rest t e = rw (e, convert)

  -- Parsing the encoding of a valid header, with any bytes behind it, gives the header back and
  -- leaves those bytes.
  pub parse_base_header_nom-encode :
      (h : BaseHeader) (rest : List ℕ)
      → IsValid h
      → parse_base_header_nom nom (encode h ++ rest) ≡ ok (rest, h)
  parse_base_header_nom-encode h rest v = rw encode-append (
      fields nom h.version (to_u8 h.message_type) (to_be_u32 h.client_id) h.reserved
        (to_be_u32 h.header_length) (to_be_u64 h.payload_length) rest v.version_ok refl
        v.reserved_ok refl refl
      ∙ rw
          (
            from_be-to_be_u32 h.client_id v.client_id_ok,
            from_be-to_be_u32 h.header_length v.header_length_ok,
            from_be-to_be_u64 h.payload_length v.payload_length_ok,
          )
          (convert-to_u8 h rest (to_u8 h.message_type) (from_u8-to_u8 h.message_type)))

  pub parse_base_header-encode :
      (h : BaseHeader) (rest : List ℕ) → IsValid h → parse_base_header nom (encode h ++ rest) ≡ ok h
  unfolding parse_base_header
  parse_base_header-encode h rest v = rw (parse_base_header_nom-encode h rest v)
