-- ===== src/Protocol/Parser/Base/Soundness.antt =====
-- What the base header parser accepts: nothing but the bytes of a valid header.
use zeroio.Common.{
  ℕ, ◌≤◌, ◌≡◌, ◌≢◌, ap, sym, ◌∙◌, subst, List, ◌∷◌, ◌++◌, ok, err, panic, map_ok, map_err, All,
  All-append_left, All-append_right, length, arith,
}
use native.Mathlib.Decide.{ℕ_discrete}
use zeroio.Common.Words.{
  IsByte, IsU32, IsU64, from_be, to_be_u32-from_be, from_be-lt-IsU32, IsU64-bytes,
}
use zeroio.Protocol.Errors.{ProtocolError}
use zeroio.Protocol.External.{IResult, Nom}
use zeroio.Protocol.Types.MessageType.{to_u8, to_u8_of_from_u8}
use zeroio.Protocol.Types.BaseHeader.{BaseHeader, IsValid, encode}
use zeroio.Protocol.Parser.Base.{convert, parse_base_header_nom, parse_base_header}
use zeroio.Protocol.Parser.Base.Fields.{fields, Split, split, wrong_version}
use zeroio.Protocol.Parser.Base.RoundTrip.{wire, encode-append}

module _ {E : Type 0} (nom : Nom E) where
  record Converted (i : List ℕ) (v t c : ℕ) (r : List ℕ) (hl pl : ℕ) (rest : List ℕ)
      (h : BaseHeader) : Type 0 where
    rest_eq : i ≡ rest
    version_eq : v ≡ h.version
    type_eq : to_u8 h.message_type ≡ t
    client_id_eq : c ≡ h.client_id
    reserved_eq : r ≡ h.reserved
    header_length_eq : hl ≡ h.header_length
    payload_length_eq : pl ≡ h.payload_length

  converted :
      (i : List ℕ) (v t c : ℕ) (r : List ℕ) (hl pl : ℕ) (rest : List ℕ) (h : BaseHeader)
      → convert nom i v t c r hl pl ≡ ok (rest, h)
      → Converted i v t c r hl pl rest h
  unfolding convert
  converted i v t c r hl pl rest h e = ground (arith, to_u8_of_from_u8 t h.message_type)

  sound-Split :
      (input rest : List ℕ) (h : BaseHeader) (s : Split input)
      → s.version ≡ 1
      → All IsByte input
      → parse_base_header_nom nom input ≡ ok (rest, h)
      → (input ≡ encode h ++ rest) × IsValid h
  sound-Split input rest h s one bytes e = (
    s.whole ∙ same ∙ sym (encode-append h rest),
    record {
      version_ok = sym cv.version_eq ∙ one;
      client_id_ok =
          subst IsU32 cv.client_id_eq (from_be-lt-IsU32 s.client_id s.client_id_bytes bc);
      reserved_ok = subst (λ r. length r ≡ 16) cv.reserved_eq s.reserved_bytes;
      header_length_ok =
          subst IsU32 cv.header_length_eq
            (from_be-lt-IsU32 s.header_length s.header_length_bytes bh);
      payload_length_ok =
          subst IsU64 cv.payload_length_eq
            (IsU64-bytes s.payload_length s.payload_length_bytes bp).0;
    },
  )
    where
      cv :
          Converted s.rest s.version s.type_u8
            (from_be s.client_id)
            s.reserved
            (from_be s.header_length)
            (from_be s.payload_length)
            rest
            h
      cv =
          converted s.rest s.version s.type_u8 (from_be s.client_id) s.reserved
            (from_be s.header_length) (from_be s.payload_length) rest h
            (sym (
                fields nom s.version s.type_u8 s.client_id s.reserved s.header_length
                  s.payload_length s.rest one s.client_id_bytes s.reserved_bytes
                  s.header_length_bytes s.payload_length_bytes)
              ∙ ap (parse_base_header_nom nom) (sym s.whole)
              ∙ e)

      b2 :
          All IsByte
            (s.client_id ++ (s.reserved ++ (s.header_length ++ (s.payload_length ++ s.rest))))
      b2 = (subst (All IsByte) s.whole bytes).1.1

      bc : All IsByte s.client_id
      bc = All-append_left IsByte s.client_id _ b2

      b4 : All IsByte (s.header_length ++ (s.payload_length ++ s.rest))
      b4 = All-append_right IsByte s.reserved _ (All-append_right IsByte s.client_id _ b2)

      bh : All IsByte s.header_length
      bh = All-append_left IsByte s.header_length _ b4

      bp : All IsByte s.payload_length
      bp =
          All-append_left IsByte s.payload_length s.rest
            (All-append_right IsByte s.header_length _ b4)

      same :
          ◌≡◌ {A = List ℕ}
            (s.version
              ∷ s.type_u8
              ∷ (s.client_id ++ (s.reserved ++ (s.header_length ++ (s.payload_length ++ s.rest)))))
            (wire h rest)
      same = cc (
        cv.rest_eq,
        cv.version_eq,
        cv.type_eq,
        cv.client_id_eq,
        cv.reserved_eq,
        cv.header_length_eq,
        cv.payload_length_eq,
        to_be_u32-from_be s.client_id s.client_id_bytes bc,
        to_be_u32-from_be s.header_length s.header_length_bytes bh,
        (IsU64-bytes s.payload_length s.payload_length_bytes bp).1,
      )

  wrong_version-Split :
      (input rest : List ℕ) (h : BaseHeader) (s : Split input)
      → s.version ≢ 1
      → parse_base_header_nom nom input ≢ ok (rest, h)
  wrong_version-Split input rest h s ne e =
      let (x, p) =
        wrong_version nom s.version
          (s.type_u8
            ∷ (s.client_id ++ (s.reserved ++ (s.header_length ++ (s.payload_length ++ s.rest)))))
          ne in
      cc (p, ap (parse_base_header_nom nom) s.whole, e)

  -- On 34 bytes or more, an input that the parser accepts is the encoding of the header that it
  -- returns, followed by the bytes that it leaves, and the header is valid.
  pub parse_base_header_nom_sound :
      (input rest : List ℕ) (h : BaseHeader)
      → All IsByte input
      → 34 ≤ length input
      → parse_base_header_nom nom input ≡ ok (rest, h)
      → (input ≡ encode h ++ rest) × IsValid h
  parse_base_header_nom_sound input rest h bytes long e =
      let s = split input long in
      elim (ℕ_discrete s.version 1) [
        | yes one ↦ sound-Split input rest h s one bytes e
        | no ne ↦ absurd (wrong_version-Split input rest h s ne e)
      ]

  unwrap :
      (f : E → ProtocolError) (r : IResult E BaseHeader) (h : BaseHeader)
      → map_err f (map_ok (λ p. p.1) r) ≡ ok h
      → (rest : List ℕ) × (r ≡ ok (rest, h))
  unwrap f (ok (rest, g)) h e = (rest, cc)
  unwrap f (err x) h e = cc
  unwrap f panic h e = cc

  -- A header that `parse_base_header` returns is valid, and its encoding is the front of the input.
  pub parse_base_header_sound :
      (input : List ℕ) (h : BaseHeader)
      → All IsByte input
      → 34 ≤ length input
      → parse_base_header nom input ≡ ok h
      → (rest : List ℕ) × (input ≡ encode h ++ rest) × IsValid h
  unfolding parse_base_header
  parse_base_header_sound input h bytes long e =
      let (rest, p) = unwrap _ (parse_base_header_nom nom input) h e in
      let (q, v) = parse_base_header_nom_sound input rest h bytes long p in (rest, q, v)
