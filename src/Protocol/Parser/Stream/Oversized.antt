-- ===== src/Protocol/Parser/Stream/Oversized.antt =====
-- A message over the limits of the parser of crates/protocol/src/parser.rs.
use zeroio.Common.{
  ℕ, ◌+◌, ◌≡◌, subst, append-nil, ◌<◌, ◌⊎◌, inl, inr, refl, sym, ◌∙◌, ap, some, List, [], ◌++◌, err,
  ltb, if◌then◌else◌, length, length-append, append_assoc, arith, lt→ltb, Bool-cases,
}
use zeroio.Common.Words.{as_u32}
use zeroio.Protocol.Errors.{ProtocolError, header_too_large, message_too_large}
use zeroio.Protocol.External.{Nom, Buffers}
use zeroio.Protocol.Types.BaseHeader.{
  BaseHeader, IsValid, encode, length-encode, NoOverflow, total_of_NoOverflow,
}
use zeroio.Protocol.Parser.Stream.{MessageParser, push_data, extract, try_parse, parse_all}
use zeroio.Protocol.Parser.Stream.Extract.{take-encode, parse-encode, try_parse_base}
use zeroio.Protocol.Parser.Stream.Batch.{with_buffer, parse_loop_stop}

-- The bytes that are announced, without a wrap-around.
abbrev pub announced : BaseHeader → ℕ
announced h = 34 + h.header_length + h.payload_length

-- The header is larger than the parser allows, or the sizes add up to a u64 and the whole message is.
abbrev pub IsOversized : MessageParser → BaseHeader → Type 0
IsOversized p h =
    (as_u32 p.max_header_size < h.header_length)
    ⊎ (NoOverflow h × (p.max_message_size < announced h))

abbrev pub refusal : MessageParser → BaseHeader → ProtocolError
refusal p h =
    if ltb (as_u32 p.max_header_size) h.header_length
    then header_too_large h.header_length p.max_header_size
    else message_too_large (announced h) p.max_message_size

push_data_keeps :
    (bufs : Buffers) (p : MessageParser) (more : List ℕ)
    → (extra : List ℕ) × ((push_data bufs p more).1 ≡ with_buffer p (p.buffer ++ extra))
unfolding push_data
push_data_keeps bufs p more =
    elim (Bool-cases (ltb p.max_message_size (length p.buffer + length more))) [
      | inl full ↦ ([], rw (full, append-nil p.buffer) refl)
      | inr room ↦ (more, rw (room, bufs.extend_lem p.buffer more) refl)
    ]

module _ {E : Type 0} (V A : Type 0) (nom : Nom E) (bufs : Buffers) where
  extract_refuses :
      (p : MessageParser) (h : BaseHeader)
      → IsOversized p h
      → extract {V = V} {A = A} nom bufs p h ≡ (err (refusal p h), p)
  unfolding extract
  extract_refuses p h over = elim (Bool-cases (ltb (as_u32 p.max_header_size) h.header_length)) [
    | inl large ↦ rw large refl
    | inr header_ok ↦ rw header_ok (elim over [
      | inl header_over ↦ absurd (grind arith)
      | inr (fits_u64, size_over) ↦
          rw (total_of_NoOverflow h fits_u64, lt→ltb p.max_message_size (announced h) size_over)
            refl
    ])
  ]

  try_parse_refuses :
      (p : MessageParser) (h : BaseHeader) (rest : List ℕ)
      → IsValid h
      → p.buffer ≡ encode h ++ rest
      → IsOversized p h
      → try_parse {V = V} {A = A} nom bufs p ≡ (err (refusal p h), p)
  try_parse_refuses p h rest valid front over =
      try_parse_base nom bufs p h
        (omega (
          arith,
          ap length front,
          length-append {0} (encode h) rest,
          length-encode h valid.reserved_ok,
        ))
        (rw (front, take-encode h rest valid.reserved_ok) (parse-encode nom h valid))
      ∙ extract_refuses p h over

  -- Let the buffer of a parser begin with a base header that announces a header over the parser's limit
  -- for headers, which is taken as a u32, or sizes that add up to a u64 and are over its limit for
  -- messages. However little of the message has come in, and whatever is pushed next,
  -- `try_parse` returns the error of that limit and takes nothing out of the buffer, and so does
  -- `parse_all`.
  pub oversized_refused :
      (p : MessageParser) (h : BaseHeader) (rest more : List ℕ)
      → IsValid h
      → p.buffer ≡ encode h ++ rest
      → IsOversized p h
      → let next = (push_data bufs p more).1 in
        (try_parse {V = V} {A = A} nom bufs next ≡ (err (refusal p h), next))
        × (parse_all {V = V} {A = A} nom bufs next ≡ some (err (refusal p h), next))
  unfolding parse_all
  oversized_refused p h rest more valid front over =
      (refused, parse_loop_stop V A nom bufs _ _ _ [] _ refused)
    where
      refused :
          try_parse {V = V} {A = A} nom bufs (push_data bufs p more).1
          ≡ (err (refusal p h), (push_data bufs p more).1)
      refused =
          let (extra, e) = push_data_keeps bufs p more in
          subst (λ q. try_parse {V = V} {A = A} nom bufs q ≡ (err (refusal p h), q)) (sym e)
            (try_parse_refuses (with_buffer p (p.buffer ++ extra)) h (rest ++ extra) valid
              (ap (λ b. b ++ extra) front ∙ append_assoc (encode h) rest extra) over)
