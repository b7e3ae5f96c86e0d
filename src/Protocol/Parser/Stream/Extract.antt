-- ===== src/Protocol/Parser/Stream/Extract.antt =====
-- One call of `try_parse` on a buffer that begins with a message, whole or in part.
use zeroio.Common.{
  ℕ, ◌≡◌, ◌≤◌, ◌<◌, sym, ◌∙◌, ap, ap₂, subst, none, some, List, [], ◌∷◌, ◌++◌, ok, length,
  length-append, take, drop, take-append, drop-append, take-append_le, append-nil, append_assoc,
  arith, ltb, lt→ltb, le→ltb, Bool-cases, inl, inr, ltb→lt, ltb→le,
}
use zeroio.Common.Words.{as_u32}
use zeroio.Protocol.External.{Nom, Buffers}
use zeroio.Protocol.Types.BaseHeader.{
  BaseHeader, IsValid, encode, length-encode, total_message_size,
}
use zeroio.Protocol.Message.{fresh}
use zeroio.Protocol.Message.Bytes.{
  IsFrame, frame_bytes, length-frame_bytes, total-frame_bytes, from_bytes-frame,
}
use zeroio.Protocol.Parser.Base.{parse_base_header}
use zeroio.Protocol.Parser.Base.RoundTrip.{parse_base_header-encode}
use zeroio.Protocol.Parser.Stream.{MessageParser, extract, try_parse}

-- The sizes of a message are within the limits of a parser.
pub record IsWithin (p : MessageParser) (h : BaseHeader) : Type 0 where
  pub header_within : h.header_length ≤ as_u32 p.max_header_size
  pub message_within : total_message_size h ≤ p.max_message_size

pub take-encode :
    (h : BaseHeader) (body : List ℕ)
    → length h.reserved ≡ 16
    → take 34 (encode h ++ body) ≡ encode h
take-encode h body e =
    subst (λ n. take n (encode h ++ body) ≡ encode h) (length-encode h e)
      (take-append (encode h) body)

pub parse-encode :
    {E : Type 0} (nom : Nom E) (h : BaseHeader)
    → IsValid h
    → parse_base_header nom (encode h) ≡ ok h
parse-encode nom h v =
    subst (λ t. parse_base_header nom t ≡ ok h) (append-nil (encode h))
      (parse_base_header-encode nom h [] v)

module _ {E V A : Type 0} (nom : Nom E) (bufs : Buffers) where
  pub try_parse_base :
      (p : MessageParser) (h : BaseHeader)
      → 34 ≤ length p.buffer
      → parse_base_header nom (take 34 p.buffer) ≡ ok h
      → try_parse {V = V} {A = A} nom bufs p ≡ extract nom bufs p h
  unfolding try_parse
  try_parse_base p h long e = rw (le→ltb (length p.buffer) 34 long, e)

  extract_whole :
      (p : MessageParser) {h : BaseHeader} (hb pb rest : List ℕ)
      → IsFrame h hb pb
      → IsWithin p h
      → p.buffer ≡ frame_bytes h hb pb ++ rest
      → extract nom bufs p h
        ≡ (ok (some (fresh {V = V} {A = A} h (frame_bytes h hb pb))), record p { buffer = rest })
  unfolding extract
  extract_whole p {h} hb pb rest f w e = rw (
    le→ltb (as_u32 p.max_header_size) h.header_length w.header_within,
    le→ltb p.max_message_size (total_message_size h) w.message_within,
    le→ltb (length p.buffer) (total_message_size h) all_there,
    cut_out,
    from_bytes-frame f {V = V} {A = A} nom,
  )
    where
      all_there : total_message_size h ≤ length p.buffer
      all_there =
          omega
            (arith, ap length e, length-append {0} (frame_bytes h hb pb) rest, total-frame_bytes f)

      front : take (total_message_size h) p.buffer ≡ frame_bytes h hb pb
      front = rw (e, total-frame_bytes f) (take-append (frame_bytes h hb pb) rest)

      after : drop (total_message_size h) p.buffer ≡ rest
      after = rw (e, total-frame_bytes f) (drop-append (frame_bytes h hb pb) rest)

      cut_out : bufs.split_to (total_message_size h) p.buffer ≡ some (frame_bytes h hb pb, rest)
      cut_out =
          bufs.split_to_ok (total_message_size h) p.buffer all_there
          ∙ ap₂ (λ a b. some (a, b)) front after

  -- A buffer that begins with a whole message within the limits of the parser gives that message,
  -- and the parser keeps the bytes behind it.
  pub try_parse_whole :
      (p : MessageParser) {h : BaseHeader} (hb pb rest : List ℕ)
      → IsFrame h hb pb
      → IsWithin p h
      → p.buffer ≡ frame_bytes h hb pb ++ rest
      → try_parse nom bufs p
        ≡ (ok (some (fresh {V = V} {A = A} h (frame_bytes h hb pb))), record p { buffer = rest })
  try_parse_whole p {h} hb pb rest f w e =
      try_parse_base p h long base ∙ extract_whole p hb pb rest f w e
    where
      long : 34 ≤ length p.buffer
      long =
          omega
            (arith, ap length e, length-append {0} (frame_bytes h hb pb) rest, length-frame_bytes f)

      base : parse_base_header nom (take 34 p.buffer) ≡ ok h
      base =
          rw
            (
              e,
              append_assoc (encode h) (hb ++ pb) rest,
              take-encode h ((hb ++ pb) ++ rest) f.base_ok.reserved_ok,
            )
            (parse-encode nom h f.base_ok)

  extract_waits :
      (p : MessageParser) (h : BaseHeader)
      → IsWithin p h
      → length p.buffer < total_message_size h
      → extract {V = V} {A = A} nom bufs p h ≡ (ok none, p)
  unfolding extract
  extract_waits p h w short = rw (
    le→ltb (as_u32 p.max_header_size) h.header_length w.header_within,
    le→ltb p.max_message_size (total_message_size h) w.message_within,
    lt→ltb (length p.buffer) (total_message_size h) short,
  )

  pub try_parse_short :
      (p : MessageParser)
      → length p.buffer < 34
      → try_parse {V = V} {A = A} nom bufs p ≡ (ok none, p)
  unfolding try_parse
  try_parse_short p short = rw (lt→ltb (length p.buffer) 34 short)

  -- On a buffer that holds a proper prefix of a message within the limits of the parser,
  -- `try_parse` returns `None` and changes nothing.
  pub try_parse_waits :
      (p : MessageParser) {h : BaseHeader} (hb pb : List ℕ) (x : ℕ) (missing : List ℕ)
      → IsFrame h hb pb
      → IsWithin p h
      → frame_bytes h hb pb ≡ p.buffer ++ (x ∷ missing)
      → try_parse {V = V} {A = A} nom bufs p ≡ (ok none, p)
  try_parse_waits p {h} hb pb x missing f w e = elim (Bool-cases (ltb (length p.buffer) 34)) [
    | inl short ↦ try_parse_short p (ltb→lt _ _ short)
    | inr long ↦
        try_parse_base p h (ltb→le _ _ long) (base (ltb→le _ _ long)) ∙ extract_waits p h w not_all
  ]
    where
      not_all : length p.buffer < total_message_size h
      not_all =
          omega (arith, ap length e, length-append {0} p.buffer (x ∷ missing), total-frame_bytes f)

      base : 34 ≤ length p.buffer → parse_base_header nom (take 34 p.buffer) ≡ ok h
      base long =
          subst (λ t. parse_base_header nom t ≡ ok h)
            (sym (take-encode h (hb ++ pb) f.base_ok.reserved_ok)
              ∙ ap (take 34) e
              ∙ take-append_le 34 p.buffer (x ∷ missing) long)
            (parse-encode nom h f.base_ok)
