-- ===== src/Protocol/Parser/Stream/NoPanic.antt =====
-- No bytes make the parsers of crates/protocol/src/parser.rs, message.rs and codec.rs panic.
use native.Mathlib.Decide.{ℕ_discrete}
use zeroio.Common.{
  ℕ, zero, suc, ◌≡◌, ◌≢◌, ◌≤◌, refl, sym, ◌∙◌, ap, none, some, List, [], ◌∷◌, ◌++◌, Result, ok, err,
  panic, map_ok, map_err, length, length-take, take, arith, ◌>>=◌, is_empty, ltb, ltb→le,
  Bool-cases, inl, inr,
}
use zeroio.Common.Words.{from_be, as_u32}
use zeroio.Protocol.Errors.{ProtocolResult}
use zeroio.Protocol.External.{Fails, Nom, Buffers}
use zeroio.Protocol.Types.BaseHeader.{BaseHeader, total_message_size}
use zeroio.Protocol.Message.{Message, of_parsed, from_bytes}
use zeroio.Protocol.Parser.Base.{convert, parse_base_header_nom, parse_base_header}
use zeroio.Protocol.Parser.Base.Fields.{fields, split, wrong_version}
use zeroio.Protocol.Parser.Stream.{
  MessageParser, push_data, Parsed, with_base, extract, try_parse, parse_loop, parse_all,
}
use zeroio.Protocol.Parser.Peek.{peek_bytes, peek_message_info}
use zeroio.Protocol.Parser.Stream.Batch.{
  parse_loop_more, parse_loop_end, parse_loop_stop, parse_all_ends,
}
use zeroio.Protocol.Codec.{MessageCodec, after_push, decode_with, decode}

map-ne-panic :
    {E F A B : Type 0} (f : E → F) (g : A → B) (r : Result E A)
    → r ≢ panic
    → map_err f (map_ok g r) ≢ panic
map-ne-panic f g (ok a) ne e = cc
map-ne-panic f g (err x) ne e = cc
map-ne-panic f g panic ne e = ne refl

map_ok-ne-panic : {E A B : Type 0} (g : A → B) (r : Result E A) → r ≢ panic → map_ok g r ≢ panic
map_ok-ne-panic g (ok a) ne e = cc
map_ok-ne-panic g (err x) ne e = cc
map_ok-ne-panic g panic ne e = ne refl

Fails-ne-panic : {E A : Type 0} (r : Result E A) → Fails r → r ≢ panic
Fails-ne-panic r (x, p) e = cc

module _ {E : Type 0} (nom : Nom E) where
  convert-ne-panic :
      (i : List ℕ) (v t c : ℕ) (r : List ℕ) (hl pl : ℕ) → convert nom i v t c r hl pl ≢ panic
  unfolding convert
  convert-ne-panic i v t c r hl pl e = ground arith

  parse_base_header_nom-ne-panic :
      (bytes : List ℕ) → 34 ≤ length bytes → parse_base_header_nom nom bytes ≢ panic
  parse_base_header_nom-ne-panic bytes long e =
      let s = split bytes long in
      elim (ℕ_discrete s.version 1) [
        | yes one ↦
            convert-ne-panic s.rest s.version s.type_u8 (from_be s.client_id) s.reserved
              (from_be s.header_length) (from_be s.payload_length)
              (sym (
                  ap (parse_base_header_nom nom) s.whole
                  ∙ fields nom s.version s.type_u8 s.client_id s.reserved s.header_length
                      s.payload_length s.rest one s.client_id_bytes s.reserved_bytes
                      s.header_length_bytes s.payload_length_bytes)
                ∙ e)
        | no other ↦
            Fails-ne-panic _ (wrong_version nom s.version _ other)
              (sym (ap (parse_base_header_nom nom) s.whole) ∙ e)
      ]

  parse_base_header-ne-panic :
      (bytes : List ℕ) → 34 ≤ length bytes → parse_base_header nom bytes ≢ panic
  unfolding parse_base_header
  parse_base_header-ne-panic bytes long =
      map-ne-panic _ _ (parse_base_header_nom nom bytes) (parse_base_header_nom-ne-panic bytes long)

  of_parsed-ne-panic :
      (V A : Type 0) (bytes : List ℕ) (r : ProtocolResult BaseHeader)
      → r ≢ panic
      → (r >>= λ h. of_parsed {V = V} {A = A} bytes h) ≢ panic
  unfolding of_parsed
  of_parsed-ne-panic V A bytes (ok h) ne e = ground arith
  of_parsed-ne-panic V A bytes (err x) ne e = cc
  of_parsed-ne-panic V A bytes panic ne e = ne refl

  pub from_bytes-ne-panic :
      (V A : Type 0) (bytes : List ℕ) → from_bytes {V = V} {A = A} nom bytes ≢ panic
  unfolding from_bytes
  from_bytes-ne-panic V A bytes = elim (Bool-cases (ltb (length bytes) 34)) [
    | inl short ↦ rw short (λ e. cc)
    | inr long ↦ rw long (
        of_parsed-ne-panic V A bytes (parse_base_header nom bytes)
          (parse_base_header-ne-panic bytes (ltb→le _ _ long)))
  ]

module _ {E : Type 0} (V A : Type 0) (nom : Nom E) (bufs : Buffers) where
  extract-ne-panic :
      (p : MessageParser) (h : BaseHeader) → (extract {V = V} {A = A} nom bufs p h).0 ≢ panic
  unfolding extract
  extract-ne-panic p h = elim (Bool-cases (ltb (as_u32 p.max_header_size) h.header_length)) [
    | inl large ↦ rw large (λ e. cc)
    | inr header_ok ↦
        rw header_ok (elim (Bool-cases (ltb p.max_message_size (total_message_size h))) [
          | inl large ↦ rw large (λ e. cc)
          | inr size_ok ↦
              rw size_ok (elim (Bool-cases (ltb (length p.buffer) (total_message_size h))) [
                | inl short ↦ rw short (λ e. cc)
                | inr there ↦
                    rw (there, bufs.split_to_ok (total_message_size h) p.buffer (ltb→le _ _ there))
                      (map_ok-ne-panic some _ (from_bytes-ne-panic nom V A _))
              ])
        ])
  ]

  try_parse-ne-panic : (p : MessageParser) → (try_parse {V = V} {A = A} nom bufs p).0 ≢ panic
  unfolding try_parse
  try_parse-ne-panic p = elim (Bool-cases (ltb (length p.buffer) 34)) [
    | inl short ↦ rw short (λ e. cc)
    | inr long ↦ rw long (
        by_base (parse_base_header nom (take 34 p.buffer))
          (parse_base_header-ne-panic nom (take 34 p.buffer) (front_long (ltb→le _ _ long))))
  ]
    where
      front_long : 34 ≤ length p.buffer → 34 ≤ length (take 34 p.buffer)
      front_long long = omega (arith, length-take {0} 34 p.buffer)

      by_base :
          (r : ProtocolResult BaseHeader)
          → r ≢ panic
          → (with_base {V = V} {A = A} nom bufs p r).0 ≢ panic
      by_base (ok h) ne = extract-ne-panic p h
      by_base (err x) ne = λ e. cc
      by_base panic ne = λ e. ne refl

  push_data-ne-panic : (p : MessageParser) (src : List ℕ) → (push_data bufs p src).0 ≢ panic
  unfolding push_data
  push_data-ne-panic p src e = ground arith

  decode-ne-panic :
      (c : MessageCodec) (src : List ℕ) → (decode {V = V} {A = A} nom bufs c src).0 ≢ panic
  unfolding decode decode_with
  decode-ne-panic c src = elim (Bool-cases (ltb c.max_frame_size (length src))) [
    | inl large ↦ rw large (λ e. cc)
    | inr small ↦ rw small (elim (Bool-cases (is_empty src)) [
      | inl nothing ↦ rw nothing (try_parse-ne-panic c.parser)
      | inr there ↦
          rw there (pushed (push_data bufs c.parser src).0 (push_data-ne-panic c.parser src))
    ])
  ]
    where
      pushed :
          (r : ProtocolResult (Unit {0}))
          → r ≢ panic
          → (after_push {V = V} {A = A} nom bufs src r (push_data bufs c.parser src).1).0 ≢ panic
      pushed (ok u) ne = try_parse-ne-panic _
      pushed (err e) ne = λ q. cc
      pushed panic ne = λ q. ne refl

  first-ne-panic :
      (fuel : ℕ) (p p' : MessageParser) (found : List (Message V A)) (t : Parsed V A)
      → try_parse nom bufs p ≡ t
      → t.0 ≢ panic
      → ((next : MessageParser) (found' : List (Message V A))
          → parse_loop nom bufs fuel next found' ≢ some (panic, p'))
      → parse_loop nom bufs (suc fuel) p found ≢ some (panic, p')
  first-ne-panic fuel p p' found (ok (some m), next) e ne ih q =
      ih next (found ++ m ∷ []) (sym (parse_loop_more V A nom bufs fuel p next m found e) ∙ q)
  first-ne-panic fuel p p' found (ok none, next) e ne ih q =
      let stopped = parse_loop_end V A nom bufs fuel p next found e in cc
  first-ne-panic fuel p p' found (err x, next) e ne ih q =
      let stopped = parse_loop_stop V A nom bufs fuel p next found x e in cc
  first-ne-panic fuel p p' found (panic, next) e ne ih q = ne refl

  parse_loop-ne-panic :
      (fuel : ℕ) (p p' : MessageParser) (found : List (Message V A))
      → parse_loop nom bufs fuel p found ≢ some (panic, p')
  unfolding parse_loop
  parse_loop-ne-panic zero p p' found e = cc
  parse_loop-ne-panic (suc fuel) p p' found e =
      first-ne-panic fuel p p' found (try_parse nom bufs p) refl (try_parse-ne-panic p)
        (λ next found'. parse_loop-ne-panic fuel next p' found') e

  peek_bytes-ne-panic :
      (b0 b1 b2 b3 b4 b5 : ℕ) (rest : List ℕ)
      → peek_bytes (b0 ∷ b1 ∷ b2 ∷ b3 ∷ b4 ∷ b5 ∷ rest) ≢ panic
  unfolding peek_bytes
  peek_bytes-ne-panic b0 b1 b2 b3 b4 b5 rest e = ground arith

  peek-ne-panic : (bytes : List ℕ) → peek_message_info bytes ≢ panic
  unfolding peek_message_info
  peek-ne-panic bytes = elim (Bool-cases (ltb (length bytes) 34)) [
    | inl short ↦ rw short (λ e. cc)
    | inr long ↦ rw long (by_bytes bytes (ltb→le _ _ long))
  ]
    where
      by_bytes : (input : List ℕ) → 34 ≤ length input → peek_bytes input ≢ panic
      by_bytes [] h = absurd (omega arith)
      by_bytes (b0 ∷ []) h = absurd (omega arith)
      by_bytes (b0 ∷ b1 ∷ []) h = absurd (omega arith)
      by_bytes (b0 ∷ b1 ∷ b2 ∷ []) h = absurd (omega arith)
      by_bytes (b0 ∷ b1 ∷ b2 ∷ b3 ∷ []) h = absurd (omega arith)
      by_bytes (b0 ∷ b1 ∷ b2 ∷ b3 ∷ b4 ∷ []) h = absurd (omega arith)
      by_bytes (b0 ∷ b1 ∷ b2 ∷ b3 ∷ b4 ∷ b5 ∷ rest) h = peek_bytes-ne-panic b0 b1 b2 b3 b4 b5 rest

  -- Whatever bytes come in, and whatever a codec or a parser holds already: `decode` does not panic,
  -- `parse_all` ends and does not panic, and neither do `from_bytes` and `peek_message_info`.
  pub parsers_never_panic :
      (c : MessageCodec) (p : MessageParser) (src : List ℕ)
      → ((decode {V = V} {A = A} nom bufs c src).0 ≢ panic)
        × ((x : ProtocolResult (List (Message V A)) × MessageParser) × (parse_all nom bufs p
              ≡ some x)
            × (x.0 ≢ panic))
        × (from_bytes {V = V} {A = A} nom src ≢ panic)
        × (peek_message_info src ≢ panic)
  unfolding parse_all
  parsers_never_panic c p src =
      let (x, ends) = parse_all_ends V A nom bufs p in
      (
        decode-ne-panic c src,
        (
          x,
          ends,
          λ e.
              parse_loop-ne-panic (suc (length p.buffer)) p x.1 []
                (ends ∙ ap (λ r. some (r, x.1)) e),
        ),
        from_bytes-ne-panic nom V A src,
        peek-ne-panic src,
      )
