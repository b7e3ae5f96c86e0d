-- ===== src/Protocol/Codec/Bounds.antt =====
-- The bytes that `MessageCodec` of crates/protocol/src/codec.rs holds, over any inputs.
use zeroio.Common.{
  ℕ, ◌≡◌, ◌≤◌, refl, ◌∙◌, List, [], ◌∷◌, ok, err, panic, ltb, is_empty, length, arith, Bool-cases,
  inl, inr,
}
use zeroio.Protocol.Errors.{ProtocolResult}
use zeroio.Protocol.External.{Nom, Buffers}
use zeroio.Protocol.Parser.Stream.{MessageParser, push_data}
use zeroio.Protocol.Parser.Stream.Bounds.{try_parse-Shrinks}
use zeroio.Protocol.Codec.{MessageCodec, codec_with_limits, after_push, decode_with, decode}
use zeroio.Protocol.Codec.RoundTrip.{decode-IsBounded}

-- `decode` on one input after another, whatever it returns.
abbrev pub decode_each :
    {E : Type 0} (V A : Type 0) → Nom E → Buffers → List (List ℕ) → MessageCodec → MessageCodec
decode_each V A nom bufs [] c = c
decode_each V A nom bufs (src ∷ inputs) c =
    decode_each V A nom bufs inputs (decode {V = V} {A = A} nom bufs c src).1

push_data-limit :
    (bufs : Buffers) (p : MessageParser) (src : List ℕ)
    → (push_data bufs p src).1.max_message_size ≡ p.max_message_size
unfolding push_data
push_data-limit bufs p src = ground arith

module _ {E : Type 0} (V A : Type 0) (nom : Nom E) (bufs : Buffers) where
  decode-limit :
      (c : MessageCodec) (src : List ℕ)
      → (decode {V = V} {A = A} nom bufs c src).1.parser.max_message_size
        ≡ c.parser.max_message_size
  unfolding decode decode_with
  decode-limit c src = elim (Bool-cases (ltb c.max_frame_size (length src))) [
    | inl large ↦ rw large refl
    | inr small ↦ rw small (elim (Bool-cases (is_empty src)) [
      | inl nothing ↦ rw nothing (try_parse-Shrinks V A nom bufs c.parser).same_message_limit
      | inr there ↦ rw there (pushed (push_data bufs c.parser src).0)
    ])
  ]
    where
      pushed :
          (r : ProtocolResult (Unit {0}))
          → (after_push {V = V} {A = A} nom bufs src r
              (push_data bufs c.parser src).1).1.max_message_size
            ≡ c.parser.max_message_size
      pushed (ok u) =
          (try_parse-Shrinks V A nom bufs (push_data bufs c.parser src).1).same_message_limit
          ∙ push_data-limit bufs c.parser src
      pushed (err e) = push_data-limit bufs c.parser src
      pushed panic = push_data-limit bufs c.parser src

  decode_each-bound :
      (limit : ℕ) (inputs : List (List ℕ)) (c : MessageCodec)
      → c.parser.max_message_size ≡ limit
      → length c.parser.buffer ≤ limit
      → length (decode_each V A nom bufs inputs c).parser.buffer ≤ limit
  decode_each-bound limit [] c same bound = bound
  decode_each-bound limit (src ∷ inputs) c same bound =
      let limit' = decode-limit c src ∙ same in
      decode_each-bound limit inputs (decode {V = V} {A = A} nom bufs c src).1 limit'
        (omega (arith, limit', decode-IsBounded V A nom bufs c src (omega (arith, same, bound))))

  -- Whatever inputs a new codec decodes, one after the other and whatever it returns for them, it never
  -- holds more bytes than the largest message size that it was made with.
  pub decoded_bounded :
      (max_message max_header : ℕ) (inputs : List (List ℕ))
      → length
          (decode_each V A nom bufs inputs (codec_with_limits max_message max_header)).parser.buffer
        ≤ max_message
  decoded_bounded max_message max_header inputs =
      decode_each-bound max_message inputs (codec_with_limits max_message max_header) refl
        (omega arith)
