-- ===== src/Protocol/Parser/Stream/Bounds.antt =====
-- What `push_data` and `try_parse` do to the buffer, on any bytes: its bound, and its descent.
use zeroio.Common.{
  ℕ, ◌+◌, ◌≡◌, ◌≤◌, ap, some, List, ok, err, panic, length, length-append, length-take, length-drop,
  take, arith, ltb, Bool-cases, inl, inr,
}
use zeroio.Protocol.Errors.{ProtocolResult}
use zeroio.Protocol.External.{Nom, Buffers}
use zeroio.Protocol.Types.BaseHeader.{BaseHeader, total_message_size}
use zeroio.Protocol.Message.{Message, from_bytes}
use zeroio.Protocol.Parser.Base.{parse_base_header}
use zeroio.Protocol.Parser.Stream.{MessageParser, Parsed, with_base, extract, try_parse, push_data}

-- The parser never holds more than one message of the largest size.
abbrev pub IsBounded : MessageParser → Type 0
IsBounded p = length p.buffer ≤ p.max_message_size

-- How a call leaves the parser: the limits stay, and the buffer does not grow.
pub record Shrinks (p p' : MessageParser) : Type 0 where
  pub same_message_limit : p'.max_message_size ≡ p.max_message_size
  pub same_header_limit : p'.max_header_size ≡ p.max_header_size
  pub no_longer : length p'.buffer ≤ length p.buffer

module _ {E : Type 0} (V A : Type 0) (nom : Nom E) (bufs : Buffers) where
  extract-Shrinks :
      (p : MessageParser) (h : BaseHeader) → Shrinks p (extract {V = V} {A = A} nom bufs p h).1
  unfolding extract
  extract-Shrinks p h = ground (
    arith,
    bufs.split_to_ok (total_message_size h) p.buffer,
    length-drop {0} (total_message_size h) p.buffer,
  )

  -- `try_parse` keeps the limits and never makes the buffer longer, whatever it returns.
  pub try_parse-Shrinks : (p : MessageParser) → Shrinks p (try_parse {V = V} {A = A} nom bufs p).1
  unfolding try_parse
  try_parse-Shrinks p = elim (Bool-cases (ltb (length p.buffer) 34)) [
    | inl short ↦ rw short (omega arith)
    | inr long ↦ rw long (with_base-Shrinks (parse_base_header nom (take 34 p.buffer)))
  ]
    where
      with_base-Shrinks :
          (r : ProtocolResult BaseHeader) → Shrinks p (with_base {V = V} {A = A} nom bufs p r).1
      with_base-Shrinks (ok h) = extract-Shrinks p h
      with_base-Shrinks (err e) = omega arith
      with_base-Shrinks panic = omega arith

  -- The bytes of a message that `from_bytes` accepts hold a base header at least.
  from_bytes_long :
      (bytes : List ℕ) (m : Message V A) → from_bytes nom bytes ≡ ok m → 34 ≤ length bytes
  unfolding from_bytes
  from_bytes_long bytes m e = ground arith

  extract_takes :
      (p p' : MessageParser) (h : BaseHeader) (m : Message V A)
      → extract nom bufs p h ≡ (ok (some m), p')
      → length p'.buffer + 34 ≤ length p.buffer
  unfolding extract
  extract_takes p p' h m e = ground (
    arith,
    bufs.split_to_ok (total_message_size h) p.buffer,
    from_bytes_long (take (total_message_size h) p.buffer) m,
    length-take {0} (total_message_size h) p.buffer,
    length-drop {0} (total_message_size h) p.buffer,
  )

  -- A call of `try_parse` that returns a message takes 34 bytes at least out of the buffer.
  pub try_parse_takes :
      (p p' : MessageParser) (m : Message V A)
      → try_parse nom bufs p ≡ (ok (some m), p')
      → length p'.buffer + 34 ≤ length p.buffer
  unfolding try_parse
  try_parse_takes p p' m e = elim (Bool-cases (ltb (length p.buffer) 34)) [
    | inl short ↦ cc (ap (λ (r : Parsed V A). r.0) (rw short at e))
    | inr long ↦ with_base_takes (parse_base_header nom (take 34 p.buffer)) (rw long at e)
  ]
    where
      with_base_takes :
          (r : ProtocolResult BaseHeader)
          → with_base {V = V} {A = A} nom bufs p r ≡ (ok (some m), p')
          → length p'.buffer + 34 ≤ length p.buffer
      with_base_takes (ok h) q = extract_takes p p' h m q
      with_base_takes (err x) q = cc (ap (λ (r : Parsed V A). r.0) q)
      with_base_takes panic q = cc (ap (λ (r : Parsed V A). r.0) q)

  pub try_parse-IsBounded :
      (p : MessageParser) → IsBounded p → IsBounded (try_parse {V = V} {A = A} nom bufs p).1
  try_parse-IsBounded p h = omega (arith, try_parse-Shrinks p)

module _ (bufs : Buffers) where
  -- Whatever is pushed, the buffer stays within the largest message size if it was so before.
  pub push_data-IsBounded :
      (p : MessageParser) (more : List ℕ) → IsBounded p → IsBounded (push_data bufs p more).1
  unfolding push_data
  push_data-IsBounded p more h =
      ground (arith, bufs.extend_lem p.buffer more, length-append {0} p.buffer more)
