-- ===== src/Protocol/Parser/Stream/Batch.antt =====
-- Several messages in one buffer: `parse_all` ends on every buffer, and finds all that is there,
-- however the bytes arrived.
use mathlib.Core.List.{flatten}
use zeroio.Common.{
  ℕ, zero, suc, ◌+◌, ◌≡◌, ◌≤◌, ◌<◌, refl, sym, ◌∙◌, ap, ap₂, none, some, List, [], ◌∷◌, ◌++◌, ok,
  err, panic, length, length-append, append_assoc, append-nil, arith, le→ltb, All,
}
use zeroio.Protocol.Errors.{ProtocolError, ProtocolResult}
use zeroio.Protocol.External.{Nom, Buffers}
use zeroio.Protocol.Types.BaseHeader.{BaseHeader}
use zeroio.Protocol.Message.{Message, fresh}
use zeroio.Protocol.Message.Bytes.{IsFrame, frame_bytes, length-frame_bytes}
use zeroio.Protocol.Parser.Stream.{
  MessageParser, Parsed, Loop, push_data, try_parse, parse_loop, parse_all,
}
use zeroio.Protocol.Parser.Stream.Extract.{
  IsWithin, try_parse_whole, try_parse_waits, try_parse_short,
}
use zeroio.Protocol.Parser.Stream.Bounds.{try_parse_takes}

-- One message of a stream.
pub record Sent : Type 0 where
  pub base : BaseHeader
  pub header_bytes : List ℕ
  pub payload_bytes : List ℕ

abbrev pub sent_bytes : Sent → List ℕ
sent_bytes s = frame_bytes s.base s.header_bytes s.payload_bytes

pub record IsSendable (p : MessageParser) (s : Sent) : Type 0 where
  pub frame : IsFrame s.base s.header_bytes s.payload_bytes
  pub within : IsWithin p s.base

-- The messages one after the other, and what follows the last one.
abbrev pub stream_bytes : List Sent → List ℕ → List ℕ
stream_bytes [] tail = tail
stream_bytes (s ∷ rest) tail = sent_bytes s ++ stream_bytes rest tail

abbrev pub delivered : {V A : Type 0} → List Sent → List (Message V A)
delivered [] = []
delivered (s ∷ rest) = fresh s.base (sent_bytes s) ∷ delivered rest

-- The end of a stream that holds no whole message: less than a base header, or a proper prefix of
-- a message.
pub data Incomplete (p : MessageParser) (tail : List ℕ) : Type 0 where
  short : length tail < 34 → Incomplete p tail
  part :
      (s : Sent) (x : ℕ) (missing : List ℕ)
      → IsSendable p s
      → sent_bytes s ≡ tail ++ (x ∷ missing)
      → Incomplete p tail

abbrev pub with_buffer : MessageParser → List ℕ → MessageParser
with_buffer p bytes = record p { buffer = bytes }

pub rebuffer :
    {p : MessageParser} {h : BaseHeader} (bytes : List ℕ)
    → IsWithin p h
    → IsWithin (with_buffer p bytes) h
rebuffer bytes w = record { header_within = w.header_within; message_within = w.message_within }

module _ {E : Type 0} (V A : Type 0) (nom : Nom E) (bufs : Buffers) where
  pub parse_loop_more :
      (fuel : ℕ) (p p' : MessageParser) (m : Message V A) (found : List (Message V A))
      → try_parse nom bufs p ≡ (ok (some m), p')
      → parse_loop nom bufs (suc fuel) p found ≡ parse_loop nom bufs fuel p' (found ++ m ∷ [])
  unfolding parse_loop
  parse_loop_more fuel p p' m found e = rw (e, parse_loop) (rw e)

  pub parse_loop_end :
      (fuel : ℕ) (p p' : MessageParser) (found : List (Message V A))
      → try_parse {V = V} {A = A} nom bufs p ≡ (ok none, p')
      → parse_loop nom bufs (suc fuel) p found ≡ some (ok found, p')
  unfolding parse_loop
  parse_loop_end fuel p p' found e = rw (e, parse_loop) (rw e)

  pub parse_loop_stop :
      (fuel : ℕ) (p p' : MessageParser) (found : List (Message V A)) (e : ProtocolError)
      → try_parse {V = V} {A = A} nom bufs p ≡ (err e, p')
      → parse_loop nom bufs (suc fuel) p found ≡ some (err e, p')
  unfolding parse_loop
  parse_loop_stop fuel p p' found e q = rw (q, parse_loop) (rw q)

  pub parse_loop_panic :
      (fuel : ℕ) (p p' : MessageParser) (found : List (Message V A))
      → try_parse {V = V} {A = A} nom bufs p ≡ (panic, p')
      → parse_loop nom bufs (suc fuel) p found ≡ some (panic, p')
  unfolding parse_loop
  parse_loop_panic fuel p p' found q = rw (q, parse_loop) (rw q)

  abbrev Ends : Loop V A → Type 0
  Ends r = (x : ProtocolResult (List (Message V A)) × MessageParser) × (r ≡ some x)

  parse_loop_step :
      (fuel : ℕ) (p : MessageParser) (found : List (Message V A))
      → ((p' : MessageParser) (found' : List (Message V A))
          → length p'.buffer < fuel
          → Ends (parse_loop nom bufs fuel p' found'))
      → length p.buffer < suc fuel
      → (t : Parsed V A) → try_parse nom bufs p ≡ t
      → Ends (parse_loop nom bufs (suc fuel) p found)
  parse_loop_step fuel p found ih h (ok (some m), p') e =
      let smaller : length p'.buffer + 34 ≤ length p.buffer =
        try_parse_takes V A nom bufs p p' m e in
      let (x, q) = ih p' (found ++ m ∷ []) (omega arith) in
      (x, parse_loop_more fuel p p' m found e ∙ q)
  parse_loop_step fuel p found ih h (ok none, p') e =
      ((ok found, p'), parse_loop_end fuel p p' found e)
  parse_loop_step fuel p found ih h (err x, p') e =
      ((err x, p'), parse_loop_stop fuel p p' found x e)
  parse_loop_step fuel p found ih h (panic, p') e =
      ((panic, p'), parse_loop_panic fuel p p' found e)

  parse_loop-Ends :
      (fuel : ℕ) (p : MessageParser) (found : List (Message V A))
      → length p.buffer < fuel
      → Ends (parse_loop nom bufs fuel p found)
  parse_loop-Ends zero p found h = absurd (omega arith)
  parse_loop-Ends (suc fuel) p found h =
      parse_loop_step fuel p found (λ p' found' h'. parse_loop-Ends fuel p' found' h') h
        (try_parse nom bufs p) refl

  -- `parse_all` ends on every buffer: the fuel never runs out.
  pub parse_all_ends :
      (p : MessageParser)
      → (x : ProtocolResult (List (Message V A)) × MessageParser) × (parse_all nom bufs p ≡ some x)
  unfolding parse_all
  parse_all_ends p = parse_loop-Ends (suc (length p.buffer)) p [] (omega arith)

  Incomplete-waits :
      (p : MessageParser) (tail : List ℕ)
      → Incomplete p tail
      → try_parse {V = V} {A = A} nom bufs (with_buffer p tail) ≡ (ok none, with_buffer p tail)
  Incomplete-waits p tail (short h) = try_parse_short nom bufs (with_buffer p tail) h
  Incomplete-waits p tail (part s x missing ok_s e) =
      try_parse_waits nom bufs (with_buffer p tail) s.header_bytes s.payload_bytes x missing
        ok_s.frame (rebuffer tail ok_s.within) e

  parse_loop_stream :
      (p : MessageParser) (sent : List Sent) (tail : List ℕ) (fuel : ℕ) (found : List (Message V A))
      → All (IsSendable p) sent
      → Incomplete p tail
      → length (stream_bytes sent tail) < fuel
      → parse_loop nom bufs fuel (with_buffer p (stream_bytes sent tail)) found
        ≡ some (ok (found ++ delivered sent), with_buffer p tail)
  parse_loop_stream p sent tail zero found all end h = absurd (omega arith)
  parse_loop_stream p [] tail (suc fuel) found all end h = rw append-nil (
      parse_loop_end fuel (with_buffer p tail) (with_buffer p tail) found
        (Incomplete-waits p tail end))
  parse_loop_stream p (s ∷ sent) tail (suc fuel) found (ok_s, all) end h =
      parse_loop_more fuel (with_buffer p (stream_bytes (s ∷ sent) tail))
        (with_buffer p (stream_bytes sent tail)) (fresh s.base (sent_bytes s)) found whole
      ∙ parse_loop_stream p sent tail fuel (found ++ fresh s.base (sent_bytes s) ∷ []) all end room
      ∙ ap (λ ms. some (ok ms, with_buffer p tail))
          (append_assoc found (fresh s.base (sent_bytes s) ∷ []) (delivered sent))
    where
      whole :
          try_parse {V = V} {A = A} nom bufs (with_buffer p (stream_bytes (s ∷ sent) tail))
          ≡ (ok (some (fresh s.base (sent_bytes s))), with_buffer p (stream_bytes sent tail))
      whole =
          try_parse_whole nom bufs (with_buffer p (stream_bytes (s ∷ sent) tail)) s.header_bytes
            s.payload_bytes (stream_bytes sent tail) ok_s.frame (rebuffer _ ok_s.within) refl

      room : length (stream_bytes sent tail) < fuel
      room = omega (
        arith,
        length-append {0} (sent_bytes s) (stream_bytes sent tail),
        length-frame_bytes ok_s.frame,
      )

  -- A buffer that holds any number of messages and an incomplete end: `parse_all` returns all of
  -- the messages in order, and leaves the end in the buffer.
  pub parse_all_stream :
      (p : MessageParser) (sent : List Sent) (tail : List ℕ)
      → All (IsSendable p) sent
      → Incomplete p tail
      → parse_all {V = V} {A = A} nom bufs (with_buffer p (stream_bytes sent tail))
        ≡ some (ok (delivered sent), with_buffer p tail)
  unfolding parse_all
  parse_all_stream p sent tail all end =
      parse_loop_stream p sent tail (suc (length (stream_bytes sent tail))) [] all end (omega arith)

-- The pieces of a stream, pushed one after the other as they arrive.
abbrev pub push_pieces :
    Buffers → MessageParser → List (List ℕ) → ProtocolResult (Unit {0}) × MessageParser
push_pieces bufs p [] = (ok tt, p)
push_pieces bufs p (piece ∷ pieces) =
    let (result, p') = push_data bufs p piece in
    elim result [ ok u ↦ push_pieces bufs p' pieces | err e ↦ (err e, p') | panic ↦ (panic, p') ]

module _ (bufs : Buffers) where
  pub push_data_fits :
      (p : MessageParser) (piece : List ℕ)
      → length p.buffer + length piece ≤ p.max_message_size
      → push_data bufs p piece ≡ (ok tt, with_buffer p (p.buffer ++ piece))
  unfolding push_data
  push_data_fits p piece h =
      rw (
        le→ltb p.max_message_size (length p.buffer + length piece) h,
        bufs.extend_lem p.buffer piece,
      )

  -- Pushing the pieces of some bytes that fit leaves the buffer as pushing the bytes at once does.
  push_pieces_lem :
      (p : MessageParser) (pieces : List (List ℕ))
      → length p.buffer + length (flatten pieces) ≤ p.max_message_size
      → push_pieces bufs p pieces ≡ (ok tt, with_buffer p (p.buffer ++ flatten pieces))
  unfolding flatten
  push_pieces_lem p [] h = ap (λ b. (ok tt, with_buffer p b)) (sym (append-nil p.buffer))
  push_pieces_lem p (piece ∷ pieces) h =
      let pushed =
        push_data_fits p piece (omega (arith, length-append {0} piece (flatten pieces))) in
      rw (pushed, push_pieces)
        (rw pushed (
          push_pieces_lem (with_buffer p (p.buffer ++ piece)) pieces (
            omega
              (arith, length-append {0} piece (flatten pieces), length-append {0} p.buffer piece))
          ∙ ap (λ b. (ok tt, with_buffer p b)) (append_assoc p.buffer piece (flatten pieces))))

-- Let some messages within the limits of an empty parser, and behind them less than a base header
-- or a proper prefix of such a message, fit its buffer and be cut into pieces in any way: every
-- piece is taken, and `parse_all` then returns the messages in order and leaves the incomplete end
-- in the buffer.
pub stream_in_pieces :
    {E : Type 0} (V A : Type 0) (nom : Nom E) (bufs : Buffers) (p : MessageParser)
    (pieces : List (List ℕ)) (sent : List Sent) (tail : List ℕ)
    → p.buffer ≡ []
    → flatten pieces ≡ stream_bytes sent tail
    → length (stream_bytes sent tail) ≤ p.max_message_size
    → All (IsSendable p) sent
    → Incomplete p tail
    → (push_pieces bufs p pieces ≡ (ok tt, with_buffer p (stream_bytes sent tail)))
      × (parse_all {V = V} {A = A} nom bufs (with_buffer p (stream_bytes sent tail))
          ≡ some (ok (delivered sent), with_buffer p tail))
stream_in_pieces V A nom bufs p pieces sent tail empty cut fits all end = (
  push_pieces_lem bufs p pieces (omega (arith, ap length empty, ap length cut))
      ∙ ap₂ (λ (a b : List ℕ). (ok tt, with_buffer p (a ++ b))) empty cut,
  parse_all_stream V A nom bufs p sent tail all end,
)
