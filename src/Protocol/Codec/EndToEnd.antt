-- ===== src/Protocol/Codec/EndToEnd.antt =====
-- From one codec to another: what `encode` wrote, message after message, and what `decode` makes of it
-- when it arrives in pieces.
use mathlib.Core.List.{flatten}
use zeroio.Common.{
  ℕ, suc, ◌+◌, ◌≡◌, ◌≤◌, sym, ◌∙◌, ap, some, subst, map, List, [], ◌∷◌, ◌++◌, ok, length,
  length-append, append_assoc, append-nil, arith, All,
}
use zeroio.Protocol.External.{Nom, Buffers, Serde}
use zeroio.Protocol.Types.Header.{Header}
use zeroio.Protocol.Message.{Message}
use zeroio.Protocol.Parser.Stream.{MessageParser}
use zeroio.Protocol.Parser.Stream.Batch.{Sent, sent_bytes, stream_bytes, delivered, IsSendable}
use zeroio.Protocol.Codec.{MessageCodec}
use zeroio.Protocol.Codec.Ready.{
  ready, unready, ready-all, ready-later, unready-all, unready-later, All-unready, held_lt,
  nothing_ready,
}
use zeroio.Protocol.Codec.Outgoing.{
  Outgoing, as_sent, Passes, encode_all_lem, All-IsSendable, All-short,
}
use zeroio.Protocol.Codec.Drain.{holding, drain-DrainStep}
use zeroio.Protocol.Codec.Reading.{encode_all, drain, drain_fuel, read_all}

module _ {E : Type 0} (V A : Type 0) (nom : Nom E) (bufs : Buffers) (p : MessageParser) (max : ℕ)
    (largest : ℕ) where
  IsRoomy : List ℕ → Type 0
  IsRoomy piece = (length piece ≤ max) × (largest + length piece ≤ p.max_message_size)

  read_all_more :
      (piece : List ℕ) (pieces : List (List ℕ)) (c c' : MessageCodec) (ms : List (Message V A))
      (mss : List (List (Message V A))) (last : MessageCodec)
      → drain nom bufs (drain_fuel c piece) c piece ≡ some (ok ms, c', [])
      → read_all nom bufs pieces c' ≡ some (mss, last)
      → read_all nom bufs (piece ∷ pieces) c ≡ some (ms ∷ mss, last)
  unfolding read_all
  read_all_more piece pieces c c' ms mss last e q = rw (e, read_all) (rw q)

  read_all_lem :
      (pieces : List (List ℕ)) (bytes : List ℕ) (waiting : List Sent)
      → bytes ++ flatten pieces ≡ stream_bytes (unready waiting (flatten pieces)) []
      → All (IsSendable p) waiting
      → All (λ s. length (sent_bytes s) ≤ largest) waiting
      → All IsRoomy pieces
      → length bytes ≤ largest
      → (mss : List (List (Message V A))) × (read_all nom bufs pieces
            (holding V A nom bufs p max bytes)
          ≡ some (mss, holding V A nom bufs p max []))
        × (ready waiting (flatten pieces) ++ flatten mss ≡ delivered waiting)
  unfolding flatten IsRoomy read_all
  read_all_lem [] bytes waiting e all short roomy h = (
    [],
    ap (λ b. some ([], holding V A nom bufs p max b)) nothing,
    append-nil (ready waiting []) ∙ ready-all waiting,
  )
    where
      nothing : bytes ≡ []
      nothing = sym (append-nil bytes) ∙ e ∙ ap (λ w. stream_bytes w []) (unready-all waiting)
  read_all_lem (piece ∷ pieces) bytes waiting e all short (room, roomy) h =
      let now = piece ++ flatten pieces in
      let later = flatten pieces in
      let fewer : length later ≤ length now = omega (arith, length-append {0} piece later) in
      let step =
        drain-DrainStep V A nom bufs p max (suc (length bytes + length piece)) bytes piece
          (unready waiting now) later (append_assoc bytes piece later ∙ e)
          (All-unready (IsSendable p) waiting now all) room.0 (omega (arith, room.1, h))
          (omega arith) in
      let again =
        step.again ∙ ap (λ w. stream_bytes w []) (unready-later waiting now later fewer) in
      let (mss, q, r) =
        read_all_lem pieces step.left waiting again all short roomy
          (held_lt largest waiting later step.left short again) in
      (
        ready (unready waiting now) later ∷ mss,
        read_all_more piece pieces _ _ _ mss _ step.reply_ok q,
        sym (append_assoc (ready waiting now) (ready (unready waiting now) later) (flatten mss))
            ∙ ap (λ ms. ms ++ flatten mss) (ready-later waiting now later fewer)
            ∙ r,
      )

-- Let some messages have headers that are serialized and pass the limits of two codecs, let none be
-- larger than `largest`, and let the second codec's buffer be empty. The first codec writes them all,
-- one after the other. However its output is cut into pieces, if each piece is within the second
-- codec's frame size and leaves room for `largest` bytes in its buffer, the second one takes every
-- piece, and what it returns over all of the reads is these messages, each one once and in order;
-- its buffer is empty at the end.
pub encoded_delivered :
    {E V : Type 0} (A : Type 0) (nom : Nom E) (serde : Serde (Header V)) (bufs : Buffers)
    (c d : MessageCodec) (largest : ℕ) (items : List (Outgoing V)) (pieces : List (List ℕ))
    → All (Passes serde c d largest) items
    → d.parser.buffer ≡ []
    → flatten pieces ≡ (encode_all serde bufs c (map (λ o. o.message) items) []).1
    → All
        (λ piece.
          (length piece ≤ d.max_frame_size) × (largest + length piece ≤ d.parser.max_message_size))
        pieces
    → ((encode_all serde bufs c (map (λ o. o.message) items) []).0 ≡ ok tt)
      × (mss : List (List (Message V A))) × (read_all nom bufs pieces d ≡ some (mss, d))
      × (flatten mss ≡ delivered (map as_sent items))
unfolding IsRoomy
encoded_delivered {V} A nom serde bufs c d largest items pieces all empty cut roomy =
    let written = encode_all_lem serde bufs c d largest items [] all in
    let sendable = All-IsSendable serde bufs c d largest items all in
    let whole = cut ∙ ap (λ r. r.1) written in
    let (none_yet, all_left) =
      nothing_ready {V = V} {A = A} d.parser (map as_sent items) sendable in
    let (mss, q, r) =
      read_all_lem V A nom bufs d.parser d.max_frame_size largest pieces [] (map as_sent items)
        (whole
          ∙ ap (λ w. stream_bytes w [])
              (sym all_left ∙ ap (λ b. unready (map as_sent items) b) (sym whole)))
        sendable (All-short serde bufs c d largest items all) roomy (omega arith) in
    (
      ap (λ r. r.0) written,
      mss,
      subst
          (λ b.
            read_all nom bufs pieces (holding V A nom bufs d.parser d.max_frame_size b)
            ≡ some (mss, holding V A nom bufs d.parser d.max_frame_size b))
          (sym empty) q,
      ap (λ ms. ms ++ flatten mss) (sym (ap (ready (map as_sent items)) whole ∙ none_yet)) ∙ r,
    )
