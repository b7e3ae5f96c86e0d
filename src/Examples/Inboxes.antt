-- ===== src/Examples/Inboxes.antt =====
-- The stream parser and its inbox at a concrete input: two requests, in three pieces.
use zeroio.Common.{ℕ, ◌≡◌, refl, List, [], ◌∷◌, take, drop}
use zeroio.Protocol.External.Reference.{nom, buffers}
use zeroio.Protocol.Types.BaseHeader.{encode}
use zeroio.Protocol.Parser.Stream.Batch.{Sent, IsSendable, stream_bytes, with_buffer}
use zeroio.Protocol.Parser.Stream.Inbox.{
  Call, push, poll, Inbox, IsFed, no_call, next_bytes, any_time, observe, replies,
}
use zeroio.Protocol.Parser.Stream.Refines.{Represents, parser_refines_inbox}
use zeroio.Examples.Data.{
  Boxed, base, base-IsFrame, base-IsWithin, header_part, payload_part, parser,
}

abbrev item : Sent
item = record { base = base; header_bytes = header_part; payload_bytes = payload_part }

item-IsSendable : IsSendable parser item
item-IsSendable = record { frame = base-IsFrame; within = base-IsWithin [] }

abbrev inbox : Inbox
unfolding encode
inbox = record { waiting = item ∷ item ∷ []; coming = stream_bytes (item ∷ item ∷ []) [] }

abbrev piece : ℕ → List ℕ
unfolding inbox
piece n = take 30 (drop n inbox.coming)

abbrev calls : List Call
unfolding piece
calls = push (piece 0) ∷ poll ∷ push (piece 30) ∷ poll ∷ push (piece 60) ∷ poll ∷ poll ∷ []

calls-IsFed : IsFed 100 calls inbox
unfolding calls piece inbox encode
calls-IsFed = next_bytes (drop 30 inbox.coming) refl (
    any_time (
      next_bytes (drop 60 inbox.coming) refl
        (any_time (next_bytes [] refl (any_time (any_time no_call))))))

nothing_yet : Represents parser [] inbox
unfolding inbox encode
nothing_yet = record { bytes_ok = refl; sendable = (item-IsSendable, (item-IsSendable, tt)) }

parser_refines_inbox_example :
    observe ℕ Boxed nom buffers calls (with_buffer parser []) ≡ replies 100 calls inbox
parser_refines_inbox_example =
    parser_refines_inbox ℕ Boxed nom buffers parser calls [] inbox nothing_yet calls-IsFed
