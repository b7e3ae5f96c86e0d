-- ===== src/Protocol/Parser/Stream/Inbox.antt =====
-- What `MessageParser` of crates/protocol/src/parser.rs promises to its callers: an inbox of the
-- messages that were sent, without a buffer, and of their bytes only those that are still to come.
use zeroio.Common.{
  ℕ, ◌+◌, ◌-◌, ◌≡◌, Bool, Option, none, some, List, [], ◌∷◌, ◌++◌, ok, err, length, ltb, leb,
  if◌then◌else◌, drop,
}
use zeroio.Protocol.Errors.{ProtocolResult, message_too_large}
use zeroio.Protocol.External.{Nom, Buffers}
use zeroio.Protocol.Message.{Message, fresh}
use zeroio.Protocol.Parser.Stream.{MessageParser, push_data, try_parse}
use zeroio.Protocol.Parser.Stream.Batch.{Sent, sent_bytes, stream_bytes}

-- A call of the parser's methods, and what it returns.
pub data Call : Type 0 where
  push : List ℕ → Call
  poll : Call

pub data Reply (V A : Type 0) : Type 0 where
  pushed : ProtocolResult (Unit {0}) → Reply V A
  answered : ProtocolResult (Option (Message V A)) → Reply V A

-- The replies of the parser to some calls, one after another.
abbrev pub observe :
    {E : Type 0} (V A : Type 0) → Nom E → Buffers → List Call → MessageParser → List (Reply V A)
observe V A nom bufs [] p = []
observe V A nom bufs (push piece ∷ calls) p =
    pushed (push_data bufs p piece).0 ∷ observe V A nom bufs calls (push_data bufs p piece).1
observe V A nom bufs (poll ∷ calls) p =
    answered (try_parse nom bufs p).0
    ∷ observe V A nom bufs calls (try_parse {V = V} {A = A} nom bufs p).1

pub record Inbox : Type 0 where
  pub waiting : List Sent
  pub coming : List ℕ

-- How many bytes of the waiting messages have come in.
abbrev pub held : Inbox → ℕ
held i = length (stream_bytes i.waiting []) - length i.coming

abbrev pub is_over : ℕ → Inbox → List ℕ → Bool
is_over limit i piece = ltb limit (held i + length piece)

-- Bytes above the limit are refused, and are still to come.
abbrev pub arrive : ℕ → List ℕ → Inbox → Inbox
arrive limit piece i =
    if is_over limit i piece then i else record i { coming = drop (length piece) i.coming }

abbrev pub arrival : ℕ → List ℕ → Inbox → ProtocolResult (Unit {0})
arrival limit piece i =
    if is_over limit i piece then err (message_too_large (held i + length piece) limit) else ok tt

-- The first message is there as soon as no more bytes are to come than the others have.
abbrev pub is_there : List Sent → List ℕ → Bool
is_there others coming = leb (length coming) (length (stream_bytes others []))

abbrev pub first_of : {V A : Type 0} → List Sent → List ℕ → Option (Message V A)
first_of [] coming = none
first_of (s ∷ others) coming =
    if is_there others coming then some (fresh s.base (sent_bytes s)) else none

abbrev pub without_first : List Sent → List ℕ → List Sent
without_first [] coming = []
without_first (s ∷ others) coming = if is_there others coming then others else s ∷ others

abbrev pub replies : {V A : Type 0} → ℕ → List Call → Inbox → List (Reply V A)
replies limit [] i = []
replies limit (push piece ∷ calls) i =
    pushed (arrival limit piece i) ∷ replies limit calls (arrive limit piece i)
replies limit (poll ∷ calls) i =
    answered (ok (first_of i.waiting i.coming))
    ∷ replies limit calls (record i { waiting = without_first i.waiting i.coming })

-- The bytes that are pushed are the next ones to come; a push that was refused may be repeated, whole
-- or in part.
pub data IsFed (limit : ℕ) : List Call → Inbox → Type 0 where
  no_call : {i : Inbox} → IsFed limit [] i
  next_bytes :
      {piece : List ℕ} {calls : List Call} {i : Inbox} (rest : List ℕ)
      → i.coming ≡ piece ++ rest
      → IsFed limit calls (arrive limit piece i)
      → IsFed limit (push piece ∷ calls) i
  any_time :
      {calls : List Call} {i : Inbox}
      → IsFed limit calls (record i { waiting = without_first i.waiting i.coming })
      → IsFed limit (poll ∷ calls) i
