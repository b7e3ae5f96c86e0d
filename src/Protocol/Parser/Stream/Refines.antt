-- ===== src/Protocol/Parser/Stream/Refines.antt =====
-- `MessageParser` refines the inbox.
use mathlib.Core.List.{head-eq_of_cons-eq}
use zeroio.Common.{
  ℕ, ◌+◌, ◌≡◌, ◌≤◌, ◌<◌, refl, sym, ◌∙◌, ap, ap₂, subst, Bool, true, false, Option, none, some,
  List, [], ◌∷◌, ◌++◌, ok, err, length, if◌then◌else◌, drop, drop-append, length-append,
  append_assoc, arith, tests, All, ltb→lt, ltb→le, lt→ltb,
}
use zeroio.Protocol.Errors.{ProtocolResult, message_too_large}
use zeroio.Protocol.External.{Nom, Buffers}
use zeroio.Protocol.Message.{Message, fresh}
use zeroio.Protocol.Parser.Stream.{MessageParser, push_data, try_parse}
use zeroio.Protocol.Parser.Stream.Extract.{try_parse_whole, try_parse_waits, try_parse_short}
use zeroio.Protocol.Parser.Stream.Batch.{
  Sent, sent_bytes, stream_bytes, IsSendable, with_buffer, rebuffer, push_data_fits,
}
use zeroio.Protocol.Parser.Stream.Inbox.{
  Call, push, poll, pushed, answered, observe, Inbox, held, is_over, arrive, arrival, is_there,
  first_of, without_first, replies, IsFed, next_bytes, any_time,
}

-- The part of a list behind a prefix of it that ends before another cut.
split_longer :
    (c a b d : List ℕ)
    → a ++ b ≡ c ++ d
    → length c ≤ length a
    → (m : List ℕ) × (a ≡ c ++ m) × (m ++ b ≡ d)
split_longer [] a b d e h = (a, refl, e)
split_longer (x ∷ c) [] b d e h = absurd (omega arith)
split_longer (x ∷ c) (y ∷ a) b d e h =
    let (m, p, q) = split_longer c a b d (ap (drop 1) e) (omega arith) in
    (m, ap₂ (λ u v. u ∷ v) (head-eq_of_cons-eq e) p, q)

split_shorter :
    (a b c d : List ℕ)
    → a ++ b ≡ c ++ d
    → length a < length c
    → (x : ℕ) × (m : List ℕ) × (c ≡ a ++ (x ∷ m))
split_shorter a b [] d e h = absurd (omega arith)
split_shorter [] b (x ∷ c) d e h = (x, c, refl)
split_shorter (y ∷ a) b (x ∷ c) d e h =
    let (z, m, q) = split_shorter a b c d (ap (drop 1) e) (omega arith) in
    (z, m, ap₂ (λ u v. u ∷ v) (sym (head-eq_of_cons-eq e)) q)

pub record Represents (p : MessageParser) (bytes : List ℕ) (i : Inbox) : Type 0 where
  pub bytes_ok : bytes ++ i.coming ≡ stream_bytes i.waiting []
  pub sendable : All (IsSendable p) i.waiting

resend :
    {p : MessageParser} {s : Sent} (bytes : List ℕ)
    → IsSendable p s
    → IsSendable (with_buffer p bytes) s
resend bytes ok_s = record { frame = ok_s.frame; within = rebuffer bytes ok_s.within }

module _ {E : Type 0} (V A : Type 0) (nom : Nom E) (bufs : Buffers) (p : MessageParser) where
  -- A poll gives what the inbox gives, and leaves a buffer for the inbox that is left.
  pub record PollStep (bytes : List ℕ) (first : Option (Message V A)) (waiting : List Sent)
      (coming : List ℕ) : Type 0 where
    pub left : List ℕ
    pub reply_ok : try_parse nom bufs (with_buffer p bytes) ≡ (ok first, with_buffer p left)
    pub again : Represents p left (record { waiting = waiting; coming = coming })

  first-PollStep :
      (s : Sent) (others : List Sent) (coming bytes : List ℕ) (b : Bool)
      → is_there others coming ≡ b
      → bytes ++ coming ≡ sent_bytes s ++ stream_bytes others []
      → IsSendable p s
      → All (IsSendable p) others
      → PollStep bytes
          (if b then some (fresh s.base (sent_bytes s)) else none)
          (if b then others else s ∷ others)
          coming
  first-PollStep s others coming bytes true there e ok_s all =
      let lengths : length bytes + length coming
          ≡ length (sent_bytes s) + length (stream_bytes others []) =
        sym (length-append bytes coming)
        ∙ ap length e
        ∙ length-append (sent_bytes s) (stream_bytes others []) in
      let (rest, front, behind) =
        split_longer (sent_bytes s) bytes coming (stream_bytes others []) e (grind tests) in
      record {
        left = rest;
        reply_ok =
            try_parse_whole nom bufs (with_buffer p bytes) s.header_bytes s.payload_bytes rest
              ok_s.frame (rebuffer bytes ok_s.within) front;
        again = record { bytes_ok = behind; sendable = all };
      }
  first-PollStep s others coming bytes false there e ok_s all =
      let lengths : length bytes + length coming
          ≡ length (sent_bytes s) + length (stream_bytes others []) =
        sym (length-append bytes coming)
        ∙ ap length e
        ∙ length-append (sent_bytes s) (stream_bytes others []) in
      let (x, missing, whole) =
        split_shorter bytes coming (sent_bytes s) (stream_bytes others []) e (grind tests) in
      record {
        left = bytes;
        reply_ok =
            try_parse_waits nom bufs (with_buffer p bytes) s.header_bytes s.payload_bytes x missing
              ok_s.frame (rebuffer bytes ok_s.within) whole;
        again = record { bytes_ok = e; sendable = (ok_s, all) };
      }

  pub poll-PollStep :
      (waiting : List Sent) (coming bytes : List ℕ)
      → bytes ++ coming ≡ stream_bytes waiting []
      → All (IsSendable p) waiting
      → PollStep bytes (first_of waiting coming) (without_first waiting coming) coming
  poll-PollStep [] coming bytes e all = record {
    left = bytes;
    reply_ok =
        try_parse_short nom bufs (with_buffer p bytes)
          (omega (arith, ap length e, length-append {0} bytes coming));
    again = record { bytes_ok = e; sendable = tt };
  }
  poll-PollStep (s ∷ others) coming bytes e (ok_s, all) =
      first-PollStep s others coming bytes (is_there others coming) refl e ok_s all

  record PushStep (bytes piece : List ℕ) (result : ProtocolResult (Unit {0})) (i : Inbox)
      : Type 0 where
    left : List ℕ
    reply_ok : push_data bufs (with_buffer p bytes) piece ≡ (result, with_buffer p left)
    again : Represents p left i

  Represents-held : (bytes : List ℕ) (i : Inbox) → Represents p bytes i → held i ≡ length bytes
  Represents-held bytes i r = omega (arith, ap length r.bytes_ok, length-append {0} bytes i.coming)

  push_data_refused :
      (bytes piece : List ℕ)
      → p.max_message_size < length bytes + length piece
      → push_data bufs (with_buffer p bytes) piece ≡ (
        err (message_too_large (length bytes + length piece) p.max_message_size),
        with_buffer p bytes,
      )
  unfolding push_data
  push_data_refused bytes piece over =
      rw (lt→ltb p.max_message_size (length bytes + length piece) over) refl

  push-PushStep :
      (bytes piece rest : List ℕ) (i : Inbox) (b : Bool)
      → is_over p.max_message_size i piece ≡ b
      → Represents p bytes i
      → i.coming ≡ piece ++ rest
      → PushStep bytes piece
          (if b then err (message_too_large (held i + length piece) p.max_message_size) else ok tt)
          (if b then i else record i { coming = drop (length piece) i.coming })
  push-PushStep bytes piece rest i true over r next = record {
    left = bytes;
    reply_ok =
        push_data_refused bytes piece (
          subst (λ n. p.max_message_size < n + length piece) (Represents-held bytes i r)
            (ltb→lt _ _ over))
        ∙ ap
            (λ n.
              (err (message_too_large (n + length piece) p.max_message_size), with_buffer p bytes))
            (sym (Represents-held bytes i r));
    again = r;
  }
  push-PushStep bytes piece rest i false over r next = record {
    left = bytes ++ piece;
    reply_ok = push_data_fits bufs (with_buffer p bytes) piece (
        subst (λ n. n + length piece ≤ p.max_message_size) (Represents-held bytes i r)
          (ltb→le _ _ over));
    again = record {
      bytes_ok =
          append_assoc bytes piece (drop (length piece) i.coming)
          ∙ ap (λ l. bytes ++ (piece ++ l)) (ap (drop (length piece)) next ∙ drop-append piece rest)
          ∙ ap (λ l. bytes ++ l) (sym next)
          ∙ r.bytes_ok;
      sendable = r.sendable;
    };
  }

  -- A parser whose buffer, with the bytes that are still to come, is a stream of messages within its
  -- limits answers any calls of `push_data` and `try_parse` as the inbox of these messages does, where
  -- the bytes that are pushed are the next ones of the stream: a poll gives the next message once all
  -- of its bytes have come in, and nothing before, and a push is refused exactly where the bytes of
  -- the waiting messages would be more than the largest message size.
  pub parser_refines_inbox :
      (calls : List Call) (bytes : List ℕ) (i : Inbox)
      → Represents p bytes i
      → IsFed p.max_message_size calls i
      → observe V A nom bufs calls (with_buffer p bytes) ≡ replies p.max_message_size calls i
  parser_refines_inbox [] bytes i r fed = refl
  parser_refines_inbox (push piece ∷ calls) bytes i r (next_bytes rest next fed) =
      let step =
        push-PushStep bytes piece rest i (is_over p.max_message_size i piece) refl r next in
      ap (λ x. pushed x.0 ∷ observe V A nom bufs calls x.1) step.reply_ok
      ∙ ap (λ l. pushed (arrival p.max_message_size piece i) ∷ l)
          (parser_refines_inbox calls step.left (arrive p.max_message_size piece i) step.again fed)
  parser_refines_inbox (poll ∷ calls) bytes i r (any_time fed) =
      let step = poll-PollStep i.waiting i.coming bytes r.bytes_ok r.sendable in
      ap (λ x. answered x.0 ∷ observe V A nom bufs calls x.1) step.reply_ok
      ∙ ap (λ l. answered (ok (first_of i.waiting i.coming)) ∷ l)
          (parser_refines_inbox calls step.left
            (record i { waiting = without_first i.waiting i.coming }) step.again fed)
