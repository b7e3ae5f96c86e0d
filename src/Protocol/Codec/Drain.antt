-- ===== src/Protocol/Codec/Drain.antt =====
-- Calling `decode` of crates/protocol/src/codec.rs until it has no message: all that are there come out.
use zeroio.Common.{
  ℕ, zero, suc, ◌+◌, ◌≡◌, ◌≤◌, ◌<◌, refl, sym, ◌∙◌, ap, Bool, true, false, none, some, subst, List,
  [], ◌∷◌, ◌++◌, ok, length, if◌then◌else◌, length-append, append-nil, arith, All,
}
use zeroio.Protocol.External.{Nom, Buffers}
use zeroio.Protocol.Message.{Message, fresh}
use zeroio.Protocol.Message.Bytes.{length-frame_bytes}
use zeroio.Protocol.Parser.Stream.{MessageParser}
use zeroio.Protocol.Parser.Stream.Batch.{Sent, sent_bytes, stream_bytes, IsSendable, with_buffer}
use zeroio.Protocol.Parser.Stream.Inbox.{is_there, first_of, without_first}
use zeroio.Protocol.Parser.Stream.Refines.{poll-PollStep}
use zeroio.Protocol.Codec.{MessageCodec, decode}
use zeroio.Protocol.Codec.RoundTrip.{push_then_parse}
use zeroio.Protocol.Codec.Ready.{ready, unready}
use zeroio.Protocol.Codec.Reading.{found_first, drain}

module _ {E : Type 0} (V A : Type 0) (nom : Nom E) (bufs : Buffers) (p : MessageParser)
    (max : ℕ) where
  abbrev pub holding : List ℕ → MessageCodec
  holding bytes = record { parser = with_buffer p bytes; max_frame_size = max }

  -- A call of `decode` whose input fits gives the first message if it is there.
  record DecodeStep (bytes src : List ℕ) (waiting : List Sent) (coming : List ℕ) : Type 0 where
    left : List ℕ
    reply_ok :
        decode {V = V} {A = A} nom bufs (holding bytes) src
        ≡ (ok (first_of waiting coming), holding left, [])
    again : left ++ coming ≡ stream_bytes (without_first waiting coming) []

  decode-DecodeStep :
      (bytes src : List ℕ) (waiting : List Sent) (coming : List ℕ)
      → (bytes ++ src) ++ coming ≡ stream_bytes waiting []
      → All (IsSendable p) waiting
      → length src ≤ max
      → length bytes + length src ≤ p.max_message_size
      → DecodeStep bytes src waiting coming
  unfolding decode
  decode-DecodeStep bytes src waiting coming e all small room =
      let step = poll-PollStep V A nom bufs p waiting coming (bytes ++ src) e all in
      record {
        left = step.left;
        reply_ok =
            rw
              (push_then_parse V A nom bufs max (with_buffer p bytes) src small room, step.reply_ok)
              refl;
        again = step.again.bytes_ok;
      }

  pub record DrainStep (fuel : ℕ) (bytes src : List ℕ) (waiting : List Sent) (coming : List ℕ)
      : Type 0 where
    pub left : List ℕ
    pub reply_ok :
        drain nom bufs fuel (holding bytes) src
        ≡ some (ok (ready {V = V} {A = A} waiting coming), holding left, [])
    pub again : left ++ coming ≡ stream_bytes (unready waiting coming) []

  drain-none :
      (fuel : ℕ) (bytes src left : List ℕ)
      → decode {V = V} {A = A} nom bufs (holding bytes) src ≡ (ok none, holding left, [])
      → drain {V = V} {A = A} nom bufs (suc fuel) (holding bytes) src
        ≡ some (ok [], holding left, [])
  unfolding drain
  drain-none fuel bytes src left e = rw (e, drain) (rw e)

  drain-some :
      (fuel : ℕ) (bytes src left : List ℕ) (m : Message V A)
      → decode nom bufs (holding bytes) src ≡ (ok (some m), holding left, [])
      → drain nom bufs (suc fuel) (holding bytes) src
        ≡ found_first m (drain nom bufs fuel (holding left) [])
  unfolding drain
  drain-some fuel bytes src left m e = rw (e, drain) (rw e)

  first-DrainStep :
      (fuel : ℕ) (bytes src : List ℕ) (s : Sent) (others : List Sent) (coming : List ℕ)
      → DecodeStep bytes src (s ∷ others) coming
      → (b : Bool) → is_there others coming ≡ b
      → ((left : List ℕ)
          → left ++ coming ≡ stream_bytes others []
          → DrainStep fuel left [] others coming)
      → DrainStep (suc fuel) bytes src (s ∷ others) coming
  first-DrainStep fuel bytes src s others coming step true there next =
      let here =
        subst
          (λ (b : Bool). step.left ++ coming ≡ stream_bytes (if b then others else s ∷ others) [])
          there step.again in
      let rest = next step.left here in
      record {
        left = rest.left;
        reply_ok =
            drain-some fuel bytes src step.left (fresh s.base (sent_bytes s))
              (step.reply_ok ∙ rw there refl)
            ∙ ap (found_first (fresh s.base (sent_bytes s))) rest.reply_ok
            ∙ ap
                (λ (b : Bool). some (
                  ok (if b then fresh s.base (sent_bytes s) ∷ ready others coming else []),
                  holding rest.left,
                  [],
                ))
                (sym there);
        again = rest.again ∙ rw there refl;
      }
  first-DrainStep fuel bytes src s others coming step false not_yet next = record {
    left = step.left;
    reply_ok =
        drain-none fuel bytes src step.left (step.reply_ok ∙ rw not_yet refl) ∙ rw not_yet refl;
    again = step.again ∙ rw not_yet refl;
  }

  pub drain-DrainStep :
      (fuel : ℕ) (bytes src : List ℕ) (waiting : List Sent) (coming : List ℕ)
      → (bytes ++ src) ++ coming ≡ stream_bytes waiting []
      → All (IsSendable p) waiting
      → length src ≤ max
      → length bytes + length src ≤ p.max_message_size
      → length bytes + length src < fuel
      → DrainStep fuel bytes src waiting coming
  drain-DrainStep zero bytes src waiting coming e all small room h = absurd (omega arith)
  drain-DrainStep (suc fuel) bytes src [] coming e all small room h =
      let step = decode-DecodeStep bytes src [] coming e all small room in
      record {
        left = step.left;
        reply_ok = drain-none fuel bytes src step.left step.reply_ok;
        again = step.again;
      }
  drain-DrainStep (suc fuel) bytes src (s ∷ others) coming e all small room h =
      first-DrainStep fuel bytes src s others coming
        (decode-DecodeStep bytes src (s ∷ others) coming e all small room) (is_there others coming)
        refl
        (λ left q.
          drain-DrainStep fuel left [] others coming (ap (λ l. l ++ coming) (append-nil left) ∙ q)
            all.1 (omega arith) (omega (arith, shorter left q)) (omega (arith, shorter left q)))
    where
      shorter :
          (left : List ℕ)
          → left ++ coming ≡ stream_bytes others []
          → length left < length bytes + length src
      shorter left q = omega (
        arith,
        ap length q,
        ap length e,
        length-append {0} left coming,
        length-append {0} (bytes ++ src) coming,
        length-append {0} bytes src,
        length-append {0} (sent_bytes s) (stream_bytes others []),
        length-frame_bytes all.0.frame,
      )
