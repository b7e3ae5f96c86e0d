-- ===== src/Protocol/Codec/Reading.antt =====
-- How tokio's `FramedWrite` and `FramedRead` drive `MessageCodec` of crates/protocol/src/codec.rs:
-- `encode` appends to one output; `decode` is called on what a read brought in, and again on what it
-- left, until it has no message.
use zeroio.Common.{ℕ, zero, suc, ◌+◌, Option, none, some, List, [], ◌∷◌, ok, err, panic, length}
use zeroio.Protocol.Errors.{ProtocolResult}
use zeroio.Protocol.External.{Nom, Buffers, Serde}
use zeroio.Protocol.Types.Header.{Header}
use zeroio.Protocol.Message.{Message}
use zeroio.Protocol.Message.Raw.{RawMessage}
use zeroio.Protocol.Codec.{MessageCodec, decode, encode_raw}

module _ {V : Type 0} (serde : Serde (Header V)) (bufs : Buffers) where
  abbrev pub encode_all :
      MessageCodec → List (RawMessage V) → List ℕ → ProtocolResult (Unit {0}) × List ℕ
  encode_all c [] dst = (ok tt, dst)
  encode_all c (m ∷ ms) dst =
      let (result, dst') = encode_raw serde bufs c m dst in
      elim result [ ok u ↦ encode_all c ms dst' | err e ↦ (err e, dst') | panic ↦ (panic, dst') ]

-- The messages found, the codec and the input left; `none` means that the fuel ran out.
abbrev pub Drained : Type 0 → Type 0 → Type 0
Drained V A = Option (ProtocolResult (List (Message V A)) × MessageCodec × List ℕ)

module _ {V A : Type 0} where
  abbrev pub found_first : Message V A → Drained V A → Drained V A
  found_first m none = none
  found_first m (some (ok ms, c, src)) = some (ok (m ∷ ms), c, src)
  found_first m (some (err e, c, src)) = some (err e, c, src)
  found_first m (some (panic, c, src)) = some (panic, c, src)

module _ {E V A : Type 0} (nom : Nom E) (bufs : Buffers) where
  unfoldable pub drain : ℕ → MessageCodec → List ℕ → Drained V A
  drain zero c src = none
  drain (suc fuel) c src =
      let (result, c', src') = decode nom bufs c src in
      elim result [
        | ok (some m) ↦ found_first m (drain fuel c' src')
        | ok none ↦ some (ok [], c', src')
        | err e ↦ some (err e, c', src')
        | panic ↦ some (panic, c', src')
      ]

-- The bytes that are there bound the messages that they hold.
abbrev pub drain_fuel : MessageCodec → List ℕ → ℕ
drain_fuel c src = suc (length c.parser.buffer + length src)

-- The messages of each read, and the codec after the last one; a read that fails, or leaves input
-- behind, ends the reading with `none`.
module _ {E V A : Type 0} (nom : Nom E) (bufs : Buffers) where
  abbrev pub next_reads :
      Drained V A
      → (MessageCodec → Option (List (List (Message V A)) × MessageCodec))
      → Option (List (List (Message V A)) × MessageCodec)
  next_reads (some (ok ms, c, [])) more = elim (more c) [
    | some (mss, c') ↦ some (ms ∷ mss, c')
    | none ↦ none
  ]
  next_reads other more = none

  unfoldable pub read_all :
      List (List ℕ) → MessageCodec → Option (List (List (Message V A)) × MessageCodec)
  unfolding drain
  read_all [] c = some ([], c)
  read_all (piece ∷ pieces) c =
      next_reads (drain nom bufs (drain_fuel c piece) c piece) (λ c'. read_all pieces c')
