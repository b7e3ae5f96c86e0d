-- ===== src/Protocol/Codec/Utils.antt =====
-- The module `utils` of crates/protocol/src/codec.rs. `Framed` of tokio_util is a parameter: a state
-- `S` with the operations `send` and `next`, each of which may change it, and a way to make one from a
-- byte stream and a codec.
use zeroio.Common.{ℕ, String, Option, none, some, ok, err, panic, map_err}
use zeroio.Protocol.Errors.{ProtocolError, ProtocolResult, io}
use zeroio.Protocol.Message.{Message}
use zeroio.Protocol.Message.Raw.{RawMessage}
use zeroio.Protocol.Codec.{MessageCodec, codec, codec_with_limits}

pub record Framed (V A S : Type 0) : Type 0 where
  pub send : S → RawMessage V → ProtocolResult (Unit {0}) × S
  pub next : S → Option (ProtocolResult (Message V A)) × S

abbrev pub framed : {T S : Type 0} → (T → MessageCodec → S) → T → S
framed new stream = new stream codec

abbrev pub framed_with_limits : {T S : Type 0} → (T → MessageCodec → S) → T → ℕ → ℕ → S
framed_with_limits new stream max_message max_header =
    new stream (codec_with_limits max_message max_header)

-- `to_string` is the text of an error.
abbrev pub send_message :
    {V A S : Type 0}
    → Framed V A S
    → (ProtocolError → String)
    → S
    → RawMessage V
    → ProtocolResult (Unit {0}) × S
send_message sink to_string s message =
    let (r, s') = sink.send s message in (map_err (λ e. io (to_string e)) r, s')

abbrev pub item_of :
    {V A : Type 0} → Option (ProtocolResult (Message V A)) → ProtocolResult (Option (Message V A))
item_of (some (ok message)) = ok (some message)
item_of (some (err e)) = err e
item_of (some panic) = panic
item_of none = ok none

abbrev pub receive_message :
    {V A S : Type 0} → Framed V A S → S → ProtocolResult (Option (Message V A)) × S
receive_message stream s = let (item, s') = stream.next s in (item_of item, s')
