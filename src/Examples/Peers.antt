-- ===== src/Examples/Peers.antt =====
-- The handshake over a script of items.
use zeroio.Common.{ℕ, ◌≡◌, refl, Option, none, some, List, [], ◌∷◌, ok, arith}
use zeroio.Protocol.Errors.{ProtocolResult}
use zeroio.Protocol.External.Reference.{buffers}
use zeroio.Protocol.Types.Header
use zeroio.Protocol.Types.BaseHeader.{encode}
use zeroio.Protocol.Message
use zeroio.Protocol.Message.{Message, raw_header_bytes, init_header}
use zeroio.Protocol.Codec.Utils.{Framed}
use zeroio.Peer.Handshake.{wait_for_reply}
use zeroio.Peer.Handshake.Wait.{
  Skips, stay, skip, IsReply, round-none, wait_finds_reply, wait_spins,
}
use zeroio.Examples.Data.{Boxed, message, sample_header, header_serde}

abbrev pub Script : Type 0
Script = List (Option (ProtocolResult (Message ℕ Boxed)))

abbrev next_item : Script → Option (ProtocolResult (Message ℕ Boxed)) × Script
next_item [] = (none, [])
next_item (item ∷ script) = (item, script)

abbrev pub scripted : Framed ℕ Boxed Script
scripted = record { send = λ s m. (ok tt, s); next = next_item }

-- Nothing first, and then the answer.
abbrev script : Script
script = none ∷ some (ok message) ∷ []

Skips-one : Skips scripted header_serde buffers "r1" 1 script (some (ok message) ∷ [])
Skips-one =
    skip none refl (round-none scripted header_serde buffers "r1") (stay (some (ok message) ∷ []))

read_header : (Message.header header_serde buffers message).0 ≡ ok sample_header
unfolding Message.header init_header raw_header_bytes encode
read_header = refl

message-IsReply : IsReply scripted header_serde buffers "r1" message
message-IsReply = record {
  reply_header = sample_header;
  reqrep = Header.req "r1";
  header_read = read_header;
  has_reqrep = refl;
  same_id = refl;
}

wait_finds_reply_example :
    wait_for_reply scripted header_serde buffers 2 "r1" script
    ≡ some (ok (record { transport_stream = []; self_id = 7 }), [])
wait_finds_reply_example =
    wait_finds_reply scripted header_serde buffers "r1" 2 1 script (some (ok message) ∷ []) []
      message (omega arith) Skips-one refl message-IsReply

wait_spins_example : wait_for_reply scripted header_serde buffers 100 "r1" [] ≡ none
wait_spins_example = wait_spins scripted header_serde buffers "r1" 100 [] refl
