-- ===== src/Peer/Handshake.antt =====
-- `Peer::from_stream` of crates/peer/src/peer.rs. `Framed` of tokio_util is a parameter. The lock and the generator of
-- ULIDs are a result: an id, the text of an error, or a panic of the lock's `expect`.
pub mod Join
pub mod Wait
use text.Mathlib.Text.{◌==◌}
use zeroio.Common.{
  ℕ, zero, suc, String, Bool, Option, none, some, List, [], ◌∷◌, Result, ok, err, panic, ◌>>=◌,
  map_err, if◌then◌else◌,
}
use zeroio.Protocol.Constants.{client_id_unassigned}
use zeroio.Protocol.Errors.{ProtocolError, ProtocolResult, lit}
use zeroio.Protocol.External.{Buffers, Serde}
use zeroio.Protocol.Types.Header
use zeroio.Protocol.Types.Header.{Header, Auth, RequestResponse}
use zeroio.Protocol.Message
use zeroio.Protocol.Message.{Message, client_id}
use zeroio.Protocol.Message.Raw.{RawMessage}
use zeroio.Protocol.Codec.Utils.{Framed}
use zeroio.Protocol.Builder
use zeroio.Protocol.Builder.{MessageBuilder, build}
use zeroio.Protocol.Builder.Kinds
use zeroio.Transport.Errors.{TransportError, TransportResult, protocol, other}

-- A peer: the stream as the handshake leaves it, and the client id that the broker gave.
pub record Peer (S : Type 0) : Type 0 where
  pub transport_stream : S
  pub self_id : ℕ

-- `?` from a protocol error to a transport error.
abbrev pub from_protocol : {B : Type 0} → ProtocolResult B → TransportResult B
from_protocol r = map_err protocol r

-- What one round of the loop does: it returns, or `continue`s.
pub data Round (B : Type 0) : Type 0 where
  return : TransportResult B → Round B
  continue : Round B

module _ {V A S : Type 0} (framed : Framed V A S) (serde : Serde (Header V)) (bufs : Buffers) where
  abbrev answers : String → ℕ → Option RequestResponse → Round ℕ
  answers id client none = continue
  answers id client (some rep) = if rep.id == id then return (ok client) else continue

  abbrev of_header : String → ℕ → ProtocolResult (Header V) → Round ℕ
  of_header id client (ok h) = answers id client h.reqrep
  of_header id client (err e) = return (err (protocol e))
  of_header id client panic = return panic

  -- The body of the loop on what `next` gave.
  unfoldable pub round : String → Option (ProtocolResult (Message V A)) → Round ℕ
  round id none = continue
  round id (some (err e)) = return (err (protocol e))
  round id (some panic) = return panic
  round id (some (ok m)) = of_header id (client_id m) (Message.header serde bufs m).0

  -- The loop that waits for the answer, on fuel: `none` means that the fuel ran out.
  unfoldable pub wait_for_reply : ℕ → String → S → Option (TransportResult (Peer S) × S)
  wait_for_reply zero id s = none
  wait_for_reply (suc fuel) id s =
      let (item, s') = framed.next s in
      elim (round id item) [
        | return r ↦
            some ((do self_id ← r; ok (record { transport_stream = s'; self_id = self_id })), s')
        | continue ↦ wait_for_reply fuel id s'
      ]

  abbrev with_optional_auth : Option Auth → MessageBuilder V → MessageBuilder V
  with_optional_auth none b = b
  with_optional_auth (some a) b = Builder.auth b a

  -- The join message before `build`.
  abbrev pub join_builder : String → String → Option Auth → MessageBuilder V
  join_builder id name auth =
      with_optional_auth auth
        (Builder.reqrep (Kinds.join client_id_unassigned name) (Header.req id))

  abbrev after_send :
      ℕ → String → TransportResult (Unit {0}) → S → Option (TransportResult (Peer S) × S)
  after_send fuel id (ok u) s = wait_for_reply fuel id s
  after_send fuel id (err e) s = some (err e, s)
  after_send fuel id panic s = some (panic, s)

  abbrev after_build :
      ℕ → String → TransportResult (RawMessage V) → S → Option (TransportResult (Peer S) × S)
  after_build fuel id (ok m) s =
      let (sent, s') = framed.send s m in after_send fuel id (from_protocol sent) s'
  after_build fuel id (err e) s = some (err e, s)
  after_build fuel id panic s = some (panic, s)

  unfoldable pub from_stream :
      Serde V
      → V
      → ℕ
      → Result String String
      → String
      → Option Auth
      → S
      → Option (TransportResult (Peer S) × S)
  unfolding wait_for_reply
  from_stream serde_value nil fuel (err e) name auth s = some (err (other (lit e ∷ [])), s)
  from_stream serde_value nil fuel panic name auth s = some (panic, s)
  from_stream serde_value nil fuel (ok id) name auth s =
      after_build fuel id (from_protocol (build serde_value nil (join_builder id name auth))) s
