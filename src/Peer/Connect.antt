-- ===== src/Peer/Connect.antt =====
-- `Peer::connect` of crates/peer/src/peer.rs: a connection of a new `TransportManager`, and the
-- handshake over it.
pub mod Refused
use zeroio.Common.{ℕ, String, ◌≡◌, Option, some, none, List, Result, ok, err, panic}
use zeroio.Protocol.External.{Buffers, Serde}
use zeroio.Protocol.Codec.{MessageCodec}
use zeroio.Protocol.Codec.Utils.{Framed}
use zeroio.Protocol.Types.Header.{Header, Auth}
use zeroio.Transport.Errors.{TransportResult}
use zeroio.Transport.Messages.{sink}
use zeroio.Transport.Manager as Manager
use zeroio.Transport.Manager.{Lru}
use zeroio.Transport.Manager.Registry.{Table, BuiltIn, new_manager}
use zeroio.Peer.Handshake.{Peer, from_stream}

-- What the world gives to a connection: an empty table, a cache of each capacity, the connections that the
-- transports make, the times, the framing of a stream, and a result of the generator of ULIDs.
pub record World (M C D S : Type 0) : Type 0 where
  pub table : Table M D
  pub no_transports : M
  pub lru : Lru C
  pub no_entries : ℕ → C
  pub made : BuiltIn D
  pub began : ℕ
  pub done : ℕ
  pub frame : D → MessageCodec → S
  pub generated : Result String String

-- The stream of `TransportManager::new().connect(..)`
unfoldable pub stream_of : {M C D S : Type 0} → World M C D S → String → TransportResult D
unfolding Manager.connect
stream_of world address =
    let manager = new_manager world.table world.made world.no_transports world.no_entries in
    (Manager.connect world.lru (world.table.values manager.transports) world.began world.done
      address manager.connection_stats).0

module _ {V A M C D S : Type 0} (world : World M C D S) (framed : Framed V A S)
    (serde : Serde (Header V)) (bufs : Buffers) (serde_value : Serde V) (nil : V) where
  abbrev pub result_of : Option (TransportResult (Peer S) × S) → Option (TransportResult (Peer S))
  result_of none = none
  result_of (some (r, s)) = some r

  unfoldable pub joined :
      ℕ → String → Option Auth → TransportResult D → Option (TransportResult (Peer S))
  unfolding from_stream
  joined fuel name auth (ok stream) = result_of (
      from_stream framed serde bufs serde_value nil fuel world.generated name auth
        (sink world.frame stream))
  joined fuel name auth (err e) = some (err e)
  joined fuel name auth panic = some panic

  unfoldable pub connect : ℕ → String → String → Option Auth → Option (TransportResult (Peer S))
  unfolding joined
  connect fuel address name auth = joined fuel name auth (stream_of world address)
