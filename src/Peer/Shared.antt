-- ===== src/Peer/Shared.antt =====
-- The stream that the halves of a peer share: `types` of crates/peer/src/lib.rs, with server.rs,
-- client.rs and the rest of peer.rs. The `Arc<RwLock<Framed<..>>>` is a store: the framed stream of a
-- type `S`, the half that holds the write lock, and the halves that are not dropped.
pub mod Blocked
pub mod Pair
pub mod Ends
use zeroio.Common.{
  ℕ, ◌≡◌, ◌≢◌, String, Bool, true, false, Option, none, some, List, [], ◌∷◌, Result, ok, err, panic,
  ◌>>=◌, if◌then◌else◌,
}
use zeroio.Protocol.Errors.{ProtocolError, ProtocolResult, Text}
use zeroio.Protocol.Types.StatusCode.{StatusCode}
use zeroio.Protocol.Types.Header.{Header}
use zeroio.Protocol.Message.{Message}
use zeroio.Protocol.Message.Raw.{RawMessage}
use zeroio.Transport.Errors.{TransportError, TransportResult, connection_closed}
use zeroio.Protocol.Codec.Utils.{Framed}
use zeroio.Peer.Handshake.{Peer, from_protocol}

-- `RequestContext` and `ResponseContext`
pub record RequestContext (V A : Type 0) : Type 0 where
  pub message : Message V A
  pub client_id : ℕ
  pub source_url : Option String

pub record ResponseContext (V : Type 0) : Type 0 where
  pub message : RawMessage V

abbrev pub response_context : {V : Type 0} → RawMessage V → ResponseContext V
response_context message = record { message = message }

abbrev pub with_status : {V : Type 0} → ResponseContext V → StatusCode → ResponseContext V
with_status r status = record r {
  message = record r.message { header = record r.message.header { status = some status } };
}

pub data ServerError : Type 0 where
  transport : TransportError → ServerError
  protocol : ProtocolError → ServerError
  handler_not_found : Text → ServerError
  internal : Text → ServerError

-- The two halves of a peer.
pub data Half : Type 0 where
  server client : Half

pub record Shared (S : Type 0) : Type 0 where
  pub framed : S
  pub writer : Option Half
  pub halves : List Half

abbrev pub split : {S : Type 0} → Peer S → Shared S
split peer = record { framed = peer.transport_stream; writer = none; halves = server ∷ client ∷ [] }

-- `ok_or` on what `next` gave, and the conversion of its error.
abbrev pub received :
    {V A : Type 0} → Option (ProtocolResult (Message V A)) → TransportResult (Message V A)
received none = err connection_closed
received (some r) = from_protocol r

module _ {V A S : Type 0} (framed : Framed V A S) where
  -- Under the lock.
  unfoldable pub send_message : RawMessage V → S → TransportResult (Unit {0}) × S
  send_message message s = let (r, s') = framed.send s message in (from_protocol r, s')

  unfoldable pub receive_message : S → TransportResult (Message V A) × S
  receive_message s = let (item, s') = framed.next s in (received item, s')

-- What happens at a shared stream: bytes come in, the connection ends or fails, and the halves make
-- their calls. A call of `receive_message` is two events, as it waits under the lock for an item, or is
-- cancelled while it waits.
pub data Event (V A : Type 0) : Type 0 where
  arrives : List ℕ → Event V A
  locks : Half → Event V A
  receives : Half → TransportResult (Message V A) → Event V A
  sends : Half → RawMessage V → TransportResult (Unit {0}) → Event V A
  drops : Half → Event V A
  cancels : Half → Event V A
  breaks : Event V A

-- What is known of the framed stream while nothing is received from it; `broken` is what it becomes
-- when the connection ends or fails.
pub record Incoming (S : Type 0) : Type 0 where
  pub arrive : List ℕ → S → S
  pub broken : S → S
  pub has_item : S → Bool

abbrev pub same_half : Half → Half → Bool
same_half server server = true
same_half server client = false
same_half client server = false
same_half client client = true

abbrev pub without : Half → List Half → List Half
without h [] = []
without h (k ∷ rest) = let others = without h rest in if same_half k h then others else k ∷ others

module _ {V A S : Type 0} (framed : Framed V A S) (incoming : Incoming S) where
  -- The temporary guard of `self.write().await.next().await` lives until the item is there.
  -- `disconnect` takes its half by value, which is then in no other call, and drops it. A caller that
  -- drops the future of `receive_message`, as a timeout does, drops the guard with it.
  pub data Step (sh : Shared S) : Event V A → Shared S → Type 0 where
    arrive :
        (bytes : List ℕ)
        → Step sh (arrives bytes) (record sh { framed = incoming.arrive bytes sh.framed })
    lock : (h : Half) → sh.writer ≡ none → Step sh (locks h) (record sh { writer = some h })
    receive :
        (h : Half)
        → sh.writer ≡ some h
        → incoming.has_item sh.framed ≡ true
        → Step sh
            (receives h (receive_message framed sh.framed).0)
            (record sh { framed = (receive_message framed sh.framed).1; writer = none })
    send :
        (h : Half) (message : RawMessage V)
        → sh.writer ≡ none
        → Step sh
            (sends h message (send_message framed message sh.framed).0)
            (record sh { framed = (send_message framed message sh.framed).1 })
    drop :
        (h : Half)
        → sh.writer ≢ some h
        → Step sh (drops h) (record sh { halves = without h sh.halves })
    cancel : (h : Half) → sh.writer ≡ some h → Step sh (cancels h) (record sh { writer = none })
    break : Step sh breaks (record sh { framed = incoming.broken sh.framed })

  pub data Run : Shared S → List (Event V A) → Shared S → Type 0 where
    stop : {sh : Shared S} → Run sh [] sh
    go_on :
        {sh next end : Shared S} {event : Event V A} {events : List (Event V A)}
        → Step sh event next
        → Run next events end
        → Run sh (event ∷ events) end
