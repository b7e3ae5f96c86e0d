-- ===== src/Peer/Shared/Ends.antt =====
-- The ends of a shared stream: `SharedTransportStreamsExt` of crates/peer/src/lib.rs and what implements
-- it in peer.rs, server.rs and client.rs, and `ServiceWrapper` of server.rs.
use zeroio.Common.{ℕ, ◌≡◌, refl, sym, subst, none, true, [], ◌∷◌, Result, ok, ◌>>=◌}
use zeroio.Protocol.Message.{Message}
use zeroio.Protocol.Message.Raw.{RawMessage}
use zeroio.Protocol.Codec.Utils.{Framed}
use zeroio.Transport.Errors.{TransportResult}
use zeroio.Transport.Polls.{Poll}
use zeroio.Peer.Shared.{
  Half, ServerError, Shared, without, send_message, receive_message, Incoming, sends, locks,
  receives, drops, Run, go_on, stop, send, lock, receive, drop,
}

-- The trait. `W` is the state of the program that a method changes; an end is taken by value where it
-- is disconnected.
pub record SharedTransportStreamsExt (V A W T : Type 0) : Type 0 where
  pub disconnect : T → W → TransportResult (Unit {0}) × W
  pub send_message : T → RawMessage V → W → TransportResult (Unit {0}) × W
  pub receive_message : T → W → TransportResult (Message V A) × W

-- A counted pointer to the shared stream, of one half. A peer that is not split has one too.
pub record SharedTransportStream : Type 0 where
  pub half : Half

pub record Server : Type 0 where
  pub transport_stream : SharedTransportStream

pub record Client : Type 0 where
  pub transport_stream : SharedTransportStream

pub record PeerEnd : Type 0 where
  pub transport_stream : SharedTransportStream
  pub self_id : ℕ

abbrev pub with_transport_streams : SharedTransportStream → Server
with_transport_streams s = record { transport_stream = s }

module _ {V A S : Type 0} (framed : Framed V A S) where
  -- The methods from the point where they have the write lock and, to receive, an item.
  abbrev pub shared : SharedTransportStreamsExt V A (Shared S) SharedTransportStream
  shared = record {
    disconnect = λ t w. (ok tt, record w { halves = without t.half w.halves });
    send_message =
        λ t m w. let (r, s) = send_message framed m w.framed in (r, record w { framed = s });
    receive_message =
        λ t w. let (r, s) = receive_message framed w.framed in (r, record w { framed = s });
  }

module _ {V A W T U : Type 0} (pointer : U → T) (inner : SharedTransportStreamsExt V A W T) where
  -- `self.transport_stream.disconnect().await?; Ok(())`, and the other two methods as they are.
  abbrev pub pass_on : SharedTransportStreamsExt V A W U
  pass_on = record {
    disconnect = λ u w. let (r, w') = inner.disconnect (pointer u) w in ((do done ← r; ok tt), w');
    send_message = λ u m w. inner.send_message (pointer u) m w;
    receive_message = λ u w. inner.receive_message (pointer u) w;
  }

module _ {V A W : Type 0} (inner : SharedTransportStreamsExt V A W SharedTransportStream) where
  abbrev pub of_server : SharedTransportStreamsExt V A W Server
  of_server = pass_on (λ e. e.transport_stream) inner

  abbrev pub of_client : SharedTransportStreamsExt V A W Client
  of_client = pass_on (λ e. e.transport_stream) inner

  abbrev pub of_peer : SharedTransportStreamsExt V A W PeerEnd
  of_peer = pass_on (λ e. e.transport_stream) inner

abbrev pub ServerResult : Type 0 → Type 0
ServerResult R = Result ServerError R

-- `tower::Service`, of a state `S`, for requests of a type `R`, with futures of a type `F`.
pub record Service (S R F : Type 0) : Type 0 where
  pub poll_ready : S → Poll (ServerResult (Unit {0})) × S
  pub call : S → R → F × S

pub record ServiceWrapper (S : Type 0) : Type 0 where
  pub inner : S

-- `pin` is `Box::pin`.
abbrev pub wrapped : {S R F B : Type 0} → Service S R F → (F → B) → Service (ServiceWrapper S) R B
wrapped service pin = record {
  poll_ready = λ w. let (p, s) = service.poll_ready w.inner in (p, record { inner = s });
  call = λ w req. let (f, s) = service.call w.inner req in (pin f, record { inner = s });
}

module _ {V A S : Type 0} (framed : Framed V A S) (incoming : Incoming S) where
  module _ {U : Type 0} (pointer : U → SharedTransportStream) (u : U) (sh : Shared S)
      (free : sh.writer ≡ none) where
    -- The methods of a server, a client or a peer, called while nobody holds the lock, are runs of the
    -- shared stream with their results: to send is one step, to receive is to take the lock and, once
    -- an item is there, to take it, and to disconnect drops the half and nothing else.
    pub methods-Run :
        (message : RawMessage V)
        → incoming.has_item sh.framed ≡ true
        → let ends = pass_on pointer (shared framed) in
          let half = (pointer u).half in
          Run framed incoming sh
            (sends half message (ends.send_message u message sh).0 ∷ [])
            (ends.send_message u message sh).1
          × Run framed incoming sh
              (locks half ∷ receives half (ends.receive_message u sh).0 ∷ [])
              (ends.receive_message u sh).1
          × Run framed incoming sh (drops half ∷ []) (ends.disconnect u sh).1
          × ((ends.disconnect u sh).0 ≡ ok tt)
    methods-Run message there = (
      go_on (send (pointer u).half message free) stop,
      subst
          (λ o.
            Run framed incoming sh
              (locks (pointer u).half
                ∷ receives (pointer u).half (receive_message framed sh.framed).0
                ∷ [])
              (record sh { framed = (receive_message framed sh.framed).1; writer = o }))
          (sym free)
          (go_on (lock (pointer u).half free) (go_on (receive (pointer u).half refl there) stop)),
      go_on (drop (pointer u).half (λ e. cc (e, free))) stop,
      refl,
    )
