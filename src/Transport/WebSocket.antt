-- ===== src/Transport/WebSocket.antt =====
-- The streams of crates/transport/src/websocket.rs. What tokio-tungstenite does to a WebSocket of a
-- type `S` is a parameter.
pub mod Connect
pub mod Reading
use zeroio.Common.{
  ℕ, ◌+◌, ◌-◌, String, Bool, true, false, not, Option, none, some, List, [], ◌∷◌, ◌++◌, Result, ok,
  err, panic, ◌≡◌, map_err, length, if◌then◌else◌, ltb,
}
use zeroio.Protocol.Errors.{Text, lit}
use zeroio.Transport.Errors.{TransportError, TransportResult, WsError, from_ws, any_other}
use zeroio.Transport.Traits.{ConnectionInfo, ConnectionTimeouts, default_timeouts}
use zeroio.Transport.Polls.{Poll, ready, pending, ReadBuf, put_slice}
use zeroio.Transport.Io.{IoResult, IoError, Url}

-- `tungstenite::Message`
pub data WsMessage : Type 0 where
  text binary ping pong close frame : List ℕ → WsMessage

pub record WebSockets (S : Type 0) : Type 0 where
  pub to_string : WsError → String
  pub poll_next : S → Poll (Option (Result WsError WsMessage)) × S
  pub poll_ready : S → Poll (Result WsError (Unit {0})) × S
  pub start_send : WsMessage → S → Result WsError (Unit {0}) × S
  pub poll_flush : S → Poll (Result WsError (Unit {0})) × S
  pub poll_close : S → Poll (Result WsError (Unit {0})) × S
  pub close : S → Result WsError (Unit {0}) × S
  pub is_terminated : S → Bool
  pub queued : S → List WsMessage
  pub outgoing : S → List WsMessage
  pub can_send : S → Bool
  -- A message that has come in is the next one.
  pub next_ok :
      (m : WsMessage) (rest : List WsMessage) (s : S)
      → queued s ≡ m ∷ rest
      → (s' : S) × (poll_next s ≡ (ready (some (ok m)), s')) × (queued s' ≡ rest)
  -- A socket with room for a message says so, and takes it.
  pub send_ok :
      (m : WsMessage) (s : S)
      → can_send s ≡ true
      → (s₁ : S) × (s₂ : S) × (poll_ready s ≡ (ready (ok tt), s₁))
        × (start_send m s₁ ≡ (ok tt, s₂))
        × (outgoing s₂ ≡ outgoing s ++ (m ∷ []))
        × (can_send s₂ ≡ true)

pub record WebSocketTransportStream (S : Type 0) : Type 0 where
  pub stream : S
  pub info : ConnectionInfo
  pub timeouts : ConnectionTimeouts

abbrev pub new : {S : Type 0} → S → Url → WebSocketTransportStream S
new stream url = record {
  stream = stream;
  info = record {
    transport_type = "websocket";
    local_addr = some (lit url.as_str ∷ []);
    remote_addr = none;
    metadata = [];
  };
  timeouts = default_timeouts;
}

module _ {S : Type 0} (sockets : WebSockets S) where
  -- `io::Error::new(io::ErrorKind::Other, e)`
  abbrev pub other_error : {A : Type 0} → Result WsError A → IoResult A
  other_error r = map_err (λ e. record { kind = any_other; text = sockets.to_string e }) r

  abbrev pub poll_other : {A : Type 0} → Poll (Result WsError A) → Poll (IoResult A)
  poll_other pending = pending
  poll_other (ready r) = ready (other_error r)

  -- The bytes are in the buffer, or the call panics.
  abbrev pub delivered : ReadBuf → Option ReadBuf → Poll (IoResult (Unit {0})) × ReadBuf
  delivered buf none = (ready panic, buf)
  delivered buf (some buf') = (ready (ok tt), buf')

  abbrev pub deliver : List ℕ → ReadBuf → Poll (IoResult (Unit {0})) × ReadBuf
  unfolding put_slice
  deliver bytes buf = delivered buf (put_slice bytes buf)

  abbrev pub read_next :
      Poll (Option (Result WsError WsMessage)) → ReadBuf → Poll (IoResult (Unit {0})) × ReadBuf
  read_next pending buf = (pending, buf)
  read_next (ready none) buf = (ready (ok tt), buf)
  read_next (ready (some (err e))) buf =
      (ready (err (record { kind = any_other; text = sockets.to_string e })), buf)
  read_next (ready (some panic)) buf = (ready panic, buf)
  read_next (ready (some (ok (binary bytes)))) buf = deliver bytes buf
  read_next (ready (some (ok (text bytes)))) buf = deliver bytes buf
  read_next (ready (some (ok (close bytes)))) buf = (ready (ok tt), buf)
  read_next (ready (some (ok (ping bytes)))) buf = (pending, buf)
  read_next (ready (some (ok (pong bytes)))) buf = (pending, buf)
  read_next (ready (some (ok (frame bytes)))) buf = (pending, buf)

  abbrev pub is_connected : WebSocketTransportStream S → Bool
  is_connected t = not (sockets.is_terminated t.stream)

  -- `?` on an error of tungstenite.
  unfoldable pub close_stream :
      WebSocketTransportStream S → TransportResult (Unit {0}) × WebSocketTransportStream S
  close_stream t =
      let (r, s) = sockets.close t.stream in (map_err from_ws r, record t { stream = s })

  unfoldable pub poll_read :
      WebSocketTransportStream S
      → ReadBuf
      → Poll (IoResult (Unit {0})) × (ReadBuf × WebSocketTransportStream S)
  poll_read t buf =
      let (p, s) = sockets.poll_next t.stream in
      let (r, buf') = read_next p buf in (r, (buf', record t { stream = s }))

  abbrev pub sent : List ℕ → Result WsError (Unit {0}) → IoResult ℕ
  sent bytes (ok u) = ok (length bytes)
  sent bytes (err e) = err (record { kind = any_other; text = sockets.to_string e })
  sent bytes panic = panic

  unfoldable pub send_ready : Poll (Result WsError (Unit {0})) → List ℕ → S → Poll (IoResult ℕ) × S
  send_ready pending bytes s = (pending, s)
  send_ready (ready (err e)) bytes s =
      (ready (err (record { kind = any_other; text = sockets.to_string e })), s)
  send_ready (ready panic) bytes s = (ready panic, s)
  send_ready (ready (ok u)) bytes s =
      let (r, s') = sockets.start_send (binary bytes) s in (ready (sent bytes r), s')

  unfoldable pub poll_write :
      WebSocketTransportStream S → List ℕ → Poll (IoResult ℕ) × WebSocketTransportStream S
  unfolding send_ready
  poll_write t bytes =
      let (p, s) = sockets.poll_ready t.stream in
      let (r, s') = send_ready p bytes s in (r, record t { stream = s' })

  abbrev pub poll_flush :
      WebSocketTransportStream S → Poll (IoResult (Unit {0})) × WebSocketTransportStream S
  poll_flush t = let (p, s) = sockets.poll_flush t.stream in (poll_other p, record t { stream = s })

  abbrev pub poll_shutdown :
      WebSocketTransportStream S → Poll (IoResult (Unit {0})) × WebSocketTransportStream S
  poll_shutdown t =
      let (p, s) = sockets.poll_close t.stream in (poll_other p, record t { stream = s })
