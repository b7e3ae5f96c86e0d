-- ===== src/Transport/Streams.antt =====
-- The trait `TransportStream` of crates/transport/src/traits.rs, and its implementations for the
-- streams of the five transports, for a boxed stream and for `StreamBorrow` of message.rs, with the
-- polls of `AsyncRead` and `AsyncWrite` that the trait requires.
use zeroio.Common.{Bool, ok}
use zeroio.Transport.Errors.{TransportResult}
use zeroio.Transport.Traits.{ConnectionInfo, ConnectionTimeouts, default_timeouts}
use zeroio.Transport.Io.{Socket}
use zeroio.Transport.Polls.{AsyncRead, AsyncWrite, read_through, write_through}
use zeroio.Transport.Tcp as Tcp
use zeroio.Transport.Tcp.{TcpTransportStream}
use zeroio.Transport.Ipc as Ipc
use zeroio.Transport.Ipc.{Files, IpcTransportStream}
use zeroio.Transport.Stdio as Stdio
use zeroio.Transport.Stdio.Close as StdioClose
use zeroio.Transport.Stdio.{Processes, StdioTransportStream}
use zeroio.Transport.WebSocket as WebSocket
use zeroio.Transport.WebSocket.{WebSockets, WebSocketTransportStream}
use zeroio.Transport.Channel as Channel
use zeroio.Transport.Channel.{ChannelStream}

pub record TransportStream (T : Type 0) : Type 0 where
  pub connection_info : T → ConnectionInfo
  pub is_connected : T → Bool
  pub close : T → TransportResult (Unit {0}) × T
  pub timeouts : T → ConnectionTimeouts
  pub async_read : AsyncRead T
  pub async_write : AsyncWrite T

module _ {S : Type 0} (reads : AsyncRead S) (writes : AsyncWrite S) where
  abbrev pub tcp_stream : Socket S → TransportStream (TcpTransportStream S)
  tcp_stream socket = record {
    connection_info = λ t. t.info;
    is_connected = Tcp.is_connected;
    close = Tcp.close socket;
    timeouts = λ t. t.timeouts;
    async_read = read_through (λ t. t.stream) (λ t s. record t { stream = s }) reads;
    async_write = write_through (λ t. t.stream) (λ t s. record t { stream = s }) writes;
  }

  abbrev pub ipc_stream : {F L : Type 0} → Files F S L → TransportStream (IpcTransportStream S)
  unfolding Ipc.close
  ipc_stream files = record {
    connection_info = λ t. t.info;
    is_connected = Ipc.is_connected;
    close = Ipc.close files;
    timeouts = λ t. t.timeouts;
    async_read = read_through (λ t. t.inner) (λ t s. record t { inner = s }) reads;
    async_write = write_through (λ t. t.inner) (λ t s. record t { inner = s }) writes;
  }

  abbrev pub channel_stream : TransportStream (ChannelStream S)
  channel_stream = record {
    connection_info = λ t. t.info;
    is_connected = Channel.is_connected;
    close = λ t. (ok tt, Channel.close t);
    timeouts = λ t. default_timeouts;
    async_read = read_through (λ t. t.stream) (λ t s. record t { stream = s }) reads;
    async_write = write_through (λ t. t.stream) (λ t s. record t { stream = s }) writes;
  }

abbrev pub stdio_stream :
    {W R C : Type 0}
    → Processes W R C
    → AsyncRead R
    → AsyncWrite W
    → TransportStream (StdioTransportStream W R C)
unfolding StdioClose.close
stdio_stream processes reads writes = record {
  connection_info = λ t. t.info;
  is_connected = Stdio.is_connected;
  close = λ t. let (r, (t', dropped)) = StdioClose.close processes t in (r, t');
  timeouts = λ t. t.timeouts;
  async_read = read_through (λ t. t.read) (λ t r. record t { read = r }) reads;
  async_write = write_through (λ t. t.write) (λ t w. record t { write = w }) writes;
}

abbrev pub web_socket_stream :
    {S : Type 0} → WebSockets S → TransportStream (WebSocketTransportStream S)
unfolding WebSocket.close_stream WebSocket.poll_read WebSocket.poll_write
web_socket_stream sockets = record {
  connection_info = λ t. t.info;
  is_connected = WebSocket.is_connected sockets;
  close = WebSocket.close_stream sockets;
  timeouts = λ t. t.timeouts;
  async_read = record { poll_read = WebSocket.poll_read sockets };
  async_write = record {
    poll_write = WebSocket.poll_write sockets;
    poll_flush = WebSocket.poll_flush sockets;
    poll_shutdown = WebSocket.poll_shutdown sockets;
  };
}

-- `Box<dyn TransportStream>`, of which the model keeps the stream that is in the box.
abbrev pub boxed : {T : Type 0} → TransportStream T → TransportStream T
boxed inner = record {
  connection_info = inner.connection_info;
  is_connected = inner.is_connected;
  close = inner.close;
  timeouts = inner.timeouts;
  async_read = inner.async_read;
  async_write = inner.async_write;
}

pub record StreamBorrow (T : Type 0) : Type 0 where
  pub stream : T

abbrev pub borrowed : {T : Type 0} → TransportStream T → TransportStream (StreamBorrow T)
borrowed inner = record {
  connection_info = λ b. inner.connection_info b.stream;
  is_connected = λ b. inner.is_connected b.stream;
  close = λ b. let (r, t) = inner.close b.stream in (r, record { stream = t });
  timeouts = λ b. inner.timeouts b.stream;
  async_read = read_through (λ b. b.stream) (λ b t. record { stream = t }) inner.async_read;
  async_write = write_through (λ b. b.stream) (λ b t. record { stream = t }) inner.async_write;
}
