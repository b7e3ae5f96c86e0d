-- ===== src/Transport/Tcp/Connect.antt =====
-- Connecting and listening of crates/transport/src/tcp.rs. What tokio and socket2 do to a socket of
-- a type `S` and a listener of a type `L` is a parameter.
pub mod Sound
use text.Mathlib.Text.{◌==◌, starts_with}
use zeroio.Common.{
  ℕ, String, Bool, true, false, Option, none, some, List, [], ◌∷◌, ◌++◌, Result, ok, err, panic,
  ◌>>=◌, map_ok, if◌then◌else◌,
}
use zeroio.Protocol.Errors.{Text, lit}
use zeroio.Transport.Errors.{
  TransportError, TransportResult, io, invalid_url, connection_failure, timeout,
}
use zeroio.Transport.Traits.{ConnectionInfo, ConnectionTimeouts, from_secs}
use zeroio.Transport.Io.{IoResult, Url, parsed, host_port, with_text, from_io_result}
use zeroio.Transport.Tcp.{TcpConfig, TcpTransportStream, default_keep_alive_interval_secs}

pub record Net (S L : Type 0) : Type 0 where
  -- The answer to a connection, and whether it comes before a timeout.
  pub connect : Text → IoResult S
  pub answers_within : Text → ℕ → Bool
  pub local_addr : S → IoResult String
  pub peer_addr : S → IoResult String
  pub set_nodelay : Bool → S → IoResult S
  pub into_std : S → IoResult S
  pub set_tcp_keepalive : ℕ → ℕ → S → IoResult S
  pub from_std : S → IoResult S
  pub bind : Text → IoResult L
  pub accept : L → IoResult (S × String) × L
  pub listener_addr : L → IoResult String

pub record TcpTransportListener (L : Type 0) : Type 0 where
  pub listener : L
  pub transport : TcpConfig

-- The address of a "tcp://" url.
abbrev pub tcp_addr : Result String Url → TransportResult Text
tcp_addr r = do
  u ← parsed r
  if u.scheme == "tcp"
      then host_port u
      else err (invalid_url (lit "Expected tcp:// scheme, got " ∷ lit u.scheme ∷ lit "://" ∷ []))

abbrev pub new : {S : Type 0} → S → String → String → ConnectionTimeouts → TcpTransportStream S
new stream local_addr remote_addr timeouts = record {
  stream = stream;
  info = record {
    transport_type = "tcp";
    local_addr = some (lit local_addr ∷ []);
    remote_addr = some (lit remote_addr ∷ []);
    metadata = [];
  };
  timeouts = timeouts;
}

abbrev pub supports_url : String → Bool
supports_url url = starts_with url "tcp://"

module _ {S L : Type 0} (net : Net S L) (config : TcpConfig) where
  abbrev pub keep_alive : Option ℕ → S → TransportResult S
  keep_alive none s = ok s
  keep_alive (some time) s = do
    std ← from_io_result (net.into_std s)
    kept ←
        with_text io (lit "Failed to set TCP keepalive: " ∷ [])
          (net.set_tcp_keepalive time (from_secs default_keep_alive_interval_secs) std)
    from_io_result (net.from_std kept)

  unfoldable pub apply_config : S → TransportResult S
  apply_config s = do
    s' ← with_text io (lit "Failed to set TCP nodelay: " ∷ []) (net.set_nodelay config.nodelay s)
    peer ← from_io_result (net.peer_addr s')
    keep_alive config.keepalive s'

  abbrev reached : Text → TransportResult S
  reached addr =
      with_text connection_failure (lit "Failed to connect to " ∷ (addr ++ (lit ": " ∷ [])))
        (net.connect addr)

  abbrev pub dial : Option ℕ → Text → TransportResult S
  dial none addr = reached addr
  dial (some d) addr = if net.answers_within addr d then reached addr else err (timeout d)

  unfoldable pub connect :
      (String → Result String Url) → String → TransportResult (TcpTransportStream S)
  unfolding apply_config
  connect parse url = do
    addr ← tcp_addr (parse url)
    s ← dial config.connect_timeout addr
    local ← from_io_result (net.local_addr s)
    remote ← from_io_result (net.peer_addr s)
    s' ← apply_config s
    ok (
        new s' local remote (record {
          read_timeout = config.read_timeout;
          write_timeout = config.write_timeout;
          connect_timeout = config.connect_timeout;
        }))

  unfoldable pub listen :
      (String → Result String Url) → String → TransportResult (TcpTransportListener L)
  listen parse url = do
    addr ← tcp_addr (parse url)
    l ← with_text io (lit "Failed to bind to " ∷ (addr ++ (lit ": " ∷ []))) (net.bind addr)
    ok (record { listener = l; transport = config })

module _ {S L : Type 0} (net : Net S L) where
  abbrev of_accepted : TcpConfig → S × String → TransportResult (TcpTransportStream S)
  unfolding apply_config
  of_accepted config (s, remote) = do
    local ← with_text io (lit "Failed to get local address: " ∷ []) (net.local_addr s)
    s' ← apply_config net config s
    ok (
        new s' local remote (record {
          read_timeout = config.read_timeout;
          write_timeout = config.write_timeout;
          connect_timeout = none;
        }))

  unfoldable pub accept :
      TcpTransportListener L → TransportResult (TcpTransportStream S) × TcpTransportListener L
  unfolding of_accepted
  accept t =
      let (r, l) = net.accept t.listener in
      (
        with_text io (lit "Failed to accept TCP connection: " ∷ []) r >>= of_accepted t.transport,
        record t { listener = l },
      )

  abbrev pub listener_addr : TcpTransportListener L → TransportResult String
  listener_addr t = from_io_result (net.listener_addr t.listener)
