-- ===== src/Transport/Tcp.antt =====
-- crates/transport/src/tcp.rs: the configuration, streams and their frames.
pub mod Connect
pub mod RoundTrip
pub mod Frames
pub mod Late
use zeroio.Common.{
  ℕ, ◌+◌, String, Bool, true, Option, none, some, List, [], ◌∷◌, ◌++◌, Result, ok, err, panic, ltb,
  if◌then◌else◌, length,
}
use zeroio.Common.Words.{as_u32, to_be_u32, from_be}
use zeroio.Protocol.Errors.{Text, lit, num}
use zeroio.Transport.Errors.{TransportError, TransportResult, io, message_too_large, timeout}
use zeroio.Transport.Traits.{ConnectionInfo, ConnectionTimeouts, from_secs, as_secs}
use zeroio.Transport.Io.{Socket, IoResult, Timed, in_time, elapsed, with_text}

abbrev pub default_connection_timeout_secs : ℕ
default_connection_timeout_secs = 30

abbrev pub default_keep_alive_interval_secs : ℕ
default_keep_alive_interval_secs = 30

abbrev pub default_max_frame_size : ℕ
default_max_frame_size = 1048576

abbrev pub default_tcp_keep_alive_secs : ℕ
default_tcp_keep_alive_secs = 60

pub record TcpConfig : Type 0 where
  pub nodelay : Bool
  pub keepalive : Option ℕ
  pub send_buffer_size : Option ℕ
  pub recv_buffer_size : Option ℕ
  pub connect_timeout : Option ℕ
  pub read_timeout : Option ℕ
  pub write_timeout : Option ℕ
  pub max_message_size : ℕ

abbrev pub default_config : TcpConfig
default_config = record {
  nodelay = true;
  keepalive = some (from_secs default_tcp_keep_alive_secs);
  send_buffer_size = none;
  recv_buffer_size = none;
  connect_timeout = some (from_secs default_connection_timeout_secs);
  read_timeout = some (from_secs 30);
  write_timeout = some (from_secs 30);
  max_message_size = default_max_frame_size;
}

pub record TcpTransportStream (S : Type 0) : Type 0 where
  pub stream : S
  pub info : ConnectionInfo
  pub timeouts : ConnectionTimeouts

-- `unwrap_or` on the read timeout, in seconds.
abbrev pub timeout_secs : Option ℕ → ℕ
timeout_secs none = as_secs (from_secs default_connection_timeout_secs)
timeout_secs (some d) = as_secs d

abbrev pub read_limit : {S : Type 0} → TcpTransportStream S → ℕ
read_limit t = timeout_secs t.timeouts.read_timeout

abbrev pub is_connected : {S : Type 0} → TcpTransportStream S → Bool
is_connected t = true

module _ {S : Type 0} (socket : Socket S) where
  abbrev pub close : TcpTransportStream S → TransportResult (Unit {0}) × TcpTransportStream S
  close t =
      let (r, s) = socket.shutdown t.stream in
      (with_text io (lit "Failed to shut down TCP stream: " ∷ []) r, record t { stream = s })

  -- From the check of the length on: `s` is the socket after the four bytes of the length.
  unfoldable pub read_data :
      TcpTransportStream S → S → ℕ → TransportResult (List ℕ) × TcpTransportStream S
  read_data t s len =
      if ltb (read_limit t) len
      then (err (message_too_large len (read_limit t)), record t { stream = s })
      else (let (r, s') = socket.read_exact len s in
          (
            with_text io (lit "Failed to read frame data of length " ∷ num len ∷ lit ": " ∷ []) r,
            record t { stream = s' },
          ))

  abbrev after_length :
      TcpTransportStream S
      → TransportResult (List ℕ)
      → S
      → TransportResult (List ℕ) × TcpTransportStream S
  after_length t (ok bytes) s = read_data t s (from_be bytes)
  after_length t (err e) s = (err e, record t { stream = s })
  after_length t panic s = (panic, record t { stream = s })

  unfoldable pub read_frame_internal :
      TcpTransportStream S → TransportResult (List ℕ) × TcpTransportStream S
  unfolding read_data
  read_frame_internal t =
      let (r, s) = socket.read_exact 4 t.stream in
      after_length t (with_text io (lit "Failed to read frame length: " ∷ []) r) s

  abbrev after_write :
      TcpTransportStream S
      → TransportResult (Unit {0})
      → S
      → TransportResult (Unit {0}) × TcpTransportStream S
  after_write t (ok u) s =
      let (r, s') = socket.flush s in
      (with_text io (lit "Failed to flush TCP stream: " ∷ []) r, record t { stream = s' })
  after_write t (err e) s = (err e, record t { stream = s })
  after_write t panic s = (panic, record t { stream = s })

  unfoldable pub write_frame_internal :
      TcpTransportStream S → List ℕ → TransportResult (Unit {0}) × TcpTransportStream S
  write_frame_internal t bytes =
      if ltb default_max_frame_size (length bytes)
      then (err (message_too_large (length bytes) default_max_frame_size), t)
      else (let (r, s) = socket.write_all (to_be_u32 (as_u32 (length bytes)) ++ bytes) t.stream in
          after_write t
            (with_text io
              (lit "Failed to write frame of length " ∷ num (length bytes) ∷ lit ": " ∷ []) r)
            s)

  -- An operation under a timeout that may elapse before it ends.
  abbrev pub limited :
      {A : Type 0}
      → Option ℕ
      → Timed S
      → TcpTransportStream S
      → TransportResult A × TcpTransportStream S
      → TransportResult A × TcpTransportStream S
  limited none timed t done = done
  limited (some d) in_time t done = done
  limited (some d) (elapsed s) t done = (err (timeout d), record t { stream = s })

  unfoldable pub read_frame :
      Timed S → TcpTransportStream S → TransportResult (List ℕ) × TcpTransportStream S
  unfolding read_frame_internal
  read_frame timed t = limited t.timeouts.read_timeout timed t (read_frame_internal t)

  unfoldable pub write_frame :
      Timed S → TcpTransportStream S → List ℕ → TransportResult (Unit {0}) × TcpTransportStream S
  unfolding write_frame_internal
  write_frame timed t bytes =
      limited t.timeouts.write_timeout timed t (write_frame_internal t bytes)
