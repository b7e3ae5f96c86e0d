-- ===== src/Transport/Errors.antt =====
-- crates/transport/src/error.rs. A text made by `format!` is kept as the list of its pieces.
pub mod Context
use zeroio.Common.{ℕ, String, Option, none, some, List, [], ◌∷◌, ◌++◌, Result, map_err}
use zeroio.Protocol.Errors.{Piece, lit, Text, ProtocolError, invalid_format}

mutual
  -- `Duration` is a number of nanoseconds.
  pub data TransportError : Type 0 where
    io : Text → TransportError
    invalid_url : Text → TransportError
    connection_failure : Text → TransportError
    protocol : ProtocolError → TransportError
    web_socket : Text → TransportError
    connection_dropped : TransportError
    multiple : TransportErrors → TransportError
    connection_not_found : Text → TransportError
    timeout : ℕ → TransportError
    connection_closed : TransportError
    unsupported_transport : Text → TransportError
    resource_unavailable : Text → TransportError
    transport_error : Text → TransportError
    config : Text → TransportError
    access_denied : Text → TransportError
    transport_not_found : Text → TransportError
    connection_pool : Text → TransportError
    message_too_large : ℕ → ℕ → TransportError
    other : Text → TransportError

  -- `Vec<TransportError>`
  pub data TransportErrors : Type 0 where
    no_errors : TransportErrors
    more_errors : TransportError → TransportErrors → TransportErrors

abbrev pub TransportResult : Type 0 → Type 0
TransportResult A = Result TransportError A

abbrev add_context : Text → TransportError → TransportError
add_context context (io msg) = io (context ++ (lit ": " ∷ msg))
add_context context (connection_failure msg) = connection_failure (context ++ (lit ": " ∷ msg))
add_context context (invalid_url msg) = invalid_url (context ++ (lit ": " ∷ msg))
add_context context e = e

-- `context` is what the closure returns.
unfoldable pub with_context : {A : Type 0} → TransportResult A → Text → TransportResult A
with_context r context = map_err (add_context context) r

abbrev conn_info : String → Option String → Option String → Text
conn_info kind (some l) (some r) =
    lit "[" ∷ lit kind ∷ lit " " ∷ lit l ∷ lit "->" ∷ lit r ∷ lit "]" ∷ []
conn_info kind (some l) none = lit "[" ∷ lit kind ∷ lit " " ∷ lit l ∷ lit "]" ∷ []
conn_info kind none (some r) = lit "[" ∷ lit kind ∷ lit " ->" ∷ lit r ∷ lit "]" ∷ []
conn_info kind none none = lit "[" ∷ lit kind ∷ lit "]" ∷ []

abbrev add_info : Text → TransportError → TransportError
add_info info (io msg) = io (info ++ (lit " " ∷ msg))
add_info info (connection_failure msg) = connection_failure (info ++ (lit " " ∷ msg))
add_info info connection_dropped = connection_dropped
add_info info e = e

unfoldable pub with_connection_info :
    {A : Type 0} → TransportResult A → String → Option String → Option String → TransportResult A
with_connection_info r kind local remote = map_err (add_info (conn_info kind local remote)) r

-- `std::io::ErrorKind`, as far as the conversion tells its cases apart.
pub data IoErrorKind : Type 0 where
  timed_out connection_refused connection_reset connection_aborted not_connected would_block
        permission_denied any_other :
      IoErrorKind

-- `text` is `err.to_string()`.
abbrev pub from_io : IoErrorKind → String → TransportError
from_io timed_out text = timeout 30000000000
from_io connection_refused text = connection_failure (lit "Connection refused" ∷ [])
from_io connection_reset text = connection_dropped
from_io connection_aborted text = connection_dropped
from_io not_connected text = connection_closed
from_io would_block text = resource_unavailable (lit "Operation would block" ∷ [])
from_io permission_denied text = access_denied (lit "Permission denied" ∷ [])
from_io any_other text = io (lit text ∷ [])

-- `tungstenite::Error`, as far as the conversion tells its cases apart, with the texts that it takes.
pub data WsError : Type 0 where
  connection_closed already_closed utf8 : WsError
  io : IoErrorKind → String → WsError
  tls capacity protocol http http_format url any_other : String → WsError

abbrev pub from_ws : WsError → TransportError
from_ws WsError.connection_closed = TransportError.connection_closed
from_ws WsError.already_closed = TransportError.connection_closed
from_ws (WsError.io kind text) = from_io kind text
from_ws (WsError.tls text) = web_socket (lit "TLS error: " ∷ lit text ∷ [])
from_ws (WsError.capacity text) = message_too_large 0 1048576
from_ws (WsError.protocol text) = TransportError.protocol (invalid_format (lit text ∷ []))
from_ws WsError.utf8 = resource_unavailable (lit "WebSocket resource error" ∷ [])
from_ws (WsError.http text) = connection_failure (lit "HTTP error: " ∷ lit text ∷ [])
from_ws (WsError.http_format text) = connection_failure (lit "HTTP format error: " ∷ lit text ∷ [])
from_ws (WsError.url text) = invalid_url (lit text ∷ [])
from_ws (WsError.any_other text) = web_socket (lit text ∷ [])

abbrev pub timeout_error : ℕ → TransportError
timeout_error duration = timeout duration
