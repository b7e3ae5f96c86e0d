-- ===== src/Transport/Stdio.antt =====
-- crates/transport/src/stdio.rs. A process of a type `C` and the ends of its pipes, of the types `W`
-- and `R`, are parameters, with what the standard library and tokio do to them. What is kept of a
-- command is what differs from call to call: the streams are always piped and inherited alike.
pub mod Close
pub mod Closing
pub mod Started
use text.Mathlib.Text.{◌==◌, starts_with}
use zeroio.Common.{
  ℕ, String, ◌≡◌, Bool, true, false, Option, none, some, List, [], ◌∷◌, Result, ok, err, panic,
  ◌>>=◌, map_err, if◌then◌else◌,
}
use zeroio.Protocol.Errors.{Text, lit, num}
use zeroio.Transport.Errors.{
  TransportError, TransportResult, io, invalid_url, connection_failure, unsupported_transport,
}
use zeroio.Transport.Traits.{ConnectionInfo, ConnectionTimeouts, from_secs}
use zeroio.Transport.Io.{IoResult, IoError, from_io_result}
use zeroio.Transport.Words.{strip_prefix, split_whitespace}

pub record StdioConfig : Type 0 where
  pub command : String
  pub args : List String
  pub env : List (String × String)
  pub working_dir : Option String

abbrev pub default_config : StdioConfig
default_config = record { command = ""; args = []; env = []; working_dir = none }

abbrev pub with_command : String → List String → StdioConfig
with_command command args = record default_config { command = command; args = args }

-- `std::process::Command`
pub record Command : Type 0 where
  pub program : String
  pub arguments : List String
  pub current_dir : Option String
  pub envs : List (String × String)

pub record StdioTransportStream (W R C : Type 0) : Type 0 where
  pub write : W
  pub read : R
  pub child : Option C
  pub info : ConnectionInfo
  pub timeouts : ConnectionTimeouts

abbrev stdio_timeouts : ConnectionTimeouts
stdio_timeouts = record {
  connect_timeout = some (from_secs 30);
  read_timeout = some (from_secs 30);
  write_timeout = some (from_secs 30);
}

-- `wait_within` is `wait` under a timeout, with nothing where that elapses.
pub record Processes (W R C : Type 0) : Type 0 where
  -- The error in the text of `{:?}`.
  pub spawn : Command → Result String C
  pub take_stdin : C → Option W × C
  pub take_stdout : C → Option R × C
  pub id : C → Option ℕ
  pub try_wait : C → IoResult (Option ℕ) × C
  pub wait_within : ℕ → C → Option (IoResult ℕ) × C
  pub kill : C → IoResult (Unit {0}) × C
  pub shutdown : W → IoResult (Unit {0}) × W
  pub stdin : R
  pub stdout : W
  pub has_exited : C → Bool
  pub wait_ok :
      (d : ℕ) (c : C) (status : ℕ)
      → (wait_within d c).0 ≡ some (ok status)
      → has_exited (wait_within d c).1 ≡ true
  pub kill_ok : (c : C) (u : Unit {0}) → (kill c).0 ≡ ok u → has_exited (kill c).1 ≡ true

abbrev pub supports_url : String → Bool
supports_url url = starts_with url "stdio://"

abbrev pub is_connected : {W R C : Type 0} → StdioTransportStream W R C → Bool
is_connected t = true

-- The error of `listen`, of a listener's `accept` and of its `local_addr`.
abbrev pub listen : {A : Type 0} → String → TransportResult A
listen url = err (
    unsupported_transport
      (lit "STDIO transport does not support listening (it is client-initiated only)." ∷ []))

abbrev pub accept : {A : Type 0} → TransportResult A
accept = err (
    unsupported_transport
      (lit "STDIO transport does not support listening for incoming connections." ∷ []))

abbrev pub listener_addr : TransportResult String
listener_addr =
    err (unsupported_transport (lit "Local address is not applicable for STDIO listeners." ∷ []))

abbrev pub or_else : {A : Type 0} → Option A → TransportError → TransportResult A
or_else none e = err e
or_else (some a) e = ok a

abbrev unwrap_or : Option ℕ → ℕ → ℕ
unwrap_or none n = n
unwrap_or (some m) n = m

abbrev pub own_command : StdioConfig → Option (String × List String)
own_command config = if config.command == "" then none else some (config.command, config.args)

abbrev pub from_words : List String → TransportResult (Option (String × List String))
from_words [] = err (
    invalid_url
      (lit "Invalid command specified in STDIO URL (e.g., empty or missing after stdio://)." ∷ []))
from_words (program ∷ args) =
    if program == ""
    then err (
        invalid_url (
          lit "Invalid command specified in STDIO URL (e.g., empty or missing after stdio://)."
          ∷ []))
    else ok (some (program, args))

abbrev pub from_rest : String → Option String → TransportResult (Option (String × List String))
from_rest url none = err (
    invalid_url (
      lit "Invalid STDIO URL scheme. Expected \"stdio://\" or \"stdio://command...\", got: "
      ∷ lit url
      ∷ []))
from_rest url (some rest) = from_words (split_whitespace rest)

-- The command to run and its arguments, or nothing for the process's own streams.
unfoldable pub command_to_run :
    StdioConfig → String → TransportResult (Option (String × List String))
command_to_run config url =
    if url == "stdio://"
    then ok (own_command config)
    else from_rest url (strip_prefix url "stdio://")

abbrev pub command_of : StdioConfig → String × List String → Command
command_of config (program, args) = record {
  program = program;
  arguments = args;
  current_dir = config.working_dir;
  envs = config.env;
}

module _ {W R C : Type 0} (processes : Processes W R C) where
  unfoldable pub new_from_child : C → String → TransportResult (StdioTransportStream W R C)
  new_from_child child command =
      let (in_end, child₁) = processes.take_stdin child in
      let (out_end, child₂) = processes.take_stdout child₁ in
      (do
        stdin ← or_else in_end (connection_failure (lit "Failed to get stdin" ∷ []))
        stdout ← or_else out_end (connection_failure (lit "Failed to get stdout" ∷ []))
        ok (record {
          write = stdin;
          read = stdout;
          child = some child₂;
          info = record {
            transport_type = "stdio";
            local_addr =
                some (lit "stdio://process/" ∷ num (unwrap_or (processes.id child₂) 0) ∷ []);
            remote_addr = some (lit command ∷ []);
            metadata = [];
          };
          timeouts = stdio_timeouts;
        }))

  abbrev pub new_from_self : StdioTransportStream W R C
  new_from_self = record {
    write = processes.stdout;
    read = processes.stdin;
    child = none;
    info = record {
      transport_type = "stdio";
      local_addr = some (lit "stdio://stdin" ∷ []);
      remote_addr = some (lit "stdio://stdout" ∷ []);
      metadata = [];
    };
    timeouts = stdio_timeouts;
  }

  unfoldable pub run :
      StdioConfig → Option (String × List String) → TransportResult (StdioTransportStream W R C)
  unfolding new_from_child
  run config none = ok new_from_self
  run config (some (program, args)) = do
    child ←
        map_err
          (λ e.
            connection_failure
              (lit "Failed to spawn subprocess '" ∷ lit program ∷ lit "': " ∷ lit e ∷ []))
          (processes.spawn (command_of config (program, args)))
    new_from_child child program

  unfoldable pub connect : StdioConfig → String → TransportResult (StdioTransportStream W R C)
  unfolding run
  connect config url = command_to_run config url >>= run config
