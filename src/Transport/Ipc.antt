-- ===== src/Transport/Ipc.antt =====
-- crates/transport/src/ipc.rs, and ipc/unix.rs as a build for Unix compiles it. What tokio and the
-- file system do to a stream of a type `S`, a listener of a type `L` and the files, of a type `F`,
-- is a parameter. A path is the text that it is made from.

pub mod Bound
pub mod Windows
use Prim.Native.String.{◌++◌ as append, slice, len}
use text.Mathlib.Text.{◌==◌, starts_with}
use zeroio.Common.{
  ℕ, String, ◌≡◌, Bool, true, false, Option, none, some, List, [], ◌∷◌, ◌++◌, Result, ok, err,
  panic, ◌>>=◌, if◌then◌else◌,
}
use zeroio.Protocol.Errors.{Text, lit}
use zeroio.Transport.Errors.{TransportError, TransportResult, invalid_url, connection_failure}
use zeroio.Transport.Traits.{ConnectionInfo, ConnectionTimeouts, default_timeouts}
use zeroio.Transport.Io.{IoResult, Url, parsed, with_text, from_io_result}

pub record IpcConfig : Type 0 where
  pub buffer_size : ℕ
  pub backlog : ℕ

abbrev pub default_config : IpcConfig
default_config = record { buffer_size = 65536; backlog = 128 }

abbrev pub path_str : Option String → String → String
path_str none path = path
path_str (some host) path = if host == "" then path else append host path

abbrev pub strip_slash : String → String
strip_slash path = if starts_with path "/" then slice path 1 (len path) else path

-- On Unix.
abbrev pub normalize_path : String → String
normalize_path path = if starts_with path "/" then path else append "/tmp/" path

abbrev pub path_of : Url → TransportResult String
path_of u =
    if u.scheme == "ipc"
    then (let p = path_str u.host_str u.path in
        if p == ""
        then err (invalid_url (lit "Missing path in IPC URL" ∷ []))
        else ok (normalize_path (strip_slash p)))
    else err (invalid_url (lit "Expected ipc:// scheme, got " ∷ lit u.scheme ∷ lit "://" ∷ []))

unfoldable pub parse_path : Result String Url → TransportResult String
parse_path r = parsed r >>= path_of

pub record IpcTransportStream (S : Type 0) : Type 0 where
  pub inner : S
  pub info : ConnectionInfo
  pub timeouts : ConnectionTimeouts

pub record IpcTransportListener (L : Type 0) : Type 0 where
  pub inner : L
  pub path : String

abbrev pub new : {S : Type 0} → S → String → IpcTransportStream S
new inner path = record {
  inner = inner;
  info = record {
    transport_type = "ipc";
    local_addr = some (lit path ∷ []);
    remote_addr = none;
    metadata = [];
  };
  timeouts = default_timeouts;
}

abbrev pub is_connected : {S : Type 0} → IpcTransportStream S → Bool
is_connected t = true

abbrev pub supports_url : String → Bool
supports_url url = starts_with url "ipc://"

-- The files, and Unix sockets on them.
pub record Files (F S L : Type 0) : Type 0 where
  pub exists : String → F → Bool
  pub parent : String → Option String
  pub remove_file : String → F → IoResult (Unit {0}) × F
  pub create_dir_all : String → F → IoResult (Unit {0}) × F
  pub connect : String → F → IoResult S × F
  pub bind : String → F → IoResult L × F
  pub accept : L → IoResult S × L
  pub shutdown : S → IoResult (Unit {0}) × S
  pub create_ok :
      (d : String) (f : F) (u : Unit {0})
      → (create_dir_all d f).0 ≡ ok u
      → exists d (create_dir_all d f).1 ≡ true
  -- To make the directories above a path does not make the path.
  pub create_other :
      (p d : String) (f : F)
      → parent p ≡ some d
      → exists p f ≡ false
      → exists p (create_dir_all d f).1 ≡ false
  pub remove_ok :
      (p : String) (f : F) (u : Unit {0})
      → (remove_file p f).0 ≡ ok u
      → exists p (remove_file p f).1 ≡ false

module _ {F S L : Type 0} (files : Files F S L) where
  abbrev unix_connect : String → F → TransportResult S × F
  unix_connect path f =
      let (r, f') = files.connect path f in
      (with_text connection_failure (lit "Failed to connect to " ∷ lit path ∷ lit ": " ∷ []) r, f')

  -- The old socket file is removed where there is one, whether or not that succeeds.
  abbrev pub clear_path : String → F → F
  clear_path path f = if files.exists path f then (files.remove_file path f).1 else f

  abbrev pub create_parent : Option String → F → TransportResult (Unit {0}) × F
  create_parent none f = (ok tt, f)
  create_parent (some dir) f =
      if files.exists dir f
      then (ok tt, f)
      else (let (r, f') = files.create_dir_all dir f in (from_io_result r, f'))

  abbrev pub bind_at : String → TransportResult (Unit {0}) × F → TransportResult L × F
  bind_at path (ok u, f) =
      let (r, f') = files.bind path f in
      (with_text connection_failure (lit "Failed to bind to " ∷ lit path ∷ lit ": " ∷ []) r, f')
  bind_at path (err e, f) = (err e, f)
  bind_at path (panic, f) = (panic, f)

  unfoldable pub unix_listen : String → F → TransportResult L × F
  unix_listen path f = bind_at path (create_parent (files.parent path) (clear_path path f))

  -- A failure to remove the file is only logged.
  unfoldable pub unix_close : String → F → F
  unix_close path f = clear_path path f

  abbrev connect_path : TransportResult String → F → TransportResult (IpcTransportStream S) × F
  connect_path (ok path) f = let (r, f') = unix_connect path f in (r >>= λ s. ok (new s path), f')
  connect_path (err e) f = (err e, f)
  connect_path panic f = (panic, f)

  unfoldable pub connect :
      (String → Result String Url) → String → F → TransportResult (IpcTransportStream S) × F
  connect parse url f = connect_path (parse_path (parse url)) f

  abbrev pub listen_path : TransportResult String → F → TransportResult (IpcTransportListener L) × F
  unfolding unix_listen
  listen_path (ok path) f =
      let (r, f') = unix_listen path f in (r >>= λ l. ok (record { inner = l; path = path }), f')
  listen_path (err e) f = (err e, f)
  listen_path panic f = (panic, f)

  unfoldable pub listen :
      (String → Result String Url) → String → F → TransportResult (IpcTransportListener L) × F
  unfolding listen_path
  listen parse url f = listen_path (parse_path (parse url)) f

  unfoldable pub accept :
      IpcTransportListener L → TransportResult (IpcTransportStream S) × IpcTransportListener L
  accept t =
      let (r, l) = files.accept t.inner in
      (from_io_result r >>= λ s. ok (new s t.path), record t { inner = l })

  unfoldable pub close : IpcTransportStream S → TransportResult (Unit {0}) × IpcTransportStream S
  close t = let (r, s) = files.shutdown t.inner in (from_io_result r, record t { inner = s })

  unfoldable pub close_listener : IpcTransportListener L → F → TransportResult (Unit {0}) × F
  unfolding unix_close
  close_listener t f = (ok tt, unix_close t.path f)
