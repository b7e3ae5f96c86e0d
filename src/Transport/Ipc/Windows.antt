-- ===== src/Transport/Ipc/Windows.antt =====
-- crates/transport/src/ipc/windows.rs, and what ipc.rs does on Windows. Named pipes of tokio, with
-- servers of a type `P` and clients of a type `C`, and the names of `std::path` on Windows are
-- parameters.
use Prim.Native.Char.{Char, code}
use Prim.Native.String.{String, ◌++◌ as append, [] as no_text, ◌∷◌ as cons}
use zeroio.Common.{
  ℕ, ◌≡◌, refl, sym, ap, Bool, true, false, ◌||◌, Option, none, some, [], ◌∷◌, ok, err, panic,
  ◌>>=◌, if◌then◌else◌, ◌==◌, >>=-eq-ok, ok-injective, err-ne-ok, panic-ne-ok, Bool-cases, inl, inr,
  ◌⊎◌,
}
use zeroio.Common.Words.{as_u32}
use zeroio.Protocol.Errors.{lit}
use zeroio.Transport.Errors.{TransportResult, connection_failure}
use zeroio.Transport.Io.{IoResult, with_text, from_io_result}
use zeroio.Transport.Ipc.{IpcConfig}

abbrev slash : Char
slash = "/"

abbrev backslash : Char
backslash = "\\"

-- `replace('/', "\\")`
unfoldable pub with_backslashes : String → String
with_backslashes no_text = no_text
with_backslashes (cons c s) =
    cons (if code c == code slash then backslash else c) (with_backslashes s)

abbrev pub contains : Char → String → Bool
contains d no_text = false
contains d (cons c s) = (code c == code d) || contains d s

-- The path as `to_string_lossy` gives it.
unfoldable pub format_pipe_name : String → String
unfolding with_backslashes
format_pipe_name path = append "\\\\.\\pipe\\" (with_backslashes path)

-- What `std::path` says of a path on Windows.
pub record PathNames : Type 0 where
  pub file_name : String → Option String
  pub file_stem : String → Option String

abbrev clean_name : PathNames → String → String → String
clean_name names path file = elim (names.file_stem path) [ none ↦ file | some stem ↦ stem ]

-- `IpcTransport::normalize_path` on Windows.
unfoldable pub normalize_path : PathNames → String → String
normalize_path names path =
    if contains ":" path || contains backslash path
    then elim (names.file_name path) [ none ↦ path | some file ↦ clean_name names path file ]
    else path

pub record ServerOptions : Type 0 where
  pub first_pipe_instance : Bool
  pub in_buffer_size : ℕ
  pub out_buffer_size : ℕ
  pub max_instances : ℕ

-- Named pipes in a world `W`. A server whose `connect` has returned is a stream.
pub record Pipes (W P C : Type 0) : Type 0 where
  pub create : ServerOptions → String → W → IoResult P × W
  pub connect : P → W → IoResult (Unit {0}) × W
  pub open_client : String → W → IoResult C × W

pub record PlatformListener (P : Type 0) : Type 0 where
  pub server : P
  pub pipe_name : String
  pub config : IpcConfig

abbrev options : Bool → ℕ → IpcConfig → ServerOptions
options first instances config = record {
  first_pipe_instance = first;
  in_buffer_size = as_u32 config.buffer_size;
  out_buffer_size = as_u32 config.buffer_size;
  max_instances = instances;
}

module _ {W P C : Type 0} (pipes : Pipes W P C) where
  unfoldable pub connect : String → W → TransportResult C × W
  connect path w =
      let name = format_pipe_name path in
      let (r, w') = pipes.open_client name w in
      (with_text connection_failure (lit "Failed to connect to " ∷ lit name ∷ lit ": " ∷ []) r, w')

  unfoldable pub listen : String → IpcConfig → W → TransportResult (PlatformListener P) × W
  listen path config w =
      let name = format_pipe_name path in
      let (r, w') = pipes.create (options true 254 config) name w in
      (
        (do
          server ←
              with_text connection_failure
                (lit "Failed to create named pipe " ∷ lit name ∷ lit ": " ∷ []) r
          ok (record { server = server; pipe_name = name; config = config })),
        w',
      )

  -- The text of the error stands before the path.
  abbrev create_error : {B : Type 0} → String → IoResult B → TransportResult B
  create_error name (ok b) = ok b
  create_error name (err e) =
      err
        (connection_failure (lit "Error: " ∷ lit e.text ∷ lit " (path: " ∷ lit name ∷ lit ")" ∷ []))
  create_error name panic = panic

  -- With the new server in place, the old one waits for a client.
  abbrev swap :
      PlatformListener P → TransportResult P → W → TransportResult P × PlatformListener P × W
  swap t (ok new_server) w =
      let (r, w') = pipes.connect t.server w in
      ((do u ← from_io_result r; ok t.server), record t { server = new_server }, w')
  swap t (err e) w = (err e, t, w)
  swap t panic w = (panic, t, w)

  unfoldable pub accept : PlatformListener P → W → TransportResult P × PlatformListener P × W
  accept t w =
      let (r, w') = pipes.create (options false 1 t.config) t.pipe_name w in
      swap t (create_error t.pipe_name r) w'

  -- The name and the configuration stay, and the server is the old one where no new one was made, and
  -- else the new one, also where the wait for a client fails; a stream that is returned is the old
  -- server.
  pub record IsAccepted (t : PlatformListener P) (made : IoResult P)
      (done : TransportResult P × PlatformListener P × W) : Type 0 where
    pub same_name : done.1.pipe_name ≡ t.pipe_name
    pub same_config : done.1.config ≡ t.config
    pub kept_or_new : (done.1.server ≡ t.server) ⊎ ((p : P) × (made ≡ ok p) × (done.1.server ≡ p))
    pub old_server : (p : P) → done.0 ≡ ok p → p ≡ t.server

  swap-IsAccepted :
      (t : PlatformListener P) (made : IoResult P) (w : W)
      → IsAccepted t made (swap t (create_error t.pipe_name made) w)
  swap-IsAccepted t (ok new_server) w = record {
    same_name = refl;
    same_config = refl;
    kept_or_new = inr (new_server, refl, refl);
    old_server = λ p e.
        let (u, waited, same) = >>=-eq-ok (from_io_result (pipes.connect t.server w).0) _ e in
        sym (ok-injective same);
  }
  swap-IsAccepted t (err e) w = record {
    same_name = refl;
    same_config = refl;
    kept_or_new = inl refl;
    old_server = λ p e. err-ne-ok e;
  }
  swap-IsAccepted t panic w = record {
    same_name = refl;
    same_config = refl;
    kept_or_new = inl refl;
    old_server = λ p e. panic-ne-ok e;
  }

  -- What `accept` does to its listener, whatever it returns.
  pub accept-IsAccepted :
      (t : PlatformListener P) (w : W)
      → IsAccepted t (pipes.create (options false 1 t.config) t.pipe_name w).0 (accept t w)
  unfolding accept
  accept-IsAccepted t w = swap-IsAccepted t _ _

has_none : (s : String) → contains slash (with_backslashes s) ≡ false
unfolding with_backslashes
has_none no_text = refl
has_none (cons c s) = elim (Bool-cases (code c == code slash)) [
  | inl yes_slash ↦ rw yes_slash (has_none s)
  | inr other ↦ rw (other, other) (has_none s)
]

with_backslashes_twice : (s : String) → with_backslashes (with_backslashes s) ≡ with_backslashes s
unfolding with_backslashes
with_backslashes_twice no_text = refl
with_backslashes_twice (cons c s) = elim (Bool-cases (code c == code slash)) [
  | inl yes_slash ↦ rw yes_slash (ap (cons backslash) (with_backslashes_twice s))
  | inr other ↦ rw (other, other) (ap (cons c) (with_backslashes_twice s))
]

-- A path names the same pipe when its slashes are turned into backslashes, of which the name has none
-- behind its prefix.
pub slashes_do_not_matter :
    (path : String)
    → (format_pipe_name (with_backslashes path) ≡ format_pipe_name path)
      × (contains slash (with_backslashes path) ≡ false)
unfolding format_pipe_name
slashes_do_not_matter path =
    (ap (append "\\\\.\\pipe\\") (with_backslashes_twice path), has_none path)
