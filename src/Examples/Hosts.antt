-- ===== src/Examples/Hosts.antt =====
-- The ipc and stdio transports at concrete inputs: files that are a test of paths,
-- and processes that exit when they are asked to.
use text.Mathlib.Text.{◌==◌}
use text.Mathlib.TextEquality.{eq_iff}
use mathlib.Core.Option.{some-injective}
use zeroio.Common.{
  ℕ, ◌≡◌, refl, sym, ◌∙◌, Bool-cases, inl, inr, ap, String, Bool, true, false, Option, none, some,
  [], ◌∷◌, Result, ok, if◌then◌else◌,
}
use zeroio.Protocol.Errors.{lit, num}
use zeroio.Transport.Words.{split_first}
use zeroio.Transport.Traits.{from_secs, ConnectionInfo, default_timeouts}
use zeroio.Transport.Io.{Url, IoResult}
use zeroio.Transport.Ipc as Ipc
use zeroio.Transport.Ipc.{Files, IpcTransportListener}
use zeroio.Transport.Ipc.Bound.{IsBound, ipc_listen_sound}
use zeroio.Transport.Stdio as Stdio
use zeroio.Transport.Stdio.Close as StdioClose
use zeroio.Transport.Stdio.{Processes, StdioTransportStream, StdioConfig}
use zeroio.Transport.Stdio.Closing.{IsEnded, close_ends_child}
use zeroio.Transport.Stdio.Started.{IsStarted, stdio_connect_sound}

-- The paths where something stands.
abbrev pub Disk : Type 0
Disk = String → Bool

abbrev placed : String → Bool → Disk → Disk
placed path there disk other = if other == path then there else disk other

none_is_no_text : {t : String} → ◌≡◌ {A = Option String} none (some t) → ⊥
none_is_no_text e = cc

abbrev parent : String → Option String
parent path = if path == "/tmp/app.sock" then some "/tmp" else none

pub other_than_parent :
    (p d : String) (disk : Disk) → parent p ≡ some d → disk p ≡ false → placed d true disk p ≡ false
other_than_parent p d disk e absent = elim (Bool-cases (p == "/tmp/app.sock")) [
  | inr other ↦ absurd (none_is_no_text (rw other at e))
  | inl app ↦
      let apart : (p == d) ≡ false =
        ap (λ x. x == d) ((eq_iff p "/tmp/app.sock").0 app)
        ∙ ap (λ x. "/tmp/app.sock" == x) (sym (some-injective "/tmp" d (rw app at e))) in
      ap (λ b. if b then true else disk p) apart ∙ absent
]

abbrev pub disks_of : {S : Type 0} → S → Files Disk S String
disks_of s = record {
  exists = λ path disk. disk path;
  parent = parent;
  remove_file = λ path disk. (ok tt, placed path false disk);
  create_dir_all = λ path disk. (ok tt, placed path true disk);
  connect = λ path disk. (ok s, disk);
  bind = λ path disk. (ok path, placed path true disk);
  accept = λ l. (ok s, l);
  shutdown = λ t. (ok tt, t);
  create_ok = λ d disk u e. ap (λ b. if b then true else disk d) ((eq_iff d d).1 refl);
  create_other = other_than_parent;
  remove_ok = λ p disk u e. ap (λ b. if b then false else disk p) ((eq_iff p p).1 refl);
}

abbrev disks : Files Disk ℕ String
disks = disks_of 1

abbrev parse : String → Result String Url
parse url =
    ok (record { scheme = "ipc"; host_str = none; port = none; path = "/app.sock"; as_str = url })

abbrev empty_disk : Disk
empty_disk path = false

abbrev at_app : IpcTransportListener String
at_app = record { inner = "/tmp/app.sock"; path = "/tmp/app.sock" }

-- The socket file of a listener that is gone.
abbrev stale_disk : Disk
stale_disk = placed "/tmp/app.sock" true empty_disk

abbrev after_listen : Disk
after_listen =
    placed "/tmp/app.sock" true (placed "/tmp" true (placed "/tmp/app.sock" false stale_disk))

listened : Ipc.listen disks parse "ipc:///app.sock" stale_disk ≡ (ok at_app, after_listen)
unfolding Ipc.listen Ipc.unix_listen Ipc.parse_path
listened = refl

ipc_listen_sound_example : IsBound disks (parse "ipc:///app.sock") stale_disk at_app after_listen
ipc_listen_sound_example =
    ipc_listen_sound disks parse "ipc:///app.sock" stale_disk at_app after_listen listened

abbrev run_url : Url
run_url = record {
  scheme = "ipc";
  host_str = none;
  port = none;
  path = "/var/run/app.sock";
  as_str = "ipc:///var/run/app.sock";
}

pub record Child : Type 0 where
  pub input : Option Bool
  pub output : Option ℕ
  pub exited : Bool

pub none_is_none : {n : IoResult ℕ} → ◌≡◌ {A = Option (IoResult ℕ)} none (some n) → ⊥
none_is_none e = cc

-- A writing end is whether it is shut. This child does not exit by itself.
abbrev pub processes : Processes Bool ℕ Child
processes = record {
  spawn = λ c. ok (record { input = some false; output = some 1; exited = false });
  take_stdin = λ c. (c.input, record c { input = none });
  take_stdout = λ c. (c.output, record c { output = none });
  id = λ c. some 42;
  try_wait = λ c. (ok (if c.exited then some 0 else none), c);
  wait_within = λ d c. (none, c);
  kill = λ c. (ok tt, record c { exited = true });
  shutdown = λ w. (ok tt, true);
  stdin = 0;
  stdout = false;
  has_exited = λ c. c.exited;
  wait_ok = λ d c status e. absurd (none_is_none e);
  kill_ok = λ c u e. refl;
}

abbrev child : Child
child = record { input = none; output = none; exited = false }

abbrev info : ConnectionInfo
info = record { transport_type = "stdio"; local_addr = none; remote_addr = none; metadata = [] }

abbrev stream : StdioTransportStream Bool ℕ Child
stream = record {
  write = false;
  read = 1;
  child = some child;
  info = info;
  timeouts = default_timeouts;
}

closed : (StdioClose.close processes stream).0 ≡ ok tt
unfolding StdioClose.close StdioClose.end_child StdioClose.end_process StdioClose.after_shutdown
closed = refl

close_ends_child_example : IsEnded processes (some child) (StdioClose.close processes stream).1
close_ends_child_example = close_ends_child processes stream tt closed

abbrev seconds : Option ℕ
seconds = some (from_secs 30)

abbrev cat_stream : StdioTransportStream Bool ℕ Child
cat_stream = record {
  write = false;
  read = 1;
  child = some child;
  info = record {
    transport_type = "stdio";
    local_addr = some (lit "stdio://process/" ∷ num 42 ∷ []);
    remote_addr = some (lit "cat" ∷ []);
    metadata = [];
  };
  timeouts = record { read_timeout = seconds; write_timeout = seconds; connect_timeout = seconds };
}

cat_connected : Stdio.connect processes Stdio.default_config "stdio://cat  -n" ≡ ok cat_stream
unfolding Stdio.connect Stdio.command_to_run Stdio.run Stdio.new_from_child split_first
cat_connected = refl

stdio_connect_sound_example : IsStarted processes Stdio.default_config "stdio://cat  -n" cat_stream
stdio_connect_sound_example =
    stdio_connect_sound processes Stdio.default_config "stdio://cat  -n" cat_stream cat_connected
