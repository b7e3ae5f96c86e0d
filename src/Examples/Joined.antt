-- ===== src/Examples/Joined.antt =====
-- The streams behind their trait, and the halves and the connection of a peer, at concrete inputs.
use zeroio.Common.{ℕ, ◌≡◌, refl, true, false, Option, none, some, List, [], ◌∷◌, All, ok, err}
use zeroio.Protocol.Errors.{forbidden_field}
use zeroio.Protocol.External.Reference.{buffers}
use zeroio.Transport.Errors.{protocol}
use zeroio.Transport.Polls.{AsyncRead, AsyncWrite, pending}
use zeroio.Transport.Manager as Manager
use zeroio.Peer.Shared.{Shared, Half, server, client, drops, locks, Incoming, drop}
use zeroio.Peer.Shared.Blocked.{IsSilent, IsPatient, IsDrop}
use zeroio.Peer.Shared.Pair as PairModule
use zeroio.Peer.Shared.Pair.{Pair, Side, At, PairRun, left_acts, both_wait, both_wait_for_ever}
use zeroio.Peer.Shared.Ends.{Client}
use zeroio.Peer.Connect.{World, connect, stream_of}
use zeroio.Peer.Connect.Refused.{connect_refused}
use zeroio.Examples.Data.{Boxed, message, header_serde, serde_of}
use zeroio.Examples.Pipes.{Pipe}
use zeroio.Examples.Registries.{table, made, Registered}
use zeroio.Examples.Managers.{Entries, small_lru}
use zeroio.Examples.Peers.{Script, scripted}

-- Polls that are never ready.
abbrev no_reads : {T : Type 0} → AsyncRead T
no_reads = record { poll_read = λ t buf. (pending, (buf, t)) }

abbrev no_writes : {T : Type 0} → AsyncWrite T
no_writes = record {
  poll_write = λ t bytes. (pending, t);
  poll_flush = λ t. (pending, t);
  poll_shutdown = λ t. (pending, t);
}

abbrev empty_pipe : Pipe
empty_pipe = record { coming = []; gone = [] }

-- Nobody waits, and nothing ever comes in.
abbrev idle : Shared Script
idle = record { framed = []; writer = none; halves = server ∷ client ∷ [] }

abbrev nothing : Incoming Script
nothing = record { arrive = λ bytes s. s; broken = λ s. s; has_item = λ s. false }

abbrev quiet_pair : Pair Script
quiet_pair = record { left = idle; right = idle; to_left = []; to_right = [] }

-- The server halves wait; the client of the first peer is dropped.
abbrev after_drop : Pair Script
after_drop = record (both_wait server server quiet_pair) {
  left = record { framed = []; writer = some server; halves = server ∷ [] };
}

abbrev client_drops : List (At ℕ Boxed)
client_drops = record { side = Side.left; event = drops client } ∷ []

client_waits_not : ◌≡◌ {A = Option Half} (some server) (some client) → ⊥
client_waits_not e = cc

drops-IsSilent : IsSilent {V = ℕ} {A = Boxed} (drops client)
drops-IsSilent = record { no_bytes = λ bytes e. cc }

drops-IsPatient : IsPatient {V = ℕ} {A = Boxed} (drops client)
drops-IsPatient = record { no_cancel = λ h e. cc; no_break = λ e. cc }

client_drops-PairRun :
    PairRun scripted nothing
      (λ m. m.payload_data)
      (both_wait server server quiet_pair)
      client_drops
      after_drop
client_drops-PairRun =
    PairModule.go_on
      (left_acts (drops client) after_drop.left drops-IsSilent (drop client client_waits_not))
      PairModule.stop

both_wait_for_ever_example :
    PairRun {V = ℕ} {A = Boxed} scripted nothing
      (λ m. m.payload_data)
      quiet_pair
      (record { side = Side.left; event = locks server }
        ∷ record { side = Side.right; event = locks server }
        ∷ [])
      (both_wait server server quiet_pair)
    × All (λ (event : At ℕ Boxed). IsDrop event.event) client_drops
both_wait_for_ever_example =
    both_wait_for_ever scripted nothing (λ m. m.payload_data) quiet_pair server server client_drops
      after_drop refl refl refl refl refl refl client_drops-PairRun (drops-IsPatient, tt)

abbrev one_message : Shared Script
one_message = record { framed = some (ok message) ∷ []; writer = none; halves = client ∷ [] }

abbrev any_item : Incoming Script
any_item = record { arrive = λ bytes s. s; broken = λ s. s; has_item = λ s. true }

abbrev the_client : Client
the_client = record { transport_stream = record { half = client } }

abbrev world : World Registered Entries ℕ Script
world = record {
  table = table;
  no_transports = [];
  lru = small_lru;
  no_entries = λ capacity. [];
  made = made;
  began = 1;
  done = 2;
  frame = λ stream codec. [];
  generated = ok "r1";
}

connected : stream_of world "tcp://127.0.0.1:80" ≡ ok 1
unfolding stream_of Manager.connect Manager.track_connection_attempt
    Manager.track_successful_connection
connected = refl

connect_refused_example :
    connect world scripted header_serde buffers
      (serde_of 0 [])
      0
      5
      "tcp://127.0.0.1:80"
      "store"
      none
    ≡ some (err (protocol (forbidden_field "reqrep" "JOIN")))
connect_refused_example =
    connect_refused world scripted header_serde buffers (serde_of 0 []) 0 5 "tcp://127.0.0.1:80"
      "r1" "store" none 1 refl connected
