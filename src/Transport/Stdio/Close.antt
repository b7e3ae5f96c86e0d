-- ===== src/Transport/Stdio/Close.antt =====
-- The end of a stream of crates/transport/src/stdio.rs: `is_running` and `close`.
use zeroio.Common.{ℕ, Bool, true, false, Option, none, some, [], ◌∷◌, ok, err, panic}
use zeroio.Protocol.Errors.{lit}
use zeroio.Transport.Errors.{TransportResult, io}
use zeroio.Transport.Traits.{from_secs}
use zeroio.Transport.Io.{IoResult, from_io_result}
use zeroio.Transport.Stdio.{Processes, StdioTransportStream}

module _ {W R C : Type 0} (processes : Processes W R C) where
  abbrev is_waiting : IoResult (Option ℕ) → Bool
  is_waiting (ok none) = true
  is_waiting (ok (some status)) = false
  is_waiting (err e) = false
  is_waiting panic = false

  abbrev pub try_child : Option C → StdioTransportStream W R C → Bool × StdioTransportStream W R C
  try_child none t = (true, t)
  try_child (some c) t =
      let (r, c') = processes.try_wait c in (is_waiting r, record t { child = some c' })

  abbrev pub is_running : StdioTransportStream W R C → Bool × StdioTransportStream W R C
  is_running t = try_child t.child t

  abbrev pub after_wait : Option (IoResult ℕ) → C → TransportResult (Unit {0}) × C
  after_wait (some (ok status)) c = (ok tt, c)
  after_wait (some (err e)) c = (err (io (lit e.text ∷ [])), c)
  after_wait (some panic) c = (panic, c)
  after_wait none c = let (r, c') = processes.kill c in (from_io_result r, c')

  unfoldable pub end_child : C → TransportResult (Unit {0}) × C
  end_child c = let (r, c') = processes.wait_within (from_secs 5) c in after_wait r c'

  unfoldable pub end_process :
      Option C
      → StdioTransportStream W R C
      → TransportResult (Unit {0}) × (StdioTransportStream W R C × Option C)
  unfolding end_child
  end_process none t = (ok tt, (t, none))
  end_process (some c) t = let (r, c') = end_child c in (r, (record t { child = none }, some c'))

  unfoldable pub after_shutdown :
      TransportResult (Unit {0})
      → StdioTransportStream W R C
      → TransportResult (Unit {0}) × (StdioTransportStream W R C × Option C)
  unfolding end_process
  after_shutdown (err e) t = (err e, (t, none))
  after_shutdown panic t = (panic, (t, none))
  after_shutdown (ok u) t = end_process t.child t

  -- With the child that the call takes out of the stream and drops.
  unfoldable pub close :
      StdioTransportStream W R C
      → TransportResult (Unit {0}) × (StdioTransportStream W R C × Option C)
  close t =
      let (r, w) = processes.shutdown t.write in
      after_shutdown (from_io_result r) (record t { write = w })
