-- ===== src/Transport/Stdio/Closing.antt =====
-- What `StdioTransportStream::close` leaves of the process.
use mathlib.Core.Option.{some-injective}
use zeroio.Common.{
  ℕ, ◌≡◌, refl, ◌∙◌, ap, subst, true, Option, none, some, ok, err, panic, map_err-eq-ok, err-ne-ok,
  panic-ne-ok, is_some,
}
use zeroio.Transport.Traits.{from_secs}
use zeroio.Transport.Io.{IoResult, from_io_result}
use zeroio.Transport.Stdio.{Processes, StdioTransportStream}
use zeroio.Transport.Stdio.Close.{
  after_wait, end_child, end_process, after_shutdown, try_child, is_running, close,
}

module _ {W R C : Type 0} (processes : Processes W R C) where
  after_wait-exited :
      (r : Option (IoResult ℕ)) (c : C) (u : Unit {0})
      → ((status : ℕ) → r ≡ some (ok status) → processes.has_exited c ≡ true)
      → (after_wait processes r c).0 ≡ ok u
      → processes.has_exited (after_wait processes r c).1 ≡ true
  after_wait-exited (some (ok status)) c u ends e = ends status refl
  after_wait-exited (some (err x)) c u ends e = err-ne-ok e
  after_wait-exited (some panic) c u ends e = panic-ne-ok e
  after_wait-exited none c u ends e =
      processes.kill_ok c u (map_err-eq-ok _ (processes.kill c).0 u e)

  end_child-exited :
      (c : C) (u : Unit {0})
      → (end_child processes c).0 ≡ ok u
      → processes.has_exited (end_child processes c).1 ≡ true
  unfolding end_child
  end_child-exited c u e =
      after_wait-exited (processes.wait_within (from_secs 5) c).0
        (processes.wait_within (from_secs 5) c).1 u (processes.wait_ok (from_secs 5) c) e

  -- The child, where there was one, was taken out of the stream and has exited.
  pub record IsEnded (child : Option C) (after : StdioTransportStream W R C × Option C)
      : Type 0 where
    pub taken : after.0.child ≡ none
    pub same : is_some after.1 ≡ is_some child
    pub ended : (c : C) → after.1 ≡ some c → processes.has_exited c ≡ true

  end_process-IsEnded :
      (o : Option C) (t : StdioTransportStream W R C) (u : Unit {0})
      → t.child ≡ o
      → (end_process processes o t).0 ≡ ok u
      → IsEnded o (end_process processes o t).1
  unfolding end_process
  end_process-IsEnded none t u h e = record { taken = h; same = refl; ended = λ c q. cc }
  end_process-IsEnded (some c) t u h e = record {
    taken = refl;
    same = refl;
    ended = λ c' q.
        subst (λ x. processes.has_exited x ≡ true) (some-injective _ c' q) (end_child-exited c u e);
  }

  end_process-untaken :
      (o : Option C) (t : StdioTransportStream W R C)
      → t.child ≡ o
      → (end_process processes o t).1.0.child ≡ none
  unfolding end_process
  end_process-untaken none t h = h
  end_process-untaken (some c) t h = refl

  -- Where `close` succeeds, the child of the stream, if it has one, was taken out of it and has exited,
  -- also where it did not exit by itself before the timeout.
  pub close_ends_child :
      (t : StdioTransportStream W R C) (u : Unit {0})
      → (close processes t).0 ≡ ok u
      → IsEnded t.child (close processes t).1
  unfolding close after_shutdown
  close_ends_child t u e = by_shutdown (processes.shutdown t.write).0 refl e
    where
      shut_stream : StdioTransportStream W R C
      shut_stream = record t { write = (processes.shutdown t.write).1 }

      by_shutdown :
          (r : IoResult (Unit {0}))
          → (processes.shutdown t.write).0 ≡ r
          → (after_shutdown processes (from_io_result r) shut_stream).0 ≡ ok u
          → IsEnded t.child (after_shutdown processes (from_io_result r) shut_stream).1
      by_shutdown (err x) h q = err-ne-ok q
      by_shutdown panic h q = panic-ne-ok q
      by_shutdown (ok v) h q = end_process-IsEnded t.child shut_stream u refl q

  -- Once the writing end is shut down, a closed stream says that its process is running, whatever
  -- became of that.
  pub running_after_close :
      (t : StdioTransportStream W R C) (u : Unit {0})
      → (processes.shutdown t.write).0 ≡ ok u
      → (is_running processes (close processes t).1.0).0 ≡ true
  unfolding close after_shutdown
  running_after_close t u e =
      ap
        (λ r.
          (is_running processes (after_shutdown processes (from_io_result r) shut_stream).1.0).0)
        e
      ∙ childless-running (end_process processes t.child shut_stream).1.0
          (end_process-untaken t.child shut_stream refl)
    where
      shut_stream : StdioTransportStream W R C
      shut_stream = record t { write = (processes.shutdown t.write).1 }

      childless-running :
          (x : StdioTransportStream W R C) → x.child ≡ none → (is_running processes x).0 ≡ true
      childless-running x h = ap (λ o. (try_child processes o x).0) h
