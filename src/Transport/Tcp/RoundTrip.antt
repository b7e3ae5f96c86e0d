-- ===== src/Transport/Tcp/RoundTrip.antt =====
-- Frames that one TCP stream writes and another one reads.
use zeroio.Common.{
  Option, none, some, true, ℕ, ◌≡◌, ◌≤◌, ◌<◌, refl, ◌∙◌, ap, List, [], ◌++◌, ok, err, length, arith,
  le→ltb, lt→ltb,
}
use zeroio.Common.Words.{as_u32, to_be_u32, from_be-to_be_u32}
use zeroio.Transport.Errors.{TransportResult, message_too_large}
use zeroio.Transport.Io.{Socket, in_time}
use zeroio.Transport.Tcp.{
  limited, TcpTransportStream, read_limit, default_max_frame_size, read_data, read_frame_internal,
  write_frame_internal, read_frame, write_frame,
}

-- What a frame is on the wire.
abbrev pub wire : List ℕ → List ℕ
wire bytes = to_be_u32 (length bytes) ++ bytes

module _ {S : Type 0} (socket : Socket S) where
  pub limited-in_time :
      {A : Type 0} (o : Option ℕ) (t : TcpTransportStream S)
      (done : TransportResult A × TcpTransportStream S)
      → limited socket o in_time t done ≡ done
  limited-in_time none t done = refl
  limited-in_time (some d) t done = refl

  -- The frame is on the wire, and the stream is as open as before.
  pub record Sent (t : TcpTransportStream S) (bytes : List ℕ) : Type 0 where
    pub after : S
    pub written : write_frame socket in_time t bytes ≡ (ok tt, record t { stream = after })
    pub on_the_wire : socket.outgoing after ≡ socket.outgoing t.stream ++ wire bytes
    pub still_open : socket.is_open after ≡ true

  pub write_frame-Sent :
      (t : TcpTransportStream S) (bytes : List ℕ)
      → socket.is_open t.stream ≡ true
      → length bytes ≤ default_max_frame_size
      → Sent t bytes
  unfolding write_frame write_frame_internal
  write_frame-Sent t bytes opened small =
      let held : as_u32 (length bytes) ≡ length bytes = omega arith in
      let (s, written, out, open1) = socket.write_ok (wire bytes) t.stream opened in
      let (s', flushed, out', open2) = socket.flush_ok s open1 in
      record {
        after = s';
        written =
            limited-in_time t.timeouts.write_timeout t (write_frame_internal socket t bytes)
            ∙ rw (le→ltb default_max_frame_size (length bytes) small, held, written, flushed);
        on_the_wire = rw out' out;
        still_open = open2;
      }

  -- The length is read, and the frame is still to come.
  pub record Begun (t : TcpTransportStream S) (bytes rest : List ℕ) : Type 0 where
    pub after : S
    pub goes_on : read_frame socket in_time t ≡ read_data socket t after (length bytes)
    pub to_come : socket.incoming after ≡ bytes ++ rest
    pub still_open : socket.is_open after ≡ true

  pub read_frame-Begun :
      (t : TcpTransportStream S) (bytes rest : List ℕ)
      → socket.is_open t.stream ≡ true
      → length bytes ≤ default_max_frame_size
      → socket.incoming t.stream ≡ wire bytes ++ rest
      → Begun t bytes rest
  unfolding read_frame read_frame_internal
  read_frame-Begun t bytes rest opened small e =
      let (s, done, rest_ok, open1) =
        socket.read_ok (to_be_u32 (length bytes)) (bytes ++ rest) t.stream opened e in
      record {
        after = s;
        goes_on =
            limited-in_time t.timeouts.read_timeout t (read_frame_internal socket t)
            ∙ rw (done, from_be-to_be_u32 (length bytes) (omega arith));
        to_come = rest_ok;
        still_open = open1;
      }

  module _ (w r : TcpTransportStream S) (bytes rest : List ℕ) where
    -- An open stream, with nothing sent yet, and another one at which arrives what the first one
    -- sends for a frame of at most 1 MiB.
    pub record IsJoined : Type 0 where
      pub writer_open : socket.is_open w.stream ≡ true
      pub reader_open : socket.is_open r.stream ≡ true
      pub nothing_sent : socket.outgoing w.stream ≡ []
      pub arrives :
          socket.incoming r.stream
          ≡ socket.outgoing (write_frame socket in_time w bytes).1.stream ++ rest
      pub frame_small : length bytes ≤ default_max_frame_size

    joined-Begun : IsJoined → Begun r bytes rest
    joined-Begun j =
        let sent = write_frame-Sent w bytes j.writer_open j.frame_small in
        read_frame-Begun r bytes rest j.reader_open j.frame_small (
          j.arrives
          ∙ ap
              (λ (x : TransportResult (Unit {0}) × TcpTransportStream S).
                socket.outgoing x.1.stream ++ rest)
              sent.written
          ∙ ap (λ b. b ++ rest) sent.on_the_wire
          ∙ ap (λ b. (b ++ wire bytes) ++ rest) j.nothing_sent)

    write_frame-ok : IsJoined → (write_frame socket in_time w bytes).0 ≡ ok tt
    write_frame-ok j =
        ap (λ (x : TransportResult (Unit {0}) × TcpTransportStream S). x.0)
          (write_frame-Sent w bytes j.writer_open j.frame_small).written

    -- A frame of at most 1 MiB that is not longer than the reader's timeout has seconds is written, and
    -- read as it was written, with what follows it left to be read.
    pub frame_round_trip :
        IsJoined
        → length bytes ≤ read_limit r
        → ((write_frame socket in_time w bytes).0 ≡ ok tt)
          × ((read_frame socket in_time r).0 ≡ ok bytes)
          × (socket.incoming (read_frame socket in_time r).1.stream ≡ rest)
    unfolding read_data
    frame_round_trip j small =
        let begun = joined-Begun j in
        let (s, done, rest_ok, open2) =
          socket.read_ok bytes rest begun.after begun.still_open begun.to_come in
        let read : read_frame socket in_time r ≡ (ok bytes, record r { stream = s }) =
          begun.goes_on ∙ rw (le→ltb (read_limit r) (length bytes) small, done) in
        (write_frame-ok j, rw read refl, rw read rest_ok)

    -- Let a frame be of at most 1 MiB and longer than the reader's timeout has seconds. An open stream
    -- that has sent nothing before writes it, and an open one at which arrives what it sent refuses it,
    -- as it takes the seconds of its read timeout for the largest size; the bytes of the frame are left
    -- to be read as the next one.
    pub long_frame_refused :
        IsJoined
        → read_limit r < length bytes
        → ((write_frame socket in_time w bytes).0 ≡ ok tt)
          × ((read_frame socket in_time r).0
              ≡ err (message_too_large (length bytes) (read_limit r)))
          × (socket.incoming (read_frame socket in_time r).1.stream ≡ bytes ++ rest)
    unfolding read_data
    long_frame_refused j long =
        let begun = joined-Begun j in
        let read : read_frame socket in_time r ≡ (
          err (message_too_large (length bytes) (read_limit r)),
          record r { stream = begun.after },
        ) =
          begun.goes_on ∙ rw (lt→ltb (read_limit r) (length bytes) long) in
        (write_frame-ok j, rw read refl, rw read begun.to_come)
