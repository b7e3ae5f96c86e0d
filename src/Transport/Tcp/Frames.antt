-- ===== src/Transport/Tcp/Frames.antt =====
-- Frames of TCP streams, one after another (crates/transport/src/tcp.rs).
use mathlib.Core.List.{flatten}
use zeroio.Common.{
  true, ℕ, zero, suc, ◌≡◌, ◌≤◌, refl, sym, ◌∙◌, ap, List, [], ◌∷◌, ◌++◌, ok, err, panic, length,
  map, map_ok, All-map, append_assoc, append-nil, le→ltb, All,
}
use zeroio.Transport.Errors.{TransportResult}
use zeroio.Transport.Io.{Socket, in_time}
use zeroio.Transport.Tcp.{
  TcpTransportStream, read_limit, default_max_frame_size, read_data, read_frame, write_frame,
}
use zeroio.Transport.Tcp.RoundTrip.{wire, write_frame-Sent, read_frame-Begun}

module _ {S : Type 0} (socket : Socket S) where
  -- Frame after frame is written, up to the first error.
  abbrev pub write_frames :
      List (List ℕ) → TcpTransportStream S → TransportResult (Unit {0}) × TcpTransportStream S
  write_frames [] t = (ok tt, t)
  write_frames (frame ∷ frames) t =
      let (r, t') = write_frame socket in_time t frame in
      elim r [ ok u ↦ write_frames frames t' | err e ↦ (err e, t') | panic ↦ (panic, t') ]

  -- As many frames are read, up to the first error.
  abbrev pub read_frames :
      ℕ → TcpTransportStream S → TransportResult (List (List ℕ)) × TcpTransportStream S
  read_frames zero t = (ok [], t)
  read_frames (suc n) t =
      let (r, t') = read_frame socket in_time t in
      elim r [
        | ok frame ↦ (let (frames, t'') = read_frames n t' in (map_ok (λ l. frame ∷ l) frames, t''))
        | err e ↦ (err e, t')
        | panic ↦ (panic, t')
      ]

  record AllSent (frames : List (List ℕ)) (t : TcpTransportStream S) : Type 0 where
    after : TcpTransportStream S
    written : write_frames frames t ≡ (ok tt, after)
    on_the_wire :
        socket.outgoing after.stream ≡ socket.outgoing t.stream ++ flatten (map wire frames)

  write_frames_more :
      (frame : List ℕ) (frames : List (List ℕ)) (t t' : TcpTransportStream S)
      → write_frame socket in_time t frame ≡ (ok tt, t')
      → write_frames (frame ∷ frames) t ≡ write_frames frames t'
  write_frames_more frame frames t t' e = rw (e, write_frames) (rw e)

  write_frames-AllSent :
      (frames : List (List ℕ)) (t : TcpTransportStream S)
      → socket.is_open t.stream ≡ true
      → All (λ frame. length frame ≤ default_max_frame_size) frames
      → AllSent frames t
  unfolding flatten
  write_frames-AllSent [] t opened all = record {
    after = t;
    written = refl;
    on_the_wire = sym (append-nil (socket.outgoing t.stream));
  }
  write_frames-AllSent (frame ∷ frames) t opened (small, all) =
      let sent = write_frame-Sent socket t frame opened small in
      let t' = record t { stream = sent.after } in
      let rest = write_frames-AllSent frames t' sent.still_open all in
      record {
        after = rest.after;
        written = write_frames_more frame frames t t' sent.written ∙ rest.written;
        on_the_wire =
            rest.on_the_wire
            ∙ ap (λ b. b ++ flatten (map wire frames)) sent.on_the_wire
            ∙ append_assoc (socket.outgoing t.stream) (wire frame) (flatten (map wire frames));
      }

  pub record Received (t : TcpTransportStream S) (frame rest : List ℕ) : Type 0 where
    pub after : S
    pub received : read_frame socket in_time t ≡ (ok frame, record t { stream = after })
    pub to_come : socket.incoming after ≡ rest
    pub still_open : socket.is_open after ≡ true

  pub read_frame-Received :
      (t : TcpTransportStream S) (frame rest : List ℕ)
      → socket.is_open t.stream ≡ true
      → length frame ≤ default_max_frame_size
      → length frame ≤ read_limit t
      → socket.incoming t.stream ≡ wire frame ++ rest
      → Received t frame rest
  unfolding read_data
  read_frame-Received t frame rest opened small within e =
      let begun = read_frame-Begun socket t frame rest opened small e in
      let (s, done, rest_ok, open2) =
        socket.read_ok frame rest begun.after begun.still_open begun.to_come in
      record {
        after = s;
        received = begun.goes_on ∙ rw (le→ltb (read_limit t) (length frame) within, done) refl;
        to_come = rest_ok;
        still_open = open2;
      }

  record AllReceived (frames : List (List ℕ)) (t : TcpTransportStream S) (rest : List ℕ)
      : Type 0 where
    after : TcpTransportStream S
    received : read_frames (length frames) t ≡ (ok frames, after)
    to_come : socket.incoming after.stream ≡ rest

  read_frames_more :
      (frame : List ℕ) (frames : List (List ℕ)) (n : ℕ) (t t' t'' : TcpTransportStream S)
      → read_frame socket in_time t ≡ (ok frame, t')
      → read_frames n t' ≡ (ok frames, t'')
      → read_frames (suc n) t ≡ (ok (frame ∷ frames), t'')
  read_frames_more frame frames n t t' t'' e q = rw (e, read_frames) (rw (e, q))

  read_frames-AllReceived :
      (frames : List (List ℕ)) (t : TcpTransportStream S) (rest : List ℕ)
      → socket.is_open t.stream ≡ true
      → All
          (λ frame. (length frame ≤ default_max_frame_size) × (length frame ≤ read_limit t))
          frames
      → socket.incoming t.stream ≡ flatten (map wire frames) ++ rest
      → AllReceived frames t rest
  unfolding flatten
  read_frames-AllReceived [] t rest opened all e = record {
    after = t;
    received = refl;
    to_come = e;
  }
  read_frames-AllReceived (frame ∷ frames) t rest opened (small, all) e =
      let first =
        read_frame-Received t frame (flatten (map wire frames) ++ rest) opened small.0 small.1
          (e ∙ append_assoc (wire frame) (flatten (map wire frames)) rest) in
      let t' = record t { stream = first.after } in
      let more = read_frames-AllReceived frames t' rest first.still_open all first.to_come in
      record {
        after = more.after;
        received =
            read_frames_more frame frames (length frames) t t' more.after first.received
              more.received;
        to_come = more.to_come;
      }

  -- Let frames be of at most 1 MiB and not longer than the reader's timeout has seconds. An open
  -- stream that has sent nothing before writes all of them, and an open one at which arrives what it
  -- sent reads the same frames in the same order, with what follows them left to be read.
  pub frames_round_trip :
      (frames : List (List ℕ)) (w r : TcpTransportStream S) (rest : List ℕ)
      → socket.is_open w.stream ≡ true
      → socket.is_open r.stream ≡ true
      → socket.outgoing w.stream ≡ []
      → socket.incoming r.stream ≡ socket.outgoing (write_frames frames w).1.stream ++ rest
      → All
          (λ frame. (length frame ≤ default_max_frame_size) × (length frame ≤ read_limit r))
          frames
      → ((write_frames frames w).0 ≡ ok tt)
        × ((read_frames (length frames) r).0 ≡ ok frames)
        × (socket.incoming (read_frames (length frames) r).1.stream ≡ rest)
  frames_round_trip frames w r rest w_open r_open nothing arrives all =
      let sent = write_frames-AllSent frames w w_open (All-map (λ frame both. both.0) frames all) in
      let read = read_frames-AllReceived frames r rest r_open all (
        arrives
        ∙ ap
            (λ (x : TransportResult (Unit {0}) × TcpTransportStream S).
              socket.outgoing x.1.stream ++ rest)
            sent.written
        ∙ ap (λ b. b ++ rest) sent.on_the_wire
        ∙ ap (λ b. (b ++ flatten (map wire frames)) ++ rest) nothing) in
      (
        ap (λ (x : TransportResult (Unit {0}) × TcpTransportStream S). x.0) sent.written,
        ap (λ (x : TransportResult (List (List ℕ)) × TcpTransportStream S). x.0) read.received,
        ap
              (λ (x : TransportResult (List (List ℕ)) × TcpTransportStream S).
                socket.incoming x.1.stream)
              read.received
            ∙ read.to_come,
      )
