-- ===== src/Transport/Tcp/Late.antt =====
-- A read of a frame that times out inside it (`read_frame` of crates/transport/src/tcp.rs).
use zeroio.Common.{
  some, true, ℕ, ◌≡◌, ◌≤◌, refl, ◌∙◌, ap, List, ◌++◌, ok, err, length, length-append, append_assoc,
  arith,
}
use zeroio.Transport.Errors.{TransportResult, timeout}
use zeroio.Common.Words.{to_be_u32}
use zeroio.Transport.Io.{Socket, IoResult, in_time, elapsed}
use zeroio.Transport.Tcp.{TcpTransportStream, read_limit, default_max_frame_size, read_frame}
use zeroio.Transport.Tcp.RoundTrip.{wire}
use zeroio.Transport.Tcp.Frames.{read_frame-Received}

module _ {S : Type 0} (socket : Socket S) where
  read_frame-elapsed :
      (r : TcpTransportStream S) (d : ℕ) (s : S)
      → r.timeouts.read_timeout ≡ some d
      → read_frame socket (elapsed s) r ≡ (err (timeout d), record r { stream = s })
  unfolding read_frame
  read_frame-elapsed r d s limit = rw limit refl

  -- Let a frame arrive whose bytes begin with the wire form of another one, which is not longer than
  -- the reader's timeout has seconds. If the read times out after it has taken the length of the
  -- frame, the next read returns the other one, which nobody sent as a frame, and goes on behind it.
  pub late_read_misframes :
      (r : TcpTransportStream S) (d : ℕ) (inner tail rest : List ℕ)
      → r.timeouts.read_timeout ≡ some d
      → socket.is_open r.stream ≡ true
      → socket.incoming r.stream ≡ wire (wire inner ++ tail) ++ rest
      → length (wire inner ++ tail) ≤ default_max_frame_size
      → length inner ≤ read_limit r
      → let late = read_frame socket (elapsed (socket.read_exact 4 r.stream).1) r in
        (late.0 ≡ err (timeout d))
        × ((read_frame socket in_time late.1).0 ≡ ok inner)
        × (socket.incoming (read_frame socket in_time late.1).1.stream ≡ tail ++ rest)
  late_read_misframes r d inner tail rest limit opened arrives small within =
      let (s, done, behind, open1) =
        socket.read_ok (to_be_u32 (length (wire inner ++ tail))) ((wire inner ++ tail) ++ rest)
          r.stream opened arrives in
      let late : read_frame socket (elapsed (socket.read_exact 4 r.stream).1) r
          ≡ (err (timeout d), record r { stream = s }) =
        ap (λ (x : IoResult (List ℕ) × S). read_frame socket (elapsed x.1) r) done
        ∙ read_frame-elapsed r d s limit in
      let next =
        read_frame-Received socket (record r { stream = s }) inner (tail ++ rest) open1
          (omega (arith, length-append {0} (wire inner) tail)) within
          (behind ∙ append_assoc (wire inner) tail rest) in
      (
        ap (λ (x : TransportResult (List ℕ) × TcpTransportStream S). x.0) late,
        ap
              (λ (x : TransportResult (List ℕ) × TcpTransportStream S).
                (read_frame socket in_time x.1).0)
              late
            ∙ ap (λ (x : TransportResult (List ℕ) × TcpTransportStream S). x.0) next.received,
        ap
              (λ (x : TransportResult (List ℕ) × TcpTransportStream S).
                socket.incoming (read_frame socket in_time x.1).1.stream)
              late
            ∙ ap
                (λ (x : TransportResult (List ℕ) × TcpTransportStream S).
                  socket.incoming x.1.stream)
                next.received
            ∙ next.to_come,
      )
