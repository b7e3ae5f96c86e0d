-- ===== src/Transport/WebSocket/Reading.antt =====
-- Messages that one WebSocket stream writes and another one reads.
use zeroio.Common.{
  ℕ, zero, suc, ◌+◌, ◌≤◌, ◌<◌, ◌≡◌, refl, sym, ◌∙◌, ap, subst, true, Option, none, some, List, [],
  ◌∷◌, ◌++◌, map, ok, Result, panic, length, lt→ltb, le→ltb, arith, append_assoc, append-nil,
  length-append,
}
use zeroio.Transport.Errors.{WsError}
use zeroio.Transport.Polls.{Poll, ready, pending, ReadBuf, remaining, put_slice}
use zeroio.Transport.WebSocket.{
  WsMessage, binary, ping, deliver, delivered, WebSockets, WebSocketTransportStream, read_next,
  poll_read, poll_write, send_ready, sent,
}

abbrev pub joined : List (List ℕ) → List ℕ
joined [] = []
joined (bytes ∷ rest) = bytes ++ joined rest

put_slice-fits :
    (bytes : List ℕ) (buf : ReadBuf)
    → length buf.filled + length bytes ≤ buf.capacity
    → put_slice bytes buf ≡ some (record buf { filled = buf.filled ++ bytes })
unfolding put_slice
put_slice-fits bytes buf room = rw (le→ltb (remaining buf) (length bytes) (omega arith)) refl

put_slice-overflows :
    (bytes : List ℕ) (buf : ReadBuf)
    → buf.capacity < length buf.filled + length bytes
    → length buf.filled ≤ buf.capacity
    → put_slice bytes buf ≡ none
unfolding put_slice
put_slice-overflows bytes buf over held =
    rw (lt→ltb (remaining buf) (length bytes) (omega arith)) refl

module _ {S : Type 0} (sockets : WebSockets S) where
  -- Chunks that were written one after another, each of them whole.
  pub data Written
      : WebSocketTransportStream S → List (List ℕ) → WebSocketTransportStream S → Type 0 where
    stop : {t : WebSocketTransportStream S} → Written t [] t
    write :
        {t t' t'' : WebSocketTransportStream S} {bytes : List ℕ} {rest : List (List ℕ)}
        → poll_write sockets t bytes ≡ (ready (ok (length bytes)), t')
        → Written t' rest t''
        → Written t (bytes ∷ rest) t''

  -- So many reads, each of them with a result, that take a buffer to another one.
  pub data Read
      : ℕ
        → WebSocketTransportStream S
        → ReadBuf
        → WebSocketTransportStream S
        → ReadBuf
        → Type 0 where
    stop : {t : WebSocketTransportStream S} {buf : ReadBuf} → Read zero t buf t buf
    read :
        {n : ℕ} {t t' t'' : WebSocketTransportStream S} {buf buf' buf'' : ReadBuf}
        → poll_read sockets t buf ≡ (ready (ok tt), (buf', t'))
        → Read n t' buf' t'' buf''
        → Read (suc n) t buf t'' buf''

  pub record AllWritten (t : WebSocketTransportStream S) (chunks : List (List ℕ)) : Type 0 where
    pub after : WebSocketTransportStream S
    pub steps : Written t chunks after
    pub sent_ok : sockets.outgoing after.stream ≡ sockets.outgoing t.stream ++ map binary chunks

  pub record AllRead (t : WebSocketTransportStream S) (buf : ReadBuf) (chunks : List (List ℕ))
      (rest : List WsMessage) : Type 0 where
    pub after : WebSocketTransportStream S
    pub steps :
        Read (length chunks) t buf after (record buf { filled = buf.filled ++ joined chunks })
    pub left : sockets.queued after.stream ≡ rest

  poll_write-sent :
      (t : WebSocketTransportStream S) (bytes : List ℕ) (s₁ s₂ : S)
      → sockets.poll_ready t.stream ≡ (ready (ok tt), s₁)
      → sockets.start_send (binary bytes) s₁ ≡ (ok tt, s₂)
      → poll_write sockets t bytes ≡ (ready (ok (length bytes)), record t { stream = s₂ })
  unfolding poll_write send_ready
  poll_write-sent t bytes s₁ s₂ is_ready started =
      ap
        (λ p. (
          (send_ready sockets p.0 bytes p.1).0,
          record t { stream = (send_ready sockets p.0 bytes p.1).1 },
        ))
        is_ready
      ∙ ap (λ x. (ready (sent sockets bytes x.0), record t { stream = x.1 })) started

  poll_read-next :
      (t : WebSocketTransportStream S) (buf : ReadBuf)
      (p : Poll (Option (Result WsError WsMessage))) (s : S)
      → sockets.poll_next t.stream ≡ (p, s)
      → poll_read sockets t buf
        ≡ ((read_next sockets p buf).0, ((read_next sockets p buf).1, record t { stream = s }))
  unfolding poll_read
  poll_read-next t buf p s e =
      ap
        (λ x. (
          (read_next sockets x.0 buf).0,
          ((read_next sockets x.0 buf).1, record t { stream = x.1 }),
        ))
        e

  poll_read-fits :
      (t : WebSocketTransportStream S) (buf : ReadBuf) (bytes : List ℕ) (s : S)
      → sockets.poll_next t.stream ≡ (ready (some (ok (binary bytes))), s)
      → length buf.filled + length bytes ≤ buf.capacity
      → poll_read sockets t buf
        ≡ (ready (ok tt), (record buf { filled = buf.filled ++ bytes }, record t { stream = s }))
  unfolding deliver
  poll_read-fits t buf bytes s e room =
      poll_read-next t buf (ready (some (ok (binary bytes)))) s e
      ∙ ap
          (λ o.
            ((delivered sockets buf o).0, ((delivered sockets buf o).1, record t { stream = s })))
          (put_slice-fits bytes buf room)

  write-AllWritten :
      (chunks : List (List ℕ)) (t : WebSocketTransportStream S)
      → sockets.can_send t.stream ≡ true
      → AllWritten t chunks
  write-AllWritten [] t can = record {
    after = t;
    steps = Written.stop;
    sent_ok = sym (append-nil _);
  }
  write-AllWritten (bytes ∷ rest) t can =
      let (s₁, s₂, is_ready, started, out, can₂) = sockets.send_ok (binary bytes) t.stream can in
      let later = write-AllWritten rest (record t { stream = s₂ }) can₂ in
      record {
        after = later.after;
        steps = write (poll_write-sent t bytes s₁ s₂ is_ready started) later.steps;
        sent_ok =
            later.sent_ok
            ∙ ap (λ l. l ++ map binary rest) out
            ∙ append_assoc _ (binary bytes ∷ []) (map binary rest);
      }

  read-AllRead :
      (chunks : List (List ℕ)) (t : WebSocketTransportStream S) (buf : ReadBuf)
      (rest : List WsMessage)
      → sockets.queued t.stream ≡ map binary chunks ++ rest
      → length buf.filled + length (joined chunks) ≤ buf.capacity
      → AllRead t buf chunks rest
  read-AllRead [] t buf rest queued room = record {
    after = t;
    steps =
        subst (λ f. Read zero t buf t (record buf { filled = f })) (sym (append-nil buf.filled))
          Read.stop;
    left = queued;
  }
  read-AllRead (bytes ∷ chunks) t buf rest queued room =
      let (s', next, left) =
        sockets.next_ok (binary bytes) (map binary chunks ++ rest) t.stream queued in
      let sizes = length-append bytes (joined chunks) in
      let filled = length-append buf.filled bytes in
      let later =
        read-AllRead chunks (record t { stream = s' }) (record buf { filled = buf.filled ++ bytes })
          rest left (omega arith) in
      record {
        after = later.after;
        steps =
            subst (λ f. Read (suc (length chunks)) t buf later.after (record buf { filled = f }))
              (append_assoc buf.filled bytes (joined chunks))
              (read (poll_read-fits t buf bytes s' next (omega arith)) later.steps);
        left = later.left;
      }

  -- Chunks that a socket with room for them takes are written whole, one message each, and a stream on
  -- which these messages have come in reads them back, one after another, in that order and with
  -- nothing between them, where the buffer has room for all of them.
  pub ws_round_trip :
      (w r : WebSocketTransportStream S) (chunks : List (List ℕ)) (buf : ReadBuf)
      (rest : List WsMessage)
      → sockets.can_send w.stream ≡ true
      → sockets.queued r.stream ≡ map binary chunks ++ rest
      → length buf.filled + length (joined chunks) ≤ buf.capacity
      → AllWritten w chunks × AllRead r buf chunks rest
  ws_round_trip w r chunks buf rest can queued room =
      (write-AllWritten chunks w can, read-AllRead chunks r buf rest queued room)

  -- A message that is longer than the room left in the buffer makes the read panic.
  pub long_message_panics :
      (t : WebSocketTransportStream S) (buf : ReadBuf) (bytes : List ℕ) (rest : List WsMessage)
      → sockets.queued t.stream ≡ binary bytes ∷ rest
      → length buf.filled ≤ buf.capacity
      → buf.capacity < length buf.filled + length bytes
      → (poll_read sockets t buf).0 ≡ ready panic
  unfolding deliver
  long_message_panics t buf bytes rest queued held over =
      let (s', next, _) = sockets.next_ok (binary bytes) rest t.stream queued in
      ap (λ x. x.0) (poll_read-next t buf (ready (some (ok (binary bytes)))) s' next)
      ∙ ap (λ o. (delivered sockets buf o).0) (put_slice-overflows bytes buf over held)

  -- A ping that has come in ends a read as pending, although the message behind it is there already.
  pub ping_pends :
      (t : WebSocketTransportStream S) (buf : ReadBuf) (bytes : List ℕ) (m : WsMessage)
      (rest : List WsMessage)
      → sockets.queued t.stream ≡ ping bytes ∷ m ∷ rest
      → (after : WebSocketTransportStream S) × (poll_read sockets t buf ≡ (pending, (buf, after)))
        × (sockets.queued after.stream ≡ m ∷ rest)
  ping_pends t buf bytes m rest queued =
      let (s', next, left) = sockets.next_ok (ping bytes) (m ∷ rest) t.stream queued in
      (
        record t { stream = s' },
        poll_read-next t buf (ready (some (ok (ping bytes)))) s' next,
        left,
      )
