-- ===== src/Examples/Pipes.antt =====
-- Tcp and WebSocket streams at concrete inputs: sockets that are lists of what comes in and what
-- went out.
use zeroio.Common.{
  ℕ, ◌≡◌, refl, ◌∙◌, ap, String, true, false, Option, none, some, List, [], ◌∷◌, ◌++◌, Result, ok,
  err, length, leb, if◌then◌else◌, take, drop, take-append, drop-append, length-append, arith, map,
  tests, replicate,
}
use zeroio.Transport.Errors.{WsError, any_other, message_too_large, timeout}
use zeroio.Transport.Traits.{ConnectionInfo, default_timeouts, from_secs}
use zeroio.Transport.Io.{Socket, IoResult, Url, in_time, elapsed}
use zeroio.Transport.Tcp.{TcpTransportStream, read_frame, write_frame, default_config}
use zeroio.Transport.Tcp.RoundTrip.{IsJoined, long_frame_refused}
use zeroio.Transport.Tcp.Frames.{write_frames, read_frames, frames_round_trip}
use zeroio.Transport.Tcp.Late.{late_read_misframes}
use zeroio.Transport.Tcp.Connect as Connect
use zeroio.Transport.Tcp.Connect.{Net}
use zeroio.Transport.Tcp.Connect.Sound.{IsConnected, connect_sound}
use zeroio.Transport.Polls.{ReadBuf, Poll, ready, pending}
use zeroio.Transport.WebSocket.{WsMessage, binary, WebSockets, WebSocketTransportStream}
use zeroio.Transport.WebSocket.Reading.{AllWritten, AllRead, ws_round_trip}

pub record Pipe : Type 0 where
  pub coming : List ℕ
  pub gone : List ℕ

abbrev read_pipe : ℕ → Pipe → IoResult (List ℕ) × Pipe
read_pipe n s =
    if leb n (length s.coming)
    then (ok (take n s.coming), record s { coming = drop n s.coming })
    else (err (record { kind = any_other; text = "early eof" }), s)

leb-append : (bytes rest : List ℕ) → leb (length bytes) (length (bytes ++ rest)) ≡ true
leb-append bytes rest = let lengths = length-append bytes rest in grind tests

pub read_pipe-append :
    (bytes rest : List ℕ) (s : Pipe)
    → s.coming ≡ bytes ++ rest
    → read_pipe (length bytes) s ≡ (ok bytes, record s { coming = rest })
read_pipe-append bytes rest s e =
    ap (λ l. read_pipe (length bytes) (record s { coming = l })) e
    ∙ ap
        (λ b.
          if b
          then (
            ok (take (length bytes) (bytes ++ rest)),
            record s { coming = drop (length bytes) (bytes ++ rest) },
          )
          else (
            err (record { kind = any_other; text = "early eof" }),
            record s { coming = bytes ++ rest },
          ))
        (leb-append bytes rest)
    ∙ ap (λ l. (ok l, record s { coming = drop (length bytes) (bytes ++ rest) }))
        (take-append bytes rest)
    ∙ ap (λ l. (ok bytes, record s { coming = l })) (drop-append bytes rest)

abbrev pub pipes : Socket Pipe
pipes = record {
  read_exact = read_pipe;
  write_all = λ bytes s. (ok tt, record s { gone = s.gone ++ bytes });
  flush = λ s. (ok tt, s);
  shutdown = λ s. (ok tt, s);
  incoming = λ s. s.coming;
  outgoing = λ s. s.gone;
  is_open = λ s. true;
  read_ok = λ bytes rest s opened e.
      (record s { coming = rest }, read_pipe-append bytes rest s e, refl, refl);
  write_ok = λ bytes s opened. (record s { gone = s.gone ++ bytes }, refl, refl, refl);
  flush_ok = λ s opened. (s, refl, refl, refl);
}

abbrev info : ConnectionInfo
info = record { transport_type = "tcp"; local_addr = none; remote_addr = none; metadata = [] }

abbrev at : List ℕ → TcpTransportStream Pipe
at coming = record {
  stream = record { coming = coming; gone = [] };
  info = info;
  timeouts = default_timeouts;
}

abbrev hello : List ℕ
hello = 104 ∷ 105 ∷ []

abbrev hello_reader : TcpTransportStream Pipe
hello_reader = at (0 ∷ 0 ∷ 0 ∷ 2 ∷ 104 ∷ 105 ∷ 9 ∷ [])

hello-IsJoined : IsJoined pipes (at []) hello_reader hello (9 ∷ [])
unfolding write_frame
hello-IsJoined = record {
  writer_open = refl;
  reader_open = refl;
  nothing_sent = refl;
  arrives = refl;
  frame_small = omega arith;
}

abbrev hellos : List (List ℕ)
hellos = hello ∷ [] ∷ hello ∷ []

abbrev hellos_reader : TcpTransportStream Pipe
hellos_reader = at (0 ∷ 0 ∷ 0 ∷ 2 ∷ 104 ∷ 105 ∷ 0 ∷ 0 ∷ 0 ∷ 0 ∷ 0 ∷ 0 ∷ 0 ∷ 2 ∷ 104 ∷ 105 ∷ 9 ∷ [])

hellos_arrive :
    hellos_reader.stream.coming ≡ (write_frames pipes hellos (at [])).1.stream.gone ++ (9 ∷ [])
unfolding write_frame
hellos_arrive = refl

frames_round_trip_example :
    ((write_frames pipes hellos (at [])).0 ≡ ok tt)
    × ((read_frames pipes 3 hellos_reader).0 ≡ ok hellos)
    × ((read_frames pipes 3 hellos_reader).1.stream.coming ≡ 9 ∷ [])
frames_round_trip_example =
    frames_round_trip pipes hellos (at []) hellos_reader (9 ∷ []) refl refl refl hellos_arrive
      ((omega arith, omega arith), ((omega arith, omega arith), ((omega arith, omega arith), tt)))

-- A frame of eight bytes that holds another one.
abbrev nested : TcpTransportStream Pipe
nested = at (0 ∷ 0 ∷ 0 ∷ 8 ∷ 0 ∷ 0 ∷ 0 ∷ 2 ∷ 104 ∷ 105 ∷ 1 ∷ 2 ∷ 9 ∷ [])

late_read_misframes_example :
    let late = read_frame pipes (elapsed (pipes.read_exact 4 nested.stream).1) nested in
    (late.0 ≡ err (timeout (from_secs 30)))
    × ((read_frame pipes in_time late.1).0 ≡ ok hello)
    × ((read_frame pipes in_time late.1).1.stream.coming ≡ 1 ∷ 2 ∷ 9 ∷ [])
late_read_misframes_example =
    late_read_misframes pipes nested (from_secs 30) hello (1 ∷ 2 ∷ []) (9 ∷ []) refl refl refl
      (omega arith) (omega arith)

-- One byte more than the timeout of the reader has seconds.
abbrev long : List ℕ
long = replicate 31 7

abbrev long_reader : TcpTransportStream Pipe
long_reader = at ((0 ∷ 0 ∷ 0 ∷ 31 ∷ []) ++ long)

long-IsJoined : IsJoined pipes (at []) long_reader long []
unfolding write_frame
long-IsJoined = record {
  writer_open = refl;
  reader_open = refl;
  nothing_sent = refl;
  arrives = refl;
  frame_small = omega arith;
}

long_frame_refused_example :
    ((write_frame pipes in_time (at []) long).0 ≡ ok tt)
    × ((read_frame pipes in_time long_reader).0 ≡ err (message_too_large 31 30))
    × ((read_frame pipes in_time long_reader).1.stream.coming ≡ long ++ [])
long_frame_refused_example =
    long_frame_refused pipes (at []) long_reader long [] long-IsJoined (omega arith)

-- Every connection is made at once, and every option can be set.
abbrev net : Net ℕ ℕ
net = record {
  connect = λ addr. ok 1;
  answers_within = λ addr d. true;
  local_addr = λ s. ok "127.0.0.1:50000";
  peer_addr = λ s. ok "127.0.0.1:80";
  set_nodelay = λ b s. ok (if b then 2 else 3);
  into_std = λ s. ok s;
  set_tcp_keepalive = λ time interval s. ok 4;
  from_std = λ s. ok s;
  bind = λ addr. ok 2;
  accept = λ l. (ok (3, "127.0.0.1:50000"), l);
  listener_addr = λ l. ok "127.0.0.1:80";
}

abbrev parse : String → Result String Url
parse url = ok (record {
  scheme = "tcp";
  host_str = some "127.0.0.1";
  port = some 80;
  path = "";
  as_str = url;
})

abbrev dialled : TcpTransportStream ℕ
dialled = Connect.new 4 "127.0.0.1:50000" "127.0.0.1:80" (record {
  read_timeout = default_config.read_timeout;
  write_timeout = default_config.write_timeout;
  connect_timeout = default_config.connect_timeout;
})

dialled_ok : Connect.connect net default_config parse "tcp://127.0.0.1:80" ≡ ok dialled
unfolding Connect.connect Connect.apply_config
dialled_ok = refl

connect_sound_example : IsConnected net default_config (parse "tcp://127.0.0.1:80") dialled
connect_sound_example =
    connect_sound net default_config parse "tcp://127.0.0.1:80" dialled dialled_ok

pub record Web : Type 0 where
  pub waiting : List WsMessage
  pub gone : List WsMessage

abbrev next_message : List WsMessage → Web → Poll (Option (Result WsError WsMessage)) × Web
next_message [] s = (pending, s)
next_message (m ∷ rest) s = (ready (some (ok m)), record s { waiting = rest })

abbrev pub webs : WebSockets Web
webs = record {
  to_string = λ e. "error";
  poll_next = λ s. next_message s.waiting s;
  poll_ready = λ s. (ready (ok tt), s);
  start_send = λ m s. (ok tt, record s { gone = s.gone ++ (m ∷ []) });
  poll_flush = λ s. (ready (ok tt), s);
  poll_close = λ s. (ready (ok tt), s);
  close = λ s. (ok tt, s);
  is_terminated = λ s. false;
  queued = λ s. s.waiting;
  outgoing = λ s. s.gone;
  can_send = λ s. true;
  next_ok = λ m rest s e. (record s { waiting = rest }, ap (λ l. next_message l s) e, refl);
  send_ok = λ m s can. (s, record s { gone = s.gone ++ (m ∷ []) }, refl, refl, refl, refl);
}

abbrev web : List WsMessage → WebSocketTransportStream Web
web waiting = record {
  stream = record { waiting = waiting; gone = [] };
  info = info;
  timeouts = default_timeouts;
}

abbrev room : ℕ → ReadBuf
room n = record { filled = []; capacity = n }

abbrev chunks : List (List ℕ)
chunks = (1 ∷ 2 ∷ []) ∷ (3 ∷ []) ∷ []

ws_round_trip_example :
    AllWritten webs (web []) chunks × AllRead webs (web (map binary chunks)) (room 3) chunks []
ws_round_trip_example =
    ws_round_trip webs (web []) (web (map binary chunks)) chunks (room 3) [] refl refl (omega arith)
