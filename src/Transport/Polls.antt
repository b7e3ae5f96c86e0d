-- ===== src/Transport/Polls.antt =====
-- What crates/transport uses of the polls of tokio's byte streams, and of the buffer they read into.
use zeroio.Common.{ℕ, ◌-◌, Option, none, some, List, ◌++◌, length, if◌then◌else◌, ltb}
use zeroio.Transport.Io.{IoResult}

pub data Poll (A : Type 0) : Type 0 where
  ready : A → Poll A
  pending : Poll A

-- tokio's `ReadBuf`, with the bytes that are filled so far.
pub record ReadBuf : Type 0 where
  pub filled : List ℕ
  pub capacity : ℕ

abbrev pub remaining : ReadBuf → ℕ
remaining buf = buf.capacity - length buf.filled

-- It asserts that the bytes fit.
unfoldable pub put_slice : List ℕ → ReadBuf → Option ReadBuf
put_slice bytes buf =
    if ltb (remaining buf) (length bytes)
    then none
    else some (record buf { filled = buf.filled ++ bytes })

-- `AsyncRead` of a state `T`
pub record AsyncRead (T : Type 0) : Type 0 where
  pub poll_read : T → ReadBuf → Poll (IoResult (Unit {0})) × (ReadBuf × T)

-- `AsyncWrite` of a state `T`
pub record AsyncWrite (T : Type 0) : Type 0 where
  pub poll_write : T → List ℕ → Poll (IoResult ℕ) × T
  pub poll_flush : T → Poll (IoResult (Unit {0})) × T
  pub poll_shutdown : T → Poll (IoResult (Unit {0})) × T

-- A field that the polls are passed on to, and the way to put it back.
module _ {T F : Type 0} (field : T → F) (put_back : T → F → T) where
  abbrev pub read_through : AsyncRead F → AsyncRead T
  read_through r = record {
    poll_read =
        λ t buf. let (p, (buf', f)) = r.poll_read (field t) buf in (p, (buf', put_back t f));
  }

  abbrev pub write_through : AsyncWrite F → AsyncWrite T
  write_through w = record {
    poll_write = λ t bytes. let (p, f) = w.poll_write (field t) bytes in (p, put_back t f);
    poll_flush = λ t. let (p, f) = w.poll_flush (field t) in (p, put_back t f);
    poll_shutdown = λ t. let (p, f) = w.poll_shutdown (field t) in (p, put_back t f);
  }
