-- ===== src/Transport/Io.antt =====
-- What the transports use of `std::io`, `url` and tokio's byte streams: errors, parsed urls, and the
-- operations on a socket with the behaviour that they document.
use zeroio.Common.{
  ℕ, String, ◌≡◌, Bool, true, Option, none, some, List, ◌∷◌, [], ◌++◌, Result, ok, err, ◌>>=◌,
  map_err, length, refl, sym, ok-injective, err-ne-ok,
}
use zeroio.Protocol.Errors.{Text, lit, num}
use zeroio.Transport.Errors.{TransportError, TransportResult, IoErrorKind, from_io, invalid_url}

-- `std::io::Error`, with its text.
pub record IoError : Type 0 where
  pub kind : IoErrorKind
  pub text : String

abbrev pub IoResult : Type 0 → Type 0
IoResult A = Result IoError A

-- `?` on an I/O result.
abbrev pub from_io_result : {A : Type 0} → IoResult A → TransportResult A
from_io_result r = map_err (λ e. from_io e.kind e.text) r

-- `map_err` with the text of the error behind another one.
abbrev pub with_text :
    {A : Type 0} → (Text → TransportError) → Text → IoResult A → TransportResult A
with_text to text r = map_err (λ e. to (text ++ (lit e.text ∷ []))) r

-- What the code reads of a `url::Url`.
pub record Url : Type 0 where
  pub scheme : String
  pub host_str : Option String
  pub port : Option ℕ
  pub path : String
  pub as_str : String

-- `Url::parse`, whose error is known by its text, with `?`.
abbrev pub parsed : Result String Url → TransportResult Url
parsed r = map_err (λ e. invalid_url (lit e ∷ [])) r

abbrev or_missing : {A : Type 0} → String → Option A → TransportResult A
or_missing message none = err (invalid_url (lit message ∷ []))
or_missing message (some a) = ok a

-- `"{host}:{port}"` of a url that has both.
abbrev pub host_port : Url → TransportResult Text
host_port u = do
  host ← or_missing "Missing host" u.host_str
  port ← or_missing "Missing port" u.port
  ok (lit host ∷ lit ":" ∷ num port ∷ [])

pub host_port-eq-ok :
    (u : Url) (addr : Text)
    → host_port u ≡ ok addr
    → (host : String) × (port : ℕ) × (u.host_str ≡ some host)
      × (u.port ≡ some port)
      × (addr ≡ lit host ∷ lit ":" ∷ num port ∷ [])
host_port-eq-ok u addr e = by_fields u.host_str u.port refl refl e
  where
    by_fields :
        (h : Option String) (p : Option ℕ)
        → u.host_str ≡ h
        → u.port ≡ p
        → (or_missing "Missing host" h >>= λ host.
            or_missing "Missing port" p >>= λ port. ok (lit host ∷ lit ":" ∷ num port ∷ []))
          ≡ ok addr
        → (host : String) × (port : ℕ) × (u.host_str ≡ some host)
          × (u.port ≡ some port)
          × (addr ≡ lit host ∷ lit ":" ∷ num port ∷ [])
    by_fields none p eh ep e = err-ne-ok e
    by_fields (some h) none eh ep e = err-ne-ok e
    by_fields (some h) (some p) eh ep e = (h, p, eh, ep, sym (ok-injective e))

-- What `tokio::time::timeout` gives: the result in time, or the state that the operation had
-- reached when it was dropped.
pub data Timed (S : Type 0) : Type 0 where
  in_time : Timed S
  elapsed : S → Timed S

-- A byte stream of tokio, of a state `S`: the bytes that will come in, and those that went out.
pub record Socket (S : Type 0) : Type 0 where
  pub read_exact : ℕ → S → IoResult (List ℕ) × S
  pub write_all : List ℕ → S → IoResult (Unit {0}) × S
  pub flush : S → IoResult (Unit {0}) × S
  pub shutdown : S → IoResult (Unit {0}) × S
  pub incoming : S → List ℕ
  pub outgoing : S → List ℕ
  pub is_open : S → Bool
  pub read_ok :
      (bytes rest : List ℕ) (s : S)
      → is_open s ≡ true
      → incoming s ≡ bytes ++ rest
      → (s' : S) × (read_exact (length bytes) s ≡ (ok bytes, s'))
        × (incoming s' ≡ rest)
        × (is_open s' ≡ true)
  pub write_ok :
      (bytes : List ℕ) (s : S)
      → is_open s ≡ true
      → (s' : S) × (write_all bytes s ≡ (ok tt, s'))
        × (outgoing s' ≡ outgoing s ++ bytes)
        × (is_open s' ≡ true)
  pub flush_ok :
      (s : S)
      → is_open s ≡ true
      → (s' : S) × (flush s ≡ (ok tt, s')) × (outgoing s' ≡ outgoing s) × (is_open s' ≡ true)
