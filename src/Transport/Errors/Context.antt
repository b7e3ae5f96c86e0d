-- ===== src/Transport/Errors/Context.antt =====
-- What the texts of `TransportResultExt` leave as it is.
use zeroio.Common.{◌≡◌, refl, String, Option, [], ok, err, panic, map_err, arith}
use zeroio.Protocol.Errors.{Text}
use zeroio.Transport.Errors.{
  TransportError, TransportResult, io, connection_failure, invalid_url, with_context,
  with_connection_info,
}

-- An error without the text that may be put in front of its message.
abbrev pub without_text : TransportError → TransportError
without_text (io msg) = io []
without_text (connection_failure msg) = connection_failure []
without_text (invalid_url msg) = invalid_url []
without_text e = e

-- Adding a context or the connection to a result changes at most the text of an I/O error, a
-- failed connection or, for a context, an invalid URL: success, a panic, the kind of the error and
-- every other error stay as they are.
pub context_keeps :
    {A : Type 0} (r : TransportResult A) (context : Text) (kind : String)
    (local remote : Option String)
    → (map_err without_text (with_context r context) ≡ map_err without_text r)
      × (map_err without_text (with_connection_info r kind local remote) ≡ map_err without_text r)
unfolding with_context with_connection_info
context_keeps (ok a) context kind local remote = (refl, refl)
context_keeps panic context kind local remote = (refl, refl)
context_keeps (err e) context kind local remote = ground arith
