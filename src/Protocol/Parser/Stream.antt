-- ===== src/Protocol/Parser/Stream.antt =====
-- `MessageParser` of crates/protocol/src/parser.rs. A method returns its result and the parser
-- that it leaves.
pub mod Extract
pub mod Bounds
pub mod Batch
pub mod Corrupt
pub mod NoPanic
pub mod Oversized
pub mod Wrapped
pub mod Inbox
pub mod Refines
use zeroio.Common.{
  ℕ, zero, suc, ◌+◌, Bool, Option, none, some, List, [], ◌∷◌, ◌++◌, Result, ok, err, panic, map_ok,
  ltb, if◌then◌else◌, is_empty, length, take,
}
use zeroio.Common.Words.{as_u32}
use zeroio.Protocol.Constants.{base_header_size, default_max_message_size, default_max_header_size}
use zeroio.Protocol.Errors.{ProtocolError, ProtocolResult, header_too_large, message_too_large}
use zeroio.Protocol.External.{Nom, Buffers}
use zeroio.Protocol.Types.BaseHeader.{BaseHeader, total_message_size}
use zeroio.Protocol.Message.{Message, from_bytes}
use zeroio.Protocol.Parser.Base.{parse_base_header}

pub record MessageParser : Type 0 where
  pub buffer : List ℕ
  pub max_message_size : ℕ
  pub max_header_size : ℕ

abbrev pub with_limits : ℕ → ℕ → MessageParser
with_limits max_message max_header = record {
  buffer = [];
  max_message_size = max_message;
  max_header_size = max_header;
}

abbrev pub new : MessageParser
new = with_limits default_max_message_size default_max_header_size

abbrev pub buffer_size : MessageParser → ℕ
buffer_size p = length p.buffer

abbrev pub clear : MessageParser → MessageParser
clear p = record p { buffer = [] }

abbrev pub is_buffer_empty : MessageParser → Bool
is_buffer_empty p = is_empty p.buffer

unfoldable pub push_data :
    Buffers → MessageParser → List ℕ → ProtocolResult (Unit {0}) × MessageParser
push_data bufs p more =
    if ltb p.max_message_size (length p.buffer + length more)
    then (err (message_too_large (length p.buffer + length more) p.max_message_size), p)
    else (ok tt, record p { buffer = bufs.extend_from_slice p.buffer more })

abbrev pub Parsed : Type 0 → Type 0 → Type 0
Parsed V A = ProtocolResult (Option (Message V A)) × MessageParser

-- What a loop on fuel returns: `none` means that the fuel ran out.
abbrev pub Loop : Type 0 → Type 0 → Type 0
Loop V A = Option (ProtocolResult (List (Message V A)) × MessageParser)

module _ {E V A : Type 0} (nom : Nom E) (bufs : Buffers) where
  abbrev deliver : MessageParser → Option (List ℕ × List ℕ) → Parsed V A
  deliver p none = (panic, p)
  deliver p (some (bytes, rest)) = (map_ok some (from_bytes nom bytes), record p { buffer = rest })

  -- The checks of `try_parse` on the sizes that the base header announces.
  unfoldable pub extract : MessageParser → BaseHeader → Parsed V A
  extract p h =
      if ltb (as_u32 p.max_header_size) h.header_length
      then (err (header_too_large h.header_length p.max_header_size), p)
      else if ltb p.max_message_size (total_message_size h)
      then (err (message_too_large (total_message_size h) p.max_message_size), p)
      else if ltb (length p.buffer) (total_message_size h)
      then (ok none, p)
      else deliver p (bufs.split_to (total_message_size h) p.buffer)

  -- A base header that does not parse is taken for one that is not complete yet.
  abbrev with_base : MessageParser → ProtocolResult BaseHeader → Parsed V A
  with_base p (ok h) = extract p h
  with_base p (err e) = (ok none, p)
  with_base p panic = (panic, p)

  unfoldable pub try_parse : MessageParser → Parsed V A
  unfolding extract
  try_parse p =
      if ltb (length p.buffer) base_header_size
      then (ok none, p)
      else with_base p (parse_base_header nom (take base_header_size p.buffer))

  -- `while let Some(message) = self.try_parse()?` on fuel.
  unfoldable pub parse_loop : ℕ → MessageParser → List (Message V A) → Loop V A
  parse_loop zero p messages = none
  parse_loop (suc fuel) p messages =
      let (result, p') = try_parse p in
      elim result [
        | ok (some m) ↦ parse_loop fuel p' (messages ++ m ∷ [])
        | ok none ↦ some (ok messages, p')
        | err e ↦ some (err e, p')
        | panic ↦ some (panic, p')
      ]

  -- Every message takes 34 bytes at least, so the length of the buffer bounds the rounds.
  unfoldable pub parse_all : MessageParser → Loop V A
  unfolding parse_loop
  parse_all p = parse_loop (suc (length p.buffer)) p []
