-- ===== src/Protocol/Parser/Frame.antt =====
-- `parse_message_bytes` of crates/protocol/src/parser.rs.
pub mod RoundTrip
use zeroio.Common.{
  ℕ, ◌+◌, Bool, List, [], ◌∷◌, Result, ok, err, panic, ◌>>=◌, ◌==◌, if◌then◌else◌, is_empty, length,
  not, map_err,
}
use zeroio.Protocol.Constants.{base_header_size}
use zeroio.Protocol.Errors.{ProtocolError, ProtocolResult, lit, parse_error}
use zeroio.Protocol.External.{IResult, Nom, length_value}
use zeroio.Protocol.Types.BaseHeader.{BaseHeader, total_message_size}
use zeroio.Protocol.Parser.Base.{parse_base_header_nom}

pub record MessageFrame : Type 0 where
  pub base_header : BaseHeader
  pub header_bytes : List ℕ
  pub payload_bytes : List ℕ

module _ {E : Type 0} (nom : Nom E) where
  open nom use {take_bytes, error, display}

  -- `parse_message_frame_nom` from the size check on; `input` is what follows the base header.
  unfoldable pub frame_of : List ℕ → BaseHeader → IResult E MessageFrame
  frame_of input h =
      if length input + base_header_size == total_message_size h
      then (do
        (i1, header_bytes) ← take_bytes h.header_length input
        (i2, payload_bytes) ← take_bytes h.payload_length i1
        ok (
          i2,
          record { base_header = h; header_bytes = header_bytes; payload_bytes = payload_bytes },
        ))
      else err (error input length_value)

  unfoldable pub parse_message_frame_nom : List ℕ → IResult E MessageFrame
  unfolding frame_of
  parse_message_frame_nom input = do (rest, h) ← parse_base_header_nom nom input; frame_of rest h

  abbrev complete : List ℕ × MessageFrame → ProtocolResult MessageFrame
  complete (remaining, frame) =
      if is_empty remaining
      then ok frame
      else err (parse_error (lit "Unexpected data after message" ∷ []))

  unfoldable pub parse_message_bytes : List ℕ → ProtocolResult MessageFrame
  parse_message_bytes input = do
    r ←
        map_err (λ e. parse_error (lit "Failed to parse message: " ∷ lit (display e) ∷ []))
          (parse_message_frame_nom input)
    complete r
