-- ===== src/Protocol/Parser/Base.antt =====
-- `parse_base_header` and its nom parser, of crates/protocol/src/parser.rs.
pub mod Fields
pub mod RoundTrip
pub mod Soundness
use zeroio.Common.{ℕ, none, some, List, [], ◌∷◌, ok, err, ◌>>=◌, map_ok, map_err, ◌==◌}
use zeroio.Protocol.Constants.{protocol_version, reserved_size}
use zeroio.Protocol.Errors.{ProtocolResult, lit, parse_error}
use zeroio.Protocol.External.{IResult, Nom, tag}
use zeroio.Protocol.Types.MessageType.{from_u8}
use zeroio.Protocol.Types.BaseHeader.{BaseHeader}

module _ {E : Type 0} (nom : Nom E) where
  open nom use {be_u8, be_u32, be_u64, take_bytes, verify, error, display}

  -- From the conversion of the message type to the end of `parse_base_header_nom`.
  unfoldable pub convert : List ℕ → ℕ → ℕ → ℕ → List ℕ → ℕ → ℕ → IResult E BaseHeader
  convert input version type_u8 client_id reserved header_length payload_length =
      elim (from_u8 type_u8) [
        | none ↦ err (error input tag)
        | some message_type ↦ ok (
          input,
          record {
            version = version;
            message_type = message_type;
            client_id = client_id;
            reserved = reserved;
            header_length = header_length;
            payload_length = payload_length;
          },
        )
      ]

  -- nom runs the six parsers of the tuple one after the other.
  unfoldable pub parse_base_header_nom : List ℕ → IResult E BaseHeader
  parse_base_header_nom input = do
    (i1, version) ← verify be_u8 (λ v. v == protocol_version) input
    (i2, type_u8) ← be_u8 i1
    (i3, client_id) ← be_u32 i2
    (i4, reserved) ← take_bytes reserved_size i3
    (i5, header_length) ← be_u32 i4
    (i6, payload_length) ← be_u64 i5
    convert i6 version type_u8 client_id reserved header_length payload_length

  unfoldable pub parse_base_header : List ℕ → ProtocolResult BaseHeader
  parse_base_header input =
      map_err (λ e. parse_error (lit "Failed to parse base header: " ∷ lit (display e) ∷ []))
        (map_ok (λ r. r.1) (parse_base_header_nom input))
