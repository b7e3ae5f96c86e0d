-- ===== src/Examples/Parsing.antt =====
-- The base header, the frames and the validation at concrete inputs.
use zeroio.Common.{ℕ, ◌≡◌, ◌≤◌, ◌↔◌, refl, List, ◌++◌, ok, err, All, arith, length}
use zeroio.Common.Words.{IsByte}
use zeroio.Protocol.Errors.{missing_required_field}
use zeroio.Protocol.External.Reference.{nom}
use zeroio.Protocol.Types.MessageType.{request, to_u8}
use zeroio.Protocol.Types.Header
use zeroio.Protocol.Types.BaseHeader.{encode}
use zeroio.Protocol.Message.Bytes.{frame_bytes, IsFrame, from_bytes-frame, from_bytes_sound}
use zeroio.Protocol.Message.{from_bytes, fresh}
use zeroio.Protocol.Parser.Base.{parse_base_header}
use zeroio.Protocol.Parser.Peek.{peek_message_info}
use zeroio.Protocol.Parser.Peek.Agrees.{Agree, peek_agrees}
use zeroio.Protocol.Parser.Validate.{validate_message_structure}
use zeroio.Protocol.Parser.Validate.Rules.{IsWellFormed, validate_iff}
use zeroio.Protocol.Parser.Validate.Causes.{Explains, validate-Explains}
use zeroio.Examples.Data.{base, base-IsFrame, header_part, payload_part, sample_header, Boxed}

abbrev rest : List ℕ
rest = header_part ++ payload_part

bytes_ok : All IsByte (encode base ++ rest)
unfolding encode to_u8
bytes_ok = ground arith

long : 34 ≤ length (encode base ++ rest)
unfolding encode
long = omega arith

peek_agrees_example :
    Agree (parse_base_header nom (encode base ++ rest)) (peek_message_info (encode base ++ rest))
peek_agrees_example = peek_agrees nom (encode base ++ rest) long

validate_iff_example :
    (validate_message_structure request sample_header ≡ ok tt) ↔ IsWellFormed request sample_header
validate_iff_example = validate_iff request sample_header

no_routing :
    validate_message_structure {V = ℕ} request Header.new
    ≡ err (missing_required_field "routing" "REQ")
unfolding validate_message_structure
no_routing = refl

validate-Explains_example :
    Explains {V = ℕ} request Header.new (missing_required_field "routing" "REQ")
validate-Explains_example =
    validate-Explains request Header.new (missing_required_field "routing" "REQ") no_routing

accepted :
    from_bytes {V = ℕ} {A = Boxed} nom (encode base ++ rest) ≡ ok (fresh base (encode base ++ rest))
accepted = from_bytes-frame base-IsFrame nom

from_bytes_sound_example :
    (hb : List ℕ) × (pb : List ℕ) × (encode base ++ rest ≡ frame_bytes base hb pb)
    × IsFrame base hb pb
    × (fresh {V = ℕ} {A = Boxed} base (encode base ++ rest) ≡ fresh base (encode base ++ rest))
from_bytes_sound_example =
    from_bytes_sound nom (encode base ++ rest) (fresh base (encode base ++ rest)) bytes_ok accepted
      (omega arith)
